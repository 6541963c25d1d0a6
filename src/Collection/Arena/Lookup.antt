-- ===== src/Collection/Arena/Lookup.antt =====
-- The map as a function from keys to values, and why equal maps have equal representations.
use native.Mathlib.Decide.{dec_lt}
use kodiak.Base.{
  get_elem?-none, ℕ, suc, ◌+◌, ◌≡◌, ◌∙◌, refl, ap, ap₂, arith, Option, none, some, List, [], ◌∷◌,
  length, set, if◌then◌else◌, ◌==◌, leb, leb→le, sym, Bool-cases, Option-cases, inl, inr,
}
use kodiak.Collection.Arena.{ArenaMap, new, get, insert, remove, shrink}
use kodiak.Collection.Arena.Key.{ArenaKey}
use kodiak.Collection.Arena.Slots.{
  resize_with, count_some, shrink_loop-trim, join-trim, trim, trim_cons, trim_of_EndsInValue,
}
use kodiak.Collection.Arena.Writes.{
  slot, slot_lt, slot_unchanged, slot-set, slot-resize, length-resize,
}
use kodiak.Collection.Arena.Invariant.{IsValid}

-- Two vectors that read alike have the same slots up to their last value.
trim_eq {ℓ} :
    {V : Type ℓ} (xs ys : List (Option V)) → ((i : ℕ) → slot xs i ≡ slot ys i) → trim xs ≡ trim ys
trim_eq [] [] h = refl
trim_eq [] (y ∷ ys) h = ap₂ trim_cons (h 0) (trim_eq [] ys (λ i. h (suc i)))
trim_eq (x ∷ xs) [] h = ap₂ trim_cons (h 0) (trim_eq xs [] (λ i. h (suc i)))
trim_eq (x ∷ xs) (y ∷ ys) h = ap₂ trim_cons (h 0) (trim_eq xs ys (λ i. h (suc i)))

module _ {ℓ} {K : Type 0} {V : Type ℓ} ⦃key : ArenaKey K⦄ where
  open key use {to_index}

  pub get_lem : (m : ArenaMap K V) (k : K) → get m k ≡ slot m.slots (to_index k)
  unfolding get
  get_lem m k = refl

  pub get-new : (k : K) → get (new {K = K} {V = V}) k ≡ none
  unfolding get new
  get-new k = refl

  -- After `insert`, the key holds the new value and every other key holds what it held.
  pub get-insert :
      (m : ArenaMap K V) (k j : K) (v : V)
      → get (insert m k v).0 j ≡ (if to_index k == to_index j then some v else get m j)
  unfolding insert get
  get-insert m k j v = elim (Bool-cases (leb (length m.slots) (to_index k))) [
    | inl grow ↦
        let e : to_index k + 1 ≡ suc (to_index k) = omega arith in
        rw (
          grow,
          e,
          slot-set (resize_with m.slots (suc (to_index k)) none) (to_index k) (to_index j) (some v)
              (omega (arith, length-resize m.slots (suc (to_index k)) none)),
          slot-resize m.slots (suc (to_index k)) (to_index j) (omega (arith, leb→le _ _ grow)),
        )
    | inr fits ↦ rw (fits, slot-set m.slots (to_index k) (to_index j) (some v) (ground arith))
  ]

  -- `insert` returns the value that was there.
  pub insert_returns : (m : ArenaMap K V) (k : K) (v : V) → (insert m k v).1 ≡ get m k
  unfolding insert get
  insert_returns m k v = elim (Bool-cases (leb (length m.slots) (to_index k))) [
    | inl grow ↦
        rw grow (slot-resize m.slots (to_index k + 1) (to_index k) (omega (arith, leb→le _ _ grow)))
    | inr fits ↦ rw fits
  ]

  -- After `remove`, the key holds nothing and every other key holds what it held; the value that was
  -- there is returned.
  pub get-remove :
      (m : ArenaMap K V) (k j : K)
      → (get (remove m k).0 j ≡ (if to_index k == to_index j then none else get m j))
        × ((remove m k).1 ≡ get m k)
  unfolding remove get shrink
  get-remove m k j = elim (Option-cases (slot m.slots (to_index k))) [
    | inl e ↦ (rw (e, remove) (slot_unchanged m.slots (to_index k) (to_index j) e), rw (e, remove))
    | inr (v, e) ↦ (
      rw (e, remove)
          (rw
            (
              shrink_loop-trim (length (set m.slots (to_index k) none))
                  (set m.slots (to_index k) none) (omega arith),
              join-trim (set m.slots (to_index k) none) (to_index j),
            )
            (slot-set m.slots (to_index k) (to_index j) none (slot_lt m.slots (to_index k) v e))),
      rw (e, remove),
    )
  ]

  -- Two valid maps that answer every lookup alike are equal, as the lockstep checksum needs: it hashes
  -- the slots and the count, not the entries.
  pub ArenaMap_ext :
      (m n : ArenaMap K V) → IsValid m → IsValid n → ((k : K) → get m k ≡ get n k) → m ≡ n
  unfolding get
  ArenaMap_ext m n p q h = λ i. record { slots = slots_eq i; len = len_eq i }
    where
      alike : (i : ℕ) → slot m.slots i ≡ slot n.slots i
      alike i = elim (dec_lt i key.limit) [
        | yes lt ↦ let (k, _, at) = key.from_index_lem i lt in rw (← at) (h k)
        | no ge ↦ rw (
          get_elem?-none m.slots i (omega (arith, p.within)),
          get_elem?-none n.slots i (omega (arith, q.within)),
        )
      ]

      slots_eq : m.slots ≡ n.slots
      slots_eq =
          sym (trim_of_EndsInValue m.slots p.trimmed)
          ∙ trim_eq m.slots n.slots alike
          ∙ trim_of_EndsInValue n.slots q.trimmed

      len_eq : m.len ≡ n.len
      len_eq = p.counted ∙ ap count_some slots_eq ∙ sym q.counted
