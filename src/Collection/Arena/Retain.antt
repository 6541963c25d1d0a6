-- ===== src/Collection/Arena/Retain.antt =====
-- `ArenaMap::retain`: the callback is asked about each value once, and decides what stays.
use kodiak.Base.{
  ℕ, zero, suc, ◌+◌, ◌-◌, ◌≤◌, ◌<◌, ◌≡◌, ◌∙◌, sym, refl, ap, arith, Bool, true, false, Option, none,
  some, List, [], ◌∷◌, length, returns, Returns, if◌then◌else◌, sub_usize, Bool-cases, inl, inr,
  ◌^◌,
}
use kodiak.Collection.Arena.{ArenaMap, get, shrink, retain, retain_slots}
use kodiak.Collection.Arena.Key.{ArenaKey}
use kodiak.Collection.Arena.Slots.{count_some, shrink_loop-trim, join-trim}
use kodiak.Collection.Arena.Writes.{slot, count_some-le}
use kodiak.Collection.Arena.Invariant.{IsValid, shrink-IsValid}

-- What the callback makes of one slot.
abbrev pub retained {ℓ} : {V : Type ℓ} → (V → V × Bool) → Option V → Option V
retained g none = none
retained g (some v) = if (g v).1 then some (g v).0 else none

module _ {ℓ} {K : Type 0} {V : Type ℓ} ⦃key : ArenaKey K⦄ (f : K → V → V × Bool) where
  open key use {from_index, to_index, limit, limit_fits, to_index-lt, from_index_lem}

  -- The loop from slot `i` on, over the slots `xs`: it returns as many slots, counts off the values
  -- that went, and leaves in each slot what the callback makes of it.
  record Retained (i : ℕ) (xs : List (Option V)) (len : ℕ) (r : List (Option V) × ℕ) : Type ℓ where
    size : length r.0 ≡ length xs
    left : r.1 + count_some xs ≡ len + count_some r.0
    slots : (k : K) (j : ℕ) → to_index k ≡ i + j → slot r.0 j ≡ retained (f k) (slot xs j)

  to_index_injective : (j k : K) → to_index j ≡ to_index k → j ≡ k
  to_index_injective j k e =
      returns_eq (sym (key.from_index-to_index j) ∙ ap from_index e ∙ key.from_index-to_index k)
    where
      returns_eq : {a b : K} → returns a ≡ returns b → a ≡ b
      returns_eq h = cc

  slots_cons :
      (i : ℕ) (x y : Option V) (xs ys : List (Option V))
      → ((k : K) → to_index k ≡ i → y ≡ retained (f k) x)
      → ((k : K) (j : ℕ) → to_index k ≡ suc i + j → slot ys j ≡ retained (f k) (slot xs j))
      → (k : K) (j : ℕ) → to_index k ≡ i + j
      → slot (y ∷ ys) j ≡ retained (f k) (slot (x ∷ xs) j)
  slots_cons i x y xs ys here there k zero e = here k (omega arith)
  slots_cons i x y xs ys here there k (suc j) e = there k j (omega arith)

  -- A value that the callback rejects, or keeps, in front of slots that are done.
  Retained-reject :
      (i : ℕ) (k : K) (v : V) (xs : List (Option V)) (len : ℕ) (r : List (Option V) × ℕ)
      → to_index k ≡ i
      → (f k v).1 ≡ false
      → 0 < len
      → Retained (suc i) xs (len - 1) r
      → Retained i (some v ∷ xs) len (none ∷ r.0, r.1)
  Retained-reject i k v xs len r at gone p d = record {
    size = ap suc d.size;
    left = omega (arith, d.left);
    slots =
        slots_cons i (some v) none xs r.0 (λ j e. rw (to_index_injective j k (e ∙ sym at), gone))
          d.slots;
  }

  Retained-keep :
      (i : ℕ) (k : K) (v : V) (xs : List (Option V)) (len : ℕ) (r : List (Option V) × ℕ)
      → to_index k ≡ i
      → (f k v).1 ≡ true
      → Retained (suc i) xs len r
      → Retained i (some v ∷ xs) len (some (f k v).0 ∷ r.0, r.1)
  Retained-keep i k v xs len r at kept d = record {
    size = ap suc d.size;
    left = omega (arith, d.left);
    slots =
        slots_cons i (some v) (some (f k v).0) xs r.0
          (λ j e. rw (to_index_injective j k (e ∙ sym at), kept)) d.slots;
  }

  retain_slots-Retained :
      (i : ℕ) (xs : List (Option V)) (len : ℕ)
      → i + length xs ≤ limit
      → count_some xs ≤ len
      → len < 2 ^ 64
      → Returns (Retained i xs len) (retain_slots f i xs len)
  unfolding retain_slots
  retain_slots-Retained i [] len w c s =
      (([], len), refl, record { size = refl; left = refl; slots = λ k j e. refl })
  retain_slots-Retained i (none ∷ xs) len w c s =
      let (r, e, d) = retain_slots-Retained (suc i) xs len (omega arith) c s in
      (
        (none ∷ r.0, r.1),
        rw (e, retain_slots),
        record {
          size = ap suc d.size;
          left = d.left;
          slots = slots_cons i none none xs r.0 (λ k h. refl) d.slots;
        },
      )
  retain_slots-Retained i (some v ∷ xs) len w c s =
      let (k, e, at) = from_index_lem i (omega arith) in
      elim (Bool-cases (f k v).1) [
        | inl kept ↦
            let (r, e', d) = retain_slots-Retained (suc i) xs len (omega arith) (omega arith) s in
            ((some (f k v).0 ∷ r.0, r.1), rw (e, kept, e'), Retained-keep i k v xs len r at kept d)
        | inr gone ↦
            let (r, e', d) =
              retain_slots-Retained (suc i) xs (len - 1) (omega arith) (omega arith)
                (omega arith) in
            let minus : sub_usize len 1 ≡ len - 1 = omega arith in
            (
              (none ∷ r.0, r.1),
              rw (e, gone, minus, e'),
              Retained-reject i k v xs len r at gone (omega arith) d,
            )
      ]

  -- On a valid map `retain` returns, and the map stays valid.
  pub retain-IsValid : (m : ArenaMap K V) → IsValid m → Returns IsValid (retain f m)
  unfolding retain
  retain-IsValid m valid =
      let (r, e, d) =
        retain_slots-Retained 0 m.slots m.len (omega (arith, valid.within))
          (omega (arith, valid.counted))
          (omega (arith, valid.counted, count_some-le m.slots, valid.within, limit_fits)) in
      (
        shrink (record { slots = r.0; len = r.1 }),
        rw (e, retain),
        shrink-IsValid _ (omega (arith, d.left, valid.counted))
            (omega (arith, d.size, valid.within)),
      )

  -- On a valid map `retain` returns, and leaves under each key what the callback makes of the
  -- value there.
  pub get-retain :
      (m : ArenaMap K V)
      → IsValid m
      → Returns (λ n. (k : K) → get n k ≡ retained (f k) (get m k)) (retain f m)
  unfolding retain get shrink
  get-retain m valid =
      let (r, e, d) =
        retain_slots-Retained 0 m.slots m.len (omega (arith, valid.within))
          (omega (arith, valid.counted))
          (omega (arith, valid.counted, count_some-le m.slots, valid.within, limit_fits)) in
      (
        shrink (record { slots = r.0; len = r.1 }),
        rw (e, retain),
        λ k.
            rw (shrink_loop-trim (length r.0) r.0 (omega arith), join-trim r.0 (to_index k))
              (d.slots k (to_index k) (omega arith)),
      )
