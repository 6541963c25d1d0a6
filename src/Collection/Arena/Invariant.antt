-- ===== src/Collection/Arena/Invariant.antt =====
-- The invariant that arena_map.rs documents ("never ends in `None`"), with the count that it caches.
use kodiak.Base.{
  ℕ, suc, ◌+◌, ◌≤◌, ◌<◌, ◌≡◌, ◌∙◌, sym, refl, arith, Option, none, some, List, length, set,
  length-set, if◌then◌else◌, leb, is_some, add_usize, Option-cases, Bool-cases, inl, inr, leb→le,
}
use kodiak.Collection.Arena.{ArenaMap, new, shrink, insert, remove}
use kodiak.Collection.Arena.Key.{ArenaKey}
use kodiak.Collection.Arena.Slots.{
  resize_with, count_some, EndsInValue, shrink_loop-trim, trim-EndsInValue, count_some-trim,
  length-trim,
}
use kodiak.Collection.Arena.Writes.{
  slot, length-resize, count_some-resize, count_some-fill, count_some-empty, count_some-le,
  EndsInValue-set, EndsInValue-grow,
}

module _ {ℓ} {K : Type 0} {V : Type ℓ} ⦃key : ArenaKey K⦄ where
  open key use {to_index, limit, limit_fits, to_index-lt}

  pub record IsValid (m : ArenaMap K V) : Type ℓ where
    pub trimmed : EndsInValue m.slots
    pub counted : m.len ≡ count_some m.slots
    pub within : length m.slots ≤ limit

  pub new-IsValid : IsValid new
  unfolding new
  new-IsValid = record { trimmed = λ e. cc; counted = refl; within = omega arith }

  pub shrink-IsValid :
      (m : ArenaMap K V) → m.len ≡ count_some m.slots → length m.slots ≤ limit → IsValid (shrink m)
  unfolding shrink
  shrink-IsValid m c w =
      let e = shrink_loop-trim (length m.slots) m.slots (omega arith) in
      record {
        trimmed = rw e (trim-EndsInValue m.slots);
        counted = rw e (c ∙ sym (count_some-trim m.slots));
        within = rw e (omega (arith, length-trim m.slots));
      }

  -- A write of a value into a vector that has the slot.
  fill-IsValid :
      (xs : List (Option V)) (len i : ℕ) (v : V)
      → EndsInValue (set xs i (some v))
      → i < length xs
      → length xs ≤ limit
      → len ≡ count_some xs
      → IsValid (record {
        slots = set xs i (some v);
        len = if is_some (slot xs i) then len else add_usize len 1;
      })
  fill-IsValid xs len i v t h w c = record {
    trimmed = t;
    counted = ground (
      arith,
      count_some-fill xs i v h,
      count_some-le (set xs i (some v)),
      length-set xs i (some v),
      limit_fits,
    );
    within = omega (arith, length-set xs i (some v));
  }

  -- `insert` keeps the map valid.
  pub insert-IsValid : (m : ArenaMap K V) (k : K) (v : V) → IsValid m → IsValid (insert m k v).0
  unfolding insert
  insert-IsValid m k v valid = elim (Bool-cases (leb (length m.slots) (to_index k))) [
    | inl grow ↦
        let e : to_index k + 1 ≡ suc (to_index k) = omega arith in
        rw (grow, e)
          (fill-IsValid (resize_with m.slots (suc (to_index k)) none) m.len (to_index k) v
            (EndsInValue-grow m.slots (to_index k) v (leb→le _ _ grow))
            (omega (arith, length-resize m.slots (suc (to_index k)) none))
            (omega (arith, length-resize m.slots (suc (to_index k)) none, to_index-lt k))
            (omega (
              arith,
              valid.counted,
              leb→le _ _ grow,
              count_some-resize m.slots (suc (to_index k)),
            )))
    | inr fits ↦ rw fits (
        fill-IsValid m.slots m.len (to_index k) v
          (EndsInValue-set m.slots (to_index k) v valid.trimmed) (ground arith) valid.within
          valid.counted)
  ]

  -- `remove` keeps the map valid.
  pub remove-IsValid : (m : ArenaMap K V) (k : K) → IsValid m → IsValid (remove m k).0
  unfolding remove
  remove-IsValid m k valid = elim (Option-cases (slot m.slots (to_index k))) [
    | inl e ↦ rw (e, remove) valid
    | inr (v, e) ↦
        rw (e, remove)
          (shrink-IsValid _
            (omega
              (arith, limit_fits, count_some-empty m.slots (to_index k) v e, count_some-le m.slots))
            (omega (arith, length-set m.slots (to_index k) none)))
  ]
