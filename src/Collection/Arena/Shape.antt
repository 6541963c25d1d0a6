-- ===== src/Collection/Arena/Shape.antt =====
-- Writes that keep every slot filled or empty: `get_mut` and `iter_mut` keep the map valid.
use kodiak.Base.{
  ℕ, zero, suc, ◌+◌, ◌≤◌, ◌≡◌, ◌∙◌, sym, refl, ap, arith, Option, none, some, List, [], ◌∷◌, length,
  set, Returns, Option-cases, inl, inr,
}
use kodiak.Collection.Arena.{ArenaMap, get, modify, map_slots, map_values}
use kodiak.Collection.Arena.Key.{ArenaKey}
use kodiak.Collection.Arena.Slots.{count_some, get_last?}
use kodiak.Collection.Arena.Writes.{slot}
use kodiak.Collection.Arena.Invariant.{IsValid}

-- The same slots hold a value.
pub data SameShape {ℓ} {A : Type ℓ} : List (Option A) → List (Option A) → Type ℓ where
  ends : SameShape [] []
  empty : (xs ys : List (Option A)) → SameShape xs ys → SameShape (none ∷ xs) (none ∷ ys)
  filled :
      (x y : A) (xs ys : List (Option A)) → SameShape xs ys → SameShape (some x ∷ xs) (some y ∷ ys)

module _ {ℓ} {A : Type ℓ} where
  SameShape-refl : (xs : List (Option A)) → SameShape xs xs
  SameShape-refl [] = ends
  SameShape-refl (none ∷ xs) = empty xs xs (SameShape-refl xs)
  SameShape-refl (some x ∷ xs) = filled x x xs xs (SameShape-refl xs)

  SameShape-set :
      (xs : List (Option A)) (i : ℕ) (v w : A)
      → slot xs i ≡ some v
      → SameShape xs (set xs i (some w))
  SameShape-set [] i v w e = ends
  SameShape-set (none ∷ xs) zero v w e = absurd (none≢some e)
    where
      none≢some : none ≡ some v → ⊥
      none≢some e = cc
  SameShape-set (some x ∷ xs) zero v w e = filled x w xs xs (SameShape-refl xs)
  SameShape-set (none ∷ xs) (suc i) v w e = empty xs _ (SameShape-set xs i v w e)
  SameShape-set (some x ∷ xs) (suc i) v w e = filled x x xs _ (SameShape-set xs i v w e)

  length-SameShape : (xs ys : List (Option A)) → SameShape xs ys → length ys ≡ length xs
  length-SameShape _ _ ends = refl
  length-SameShape _ _ (empty xs ys h) = ap suc (length-SameShape xs ys h)
  length-SameShape _ _ (filled x y xs ys h) = ap suc (length-SameShape xs ys h)

  count_some-SameShape : (xs ys : List (Option A)) → SameShape xs ys → count_some ys ≡ count_some xs
  count_some-SameShape _ _ ends = refl
  count_some-SameShape _ _ (empty xs ys h) = count_some-SameShape xs ys h
  count_some-SameShape _ _ (filled x y xs ys h) = ap suc (count_some-SameShape xs ys h)

  EndsInValue-SameShape :
      (xs ys : List (Option A))
      → SameShape xs ys
      → get_last? ys ≡ some none
      → get_last? xs ≡ some none
  EndsInValue-SameShape _ _ ends e = e
  EndsInValue-SameShape _ _ (empty _ _ ends) e = refl
  EndsInValue-SameShape _ _ (filled x y _ _ ends) e = cc
  EndsInValue-SameShape _ _ (empty _ _ (empty xs ys h)) e =
      EndsInValue-SameShape _ _ (empty xs ys h) e
  EndsInValue-SameShape _ _ (empty _ _ (filled x y xs ys h)) e =
      EndsInValue-SameShape _ _ (filled x y xs ys h) e
  EndsInValue-SameShape _ _ (filled a b _ _ (empty xs ys h)) e =
      EndsInValue-SameShape _ _ (empty xs ys h) e
  EndsInValue-SameShape _ _ (filled a b _ _ (filled x y xs ys h)) e =
      EndsInValue-SameShape _ _ (filled x y xs ys h) e

module _ {ℓ} {K : Type 0} {V : Type ℓ} ⦃key : ArenaKey K⦄ where
  open key use {from_index, to_index, limit, from_index_lem}

  SameShape-IsValid :
      (m : ArenaMap K V) (slots : List (Option V))
      → SameShape m.slots slots
      → IsValid m
      → IsValid (record m { slots = slots })
  SameShape-IsValid m slots h valid = record {
    trimmed = λ e. valid.trimmed (EndsInValue-SameShape m.slots slots h e);
    counted = valid.counted ∙ sym (count_some-SameShape m.slots slots h);
    within = omega (arith, valid.within, length-SameShape m.slots slots h);
  }

  pub modify-IsValid : (m : ArenaMap K V) (k : K) (f : V → V) → IsValid m → IsValid (modify m k f)
  unfolding modify get
  modify-IsValid m k f valid = elim (Option-cases (slot m.slots (to_index k))) [
    | inl e ↦ rw (e, modify) valid
    | inr (v, e) ↦
        rw (e, modify) (SameShape-IsValid m _ (SameShape-set m.slots (to_index k) v (f v) e) valid)
  ]

  map_slots-SameShape :
      (f : K → V → V) (i : ℕ) (xs : List (Option V))
      → i + length xs ≤ limit
      → Returns (SameShape xs) (map_slots f i xs)
  unfolding map_slots
  map_slots-SameShape f i [] w = ([], refl, ends)
  map_slots-SameShape f i (none ∷ xs) w =
      let (ys, e, h) = map_slots-SameShape f (suc i) xs (omega arith) in
      (none ∷ ys, rw e, empty xs ys h)
  map_slots-SameShape f i (some v ∷ xs) w =
      let (k, e, at) = from_index_lem i (omega arith) in
      let (ys, e', h) = map_slots-SameShape f (suc i) xs (omega arith) in
      (some (f k v) ∷ ys, rw (e, e'), filled v (f k v) xs ys h)

  pub map_values-IsValid :
      (f : K → V → V) (m : ArenaMap K V) → IsValid m → Returns IsValid (map_values f m)
  unfolding map_values
  map_values-IsValid f m valid =
      let (slots, e, h) = map_slots-SameShape f 0 m.slots (omega (arith, valid.within)) in
      (record m { slots = slots }, rw e, SameShape-IsValid m slots h valid)
