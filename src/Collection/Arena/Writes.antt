-- ===== src/Collection/Arena/Writes.antt =====
-- What a write does to the slots: lookups, the count of values, the length.
use kodiak.Base.{
  Bool-cases, ==_iff, inl, inr, ℕ, zero, suc, ◌≤◌, ◌<◌, ◌≡◌, refl, ap, arith, Option, none, some,
  List, [], ◌∷◌, length, get_elem?, set, length-set, replicate, if◌then◌else◌, ◌==◌,
}
use kodiak.Collection.Arena.Slots.{join, resize_with, count_some, EndsInValue}

module _ {ℓ} {A : Type ℓ} where
  abbrev pub slot : List (Option A) → ℕ → Option A
  slot xs i = join (get_elem? xs i)

  pub slot-set :
      (xs : List (Option A)) (i j : ℕ) (o : Option A)
      → i < length xs
      → slot (set xs i o) j ≡ (if i == j then o else slot xs j)
  slot-set [] i j o h = absurd (omega arith)
  slot-set (x ∷ xs) zero zero o h = refl
  slot-set (x ∷ xs) zero (suc j) o h = ground arith
  slot-set (x ∷ xs) (suc i) zero o h = ground arith
  slot-set (x ∷ xs) (suc i) (suc j) o h = ground (arith, slot-set xs i j o)

  pub slot_lt : (xs : List (Option A)) (i : ℕ) (v : A) → slot xs i ≡ some v → i < length xs
  slot_lt [] i v e = cc
  slot_lt (x ∷ xs) zero v e = omega arith
  slot_lt (x ∷ xs) (suc i) v e = omega (arith, slot_lt xs i v e)

  slot-replicate : (n i : ℕ) → slot (replicate n none) i ≡ none
  slot-replicate zero i = refl
  slot-replicate (suc n) zero = refl
  slot-replicate (suc n) (suc i) = slot-replicate n i

  pub slot-resize :
      (xs : List (Option A)) (n j : ℕ) → length xs ≤ n → slot (resize_with xs n none) j ≡ slot xs j
  slot-resize [] n j h = slot-replicate n j
  slot-resize (x ∷ xs) zero j h = absurd (omega arith)
  slot-resize (x ∷ xs) (suc n) zero h = refl
  slot-resize (x ∷ xs) (suc n) (suc j) h = slot-resize xs n j (omega arith)

  length-replicate : (n : ℕ) (a : A) → length (replicate n a) ≡ n
  length-replicate zero a = refl
  length-replicate (suc n) a = ap suc (length-replicate n a)

count_some-replicate {ℓ} : (A : Type ℓ) (n : ℕ) → count_some {A = A} (replicate n none) ≡ 0
count_some-replicate A zero = refl
count_some-replicate A (suc n) = count_some-replicate A n

module _ {ℓ} {A : Type ℓ} where
  pub length-resize : (xs : List A) (n : ℕ) (a : A) → length (resize_with xs n a) ≡ n
  length-resize [] n a = length-replicate n a
  length-resize (x ∷ xs) zero a = refl
  length-resize (x ∷ xs) (suc n) a = ap suc (length-resize xs n a)

  pub count_some-resize :
      (xs : List (Option A)) (n : ℕ)
      → length xs ≤ n
      → count_some (resize_with xs n none) ≡ count_some xs
  count_some-resize [] n h = count_some-replicate A n
  count_some-resize (x ∷ xs) zero h = absurd (omega arith)
  count_some-resize (none ∷ xs) (suc n) h = count_some-resize xs n (omega arith)
  count_some-resize (some v ∷ xs) (suc n) h = ap suc (count_some-resize xs n (omega arith))

module _ {ℓ} {A : Type ℓ} where
  -- Filling an empty slot adds one value, overwriting a full one adds none.
  pub count_some-fill :
      (xs : List (Option A)) (i : ℕ) (v : A)
      → i < length xs
      → count_some (set xs i (some v))
        ≡ elim (slot xs i) [ none ↦ suc (count_some xs) | some _ ↦ count_some xs ]
  count_some-fill [] i v h = absurd (omega arith)
  count_some-fill (none ∷ xs) zero v h = refl
  count_some-fill (some w ∷ xs) zero v h = refl
  count_some-fill (none ∷ xs) (suc i) v h = count_some-fill xs i v (omega arith)
  count_some-fill (some w ∷ xs) (suc i) v h = ground (arith, count_some-fill xs i v)

  pub count_some-empty :
      (xs : List (Option A)) (i : ℕ) (v : A)
      → slot xs i ≡ some v
      → suc (count_some (set xs i none)) ≡ count_some xs
  count_some-empty [] i v e = cc
  count_some-empty (none ∷ xs) zero v e = cc
  count_some-empty (some w ∷ xs) zero v e = refl
  count_some-empty (none ∷ xs) (suc i) v e = count_some-empty xs i v e
  count_some-empty (some w ∷ xs) (suc i) v e = ap suc (count_some-empty xs i v e)

  pub count_some-le : (xs : List (Option A)) → count_some xs ≤ length xs
  count_some-le [] = omega arith
  count_some-le (none ∷ xs) = omega (arith, count_some-le xs)
  count_some-le (some v ∷ xs) = omega (arith, count_some-le xs)

  pub EndsInValue-set :
      (xs : List (Option A)) (i : ℕ) (v : A) → EndsInValue xs → EndsInValue (set xs i (some v))
  EndsInValue-set [] i v h = h
  EndsInValue-set (x ∷ []) zero v h = λ e. cc
  EndsInValue-set (x ∷ []) (suc i) v h = h
  EndsInValue-set (x ∷ y ∷ ys) zero v h = h
  EndsInValue-set (x ∷ y ∷ ys) (suc zero) v h = EndsInValue-set (y ∷ ys) zero v h
  EndsInValue-set (x ∷ y ∷ ys) (suc (suc i)) v h = EndsInValue-set (y ∷ ys) (suc i) v h

  EndsInValue-cons :
      (x : Option A) (ys : List (Option A)) → 0 < length ys → EndsInValue ys → EndsInValue (x ∷ ys)
  EndsInValue-cons x [] p h = absurd (omega arith)
  EndsInValue-cons x (y ∷ ys) p h = h

  grown_pos :
      (xs : List (Option A)) (n : ℕ) (o : Option A)
      → 0 < length (set (resize_with xs (suc n) none) n o)
  grown_pos xs n o =
      omega (arith, length-set (resize_with xs (suc n) none) n o, length-resize xs (suc n) none)

  -- A vector that grows for a key ends in the key's value.
  pub EndsInValue-grow :
      (xs : List (Option A)) (n : ℕ) (v : A)
      → length xs ≤ n
      → EndsInValue (set (resize_with xs (suc n) none) n (some v))
  EndsInValue-grow [] zero v h = λ e. cc
  EndsInValue-grow [] (suc n) v h =
      EndsInValue-cons none _ (grown_pos [] n (some v)) (EndsInValue-grow [] n v (omega arith))
  EndsInValue-grow (x ∷ xs) zero v h = absurd (omega arith)
  EndsInValue-grow (x ∷ xs) (suc n) v h =
      EndsInValue-cons x _ (grown_pos xs n (some v)) (EndsInValue-grow xs n v (omega arith))

-- To write nothing into an empty slot changes nothing.
pub slot_unchanged {ℓ} :
    {A : Type ℓ} (xs : List (Option A)) (i j : ℕ)
    → slot xs i ≡ none
    → slot xs j ≡ (if i == j then none else slot xs j)
slot_unchanged xs i j e = elim (Bool-cases (i == j)) [
  | inl h ↦ rw h (rw (← (==_iff i j).0 h) e)
  | inr h ↦ rw h
]
