-- ===== src/Collection/Arena/Slots.antt =====
-- The vector of slots: the `Vec` methods that arena_map.rs calls, and its loops.
use kodiak.Base.{
  ℕ, zero, suc, ◌≤◌, ◌≡◌, ◌≢◌, refl, ap, sym, ◌∙◌, arith, Option, none, some, List, [], ◌∷◌, length,
  get_elem?, replicate,
}

module _ {ℓ} {A : Type ℓ} where
  -- A slot that is out of bounds reads as an empty one.
  abbrev pub join : Option (Option A) → Option A
  join none = none
  join (some o) = o

  -- `slice::last` and `Vec::pop`
  abbrev pub get_last? : List A → Option A
  get_last? [] = none
  get_last? (x ∷ []) = some x
  get_last? (x ∷ y ∷ ys) = get_last? (y ∷ ys)

  abbrev pub pop : List A → List A
  pop [] = []
  pop (x ∷ []) = []
  pop (x ∷ y ∷ ys) = x ∷ pop (y ∷ ys)

  -- `Vec::resize_with`, at a length that is no smaller.
  abbrev pub resize_with : List A → ℕ → A → List A
  resize_with [] n a = replicate n a
  resize_with (x ∷ xs) zero a = []
  resize_with (x ∷ xs) (suc n) a = x ∷ resize_with xs n a

  length-pop : (xs : List A) (n : ℕ) → length xs ≤ suc n → length (pop xs) ≤ n
  length-pop [] n h = omega arith
  length-pop (x ∷ []) n h = omega arith
  length-pop (x ∷ y ∷ ys) zero h = absurd (omega arith)
  length-pop (x ∷ y ∷ ys) (suc n) h = omega (arith, length-pop (y ∷ ys) n (omega arith))

module _ {ℓ} {A : Type ℓ} where
  abbrev pub count_some : List (Option A) → ℕ
  count_some [] = 0
  count_some (none ∷ xs) = count_some xs
  count_some (some x ∷ xs) = suc (count_some xs)

  -- `while let Some(None) = slots.last() { slots.pop(); }`
  unfoldable pub shrink_loop : ℕ → List (Option A) → List (Option A)
  shrink_loop zero xs = xs
  shrink_loop (suc fuel) xs = elim (get_last? xs) [
    | none ↦ xs
    | some o ↦ elim o [ none ↦ shrink_loop fuel (pop xs) | some v ↦ xs ]
  ]

  -- What `shrink_loop` leaves: the slots up to the last that holds a value.
  abbrev pub trim_cons : Option A → List (Option A) → List (Option A)
  trim_cons none [] = []
  trim_cons none (y ∷ ys) = none ∷ y ∷ ys
  trim_cons (some v) ys = some v ∷ ys

  abbrev pub trim : List (Option A) → List (Option A)
  trim [] = []
  trim (x ∷ xs) = trim_cons x (trim xs)

  abbrev pub EndsInValue : List (Option A) → Type ℓ
  EndsInValue xs = get_last? xs ≢ some none

  trim-pop : (xs : List (Option A)) → get_last? xs ≡ some none → trim xs ≡ trim (pop xs)
  trim-pop [] e = refl
  trim-pop (none ∷ []) e = refl
  trim-pop (some v ∷ []) e = cc
  trim-pop (x ∷ y ∷ ys) e = ap (trim_cons x) (trim-pop (y ∷ ys) e)

  trim_cons-ne :
      (x : Option A) (y : Option A) (ys : List (Option A)) → trim_cons x (y ∷ ys) ≡ x ∷ y ∷ ys
  trim_cons-ne none y ys = refl
  trim_cons-ne (some v) y ys = refl

  pub trim_of_EndsInValue : (xs : List (Option A)) → EndsInValue xs → trim xs ≡ xs
  trim_of_EndsInValue [] h = refl
  trim_of_EndsInValue (none ∷ []) h = absurd (h refl)
  trim_of_EndsInValue (some v ∷ []) h = refl
  trim_of_EndsInValue (x ∷ y ∷ ys) h =
      ap (trim_cons x) (trim_of_EndsInValue (y ∷ ys) h) ∙ trim_cons-ne x y ys

  -- Fuel for each slot is enough.
  pub shrink_loop-trim :
      (fuel : ℕ) (xs : List (Option A)) → length xs ≤ fuel → shrink_loop fuel xs ≡ trim xs
  unfolding shrink_loop
  shrink_loop-trim zero [] h = refl
  shrink_loop-trim zero (x ∷ xs) h = absurd (omega arith)
  shrink_loop-trim (suc fuel) xs h =
      by_last (get_last? xs) refl (shrink_loop-trim fuel (pop xs) (length-pop xs fuel h))
    where
      by_last :
          (o : Option (Option A))
          → get_last? xs ≡ o
          → shrink_loop fuel (pop xs) ≡ trim (pop xs)
          → shrink_loop (suc fuel) xs ≡ trim xs
      by_last none e ih = rw (e, shrink_loop) (sym (trim_of_EndsInValue xs (λ f. cc)))
      by_last (some none) e ih = rw (e, shrink_loop) (ih ∙ sym (trim-pop xs e))
      by_last (some (some v)) e ih = rw (e, shrink_loop) (sym (trim_of_EndsInValue xs (λ f. cc)))

  trim_cons-EndsInValue :
      (x : Option A) (xs : List (Option A)) → EndsInValue xs → EndsInValue (trim_cons x xs)
  trim_cons-EndsInValue none [] h = h
  trim_cons-EndsInValue none (y ∷ ys) h = h
  trim_cons-EndsInValue (some v) [] h = λ e. cc
  trim_cons-EndsInValue (some v) (y ∷ ys) h = h

  pub trim-EndsInValue : (xs : List (Option A)) → EndsInValue (trim xs)
  trim-EndsInValue [] = λ e. cc
  trim-EndsInValue (x ∷ xs) = trim_cons-EndsInValue x (trim xs) (trim-EndsInValue xs)

  -- Trimming changes no slot.
  pub join-trim :
      (xs : List (Option A)) (i : ℕ) → join (get_elem? (trim xs) i) ≡ join (get_elem? xs i)
  join-trim [] i = refl
  join-trim (x ∷ xs) i = cons x (trim xs) i (join-trim xs)
    where
      cons :
          (x : Option A) (ys : List (Option A)) (i : ℕ)
          → ((j : ℕ) → join (get_elem? ys j) ≡ join (get_elem? xs j))
          → join (get_elem? (trim_cons x ys) i) ≡ join (get_elem? (x ∷ xs) i)
      cons none [] zero h = refl
      cons none [] (suc i) h = h i
      cons none (y ∷ ys) zero h = refl
      cons none (y ∷ ys) (suc i) h = h i
      cons (some v) ys zero h = refl
      cons (some v) ys (suc i) h = h i

  pub count_some-trim : (xs : List (Option A)) → count_some (trim xs) ≡ count_some xs
  count_some-trim [] = refl
  count_some-trim (none ∷ xs) = ground (arith, count_some-trim xs)
  count_some-trim (some v ∷ xs) = ap suc (count_some-trim xs)

  pub length-trim : (xs : List (Option A)) → length (trim xs) ≤ length xs
  length-trim [] = omega arith
  length-trim (none ∷ xs) = ground (arith, length-trim xs)
  length-trim (some v ∷ xs) = omega (arith, length-trim xs)
