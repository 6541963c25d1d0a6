-- ===== src/Collection/Arena/Split.antt =====
-- The entries of slots that are split around one of them.
use kodiak.Base.{
  ℕ, zero, suc, ◌+◌, ◌≤◌, ◌<◌, ◌≡◌, ◌∙◌, refl, ap, arith, Option, none, some, List, [], ◌∷◌, ◌++◌,
  length, set, take, drop, Outcome, returns, panics, ◌>>=◌,
}
use kodiak.Collection.Arena.{entries_from}
use kodiak.Collection.Arena.Key.{ArenaKey}

bind_returns {ℓ} : {A : Type ℓ} (m : Outcome A) → (m >>= λ a. returns a) ≡ m
bind_returns panics = refl
bind_returns (returns a) = refl

pub take-drop-set {ℓ} :
    {A : Type ℓ} (xs : List (Option A)) (i : ℕ)
    → i < length xs
    → take i xs ++ (none ∷ drop (suc i) xs) ≡ set xs i none
take-drop-set [] i h = absurd (omega arith)
take-drop-set (x ∷ xs) zero h = refl
take-drop-set (x ∷ xs) (suc i) h = ap (◌∷◌ x) (take-drop-set xs i (omega arith))

-- An entry in front of the first part is in front of all.
carry {ℓ} :
    {A : Type ℓ} (e : A) (m n : Outcome (List A))
    → ((m >>= λ rest. returns (e ∷ rest)) >>= λ a. n >>= λ b. returns (a ++ b))
      ≡ ((m >>= λ a. n >>= λ b. returns (a ++ b)) >>= λ rest. returns (e ∷ rest))
carry e panics n = refl
carry e (returns a) panics = refl
carry e (returns a) (returns b) = refl

module _ {ℓ} {K : Type 0} {V : Type ℓ} ⦃key : ArenaKey K⦄ where
  open key use {from_index, limit, from_index_lem}

  -- Entries before a slot, and entries after it, are those of the slots with that slot empty.
  pub entries_from-split :
      (i : ℕ) (xs ys : List (Option V))
      → i + length xs ≤ limit
      → (entries_from {K = K} i xs >>= λ a.
          entries_from (i + length xs + 1) ys >>= λ b. returns (a ++ b))
        ≡ entries_from i (xs ++ (none ∷ ys))
  unfolding entries_from
  entries_from-split i [] ys w =
      let e : i + 0 + 1 ≡ suc i = omega arith in rw e (bind_returns (entries_from (suc i) ys))
  entries_from-split i (none ∷ xs) ys w =
      let e : i + suc (length xs) + 1 ≡ suc i + length xs + 1 = omega arith in
      rw e (entries_from-split (suc i) xs ys (omega arith))
  entries_from-split i (some v ∷ xs) ys w =
      let (k, f, at) = from_index_lem i (omega arith) in
      let e : i + suc (length xs) + 1 ≡ suc i + length xs + 1 = omega arith in
      rw (f, e)
        (carry (k, v) (entries_from (suc i) xs) (entries_from (suc i + length xs + 1) ys)
          ∙ ap (λ m. m >>= λ rest. returns ((k, v) ∷ rest))
              (entries_from-split (suc i) xs ys (omega arith)))
