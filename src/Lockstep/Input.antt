-- ===== src/Lockstep/Input.antt =====
-- input.rs, input_window.rs and request.rs: inputs on their way to the server.
mod Tests
use kodiak.Base.{
  ℕ, zero, suc, ◌+◌, ◌-◌, ◌%◌, ◌^◌, ◌<◌, ◌≤◌, ◌≡◌, refl, ap, ap₂, ◌∙◌, sym, drop-nil, arith, tests,
  keep, drop, ltb, lt→ltb, Bool-cases, inl, inr, List, [], ◌∷◌, length,
}

pub record LockstepInput (I : Type 0) : Type 0 where
  pub input_id : ℕ
  pub inner : I

-- The last input has `last_input_id`, the one before it one less, and so on.
pub record LockstepInputWindow (I : Type 0) : Type 0 where
  pub sliding_window : List I
  pub last_input_id : ℕ

module _ {I : Type 0} where
  -- `From<LockstepInput>`
  pub from_input : LockstepInput I → LockstepInputWindow I
  from_input v = record { sliding_window = v.inner ∷ []; last_input_id = v.input_id }

  -- `LockstepRequest::bot`; a request is its window.
  pub bot : I → LockstepInputWindow I
  unfolding from_input
  bot input = from_input (record { inner = input; input_id = 0 })

  -- The inputs from index `i` on, of a window of `len`.
  pub inputs_from : ℕ → ℕ → ℕ → List I → List (LockstepInput I)
  inputs_from last_id len i [] = []
  inputs_from last_id len i (input ∷ rest) =
      record { inner = input; input_id = last_id - (len - 1 - i) % 2 ^ 32 }
      ∷ inputs_from last_id len (suc i) rest

  -- `into_input_iter`, oldest first; the subtraction saturates.
  pub into_input_iter : LockstepInputWindow I → List (LockstepInput I)
  unfolding inputs_from
  into_input_iter w = inputs_from w.last_input_id (length w.sliding_window) 0 w.sliding_window

  -- The inputs numbered from `n` on.
  abbrev pub number_from : ℕ → List I → List (LockstepInput I)
  number_from n [] = []
  number_from n (input ∷ rest) = record { inner = input; input_id = n } ∷ number_from (suc n) rest

  inputs_from_lem :
      (last_id len i : ℕ) (xs : List I)
      → i + length xs ≡ len
      → len < 2 ^ 32
      → len ≤ last_id
      → inputs_from last_id len i xs ≡ number_from (last_id + 1 - len + i) xs
  unfolding inputs_from
  inputs_from_lem last_id len i [] e f s = refl
  inputs_from_lem last_id len i (x ∷ xs) e f s =
      ap₂ (λ n rest. record { input_id = n; inner = x } ∷ rest) (omega arith)
        (inputs_from_lem last_id len (suc i) xs (omega arith) f s
          ∙ ap (λ n. number_from n xs) (omega arith))

  -- A window that is no longer than its last number, and shorter than 2 ^ 32, holds its inputs
  -- numbered in a row, up to that number.
  pub into_input_iter-eq-number_from :
      (w : LockstepInputWindow I)
      → length w.sliding_window < 2 ^ 32
      → length w.sliding_window ≤ w.last_input_id
      → into_input_iter w
        ≡ number_from (w.last_input_id + 1 - length w.sliding_window) w.sliding_window
  unfolding into_input_iter
  into_input_iter-eq-number_from w f s =
      inputs_from_lem w.last_input_id (length w.sliding_window) 0 w.sliding_window (omega arith) f s
      ∙ ap (λ n. number_from n w.sliding_window) (omega arith)

  pub drop-number_from :
      (k n : ℕ) (xs : List I) → drop k (number_from n xs) ≡ number_from (n + k) (drop k xs)
  drop-number_from zero n xs = ap (λ m. number_from m xs) (omega arith)
  drop-number_from (suc k) n [] = refl
  drop-number_from (suc k) n (x ∷ xs) =
      drop-number_from k (suc n) xs ∙ ap (λ m. number_from m (drop k xs)) (omega arith)

  pub length-number_from : (n : ℕ) (xs : List I) → length (number_from n xs) ≡ length xs
  length-number_from n [] = refl
  length-number_from n (x ∷ xs) = ap suc (length-number_from (suc n) xs)

  keep_all :
      (last n : ℕ) (xs : List I)
      → last < n
      → keep (λ c. ltb last c.input_id) (number_from n xs) ≡ number_from n xs
  keep_all last n [] h = refl
  keep_all last n (x ∷ xs) h =
      rw (lt→ltb last n h)
        (ap (◌∷◌ (record { input_id = n; inner = x })) (keep_all last (suc n) xs (omega arith)))

  -- Among inputs numbered in a row, those after `last` are the ones past `last + 1 - n`.
  pub keep-number_from :
      (last n : ℕ) (xs : List I)
      → keep (λ c. ltb last c.input_id) (number_from n xs) ≡ drop (last + 1 - n) (number_from n xs)
  keep-number_from last n [] = sym (drop-nil (last + 1 - n))
  keep-number_from last n (x ∷ xs) = elim (Bool-cases (ltb last n)) [
    | inl h ↦
        let e : last + 1 - n ≡ 0 = omega tests in
        rw (h, e)
          (ap (◌∷◌ (record { input_id = n; inner = x })) (keep_all last (suc n) xs (omega tests)))
    | inr h ↦
        let e : last + 1 - n ≡ suc (last + 1 - suc n) = ground arith in
        rw (h, e) (keep-number_from last (suc n) xs)
  ]
