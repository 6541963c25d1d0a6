-- ===== src/Lockstep/Queue/Laws.antt =====
-- What the queue promises: the server is sent each input under the id that the queue knows it by,
-- and an acknowledgement drops the inputs up to the acknowledged id.
use kodiak.Base.{
  ℕ, suc, ◌+◌, ◌-◌, ◌≤◌, ◌<◌, ◌≡◌, ◌^◌, ◌∙◌, sym, refl, ap, arith, Bool, true, false, List, [], ◌∷◌,
  ◌++◌, length, drop, keep, panics, Returns, if◌then◌else◌, ltb, leb, length-append, length-drop,
  Bool-cases, inl, inr, tests, lt→ltb, sub_u32,
}
use kodiak.Lockstep.World.{LockstepWorld}
use kodiak.Lockstep.Input.{
  number_from, into_input_iter, into_input_iter-eq-number_from, drop-number_from, keep-number_from,
}
use kodiak.Lockstep.Queue.{LockstepInputQueue, push_back, acknowledged, is_full, numbered, IsValid}

number_from-append :
    {I : Type 0} (n m : ℕ) (xs : List I) (x : I)
    → n + length xs ≡ m
    → number_from n (xs ++ (x ∷ [])) ≡ number_from n xs ++ (record { inner = x; input_id = m } ∷ [])
number_from-append n m [] x e = ap (λ k. record { inner = x; input_id = k } ∷ []) (omega arith)
number_from-append n m (y ∷ ys) x e =
    ap (◌∷◌ (record { inner = y; input_id = n })) (number_from-append (suc n) m ys x (omega arith))

-- The server reads a window of the last `s` inputs as the client numbers them.
window_lem :
    {I : Type 0} (xs : List I) (s last : ℕ)
    → length xs ≤ last
    → last < 2 ^ 32
    → into_input_iter (record { sliding_window = drop (length xs - s) xs; last_input_id = last })
      ≡ drop (length xs - s) (number_from (last + 1 - length xs) xs)
window_lem xs s last h f =
    into_input_iter-eq-number_from _ (omega (arith, length-drop (length xs - s) xs))
      (omega (arith, length-drop (length xs - s) xs))
    ∙ ap (λ n. number_from n (drop (length xs - s) xs))
        (omega (arith, length-drop (length xs - s) xs))
    ∙ sym (drop-number_from (length xs - s) (last + 1 - length xs) xs)

module _ (W : LockstepWorld) where
  -- Dropping the first `k` inputs drops the first `k` numbered ones.
  numbered-drop :
      (q : LockstepInputQueue W) (k : ℕ)
      → IsValid W q
      → k ≤ length q.inputs
      → numbered W (record q { inputs = drop k q.inputs }) ≡ drop k (numbered W q)
  numbered-drop q k valid h =
      ap (λ n. number_from n (drop k q.inputs))
        (omega (arith, length-drop k q.inputs, valid.started))
      ∙ sym (drop-number_from k (q.end - length q.inputs) q.inputs)

  drop-IsValid :
      (q : LockstepInputQueue W) (k : ℕ)
      → IsValid W q
      → IsValid W (record q { inputs = drop k q.inputs })
  drop-IsValid q k v = omega (arith, v.started, v.fits, v.bounded, length-drop k q.inputs)

  -- On a valid queue, for an id below `end`, `acknowledged` succeeds: the queue keeps exactly its
  -- inputs with a higher id, its `end`, and its validity.
  pub acknowledged-Returns :
      (q : LockstepInputQueue W) (last : ℕ)
      → IsValid W q
      → last < q.end
      → Returns
          (λ q'.
            (numbered W q' ≡ keep (λ c. ltb last c.input_id) (numbered W q))
            × (q'.end ≡ q.end)
            × IsValid W q')
          (acknowledged W q last)
  unfolding acknowledged
  acknowledged-Returns q last valid h =
      let start : sub_u32 q.end (length q.inputs) ≡ q.end - length q.inputs =
        omega (arith, valid.started, valid.fits) in
      let first : ℕ = q.end - length q.inputs in
      let kept = keep-number_from last first q.inputs in
      elim (Bool-cases (ltb last first)) [
        | inl early ↦
            let e : last + 1 - first ≡ 0 = omega tests in
            (q, rw (start, early), (sym (kept ∙ ap (λ k. drop k (numbered W q)) e), refl, valid))
        | inr late ↦
            let k : ℕ = last - first + 1 in
            let e : last + 1 - first ≡ k = ground arith in
            let fits : ltb (last - first) (length q.inputs) ≡ true =
              ground (arith, valid.started) in
            (
              record q { inputs = drop k q.inputs },
              rw (start, late, fits),
              (
                numbered-drop q k valid (ground (arith, valid.started))
                    ∙ sym (kept ∙ ap (λ k. drop k (numbered W q)) e),
                refl,
                drop-IsValid q k valid,
              ),
            )
      ]

  -- On a valid queue, for an id at or past `end`, which the client has not sent, `acknowledged`
  -- panics.
  pub acknowledged-panics :
      (q : LockstepInputQueue W) (last : ℕ)
      → IsValid W q
      → q.end ≤ last
      → acknowledged W q last ≡ panics
  unfolding acknowledged
  acknowledged-panics q last valid h =
      let start : sub_u32 q.end (length q.inputs) ≡ q.end - length q.inputs =
        omega (arith, valid.started, valid.fits) in
      rw start (ground (arith, valid.started))

  -- Onto a valid queue that is not full, with ids left and packets that hold at least one input,
  -- `push_back` succeeds: the input is added under the id `end`, and the window, read back as the
  -- server reads it, holds the last inputs of the queue under their ids: as many as a packet takes
  -- where messages may be lost, else the new one alone. The queue stays valid.
  pub push_back-Returns :
      (q : LockstepInputQueue W) (input : W.Input) (unreliable : Bool)
      → IsValid W q
      → is_full W q ≡ false
      → q.end + 1 < 2 ^ 32
      → 0 < W.inputs_per_efficient_packet
      → Returns
          (λ r.
            (numbered W r.0 ≡ numbered W q ++ (record { inner = input; input_id = q.end } ∷ []))
            × (into_input_iter r.1
                ≡ drop
                    (length r.0.inputs - (if unreliable then W.inputs_per_efficient_packet else 1))
                    (numbered W r.0))
            × IsValid W r.0)
          (push_back W q input unreliable)
  unfolding push_back is_full
  push_back-Returns q input unreliable valid room ids packet = (
    (
      record { inputs = inputs; end = q.end + 1 },
      record { sliding_window = drop (length inputs - s) inputs; last_input_id = q.end },
    ),
    rw (lt→ltb (q.end + 1) (2 ^ 32) ids, lt→ltb (length q.inputs) W.max_prediction fits, collected),
    (
      ap (λ n. number_from n inputs) shift
          ∙ number_from-append (q.end - length q.inputs) q.end q.inputs input
              (omega (arith, valid.started)),
      window_lem inputs s q.end (omega (arith, grown, valid.started)) valid.fits,
      omega (arith, grown, valid.started, ids, valid.bounded, fits),
    ),
  )
    where
      inputs : List W.Input
      inputs = q.inputs ++ (input ∷ [])

      grown : length inputs ≡ length q.inputs + 1
      grown = length-append q.inputs (input ∷ [])

      fits : length q.inputs < W.max_prediction
      fits = ground arith

      s : ℕ
      s = if unreliable then W.inputs_per_efficient_packet else 1

      shift : q.end + 1 - length inputs ≡ q.end - length q.inputs
      shift = omega (arith, grown)

      collected :
          leb (length (drop (length inputs - s) inputs)) W.inputs_per_efficient_packet ≡ true
      collected = ground (arith, length-drop (length inputs - s) inputs)
