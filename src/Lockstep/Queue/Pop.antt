-- ===== src/Lockstep/Queue/Pop.antt =====
-- Making room in a full queue.
use kodiak.Base.{ℕ, ◌<◌, ◌≡◌, refl, ap, arith, true, false, List, [], ◌∷◌, drop, Returns}
use kodiak.Lockstep.World.{LockstepWorld}
use kodiak.Lockstep.Input.{number_from}
use kodiak.Lockstep.Queue.{LockstepInputQueue, IsValid, numbered, is_full, pop_front}

module _ (W : LockstepWorld) where
  -- What `pop_front` leaves: the first input is gone, the rest keep their ids, and there is room.
  pub record Popped (q q' : LockstepInputQueue W) : Type 0 where
    pub first_gone : numbered W q' ≡ drop 1 (numbered W q)
    pub same_end : q'.end ≡ q.end
    pub valid : IsValid W q'
    pub room : is_full W q' ≡ false

  popped :
      (inputs : List W.Input) (end : ℕ)
      → IsValid W (record { inputs = inputs; end = end })
      → is_full W (record { inputs = inputs; end = end }) ≡ true
      → 0 < W.max_prediction
      → Returns
          (Popped (record { inputs = inputs; end = end }))
          (pop_front W (record { inputs = inputs; end = end }))
  unfolding pop_front is_full
  popped [] end valid full h = ground arith
  popped (x ∷ rest) end valid full h = (
    record { inputs = rest; end = end },
    refl,
    record {
      first_gone = ap (λ n. number_from n rest) (omega (arith, valid.started));
      same_end = refl;
      valid = record {
        started = omega (arith, valid.started);
        fits = valid.fits;
        bounded = omega (arith, valid.bounded);
      };
      room = ground (arith, valid.bounded);
    },
  )

  pub pop_front-Popped :
      (q : LockstepInputQueue W)
      → IsValid W q
      → is_full W q ≡ true
      → 0 < W.max_prediction
      → Returns (Popped q) (pop_front W q)
  pop_front-Popped q valid full h = popped q.inputs q.end valid full h
