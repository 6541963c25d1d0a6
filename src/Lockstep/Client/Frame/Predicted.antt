-- ===== src/Lockstep/Client/Frame/Predicted.antt =====
-- `predict` and `tick_predicted`: guessing ahead never panics, and what it leaves in the queue.
use kodiak.Base.{
  ◌+◌, ◌-◌, ◌<◌, ◌^◌, ◌≡◌, ◌∙◌, sym, ap, ap₂, if_true, if_false, refl, subst, Bool, true, false,
  not, ◌&&◌, Option, none, some, List, [], ◌∷◌, ◌++◌, length, drop, Bool-cases, inl, inr, ◌⊎◌,
  if◌then◌else◌, Returns,
}
use kodiak.Collection.Arena
use kodiak.Collection.Arena.{ArenaMap}
use kodiak.Collection.Arena.Key.{nonzero_key}
use kodiak.Collection.Arena.Invariant.{new-IsValid, insert-IsValid}
use kodiak.Lockstep.World.{PlayerId, LockstepWorld, predicting}
use kodiak.Lockstep.State.{Lockstep, Players, default_tick}
use kodiak.Lockstep.State.Guesses.{SameStates, guess-Returns}
use kodiak.Lockstep.State.Ticks.{ticked}
use kodiak.Lockstep.Input.{LockstepInput, LockstepInputWindow, into_input_iter}
use kodiak.Lockstep.Queue
use kodiak.Lockstep.Queue.{LockstepInputQueue, numbered, is_full, pop_front, push_back}
use kodiak.Lockstep.Queue.Pop.{pop_front-Popped}
use kodiak.Lockstep.Queue.Laws.{push_back-Returns}
use kodiak.Lockstep.Client.{LockstepClient, HistoryBuffer, predict, foretold}
use kodiak.Lockstep.Client.Frame.{tick_predicted, predict_and_push}

module _ (W : LockstepWorld) where
  -- A prediction returns, whatever the client and its input are, also where the client's player is
  -- not there. The game's tick is given no news and the players as they are, but for their inputs.
  pub predict-Returns :
      (l : Lockstep W) (who : Option PlayerId) (extra : Bool) (input : Option W.Input)
      → Returns
          (λ r.
            (players : Players W) × SameStates W l.context.players players
            × (r ≡ ticked W l (default_tick W) (predicting who extra) players))
          (predict W l who extra input)
  unfolding predict
  predict-Returns l none extra input = guess-Returns W l none extra Arena.new new-IsValid (inr refl)
  predict-Returns l (some id) extra none =
      guess-Returns W l (some id) extra Arena.new new-IsValid (inl refl)
  predict-Returns l (some id) extra (some i) =
      guess-Returns W l (some id) extra (Arena.insert Arena.new id i).0
        (insert-IsValid Arena.new id i new-IsValid) (inl refl)

module _ (W : LockstepWorld) (H : HistoryBuffer) (input : W.Input) (unreliable : Bool) where
  -- What a tick with the client's input leaves, over a queue of the inputs `under_way`: the input is
  -- the last of the queue, the window ends with it, and the prediction is one game tick further.
  pub record Taken (c : LockstepClient W H) (under_way : List (LockstepInput W.Input))
      (r : LockstepClient W H × Option (LockstepInputWindow W.Input)) : Type 0 where
    pub queue :
        numbered W r.0.input_queue
        ≡ under_way ++ (record { inner = input; input_id = c.input_queue.end } ∷ [])
    pub valid : Queue.IsValid W r.0.input_queue
    pub window :
        (w : LockstepInputWindow W.Input) × (r.1 ≡ some w)
        × (into_input_iter w
            ≡ drop
                (length r.0.input_queue.inputs
                  - (if unreliable then W.inputs_per_efficient_packet else 1))
                (numbered W r.0.input_queue))
    pub real : r.0.real ≡ c.real
    pub unheard : r.0.heard_from_server ≡ false
    pub predicted :
        (players : Players W) × SameStates W c.predicted.context.players players
        × (r.0.predicted
            ≡ (ticked W c.predicted (default_tick W) (predicting c.player_id false) players).0)

  predict_and_push-Returns :
      (c : LockstepClient W H)
      → Queue.IsValid W c.input_queue
      → is_full W c.input_queue ≡ false
      → c.heard_from_server ≡ false
      → c.input_queue.end + 1 < 2 ^ 32
      → 0 < W.inputs_per_efficient_packet
      → Returns (Taken c (numbered W c.input_queue)) (predict_and_push W H c input unreliable)
  unfolding predict_and_push
  predict_and_push-Returns c valid room unheard ids packet =
      let ((l, infos), e, (players, same, p)) =
        predict-Returns W c.predicted c.player_id false (some input) in
      let ((q, w), e', (queue, window, valid')) =
        push_back-Returns W c.input_queue input unreliable valid room ids packet in
      (
        (
          record c {
            predicted = l;
            input_queue = q;
            info = c.info ++ foretold W c.player_id infos;
          },
          some w,
        ),
        rw (e, e'),
        record {
          queue = queue;
          valid = valid';
          window = (w, refl, window);
          real = refl;
          unheard = unheard;
          predicted = (players, same, ap (λ r. r.0) p);
        },
      )

  -- Whether a tick refuses the client's input.
  abbrev pub refuses : LockstepClient W H → Bool
  refuses c = is_full W c.input_queue && not c.heard_from_server

  -- The inputs under way that a tick keeps.
  abbrev pub kept : LockstepClient W H → List (LockstepInput W.Input)
  kept c =
      if is_full W c.input_queue
      then drop 1 (numbered W c.input_queue)
      else numbered W c.input_queue

  -- With a valid queue, ids left, and room for at least one input in the queue and in a packet,
  -- `tick_predicted` returns. It refuses the input, and changes nothing but the flag, if the queue
  -- is full and the server has been silent since the last call. Else it takes the input, and only
  -- a full queue loses its oldest one.
  pub tick_predicted-Returns :
      (c : LockstepClient W H)
      → Queue.IsValid W c.input_queue
      → c.input_queue.end + 1 < 2 ^ 32
      → 0 < W.inputs_per_efficient_packet
      → 0 < W.max_prediction
      → Returns
          (λ r.
            ((refuses c ≡ true) × (r ≡ (record c { heard_from_server = false }, none)))
            ⊎ ((refuses c ≡ false) × Taken c (kept c) r))
          (tick_predicted W H c input unreliable)
  unfolding tick_predicted
  tick_predicted-Returns c valid ids packet some_room =
      elim (Bool-cases (is_full W c.input_queue)) [
        | inr room ↦
            let (r, e, t) =
              predict_and_push-Returns (record c { heard_from_server = false }) valid room refl ids
                packet in
            (
              r,
              rw room e,
              inr (
                rw room,
                record {
                  queue =
                      t.queue
                      ∙ ap₂ (λ us n. us ++ (record { inner = input; input_id = n } ∷ []))
                          (sym (if_false _ _ room)) refl;
                  valid = t.valid;
                  window = t.window;
                  real = t.real;
                  unheard = t.unheard;
                  predicted = t.predicted;
                },
              ),
            )
        | inl full ↦ elim (Bool-cases c.heard_from_server) [
          | inr silent ↦ (
            (record c { heard_from_server = false }, none),
            rw (full, silent),
            inl (rw (full, silent), refl),
          )
          | inl heard ↦
              let (q, e, p) = pop_front-Popped W c.input_queue valid full some_room in
              let (r, e', t) =
                predict_and_push-Returns (record c { heard_from_server = false; input_queue = q })
                  p.valid p.room refl (subst (λ n. n + 1 < 2 ^ 32) (sym p.same_end) ids) packet in
              (
                r,
                rw (full, heard, e) e',
                inr (
                  rw (full, heard),
                  record {
                    queue =
                        t.queue
                        ∙ ap₂ (λ us n. us ++ (record { inner = input; input_id = n } ∷ []))
                            (p.first_gone ∙ sym (if_true _ _ full)) p.same_end;
                    valid = t.valid;
                    window = t.window;
                    real = t.real;
                    unheard = t.unheard;
                    predicted = t.predicted;
                  },
                ),
              )
        ]
      ]
