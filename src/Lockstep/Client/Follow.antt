-- ===== src/Lockstep/Client/Follow.antt =====
-- A client that receives the server's update goes where the server goes.
use kodiak.Base.{
  ℕ, ◌<◌, ◌≡◌, ◌∙◌, sym, ap, refl, subst, arith, true, Option, none, some, List, ◌++◌, lt→ltb,
  returns, ◌>>=◌, Returns, Safely, Returns-bind, Bool-cases, inl, inr,
}
use kodiak.Collection.Arena.Invariant
use kodiak.Collection.Arena.Key.{nonzero_key}
use kodiak.Lockstep.Overwrites.{Rising}
use kodiak.Lockstep.World.{PlayerId, LockstepWorld, ground_truth}
use kodiak.Lockstep.State
use kodiak.Lockstep.State.{Lockstep, LockstepTick, checksum}
use kodiak.Lockstep.State.Ticks.{Expected, tick-Returns}
use kodiak.Lockstep.State.Validity.{PlayersValid, KeepsPlayers, tick-PlayersValid}
use kodiak.Lockstep.Queue
use kodiak.Lockstep.Queue.Laws.{acknowledged-Returns}
use kodiak.Lockstep.Client.{LockstepClient, HistoryBuffer, tick, receive, initialize, unpredicted}
use kodiak.Lockstep.ClientData.{LockstepClientData}
use kodiak.Ids.{is_client}
use kodiak.Lockstep.Server.{LockstepServer, LockstepUpdate, update, client_update, post_update}
use kodiak.Lockstep.Server.Validity.{IsValid, update-IsValid}
use kodiak.Lockstep.Server.Messages.{
  Message, client_update-Message, real-update, checksum-update, IsValid-Expected,
  post_update-Ticked,
}
use kodiak.Lockstep.Client.Validity.{
  predict-PlayersValid, predict_all-PlayersValid, smooth_prediction-PlayersValid,
  update_interpolated-Returns, check_desync-returns,
}

module _ (W : LockstepWorld) (H : HistoryBuffer) (keeps : KeepsPlayers W) where
  -- The client's state after the tick is what the tick makes of its state before.
  tick-Follows :
      (c : LockstepClient W H) (t : LockstepTick W) (applied received : ℕ)
      → Queue.IsValid W c.input_queue
      → applied < c.input_queue.end
      → received < c.input_queue.end
      → t.checksum ≡ some (checksum W c.real)
      → PlayersValid W c.real
      → Invariant.IsValid t.inputs
      → Rising 0 t.overwrites
      → Expected W c.real t
      → Returns
          (λ r.
            (infos : List W.Info) × (State.tick W c.real t ground_truth
              ≡ returns (r.0.real, infos)))
          (tick W H c t applied received)
  unfolding tick
  tick-Follows c t applied received queue ha hr check valid inputs rising expected =
      let (q, e1, _) = acknowledged-Returns W c.input_queue applied queue ha in
      let (players, _, e2) = tick-Returns W c.real t ground_truth inputs rising expected in
      let real = State.Ticks.ticked W c.real t ground_truth players in
      let v2 : PlayersValid W real.0 =
        subst (Safely (λ r. PlayersValid W r.0)) e2
          (tick-PlayersValid W c.real t ground_truth keeps valid) in
      let (p, e3, v3) = predict_all-PlayersValid W keeps real.0 c.player_id q.inputs v2 in
      let (p', e4, v4) = smooth_prediction-PlayersValid W H c p v3 in
      let (n, e5, v5) = predict-PlayersValid W keeps p' c.player_id true none v4 in
      let before : LockstepClient W H = record c {
        real = real.0;
        input_queue = q;
        predicted = p';
        predicted_next = n.0;
        heard_from_server = true;
        smoothed_normalized_ticks_since_real =
            W.floats.sub c.smoothed_normalized_ticks_since_real (W.floats.ratio 1 1);
        info = c.info ++ unpredicted W c.player_id real.1;
      } in
      rw
        (
          lt→ltb received c.input_queue.end hr,
          lt→ltb applied c.input_queue.end ha,
          check_desync-returns W H c t.checksum check,
          e1,
          e2,
          e3,
          e4,
          e5,
        )
        (Returns-bind (λ c'. c'.real ≡ real.0) _ _ _ (update_interpolated-Returns W H before v5)
          (λ c' e. (_, refl, (real.1, ap (λ l. returns (l, real.1)) (sym e)))))

  -- What a client needs of an update, and of itself, to follow the server `s`.
  pub record Ready (s : LockstepServer W) (d : LockstepClientData W) (c : LockstepClient W H)
      : Type 0 where
    pub queue : Queue.IsValid W c.input_queue
    pub applied : d.last_applied_command_id < c.input_queue.end
    pub received : d.last_received_command_id < c.input_queue.end
    pub same : d.initialized ≡ true → c.real ≡ s.real

  -- The client has made the tick from the state.
  abbrev pub Ticked :
      Lockstep W → LockstepTick W → LockstepClient W H × Option ℕ × Option ℕ → Type 0
  Ticked l t r = (infos : List W.Info) × (State.tick W l t ground_truth ≡ returns (r.0.real, infos))

  receive-Ticked :
      (c : LockstepClient W H) (u : LockstepUpdate W) (c' : LockstepClient W H)
      → initialize W H c u.initialization ≡ c'
      → Queue.IsValid W c'.input_queue
      → u.last_applied_input_id < c'.input_queue.end
      → u.last_received_input_id < c'.input_queue.end
      → u.tick.checksum ≡ some (checksum W c'.real)
      → PlayersValid W c'.real
      → Invariant.IsValid u.tick.inputs
      → Rising 0 u.tick.overwrites
      → Expected W c'.real u.tick
      → Returns (Ticked c'.real u.tick) (receive W H c u)
  unfolding receive
  receive-Ticked c u c' e queue ha hr check valid inputs rising expected = rw e (
      Returns-bind (Ticked c'.real u.tick) (Ticked c'.real u.tick)
        (tick W H (record c' { server_buffered_inputs = u.buffered_inputs }) u.tick
          u.last_applied_input_id u.last_received_input_id)
        _
        (tick-Follows (record c' { server_buffered_inputs = u.buffered_inputs }) u.tick
          u.last_applied_input_id u.last_received_input_id queue ha hr check valid inputs rising
          expected)
        (λ r f. (_, refl, f)))

  -- From the server's state, by the server's tick, the client gets where the server gets.
  receive-Follows :
      (s : LockstepServer W) (c : LockstepClient W H) (u : LockstepUpdate W)
      (c' : LockstepClient W H)
      → initialize W H c u.initialization ≡ c'
      → Queue.IsValid W c'.input_queue
      → u.last_applied_input_id < c'.input_queue.end
      → u.last_received_input_id < c'.input_queue.end
      → u.tick ≡ s.current
      → c'.real ≡ s.real
      → s.current.checksum ≡ some (checksum W s.real)
      → PlayersValid W s.real
      → IsValid W s
      → Returns (λ r. Returns (λ s'. r.0.real ≡ s'.0.real) (post_update W s)) (receive W H c u)
  receive-Follows s c u c' e queue ha hr t l check players valid =
      let (r, e', (infos, f)) =
        receive-Ticked c u c' e queue ha hr
          (ap (λ t. t.checksum) t ∙ check ∙ ap (λ l. some (checksum W l)) (sym l))
          (subst (PlayersValid W) (sym l) players)
          (subst (λ (t : LockstepTick W). Invariant.IsValid t.inputs) (sym t) valid.inputs)
          (subst (λ (t : LockstepTick W). Rising 0 t.overwrites) (sym t) valid.rising)
          (subst (λ l. Expected W l u.tick) (sym l)
            (subst (λ t. Expected W s.real t) (sym t) (IsValid-Expected W s valid))) in
      (
        r,
        e',
        post_update-Ticked W s r.0.real infos (
            subst (λ l. State.tick W l s.current ground_truth ≡ returns (r.0.real, infos)) l
              (subst (λ t. State.tick W c'.real t ground_truth ≡ returns (r.0.real, infos)) t f)),
      )

  -- After `update`, a client that has the server's state, or none yet, and that is sent the
  -- `client_update`, returns from `receive`, without a desync, in the state that `post_update` brings
  -- the server to. The server is valid, its map of players too, and the game's tick keeps that map
  -- valid; the client's queue is valid, and the server has applied and received only what it sent.
  pub receive-client_update :
      (s : LockstepServer W) (clients : List (PlayerId × LockstepClientData W)) (id : PlayerId)
      (d : LockstepClientData W) (c : LockstepClient W H)
      → IsValid W s
      → PlayersValid W s.real
      → is_client id ≡ true
      → Ready s d c
      → Returns
          (λ r. Returns (λ s'. r.0.real ≡ s'.0.real) (post_update W (update W s clients).0))
          (client_update W (update W s clients).0 id d >>= λ message. receive W H c message.0)
  unfolding initialize
  receive-client_update s clients id d c valid players client ready =
      let next = (update W s clients).0 in
      let same = real-update W s clients in
      let players' : PlayersValid W next.real = subst (PlayersValid W) (sym same) players in
      let positive : 0 < c.input_queue.end = omega (arith, ready.applied) in
      Returns-bind (Message W next id d)
        (λ r. Returns (λ s'. r.0.real ≡ s'.0.real) (post_update W next)) (client_update W next id d)
        _ (client_update-Message W next id d client)
        (λ m f. elim (Bool-cases d.initialized) [
          | inl e ↦
              let (i, ea, er) = f.known e in
              receive-Follows next c m.0 c (ap (initialize W H c) i) ready.queue
                (subst (λ n. n < c.input_queue.end) (sym ea) ready.applied)
                (subst (λ n. n < c.input_queue.end) (sym er) ready.received) f.tick
                (ready.same e ∙ sym same) (checksum-update W s clients) players'
                (update-IsValid W s clients valid)
          | inr e ↦
              let (i, ea, er) = f.unknown e in
              receive-Follows next c m.0 (initialize W H c (some (id, next.real)))
                (ap (initialize W H c) i) ready.queue
                (subst (λ n. n < c.input_queue.end) (sym ea) positive)
                (subst (λ n. n < c.input_queue.end) (sym er) positive) f.tick refl
                (checksum-update W s clients) players' (update-IsValid W s clients valid)
        ])
