-- ===== src/Lockstep/Server/Validity.antt =====
-- What the server keeps true between its ticks, and why its tick does not panic.
use kodiak.Base.{
  ◌≡◌, ◌∙◌, sym, ap, refl, subst, true, false, Option, none, some, List, [], ◌∷◌, is_some,
  Option-cases, Bool-cases, inl, inr, ◌==◌, ==_iff, if_cases, if_true, if_false, Outcome, returns,
  panics, ◌>>=◌, Returns, Safely,
}
use kodiak.Collection.Arena
use kodiak.Collection.Arena.{ArenaMap}
use kodiak.Collection.Arena.Key.{nonzero_key, NonZeroU16_eq}
use kodiak.Collection.Arena.Lookup.{get-new, get-insert, get-remove}
use kodiak.Collection.Arena.Invariant
use kodiak.Collection.Arena.Invariant.{new-IsValid, insert-IsValid, remove-IsValid}
use kodiak.Lockstep.Overwrites.{Rising, insert-Rising}
use kodiak.Lockstep.World.{PlayerId, LockstepWorld, ground_truth}
use kodiak.Lockstep.State.{Lockstep, Players, default_tick}
use kodiak.Lockstep.State.Applied.{index_eq}
use kodiak.Lockstep.State.Ticks.{ticked, Applied, tick-Returns}
use kodiak.Lockstep.Input.{LockstepInput, LockstepInputWindow}
use kodiak.Lockstep.ClientData.{LockstepClientData}
use kodiak.Lockstep.Server.{
  LockstepServer, lockstep_get, player, set_player, set_input, modify_existing_player, player_left,
  request, request_bot, update_client, update_clients, update, post_update,
}
use kodiak.Lockstep.Server.Players.{player-set_player, lockstep_mut-Rising}

same_id : (j k : PlayerId) → (j.0 == k.0) ≡ true → j ≡ k
same_id j k e = NonZeroU16_eq j k ((==_iff j.0 k.0).0 e)

module _ (W : LockstepWorld) where
  -- Every input of the next tick is that of a player who will be there.
  pub record IsValid (s : LockstepServer W) : Type 0 where
    pub inputs : Invariant.IsValid s.current.inputs
    pub rising : Rising 0 s.current.overwrites
    pub expected :
        (id : PlayerId)
        → is_some (Arena.get s.current.inputs id) ≡ true
        → is_some (player W s id) ≡ true

  pub set_player-IsValid :
      (s : LockstepServer W) (id : PlayerId) (p : W.Player)
      → IsValid s
      → IsValid (set_player W s id (some p))
  unfolding set_player
  set_player-IsValid s id p valid = record {
    inputs = valid.inputs;
    rising = insert-Rising _ id (some p) (
        lockstep_mut-Rising s.real.context.players (λ q. q.inner) s.current.overwrites id
          valid.rising);
    expected = λ j h.
        subst (λ o. is_some o ≡ true) (sym (player-set_player W s id j (some p)))
          (if_cases (λ (o : Option W.Player). is_some o ≡ true) (id.0 == j.0) (λ e. refl)
            (λ e. valid.expected j h));
  }

  pub set_input-IsValid :
      (s : LockstepServer W) (id : PlayerId) (input : W.Input)
      → is_some (player W s id) ≡ true
      → IsValid s
      → IsValid (set_input W s id input)
  unfolding set_input player
  set_input-IsValid s id input there valid = record {
    inputs = insert-IsValid s.current.inputs id input valid.inputs;
    rising = valid.rising;
    expected = λ j h. elim (Bool-cases (id.0 == j.0)) [
      | inl e ↦ subst (λ k. is_some (player W s k) ≡ true) (same_id id j e) there
      | inr e ↦ valid.expected j (
          sym
            (ap is_some (get-insert s.current.inputs id j input ∙ if_false _ _ (index_eq id j ∙ e)))
          ∙ h)
    ];
  }

  pub player_left-IsValid :
      (s : LockstepServer W) (id : PlayerId) → IsValid s → IsValid (player_left W s id)
  unfolding player_left player
  player_left-IsValid s id valid = record {
    inputs = remove-IsValid s.current.inputs id valid.inputs;
    rising = insert-Rising _ id none (
        lockstep_mut-Rising s.real.context.players (λ q. q.inner) s.current.overwrites id
          valid.rising);
    expected = λ j h. elim (Bool-cases (id.0 == j.0)) [
      | inl e ↦
          let gone : true ≡ false =
            sym h
            ∙ ap is_some ((get-remove s.current.inputs id j).0 ∙ if_true _ _ (index_eq id j ∙ e)) in
          cc
      | inr e ↦
          subst (λ o. is_some o ≡ true) (sym (player-set_player W s id j none ∙ if_false _ _ e))
            (valid.expected j (
              sym (
                ap is_some
                  ((get-remove s.current.inputs id j).0 ∙ if_false _ _ (index_eq id j ∙ e)))
              ∙ h))
    ];
  }

  pub modify_existing_player-IsValid :
      (s : LockstepServer W) (id : PlayerId) (f : W.Player → W.Player)
      → IsValid s
      → IsValid (modify_existing_player W s id f)
  unfolding modify_existing_player
  modify_existing_player-IsValid s id f valid = elim (Option-cases (player W s id)) [
    | inl e ↦ rw (e, modify_existing_player) valid
    | inr (p, e) ↦ rw (e, modify_existing_player) (set_player-IsValid s id (f p) valid)
  ]

  request_bot-IsValid :
      (s : LockstepServer W) (id : PlayerId) (w : LockstepInputWindow W.Input)
      → IsValid s
      → Safely IsValid (request_bot W s id w)
  unfolding request_bot
  request_bot-IsValid s id w valid =
      if_cases (Safely IsValid) (is_some (player W s id)) (first w.sliding_window) (λ away. valid)
    where
      first :
          (inputs : List W.Input)
          → is_some (player W s id) ≡ true
          → Safely IsValid
              (elim inputs [ [] ↦ panics | input ∷ _ ↦ returns (set_input W s id input) ])
      first [] there = tt
      first (input ∷ inputs) there = set_input-IsValid s id input there valid

  -- Where a request returns, the server is still valid: an input is taken only for a present player.
  pub request-IsValid :
      (s : LockstepServer W) (id : PlayerId) (w : LockstepInputWindow W.Input)
      (client : Option (LockstepClientData W))
      → IsValid s
      → Safely (λ r. IsValid r.0) (request W s id w client)
  unfolding request
  request-IsValid s id w (some client) valid = valid
  request-IsValid s id w none valid = pass (request_bot W s id w) (request_bot-IsValid s id w valid)
    where
      pass :
          (m : Outcome (LockstepServer W))
          → Safely IsValid m
          → Safely {A = LockstepServer W × Option (LockstepClientData W)}
              (λ r. IsValid r.0)
              (m >>= λ s'. returns (s', none))
      pass panics v = tt
      pass (returns s') v = v

  abbrev Kept : LockstepServer W × LockstepClientData W → Type 0
  Kept r = IsValid r.0

  update_client-IsValid :
      (s : LockstepServer W) (id : PlayerId) (client : LockstepClientData W)
      → IsValid s
      → IsValid (update_client W s id client).0
  unfolding update_client
  update_client-IsValid s id client valid =
      if_cases Kept (is_some (player W s id)) (oldest client.receive_buffer) (λ away. valid)
    where
      oldest :
          (buffer : List (LockstepInput W.Input))
          → is_some (player W s id) ≡ true
          → Kept (elim buffer [
            | [] ↦ (s, client)
            | input ∷ rest ↦ (
              set_input W s id input.inner,
              record client { last_applied_command_id = input.input_id; receive_buffer = rest },
            )
          ])
      oldest [] there = valid
      oldest (input ∷ rest) there = set_input-IsValid s id input.inner there valid

  update_clients-IsValid :
      (s : LockstepServer W) (clients : List (PlayerId × LockstepClientData W))
      → IsValid s
      → IsValid (update_clients W s clients).0
  unfolding update_clients
  update_clients-IsValid s [] valid = valid
  update_clients-IsValid s ((id, client) ∷ rest) valid =
      update_clients-IsValid (update_client W s id client).0 rest
        (update_client-IsValid s id client valid)

  pub update-IsValid :
      (s : LockstepServer W) (clients : List (PlayerId × LockstepClientData W))
      → IsValid s
      → IsValid (update W s clients).0
  unfolding update player
  update-IsValid s clients valid =
      let v = update_clients-IsValid s clients valid in
      record { inputs = v.inputs; rising = v.rising; expected = v.expected }

  pub fresh-IsValid :
      (real : Lockstep W) → IsValid (record { real = real; current = default_tick W })
  fresh-IsValid real = record {
    inputs = new-IsValid;
    rising = tt;
    expected = λ id h. let e : true ≡ false = sym h ∙ ap is_some (get-new id) in cc;
  }

  -- On a valid server `post_update` returns, and leaves a valid server with the default tick
  -- pending. The state it leaves and the infos it reports are the game's tick over the players
  -- that the overwrites and the inputs describe.
  pub post_update-Returns :
      (s : LockstepServer W)
      → IsValid s
      → Returns
          (λ r.
            IsValid r.0
            × (r.0.current ≡ default_tick W)
            × ((players : Players W) × Applied W s.real s.current players
                × ((r.0.real, r.1) ≡ ticked W s.real s.current ground_truth players)))
          (post_update W s)
  unfolding post_update player lockstep_get
  post_update-Returns s valid =
      let (players, applied, e) =
        tick-Returns W s.real s.current ground_truth valid.inputs valid.rising valid.expected in
      (
        (
          record {
            real = (ticked W s.real s.current ground_truth players).0;
            current = default_tick W;
          },
          (ticked W s.real s.current ground_truth players).1,
        ),
        rw e,
        (fresh-IsValid _, refl, (players, applied, refl)),
      )
