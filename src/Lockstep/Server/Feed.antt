-- ===== src/Lockstep/Server/Feed.antt =====
-- What one update of the server does with the inputs of its clients (`update` in server.rs).
use kodiak.Base.{
  ℕ, zero, suc, ◌≡◌, refl, sym, ap, ◌∙◌, subst, arith, Bool, true, false, Option, some, List, [],
  ◌∷◌, length, is_some, get_elem?, All, ◌==◌, ==_refl, Bool-cases, inl, inr,
}
use mathlib.Core.Option
use kodiak.Collection.Arena
use kodiak.Collection.Arena.Key.{nonzero_key, nonzero_to_index}
use kodiak.Collection.Arena.Lookup.{get-insert}
use kodiak.Lockstep.World.{PlayerId, LockstepWorld}
use kodiak.Lockstep.Input.{LockstepInput}
use kodiak.Lockstep.ClientData.{LockstepClientData}
use kodiak.Lockstep.ClientData.Buffer.{Rising}
use kodiak.Lockstep.ClientData.Laws
use kodiak.Lockstep.Server.{LockstepServer, player, set_input, update_client, update_clients}

abbrev pub is_same : PlayerId → PlayerId → Bool
is_same j k = nonzero_to_index j == nonzero_to_index k

module _ (W : LockstepWorld) where
  abbrev pub Clients : Type 0
  Clients = List (PlayerId × LockstepClientData W)

  -- No client of the list is the player's.
  abbrev pub Without : PlayerId → Clients → Type 0
  Without id clients = All (λ e. is_same e.0 id ≡ false) clients

  abbrev pub AreDistinct : Clients → Type 0
  AreDistinct [] = Unit
  AreDistinct (e ∷ clients) = Without e.0 clients × AreDistinct clients

  abbrev pub input_of : PlayerId → LockstepServer W → Option W.Input
  input_of id s = Arena.get s.current.inputs id

  -- The client without the oldest input of its buffer, which has been applied.
  abbrev pub popped :
      LockstepClientData W
      → LockstepInput W.Input
      → List (LockstepInput W.Input)
      → LockstepClientData W
  popped client c rest = record client {
    last_applied_command_id = c.input_id;
    receive_buffer = rest;
  }

  abbrev Is : Option (PlayerId × LockstepClientData W) → PlayerId × LockstepClientData W → Type 0
  Is o e = o ≡ some e

  pub popped-IsValid :
      (client : LockstepClientData W) (c : LockstepInput W.Input)
      (rest : List (LockstepInput W.Input))
      → client.receive_buffer ≡ c ∷ rest
      → Laws.IsValid W client
      → Laws.IsValid W (popped client c rest)
  popped-IsValid client c rest e valid =
      let r = subst (λ b. Rising client.last_applied_command_id b) e valid.rising in
      record { rising = r.1; bounded = omega (arith, valid.bounded, ap length e) }

  -- What holds of an update of one client that has nothing to apply, and of one that has.
  update_client-cases :
      (s : LockstepServer W) (id : PlayerId) (client : LockstepClientData W)
      (P : LockstepServer W × LockstepClientData W → Type 0)
      → P (s, client)
      → ((c : LockstepInput W.Input) (client' : LockstepClientData W)
          → P (set_input W s id c.inner, client'))
      → P (update_client W s id client)
  unfolding update_client
  update_client-cases s id client P idle applies = elim (Bool-cases (is_some (player W s id))) [
    | inl e ↦ rw (e, update_client) (of_buffer client.receive_buffer)
    | inr e ↦ rw (e, update_client) idle
  ]
    where
      of_buffer :
          (buffer : List (LockstepInput W.Input))
          → P (elim buffer [
            | [] ↦ (s, client)
            | input ∷ rest ↦ (
              set_input W s id input.inner,
              record client { last_applied_command_id = input.input_id; receive_buffer = rest },
            )
          ])
      of_buffer [] = idle
      of_buffer (c ∷ rest) = applies c _

  update_client-player :
      (s : LockstepServer W) (j : PlayerId) (client : LockstepClientData W) (id : PlayerId)
      → player W (update_client W s j client).0 id ≡ player W s id
  unfolding player set_input
  update_client-player s j client id =
      update_client-cases s j client (λ r. player W r.0 id ≡ player W s id) refl (λ c client'. refl)

  update_client-real :
      (s : LockstepServer W) (j : PlayerId) (client : LockstepClientData W)
      → (update_client W s j client).0.real ≡ s.real
  unfolding set_input
  update_client-real s j client =
      update_client-cases s j client (λ r. r.0.real ≡ s.real) refl (λ c client'. refl)

  update_client_other :
      (s : LockstepServer W) (j : PlayerId) (client : LockstepClientData W) (id : PlayerId)
      → is_same j id ≡ false
      → input_of id (update_client W s j client).0 ≡ input_of id s
  unfolding set_input
  update_client_other s j client id other =
      update_client-cases s j client (λ r. input_of id r.0 ≡ input_of id s) refl
        (λ c client'. get-insert s.current.inputs j id c.inner ∙ rw other refl)

  update_client_next :
      (s : LockstepServer W) (id : PlayerId) (client : LockstepClientData W)
      (c : LockstepInput W.Input) (rest : List (LockstepInput W.Input))
      → is_some (player W s id) ≡ true
      → client.receive_buffer ≡ c ∷ rest
      → (input_of id (update_client W s id client).0 ≡ some c.inner)
        × ((update_client W s id client).1 ≡ popped client c rest)
  unfolding update_client set_input
  update_client_next s id client c rest there e = (
    rw (update_client, there, e)
        (get-insert s.current.inputs id id c.inner ∙ rw (==_refl (nonzero_to_index id)) refl),
    rw (update_client, there, e) refl,
  )

  pub update_clients-real :
      (s : LockstepServer W) (clients : Clients) → (update_clients W s clients).0.real ≡ s.real
  unfolding update_clients
  update_clients-real s [] = refl
  update_clients-real s ((j, client) ∷ clients) =
      update_clients-real (update_client W s j client).0 clients ∙ update_client-real s j client

  pub update_clients_other :
      (s : LockstepServer W) (clients : Clients) (id : PlayerId)
      → Without id clients
      → input_of id (update_clients W s clients).0 ≡ input_of id s
  unfolding update_clients
  update_clients_other s [] id others = refl
  update_clients_other s ((j, client) ∷ clients) id (other, others) =
      update_clients_other (update_client W s j client).0 clients id others
      ∙ update_client_other s j client id other

  pub update_clients-ids :
      (P : PlayerId → Type 0) (s : LockstepServer W) (clients : Clients)
      → All (λ e. P e.0) clients
      → All (λ e. P e.0) (update_clients W s clients).1
  unfolding update_clients
  update_clients-ids P s [] h = tt
  update_clients-ids P s ((j, client) ∷ clients) (h, hs) =
      (h, update_clients-ids P (update_client W s j client).0 clients hs)

  pub update_clients-AreDistinct :
      (s : LockstepServer W) (clients : Clients)
      → AreDistinct clients
      → AreDistinct (update_clients W s clients).1
  unfolding update_clients
  update_clients-AreDistinct s [] d = tt
  update_clients-AreDistinct s ((j, client) ∷ clients) (d, ds) = (
    update_clients-ids (λ k. is_same k j ≡ false) (update_client W s j client).0 clients d,
    update_clients-AreDistinct (update_client W s j client).0 clients ds,
  )

  pub update_clients_next :
      (s : LockstepServer W) (clients : Clients) (i : ℕ) (id : PlayerId)
      (client : LockstepClientData W) (c : LockstepInput W.Input)
      (rest : List (LockstepInput W.Input))
      → AreDistinct clients
      → get_elem? clients i ≡ some (id, client)
      → is_some (player W s id) ≡ true
      → client.receive_buffer ≡ c ∷ rest
      → (input_of id (update_clients W s clients).0 ≡ some c.inner)
        × (get_elem? (update_clients W s clients).1 i ≡ some (id, popped client c rest))
  unfolding update_clients
  update_clients_next s [] i id client c rest d at there e = absurd (Option.none-ne-some _ at)
  update_clients_next s ((j, d) ∷ clients) zero id client c rest (others, _) at there e =
      let q : (j, d) ≡ (id, client) = Option.some-injective _ _ at in
      let mine : Without id clients = subst (λ k. Without k clients) (ap (λ x. x.0) q) others in
      let (given, left) = update_client_next s id client c rest there e in
      subst
        (λ (x : PlayerId × LockstepClientData W).
          (input_of id (update_clients W (update_client W s x.0 x.1).0 clients).0 ≡ some c.inner)
          × Is (some (x.0, (update_client W s x.0 x.1).1)) (id, popped client c rest))
        (sym q)
        (
          update_clients_other (update_client W s id client).0 clients id mine ∙ given,
          ap (λ x. some (id, x)) left,
        )
  update_clients_next s ((j, d) ∷ clients) (suc i) id client c rest (_, ds) at there e =
      update_clients_next (update_client W s j d).0 clients i id client c rest ds at
        (ap is_some (update_client-player s j d id) ∙ there) e
