-- ===== src/Team/Requests/Spawn.antt =====
-- `prepare_spawn_team` on a valid store.
use kodiak.Base.{
  ◌+◌, ◌<◌, ◌≡◌, refl, sym, ap, ◌∙◌, arith, true, false, ◌&&◌, length, Option, none, some, [],
  Returns, Returns-bind, ◌>>=◌, returns, is_some, Bool-cases, Option-cases, inl, inr, ltb,
}
use kodiak.Ids.{PlayerId}
use kodiak.Team.{Team, new_team, PlayerStatus, spawning, joined}
use kodiak.Team.Model.{TeamId, Limits, PlayerTeamModel, HasFreeId, put, put_self, same_id_refl}
use kodiak.Team.Requests.{invited_team, or_create, put_on_team, prepare_spawn_team}
use kodiak.Team.Requests.Calls.{join_call, add_member_call}
use kodiak.Team.Requests.Loops.{IsValid-eq}
use kodiak.Team.Roster.{IsValid, view, has, in_team}
use kodiak.Team.Roster.Facts.{team_of_joined}
use kodiak.Team.Roster.Moves.{enter-IsValid}
use kodiak.Team.Roster.Created.{created-IsValid}

module _ {Name D M : Type 0} (limits : Limits) (m : PlayerTeamModel Name D M) where
  open m use {Store, player, team, update_player, update_team, create_team}

  -- An invitation leads to a named team that has room for a member.
  abbrev Invited : Store → Option TeamId → Type 0
  Invited s none = Unit
  Invited s (some k) =
      (t : Team Name D M) × (team s k ≡ some t)
      × (is_some t.name ≡ true)
      × (length t.members < limits.max_members)

  invited_team-Invited :
      (s : Store) (invitation : Option PlayerId)
      → IsValid limits (view m s)
      → Returns (Invited s) (invited_team m limits s invitation)
  unfolding invited_team
  invited_team-Invited s none valid = (none, refl, tt)
  invited_team-Invited s (some inviter) valid = elim (Option-cases (player s inviter)) [
    | inl e ↦ (none, rw (e, invited_team), tt)
    | inr (spawning, e) ↦ (none, rw (e, invited_team), tt)
    | inr (joined j, e) ↦
        let (t, ek, _) = team_of_joined (view m s) valid inviter j e in
        elim (Bool-cases (is_some t.name && ltb (length t.members) limits.max_members)) [
          | inl h ↦
              (some j.team_id, rw (e, invited_team, ek, h), (t, ek, ground arith, ground arith))
          | inr h ↦ (none, rw (e, invited_team, ek, h), tt)
        ]
  ]

  -- The player is on the team, and the store is valid.
  abbrev HasSpawned : PlayerId → Store × TeamId → Type 0
  HasSpawned p (s, k) = (in_team (player s p) k ≡ true) × IsValid limits (view m s)

  put_on_team-HasSpawned :
      (s : Store) (p : PlayerId) (manifestation : M) (k : TeamId) (t : Team Name D M)
      → IsValid limits (view m s)
      → player s p ≡ some spawning
      → team s k ≡ some t
      → (is_some t.name ≡ false → t.members ≡ [])
      → (is_some t.name ≡ true → length t.members < limits.max_members)
      → (is_some t.name ≡ true
          → length t.members + length t.joiners < limits.max_members_and_joiners)
      → Returns (λ s'. HasSpawned p (s', k)) (put_on_team m s p manifestation k)
  unfolding put_on_team
  put_on_team-HasSpawned s p manifestation k t valid e ek alone room all_room =
      Returns-bind _ (λ s'. HasSpawned p (s', k)) _ _
        (add_member_call m s k ek (record { player_id = p; manifestation = manifestation })
          (ap (λ o. has o p) (sym ek) ∙ sym (valid.home p k) ∙ ap (λ o. in_team o k) e))
        λ s₁ (ep, et).
          let (s₂, e₂, (ep', et')) = join_call m s₁ p k (ap (λ f. f p) ep ∙ e) in
          (
            s₂,
            e₂,
            (
              ap (λ f. in_team (f p) k) ep'
                  ∙ ap (λ o. in_team o k) (put_self (player s₁) p _)
                  ∙ same_id_refl k,
              IsValid-eq
                  (ep' ∙ ap (λ f. put f p (some (joined (record { team_id = k; joins = [] })))) ep)
                  (et' ∙ et)
                  (enter-IsValid (view m s) valid p k t manifestation e ek alone room all_room),
            ),
          )

  -- The limits leave room: a named team that may take a member may take one more beside its joiners.
  abbrev pub HasRoom : Store → Type 0
  HasRoom s =
      (k : TeamId) (t : Team Name D M)
      → team s k ≡ some t
      → is_some t.name ≡ true
      → length t.members < limits.max_members
      → length t.members + length t.joiners < limits.max_members_and_joiners

  spawn_on :
      (s : Store) (p : PlayerId) (manifestation : M)
      → IsValid limits (view m s)
      → HasRoom s
      → HasFreeId m s
      → player s p ≡ some spawning
      → (o : Option TeamId) → Invited s o
      → Returns (HasSpawned p) (
          or_create m s o >>= λ r.
          put_on_team m r.1 p manifestation r.0 >>= λ s'. returns (s', r.0))
  unfolding or_create new_team
  spawn_on s p manifestation valid room free e (some k) (t, ek, n, l) =
      Returns-bind _ (HasSpawned p) _ _
        (put_on_team-HasSpawned s p manifestation k t valid e ek
          (λ a. absurd (ground (arith, n, a))) (λ _. l) λ _. room k t ek n l)
        λ s' h. ((s', k), refl, h)
  spawn_on s p manifestation valid room free e none _ =
      Returns-bind _ (HasSpawned p) _ _ (m.create_team_lem s free.0 free.1)
        λ (k, s₁) (fresh, ep, (d, et)).
          Returns-bind _ (HasSpawned p) _ _
            (put_on_team-HasSpawned s₁ p manifestation k (new_team d)
              (IsValid-eq ep et (created-IsValid (view m s) k d valid fresh)) (ap (λ f. f p) ep ∙ e)
              (ap (λ g. g k) et ∙ put_self (team s) k _) (λ _. refl) (λ n. cc) λ n. cc)
            λ s' h. ((s', k), refl, h)

  -- Where each named team that lacks a member has room beside its joiners, and a team id is free, a
  -- player who is about to spawn in a valid store is put on a team without a panic: the player's status says the team that
  -- is returned, and the store is valid.
  pub prepare_spawn_team-Returns :
      (s : Store) (p : PlayerId) (manifestation : M) (invitation : Option PlayerId)
      (status : PlayerStatus TeamId)
      → IsValid limits (view m s)
      → HasRoom s
      → HasFreeId m s
      → player s p ≡ some status
      → Returns
          (λ r. (in_team (player r.0 p) r.1 ≡ true) × IsValid limits (view m r.0))
          (prepare_spawn_team m limits s p manifestation invitation)
  unfolding prepare_spawn_team or_create
  prepare_spawn_team-Returns s p manifestation invitation (joined j) valid room free e =
      let (t, ek, _) = team_of_joined (view m s) valid p j e in
      (
        (s, j.team_id),
        rw (e, ek),
        (ap (λ o. in_team o j.team_id) e ∙ same_id_refl j.team_id, valid),
      )
  prepare_spawn_team-Returns s p manifestation invitation spawning valid room free e = rw e (
      Returns-bind (Invited s) (HasSpawned p) _ _ (invited_team-Invited s invitation valid)
        λ o i. spawn_on s p manifestation valid room free e o i)
