-- ===== src/Team/Handle/Settled.antt =====
-- What a request has done, by its reply, and what each request begins with.
use kodiak.Base.{
  ◌≡◌, refl, arith, true, some, Outcome, ◌>>=◌, returns, unwrap, Returns, Returns-bind,
  Option-cases, inl, inr,
}
use kodiak.Ids.{PlayerId}
use kodiak.Team.{Member, contains, Team, leader, PlayerStatus, spawning, joined, JoinedStatus}
use kodiak.Team.Model.{TeamId, Limits, PlayerTeamModel, same_id-eq}
use kodiak.Team.Requests.{
  Refusal, Reply, accepted, refused, accept_with, with_joined, leads, not_in_team,
}
use kodiak.Team.Roster.{IsValid, view}
use kodiak.Team.Roster.Facts.{team_of_joined}

module _ {Name D M : Type 0} (limits : Limits) (m : PlayerTeamModel Name D M) where
  open m use {Store, player, team}

  -- A request that is accepted leaves a valid store, and one that is refused leaves the store alone.
  abbrev pub Settled : Store → Store × Reply → Type 0
  Settled s (s', accepted) = IsValid limits (view m s')
  Settled s (s', refused _) = s' ≡ s

  pub refuse-Settled : (s : Store) (e : Refusal) → Returns (Settled s) (returns (s, refused e))
  refuse-Settled s e = ((s, refused e), refl, refl)

  pub accept_with-Settled :
      (s : Store) (r : Outcome Store)
      → Returns (λ s'. IsValid limits (view m s')) r
      → Returns (Settled s) (accept_with m r)
  accept_with-Settled s r h =
      Returns-bind (λ s'. IsValid limits (view m s')) (Settled s) r _ h
        λ s' valid. ((s', accepted), refl, valid)

  -- The player who asks is joined, and is a member of the team of the status.
  pub joined-Settled :
      (s : Store) (p : PlayerId) (status : PlayerStatus TeamId)
      (f : JoinedStatus TeamId → Team Name D M → Outcome (Store × Reply))
      → IsValid limits (view m s)
      → player s p ≡ some status
      → ((j : JoinedStatus TeamId) (t : Team Name D M)
          → player s p ≡ some (joined j)
          → team s j.team_id ≡ some t
          → contains t.members p ≡ true
          → Returns (Settled s) (f j t))
      → Returns (Settled s) (
          unwrap (player s p) >>= λ status.
          with_joined m s status λ j. unwrap (team s j.team_id) >>= λ t. f j t)
  joined-Settled s p spawning f valid e h = rw e (refuse-Settled s not_in_team)
  joined-Settled s p (joined j) f valid e h =
      let (t, ek, here) = team_of_joined (view m s) valid p j e in rw (e, ek) (h j t e ek here)

  pub leader_of_leads :
      (t : Team Name D M) (p : PlayerId)
      → leads m t p ≡ true
      → (l : Member M) × (leader t ≡ some l) × (l.player_id ≡ p)
  leader_of_leads t p h = elim (Option-cases (leader t)) [
    | inl e ↦ absurd (ground (arith, e, h))
    | inr (l, e) ↦ (l, e, same_id-eq l.player_id p (ground (arith, e, h)))
  ]
