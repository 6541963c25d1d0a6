-- ===== src/Team/Handle/Requests.antt =====
-- Every request on a valid store.
use kodiak.Base.{
  Bool, ◌≡◌, refl, sym, subst, arith, not, ◌&&◌, some, Outcome, Returns, Returns-bind, if_cases,
}
use kodiak.Ids.{PlayerId}
use kodiak.Team.{same_id, contains, PlayerStatus, joined}
use kodiak.Team.Model.{TeamId, Limits, PlayerTeamModel, HasFreeId}
use kodiak.Team.Requests.{
  TeamRequest, Reply, accepted, refused, leads, unauthorized, kick_self, kick_non_member,
  members_cannot_leave,
}
use kodiak.Team.Handle.{handle_kick, impl_handle_team_request, handle_team_request, is_leave}
use kodiak.Team.Handle.Settled.{Settled, refuse-Settled, joined-Settled}
use kodiak.Team.Handle.Naming.{handle_name-Settled}
use kodiak.Team.Handle.Joining.{handle_join-Settled, handle_reject-Settled}
use kodiak.Team.Handle.Accepting.{handle_accept-Settled}
use kodiak.Team.Leave.MovingOut.{handle_leave-Settled}
use kodiak.Team.Roster.{IsValid, view}
use kodiak.Team.Roster.Facts.{joined_of_member}
use kodiak.Team.Roster.Renamed.{AllowsOne}

module _ {Name D M : Type 0} (limits : Limits) (m : PlayerTeamModel Name D M) where
  open m use {Store, player, team}

  Settled-IsValid :
      (s : Store) (r : Store × Reply)
      → IsValid limits (view m s)
      → Settled limits m s r
      → IsValid limits (view m r.0)
  Settled-IsValid s (s', accepted) valid h = h
  Settled-IsValid s (s', refused _) valid h = subst (λ s. IsValid limits (view m s)) (sym h) valid

  handle_kick-Settled :
      (s : Store) (p : PlayerId) (status : PlayerStatus TeamId) (member : PlayerId)
      → HasFreeId m s
      → IsValid limits (view m s)
      → player s p ≡ some status
      → Returns (Settled limits m s) (handle_kick m limits s p member)
  unfolding handle_kick
  handle_kick-Settled s p status member free valid e =
      let P = λ (r : Outcome (Store × Reply)). Returns (Settled limits m s) r in
      joined-Settled limits m s p status _ valid e λ j t ej ek here.
        if_cases P (not (leads m t p)) (λ _. refuse-Settled limits m s unauthorized)
          λ _.
            if_cases P (same_id member p) (λ _. refuse-Settled limits m s kick_self)
              λ _.
                if_cases P (not (contains t.members member))
                  (λ _. refuse-Settled limits m s kick_non_member)
                  λ there.
                    let (i, ei, _) =
                      joined_of_member (view m s) valid j.team_id t member ek (ground arith) in
                    Returns-bind _ (Settled limits m s) _ _
                      (handle_leave-Settled limits m s member (joined i) free valid ei)
                      λ r settled. ((r.0, accepted), refl, Settled-IsValid s r valid settled)

  -- In a valid store, where the limits allow a team of one and a team id is free, a request by a
  -- player of the store does not panic. One that is accepted leaves a valid store, and one that is refused leaves the store as
  -- it was.
  pub handle_team_request-Settled :
      (new_sanitized : Name → Name) (is_empty : Name → Bool) (s : Store) (p : PlayerId)
      (status : PlayerStatus TeamId) (request : TeamRequest Name)
      → AllowsOne limits
      → HasFreeId m s
      → IsValid limits (view m s)
      → player s p ≡ some status
      → Returns
          (Settled limits m s)
          (handle_team_request m new_sanitized is_empty limits s p request)
  unfolding handle_team_request impl_handle_team_request
  handle_team_request-Settled new_sanitized is_empty s p status request allows free valid e =
      if_cases (λ (r : Outcome (Store × Reply)). Returns (Settled limits m s) r)
        (not limits.members_can_leave && is_leave m request)
        (λ _. refuse-Settled limits m s members_cannot_leave) λ _. handled request
    where
      handled :
          (request : TeamRequest Name)
          → Returns
              (Settled limits m s)
              (impl_handle_team_request m new_sanitized is_empty limits s p request)
      handled (TeamRequest.name raw) =
          handle_name-Settled limits m new_sanitized is_empty s p status raw allows valid e
      handled (TeamRequest.join k) = handle_join-Settled limits m s p status k valid e
      handled (TeamRequest.accept joiner) = handle_accept-Settled limits m s p status joiner valid e
      handled (TeamRequest.reject joiner) = handle_reject-Settled limits m s p status joiner valid e
      handled (TeamRequest.kick member) = handle_kick-Settled s p status member free valid e
      handled TeamRequest.leave = handle_leave-Settled limits m s p status free valid e
