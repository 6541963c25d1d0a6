-- ===== src/Team/Leave.antt =====
-- common/src/team/_trait.rs: `TeamRequest::Leave`.
pub mod Behind
pub mod MovingOut
use kodiak.Base.{
  ◌+◌, Bool, true, false, not, ◌&&◌, none, some, List, [], ◌∷◌, Outcome, returns, ◌>>=◌, ◌>>◌,
  assert, unwrap, if◌then◌else◌, ◌==◌, leb, length, is_some,
}
use kodiak.Ids.{PlayerId}
use kodiak.Team.{
  same_id, contains, get, Team, set_name, add_joiner, remove_joiner, add_member, replace_member,
  remove_member, leader, JoinedStatus, JoinUpdate, add_join, remove_join,
}
use kodiak.Team.Model.{TeamId, Limits, PlayerTeamModel}
use kodiak.Team.Requests.{
  TeamRequest, members_cannot_leave, empty_team_name, unauthorized, already_named,
  already_on_named_team, already_joining, no_such_team, unnamed_team, too_many_joiners,
  was_not_joining, team_full, kick_self, kick_non_member, anonymous_team, leader_cannot_leave,
  cannot_leave_solo_team, Reply, accepted, joins_full, has_id, refuse, accept_with, with_joined,
  joined_or_panic, leads, remove_joiner_of, withdraw, turn_away,
}

abbrev pub no_ids : List TeamId → Bool
no_ids [] = true
no_ids (_ ∷ _) = false

module _ {Name D M : Type 0} (m : PlayerTeamModel Name D M) where
  open m use {
    Store, player, team, update_player, update_team, create_team, delete_team, swap_manifestation,
  }

  -- `TeamRequest::Leave` where the team is kept as the leaver's own.
  pub reuse_team : Store → TeamId → List PlayerId → Outcome Store
  reuse_team s k joiners = do s ← turn_away m k joiners s; update_team s k (set_name none)

  pub leave_old : Store → PlayerId → TeamId → Bool → List PlayerId → Outcome Store
  leave_old s p k true joiners = do s ← turn_away m k joiners s; delete_team s k
  leave_old s p k false joiners = update_team s k (remove_member p)

  -- `TeamRequest::Leave` where the leaver gets a new team.
  pub move_out : Store → PlayerId → TeamId → Team Name D M → Bool → Outcome Store
  unfolding leave_old
  move_out s p k t solo = do
    member ← unwrap (get t.members p)
    (k', s) ← create_team s
    t' ← unwrap (team s k')
    (manifestation, s) ←
        swap_manifestation s (record { team_id = k; player_id = p }) member.manifestation k'
          t'.data_
    s ← update_player s p (JoinUpdate.join k')
    s ← leave_old s p k solo t.joiners
    update_team s k' (add_member (record { player_id = p; manifestation = manifestation }))

  -- `TeamRequest::Leave` on a named team `k`.
  pub leave_named : Limits → Store → PlayerId → TeamId → Team Name D M → Outcome (Store × Reply)
  unfolding reuse_team move_out
  leave_named limits s p k t = do
    let solo = length t.members == 1
    barred ←
        if limits.leader_can_leave
        then returns false
        else (do l ← unwrap (leader t); returns (same_id l.player_id p))
    if barred
        then refuse m s leader_cannot_leave
        else if solo && limits.can_reuse_solo_team
        then if not limits.can_leave_solo_team
          then refuse m s cannot_leave_solo_team
          else accept_with m (reuse_team s k t.joiners)
        else accept_with m (move_out s p k t solo)

  pub handle_leave : Limits → Store → PlayerId → Outcome (Store × Reply)
  unfolding leave_named
  handle_leave limits s p = do
    status ← unwrap (player s p)
    with_joined m s status λ j. do
      t ← unwrap (team s j.team_id)
      if not (is_some t.name)
          then refuse m s anonymous_team
          else do assert (no_ids j.joins); leave_named limits s p j.team_id t
