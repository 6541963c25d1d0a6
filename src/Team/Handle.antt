-- ===== src/Team/Handle.antt =====
-- common/src/team/_trait.rs: `handle_team_request`, a function for each request.
pub mod Settled
pub mod Naming
pub mod Joining
pub mod Accepting
pub mod Requests
use kodiak.Base.{
  ◌+◌, Bool, true, false, not, ◌&&◌, none, some, List, [], ◌∷◌, Outcome, returns, ◌>>=◌, ◌>>◌,
  assert, unwrap, if◌then◌else◌, ◌==◌, leb, length, is_some,
}
use kodiak.Ids.{PlayerId}
use kodiak.Team.{
  same_id, contains, get, Team, set_name, add_joiner, remove_joiner, add_member, replace_member,
  remove_member, leader, JoinedStatus, JoinUpdate, add_join, remove_join,
}
use kodiak.Team.Model.{TeamId, Limits, PlayerTeamModel}
use kodiak.Team.Leave.{no_ids, handle_leave}
use kodiak.Team.Requests.{
  TeamRequest, members_cannot_leave, empty_team_name, unauthorized, already_named,
  already_on_named_team, already_joining, no_such_team, unnamed_team, too_many_joiners,
  was_not_joining, team_full, kick_self, kick_non_member, anonymous_team, leader_cannot_leave,
  cannot_leave_solo_team, Reply, accepted, joins_full, has_id, refuse, accept_with, with_joined,
  joined_or_panic, leads, remove_joiner_of, withdraw, turn_away,
}

module _ {Name D M : Type 0} (m : PlayerTeamModel Name D M) where
  open m use {
    Store, player, team, update_player, update_team, create_team, delete_team, swap_manifestation,
  }

  -- `TeamRequest::Name`, past its tests.
  pub name_team : Store → PlayerId → JoinedStatus TeamId → Team Name D M → Name → Outcome Store
  name_team s p j t new_name = do
    assert (length t.members == 1)
    assert (no_ids t.joiners)
    l ← unwrap (leader t)
    (manifestation, s) ←
        swap_manifestation s (record { team_id = j.team_id; player_id = p }) l.manifestation
          j.team_id t.data_
    s ← update_team s j.team_id (replace_member (record l { manifestation = manifestation }))
    s ← withdraw m p j.joins s
    update_team s j.team_id (set_name (some new_name))

  pub handle_name :
      (Name → Name) → (Name → Bool) → Store → PlayerId → Name → Outcome (Store × Reply)
  unfolding name_team
  handle_name new_sanitized is_empty s p raw =
      let new_name = new_sanitized raw in
      if is_empty new_name then refuse m s empty_team_name else do
        status ← unwrap (player s p)
        with_joined m s status λ j. do
          t ← unwrap (team s j.team_id)
          if not (leads m t p)
              then refuse m s unauthorized
              else if is_some t.name
              then refuse m s already_named
              else accept_with m (name_team s p j t new_name)

  -- A player who has made as many requests as there may be takes back the first.
  pub make_room : Store → PlayerId → List TeamId → Outcome Store
  make_room s p [] = returns s
  make_room s p (expired ∷ joins) =
      if not (joins_full (expired ∷ joins))
      then returns s
      else do s ← update_team s expired (remove_joiner p); update_player s p (remove_join expired)

  pub join_team : Store → PlayerId → List TeamId → TeamId → Outcome Store
  unfolding make_room
  join_team s p joins k = do
    s ← make_room s p joins
    s ← update_player s p (add_join k)
    update_team s k (add_joiner p)

  pub join_named : Limits → Store → PlayerId → List TeamId → TeamId → Outcome (Store × Reply)
  unfolding join_team
  join_named limits s p joins k = do
    t ← unwrap (team s k)
    if not (is_some t.name)
        then refuse m s unnamed_team
        else if leb limits.max_members_and_joiners (length t.members + length t.joiners)
        then refuse m s too_many_joiners
        else accept_with m (join_team s p joins k)

  pub handle_join : Limits → Store → PlayerId → TeamId → Outcome (Store × Reply)
  unfolding join_named
  handle_join limits s p k = do
    status ← unwrap (player s p)
    with_joined m s status λ j. do
      t ← unwrap (team s j.team_id)
      if is_some t.name
          then refuse m s already_on_named_team
          else if has_id j.joins k
          then refuse m s already_joining
          else if not (is_some (team s k))
          then refuse m s no_such_team
          else join_named limits s p j.joins k

  -- `TeamRequest::Accept`, past its tests: `k` is the team, with data `d`, and `p` who joins it.
  pub accept_joiner : Store → TeamId → D → PlayerId → Outcome Store
  accept_joiner s k d p = do
    status ← unwrap (player s p)
    old ← joined_or_panic m status
    assert (has_id old.joins k)
    t ← unwrap (team s old.team_id)
    assert (not (is_some t.name))
    assert (length t.members == 1)
    assert (no_ids t.joiners)
    member ← unwrap (get t.members p)
    s ← remove_joiner_of m p old.joins s
    (manifestation, s) ←
        swap_manifestation s (record { team_id = old.team_id; player_id = p }) member.manifestation
          k d
    s ← update_player s p (JoinUpdate.join k)
    s ← update_team s k (add_member (record { player_id = p; manifestation = manifestation }))
    delete_team s old.team_id

  pub handle_accept : Limits → Store → PlayerId → PlayerId → Outcome (Store × Reply)
  unfolding accept_joiner
  handle_accept limits s p joiner = do
    status ← unwrap (player s p)
    with_joined m s status λ j. do
      t ← unwrap (team s j.team_id)
      if not (leads m t p)
          then refuse m s unauthorized
          else if not (has_id t.joiners joiner)
          then refuse m s was_not_joining
          else if leb limits.max_members (length t.members)
          then refuse m s team_full
          else accept_with m (accept_joiner s j.team_id t.data_ joiner)

  pub reject_joiner : Store → TeamId → PlayerId → Outcome Store
  reject_joiner s k p = do
    status ← unwrap (player s p)
    j ← joined_or_panic m status
    assert (has_id j.joins k)
    s ← update_player s p (remove_join k)
    update_team s k (remove_joiner p)

  pub handle_reject : Store → PlayerId → PlayerId → Outcome (Store × Reply)
  unfolding reject_joiner
  handle_reject s p joiner = do
    status ← unwrap (player s p)
    with_joined m s status λ j. do
      t ← unwrap (team s j.team_id)
      if not (leads m t p)
          then refuse m s unauthorized
          else if not (has_id t.joiners joiner)
          then refuse m s was_not_joining
          else accept_with m (reject_joiner s j.team_id joiner)

  -- The reply to the member's own leaving is dropped.
  pub handle_kick : Limits → Store → PlayerId → PlayerId → Outcome (Store × Reply)
  handle_kick limits s p member = do
    status ← unwrap (player s p)
    with_joined m s status λ j. do
      t ← unwrap (team s j.team_id)
      if not (leads m t p)
          then refuse m s unauthorized
          else if same_id member p
          then refuse m s kick_self
          else if not (contains t.members member)
          then refuse m s kick_non_member
          else do (s, reply) ← handle_leave m limits s member; returns (s, accepted)

  -- `new_sanitized` and `is_empty` are those of `TeamName`.
  pub impl_handle_team_request :
      (Name → Name)
      → (Name → Bool)
      → Limits
      → Store
      → PlayerId
      → TeamRequest Name
      → Outcome (Store × Reply)
  impl_handle_team_request new_sanitized is_empty limits s p (TeamRequest.name raw) =
      handle_name new_sanitized is_empty s p raw
  impl_handle_team_request new_sanitized is_empty limits s p (TeamRequest.join k) =
      handle_join limits s p k
  impl_handle_team_request new_sanitized is_empty limits s p (TeamRequest.accept joiner) =
      handle_accept limits s p joiner
  impl_handle_team_request new_sanitized is_empty limits s p (TeamRequest.reject joiner) =
      handle_reject s p joiner
  impl_handle_team_request new_sanitized is_empty limits s p (TeamRequest.kick member) =
      handle_kick limits s p member
  impl_handle_team_request new_sanitized is_empty limits s p TeamRequest.leave =
      handle_leave m limits s p

  abbrev pub is_leave : TeamRequest Name → Bool
  is_leave TeamRequest.leave = true
  is_leave _ = false

  pub handle_team_request :
      (Name → Name)
      → (Name → Bool)
      → Limits
      → Store
      → PlayerId
      → TeamRequest Name
      → Outcome (Store × Reply)
  handle_team_request new_sanitized is_empty limits s p request =
      if not limits.members_can_leave && is_leave request
      then refuse m s members_cannot_leave
      else impl_handle_team_request new_sanitized is_empty limits s p request
