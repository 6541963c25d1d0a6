-- ===== src/Team/Requests.antt =====
-- common/src/team/_trait.rs: what a server does to teams for its players. `protocol/teams.rs`: the
-- requests.
pub mod Calls
pub mod Loops
pub mod Emptied
pub mod Quit
pub mod Spawn
use kodiak.Base.{
  Bool, true, false, ◌&&◌, Option, none, some, List, [], ◌∷◌, Outcome, returns, panics, ◌>>=◌, ◌>>◌,
  assert, unwrap, if◌then◌else◌, ◌==◌, ltb, leb, length, any, is_some,
}
use kodiak.Ids.{PlayerId}
use kodiak.Team.{
  same_id, get, Team, remove_joiner, add_member, remove_member, leader, PlayerStatus, spawning,
  joined, JoinedStatus, max_joins, JoinUpdate, quit, remove_join,
}
use kodiak.Team.Model.{TeamId, Limits, PlayerTeamModel}

pub data TeamRequest (Name : Type 0) : Type 0 where
  name : Name → TeamRequest Name
  join : TeamId → TeamRequest Name
  accept : PlayerId → TeamRequest Name
  reject : PlayerId → TeamRequest Name
  kick : PlayerId → TeamRequest Name
  leave : TeamRequest Name

-- The messages of the errors.
pub data Refusal : Type 0 where
  members_cannot_leave empty_team_name not_in_team unauthorized already_named : Refusal
  already_on_named_team already_joining no_such_team unnamed_team too_many_joiners : Refusal
  was_not_joining team_full kick_self kick_non_member anonymous_team : Refusal
  leader_cannot_leave cannot_leave_solo_team : Refusal

pub data Reply : Type 0 where
  accepted : Reply
  refused : Refusal → Reply

-- `is_full` and `contains` of a list of ids.
abbrev pub joins_full : List TeamId → Bool
joins_full joins = leb max_joins (length joins)

abbrev pub has_id : List PlayerId → PlayerId → Bool
has_id ids id = any (λ i. same_id i id) ids

module _ {Name D M : Type 0} (m : PlayerTeamModel Name D M) where
  open m use {
    Store, player, team, update_player, update_team, create_team, delete_team, swap_manifestation,
    delete_manifestation,
  }

  abbrev pub refuse : Store → Refusal → Outcome (Store × Reply)
  refuse s e = returns (s, refused e)

  abbrev pub accept_with : Outcome Store → Outcome (Store × Reply)
  accept_with r = do s ← r; returns (s, accepted)

  -- The status of the player who asks must be joined.
  abbrev pub with_joined :
      Store
      → PlayerStatus TeamId
      → (JoinedStatus TeamId → Outcome (Store × Reply))
      → Outcome (Store × Reply)
  with_joined s spawning f = refuse s not_in_team
  with_joined s (joined j) f = f j

  abbrev pub joined_or_panic : PlayerStatus TeamId → Outcome (JoinedStatus TeamId)
  joined_or_panic spawning = panics
  joined_or_panic (joined j) = returns j

  abbrev pub leads : Team Name D M → PlayerId → Bool
  leads t p = elim (leader t) [ none ↦ false | some l ↦ same_id l.player_id p ]

  -- `for join in joins { update_team(join, RemoveJoiner(p)) }`
  pub remove_joiner_of : PlayerId → List TeamId → Store → Outcome Store
  remove_joiner_of p [] s = returns s
  remove_joiner_of p (k ∷ joins) s = do
    s ← update_team s k (remove_joiner p)
    remove_joiner_of p joins s

  -- The loop of `TeamRequest::Name`, which takes back the player's own requests.
  pub withdraw : PlayerId → List TeamId → Store → Outcome Store
  withdraw p [] s = returns s
  withdraw p (k ∷ joins) s = do
    s ← update_player s p (remove_join k)
    s ← update_team s k (remove_joiner p)
    withdraw p joins s

  -- The loops of `TeamRequest::Leave`, which turn the team's joiners away.
  pub turn_away : TeamId → List PlayerId → Store → Outcome Store
  turn_away k [] s = returns s
  turn_away k (p ∷ joiners) s = do
    s ← update_player s p (remove_join k)
    s ← update_team s k (remove_joiner p)
    turn_away k joiners s

  -- The loop of `player_quit_game` over the joiners of a team that is deleted next.
  pub remove_join_of : TeamId → List PlayerId → Store → Outcome Store
  remove_join_of k [] s = returns s
  remove_join_of k (p ∷ joiners) s = do
    s ← update_player s p (remove_join k)
    remove_join_of k joiners s

  -- The team that a spawning player is put on. `manifestation` is `Manifestation::new(alias)`.
  pub invited_team : Limits → Store → Option PlayerId → Outcome (Option TeamId)
  invited_team limits s none = returns none
  invited_team limits s (some inviter) = elim (player s inviter) [
    | none ↦ returns none
    | some spawning ↦ returns none
    | some (joined j) ↦ do
      t ← unwrap (team s j.team_id)
      returns (
          if is_some t.name && ltb (length t.members) limits.max_members
          then some j.team_id
          else none)
  ]

  pub or_create : Store → Option TeamId → Outcome (TeamId × Store)
  or_create s (some k) = returns (k, s)
  or_create s none = create_team s

  pub put_on_team : Store → PlayerId → M → TeamId → Outcome Store
  put_on_team s p manifestation k = do
    s ← update_team s k (add_member (record { player_id = p; manifestation = manifestation }))
    update_player s p (JoinUpdate.join k)

  pub prepare_spawn_team :
      Limits → Store → PlayerId → M → Option PlayerId → Outcome (Store × TeamId)
  unfolding invited_team or_create put_on_team
  prepare_spawn_team limits s p manifestation invitation = do
    status ← unwrap (player s p)
    elim status [
      | joined j ↦ do assert (is_some (team s j.team_id)); returns (s, j.team_id)
      | spawning ↦ do
        invited ← invited_team limits s invitation
        (k, s) ← or_create s invited
        s ← put_on_team s p manifestation k
        returns (s, k)
    ]

  pub leave_behind : Store → PlayerId → TeamId → Bool → List PlayerId → Outcome Store
  unfolding remove_join_of
  leave_behind s p k true joiners = do s ← remove_join_of k joiners s; delete_team s k
  leave_behind s p k false joiners = update_team s k (remove_member p)

  pub quit_team : Store → PlayerId → JoinedStatus TeamId → Outcome Store
  unfolding leave_behind remove_joiner_of
  quit_team s p j = do
    t ← unwrap (team s j.team_id)
    let delete_team = length t.members == 1
    assert (if is_some t.name then true else delete_team)
    member ← unwrap (get t.members p)
    s ← delete_manifestation s (record { team_id = j.team_id; player_id = p }) member.manifestation
    s ← leave_behind s p j.team_id delete_team t.joiners
    s ← update_player s p quit
    remove_joiner_of p j.joins s

  pub player_quit_game : Store → PlayerId → Outcome Store
  unfolding quit_team
  player_quit_game s p = do
    status ← unwrap (player s p)
    elim status [ spawning ↦ returns s | joined j ↦ quit_team s p j ]
