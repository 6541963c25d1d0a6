-- ===== src/Team/Asserted.antt =====
-- common/src/team/_trait.rs: `assert_valid_teams`.
pub mod Chains
pub mod Passes
pub mod Checked
pub mod Implies
use kodiak.Base.{
  ℕ, zero, suc, ◌+◌, Bool, true, false, Option, some, none, List, [], ◌∷◌, map, Outcome, returns,
  panics, ◌>>=◌, ◌>>◌, assert, unwrap, if◌then◌else◌, ◌==◌, leb, length, is_some,
}
use kodiak.Ids.{PlayerId}
use kodiak.Collection.Arena.Key.{NonZeroU16}
use kodiak.Team.{
  Member, same_id, contains, get, Team, member_player_ids, PlayerStatus, spawning, joined,
  JoinedStatus,
}
use kodiak.Team.Leave.{no_ids}
use kodiak.Team.Model.{TeamId, Limits, PlayerTeamModel}
use kodiak.Team.Requests.{has_id, joined_or_panic}

-- `for x in xs { … }`
abbrev pub for_each : {A : Type 0} → (A → Outcome (Unit {0})) → List A → Outcome (Unit {0})
for_each f [] = returns tt
for_each f (x ∷ xs) = f x >> for_each f xs

-- The length of a `HashSet` of the ids.
abbrev pub distinct_count : List NonZeroU16 → ℕ
distinct_count [] = zero
distinct_count (i ∷ ids) = let rest = distinct_count ids in if has_id ids i then rest else suc rest

module _ {Name D M : Type 0} (m : PlayerTeamModel Name D M) where
  open m use {Store, player, team}

  pub assert_join : Store → PlayerId → TeamId → Outcome (Unit {0})
  assert_join s p k = do t ← unwrap (team s k); assert (has_id t.joiners p); assert (is_some t.name)

  pub assert_joined : Store → PlayerId → JoinedStatus TeamId → Outcome (Unit {0})
  assert_joined s p j = do
    assert (is_some (team s j.team_id))
    t ← unwrap (team s j.team_id)
    assert (contains t.members p)
    member ← unwrap (get t.members p)
    if is_some t.name then assert (no_ids j.joins) else for_each (assert_join s p) j.joins

  pub assert_player : Store → PlayerId → Outcome (Unit {0})
  unfolding assert_joined
  assert_player s p = do
    assert (is_some (player s p))
    status ← unwrap (player s p)
    elim status [ spawning ↦ returns tt | joined j ↦ assert_joined s p j ]

  pub assert_member : Store → TeamId → Member M → Outcome (Unit {0})
  assert_member s k member = do
    status ← unwrap (player s member.player_id)
    j ← joined_or_panic m status
    assert (same_id k j.team_id)

  pub assert_joiner : Store → TeamId → PlayerId → Outcome (Unit {0})
  assert_joiner s k p = do
    status ← unwrap (player s p)
    j ← joined_or_panic m status
    assert (has_id j.joins k)

  pub assert_anonymous : Team Name D M → Outcome (Unit {0})
  assert_anonymous t = do assert (leb (length t.members) 1); assert (no_ids t.joiners)

  pub assert_named : Limits → Store → TeamId → Team Name D M → Outcome (Unit {0})
  unfolding assert_joiner member_player_ids
  assert_named limits s k t = do
    assert (leb (length t.members) limits.max_members)
    assert (leb (length t.members + length t.joiners) limits.max_members_and_joiners)
    assert (length t.members == distinct_count (member_player_ids t))
    assert (length t.joiners == distinct_count t.joiners)
    for_each (assert_joiner s k) t.joiners

  pub assert_team : Limits → Store → TeamId → Outcome (Unit {0})
  unfolding assert_member assert_anonymous assert_named
  assert_team limits s k = do
    assert (is_some (team s k))
    t ← unwrap (team s k)
    for_each (assert_member s k) t.members
    if is_some t.name then assert_named limits s k t else assert_anonymous t

  pub assert_valid_teams : Limits → Store → List PlayerId → List TeamId → Outcome (Unit {0})
  unfolding assert_player assert_team
  assert_valid_teams limits s player_ids team_ids = do
    for_each (assert_player s) player_ids
    for_each (assert_team limits s) team_ids
