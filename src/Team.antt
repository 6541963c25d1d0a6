-- ===== src/Team.antt =====
-- common/src/team: a team, its members and joiners, and a player's part in it.
pub mod Updates
pub mod Model
pub mod Requests
pub mod Leave
pub mod Handle
pub mod Roster
pub mod Asserted
mod Tests
mod InMemory
mod Scenario
use kodiak.Base.{
  ℕ, zero, suc, Bool, true, false, not, Option, none, some, List, [], ◌∷◌, ◌++◌, Outcome, returns,
  panics, ◌>>=◌, ◌>>◌, assert, if◌then◌else◌, ◌==◌, ltb, length, any, all, keep, map, is_some,
}
use mathlib.Core.Option
use kodiak.Ids.{PlayerId}

pub record Member (M : Type 0) : Type 0 where
  pub player_id : PlayerId
  pub manifestation : M

abbrev pub same_id : PlayerId → PlayerId → Bool
same_id i j = i.0 == j.0

module _ {M : Type 0} where
  -- `Members::contains`
  pub contains : List (Member M) → PlayerId → Bool
  contains members id = any (λ m. same_id m.player_id id) members

  pub push : List (Member M) → Member M → Outcome (List (Member M))
  push members member = do
    assert (all (λ m. not (same_id m.player_id member.player_id)) members)
    returns (members ++ (member ∷ []))

  pub position : List (Member M) → PlayerId → Option ℕ
  position [] id = none
  position (m ∷ members) id =
      let rest = Option.map suc (position members id) in
      if same_id m.player_id id then some zero else rest

  -- `Vec::remove`
  pub remove_at : List (Member M) → ℕ → Outcome (List (Member M))
  remove_at [] i = panics
  remove_at (m ∷ members) zero = returns members
  remove_at (m ∷ members) (suc i) = do members' ← remove_at members i; returns (m ∷ members')

  -- `Members::remove`: the first member with the id, and a panic without one.
  pub remove : List (Member M) → PlayerId → Outcome (List (Member M))
  unfolding position remove_at
  remove members id = elim (position members id) [ none ↦ panics | some i ↦ remove_at members i ]

  pub get : List (Member M) → PlayerId → Option (Member M)
  get [] id = none
  get (m ∷ members) id = if same_id m.player_id id then some m else get members id

  -- `get_mut`, `unwrap` and the assignment to the manifestation.
  pub replace : List (Member M) → Member M → Outcome (List (Member M))
  replace [] member = panics
  replace (m ∷ members) member =
      let rest = do members' ← replace members member; returns (m ∷ members')
      in if same_id m.player_id member.player_id
        then returns (record m { manifestation = member.manifestation } ∷ members)
        else rest

pub record Team (Name D M : Type 0) : Type 0 where
  pub name : Option Name
  pub data_ : D
  pub members : List (Member M)
  pub joiners : List PlayerId

pub data TeamUpdate (Name M : Type 0) : Type 0 where
  set_name : Option Name → TeamUpdate Name M
  add_joiner : PlayerId → TeamUpdate Name M
  remove_joiner : PlayerId → TeamUpdate Name M
  add_member : Member M → TeamUpdate Name M
  replace_member : Member M → TeamUpdate Name M
  remove_member : PlayerId → TeamUpdate Name M

module _ {Name D M : Type 0} where
  pub new_team : D → Team Name D M
  new_team d = record { name = none; data_ = d; members = []; joiners = [] }

  pub leader : Team Name D M → Option (Member M)
  leader t = elim t.members [ [] ↦ none | m ∷ _ ↦ some m ]

  pub member_player_ids : Team Name D M → List PlayerId
  member_player_ids t = map (λ m. m.player_id) t.members

  pub without_joiner : Team Name D M → PlayerId → Team Name D M
  without_joiner t joiner = record t { joiners = keep (λ id. not (same_id id joiner)) t.joiners }

  -- `Team::update`. The debug build panics on a joiner who is there already.
  pub update : Team Name D M → TeamUpdate Name M → Outcome (Team Name D M)
  unfolding without_joiner push remove replace contains
  update t (set_name name) = returns (record t { name = name })
  update t (add_joiner joiner) = returns (record t { joiners = t.joiners ++ (joiner ∷ []) })
  update t (remove_joiner joiner) = returns (without_joiner t joiner)
  update t (add_member member) =
      let t' = without_joiner t member.player_id in
      do
        assert (not (contains t'.members member.player_id))
        members ← push t'.members member
        returns (record t' { members = members })
  update t (replace_member member) = do
    members ← replace t.members member
    returns (record t { members = members })
  update t (remove_member id) = do
    members ← remove t.members id
    returns (record t { members = members })

-- joined_status.rs
pub record JoinedStatus (TeamId : Type 0) : Type 0 where
  pub team_id : TeamId
  pub joins : List TeamId

abbrev pub max_joins : ℕ
max_joins = 3

pub data PlayerStatus (TeamId : Type 0) : Type 0 where
  spawning : PlayerStatus TeamId
  joined : JoinedStatus TeamId → PlayerStatus TeamId

pub data JoinUpdate (TeamId : Type 0) : Type 0 where
  quit : JoinUpdate TeamId
  join : TeamId → JoinUpdate TeamId
  add_join : TeamId → JoinUpdate TeamId
  remove_join : TeamId → JoinUpdate TeamId

module _ {TeamId : Type 0} (same_team : TeamId → TeamId → Bool) where
  -- `ArrayVec::push` panics past the capacity.
  pub player_update : PlayerStatus TeamId → JoinUpdate TeamId → Outcome (PlayerStatus TeamId)
  player_update s quit = returns spawning
  player_update s (join team_id) = returns (joined (record { team_id = team_id; joins = [] }))
  player_update spawning (add_join team_id) = panics
  player_update (joined j) (add_join team_id) = do
    assert (ltb (length j.joins) max_joins)
    returns (joined (record j { joins = j.joins ++ (team_id ∷ []) }))
  player_update spawning (remove_join team_id) = panics
  player_update (joined j) (remove_join team_id) =
      returns (joined (record j { joins = keep (λ id. not (same_team id team_id)) j.joins }))
