-- ===== src/Team/Roster.antt =====
-- common/src/team/_trait.rs: the state that `assert_valid_teams` asserts, as a predicate on the
-- players and teams of a store.
pub mod Ids
pub mod Steps
pub mod Moves
pub mod Facts
pub mod Departures
pub mod Created
pub mod Renamed
use kodiak.Base.{
  ℕ, ◌+◌, ◌≤◌, ◌≡◌, refl, Bool, true, false, Option, none, some, List, [], ◌∷◌, length, any,
  is_some,
}
use kodiak.Ids.{PlayerId}
use kodiak.Collection.Arena.Key.{NonZeroU16}
use kodiak.Team.{
  Member, same_id, contains, Team, PlayerStatus, spawning, joined, JoinedStatus, max_joins,
}
use kodiak.Team.Updates.{Distinct}
use kodiak.Team.Model.{TeamId, Limits, PlayerTeamModel}
use kodiak.Team.Requests.{has_id}

-- No id is listed twice.
abbrev pub Unique : List NonZeroU16 → Type 0
Unique [] = Unit
Unique (i ∷ ids) = (has_id ids i ≡ false) × Unique ids

-- The player is on the team.
abbrev pub in_team : Option (PlayerStatus TeamId) → TeamId → Bool
in_team none k = false
in_team (some spawning) k = false
in_team (some (joined j)) k = same_id j.team_id k

abbrev pub joins : Option (PlayerStatus TeamId) → List TeamId
joins none = []
joins (some spawning) = []
joins (some (joined j)) = j.joins

-- The player requests to join the team.
abbrev pub asks : Option (PlayerStatus TeamId) → TeamId → Bool
asks o k = has_id (joins o) k

module _ {Name D M : Type 0} where
  abbrev pub members : Option (Team Name D M) → List (Member M)
  members none = []
  members (some t) = t.members

  abbrev pub joiners : Option (Team Name D M) → List PlayerId
  joiners none = []
  joiners (some t) = t.joiners

  abbrev pub has : Option (Team Name D M) → PlayerId → Bool
  has o p = contains (members o) p

  abbrev pub asked : Option (Team Name D M) → PlayerId → Bool
  asked o p = has_id (joiners o) p

  abbrev pub named : Option (Team Name D M) → Bool
  named none = false
  named (some t) = is_some t.name

  -- A team keeps to its limits, and an anonymous one has one member at most and no joiners.
  pub record IsSound (limits : Limits) (o : Option (Team Name D M)) : Type 0 where
    pub distinct : Distinct (members o)
    pub unique : Unique (joiners o)
    pub solo : named o ≡ false → length (members o) ≤ 1
    pub closed : named o ≡ false → (p : PlayerId) → asked o p ≡ false
    pub members_fit : named o ≡ true → length (members o) ≤ limits.max_members
    pub all_fit :
        named o ≡ true → length (members o) + length (joiners o) ≤ limits.max_members_and_joiners

-- What a store holds.
pub record World (Name D M : Type 0) : Type 0 where
  pub players : PlayerId → Option (PlayerStatus TeamId)
  pub teams : TeamId → Option (Team Name D M)

abbrev pub view : {Name D M : Type 0} (m : PlayerTeamModel Name D M) → m.Store → World Name D M
view m s = record { players = m.player s; teams = m.team s }

-- The players' statuses and the teams' lists agree on who is where.
pub record IsValid {Name D M : Type 0} (limits : Limits) (w : World Name D M) : Type 0 where
  pub home : (p : PlayerId) (k : TeamId) → in_team (w.players p) k ≡ has (w.teams k) p
  pub asking : (p : PlayerId) (k : TeamId) → asks (w.players p) k ≡ asked (w.teams k) p
  pub sound : (k : TeamId) → IsSound limits (w.teams k)
  -- who is on a named team requests nothing
  pub settled :
      (p : PlayerId) (k i : TeamId)
      → in_team (w.players p) k ≡ true
      → named (w.teams k) ≡ true
      → asks (w.players p) i ≡ false
  pub joins_fit : (p : PlayerId) → length (joins (w.players p)) ≤ max_joins
