-- ===== src/Team/Scenario.antt =====
-- Two players, of whom one asks to join the other's team, in a store kept in memory.
use kodiak.Base.{
  ℕ, ◌+◌, ◌*◌, ◌<◌, ◌≤◌, ◌≡◌, ◌↔◌, sym, refl, arith, Bool, true, false, Option, some, none, List,
  [], ◌∷◌, length, Returns, returns, is_some, subst,
}
use kodiak.Ids.{PlayerId}
use kodiak.Team.{
  Team, new_team, contains, without_joiner, PlayerStatus, spawning, joined, max_joins,
}
use kodiak.Team.InMemory.{in_memory}
use kodiak.Team.Model.{TeamId, Limits, put}
use kodiak.Team.Requests.{has_id, TeamRequest, player_quit_game, prepare_spawn_team}
use kodiak.Team.Requests.Quit.{player_quit_game-Returns}
use kodiak.Team.Requests.Spawn.{HasRoom, prepare_spawn_team-Returns}
use kodiak.Team.Handle.{handle_team_request}
use kodiak.Team.Handle.Settled.{Settled}
use kodiak.Team.Handle.Requests.{handle_team_request-Settled}
use kodiak.Team.Asserted.{assert_valid_teams}
use kodiak.Team.Asserted.Implies.{assert_valid_teams_iff}
use kodiak.Team.Roster.{joins, World, IsValid, view, in_team}
use kodiak.Team.Roster.Created.{created-IsValid}
use kodiak.Team.Roster.Departures.{no_team-IsSound}
use kodiak.Team.Roster.Moves.{enter-IsValid, ask-IsValid}
use kodiak.Team.Roster.Renamed.{AllowsOne, named-IsValid}

abbrev seven : PlayerId
seven = (7, (omega arith, omega arith))

abbrev nine : PlayerId
nine = (9, (omega arith, omega arith))

abbrev one : TeamId
one = (1, (omega arith, omega arith))

abbrev two : TeamId
two = (2, (omega arith, omega arith))

abbrev three : TeamId
three = (3, (omega arith, omega arith))

-- The defaults of `Manifestation`.
abbrev defaults : Limits
defaults = record {
  max_members = 6;
  max_members_and_joiners = 8;
  leader_can_leave = true;
  members_can_leave = true;
  can_leave_solo_team = true;
  can_reuse_solo_team = true;
}

abbrev lobby : World ℕ ℕ ℕ
lobby = record {
  players =
      put (put (put (λ _. none) three (some spawning)) nine (some spawning)) seven (some spawning);
  teams = λ _. none;
}

lobby-IsValid : (limits : Limits) → IsValid limits lobby
unfolding contains
lobby-IsValid limits = record {
  home = λ p k. ground arith;
  asking = λ p k. ground arith;
  sound = λ k. no_team-IsSound;
  settled = λ p k i h n. cc;
  joins_fit = λ p. ground arith;
}

-- A player on a team of one.
abbrev solo : PlayerId → Option ℕ → List PlayerId → Team ℕ ℕ ℕ
solo p name joiners = record {
  name = name;
  data_ = 0;
  members = record { player_id = p; manifestation = p.0 * 10 } ∷ [];
  joiners = joiners;
}

abbrev on : TeamId → List TeamId → Option (PlayerStatus TeamId)
on k joins = some (joined (record { team_id = k; joins = joins }))

-- Player 7 leads the team 1, which has a name. Player 9 is alone on the team 2, and asks to join.
abbrev asking : World ℕ ℕ ℕ
asking = record {
  players =
      put (put (put lobby.players seven (on one [])) nine (on two [])) nine (on two (one ∷ []));
  teams =
      put
        (put
          (put
            (put (put (put lobby.teams one (some (new_team 0))) one (some (solo seven none []))) one
              (some (solo seven (some 5) [])))
            two (some (new_team 0)))
          two (some (solo nine none [])))
        one (some (solo seven (some 5) (nine ∷ [])));
}

asking-IsValid :
    (limits : Limits)
    → AllowsOne limits
    → 2 ≤ limits.max_members_and_joiners
    → IsValid limits asking
unfolding contains new_team without_joiner
asking-IsValid limits allows two_fit =
    let created = created-IsValid lobby one 0 (lobby-IsValid limits) refl in
    let entered =
      enter-IsValid _ created seven one (new_team 0) 70 refl refl (λ _. refl) (λ n. cc) (λ n. cc) in
    let named =
      named-IsValid _ entered one (solo seven none []) refl seven 5 allows refl (omega arith) refl
        (λ i. refl) in
    let created' = created-IsValid _ two 0 named refl in
    let entered' =
      enter-IsValid _ created' nine two (new_team 0) 90 refl refl (λ _. refl) (λ n. cc) (λ n. cc) in
    ask-IsValid _ entered' nine (record { team_id = two; joins = [] }) one (solo seven (some 5) [])
      refl refl refl refl refl (omega arith) (omega arith)

abbrev defaults_allow : AllowsOne defaults
defaults_allow = record { one_member = omega arith; one_in_all = omega arith }

-- The leader accepts the player who asks.
handle_team_request-Settled_example : Returns (Settled defaults (in_memory 0) asking) (
    handle_team_request
      (in_memory 0)
      (λ n. n)
      (λ n. false)
      defaults
      asking
      seven
      (TeamRequest.accept nine))
handle_team_request-Settled_example =
    handle_team_request-Settled defaults (in_memory 0) (λ n. n) (λ n. false) asking seven
      (joined (record { team_id = one; joins = [] })) (TeamRequest.accept nine) defaults_allow
      (three, refl) (asking-IsValid defaults defaults_allow (omega arith)) refl

-- The leader quits, and the player who asks is turned away.
player_quit_game-Returns_example :
    Returns
      (λ s'. (s'.players seven ≡ some spawning) × IsValid defaults (view (in_memory 0) s'))
      (player_quit_game (in_memory 0) asking seven)
player_quit_game-Returns_example =
    player_quit_game-Returns defaults (in_memory 0) asking seven
      (joined (record { team_id = one; joins = [] }))
      (asking-IsValid defaults defaults_allow (omega arith)) refl

abbrev size : Option (Team ℕ ℕ ℕ) → ℕ
size none = 0
size (some t) = length t.members + length t.joiners

asking-size : (k : TeamId) → size (asking.teams k) < 8
unfolding new_team
asking-size k = ground arith

asking-HasRoom : HasRoom defaults (in_memory 0) asking
asking-HasRoom k t e n l = subst (λ o. size o < 8) e (asking-size k)

-- A player who is invited by the leader spawns.
prepare_spawn_team-Returns_example :
    Returns
      (λ r. (in_team (r.0.players three) r.1 ≡ true) × IsValid defaults (view (in_memory 0) r.0))
      (prepare_spawn_team (in_memory 0) defaults asking three 30 (some seven))
prepare_spawn_team-Returns_example =
    prepare_spawn_team-Returns defaults (in_memory 0) asking three 30 (some seven) spawning
      (asking-IsValid defaults defaults_allow (omega arith)) asking-HasRoom (three, refl) refl

abbrev tight : Limits
tight = record defaults { max_members = 2; max_members_and_joiners = 2 }

abbrev everyone : List PlayerId
everyone = seven ∷ nine ∷ three ∷ []

abbrev all_teams : List TeamId
all_teams = one ∷ two ∷ []

some_iff :
    {A : Type 0} (o : Option A) (b : Bool) → is_some o ≡ b → (b ≡ true) ↔ ((a : A) × (o ≡ some a))
some_iff none b e = (λ h. cc, λ (a, h). cc)
some_iff (some a) b e = (λ _. (a, refl), λ _. sym e)

asking-players : (p : PlayerId) → is_some (asking.players p) ≡ has_id everyone p
asking-players p = ground arith

asking-teams : (k : TeamId) → is_some (asking.teams k) ≡ has_id all_teams k
asking-teams k = ground arith

asking_joins : (p : PlayerId) → length (joins (asking.players p)) ≤ max_joins
asking_joins p = ground arith

-- The assertions pass before the leader accepts.
assert_valid_teams_iff_example :
    (assert_valid_teams (in_memory 0) defaults asking everyone all_teams ≡ returns tt)
    ↔ IsValid defaults (view (in_memory 0) asking)
assert_valid_teams_iff_example =
    assert_valid_teams_iff defaults (in_memory 0) asking everyone all_teams
      (λ p. some_iff (asking.players p) (has_id everyone p) (asking-players p))
      (λ k. some_iff (asking.teams k) (has_id all_teams k) (asking-teams k)) asking_joins
