-- ===== src/Team/Asserted/Implies.antt =====
-- Where `assert_valid_teams` passes for every id of a store, the store is valid.
use kodiak.Base.{
  ◌≤◌, ◌≡◌, refl, sym, ap, ◌∙◌, subst, arith, Bool, true, false, some, List, [], ◌∷◌, ◌↔◌, returns,
  length, is_some, Bool-cases, Option-cases, inl, inr,
}
use kodiak.Ids.{PlayerId}
use kodiak.Team.{Member, contains, Team, PlayerStatus, joined, JoinedStatus, max_joins}
use kodiak.Team.Updates.{Distinct}
use kodiak.Team.Model.{TeamId, Limits, PlayerTeamModel}
use kodiak.Team.Requests.{has_id}
use kodiak.Team.Roster.{IsValid, IsSound, view, in_team, joins, asks, has, asked, named, Unique}
use kodiak.Team.Roster.Facts.{joined_of_asks, joined_of_in_team, some_of_has, some_of_asked}
use kodiak.Team.Roster.Departures.{no_team-IsSound}
use kodiak.Team.Asserted.{for_each, assert_player, assert_team, assert_valid_teams}
use kodiak.Team.Asserted.Chains.{Passes, then_passed, passed-for_each, All-at}
use kodiak.Team.Asserted.Passes.{assert_valid_teams-Passes}
use kodiak.Team.Asserted.Checked.{PlayerChecked, TeamChecked, player_checked, team_checked}

Bool_ext : (a b : Bool) → (a ≡ true → b ≡ true) → (b ≡ true → a ≡ true) → a ≡ b
Bool_ext true b f g = sym (f refl)
Bool_ext false true f g = g refl
Bool_ext false false f g = refl

Distinct-few : {M : Type 0} (ms : List (Member M)) → length ms ≤ 1 → Distinct ms
unfolding contains
Distinct-few [] l = tt
Distinct-few (x ∷ []) l = (refl, tt)
Distinct-few (x ∷ y ∷ ms) l = absurd (omega arith)

module _ {Name D M : Type 0} (limits : Limits) (m : PlayerTeamModel Name D M) where
  open m use {Store, player, team}

  -- What is asserted of every player and every team.
  record AllChecked (s : Store) : Type 0 where
    players :
        (p : PlayerId) (j : JoinedStatus TeamId)
        → player s p ≡ some (joined j)
        → PlayerChecked limits m s p j
    teams : (k : TeamId) (t : Team Name D M) → team s k ≡ some t → TeamChecked limits m s k t

  module _ (s : Store) (all : AllChecked s) where
    home_agrees : (p : PlayerId) (k : TeamId) → in_team (player s p) k ≡ has (team s k) p
    home_agrees p k =
        Bool_ext (in_team (player s p) k) (has (team s k) p)
          (λ h.
            let (j, e, same) = joined_of_in_team (player s p) k h in
            let checked = all.players p j e in
            ap (λ k. has (team s k) p) (sym same) ∙ ap (λ o. has o p) checked.own ∙ checked.here)
          λ h. let (t, ek, here) = some_of_has (team s k) p h in (all.teams k t ek).homes p here

    asking_agrees : (p : PlayerId) (k : TeamId) → asks (player s p) k ≡ asked (team s k) p
    asking_agrees p k =
        Bool_ext (asks (player s p) k) (asked (team s k) p)
          (λ h.
            let (j, e, there) = joined_of_asks (player s p) k h in
            let checked = all.players p j e in
            elim (Bool-cases (is_some checked.home.name)) [
              | inl n ↦
                  absurd (ground (arith, sym there ∙ ap (λ ids. has_id ids k) (checked.settled n)))
              | inr a ↦
                  let (t, ek, joins) = checked.asking a k there in ap (λ o. asked o p) ek ∙ joins
            ])
          λ h.
            let (t, ek) = some_of_asked (team s k) p h in
            let there : has_id t.joiners p ≡ true = ap (λ o. asked o p) (sym ek) ∙ h in
            elim (Bool-cases (is_some t.name)) [
              | inl n ↦ ((all.teams k t ek).on_named n).joiners p there
              | inr a ↦ absurd (
                  ground (
                    arith,
                    sym there ∙ ap (λ ids. has_id ids p) ((all.teams k t ek).on_anonymous a).1,
                  ))
            ]

    some-IsSound : (k : TeamId) (t : Team Name D M) → team s k ≡ some t → IsSound limits (some t)
    some-IsSound k t ek =
        let c = all.teams k t ek in
        elim (Bool-cases (is_some t.name)) [
          | inl n ↦
              let d = c.on_named n in
              record {
                distinct = d.distinct;
                unique = d.unique;
                solo = λ a. absurd (ground (arith, n, a));
                closed = λ a. absurd (ground (arith, n, a));
                members_fit = λ _. d.members_fit;
                all_fit = λ _. d.all_fit;
              }
          | inr a ↦
              let (solo, nobody) = c.on_anonymous a in
              record {
                distinct = Distinct-few t.members solo;
                unique = subst Unique (sym nobody) tt;
                solo = λ _. solo;
                closed = λ _ p. ap (λ ids. has_id ids p) nobody;
                members_fit = λ n. absurd (ground (arith, n, a));
                all_fit = λ n. absurd (ground (arith, n, a));
              }
        ]

    checked-IsValid :
        ((p : PlayerId) → length (joins (player s p)) ≤ max_joins) → IsValid limits (view m s)
    checked-IsValid joins_fit = record {
      home = home_agrees;
      asking = asking_agrees;
      sound = λ k. elim (Option-cases (team s k)) [
        | inl e ↦ subst (IsSound limits) (sym e) no_team-IsSound
        | inr (t, e) ↦ subst (IsSound limits) (sym e) (some-IsSound k t e)
      ];
      settled = λ p k i h n.
          let (j, e, same) = joined_of_in_team (player s p) k h in
          let checked = all.players p j e in
          ap (λ o. asks o i) e
          ∙ ap (λ ids. has_id ids i)
              (checked.settled (ap named (sym checked.own) ∙ ap (λ k. named (team s k)) same ∙ n));
      joins_fit = joins_fit;
    }

  -- Where the ids are all those of the store's players and teams, and no player has more requests
  -- than there may be, `assert_valid_teams` passes exactly when the store is valid.
  pub assert_valid_teams_iff :
      (s : Store) (player_ids : List PlayerId) (team_ids : List TeamId)
      → ((p : PlayerId)
          → (has_id player_ids p ≡ true)
            ↔ ((status : PlayerStatus TeamId) × (player s p ≡ some status)))
      → ((k : TeamId) → (has_id team_ids k ≡ true) ↔ ((t : Team Name D M) × (team s k ≡ some t)))
      → ((p : PlayerId) → length (joins (player s p)) ≤ max_joins)
      → (assert_valid_teams m limits s player_ids team_ids ≡ returns tt) ↔ IsValid limits (view m s)
  unfolding assert_valid_teams
  assert_valid_teams_iff s player_ids team_ids all_players all_teams joins_fit = (
    λ h.
        let (h₁, h₂) = then_passed (for_each (assert_player m s) player_ids) _ h in
        checked-IsValid s
          (record {
            players = λ p j e. player_checked limits m s p j e (
                All-at (λ p. Passes (assert_player m s p)) player_ids p
                  (passed-for_each (assert_player m s) player_ids h₁)
                  ((all_players p).1 (joined j, e)));
            teams = λ k t ek. team_checked limits m s k t ek (
                All-at (λ k. Passes (assert_team m limits s k)) team_ids k
                  (passed-for_each (assert_team m limits s) team_ids h₂) ((all_teams k).1 (t, ek)));
          })
          joins_fit,
    λ valid.
        assert_valid_teams-Passes limits m s valid player_ids team_ids (λ p h. (all_players p).0 h)
          λ k h. (all_teams k).0 h,
  )
