-- ===== src/Team/Asserted/Passes.antt =====
-- On a valid store `assert_valid_teams` passes.
use kodiak.Base.{
  ◌+◌, ◌≡◌, sym, ap, ◌∙◌, subst, arith, true, some, List, ◌==◌, leb, length, is_some, if_cases,
  Bool-cases, inl, inr,
}
use kodiak.Ids.{PlayerId}
use kodiak.Team.{same_id, Team, member_player_ids, PlayerStatus, spawning, joined, JoinedStatus}
use kodiak.Team.Leave.{no_ids}
use kodiak.Team.Model.{TeamId, Limits, PlayerTeamModel, same_id_refl}
use kodiak.Team.Requests.{has_id}
use kodiak.Team.Roster.{IsValid, IsSound, view, asks, asked, named}
use kodiak.Team.Roster.Facts.{
  get-contains, team_of_joined, joined_of_member, joined_of_joiner, team_of_join, no_joins,
  no_joiners,
}
use kodiak.Team.Asserted.{
  for_each, distinct_count, assert_join, assert_joined, assert_player, assert_member, assert_joiner,
  assert_anonymous, assert_named, assert_team, assert_valid_teams,
}
use kodiak.Team.Asserted.Chains.{
  Passes, for_each-Passes, All-every, All-every_member, ids_of, Unique-ids_of, length-ids_of,
  distinct_count-Unique,
}

module _ {Name D M : Type 0} (limits : Limits) (m : PlayerTeamModel Name D M) where
  open m use {Store, player, team}

  module _ (s : Store) (valid : IsValid limits (view m s)) where
    assert_join-Passes :
        (p : PlayerId) (j : JoinedStatus TeamId) (k : TeamId)
        → player s p ≡ some (joined j)
        → has_id j.joins k ≡ true
        → Passes (assert_join m s p k)
    unfolding assert_join
    assert_join-Passes p j k e h =
        let (t, ek) = team_of_join (view m s) valid p j k e h in
        let there : has_id t.joiners p ≡ true =
          ap (λ o. asked o p) (sym ek) ∙ sym (valid.asking p k) ∙ ap (λ o. asks o k) e ∙ h in
        let n : is_some t.name ≡ true = elim (Bool-cases (is_some t.name)) [
          | inl n ↦ n
          | inr a ↦ absurd (
              ground (
                arith,
                sym there ∙ ap (λ ids. has_id ids p) (no_joiners (view m s) valid k t ek a),
              ))
        ] in
        rw (ek, there, n)

    assert_player-Passes :
        (p : PlayerId) (status : PlayerStatus TeamId)
        → player s p ≡ some status
        → Passes (assert_player m s p)
    unfolding assert_player assert_joined
    assert_player-Passes p spawning e = rw e
    assert_player-Passes p (joined j) e =
        let (t, ek, here) = team_of_joined (view m s) valid p j e in
        let (member, em) = get-contains t.members p here in
        rw (e, ek, here, em)
          (if_cases Passes (is_some t.name)
            (λ n. rw (ap no_ids (no_joins (view m s) valid p j e (ap named ek ∙ n))))
            λ _. for_each-Passes (assert_join m s p) j.joins (
              All-every (λ k. Passes (assert_join m s p k)) j.joins
                (λ k h. assert_join-Passes p j k e h)))

    members_pass :
        (k : TeamId) (t : Team Name D M)
        → team s k ≡ some t
        → Passes (for_each (assert_member m s k) t.members)
    unfolding assert_member
    members_pass k t ek = for_each-Passes (assert_member m s k) t.members (
        All-every_member (λ member. Passes (assert_member m s k member)) t.members
          λ member h.
            let (j, e, same) = joined_of_member (view m s) valid k t member.player_id ek h in
            rw (e, ap (same_id k) same ∙ same_id_refl k))

    joiners_pass :
        (k : TeamId) (t : Team Name D M)
        → team s k ≡ some t
        → Passes (for_each (assert_joiner m s k) t.joiners)
    unfolding assert_joiner
    joiners_pass k t ek = for_each-Passes (assert_joiner m s k) t.joiners (
        All-every (λ p. Passes (assert_joiner m s k p)) t.joiners
          λ p h. let (j, e, there) = joined_of_joiner (view m s) valid k t p ek h in rw (e, there))

    assert_team-Passes :
        (k : TeamId) (t : Team Name D M) → team s k ≡ some t → Passes (assert_team m limits s k)
    unfolding assert_team assert_named assert_anonymous member_player_ids
    assert_team-Passes k t ek =
        let sound : IsSound limits (some t) = subst (IsSound limits) ek (valid.sound k) in
        rw (ek, members_pass k t ek)
          (if_cases Passes (is_some t.name)
            (λ n.
              let within : leb (length t.members) limits.max_members ≡ true =
                ground (arith, sound.members_fit n) in
              let all_within : leb (length t.members + length t.joiners)
                    limits.max_members_and_joiners
                  ≡ true =
                ground (arith, sound.all_fit n) in
              let apart : (length t.members == distinct_count (ids_of t.members)) ≡ true = ground (
                arith,
                length-ids_of t.members,
                distinct_count-Unique (ids_of t.members) (Unique-ids_of t.members sound.distinct),
              ) in
              let joiners_apart : (length t.joiners == distinct_count t.joiners) ≡ true =
                ground (arith, distinct_count-Unique t.joiners sound.unique) in
              rw (within, all_within, apart, joiners_apart) (joiners_pass k t ek))
            λ a.
              let one : leb (length t.members) 1 ≡ true = ground (arith, sound.solo a) in
              rw (one, ap no_ids (no_joiners (view m s) valid k t ek a)))

    -- On a valid store `assert_valid_teams` passes, for all ids of players and teams of the store.
    pub assert_valid_teams-Passes :
        (player_ids : List PlayerId) (team_ids : List TeamId)
        → ((p : PlayerId)
            → has_id player_ids p ≡ true
            → (status : PlayerStatus TeamId) × (player s p ≡ some status))
        → ((k : TeamId) → has_id team_ids k ≡ true → (t : Team Name D M) × (team s k ≡ some t))
        → Passes (assert_valid_teams m limits s player_ids team_ids)
    unfolding assert_valid_teams
    assert_valid_teams-Passes player_ids team_ids players teams =
        let first : Passes (for_each (assert_player m s) player_ids) =
          for_each-Passes (assert_player m s) player_ids (
            All-every (λ p. Passes (assert_player m s p)) player_ids
              λ p h. let (status, e) = players p h in assert_player-Passes p status e) in
        rw first (
          for_each-Passes (assert_team m limits s) team_ids (
            All-every (λ k. Passes (assert_team m limits s k)) team_ids
              λ k h. let (t, ek) = teams k h in assert_team-Passes k t ek))
