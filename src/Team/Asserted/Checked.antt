-- ===== src/Team/Asserted/Checked.antt =====
-- What each assertion of `assert_valid_teams` says.
use kodiak.Base.{
  ◌+◌, ◌≤◌, ◌≡◌, refl, sym, ap, ◌∙◌, Bool, true, false, Option, some, none, List, [], ◌∷◌, ◌==◌,
  ==_iff, leb, leb→le, length, is_some, ◌>>=◌, assert, unwrap,
}
use kodiak.Ids.{PlayerId}
use kodiak.Team.{
  Member, same_id, contains, get, Team, member_player_ids, PlayerStatus, spawning, joined,
  JoinedStatus,
}
use kodiak.Team.Updates.{Distinct}
use kodiak.Team.Leave.{no_ids}
use kodiak.Team.Model.{TeamId, Limits, PlayerTeamModel, same_id_refl, same_id-eq}
use kodiak.Team.Requests.{has_id, joined_or_panic}
use kodiak.Team.Roster.{in_team, asks, Unique}
use kodiak.Team.Asserted.{
  for_each, distinct_count, assert_join, assert_joined, assert_player, assert_member, assert_joiner,
  assert_anonymous, assert_named, assert_team,
}
use kodiak.Team.Asserted.Chains.{
  Passes, assert_passed, assert_last, then_passed, unwrap_passed, unwrap_known, if_passed,
  passed-for_each, All-at, All-member, ids_of, Distinct-ids_of, length-ids_of,
  Unique-distinct_count,
}

pub no_ids_empty : (ids : List TeamId) → no_ids ids ≡ true → ids ≡ []
no_ids_empty [] h = refl
no_ids_empty (_ ∷ _) h = cc

module _ {Name D M : Type 0} (limits : Limits) (m : PlayerTeamModel Name D M) where
  open m use {Store, player, team}

  -- What is asserted of a joined player.
  pub record PlayerChecked (s : Store) (p : PlayerId) (j : JoinedStatus TeamId) : Type 0 where
    pub home : Team Name D M
    pub own : team s j.team_id ≡ some home
    pub here : contains home.members p ≡ true
    pub settled : is_some home.name ≡ true → j.joins ≡ []
    pub asking :
        is_some home.name ≡ false
        → (k : TeamId) → has_id j.joins k ≡ true
        → (t : Team Name D M) × (team s k ≡ some t) × (has_id t.joiners p ≡ true)

  join_checked :
      (s : Store) (p : PlayerId) (k : TeamId)
      → Passes (assert_join m s p k)
      → (t : Team Name D M) × (team s k ≡ some t) × (has_id t.joiners p ≡ true)
  unfolding assert_join
  join_checked s p k h =
      let (t, ek, h') = unwrap_passed (team s k) _ h in
      (t, ek, (assert_passed (has_id t.joiners p) _ h').0)

  pub player_checked :
      (s : Store) (p : PlayerId) (j : JoinedStatus TeamId)
      → player s p ≡ some (joined j)
      → Passes (assert_player m s p)
      → PlayerChecked s p j
  unfolding assert_player assert_joined
  player_checked s p j e h =
      let h₁ : Passes (assert_joined m s p j) =
        unwrap_known _ e (assert_passed (is_some (player s p)) _ h).1 in
      let (_, h₂) = assert_passed (is_some (team s j.team_id)) _ h₁ in
      let (t, ek, h₃) = unwrap_passed (team s j.team_id) _ h₂ in
      let (here, h₄) = assert_passed (contains t.members p) _ h₃ in
      let (member, _, h₅) = unwrap_passed (get t.members p) _ h₄ in
      let (on_named, on_anonymous) = if_passed (is_some t.name) _ _ h₅ in
      record {
        home = t;
        own = ek;
        here = here;
        settled = λ n. no_ids_empty j.joins (assert_last (no_ids j.joins) (on_named n));
        asking = λ a k asks. join_checked s p k (
            All-at (λ k. Passes (assert_join m s p k)) j.joins k
              (passed-for_each (assert_join m s p) j.joins (on_anonymous a)) asks);
      }

  status_joined :
      (o : Option (PlayerStatus TeamId)) (f : JoinedStatus TeamId → Bool)
      → Passes (unwrap o >>= λ status. joined_or_panic m status >>= λ j. assert (f j))
      → (j : JoinedStatus TeamId) × (o ≡ some (joined j)) × (f j ≡ true)
  status_joined none f h = cc
  status_joined (some spawning) f h = cc
  status_joined (some (joined j)) f h = (j, refl, assert_last (f j) h)

  member_checked :
      (s : Store) (k : TeamId) (member : Member M)
      → Passes (assert_member m s k member)
      → in_team (player s member.player_id) k ≡ true
  unfolding assert_member
  member_checked s k member h =
      let (j, e, same) = status_joined (player s member.player_id) (λ j. same_id k j.team_id) h in
      ap (λ o. in_team o k) e
      ∙ ap (λ i. same_id i k) (sym (same_id-eq k j.team_id same))
      ∙ same_id_refl k

  joiner_checked :
      (s : Store) (k : TeamId) (p : PlayerId)
      → Passes (assert_joiner m s k p)
      → asks (player s p) k ≡ true
  unfolding assert_joiner
  joiner_checked s k p h =
      let (j, e, there) = status_joined (player s p) (λ j. has_id j.joins k) h in
      ap (λ o. asks o k) e ∙ there

  -- What is asserted of a named team.
  pub record NamedChecked (s : Store) (k : TeamId) (t : Team Name D M) : Type 0 where
    pub members_fit : length t.members ≤ limits.max_members
    pub all_fit : length t.members + length t.joiners ≤ limits.max_members_and_joiners
    pub distinct : Distinct t.members
    pub unique : Unique t.joiners
    pub joiners : (p : PlayerId) → has_id t.joiners p ≡ true → asks (player s p) k ≡ true

  named_checked :
      (s : Store) (k : TeamId) (t : Team Name D M)
      → Passes (assert_named m limits s k t)
      → NamedChecked s k t
  unfolding assert_named member_player_ids
  named_checked s k t h =
      let (within, h₁) = assert_passed (leb (length t.members) limits.max_members) _ h in
      let (all_within, h₂) =
        assert_passed (leb (length t.members + length t.joiners) limits.max_members_and_joiners) _
          h₁ in
      let (apart, h₃) =
        assert_passed (length t.members == distinct_count (ids_of t.members)) _ h₂ in
      let (joiners_apart, h₄) = assert_passed (length t.joiners == distinct_count t.joiners) _ h₃ in
      record {
        members_fit = leb→le (length t.members) limits.max_members within;
        all_fit =
            leb→le (length t.members + length t.joiners) limits.max_members_and_joiners all_within;
        distinct = Distinct-ids_of t.members (
            Unique-distinct_count (ids_of t.members)
              (length-ids_of t.members ∙ (==_iff _ _).0 apart));
        unique = Unique-distinct_count t.joiners ((==_iff _ _).0 joiners_apart);
        joiners = λ p there. joiner_checked s k p (
            All-at (λ p. Passes (assert_joiner m s k p)) t.joiners p
              (passed-for_each (assert_joiner m s k) t.joiners h₄) there);
      }

  -- What is asserted of a team.
  pub record TeamChecked (s : Store) (k : TeamId) (t : Team Name D M) : Type 0 where
    pub homes : (p : PlayerId) → contains t.members p ≡ true → in_team (player s p) k ≡ true
    pub on_named : is_some t.name ≡ true → NamedChecked s k t
    pub on_anonymous : is_some t.name ≡ false → (length t.members ≤ 1) × (t.joiners ≡ [])

  pub team_checked :
      (s : Store) (k : TeamId) (t : Team Name D M)
      → team s k ≡ some t
      → Passes (assert_team m limits s k)
      → TeamChecked s k t
  unfolding assert_team assert_anonymous
  team_checked s k t ek h =
      let h₁ = unwrap_known _ ek (assert_passed (is_some (team s k)) _ h).1 in
      let (members_pass, h₂) = then_passed (for_each (assert_member m s k) t.members) _ h₁ in
      let (on_named, on_anonymous) = if_passed (is_some t.name) _ _ h₂ in
      record {
        homes = λ p here.
            let (member, same, passes) =
              All-member (λ member. Passes (assert_member m s k member)) t.members p
                (passed-for_each (assert_member m s k) t.members members_pass) here in
            ap (λ p. in_team (player s p) k) (sym same) ∙ member_checked s k member passes;
        on_named = λ n. named_checked s k t (on_named n);
        on_anonymous = λ a.
            let (one, nobody) = assert_passed (leb (length t.members) 1) _ (on_anonymous a) in
            (
              leb→le (length t.members) 1 one,
              no_ids_empty t.joiners (assert_last (no_ids t.joiners) nobody),
            );
      }
