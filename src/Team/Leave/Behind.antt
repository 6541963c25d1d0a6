-- ===== src/Team/Leave/Behind.antt =====
-- `TeamRequest::Leave` on a valid store: what becomes of the old team, and of the new one.
use kodiak.Base.{
  ◌≤◌, ◌≡◌, refl, sym, ap, ◌∙◌, subst, arith, true, false, Option, some, none, [], length, ◌==◌,
  Returns, Returns-bind, is_some, Bool-cases, inl, inr,
}
use kodiak.Ids.{PlayerId}
use kodiak.Team.{
  same_id, contains, Team, new_team, PlayerStatus, spawning, joined, JoinedStatus, add_member,
  without_joiner,
}
use kodiak.Team.Updates.{remove-Removed}
use kodiak.Team.Model.{TeamId, Limits, PlayerTeamModel, put, put_self, put_ne, put-put}
use kodiak.Team.Requests.{has_id}
use kodiak.Team.Requests.Calls.{add_member_call, remove_member_call, set_name_call}
use kodiak.Team.Requests.Loops.{IsValid-eq}
use kodiak.Team.Requests.Emptied.{turn_away-TurnedAway}
use kodiak.Team.Leave.{reuse_team, leave_old}
use kodiak.Team.Roster.{IsValid, IsSound, view}
use kodiak.Team.Roster.Ids.{drop_ids, drop_ids_self}
use kodiak.Team.Roster.Facts.{put_same, joined_of_joiner, own_joiner}
use kodiak.Team.Roster.Departures.{last-IsValid, others-IsValid}
use kodiak.Team.Roster.Renamed.{unnamed-IsValid}
use kodiak.Team.Roster.Moves.{enter-IsValid}

module _ {Name D M : Type 0} (limits : Limits) (m : PlayerTeamModel Name D M) where
  open m use {Store, player, team, update_player, update_team, delete_team}

  module _ (p : PlayerId) (j : JoinedStatus TeamId) (t : Team Name D M) where
    pub reuse_team-IsValid :
        (s : Store)
        → IsValid limits (view m s)
        → player s p ≡ some (joined j)
        → team s j.team_id ≡ some t
        → length t.members ≤ 1
        → Returns (λ s'. IsValid limits (view m s')) (reuse_team m s j.team_id t.joiners)
    unfolding reuse_team
    reuse_team-IsValid s valid e ek solo =
        let k = j.team_id in
        Returns-bind _ (λ s'. IsValid limits (view m s')) _ _
          (turn_away-TurnedAway limits m p (some (joined j)) k t t.joiners s
            (own_joiner (view m s) valid p j t e ek) ek
            (λ q h. let (i, ei, _) = joined_of_joiner (view m s) valid k t q ek h in (i, ei))
            (IsValid-eq (put_same (player s) p _ e) refl valid))
          λ s₁ a.
            let (s₂, e₂, (ep, et)) = set_name_call m s₁ k a.own none in
            (
              s₂,
              e₂,
              IsValid-eq ep et (
                  unnamed-IsValid (view m s₁)
                    (IsValid-eq (sym (put_same (player s₁) p _ (a.status ∙ e))) refl a.valid) k
                    (record t { joiners = drop_ids t.joiners t.joiners }) a.own solo
                    (drop_ids_self t.joiners)),
            )

    -- The player's old team is left, where the player is to be spawning, and the team `k'` is as it
    -- was.
    pub record Left (k' : TeamId) (s s' : Store) : Type 0 where
      pub status : player s' p ≡ player s p
      pub own : team s' k' ≡ team s k'
      pub valid :
          IsValid limits (record { players = put (player s') p (some spawning); teams = team s' })

    -- The state in which the player leaves: the status is that of the team `k'` already.
    pub record Leaves (k' : TeamId) (s : Store) : Type 0 where
      pub valid :
          IsValid limits (record { players = put (player s) p (some (joined j)); teams = team s })
      pub joined_all :
          (q : PlayerId)
          → has_id t.joiners q ≡ true
          → (i : JoinedStatus TeamId) × (player s q ≡ some (joined i))
      pub old : team s j.team_id ≡ some t
      pub here : contains t.members p ≡ true
      pub named : is_some t.name ≡ true
      pub nothing : j.joins ≡ []
      pub apart : same_id j.team_id k' ≡ false

    leave_old_last :
        (k' : TeamId) (s : Store)
        → Leaves k' s
        → length t.members ≤ 1
        → Returns (Left k' s) (leave_old m s p j.team_id true t.joiners)
    unfolding leave_old
    leave_old_last k' s l solo =
        let k = j.team_id in
        let out = own_joiner _ l.valid p j t (put_self (player s) p (some (joined j))) l.old in
        Returns-bind _ (Left k' s) _ (λ s'. delete_team s' k)
          (turn_away-TurnedAway limits m p (some (joined j)) k t t.joiners s out l.old l.joined_all
            l.valid)
          λ s₁ a.
            let (s₂, e₂, (ep, et)) = m.delete_team_lem s₁ k in
            (
              s₂,
              e₂,
              record {
                status = ap (λ f. f p) ep ∙ a.status;
                own =
                    ap (λ g. g k') et ∙ put_ne (team s₁) k none k' l.apart ∙ a.elsewhere k' l.apart;
                valid =
                    IsValid-eq
                      (ap (λ f. put f p (some spawning)) ep
                        ∙ sym (put-put (player s₁) p (some (joined j)) (some spawning)))
                      et
                      (last-IsValid _ a.valid p j
                        (record t { joiners = drop_ids t.joiners t.joiners })
                        (put_self (player s₁) p (some (joined j))) l.nothing a.own l.here solo
                        (drop_ids_self t.joiners));
              },
            )

    leave_old_others :
        (k' : TeamId) (s : Store)
        → Leaves k' s
        → Returns (Left k' s) (leave_old m s p j.team_id false t.joiners)
    unfolding leave_old
    leave_old_others k' s l =
        let k = j.team_id in
        let sound : IsSound limits (some t) = subst (IsSound limits) l.old (l.valid.sound k) in
        let (rest, er, r) = remove-Removed t.members p sound.distinct l.here in
        let x : Option (Team Name D M) = some (record t { members = rest }) in
        let (s₁, e₁, (ep, et)) = remove_member_call m s k l.old p er in
        (
          s₁,
          e₁,
          record {
            status = ap (λ f. f p) ep;
            own = ap (λ g. g k') et ∙ put_ne (team s) k x k' l.apart;
            valid =
                IsValid-eq
                  (ap (λ f. put f p (some spawning)) ep
                    ∙ sym (put-put (player s) p (some (joined j)) (some spawning)))
                  et
                  (others-IsValid _ l.valid p j t (put_self (player s) p (some (joined j)))
                    l.nothing l.old l.named r);
          },
        )

    -- The player, whose status is of the new team, becomes its member.
    pub settle_in :
        (k' : TeamId) (d : D) (manifestation : M) (s : Store)
        → player s p ≡ some (joined (record { team_id = k'; joins = [] }))
        → team s k' ≡ some (new_team d)
        → IsValid limits (record { players = put (player s) p (some spawning); teams = team s })
        → Returns
            (λ s'. IsValid limits (view m s'))
            (update_team s k'
              (add_member (record { player_id = p; manifestation = manifestation })))
    unfolding new_team contains without_joiner
    settle_in k' d manifestation s e ek valid =
        let (s', e', (ep, et)) =
          add_member_call m s k' ek (record { player_id = p; manifestation = manifestation })
            refl in
        let o : Option (PlayerStatus TeamId) =
          some (joined (record { team_id = k'; joins = [] })) in
        (
          s',
          e',
          IsValid-eq
              (ep ∙ sym (put_same (player s) p o e) ∙ sym (put-put (player s) p (some spawning) o))
              et
              (enter-IsValid _ valid p k' (new_team d) manifestation
                (put_self (player s) p (some spawning)) ek (λ _. refl) (λ n. cc) (λ n. cc)),
        )

    pub leave_old-Left :
        (k' : TeamId) (s : Store)
        → Leaves k' s
        → Returns (Left k' s) (leave_old m s p j.team_id (length t.members == 1) t.joiners)
    leave_old-Left k' s l = elim (Bool-cases (length t.members == 1)) [
      | inl one ↦ rw one (leave_old_last k' s l (ground arith))
      | inr several ↦ rw several (leave_old_others k' s l)
    ]
