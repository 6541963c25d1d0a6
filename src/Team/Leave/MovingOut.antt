-- ===== src/Team/Leave/MovingOut.antt =====
-- `TeamRequest::Leave` on a valid store: the player gets a new team, and the whole request.
use kodiak.Base.{
  ◌≡◌, refl, sym, ap, ◌∙◌, arith, Bool, true, false, not, ◌&&◌, Option, some, none, [], Outcome,
  unwrap, returns, if◌then◌else◌, ◌>>=◌, length, ◌==◌, Returns, Returns-bind, is_some, if_cases,
  Bool-cases, inl, inr,
}
use kodiak.Ids.{PlayerId}
use kodiak.Team.{
  same_id, contains, Team, new_team, leader, PlayerStatus, joined, JoinedStatus, JoinUpdate,
  add_member,
}
use kodiak.Team.Model.{
  TeamId, Limits, PlayerTeamModel, HasFreeId, put, put_self, put_ne, put-put, same_id-eq,
  same_id_sym,
}
use kodiak.Team.Requests.{Reply, anonymous_team, leader_cannot_leave, cannot_leave_solo_team}
use kodiak.Team.Requests.Calls.{join_call}
use kodiak.Team.Requests.Loops.{IsValid-eq}
use kodiak.Team.Requests.Quit.{apart_of}
use kodiak.Team.Leave.{leave_old, move_out, leave_named, handle_leave, no_ids}
use kodiak.Team.Handle.Settled.{Settled, refuse-Settled, accept_with-Settled, joined-Settled}
use kodiak.Team.Roster.{IsValid, view, named}
use kodiak.Team.Roster.Facts.{
  put_same, get-contains, joined_of_joiner, no_joins, own_joiner, leader_of_member,
}
use kodiak.Team.Roster.Created.{created-IsValid}
use kodiak.Team.Leave.Behind.{reuse_team-IsValid, leave_old-Left, settle_in}

module _ {Name D M : Type 0} (limits : Limits) (m : PlayerTeamModel Name D M) where
  open m use {Store, player, team, update_player, update_team, delete_team}

  module _ (p : PlayerId) (j : JoinedStatus TeamId) (t : Team Name D M) where
    -- The calls after the manifestation is swapped.
    moves_out :
        (s s₂ : Store) (k' : TeamId) (d : D) (manifestation : M)
        → IsValid limits (view m s)
        → player s p ≡ some (joined j)
        → team s j.team_id ≡ some t
        → contains t.members p ≡ true
        → is_some t.name ≡ true
        → j.joins ≡ []
        → same_id j.team_id k' ≡ false
        → player s₂ ≡ player s
        → team s₂ ≡ put (team s) k' (some (new_team d))
        → team s k' ≡ none
        → Returns
            (λ s'. IsValid limits (view m s'))
            (update_player s₂ p (JoinUpdate.join k') >>= λ s.
              leave_old m s p j.team_id (length t.members == 1) t.joiners >>= λ s.
              update_team s k'
                (add_member (record { player_id = p; manifestation = manifestation })))
    moves_out s s₂ k' d manifestation valid e ek here n nothing apart ep et fresh =
        let Q = λ (s' : Store). IsValid limits (view m s') in
        let k = j.team_id in
        let o : Option (PlayerStatus TeamId) =
          some (joined (record { team_id = k'; joins = [] })) in
        let x : Option (Team Name D M) = some (new_team d) in
        Returns-bind _ Q _ _ (join_call m s₂ p k' (ap (λ f. f p) ep ∙ e)) λ s₃ (ep₃, et₃).
          let ep' = ep₃ ∙ ap (λ f. put f p o) ep in
          let et' = et₃ ∙ et in
          Returns-bind _ Q _ _
            (leave_old-Left limits m p j t k' s₃ (record {
              valid =
                  IsValid-eq
                    (ap (λ f. put f p (some (joined j))) ep'
                      ∙ put-put (player s) p o (some (joined j))
                      ∙ put_same (player s) p (some (joined j)) e)
                    et' (created-IsValid (view m s) k' d valid fresh);
              joined_all = λ q h.
                  let (i, ei, _) = joined_of_joiner (view m s) valid k t q ek h in
                  (
                    i,
                    ap (λ f. f q) ep'
                        ∙ put_ne (player s) p o q
                            (apart_of t.joiners q p h (own_joiner (view m s) valid p j t e ek))
                        ∙ ei,
                  );
              old = ap (λ g. g k) et' ∙ put_ne (team s) k' x k (same_id_sym k' k ∙ apart) ∙ ek;
              here = here;
              named = n;
              nothing = nothing;
              apart = apart;
            }))
            λ s₄ l.
              settle_in limits m p j t k' d manifestation s₄
                (l.status ∙ ap (λ f. f p) ep' ∙ put_self (player s) p o)
                (l.own ∙ ap (λ g. g k') et' ∙ put_self (team s) k' x) l.valid

    move_out-IsValid :
        (s : Store)
        → HasFreeId m s
        → IsValid limits (view m s)
        → player s p ≡ some (joined j)
        → team s j.team_id ≡ some t
        → contains t.members p ≡ true
        → is_some t.name ≡ true
        → j.joins ≡ []
        → Returns
            (λ s'. IsValid limits (view m s'))
            (move_out m s p j.team_id t (length t.members == 1))
    unfolding move_out new_team
    move_out-IsValid s free valid e ek here n nothing =
        let Q = λ (s' : Store). IsValid limits (view m s') in
        let k = j.team_id in
        let (member, em) = get-contains t.members p here in
        rw em (
          Returns-bind _ Q _ _ (m.create_team_lem s free.0 free.1) λ (k', s₁) (fresh, ep, (d, et)).
            let apart : same_id k k' ≡ false = elim (Bool-cases (same_id k k')) [
              | inr ne ↦ ne
              | inl same ↦
                  absurd (ground (arith, sym ek ∙ ap (team s) (same_id-eq k k' same) ∙ fresh))
            ] in
            rw (ap (λ g. g k') et ∙ put_self (team s) k' (some (new_team d))) (
              Returns-bind _ Q _ _
                (m.swap_manifestation_lem s₁ (record { team_id = k; player_id = p })
                  member.manifestation k' d)
                λ r (ep', et').
                  moves_out s r.1 k' d r.0 valid e ek here n nothing apart (ep' ∙ ep) (et' ∙ et)
                    fresh))

  -- A team with a member has a leader.
  barred_or_not :
      (t : Team Name D M) (p : PlayerId)
      → contains t.members p ≡ true
      → Returns
          (λ _. Unit {0})
          (if limits.leader_can_leave
            then returns false
            else (unwrap (leader t) >>= λ l. returns (same_id l.player_id p)))
  barred_or_not t p here =
      let (l, el) = leader_of_member t p here in
      if_cases (λ (r : Outcome Bool). Returns (λ _. Unit {0}) r) limits.leader_can_leave
        (λ _. (false, refl, tt)) λ _. (same_id l.player_id p, rw el, tt)

  leave_named-Settled :
      (s : Store) (p : PlayerId) (j : JoinedStatus TeamId) (t : Team Name D M)
      → HasFreeId m s
      → IsValid limits (view m s)
      → player s p ≡ some (joined j)
      → team s j.team_id ≡ some t
      → contains t.members p ≡ true
      → is_some t.name ≡ true
      → j.joins ≡ []
      → Returns (Settled limits m s) (leave_named m limits s p j.team_id t)
  unfolding leave_named
  leave_named-Settled s p j t free valid e ek here n nothing =
      let P = λ (r : Outcome (Store × Reply)). Returns (Settled limits m s) r in
      Returns-bind (λ _. Unit {0}) (Settled limits m s) _ _ (barred_or_not t p here)
        λ barred _.
          if_cases P barred (λ _. refuse-Settled limits m s leader_cannot_leave)
            λ _.
              if_cases P ((length t.members == 1) && limits.can_reuse_solo_team)
                (λ reuse.
                  if_cases P (not limits.can_leave_solo_team)
                    (λ _. refuse-Settled limits m s cannot_leave_solo_team)
                    λ _.
                      accept_with-Settled limits m s _
                        (reuse_team-IsValid limits m p j t s valid e ek (ground arith)))
                λ _.
                  accept_with-Settled limits m s _
                    (move_out-IsValid p j t s free valid e ek here n nothing)

  pub handle_leave-Settled :
      (s : Store) (p : PlayerId) (status : PlayerStatus TeamId)
      → HasFreeId m s
      → IsValid limits (view m s)
      → player s p ≡ some status
      → Returns (Settled limits m s) (handle_leave m limits s p)
  unfolding handle_leave
  handle_leave-Settled s p status free valid e =
      let P = λ (r : Outcome (Store × Reply)). Returns (Settled limits m s) r in
      joined-Settled limits m s p status _ valid e λ j t ej ek here.
        if_cases P (not (is_some t.name)) (λ _. refuse-Settled limits m s anonymous_team)
          λ h.
            let n : is_some t.name ≡ true = ground arith in
            let nothing = no_joins (view m s) valid p j ej (ap named ek ∙ n) in
            let none_asked : no_ids j.joins ≡ true = ap no_ids nothing in
            rw none_asked (leave_named-Settled s p j t free valid ej ek here n nothing)
