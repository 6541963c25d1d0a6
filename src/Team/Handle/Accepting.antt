-- ===== src/Team/Handle/Accepting.antt =====
-- `TeamRequest::Accept` on a valid store.
use kodiak.Base.{
  ◌≤◌, ◌<◌, ◌≡◌, sym, ap, ◌∙◌, subst, arith, true, false, not, Option, some, none, [], ◌∷◌, ◌++◌,
  Outcome, ◌>>=◌, Returns-bind, length, ◌==◌, leb, Returns, is_some, if_cases, if_true, Bool-cases,
  inl, inr,
}
use kodiak.Ids.{PlayerId}
use kodiak.Team.{
  Member, same_id, contains, Team, without_joiner, PlayerStatus, spawning, joined, JoinedStatus,
  JoinUpdate, add_member,
}
use kodiak.Team.Model.{
  TeamId, Limits, PlayerTeamModel, put, put_self, put_ne, put-put, put_comm, same_id_sym,
}
use kodiak.Team.Requests.{has_id, Reply, leads, unauthorized, was_not_joining, team_full}
use kodiak.Team.Requests.Calls.{join_call, add_member_call}
use kodiak.Team.Requests.Loops.{IsValid-eq, Dropped, strip, remove_joiner_of-Dropped}
use kodiak.Team.Requests.Quit.{apart_of}
use kodiak.Team.Handle.{accept_joiner, handle_accept}
use kodiak.Team.Leave.{no_ids}
use kodiak.Team.Handle.Settled.{Settled, refuse-Settled, accept_with-Settled, joined-Settled}
use kodiak.Team.Roster.{IsValid, IsSound, view, named, has, in_team}
use kodiak.Team.Roster.Ids.{drop_ids, drop_ids_self, length-drop_id_lt}
use kodiak.Team.Roster.Facts.{
  put_same, get-contains, one_member, team_of_joined, joined_of_joiner, team_of_join, no_joins,
  no_joiners, own_request,
}
use kodiak.Team.Roster.Departures.{last-IsValid}
use kodiak.Team.Roster.Moves.{enter-IsValid}

module _ {Name D M : Type 0} (limits : Limits) (m : PlayerTeamModel Name D M) where
  open m use {Store, player, team, update_player, update_team, delete_team}

  -- The player moves from a team of one, which is deleted, to the team `k`.
  moved-IsValid :
      (s s₁ : Store) (p : PlayerId) (j : JoinedStatus TeamId) (old t : Team Name D M) (k : TeamId)
      (manifestation : M)
      → Dropped limits m p j j.team_id (some old) j.joins s s₁
      → IsSound limits (some t)
      → team s k ≡ some t
      → has_id j.joins k ≡ true
      → has_id t.joiners p ≡ true
      → is_some t.name ≡ true
      → length t.members < limits.max_members
      → same_id j.team_id k ≡ false
      → contains old.members p ≡ true
      → length old.members ≤ 1
      → old.joiners ≡ []
      → IsValid limits (record {
        players = put (player s) p (some (joined (record { team_id = k; joins = [] })));
        teams =
            put
              (put (team s₁) k (
                some (record (without_joiner (without_joiner t p) p) {
                  members =
                      t.members ++ (record { player_id = p; manifestation = manifestation } ∷ []);
                })))
              j.team_id
              none;
      })
  unfolding without_joiner
  moved-IsValid s s₁ p j old t k manifestation d sound ek asked joins n room apart here solo
        nobody =
      let nothing : JoinedStatus TeamId = record j { joins = drop_ids j.joins j.joins } in
      let o : Option (PlayerStatus TeamId) = some (joined (record { team_id = k; joins = [] })) in
      let x : Option (Team Name D M) = some (record (without_joiner (without_joiner t p) p) {
        members = t.members ++ (record { player_id = p; manifestation = manifestation } ∷ []);
      }) in
      let gone : IsValid limits (record {
        players = put (player s) p (some spawning);
        teams = put (team s₁) j.team_id none;
      }) =
        IsValid-eq (sym (put-put (player s) p (some (joined nothing)) (some spawning)))
          (sym (put-put (team s₁) j.team_id (some old) none))
          (last-IsValid _ d.valid p nothing old (put_self (player s) p (some (joined nothing)))
            (drop_ids_self j.joins) (put_self (team s₁) j.team_id (some old)) here solo nobody) in
      IsValid-eq (sym (put-put (player s) p (some spawning) o))
        (put_comm (team s₁) k x j.team_id none (same_id_sym k j.team_id ∙ apart))
        (enter-IsValid _ gone p k (without_joiner t p) manifestation
          (put_self (player s) p (some spawning))
          (put_ne (team s₁) j.team_id none k apart
            ∙ d.teams k
            ∙ if_true _ _ asked
            ∙ ap (strip p) ek)
          (λ a. absurd (ground (arith, n, a))) (λ _. room)
          λ _. omega (arith, sound.all_fit n, length-drop_id_lt t.joiners p joins))

  -- The calls of `TeamRequest::Accept` after the manifestation is swapped.
  moves_in :
      (s s₁ s₂ : Store) (p : PlayerId) (j : JoinedStatus TeamId) (old t : Team Name D M)
      (k : TeamId) (manifestation : M)
      → Dropped limits m p j j.team_id (some old) j.joins s s₁
      → IsSound limits (some t)
      → player s p ≡ some (joined j)
      → team s k ≡ some t
      → has_id j.joins k ≡ true
      → has_id t.joiners p ≡ true
      → is_some t.name ≡ true
      → length t.members < limits.max_members
      → same_id j.team_id k ≡ false
      → contains old.members p ≡ true
      → length old.members ≤ 1
      → old.joiners ≡ []
      → contains t.members p ≡ false
      → player s₂ ≡ player s
      → team s₂ ≡ team s₁
      → Returns
          (λ s'. IsValid limits (view m s'))
          (update_player s₂ p (JoinUpdate.join k) >>= λ s.
            update_team s k (add_member (record { player_id = p; manifestation = manifestation }))
            >>= λ s. delete_team s j.team_id)
  unfolding without_joiner
  moves_in s s₁ s₂ p j old t k manifestation d sound e ek asked joins n room apart here solo nobody
        absent ep et =
      let Q = λ (s' : Store). IsValid limits (view m s') in
      let o : Option (PlayerStatus TeamId) = some (joined (record { team_id = k; joins = [] })) in
      let member : Member M = record { player_id = p; manifestation = manifestation } in
      let x : Option (Team Name D M) =
        some (record (without_joiner (without_joiner t p) p) {
          members = t.members ++ (member ∷ []);
        }) in
      Returns-bind _ Q _ _ (join_call m s₂ p k (ap (λ f. f p) ep ∙ e)) λ s₃ (ep₃, et₃).
        Returns-bind _ Q _ _
          (add_member_call m s₃ k
            (ap (λ g. g k) (et₃ ∙ et) ∙ d.teams k ∙ if_true _ _ asked ∙ ap (strip p) ek) member
            absent)
          λ s₄ (ep₄, et₄).
            let (s₅, e₅, (ep₅, et₅)) = m.delete_team_lem s₄ j.team_id in
            (
              s₅,
              e₅,
              IsValid-eq (ep₅ ∙ ep₄ ∙ ep₃ ∙ ap (λ f. put f p o) ep)
                  (et₅ ∙ ap (λ g. put g j.team_id none) (et₄ ∙ ap (λ g. put g k x) (et₃ ∙ et)))
                  (moved-IsValid s s₁ p j old t k manifestation d sound ek asked joins n room apart
                    here solo nobody),
            )

  accept_joiner-IsValid :
      (s : Store) (k : TeamId) (p : PlayerId) (t : Team Name D M)
      → IsValid limits (view m s)
      → team s k ≡ some t
      → has_id t.joiners p ≡ true
      → length t.members < limits.max_members
      → Returns (λ s'. IsValid limits (view m s')) (accept_joiner m s k t.data_ p)
  unfolding accept_joiner without_joiner
  accept_joiner-IsValid s k p t valid ek joins room =
      let (j, e, asked) = joined_of_joiner (view m s) valid k t p ek joins in
      let (old, eo, here) = team_of_joined (view m s) valid p j e in
      let n : is_some t.name ≡ true = elim (Bool-cases (is_some t.name)) [
        | inl n ↦ n
        | inr a ↦ absurd (
            ground
              (arith, sym joins ∙ ap (λ ids. has_id ids p) (no_joiners (view m s) valid k t ek a)))
      ] in
      let a : is_some old.name ≡ false = elim (Bool-cases (is_some old.name)) [
        | inr a ↦ a
        | inl n ↦ absurd (
            ground (
              arith,
              sym asked
                  ∙ ap (λ ids. has_id ids k) (no_joins (view m s) valid p j e (ap named eo ∙ n)),
            ))
      ] in
      let old_sound : IsSound limits (some old) =
        subst (IsSound limits) eo (valid.sound j.team_id) in
      let solo = old_sound.solo a in
      let nobody = no_joiners (view m s) valid j.team_id old eo a in
      let one : (length old.members == 1) ≡ true = one_member old.members p here solo in
      let none_joining : no_ids old.joiners ≡ true = ap no_ids nobody in
      let out = own_request (view m s) valid p j e in
      let apart = apart_of j.joins k j.team_id asked out in
      let (member, em) = get-contains old.members p here in
      let Q = λ (s' : Store). IsValid limits (view m s') in
      let here_absent : contains t.members p ≡ false =
        ap (λ o. has o p) (sym ek) ∙ sym (valid.home p k) ∙ ap (λ o. in_team o k) e ∙ apart in
      rw (e, asked, eo, a, one, none_joining, em)
        (Returns-bind _ Q _ _
          (remove_joiner_of-Dropped limits m p j j.team_id (some old) j.joins s out
            (λ i h. team_of_join (view m s) valid p j i e h)
            (IsValid-eq (put_same (player s) p _ e) (put_same (team s) j.team_id _ eo) valid))
          λ s₁ d.
            Returns-bind _ Q _ _
              (m.swap_manifestation_lem s₁ (record { team_id = j.team_id; player_id = p })
                member.manifestation k t.data_)
              λ r (ep, et).
                moves_in s s₁ r.1 p j old t k r.0 d (subst (IsSound limits) ek (valid.sound k)) e ek
                  asked joins n room apart here solo nobody here_absent (ep ∙ d.players) et)

  pub handle_accept-Settled :
      (s : Store) (p : PlayerId) (status : PlayerStatus TeamId) (joiner : PlayerId)
      → IsValid limits (view m s)
      → player s p ≡ some status
      → Returns (Settled limits m s) (handle_accept m limits s p joiner)
  unfolding handle_accept
  handle_accept-Settled s p status joiner valid e =
      let P = λ (r : Outcome (Store × Reply)). Returns (Settled limits m s) r in
      joined-Settled limits m s p status _ valid e λ j t ej ek here.
        if_cases P (not (leads m t p)) (λ _. refuse-Settled limits m s unauthorized)
          λ led.
            if_cases P (not (has_id t.joiners joiner))
              (λ _. refuse-Settled limits m s was_not_joining)
              λ joins.
                if_cases P (leb limits.max_members (length t.members))
                  (λ _. refuse-Settled limits m s team_full)
                  λ room. accept_with-Settled limits m s _ (
                    accept_joiner-IsValid s j.team_id joiner t valid ek (ground arith)
                      (ground arith))
