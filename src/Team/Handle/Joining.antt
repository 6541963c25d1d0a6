-- ===== src/Team/Handle/Joining.antt =====
-- `TeamRequest::Join` and `TeamRequest::Reject` on a valid store.
use kodiak.Base.{
  ◌+◌, ◌≤◌, ◌<◌, ◌≡◌, refl, sym, ap, ◌∙◌, subst, arith, true, false, not, ◌&&◌, ◌>>=◌, Option, some,
  List, [], ◌∷◌, ◌++◌, Outcome, length, leb, Returns, Returns-bind, is_some, if_cases, Bool-cases,
  inl, inr, Option-cases,
}
use kodiak.Ids.{PlayerId}
use kodiak.Team.{
  remove_join, remove_joiner, without_joiner, same_id, Team, PlayerStatus, joined, JoinedStatus,
  max_joins,
}
use kodiak.Team.Model.{
  TeamId, Limits, PlayerTeamModel, put, put_self, put_ne, put_all, same_id_refl, same_id_sym,
}
use kodiak.Team.Requests.{
  has_id, joins_full, Reply, leads, already_on_named_team, already_joining, no_such_team,
  unnamed_team, too_many_joiners, unauthorized, was_not_joining,
}
use kodiak.Team.Requests.Calls.{
  remove_join_call, remove_joiner_call, add_join_call, add_joiner_call,
}
use kodiak.Team.Requests.Loops.{IsValid-eq}
use kodiak.Team.Handle.{make_room, join_team, join_named, handle_join, reject_joiner, handle_reject}
use kodiak.Team.Handle.Settled.{Settled, refuse-Settled, accept_with-Settled, joined-Settled}
use kodiak.Team.Requests.Quit.{apart_of}
use kodiak.Team.Roster.{joins, IsValid, view, named}
use kodiak.Team.Roster.Ids.{drop_id, has_id-drop_id, length-drop_id_lt}
use kodiak.Team.Roster.Facts.{team_of_join, joined_of_joiner}
use kodiak.Team.Roster.Moves.{unask-IsValid, ask-IsValid}

module _ {Name D M : Type 0} (limits : Limits) (m : PlayerTeamModel Name D M) where
  open m use {Store, player, team, update_team, update_player}

  -- The player's request to the team is taken off both lists.
  reject_joiner-IsValid :
      (s : Store) (k : TeamId) (p : PlayerId) (t : Team Name D M)
      → IsValid limits (view m s)
      → team s k ≡ some t
      → has_id t.joiners p ≡ true
      → Returns (λ s'. IsValid limits (view m s')) (reject_joiner m s k p)
  unfolding reject_joiner
  reject_joiner-IsValid s k p t valid ek joins =
      let (j, e, asked) = joined_of_joiner (view m s) valid k t p ek joins in
      let (s₁, e₁, (ep, et)) = remove_join_call m s p k e in
      let (s₂, e₂, (ep', et')) = remove_joiner_call m s₁ k (ap (λ g. g k) et ∙ ek) p in
      (
        s₂,
        rw (e, asked, e₁) e₂,
        IsValid-eq (ep' ∙ ep) (et' ∙ ap (λ g. put g k (some (without_joiner t p))) et)
            (unask-IsValid (view m s) valid p j k t e ek),
      )

  pub handle_reject-Settled :
      (s : Store) (p : PlayerId) (status : PlayerStatus TeamId) (joiner : PlayerId)
      → IsValid limits (view m s)
      → player s p ≡ some status
      → Returns (Settled limits m s) (handle_reject m s p joiner)
  unfolding handle_reject
  handle_reject-Settled s p status joiner valid e =
      let P = λ (r : Outcome (Store × Reply)). Returns (Settled limits m s) r in
      joined-Settled limits m s p status _ valid e λ j t ej ek here.
        if_cases P (not (leads m t p)) (λ _. refuse-Settled limits m s unauthorized)
          λ led.
            if_cases P (not (has_id t.joiners joiner))
              (λ _. refuse-Settled limits m s was_not_joining)
              λ joins.
                accept_with-Settled limits m s _
                  (reject_joiner-IsValid s j.team_id joiner t valid ek (ground arith))

  -- A player who may make a request to the team `k`, which is `t`.
  record MayAsk (p : PlayerId) (k : TeamId) (t : Team Name D M) (j : JoinedStatus TeamId)
      (s : Store) : Type 0 where
    valid : IsValid limits (view m s)
    status : player s p ≡ some (joined j)
    home : named (team s j.team_id) ≡ false
    own : team s k ≡ some t
    fresh : has_id j.joins k ≡ false

  -- The first request is taken back.
  expired-MayAsk :
      (s : Store) (p : PlayerId) (k expired : TeamId) (t : Team Name D M) (j : JoinedStatus TeamId)
      → has_id j.joins expired ≡ true
      → MayAsk p k t j s
      → Returns
          (λ s'. (j' : JoinedStatus TeamId) × MayAsk p k t j' s' × (length j'.joins < max_joins))
          (update_team s expired (remove_joiner p) >>= λ s'.
            update_player s' p (remove_join expired))
  unfolding without_joiner
  expired-MayAsk s p k expired t j h a =
      let (x, ex) = team_of_join (view m s) a.valid p j expired a.status h in
      let (s₁, e₁, (ep, et)) = remove_joiner_call m s expired ex p in
      let (s₂, e₂, (ep', et')) = remove_join_call m s₁ p expired (ap (λ f. f p) ep ∙ a.status) in
      let left : JoinedStatus TeamId = record j { joins = drop_id expired j.joins } in
      let x' : Option (Team Name D M) = some (without_joiner x p) in
      let fits : length j.joins ≤ max_joins =
        subst (λ o. length (joins o) ≤ max_joins) a.status (a.valid.joins_fit p) in
      (
        s₂,
        rw e₁ e₂,
        (
          left,
          record {
            valid =
                IsValid-eq (ep' ∙ ap (λ f. put f p (some (joined left))) ep) (et' ∙ et)
                  (unask-IsValid (view m s) a.valid p j expired x a.status ex);
            status = ap (λ f. f p) ep' ∙ put_self (player s₁) p _;
            home =
                ap (λ g. named (g j.team_id)) (et' ∙ et)
                ∙ put_all (λ i o. named o ≡ named (team s i)) (team s) expired x'
                    (ap named (sym ex)) (λ _ _. refl) j.team_id
                ∙ a.home;
            own =
                ap (λ g. g k) (et' ∙ et)
                ∙ put_ne (team s) expired x' k
                    (same_id_sym expired k ∙ apart_of j.joins expired k h a.fresh)
                ∙ a.own;
            fresh =
                has_id-drop_id j.joins expired k ∙ ap (λ b. b && not (same_id expired k)) a.fresh;
          },
          omega (arith, fits, length-drop_id_lt j.joins expired h),
        ),
      )

  make_room-MayAsk :
      (s : Store) (p : PlayerId) (k : TeamId) (t : Team Name D M) (j : JoinedStatus TeamId)
      (joins : List TeamId)
      → j.joins ≡ joins
      → MayAsk p k t j s
      → Returns
          (λ s'. (j' : JoinedStatus TeamId) × MayAsk p k t j' s' × (length j'.joins < max_joins))
          (make_room m s p joins)
  unfolding make_room
  make_room-MayAsk s p k t j [] same a =
      (s, refl, (j, a, omega (arith, ap (length {A = TeamId}) same)))
  make_room-MayAsk s p k t j (expired ∷ joins) same a =
      elim (Bool-cases (joins_full (expired ∷ joins))) [
        | inl full ↦ rw full (
            expired-MayAsk s p k expired t j
              (ap (λ ids. has_id ids expired) same ∙ ground (arith, same_id_refl expired)) a)
        | inr room ↦ (s, rw room, (j, a, ground (arith, ap (length {A = TeamId}) same)))
      ]

  join_team-IsValid :
      (s : Store) (p : PlayerId) (k : TeamId) (t : Team Name D M) (j : JoinedStatus TeamId)
      → MayAsk p k t j s
      → is_some t.name ≡ true
      → length t.members + length t.joiners < limits.max_members_and_joiners
      → Returns (λ s'. IsValid limits (view m s')) (join_team m s p j.joins k)
  unfolding join_team
  join_team-IsValid s p k t j a n all_room =
      Returns-bind _ (λ s'. IsValid limits (view m s')) _ _
        (make_room-MayAsk s p k t j j.joins refl a)
        λ s₁ (j', a', room).
          let (s₂, e₂, (ep, et)) = add_join_call m s₁ p k a'.status room in
          let (s₃, e₃, (ep', et')) = add_joiner_call m s₂ k (ap (λ g. g k) et ∙ a'.own) p in
          (
            s₃,
            rw e₂ e₃,
            IsValid-eq (ep' ∙ ep)
                (et' ∙ ap (λ g. put g k (some (record t { joiners = t.joiners ++ (p ∷ []) }))) et)
                (ask-IsValid (view m s₁) a'.valid p j' k t a'.status a'.home a'.own n a'.fresh room
                  all_room),
          )

  join_named-Settled :
      (s : Store) (p : PlayerId) (k : TeamId) (j : JoinedStatus TeamId)
      → IsValid limits (view m s)
      → player s p ≡ some (joined j)
      → named (team s j.team_id) ≡ false
      → has_id j.joins k ≡ false
      → is_some (team s k) ≡ true
      → Returns (Settled limits m s) (join_named m limits s p j.joins k)
  unfolding join_named
  join_named-Settled s p k j valid e home fresh there =
      let P = λ (r : Outcome (Store × Reply)). Returns (Settled limits m s) r in
      elim (Option-cases (team s k)) [
        | inl ek ↦ absurd (ground (arith, ek, there))
        | inr (t, ek) ↦ rw ek (
            if_cases P (not (is_some t.name)) (λ _. refuse-Settled limits m s unnamed_team)
              λ n.
                if_cases P
                  (leb limits.max_members_and_joiners (length t.members + length t.joiners))
                  (λ _. refuse-Settled limits m s too_many_joiners)
                  λ room. accept_with-Settled limits m s _ (
                    join_team-IsValid s p k t j
                      (record { valid = valid; status = e; home = home; own = ek; fresh = fresh })
                      (ground arith) (ground arith)))
      ]

  pub handle_join-Settled :
      (s : Store) (p : PlayerId) (status : PlayerStatus TeamId) (k : TeamId)
      → IsValid limits (view m s)
      → player s p ≡ some status
      → Returns (Settled limits m s) (handle_join m limits s p k)
  unfolding handle_join
  handle_join-Settled s p status k valid e =
      let P = λ (r : Outcome (Store × Reply)). Returns (Settled limits m s) r in
      joined-Settled limits m s p status _ valid e λ j t ej ek here.
        if_cases P (is_some t.name) (λ _. refuse-Settled limits m s already_on_named_team)
          λ anonymous.
            if_cases P (has_id j.joins k) (λ _. refuse-Settled limits m s already_joining)
              λ fresh.
                if_cases P (not (is_some (team s k))) (λ _. refuse-Settled limits m s no_such_team)
                  λ there.
                    join_named-Settled s p k j valid ej (ap named ek ∙ anonymous) fresh
                      (ground arith)
