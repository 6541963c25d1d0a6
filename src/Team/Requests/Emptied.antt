-- ===== src/Team/Requests/Emptied.antt =====
-- The loops that turn a team's joiners away.
use kodiak.Base.{
  ◌≡◌, refl, sym, ap, ◌∙◌, arith, true, false, Option, some, List, [], ◌∷◌, Returns, Returns-bind,
  subst,
}
use kodiak.Ids.{PlayerId}
use kodiak.Team.{same_id, Team, without_joiner, PlayerStatus, joined, JoinedStatus}
use kodiak.Team.Updates.{or_false}
use kodiak.Team.Model.{
  TeamId, Limits, PlayerTeamModel, put, put_all, put_self, put_ne, put-put, put_comm, same_id_refl,
  same_id_sym,
}
use kodiak.Team.Requests.{has_id, turn_away, remove_join_of}
use kodiak.Team.Requests.Calls.{remove_joiner_call, remove_join_call}
use kodiak.Team.Requests.Loops.{IsValid-eq}
use kodiak.Team.Roster.{IsValid}
use kodiak.Team.Roster.Ids.{drop_ids}
use kodiak.Team.Roster.Moves.{unask-IsValid}

module _ {Name D M : Type 0} (limits : Limits) (m : PlayerTeamModel Name D M) where
  open m use {Store, player, team, update_player, update_team}

  abbrev pub AllJoined : Store → List PlayerId → Type 0
  AllJoined s js =
      (q : PlayerId)
      → has_id js q ≡ true
      → (j : JoinedStatus TeamId) × (player s q ≡ some (joined j))

  joined_next :
      (s s' : Store) (q : PlayerId) (js : List PlayerId) (j : JoinedStatus TeamId)
      → AllJoined s (q ∷ js)
      → player s' ≡ put (player s) q (some (joined j))
      → AllJoined s' js
  joined_next s s' q js j all ep =
      subst
        (λ f.
          (i : PlayerId) → has_id js i ≡ true → (j : JoinedStatus TeamId) × (f i ≡ some (joined j)))
        (sym ep)
        (put_all (λ i o. has_id js i ≡ true → (j : JoinedStatus TeamId) × (o ≡ some (joined j)))
          (player s) q (some (joined j)) (λ _. (j, refl)) λ i _ h. all i (ground arith))

  -- Where the joiners `js` of the team have been turned away. The player `p`, who is not among
  -- them, is to get the status `o`.
  pub record TurnedAway (p : PlayerId) (o : Option (PlayerStatus TeamId)) (k : TeamId)
      (t : Team Name D M) (js : List PlayerId) (s s' : Store) : Type 0 where
    pub status : player s' p ≡ player s p
    pub own : team s' k ≡ some (record t { joiners = drop_ids js t.joiners })
    pub elsewhere : (i : TeamId) → same_id k i ≡ false → team s' i ≡ team s i
    pub valid : IsValid limits (record { players = put (player s') p o; teams = team s' })

  pub turn_away-TurnedAway :
      (p : PlayerId) (o : Option (PlayerStatus TeamId)) (k : TeamId) (t : Team Name D M)
      (js : List PlayerId) (s : Store)
      → has_id js p ≡ false
      → team s k ≡ some t
      → AllJoined s js
      → IsValid limits (record { players = put (player s) p o; teams = team s })
      → Returns (TurnedAway p o k t js s) (turn_away m k js s)
  unfolding turn_away without_joiner
  turn_away-TurnedAway p o k t [] s out ek all valid =
      (s, refl, record { status = refl; own = ek; elsewhere = λ i _. refl; valid = valid })
  turn_away-TurnedAway p o k t (q ∷ js) s out ek all valid =
      let (j, e) = all q (ground (arith, same_id_refl q)) in
      let (apart, out') = or_false (same_id q p) (has_id js p) out in
      let t' : Team Name D M = without_joiner t q in
      Returns-bind _ (TurnedAway p o k t (q ∷ js) s) _ _ (remove_join_call m s q k e) λ s₁ (ep, et).
        Returns-bind _ (TurnedAway p o k t (q ∷ js) s) _ (turn_away m k js)
          (remove_joiner_call m s₁ k (ap (λ g. g k) et ∙ ek) q)
          λ s₂ (ep', et').
            let ep₂ = ep' ∙ ep in
            let et₂ = et' ∙ ap (λ g. put g k (some t')) et in
            let (s₃, e₃, d) =
              turn_away-TurnedAway p o k t' js s₂ out' (ap (λ g. g k) et₂ ∙ put_self (team s) k _)
                (joined_next s s₂ q js _ all ep₂)
                (IsValid-eq (ap (λ f. put f p o) ep₂ ∙ put_comm (player s) q _ p o apart) et₂ (
                  unask-IsValid _ valid q j k t
                    (put_ne (player s) p o q (same_id_sym p q ∙ apart) ∙ e) ek)) in
            (
              s₃,
              e₃,
              record {
                status = d.status ∙ ap (λ f. f p) ep₂ ∙ put_ne (player s) q _ p apart;
                own = d.own;
                elsewhere = λ i ne. d.elsewhere i ne ∙ ap (λ g. g i) et₂ ∙ put_ne (team s) k _ i ne;
                valid = d.valid;
              },
            )

  -- Where the joiners `js` have lost their request to the team, which is to get the joiners left.
  pub record Forgot (p : PlayerId) (k : TeamId) (t : Team Name D M) (js : List PlayerId)
      (s s' : Store) : Type 0 where
    pub status : player s' p ≡ player s p
    pub teams : team s' ≡ team s
    pub valid : IsValid limits (record {
      players = player s';
      teams = put (team s) k (some (record t { joiners = drop_ids js t.joiners }));
    })

  pub remove_join_of-Forgot :
      (p : PlayerId) (k : TeamId) (t : Team Name D M) (js : List PlayerId) (s : Store)
      → has_id js p ≡ false
      → AllJoined s js
      → IsValid limits (record { players = player s; teams = put (team s) k (some t) })
      → Returns (Forgot p k t js s) (remove_join_of m k js s)
  unfolding remove_join_of without_joiner
  remove_join_of-Forgot p k t [] s out all valid =
      (s, refl, record { status = refl; teams = refl; valid = valid })
  remove_join_of-Forgot p k t (q ∷ js) s out all valid =
      let (j, e) = all q (ground (arith, same_id_refl q)) in
      let (apart, out') = or_false (same_id q p) (has_id js p) out in
      let t' : Team Name D M = without_joiner t q in
      Returns-bind _ (Forgot p k t (q ∷ js) s) _ (remove_join_of m k js)
        (remove_join_call m s q k e)
        λ s₁ (ep, et).
          let (s₂, e₂, d) =
            remove_join_of-Forgot p k t' js s₁ out' (joined_next s s₁ q js _ all ep) (
              IsValid-eq ep (ap (λ g. put g k (some t')) et ∙ sym (put-put (team s) k _ _))
                (unask-IsValid _ valid q j k t e (put_self (team s) k (some t)))) in
          (
            s₂,
            e₂,
            record {
              status = d.status ∙ ap (λ f. f p) ep ∙ put_ne (player s) q _ p apart;
              teams = d.teams ∙ et;
              valid =
                  IsValid-eq refl
                    (ap (λ g. put g k (some (record t' { joiners = drop_ids js t'.joiners })))
                      (sym et))
                    d.valid;
            },
          )
