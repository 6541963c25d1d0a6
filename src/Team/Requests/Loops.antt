-- ===== src/Team/Requests/Loops.antt =====
-- The loops over a player's requests and over a team's joiners.
use kodiak.Base.{
  ◌≡◌, refl, sym, ap, ◌∙◌, subst, arith, Bool, true, false, ◌||◌, Option, none, some, List, [], ◌∷◌,
  Returns, Returns-bind, if◌then◌else◌,
}
use kodiak.Ids.{PlayerId}
use kodiak.Team.{same_id, Team, without_joiner, PlayerStatus, joined, JoinedStatus}
use kodiak.Team.Updates.{or_false}
use kodiak.Team.Model.{
  put_comm, put_ne, TeamId, Limits, PlayerTeamModel, put, put_all, put_self, put-put, same_id_refl,
  same_id_sym,
}
use kodiak.Team.Requests.{withdraw, has_id, remove_joiner_of}
use kodiak.Team.Requests.Calls.{remove_join_call, remove_joiner_call}
use kodiak.Team.Roster.{view, IsValid}
use kodiak.Team.Roster.Ids.{drop_id, drop_ids, drop_id_twice}
use kodiak.Team.Roster.Moves.{unask-IsValid}

module _ {Name D M : Type 0} where
  -- The team without the joiner, where there is a team.
  abbrev pub strip : PlayerId → Option (Team Name D M) → Option (Team Name D M)
  strip p none = none
  strip p (some t) = some (without_joiner t p)

  pub strip_twice : (p : PlayerId) (o : Option (Team Name D M)) → strip p (strip p o) ≡ strip p o
  unfolding without_joiner
  strip_twice p none = refl
  strip_twice p (some t) = ap (λ ids. some (record t { joiners = ids })) (drop_id_twice t.joiners p)

  strip_next :
      (p : PlayerId) (o : Option (Team Name D M)) (b : Bool)
      → (if b then strip p (strip p o) else strip p o) ≡ strip p o
  strip_next p o true = strip_twice p o
  strip_next p o false = refl

  pub strip-put :
      (p : PlayerId) (g : TeamId → Option (Team Name D M)) (k : TeamId) (t : Team Name D M)
      → g k ≡ some t
      → (b : TeamId → Bool) (i : TeamId)
      → (if b i
          then strip p (put g k (some (without_joiner t p)) i)
          else put g k (some (without_joiner t p)) i)
        ≡ (if same_id k i || b i then strip p (g i) else g i)
  strip-put p g k t ek b =
      put_all
        (λ i o.
          (if b i then strip p o else o) ≡ (if same_id k i || b i then strip p (g i) else g i))
        g k (some (without_joiner t p))
        (ap (λ o. if b k then strip p o else o) (ap (strip p) (sym ek))
          ∙ strip_next p (g k) (b k)
          ∙ sym (ap (λ c. if c || b k then strip p (g k) else g k) (same_id_refl k)))
        λ i ne. ap (λ c. if c || b i then strip p (g i) else g i) (sym ne)

  pub IsValid-eq :
      {limits : Limits} {f f' : PlayerId → Option (PlayerStatus TeamId)}
      {g g' : TeamId → Option (Team Name D M)}
      → f' ≡ f
      → g' ≡ g
      → IsValid limits (record { players = f; teams = g })
      → IsValid limits (record { players = f'; teams = g' })
  IsValid-eq {limits} {f} {f'} {g} {g'} e e' v =
      subst (λ f. IsValid limits (record { players = f; teams = g' })) (sym e)
        (subst (λ g. IsValid limits (record { players = f; teams = g })) (sym e') v)

module _ {Name D M : Type 0} (limits : Limits) (m : PlayerTeamModel Name D M) where
  open m use {Store, player, team, update_player, update_team}

  pub known_next :
      (p : PlayerId) (k : TeamId) (ks : List TeamId) (t : Team Name D M) (s s' : Store)
      → ((i : TeamId) → has_id (k ∷ ks) i ≡ true → (t : Team Name D M) × (team s i ≡ some t))
      → team s' ≡ put (team s) k (some (without_joiner t p))
      → (i : TeamId) → has_id ks i ≡ true
      → (t : Team Name D M) × (team s' i ≡ some t)
  known_next p k ks t s s' known et =
      subst (λ g. (i : TeamId) → has_id ks i ≡ true → (t : Team Name D M) × (g i ≡ some t)) (sym et)
        (put_all (λ i o. has_id ks i ≡ true → (t : Team Name D M) × (o ≡ some t)) (team s) k
          (some (without_joiner t p)) (λ _. (without_joiner t p, refl))
          λ i _ h. known i (ground arith))

  -- Where the player `p` has been taken off the joiners of `ks`, in the state where the player has
  -- the status `j` and the team `k`, which is not among them, is `o`.
  pub record Dropped (p : PlayerId) (j : JoinedStatus TeamId) (k : TeamId)
      (o : Option (Team Name D M)) (ks : List TeamId) (s s' : Store) : Type 0 where
    pub players : player s' ≡ player s
    pub teams : (i : TeamId) → team s' i ≡ (if has_id ks i then strip p (team s i) else team s i)
    pub valid : IsValid limits (record {
      players = put (player s) p (some (joined (record j { joins = drop_ids ks j.joins })));
      teams = put (team s') k o;
    })

  pub remove_joiner_of-Dropped :
      (p : PlayerId) (j : JoinedStatus TeamId) (k : TeamId) (o : Option (Team Name D M))
      (ks : List TeamId) (s : Store)
      → has_id ks k ≡ false
      → ((i : TeamId) → has_id ks i ≡ true → (t : Team Name D M) × (team s i ≡ some t))
      → IsValid limits
          (record { players = put (player s) p (some (joined j)); teams = put (team s) k o })
      → Returns (Dropped p j k o ks s) (remove_joiner_of m p ks s)
  unfolding remove_joiner_of
  remove_joiner_of-Dropped p j k o [] s out known valid =
      (s, refl, record { players = refl; teams = λ i. refl; valid = valid })
  remove_joiner_of-Dropped p j k o (i ∷ ks) s out known valid =
      let (t, ei) = known i (ground (arith, same_id_refl i)) in
      let (apart, out') = or_false (same_id i k) (has_id ks k) out in
      let left : JoinedStatus TeamId = record j { joins = drop_id i j.joins } in
      Returns-bind _ (Dropped p j k o (i ∷ ks) s) _ (remove_joiner_of m p ks)
        (remove_joiner_call m s i ei p)
        λ s' (ep, et).
          let (s'', e, d) =
            remove_joiner_of-Dropped p left k o ks s' out'
              (λ i' h. known_next p i ks t s s' known et i' h)
              (IsValid-eq
                (ap (λ f. put f p (some (joined left))) ep ∙ sym (put-put (player s) p _ _))
                (ap (λ g. put g k o) et ∙ put_comm (team s) i _ k o apart)
                (unask-IsValid _ valid p j i t (put_self (player s) p (some (joined j)))
                  (put_ne (team s) k o i (same_id_sym k i ∙ apart) ∙ ei))) in
          (
            s'',
            e,
            record {
              players = d.players ∙ ep;
              teams = λ i'.
                  d.teams i'
                  ∙ ap (λ g. if has_id ks i' then strip p (g i') else g i') et
                  ∙ strip-put p (team s) i t ei (has_id ks) i';
              valid =
                  IsValid-eq
                    (ap
                      (λ f.
                        put f p
                          (some (joined (record j { joins = drop_ids ks (drop_id i j.joins) }))))
                      (sym ep))
                    refl d.valid;
            },
          )

  -- Where a player has taken back the requests to `ks`.
  pub record Withdrawn (p : PlayerId) (ks : List TeamId) (j : JoinedStatus TeamId) (s s' : Store)
      : Type 0 where
    pub status : player s' p ≡ some (joined (record j { joins = drop_ids ks j.joins }))
    pub teams : (i : TeamId) → team s' i ≡ (if has_id ks i then strip p (team s i) else team s i)
    pub valid : IsValid limits (view m s')

  pub withdraw-Withdrawn :
      (p : PlayerId) (ks : List TeamId) (j : JoinedStatus TeamId) (s : Store)
      → ((k : TeamId) → has_id ks k ≡ true → (t : Team Name D M) × (team s k ≡ some t))
      → player s p ≡ some (joined j)
      → IsValid limits (view m s)
      → Returns (Withdrawn p ks j s) (withdraw m p ks s)
  unfolding withdraw
  withdraw-Withdrawn p [] j s known e valid =
      (s, refl, record { status = e; teams = λ i. refl; valid = valid })
  withdraw-Withdrawn p (k ∷ ks) j s known e valid =
      let (t, ek) = known k (ground (arith, same_id_refl k)) in
      let left : JoinedStatus TeamId = record j { joins = drop_id k j.joins } in
      Returns-bind _ (Withdrawn p (k ∷ ks) j s) _ _ (remove_join_call m s p k e) λ s₁ (ep, et).
        Returns-bind _ (Withdrawn p (k ∷ ks) j s) _ (withdraw m p ks)
          (remove_joiner_call m s₁ k (ap (λ g. g k) et ∙ ek) p)
          λ s₂ (ep', et').
            let ep₂ = ep' ∙ ep in
            let et₂ = et' ∙ ap (λ g. put g k (some (without_joiner t p))) et in
            let (s₃, e₃, d) =
              withdraw-Withdrawn p ks left s₂ (λ i h. known_next p k ks t s s₂ known et₂ i h)
                (ap (λ f. f p) ep₂ ∙ put_self (player s) p _)
                (IsValid-eq ep₂ et₂ (unask-IsValid _ valid p j k t e ek)) in
            (
              s₃,
              e₃,
              record {
                status = d.status;
                teams = λ i.
                    d.teams i
                    ∙ ap (λ g. if has_id ks i then strip p (g i) else g i) et₂
                    ∙ strip-put p (team s) k t ek (has_id ks) i;
                valid = d.valid;
              },
            )
