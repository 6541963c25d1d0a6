-- ===== src/Team/Roster/Moves.antt =====
-- A request that is made or taken back, a player who leaves a team, and one who enters a team.
use kodiak.Base.{
  ◌+◌, ◌≤◌, ◌<◌, ◌≡◌, refl, sym, ap, ◌∙◌, subst, arith, true, false, not, ◌&&◌, ◌||◌, Option, some,
  [], ◌∷◌, ◌++◌, length, length-append, length-keep, is_some,
}
use kodiak.Ids.{PlayerId}
use kodiak.Team.{
  Member, same_id, contains, Team, without_joiner, PlayerStatus, spawning, joined, JoinedStatus,
  max_joins,
}
use kodiak.Team.Updates.{contains-append, Distinct-append}
use kodiak.Team.Model.{TeamId, Limits, put, put_all, same_id_refl, same_id-eq}
use kodiak.Team.Requests.{has_id}
use kodiak.Team.Roster.{in_team, joins, asks, has, asked, named, IsSound, World, IsValid}
use kodiak.Team.Roster.Ids.{drop_id, has_id-drop_id, has_id-append, drop_id-Unique, append-Unique}
use kodiak.Team.Roster.Steps.{Fits-IsValid}

module _ {Name D M : Type 0} {limits : Limits} (w : World Name D M) (valid : IsValid limits w) where
  -- A request that is taken back.
  pub unask-IsValid :
      (p : PlayerId) (j : JoinedStatus TeamId) (k : TeamId) (t : Team Name D M)
      → w.players p ≡ some (joined j)
      → w.teams k ≡ some t
      → IsValid limits (record {
        players = put w.players p (some (joined (record j { joins = drop_id k j.joins })));
        teams = put w.teams k (some (without_joiner t p));
      })
  unfolding without_joiner
  unask-IsValid p j k t ep ek =
      let o : Option (PlayerStatus TeamId) =
        some (joined (record j { joins = drop_id k j.joins })) in
      let x : Option (Team Name D M) = some (without_joiner t p) in
      let sound : IsSound limits (some t) = subst (IsSound limits) ek (valid.sound k) in
      Fits-IsValid w valid p o k x (record {
        here = ap (λ o. in_team o k) (sym ep) ∙ valid.home p k ∙ ap (λ y. has y p) ek;
        elsewhere = λ i _. ap (λ o. in_team o i) (sym ep) ∙ valid.home p i;
        others = λ q _. ap (λ y. has y q) (sym ek);
        asks_here =
            has_id-drop_id j.joins k k
            ∙ ground (arith, same_id_refl k, same_id_refl p, has_id-drop_id t.joiners p p);
        asks_elsewhere = λ i ne.
            has_id-drop_id j.joins k i
            ∙ ground (arith, ne)
            ∙ ap (λ o. asks o i) (sym ep)
            ∙ valid.asking p i;
        asks_others = λ q ne.
            has_id-drop_id t.joiners p q ∙ ground (arith, ne) ∙ ap (λ y. asked y q) (sym ek);
        sound = record {
          distinct = sound.distinct;
          unique = drop_id-Unique t.joiners p sound.unique;
          solo = sound.solo;
          closed = λ n q.
              has_id-drop_id t.joiners p q ∙ ap (λ b. b && not (same_id p q)) (sound.closed n q);
          members_fit = sound.members_fit;
          all_fit = λ n. omega (
            arith,
            sound.all_fit n,
            length-keep (λ (id : PlayerId). not (same_id id p)) t.joiners,
          );
        };
        calm = λ i i' h n.
            has_id-drop_id j.joins k i'
            ∙ ap (λ b. b && not (same_id k i'))
                (ap (λ o. asks o i') (sym ep)
                  ∙ valid.settled p i i' (ap (λ o. in_team o i) ep ∙ h) (
                      put_all (λ i y. named y ≡ true → named (w.teams i) ≡ true) w.teams k x
                        (λ n. ap named ek ∙ n) (λ _ _ n. n) i n));
        name_kept = λ n. ap named ek ∙ n;
        fit =
            let kept : length j.joins ≤ max_joins =
              subst (λ o. length (joins o) ≤ max_joins) ep (valid.joins_fit p) in
            omega (arith, kept, length-keep (λ (id : TeamId). not (same_id id k)) j.joins);
      })

  -- A request that is made, by a player of an anonymous team to a named one that has room.
  pub ask-IsValid :
      (p : PlayerId) (j : JoinedStatus TeamId) (k : TeamId) (t : Team Name D M)
      → w.players p ≡ some (joined j)
      → named (w.teams j.team_id) ≡ false
      → w.teams k ≡ some t
      → is_some t.name ≡ true
      → has_id j.joins k ≡ false
      → length j.joins < max_joins
      → length t.members + length t.joiners < limits.max_members_and_joiners
      → IsValid limits (record {
        players = put w.players p (some (joined (record j { joins = j.joins ++ (k ∷ []) })));
        teams = put w.teams k (some (record t { joiners = t.joiners ++ (p ∷ []) }));
      })
  ask-IsValid p j k t ep home ek n fresh room all_room =
      let o : Option (PlayerStatus TeamId) =
        some (joined (record j { joins = j.joins ++ (k ∷ []) })) in
      let x : Option (Team Name D M) = some (record t { joiners = t.joiners ++ (p ∷ []) }) in
      let sound : IsSound limits (some t) = subst (IsSound limits) ek (valid.sound k) in
      let absent : has_id t.joiners p ≡ false =
        ap (λ y. asked y p) (sym ek) ∙ sym (valid.asking p k) ∙ ap (λ o. asks o k) ep ∙ fresh in
      Fits-IsValid w valid p o k x (record {
        here = ap (λ o. in_team o k) (sym ep) ∙ valid.home p k ∙ ap (λ y. has y p) ek;
        elsewhere = λ i _. ap (λ o. in_team o i) (sym ep) ∙ valid.home p i;
        others = λ q _. ap (λ y. has y q) (sym ek);
        asks_here =
            has_id-append j.joins k k
            ∙ ground (arith, same_id_refl k, same_id_refl p, has_id-append t.joiners p p);
        asks_elsewhere = λ i ne.
            has_id-append j.joins k i
            ∙ ground (arith, ne)
            ∙ ap (λ o. asks o i) (sym ep)
            ∙ valid.asking p i;
        asks_others =
            λ q ne. has_id-append t.joiners p q ∙ ground (arith, ne) ∙ ap (λ y. asked y q) (sym ek);
        sound = record {
          distinct = sound.distinct;
          unique = append-Unique t.joiners p absent sound.unique;
          solo = sound.solo;
          closed = λ a q. absurd (ground (arith, n, a));
          members_fit = sound.members_fit;
          all_fit = λ _. omega (arith, length-append {0} t.joiners (p ∷ []));
        };
        calm = λ i i' h n'.
            let e : j.team_id ≡ i = same_id-eq j.team_id i h in
            let kept : named (put w.teams k x i) ≡ named (w.teams i) =
              put_all (λ i y. named y ≡ named (w.teams i)) w.teams k x (ap named (sym ek))
                (λ _ _. refl) i in
            absurd (ground (arith, sym n' ∙ kept ∙ ap (λ i. named (w.teams i)) (sym e) ∙ home));
        name_kept = λ n. ap named ek ∙ n;
        fit = omega (arith, length-append {0} j.joins (k ∷ []));
      })

  -- A player who requests nothing leaves a team. `x` is what is left of it.
  pub depart-IsValid :
      (p : PlayerId) (j : JoinedStatus TeamId) (x : Option (Team Name D M))
      → w.players p ≡ some (joined j)
      → j.joins ≡ []
      → has x p ≡ false
      → ((q : PlayerId) → same_id p q ≡ false → has x q ≡ has (w.teams j.team_id) q)
      → ((q : PlayerId) → asked x q ≡ asked (w.teams j.team_id) q)
      → IsSound limits x
      → (named x ≡ true → named (w.teams j.team_id) ≡ true)
      → IsValid limits
          (record { players = put w.players p (some spawning); teams = put w.teams j.team_id x })
  depart-IsValid p j x ep nothing gone others same_joiners sound name_kept =
      let silent : (i : TeamId) → asked (w.teams i) p ≡ false =
        λ i. sym (valid.asking p i) ∙ ap (λ o. asks o i) ep ∙ ap (λ ids. has_id ids i) nothing in
      Fits-IsValid w valid p (some spawning) j.team_id x (record {
        here = sym gone;
        elsewhere = λ i ne. sym ne ∙ ap (λ o. in_team o i) (sym ep) ∙ valid.home p i;
        others = others;
        asks_here = sym (same_joiners p ∙ silent j.team_id);
        asks_elsewhere = λ i _. sym (silent i);
        asks_others = λ q _. same_joiners q;
        sound = sound;
        calm = λ _ _ h n. refl;
        name_kept = name_kept;
        fit = omega arith;
      })

  -- A spawning player enters a team that has room.
  pub enter-IsValid :
      (p : PlayerId) (k : TeamId) (t : Team Name D M) (manifestation : M)
      → w.players p ≡ some spawning
      → w.teams k ≡ some t
      → (is_some t.name ≡ false → t.members ≡ [])
      → (is_some t.name ≡ true → length t.members < limits.max_members)
      → (is_some t.name ≡ true
          → length t.members + length t.joiners < limits.max_members_and_joiners)
      → IsValid limits (record {
        players = put w.players p (some (joined (record { team_id = k; joins = [] })));
        teams = put w.teams k (
            some (record (without_joiner t p) {
              members = t.members ++ (record { player_id = p; manifestation = manifestation } ∷ []);
            }));
      })
  unfolding without_joiner
  enter-IsValid p k t manifestation ep ek alone room all_room =
      let o : Option (PlayerStatus TeamId) = some (joined (record { team_id = k; joins = [] })) in
      let m : Member M = record { player_id = p; manifestation = manifestation } in
      let x : Option (Team Name D M) =
        some (record (without_joiner t p) { members = t.members ++ (m ∷ []) }) in
      let sound : IsSound limits (some t) = subst (IsSound limits) ek (valid.sound k) in
      let homeless : (i : TeamId) → has (w.teams i) p ≡ false =
        λ i. sym (valid.home p i) ∙ ap (λ o. in_team o i) ep in
      let silent : (i : TeamId) → asked (w.teams i) p ≡ false =
        λ i. sym (valid.asking p i) ∙ ap (λ o. asks o i) ep in
      let absent : contains t.members p ≡ false = ap (λ y. has y p) (sym ek) ∙ homeless k in
      Fits-IsValid w valid p o k x (record {
        here =
            same_id_refl k
            ∙ sym (
                contains-append t.members m p
                ∙ ap (λ b. b || contains t.members p) (same_id_refl p));
        elsewhere = λ i ne. ne ∙ sym (homeless i);
        others = λ q ne.
            contains-append t.members m q
            ∙ ap (λ b. b || contains t.members q) ne
            ∙ ap (λ y. has y q) (sym ek);
        asks_here = sym (has_id-drop_id t.joiners p p ∙ ground (arith, same_id_refl p));
        asks_elsewhere = λ i _. sym (silent i);
        asks_others = λ q ne.
            has_id-drop_id t.joiners p q ∙ ground (arith, ne) ∙ ap (λ y. asked y q) (sym ek);
        sound = record {
          distinct = Distinct-append t.members m absent sound.distinct;
          unique = drop_id-Unique t.joiners p sound.unique;
          solo = λ n. rw (alone n) (omega arith);
          closed = λ n q.
              has_id-drop_id t.joiners p q ∙ ap (λ b. b && not (same_id p q)) (sound.closed n q);
          members_fit = λ n. omega (arith, room n, length-append {0} t.members (m ∷ []));
          all_fit = λ n. omega (
            arith,
            all_room n,
            length-append {0} t.members (m ∷ []),
            length-keep (λ (id : PlayerId). not (same_id id p)) t.joiners,
          );
        };
        calm = λ _ _ h n. refl;
        name_kept = λ n. ap named ek ∙ n;
        fit = omega arith;
      })
