-- ===== src/Team/Roster/Steps.antt =====
-- Changes that keep the players and the teams of a store valid.
use kodiak.Base.{◌≤◌, ◌≡◌, sym, ◌∙◌, true, false, Option, length}
use kodiak.Ids.{PlayerId}
use kodiak.Team.{same_id, Team, PlayerStatus, max_joins}
use kodiak.Team.Model.{TeamId, Limits, put, put_all}
use kodiak.Team.Roster.{in_team, joins, asks, has, asked, named, IsSound, World, IsValid}

module _ {Name D M : Type 0} {limits : Limits} (w : World Name D M) (valid : IsValid limits w) where
  -- One player's status and one team are written, and agree with each other and with the rest.
  pub record Fits (p : PlayerId) (o : Option (PlayerStatus TeamId)) (k : TeamId)
      (x : Option (Team Name D M)) : Type 0 where
    pub here : in_team o k ≡ has x p
    pub elsewhere : (j : TeamId) → same_id k j ≡ false → in_team o j ≡ has (w.teams j) p
    pub others : (q : PlayerId) → same_id p q ≡ false → has x q ≡ has (w.teams k) q
    pub asks_here : asks o k ≡ asked x p
    pub asks_elsewhere : (j : TeamId) → same_id k j ≡ false → asks o j ≡ asked (w.teams j) p
    pub asks_others : (q : PlayerId) → same_id p q ≡ false → asked x q ≡ asked (w.teams k) q
    pub sound : IsSound limits x
    pub calm :
        (j i : TeamId) → in_team o j ≡ true → named (put w.teams k x j) ≡ true → asks o i ≡ false
    pub name_kept : named x ≡ true → named (w.teams k) ≡ true
    pub fit : length (joins o) ≤ max_joins

  pub Fits-IsValid :
      (p : PlayerId) (o : Option (PlayerStatus TeamId)) (k : TeamId) (x : Option (Team Name D M))
      → Fits p o k x
      → IsValid limits (record { players = put w.players p o; teams = put w.teams k x })
  Fits-IsValid p o k x f = record {
    home =
        put_all (λ q o'. (j : TeamId) → in_team o' j ≡ has (put w.teams k x j) q) w.players p o
          (put_all (λ j y. in_team o j ≡ has y p) w.teams k x f.here f.elsewhere)
          λ q ne.
            put_all (λ j y. in_team (w.players q) j ≡ has y q) w.teams k x
              (valid.home q k ∙ sym (f.others q ne)) λ j _. valid.home q j;
    asking =
        put_all (λ q o'. (j : TeamId) → asks o' j ≡ asked (put w.teams k x j) q) w.players p o
          (put_all (λ j y. asks o j ≡ asked y p) w.teams k x f.asks_here f.asks_elsewhere)
          λ q ne.
            put_all (λ j y. asks (w.players q) j ≡ asked y q) w.teams k x
              (valid.asking q k ∙ sym (f.asks_others q ne)) λ j _. valid.asking q j;
    sound = put_all (λ j y. IsSound limits y) w.teams k x f.sound (λ j _. valid.sound j);
    settled =
        put_all
          (λ q o'.
            (j i : TeamId)
            → in_team o' j ≡ true
            → named (put w.teams k x j) ≡ true
            → asks o' i ≡ false)
          w.players p o f.calm
          λ q ne.
            put_all
              (λ j y.
                (i : TeamId)
                → in_team (w.players q) j ≡ true
                → named y ≡ true
                → asks (w.players q) i ≡ false)
              w.teams k x (λ i h n. valid.settled q k i h (f.name_kept n)) λ j _. valid.settled q j;
    joins_fit =
        put_all (λ q o'. length (joins o') ≤ max_joins) w.players p o f.fit
          (λ q _. valid.joins_fit q);
  }

  -- One team is written, and lists whom it listed.
  pub set_team-IsValid :
      (k : TeamId) (x : Option (Team Name D M))
      → ((q : PlayerId) → has x q ≡ has (w.teams k) q)
      → ((q : PlayerId) → asked x q ≡ asked (w.teams k) q)
      → IsSound limits x
      → ((q : PlayerId) (i : TeamId)
          → in_team (w.players q) k ≡ true
          → named x ≡ true
          → asks (w.players q) i ≡ false)
      → IsValid limits (record w { teams = put w.teams k x })
  set_team-IsValid k x same_members same_joiners sound calm = record {
    home = λ q.
        put_all (λ j y. in_team (w.players q) j ≡ has y q) w.teams k x
          (valid.home q k ∙ sym (same_members q)) λ j _. valid.home q j;
    asking = λ q.
        put_all (λ j y. asks (w.players q) j ≡ asked y q) w.teams k x
          (valid.asking q k ∙ sym (same_joiners q)) λ j _. valid.asking q j;
    sound = put_all (λ j y. IsSound limits y) w.teams k x sound (λ j _. valid.sound j);
    settled = λ q.
        put_all
          (λ j y.
            (i : TeamId)
            → in_team (w.players q) j ≡ true
            → named y ≡ true
            → asks (w.players q) i ≡ false)
          w.teams k x (calm q) λ j _. valid.settled q j;
    joins_fit = valid.joins_fit;
  }
