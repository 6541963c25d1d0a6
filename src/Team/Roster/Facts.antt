-- ===== src/Team/Roster/Facts.antt =====
-- What a valid store says of a player, a team, its members and its joiners.
use kodiak.Base.{
  ◌≤◌, ◌<◌, ◌≡◌, refl, sym, ap, ◌∙◌, arith, true, false, ◌||◌, Option, none, some, List, [], ◌∷◌,
  length, ◌==◌, is_some, Bool-cases, inl, inr, fun_ext,
}
use kodiak.Collection.Arena.Key.{NonZeroU16}
use kodiak.Ids.{PlayerId}
use kodiak.Team.{
  Member, same_id, contains, get, Team, leader, PlayerStatus, spawning, joined, JoinedStatus,
}
use kodiak.Team.Updates.{or_skip}
use kodiak.Team.Model.{TeamId, Limits, put, put_all, same_id_refl, same_id-eq}
use kodiak.Team.Requests.{has_id}
use kodiak.Team.Roster.{in_team, asks, has, asked, named, World, IsValid}
use kodiak.Team.Roster.Ids.{empty_ids}

-- A write of what is there.
pub put_same {ℓ} :
    {A : Type ℓ} (f : NonZeroU16 → A) (k : NonZeroU16) (v : A) → f k ≡ v → put f k v ≡ f
put_same f k v e = fun_ext (put_all (λ i x. x ≡ f i) f k v (sym e) λ _ _. refl)

pub joined_of_asks :
    (o : Option (PlayerStatus TeamId)) (k : TeamId)
    → asks o k ≡ true
    → (j : JoinedStatus TeamId) × (o ≡ some (joined j)) × (has_id j.joins k ≡ true)
joined_of_asks none k h = cc
joined_of_asks (some spawning) k h = cc
joined_of_asks (some (joined j)) k h = (j, refl, h)

pub joined_of_in_team :
    (o : Option (PlayerStatus TeamId)) (k : TeamId)
    → in_team o k ≡ true
    → (j : JoinedStatus TeamId) × (o ≡ some (joined j)) × (j.team_id ≡ k)
joined_of_in_team none k h = cc
joined_of_in_team (some spawning) k h = cc
joined_of_in_team (some (joined j)) k h = (j, refl, same_id-eq j.team_id k h)

module _ {Name D M : Type 0} where
  pub some_of_has :
      (o : Option (Team Name D M)) (p : PlayerId)
      → has o p ≡ true
      → (t : Team Name D M) × (o ≡ some t) × (contains t.members p ≡ true)
  unfolding contains
  some_of_has none p h = cc
  some_of_has (some t) p h = (t, refl, h)

  pub some_of_asked :
      (o : Option (Team Name D M)) (p : PlayerId)
      → asked o p ≡ true
      → (t : Team Name D M) × (o ≡ some t)
  some_of_asked none p h = cc
  some_of_asked (some t) p h = (t, refl)

module _ {M : Type 0} where
  pub get-contains :
      (ms : List (Member M)) (p : PlayerId)
      → contains ms p ≡ true
      → (m : Member M) × (get ms p ≡ some m)
  unfolding contains get
  get-contains [] p h = cc
  get-contains (m ∷ ms) p h = elim (Bool-cases (same_id m.player_id p)) [
    | inl e ↦ (m, rw e)
    | inr e ↦
        let (m', e') = get-contains ms p (or_skip (same_id m.player_id p) (contains ms p) e h) in
        (m', rw (e, e'))
  ]

  pub one_member :
      (ms : List (Member M)) (p : PlayerId)
      → contains ms p ≡ true
      → length ms ≤ 1
      → (length ms == 1) ≡ true
  unfolding contains
  one_member [] p h l = cc
  one_member (m ∷ []) p h l = refl
  one_member (m ∷ n ∷ ms) p h l = absurd (omega arith)

  pub first_member :
      (ms : List (Member M)) (p : PlayerId)
      → contains ms p ≡ true
      → (l : Member M) × ((elim ms [ [] ↦ none | m ∷ _ ↦ some m ]) ≡ some l)
  unfolding contains
  first_member [] p h = cc
  first_member (m ∷ ms) p h = (m, refl)

  -- The only member.
  pub only_member :
      (ms : List (Member M)) (p q : PlayerId)
      → contains ms p ≡ true
      → length ms ≤ 1
      → contains ms q ≡ same_id p q
  unfolding contains
  only_member [] p q h l = cc
  only_member (m ∷ []) p q h l =
      let e : m.player_id ≡ p = same_id-eq m.player_id p (ground arith) in
      ap (λ i. same_id i q || false) e ∙ ground arith
  only_member (m ∷ n ∷ ms) p q h l = absurd (omega arith)

  pub some_members : (ms : List (Member M)) (p : PlayerId) → contains ms p ≡ true → 0 < length ms
  unfolding contains
  some_members [] p h = cc
  some_members (m ∷ ms) p h = omega arith

-- A team with a member has a leader.
pub leader_of_member :
    {Name D M : Type 0} (t : Team Name D M) (p : PlayerId)
    → contains t.members p ≡ true
    → (l : Member M) × (leader t ≡ some l)
unfolding leader
leader_of_member t p h = first_member t.members p h

module _ {Name D M : Type 0} {limits : Limits} (w : World Name D M) (valid : IsValid limits w) where
  -- A joined player is a member of the team of the status.
  pub team_of_joined :
      (p : PlayerId) (j : JoinedStatus TeamId)
      → w.players p ≡ some (joined j)
      → (t : Team Name D M) × (w.teams j.team_id ≡ some t) × (contains t.members p ≡ true)
  team_of_joined p j e =
      some_of_has (w.teams j.team_id) p
        (sym (valid.home p j.team_id) ∙ ap (λ o. in_team o j.team_id) e ∙ same_id_refl j.team_id)

  pub joined_of_member :
      (k : TeamId) (t : Team Name D M) (p : PlayerId)
      → w.teams k ≡ some t
      → contains t.members p ≡ true
      → (j : JoinedStatus TeamId) × (w.players p ≡ some (joined j)) × (j.team_id ≡ k)
  joined_of_member k t p e h =
      joined_of_in_team (w.players p) k (valid.home p k ∙ ap (λ o. has o p) e ∙ h)

  pub joined_of_joiner :
      (k : TeamId) (t : Team Name D M) (p : PlayerId)
      → w.teams k ≡ some t
      → has_id t.joiners p ≡ true
      → (j : JoinedStatus TeamId) × (w.players p ≡ some (joined j)) × (has_id j.joins k ≡ true)
  joined_of_joiner k t p e h =
      joined_of_asks (w.players p) k (valid.asking p k ∙ ap (λ o. asked o p) e ∙ h)

  pub team_of_join :
      (p : PlayerId) (j : JoinedStatus TeamId) (k : TeamId)
      → w.players p ≡ some (joined j)
      → has_id j.joins k ≡ true
      → (t : Team Name D M) × (w.teams k ≡ some t)
  team_of_join p j k e h =
      some_of_asked (w.teams k) p (sym (valid.asking p k) ∙ ap (λ o. asks o k) e ∙ h)

  -- Who is on a named team has no requests.
  pub no_joins :
      (p : PlayerId) (j : JoinedStatus TeamId)
      → w.players p ≡ some (joined j)
      → named (w.teams j.team_id) ≡ true
      → j.joins ≡ []
  no_joins p j e n = empty_ids j.joins λ i.
      ap (λ o. asks o i) (sym e)
      ∙ valid.settled p j.team_id i (ap (λ o. in_team o j.team_id) e ∙ same_id_refl j.team_id) n

  -- An anonymous team has no joiners.
  pub no_joiners :
      (k : TeamId) (t : Team Name D M)
      → w.teams k ≡ some t
      → is_some t.name ≡ false
      → t.joiners ≡ []
  no_joiners k t e n =
      empty_ids t.joiners
        λ q. ap (λ o. asked o q) (sym e) ∙ (valid.sound k).closed (ap named e ∙ n) q

  -- No player is a joiner of the team that the player is on.
  pub own_request :
      (p : PlayerId) (j : JoinedStatus TeamId)
      → w.players p ≡ some (joined j)
      → has_id j.joins j.team_id ≡ false
  own_request p j e = elim (Bool-cases (named (w.teams j.team_id))) [
    | inl n ↦ ap (λ ids. has_id ids j.team_id) (no_joins p j e n)
    | inr n ↦
        ap (λ o. asks o j.team_id) (sym e)
        ∙ valid.asking p j.team_id
        ∙ (valid.sound j.team_id).closed n p
  ]

  pub own_joiner :
      (p : PlayerId) (j : JoinedStatus TeamId) (t : Team Name D M)
      → w.players p ≡ some (joined j)
      → w.teams j.team_id ≡ some t
      → has_id t.joiners p ≡ false
  own_joiner p j t e et =
      ap (λ o. asked o p) (sym et)
      ∙ sym (valid.asking p j.team_id)
      ∙ ap (λ o. asks o j.team_id) e
      ∙ own_request p j e
