-- ===== src/Team/Model.antt =====
-- common/src/team/_trait.rs: what a server provides of its players and teams.
use kodiak.Base.{
  ℕ, ◌≡◌, Bool, true, false, Option, none, some, Outcome, Returns, if◌then◌else◌, if_cases, returns,
  subst, arith, fun_ext, Bool-cases, inl, inr,
}
use kodiak.Collection.Arena.Key.{NonZeroU16, NonZeroU16_eq}
use kodiak.Ids.{PlayerId}
use kodiak.Team.{
  Team, TeamUpdate, PlayerStatus, JoinUpdate, same_id, new_team, update, player_update,
}

abbrev pub TeamId : Type 0
TeamId = NonZeroU16

pub record MemberId : Type 0 where
  pub team_id : TeamId
  pub player_id : PlayerId

-- The constants of the trait `Manifestation`, which a game sets.
pub record Limits : Type 0 where
  pub max_members : ℕ
  pub max_members_and_joiners : ℕ
  pub leader_can_leave : Bool
  pub members_can_leave : Bool
  pub can_leave_solo_team : Bool
  pub can_reuse_solo_team : Bool

-- A write to a map.
abbrev pub put {ℓ} : {A : Type ℓ} → (NonZeroU16 → A) → NonZeroU16 → A → NonZeroU16 → A
put f k v j = if same_id k j then v else f j

-- The trait `PlayerTeamModel`: the operations that a server gives, and what they are documented to
-- do to the players and the teams. A store that lacks the player or the team that is named may
-- panic.
pub record PlayerTeamModel (Name D M : Type 0) : Type 1 where
  pub Store : Type 0
  -- `has_player` and `get_player_status`, `has_team` and `get_team`
  pub player : Store → PlayerId → Option (PlayerStatus TeamId)
  pub team : Store → TeamId → Option (Team Name D M)
  pub update_player : Store → PlayerId → JoinUpdate TeamId → Outcome Store
  pub update_team : Store → TeamId → TeamUpdate Name M → Outcome Store
  pub create_team : Store → Outcome (TeamId × Store)
  pub delete_team : Store → TeamId → Outcome Store
  pub swap_manifestation : Store → MemberId → M → TeamId → D → Outcome (M × Store)
  pub delete_manifestation : Store → MemberId → M → Outcome Store
  pub update_player_lem :
      (s : Store) (p : PlayerId) (u : JoinUpdate TeamId) {status status' : PlayerStatus TeamId}
      → player s p ≡ some status
      → player_update same_id status u ≡ returns status'
      → Returns
          (λ s'. (player s' ≡ put (player s) p (some status')) × (team s' ≡ team s))
          (update_player s p u)
  pub update_team_lem :
      (s : Store) (k : TeamId) (u : TeamUpdate Name M) {t t' : Team Name D M}
      → team s k ≡ some t
      → update t u ≡ returns t'
      → Returns
          (λ s'. (player s' ≡ player s) × (team s' ≡ put (team s) k (some t')))
          (update_team s k u)
  -- a new, empty, anonymous team, where there is an id left for it
  pub create_team_lem :
      (s : Store) (free : TeamId)
      → team s free ≡ none
      → Returns
          (λ r.
            (team s r.0 ≡ none)
            × (player r.1 ≡ player s)
            × ((d : D) × (team r.1 ≡ put (team s) r.0 (some (new_team d)))))
          (create_team s)
  pub delete_team_lem :
      (s : Store) (k : TeamId)
      → Returns (λ s'. (player s' ≡ player s) × (team s' ≡ put (team s) k none)) (delete_team s k)
  pub swap_manifestation_lem :
      (s : Store) (id : MemberId) (manifestation : M) (k : TeamId) (d : D)
      → Returns
          (λ r. (player r.1 ≡ player s) × (team r.1 ≡ team s))
          (swap_manifestation s id manifestation k d)
  pub delete_manifestation_lem :
      (s : Store) (id : MemberId) (manifestation : M)
      → Returns
          (λ s'. (player s' ≡ player s) × (team s' ≡ team s))
          (delete_manifestation s id manifestation)

-- There is an id left for a new team.
abbrev pub HasFreeId : {Name D M : Type 0} (m : PlayerTeamModel Name D M) → m.Store → Type 0
HasFreeId m s = (k : TeamId) × (m.team s k ≡ none)

pub same_id_refl : (k : NonZeroU16) → same_id k k ≡ true
same_id_refl k = ground arith

pub same_id-eq : (j k : NonZeroU16) → same_id j k ≡ true → j ≡ k
same_id-eq j k e = NonZeroU16_eq j k (ground arith)

pub same_id_sym : (j k : NonZeroU16) → same_id j k ≡ same_id k j
same_id_sym j k = ground arith

module _ {ℓ} {A : Type ℓ} where
  -- What holds at the key that is written and at every other.
  pub put_all {κ} :
      (P : NonZeroU16 → A → Type κ) (f : NonZeroU16 → A) (k : NonZeroU16) (v : A)
      → P k v
      → ((j : NonZeroU16) → same_id k j ≡ false → P j (f j))
      → (j : NonZeroU16) → P j (put f k v j)
  put_all P f k v here there j =
      if_cases (P j) (same_id k j) (λ e. subst (λ i. P i v) (same_id-eq k j e) here) (there j)

  pub put_self : (f : NonZeroU16 → A) (k : NonZeroU16) (v : A) → put f k v k ≡ v
  put_self f k v = rw (same_id_refl k)

  pub put_ne :
      (f : NonZeroU16 → A) (k : NonZeroU16) (v : A) (j : NonZeroU16)
      → same_id k j ≡ false
      → put f k v j ≡ f j
  put_ne f k v j e = rw e

  pub put-put : (f : NonZeroU16 → A) (k : NonZeroU16) (v w : A) → put (put f k v) k w ≡ put f k w
  put-put f k v w = fun_ext λ j. elim (Bool-cases (same_id k j)) [ inl e ↦ rw e | inr e ↦ rw e ]

  pub put_comm :
      (f : NonZeroU16 → A) (k : NonZeroU16) (v : A) (i : NonZeroU16) (w : A)
      → same_id k i ≡ false
      → put (put f k v) i w ≡ put (put f i w) k v
  put_comm f k v i w ne = fun_ext (
      put_all (λ j x. x ≡ put (put f i w) k v j) (put f k v) i w (rw (ne, same_id_refl i))
        λ j e. rw e)
