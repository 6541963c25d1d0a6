-- ===== src/Team/InMemory.antt =====
-- A store that keeps its players and teams in memory.

use kodiak.Base.{
  ℕ, zero, suc, ◌≤◌, ◌<◌, ◌^◌, ◌-◌, ◌≡◌, refl, sym, ap, ◌∙◌, arith, Option, some, none, Outcome,
  returns, ◌>>=◌, unwrap, Returns, Option-cases, inl, inr, ◌==◌, Bool-cases,
}
use kodiak.Collection.Arena.Key.{NonZeroU16_eq}
use kodiak.Team.{new_team, update, player_update, same_id}
use kodiak.Team.Model.{TeamId, PlayerTeamModel, put}
use kodiak.Team.Roster.{World}

positive : (n : ℕ) → 0 < suc n
positive n = omega arith

lower : (n : ℕ) → suc n < 2 ^ 16 → n < 2 ^ 16
lower n h = omega arith

abbrev id_of : (n : ℕ) → suc n < 2 ^ 16 → TeamId
id_of n h = (suc n, (positive n, h))

module _ {A : Type 0} (f : TeamId → Option A) where
  -- The largest id that is free, of those up to `n`.
  free_id : (n : ℕ) → n < 2 ^ 16 → Option TeamId
  free_id zero h = none
  free_id (suc n) h = elim (f (id_of n h)) [
    | none ↦ some (id_of n h)
    | some _ ↦ free_id n (lower n h)
  ]

  free_id-Returns :
      (n : ℕ) (h : n < 2 ^ 16) (k : TeamId)
      → f k ≡ none
      → k.0 ≤ n
      → (i : TeamId) × (free_id n h ≡ some i) × (f i ≡ none)
  unfolding free_id
  free_id-Returns zero h k e l = absurd (omega (arith, k.1.0))
  free_id-Returns (suc n) h k e l =
      let i = id_of n h in
      elim (Option-cases (f i)) [
        | inl free ↦ (i, rw (free, free_id), free)
        | inr (a, taken) ↦
            let below : k.0 ≤ n = elim (Bool-cases (k.0 == suc n)) [
              | inl same ↦ absurd (cc (sym taken ∙ ap f (NonZeroU16_eq i k (ground arith)) ∙ e))
              | inr other ↦ ground (arith, l)
            ] in
            let (i', e', free') = free_id-Returns n (lower n h) k e below in
            (i', rw (taken, free_id) e', free')
      ]

top : 2 ^ 16 - 1 < 2 ^ 16
top = omega arith

module _ {Name D M : Type 0} (d : D) where
  pub open_team : World Name D M → Outcome (TeamId × World Name D M)
  unfolding free_id
  open_team w = do
    k ← unwrap (free_id w.teams (2 ^ 16 - 1) top)
    returns (k, record w { teams = put w.teams k (some (new_team d)) })

  pub open_team_lem :
      (w : World Name D M) (free : TeamId)
      → w.teams free ≡ none
      → Returns
          (λ r.
            (w.teams r.0 ≡ none)
            × (r.1.players ≡ w.players)
            × ((d : D) × (r.1.teams ≡ put w.teams r.0 (some (new_team d)))))
          (open_team w)
  unfolding open_team
  open_team_lem w free e =
      let (k, e', unused) =
        free_id-Returns w.teams (2 ^ 16 - 1) top free e (ground (arith, free.1.1)) in
      (
        (k, record w { teams = put w.teams k (some (new_team d)) }),
        rw e',
        (unused, refl, (d, refl)),
      )

  -- The store applies each update to what it keeps, and swaps nothing.
  abbrev pub in_memory : PlayerTeamModel Name D M
  in_memory = record {
    Store = World Name D M;
    player = λ w. w.players;
    team = λ w. w.teams;
    update_player = λ w p u. do
      status ← unwrap (w.players p)
      status' ← player_update same_id status u
      returns (record w { players = put w.players p (some status') });
    update_team = λ w k u. do
      t ← unwrap (w.teams k)
      t' ← update t u
      returns (record w { teams = put w.teams k (some t') });
    create_team = open_team;
    delete_team = λ w k. returns (record w { teams = put w.teams k none });
    swap_manifestation = λ w id manifestation k d. returns (manifestation, w);
    delete_manifestation = λ w id manifestation. returns w;
    update_player_lem = λ w p u {status} {status'} e e'.
        (record w { players = put w.players p (some status') }, rw (e, e'), (refl, refl));
    update_team_lem = λ w k u {t} {t'} e e'.
        (record w { teams = put w.teams k (some t') }, rw (e, e'), (refl, refl));
    create_team_lem = open_team_lem;
    delete_team_lem = λ w k. (record w { teams = put w.teams k none }, refl, (refl, refl));
    swap_manifestation_lem = λ w id manifestation k d. ((manifestation, w), refl, (refl, refl));
    delete_manifestation_lem = λ w id manifestation. (w, refl, (refl, refl));
  }
