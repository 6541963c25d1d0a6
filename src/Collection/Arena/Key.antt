-- ===== src/Collection/Arena/Key.antt =====
-- The trait `ArenaKey`, and its two implementations in arena_map.rs.
use mathlib.Core.HLevel.{Σ_prop_path}
use mathlib.Core.Logic.{dite, dif_pos}
use native.Mathlib.Decide.{dec_lt}
use native.Mathlib.Bridge.{le_prop}
use kodiak.Base.{
  ℕ, zero, suc, ◌+◌, ◌-◌, ◌%◌, ◌^◌, ◌<◌, ◌≡◌, refl, ap, ◌∙◌, arith, Outcome, returns, panics,
}

-- A key corresponds to an index below `limit`.
pub record ArenaKey (K : Type 0) : Type 0 where
  pub from_index : ℕ → Outcome K
  pub to_index : K → ℕ
  pub limit : ℕ
  pub limit_fits : limit < 2 ^ 64
  pub to_index-lt : (k : K) → to_index k < limit
  pub from_index-to_index : (k : K) → from_index (to_index k) ≡ returns k
  pub from_index_lem : (i : ℕ) → i < limit → (k : K) × (from_index i ≡ returns k) × (to_index k ≡ i)

-- `NonZeroU16`
abbrev pub NonZeroU16 : Type 0
NonZeroU16 = (get : ℕ) × ((0 < get) × (get < 2 ^ 16))

-- `PlayerId` and `TeamId` are both a `NonZeroU16`: the conversions are `((i + 1) as u16).try_into()`
-- with an `unwrap`, and `get() - 1`.
try_into : ℕ → Outcome NonZeroU16
try_into zero = panics
try_into (suc n) =
    dite (dec_lt (suc n) (2 ^ 16)) (λ h. returns (suc n, (omega arith, h))) (λ _. panics)

unfoldable pub nonzero_from_index : ℕ → Outcome NonZeroU16
unfolding try_into dec_lt
nonzero_from_index i = try_into ((i + 1) % 2 ^ 16)

unfoldable pub nonzero_to_index : NonZeroU16 → ℕ
nonzero_to_index k = k.0 - 1

pub NonZeroU16_eq : (j k : NonZeroU16) → j.0 ≡ k.0 → j ≡ k
NonZeroU16_eq j k e = Σ_prop_path (λ n. hlevel le_prop) e

try_into_lem : (k : NonZeroU16) → try_into k.0 ≡ returns k
unfolding try_into
try_into_lem (zero, (p, q)) = elim p [ ]
try_into_lem (suc n, (p, q)) =
    dif_pos (dec_lt (suc n) (2 ^ 16)) le_prop q _ _ ∙ ap returns (NonZeroU16_eq _ _ refl)

pub nonzero_from_index_lem :
    (i : ℕ)
    → i < 2 ^ 16 - 1
    → (k : NonZeroU16) × (nonzero_from_index i ≡ returns k) × (nonzero_to_index k ≡ i)
unfolding nonzero_from_index nonzero_to_index
nonzero_from_index_lem i h =
    let e : (i + 1) % 2 ^ 16 ≡ i + 1 = omega arith in
    let k : NonZeroU16 = (i + 1, (omega arith, omega arith)) in
    (k, ap try_into e ∙ try_into_lem k, omega arith)

pub nonzero_roundtrip : (k : NonZeroU16) → nonzero_from_index (nonzero_to_index k) ≡ returns k
unfolding nonzero_from_index nonzero_to_index
nonzero_roundtrip k =
    let e : (k.0 - 1 + 1) % 2 ^ 16 ≡ k.0 = omega (arith, k.1.0, k.1.1) in
    ap try_into e ∙ try_into_lem k

pub nonzero_fits : 2 ^ 16 - 1 < 2 ^ 64
nonzero_fits = omega arith

pub nonzero_to_index-lt : (k : NonZeroU16) → nonzero_to_index k < 2 ^ 16 - 1
unfolding nonzero_to_index
nonzero_to_index-lt k = omega (arith, k.1.0, k.1.1)

instance abbrev pub nonzero_key : ArenaKey NonZeroU16
nonzero_key = record {
  from_index = nonzero_from_index;
  to_index = nonzero_to_index;
  limit = 2 ^ 16 - 1;
  limit_fits = nonzero_fits;
  to_index-lt = nonzero_to_index-lt;
  from_index-to_index = nonzero_roundtrip;
  from_index_lem = nonzero_from_index_lem;
}
