-- ===== src/Lockstep/World.antt =====
-- The trait `LockstepWorld`, which each game implements, with the types of the library that its
-- methods take: player.rs, context.rs and phase.rs.
use kodiak.Base.{ℕ, ◌-◌, ◌%◌, Bool, true, false, Option, none, some, List}
use kodiak.Collection.Arena.{ArenaMap}
pub use kodiak.Ids.{PlayerId}

-- The floating-point operations that the lockstep code calls.
pub record Floats : Type 1 where
  pub F32 : Type 0
  -- `ratio a b` is the literal a / b.
  pub ratio : ℕ → ℕ → F32
  pub of_ℕ : ℕ → F32
  pub to_usize : F32 → ℕ
  pub add : F32 → F32 → F32
  pub sub : F32 → F32 → F32
  pub mul : F32 → F32 → F32
  pub div : F32 → F32 → F32
  pub neg : F32 → F32
  pub min : F32 → F32 → F32
  pub clamp : F32 → F32 → F32 → F32
  pub tan : F32 → F32

pub record LockstepPlayer (Input Player : Type 0) : Type 0 where
  pub input : Input
  pub inner : Player

pub record LockstepContext (Input Player : Type 0) : Type 0 where
  pub tick_id : ℕ
  pub players : ArenaMap PlayerId (LockstepPlayer Input Player)

-- `LockstepPhaseInner`
pub data LockstepPhase (F32 : Type 0) : Type 0 where
  ground_truth : LockstepPhase F32
  predicting : Option PlayerId → Bool → LockstepPhase F32
  lerping_current_prediction_to_next_prediction : Option PlayerId → F32 → LockstepPhase F32
  lerping_old_current_prediction_to_new_current_prediction : LockstepPhase F32

module _ {F32 : Type 0} where
  pub is_predicting : LockstepPhase F32 → Bool
  is_predicting (predicting p a) = true
  is_predicting _ = false

  -- `LockstepPhase::predicting`
  unfoldable pub perspective : LockstepPhase F32 → Option PlayerId
  perspective ground_truth = none
  perspective (predicting p a) = p
  perspective (lerping_current_prediction_to_next_prediction p t) = p
  perspective lerping_old_current_prediction_to_new_current_prediction = none

  unfoldable pub interpolation_prediction : LockstepPhase F32 → Bool
  interpolation_prediction ground_truth = false
  interpolation_prediction (predicting p a) = a
  interpolation_prediction (lerping_current_prediction_to_next_prediction p t) = true
  interpolation_prediction lerping_old_current_prediction_to_new_current_prediction = false

  pub smoothed_normalized_ticks_since_real : LockstepPhase F32 → Option F32
  smoothed_normalized_ticks_since_real (lerping_current_prediction_to_next_prediction p t) = some t
  smoothed_normalized_ticks_since_real _ = none

-- A game: its types, its constants and its methods. `tick` returns the infos that it reports.
-- `hash` is the hash of context and world, in that order, by the game's `Hash` and the library's
-- `CompatHasher`.
pub record LockstepWorld : Type 1 where
  pub floats : Floats
  pub open floats use {F32}
  pub World : Type 0
  pub Player : Type 0
  pub Input : Type 0
  pub Info : Type 0
  pub Tick : Type 0
  pub default_input : Input
  pub default_tick : Tick
  pub tps : ℕ
  pub tick_period_secs : F32
  pub inputs_per_efficient_packet : ℕ
  pub lag_compensation : ℕ
  pub max_prediction : ℕ
  pub buffered_ticks : ℕ
  pub interpolate_prediction : Bool
  pub target_buffer : Bool → F32
  pub tick :
      World
      → Tick
      → LockstepContext Input Player
      → LockstepPhase F32
      → World × LockstepContext Input Player × List Info
  pub on_complete : Option Info
  pub lerp : World → World → F32 → LockstepPhase F32 → World
  pub lerp_player : PlayerId → Player → Player → F32 → LockstepPhase F32 → Player
  pub is_valid : Input → Bool
  pub is_predicted : Info → PlayerId → Bool
  pub hash : LockstepContext Input Player → World → ℕ

-- `Self::LAG_COMPENSATION as u8 - 1`, which the compiler refuses where it would be negative.
abbrev pub max_latency : LockstepWorld → ℕ
max_latency W = W.lag_compensation % 256 - 1
