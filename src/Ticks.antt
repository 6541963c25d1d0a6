-- ===== src/Ticks.antt =====
-- common/src/time/ticks.rs: durations in ticks, as 16-bit numbers, for a game of a given frequency.
pub mod Seconds
mod Tests
use kodiak.Base.{
  ℕ, zero, suc, ◌+◌, ◌-◌, ◌*◌, ◌/◌, ◌%◌, ◌^◌, min, Bool, true, false, Option, none, some, Outcome,
  returns, panics, ◌>>=◌, if◌then◌else◌, ltb, leb, ◌==◌,
}

abbrev pub max_repr : ℕ
max_repr = 2 ^ 16 - 1

pub saturating_add : ℕ → ℕ → ℕ
saturating_add a b = min (a + b) max_repr

pub saturating_sub : ℕ → ℕ → ℕ
saturating_sub a b = a - b

pub wrapping_add : ℕ → ℕ → ℕ
wrapping_add a b = (a + b) % 2 ^ 16

pub checked_add : ℕ → ℕ → Option ℕ
checked_add a b = if leb (a + b) max_repr then some (a + b) else none

pub checked_sub : ℕ → ℕ → Option ℕ
checked_sub a b = if leb b a then some (a - b) else none

pub next : ℕ → ℕ
unfolding wrapping_add
next a = wrapping_add a 1

-- `%` and `/` panic on 0.
pub rem : ℕ → ℕ → Outcome ℕ
rem a zero = panics
rem a (suc b) = returns (a % suc b)

pub div : ℕ → ℕ → Outcome ℕ
div a zero = panics
div a (suc b) = returns (a / suc b)

pub every : ℕ → ℕ → Outcome Bool
unfolding rem
every a period = do r ← rem a period; returns (r == 0)

module _ (frequency_hz : ℕ) where
  -- In a release build, where the assertion is left out.
  pub from_whole_secs : ℕ → ℕ
  from_whole_secs secs = min (secs * frequency_hz) max_repr

  -- The product is in 32 bits.
  pub from_whole_millis : ℕ → ℕ
  from_whole_millis millis =
      let scaled = millis * frequency_hz % 2 ^ 32 / 1000 in
      if ltb max_repr scaled then max_repr else scaled

  pub to_whole_secs : ℕ → Outcome ℕ
  unfolding div
  to_whole_secs ticks = div ticks frequency_hz
