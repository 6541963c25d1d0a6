-- ===== src/Ticks/Seconds.antt =====
-- Seconds, milliseconds and ticks.
use native.Mathlib.Nat.{mul-div_cancel, mul_assoc}
use kodiak.Base.{ℕ, zero, suc, ◌*◌, ◌/◌, ◌%◌, ◌^◌, ◌≤◌, ◌<◌, ◌≡◌, ap, arith, min, some, returns}
use kodiak.Ticks.{
  max_repr, checked_add, checked_sub, from_whole_secs, from_whole_millis, to_whole_secs, div,
}

-- Whole seconds that do not overflow are read back.
pub to_whole_secs-from_whole_secs :
    (frequency_hz secs : ℕ)
    → 0 < frequency_hz
    → secs * frequency_hz ≤ max_repr
    → to_whole_secs frequency_hz (from_whole_secs frequency_hz secs) ≡ returns secs
unfolding to_whole_secs from_whole_secs div
to_whole_secs-from_whole_secs zero secs h w = absurd (omega arith)
to_whole_secs-from_whole_secs (suc f) secs h w =
    let e : min (secs * suc f) max_repr ≡ secs * suc f = omega arith in
    rw e (ap returns (mul-div_cancel secs h))

-- A second is a thousand milliseconds, where neither conversion overflows.
pub from_whole_millis-from_whole_secs :
    (frequency_hz secs : ℕ)
    → secs * frequency_hz ≤ max_repr
    → from_whole_millis frequency_hz (1000 * secs) ≡ from_whole_secs frequency_hz secs
unfolding from_whole_millis from_whole_secs
from_whole_millis-from_whole_secs f secs w =
    let e : 1000 * secs * f % 2 ^ 32 / 1000 ≡ secs * f = rw (mul_assoc 1000 secs f) (omega arith) in
    rw e (ground arith)

-- A sum that does not overflow leads back by the difference.
pub checked_sub-checked_add : (a b c : ℕ) → checked_add a b ≡ some c → checked_sub c b ≡ some a
unfolding checked_add checked_sub
checked_sub-checked_add a b c h = ground arith
