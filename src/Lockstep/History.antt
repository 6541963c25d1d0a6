-- ===== src/Lockstep/History.antt =====
-- lag_compensation.rs: what a game remembers of its last ticks, in a ring indexed by the tick.
mod Tests
use native.Mathlib.Nat.{mod-add-mod, mod-eq_of_lt, mod-eq-sub-mod, mod-lt}
use native.Mathlib.Decide.{dec_lt}
use kodiak.Base.{
  ℕ, suc, ◌+◌, ◌-◌, ◌%◌, ◌^◌, ◌≤◌, ◌<◌, ◌≡◌, ◌≢◌, ◌∙◌, sym, refl, ap, arith, false, Option, none,
  some, List, [], ◌∷◌, length, set, get_elem?, replicate, if◌then◌else◌, ltb, sub_u32, length-set,
  get_elem?-set_self, get_elem?-set_ne, Bool-cases, inl, inr,
}
use kodiak.Collection.Arena.Slots.{join}
use kodiak.Lockstep.World.{LockstepWorld, max_latency}

pub record LagCompensation {ℓ} (T : Type ℓ) : Type ℓ where
  pub lag_compensation : List (Option T)

pub index : LockstepWorld → ℕ → ℕ
index W tick_id = tick_id % W.lag_compensation

module _ {ℓ} {T : Type ℓ} (W : LockstepWorld) where
  pub default : LagCompensation T
  default = record { lag_compensation = replicate W.lag_compensation none }

  pub write : LagCompensation T → ℕ → T → LagCompensation T
  unfolding index
  write h tick_id value = record {
    lag_compensation = set h.lag_compensation (index W tick_id) (some value);
  }

  pub read : LagCompensation T → ℕ → ℕ → Option T
  unfolding index
  read h tick_id latency =
      if ltb (max_latency W) latency
      then none
      else join (get_elem? h.lag_compensation (index W (sub_u32 tick_id latency)))

-- Fewer than `m` steps round a ring of `m` places do not come back to the start.
add-mod-ne : (x d m : ℕ) → 0 < d → d < m → (x + d) % m ≢ x % m
add-mod-ne x d m p h e = elim (dec_lt (x % m + d) m) [
  | yes lt ↦ omega (arith, e, mod-add-mod x m d, mod-eq_of_lt lt)
  | no ge ↦ omega (
    arith,
    e,
    mod-add-mod x m d,
    mod-lt x {m = m} (omega arith),
    mod-eq-sub-mod {n = x % m + d} {m = m} (omega arith),
    mod-eq_of_lt {n = x % m + d - m} {m = m} (omega (arith, mod-lt x {m = m} (omega arith))),
  )
]

module _ {ℓ} {T : Type ℓ} (W : LockstepWorld) (h : LagCompensation T)
    (size : length h.lag_compensation ≡ W.lag_compensation) where
  -- In a ring of the right size that is not empty, the slot that a tick writes reads back as the
  -- value written, at latency 0.
  pub read-write_now :
      (tick_id : ℕ) (v : T)
      → 0 < W.lag_compensation
      → tick_id < 2 ^ 32
      → read W (write W h tick_id v) tick_id 0 ≡ some v
  unfolding read write index
  read-write_now t v p f =
      let e : sub_u32 t 0 ≡ t = omega arith in
      rw
        (
          e,
          get_elem?-set_self h.lag_compensation (t % W.lag_compensation) (some v)
              (omega (arith, size, mod-lt t {m = W.lag_compensation} p)),
        )
        (ground arith)

  -- In a ring of the right size, writing the next tick leaves what the ticks before it wrote: each
  -- value that was within reach and stays within reach is now one tick further back. The tick ids
  -- do not wrap, and the latency does not reach before tick 0.
  pub read-write_next :
      (tick_id latency : ℕ) (v : T)
      → tick_id + 1 < 2 ^ 32
      → latency ≤ tick_id
      → latency + 1 ≤ max_latency W
      → read W (write W h (tick_id + 1) v) (tick_id + 1) (latency + 1) ≡ read W h tick_id latency
  unfolding read write index
  read-write_next t l v f old near =
      let e : sub_u32 (t + 1) (l + 1) ≡ t - l = omega arith in
      let e' : sub_u32 t l ≡ t - l = omega arith in
      let apart : (t + 1) % W.lag_compensation ≢ (t - l) % W.lag_compensation = λ q.
        add-mod-ne (t - l) (l + 1) W.lag_compensation (omega arith) (omega arith)
          (ap (λ n. n % W.lag_compensation) (omega arith) ∙ q) in
      let in_reach : ltb (max_latency W) (l + 1) ≡ false = ground arith in
      let in_reach' : ltb (max_latency W) l ≡ false = ground arith in
      rw (in_reach, in_reach', e, e', get_elem?-set_ne h.lag_compensation (some v) apart)
