-- ===== src/Limiter/Ip.antt =====
-- server/src/net/ip_rate_limiter.rs: a limiter for each address, which counts the connections of the
-- address, too. The limiter behind the lock is passed along; the clock and the random bit are
-- arguments.
pub mod Counts
pub mod Grants
pub mod Permits
mod Tests
use kodiak.Base.{
  ℕ, ◌+◌, ◌*◌, ◌-◌, ◌%◌, ◌^◌, ◌≡◌, refl, arith, Bool, true, false, not, ◌&&◌, ◌||◌, Option, none,
  some, if◌then◌else◌, ltb, leb, ◌==◌, add_u32,
}
use kodiak.Limiter
use kodiak.Limiter.{RateLimiterState, RateLimiterProps}

-- `std::net::IpAddr`
pub data IpAddr : Type 0 where
  v4 : ℕ → IpAddr
  v6 : ℕ → IpAddr

unfoldable pub same_ip : IpAddr → IpAddr → Bool
same_ip (v4 a) (v4 b) = a == b
same_ip (v6 a) (v6 b) = a == b
same_ip _ _ = false

pub record Usage : Type 0 where
  pub rate_limit : RateLimiterState
  pub connections : ℕ
  pub active : ℕ

-- `HashMap<IpAddr, Usage>`, as what it holds for each address.
abbrev pub UsageMap : Type 0
UsageMap = IpAddr → Option Usage

pub record IpRateLimiter : Type 0 where
  pub usage : UsageMap
  pub props : RateLimiterProps
  pub next_prune : ℕ
  pub warning_limiter : RateLimiterState

abbrev pub warning_limit : RateLimiterProps
warning_limit = record { rate_limit = 100 * 10 ^ 6; burst = 3 }

-- A state without usage at a time. `Usage::default()` takes the time from the clock.
abbrev pub unused : ℕ → Usage
unused now = record {
  rate_limit = record { until = now; burst_used = 0 };
  connections = 0;
  active = 0;
}

-- `entry(ip).or_insert(default)`, as a value.
abbrev pub or_insert : UsageMap → IpAddr → Usage → Usage
or_insert m ip default = elim (m ip) [ none ↦ default | some usage ↦ usage ]

abbrev pub set : UsageMap → IpAddr → Usage → UsageMap
set m ip usage = λ j. if same_ip ip j then some usage else m j

-- `IpRateLimiter::from`
pub from : RateLimiterProps → ℕ → IpRateLimiter
from props now = record {
  usage = λ ip. none;
  props = props;
  next_prune = now;
  warning_limiter = record { until = now; burst_used = 0 };
}

-- Whether an entry outlives pruning.
pub lives : ℕ → Usage → Bool
lives now usage = ltb now usage.rate_limit.until || ltb 0 usage.active || ltb 0 usage.connections

pub retain : (Usage → Bool) → UsageMap → UsageMap
retain p m ip = keep_one (m ip)
  where
    keep_one : Option Usage → Option Usage
    keep_one none = none
    keep_one (some usage) = if p usage then some usage else none

pub prune : IpRateLimiter → ℕ → IpRateLimiter
unfolding retain lives
prune l now = record l { usage = retain (lives now) l.usage }

pub maybe_prune : IpRateLimiter → ℕ → IpRateLimiter
unfolding prune
maybe_prune l now =
    if ltb now l.next_prune then l else prune (record l { next_prune = now + 5 * 10 ^ 9 }) now

module _ (last_instant : ℕ) where
  -- `should_limit_rate_with_usage_and_now`
  pub should_limit_rate : IpRateLimiter → IpAddr → ℕ → ℕ → IpRateLimiter × Bool
  unfolding maybe_prune
  should_limit_rate l ip usage now =
      let entry = or_insert l.usage ip (unused now) in
      let (rate_limit, limited) =
        Limiter.should_limit_rate last_instant entry.rate_limit l.props now usage in
      (
        maybe_prune (record l { usage = set l.usage ip (record entry { rate_limit = rate_limit }) })
            now,
        limited,
      )

  -- The warning limiter's part of `should_limit_rate_inner`, and of the count limit: it is asked only
  -- if there is something to warn of. The result says whether a warning is logged.
  pub should_warn : IpRateLimiter → Bool → ℕ → IpRateLimiter × Bool
  should_warn l limited now =
      let (warning_limiter, silenced) =
        Limiter.should_limit_rate last_instant l.warning_limiter warning_limit now 1 in
      if limited then (record l { warning_limiter = warning_limiter }, not silenced) else (l, false)

  pub should_limit_rate_inner : IpRateLimiter → IpAddr → ℕ → ℕ → IpRateLimiter × Bool
  unfolding should_limit_rate should_warn
  should_limit_rate_inner l ip usage now =
      let (l', limited) = should_limit_rate l ip usage now in
      ((should_warn l' limited now).0, limited)

  -- `ConnectionPermit::new`: whether a permit is given. Near the limit a random bit decides.
  pub connection_permit : IpRateLimiter → IpAddr → ℕ → Bool → IpRateLimiter × Bool
  unfolding should_limit_rate_inner
  connection_permit l ip now random =
      let (l', limited) = should_limit_rate_inner l ip 10000 now in
      let entry = or_insert l'.usage ip (unused now) in
      let soft_limit = add_u32 (entry.active * 3 % 2 ^ 32) 12 in
      let hard_limit = add_u32 soft_limit 3 in
      let l'' = record l' { usage = set l'.usage ip entry } in
      if limited
      then (l', false)
      else if leb hard_limit entry.connections || (leb soft_limit entry.connections && random)
      then ((should_warn l'' true now).0, false)
      else (
        record l' {
          usage = set l'.usage ip (record entry { connections = add_u32 entry.connections 1 });
        },
        true,
      )

-- `ActivePermit::new`
pub active_permit : IpRateLimiter → IpAddr → ℕ → IpRateLimiter
active_permit l ip now =
    let entry = or_insert l.usage ip (unused now) in
    record l { usage = set l.usage ip (record entry { active = add_u32 entry.active 1 }) }

-- The release build's `drop`s: the counts stop at 0, and an address without an entry is passed over.
pub drop_connection : IpRateLimiter → IpAddr → IpRateLimiter
drop_connection l ip = elim (l.usage ip) [
  | none ↦ l
  | some usage ↦ record l {
    usage = set l.usage ip (record usage { connections = usage.connections - 1 });
  }
]

pub drop_active : IpRateLimiter → IpAddr → IpRateLimiter
drop_active l ip = elim (l.usage ip) [
  | none ↦ l
  | some usage ↦ record l { usage = set l.usage ip (record usage { active = usage.active - 1 }) }
]
