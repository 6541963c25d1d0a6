-- ===== src/Limiter/Ip/Permits.antt =====
-- The permits that are out, and that the limiter counts them.
use kodiak.Base.{
  ℕ, ◌+◌, ◌-◌, ◌^◌, ◌<◌, ◌≡◌, ◌∙◌, sym, ap, subst, refl, arith, Bool, true, false, Option, none,
  some, if◌then◌else◌, if_cases,
}
use kodiak.Limiter.{RateLimiterProps}
use kodiak.Limiter.Ip.{
  IpAddr, same_ip, Usage, IpRateLimiter, from, should_limit_rate_inner, connection_permit,
  active_permit, drop_connection, drop_active,
}
use kodiak.Limiter.Ip.Grants.{
  counts-should_limit_rate_inner, connection_permit-Asked, counts-active_permit,
}
use kodiak.Limiter.Ip.Counts.{counts, same_ip_eq, counts-drop_connection, counts-drop_active}

-- The limiter with the permits that are out: how many connections, and how many active ones, each
-- address holds.
pub record Held : Type 0 where
  pub limiter : IpRateLimiter
  pub connections : IpAddr → ℕ
  pub active : IpAddr → ℕ

abbrev pub add_one : (IpAddr → ℕ) → IpAddr → IpAddr → ℕ
add_one n ip = λ j. if same_ip ip j then n j + 1 else n j

abbrev pub take_one : (IpAddr → ℕ) → IpAddr → IpAddr → ℕ
take_one n ip = λ j. if same_ip ip j then n j - 1 else n j

-- The limiter counts what is out.
abbrev pub Counted : Held → Type 0
Counted s = (ip : IpAddr) → counts (s.limiter.usage ip) ≡ (s.connections ip, s.active ip)

-- What happens to the limiter: bandwidth is used, permits are asked for, and dropped by those who
-- hold them. No address has as many active permits as a count can hold.
pub data Step (last_instant : ℕ) : Held → Held → Type 0 where
  used :
      (s : Held) (ip : IpAddr) (usage now : ℕ)
      → Step last_instant s
          (record s { limiter = (should_limit_rate_inner last_instant s.limiter ip usage now).0 })
  connected :
      (s : Held) (ip : IpAddr) (now : ℕ) (random : Bool)
      → (connection_permit last_instant s.limiter ip now random).1 ≡ true
      → Step last_instant s (record s {
        limiter = (connection_permit last_instant s.limiter ip now random).0;
        connections = add_one s.connections ip;
      })
  refused :
      (s : Held) (ip : IpAddr) (now : ℕ) (random : Bool)
      → (connection_permit last_instant s.limiter ip now random).1 ≡ false
      → Step last_instant s
          (record s { limiter = (connection_permit last_instant s.limiter ip now random).0 })
  activated :
      (s : Held) (ip : IpAddr) (now : ℕ)
      → s.active ip + 1 < 2 ^ 32
      → Step last_instant s
          (record s { limiter = active_permit s.limiter ip now; active = add_one s.active ip })
  connection_dropped :
      (s : Held) (ip : IpAddr)
      → 0 < s.connections ip
      → Step last_instant s (record s {
        limiter = drop_connection s.limiter ip;
        connections = take_one s.connections ip;
      })
  active_dropped :
      (s : Held) (ip : IpAddr)
      → 0 < s.active ip
      → Step last_instant s
          (record s { limiter = drop_active s.limiter ip; active = take_one s.active ip })

pub data Reachable (last_instant : ℕ) (props : RateLimiterProps) : Held → Type 0 where
  started :
      (now : ℕ)
      → Reachable last_instant props
          (record { limiter = from props now; connections = λ ip. 0; active = λ ip. 0 })
  stepped :
      (s s' : Held)
      → Reachable last_instant props s
      → Step last_instant s s'
      → Reachable last_instant props s'

-- A permit that is dropped is counted.
counted-positive :
    (o : Option Usage)
    → 0 < (counts o).0
    → (usage : Usage) × (o ≡ some usage) × (0 < usage.connections)
counted-positive none h = ground arith
counted-positive (some usage) h = (usage, refl, h)

counted_active-positive :
    (o : Option Usage) → 0 < (counts o).1 → (usage : Usage) × (o ≡ some usage) × (0 < usage.active)
counted_active-positive none h = ground arith
counted_active-positive (some usage) h = (usage, refl, h)

-- What is out after one address's count changed as its entry did.
at_one :
    (s : Held) (ip j : IpAddr) (f : ℕ × ℕ → ℕ × ℕ) (target : ℕ × ℕ)
    → Counted s
    → (same_ip ip j ≡ true → f (s.connections j, s.active j) ≡ target)
    → (same_ip ip j ≡ false → (s.connections j, s.active j) ≡ target)
    → (if same_ip ip j then f (counts (s.limiter.usage ip)) else counts (s.limiter.usage j))
      ≡ target
at_one s ip j f target c here there =
    if_cases (λ (p : ℕ × ℕ). p ≡ target) (same_ip ip j)
      (λ e. ap f (c ip) ∙ ap (λ i. f (s.connections i, s.active i)) (same_ip_eq ip j e) ∙ here e)
      (λ e. c j ∙ there e)

module _ (last_instant : ℕ) where
  Step-Counted : (s s' : Held) → Step last_instant s s' → Counted s → Counted s'
  Step-Counted s _ (used _ ip usage now) c j =
      counts-should_limit_rate_inner last_instant s.limiter ip j usage now ∙ c j
  Step-Counted s _ (connected _ ip now random given) c j =
      connection_permit-Asked last_instant s.limiter ip now random j
      ∙ rw given (at_one s ip j (λ p. (p.0 + 1, p.1)) _ c (λ e. rw e) (λ e. rw e))
  Step-Counted s _ (refused _ ip now random given) c j =
      connection_permit-Asked last_instant s.limiter ip now random j ∙ rw given (c j)
  Step-Counted s _ (activated _ ip now room) c j =
      counts-active_permit s.limiter ip j now
        (subst (λ (p : ℕ × ℕ). p.1 + 1 < 2 ^ 32) (sym (c ip)) room)
      ∙ at_one s ip j (λ p. (p.0, p.1 + 1)) _ c (λ e. rw e) (λ e. rw e)
  Step-Counted s _ (connection_dropped _ ip out) c j =
      counts-drop_connection s.limiter ip j
      ∙ at_one s ip j (λ p. (p.0 - 1, p.1)) _ c (λ e. rw e) (λ e. rw e)
  Step-Counted s _ (active_dropped _ ip out) c j =
      counts-drop_active s.limiter ip j
      ∙ at_one s ip j (λ p. (p.0, p.1 - 1)) _ c (λ e. rw e) (λ e. rw e)

  -- Whatever happens to a new limiter, pruning included, it counts for each address exactly the
  -- permits that the address holds, as long as no address is given 2 ^ 32 active permits.
  pub Reachable-Counted :
      (props : RateLimiterProps) (s : Held) → Reachable last_instant props s → Counted s
  unfolding from
  Reachable-Counted props _ (started now) = λ ip. refl
  Reachable-Counted props s (stepped s0 _ reached step) =
      Step-Counted s0 s step (Reachable-Counted props s0 reached)

  -- When a connection permit that is out is dropped, in a state that a new limiter reaches, its
  -- address has an entry, with a count above 0: the assertions of `drop` hold.
  pub drop_connection-counted :
      (props : RateLimiterProps) (s : Held) (ip : IpAddr)
      → Reachable last_instant props s
      → 0 < s.connections ip
      → (usage : Usage) × (s.limiter.usage ip ≡ some usage) × (0 < usage.connections)
  drop_connection-counted props s ip reached out =
      counted-positive (s.limiter.usage ip)
        (subst (λ (p : ℕ × ℕ). 0 < p.0) (sym (Reachable-Counted props s reached ip)) out)

  pub drop_active-counted :
      (props : RateLimiterProps) (s : Held) (ip : IpAddr)
      → Reachable last_instant props s
      → 0 < s.active ip
      → (usage : Usage) × (s.limiter.usage ip ≡ some usage) × (0 < usage.active)
  drop_active-counted props s ip reached out =
      counted_active-positive (s.limiter.usage ip)
        (subst (λ (p : ℕ × ℕ). 0 < p.1) (sym (Reachable-Counted props s reached ip)) out)
