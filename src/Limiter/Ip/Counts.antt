-- ===== src/Limiter/Ip/Counts.antt =====
-- What the limiter counts for each address, and what its operations do to the counts.
use kodiak.Base.{
  ℕ, zero, suc, ◌-◌, ◌≡◌, ◌∙◌, sym, ap, ap₂, refl, arith, Bool, true, false, ◌||◌, Option, none,
  some, if◌then◌else◌, ltb, ==_iff, if_cases, Bool-cases, Option-cases, inl, inr,
}
use kodiak.Limiter.Ip.{
  IpAddr, v4, v6, same_ip, Usage, UsageMap, IpRateLimiter, unused, or_insert, set, lives, retain,
  prune, maybe_prune, drop_connection, drop_active,
}

pub same_ip_refl : (i : IpAddr) → same_ip i i ≡ true
unfolding same_ip
same_ip_refl (v4 a) = ground arith
same_ip_refl (v6 a) = ground arith

pub same_ip_eq : (i j : IpAddr) → same_ip i j ≡ true → i ≡ j
unfolding same_ip
same_ip_eq (v4 a) (v4 b) h = ap v4 ((==_iff a b).0 h)
same_ip_eq (v6 a) (v6 b) h = ap v6 ((==_iff a b).0 h)
same_ip_eq (v4 a) (v6 b) h = cc
same_ip_eq (v6 a) (v4 b) h = cc

-- The counts of an address: connections, and active ones.
abbrev pub counts : Option Usage → ℕ × ℕ
counts none = (0, 0)
counts (some usage) = (usage.connections, usage.active)

no_counts :
    (ahead : Bool) (active connections : ℕ)
    → (ahead || ltb 0 active || ltb 0 connections) ≡ false
    → (connections ≡ 0) × (active ≡ 0)
no_counts true a c h = cc
no_counts false zero zero h = (refl, refl)
no_counts false zero (suc c) h = ground arith
no_counts false (suc a) c h = ground arith

pub counts-keep_one :
    (now : ℕ) (usage : Usage)
    → counts (if lives now usage then some usage else none) ≡ (usage.connections, usage.active)
unfolding lives
counts-keep_one now usage = elim (Bool-cases (lives now usage)) [
  | inl e ↦ rw e
  | inr e ↦
      let (no_connections, not_active) =
        no_counts (ltb now usage.rate_limit.until) usage.active usage.connections e in
      rw e (ap₂ (λ c a. (c, a)) (sym no_connections) (sym not_active))
]

pub counts-retain :
    (now : ℕ) (m : UsageMap) (ip : IpAddr) → counts (retain (lives now) m ip) ≡ counts (m ip)
unfolding retain
counts-retain now m ip = elim (Option-cases (m ip)) [
  | inl e ↦ rw e
  | inr (usage, e) ↦ rw e (counts-keep_one now usage)
]

pub counts-maybe_prune :
    (l : IpRateLimiter) (now : ℕ) (ip : IpAddr)
    → counts ((maybe_prune l now).usage ip) ≡ counts (l.usage ip)
unfolding maybe_prune prune
counts-maybe_prune l now ip =
    if_cases (λ (l' : IpRateLimiter). counts (l'.usage ip) ≡ counts (l.usage ip))
      (ltb now l.next_prune) (λ _. refl) (λ _. counts-retain now l.usage ip)

pub counts-or_insert :
    (m : UsageMap) (ip : IpAddr) (now : ℕ)
    → counts (some (or_insert m ip (unused now))) ≡ counts (m ip)
counts-or_insert m ip now = either (m ip)
  where
    either :
        (o : Option Usage)
        → counts (some (elim o [ none ↦ unused now | some usage ↦ usage ])) ≡ counts o
    either none = refl
    either (some usage) = refl

-- What an address counts after its entry is set.
pub counts-set :
    (m : UsageMap) (ip j : IpAddr) (usage : Usage)
    → counts (set m ip usage j)
      ≡ (if same_ip ip j then (usage.connections, usage.active) else counts (m j))
counts-set m ip j usage = elim (Bool-cases (same_ip ip j)) [ inl e ↦ rw e | inr e ↦ rw e ]

-- Setting an entry that counts the same changes no counts.
pub counts-set_same :
    (m : UsageMap) (ip j : IpAddr) (usage : Usage)
    → (usage.connections, usage.active) ≡ counts (m ip)
    → counts (set m ip usage j) ≡ counts (m j)
counts-set_same m ip j usage h = elim (Bool-cases (same_ip ip j)) [
  | inl e ↦ rw e (h ∙ ap (λ i. counts (m i)) (same_ip_eq ip j e))
  | inr e ↦ rw e
]

-- The map after a change of the entry that is found.
abbrev changed : UsageMap → IpAddr → (Usage → Usage) → Option Usage → UsageMap
changed m ip f none = m
changed m ip f (some usage) = set m ip (f usage)

-- What an address counts after its entry is changed, where there is one.
counts-change :
    (m : UsageMap) (ip j : IpAddr) (f : Usage → Usage) (g : ℕ × ℕ → ℕ × ℕ) (o : Option Usage)
    → ((usage : Usage) → counts (some (f usage)) ≡ g (counts (some usage)))
    → g (0, 0) ≡ (0, 0)
    → m ip ≡ o
    → counts (changed m ip f o j) ≡ (if same_ip ip j then g (counts (m ip)) else counts (m j))
counts-change m ip j f g none h h0 e = elim (Bool-cases (same_ip ip j)) [
  | inl s ↦ rw (s, e) (ap (λ i. counts (m i)) (sym (same_ip_eq ip j s)) ∙ ap counts e ∙ sym h0)
  | inr s ↦ rw s
]
counts-change m ip j f g (some usage) h h0 e =
    counts-set m ip j (f usage)
    ∙ ap (λ c. if same_ip ip j then c else counts (m j)) (h usage ∙ ap (λ o. g (counts o)) (sym e))

usage-drop_connection :
    (l : IpRateLimiter) (ip : IpAddr)
    → (drop_connection l ip).usage
      ≡ changed l.usage ip
          (λ usage. record usage { connections = usage.connections - 1 })
          (l.usage ip)
unfolding drop_connection
usage-drop_connection l ip = elim (Option-cases (l.usage ip)) [
  | inl e ↦ rw (e, drop_connection)
  | inr (usage, e) ↦ rw (e, drop_connection)
]

pub counts-drop_connection :
    (l : IpRateLimiter) (ip j : IpAddr)
    → counts ((drop_connection l ip).usage j) ≡ (
        if same_ip ip j
        then ((counts (l.usage ip)).0 - 1, (counts (l.usage ip)).1)
        else counts (l.usage j))
counts-drop_connection l ip j =
    ap (λ (m : UsageMap). counts (m j)) (usage-drop_connection l ip)
    ∙ counts-change l.usage ip j (λ usage. record usage { connections = usage.connections - 1 })
        (λ c. (c.0 - 1, c.1)) (l.usage ip) (λ usage. refl) refl refl

usage-drop_active :
    (l : IpRateLimiter) (ip : IpAddr)
    → (drop_active l ip).usage
      ≡ changed l.usage ip (λ usage. record usage { active = usage.active - 1 }) (l.usage ip)
unfolding drop_active
usage-drop_active l ip = elim (Option-cases (l.usage ip)) [
  | inl e ↦ rw (e, drop_active)
  | inr (usage, e) ↦ rw (e, drop_active)
]

pub counts-drop_active :
    (l : IpRateLimiter) (ip j : IpAddr)
    → counts ((drop_active l ip).usage j) ≡ (
        if same_ip ip j
        then ((counts (l.usage ip)).0, (counts (l.usage ip)).1 - 1)
        else counts (l.usage j))
counts-drop_active l ip j =
    ap (λ (m : UsageMap). counts (m j)) (usage-drop_active l ip)
    ∙ counts-change l.usage ip j (λ usage. record usage { active = usage.active - 1 })
        (λ c. (c.0, c.1 - 1)) (l.usage ip) (λ usage. refl) refl refl
