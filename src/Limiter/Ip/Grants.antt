-- ===== src/Limiter/Ip/Grants.antt =====
-- What the requests for permits do to the counts.
use kodiak.Base.{
  ℕ, ◌+◌, ◌*◌, ◌%◌, ◌^◌, ◌<◌, ◌≡◌, ◌∙◌, sym, ap, ap₂, refl, arith, Bool, true, false, ◌&&◌, ◌||◌,
  if◌then◌else◌, leb, add_u32, if_cases, Bool-cases, inl, inr,
}
use kodiak.Limiter.Ip.{
  IpAddr, same_ip, Usage, IpRateLimiter, unused, or_insert, set, should_limit_rate, should_warn,
  should_limit_rate_inner, connection_permit, active_permit,
}
use kodiak.Limiter.Ip.Counts.{
  counts, counts-set, counts-set_same, counts-or_insert, counts-maybe_prune,
}

-- Below the hard limit there is room for one more in the count.
one_more :
    (soft_limit connections : ℕ) (random : Bool)
    → (leb (add_u32 soft_limit 3) connections || (leb soft_limit connections && random)) ≡ false
    → add_u32 connections 1 ≡ connections + 1
one_more soft_limit connections random h =
    elim (Bool-cases (leb (add_u32 soft_limit 3) connections)) [
      | inl e ↦
          let no_room : true ≡ false =
            ap (λ b. b || (leb soft_limit connections && random)) (sym e) ∙ h in
          cc
      | inr e ↦ ground arith
    ]

module _ (last_instant : ℕ) where
  pub counts-should_limit_rate :
      (l : IpRateLimiter) (ip j : IpAddr) (usage now : ℕ)
      → counts ((should_limit_rate last_instant l ip usage now).0.usage j) ≡ counts (l.usage j)
  unfolding should_limit_rate
  counts-should_limit_rate l ip j usage now =
      counts-maybe_prune _ now j ∙ counts-set_same l.usage ip j _ (counts-or_insert l.usage ip now)

  pub usage-should_warn :
      (l : IpRateLimiter) (limited : Bool) (now : ℕ)
      → (should_warn last_instant l limited now).0.usage ≡ l.usage
  unfolding should_warn
  usage-should_warn l true now = refl
  usage-should_warn l false now = refl

  pub counts-should_limit_rate_inner :
      (l : IpRateLimiter) (ip j : IpAddr) (usage now : ℕ)
      → counts ((should_limit_rate_inner last_instant l ip usage now).0.usage j)
        ≡ counts (l.usage j)
  unfolding should_limit_rate_inner
  counts-should_limit_rate_inner l ip j usage now =
      ap (λ m. counts (m j))
        (usage-should_warn _ (should_limit_rate last_instant l ip usage now).1 now)
      ∙ counts-should_limit_rate l ip j usage now

  -- The counts after a connection is asked for.
  abbrev pub Asked : IpRateLimiter → IpAddr → IpRateLimiter × Bool → Type 0
  Asked l ip r =
      (j : IpAddr)
      → counts (r.0.usage j) ≡ (
          if r.1 && same_ip ip j
          then ((counts (l.usage ip)).0 + 1, (counts (l.usage ip)).1)
          else counts (l.usage j))

  -- A permit that is given counts one more connection of its address, without overflow. Nothing else
  -- changes what any address counts.
  pub connection_permit-Asked :
      (l : IpRateLimiter) (ip : IpAddr) (now : ℕ) (random : Bool)
      → Asked l ip (connection_permit last_instant l ip now random)
  unfolding connection_permit
  connection_permit-Asked l ip now random =
      let (l', limited) = should_limit_rate_inner last_instant l ip 10000 now in
      let entry : Usage = or_insert l'.usage ip (unused now) in
      let soft_limit : ℕ = add_u32 (entry.active * 3 % 2 ^ 32) 12 in
      let busy : Bool =
        leb (add_u32 soft_limit 3) entry.connections
        || (leb soft_limit entry.connections && random) in
      let before : (j : IpAddr) → counts (l'.usage j) ≡ counts (l.usage j) =
        λ j. counts-should_limit_rate_inner l ip j 10000 now in
      let same : (entry.connections, entry.active) ≡ counts (l'.usage ip) =
        counts-or_insert l'.usage ip now in
      if_cases (Asked l ip) limited (λ _ j. before j)
        (λ _.
          if_cases (Asked l ip) busy
            (λ _ j.
              ap (λ m. counts (m j))
                (usage-should_warn (record l' { usage = set l'.usage ip entry }) true now)
              ∙ counts-set_same l'.usage ip j entry same
              ∙ before j)
            (λ room j.
              counts-set l'.usage ip j (record entry { connections = add_u32 entry.connections 1 })
              ∙ ap₂ (λ a b. if same_ip ip j then a else b)
                  (ap₂ (λ a b. (a, b))
                    (one_more soft_limit entry.connections random room
                      ∙ ap (λ c. c.0 + 1) (same ∙ before ip))
                    (ap (λ c. c.1) (same ∙ before ip)))
                  (before j)))

pub counts-active_permit :
    (l : IpRateLimiter) (ip j : IpAddr) (now : ℕ)
    → (counts (l.usage ip)).1 + 1 < 2 ^ 32
    → counts ((active_permit l ip now).usage j) ≡ (
        if same_ip ip j
        then ((counts (l.usage ip)).0, (counts (l.usage ip)).1 + 1)
        else counts (l.usage j))
unfolding active_permit
counts-active_permit l ip j now h =
    let same = counts-or_insert l.usage ip now in
    let entry : Usage = or_insert l.usage ip (unused now) in
    let exact : add_u32 entry.active 1 ≡ (counts (l.usage ip)).1 + 1 =
      ap (λ c. add_u32 c.1 1) same ∙ omega arith in
    counts-set l.usage ip j (record entry { active = add_u32 entry.active 1 })
    ∙ ap (λ c. if same_ip ip j then c else counts (l.usage j))
        (ap₂ (λ a b. (a, b)) (ap (λ c. c.0) same) exact)
