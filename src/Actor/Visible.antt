-- ===== src/Actor/Visible.antt =====
-- How long an actor is known to a client that has seen it, in common/src/actor_model.
use kodiak.Base.{
  ℕ, zero, suc, ◌+◌, ◌-◌, ◌%◌, ◌^◌, ◌≢◌, ◌==◌, ◌≤◌, ◌<◌, ◌≡◌, refl, sym, ◌∙◌, ap, arith, true, ◌⊎◌,
  inl, inr, Option, none, some, List, [], ◌∷◌, any, take, is_some, ltb, leb, subst, ==_ne, ==_iff,
  Bool-cases,
}
use mathlib.Core.Bool.{true≢false}
use kodiak.Actor.{
  ActorKnowledge, new_counter, new_knowledge, is_expired, refresh, tick, see_times, tick_known,
  tell, get_update,
}

-- The knowledge after updates, the latest first: how often the actor, which exists, was in the
-- visibility of each.
abbrev pub known : ℕ → List ℕ → Option ActorKnowledge
known keepalive [] = none
known keepalive (times ∷ updates) = (get_update keepalive times true (known keepalive updates)).0

-- The number of updates since the actor was seen, and past the limit where it never was.
abbrev age : ℕ → List ℕ → ℕ
age keepalive [] = suc keepalive
age keepalive (zero ∷ updates) = suc (age keepalive updates)
age keepalive (suc times ∷ updates) = 0

module _ (keepalive : ℕ) (small : keepalive ≤ 253) where
  -- The counter of an actor that was seen that many updates ago.
  abbrev Tracks : Option ActorKnowledge → ℕ → Type 0
  Tracks none a = keepalive < a
  Tracks (some k) a =
      (a ≤ keepalive) × (((k.counter ≡ new_counter) × (a ≡ 0)) ⊎ (k.counter ≡ keepalive + 1 - a))

  ticked :
      (k : ActorKnowledge) (a : ℕ) → Tracks (some k) a → (tick keepalive k).counter ≡ keepalive - a
  unfolding tick
  ticked k a (le, inl (e, z)) = ground arith
  ticked k a (le, inr e) = ground arith

  pub refreshed_once :
      (k : ActorKnowledge)
      → k.counter ≢ (keepalive + 1) % 2 ^ 8
      → k.counter ≢ new_counter
      → (refresh keepalive k).counter ≡ (keepalive + 1) % 2 ^ 8
  unfolding refresh
  refreshed_once k other old =
      rw (==_ne k.counter ((keepalive + 1) % 2 ^ 8) other, ==_ne k.counter new_counter old) refl

  pub refreshed_again :
      (k : ActorKnowledge)
      → (k.counter ≡ new_counter) ⊎ (k.counter ≡ (keepalive + 1) % 2 ^ 8)
      → refresh keepalive k ≡ k
  unfolding refresh
  refreshed_again k again = elim (Bool-cases (k.counter == (keepalive + 1) % 2 ^ 8)) [
    | inl e ↦ rw e refl
    | inr e ↦ elim again [
      | inl new ↦ rw (e, (==_iff k.counter new_counter).1 new) refl
      | inr same ↦
          absurd (true≢false (sym ((==_iff k.counter ((keepalive + 1) % 2 ^ 8)).1 same) ∙ e))
    ]
  ]

  -- Once refreshed, or new, an actor that occurs again is left as it is.
  pub see_again :
      (k : ActorKnowledge)
      → (k.counter ≡ new_counter) ⊎ (k.counter ≡ (keepalive + 1) % 2 ^ 8)
      → (times : ℕ) → see_times keepalive times (some k) ≡ some k
  see_again k again zero = refl
  see_again k again (suc times) =
      ap (λ k. see_times keepalive times (some k)) (refreshed_again k again)
      ∙ see_again k again times

  tell-some : (k : ActorKnowledge) → k.counter ≢ 0 → (tell true (some k)).0 ≡ some k
  tell-some k here = rw (==_ne k.counter 0 here) refl

  seen_again :
      (k : ActorKnowledge) (times : ℕ)
      → k.counter ≤ keepalive
      → (tell true (see_times keepalive (suc times) (some k))).0 ≡ some (refresh keepalive k)
  seen_again k times le =
      let e = refreshed_once k (omega arith) (omega arith) in
      ap (λ o. (tell true o).0) (see_again (refresh keepalive k) (inr e) times)
      ∙ tell-some (refresh keepalive k) (omega arith)

  unseen :
      (k : ActorKnowledge) (a : ℕ)
      → a ≤ keepalive
      → k.counter ≡ keepalive - a
      → Tracks (tell true (some k)).0 (suc a)
  unseen k a le e = elim (Bool-cases (is_expired k)) [
    | inl gone ↦ rw gone (omega (arith, (==_iff k.counter 0).0 gone))
    | inr here ↦
        let left : k.counter ≢ 0 = λ z. true≢false (sym ((==_iff k.counter 0).1 z) ∙ here) in
        rw here (omega (arith, left), inr (omega arith))
  ]

  abbrev age_after : ℕ → ℕ → ℕ
  age_after zero a = suc a
  age_after (suc times) a = 0

  step-Tracks :
      (o : Option ActorKnowledge) (a : ℕ)
      → Tracks o a
      → (times : ℕ)
      → Tracks
          (tell true (see_times keepalive times (tick_known keepalive o))).0
          (age_after times a)
  step-Tracks none a older zero = omega arith
  step-Tracks none a older (suc times) =
      subst (λ o. Tracks o 0)
        (sym (
          ap (λ o. (tell true o).0) (see_again new_knowledge (inl refl) times)
          ∙ tell-some new_knowledge (omega arith)))
        (omega arith, inl (refl, refl))
  step-Tracks (some k) a t zero = unseen (tick keepalive k) a t.0 (ticked k a t)
  step-Tracks (some k) a t (suc times) =
      let e = ticked k a t in
      subst (λ o. Tracks o 0) (sym (seen_again (tick keepalive k) times (omega arith)))
        (
          omega arith,
          inr (refreshed_once (tick keepalive k) (omega arith) (omega arith) ∙ omega arith),
        )

  known-Tracks : (updates : List ℕ) → Tracks (known keepalive updates) (age keepalive updates)
  unfolding get_update
  known-Tracks [] = omega arith
  known-Tracks (zero ∷ updates) =
      step-Tracks (known keepalive updates) (age keepalive updates) (known-Tracks updates) zero
  known-Tracks (suc times ∷ updates) =
      step-Tracks (known keepalive updates) (age keepalive updates) (known-Tracks updates)
        (suc times)

  age_lem :
      (updates : List ℕ) (n : ℕ)
      → n ≤ keepalive
      → leb (age keepalive updates) n ≡ any (ltb 0) (take (suc n) updates)
  age_lem [] n h = ground arith
  age_lem (zero ∷ updates) zero h = ground arith
  age_lem (zero ∷ updates) (suc n) h = ground (arith, age_lem updates n (omega arith))
  age_lem (suc times ∷ updates) n h = ground arith

  Tracks-is_some : (o : Option ActorKnowledge) (a : ℕ) → Tracks o a → is_some o ≡ leb a keepalive
  Tracks-is_some none a older = ground arith
  Tracks-is_some (some k) a t = ground (arith, t.0)

  -- Where the actor exists and the keepalive is at most 253, a client knows the actor after an update
  -- exactly if the actor was in the visibility, once or more often, of that update or of one of the
  -- last ones before it, as many as the keepalive says.
  pub known_lem :
      (updates : List ℕ)
      → is_some (known keepalive updates) ≡ any (ltb 0) (take (keepalive + 1) updates)
  known_lem updates =
      Tracks-is_some (known keepalive updates) (age keepalive updates) (known-Tracks updates)
      ∙ age_lem updates keepalive (omega arith)
      ∙ (let e : suc keepalive ≡ keepalive + 1 = omega arith in
          ap (λ n. any (ltb 0) (take n updates)) e)
