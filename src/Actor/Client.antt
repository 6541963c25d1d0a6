-- ===== src/Actor/Client.antt =====
-- What a client makes of the updates about one actor, in common/src/actor_model/macros.rs
-- (`apply_owned` of an `ActorUpdate`).
use kodiak.Base.{
  ℕ, zero, suc, ◌≤◌, All, subst, ◌<◌, ◌≡◌, refl, sym, ap, ◌∙◌, arith, Bool, true, false, ◌⊎◌, inl,
  inr, Option, none, some, List, [], ◌∷◌, is_some, Outcome, returns, panics, ◌>>=◌, Bool-cases,
  ==_ne, ==_iff, ◌≢◌, ◌+◌,
}
use mathlib.Core.Bool.{true≢false}
use kodiak.Actor.Visible.{see_again, refreshed_once}
use kodiak.Actor.{
  ActorKnowledge, new_counter, new_knowledge, Told, complete, inbox, removal, silence, is_expired,
  refresh, tick, tell, get_update,
}

-- Whether the client has the actor, after what it is told. A removal of an actor that it has not got
-- panics. The inboxes go, one by one, to all actors that are left, so that there is one for this
-- actor exactly if the client has got it. A complete is for an actor that it has not got.
abbrev pub apply_owned : Told → Bool → Outcome Bool
apply_owned removal true = returns false
apply_owned removal false = panics
apply_owned inbox true = returns true
apply_owned inbox false = panics
apply_owned silence true = panics
apply_owned silence false = returns false
apply_owned complete true = panics
apply_owned complete false = returns true

-- The server's knowledge after updates, the latest first, with how often each saw the actor, and
-- whether it existed.
abbrev pub knows : ℕ → List (ℕ × Bool) → Option ActorKnowledge
knows keepalive [] = none
knows keepalive ((times, exists) ∷ updates) =
    (get_update keepalive times exists (knows keepalive updates)).0

-- The client after the same updates.
abbrev pub has : ℕ → List (ℕ × Bool) → Outcome Bool
has keepalive [] = returns false
has keepalive ((times, exists) ∷ updates) =
    has keepalive updates
    >>= apply_owned (get_update keepalive times exists (knows keepalive updates)).1

-- Only an actor that exists is in the visibility.
abbrev pub ExistsIfSeen : ℕ × Bool → Type 0
ExistsIfSeen (times, exists) = 0 < times → exists ≡ true

module _ (keepalive : ℕ) (small : keepalive ≤ 253) where
  abbrev pub IsLive : Option ActorKnowledge → Type 0
  IsLive none = Unit
  IsLive (some k) = (k.counter ≡ new_counter) ⊎ ((0 < k.counter) × (k.counter ≤ keepalive + 1))

  -- The client that is told agrees with the knowledge.
  abbrev Agrees : Bool → Option ActorKnowledge × Told → Type 0
  Agrees before (o, told) = IsLive o × (apply_owned told before ≡ returns (is_some o))

  pub ticked-le : (k : ActorKnowledge) → IsLive (some k) → (tick keepalive k).counter ≤ keepalive
  unfolding tick
  ticked-le k (inl e) = ground arith
  ticked-le k (inr (pos, le)) = ground arith

  tell-Agrees :
      (k : ActorKnowledge) (exists : Bool)
      → k.counter ≤ keepalive + 1
      → Agrees true (tell exists (some k))
  tell-Agrees k false le = elim (Bool-cases (is_expired k)) [
    | inl gone ↦ rw gone (tt, refl)
    | inr here ↦ rw here (tt, refl)
  ]
  tell-Agrees k true le = elim (Bool-cases (is_expired k)) [
    | inl gone ↦ rw gone (tt, refl)
    | inr here ↦
        let left : k.counter ≢ 0 = λ z. true≢false (sym ((==_iff k.counter 0).1 z) ∙ here) in
        rw (here, ==_ne k.counter new_counter (omega arith)) (inr (omega (arith, left), le), refl)
  ]

  get_update-Agrees :
      (o : Option ActorKnowledge) (times : ℕ) (exists : Bool)
      → IsLive o
      → (0 < times → exists ≡ true)
      → Agrees (is_some o) (get_update keepalive times exists o)
  unfolding get_update
  get_update-Agrees none zero exists live there = (tt, refl)
  get_update-Agrees none (suc times) false live there =
      absurd (true≢false (sym (there (omega arith))))
  get_update-Agrees none (suc times) true live there =
      subst (λ o. Agrees false (tell true o))
        (sym (see_again keepalive small new_knowledge (inl refl) times)) (inl refl, refl)
  get_update-Agrees (some k) zero exists live there =
      tell-Agrees (tick keepalive k) exists (omega (arith, ticked-le k live))
  get_update-Agrees (some k) (suc times) exists live there =
      let le = ticked-le k live in
      let e = refreshed_once keepalive small (tick keepalive k) (omega arith) (omega arith) in
      subst (λ o. Agrees true (tell exists o))
        (sym (see_again keepalive small (refresh keepalive (tick keepalive k)) (inr e) times))
        (tell-Agrees (refresh keepalive (tick keepalive k)) exists (omega arith))

  knows-IsLive :
      (updates : List (ℕ × Bool)) → All ExistsIfSeen updates → IsLive (knows keepalive updates)
  knows-IsLive [] seen = tt
  knows-IsLive ((times, exists) ∷ updates) (there, seen) =
      (get_update-Agrees (knows keepalive updates) times exists (knows-IsLive updates seen) there).0

  -- Where only actors that exist are in the visibility, and the keepalive is at most 253, no update
  -- panics the client, whether the actor is seen, once or more often, lost, removed or created again;
  -- and after all updates the client has the actor exactly if the server knows it to.
  pub has-knows :
      (updates : List (ℕ × Bool))
      → All ExistsIfSeen updates
      → has keepalive updates ≡ returns (is_some (knows keepalive updates))
  has-knows [] seen = refl
  has-knows ((times, exists) ∷ updates) (there, seen) =
      ap (λ m. m >>= apply_owned (get_update keepalive times exists (knows keepalive updates)).1)
        (has-knows updates seen)
      ∙ (get_update-Agrees (knows keepalive updates) times exists (knows-IsLive updates seen)
          there).1
