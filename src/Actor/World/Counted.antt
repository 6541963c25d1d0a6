-- ===== src/Actor/World/Counted.antt =====
-- The lengths that `get_update` counts beforehand.
use kodiak.Base.{
  ℕ, suc, ◌+◌, ◌%◌, ◌^◌, ◌≤◌, ◌<◌, ◌≡◌, ◌≢◌, refl, sym, ap, ap₂, subst, ◌∙◌, arith, Bool, true,
  false, ◌⊎◌, inl, inr, some, List, [], ◌∷◌, ◌==◌, ltb, length, All, Bool-cases, Option-cases,
  if_cases, ==_ne, ==_iff,
}
use mathlib.Core.Option
use mathlib.Core.Bool.{true≢false}
use kodiak.Actor.Visible.{refreshed_once, refreshed_again}
use kodiak.Actor.{ActorKnowledge, new_counter, new_knowledge, is_new, is_expired, refresh}
use kodiak.Actor.World.{
  Entries, find, replace, insert, number, count, is_removed, entry_is_new, Counts, visit, visit_all,
}

module _ (p : ℕ × ActorKnowledge → Bool) where
  count-insert :
      (id : ℕ) (k : ActorKnowledge) (entries : Entries)
      → count p (insert id k entries) ≡ count p entries + number (p (id, k))
  count-insert id k [] = omega arith
  count-insert id k (e ∷ entries) =
      if_cases (λ es. count p es ≡ number (p e) + count p entries + number (p (id, k))) (ltb id e.0)
        (λ _. omega arith) (λ _. omega (arith, count-insert id k entries))

  count-replace :
      (id : ℕ) (k k' : ActorKnowledge) (entries : Entries)
      → find id entries ≡ some k
      → count p (replace id k' entries) + number (p (id, k)) ≡ count p entries + number (p (id, k'))
  count-replace id k k' [] e = absurd (Option.none-ne-some _ e)
  count-replace id k k' ((i, old) ∷ entries) e = elim (Bool-cases (i == id)) [
    | inl s ↦
        let same = (==_iff i id).0 s in
        let found : old ≡ k = Option.some-injective _ _ (rw s at e) in
        let e1 : number (p (i, k')) ≡ number (p (id, k')) = ap (λ j. number (p (j, k'))) same in
        let e2 : number (p (i, old)) ≡ number (p (id, k)) =
          ap₂ (λ j o. number (p (j, o))) same found in
        rw s (omega (arith, e1, e2))
    | inr s ↦ rw s (omega (arith, count-replace id k k' entries (rw s at e)))
  ]

  pub count-le : (entries : Entries) → count p entries ≤ length entries
  count-le [] = omega arith
  count-le (e ∷ entries) = ground (arith, count-le entries)

length-insert :
    (id : ℕ) (k : ActorKnowledge) (es : Entries) → length (insert id k es) ≡ suc (length es)
length-insert id k [] = refl
length-insert id k (e ∷ es) =
    if_cases (λ r. length r ≡ suc (suc (length es))) (ltb id e.0) (λ _. refl)
      (λ _. ap suc (length-insert id k es))

length-replace : (id : ℕ) (k : ActorKnowledge) (es : Entries) → length (replace id k es) ≡ length es
length-replace id k [] = refl
length-replace id k (e ∷ es) =
    if_cases (λ r. length r ≡ suc (length es)) (e.0 == id) (λ _. refl)
      (λ _. ap suc (length-replace id k es))

module _ (P : ℕ × ActorKnowledge → Type 0) where
  All-insert :
      (id : ℕ) (k : ActorKnowledge) (es : Entries) → P (id, k) → All P es → All P (insert id k es)
  All-insert id k [] h hs = (h, tt)
  All-insert id k (e ∷ es) h hs =
      if_cases (All P) (ltb id e.0) (λ _. (h, hs)) (λ _. (hs.0, All-insert id k es h hs.1))

  All-replace :
      (id : ℕ) (k : ActorKnowledge) (es : Entries) → P (id, k) → All P es → All P (replace id k es)
  All-replace id k [] h hs = tt
  All-replace id k ((i, old) ∷ es) h hs =
      if_cases (All P) (i == id) (λ s. (subst (λ j. P (j, k)) (sym ((==_iff i id).0 s)) h, hs.1))
        (λ _. (hs.0, All-replace id k es h hs.1))

  All-find :
      (id : ℕ) (k : ActorKnowledge) (es : Entries) → find id es ≡ some k → All P es → P (id, k)
  All-find id k [] e hs = absurd (Option.none-ne-some _ e)
  All-find id k ((i, old) ∷ es) e hs = elim (Bool-cases (i == id)) [
    | inl s ↦
        subst (λ x. P x) (λ t. ((==_iff i id).0 s t, Option.some-injective old k (rw s at e) t))
          hs.0
    | inr s ↦ All-find id k es (rw s at e) hs.1
  ]

module _ (exists : ℕ → Bool) (keepalive : ℕ) (small : keepalive ≤ 253) where
  -- A new entry is of an actor that exists.
  abbrev pub IsFine : ℕ × ActorKnowledge → Type 0
  IsFine (id, k) = ((k.counter ≡ new_counter) × (exists id ≡ true)) ⊎ (k.counter ≤ keepalive + 1)

  pub record AreCounted (c : Counts) (room : ℕ) : Type 0 where
    pub removals : c.removals_len ≡ count (is_removed exists) c.entries
    pub completes : c.completes_len ≡ count entry_is_new c.entries
    pub fine : All IsFine c.entries
    pub fits : length c.entries + room < 2 ^ 64

  refreshed_fine :
      (id : ℕ) (k : ActorKnowledge)
      → IsFine (id, k)
      → ((refresh keepalive k).counter ≢ 0)
        × (is_new (refresh keepalive k) ≡ is_new k)
        × IsFine (id, refresh keepalive k)
  refreshed_fine id k (inl (new, there)) =
      subst (λ k'. (k'.counter ≢ 0) × (is_new k' ≡ is_new k) × IsFine (id, k'))
        (sym (refreshed_again keepalive small k (inl new))) (omega arith, refl, inl (new, there))
  refreshed_fine id k (inr le) = elim (Bool-cases (k.counter == (keepalive + 1) % 2 ^ 8)) [
    | inl s ↦
        let same = (==_iff k.counter ((keepalive + 1) % 2 ^ 8)).0 s in
        subst (λ k'. (k'.counter ≢ 0) × (is_new k' ≡ is_new k) × IsFine (id, k'))
          (sym (refreshed_again keepalive small k (inr same))) (omega arith, refl, inr le)
    | inr s ↦
        let other : k.counter ≢ (keepalive + 1) % 2 ^ 8 =
          λ h. true≢false (sym ((==_iff k.counter ((keepalive + 1) % 2 ^ 8)).1 h) ∙ s) in
        let e = refreshed_once keepalive small k other (omega arith) in
        (
          omega arith,
          ==_ne (refresh keepalive k).counter new_counter (omega arith)
              ∙ sym (==_ne k.counter new_counter (omega arith)),
          inr (omega arith),
        )
  ]

  removed_number :
      (id : ℕ) (k : ActorKnowledge) (b : Bool)
      → exists id ≡ true
      → is_expired k ≡ b
      → number (is_removed exists (id, k)) ≡ number b
  removed_number id k true there e = rw e refl
  removed_number id k false there e = rw (e, there) refl

  visit-AreCounted :
      (id : ℕ) (c : Counts) (room : ℕ)
      → exists id ≡ true
      → AreCounted c (suc room)
      → AreCounted (visit exists keepalive id c) room
  unfolding visit
  visit-AreCounted id c room there v = elim (Option-cases (find id c.entries)) [
    | inl e ↦
        let kept = removed_number id new_knowledge false there refl in
        rw (visit, e)
          (record {
            removals = omega (
              arith,
              v.removals,
              count-insert (is_removed exists) id new_knowledge c.entries,
              kept,
            );
            completes =
                omega (arith, v.completes, count-insert entry_is_new id new_knowledge c.entries);
            fine = All-insert IsFine id new_knowledge c.entries (inl (refl, there)) v.fine;
            fits = omega (arith, v.fits, length-insert id new_knowledge c.entries);
          })
    | inr (k, e) ↦
        let k' = refresh keepalive k in
        let (left, as_new, fine) = refreshed_fine id k (All-find IsFine id k c.entries e v.fine) in
        let here : is_expired k' ≡ false = ==_ne k'.counter 0 left in
        let kept = removed_number id k' false there here in
        let moved = count-replace (is_removed exists) id k k' c.entries e in
        let news : number (is_new k') ≡ number (is_new k) = ap number as_new in
        rw (visit, e)
          (record {
            removals = elim (Bool-cases (is_expired k)) [
              | inl gone ↦
                  rw (gone, here)
                    (omega (
                      arith,
                      v.removals,
                      v.fits,
                      moved,
                      kept,
                      removed_number id k true there gone,
                      count-le (is_removed exists) c.entries,
                    ))
              | inr held ↦
                  rw held
                    (omega (arith, v.removals, moved, kept, removed_number id k false there held))
            ];
            completes =
                omega (arith, v.completes, count-replace entry_is_new id k k' c.entries e, news);
            fine = All-replace IsFine id k' c.entries fine v.fine;
            fits = omega (arith, v.fits, length-replace id k' c.entries);
          })
  ]

  pub visit_all-AreCounted :
      (visible : List ℕ) (c : Counts)
      → All (λ id. exists id ≡ true) visible
      → AreCounted c (length visible)
      → AreCounted (visit_all exists keepalive visible c) 0
  unfolding visit_all
  visit_all-AreCounted [] c there v = v
  visit_all-AreCounted (id ∷ visible) c there v =
      visit_all-AreCounted visible (visit exists keepalive id c) there.1
        (visit-AreCounted id c (length visible) there.0 v)
