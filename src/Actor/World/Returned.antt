-- ===== src/Actor/World/Returned.antt =====
-- `get_update` returns, and what it returns.
use kodiak.Base.{
  ℕ, zero, suc, ◌+◌, ◌^◌, ◌≤◌, ◌<◌, ◌≡◌, ◌≢◌, refl, sym, ap, ap₂, ◌∙◌, arith, Bool, true, false,
  not, inl, inr, List, [], ◌∷◌, if◌then◌else◌, ◌==◌, length, map, returns, sub_usize, All,
  Bool-cases, some, ==_ne, ==_iff,
}
use mathlib.Core.Bool.{true≢false}
use kodiak.Actor.{ActorKnowledge, new_counter, is_expired, tick}
use kodiak.Actor.Client.{IsLive, ticked-le}
use kodiak.Actor.World.{
  Entries, count, is_removed, entry_is_new, spend, remove_within, fill, tick_entry, counted,
  get_update_all,
}
use kodiak.Actor.World.Counted.{IsFine, AreCounted, visit_all-AreCounted}

-- The ids of the entries that pass a test.
abbrev pub ids : (ℕ × ActorKnowledge → Bool) → Entries → List ℕ
ids p [] = []
ids p (e ∷ entries) = let rest = ids p entries in if p e then e.0 ∷ rest else rest

abbrev pub is_old : ℕ × ActorKnowledge → Bool
is_old e = not (entry_is_new e)

length-ids : (p : ℕ × ActorKnowledge → Bool) (es : Entries) → length (ids p es) ≡ count p es
length-ids p [] = refl
length-ids p (e ∷ es) = ground (arith, length-ids p es)

-- The entries that are not removed.
abbrev pub kept : (ℕ → Bool) → Entries → Entries
kept exists [] = []
kept exists (e ∷ es) = let rest = kept exists es in if is_removed exists e then rest else e ∷ rest

module _ (exists : ℕ → Bool) (keepalive : ℕ) (small : keepalive ≤ 253) where
  remove_within-Returns :
      (es : Entries) (capacity : ℕ)
      → count (is_removed exists) es ≤ capacity
      → remove_within exists keepalive capacity es
        ≡ returns (ids (is_removed exists) es, kept exists es)
  unfolding remove_within
  remove_within-Returns [] capacity le = refl
  remove_within-Returns (e ∷ es) zero le = elim (Bool-cases (is_removed exists e)) [
    | inl r ↦ absurd (omega (arith, rw r at le))
    | inr r ↦
        let le' : count (is_removed exists) es ≤ 0 = omega (arith, rw r at le) in
        rw (r, remove_within-Returns es zero le') refl
  ]
  remove_within-Returns (e ∷ es) (suc capacity) le = elim (Bool-cases (is_removed exists e)) [
    | inl r ↦
        let le' : count (is_removed exists) es ≤ capacity = omega (arith, rw r at le) in
        rw (r, remove_within-Returns es capacity le') refl
    | inr r ↦
        let le' : count (is_removed exists) es ≤ suc capacity = omega (arith, rw r at le) in
        rw (r, remove_within-Returns es (suc capacity) le') refl
  ]

  none_removed :
      (es : Entries)
      → count (is_removed exists) es ≡ 0
      → (ids (is_removed exists) es ≡ []) × (kept exists es ≡ es)
  none_removed [] z = (refl, refl)
  none_removed (e ∷ es) z = elim (Bool-cases (is_removed exists e)) [
    | inl r ↦ absurd (omega (arith, rw r at z))
    | inr r ↦
        let z' : count (is_removed exists) es ≡ 0 = omega (arith, rw r at z) in
        let (no_ids, all_kept) = none_removed es z' in
        (rw r no_ids, rw r (ap (λ rest. e ∷ rest) all_kept))
  ]

  removal_step :
      (n : ℕ) (es : Entries)
      → n ≡ count (is_removed exists) es
      → (if n == 0 then returns ([], es) else remove_within exists keepalive n es)
        ≡ returns (ids (is_removed exists) es, kept exists es)
  removal_step n es e = elim (Bool-cases (n == 0)) [
    | inl z ↦
        let (no_ids, all_kept) = none_removed es (sym e ∙ (==_iff n 0).0 z) in
        rw z (ap₂ (λ a b. returns (a, b)) (sym no_ids) (sym all_kept))
    | inr z ↦ rw z (remove_within-Returns es n (omega (arith, e)))
  ]

  spend-returns : (n : ℕ) → 0 < n → (m : ℕ) × (spend n ≡ returns m) × (suc m ≡ n)
  spend-returns zero h = absurd (omega arith)
  spend-returns (suc m) h = (m, refl, refl)

  fill-Returns :
      (es : Entries) (completes inboxes : ℕ)
      → All (λ e. exists e.0 ≡ true) es
      → count entry_is_new es ≤ completes
      → count is_old es ≤ inboxes
      → fill exists keepalive es completes inboxes ≡ returns (ids entry_is_new es, ids is_old es)
  unfolding fill
  fill-Returns [] completes inboxes there n o = refl
  fill-Returns (e ∷ es) completes inboxes there n o = elim (Bool-cases (entry_is_new e)) [
    | inl r ↦
        let n' : suc (count entry_is_new es) ≤ completes = omega (arith, rw r at n) in
        let o' : count is_old es ≤ inboxes = omega (arith, rw r at o) in
        let (left, spent, less) = spend-returns completes (omega arith) in
        rw (there.0, r, spent, fill-Returns es left inboxes there.1 (omega arith) o') refl
    | inr r ↦
        let n' : count entry_is_new es ≤ completes = omega (arith, rw r at n) in
        let o' : suc (count is_old es) ≤ inboxes = omega (arith, rw r at o) in
        let (left, spent, less) = spend-returns inboxes (omega arith) in
        rw (there.0, r, spent, fill-Returns es completes left there.1 n' (omega arith)) refl
  ]

  -- An entry that is removed is not new.
  removed_is_old :
      (e : ℕ × ActorKnowledge)
      → IsFine exists keepalive small e
      → is_removed exists e ≡ true
      → entry_is_new e ≡ false
  removed_is_old (id, k) (inl (new, there)) r = absurd (true≢false (sym r ∙ rw (new, there) refl))
  removed_is_old (id, k) (inr le) r = ==_ne k.counter new_counter (omega arith)

  partition :
      (es : Entries)
      → All (IsFine exists keepalive small) es
      → (count entry_is_new (kept exists es) ≡ count entry_is_new es)
        × (count is_old (kept exists es) + count entry_is_new es + count (is_removed exists) es
            ≡ length es)
  partition [] fine = (refl, refl)
  partition (e ∷ es) fine =
      let (news, all) = partition es fine.1 in
      elim (Bool-cases (is_removed exists e)) [
        | inl r ↦
            let o = removed_is_old e fine.0 r in
            (rw (r, o) (omega (arith, news)), rw (r, o) (omega (arith, all)))
        | inr r ↦ elim (Bool-cases (entry_is_new e)) [
          | inl n ↦ (rw (r, n) (omega (arith, news)), rw (r, n) (omega (arith, all)))
          | inr n ↦ (rw (r, n) (omega (arith, news)), rw (r, n) (omega (arith, all)))
        ]
      ]

  abbrev pub IsLiveEntry : ℕ × ActorKnowledge → Type 0
  IsLiveEntry e = IsLive keepalive small (some e.1)

  -- Those that are kept exist, and are not expired.
  kept_entry :
      (e : ℕ × ActorKnowledge)
      → IsFine exists keepalive small e
      → is_removed exists e ≡ false
      → (exists e.0 ≡ true) × IsLiveEntry e
  kept_entry (id, k) (inl (new, there)) r = (there, inl new)
  kept_entry (id, k) (inr le) r = elim (Bool-cases (is_expired k)) [
    | inl gone ↦ absurd (true≢false (rw gone at r))
    | inr held ↦ elim (Bool-cases (exists id)) [
      | inl there ↦
          let left : k.counter ≢ 0 = λ z. true≢false (sym ((==_iff k.counter 0).1 z) ∙ held) in
          (there, inr (omega (arith, left), le))
      | inr missing ↦ absurd (true≢false (rw (held, missing) at r))
    ]
  ]

  kept-All :
      (es : Entries)
      → All (IsFine exists keepalive small) es
      → All (λ e. exists e.0 ≡ true) (kept exists es) × All IsLiveEntry (kept exists es)
  kept-All [] fine = (tt, tt)
  kept-All (e ∷ es) fine =
      let (theres, lives) = kept-All es fine.1 in
      elim (Bool-cases (is_removed exists e)) [
        | inl r ↦ (rw r theres, rw r lives)
        | inr r ↦
            let (there, live) = kept_entry e fine.0 r in (rw r (there, theres), rw r (live, lives))
      ]

  ticked :
      (es : Entries)
      → All IsLiveEntry es
      → All (IsFine exists keepalive small) (map (tick_entry exists keepalive) es)
        × (count entry_is_new (map (tick_entry exists keepalive) es) ≡ 0)
        × (length (map (tick_entry exists keepalive) es) ≡ length es)
  ticked [] live = (tt, refl, refl)
  ticked (e ∷ es) live =
      let le = ticked-le keepalive small e.1 live.0 in
      let (fine, none_new, same) = ticked es live.1 in
      (
        (inr (omega arith), fine),
        rw (==_ne (tick keepalive e.1).counter new_counter (omega arith)) (omega (arith, none_new)),
        ap suc same,
      )

  counted-AreCounted :
      (visible : List ℕ) (entries : Entries)
      → All (λ id. exists id ≡ true) visible
      → All IsLiveEntry entries
      → length entries + length visible < 2 ^ 64
      → AreCounted exists keepalive small (counted exists keepalive visible entries) 0
  unfolding counted
  counted-AreCounted visible entries there live fits =
      let (fine, none_new, same) = ticked entries live in
      visit_all-AreCounted exists keepalive small visible _ there (record {
        removals = refl;
        completes = sym none_new;
        fine = fine;
        fits = omega (arith, same);
      })

  -- Where only actors that exist are in the visibility, the keepalive is at most 253, the entries
  -- have counters that updates leave behind, and entries and visibility together are fewer than
  -- 2 ^ 64, `get_update` returns: it neither pushes past the lengths that it has counted, nor meets an
  -- actor that does not exist. It removes the entries that have expired or whose actor is gone, tells
  -- of the new ones, and sends an inbox for each other one. It has counted the removals and the
  -- completes exactly, and the entries that are left have such counters again.
  pub get_update_all-Returns :
      (visible : List ℕ) (entries : Entries)
      → All (λ id. exists id ≡ true) visible
      → All IsLiveEntry entries
      → length entries + length visible < 2 ^ 64
      → (get_update_all exists keepalive visible entries
          ≡ returns (
            record {
              removals = ids (is_removed exists) (counted exists keepalive visible entries).entries;
              completes =
                  ids entry_is_new (kept exists (counted exists keepalive visible entries).entries);
              inboxes = ids is_old (kept exists (counted exists keepalive visible entries).entries);
            },
            kept exists (counted exists keepalive visible entries).entries,
          ))
        × (length (ids (is_removed exists) (counted exists keepalive visible entries).entries)
            ≡ (counted exists keepalive visible entries).removals_len)
        × (length
              (ids entry_is_new (kept exists (counted exists keepalive visible entries).entries))
            ≡ (counted exists keepalive visible entries).completes_len)
        × All IsLiveEntry (kept exists (counted exists keepalive visible entries).entries)
  unfolding get_update_all
  get_update_all-Returns visible entries there live fits =
      let c = counted exists keepalive visible entries in
      let v = counted-AreCounted visible entries there live fits in
      let (news, all) = partition c.entries v.fine in
      let (theres, lives) = kept-All c.entries v.fine in
      (
        rw
            (
              removal_step c.removals_len c.entries v.removals,
              fill-Returns (kept exists c.entries) c.completes_len
                  (sub_usize (sub_usize (length c.entries) c.completes_len) c.removals_len) theres
                  (omega (arith, news, v.completes))
                  (omega (arith, all, v.completes, v.removals, v.fits)),
            )
            refl,
        length-ids (is_removed exists) c.entries ∙ sym v.removals,
        length-ids entry_is_new (kept exists c.entries) ∙ news ∙ sym v.completes,
        lives,
      )
