-- ===== src/Lockstep/Peers/Listing.antt =====
-- Whom the iteration over a player's peers lists.
use kodiak.Base.{
  ℕ, zero, suc, ◌+◌, ◌≤◌, ◌<◌, ◌≡◌, ◌∙◌, sym, ap, refl, subst, arith, Option, none, some, List, [],
  ◌∷◌, ◌++◌, length, take, drop, get_elem?-none, length-set, length-append, set, if◌then◌else◌, leb,
  leb→le, ◌==◌, ==_iff, Returns, add_usize, Bool-cases, inl, inr,
}
use kodiak.Collection.Arena
use kodiak.Collection.Arena.{ArenaMap, entries_from}
use kodiak.Collection.Arena.Key.{nonzero_key}
use kodiak.Collection.Arena.Slots.{join}
use kodiak.Collection.Arena.Writes.{slot, slot-set}
use kodiak.Collection.Arena.Invariant
use kodiak.Collection.Arena.Iterate.{find, Ascending, entries_from-Listed}
use kodiak.Collection.Arena.Lookup.{get_lem}
use kodiak.Collection.Arena.Split.{entries_from-split, take-drop-set}
use kodiak.Lockstep.World.{PlayerId, LockstepWorld, LockstepPlayer}
use kodiak.Lockstep.State.{Players}
use kodiak.Lockstep.Peers.{peers, slice_entries, iter}
open nonzero_key use {from_index, to_index, limit, from_index_lem, to_index-lt}

module _ (W : LockstepWorld) where
  slice_entries-eq :
      (i : ℕ) (slice : List (Option (LockstepPlayer W.Input W.Player)))
      → i + length slice ≤ limit
      → slice_entries W i slice ≡ entries_from i slice
  unfolding slice_entries entries_from
  slice_entries-eq i [] w = refl
  slice_entries-eq i (none ∷ slice) w =
      let (k, e, _) = from_index_lem i (omega arith) in
      rw e (slice_entries-eq (suc i) slice (omega arith))
  slice_entries-eq i (some p ∷ slice) w =
      let (k, e, _) = from_index_lem i (omega arith) in
      rw (e, slice_entries-eq (suc i) slice (omega arith))

  iter-split :
      (first second : List (Option (LockstepPlayer W.Input W.Player)))
      → length first + 1 + length second ≤ limit
      → iter W (record { first = first; second = second })
        ≡ entries_from 0 (first ++ (none ∷ second))
  unfolding iter
  iter-split first second w =
      let e : add_usize (length first) 1 ≡ 0 + length first + 1 = omega arith in
      rw
        (
          e,
          slice_entries-eq 0 first (omega arith),
          slice_entries-eq (0 + length first + 1) second (omega arith),
        )
        (entries_from-split 0 first second (omega arith))

  -- The peers of a player: in rising order of their keys, everyone but the player.
  pub record PeersOf (players : Players W) (id : PlayerId)
      (es : List (PlayerId × LockstepPlayer W.Input W.Player)) : Type 0 where
    pub order : Ascending 0 es
    pub others :
        (k : PlayerId)
        → find (to_index k) es ≡ (if to_index id == to_index k then none else Arena.get players k)

  out_of_range :
      (players : Players W) (id k : PlayerId)
      → length players.slots ≤ to_index id
      → slot players.slots (to_index k)
        ≡ (if to_index id == to_index k then none else slot players.slots (to_index k))
  out_of_range players id k h = elim (Bool-cases (to_index id == to_index k)) [
    | inl e ↦ rw e (
        ap join (
          get_elem?-none players.slots (to_index k)
            (subst (λ n. length players.slots ≤ n) ((==_iff (to_index id) (to_index k)).0 e) h)))
    | inr e ↦ rw e
  ]

  slot-append_none :
      (xs : List (Option (LockstepPlayer W.Input W.Player))) (j : ℕ)
      → slot (xs ++ (none ∷ [])) j ≡ slot xs j
  slot-append_none [] zero = refl
  slot-append_none [] (suc j) = refl
  slot-append_none (x ∷ xs) zero = refl
  slot-append_none (x ∷ xs) (suc j) = slot-append_none xs j

  from_slots :
      (players : Players W) (id : PlayerId) (xs : List (Option (LockstepPlayer W.Input W.Player)))
      → length xs ≤ limit
      → ((k : PlayerId)
          → slot xs (to_index k)
            ≡ (if to_index id == to_index k then none else Arena.get players k))
      → Returns (PeersOf players id) (entries_from 0 xs)
  from_slots players id xs w h =
      let (es, e, d) = entries_from-Listed 0 xs (omega arith) in
      let at : (k : PlayerId) → 0 + to_index k ≡ to_index k = λ k. omega arith in
      (
        es,
        e,
        record {
          order = d.order;
          others = λ k. ap (λ n. find n es) (sym (at k)) ∙ d.found (to_index k) ∙ h k;
        },
      )

  -- On a valid map the peers of a player can be listed without a panic: everyone but the player, each
  -- under the right key, in rising order. The second result is the player.
  pub iter-PeersOf :
      (players : Players W) (id : PlayerId)
      → Invariant.IsValid players
      → Returns (PeersOf players id) (iter W (peers W players id).0)
        × ((peers W players id).1 ≡ Arena.get players id)
  unfolding peers
  iter-PeersOf players id valid = elim (Bool-cases (leb (length players.slots) (to_index id))) [
    | inl out ↦
        let le : length players.slots ≤ to_index id = leb→le _ _ out in
        rw (out, peers)
          (
            subst (Returns (PeersOf players id))
                (sym (iter-split players.slots [] (omega (arith, to_index-lt id))))
                (from_slots players id (players.slots ++ (none ∷ []))
                  (omega (arith, to_index-lt id, length-append players.slots (none ∷ [])))
                  (λ k.
                    slot-append_none players.slots (to_index k)
                    ∙ out_of_range players id k le
                    ∙ ap (λ o. if to_index id == to_index k then none else o)
                        (sym (get_lem players k)))),
            sym (get_lem players id ∙ ap join (get_elem?-none players.slots (to_index id) le)),
          )
    | inr here ↦
        let lt : to_index id < length players.slots = ground arith in
        let whole = take-drop-set players.slots (to_index id) lt in
        let size : length (take (to_index id) players.slots)
              + 1
              + length (drop (suc (to_index id)) players.slots)
            ≡ length players.slots =
          omega (
            arith,
            length-append (take (to_index id) players.slots)
                (none ∷ drop (suc (to_index id)) players.slots),
            ap length whole,
            length-set players.slots (to_index id) none,
          ) in
        rw (here, peers)
          (
            subst (Returns (PeersOf players id))
                (sym (
                  iter-split (take (to_index id) players.slots)
                    (drop (suc (to_index id)) players.slots) (omega (arith, size, valid.within))
                  ∙ ap (entries_from 0) whole))
                (from_slots players id (set players.slots (to_index id) none)
                  (omega (arith, length-set players.slots (to_index id) none, valid.within))
                  (λ k.
                    slot-set players.slots (to_index id) (to_index k) none lt
                    ∙ ap (λ o. if to_index id == to_index k then none else o)
                        (sym (get_lem players k)))),
            sym (get_lem players id),
          )
  ]
