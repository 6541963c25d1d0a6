-- ===== src/Lockstep/Peers.antt =====
-- player_peers.rs: all players but one, next to that one.
pub mod Listing
mod Tests
use kodiak.Base.{
  ℕ, zero, suc, ◌+◌, ◌≤◌, ◌<◌, ◌≡◌, ◌∙◌, sym, ap, refl, subst, arith, tests, Option, none, some,
  List, [], ◌∷◌, ◌++◌, length, take, drop, get_elem?, get_elem?-none, length-set, length-append,
  set, if◌then◌else◌, if_cases, leb, leb→le, ◌==◌, ==_iff, Outcome, returns, panics, ◌>>=◌, Returns,
  add_usize, Bool-cases, inl, inr,
}
use kodiak.Collection.Arena
use kodiak.Collection.Arena.{ArenaMap, entries_from}
use kodiak.Collection.Arena.Key.{ArenaKey, nonzero_key, nonzero_to_index}
use kodiak.Collection.Arena.Slots.{join}
use kodiak.Collection.Arena.Writes.{slot, slot-set}
use kodiak.Collection.Arena.Invariant
use kodiak.Collection.Arena.Iterate.{find, Ascending, Listed, entries_from-Listed}
use kodiak.Collection.Arena.Lookup.{get_lem}
use kodiak.Collection.Arena.Split.{entries_from-split, take-drop-set}
use kodiak.Lockstep.World.{PlayerId, LockstepWorld, LockstepPlayer}
use kodiak.Lockstep.State.{Players}
open nonzero_key use {from_index, to_index, limit, from_index_lem, to_index-lt}

-- The two slices: what stands before the player, and what stands after.
pub record LockstepPeers (W : LockstepWorld) : Type 0 where
  pub first : List (Option (LockstepPlayer W.Input W.Player))
  pub second : List (Option (LockstepPlayer W.Input W.Player))

module _ (W : LockstepWorld) where
  pub peers : Players W → PlayerId → LockstepPeers W × Option (LockstepPlayer W.Input W.Player)
  peers players id =
      let slots = players.slots in
      if leb (length slots) (to_index id) then (record { first = slots; second = [] }, none) else (
        record { first = take (to_index id) slots; second = drop (suc (to_index id)) slots },
        join (get_elem? slots (to_index id)),
      )

  -- One slice, from an offset on. The key of a slot is made also where the slot is empty.
  pub slice_entries :
      ℕ
      → List (Option (LockstepPlayer W.Input W.Player))
      → Outcome (List (PlayerId × LockstepPlayer W.Input W.Player))
  slice_entries i [] = returns []
  slice_entries i (none ∷ slice) = do _ ← from_index i; slice_entries (suc i) slice
  slice_entries i (some p ∷ slice) = do
    k ← from_index i
    rest ← slice_entries (suc i) slice
    returns ((k, p) ∷ rest)

  pub iter : LockstepPeers W → Outcome (List (PlayerId × LockstepPlayer W.Input W.Player))
  unfolding slice_entries
  iter peers = do
    a ← slice_entries 0 peers.first
    b ← slice_entries (add_usize (length peers.first) 1) peers.second
    returns (a ++ b)
