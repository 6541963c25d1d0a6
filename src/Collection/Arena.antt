-- ===== src/Collection/Arena.antt =====
-- common/src/collection/arena_map.rs: a map from small keys to values, kept as a vector of slots.
-- A method that takes `&mut self` returns the new map beside its result.
pub mod Key
pub mod Slots
pub mod Writes
mod Tests
pub mod Iterate
pub mod Lookup
pub mod Modify
pub mod Retain
pub mod Shape
pub mod Split
pub mod Invariant
use kodiak.Base.{
  ℕ, suc, ◌+◌, ◌≤◌, ◌≡◌, ◌≢◌, Bool, true, false, not, ◌&&◌, Option, none, some, List, [], ◌∷◌, map,
  Outcome, returns, ◌>>=◌, if◌then◌else◌, leb, ◌==◌, is_some, length, get_elem?, set, add_usize,
  sub_usize,
}
use Key.{ArenaKey}
use Slots.{join, resize_with, shrink_loop, get_last?}

pub record ArenaMap {ℓ} (K : Type 0) (V : Type ℓ) : Type ℓ where
  pub slots : List (Option V)
  pub len : ℕ

module _ {ℓ} {K : Type 0} {V : Type ℓ} where
  -- `default`, and `new`
  pub new : ArenaMap K V
  new = record { slots = []; len = 0 }

  pub is_empty : ArenaMap K V → Bool
  is_empty m = m.len == 0

  -- Slots fall off the end while the last is empty; each round shortens the vector.
  pub shrink : ArenaMap K V → ArenaMap K V
  shrink m = record m { slots = shrink_loop (length m.slots) m.slots }

module _ {ℓ} {K : Type 0} {V : Type ℓ} ⦃key : ArenaKey K⦄ where
  open key use {from_index, to_index}

  pub get : ArenaMap K V → K → Option V
  get m k = join (get_elem? m.slots (to_index k))

  pub contains : ArenaMap K V → K → Bool
  contains m k = is_some (get m k)

  -- `get_many_mut` refuses equal indices, and those out of bounds.
  pub get_two : ArenaMap K V → K → K → Option (V × V)
  get_two m a b =
      if to_index a == to_index b
      then none
      else both (get_elem? m.slots (to_index a)) (get_elem? m.slots (to_index b))
    where
      both : Option (Option V) → Option (Option V) → Option (V × V)
      both (some (some v)) (some (some w)) = some (v, w)
      both _ _ = none

  -- The vector grows to hold the key's slot.
  pub insert : ArenaMap K V → K → V → ArenaMap K V × Option V
  insert m k v =
      let i = to_index k in
      let slots = if leb (length m.slots) i then resize_with m.slots (i + 1) none else m.slots in
      let old = join (get_elem? slots i) in
      (
        record m {
          slots = set slots i (some v);
          len = if is_some old then m.len else add_usize m.len 1;
        },
        old,
      )

  pub remove : ArenaMap K V → K → ArenaMap K V × Option V
  unfolding shrink
  remove m k =
      let i = to_index k in
      elim (join (get_elem? m.slots i)) [
        | none ↦ (m, none)
        | some old ↦
            (shrink (record m { slots = set m.slots i none; len = sub_usize m.len 1 }), some old)
      ]

  -- `retain` hands each value to the callback, which may change it, and empties the slots that it
  -- rejects. The callback returns the value as it leaves it, and its verdict.
  pub retain_slots : (K → V → V × Bool) → ℕ → List (Option V) → ℕ → Outcome (List (Option V) × ℕ)
  retain_slots f i [] len = returns ([], len)
  retain_slots f i (none ∷ xs) len = do
    (rest, len') ← retain_slots f (suc i) xs len
    returns (none ∷ rest, len')
  retain_slots f i (some v ∷ xs) len = do
    k ← from_index i
    let (v', kept) = f k v
    (rest, len') ← retain_slots f (suc i) xs (if kept then len else sub_usize len 1)
    returns ((if kept then some v' else none) ∷ rest, len')

  pub retain : (K → V → V × Bool) → ArenaMap K V → Outcome (ArenaMap K V)
  unfolding shrink retain_slots
  retain f m = do
    (slots, len) ← retain_slots f 0 m.slots m.len
    returns (shrink (record { slots = slots; len = len }))

  -- The values with their keys, from slot `i` on.
  unfoldable pub entries_from : ℕ → List (Option V) → Outcome (List (K × V))
  entries_from i [] = returns []
  entries_from i (none ∷ xs) = entries_from (suc i) xs
  entries_from i (some v ∷ xs) = do
    k ← from_index i
    rest ← entries_from (suc i) xs
    returns ((k, v) ∷ rest)

  -- `iter`, and `into_iter`
  pub iter : ArenaMap K V → Outcome (List (K × V))
  unfolding entries_from
  iter m = entries_from 0 m.slots

  -- `possible_keys`: the keys of all slots, with those that hold no value.
  pub keys_from : ℕ → List (Option V) → Outcome (List K)
  keys_from i [] = returns []
  keys_from i (x ∷ xs) = do k ← from_index i; rest ← keys_from (suc i) xs; returns (k ∷ rest)

  pub possible_keys : ArenaMap K V → Outcome (List K)
  unfolding keys_from
  possible_keys m = keys_from 0 m.slots

  -- `entry(key).or_insert_with(f)`: the value that is there, or a new one.
  pub or_insert_with : ArenaMap K V → K → V → ArenaMap K V × Option V
  or_insert_with m k v =
      if contains m k then (m, get m k) else (let (n, _) = insert m k v in (n, get n k))

  -- A write through `get_mut`: a key that holds no value is left alone.
  pub modify : ArenaMap K V → K → (V → V) → ArenaMap K V
  modify m k f = elim (get m k) [
    | none ↦ m
    | some v ↦ record m { slots = set m.slots (to_index k) (some (f v)) }
  ]

  -- A loop over `iter_mut` that rewrites each value.
  pub map_slots : (K → V → V) → ℕ → List (Option V) → Outcome (List (Option V))
  map_slots f i [] = returns []
  map_slots f i (none ∷ xs) = do rest ← map_slots f (suc i) xs; returns (none ∷ rest)
  map_slots f i (some v ∷ xs) = do
    k ← from_index i
    rest ← map_slots f (suc i) xs
    returns (some (f k v) ∷ rest)

  pub map_values : (K → V → V) → ArenaMap K V → Outcome (ArenaMap K V)
  unfolding map_slots
  map_values f m = do slots ← map_slots f 0 m.slots; returns (record m { slots = slots })
