-- ===== src/Collection/Arena/Modify.antt =====
-- Writes through `get_mut`.
use mathlib.Core.Option
use kodiak.Base.{
  ◌≡◌, refl, some, if◌then◌else◌, ◌==◌, is_some, Option-cases, Bool-cases, ==_iff, inl, inr,
}
use kodiak.Collection.Arena.{ArenaMap, get, contains, modify}
use kodiak.Collection.Arena.Key.{ArenaKey}
use kodiak.Collection.Arena.Writes.{slot, slot_lt, slot-set, slot_unchanged}

module _ {ℓ} {K : Type 0} {V : Type ℓ} ⦃key : ArenaKey K⦄ where
  open key use {to_index}

  -- The key's value is changed if there is one; every other key holds what it held.
  pub get-modify :
      (m : ArenaMap K V) (k j : K) (f : V → V)
      → get (modify m k f) j
        ≡ (if to_index k == to_index j then Option.map f (get m k) else get m j)
  unfolding modify get
  get-modify m k j f = elim (Option-cases (slot m.slots (to_index k))) [
    | inl e ↦ rw (e, modify) (slot_unchanged m.slots (to_index k) (to_index j) e)
    | inr (v, e) ↦
        rw (e, modify)
          (slot-set m.slots (to_index k) (to_index j) (some (f v))
            (slot_lt m.slots (to_index k) v e))
  ]

  pub contains-modify :
      (m : ArenaMap K V) (k j : K) (f : V → V) → contains (modify m k f) j ≡ contains m j
  unfolding contains modify get
  contains-modify m k j f = elim (Option-cases (slot m.slots (to_index k))) [
    | inl e ↦ rw (e, modify)
    | inr (v, e) ↦
        rw
          (
            e,
            modify,
            slot-set m.slots (to_index k) (to_index j) (some (f v))
                (slot_lt m.slots (to_index k) v e),
          )
          (elim (Bool-cases (to_index k == to_index j)) [
            | inl h ↦ rw h (rw (← (==_iff (to_index k) (to_index j)).0 h, e))
            | inr h ↦ rw h
          ])
  ]

  pub contains_lem : (m : ArenaMap K V) (k : K) → contains m k ≡ is_some (get m k)
  unfolding contains
  contains_lem m k = refl
