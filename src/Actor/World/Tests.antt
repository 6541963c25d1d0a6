-- ===== src/Actor/World/Tests.antt =====
-- Two entries, and a visibility of two actors.
use kodiak.Base.{ℕ, ◌≡◌, refl, arith, Bool, [], ◌∷◌, ltb, length, inr, All, returns}
use kodiak.Actor.{refresh, tick}
use kodiak.Actor.World.{
  Entries, is_removed, entry_is_new, visit, visit_all, remove_within, fill, counted, get_update_all,
}
use kodiak.Actor.World.Returned.{ids, is_old, kept, IsLiveEntry, get_update_all-Returns}

-- Actors 0 to 9 exist.
abbrev below_ten : ℕ → Bool
below_ten id = ltb id 10

abbrev entries : Entries
entries = (2, record { counter = 1 }) ∷ (3, record { counter = 2 }) ∷ []

get_update_all-Returns_example :
    (get_update_all below_ten 2 (4 ∷ 3 ∷ 3 ∷ []) entries
      ≡ returns (
        record {
          removals =
              ids (is_removed below_ten) (counted below_ten 2 (4 ∷ 3 ∷ 3 ∷ []) entries).entries;
          completes =
              ids entry_is_new
                (kept below_ten (counted below_ten 2 (4 ∷ 3 ∷ 3 ∷ []) entries).entries);
          inboxes =
              ids is_old (kept below_ten (counted below_ten 2 (4 ∷ 3 ∷ 3 ∷ []) entries).entries);
        },
        kept below_ten (counted below_ten 2 (4 ∷ 3 ∷ 3 ∷ []) entries).entries,
      ))
    × (length (ids (is_removed below_ten) (counted below_ten 2 (4 ∷ 3 ∷ 3 ∷ []) entries).entries)
        ≡ (counted below_ten 2 (4 ∷ 3 ∷ 3 ∷ []) entries).removals_len)
    × (length
          (ids entry_is_new (kept below_ten (counted below_ten 2 (4 ∷ 3 ∷ 3 ∷ []) entries).entries))
        ≡ (counted below_ten 2 (4 ∷ 3 ∷ 3 ∷ []) entries).completes_len)
    × All
        (IsLiveEntry below_ten 2 (omega arith))
        (kept below_ten (counted below_ten 2 (4 ∷ 3 ∷ 3 ∷ []) entries).entries)
get_update_all-Returns_example =
    get_update_all-Returns below_ten 2 (omega arith) (4 ∷ 3 ∷ 3 ∷ []) entries
      (refl, (refl, (refl, tt)))
      (inr (omega arith, omega arith), (inr (omega arith, omega arith), tt)) (omega arith)

-- Actor 2 is lost, 4 is new, and 3 is refreshed.
one_update :
    get_update_all below_ten 2 (4 ∷ 3 ∷ 3 ∷ []) entries
    ≡ returns (
      record { removals = 2 ∷ []; completes = 4 ∷ []; inboxes = 3 ∷ [] },
      (3, record { counter = 3 }) ∷ (4, record { counter = 255 }) ∷ [],
    )
unfolding get_update_all visit_all visit remove_within fill counted refresh tick
one_update = refl
