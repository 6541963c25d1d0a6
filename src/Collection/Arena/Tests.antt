-- ===== src/Collection/Arena/Tests.antt =====
-- The map on small inputs: the theorems at maps that meet their hypotheses.
use kodiak.Base.{ℕ, length, ◌+◌, ◌≡◌, ltb, refl, arith, Bool, none, some, [], ◌∷◌, Returns}
use kodiak.Collection.Arena.{ArenaMap, get, insert, remove, retain, iter}
use kodiak.Collection.Arena.Key.{NonZeroU16, nonzero_key, nonzero_to_index}
use kodiak.Collection.Arena.Slots.{shrink_loop}
use kodiak.Collection.Arena.Invariant.{IsValid, insert-IsValid, remove-IsValid}
use kodiak.Collection.Arena.Retain.{retained, get-retain}
use kodiak.Collection.Arena.Lookup.{ArenaMap_ext}
use kodiak.Collection.Arena.Iterate.{iter-Returns, Ascending, find}

abbrev first : NonZeroU16
first = (1, (omega arith, omega arith))

abbrev third : NonZeroU16
third = (3, (omega arith, omega arith))

-- Keys 1 and 3 hold values; slot 1, of key 2, is empty.
abbrev sparse : ArenaMap NonZeroU16 ℕ
sparse = record { slots = some 10 ∷ none ∷ some 30 ∷ []; len = 2 }

sparse-IsValid : IsValid sparse
sparse-IsValid = record { trimmed = λ e. cc; counted = refl; within = omega arith }

-- The empty slot in the middle goes with the last value.
remove-sparse : (remove sparse third).0 ≡ record { slots = some 10 ∷ []; len = 1 }
unfolding remove shrink_loop nonzero_to_index
remove-sparse = refl

-- Keep what is below 20, after adding one.
abbrev below_20 : NonZeroU16 → ℕ → ℕ × Bool
below_20 k v = (v + 1, ltb v 20)

get-retain_example :
    Returns
      (λ n. (k : NonZeroU16) → get n k ≡ retained (below_20 k) (get sparse k))
      (retain below_20 sparse)
get-retain_example = get-retain below_20 sparse sparse-IsValid

-- A value that is taken out and put back leaves no trace.
restored_get : (k : NonZeroU16) → get (insert (remove sparse third).0 third 30).0 k ≡ get sparse k
unfolding insert remove shrink_loop get nonzero_to_index
restored_get k = refl

ArenaMap_ext_example : (insert (remove sparse third).0 third 30).0 ≡ sparse
ArenaMap_ext_example =
    ArenaMap_ext _ sparse (insert-IsValid _ third 30 (remove-IsValid sparse third sparse-IsValid))
      sparse-IsValid restored_get

iter-Returns_example :
    Returns
      (λ es.
        (length es ≡ 2)
        × Ascending 0 es
        × ((k : NonZeroU16) → find (nonzero_to_index k) es ≡ get sparse k))
      (iter sparse)
unfolding nonzero_to_index
iter-Returns_example = iter-Returns sparse sparse-IsValid
