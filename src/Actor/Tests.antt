-- ===== src/Actor/Tests.antt =====
-- An actor that is seen twice in one update, then is not seen, and then is gone.
use kodiak.Base.{
  ℕ, ◌≡◌, refl, arith, true, false, Bool, List, [], ◌∷◌, any, take, ltb, is_some, All, returns,
}
use kodiak.Actor.Visible.{known, known_lem}
use kodiak.Actor.Client.{knows, has, has-knows, ExistsIfSeen}

known_lem_example : is_some (known 1 (0 ∷ 0 ∷ 2 ∷ [])) ≡ any (ltb 0) (take 2 (0 ∷ 0 ∷ 2 ∷ []))
known_lem_example = known_lem 1 (omega arith) (0 ∷ 0 ∷ 2 ∷ [])

abbrev updates : List (ℕ × Bool)
updates = (0, false) ∷ (0, true) ∷ (2, true) ∷ []

updates-ExistsIfSeen : All ExistsIfSeen updates
updates-ExistsIfSeen = ((λ h. absurd (omega arith)), ((λ h. refl), ((λ h. refl), tt)))

has-knows_example : has 5 updates ≡ returns (is_some (knows 5 updates))
has-knows_example = has-knows 5 (omega arith) updates updates-ExistsIfSeen
