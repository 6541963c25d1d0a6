-- ===== src/Team/Tests.antt =====
-- A team of two, of which one leaves.
use kodiak.Base.{ℕ, ◌≡◌, refl, arith, some, [], ◌∷◌, Returns}
use kodiak.Ids.{PlayerId}
use kodiak.Team.{Team, remove_member, contains, update}
use kodiak.Team.Updates.{Distinct, is_member, update-Returns}

abbrev seven : PlayerId
seven = (7, (omega arith, omega arith))

abbrev nine : PlayerId
nine = (9, (omega arith, omega arith))

abbrev pair : Team ℕ ℕ ℕ
pair = record {
  name = some 1;
  data_ = 0;
  members =
      record { player_id = seven; manifestation = 70 }
      ∷ record { player_id = nine; manifestation = 90 }
      ∷ [];
  joiners = [];
}

update-Returns_example :
    Returns
      (λ t'.
        Distinct t'.members
        × ((id : PlayerId) → contains t'.members id ≡ is_member pair (remove_member nine) id))
      (update pair (remove_member nine))
unfolding contains
update-Returns_example = update-Returns pair (remove_member nine) (refl, (refl, tt)) refl
