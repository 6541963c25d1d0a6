-- ===== src/Ids/Tests.antt =====
-- Ids on small inputs.
use kodiak.Base.{ℕ, ◌≡◌, ◌⊎◌, refl, arith, some, none}
use kodiak.Ids.{PlayerId, client_number, bot_number, nth_client, nth_bot, numbers_roundtrip}

abbrev seven : PlayerId
seven = (7, (omega arith, omega arith))

seven_is_client : client_number seven ≡ some 3
unfolding client_number
seven_is_client = refl

-- The last client id, and one too many.
nth_client_limit : nth_client 32768 ≡ none
unfolding nth_client
nth_client_limit = refl

numbers_roundtrip_example :
    ((n : ℕ) × (client_number seven ≡ some n)
      × (bot_number seven ≡ none)
      × (nth_client n ≡ some seven))
    ⊎ ((n : ℕ) × (bot_number seven ≡ some n)
        × (client_number seven ≡ none)
        × (nth_bot n ≡ some seven))
numbers_roundtrip_example = numbers_roundtrip seven
