-- ===== src/Ids.antt =====
-- plasma_protocol/src/ids/visitor.rs: player ids, odd for clients and even for bots.
pub mod Arenas
mod Tests
use native.Mathlib.Decide.{dec_lt}
use mathlib.Core.Logic.{dite, dif_pos}
use native.Mathlib.Bridge.{le_prop}
use kodiak.Base.{
  ℕ, zero, suc, ◌+◌, ◌-◌, ◌*◌, ◌/◌, ◌%◌, ◌^◌, ◌≤◌, ◌<◌, ◌≡◌, ◌∙◌, refl, ap, arith, Bool, true,
  false, ◌&&◌, ◌⊎◌, Option, none, some, if◌then◌else◌, ◌==◌, ltb, Bool-cases, if_true, inl, inr,
}
use kodiak.Collection.Arena.Key.{NonZeroU16, NonZeroU16_eq}

abbrev pub PlayerId : Type 0
PlayerId = NonZeroU16

pub is_bot : PlayerId → Bool
is_bot id = id.0 % 2 == 0

unfoldable pub is_client : PlayerId → Bool
is_client id = id.0 % 2 == 1

pub client_number : PlayerId → Option ℕ
unfolding is_client
client_number id = if is_client id then some ((id.0 - 1) / 2) else none

pub bot_number : PlayerId → Option ℕ
unfolding is_bot
bot_number id = if is_bot id then some (id.0 / 2 - 1) else none

-- `NonZeroU16::new`, after arithmetic that is checked to stay below 2 ^ 16.
nonzero : ℕ → Option PlayerId
nonzero zero = none
nonzero (suc n) = dite (dec_lt (suc n) (2 ^ 16)) (λ h. some (suc n, (omega arith, h))) (λ _. none)

-- `u16::try_from(n).ok()?.checked_mul(2)?.checked_add(1)?`, where each step fails past 2 ^ 16.
pub nth_client : ℕ → Option PlayerId
unfolding nonzero
nth_client n =
    if ltb n (2 ^ 16) && ltb (n * 2) (2 ^ 16) && ltb (n * 2 + 1) (2 ^ 16)
    then nonzero (n * 2 + 1)
    else none

pub nth_bot : ℕ → Option PlayerId
unfolding nonzero
nth_bot n =
    if ltb n (2 ^ 16) && ltb (n + 1) (2 ^ 16) && ltb ((n + 1) * 2) (2 ^ 16)
    then nonzero ((n + 1) * 2)
    else none

nonzero_lem : (id : PlayerId) → nonzero id.0 ≡ some id
unfolding nonzero
nonzero_lem (zero, (p, q)) = elim p [ ]
nonzero_lem (suc n, (p, q)) =
    dif_pos (dec_lt (suc n) (2 ^ 16)) le_prop q _ _ ∙ ap some (NonZeroU16_eq _ _ refl)

nth_client_eq : (n : ℕ) (id : PlayerId) → n * 2 + 1 ≡ id.0 → nth_client n ≡ some id
unfolding nth_client
nth_client_eq n id e =
    let fits : (ltb n (2 ^ 16) && ltb (n * 2) (2 ^ 16) && ltb (n * 2 + 1) (2 ^ 16)) ≡ true =
      ground (arith, id.1.1) in
    if_true (nonzero (n * 2 + 1)) none fits ∙ ap nonzero e ∙ nonzero_lem id

nth_bot_eq : (n : ℕ) (id : PlayerId) → (n + 1) * 2 ≡ id.0 → nth_bot n ≡ some id
unfolding nth_bot
nth_bot_eq n id e =
    let fits : (ltb n (2 ^ 16) && ltb (n + 1) (2 ^ 16) && ltb ((n + 1) * 2) (2 ^ 16)) ≡ true =
      ground (arith, id.1.1) in
    if_true (nonzero ((n + 1) * 2)) none fits ∙ ap nonzero e ∙ nonzero_lem id

-- Each id is a client's or a bot's, never both, and its number leads back to it.
pub numbers_roundtrip :
    (id : PlayerId)
    → ((n : ℕ) × (client_number id ≡ some n) × (bot_number id ≡ none) × (nth_client n ≡ some id))
      ⊎ ((n : ℕ) × (bot_number id ≡ some n) × (client_number id ≡ none) × (nth_bot n ≡ some id))
unfolding client_number bot_number
numbers_roundtrip id = elim (Bool-cases (id.0 % 2 == 1)) [
  | inl odd ↦ inl (
    (id.0 - 1) / 2,
    rw odd,
    ground arith,
    nth_client_eq ((id.0 - 1) / 2) id (ground (arith, id.1.0)),
  )
  | inr even ↦
      inr
        (id.0 / 2 - 1, ground arith, rw even, nth_bot_eq (id.0 / 2 - 1) id (ground (arith, id.1.0)))
]
