-- ===== src/Regulator.antt =====
-- server/src/service/regulator.rs: when a player who joins and leaves is added to the game and removed
-- from it, so that a removal is never followed by an addition in the same tick.
pub mod Traces
mod Tests
use kodiak.Base.{
  Bool, true, false, Option, none, some, List, [], ◌∷◌, Outcome, returns, panics, ◌>>=◌, ◌>>◌,
  assert, not,
}

-- `State`, the only field of `Regulator`.
pub data Regulator : Type 0 where
  initial : Regulator
  joining : Regulator
  joined : Regulator
  waiting_to_leave : Regulator
  leaving : Regulator
  left : Regulator

abbrev pub is_waiting_to_leave : Regulator → Bool
is_waiting_to_leave waiting_to_leave = true
is_waiting_to_leave _ = false

-- The result says whether the join is immediate.
pub join : Regulator → Outcome (Regulator × Bool)
join initial = returns (joined, true)
join joining = panics
join joined = panics
join waiting_to_leave = returns (joined, false)
join leaving = returns (joined, false)
join left = returns (joining, false)

pub leave : Regulator → Outcome Regulator
leave initial = panics
leave joining = returns initial
leave joined = returns waiting_to_leave
leave waiting_to_leave = panics
leave leaving = panics
leave left = panics

-- The result is whether to add or to remove the player.
pub tick : Regulator → Regulator × Option Bool
tick initial = (initial, none)
tick joining = (joined, some true)
tick joined = (joined, none)
tick waiting_to_leave = (leaving, none)
tick leaving = (left, some false)
tick left = (initial, none)

-- The two assertions are on the results of the ticks. The debug build panics in the last case.
pub leave_now : Regulator → Outcome Regulator
unfolding tick leave
leave_now r = do
  r' ← leave r
  elim (is_waiting_to_leave r') [
    | false ↦ returns r'
    | true ↦ do
      assert (is_none (tick r').1)
      assert (is_removal (tick (tick r').0).1)
      returns (tick (tick r').0).0
  ]
  where
    is_none : Option Bool → Bool
    is_none none = true
    is_none (some b) = false

    is_removal : Option Bool → Bool
    is_removal (some b) = not b
    is_removal none = false

abbrev pub active : Regulator → Bool
active joined = true
active _ = false

abbrev pub can_forget : Regulator → Bool
can_forget initial = true
can_forget _ = false
