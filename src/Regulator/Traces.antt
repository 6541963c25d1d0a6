-- ===== src/Regulator/Traces.antt =====
-- Joins, leaves and ticks in any order that the callers keep to, against what is then in the game.
use kodiak.Base.{
  ◌≡◌, refl, sym, subst, Bool, true, false, Option, none, some, List, [], ◌∷◌, Outcome, returns,
  panics, ◌>>=◌, Returns,
}
use kodiak.Regulator.{
  Regulator, initial, joining, joined, waiting_to_leave, leaving, left, join, leave, tick,
  leave_now, active, can_forget,
}

-- The regulator, and whether the player is in the game by what the regulator's answers have said.
pub record Tracked : Type 0 where
  pub regulator : Regulator
  pub present : Bool

pub data Call : Type 0 where
  joins : Call
  leaves : Call
  leaves_now : Call
  ticks : Call

-- An answer to add, or to remove; it is a panic to add a player who is there, or to remove one who
-- is not.
pub answer : Bool → Option Bool → Outcome Bool
answer present none = returns present
answer true (some true) = panics
answer false (some true) = returns true
answer true (some false) = returns false
answer false (some false) = panics

abbrev fast : Bool → Option Bool
fast true = some true
fast false = none

pub call : Tracked → Call → Outcome Tracked
unfolding answer
call t joins = do
  (r, immediate) ← join t.regulator
  present ← answer t.present (fast immediate)
  returns (record { regulator = r; present = present })
call t leaves = do r ← leave t.regulator; returns (record { regulator = r; present = t.present })
call t leaves_now = do
  r ← leave_now t.regulator
  present ← answer t.present (some false)
  returns (record { regulator = r; present = present })
call t ticks = do
  present ← answer t.present (tick t.regulator).1
  returns (record { regulator = (tick t.regulator).0; present = present })

pub run : Tracked → List Call → Outcome Tracked
unfolding call
run t [] = returns t
run t (c ∷ cs) = do t' ← call t c; run t' cs

-- Whether the player is in the game.
abbrev pub in_game : Regulator → Bool
in_game joined = true
in_game waiting_to_leave = true
in_game leaving = true
in_game _ = false

-- Whether the last call of the two was a join.
abbrev pub wanted : Regulator → Bool
wanted joining = true
wanted joined = true
wanted _ = false

-- A caller joins after leaving, leaves after joining, and leaves at once only while active.
abbrev pub Allowed : Regulator → Call → Type 0
Allowed r joins = wanted r ≡ false
Allowed r leaves = wanted r ≡ true
Allowed r leaves_now = active r ≡ true
Allowed r ticks = Unit

-- What the calls make of whether the player is wanted.
abbrev pub wants : Bool → Call → Bool
wants b joins = true
wants b leaves = false
wants b leaves_now = false
wants b ticks = b

-- The state that a call leaves: the answers agree with it, and the caller's last wish is kept.
pub record Agrees (t : Tracked) (c : Call) (t' : Tracked) : Type 0 where
  pub present : t'.present ≡ in_game t'.regulator
  pub wish : wanted t'.regulator ≡ wants (wanted t.regulator) c

-- On a regulator that agrees with what is in the game, every allowed call returns, says to add a
-- player only where the player is absent and to remove only where the player is there, and leaves
-- the regulator in agreement, with the caller's wish kept.
pub call-Agrees :
    (t : Tracked) (c : Call)
    → t.present ≡ in_game t.regulator
    → Allowed t.regulator c
    → Returns (Agrees t c) (call t c)
unfolding call answer join leave leave_now tick
call-Agrees t c h a =
    subst
      (λ b.
        Returns (Agrees (record { regulator = t.regulator; present = b }) c)
          (call (record { regulator = t.regulator; present = b }) c))
      (sym h) (go t.regulator c a)
  where
    go :
        (r : Regulator) (c : Call)
        → Allowed r c
        → Returns
            (Agrees (record { regulator = r; present = in_game r }) c)
            (call (record { regulator = r; present = in_game r }) c)
    go initial joins a = (
      record { regulator = joined; present = true },
      refl,
      record { present = refl; wish = refl },
    )
    go initial leaves a = cc
    go initial leaves_now a = cc
    go initial ticks a = (
      record { regulator = initial; present = false },
      refl,
      record { present = refl; wish = refl },
    )
    go joining joins a = cc
    go joining leaves a = (
      record { regulator = initial; present = false },
      refl,
      record { present = refl; wish = refl },
    )
    go joining leaves_now a = cc
    go joining ticks a = (
      record { regulator = joined; present = true },
      refl,
      record { present = refl; wish = refl },
    )
    go joined joins a = cc
    go joined leaves a = (
      record { regulator = waiting_to_leave; present = true },
      refl,
      record { present = refl; wish = refl },
    )
    go joined leaves_now a =
        (record { regulator = left; present = false }, refl, record { present = refl; wish = refl })
    go joined ticks a = (
      record { regulator = joined; present = true },
      refl,
      record { present = refl; wish = refl },
    )
    go waiting_to_leave joins a = (
      record { regulator = joined; present = true },
      refl,
      record { present = refl; wish = refl },
    )
    go waiting_to_leave leaves a = cc
    go waiting_to_leave leaves_now a = cc
    go waiting_to_leave ticks a = (
      record { regulator = leaving; present = true },
      refl,
      record { present = refl; wish = refl },
    )
    go leaving joins a = (
      record { regulator = joined; present = true },
      refl,
      record { present = refl; wish = refl },
    )
    go leaving leaves a = cc
    go leaving leaves_now a = cc
    go leaving ticks a =
        (record { regulator = left; present = false }, refl, record { present = refl; wish = refl })
    go left joins a = (
      record { regulator = joining; present = false },
      refl,
      record { present = refl; wish = refl },
    )
    go left leaves a = cc
    go left leaves_now a = cc
    go left ticks a = (
      record { regulator = initial; present = false },
      refl,
      record { present = refl; wish = refl },
    )

-- Calls that keep to the rule, from a regulator whose player is wanted or not: between a join and the
-- next join there is one leave.
abbrev pub Alternating : Bool → List Call → Type 0
Alternating b [] = Unit
Alternating true (joins ∷ cs) = ⊥
Alternating false (joins ∷ cs) = Alternating true cs
Alternating true (leaves ∷ cs) = Alternating false cs
Alternating false (leaves ∷ cs) = ⊥
Alternating b (leaves_now ∷ cs) = ⊥
Alternating b (ticks ∷ cs) = Alternating b cs

Alternating-Allowed :
    (r : Regulator) (c : Call) (cs : List Call)
    → Alternating (wanted r) (c ∷ cs)
    → Allowed r c × Alternating (wants (wanted r) c) cs
Alternating-Allowed r c cs h = go (wanted r) refl c h
  where
    go :
        (b : Bool)
        → wanted r ≡ b
        → (c : Call) → Alternating b (c ∷ cs)
        → Allowed r c × Alternating (wants b c) cs
    go true e joins h = elim h [ ]
    go false e joins h = (e, h)
    go true e leaves h = (e, h)
    go false e leaves h = elim h [ ]
    go true e leaves_now h = elim h [ ]
    go false e leaves_now h = elim h [ ]
    go true e ticks h = (tt, h)
    go false e ticks h = (tt, h)

-- From a regulator that agrees with what is in the game, joins and leaves in turn, with ticks
-- anywhere, never panic, and the answers to add and to remove keep up with what is in the game.
pub run-Returns :
    (t : Tracked) (cs : List Call)
    → t.present ≡ in_game t.regulator
    → Alternating (wanted t.regulator) cs
    → Returns (λ t'. t'.present ≡ in_game t'.regulator) (run t cs)
unfolding run
run-Returns t [] h a = (t, refl, h)
run-Returns t (c ∷ cs) h a =
    let (allowed, rest) = Alternating-Allowed t.regulator c cs a in
    let (t', e, agrees) = call-Agrees t c h allowed in
    let (t'', e', h'') =
      run-Returns t' cs agrees.present (subst (λ b. Alternating b cs) (sym agrees.wish) rest) in
    (t'', rw (e, e'), h'')

-- Without further calls, a player who is wanted is active after one tick, and one who is not is
-- forgotten after three.
pub tick_settles :
    (r : Regulator)
    → (wanted r ≡ true → active (tick r).0 ≡ true)
      × (wanted r ≡ false → can_forget (tick (tick (tick r).0).0).0 ≡ true)
unfolding tick
tick_settles initial = (λ h. cc, λ h. refl)
tick_settles joining = (λ h. refl, λ h. cc)
tick_settles joined = (λ h. refl, λ h. cc)
tick_settles waiting_to_leave = (λ h. cc, λ h. refl)
tick_settles leaving = (λ h. cc, λ h. refl)
tick_settles left = (λ h. cc, λ h. refl)
