-- ===== src/Actor.antt =====
-- common/src/actor_model: what a server knows that a client knows of one actor (singletons.rs), and
-- how `get_update` (macros.rs), which treats each actor by itself, changes it.
pub mod Visible
pub mod Client
pub mod World
mod Tests
use kodiak.Base.{
  ℕ, zero, suc, ◌+◌, ◌-◌, ◌%◌, ◌^◌, Bool, true, false, not, ◌&&◌, ◌||◌, Option, none, some, List,
  [], ◌∷◌, if◌then◌else◌, ◌==◌,
}

pub record ActorKnowledge : Type 0 where
  pub counter : ℕ

-- `ActorKnowledge::NEW`
abbrev pub new_counter : ℕ
new_counter = 2 ^ 8 - 1

-- `ActorKnowledge::default()`
abbrev pub new_knowledge : ActorKnowledge
new_knowledge = record { counter = new_counter }

abbrev pub is_new : ActorKnowledge → Bool
is_new k = k.counter == new_counter

abbrev pub is_expired : ActorKnowledge → Bool
is_expired k = k.counter == 0

abbrev pub is_active : ActorKnowledge → Bool
is_active k = not (is_new k) && not (is_expired k)

-- The knowledge after a refresh. Whether it was the first is told by the change.
pub refresh : ℕ → ActorKnowledge → ActorKnowledge
refresh keepalive k =
    let counter = (keepalive + 1) % 2 ^ 8 in
    if not (k.counter == counter) && not (is_new k) then record { counter = counter } else k

pub tick : ℕ → ActorKnowledge → ActorKnowledge
tick keepalive k =
    let counter = if is_new k then (keepalive + 1) % 2 ^ 8 else k.counter in
    record { counter = (counter + 2 ^ 8 - 1) % 2 ^ 8 }

-- What an update tells the client of the actor: all of it, its inbox, that it is gone, or nothing.
pub data Told : Type 0 where
  complete : Told
  inbox : Told
  removal : Told
  silence : Told

-- The actor occurs in the visibility.
abbrev pub see : ℕ → Option ActorKnowledge → Option ActorKnowledge
see keepalive none = some new_knowledge
see keepalive (some k) = some (refresh keepalive k)

-- It may occur several times.
abbrev pub see_times : ℕ → ℕ → Option ActorKnowledge → Option ActorKnowledge
see_times keepalive zero o = o
see_times keepalive (suc times) o = see_times keepalive times (see keepalive o)

abbrev pub tick_known : ℕ → Option ActorKnowledge → Option ActorKnowledge
tick_known keepalive none = none
tick_known keepalive (some k) = some (tick keepalive k)

-- Removals, then completes and inboxes. The last argument says whether the actor exists.
abbrev pub tell : Bool → Option ActorKnowledge → Option ActorKnowledge × Told
tell exists none = (none, silence)
tell exists (some k) =
    if is_expired k || not exists
    then (none, removal)
    else (some k, if is_new k then complete else inbox)

pub get_update : ℕ → ℕ → Bool → Option ActorKnowledge → Option ActorKnowledge × Told
unfolding refresh tick
get_update keepalive times exists o =
    tell exists (see_times keepalive times (tick_known keepalive o))
