-- ===== src/Actor/World.antt =====
-- `get_update` of common/src/actor_model/macros.rs for all actors of one kind: the knowledge of a
-- client, and the lengths that are counted beforehand for the vectors of the update.
pub mod Counted
pub mod Returned
mod Tests
use kodiak.Base.{
  ℕ, zero, suc, ◌+◌, ◌-◌, Bool, true, false, not, ◌&&◌, ◌||◌, Option, none, some, List, [], ◌∷◌,
  if◌then◌else◌, ◌==◌, ltb, length, keep, map, Outcome, returns, panics, ◌>>=◌, sub_usize,
  add_usize,
}
use kodiak.Actor.{ActorKnowledge, new_knowledge, is_new, is_expired, refresh, tick}

-- The map from ids to knowledge, in the order of the ids.
abbrev pub Entries : Type 0
Entries = List (ℕ × ActorKnowledge)

abbrev pub find : ℕ → Entries → Option ActorKnowledge
find id [] = none
find id ((i, k) ∷ entries) = let rest = find id entries in if i == id then some k else rest

-- `Map::get_mut`, of a key that is there.
abbrev pub replace : ℕ → ActorKnowledge → Entries → Entries
replace id k [] = []
replace id k ((i, old) ∷ entries) =
    let rest = replace id k entries in if i == id then (i, k) ∷ entries else (i, old) ∷ rest

-- `Map::insert`, of a key that is not there.
abbrev pub insert : ℕ → ActorKnowledge → Entries → Entries
insert id k [] = (id, k) ∷ []
insert id k ((i, old) ∷ entries) =
    let rest = insert id k entries in
    if ltb id i then (id, k) ∷ (i, old) ∷ entries else (i, old) ∷ rest

abbrev pub number : Bool → ℕ
number true = 1
number false = 0

abbrev pub count : (ℕ × ActorKnowledge → Bool) → Entries → ℕ
count p [] = 0
count p (e ∷ entries) = number (p e) + count p entries

-- Whether the entry is removed.
abbrev pub is_removed : (ℕ → Bool) → ℕ × ActorKnowledge → Bool
is_removed exists e = is_expired e.1 || not (exists e.0)

abbrev pub entry_is_new : ℕ × ActorKnowledge → Bool
entry_is_new e = is_new e.1

pub record Counts : Type 0 where
  pub removals_len : ℕ
  pub completes_len : ℕ
  pub entries : Entries

pub record ActorUpdate : Type 0 where
  pub removals : List ℕ
  pub completes : List ℕ
  pub inboxes : List ℕ

abbrev pub spend : ℕ → Outcome ℕ
spend zero = panics
spend (suc capacity) = returns capacity

module _ (exists : ℕ → Bool) (keepalive : ℕ) where
  -- One actor of the visibility.
  pub visit : ℕ → Counts → Counts
  unfolding refresh
  visit id c = elim (find id c.entries) [
    | some k ↦ record c {
      removals_len =
          if is_expired k && not (is_expired (refresh keepalive k))
          then sub_usize c.removals_len 1
          else c.removals_len;
      entries = replace id (refresh keepalive k) c.entries;
    }
    | none ↦ record c {
      completes_len = c.completes_len + 1;
      entries = insert id new_knowledge c.entries;
    }
  ]

  pub visit_all : List ℕ → Counts → Counts
  unfolding visit
  visit_all [] c = c
  visit_all (id ∷ visible) c = visit_all visible (visit id c)

  -- `Map::retain`, which pushes the ids of what it removes within the capacity.
  pub remove_within : ℕ → Entries → Outcome (List ℕ × Entries)
  remove_within capacity [] = returns ([], [])
  remove_within zero (e ∷ entries) =
      let rest = remove_within zero entries in
      if is_removed exists e then panics else (rest >>= λ (ids, kept). returns (ids, e ∷ kept))
  remove_within (suc capacity) (e ∷ entries) =
      let after = remove_within capacity entries in
      let rest = remove_within (suc capacity) entries in
      if is_removed exists e
      then (after >>= λ (ids, kept). returns (e.0 ∷ ids, kept))
      else (rest >>= λ (ids, kept). returns (ids, e ∷ kept))

  -- The completes and the inboxes, pushed within their capacities.
  pub fill : Entries → ℕ → ℕ → Outcome (List ℕ × List ℕ)
  fill [] completes inboxes = returns ([], [])
  fill (e ∷ entries) completes inboxes =
      if not (exists e.0)
      then panics
      else if entry_is_new e
      then (spend completes >>= λ left.
          fill entries left inboxes >>= λ (news, others). returns (e.0 ∷ news, others))
      else (spend inboxes >>= λ left.
          fill entries completes left >>= λ (news, others). returns (news, e.0 ∷ others))

  abbrev pub tick_entry : ℕ × ActorKnowledge → ℕ × ActorKnowledge
  tick_entry (id, k) = (id, tick keepalive k)

  pub counted : List ℕ → Entries → Counts
  unfolding visit_all tick
  counted visible entries =
      let ticked = map tick_entry entries in
      visit_all visible (record {
        removals_len = count (is_removed exists) ticked;
        completes_len = 0;
        entries = ticked;
      })

  pub get_update_all : List ℕ → Entries → Outcome (ActorUpdate × Entries)
  unfolding counted remove_within fill
  get_update_all visible entries =
      let c = counted visible entries in
      let inboxes_len = sub_usize (sub_usize (length c.entries) c.completes_len) c.removals_len in
      (if c.removals_len == 0
        then returns ([], c.entries)
        else remove_within c.removals_len c.entries)
      >>= λ (removals, kept). fill kept c.completes_len inboxes_len >>= λ (completes, inboxes).
          returns (record { removals = removals; completes = completes; inboxes = inboxes }, kept)
