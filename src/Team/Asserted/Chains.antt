-- ===== src/Team/Asserted/Chains.antt =====
-- Chains of assertions, and sets of ids.
use kodiak.Base.{
  suc, ◌≤◌, ◌≡◌, refl, sym, ap, ◌∙◌, subst, arith, Bool, true, false, ◌||◌, Option, some, none,
  List, [], ◌∷◌, map, Outcome, returns, panics, ◌>>=◌, ◌>>◌, assert, unwrap, if◌then◌else◌, length,
  All, Bool-cases, inl, inr,
}
use kodiak.Collection.Arena.Key.{NonZeroU16}
use kodiak.Ids.{PlayerId}
use kodiak.Team.{Member, same_id, contains}
use kodiak.Team.Updates.{Distinct, or_skip}
use kodiak.Team.Model.{same_id-eq}
use kodiak.Team.Requests.{has_id}
use kodiak.Team.Roster.{Unique}
use kodiak.Team.Asserted.{for_each, distinct_count}

abbrev pub Passes : Outcome (Unit {0}) → Type 0
Passes r = r ≡ returns tt

pub assert_passed :
    (b : Bool) (k : Outcome (Unit {0})) → Passes (assert b >> k) → (b ≡ true) × Passes k
assert_passed true k h = (refl, h)
assert_passed false k h = cc

pub assert_last : (b : Bool) → Passes (assert b) → b ≡ true
assert_last true h = refl
assert_last false h = cc

pub then_passed : (r k : Outcome (Unit {0})) → Passes (r >> k) → Passes r × Passes k
then_passed panics k h = cc
then_passed (returns tt) k h = (refl, h)

pub unwrap_passed :
    {A : Type 0} (o : Option A) (f : A → Outcome (Unit {0}))
    → Passes (unwrap o >>= f)
    → (a : A) × (o ≡ some a) × Passes (f a)
unwrap_passed none f h = cc
unwrap_passed (some a) f h = (a, refl, h)

-- The same, where the option is known.
pub unwrap_known :
    {A : Type 0} {o : Option A} {a : A} (f : A → Outcome (Unit {0}))
    → o ≡ some a
    → Passes (unwrap o >>= f)
    → Passes (f a)
unwrap_known f e h = subst (λ o. Passes (unwrap o >>= f)) e h

pub if_passed :
    (b : Bool) (x y : Outcome (Unit {0}))
    → Passes (if b then x else y)
    → (b ≡ true → Passes x) × (b ≡ false → Passes y)
if_passed true x y h = (λ _. h, λ e. cc)
if_passed false x y h = (λ e. cc, λ _. h)

pub passed-for_each :
    {A : Type 0} (f : A → Outcome (Unit {0})) (xs : List A)
    → Passes (for_each f xs)
    → All (λ x. Passes (f x)) xs
passed-for_each f [] h = tt
passed-for_each f (x ∷ xs) h =
    let (first, rest) = then_passed (f x) (for_each f xs) h in (first, passed-for_each f xs rest)

pub for_each-Passes :
    {A : Type 0} (f : A → Outcome (Unit {0})) (xs : List A)
    → All (λ x. Passes (f x)) xs
    → Passes (for_each f xs)
for_each-Passes f [] h = refl
for_each-Passes f (x ∷ xs) (h, hs) = rw h (for_each-Passes f xs hs)

pub All-at :
    (P : NonZeroU16 → Type 0) (ids : List NonZeroU16) (i : NonZeroU16)
    → All P ids
    → has_id ids i ≡ true
    → P i
All-at P [] i a h = cc
All-at P (x ∷ ids) i (a, as') h = elim (Bool-cases (same_id x i)) [
  | inl e ↦ subst P (same_id-eq x i e) a
  | inr e ↦ All-at P ids i as' (or_skip (same_id x i) (has_id ids i) e h)
]

pub All-every :
    (P : NonZeroU16 → Type 0) (ids : List NonZeroU16)
    → ((i : NonZeroU16) → has_id ids i ≡ true → P i)
    → All P ids
All-every P [] f = tt
All-every P (x ∷ ids) f = (f x (ground arith), All-every P ids (λ i h. f i (ground arith)))

module _ {M : Type 0} where
  abbrev pub ids_of : List (Member M) → List PlayerId
  ids_of ms = map (λ m. m.player_id) ms

  pub All-member :
      (P : Member M → Type 0) (ms : List (Member M)) (p : PlayerId)
      → All P ms
      → contains ms p ≡ true
      → (member : Member M) × (member.player_id ≡ p) × P member
  unfolding contains
  All-member P [] p a h = cc
  All-member P (x ∷ ms) p (a, as') h = elim (Bool-cases (same_id x.player_id p)) [
    | inl e ↦ (x, same_id-eq x.player_id p e, a)
    | inr e ↦ All-member P ms p as' (or_skip (same_id x.player_id p) (contains ms p) e h)
  ]

  pub All-every_member :
      (P : Member M → Type 0) (ms : List (Member M))
      → ((member : Member M) → contains ms member.player_id ≡ true → P member)
      → All P ms
  unfolding contains
  All-every_member P [] f = tt
  All-every_member P (x ∷ ms) f =
      (f x (ground arith), All-every_member P ms (λ member h. f member (ground arith)))

  pub has_id-ids_of : (ms : List (Member M)) (p : PlayerId) → has_id (ids_of ms) p ≡ contains ms p
  unfolding contains
  has_id-ids_of [] p = refl
  has_id-ids_of (x ∷ ms) p = ap (λ b. same_id x.player_id p || b) (has_id-ids_of ms p)

  pub Distinct-ids_of : (ms : List (Member M)) → Unique (ids_of ms) → Distinct ms
  Distinct-ids_of [] u = tt
  Distinct-ids_of (x ∷ ms) (u, us) = (sym (has_id-ids_of ms x.player_id) ∙ u, Distinct-ids_of ms us)

  pub Unique-ids_of : (ms : List (Member M)) → Distinct ms → Unique (ids_of ms)
  Unique-ids_of [] d = tt
  Unique-ids_of (x ∷ ms) (d, ds) = (has_id-ids_of ms x.player_id ∙ d, Unique-ids_of ms ds)

  pub length-ids_of : (ms : List (Member M)) → length (ids_of ms) ≡ length ms
  length-ids_of [] = refl
  length-ids_of (x ∷ ms) = ap suc (length-ids_of ms)

pub distinct_count-le : (ids : List NonZeroU16) → distinct_count ids ≤ length ids
distinct_count-le [] = omega arith
distinct_count-le (i ∷ ids) = ground (arith, distinct_count-le ids)

-- A set is as large as the list exactly when no id is listed twice.
pub Unique-distinct_count : (ids : List NonZeroU16) → length ids ≡ distinct_count ids → Unique ids
Unique-distinct_count [] e = tt
Unique-distinct_count (i ∷ ids) e = elim (Bool-cases (has_id ids i)) [
  | inl twice ↦ absurd (ground (arith, twice, e, distinct_count-le ids))
  | inr once ↦ (once, Unique-distinct_count ids (ground (arith, once, e)))
]

pub distinct_count-Unique : (ids : List NonZeroU16) → Unique ids → length ids ≡ distinct_count ids
distinct_count-Unique [] u = refl
distinct_count-Unique (i ∷ ids) (u, us) = ground (arith, u, distinct_count-Unique ids us)
