-- ===== src/Team/Roster/Ids.antt =====
-- Lists of ids: what dropping one, adding one and emptying a list do to who is in it.
use kodiak.Base.{
  ◌<◌, ◌≡◌, refl, ap, ◌∙◌, arith, true, false, not, ◌&&◌, ◌||◌, List, [], ◌∷◌, ◌++◌, length, keep,
  Bool-cases, inl, inr, length-keep,
}
use kodiak.Collection.Arena.Key.{NonZeroU16}
use kodiak.Team.{same_id}
use kodiak.Team.Model.{same_id_refl}
use kodiak.Team.Requests.{has_id}
use kodiak.Team.Roster.{Unique}

-- `retain(|id| *id != dropped)`
abbrev pub drop_id : NonZeroU16 → List NonZeroU16 → List NonZeroU16
drop_id k ids = keep (λ id. not (same_id id k)) ids

pub has_id-drop_id :
    (ids : List NonZeroU16) (k i : NonZeroU16)
    → has_id (drop_id k ids) i ≡ (has_id ids i && not (same_id k i))
has_id-drop_id [] k i = refl
has_id-drop_id (x ∷ ids) k i = ground (arith, has_id-drop_id ids k i)

pub has_id-append :
    (ids : List NonZeroU16) (k i : NonZeroU16)
    → has_id (ids ++ (k ∷ [])) i ≡ (has_id ids i || same_id k i)
has_id-append [] k i = ground arith
has_id-append (x ∷ ids) k i = ground (arith, has_id-append ids k i)

pub length-drop_id_lt :
    (ids : List NonZeroU16) (k : NonZeroU16)
    → has_id ids k ≡ true
    → length (drop_id k ids) < length ids
length-drop_id_lt [] k h = cc
length-drop_id_lt (x ∷ ids) k h =
    ground
      (arith, length-drop_id_lt ids k, length-keep (λ (id : NonZeroU16). not (same_id id k)) ids)

pub drop_id_absent :
    (ids : List NonZeroU16) (k : NonZeroU16) → has_id ids k ≡ false → drop_id k ids ≡ ids
drop_id_absent [] k h = refl
drop_id_absent (x ∷ ids) k h = ground (arith, drop_id_absent ids k)

pub drop_id_twice :
    (ids : List NonZeroU16) (k : NonZeroU16) → drop_id k (drop_id k ids) ≡ drop_id k ids
drop_id_twice ids k =
    drop_id_absent (drop_id k ids) k (has_id-drop_id ids k k ∙ ground (arith, same_id_refl k))

pub drop_id-Unique : (ids : List NonZeroU16) (k : NonZeroU16) → Unique ids → Unique (drop_id k ids)
drop_id-Unique [] k u = tt
drop_id-Unique (x ∷ ids) k u = elim (Bool-cases (same_id x k)) [
  | inl e ↦ rw e (drop_id-Unique ids k u.1)
  | inr e ↦
      rw e (has_id-drop_id ids k x ∙ ap (λ b. b && not (same_id k x)) u.0, drop_id-Unique ids k u.1)
]

pub append-Unique :
    (ids : List NonZeroU16) (k : NonZeroU16)
    → has_id ids k ≡ false
    → Unique ids
    → Unique (ids ++ (k ∷ []))
append-Unique [] k h u = (refl, tt)
append-Unique (x ∷ ids) k h u =
    (ground (arith, has_id-append ids k x, u.0), append-Unique ids k (ground arith) u.1)

pub empty_ids : (ids : List NonZeroU16) → ((i : NonZeroU16) → has_id ids i ≡ false) → ids ≡ []
empty_ids [] h = refl
empty_ids (x ∷ ids) h = absurd (ground (arith, h x))

-- Each id of one list dropped from another.
abbrev pub drop_ids : List NonZeroU16 → List NonZeroU16 → List NonZeroU16
drop_ids [] ids = ids
drop_ids (k ∷ dropped) ids = drop_ids dropped (drop_id k ids)

has_id-drop_ids :
    (dropped ids : List NonZeroU16) (i : NonZeroU16)
    → has_id (drop_ids dropped ids) i ≡ (has_id ids i && not (has_id dropped i))
has_id-drop_ids [] ids i = ground arith
has_id-drop_ids (k ∷ dropped) ids i =
    has_id-drop_ids dropped (drop_id k ids) i ∙ ground (arith, has_id-drop_id ids k i)

pub drop_ids_self : (ids : List NonZeroU16) → drop_ids ids ids ≡ []
drop_ids_self ids = empty_ids (drop_ids ids ids) λ i. has_id-drop_ids ids ids i ∙ ground arith
