-- ===== src/Team/Updates.antt =====
-- What the updates of a team do to its members.
use kodiak.Base.{
  suc, length, ◌≡◌, ◌∙◌, sym, ap, ap₂, refl, arith, Bool, true, false, not, List, [], ◌∷◌, ◌++◌,
  returns, ◌>>=◌, ==_iff, all, ◌||◌, ◌&&◌, Option-cases, Returns, Bool-cases, inl, inr,
}
use kodiak.Collection.Arena.Key.{NonZeroU16_eq}
use kodiak.Ids.{PlayerId}
use kodiak.Team.{
  Member, same_id, contains, push, position, remove_at, remove, replace, Team, TeamUpdate, set_name,
  add_joiner, remove_joiner, add_member, replace_member, remove_member, without_joiner, update,
}

pub or_false : (a b : Bool) → (a || b) ≡ false → (a ≡ false) × (b ≡ false)
or_false false b h = (refl, h)
or_false true b h = cc

same_id_comm : (i j : PlayerId) → same_id i j ≡ same_id j i
same_id_comm i j = ground arith

or_swap : (a b c : Bool) → (a || (b || c)) ≡ (b || (a || c))
or_swap true true c = refl
or_swap true false c = refl
or_swap false b c = refl

pub or_skip : (a b : Bool) → a ≡ false → (a || b) ≡ true → b ≡ true
or_skip a b e h = sym (ap (λ a. a || b) e) ∙ h

dropped : (x b : Bool) → (x ≡ true → b ≡ false) → b ≡ ((x || b) && not x)
dropped true b h = h refl
dropped false true h = refl
dropped false false h = refl

still : (a b x : Bool) → (a ≡ true → x ≡ false) → (a || (b && not x)) ≡ ((a || b) && not x)
still true b x h = ap not (sym (h refl))
still false b x h = refl

id_eq : (i j : PlayerId) → same_id i j ≡ true → i ≡ j
id_eq i j e = NonZeroU16_eq i j ((==_iff i.0 j.0).0 e)

same_as_first : (i j k : PlayerId) → same_id i k ≡ false → same_id i j ≡ true → same_id k j ≡ false
same_as_first i j k e h = ground arith

module _ {M : Type 0} where
  -- No two members have one id.
  abbrev pub Distinct : List (Member M) → Type 0
  Distinct [] = Unit
  Distinct (m ∷ members) = (contains members m.player_id ≡ false) × Distinct members

  pub all-not-any :
      (members : List (Member M)) (id : PlayerId)
      → all (λ m. not (same_id m.player_id id)) members ≡ not (contains members id)
  unfolding contains
  all-not-any [] id = refl
  all-not-any (m ∷ members) id = elim (Bool-cases (same_id m.player_id id)) [
    | inl e ↦ rw e
    | inr e ↦ rw e (all-not-any members id)
  ]

  pub contains-append :
      (members : List (Member M)) (m : Member M) (id : PlayerId)
      → contains (members ++ (m ∷ [])) id ≡ (same_id m.player_id id || contains members id)
  unfolding contains
  contains-append [] m id = refl
  contains-append (x ∷ members) m id =
      ap (λ b. same_id x.player_id id || b) (contains-append members m id)
      ∙ or_swap (same_id x.player_id id) (same_id m.player_id id) (contains members id)

  pub Distinct-append :
      (members : List (Member M)) (m : Member M)
      → contains members m.player_id ≡ false
      → Distinct members
      → Distinct (members ++ (m ∷ []))
  unfolding contains
  Distinct-append [] m h d = (refl, tt)
  Distinct-append (x ∷ members) m h (d, ds) =
      let (apart, absent) =
        or_false (same_id x.player_id m.player_id) (contains members m.player_id) h in
      (
        contains-append members m x.player_id
            ∙ ap₂ (λ a b. a || b) (same_id_comm m.player_id x.player_id ∙ apart) d,
        Distinct-append members m absent ds,
      )

  remove_cons :
      (m : Member M) (members : List (Member M)) (id : PlayerId)
      → same_id m.player_id id ≡ false
      → remove (m ∷ members) id ≡ (remove members id >>= λ rest. returns (m ∷ rest))
  unfolding remove position remove_at
  remove_cons m members id e = elim (Option-cases (position members id)) [
    | inl none_there ↦ rw (e, none_there, remove)
    | inr (i, there) ↦ rw (e, there, remove)
  ]

  remove_first :
      (m : Member M) (members : List (Member M)) (id : PlayerId)
      → same_id m.player_id id ≡ true
      → remove (m ∷ members) id ≡ returns members
  unfolding remove position remove_at
  remove_first m members id e = rw (e, remove)

  -- What a removal leaves: everyone but the one who is removed.
  pub record Removed (members : List (Member M)) (id : PlayerId) (rest : List (Member M))
      : Type 0 where
    pub others : (j : PlayerId) → contains rest j ≡ (contains members j && not (same_id id j))
    pub distinct : Distinct rest
    pub fewer : suc (length rest) ≡ length members

  pub remove-Removed :
      (members : List (Member M)) (id : PlayerId)
      → Distinct members
      → contains members id ≡ true
      → Returns (Removed members id) (remove members id)
  unfolding contains
  remove-Removed [] id d h = cc
  remove-Removed (m ∷ members) id (d, ds) h = elim (Bool-cases (same_id m.player_id id)) [
    | inl e ↦ (
      members,
      remove_first m members id e,
      record {
        others = λ j.
            dropped (same_id m.player_id j) (contains members j)
              (λ f. ap (contains members) (sym (id_eq m.player_id j f)) ∙ d)
            ∙ ap (λ i. contains (m ∷ members) j && not (same_id i j)) (id_eq m.player_id id e);
        distinct = ds;
        fewer = refl;
      },
    )
    | inr e ↦
        let (rest, e', r) =
          remove-Removed members id ds
            (or_skip (same_id m.player_id id) (contains members id) e h) in
        (
          m ∷ rest,
          remove_cons m members id e ∙ rw e',
          record {
            others = λ j.
                ap (λ b. same_id m.player_id j || b) (r.others j)
                ∙ still (same_id m.player_id j) (contains members j) (same_id id j)
                    (same_as_first m.player_id j id e);
            distinct =
                (r.others m.player_id ∙ ap (λ b. b && not (same_id id m.player_id)) d, r.distinct);
            fewer = ap suc r.fewer;
          },
        )
  ]

  -- What a replacement leaves: the same ids.
  pub record Replaced (members rest : List (Member M)) : Type 0 where
    pub same : (j : PlayerId) → contains rest j ≡ contains members j
    pub distinct : Distinct rest
    pub as_many : length rest ≡ length members

  pub replace-Replaced :
      (members : List (Member M)) (member : Member M)
      → Distinct members
      → contains members member.player_id ≡ true
      → Returns (Replaced members) (replace members member)
  unfolding contains replace
  replace-Replaced [] member d h = cc
  replace-Replaced (m ∷ members) member (d, ds) h =
      elim (Bool-cases (same_id m.player_id member.player_id)) [
        | inl e ↦ (
          record m { manifestation = member.manifestation } ∷ members,
          rw e,
          record { same = λ j. refl; distinct = (d, ds); as_many = refl },
        )
        | inr e ↦
            let (rest, e', r) = replace-Replaced members member ds (
              or_skip (same_id m.player_id member.player_id) (contains members member.player_id) e
                h) in
            (
              m ∷ rest,
              rw (e, e'),
              record {
                same = λ j. ap (λ b. same_id m.player_id j || b) (r.same j);
                distinct = (r.same m.player_id ∙ d, r.distinct);
                as_many = ap suc r.as_many;
              },
            )
      ]

module _ {Name D M : Type 0} where
  -- When an update is expected: a new member is not a member yet, the others are.
  abbrev pub Expected : Team Name D M → TeamUpdate Name M → Type 0
  Expected t (add_member member) = contains t.members member.player_id ≡ false
  Expected t (replace_member member) = contains t.members member.player_id ≡ true
  Expected t (remove_member id) = contains t.members id ≡ true
  Expected t _ = Unit

  -- Who is a member after an update.
  abbrev pub is_member : Team Name D M → TeamUpdate Name M → PlayerId → Bool
  is_member t (add_member member) id = same_id member.player_id id || contains t.members id
  is_member t (remove_member removed) id = contains t.members id && not (same_id removed id)
  is_member t _ id = contains t.members id

  -- An update of a team without duplicate members, which adds no one who is a member and replaces
  -- or removes only members, returns a team without duplicate members, whose members are those
  -- from before, with the one who is added and without the one removed.
  pub update-Returns :
      (t : Team Name D M) (u : TeamUpdate Name M)
      → Distinct t.members
      → Expected t u
      → Returns
          (λ t'.
            Distinct t'.members × ((id : PlayerId) → contains t'.members id ≡ is_member t u id))
          (update t u)
  unfolding update without_joiner push
  update-Returns t (set_name name) d h = (record t { name = name }, refl, (d, λ id. refl))
  update-Returns t (add_joiner joiner) d h =
      (record t { joiners = t.joiners ++ (joiner ∷ []) }, refl, (d, λ id. refl))
  update-Returns t (remove_joiner joiner) d h = (without_joiner t joiner, refl, (d, λ id. refl))
  update-Returns t (add_member member) d h = (
    record (without_joiner t member.player_id) { members = t.members ++ (member ∷ []) },
    rw (h, all-not-any t.members member.player_id, h),
    (Distinct-append t.members member h d, λ id. contains-append t.members member id),
  )
  update-Returns t (replace_member member) d h =
      let (rest, e, r) = replace-Replaced t.members member d h in
      (record t { members = rest }, rw e, (r.distinct, r.same))
  update-Returns t (remove_member id) d h =
      let (rest, e, r) = remove-Removed t.members id d h in
      (record t { members = rest }, rw e, (r.distinct, r.others))
