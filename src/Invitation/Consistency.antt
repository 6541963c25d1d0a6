-- ===== src/Invitation/Consistency.antt =====
-- What ties the invitations of invitation_repo.rs to the clients that created them, and the changes
-- that keep it.
use kodiak.Base.{
  ◌≡◌, refl, sym, ap, subst, ◌∙◌, arith, true, false, ◌&&◌, ◌↔◌, Option, none, some, if◌then◌else◌,
  if_cases,
}
use mathlib.Core.Option
use mathlib.Core.Bool.{true≢false}
use kodiak.Ids.{PlayerId}
use kodiak.Ids.Arenas.{
  InvitationId, same_invitation, same_invitation_refl, same_invitation-eq, ArenaId, same_arena,
  same_arena_refl, same_arena-eq,
}
use kodiak.Team.{same_id}
use kodiak.Team.Model.{same_id_refl, same_id-eq}
use kodiak.Invitation.{
  Invitation, InvitationRepo, insert, remove, Player, client, bot, of_temporary, retained,
  forget_arena_invitations,
}

-- The invitation that a player has created.
abbrev pub created_by : Option Player → Option InvitationId
created_by none = none
created_by (some bot) = none
created_by (some (client c)) = c.invitation.invitation_created

abbrev pub Creators : Type 0
Creators = ArenaId → PlayerId → Option InvitationId

abbrev pub invitation_of : ArenaId → PlayerId → Invitation
invitation_of a p = record { arena_id = a; player_id = some p }

-- A client has an invitation exactly if the repository holds it as an invitation of that client, to
-- its arena.
abbrev pub AreConsistent : InvitationRepo → Creators → Type 0
AreConsistent repo creators =
    (a : ArenaId) (p : PlayerId) (id : InvitationId)
    → (creators a p ≡ some id) ↔ (repo id ≡ some (invitation_of a p))

abbrev pub set_creator : Creators → ArenaId → PlayerId → Option InvitationId → Creators
set_creator creators a p v b q = if same_arena a b && same_id p q then v else creators b q

abbrev pub without_arena : Creators → ArenaId → Creators
without_arena creators a b q = if same_arena b a then none else creators b q

pub set_creator_all {κ} :
    (P : ArenaId → PlayerId → Option InvitationId → Type κ) (creators : Creators) (a : ArenaId)
    (p : PlayerId) (v : Option InvitationId)
    → P a p v
    → ((b : ArenaId) (q : PlayerId)
        → (same_arena a b && same_id p q) ≡ false
        → P b q (creators b q))
    → (b : ArenaId) (q : PlayerId) → P b q (set_creator creators a p v b q)
set_creator_all P creators a p v here there b q =
    if_cases (P b q) (same_arena a b && same_id p q)
      (λ e.
        subst (λ c. P c q v) (same_arena-eq a b (ground arith))
          (subst (λ r. P a r v) (same_id-eq p q (ground arith)) here))
      (there b q)

insert_all {κ} :
    (P : InvitationId → Option Invitation → Type κ) (repo : InvitationRepo) (id : InvitationId)
    (v : Option Invitation)
    → P id v
    → ((j : InvitationId) → same_invitation id j ≡ false → P j (repo j))
    → (j : InvitationId) → P j (if same_invitation id j then v else repo j)
insert_all P repo id v here there j =
    if_cases (P j) (same_invitation id j) (λ e. subst (λ j. P j v) (same_invitation-eq id j e) here)
      (there j)

no_value {ℓ} : {A : Type ℓ} {o : Option A} {a : A} → o ≡ none → o ≡ some a → ⊥
no_value e h = Option.none-ne-some _ (sym e ∙ h)

ids_differ : (id j : InvitationId) → same_invitation id j ≡ false → some id ≡ some j → ⊥
ids_differ id j ne h = true≢false (
    sym (
      subst (λ i. same_invitation id i ≡ true) (Option.some-injective id j h)
        (same_invitation_refl id))
    ∙ ne)

invitation_of_arena :
    {a b : ArenaId} {p q : PlayerId} → some (invitation_of a p) ≡ some (invitation_of b q) → a ≡ b
invitation_of_arena e = ap (λ i. i.arena_id) (Option.some-injective _ _ e)

invitation_of_player :
    {a b : ArenaId} {p q : PlayerId} → some (invitation_of a p) ≡ some (invitation_of b q) → p ≡ q
invitation_of_player e =
    Option.some-injective _ _ (ap (λ i. i.player_id) (Option.some-injective _ _ e))

invitations_differ :
    (a b : ArenaId) (p q : PlayerId)
    → (same_arena a b && same_id p q) ≡ false
    → some (invitation_of a p) ≡ some (invitation_of b q)
    → ⊥
invitations_differ a b p q ne h = true≢false (
    sym (
      subst (λ b. (same_arena a b && same_id p q) ≡ true) (invitation_of_arena h)
        (subst (λ q. (same_arena a a && same_id p q) ≡ true) (invitation_of_player h)
          (rw (same_arena_refl a, same_id_refl p) refl)))
    ∙ ne)

retained_iff :
    (a b : ArenaId) (q : PlayerId) (id : InvitationId) (o : Option Invitation)
    (x : Option InvitationId)
    → (x ≡ some id) ↔ (o ≡ some (invitation_of b q))
    → ((if same_arena b a then none else x) ≡ some id) ↔ (retained a o ≡ some (invitation_of b q))
retained_iff a b q id none x c = (
  if_cases (λ y. y ≡ some id → none ≡ some (invitation_of b q)) (same_arena b a)
      (λ _ h. absurd (no_value refl h)) (λ _ h. c.0 h),
  (λ h. absurd (no_value refl h)),
)
retained_iff a b q id (some i) x c =
    if_cases
      (λ y. ((if same_arena b a then none else x) ≡ some id) ↔ (y ≡ some (invitation_of b q)))
      (same_arena i.arena_id a)
      (λ same. (
        if_cases (λ y. y ≡ some id → none ≡ some (invitation_of b q)) (same_arena b a)
            (λ _ h. absurd (no_value refl h))
            (λ ne h.
              absurd (true≢false (sym same ∙ ap (λ a'. same_arena a' a) (arena_of (c.0 h)) ∙ ne))),
        (λ h. absurd (no_value refl h)),
      ))
      (λ other. (
        if_cases (λ y. y ≡ some id → some i ≡ some (invitation_of b q)) (same_arena b a)
            (λ _ h. absurd (no_value refl h)) (λ _ h. c.0 h),
        (λ h. rw (sym (ap (λ a'. same_arena a' a) (arena_of h)) ∙ other) (c.1 h)),
      ))
  where
    arena_of : some i ≡ some (invitation_of b q) → i.arena_id ≡ b
    arena_of h = ap (λ i. i.arena_id) (Option.some-injective _ _ h)

module _ (repo : InvitationRepo) (creators : Creators) (c : AreConsistent repo creators) where
  pub AreConsistent-offer :
      (a : ArenaId) (p : PlayerId) (id : InvitationId)
      → creators a p ≡ none
      → repo id ≡ none
      → AreConsistent (insert repo id (invitation_of a p)) (set_creator creators a p (some id))
  AreConsistent-offer a p id lacks vacant b q j =
      set_creator_all
        (λ b q x. (x ≡ some j) ↔ (insert repo id (invitation_of a p) j ≡ some (invitation_of b q)))
        creators a p (some id)
        (insert_all (λ j y. (some id ≡ some j) ↔ (y ≡ some (invitation_of a p))) repo id
          (some (invitation_of a p)) ((λ _. refl), (λ _. refl))
          (λ j ne.
            ((λ h. absurd (ids_differ id j ne h)), (λ h. absurd (no_value lacks ((c a p j).1 h)))))
          j)
        (λ b q ne.
          insert_all (λ j y. (creators b q ≡ some j) ↔ (y ≡ some (invitation_of b q))) repo id
            (some (invitation_of a p))
            (
              (λ h. absurd (no_value vacant ((c b q id).0 h))),
              (λ h. absurd (invitations_differ a b p q ne h)),
            )
            (λ j _. c b q j) j)
        b q

  pub AreConsistent-remove :
      (a : ArenaId) (p : PlayerId) (id : InvitationId)
      → creators a p ≡ some id
      → AreConsistent (remove repo id) (set_creator creators a p none)
  AreConsistent-remove a p id has b q j =
      set_creator_all (λ b q x. (x ≡ some j) ↔ (remove repo id j ≡ some (invitation_of b q)))
        creators a p none
        (insert_all (λ j y. (none ≡ some j) ↔ (y ≡ some (invitation_of a p))) repo id none
          ((λ h. absurd (no_value refl h)), (λ h. absurd (no_value refl h)))
          (λ j ne. (
            (λ h. absurd (no_value refl h)),
            (λ h. absurd (ids_differ id j ne (sym has ∙ (c a p j).1 h))),
          ))
          j)
        (λ b q ne.
          insert_all (λ j y. (creators b q ≡ some j) ↔ (y ≡ some (invitation_of b q))) repo id none
            (
              (λ h.
                  absurd (invitations_differ a b p q ne (sym ((c a p id).0 has) ∙ (c b q id).0 h))),
              (λ h. absurd (no_value refl h)),
            )
            (λ j _. c b q j) j)
        b q

  pub AreConsistent-temporary :
      (id : InvitationId)
      → repo id ≡ none
      → AreConsistent (insert repo id (of_temporary id)) creators
  AreConsistent-temporary id vacant b q j =
      insert_all (λ j y. (creators b q ≡ some j) ↔ (y ≡ some (invitation_of b q))) repo id
        (some (of_temporary id))
        (
          (λ h. absurd (no_value vacant ((c b q id).0 h))),
          (λ h. absurd (no_value refl (ap (λ i. i.player_id) (Option.some-injective _ _ h)))),
        )
        (λ j _. c b q j) j

  pub AreConsistent-forget_arena_invitations :
      (a : ArenaId) → AreConsistent (forget_arena_invitations repo a) (without_arena creators a)
  unfolding forget_arena_invitations
  AreConsistent-forget_arena_invitations a b q id =
      retained_iff a b q id (repo id) (creators b q) (c b q id)
