-- ===== src/Ids/Arenas.antt =====
-- plasma_protocol/src/ids (game.rs, realm.rs, scene.rs, arena.rs): the ids of invitations and arenas,
-- and when two are the same.
use kodiak.Base.{
  ℕ, ◌%◌, ◌^◌, ◌≡◌, refl, ap, ap₂, arith, Bool, true, false, ◌&&◌, Option, none, some, List, [],
  ◌∷◌, ◌==◌, ==_iff,
}

pub record InvitationId : Type 0 where
  pub server_number : ℕ
  pub number : ℕ

-- `InvitationId::generate`, with the number that is drawn.
unfoldable pub generate : ℕ → ℕ → InvitationId
generate server_number drawn = record { server_number = server_number; number = drawn % 2 ^ 16 }

abbrev pub same_invitation : InvitationId → InvitationId → Bool
same_invitation a b = a.server_number == b.server_number && a.number == b.number

-- A name of a realm is its bytes.
pub data RealmId : Type 0 where
  named : List ℕ → RealmId
  public_default : RealmId
  temporary : InvitationId → RealmId

same_bytes : List ℕ → List ℕ → Bool
same_bytes [] [] = true
same_bytes (a ∷ more) (b ∷ bs) = a == b && same_bytes more bs
same_bytes _ _ = false

unfoldable pub same_realm : RealmId → RealmId → Bool
unfolding same_bytes
same_realm (named a) (named b) = same_bytes a b
same_realm public_default public_default = true
same_realm (temporary a) (temporary b) = same_invitation a b
same_realm _ _ = false

pub record SceneId : Type 0 where
  pub tier_number : Option ℕ
  pub instance_number : ℕ

unfoldable pub same_tier : Option ℕ → Option ℕ → Bool
same_tier none none = true
same_tier (some a) (some b) = a == b
same_tier _ _ = false

-- `SceneId::default()`
abbrev pub default_scene : SceneId
default_scene = record { tier_number = none; instance_number = 0 }

pub record ArenaId : Type 0 where
  pub realm_id : RealmId
  pub scene_id : SceneId

unfoldable pub same_arena : ArenaId → ArenaId → Bool
unfolding same_realm same_tier
same_arena a b =
    same_realm a.realm_id b.realm_id
    && same_tier a.scene_id.tier_number b.scene_id.tier_number
    && a.scene_id.instance_number == b.scene_id.instance_number

pub same_invitation_refl : (a : InvitationId) → same_invitation a a ≡ true
same_invitation_refl a = ground arith

pub same_invitation-eq : (a b : InvitationId) → same_invitation a b ≡ true → a ≡ b
same_invitation-eq a b e =
    let s : a.server_number ≡ b.server_number = ground arith in
    let n : a.number ≡ b.number = ground arith in λ i. record { server_number = s i; number = n i }

and_true : (b c : Bool) → (b && c) ≡ true → (b ≡ true) × (c ≡ true)
and_true true true e = (refl, refl)
and_true true false e = (refl, e)
and_true false c e = absurd (ground arith)

same_bytes_refl : (a : List ℕ) → same_bytes a a ≡ true
unfolding same_bytes
same_bytes_refl [] = refl
same_bytes_refl (a ∷ more) = ground (arith, same_bytes_refl more)

same_bytes-eq : (a b : List ℕ) → same_bytes a b ≡ true → a ≡ b
unfolding same_bytes
same_bytes-eq [] [] e = refl
same_bytes-eq [] (b ∷ bs) e = ground arith
same_bytes-eq (a ∷ more) [] e = ground arith
same_bytes-eq (a ∷ more) (b ∷ bs) e =
    let (here, there) = and_true (a == b) (same_bytes more bs) e in
    ap₂ (λ x xs. x ∷ xs) ((==_iff a b).0 here) (same_bytes-eq more bs there)

same_realm_refl : (a : RealmId) → same_realm a a ≡ true
unfolding same_realm
same_realm_refl (named a) = same_bytes_refl a
same_realm_refl public_default = refl
same_realm_refl (temporary a) = same_invitation_refl a

same_realm-eq : (a b : RealmId) → same_realm a b ≡ true → a ≡ b
unfolding same_realm
same_realm-eq (named a) (named b) e = ap named (same_bytes-eq a b e)
same_realm-eq public_default public_default e = refl
same_realm-eq (temporary a) (temporary b) e = ap temporary (same_invitation-eq a b e)
same_realm-eq (named a) public_default e = ground arith
same_realm-eq (named a) (temporary b) e = ground arith
same_realm-eq public_default (named b) e = ground arith
same_realm-eq public_default (temporary b) e = ground arith
same_realm-eq (temporary a) (named b) e = ground arith
same_realm-eq (temporary a) public_default e = ground arith

same_tier_refl : (a : Option ℕ) → same_tier a a ≡ true
unfolding same_tier
same_tier_refl none = refl
same_tier_refl (some a) = ground arith

same_tier-eq : (a b : Option ℕ) → same_tier a b ≡ true → a ≡ b
unfolding same_tier
same_tier-eq none none e = refl
same_tier-eq (some a) (some b) e = ap some ((==_iff a b).0 e)
same_tier-eq none (some b) e = ground arith
same_tier-eq (some a) none e = ground arith

pub same_arena_refl : (a : ArenaId) → same_arena a a ≡ true
unfolding same_arena
same_arena_refl a =
    rw (same_realm_refl a.realm_id, same_tier_refl a.scene_id.tier_number) (ground arith)

pub same_arena-eq : (a b : ArenaId) → same_arena a b ≡ true → a ≡ b
unfolding same_arena
same_arena-eq a b e =
    let (realm_tier, inst) =
      and_true _ (a.scene_id.instance_number == b.scene_id.instance_number) e in
    let (realm, tier) = and_true (same_realm a.realm_id b.realm_id) _ realm_tier in
    let r = same_realm-eq _ _ realm in
    let t = same_tier-eq _ _ tier in
    let n = (==_iff _ _).0 inst in
    λ i. record { realm_id = r i; scene_id = record { tier_number = t i; instance_number = n i } }
