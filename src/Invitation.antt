-- ===== src/Invitation.antt =====
-- server/src/service/invitation_repo.rs: the invitations that all arenas of a server share, and what
-- a client keeps of them. The numbers that are drawn for ids are arguments.
pub mod Vacant
pub mod Consistency
pub mod World
pub mod Offers
mod Tests
use kodiak.Base.{
  ℕ, suc, zero, ◌≡◌, Bool, true, false, not, ◌||◌, Option, none, some, if◌then◌else◌, is_some,
}
use mathlib.Core.Option
use kodiak.Ids.{PlayerId}
use kodiak.Ids.Arenas.{
  InvitationId, generate, same_invitation, temporary, ArenaId, same_arena, default_scene,
}
use kodiak.Team.Model.{put}

pub record Invitation : Type 0 where
  pub arena_id : ArenaId
  -- nobody, for a temporary realm
  pub player_id : Option PlayerId

-- `HashMap<InvitationId, Invitation>`, as what it holds for each id.
abbrev pub InvitationRepo : Type 0
InvitationRepo = InvitationId → Option Invitation

abbrev pub insert : InvitationRepo → InvitationId → Invitation → InvitationRepo
insert repo id invitation j = if same_invitation id j then some invitation else repo j

abbrev pub remove : InvitationRepo → InvitationId → InvitationRepo
remove repo id j = if same_invitation id j then none else repo j

pub record InvitationDto : Type 0 where
  pub invitation_id : InvitationId
  pub player_id : PlayerId

pub record ClientInvitationData : Type 0 where
  pub invitation_accepted : Option InvitationDto
  pub invitation_created : Option InvitationId

-- What invitations touch of a client: its data, and the metric `invited`.
pub record PlayerClientData : Type 0 where
  pub invitation : ClientInvitationData
  pub invited : Bool

pub data Player : Type 0 where
  client : PlayerClientData → Player
  bot : Player

-- The players of an arena.
abbrev pub PlayerRepo : Type 0
PlayerRepo = PlayerId → Option Player

pub data InvitationRequest : Type 0 where
  create_one : InvitationRequest
  accept_one : Option InvitationId → InvitationRequest

pub data InvitationUpdate : Type 0 where
  created : InvitationId → InvitationUpdate
  accepted : Option InvitationId → InvitationUpdate

-- The messages of the errors.
pub data Refusal : Type 0 where
  no_req_player : Refusal
  only_clients_accept : Refusal
  only_clients_request : Refusal
  no_such_invitation : Refusal
  no_invitation_id : Refusal

pub data Reply : Type 0 where
  ok : InvitationUpdate → Reply
  err : Refusal → Reply

-- The loops that draw ids until one is vacant: a round, and one more for each step of the governor.
pub generate_vacant : InvitationRepo → ℕ → (ℕ → ℕ) → ℕ → Option InvitationId
generate_vacant repo server_number drawn zero =
    let id = generate server_number (drawn 0) in if is_some (repo id) then none else some id
generate_vacant repo server_number drawn (suc governor) =
    let id = generate server_number (drawn 0) in
    let rest = generate_vacant repo server_number (λ i. drawn (suc i)) governor in
    if is_some (repo id) then rest else some id

abbrev pub governor : ℕ
governor = 255

-- The invitation to a temporary realm.
abbrev pub of_temporary : InvitationId → Invitation
of_temporary id = record {
  arena_id = record { realm_id = temporary id; scene_id = default_scene };
  player_id = none;
}

pub prepare_temporary_invitation :
    InvitationRepo → ℕ → (ℕ → ℕ) → Option InvitationId × InvitationRepo
prepare_temporary_invitation repo server_number drawn =
    elim (generate_vacant repo server_number drawn governor) [
      | none ↦ (none, repo)
      | some id ↦ (some id, insert repo id (of_temporary id))
    ]

-- The player after `client.invitation.invitation_created = None`, and the invitations.
pub forget_player_invitation : InvitationRepo → Player → InvitationRepo × Player
forget_player_invitation repo bot = (repo, bot)
forget_player_invitation repo (client c) = elim c.invitation.invitation_created [
  | none ↦ (repo, client c)
  | some id ↦ (
    remove repo id,
    client (record c { invitation = record c.invitation { invitation_created = none } }),
  )
]

-- `PlayerRepo::forget`, of a player that exists.
pub forget : InvitationRepo → PlayerRepo → PlayerId → Player → InvitationRepo × PlayerRepo
unfolding forget_player_invitation
forget repo players player_id player =
    ((forget_player_invitation repo player).0, put players player_id none)

abbrev pub retained : ArenaId → Option Invitation → Option Invitation
retained arena_id none = none
retained arena_id (some i) = if same_arena i.arena_id arena_id then none else some i

pub forget_arena_invitations : InvitationRepo → ArenaId → InvitationRepo
forget_arena_invitations repo arena_id id = retained arena_id (repo id)

infixl 5 ◌>>=◌
abbrev ◌>>=◌ {ℓ κ} : {A : Type ℓ} {B : Type κ} → Option A → (A → Option B) → Option B
none >>= f = none
some a >>= f = f a

-- What a client accepts: the invitation, where it exists and is a player's.
pub offered : InvitationRepo → Option InvitationId → Option InvitationDto
offered repo invitation_id = do
  id ← invitation_id
  invitation ← repo id
  player_id ← invitation.player_id
  some (record { invitation_id = id; player_id = player_id })

pub accept_with : InvitationRepo → PlayerClientData → Option InvitationId → PlayerClientData
unfolding offered
accept_with repo c invitation_id =
    let dto = offered repo invitation_id in
    record {
      invitation = record c.invitation { invitation_accepted = dto };
      invited = c.invited || is_some dto;
    }

pub accept : InvitationRepo → PlayerId → Option InvitationId → PlayerRepo → Reply × PlayerRepo
unfolding offered accept_with
accept repo req_player_id invitation_id players = elim (players req_player_id) [
  | none ↦ (err no_req_player, players)
  | some bot ↦ (err only_clients_accept, players)
  | some (client c) ↦
      let dto = offered repo invitation_id in
      (
        if not (is_some invitation_id) || is_some dto
            then ok (accepted (Option.map (λ d. d.invitation_id) dto))
            else err no_such_invitation,
        put players req_player_id (some (client (accept_with repo c invitation_id))),
      )
]

-- A client's own invitation, in the repository and in the client.
pub offer :
    InvitationRepo
    → PlayerRepo
    → ArenaId
    → PlayerId
    → PlayerClientData
    → InvitationId
    → InvitationRepo × PlayerRepo
offer repo players arena_id req_player_id c id = (
  insert repo id (record { arena_id = arena_id; player_id = some req_player_id }),
  put players req_player_id (
      some
        (client (record c { invitation = record c.invitation { invitation_created = some id } }))),
)

pub create :
    InvitationRepo
    → PlayerId
    → ArenaId
    → ℕ
    → (ℕ → ℕ)
    → PlayerRepo
    → Reply × InvitationRepo × PlayerRepo
unfolding offer
create repo req_player_id arena_id server_number drawn players = elim (players req_player_id) [
  | none ↦ (err no_req_player, repo, players)
  | some bot ↦ (err only_clients_request, repo, players)
  | some (client c) ↦ elim c.invitation.invitation_created [
    | some id ↦ (ok (created id), repo, players)
    | none ↦ elim (generate_vacant repo server_number drawn governor) [
      | some id ↦ (
        ok (created id),
        (offer repo players arena_id req_player_id c id).0,
        (offer repo players arena_id req_player_id c id).1,
      )
      | none ↦ (err no_invitation_id, repo, players)
    ]
  ]
]

pub handle_invitation_request :
    InvitationRepo
    → PlayerId
    → InvitationRequest
    → ArenaId
    → ℕ
    → (ℕ → ℕ)
    → PlayerRepo
    → Reply × InvitationRepo × PlayerRepo
unfolding accept create
handle_invitation_request repo player_id (accept_one invitation_id) arena_id server drawn players =
    let (reply, players') = accept repo player_id invitation_id players in (reply, repo, players')
handle_invitation_request repo player_id create_one arena_id server_number drawn players =
    create repo player_id arena_id server_number drawn players
