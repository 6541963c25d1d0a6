-- ===== src/Invitation/World.antt =====
-- The invitations of a server and the players of its arenas, under the operations of
-- invitation_repo.rs in any order: requests, players that come and go (player_repo.rs), new temporary
-- realms (client_actlet.rs), and arenas that stop with their players (realm_repo.rs).
use kodiak.Base.{
  ℕ, ◌≡◌, refl, sym, subst, fun_ext, ◌∙◌, Bool-cases, inl, inr, Option, none, some, if◌then◌else◌,
  Option-cases,
}
use mathlib.Core.Option
use kodiak.Ids.{PlayerId}
use kodiak.Ids.Arenas.{ArenaId, InvitationId, same_arena, same_arena_refl, same_arena-eq}
use kodiak.Team.{same_id}
use kodiak.Team.Model.{put}
use kodiak.Invitation.{
  InvitationRepo, Player, client, bot, PlayerRepo, InvitationRequest, create_one, accept_one, Reply,
  offer, accept, accept_with, create, handle_invitation_request, forget, forget_player_invitation,
  forget_arena_invitations, prepare_temporary_invitation, governor,
}
use kodiak.Invitation.Vacant.{generate_vacant-First, prepare_temporary_invitation-First}
use kodiak.Invitation.Consistency.{
  created_by, Creators, AreConsistent, set_creator, set_creator_all, without_arena,
  AreConsistent-offer, AreConsistent-remove, AreConsistent-temporary,
  AreConsistent-forget_arena_invitations,
}

abbrev pub Arenas : Type 0
Arenas = ArenaId → PlayerRepo

abbrev pub set_arena : Arenas → ArenaId → PlayerRepo → Arenas
set_arena arenas a players b = if same_arena a b then players else arenas b

-- An arena that stops takes its players along.
abbrev pub stop : Arenas → ArenaId → Arenas
stop arenas a b = if same_arena b a then (λ p. none) else arenas b

abbrev pub creators : Arenas → Creators
creators arenas a p = created_by (arenas a p)

pub record World : Type 0 where
  pub repo : InvitationRepo
  pub arenas : Arenas

abbrev pub new_world : World
new_world = record { repo = λ id. none; arenas = λ a p. none }

abbrev pub IsConsistent : World → Type 0
IsConsistent w = AreConsistent w.repo (creators w.arenas)

abbrev pub world_of : World → ArenaId → InvitationRepo × PlayerRepo → World
world_of w a (repo, players) = record { repo = repo; arenas = set_arena w.arenas a players }

abbrev pub answered : Reply × InvitationRepo × PlayerRepo → InvitationRepo × PlayerRepo
answered (reply, repo, players) = (repo, players)

abbrev prepared_repo : Option InvitationId × InvitationRepo → InvitationRepo
prepared_repo (id, repo) = repo

pub data Reachable : World → Type 0 where
  start : Reachable new_world
  -- a request of a player
  requested :
      {w : World} (a : ArenaId) (p : PlayerId) (request : InvitationRequest) (server_number : ℕ)
      (drawn : ℕ → ℕ)
      → Reachable w
      → Reachable (
          world_of w a (
            answered
              (handle_invitation_request w.repo p request a server_number drawn (w.arenas a))))
  -- a new temporary realm
  prepared :
      {w : World} (server_number : ℕ) (drawn : ℕ → ℕ)
      → Reachable w
      → Reachable (record w {
        repo = prepared_repo (prepare_temporary_invitation w.repo server_number drawn);
      })
  -- a new player
  entered :
      {w : World} (a : ArenaId) (p : PlayerId) (player : Player)
      → w.arenas a p ≡ none
      → created_by (some player) ≡ none
      → Reachable w
      → Reachable (world_of w a (w.repo, put (w.arenas a) p (some player)))
  -- a player that is forgotten
  forgotten :
      {w : World} (a : ArenaId) (p : PlayerId) (player : Player)
      → w.arenas a p ≡ some player
      → Reachable w
      → Reachable (world_of w a (forget w.repo (w.arenas a) p player))
  -- an arena that stops
  stopped :
      {w : World} (a : ArenaId)
      → Reachable w
      → Reachable (record { repo = forget_arena_invitations w.repo a; arenas = stop w.arenas a })

creators-put :
    (arenas : Arenas) (a : ArenaId) (p : PlayerId) (o : Option Player) (b : ArenaId) (q : PlayerId)
    → set_creator (creators arenas) a p (created_by o) b q
      ≡ creators (set_arena arenas a (put (arenas a) p o)) b q
creators-put arenas a p o b q = elim (Bool-cases (same_arena a b)) [
  | inl e ↦
      subst
        (λ b.
          set_creator (creators arenas) a p (created_by o) b q
          ≡ creators (set_arena arenas a (put (arenas a) p o)) b q)
        (same_arena-eq a b e)
        (elim (Bool-cases (same_id p q)) [
          | inl s ↦ rw (same_arena_refl a, s) refl
          | inr s ↦ rw (same_arena_refl a, s) refl
        ])
  | inr e ↦ rw e refl
]

creators-same :
    (arenas : Arenas) (a : ArenaId) (b : ArenaId) (q : PlayerId)
    → creators arenas b q ≡ creators (set_arena arenas a (arenas a)) b q
creators-same arenas a b q = elim (Bool-cases (same_arena a b)) [
  | inl e ↦
      subst (λ b. creators arenas b q ≡ creators (set_arena arenas a (arenas a)) b q)
        (same_arena-eq a b e) (rw (same_arena_refl a) refl)
  | inr e ↦ rw e refl
]

creators-stop :
    (arenas : Arenas) (a : ArenaId) (b : ArenaId) (q : PlayerId)
    → without_arena (creators arenas) a b q ≡ creators (stop arenas a) b q
creators-stop arenas a b q = elim (Bool-cases (same_arena b a)) [
  | inl e ↦ rw e refl
  | inr e ↦ rw e refl
]

set_creator-same :
    (cs : Creators) (a : ArenaId) (p : PlayerId) (v : Option InvitationId)
    → cs a p ≡ v
    → (b : ArenaId) (q : PlayerId) → cs b q ≡ set_creator cs a p v b q
set_creator-same cs a p v h = set_creator_all (λ b q x. cs b q ≡ x) cs a p v h (λ b q _. refl)

AreConsistent-ext :
    (repo : InvitationRepo) (cs cs' : Creators)
    → ((b : ArenaId) (q : PlayerId) → cs b q ≡ cs' b q)
    → AreConsistent repo cs
    → AreConsistent repo cs'
AreConsistent-ext repo cs cs' e = subst (AreConsistent repo) (fun_ext λ b. fun_ext (e b))

module _ (repo : InvitationRepo) (arenas : Arenas) (c : AreConsistent repo (creators arenas)) where
  abbrev Keeps : ArenaId → InvitationRepo × PlayerRepo → Type 0
  Keeps a (repo', players) = AreConsistent repo' (creators (set_arena arenas a players))

  kept_same : (a : ArenaId) → Keeps a (repo, arenas a)
  kept_same a = AreConsistent-ext repo _ _ (creators-same arenas a) c

  -- A player is written who has the same invitation as before.
  kept_put :
      (a : ArenaId) (p : PlayerId) (o : Option Player)
      → created_by (arenas a p) ≡ created_by o
      → Keeps a (repo, put (arenas a) p o)
  kept_put a p o e =
      AreConsistent-ext repo _ _
        (λ b q.
          set_creator-same (creators arenas) a p (created_by o) e b q
          ∙ creators-put arenas a p o b q)
        c

  accept-Keeps :
      (a : ArenaId) (p : PlayerId) (id : Option InvitationId)
      → Keeps a (repo, (accept repo p id (arenas a)).1)
  unfolding accept accept_with
  accept-Keeps a p id = elim (Option-cases (arenas a p)) [
    | inl e ↦ rw (accept, e) (kept_same a)
    | inr (bot, e) ↦ rw (accept, e) (kept_same a)
    | inr (client d, e) ↦
        rw (accept, e) (kept_put a p (some (client (accept_with repo d id))) (rw e refl))
  ]

  create-Keeps :
      (a : ArenaId) (p : PlayerId) (server_number : ℕ) (drawn : ℕ → ℕ)
      → Keeps a (answered (create repo p a server_number drawn (arenas a)))
  unfolding create offer
  create-Keeps a p server_number drawn = elim (Option-cases (arenas a p)) [
    | inl e ↦ rw (create, e) (kept_same a)
    | inr (bot, e) ↦ rw (create, e) (kept_same a)
    | inr (client d, e) ↦ elim (Option-cases d.invitation.invitation_created) [
      | inr (id, has) ↦ rw (create, e, has) (kept_same a)
      | inl lacks ↦ elim (generate_vacant-First repo server_number drawn governor) [
        | inl (k, le, (taken, vacant), found) ↦
            rw (create, e, lacks, found)
              (AreConsistent-ext _ _ _ (creators-put arenas a p _)
                (AreConsistent-offer repo (creators arenas) c a p _ (rw e lacks) vacant))
        | inr (taken, found) ↦ rw (create, e, lacks, found) (kept_same a)
      ]
    ]
  ]

  forget-Keeps :
      (a : ArenaId) (p : PlayerId) (player : Player)
      → arenas a p ≡ some player
      → Keeps a (forget repo (arenas a) p player)
  unfolding forget forget_player_invitation
  forget-Keeps a p bot e = kept_put a p none (rw e refl)
  forget-Keeps a p (client d) e = elim (Option-cases d.invitation.invitation_created) [
    | inl lacks ↦ rw lacks (kept_put a p none (rw e lacks))
    | inr (id, has) ↦ rw has (
        AreConsistent-ext _ _ _ (creators-put arenas a p none)
          (AreConsistent-remove repo (creators arenas) c a p id (rw e has)))
  ]

  prepared-AreConsistent :
      (server_number : ℕ) (drawn : ℕ → ℕ)
      → AreConsistent
          (prepared_repo (prepare_temporary_invitation repo server_number drawn))
          (creators arenas)
  prepared-AreConsistent server_number drawn =
      elim (prepare_temporary_invitation-First repo server_number drawn) [
        | inl (k, le, (taken, vacant), e) ↦
            rw e (AreConsistent-temporary repo (creators arenas) c _ vacant)
        | inr (taken, e) ↦ rw e c
      ]

  handle_invitation_request-Keeps :
      (a : ArenaId) (p : PlayerId) (request : InvitationRequest) (server_number : ℕ) (drawn : ℕ → ℕ)
      → Keeps a
          (answered (handle_invitation_request repo p request a server_number drawn (arenas a)))
  unfolding handle_invitation_request
  handle_invitation_request-Keeps a p (accept_one id) server_number drawn = accept-Keeps a p id
  handle_invitation_request-Keeps a p create_one server_number drawn =
      create-Keeps a p server_number drawn

-- However requests, players that come and go, temporary realms and arenas that stop follow each
-- other, a client keeps an id as its own invitation exactly if the repository holds, at that id, an
-- invitation of that client to its arena.
pub Reachable-IsConsistent : (w : World) → Reachable w → IsConsistent w
Reachable-IsConsistent _ start =
    λ a p id. ((λ h. absurd (Option.none-ne-some _ h)), (λ h. absurd (Option.none-ne-some _ h)))
Reachable-IsConsistent _ (requested {w} a p request server_number drawn r) =
    handle_invitation_request-Keeps w.repo w.arenas (Reachable-IsConsistent w r) a p request
      server_number drawn
Reachable-IsConsistent _ (prepared {w} server_number drawn r) =
    prepared-AreConsistent w.repo w.arenas (Reachable-IsConsistent w r) server_number drawn
Reachable-IsConsistent _ (entered {w} a p player fresh none_yet r) =
    kept_put w.repo w.arenas (Reachable-IsConsistent w r) a p (some player)
      (rw fresh (sym none_yet))
Reachable-IsConsistent _ (forgotten {w} a p player e r) =
    forget-Keeps w.repo w.arenas (Reachable-IsConsistent w r) a p player e
Reachable-IsConsistent _ (stopped {w} a r) = AreConsistent-ext _ _ _ (creators-stop w.arenas a) (
    AreConsistent-forget_arena_invitations w.repo (creators w.arenas) (Reachable-IsConsistent w r)
      a)
