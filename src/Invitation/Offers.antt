-- ===== src/Invitation/Offers.antt =====
-- What becomes of the invitations that clients create, in invitation_repo.rs.
use kodiak.Base.{
  ℕ, ◌≡◌, refl, sym, ap, subst, ◌∙◌, Bool, true, false, ◌||◌, inl, inr, Option, none, some,
  Option-cases, arith,
}
use mathlib.Core.Option
use kodiak.Ids.{PlayerId}
use kodiak.Ids.Arenas.{ArenaId, same_arena_refl, InvitationId, same_invitation_refl, generate}
use kodiak.Team.Model.{put}
use kodiak.Invitation.{
  InvitationRepo, client, bot, PlayerClientData, PlayerRepo, created, accepted, ok, err, Reply,
  accept, create, offer, accept_with, offered, forget, forget_player_invitation,
  forget_arena_invitations, no_such_invitation, governor, insert,
}
use kodiak.Invitation.Vacant.{generate_vacant-First}
use kodiak.Invitation.Consistency.{invitation_of}
use kodiak.Invitation.World.{World, IsConsistent}

-- A client that has accepted an invitation of a player.
abbrev pub accepting : PlayerClientData → InvitationId → PlayerId → PlayerClientData
accepting d id p = record {
  invitation = record d.invitation {
    invitation_accepted = some (record { invitation_id = id; player_id = p });
  };
  invited = true;
}

-- A client that has not got the invitation that it wanted, and has lost the one it had.
abbrev pub refused : PlayerClientData → PlayerClientData
refused d = record d { invitation = record d.invitation { invitation_accepted = none } }

or_false : (b : Bool) → (b || false) ≡ b
or_false b = ground arith

or_true : (b : Bool) → (b || true) ≡ true
or_true b = ground arith

accept_held :
    (repo : InvitationRepo) (id : InvitationId) (a : ArenaId) (p : PlayerId) (q : PlayerId)
    (players : PlayerRepo) (d : PlayerClientData)
    → repo id ≡ some (invitation_of a p)
    → players q ≡ some (client d)
    → accept repo q (some id) players
      ≡ (ok (accepted (some id)), put players q (some (client (accepting d id p))))
unfolding accept accept_with offered
accept_held repo id a p q players d held e = rw (accept, e, held, or_true d.invited) refl

accept_missing :
    (repo : InvitationRepo) (id : InvitationId) (q : PlayerId) (players : PlayerRepo)
    (d : PlayerClientData)
    → repo id ≡ none
    → players q ≡ some (client d)
    → accept repo q (some id) players
      ≡ (err no_such_invitation, put players q (some (client (refused d))))
unfolding accept accept_with offered
accept_missing repo id q players d missing e = rw (accept, e, missing, or_false d.invited) refl

abbrev created_id : Reply → Option InvitationId
created_id (ok (created id)) = some id
created_id (ok (accepted id)) = none
created_id (err e) = none

abbrev NoId : Reply → Type 0
NoId reply = created_id reply ≡ none

not_created : (reply : Reply) (id : InvitationId) → NoId reply → reply ≡ ok (created id) → ⊥
not_created reply id e h = Option.none-ne-some id (sym e ∙ ap created_id h)

created_eq : (id j : InvitationId) → ok (created id) ≡ ok (created j) → id ≡ j
created_eq id j h = Option.some-injective id j (ap created_id h)

module _ (w : World) (c : IsConsistent w) (a : ArenaId) (p : PlayerId) where
  abbrev Held : Reply × InvitationRepo × PlayerRepo → Type 0
  Held (reply, repo, players) =
      (id : InvitationId) → reply ≡ ok (created id) → repo id ≡ some (invitation_of a p)

  create-Held :
      (server_number : ℕ) (drawn : ℕ → ℕ)
      → Held (create w.repo p a server_number drawn (w.arenas a))
  unfolding create offer
  create-Held server_number drawn = elim (Option-cases (w.arenas a p)) [
    | inl e ↦ rw (create, e) (λ id h. absurd (not_created _ id refl h))
    | inr (bot, e) ↦ rw (create, e) (λ id h. absurd (not_created _ id refl h))
    | inr (client d, e) ↦ elim (Option-cases d.invitation.invitation_created) [
      | inr (id, has) ↦
          rw (create, e, has)
            λ j h.
              subst (λ j. w.repo j ≡ some (invitation_of a p)) (created_eq id j h)
                ((c a p id).0 (rw e has))
      | inl lacks ↦ elim (generate_vacant-First w.repo server_number drawn governor) [
        | inl (k, le, (taken, vacant), found) ↦
            rw (create, e, lacks, found)
              λ j h.
                subst
                  (λ j.
                    insert w.repo (generate server_number (drawn k)) (invitation_of a p) j
                    ≡ some (invitation_of a p))
                  (created_eq _ j h)
                  (rw (same_invitation_refl (generate server_number (drawn k))) refl)
        | inr (taken, found) ↦ rw (create, e, lacks, found) λ j h. absurd (not_created _ j refl h)
      ]
    ]
  ]

  -- Where an arena's player is told of an invitation that it has created, be it new or an earlier one,
  -- and the clients and the repository agree, any client of any arena that then accepts the id is told
  -- so, keeps the id with that player as its sender, and counts as invited.
  pub create-accept :
      (server_number : ℕ) (drawn : ℕ → ℕ) {repo : InvitationRepo} {players : PlayerRepo}
      {id : InvitationId}
      → create w.repo p a server_number drawn (w.arenas a) ≡ (ok (created id), repo, players)
      → (q : PlayerId) (others : PlayerRepo) (d : PlayerClientData) → others q ≡ some (client d)
      → accept repo q (some id) others
        ≡ (ok (accepted (some id)), put others q (some (client (accepting d id p))))
  create-accept server_number drawn {repo} {players} {id} e q others d there =
      accept_held repo id a p q others d (subst Held e (create-Held server_number drawn) id refl)
        there

  -- Once the client that has created an invitation is forgotten, or its arena has stopped, a client
  -- of any arena that accepts the id is refused, and is left with no accepted invitation.
  pub withdrawn-accept :
      (d : PlayerClientData) {id : InvitationId}
      → w.arenas a p ≡ some (client d)
      → d.invitation.invitation_created ≡ some id
      → (q : PlayerId) (others : PlayerRepo) (d' : PlayerClientData) → others q ≡ some (client d')
      → (accept (forget w.repo (w.arenas a) p (client d)).0 q (some id) others
          ≡ (err no_such_invitation, put others q (some (client (refused d')))))
        × (accept (forget_arena_invitations w.repo a) q (some id) others
            ≡ (err no_such_invitation, put others q (some (client (refused d')))))
  unfolding forget forget_player_invitation forget_arena_invitations
  withdrawn-accept d {id} e has q others d' there = (
    accept_missing _ id q others d' (rw (has, same_invitation_refl id) refl) there,
    accept_missing _ id q others d' (rw ((c a p id).0 (rw e has), same_arena_refl a) refl) there,
  )
