-- ===== src/Invitation/Tests.antt =====
-- One arena with two clients, on server 1, whose random numbers are 7, 8, 9, ….
use kodiak.Base.{subst, ℕ, ◌+◌, ◌<◌, ◌≡◌, refl, arith, false, ◌⊎◌, none, some}
use kodiak.Ids.{PlayerId}
use kodiak.Ids.Arenas.{
  same_arena, same_realm, same_tier, ArenaId, public_default, default_scene, InvitationId, generate,
}
use kodiak.Team.Model.{put}
use kodiak.Invitation.{
  offer, generate_vacant, handle_invitation_request, PlayerClientData, PlayerRepo, InvitationRepo,
  client, create_one, created, accepted, ok, err, create, accept, forget, forget_arena_invitations,
  insert, of_temporary, prepare_temporary_invitation, no_such_invitation,
}
use kodiak.Invitation.Vacant.{First, Taken, prepare_temporary_invitation-First}
use kodiak.Invitation.Consistency.{invitation_of}
use kodiak.Invitation.World.{
  World, Reachable, start, entered, requested, IsConsistent, new_world, Reachable-IsConsistent,
  world_of, answered,
}
use kodiak.Invitation.Offers.{accepting, refused, create-accept, withdrawn-accept}

abbrev arena : ArenaId
arena = record { realm_id = public_default; scene_id = default_scene }

abbrev one : PlayerId
one = (1, (omega arith, omega arith))

abbrev three : PlayerId
three = (3, (omega arith, omega arith))

abbrev fresh : PlayerClientData
fresh = record {
  invitation = record { invitation_accepted = none; invitation_created = none };
  invited = false;
}

abbrev drawn : ℕ → ℕ
drawn i = i + 7

abbrev seven : InvitationId
seven = record { server_number = 1; number = 7 }

abbrev inviting : PlayerClientData
inviting = record fresh { invitation = record fresh.invitation { invitation_created = some seven } }

abbrev players : PlayerRepo
players = put (λ p. none) one (some (client fresh))

abbrev entered_world : World
entered_world = world_of new_world arena ((λ id. none), players)

abbrev invited_repo : InvitationRepo
invited_repo = insert (λ id. none) seven (invitation_of arena one)

abbrev inviting_players : PlayerRepo
inviting_players = put players one (some (client inviting))

abbrev invited_world : World
invited_world = world_of entered_world arena (invited_repo, inviting_players)

entered_world-Reachable : Reachable entered_world
entered_world-Reachable = entered arena one (client fresh) refl refl start

created_there :
    create entered_world.repo one arena 1 drawn (entered_world.arenas arena)
    ≡ (ok (created seven), invited_repo, inviting_players)
unfolding create offer generate_vacant generate same_arena same_realm same_tier
created_there = refl

invited_world-Reachable : Reachable invited_world
unfolding handle_invitation_request
invited_world-Reachable =
    subst (λ r. Reachable (world_of entered_world arena (answered r))) created_there
      (requested arena one create_one 1 drawn entered_world-Reachable)

Reachable-IsConsistent_example : IsConsistent invited_world
Reachable-IsConsistent_example = Reachable-IsConsistent invited_world invited_world-Reachable

-- The first number that is drawn is in use, the second is not.
prepare_temporary_invitation-First_example :
    ((k : ℕ) × (k < 256)
      × First invited_repo 1 drawn k
      × (prepare_temporary_invitation invited_repo 1 drawn ≡ (
        some (generate 1 (drawn k)),
        insert invited_repo (generate 1 (drawn k)) (of_temporary (generate 1 (drawn k))),
      )))
    ⊎ (Taken invited_repo 1 drawn 256
        × (prepare_temporary_invitation invited_repo 1 drawn ≡ (none, invited_repo)))
prepare_temporary_invitation-First_example = prepare_temporary_invitation-First invited_repo 1 drawn

abbrev others : PlayerRepo
others = put players three (some (client fresh))

create-accept_example :
    accept invited_repo three (some seven) others
    ≡ (ok (accepted (some seven)), put others three (some (client (accepting fresh seven one))))
create-accept_example =
    create-accept entered_world (Reachable-IsConsistent entered_world entered_world-Reachable) arena
      one 1 drawn created_there three others fresh refl

withdrawn-accept_example :
    (accept
        (forget invited_repo (invited_world.arenas arena) one (client inviting)).0
        three
        (some seven)
        others
      ≡ (err no_such_invitation, put others three (some (client (refused fresh)))))
    × (accept (forget_arena_invitations invited_repo arena) three (some seven) others
        ≡ (err no_such_invitation, put others three (some (client (refused fresh)))))
unfolding same_arena same_realm same_tier
withdrawn-accept_example =
    withdrawn-accept invited_world (Reachable-IsConsistent invited_world invited_world-Reachable)
      arena one inviting refl refl three others fresh refl
