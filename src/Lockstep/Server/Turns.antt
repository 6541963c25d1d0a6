-- ===== src/Lockstep/Server/Turns.antt =====
-- The server from its start on: its steps, and the states that they reach.
use kodiak.Base.{◌≡◌, ◌∙◌, sym, subst, Option, some, List, returns, Returns, Safely}
use kodiak.Collection.Arena.Key.{nonzero_key}
use kodiak.Lockstep.World.{PlayerId, LockstepWorld}
use kodiak.Lockstep.State.{start}
use kodiak.Lockstep.Input.{LockstepInputWindow}
use kodiak.Lockstep.ClientData.{LockstepClientData}
use kodiak.Lockstep.Server.{
  LockstepServer, set_player, modify_existing_player, player_left, request, new, update,
  post_update,
}
use kodiak.Lockstep.Server.Validity.{
  IsValid, set_player-IsValid, modify_existing_player-IsValid, player_left-IsValid, request-IsValid,
  update-IsValid, fresh-IsValid, post_update-Returns,
}

module _ (W : LockstepWorld) where
  -- What happens to a server between two ticks, and the tick itself. `player_mut` is written with a
  -- player; `player_left` is what takes one away.
  pub data Step : LockstepServer W → LockstepServer W → Type 0 where
    set :
        (s : LockstepServer W) (id : PlayerId) (p : W.Player) → Step s (set_player W s id (some p))
    modified :
        (s : LockstepServer W) (id : PlayerId) (f : W.Player → W.Player)
        → Step s (modify_existing_player W s id f)
    left : (s : LockstepServer W) (id : PlayerId) → Step s (player_left W s id)
    requested :
        (s : LockstepServer W) (id : PlayerId) (w : LockstepInputWindow W.Input)
        (client : Option (LockstepClientData W))
        (r : LockstepServer W × Option (LockstepClientData W))
        → request W s id w client ≡ returns r
        → Step s r.0
    updated :
        (s : LockstepServer W) (clients : List (PlayerId × LockstepClientData W))
        → Step s (update W s clients).0
    ticked_over :
        (s : LockstepServer W) (r : LockstepServer W × List W.Info)
        → post_update W s ≡ returns r
        → Step s r.0

  pub data Reachable (world : W.World) : LockstepServer W → Type 0 where
    started : Reachable world (new W world)
    stepped : (s s' : LockstepServer W) → Reachable world s → Step s s' → Reachable world s'

  Step-IsValid : (s s' : LockstepServer W) → Step s s' → IsValid W s → IsValid W s'
  Step-IsValid s _ (set _ id p) valid = set_player-IsValid W s id p valid
  Step-IsValid s _ (modified _ id f) valid = modify_existing_player-IsValid W s id f valid
  Step-IsValid s _ (left _ id) valid = player_left-IsValid W s id valid
  Step-IsValid s _ (requested _ id w client r e) valid =
      subst (Safely (λ r. IsValid W r.0)) e (request-IsValid W s id w client valid)
  Step-IsValid s _ (updated _ clients) valid = update-IsValid W s clients valid
  Step-IsValid s _ (ticked_over _ r e) valid =
      let (r', e', v) = post_update-Returns W s valid in
      subst (Safely (λ r. IsValid W r.0)) (sym e' ∙ e) v.0

  -- Every state that a new server's steps reach is valid: its map of inputs is valid, its
  -- overwrites rise, and each input of the next tick is that of a player who will be there.
  pub Reachable-IsValid : (world : W.World) (s : LockstepServer W) → Reachable world s → IsValid W s
  unfolding new
  Reachable-IsValid world _ started = fresh-IsValid W (start W world)
  Reachable-IsValid world s (stepped s0 _ r step) =
      Step-IsValid s0 s step (Reachable-IsValid world s0 r)

  -- From a state that a new server's steps reach, `post_update` returns, and the state it leaves
  -- is reachable, too.
  pub Reachable-post_update :
      (world : W.World) (s : LockstepServer W)
      → Reachable world s
      → Returns (λ r. Reachable world r.0) (post_update W s)
  Reachable-post_update world s reached =
      let (r, e, v) = post_update-Returns W s (Reachable-IsValid world s reached) in
      (r, e, stepped s r.0 reached (ticked_over s r e))
