-- ===== src/Lockstep/Server/Players.antt =====
-- What the server's operations on a player do to the next tick's players.
use mathlib.Core.Option
use kodiak.Base.{
  ◌≡◌, ◌∙◌, sym, ap, refl, Bool, true, false, Option, none, some, List, Option-cases, Bool-cases,
  inl, inr, ◌==◌, ==_iff, if◌then◌else◌,
}
use kodiak.Collection.Arena
use kodiak.Collection.Arena.{ArenaMap}
use kodiak.Collection.Arena.Key.{nonzero_key, NonZeroU16_eq}
use kodiak.Lockstep.Overwrites
use kodiak.Lockstep.Overwrites.{Rising, insert-Rising}
use kodiak.Lockstep.World.{PlayerId, LockstepWorld}
use kodiak.Lockstep.Server.{
  LockstepServer, lockstep_get, lockstep_mut, player, set_player, modify_existing_player,
}

module _ {V1 V2 : Type 0} where
  -- Writing through the reference is writing to the map of overwrites.
  pub get-lockstep_mut :
      (map : ArenaMap PlayerId V1) (f : V1 → V2) (os : List (PlayerId × Option V2)) (k j : PlayerId)
      (v : Option V2)
      → Overwrites.get (Overwrites.insert (lockstep_mut map f os k).0 k v) j
        ≡ (if k.0 == j.0 then some v else Overwrites.get os j)
  unfolding lockstep_mut
  get-lockstep_mut map f os k j v = elim (Option-cases (Overwrites.get os k)) [
    | inr (o, e) ↦ rw (e, lockstep_mut) (Overwrites.get-insert os k j v)
    | inl e ↦
        rw (e, lockstep_mut)
          (Overwrites.get-insert (Overwrites.insert os k (Option.map f (Arena.get map k))) k j v
            ∙ skip (k.0 == j.0) _ _ _
                (Overwrites.get-insert os k j (Option.map f (Arena.get map k))))
  ]
    where
      skip :
          (b : Bool) (x y z : Option (Option V2))
          → z ≡ (if b then x else y)
          → (if b then some v else z) ≡ (if b then some v else y)
      skip true x y z h = refl
      skip false x y z h = h

  pub lockstep_mut-Rising :
      (map : ArenaMap PlayerId V1) (f : V1 → V2) (os : List (PlayerId × Option V2)) (k : PlayerId)
      → Rising 0 os
      → Rising 0 (lockstep_mut map f os k).0
  unfolding lockstep_mut
  lockstep_mut-Rising map f os k r = elim (Option-cases (Overwrites.get os k)) [
    | inr (o, e) ↦ rw (e, lockstep_mut) r
    | inl e ↦ rw (e, lockstep_mut) (insert-Rising os k (Option.map f (Arena.get map k)) r)
  ]

module _ (W : LockstepWorld) where
  -- After a write, that player reads as what was written, and every other player as before.
  pub player-set_player :
      (s : LockstepServer W) (id j : PlayerId) (v : Option W.Player)
      → player W (set_player W s id v) j ≡ (if id.0 == j.0 then v else player W s j)
  unfolding player set_player lockstep_get
  player-set_player s id j v =
      ap
        (λ o. elim o [
          | some p ↦ p
          | none ↦ Option.map (λ p. p.inner) (Arena.get s.real.context.players j)
        ])
        (get-lockstep_mut s.real.context.players (λ p. p.inner) s.current.overwrites id j v)
      ∙ read (id.0 == j.0) (Overwrites.get s.current.overwrites j) _
    where
      read :
          (b : Bool) (o : Option (Option W.Player)) (x : Option W.Player)
          → elim (if b then some v else o) [ some p ↦ p | none ↦ x ]
            ≡ (if b then v else elim o [ some p ↦ p | none ↦ x ])
      read true o x = refl
      read false o x = refl

  -- A change of an existing player changes that player and no other; an absent player stays absent.
  pub player-modify_existing_player :
      (s : LockstepServer W) (id j : PlayerId) (f : W.Player → W.Player)
      → player W (modify_existing_player W s id f) j
        ≡ (if id.0 == j.0 then Option.map f (player W s id) else player W s j)
  unfolding modify_existing_player
  player-modify_existing_player s id j f = elim (Option-cases (player W s id)) [
    | inl e ↦
        rw (e, modify_existing_player)
          (elim (Bool-cases (id.0 == j.0)) [
            | inl h ↦ rw h (ap (player W s) (sym (NonZeroU16_eq id j ((==_iff id.0 j.0).0 h))) ∙ e)
            | inr h ↦ rw h
          ])
    | inr (p, e) ↦ rw (e, modify_existing_player) (player-set_player s id j (some (f p)))
  ]
