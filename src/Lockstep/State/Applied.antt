-- ===== src/Lockstep/State/Applied.antt =====
-- `Lockstep::tick`, step by step: what becomes of each player.
use mathlib.Core.Option
use kodiak.Base.{
  ℕ, suc, ◌≡◌, ◌∙◌, sym, ap, refl, arith, true, Option, none, some, List, [], ◌∷◌, if◌then◌else◌,
  ◌==◌, ==_iff, is_some, Option-cases, Bool-cases, inl, inr, All, All-mono, Returns,
}
use kodiak.Collection.Arena
use kodiak.Collection.Arena.{ArenaMap, contains, modify, insert, remove}
use kodiak.Collection.Arena.Key.{nonzero_key, nonzero_to_index, NonZeroU16_eq}
use kodiak.Collection.Arena.Lookup.{get-insert, get-remove}
use kodiak.Collection.Arena.Modify.{get-modify, contains_lem, contains-modify}
use kodiak.Collection.Arena.Iterate.{Ascending, find, find_below}
use kodiak.Lockstep.Overwrites
use kodiak.Lockstep.Overwrites.{Rising, get_below}
use kodiak.Lockstep.World.{PlayerId, LockstepWorld, LockstepPlayer, LockstepPhase}
use kodiak.Lockstep.State.{Players, overwrite, apply_overwrites, apply_inputs}

-- Two ids have one index exactly if they are one number.
pub index_eq : (j k : PlayerId) → (nonzero_to_index j == nonzero_to_index k) ≡ (j.0 == k.0)
unfolding nonzero_to_index
index_eq j k = ground (arith, j.1.0, k.1.0)

id_of_index : (j k : PlayerId) → (nonzero_to_index j == nonzero_to_index k) ≡ true → j ≡ k
id_of_index j k h = NonZeroU16_eq j k ((==_iff j.0 k.0).0 (sym (index_eq j k) ∙ h))

module _ (W : LockstepWorld) where
  -- The game's state of a player.
  abbrev pub inner_of : Players W → PlayerId → Option W.Player
  inner_of players id = Option.map (λ p. p.inner) (Arena.get players id)

  inner_of-overwrite :
      (players : Players W) (j id : PlayerId) (o : Option W.Player)
      → inner_of (overwrite W players j o) id ≡ (if j.0 == id.0 then o else inner_of players id)
  unfolding overwrite
  inner_of-overwrite players j id none =
      rw ((get-remove players j id).0, index_eq j id) (ground arith)
  inner_of-overwrite players j id (some inner) = elim (Option-cases (Arena.get players j)) [
    | inl e ↦
        rw
          (
            contains_lem players j,
            e,
            get-insert players j id (record { inner = inner; input = W.default_input }),
            index_eq j id,
          )
          (ground arith)
    | inr (p, e) ↦
        rw
          (
            contains_lem players j,
            e,
            get-modify players j id
                (λ (q : LockstepPlayer W.Input W.Player). record q { inner = inner }),
            e,
            index_eq j id,
          )
          (ground arith)
  ]

  pub inner_of-apply_overwrites :
      (players : Players W) (os : List (PlayerId × Option W.Player)) (id : PlayerId) (n : ℕ)
      → Rising n os
      → inner_of (apply_overwrites W players os) id
        ≡ elim (Overwrites.get os id) [ some o ↦ o | none ↦ inner_of players id ]
  unfolding apply_overwrites Overwrites.get
  inner_of-apply_overwrites players [] id n r = refl
  inner_of-apply_overwrites players ((j, o) ∷ os) id n r =
      let ih = inner_of-apply_overwrites (overwrite W players j o) os id j.0 r.1 in
      elim (Bool-cases (j.0 == id.0)) [
        | inl here ↦ rw here (
            ih
            ∙ rw (get_below j.0 os id r.1 (ground arith), inner_of-overwrite players j id o, here))
        | inr other ↦ elim (Option-cases (Overwrites.get os id)) [
          | inl e ↦ rw (other, e) (ih ∙ rw (e, inner_of-overwrite players j id o, other))
          | inr (o', e) ↦ rw (other, e) (ih ∙ rw e)
        ]
      ]

  abbrev pub input_of : Players W → PlayerId → Option W.Input
  input_of players id = Option.map (λ p. p.input) (Arena.get players id)

  abbrev pub give_input :
      W.Input → LockstepPlayer W.Input W.Player → LockstepPlayer W.Input W.Player
  give_input input p = record p { input = input }

  inner-give :
      (input : W.Input) (o : Option (LockstepPlayer W.Input W.Player))
      → Option.map (λ p. p.inner) (Option.map (give_input input) o) ≡ Option.map (λ p. p.inner) o
  inner-give input none = refl
  inner-give input (some p) = refl

  input-give :
      (input : W.Input) (o : Option (LockstepPlayer W.Input W.Player))
      → is_some o ≡ true
      → Option.map (λ p. p.input) (Option.map (give_input input) o) ≡ some input
  input-give input none h = cc
  input-give input (some p) h = refl

  pub inner_of-give_input :
      (players : Players W) (id j : PlayerId) (input : W.Input)
      → inner_of (modify players id (give_input input)) j ≡ inner_of players j
  inner_of-give_input players id j input =
      rw (get-modify players id j (give_input input))
        (elim (Bool-cases (nonzero_to_index id == nonzero_to_index j)) [
          | inl h ↦
              rw h (
                inner-give input (Arena.get players id)
                ∙ ap (inner_of players) (id_of_index id j h))
          | inr h ↦ rw h
        ])

  -- What a player reads as input once one input is given.
  input_of-given :
      (players : Players W) (id j : PlayerId) (input : W.Input)
      → contains players id ≡ true
      → input_of (modify players id (give_input input)) j
        ≡ (if nonzero_to_index id == nonzero_to_index j then some input else input_of players j)
  input_of-given players id j input c =
      rw (get-modify players id j (give_input input))
        (elim (Bool-cases (nonzero_to_index id == nonzero_to_index j)) [
          | inl h ↦
              rw h (input-give input (Arena.get players id) (sym (contains_lem players id) ∙ c))
          | inr h ↦ rw h
        ])

  -- The loop over the inputs, whose keys rise: no player's state changes, and each player has the
  -- input that is listed, or the one from before.
  pub record InputsApplied (players : Players W) (es : List (PlayerId × W.Input)) (r : Players W)
      : Type 0 where
    pub states : (id : PlayerId) → inner_of r id ≡ inner_of players id
    pub inputs :
        (id : PlayerId)
        → input_of r id
          ≡ elim (find (nonzero_to_index id) es) [ some v ↦ some v | none ↦ input_of players id ]

  pub apply_inputs-Applied :
      (phase : LockstepPhase W.F32) (players : Players W) (es : List (PlayerId × W.Input)) (n : ℕ)
      → Ascending n es
      → All (λ e. contains players e.0 ≡ true) es
      → Returns (InputsApplied players es) (apply_inputs W phase players es)
  unfolding apply_inputs
  apply_inputs-Applied phase players [] n a h =
      (players, refl, record { states = λ id. refl; inputs = λ id. refl })
  apply_inputs-Applied phase players ((id, input) ∷ es) n a h =
      let (r, e, d) =
        apply_inputs-Applied phase (modify players id (give_input input)) es
          (suc (nonzero_to_index id)) a.1
          (All-mono es (λ e p. contains-modify players id e.0 (give_input input) ∙ p) h.1) in
      (
        r,
        rw (h.0) e,
        record {
          states = λ j. d.states j ∙ inner_of-give_input players id j input;
          inputs = inputs d;
        },
      )
    where
      inputs :
          {r : Players W}
          → InputsApplied (modify players id (give_input input)) es r
          → (j : PlayerId)
          → input_of r j ≡ elim (find (nonzero_to_index j) ((id, input) ∷ es)) [
            | some v ↦ some v
            | none ↦ input_of players j
          ]
      inputs d j = elim (Bool-cases (nonzero_to_index id == nonzero_to_index j)) [
        | inl here ↦ rw here (
            d.inputs j
            ∙ rw (
              find_below (nonzero_to_index j) (suc (nonzero_to_index id)) es a.1 (ground arith),
              input_of-given players id j input h.0,
              here,
            ))
        | inr other ↦ elim (Option-cases (find (nonzero_to_index j) es)) [
          | inl e ↦
              rw (other, e) (d.inputs j ∙ rw (e, input_of-given players id j input h.0, other))
          | inr (v, e) ↦ rw (other, e) (d.inputs j ∙ rw e)
        ]
      ]
