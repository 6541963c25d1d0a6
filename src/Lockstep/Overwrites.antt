-- ===== src/Lockstep/Overwrites.antt =====
-- The `BTreeMap<PlayerId, Option<W::Player>>` of a tick, as its entries in the order of their keys.
use kodiak.Base.{
  ◌≤◌, ◌<◌, ℕ, sym, subst, if_cases, ==_iff, ltb→lt, ◌≡◌, refl, arith, Option, none, some, List, [],
  ◌∷◌, if◌then◌else◌, ◌==◌, ltb,
}
use kodiak.Lockstep.World.{PlayerId}

module _ {V : Type 0} where
  -- `BTreeMap::get`
  unfoldable pub get : List (PlayerId × V) → PlayerId → Option V
  get [] k = none
  get ((j, v) ∷ m) k = if j.0 == k.0 then some v else get m k

  -- `BTreeMap::insert`
  pub insert : List (PlayerId × V) → PlayerId → V → List (PlayerId × V)
  insert [] k v = (k, v) ∷ []
  insert ((j, w) ∷ m) k v =
      let rest = insert m k v in
      if k.0 == j.0 then (k, v) ∷ m else if ltb k.0 j.0 then (k, v) ∷ (j, w) ∷ m else (j, w) ∷ rest

  pub get-insert :
      (m : List (PlayerId × V)) (k j : PlayerId) (v : V)
      → get (insert m k v) j ≡ (if k.0 == j.0 then some v else get m j)
  unfolding get insert
  get-insert [] k j v = refl
  get-insert ((i, w) ∷ m) k j v = ground (arith, get-insert m k j v)

  -- The keys rise along the map, from above `n` on.
  abbrev pub Rising : ℕ → List (PlayerId × V) → Type 0
  Rising n [] = Unit
  Rising n ((k, v) ∷ m) = (n < k.0) × Rising k.0 m

  insert-Rising_above :
      (n : ℕ) (m : List (PlayerId × V)) (k : PlayerId) (v : V)
      → n < k.0
      → Rising n m
      → Rising n (insert m k v)
  unfolding insert
  insert-Rising_above n [] k v h r = (h, tt)
  insert-Rising_above n ((j, w) ∷ m) k v h r =
      if_cases (Rising n) (k.0 == j.0)
        (λ e. (h, subst (λ b. Rising b m) (sym ((==_iff k.0 j.0).0 e)) r.1))
        (λ ne.
          if_cases (Rising n) (ltb k.0 j.0) (λ lt. (h, (ltb→lt _ _ lt, r.1)))
            (λ ge. (r.0, insert-Rising_above j.0 m k v (ground arith) r.1)))

  pub insert-Rising :
      (m : List (PlayerId × V)) (k : PlayerId) (v : V) → Rising 0 m → Rising 0 (insert m k v)
  insert-Rising m k v r = insert-Rising_above 0 m k v k.1.0 r

  pub get_below :
      (n : ℕ) (m : List (PlayerId × V)) (k : PlayerId) → Rising n m → k.0 ≤ n → get m k ≡ none
  unfolding get
  get_below n [] k r h = refl
  get_below n ((j, w) ∷ m) k r h = ground (arith, get_below j.0 m k r.1)
