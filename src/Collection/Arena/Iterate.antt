-- ===== src/Collection/Arena/Iterate.antt =====
-- `ArenaMap::iter`: the entries in the order of their keys.
use kodiak.Base.{
  returns, true, is_some, All, ℕ, zero, suc, ◌+◌, ◌≤◌, ◌<◌, ◌≡◌, ◌∙◌, sym, refl, ap, subst, arith,
  Option, none, some, List, [], ◌∷◌, length, Returns, if◌then◌else◌, ◌==◌, ==_ne,
}
use kodiak.Collection.Arena.{new, ArenaMap, get, iter, entries_from}
use kodiak.Collection.Arena.Key.{ArenaKey}
use kodiak.Collection.Arena.Slots.{count_some}
use kodiak.Collection.Arena.Writes.{slot}
use kodiak.Collection.Arena.Invariant.{IsValid}

module _ {ℓ} {K : Type 0} {V : Type ℓ} ⦃key : ArenaKey K⦄ where
  open key use {from_index, to_index, limit, from_index_lem}

  -- The value that the entries hold for an index.
  abbrev pub find : ℕ → List (K × V) → Option V
  find i [] = none
  find i ((k, v) ∷ es) = if to_index k == i then some v else find i es

  -- The keys rise along the list, from `n` on.
  abbrev pub Ascending : ℕ → List (K × V) → Type 0
  Ascending n [] = Unit
  Ascending n ((k, v) ∷ es) = (n ≤ to_index k) × Ascending (suc (to_index k)) es

  pub find_below : (i n : ℕ) (es : List (K × V)) → Ascending n es → i < n → find i es ≡ none
  find_below i n [] a h = refl
  find_below i n ((k, v) ∷ es) a h = ground (arith, find_below i (suc (to_index k)) es a.1)

  Ascending-mono : (m n : ℕ) (es : List (K × V)) → m ≤ n → Ascending n es → Ascending m es
  Ascending-mono m n [] h a = tt
  Ascending-mono m n ((k, v) ∷ es) h a = (omega arith, a.1)

  -- What the entries of some slots are, the first of which has the index `i`.
  pub record Listed (i : ℕ) (xs : List (Option V)) (es : List (K × V)) : Type ℓ where
    pub count : length es ≡ count_some xs
    pub order : Ascending i es
    pub found : (j : ℕ) → find (i + j) es ≡ slot xs j

  Listed-none :
      (i : ℕ) (xs : List (Option V)) (es : List (K × V))
      → Listed (suc i) xs es
      → Listed i (none ∷ xs) es
  Listed-none i xs es d = record {
    count = d.count;
    order = Ascending-mono i (suc i) es (omega arith) d.order;
    found = found;
  }
    where
      found : (j : ℕ) → find (i + j) es ≡ slot (none ∷ xs) j
      found zero = find_below (i + 0) (suc i) es d.order (omega arith)
      found (suc j) = let e : i + suc j ≡ suc i + j = omega arith in rw e (d.found j)

  Listed-some :
      (i : ℕ) (k : K) (v : V) (xs : List (Option V)) (es : List (K × V))
      → to_index k ≡ i
      → Listed (suc i) xs es
      → Listed i (some v ∷ xs) ((k, v) ∷ es)
  Listed-some i k v xs es at d = record {
    count = ap suc d.count;
    order = (omega arith, subst (λ n. Ascending (suc n) es) (sym at) d.order);
    found = found;
  }
    where
      found : (j : ℕ) → find (i + j) ((k, v) ∷ es) ≡ slot (some v ∷ xs) j
      found zero = ground arith
      found (suc j) =
          let e : i + suc j ≡ suc i + j = omega arith in
          rw (==_ne (to_index k) (i + suc j) (λ h. omega arith))
            (subst (λ n. find n es ≡ slot xs j) (sym e) (d.found j))

  pub entries_from-Listed :
      (i : ℕ) (xs : List (Option V))
      → i + length xs ≤ limit
      → Returns (Listed i xs) (entries_from i xs)
  unfolding entries_from
  entries_from-Listed i [] w = ([], refl, record { count = refl; order = tt; found = λ j. refl })
  entries_from-Listed i (none ∷ xs) w =
      let (es, e, d) = entries_from-Listed (suc i) xs (omega arith) in
      (es, e, Listed-none i xs es d)
  entries_from-Listed i (some v ∷ xs) w =
      let (k, e, at) = from_index_lem i (omega arith) in
      let (es, e', d) = entries_from-Listed (suc i) xs (omega arith) in
      ((k, v) ∷ es, rw (e, e'), Listed-some i k v xs es at d)

  pub iter-new : iter (new {K = K} {V = V}) ≡ returns []
  unfolding iter new
  iter-new = refl

  -- On a valid map `iter` returns `len` entries, in rising order of their keys, which hold under
  -- each key what `get` finds there.
  pub iter-Returns :
      (m : ArenaMap K V)
      → IsValid m
      → Returns
          (λ es. (length es ≡ m.len) × Ascending 0 es × ((k : K) → find (to_index k) es ≡ get m k))
          (iter m)
  unfolding iter get
  iter-Returns m valid =
      let (es, e, d) = entries_from-Listed 0 m.slots (omega (arith, valid.within)) in
      (
        es,
        e,
        (
          d.count ∙ sym valid.counted,
          d.order,
          λ k.
              let z : to_index k ≡ 0 + to_index k = omega arith in
              subst (λ n. find n es ≡ slot m.slots (to_index k)) (sym z) (d.found (to_index k)),
        ),
      )

  -- What holds of the keys that the map has holds of the entries that are listed.
  pub find-All {κ} :
      (P : K → Type κ) (es : List (K × V))
      → ((k : K) → is_some (find (to_index k) es) ≡ true → P k)
      → All (λ e. P e.0) es
  find-All P [] h = tt
  find-All P ((k, v) ∷ es) h = (h k (ground arith), find-All P es (λ j e. h j (ground (arith, e))))
