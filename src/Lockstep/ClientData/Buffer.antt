-- ===== src/Lockstep/ClientData/Buffer.antt =====
-- The receive buffer: its ids rise, and all lie above the last id that was applied.
use kodiak.Base.{
  ℕ, suc, ◌≤◌, ◌<◌, ◌≡◌, ◌∙◌, sym, ◌≢◌, ap, subst, refl, arith, Bool, true, false, Option, none,
  some, List, [], ◌∷◌, length, if◌then◌else◌, ltb, ◌==◌, Bool-cases, Option-cases, inl, inr, ◌⊎◌,
  any, ◌||◌, ltb→lt,
}
use mathlib.Core.Option
use mathlib.Core.Option.{some-injective}
use kodiak.Lockstep.Input.{LockstepInput}
use kodiak.Lockstep.ClientData.{insertion_index, insert_at}

some≢none : {A : Type 0} {a : A} → some a ≢ none
some≢none h = cc

module _ {I : Type 0} where
  abbrev pub Rising : ℕ → List (LockstepInput I) → Type 0
  Rising n [] = Unit
  Rising n (c ∷ cs) = (n < c.input_id) × Rising c.input_id cs

  abbrev pub holds : ℕ → List (LockstepInput I) → Bool
  holds id = any (λ c. c.input_id == id)

  -- Searching and inserting in one pass.
  abbrev insert_by_id : LockstepInput I → List (LockstepInput I) → Option (List (LockstepInput I))
  insert_by_id c [] = some (c ∷ [])
  insert_by_id c (d ∷ ds) =
      let rest = Option.map (λ r. d ∷ r) (insert_by_id c ds) in
      if c.input_id == d.input_id
      then none
      else if ltb c.input_id d.input_id
      then some (c ∷ d ∷ ds)
      else rest

  insert_by_id_lem :
      (c : LockstepInput I) (cs : List (LockstepInput I))
      → Option.map (λ i. insert_at cs i c) (insertion_index c.input_id cs) ≡ insert_by_id c cs
  unfolding insert_at insertion_index
  insert_by_id_lem c [] = refl
  insert_by_id_lem c (d ∷ ds) = elim (Option-cases (insertion_index c.input_id ds)) [
    | inl e ↦ ground (arith, insert_by_id_lem c ds)
    | inr (i, e) ↦ ground (arith, insert_by_id_lem c ds)
  ]

  -- An id that is not there goes in, in order; one that is there does not.
  pub record Inserted (n : ℕ) (c : LockstepInput I) (cs r : List (LockstepInput I)) : Type 0 where
    pub rising : n < c.input_id → Rising n cs → Rising n r
    pub size : length r ≡ suc (length cs)
    pub held : (id : ℕ) → holds id r ≡ ((c.input_id == id) || holds id cs)

  Inserted-later :
      (n : ℕ) (c d : LockstepInput I) (ds r : List (LockstepInput I))
      → d.input_id < c.input_id
      → Inserted d.input_id c ds r
      → Inserted n c (d ∷ ds) (d ∷ r)
  Inserted-later n c d ds r h ins = record {
    rising = λ p q. (q.0, ins.rising h q.1);
    size = ap suc ins.size;
    held = λ id. ground (arith, ins.held id);
  }

  insert_by_id_cases :
      (c : LockstepInput I) (cs : List (LockstepInput I))
      → ((insert_by_id c cs ≡ none) × (holds c.input_id cs ≡ true))
        ⊎ ((r : List (LockstepInput I)) × (insert_by_id c cs ≡ some r)
            × ((n : ℕ) → Inserted n c cs r))
  insert_by_id_cases c [] =
      inr (c ∷ [], refl, λ n. record { rising = λ h r. (h, tt); size = refl; held = λ id. refl })
  insert_by_id_cases c (d ∷ ds) = elim (Bool-cases (c.input_id == d.input_id)) [
    | inl same ↦ inl (rw same, ground arith)
    | inr other ↦ elim (Bool-cases (ltb c.input_id d.input_id)) [
      | inl before ↦ inr (
        c ∷ d ∷ ds,
        rw (other, before),
        λ n. record {
          rising = λ h r. (h, (ltb→lt _ _ before, r.1));
          size = refl;
          held = λ id. refl;
        },
      )
      | inr after ↦ elim (insert_by_id_cases c ds) [
        | inl (e, there) ↦ inl (rw (other, after, e), ground (arith, there))
        | inr (r, e, ins) ↦ inr (
          d ∷ r,
          rw (other, after, e),
          λ n. Inserted-later n c d ds r (ground arith) (ins d.input_id),
        )
      ]
    ]
  ]

  -- What the server's search and insertion come to.
  pub receive_cases :
      (c : LockstepInput I) (cs : List (LockstepInput I))
      → ((insertion_index c.input_id cs ≡ none) × (holds c.input_id cs ≡ true))
        ⊎ ((i : ℕ) × (insertion_index c.input_id cs ≡ some i)
            × ((n : ℕ) → Inserted n c cs (insert_at cs i c)))
  receive_cases c cs =
      cases (insert_by_id_cases c cs) (insertion_index c.input_id cs) refl (insert_by_id_lem c cs)
    where
      cases :
          ((insert_by_id c cs ≡ none) × (holds c.input_id cs ≡ true))
            ⊎ ((r : List (LockstepInput I)) × (insert_by_id c cs ≡ some r)
                × ((n : ℕ) → Inserted n c cs r))
          → (o : Option ℕ) → insertion_index c.input_id cs ≡ o
          → Option.map (λ i. insert_at cs i c) (insertion_index c.input_id cs) ≡ insert_by_id c cs
          → ((insertion_index c.input_id cs ≡ none) × (holds c.input_id cs ≡ true))
            ⊎ ((i : ℕ) × (insertion_index c.input_id cs ≡ some i)
                × ((n : ℕ) → Inserted n c cs (insert_at cs i c)))
      cases (inl (e, there)) none f l = inl (f, there)
      cases (inl (e, there)) (some i) f l =
          absurd (some≢none (sym (ap (Option.map (λ j. insert_at cs j c)) f) ∙ l ∙ e))
      cases (inr (r, e, ins)) none f l =
          absurd (some≢none (sym e ∙ sym l ∙ ap (Option.map (λ j. insert_at cs j c)) f))
      cases (inr (r, e, ins)) (some i) f l = inr (
        i,
        f,
        λ n.
            subst (Inserted n c cs)
              (some-injective _ _ (sym e ∙ sym l ∙ ap (Option.map (λ j. insert_at cs j c)) f))
              (ins n),
      )

  -- Nothing at or below the bound is held.
  pub Rising-holds :
      (n id : ℕ) (cs : List (LockstepInput I)) → Rising n cs → id ≤ n → holds id cs ≡ false
  Rising-holds n id [] r h = refl
  Rising-holds n id (c ∷ cs) r h = ground (arith, Rising-holds c.input_id id cs r.1)

  -- In a rising buffer the search finds every id that is held.
  pub insertion_index_of_holds :
      (n id : ℕ) (cs : List (LockstepInput I))
      → Rising n cs
      → holds id cs ≡ true
      → insertion_index id cs ≡ none
  unfolding insertion_index
  insertion_index_of_holds n id [] r h = cc
  insertion_index_of_holds n id (c ∷ cs) r h =
      ground
        (arith, Rising-holds c.input_id id cs r.1, insertion_index_of_holds c.input_id id cs r.1)
