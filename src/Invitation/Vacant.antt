-- ===== src/Invitation/Vacant.antt =====
-- The loops of invitation_repo.rs that draw an id: the first vacant one of 256.
use kodiak.Base.{
  ℕ, zero, suc, ◌≤◌, ◌<◌, ◌≡◌, refl, arith, true, ◌⊎◌, inl, inr, none, some, is_some, Option-cases,
}
use kodiak.Ids.Arenas.{generate}
use kodiak.Invitation.{
  InvitationRepo, insert, of_temporary, generate_vacant, governor, prepare_temporary_invitation,
}

module _ (repo : InvitationRepo) (server_number : ℕ) where
  -- Every one of the first draws is an id that is in use.
  abbrev pub Taken : (ℕ → ℕ) → ℕ → Type 0
  Taken drawn n = (j : ℕ) → j < n → is_some (repo (generate server_number (drawn j))) ≡ true

  -- The draw is the first one that is vacant.
  abbrev pub First : (ℕ → ℕ) → ℕ → Type 0
  First drawn k = Taken drawn k × (repo (generate server_number (drawn k)) ≡ none)

  Taken-suc :
      (drawn : ℕ → ℕ) (n : ℕ)
      → is_some (repo (generate server_number (drawn 0))) ≡ true
      → Taken (λ i. drawn (suc i)) n
      → Taken drawn (suc n)
  Taken-suc drawn n here there zero h = here
  Taken-suc drawn n here there (suc j) h = there j (omega arith)

  pub generate_vacant-First :
      (drawn : ℕ → ℕ) (g : ℕ)
      → ((k : ℕ) × (k ≤ g)
          × First drawn k
          × (generate_vacant repo server_number drawn g ≡ some (generate server_number (drawn k))))
        ⊎ (Taken drawn (suc g) × (generate_vacant repo server_number drawn g ≡ none))
  unfolding generate_vacant
  generate_vacant-First drawn zero = elim (Option-cases (repo (generate server_number (drawn 0)))) [
    | inl e ↦ inl (0, omega arith, ((λ j h. absurd (omega arith)), e), rw e refl)
    | inr (i, e) ↦ inr (Taken-suc drawn 0 (rw e refl) (λ j h. absurd (omega arith)), rw e refl)
  ]
  generate_vacant-First drawn (suc g) =
      elim (Option-cases (repo (generate server_number (drawn 0)))) [
        | inl e ↦ inl (0, omega arith, ((λ j h. absurd (omega arith)), e), rw e refl)
        | inr (i, e) ↦ elim (generate_vacant-First (λ i. drawn (suc i)) g) [
          | inl (k, le, (taken, vacant), found) ↦
              inl (suc k, omega arith, (Taken-suc drawn k (rw e refl) taken, vacant), rw e found)
          | inr (taken, found) ↦ inr (Taken-suc drawn (suc g) (rw e refl) taken, rw e found)
        ]
      ]

  -- Preparing a temporary invitation ends after at most 256 draws: it returns the first drawn id that
  -- is not in use, and puts an invitation to the temporary realm of that id there and nothing
  -- elsewhere; only where all 256 draws are in use does it return nothing, and changes nothing.
  pub prepare_temporary_invitation-First :
      (drawn : ℕ → ℕ)
      → ((k : ℕ) × (k < 256)
          × First drawn k
          × (prepare_temporary_invitation repo server_number drawn ≡ (
            some (generate server_number (drawn k)),
            insert repo
                (generate server_number (drawn k))
                (of_temporary (generate server_number (drawn k))),
          )))
        ⊎ (Taken drawn 256 × (prepare_temporary_invitation repo server_number drawn ≡ (none, repo)))
  unfolding prepare_temporary_invitation
  prepare_temporary_invitation-First drawn = elim (generate_vacant-First drawn governor) [
    | inl (k, le, first, found) ↦
        inl (k, omega arith, first, rw (prepare_temporary_invitation, found) refl)
    | inr (taken, found) ↦ inr (taken, rw (prepare_temporary_invitation, found) refl)
  ]
