-- ===== src/Chat/Numbers.antt =====
-- The numbers of the messages in an inbox of chat_inbox.rs.
use kodiak.Base.{
  ℕ, zero, suc, ◌+◌, ◌%◌, ◌^◌, ◌≤◌, ◌<◌, ◌≡◌, refl, sym, subst, ap, ◌∙◌, arith, ◌⊎◌, inl, inr,
  Option, none, some, List, [], ◌∷◌, ◌++◌, map, ◌==◌, length, drop, get_elem?, All, All-append,
  if_cases, ==_ne, ==_refl, length-append, length-drop,
}
use mathlib.Core.Option
use kodiak.Chat.{
  ChatInbox, ChatInboxSlot, MessageAttribution, Reading, capacity, next_number, write, read_slots,
  read, mark_unread, unsent, is_sent, attribute_in, attribute,
}

module _ {Message ChatId : Type 0} where
  abbrev pub IsUnread : ChatInboxSlot Message ChatId → Type 0
  IsUnread s = s.message_number ≡ none

  abbrev unsent_slot : Message → Option (MessageAttribution ChatId) → ChatInboxSlot Message ChatId
  unsent_slot message attribution = record {
    message = message;
    attribution = attribution;
    message_number = none;
  }

  -- The sent messages come first and are numbered in a row, from the one number to before the other.
  abbrev pub AreNumbered : ℕ → ℕ → List (ChatInboxSlot Message ChatId) → Type 0
  AreNumbered n next [] = n ≡ next
  AreNumbered n next (s ∷ slots) =
      ((s.message_number ≡ some n) × AreNumbered (next_number n) next slots)
      ⊎ ((n ≡ next) × All IsUnread (s ∷ slots))

  pub record IsValid (inbox : ChatInbox Message ChatId) : Type 0 where
    pub fits : length inbox.slots ≤ capacity
    pub is_word : inbox.next_message_number < 2 ^ 8
    pub first : ℕ
    pub first_is_word : first < 2 ^ 8
    pub numbered : AreNumbered first inbox.next_message_number inbox.slots

  pub unread_AreNumbered :
      (n : ℕ) (slots : List (ChatInboxSlot Message ChatId))
      → All IsUnread slots
      → AreNumbered n n slots
  unread_AreNumbered n [] u = refl
  unread_AreNumbered n (s ∷ slots) u = inr (refl, u)

  append_AreNumbered :
      (n next : ℕ) (slots : List (ChatInboxSlot Message ChatId)) (s : ChatInboxSlot Message ChatId)
      → IsUnread s
      → AreNumbered n next slots
      → AreNumbered n next (slots ++ (s ∷ []))
  append_AreNumbered n next [] s u e = inr (e, (u, tt))
  append_AreNumbered n next (t ∷ slots) s u (inl (e, rest)) =
      inl (e, append_AreNumbered (next_number n) next slots s u rest)
  append_AreNumbered n next (t ∷ slots) s u (inr (e, unread)) =
      inr (e, All-append IsUnread (t ∷ slots) (s ∷ []) unread (u, tt))

  drop_AreNumbered :
      (n next : ℕ) (slots : List (ChatInboxSlot Message ChatId))
      → n < 2 ^ 8
      → AreNumbered n next slots
      → (m : ℕ) × (m < 2 ^ 8) × AreNumbered m next (drop 1 slots)
  drop_AreNumbered n next [] h e = (n, h, e)
  drop_AreNumbered n next (s ∷ slots) h (inl (e, rest)) = (next_number n, omega arith, rest)
  drop_AreNumbered n next (s ∷ slots) h (inr (e, unread)) =
      (n, h, subst (λ m. AreNumbered n m slots) e (unread_AreNumbered n slots unread.1))

  unsent-All : (slots : List (ChatInboxSlot Message ChatId)) → All IsUnread (map unsent slots)
  unsent-All [] = tt
  unsent-All (s ∷ slots) = (refl, unsent-All slots)

  length-unsent :
      (slots : List (ChatInboxSlot Message ChatId)) → length (map unsent slots) ≡ length slots
  length-unsent [] = refl
  length-unsent (s ∷ slots) = ap suc (length-unsent slots)

  length-read_slots :
      (n : ℕ) (slots : List (ChatInboxSlot Message ChatId))
      → length (read_slots n slots).slots ≡ length slots
  unfolding read_slots
  length-read_slots n [] = refl
  length-read_slots n (s ∷ slots) =
      if_cases (λ (r : Reading Message ChatId). length r.slots ≡ suc (length slots)) (is_sent s)
        (λ _. ap suc (length-read_slots n slots))
        (λ _. ap suc (length-read_slots (next_number n) slots))

  next-read_slots :
      (n : ℕ) (slots : List (ChatInboxSlot Message ChatId))
      → n < 2 ^ 8
      → (read_slots n slots).next < 2 ^ 8
  unfolding read_slots
  next-read_slots n [] h = h
  next-read_slots n (s ∷ slots) h =
      if_cases (λ (r : Reading Message ChatId). r.next < 2 ^ 8) (is_sent s)
        (λ _. next-read_slots n slots h) (λ _. next-read_slots (next_number n) slots (omega arith))

  read_unread :
      (n : ℕ) (slots : List (ChatInboxSlot Message ChatId))
      → All IsUnread slots
      → AreNumbered n (read_slots n slots).next (read_slots n slots).slots
  unfolding read_slots
  read_unread n [] u = refl
  read_unread n (s ∷ slots) (u, us) = rw u (inl (refl, read_unread (next_number n) slots us))

  pub read_slots-AreNumbered :
      (n next : ℕ) (slots : List (ChatInboxSlot Message ChatId))
      → AreNumbered n next slots
      → AreNumbered n (read_slots next slots).next (read_slots next slots).slots
  unfolding read_slots
  read_slots-AreNumbered n next [] e = e
  read_slots-AreNumbered n next (s ∷ slots) (inl (e, rest)) =
      rw e (inl (refl, read_slots-AreNumbered (next_number n) next slots rest))
  read_slots-AreNumbered n next (s ∷ slots) (inr (e, unread)) =
      subst (λ m. AreNumbered n (read_slots m (s ∷ slots)).next (read_slots m (s ∷ slots)).slots) e
        (read_unread n (s ∷ slots) unread)

  pub write-IsValid :
      (inbox : ChatInbox Message ChatId) (message : Message)
      (attribution : Option (MessageAttribution ChatId))
      → IsValid inbox
      → IsValid (write inbox message attribution)
  unfolding write
  write-IsValid inbox message attribution v =
      if_cases
        (λ slots.
          IsValid (record inbox { slots = slots ++ (unsent_slot message attribution ∷ []) }))
        (length inbox.slots == capacity)
        (λ full.
          let (m, word, numbered) =
            drop_AreNumbered v.first _ inbox.slots v.first_is_word v.numbered in
          record {
            fits = ground (
              arith,
              length-append (drop 1 inbox.slots) (unsent_slot message attribution ∷ []),
              length-drop 1 inbox.slots,
              v.fits,
            );
            is_word = v.is_word;
            first = m;
            first_is_word = word;
            numbered =
                append_AreNumbered m _ (drop 1 inbox.slots) (unsent_slot message attribution) refl
                  numbered;
          })
        (λ room. record {
          fits =
              ground
                (arith, length-append inbox.slots (unsent_slot message attribution ∷ []), v.fits);
          is_word = v.is_word;
          first = v.first;
          first_is_word = v.first_is_word;
          numbered =
              append_AreNumbered v.first _ inbox.slots (unsent_slot message attribution) refl
                v.numbered;
        })

  pub read-IsValid : (inbox : ChatInbox Message ChatId) → IsValid inbox → IsValid (read inbox).1
  unfolding read
  read-IsValid inbox v = record {
    fits = omega (arith, length-read_slots inbox.next_message_number inbox.slots, v.fits);
    is_word = next-read_slots inbox.next_message_number inbox.slots v.is_word;
    first = v.first;
    first_is_word = v.first_is_word;
    numbered = read_slots-AreNumbered v.first _ inbox.slots v.numbered;
  }

  pub mark_unread-IsValid :
      (inbox : ChatInbox Message ChatId) → IsValid inbox → IsValid (mark_unread inbox)
  unfolding mark_unread
  mark_unread-IsValid inbox v = record {
    fits = omega (arith, length-unsent inbox.slots, v.fits);
    is_word = v.is_word;
    first = inbox.next_message_number;
    first_is_word = v.is_word;
    numbered = unread_AreNumbered _ (map unsent inbox.slots) (unsent-All inbox.slots);
  }

  All-at :
      (slots : List (ChatInboxSlot Message ChatId)) (i : ℕ) {s : ChatInboxSlot Message ChatId}
      → All IsUnread slots
      → get_elem? slots i ≡ some s
      → IsUnread s
  All-at [] i u e = absurd (Option.none-ne-some _ e)
  All-at (t ∷ slots) zero u e = subst IsUnread (Option.some-injective _ _ e) u.0
  All-at (t ∷ slots) (suc i) u e = All-at slots i u.1 e

  number_at :
      (n next : ℕ) (slots : List (ChatInboxSlot Message ChatId))
      → n < 2 ^ 8
      → AreNumbered n next slots
      → (i : ℕ) (s : ChatInboxSlot Message ChatId) (k : ℕ) → get_elem? slots i ≡ some s
      → s.message_number ≡ some k
      → k ≡ (n + i) % 2 ^ 8
  number_at n next [] h v i s k e q = absurd (Option.none-ne-some _ e)
  number_at n next (t ∷ slots) h (inl (en, rest)) zero s k e q =
      let same : n ≡ k =
        Option.some-injective _ _
          (sym en ∙ ap (λ o. o.message_number) (Option.some-injective _ _ e) ∙ q) in
      omega arith
  number_at n next (t ∷ slots) h (inl (en, rest)) (suc i) s k e q =
      omega (arith, number_at (next_number n) next slots (omega arith) rest i s k e q)
  number_at n next (t ∷ slots) h (inr (en, unread)) i s k e q =
      absurd (Option.none-ne-some _ (sym (All-at (t ∷ slots) i unread e) ∙ q))

  attribute_in-number :
      (n next : ℕ) (slots : List (ChatInboxSlot Message ChatId))
      → n < 2 ^ 8
      → length slots ≤ capacity
      → AreNumbered n next slots
      → (i : ℕ) → i < length slots
      → (s : ChatInboxSlot Message ChatId) (k : ℕ) → get_elem? slots i ≡ some s
      → s.message_number ≡ some k
      → attribute_in slots k ≡ s.attribution
  unfolding attribute_in
  attribute_in-number n next [] h l v i b s k e q = absurd (Option.none-ne-some _ e)
  attribute_in-number n next (t ∷ slots) h l v zero b s k e q =
      let t_eq = Option.some-injective _ _ e in
      rw (ap (λ o. o.message_number) t_eq ∙ q, ==_refl k) (ap (λ o. o.attribution) t_eq)
  attribute_in-number n next (t ∷ slots) h l (inl (en, rest)) (suc i) b s k e q =
      let at = number_at (next_number n) next slots (omega arith) rest i s k e q in
      rw (en, ==_ne n k (omega arith))
        (attribute_in-number (next_number n) next slots (omega arith) (omega arith) rest i
          (omega arith) s k e q)
  attribute_in-number n next (t ∷ slots) h l (inr (en, unread)) (suc i) b s k e q =
      absurd (Option.none-ne-some _ (sym (All-at (t ∷ slots) (suc i) unread e) ∙ q))

  get_elem?-lt :
      (slots : List (ChatInboxSlot Message ChatId)) (i : ℕ) {s : ChatInboxSlot Message ChatId}
      → get_elem? slots i ≡ some s
      → i < length slots
  get_elem?-lt [] i e = absurd (Option.none-ne-some _ e)
  get_elem?-lt (t ∷ slots) zero e = omega arith
  get_elem?-lt (t ∷ slots) (suc i) e = omega (arith, get_elem?-lt slots i e)

  -- The number of a message leads to the attribution of that message.
  pub attribute-number :
      (inbox : ChatInbox Message ChatId)
      → IsValid inbox
      → (i : ℕ) (s : ChatInboxSlot Message ChatId) (k : ℕ) → get_elem? inbox.slots i ≡ some s
      → s.message_number ≡ some k
      → attribute inbox k ≡ s.attribution
  unfolding attribute
  attribute-number inbox v i s k e q =
      attribute_in-number v.first _ inbox.slots v.first_is_word v.fits v.numbered i
        (get_elem?-lt inbox.slots i e) s k e q
