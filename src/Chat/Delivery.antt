-- ===== src/Chat/Delivery.antt =====
-- What a client is sent of its inbox, in chat_inbox.rs.
use kodiak.Base.{
  ℕ, suc, ◌≡◌, refl, ap, arith, true, false, is_some, Bool-cases, inl, inr, Option, none, some,
  List, [], ◌∷◌, map, if◌then◌else◌, all, get_elem?, All, All-mono,
}
use kodiak.Chat.{
  ChatInbox, ChatInboxSlot, MessageAttribution, next_number, new_inbox, write, read_slots, read,
  read_is_empty, mark_unread, is_sent, attribute,
}
use kodiak.Chat.Numbers.{
  IsUnread, IsValid, write-IsValid, read-IsValid, mark_unread-IsValid, attribute-number,
}

not_some : (o : Option ℕ) → is_some o ≡ false → o ≡ none
not_some none e = refl
not_some (some k) e = absurd (ground arith)

module _ {Message ChatId : Type 0} where
  -- An inbox after any writing, reading, and starting over.
  pub data Reached : ChatInbox Message ChatId → Type 0 where
    fresh : Reached new_inbox
    written :
        {inbox : ChatInbox Message ChatId} (message : Message)
        (attribution : Option (MessageAttribution ChatId))
        → Reached inbox
        → Reached (write inbox message attribution)
    was_read : {inbox : ChatInbox Message ChatId} → Reached inbox → Reached (read inbox).1
    marked : {inbox : ChatInbox Message ChatId} → Reached inbox → Reached (mark_unread inbox)

  Reached-IsValid : (inbox : ChatInbox Message ChatId) → Reached inbox → IsValid inbox
  Reached-IsValid _ fresh = record {
    fits = omega arith;
    is_word = omega arith;
    first = 0;
    first_is_word = omega arith;
    numbered = refl;
  }
  Reached-IsValid _ (written {inbox} message attribution r) =
      write-IsValid inbox message attribution (Reached-IsValid inbox r)
  Reached-IsValid _ (was_read {inbox} r) = read-IsValid inbox (Reached-IsValid inbox r)
  Reached-IsValid _ (marked {inbox} r) = mark_unread-IsValid inbox (Reached-IsValid inbox r)

  -- The messages that the client has not been sent, oldest first.
  abbrev pub unread_messages : List (ChatInboxSlot Message ChatId) → List Message
  unread_messages [] = []
  unread_messages (s ∷ slots) =
      let rest = unread_messages slots in if is_sent s then rest else s.message ∷ rest

  -- The pair is a slot's unread message and the number that the slot gets.
  abbrev Taken :
      List (ChatInboxSlot Message ChatId)
      → List (ChatInboxSlot Message ChatId)
      → ℕ × Message
      → Type 0
  Taken old new (k, message) =
      (i : ℕ) × (s : ChatInboxSlot Message ChatId) × (get_elem? old i ≡ some s)
      × IsUnread s
      × (s.message ≡ message)
      × (get_elem? new i ≡ some (record s { message_number = some k }))

  Taken-later :
      (s t : ChatInboxSlot Message ChatId) (old new : List (ChatInboxSlot Message ChatId))
      (r : ℕ × Message)
      → Taken old new r
      → Taken (s ∷ old) (t ∷ new) r
  Taken-later s t old new r (i, u, e, n, m, there) = (suc i, u, e, n, m, there)

  read_slots-Taken :
      (n : ℕ) (slots : List (ChatInboxSlot Message ChatId))
      → All (Taken slots (read_slots n slots).slots) (read_slots n slots).messages
  unfolding read_slots
  read_slots-Taken n [] = tt
  read_slots-Taken n (s ∷ slots) = elim (Bool-cases (is_sent s)) [
    | inl e ↦ rw e (All-mono _ (Taken-later s s slots _) (read_slots-Taken n slots))
    | inr e ↦ rw e (
      (0, s, refl, not_some s.message_number e, refl, refl),
      All-mono _ (Taken-later s _ slots _) (read_slots-Taken (next_number n) slots),
    )
  ]

  read_slots-messages :
      (n : ℕ) (slots : List (ChatInboxSlot Message ChatId))
      → map (λ r. r.1) (read_slots n slots).messages ≡ unread_messages slots
  unfolding read_slots
  read_slots-messages n [] = refl
  read_slots-messages n (s ∷ slots) = elim (Bool-cases (is_sent s)) [
    | inl e ↦ rw e (read_slots-messages n slots)
    | inr e ↦ rw e (ap (λ r. s.message ∷ r) (read_slots-messages (next_number n) slots))
  ]

  read_slots-sent :
      (n : ℕ) (slots : List (ChatInboxSlot Message ChatId))
      → all is_sent (read_slots n slots).slots ≡ true
  unfolding read_slots
  read_slots-sent n [] = refl
  read_slots-sent n (s ∷ slots) = elim (Bool-cases (is_sent s)) [
    | inl e ↦ rw (e, read_slots-sent n slots, e) refl
    | inr e ↦ rw (e, read_slots-sent (next_number n) slots) refl
  ]

  -- The message that the client is sent with the number is an unread one, and the number leads to its
  -- attribution.
  abbrev pub Delivered : ChatInbox Message ChatId → ℕ × Message → Type 0
  Delivered inbox (k, message) =
      (i : ℕ) × (s : ChatInboxSlot Message ChatId) × (get_elem? inbox.slots i ≡ some s)
      × IsUnread s
      × (s.message ≡ message)
      × (attribute (read inbox).1 k ≡ s.attribution)

  -- After any writing, reading and starting over, a read sends just the unread messages, oldest first,
  -- each with a number by which its own attribution is found afterwards; then nothing is left to read.
  pub read-Delivered :
      (inbox : ChatInbox Message ChatId)
      → Reached inbox
      → (map (λ r. r.1) (read inbox).0 ≡ unread_messages inbox.slots)
        × All (Delivered inbox) (read inbox).0
        × (read_is_empty (read inbox).1 ≡ true)
  unfolding read read_is_empty
  read-Delivered inbox reached = (
    read_slots-messages inbox.next_message_number inbox.slots,
    All-mono _
        (λ r (i, s, e, u, m, there). (
          i,
          s,
          e,
          u,
          m,
          attribute-number (read inbox).1 (read-IsValid inbox (Reached-IsValid inbox reached)) i _ _
              there refl,
        ))
        (read_slots-Taken inbox.next_message_number inbox.slots),
    read_slots-sent inbox.next_message_number inbox.slots,
  )

  -- Whatever has been written, read and started over, the number of a message that is still in
  -- the inbox leads to that message's own attribution.
  pub Reached-attribute :
      (inbox : ChatInbox Message ChatId)
      → Reached inbox
      → (i : ℕ) (s : ChatInboxSlot Message ChatId) (k : ℕ) → get_elem? inbox.slots i ≡ some s
      → s.message_number ≡ some k
      → attribute inbox k ≡ s.attribution
  Reached-attribute inbox reached = attribute-number inbox (Reached-IsValid inbox reached)
