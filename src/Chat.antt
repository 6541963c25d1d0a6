-- ===== src/Chat.antt =====
-- server/src/service/chat_inbox.rs and chat_repo.rs: the messages that are kept for a client, their
-- numbers, and the senders that a client has muted. The messages and their ids are parameters.
pub mod Numbers
pub mod Delivery
pub mod Muting
pub mod Silence
mod Tests
use kodiak.Base.{
  ℕ, ◌+◌, ◌%◌, ◌^◌, Bool, true, false, not, ◌||◌, Option, none, some, List, [], ◌∷◌, ◌++◌,
  if◌then◌else◌, is_some, ◌==◌, leb, length, drop, any, all, keep, map,
}
use kodiak.Ids.{PlayerId}
use kodiak.Limiter.Ip.{IpAddr, same_ip}
use kodiak.Team.{same_id}
use kodiak.Team.Model.{put}

pub record MessageAttribution (ChatId : Type 0) : Type 0 where
  pub chat_id : ChatId
  pub sender_ip : IpAddr

pub record ChatInboxSlot (Message ChatId : Type 0) : Type 0 where
  pub message : Message
  pub attribution : Option (MessageAttribution ChatId)
  -- once sent
  pub message_number : Option ℕ

pub record ChatInbox (Message ChatId : Type 0) : Type 0 where
  pub slots : List (ChatInboxSlot Message ChatId)
  pub next_message_number : ℕ

-- The capacity of the `ArrayVec`.
abbrev pub capacity : ℕ
capacity = 10

-- `u8::wrapping_add` of one.
abbrev pub next_number : ℕ → ℕ
next_number n = (n + 1) % 2 ^ 8

-- What reading the slots gives, with the slots and the next number that are left.
pub record Reading (Message ChatId : Type 0) : Type 0 where
  pub messages : List (ℕ × Message)
  pub slots : List (ChatInboxSlot Message ChatId)
  pub next : ℕ

-- Data of a client that chat uses. Whether a join was announced is not among it.
pub record ClientChatData (Message ChatId : Type 0) : Type 0 where
  pub muted : List IpAddr
  pub inbox : ChatInbox Message ChatId

-- A player is a client, with its data, or a bot.
abbrev pub PlayerRepo : Type 0 → Type 0 → Type 0
PlayerRepo Message ChatId = PlayerId → Option (Option (ClientChatData Message ChatId))

pub data ChatUpdate (Message : Type 0) : Type 0 where
  received : List (ℕ × Message) → ChatUpdate Message
  muted_sender : ℕ → ChatUpdate Message
  unmuted_sender : ℕ → ChatUpdate Message

-- The messages of the errors.
pub data Refusal : Type 0 where
  unknown_sender : Refusal
  nonsense : Refusal
  only_clients : Refusal
  too_many_muted : Refusal
  already_muted : Refusal

pub data Reply (Message : Type 0) : Type 0 where
  ok : ChatUpdate Message → Reply Message
  err : Refusal → Reply Message

-- `HashSet::contains`, for a set that is a list without an order that matters.
abbrev pub contains : List IpAddr → IpAddr → Bool
contains ips ip = any (same_ip ip) ips

-- `HashSet::remove`
abbrev without : List IpAddr → IpAddr → List IpAddr
without ips ip = keep (λ other. not (same_ip ip other)) ips

abbrev pub is_number : Option ℕ → ℕ → Bool
is_number none k = false
is_number (some n) k = n == k

abbrev pub is_muted : {ChatId : Type 0} → List IpAddr → Option (MessageAttribution ChatId) → Bool
is_muted ips none = false
is_muted ips (some a) = contains ips a.sender_ip

module _ {Message ChatId : Type 0} where
  -- `ChatInbox::default()`
  abbrev pub new_inbox : ChatInbox Message ChatId
  new_inbox = record { slots = []; next_message_number = 0 }

  pub write :
      ChatInbox Message ChatId
      → Message
      → Option (MessageAttribution ChatId)
      → ChatInbox Message ChatId
  write inbox message attribution =
      let slots = if length inbox.slots == capacity then drop 1 inbox.slots else inbox.slots in
      record inbox {
        slots =
            slots
            ++ (record { message = message; attribution = attribution; message_number = none }
                ∷ []);
      }

  abbrev pub is_sent : ChatInboxSlot Message ChatId → Bool
  is_sent s = is_some s.message_number

  pub read_is_empty : ChatInbox Message ChatId → Bool
  read_is_empty inbox = all is_sent inbox.slots

  pub read_slots : ℕ → List (ChatInboxSlot Message ChatId) → Reading Message ChatId
  read_slots n [] = record { messages = []; slots = []; next = n }
  read_slots n (s ∷ slots) =
      let later = read_slots n slots in
      let others = read_slots (next_number n) slots in
      if is_sent s then record later { slots = s ∷ later.slots } else record others {
        messages = (n, s.message) ∷ others.messages;
        slots = record s { message_number = some n } ∷ others.slots;
      }

  pub read : ChatInbox Message ChatId → List (ℕ × Message) × ChatInbox Message ChatId
  unfolding read_slots
  read inbox =
      let r = read_slots inbox.next_message_number inbox.slots in
      (r.messages, record { slots = r.slots; next_message_number = r.next })

  abbrev pub unsent : ChatInboxSlot Message ChatId → ChatInboxSlot Message ChatId
  unsent s = record s { message_number = none }

  pub mark_unread : ChatInbox Message ChatId → ChatInbox Message ChatId
  mark_unread inbox = record inbox { slots = map unsent inbox.slots }

  pub attribute_in : List (ChatInboxSlot Message ChatId) → ℕ → Option (MessageAttribution ChatId)
  attribute_in [] k = none
  attribute_in (s ∷ slots) k =
      let rest = attribute_in slots k in
      if is_number s.message_number k then s.attribution else rest

  pub attribute : ChatInbox Message ChatId → ℕ → Option (MessageAttribution ChatId)
  unfolding attribute_in
  attribute inbox k = attribute_in inbox.slots k

  -- `ClientChatData::receive`
  pub receive :
      ClientChatData Message ChatId
      → Message
      → Option (MessageAttribution ChatId)
      → ClientChatData Message ChatId
  unfolding write
  receive chat message attribution =
      if is_muted chat.muted attribution
      then chat
      else record chat { inbox = write chat.inbox message attribution }

  pub sender_attribution :
      PlayerRepo Message ChatId → PlayerId → ℕ → Option (MessageAttribution ChatId)
  unfolding attribute
  sender_attribution players p k = elim (players p) [
    | none ↦ none
    | some none ↦ none
    | some (some chat) ↦ attribute chat.inbox k
  ]

  abbrev mute_client :
      PlayerRepo Message ChatId
      → PlayerId
      → ClientChatData Message ChatId
      → IpAddr
      → ℕ
      → Reply Message × PlayerRepo Message ChatId
  mute_client players p chat ip k =
      if leb 32 (length chat.muted)
      then (err too_many_muted, players)
      else if contains chat.muted ip
      then (err already_muted, players)
      else (
        ok (muted_sender k),
        put players p (some (some (record chat { muted = ip ∷ chat.muted }))),
      )

  pub mute_player :
      PlayerRepo Message ChatId → PlayerId → ℕ → Reply Message × PlayerRepo Message ChatId
  unfolding sender_attribution
  mute_player players p k = elim (sender_attribution players p k) [
    | none ↦ (err unknown_sender, players)
    | some a ↦ elim (players p) [
      | none ↦ (err nonsense, players)
      | some none ↦ (err only_clients, players)
      | some (some chat) ↦ mute_client players p chat a.sender_ip k
    ]
  ]

  pub unmute_player :
      PlayerRepo Message ChatId → PlayerId → ℕ → Reply Message × PlayerRepo Message ChatId
  unfolding sender_attribution
  unmute_player players p k = elim (sender_attribution players p k) [
    | none ↦ (err unknown_sender, players)
    | some a ↦ elim (players p) [
      | none ↦ (err nonsense, players)
      | some none ↦ (err only_clients, players)
      | some (some chat) ↦ (
        ok (unmuted_sender k),
        put players p (some (some (record chat { muted = without chat.muted a.sender_ip }))),
      )
    ]
  ]

  pub player_delta :
      ClientChatData Message ChatId → Option (ChatUpdate Message) × ClientChatData Message ChatId
  unfolding read read_is_empty
  player_delta chat =
      if read_is_empty chat.inbox
      then (none, chat)
      else (some (received (read chat.inbox).0), record chat { inbox = (read chat.inbox).1 })

  receive_all :
      ClientChatData Message ChatId
      → List (Message × Option (MessageAttribution ChatId))
      → ClientChatData Message ChatId
  unfolding receive
  receive_all chat [] = chat
  receive_all chat ((message, attribution) ∷ messages) =
      receive_all (receive chat message attribution) messages

  -- The recent messages, oldest first, and the message of welcome.
  pub initialize_client :
      List (Message × Option (MessageAttribution ChatId)) → Message → ClientChatData Message ChatId
  unfolding receive receive_all
  initialize_client recent intro =
      receive (receive_all (record { muted = []; inbox = new_inbox }) recent) intro none
