-- ===== src/Chat/Tests.antt =====
-- An inbox with a message that was sent and one that was not; messages and ids are numbers.
use kodiak.Base.{ℕ, ◌≡◌, refl, arith, true, none, some, [], ◌∷◌, map, All}
use kodiak.Ids.{PlayerId}
use kodiak.Limiter.Ip.{v4, same_ip}
use kodiak.Team.Model.{put}
use kodiak.Chat.{
  ChatInbox, ChatInboxSlot, ClientChatData, PlayerRepo, MessageAttribution, new_inbox, write, read,
  read_slots, read_is_empty, attribute, ok, muted_sender, unmuted_sender, mute_player,
  unmute_player, receive, player_delta,
}
use kodiak.Chat.Delivery.{
  Reached, fresh, written, was_read, unread_messages, Delivered, read-Delivered, Reached-attribute,
}
use kodiak.Chat.Silence.{Later, now, received, sent}
use kodiak.Chat.Muting.{muting, mute_player-unmute_player}

abbrev sender : MessageAttribution ℕ
sender = record { chat_id = 5; sender_ip = v4 7 }

abbrev one_sent : ChatInbox ℕ ℕ
one_sent = (read (write new_inbox 11 (some sender))).1

abbrev two : ChatInbox ℕ ℕ
two = write one_sent 12 none

two-Reached : Reached two
two-Reached = written 12 none (was_read (written 11 (some sender) fresh))

read-Delivered_example :
    (map (λ r. r.1) (read two).0 ≡ unread_messages two.slots)
    × All (Delivered two) (read two).0
    × (read_is_empty (read two).1 ≡ true)
read-Delivered_example = read-Delivered two two-Reached

-- The second message gets the next number.
second : (read two).0 ≡ (1, 12) ∷ []
unfolding write read read_slots
second = refl

abbrev sent_slot : ChatInboxSlot ℕ ℕ
sent_slot = record { message = 11; attribution = some sender; message_number = some 0 }

Reached-attribute_example : attribute two 0 ≡ some sender
unfolding write read read_slots
Reached-attribute_example = Reached-attribute two two-Reached 0 sent_slot 0 refl refl

abbrev player : PlayerId
player = (1, (omega arith, omega arith))

abbrev chat : ClientChatData ℕ ℕ
chat = record { muted = v4 9 ∷ []; inbox = two }

abbrev players : PlayerRepo ℕ ℕ
players = put (λ p. none) player (some (some chat))

abbrev muted_players : PlayerRepo ℕ ℕ
muted_players = put players player (some (some (muting players player 0 chat sender)))

-- The client is sent its messages, and then another one is delivered.
abbrev sent_chat : ClientChatData ℕ ℕ
sent_chat = (player_delta (muting players player 0 chat sender)).1

abbrev later_players : PlayerRepo ℕ ℕ
later_players =
    put (put muted_players player (some (some sent_chat))) player
      (some (some (receive sent_chat 13 none)))

later_players-Later : Later player (v4 7) muted_players later_players
later_players-Later =
    received player sent_chat 13 none refl
      (sent player (muting players player 0 chat sender) refl now)

abbrev same_sender : MessageAttribution ℕ
same_sender = record { chat_id = 6; sender_ip = v4 7 }

mute_player-unmute_player_example :
    (mute_player players player 0 ≡ (ok (muted_sender 0), muted_players))
    × (unmute_player muted_players player 0 ≡ (ok (unmuted_sender 0), players))
    × ((chat' : ClientChatData ℕ ℕ) × (later_players player ≡ some (some chat'))
        × (receive chat' 14 (some same_sender) ≡ chat'))
unfolding same_ip
mute_player-unmute_player_example =
    mute_player-unmute_player players player 0 chat sender refl Reached-attribute_example
      (omega arith) refl later_players later_players-Later 14 same_sender refl
