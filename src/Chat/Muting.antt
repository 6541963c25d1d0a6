-- ===== src/Chat/Muting.antt =====
-- Muting and unmuting the sender of a message, in chat_repo.rs.
use kodiak.Base.{
  ℕ, ◌<◌, ◌≡◌, refl, ap, ◌∙◌, arith, true, false, inl, inr, some, List, [], ◌∷◌, length, leb,
  Bool-cases,
}
use kodiak.Ids.{PlayerId}
use kodiak.Limiter.Ip.{IpAddr, same_ip}
use kodiak.Limiter.Ip.Counts.{same_ip_refl}
use kodiak.Team.Model.{put, put_self, put-put}
use kodiak.Team.Roster.Facts.{put_same}
use kodiak.Chat.Silence.{Later, Later-HasMuted}
use kodiak.Chat.{
  ClientChatData, PlayerRepo, MessageAttribution, ok, muted_sender, unmuted_sender, contains,
  attribute, sender_attribution, receive, without, mute_player, unmute_player,
}

without_absent : (ips : List IpAddr) (ip : IpAddr) → contains ips ip ≡ false → without ips ip ≡ ips
without_absent [] ip e = refl
without_absent (other ∷ ips) ip e = elim (Bool-cases (same_ip ip other)) [
  | inl s ↦ absurd (ground arith)
  | inr s ↦ rw (s, without_absent ips ip (ground arith)) refl
]

module _ {Message ChatId : Type 0} (players : PlayerRepo Message ChatId) (p : PlayerId) (k : ℕ)
    (chat : ClientChatData Message ChatId) (a : MessageAttribution ChatId) where
  abbrev pub muting : ClientChatData Message ChatId
  muting = record chat { muted = a.sender_ip ∷ chat.muted }

  sender_known :
      (players : PlayerRepo Message ChatId) (chat : ClientChatData Message ChatId)
      → players p ≡ some (some chat)
      → attribute chat.inbox k ≡ some a
      → sender_attribution players p k ≡ some a
  unfolding sender_attribution
  sender_known players chat there known = rw (sender_attribution, there) known

  receive_muted :
      (chat : ClientChatData Message ChatId) (m : Message) (a' : MessageAttribution ChatId)
      → contains chat.muted a.sender_ip ≡ true
      → a'.sender_ip ≡ a.sender_ip
      → receive chat m (some a') ≡ chat
  unfolding receive
  receive_muted chat m a' held e = rw (receive, e, held) refl

  -- A client that mutes the sender of a message, where it knows the sender, has muted fewer than 32
  -- addresses and not this one, is told so, and unmuting the sender of the same message at once
  -- restores all players as they were. After the muting, and however messages are then delivered and
  -- sent, inboxes start over, clients mute and unmute senders, and other players come and go, as long
  -- as this client does not unmute this address: the client is still there, and a message from the
  -- address leaves all of its chat as it was.
  pub mute_player-unmute_player :
      players p ≡ some (some chat)
      → attribute chat.inbox k ≡ some a
      → length chat.muted < 32
      → contains chat.muted a.sender_ip ≡ false
      → (later : PlayerRepo Message ChatId)
      → Later p a.sender_ip (put players p (some (some muting))) later
      → (m : Message) (a' : MessageAttribution ChatId) → a'.sender_ip ≡ a.sender_ip
      → (mute_player players p k ≡ (ok (muted_sender k), put players p (some (some muting))))
        × (unmute_player (put players p (some (some muting))) p k
            ≡ (ok (unmuted_sender k), players))
        × ((chat' : ClientChatData Message ChatId) × (later p ≡ some (some chat'))
            × (receive chat' m (some a') ≡ chat'))
  unfolding mute_player unmute_player
  mute_player-unmute_player there known room fresh later events m a' from_there =
      let full : leb 32 (length chat.muted) ≡ false = ground arith in
      let muted_players = put players p (some (some muting)) in
      let there' = put_self players p (some (some muting)) in
      let (chat', still, held) =
        Later-HasMuted p a.sender_ip muted_players later events
          (muting, there', rw (same_ip_refl a.sender_ip) refl) in
      (
        rw (mute_player, sender_known players chat there known, there, full, fresh) refl,
        rw
            (
              unmute_player,
              sender_known muted_players muting there' known,
              there',
              same_ip_refl a.sender_ip,
              without_absent chat.muted a.sender_ip fresh,
            )
            (ap (λ ps. (ok (unmuted_sender k), ps))
              (put-put players p (some (some muting)) (some (some chat))
                ∙ put_same players p (some (some chat)) there)),
        (chat', still, receive_muted chat' m a' held from_there),
      )
