-- ===== src/Chat/Silence.antt =====
-- A client that has muted an address, in chat_repo.rs, whatever happens to the players afterwards.
use kodiak.Base.{
  ℕ, ◌≡◌, refl, sym, ap, subst, ◌∙◌, true, false, ◌&&◌, inl, inr, Option, none, some, List, [], ◌∷◌,
  leb, length, if_cases, Bool-cases, Option-cases,
}
use mathlib.Core.Option
use kodiak.Ids.{PlayerId}
use kodiak.Limiter.Ip.{IpAddr, same_ip}
use kodiak.Limiter.Ip.Counts.{same_ip_eq}
use kodiak.Team.{same_id}
use kodiak.Team.Model.{put, same_id-eq}
use kodiak.Chat.{
  ClientChatData, PlayerRepo, Reply, MessageAttribution, contains, without, mark_unread,
  read_is_empty, receive, sender_attribution, mute_player, unmute_player, player_delta,
}

-- Another address that is unmuted leaves this one muted.
without_other :
    (ips : List IpAddr) (ip other : IpAddr)
    → same_ip ip other ≡ false
    → contains ips ip ≡ true
    → contains (without ips other) ip ≡ true
without_other [] ip other ne held = held
without_other (i ∷ ips) ip other ne held = elim (Bool-cases (same_ip other i)) [
  | inl s ↦
      let e : i ≡ other = sym (same_ip_eq other i s) in
      let miss : same_ip ip i ≡ false = ap (same_ip ip) e ∙ ne in
      rw s (without_other ips ip other ne (rw miss at held))
  | inr s ↦ elim (Bool-cases (same_ip ip i)) [
    | inl here ↦ rw (s, here) refl
    | inr miss ↦ rw (s, miss) (without_other ips ip other ne (rw miss at held))
  ]
]

contains-cons :
    (ips : List IpAddr) (ip other : IpAddr)
    → contains ips ip ≡ true
    → contains (other ∷ ips) ip ≡ true
contains-cons ips ip other held = elim (Bool-cases (same_ip ip other)) [
  | inl s ↦ rw s refl
  | inr s ↦ rw s held
]

module _ {Message ChatId : Type 0} (p : PlayerId) (ip : IpAddr) where
  -- The players after any number of events: messages that are delivered, from whomever, what clients
  -- are sent, inboxes that start over, senders that any client mutes or unmutes, and other players
  -- that come and go. Only the one client does not unmute the one address.
  pub data Later (start : PlayerRepo Message ChatId) : PlayerRepo Message ChatId → Type 0 where
    now : Later start start
    received :
        {players : PlayerRepo Message ChatId} (q : PlayerId) (chat : ClientChatData Message ChatId)
        (m : Message) (a : Option (MessageAttribution ChatId))
        → players q ≡ some (some chat)
        → Later start players
        → Later start (put players q (some (some (receive chat m a))))
    sent :
        {players : PlayerRepo Message ChatId} (q : PlayerId) (chat : ClientChatData Message ChatId)
        → players q ≡ some (some chat)
        → Later start players
        → Later start (put players q (some (some (player_delta chat).1)))
    restarted :
        {players : PlayerRepo Message ChatId} (q : PlayerId) (chat : ClientChatData Message ChatId)
        → players q ≡ some (some chat)
        → Later start players
        → Later start (put players q (some (some (record chat { inbox = mark_unread chat.inbox }))))
    mutes :
        {players : PlayerRepo Message ChatId} (q : PlayerId) (k : ℕ)
        → Later start players
        → Later start (mute_player players q k).1
    unmutes :
        {players : PlayerRepo Message ChatId} (q : PlayerId) (k : ℕ)
        → ((a : MessageAttribution ChatId)
            → sender_attribution players q k ≡ some a
            → (same_id q p && same_ip ip a.sender_ip) ≡ false)
        → Later start players
        → Later start (unmute_player players q k).1
    comes_or_goes :
        {players : PlayerRepo Message ChatId} (q : PlayerId)
        (o : Option (Option (ClientChatData Message ChatId)))
        → same_id q p ≡ false
        → Later start players
        → Later start (put players q o)

  -- The player is a client that has muted the address.
  abbrev pub HasMuted : PlayerRepo Message ChatId → Type 0
  HasMuted players =
      (chat : ClientChatData Message ChatId) × (players p ≡ some (some chat))
      × (contains chat.muted ip ≡ true)

  write-HasMuted :
      (players : PlayerRepo Message ChatId) (q : PlayerId)
      (chat chat' : ClientChatData Message ChatId)
      → players q ≡ some (some chat)
      → (same_id q p ≡ true → contains chat.muted ip ≡ true → contains chat'.muted ip ≡ true)
      → HasMuted players
      → HasMuted (put players q (some (some chat')))
  write-HasMuted players q chat chat' there keeps (c, e, held) = elim (Bool-cases (same_id q p)) [
    | inl s ↦
        let same : c ≡ chat =
          Option.some-injective _ _
            (Option.some-injective _ _ (sym e ∙ ap players (sym (same_id-eq q p s)) ∙ there)) in
        (chat', rw s refl, keeps s (subst (λ c. contains c.muted ip ≡ true) same held))
    | inr s ↦ (c, rw s e, held)
  ]

  receive-muted :
      (chat : ClientChatData Message ChatId) (m : Message) (a : Option (MessageAttribution ChatId))
      → (receive chat m a).muted ≡ chat.muted
  unfolding receive
  receive-muted chat m a =
      if_cases (λ (c : ClientChatData Message ChatId). c.muted ≡ chat.muted) _ (λ _. refl)
        (λ _. refl)

  player_delta-muted :
      (chat : ClientChatData Message ChatId) → (player_delta chat).1.muted ≡ chat.muted
  unfolding player_delta
  player_delta-muted chat = elim (Bool-cases (read_is_empty chat.inbox)) [
    | inl e ↦ rw e refl
    | inr e ↦ rw e refl
  ]

  abbrev Kept : Reply Message × PlayerRepo Message ChatId → Type 0
  Kept r = HasMuted r.1

  mute_player-HasMuted :
      (players : PlayerRepo Message ChatId) (q : PlayerId) (k : ℕ)
      → HasMuted players
      → HasMuted (mute_player players q k).1
  unfolding mute_player
  mute_player-HasMuted players q k m = elim (Option-cases (sender_attribution players q k)) [
    | inl e ↦ rw (mute_player, e) m
    | inr (a, e) ↦ elim (Option-cases (players q)) [
      | inl none_there ↦ rw (mute_player, e, none_there) m
      | inr (none, there) ↦ rw (mute_player, e, there) m
      | inr (some chat, there) ↦
          rw (mute_player, e, there)
            (if_cases Kept (leb 32 (length chat.muted)) (λ _. m)
              (λ _.
                if_cases Kept (contains chat.muted a.sender_ip) (λ _. m)
                  (λ _.
                    write-HasMuted players q chat _ there
                      (λ _ held. contains-cons chat.muted ip a.sender_ip held) m)))
    ]
  ]

  unmute_player-HasMuted :
      (players : PlayerRepo Message ChatId) (q : PlayerId) (k : ℕ)
      → ((a : MessageAttribution ChatId)
          → sender_attribution players q k ≡ some a
          → (same_id q p && same_ip ip a.sender_ip) ≡ false)
      → HasMuted players
      → HasMuted (unmute_player players q k).1
  unfolding unmute_player
  unmute_player-HasMuted players q k other m =
      elim (Option-cases (sender_attribution players q k)) [
        | inl e ↦ rw (unmute_player, e) m
        | inr (a, e) ↦ elim (Option-cases (players q)) [
          | inl none_there ↦ rw (unmute_player, e, none_there) m
          | inr (none, there) ↦ rw (unmute_player, e, there) m
          | inr (some chat, there) ↦
              rw (unmute_player, e, there)
                (write-HasMuted players q chat _ there
                  (λ s held. without_other chat.muted ip a.sender_ip (rw s at other a e) held) m)
        ]
      ]

  pub Later-HasMuted :
      (start players : PlayerRepo Message ChatId)
      → Later start players
      → HasMuted start
      → HasMuted players
  Later-HasMuted start _ now m = m
  Later-HasMuted start _ (received {players} q chat message a there l) m =
      write-HasMuted players q chat _ there (λ _ held. rw (receive-muted chat message a) held)
        (Later-HasMuted start players l m)
  Later-HasMuted start _ (sent {players} q chat there l) m =
      write-HasMuted players q chat _ there (λ _ held. rw (player_delta-muted chat) held)
        (Later-HasMuted start players l m)
  Later-HasMuted start _ (restarted {players} q chat there l) m =
      write-HasMuted players q chat _ there (λ _ held. held) (Later-HasMuted start players l m)
  Later-HasMuted start _ (mutes {players} q k l) m =
      mute_player-HasMuted players q k (Later-HasMuted start players l m)
  Later-HasMuted start _ (unmutes {players} q k other l) m =
      unmute_player-HasMuted players q k other (Later-HasMuted start players l m)
  Later-HasMuted start _ (comes_or_goes {players} q o ne l) m =
      let (chat, e, held) = Later-HasMuted start players l m in (chat, rw ne e, held)
