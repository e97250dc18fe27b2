-- ===== src/Service/Inbox/Fanout.antt =====
-- Whose messages are forwarded, and to whom.
use reticulum_forwarding_ser.Base.{
  ℕ, ◌≤◌, ◌≡◌, ◌⊎◌, refl, sym, ap, ◌∙◌, inl, inr, Bool, true, false, ◌&&◌, ltb, if◌then◌else◌, [],
  ◌++◌, length, ◌==◌, List, Option, none, Bool-cases, arith,
}
use reticulum_forwarding_ser.Base.Bytes.{Bytes, hex_encode}
use reticulum_forwarding_ser.Base.Text.{codes}
use reticulum_forwarding_ser.Roster.{
  Roster, has, is_banned, is_paused, is_text_only, touch, mark_message, active_hashes,
}
use reticulum_forwarding_ser.Roster.Finding.{get}
use reticulum_forwarding_ser.Roster.Presence.{
  SameStanding, trans-SameStanding, touch-SameStanding, mark_message-SameStanding, has-SameStanding,
  is_paused-SameStanding,
}
use reticulum_forwarding_ser.Commands.Parser.{is_command}
use reticulum_forwarding_ser.History.{Log, append}
use reticulum_forwarding_ser.Service.Fields.{
  empty, stamp_reactor_identity, has_reaction_field, is_primary_bubble,
}
use reticulum_forwarding_ser.Service.Sanitize.{sanitize_forward, sanitize_forward-clean}
use reticulum_forwarding_ser.Service.Rewrite.{build_rewrite, scan_targets}
use reticulum_forwarding_ser.Service.Forward.{forward_to_roster}
use reticulum_forwarding_ser.Service.Attachments.{filter_attachments, filter_loop}
use reticulum_forwarding_ser.Service.Inbox.{
  Inbound, Config, State, trim_right, sender_nick, with_notes, forward_body, with_bubble, deliver,
  on_chat, on_text, on_lxmf_received,
}
use reticulum_forwarding_ser.Service.Inbox.Deliveries.{
  plain_deliveries, forward-plain, queued_messages, pending-enqueue_all,
}

module _ (cfg : Config) where
  with_bubble-rest :
      (hex message_id : Bytes) (primary : Bool) (s : State)
      → let s' = (with_bubble cfg hex message_id primary s).1 in
        (s'.queue ≡ s.queue) × (s'.history ≡ s.history) × (s'.roster ≡ s.roster)
  unfolding with_bubble
  with_bubble-rest hex message_id primary s =
      elim (Bool-cases (primary && (s.has_idmap && ltb 0 cfg.id_cache_ttl))) [
        | inl e ↦ rw e (refl, refl, refl)
        | inr e ↦ rw e (refl, refl, refl)
      ]

  no_targets :
      (b : Bool) (s : State)
      → (if b
          then build_rewrite cfg.policy.atoi cfg.commands.now empty s.cache
          else (none, s.cache))
        ≡ (none, s.cache)
  unfolding build_rewrite scan_targets
  no_targets true s = refl
  no_targets false s = refl

  no_stamp : (hash : Bytes) → (stamp_reactor_identity cfg.policy.atoi hash empty).0 ≡ empty
  unfolding stamp_reactor_identity has_reaction_field
  no_stamp hash = ground arith

  abbrev logged : Inbound → Bytes → Bytes → Log → Log
  logged msg nick content l =
      (append cfg.history_saves
        (record {
          at = cfg.commands.now;
          sender_hash = hex_encode msg.source_hash;
          sender_nick = nick;
          content = content;
        })
        l).0

  -- What plain text does to the queue and the log.
  pub record Forwarded (msg : Inbound) (nick content body : Bytes) (active : List Bytes)
      (s s' : State) : Type 0 where
    pub bubble : Option ℕ
    pub queued :
        s'.queue.pending
        ≡ s.queue.pending
          ++ queued_messages cfg bubble
              (plain_deliveries (hex_encode msg.source_hash) body active)
              s.queue.next_ref
    pub kept : s'.history ≡ (
        if ltb 0 (length (plain_deliveries (hex_encode msg.source_hash) body active))
        then logged msg nick content s.history
        else s.history)

  deliver-Forwarded :
      (msg : Inbound) (nick content body : Bytes) (s : State)
      → (length body == 0) ≡ false
      → (length content == 0) ≡ false
      → Forwarded msg nick content body
          (active_hashes s.roster.users)
          s
          (deliver cfg msg nick content body empty s)
  unfolding deliver
  deliver-Forwarded msg nick content body s some_body some_content =
      let hex = hex_encode msg.source_hash in
      let (bubble, s') =
        with_bubble cfg hex msg.message_id
          (is_primary_bubble cfg.policy.atoi cfg.parses content empty) s in
      let (same_queue, same_history, same_roster) =
        with_bubble-rest hex msg.message_id
          (is_primary_bubble cfg.policy.atoi cfg.parses content empty) s in
      let plain = plain_deliveries hex body (active_hashes s.roster.users) in
      let same : forward_to_roster (is_text_only cfg.commands.to_lower s'.roster) none hex body
            empty (active_hashes s'.roster.users)
          ≡ plain =
        forward-plain (is_text_only cfg.commands.to_lower s'.roster) hex body
          (active_hashes s'.roster.users) some_body
        ∙ ap (λ r. plain_deliveries hex body (active_hashes r.users)) same_roster in
      rw (deliver, no_targets s.has_idmap s, no_stamp msg.source_hash, same, some_content)
        (record {
          bubble = bubble;
          queued =
              pending-enqueue_all cfg bubble plain s'.queue
              ∙ ap (λ q. q.pending ++ queued_messages cfg bubble plain q.next_ref) same_queue;
          kept = elim (Bool-cases (ltb 0 (length plain))) [
            | inl e ↦ rw e (ap (logged msg nick content) same_history)
            | inr e ↦ rw e same_history
          ];
        })

  sender_nick-SameStanding :
      (r r' : Roster) (hex : Bytes)
      → SameStanding r r'
      → sender_nick cfg r' hex ≡ sender_nick cfg r hex
  unfolding get
  sender_nick-SameStanding r r' hex s = ground (arith, s.members (cfg.commands.to_lower hex))

  filter-empty : filter_attachments cfg.policy empty ≡ (empty, [])
  unfolding filter_attachments filter_loop
  filter-empty = ground arith

  module _ (msg : Inbound) (s : State) where
    abbrev raw : Bytes
    raw = trim_right msg.content

    abbrev sender_hex : Bytes
    sender_hex = hex_encode msg.source_hash

    -- The text that is forwarded, and the body with the name of its sender.
    abbrev pub forwarded_text : Bytes
    forwarded_text = sanitize_forward raw

    abbrev pub forwarded_nick : Bytes
    forwarded_nick = sender_nick cfg s.roster sender_hex

    abbrev pub forwarded_body : Bytes
    forwarded_body = codes "[" ++ (forwarded_nick ++ (codes "] " ++ forwarded_text))

    some_text : 1 ≤ length raw → (length forwarded_text == 0) ≡ false
    some_text some_raw = ground (arith, sanitize_forward-clean raw)

    some_body : (length forwarded_body == 0) ≡ false
    some_body = ground arith

    on_chat-Forwarded :
        (r : Roster)
        → SameStanding s.roster r
        → msg.fields ≡ empty
        → 1 ≤ length raw
        → Forwarded msg forwarded_nick forwarded_text forwarded_body
            (active_hashes s.roster.users)
            s
            (on_chat cfg msg raw (record s { roster = r }))
    unfolding on_chat forward_body with_notes
    on_chat-Forwarded r same plain some_raw =
        let r' = (mark_message r cfg.mark_saves msg.source_hash cfg.commands.now).0 in
        let same' : SameStanding s.roster r' =
          trans-SameStanding same
            (mark_message-SameStanding r cfg.mark_saves msg.source_hash cfg.commands.now) in
        let nick : sender_nick cfg r' sender_hex ≡ forwarded_nick =
          sender_nick-SameStanding s.roster r' sender_hex same' in
        let found =
          deliver-Forwarded msg forwarded_nick forwarded_text forwarded_body
            (record s { roster = r' }) some_body (some_text some_raw) in
        let moved : Forwarded msg forwarded_nick forwarded_text forwarded_body
            (active_hashes s.roster.users) s
            (deliver cfg msg forwarded_nick forwarded_text forwarded_body empty
              (record s { roster = r' })) =
          rw (sym same'.active)
            (record { bubble = found.bubble; queued = found.queued; kept = found.kept }) in
        let unfiltered : filter_attachments cfg.policy msg.fields ≡ (empty, []) =
          ap (filter_attachments cfg.policy) plain ∙ filter-empty in
        rw (on_chat, unfiltered, nick, some_text some_raw) (rw some_body moved)

    -- Text without fields that a member sends who is not banned, not paused and within the limit,
    -- and that is no command, goes to every active member of 16 bytes but its sender, in the order
    -- of the roster, once each and behind the messages that wait: the text without control bytes
    -- behind the sender's name in brackets, without fields, all under the same bubble or under
    -- none. It is logged once when there is somebody to get it, and not otherwise.
    pub on_lxmf_received-Forwarded :
        is_banned s.roster msg.source_hash ≡ false
        → is_command raw ≡ false
        → (cfg.max_inbound_chars ≡ 0) ⊎ (cfg.rune_count raw ≤ cfg.max_inbound_chars)
        → has s.roster msg.source_hash ≡ true
        → is_paused cfg.commands.to_lower s.roster sender_hex ≡ false
        → msg.fields ≡ empty
        → 1 ≤ length raw
        → Forwarded msg forwarded_nick forwarded_text forwarded_body
            (active_hashes s.roster.users)
            s
            (on_lxmf_received cfg msg s)
    unfolding on_lxmf_received on_text
    on_lxmf_received-Forwarded allowed no_command in_limit member awake plain some_raw =
        let r = (touch s.roster cfg.touch_saves msg.source_hash cfg.commands.now).0 in
        let same = touch-SameStanding s.roster cfg.touch_saves msg.source_hash cfg.commands.now in
        let short : (ltb 0 cfg.max_inbound_chars && ltb cfg.max_inbound_chars (cfg.rune_count raw))
            ≡ false =
          ground (arith, in_limit) in
        let member' : has r msg.source_hash ≡ true =
          has-SameStanding s.roster r msg.source_hash same ∙ member in
        let awake' : is_paused cfg.commands.to_lower r sender_hex ≡ false =
          is_paused-SameStanding cfg.commands.to_lower s.roster r sender_hex same ∙ awake in
        rw (on_lxmf_received, allowed, no_command, on_text, short, member', awake')
          (on_chat-Forwarded r same plain some_raw)
