-- ===== src/Service/Inbox.antt =====
-- internal/service/inbox.go: what a verified message does. The state is what the handler reads and
-- changes; a goroutine that it starts is a call in `started`, and its work a step of its own. Log
-- lines are left out. `queue` is that of Outbound, whose n-th message has the id `new_id n`.
pub mod Replays
pub mod Gates
pub mod Deliveries
pub mod Fanout
mod Examples
use reticulum_forwarding_ser.Base.{
  ℕ, suc, Bool, true, false, not, ◌&&◌, ◌||◌, [], ◌∷◌, ◌++◌, ◌==◌, ltb, if◌then◌else◌, length, take,
  List, Option, none, some,
}
use reticulum_forwarding_ser.Base.Bytes.{Bytes, hex_encode}
use reticulum_forwarding_ser.Base.Text.{codes}
use reticulum_forwarding_ser.Roster
use reticulum_forwarding_ser.Roster.{
  Roster, has, is_banned, is_paused, is_text_only, touch, mark_message, active_hashes,
}
use reticulum_forwarding_ser.Roster.Finding.{ResolveError, get}
use reticulum_forwarding_ser.Commands.{
  Environment, Reply, text, failed, unresolved, announce_failed, Call, announces, joined,
}
use reticulum_forwarding_ser.Commands.Parser.{is_command, parse}
use reticulum_forwarding_ser.Commands.Dispatch.{dispatch}
use reticulum_forwarding_ser.History.{Log, append}
use reticulum_forwarding_ser.Idmap.{Bubble, Cache, new_bubble, register_view, write}
use reticulum_forwarding_ser.Outbound.{Queue, enqueue_bubble}
use reticulum_forwarding_ser.Service.Fields.{
  Dict, empty, entry, stamp_reactor_identity, is_primary_bubble, hex_decode,
}
use reticulum_forwarding_ser.Service.Sanitize.{sanitize_forward}
use reticulum_forwarding_ser.Service.Rewrite.{Targets, build_rewrite, rewrite_for}
use reticulum_forwarding_ser.Service.Forward.{Delivery, forward_to_roster}
use reticulum_forwarding_ser.Service.Attachments.{Policy, filter_attachments}
use reticulum_forwarding_ser.Service.Replay.{replay_history_to}

-- What lxmf.Message gives.
pub record Inbound : Type 0 where
  pub source_hash : Bytes
  pub content : Bytes
  pub fields : Dict
  pub message_id : Bytes

-- `commands` has the clock, and its `saves` are those of the command's writes. `rune_count` is
-- utf8.RuneCountInString, `parses` strconv.Atoi's success, and the texts of errors are parameters.
pub record Config : Type 0 where
  pub commands : Environment
  pub policy : Policy
  pub max_inbound_chars : ℕ
  pub id_cache_ttl : ℕ
  pub replay_count : ℕ
  pub replay_max_age : ℕ
  pub rune_count : Bytes → ℕ
  pub parses : Bytes → Bool
  pub new_id : ℕ → Bytes
  pub error_text : Roster.Error → Bytes
  pub resolve_text : ResolveError → Bytes
  pub announce_error : Bytes
  pub touch_saves : Bool
  pub mark_saves : Bool
  pub history_saves : Bool

-- `has_idmap` says that the cache is installed; `next_bubble` is a bubble that is not in use.
pub record State : Type 0 where
  pub roster : Roster
  pub history : Log
  pub has_idmap : Bool
  pub cache : Cache
  pub next_bubble : ℕ
  pub queue : Queue Dict
  pub started : List Call

-- `strings.TrimRight(content, "\r\n")`, from the byte in front of what is kept of the rest.
abbrev trim_end : ℕ → Bytes → Bytes
trim_end c [] = if c == 13 || c == 10 then [] else c ∷ []
trim_end c (d ∷ s) = c ∷ d ∷ s

pub trim_right : Bytes → Bytes
trim_right [] = []
trim_right (c ∷ s) = trim_end c (trim_right s)

abbrev pub invite : Bytes
invite =
    codes
      "Welcome. To join this chat send /join. Send /? for help. Until you join, your messages aren't forwarded."

abbrev pub paused_notice : Bytes
paused_notice = codes "You're paused. Your message wasn't forwarded. Send /resume to come back."

module _ (cfg : Config) where
  -- EnqueueBubble; Enqueue has no fields and no bubble.
  unfoldable pub enqueue : Bytes → Bytes → Dict → Option ℕ → Queue Dict → Queue Dict
  enqueue recipient body fields bubble q =
      enqueue_bubble (cfg.new_id q.next_ref) cfg.commands.now recipient body fields bubble q

  unfoldable pub answer : Bytes → Bytes → State → State
  unfolding enqueue
  answer sender body s = record s { queue = enqueue sender body empty none s.queue }

  abbrev pub reply_text : Reply → Bytes
  reply_text (text t) = t
  reply_text (failed prefix e) = prefix ++ cfg.error_text e
  reply_text (unresolved e) = cfg.resolve_text e
  reply_text announce_failed = codes "Announce failed: " ++ cfg.announce_error

  unfoldable pub on_command : Bytes → Bytes → State → State
  on_command sender content s =
      let o = dispatch cfg.commands s.roster (hex_encode sender) (parse cfg.commands content) in
      let s' : State = record s { roster = o.roster; started = s.started ++ o.calls } in
      let reply = reply_text o.reply in
      if not (length reply == 0) then answer sender reply s' else s'

  pub over_inbound_limit : ℕ → Bytes
  over_inbound_limit count =
      codes "Message rejected: limit is "
      ++ (cfg.commands.decimal cfg.max_inbound_chars
          ++ (codes " characters per message, yours was "
              ++ (cfg.commands.decimal count ++ codes ". Please shorten and resend.")))

  -- The notes behind the text.
  unfoldable pub with_notes : Bytes → List Bytes → Bytes
  with_notes body [] = body
  with_notes body (note ∷ notes) =
      let longer = if length body == 0 then note else body ++ (32 ∷ note) in with_notes longer notes

  abbrev pub sender_nick : Roster → Bytes → Bytes
  sender_nick r hex = elim (get cfg.commands.to_lower cfg.commands.trim_space r hex) [
    | none ↦ take 8 hex
    | some u ↦ if length u.nickname == 0 then take 8 hex else u.nickname
  ]

  unfoldable pub forward_body : Bytes → Bytes → List Bytes → Bytes
  unfolding with_notes
  forward_body nick content drops =
      with_notes
        (if not (length content == 0) then codes "[" ++ (nick ++ (codes "] " ++ content)) else [])
        drops

  -- The calls of EnqueueBubble of a fan-out.
  unfoldable pub enqueue_all : Option ℕ → List Delivery → Queue Dict → Queue Dict
  enqueue_all bubble [] q = q
  enqueue_all bubble (d ∷ ds) q =
      enqueue_all bubble ds (enqueue d.recipient d.body d.fields bubble q)

  -- The new bubble of a primary message, with the sender's own view, and the state with it.
  unfoldable pub with_bubble : Bytes → Bytes → Bool → State → Option ℕ × State
  with_bubble hex message_id primary s =
      let b = s.next_bubble in
      let fresh : Cache = record s.cache {
        heap = write b (new_bubble cfg.id_cache_ttl cfg.commands.now) s.cache.heap;
      } in
      if primary && (s.has_idmap && ltb 0 cfg.id_cache_ttl)
      then (
        some b,
        record s {
          cache = register_view cfg.commands.now (some b) hex (hex_encode message_id) fresh;
          next_bubble = suc b;
        },
      )
      else (none, s)

  abbrev pub closure : Option Targets → (ℕ → Bubble) → Option (Bytes → Dict → Option Dict)
  closure none heap = none
  closure (some t) heap = some (rewrite_for cfg.policy.atoi heap t)

  -- The fan-out and the log, from the text and the fields that are forwarded.
  unfoldable pub deliver : Inbound → Bytes → Bytes → Bytes → Dict → State → State
  deliver msg nick content body fields s =
      let hex = hex_encode msg.source_hash in
      let (targets, cache) =
        if s.has_idmap
        then build_rewrite cfg.policy.atoi cfg.commands.now fields s.cache
        else (none, s.cache) in
      let (bubble, s') =
        with_bubble hex msg.message_id (is_primary_bubble cfg.policy.atoi cfg.parses content fields)
          (record s { cache = cache }) in
      let stamped = (stamp_reactor_identity cfg.policy.atoi msg.source_hash fields).0 in
      let deliveries =
        forward_to_roster (is_text_only cfg.commands.to_lower s'.roster)
          (closure targets s'.cache.heap) hex body stamped (active_hashes s'.roster.users) in
      record s' {
        queue = enqueue_all bubble deliveries s'.queue;
        history =
            (if ltb 0 (length deliveries) && not (length content == 0)
              then (append cfg.history_saves
                  (record {
                    at = cfg.commands.now;
                    sender_hash = hex;
                    sender_nick = nick;
                    content = content;
                  })
                  s'.history).0
              else s'.history);
      }

  abbrev pub no_fields : Dict → Bool
  no_fields empty = true
  no_fields (entry k v d) = false

  -- From MarkMessage on.
  unfoldable pub on_chat : Inbound → Bytes → State → State
  on_chat msg raw s =
      let r = (mark_message s.roster cfg.mark_saves msg.source_hash cfg.commands.now).0 in
      let nick = sender_nick r (hex_encode msg.source_hash) in
      let content = sanitize_forward raw in
      let (fields, drops) = filter_attachments cfg.policy msg.fields in
      let body = forward_body nick content drops in
      let s' : State = record s { roster = r } in
      if length body == 0 && no_fields fields then s' else deliver msg nick content body fields s'

  -- A message that is no command.
  unfoldable pub on_text : Inbound → Bytes → State → State
  on_text msg content s =
      let sender = msg.source_hash in
      let count = cfg.rune_count content in
      if ltb 0 cfg.max_inbound_chars && ltb cfg.max_inbound_chars count
      then answer sender (over_inbound_limit count) s
      else if not (has s.roster sender)
      then answer sender invite s
      else if is_paused cfg.commands.to_lower s.roster (hex_encode sender)
      then answer sender paused_notice s
      else on_chat msg content s

  unfoldable pub on_lxmf_received : Inbound → State → State
  on_lxmf_received msg s =
      let touched : State = record s {
        roster = (touch s.roster cfg.touch_saves msg.source_hash cfg.commands.now).0;
      } in
      let content = trim_right msg.content in
      if is_banned s.roster msg.source_hash
      then s
      else if is_command content
      then on_command msg.source_hash content touched
      else on_text msg content touched

  unfoldable pub enqueue_bodies : Bytes → List Bytes → Queue Dict → Queue Dict
  enqueue_bodies recipient [] q = q
  enqueue_bodies recipient (b ∷ bs) q =
      enqueue_bodies recipient bs (enqueue recipient b empty none q)

  -- onJoin with the whole work of the goroutine that it starts.
  unfoldable pub on_join : Bytes → State → State
  on_join sender_hex s = elim (hex_decode sender_hex) [
    | none ↦ s
    | some joiner ↦ if not (length joiner == 16) || cfg.replay_count == 0 then s else record s {
      queue =
          enqueue_bodies joiner
            (replay_history_to cfg.commands.decimal cfg.replay_max_age cfg.commands.now s.history)
            s.queue;
    }
  ]

  -- What the hooks do that were called, whenever they do it: the announce sends a packet, which is
  -- no part of the state, and a join starts the replay.
  unfoldable pub run_calls : List Call → State → State
  run_calls [] s = s
  run_calls (announces ∷ calls) s = run_calls calls s
  run_calls (joined sender_hex ∷ calls) s = run_calls calls (on_join sender_hex s)
