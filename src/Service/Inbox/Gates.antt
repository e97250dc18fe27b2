-- ===== src/Service/Inbox/Gates.antt =====
-- Whose messages are not forwarded.
use reticulum_forwarding_ser.Base.{
  ◌≡◌, ◌⊎◌, refl, ap, ◌∙◌, inl, inr, Bool, true, false, not, ◌&&◌, ltb, if◌then◌else◌, [], ◌∷◌,
  ◌++◌, length, ◌==◌, none, List, All, sym, Bool-cases,
}
use reticulum_forwarding_ser.Base.Bytes.{Bytes, IsByte, hex_encode}
use reticulum_forwarding_ser.Roster.{has, is_banned, is_paused, touch}
use reticulum_forwarding_ser.Roster.Presence.{
  touch-SameStanding, has-SameStanding, is_paused-SameStanding,
}
use reticulum_forwarding_ser.Commands.Parser.{is_command, parse}
use reticulum_forwarding_ser.Commands.Dispatch.{dispatch}
use reticulum_forwarding_ser.Outbound.{Message, enqueue_bubble}
use reticulum_forwarding_ser.Service.Fields.{Dict, empty, hex_decode}
use reticulum_forwarding_ser.Commands.{Call}
use reticulum_forwarding_ser.Commands.Dispatch.Hooks.{dispatch-Hooked}
use mathlib.Core.List.{append-nil}
use reticulum_forwarding_ser.Service.Inbox.Replays.{
  Replayed, same-Replayed, hooks-Replayed, hex_decode-hex_encode, queued_message,
}
use reticulum_forwarding_ser.Service.Inbox.{
  run_calls, Inbound, Config, State, trim_right, enqueue, answer, reply_text, on_command, invite,
  paused_notice, on_text, on_lxmf_received,
}

module _ (cfg : Config) where
  -- Nothing is kept of the message. At most one message is queued, to its sender. The hooks that a
  -- command calls, and nothing else calls any, give the sender the replay at most.
  pub record Answered (command : Bool) (sender : Bytes) (s s' : State) : Type 0 where
    pub same_history : s'.history ≡ s.history
    pub same_cache : s'.cache ≡ s.cache
    pub queued :
        (s'.queue.pending ≡ s.queue.pending)
        ⊎ ((m : Message Dict) × (s'.queue.pending ≡ s.queue.pending ++ (m ∷ []))
            × (m.recipient ≡ sender)
            × (m.fields ≡ empty))
    pub calls : List Call
    pub called : s'.started ≡ s.started ++ calls
    pub no_calls : command ≡ false → calls ≡ []
    pub replayed : (t : State) → Replayed cfg sender t (run_calls cfg calls t)

  silent-Answered :
      (command : Bool) (sender : Bytes) (s s' : State)
      → s'.history ≡ s.history
      → s'.cache ≡ s.cache
      → s'.queue ≡ s.queue
      → s'.started ≡ s.started
      → Answered command sender s s'
  unfolding run_calls
  silent-Answered command sender s s' h c q e = record {
    same_history = h;
    same_cache = c;
    queued = inl (ap (λ x. x.pending) q);
    calls = [];
    called = e ∙ sym (append-nil s.started);
    no_calls = λ off. refl;
    replayed = λ t. same-Replayed cfg sender t;
  }

  -- An answer keeps what was called.
  answer-Answered :
      (command : Bool) (sender body : Bytes) (s s' : State)
      → s'.queue ≡ s.queue
      → Answered command sender s s'
      → Answered command sender s (answer cfg sender body s')
  unfolding answer enqueue enqueue_bubble
  answer-Answered command sender body s s' q h = record {
    same_history = h.same_history;
    same_cache = h.same_cache;
    queued = inr (
      queued_message cfg sender body empty none s'.queue.next_ref,
      ap (λ x. x.pending ++ (queued_message cfg sender body empty none s'.queue.next_ref ∷ [])) q,
      refl,
      refl,
    );
    calls = h.calls;
    called = h.called;
    no_calls = h.no_calls;
    replayed = h.replayed;
  }

  if-Answered :
      (command : Bool) (sender : Bytes) (s : State) (b : Bool) {x y : State}
      → Answered command sender s x
      → Answered command sender s y
      → Answered command sender s (if b then x else y)
  if-Answered command sender s true hx hy = hx
  if-Answered command sender s false hx hy = hy

  command-Answered :
      (sender content : Bytes) (s : State)
      → All IsByte sender
      → cfg.commands.to_lower (hex_encode sender) ≡ hex_encode sender
      → Answered true sender s (on_command cfg sender content s)
  unfolding on_command
  command-Answered sender content s bytes low =
      let o = dispatch cfg.commands s.roster (hex_encode sender) (parse cfg.commands content) in
      let s' : State = record s { roster = o.roster; started = s.started ++ o.calls } in
      let reply = reply_text cfg o.reply in
      let hooked =
        dispatch-Hooked cfg.commands s.roster (hex_encode sender) (parse cfg.commands content) in
      let unanswered : Answered true sender s s' = record {
        same_history = refl;
        same_cache = refl;
        queued = inl refl;
        calls = o.calls;
        called = refl;
        no_calls = λ off. absurd cc;
        replayed = λ t.
            hooks-Replayed cfg (cfg.commands.to_lower (hex_encode sender)) sender o t hooked
              (ap hex_decode low ∙ hex_decode-hex_encode sender bytes);
      } in
      if-Answered true sender s (not (length reply == 0))
        (answer-Answered true sender reply s s' refl unanswered) unanswered

  module _ (msg : Inbound) (s : State) where
    abbrev touched : State
    touched = record s {
      roster = (touch s.roster cfg.touch_saves msg.source_hash cfg.commands.now).0;
    }

    text-Answered :
        (content : Bytes)
        → (has s.roster msg.source_hash ≡ false)
          ⊎ (is_paused cfg.commands.to_lower s.roster (hex_encode msg.source_hash) ≡ true)
        → Answered false msg.source_hash s (on_text cfg msg content touched)
    unfolding on_text
    text-Answered content out =
        let sender = msg.source_hash in
        let same = touch-SameStanding s.roster cfg.touch_saves sender cfg.commands.now in
        let member = has-SameStanding s.roster touched.roster sender same in
        let paused =
          is_paused-SameStanding cfg.commands.to_lower s.roster touched.roster (hex_encode sender)
            same in
        let reply : (body : Bytes) → Answered false sender s (answer cfg sender body touched) =
          λ body.
            answer-Answered false sender body s touched refl
              (silent-Answered false sender s touched refl refl refl refl) in
        let count = cfg.rune_count content in
        if-Answered false sender s (ltb 0 cfg.max_inbound_chars && ltb cfg.max_inbound_chars count)
          (reply _)
          (elim out [
            | inl absent ↦
                (let gone : has touched.roster sender ≡ false = member ∙ absent in
                  rw gone (reply invite))
            | inr p ↦
                (let held = paused ∙ p in
                  if-Answered false sender s (not (has touched.roster sender)) (reply _)
                    (rw held (reply paused_notice)))
          ])

    -- A message from somebody who is banned, who is no member or who is paused, and any command,
    -- where the sender's hash is bytes and lower-casing leaves its hex text as it is: the log and
    -- the cache of message ids stay as they are, and the handler queues at most one message, an
    -- answer without fields to its sender. It calls hooks of the service for a command only, and
    -- all that they put in the queue, whenever they run, is the replay of the log, once at most, as
    -- messages without fields to the sender; the log, the cache and the roster stay as they are.
    pub on_lxmf_received-Answered :
        All IsByte msg.source_hash
        → cfg.commands.to_lower (hex_encode msg.source_hash) ≡ hex_encode msg.source_hash
        → (is_banned s.roster msg.source_hash ≡ true)
          ⊎ (is_command (trim_right msg.content) ≡ true)
          ⊎ (has s.roster msg.source_hash ≡ false)
          ⊎ (is_paused cfg.commands.to_lower s.roster (hex_encode msg.source_hash) ≡ true)
        → Answered
            (is_command (trim_right msg.content))
            msg.source_hash
            s
            (on_lxmf_received cfg msg s)
    unfolding on_lxmf_received
    on_lxmf_received-Answered bytes low out =
        let sender = msg.source_hash in
        let content = trim_right msg.content in
        let quiet : (b : Bool) → Answered b sender s s =
          λ b. silent-Answered b sender s s refl refl refl refl in
        let command : Answered true sender s (on_command cfg sender content touched) =
          (let h = command-Answered sender content touched bytes low in
            record {
              same_history = h.same_history;
              same_cache = h.same_cache;
              queued = h.queued;
              calls = h.calls;
              called = h.called;
              no_calls = h.no_calls;
              replayed = h.replayed;
            }) in
        let named : is_command content ≡ true
            → Answered (is_command content) sender s (on_lxmf_received cfg msg s) =
          λ e.
            if-Answered (is_command content) sender s (is_banned s.roster sender) (quiet _)
              (rw e command) in
        let unnamed : (has s.roster sender ≡ false)
              ⊎ (is_paused cfg.commands.to_lower s.roster (hex_encode sender) ≡ true)
            → Answered (is_command content) sender s (on_lxmf_received cfg msg s) =
          λ others.
            if-Answered (is_command content) sender s (is_banned s.roster sender) (quiet _)
              (elim (Bool-cases (is_command content)) [
                | inl e ↦ rw e command
                | inr e ↦ rw e (text-Answered content others)
              ]) in
        elim out [
          | inl banned ↦ rw (on_lxmf_received, banned) (quiet _)
          | inr (inl e) ↦ named e
          | inr (inr others) ↦ unnamed others
        ]
