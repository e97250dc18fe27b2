-- ===== src/Service/Inbox/Examples.antt =====
-- A stranger's command is answered; a member's message is forwarded.
use reticulum_forwarding_ser.Base.{
  ◌≤◌, ◌≡◌, refl, inl, inr, true, false, [], ◌∷◌, length, none, replicate, arith,
}
use reticulum_forwarding_ser.Base.Bytes.{Bytes, ◌=ᵇ◌, has_prefix, hex_encode, hex_digit}
use reticulum_forwarding_ser.Base.Text.{codes}
use reticulum_forwarding_ser.Base.Assoc.{lookup}
use reticulum_forwarding_ser.Roster.{has, is_banned, is_paused, normalize_hash, active_hashes}
use reticulum_forwarding_ser.Commands.Examples.{env, sender, roster}
use reticulum_forwarding_ser.Commands.Parser.{is_command}
use reticulum_forwarding_ser.Service.Fields.{empty}
use reticulum_forwarding_ser.Service.Inbox.{Inbound, Config, State, trim_right, on_lxmf_received}
use reticulum_forwarding_ser.Service.Inbox.Gates.{Answered, on_lxmf_received-Answered}
use reticulum_forwarding_ser.Service.Inbox.Fanout.{
  Forwarded, forwarded_nick, forwarded_text, forwarded_body, on_lxmf_received-Forwarded,
}

abbrev cfg : Config
cfg = record {
  commands = env;
  policy = record {
    forward_attachments = true;
    forwarded_fields = 6 ∷ [];
    max_attachment_bytes = 1000;
    atoi = λ s. none;
    size_of = λ v. none;
    decimal = λ n. [];
    kilobytes = λ n. [];
  };
  max_inbound_chars = 100;
  id_cache_ttl = 60;
  replay_count = 5;
  replay_max_age = 60;
  rune_count = λ s. length s;
  parses = λ s. false;
  new_id = λ n. n ∷ [];
  error_text = λ e. [];
  resolve_text = λ e. [];
  announce_error = [];
  touch_saves = true;
  mark_saves = true;
  history_saves = true;
}

abbrev service : State
service = record {
  roster = roster;
  history = record { capacity = 10; entries = [] };
  has_idmap = false;
  cache = record {
    max_size = 10;
    by_msg_id = [];
    lru = [];
    heap = λ b. record { views = []; expires_at = 0; listed = false };
  };
  next_bubble = 0;
  queue = record {
    pending = [];
    in_flight = [];
    next_ref = 0;
    has_idmap = false;
    retry_wait = 1;
    path_request_wait = 1;
    max_attempts = 3;
    pathless_tries = 1;
    workers = 1;
  };
  started = [];
}

abbrev sent_by : Bytes → Inbound
sent_by hash = record {
  source_hash = hash;
  content = codes "hi";
  fields = empty;
  message_id = 9 ∷ [];
}

-- A stranger joins.
abbrev joining : Inbound
joining = record {
  source_hash = replicate 16 1;
  content = codes "/join";
  fields = empty;
  message_id = 8 ∷ [];
}

named : is_command (trim_right (codes "/join")) ≡ true
unfolding is_command trim_right has_prefix ◌=ᵇ◌
named = refl

on_lxmf_received-Answered_example :
    Answered cfg
      (is_command (trim_right (codes "/join")))
      (replicate 16 1)
      service
      (on_lxmf_received cfg joining service)
on_lxmf_received-Answered_example =
    on_lxmf_received-Answered cfg joining service (ground arith) refl (inr (inl named))

sender_allowed : is_banned service.roster sender ≡ false
unfolding is_banned normalize_hash lookup ◌=ᵇ◌ hex_encode hex_digit
sender_allowed = refl

sender_member : has service.roster sender ≡ true
unfolding has normalize_hash lookup ◌=ᵇ◌ hex_encode hex_digit
sender_member = refl

sender_awake : is_paused env.to_lower service.roster (hex_encode sender) ≡ false
unfolding is_paused lookup ◌=ᵇ◌ hex_encode hex_digit
sender_awake = refl

no_command : is_command (trim_right (codes "hi")) ≡ false
unfolding is_command trim_right has_prefix ◌=ᵇ◌
no_command = refl

short : length (trim_right (codes "hi")) ≤ 100
unfolding trim_right
short = omega arith

some_text : 1 ≤ length (trim_right (codes "hi"))
unfolding trim_right
some_text = omega arith

on_lxmf_received-Forwarded_example :
    Forwarded cfg
      (sent_by sender)
      (forwarded_nick cfg (sent_by sender) service)
      (forwarded_text cfg (sent_by sender) service)
      (forwarded_body cfg (sent_by sender) service)
      (active_hashes service.roster.users)
      service
      (on_lxmf_received cfg (sent_by sender) service)
on_lxmf_received-Forwarded_example =
    on_lxmf_received-Forwarded cfg (sent_by sender) service sender_allowed no_command (inr short)
      sender_member sender_awake refl some_text
