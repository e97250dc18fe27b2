-- ===== src/Commands/Examples.antt =====
-- A member without a role sends a kick, and a list of two lines is cut to one.
use reticulum_forwarding_ser.Base.{
  ℕ, ◌+◌, ◌-◌, ◌≤◌, ◌<◌, ◌≡◌, ◌⊎◌, refl, true, false, [], ◌∷◌, ◌++◌, length, take, List, All, none,
  some, replicate, arith,
}
use reticulum_forwarding_ser.Base.Bytes.{Bytes, ◌=ᵇ◌, hex_encode, hex_digit}
use reticulum_forwarding_ser.Base.Text.{codes}
use reticulum_forwarding_ser.Base.Assoc.{lookup}
use reticulum_forwarding_ser.Roster.{User, Roster, role_none, has, normalize_hash}
use reticulum_forwarding_ser.Roster.Finding.{get}
use reticulum_forwarding_ser.Roster.Roles.{Unraised}
use reticulum_forwarding_ser.Commands.{Environment, user}
use reticulum_forwarding_ser.Commands.Parser.{Parsed}
use reticulum_forwarding_ser.Commands.Nicknames.{
  must_hex_bytes, hex_bytes, hex_nibble, sanitize_nickname, nick_matches,
  nick_matches-sanitize_nickname,
}
use reticulum_forwarding_ser.Commands.Lists.{
  footer, fit_lines, fit_list, joined_lines, fit_list_fits,
}
use reticulum_forwarding_ser.Commands.Callers.{derive_caller, config_role, is_admin_role}
use reticulum_forwarding_ser.Commands.Dispatch.{dispatch}
use reticulum_forwarding_ser.Commands.Dispatch.Permissions.{Quiet, dispatch-Quiet}
use reticulum_forwarding_ser.Commands.Dispatch.Admins.{dispatch-Unraised}

abbrev pub env : Environment
env = record {
  to_lower = λ s. s;
  trim_space = λ s. s;
  fields = λ s. s ∷ [];
  decimal = λ n. (48 + n) ∷ [];
  duration = λ n. [];
  quoted = λ s. s;
  runes = λ s. s;
  sort_strings = λ hs. hs;
  sort_slice = λ less us. us;
  version = [];
  repo_url = [];
  admins = [];
  mods = [];
  max_members = 0;
  announce = some true;
  path_lookup = none;
  on_join = true;
  lookup_announced_name = none;
  max_reply_content_bytes = 60;
  saves = true;
  saves_next = true;
  now = 7;
}

abbrev plain : User
plain = record {
  nickname = codes "ann";
  joined_at = 1;
  last_announce_at = 0;
  last_message_at = 1;
  last_command_at = 0;
  paused = false;
  text_only = false;
  role = role_none;
}

abbrev pub sender : Bytes
sender = replicate 16 0

abbrev other_hex : Bytes
other_hex = replicate 32 49

abbrev pub roster : Roster
roster = record {
  users = (replicate 32 48, plain) ∷ (other_hex, record plain { nickname = codes "bob" }) ∷ [];
  banlist = [];
  has_store = false;
  saved = ([], []);
}

abbrev kick_bob : Parsed
kick_bob = record { name = codes "kick"; args = codes "bob" ∷ []; raw = codes "/kick bob" }

sender_role : (derive_caller env roster (hex_encode sender)).role ≡ user
unfolding derive_caller must_hex_bytes hex_bytes hex_nibble has normalize_hash config_role get
    lookup ◌=ᵇ◌ hex_encode hex_digit
sender_role = refl

sender_bytes : All (λ b. b < 256) sender
sender_bytes = ground arith

dispatch-Quiet_example :
    Quiet (hex_encode sender) roster (dispatch env roster (hex_encode sender) kick_bob)
dispatch-Quiet_example =
    dispatch-Quiet env roster sender refl sender_bytes refl kick_bob sender_role

no_admin : is_admin_role (derive_caller env roster (hex_encode sender)).role ≡ false
unfolding derive_caller must_hex_bytes hex_bytes hex_nibble has normalize_hash config_role get
    lookup ◌=ᵇ◌ hex_encode hex_digit
no_admin = refl

dispatch-Unraised_example :
    Unraised roster (dispatch env roster (hex_encode sender) kick_bob).roster
dispatch-Unraised_example =
    dispatch-Unraised env roster sender kick_bob refl sender_bytes refl no_admin

abbrev two_lines : List Bytes
two_lines = replicate 10 97 ∷ replicate 50 98 ∷ []

room : length (codes "Users:") + length (footer env 2) ≤ 60
unfolding footer
room = omega arith

fit_list_fits_example :
    (length (fit_list env (codes "Users:") two_lines) ≤ 60)
    × (length (codes "Users:" ++ joined_lines two_lines) ≤ 60
        → fit_list env (codes "Users:") two_lines ≡ codes "Users:" ++ joined_lines two_lines)
    × (60 < length (codes "Users:" ++ joined_lines two_lines)
        → (kept : ℕ) × (kept < 2)
          × (fit_list env (codes "Users:") two_lines
              ≡ codes "Users:" ++ (joined_lines (take kept two_lines) ++ footer env (2 - kept))))
fit_list_fits_example = fit_list_fits env (codes "Users:") two_lines (omega arith) room

nick_matches-sanitize_nickname_example :
    (sanitize_nickname (codes "Bob & Al") ≡ [])
    ⊎ (nick_matches (sanitize_nickname (codes "Bob & Al")) ≡ true)
nick_matches-sanitize_nickname_example = nick_matches-sanitize_nickname (codes "Bob & Al")

-- The first line fits with the footer, the second has no room.
cut :
    fit_list env (codes "Users:") two_lines
    ≡ codes "Users:" ++ (joined_lines (replicate 10 97 ∷ []) ++ footer env 1)
unfolding fit_list fit_lines footer joined_lines
cut = refl
