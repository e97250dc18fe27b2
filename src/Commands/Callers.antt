-- ===== src/Commands/Callers.antt =====
-- internal/commands/handlers.go: who sends a command, and what the help says to them.
use reticulum_forwarding_ser.Base.{
  ℕ, Bool, true, false, not, ◌||◌, [], ◌∷◌, ◌++◌, ltb, if◌then◌else◌, List, Option, none, some,
}
use reticulum_forwarding_ser.Base.Bytes.{Bytes, ◌=ᵇ◌}
use reticulum_forwarding_ser.Base.Text.{codes}
use reticulum_forwarding_ser.Roster
use reticulum_forwarding_ser.Roster.{User, Roster, role_none, role_mod, role_admin, has}
use reticulum_forwarding_ser.Roster.Finding.{get}
use reticulum_forwarding_ser.Commands.{Role, user, moderator, admin, Environment}
use reticulum_forwarding_ser.Commands.Nicknames.{must_hex_bytes}

abbrev pub rank : Role → ℕ
rank user = 0
rank moderator = 1
rank admin = 2

abbrev pub at_least_mod : Role → Bool
at_least_mod user = false
at_least_mod moderator = true
at_least_mod admin = true

abbrev pub is_admin_role : Role → Bool
is_admin_role user = false
is_admin_role moderator = false
is_admin_role admin = true

pub record Caller : Type 0 where
  pub hash : Bytes
  pub hash_bytes : Option Bytes
  pub role : Role
  pub member : Bool
  pub paused : Bool
  pub text_only : Bool

abbrev pub parse_role : Roster.Role → Role
parse_role role_none = user
parse_role role_mod = moderator
parse_role role_admin = admin

pub role_name : Role → Bytes
role_name user = codes "user"
role_name moderator = codes "mod"
role_name admin = codes "admin"

abbrev pub contains : List Bytes → Bytes → Bool
contains [] needle = false
contains (h ∷ hs) needle = h =ᵇ needle || contains hs needle

-- The greater of two roles, as `if rr > c.Role { c.Role = rr }` makes it.
abbrev pub raised : Role → Role → Role
raised floor r = if ltb (rank floor) (rank r) then r else floor

module _ (env : Environment) where
  -- IsAdmin, IsMod.
  unfoldable pub config_role : Bytes → Role
  config_role hash_hex =
      if contains env.admins (env.to_lower hash_hex)
      then admin
      else if contains env.mods (env.to_lower hash_hex)
      then moderator
      else user

  abbrev has_bytes : Roster → Option Bytes → Bool
  has_bytes r none = false
  has_bytes r (some hash) = has r hash

  abbrev with_member : Caller → Option User → Caller
  with_member c none = c
  with_member c (some u) = record c {
    paused = u.paused;
    text_only = u.text_only;
    role = raised c.role (parse_role u.role);
  }

  unfoldable pub derive_caller : Roster → Bytes → Caller
  derive_caller r sender_hash =
      let sh = env.to_lower sender_hash in
      let hash_bytes = must_hex_bytes sh in
      let c : Caller = record {
        hash = sh;
        hash_bytes = hash_bytes;
        role = config_role sh;
        member = has_bytes r hash_bytes;
        paused = false;
        text_only = false;
      } in
      if c.member then with_member c (get env.to_lower env.trim_space r sh) else c

  pub about_text : Bytes
  about_text = codes "fwdsvc v" ++ (env.version ++ (10 ∷ (codes "Source: " ++ env.repo_url)))

abbrev line : Bytes → Bytes → Bytes
line s rest = s ++ (10 ∷ rest)

unfoldable pub help_text : Caller → Bytes
help_text c =
    let legend = codes "USER = nick or hex (>=4)" in
    let admin_part =
      if is_admin_role c.role then line (codes "/usermode ROLE USER - admin") legend else legend in
    let mod_part = line (codes "/nick USER NAME - mod") (
      line (codes "/kick /ban /unban /path USER - mod")
        (line (codes "/announce - mod") admin_part)) in
    let tail = if at_least_mod c.role then mod_part else if c.member then legend else [] in
    let body =
      if not c.member
      then line (codes "/join - join the chat") tail
      else line (codes "/nick NAME - rename self") (
          line (codes "/leave - leave the chat") (
            line (codes "/pause /resume - mute/unmute")
              (line (codes "/textonly /showall - skip media") tail))) in
    line (codes "Commands:") (
      line (codes "/?, /help")
        (line (codes "/about - version + repo") (line (codes "/users /mods /admin - lists") body)))
