-- ===== src/Commands/Dispatch.antt =====
-- internal/commands/handlers.go: Dispatch.
pub mod Permissions
pub mod Admins
pub mod Hooks
use reticulum_forwarding_ser.Base.{
  ℕ, Bool, not, ◌&&◌, ◌||◌, [], ◌∷◌, ◌++◌, ◌==◌, ltb, if◌then◌else◌,
}
use reticulum_forwarding_ser.Base.Bytes.{Bytes, ◌=ᵇ◌}
use reticulum_forwarding_ser.Base.Text.{codes}
use reticulum_forwarding_ser.Roster.{Roster}
use reticulum_forwarding_ser.Roster.Finding.{user_less}
use reticulum_forwarding_ser.Commands.{Environment, Outcome, say}
use reticulum_forwarding_ser.Commands.Parser.{Parsed}
use reticulum_forwarding_ser.Commands.Lists.{list_users, list_config_list, dash}
use reticulum_forwarding_ser.Commands.Callers.{Caller, derive_caller, about_text, help_text}
use reticulum_forwarding_ser.Commands.Handlers.{
  handle_join, handle_leave, handle_pause, handle_resume, handle_text_only, handle_show_all,
  handle_nick,
}
use reticulum_forwarding_ser.Commands.Moderation.{
  handle_user_mode, handle_kick, handle_ban, handle_unban, handle_announce, handle_path,
}

-- The cases of the switch on the name.
pub data Command : Type 0 where
  help about users mods admins join leave pause resume textonly showall nick usermode kick ban unban
        announce path unknown :
      Command

pub command_named : Bytes → Command
command_named n =
    if n =ᵇ codes "?" || n =ᵇ codes "help"
    then help
    else if n =ᵇ codes "about" || n =ᵇ codes "version"
    then about
    else if n =ᵇ codes "users"
    then users
    else if n =ᵇ codes "mods"
    then mods
    else if n =ᵇ codes "admin" || n =ᵇ codes "admins"
    then admins
    else if n =ᵇ codes "join"
    then join
    else if n =ᵇ codes "leave"
    then leave
    else if n =ᵇ codes "pause"
    then pause
    else if n =ᵇ codes "resume"
    then resume
    else if n =ᵇ codes "textonly"
    then textonly
    else if n =ᵇ codes "showall"
    then showall
    else if n =ᵇ codes "nick"
    then nick
    else if n =ᵇ codes "usermode"
    then usermode
    else if n =ᵇ codes "kick"
    then kick
    else if n =ᵇ codes "ban"
    then ban
    else if n =ᵇ codes "unban"
    then unban
    else if n =ᵇ codes "announce"
    then announce
    else if n =ᵇ codes "path"
    then path
    else unknown

abbrev is_scrubbed : ℕ → Bool
is_scrubbed c = (ltb c 0x20 && not (c == 9) && not (c == 10) && not (c == 13)) || c == 0x7f

-- scrubControlBytes; a text without such bytes is left as it is by the loop too.
pub scrub_control_bytes : Bytes → Bytes
scrub_control_bytes [] = []
scrub_control_bytes (c ∷ s) = (if is_scrubbed c then 63 else c) ∷ scrub_control_bytes s

module _ (env : Environment) (r : Roster) where
  -- One case of the switch.
  pub run_command : Command → Caller → Parsed → Outcome
  run_command help c p = say r (help_text c)
  run_command about c p = say r (about_text env)
  run_command users c p = say r (list_users env (env.sort_slice (user_less env.to_lower) r.users))
  run_command mods c p = say r (list_config_list env r (codes "mods") (env.sort_strings env.mods))
  run_command admins c p =
      say r (list_config_list env r (codes "admins") (env.sort_strings env.admins))
  run_command join c p = handle_join env r c
  run_command leave c p = handle_leave env r c
  run_command pause c p = handle_pause env r c
  run_command resume c p = handle_resume env r c
  run_command textonly c p = handle_text_only env r c
  run_command showall c p = handle_show_all env r c
  run_command nick c p = handle_nick env r c p.args
  run_command usermode c p = handle_user_mode env r c p.args
  run_command kick c p = handle_kick env r c.role p.args
  run_command ban c p = handle_ban env r c.role p.args
  run_command unban c p = handle_unban env r c.role p.args
  run_command announce c p = handle_announce env r c.role
  run_command path c p = handle_path env r c.role p.args
  run_command unknown c p =
      say r (codes "unknown command /" ++ (scrub_control_bytes p.name ++ (dash ++ codes "try /?")))

  pub dispatch : Bytes → Parsed → Outcome
  dispatch sender_hash p = run_command (command_named p.name) (derive_caller env r sender_hash) p
