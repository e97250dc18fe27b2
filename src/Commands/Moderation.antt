-- ===== src/Commands/Moderation.antt =====
-- internal/commands/handlers.go: the handlers of the commands for moderators and administrators.
use reticulum_forwarding_ser.Base.{
  Bool, false, not, ◌&&◌, ◌||◌, [], ◌∷◌, ◌++◌, ◌==◌, ltb, if◌then◌else◌, length, take, List, Option,
  none, some,
}
use reticulum_forwarding_ser.Base.Bytes.{Bytes, ◌=ᵇ◌, has_prefix}
use reticulum_forwarding_ser.Base.Text.{codes}
use reticulum_forwarding_ser.Roster
use reticulum_forwarding_ser.Roster.{
  User, Roster, role_none, role_mod, role_admin, remove, ban, unban, set_role,
}
use reticulum_forwarding_ser.Roster.Finding.{ban_list}
use reticulum_forwarding_ser.Commands.{
  Role, PathInfo, Environment, text, failed, announce_failed, announces, Outcome, say,
}
use reticulum_forwarding_ser.Commands.Callers.{
  Caller, at_least_mod, is_admin_role, rank, raised, role_name, parse_role, config_role,
}
use reticulum_forwarding_ser.Commands.Handlers.{or_label, after, changed, found}

-- The role that /usermode is asked for, as the roster keeps it.
abbrev pub requested_role : Bytes → Option Roster.Role
requested_role r =
    if r =ᵇ codes "admin"
    then some role_admin
    else if r =ᵇ codes "mod"
    then some role_mod
    else if r =ᵇ codes "user"
    then some role_none
    else none

pub with_prefix : Bytes → List Bytes → List Bytes
with_prefix p [] = []
with_prefix p (h ∷ hs) = let rest = with_prefix p hs in if has_prefix h p then h ∷ rest else rest

abbrev pub in_list : Bytes → List Bytes → Bool
in_list h [] = false
in_list h (x ∷ xs) = x =ᵇ h || in_list h xs

-- shortHashes, joined by ", ".
pub short_hashes : List Bytes → Bytes
short_hashes [] = []
short_hashes (h ∷ []) = take 8 h
short_hashes (h ∷ g ∷ hs) = take 8 h ++ (codes ", " ++ short_hashes (g ∷ hs))

module _ (env : Environment) (r : Roster) where
  -- What /usermode does to a target, for a role that it knows.
  unfoldable pub set_mode : Caller → Roster.Role → Bytes × User → Outcome
  set_mode c req (h, u) =
      let wanted = parse_role req in
      let floor = config_role env h in
      let effective = raised wanted floor in
      let label = or_label u.nickname (take 8 h) in
      if h =ᵇ c.hash && ltb (rank wanted) 2 && ltb (rank (config_role env c.hash)) 2
      then say r
          (codes "You can't remove your own admin role. Ask another admin, or edit the config.")
      else after env r (changed env r (set_role env.to_lower r env.saves h (some req)))
          (codes "Couldn't set role: ")
          (if ltb (rank wanted) (rank effective)
            then label
              ++ (codes " is "
                  ++ (role_name floor
                      ++ (codes " via the config file, so their effective role stays "
                          ++ (role_name effective ++ codes ". Edit the config to lower it."))))
            else codes "Set "
              ++ (label ++ (codes "'s role to " ++ (role_name effective ++ codes "."))))

  unfoldable pub handle_user_mode : Caller → List Bytes → Outcome
  handle_user_mode c args =
      if not (is_admin_role c.role)
      then say r (codes "Only admins can change roles.")
      else elim args [
        | (mode ∷ query ∷ []) ↦ elim (requested_role (env.to_lower mode)) [
          | none ↦ say r (codes "Role must be admin, mod, or user.")
          | some req ↦ found env r query (set_mode c req)
        ]
        | _ ↦ say r (codes "Usage: /usermode <admin|mod|user> <user>")
      ]

  -- A command for moderators with one argument.
  abbrev pub on_argument : Role → List Bytes → Bytes → Bytes → (Bytes → Outcome) → Outcome
  on_argument role [] denied usage next =
      if not (at_least_mod role) then say r denied else say r usage
  on_argument role (query ∷ []) denied usage next =
      if not (at_least_mod role) then say r denied else next query
  on_argument role (x ∷ y ∷ more) denied usage next =
      if not (at_least_mod role) then say r denied else say r usage

  -- One whose argument names a user.
  abbrev pub on_user : Role → List Bytes → Bytes → Bytes → (Bytes × User → Outcome) → Outcome
  on_user role args denied usage next =
      on_argument role args denied usage λ query. found env r query next

  unfoldable pub handle_kick : Role → List Bytes → Outcome
  handle_kick role args =
      on_user role args (codes "Only mods or admins can kick.") (codes "Usage: /kick <user>")
        λ (h, u).
          let (r', (removed, e)) = remove env.to_lower r env.saves h in
          after env r (r', e) (codes "Couldn't kick: ")
            (if not removed
              then take 8 h ++ codes " was not in the roster."
              else codes "Kicked "
                ++ (or_label u.nickname (take 8 h) ++ codes ". They can rejoin with /join."))

  unfoldable pub handle_ban : Role → List Bytes → Outcome
  handle_ban role args =
      on_user role args (codes "Only mods or admins can ban.") (codes "Usage: /ban <user>")
        λ (h, u).
          after env r (changed env r (ban env.to_lower r env.saves h)) (codes "Couldn't ban: ") (
            codes "Banned "
            ++ (or_label u.nickname (take 8 h) ++ codes ". Their messages will be dropped."))

  abbrev unbanned : Bytes → Bytes
  unbanned h = codes "Unbanned " ++ (take 8 h ++ codes ".")

  -- The search by prefix of /unban, among the bans in their order.
  abbrev pub unban_match : Bytes → List Bytes → Outcome
  unban_match hash [] = say r (hash ++ codes " is not banned.")
  unban_match hash (h ∷ []) =
      let (r', (was, e)) = unban env.to_lower r env.saves h in
      after env r (r', e) (codes "Couldn't unban: ") (if was then unbanned h else codes "Unbanned.")
  unban_match hash (g ∷ h ∷ hs) =
      say r
        (env.quoted hash ++ (codes " matches multiple banned users: " ++ short_hashes (g ∷ h ∷ hs)))

  abbrev pub unban_text : Bytes → Outcome
  unban_text hash =
      let (r', (was, e)) = unban env.to_lower r env.saves hash in
      let search = unban_match hash (with_prefix hash (env.sort_strings (ban_list r))) in
      if in_list hash (ban_list r)
      then elim e [
        | some e' ↦ record { roster = r'; calls = []; reply = failed (codes "Couldn't unban: ") e' }
        | none ↦ if was then say r' (unbanned hash) else search
      ]
      else search

  unfoldable pub handle_unban : Role → List Bytes → Outcome
  handle_unban role args =
      if not (at_least_mod role)
      then say r (codes "Only mods or admins can unban.")
      else elim args [
        | (arg ∷ []) ↦ unban_text (env.to_lower (env.trim_space arg))
        | _ ↦ say r (codes "Usage: /unban <user>")
      ]

  pub path_text : Bytes × User → PathInfo → Bytes
  path_text (h, u) info =
      let head =
        codes "Path to "
        ++ (or_label u.nickname (codes "(no nick)")
            ++ (codes " (" ++ (take 8 h ++ (codes "):" ++ (10 ∷ []))))) in
      let hop =
        if not (length info.next_hop_hex == 0)
        then codes "  next hop: "
          ++ (take 8 info.next_hop_hex ++ (codes " (multi-hop)" ++ (10 ∷ [])))
        else codes "  next hop: direct" ++ (10 ∷ []) in
      let link = if info.link_active then codes "  link: active" else codes "  link: none" in
      if not info.known
      then head
        ++ (codes "  no announce cached " ++ (226 ∷ 128 ∷ 148 ∷ codes " they haven't reached us"))
      else head
        ++ (codes "  hops: "
            ++ (env.decimal info.hops
                ++ (10
                    ∷ (codes "  announce age: "
                        ++ (env.duration info.age ++ (10 ∷ (hop ++ link)))))))

  unfoldable pub handle_path : Role → List Bytes → Outcome
  handle_path role args =
      on_argument role args (codes "Only mods or admins can /path.") (codes "Usage: /path <user>")
        λ query. elim env.path_lookup [
          | none ↦ say r (codes "Path lookup not wired (server bug).")
          | some look ↦ found env r query λ target. say r (path_text target (look target.0))
        ]

  unfoldable pub handle_announce : Role → Outcome
  handle_announce role =
      if not (at_least_mod role)
      then say r (codes "Only mods or admins can /announce.")
      else elim env.announce [
        | none ↦ say r (codes "Announce hook not wired (server bug).")
        | some works ↦ record {
          roster = r;
          calls = announces ∷ [];
          reply = (if not works then announce_failed else text (codes "OK, announced."));
        }
      ]
