-- ===== src/Commands/Dispatch/Admins.antt =====
-- Roles are given by administrators only.
use reticulum_forwarding_ser.Base.{
  ◌≡◌, inl, inr, Bool, true, false, not, if◌then◌else◌, [], ◌∷◌, length, List, All, Option, none,
  some, Option-cases, Result-cases, arith,
}
use reticulum_forwarding_ser.Base.Bytes.{Bytes, IsByte, hex_encode}
use reticulum_forwarding_ser.Roster
use reticulum_forwarding_ser.Roster.{User, Roster, remove, set_nickname}
use reticulum_forwarding_ser.Roster.Finding.{ban_list, resolve}
use reticulum_forwarding_ser.Roster.Roles.{
  Unraised, remove-Confined, set_nickname-Confined, ban-Unraised, unban-Unraised,
}
use reticulum_forwarding_ser.Commands.{Role, Environment, Outcome, say}
use reticulum_forwarding_ser.Commands.Parser.{Parsed}
use reticulum_forwarding_ser.Commands.Nicknames.{nick_matches}
use reticulum_forwarding_ser.Commands.Callers.{Caller, at_least_mod, is_admin_role, derive_caller}
use reticulum_forwarding_ser.Commands.Handlers.{after, changed, found, rename, handle_nick}
use reticulum_forwarding_ser.Commands.Moderation.{
  on_argument, on_user, unban_match, unban_text, in_list, with_prefix, handle_user_mode,
  handle_kick, handle_ban, handle_unban, handle_announce, handle_path,
}
use reticulum_forwarding_ser.Commands.Dispatch.{
  Command, help, about, users, mods, admins, join, leave, pause, resume, textonly, showall, nick,
  usermode, kick, ban, unban, announce, path, unknown, run_command, dispatch, command_named,
}
use reticulum_forwarding_ser.Commands.Dispatch.Permissions.{
  IsOwn, join-Quiet, leave-Quiet, pause-Quiet, resume-Quiet, text_only-Quiet, show_all-Quiet,
  derive-IsOwn,
}

-- An outcome after which nobody has a higher role.
record Harmless (r : Roster) (o : Outcome) : Type 0 where
  unraised : Unraised r o.roster

module _ (env : Environment) (r : Roster) where
  same-Harmless : (t : Bytes) → Harmless r (say r t)
  same-Harmless t = record { unraised = λ k. omega arith }

  after-Harmless :
      (x : Roster × Option Roster.Error) (prefix done : Bytes)
      → Unraised r x.0
      → Harmless r (after env r x prefix done)
  after-Harmless (r', none) prefix done h = record { unraised = h }
  after-Harmless (r', some e) prefix done h = record { unraised = h }

  if-Harmless :
      (b : Bool) {x y : Outcome} → Harmless r x → Harmless r y → Harmless r (if b then x else y)
  if-Harmless true hx hy = hx
  if-Harmless false hx hy = hy

  found-Harmless :
      (query : Bytes) (next : Bytes × User → Outcome)
      → ((t : Bytes × User) → Harmless r (next t))
      → Harmless r (found env r query next)
  found-Harmless query next h = elim (Result-cases (resolve env.to_lower env.trim_space r query)) [
    | inl (t, e) ↦ rw (found, e) (h t)
    | inr (x, e) ↦ rw (found, e) (record { unraised = λ k. omega arith })
  ]

  on_argument-Harmless :
      (role : Role) (args : List Bytes) (denied usage : Bytes) (next : Bytes → Outcome)
      → ((query : Bytes) → Harmless r (next query))
      → Harmless r (on_argument env r role args denied usage next)
  on_argument-Harmless role [] denied usage next h =
      if-Harmless (not (at_least_mod role)) (same-Harmless denied) (same-Harmless usage)
  on_argument-Harmless role (x ∷ []) denied usage next h =
      if-Harmless (not (at_least_mod role)) (same-Harmless denied) (h x)
  on_argument-Harmless role (x ∷ y ∷ more) denied usage next h =
      if-Harmless (not (at_least_mod role)) (same-Harmless denied) (same-Harmless usage)

  on_user-Harmless :
      (role : Role) (args : List Bytes) (denied usage : Bytes) (next : Bytes × User → Outcome)
      → ((t : Bytes × User) → Harmless r (next t))
      → Harmless r (on_user env r role args denied usage next)
  on_user-Harmless role args denied usage next h =
      on_argument-Harmless role args denied usage _ (λ query. found-Harmless query next h)

  rename-Harmless : (h name done : Bytes) → Harmless r (rename env r h name done)
  rename-Harmless h name done = if-Harmless (not (nick_matches name)) (same-Harmless _) (
      after-Harmless (changed env r (set_nickname env.to_lower r env.saves h name)) _ done
        (set_nickname-Confined env.to_lower r env.saves h name).roles)

  nick-Harmless : (c : Caller) (args : List Bytes) → Harmless r (handle_nick env r c args)
  unfolding handle_nick
  nick-Harmless c [] = same-Harmless _
  nick-Harmless c (x ∷ []) =
      if-Harmless (not c.member) (same-Harmless _) (rename-Harmless c.hash x _)
  nick-Harmless c (x ∷ y ∷ []) =
      if-Harmless (not (at_least_mod c.role)) (same-Harmless _)
        (found-Harmless x _ λ (h, u). rename-Harmless h y _)
  nick-Harmless c (x ∷ y ∷ z ∷ more) =
      if-Harmless (not (at_least_mod c.role)) (same-Harmless _) (same-Harmless _)

  kick-Harmless : (role : Role) (args : List Bytes) → Harmless r (handle_kick env r role args)
  unfolding handle_kick
  kick-Harmless role args = on_user-Harmless role args _ _ _ λ (h, u).
      let (r', (removed, e)) = remove env.to_lower r env.saves h in
      after-Harmless (r', e) _ _ (remove-Confined env.to_lower r env.saves h).roles

  ban-Harmless : (role : Role) (args : List Bytes) → Harmless r (handle_ban env r role args)
  unfolding handle_ban
  ban-Harmless role args = on_user-Harmless role args _ _ _ λ (h, u).
      after-Harmless (changed env r (Roster.ban env.to_lower r env.saves h)) _ _
        (ban-Unraised env.to_lower r env.saves h)

  unban_match-Harmless : (hash : Bytes) (hs : List Bytes) → Harmless r (unban_match env r hash hs)
  unban_match-Harmless hash [] = same-Harmless _
  unban_match-Harmless hash (h ∷ []) =
      let (r', (was, e)) = Roster.unban env.to_lower r env.saves h in
      after-Harmless (r', e) _ _ (unban-Unraised env.to_lower r env.saves h)
  unban_match-Harmless hash (g ∷ h ∷ hs) = same-Harmless _

  unban_text-Harmless : (hash : Bytes) → Harmless r (unban_text env r hash)
  unban_text-Harmless hash =
      let (r', (was, e)) = Roster.unban env.to_lower r env.saves hash in
      let kept : Unraised r r' = unban-Unraised env.to_lower r env.saves hash in
      let search = unban_match-Harmless hash (with_prefix hash (env.sort_strings (ban_list r))) in
      if-Harmless (in_list hash (ban_list r))
        (elim (Option-cases e) [
          | inl n ↦ rw n (if-Harmless was (record { unraised = kept }) search)
          | inr (e', n) ↦ rw n (record { unraised = kept })
        ])
        search

  unban-Harmless : (role : Role) (args : List Bytes) → Harmless r (handle_unban env r role args)
  unfolding handle_unban
  unban-Harmless role [] = if-Harmless (not (at_least_mod role)) (same-Harmless _) (same-Harmless _)
  unban-Harmless role (x ∷ []) =
      if-Harmless (not (at_least_mod role)) (same-Harmless _)
        (unban_text-Harmless (env.to_lower (env.trim_space x)))
  unban-Harmless role (x ∷ y ∷ more) =
      if-Harmless (not (at_least_mod role)) (same-Harmless _) (same-Harmless _)

  announce-Harmless : (role : Role) → Harmless r (handle_announce env r role)
  unfolding handle_announce
  announce-Harmless role =
      if-Harmless (not (at_least_mod role)) (same-Harmless _) (elim (Option-cases env.announce) [
        | inl e ↦ rw e (record { unraised = λ k. omega arith })
        | inr (works, e) ↦ rw e (record { unraised = λ k. omega arith })
      ])

  path-Harmless : (role : Role) (args : List Bytes) → Harmless r (handle_path env r role args)
  unfolding handle_path
  path-Harmless role args = on_argument-Harmless role args _ _ _ λ query.
      elim (Option-cases env.path_lookup) [
        | inl e ↦ rw e (same-Harmless _)
        | inr (look, e) ↦ rw e (found-Harmless query _ λ target. same-Harmless _)
      ]

  run_command-Harmless :
      (c : Caller) (p : Parsed) (cmd : Command)
      → is_admin_role c.role ≡ false
      → IsOwn env r c
      → Harmless r (run_command env r cmd c p)
  unfolding run_command handle_user_mode
  run_command-Harmless c p help u o = same-Harmless _
  run_command-Harmless c p about u o = same-Harmless _
  run_command-Harmless c p users u o = same-Harmless _
  run_command-Harmless c p mods u o = same-Harmless _
  run_command-Harmless c p admins u o = same-Harmless _
  run_command-Harmless c p join u o = record { unraised = (join-Quiet env r c o).confined.roles }
  run_command-Harmless c p leave u o = record { unraised = (leave-Quiet env r c o).confined.roles }
  run_command-Harmless c p pause u o = record { unraised = (pause-Quiet env r c o).confined.roles }
  run_command-Harmless c p resume u o = record {
    unraised = (resume-Quiet env r c o).confined.roles;
  }
  run_command-Harmless c p textonly u o = record {
    unraised = (text_only-Quiet env r c o).confined.roles;
  }
  run_command-Harmless c p showall u o = record {
    unraised = (show_all-Quiet env r c o).confined.roles;
  }
  run_command-Harmless c p nick u o = nick-Harmless c p.args
  run_command-Harmless c p usermode u o = rw (run_command, handle_user_mode, u) (same-Harmless _)
  run_command-Harmless c p kick u o = kick-Harmless c.role p.args
  run_command-Harmless c p ban u o = ban-Harmless c.role p.args
  run_command-Harmless c p unban u o = unban-Harmless c.role p.args
  run_command-Harmless c p announce u o = announce-Harmless c.role
  run_command-Harmless c p path u o = path-Harmless c.role p.args
  run_command-Harmless c p unknown u o = same-Harmless _

  -- Whatever somebody sends who is no administrator, a moderator included: no key of the roster has
  -- a higher role afterwards. The sender is given by the hex text of their 16 bytes, which
  -- lower-casing leaves as it is.
  pub dispatch-Unraised :
      (sender : Bytes) (p : Parsed)
      → length sender ≡ 16
      → All IsByte sender
      → env.to_lower (hex_encode sender) ≡ hex_encode sender
      → is_admin_role (derive_caller env r (hex_encode sender)).role ≡ false
      → Unraised r (dispatch env r (hex_encode sender) p).roster
  unfolding dispatch
  dispatch-Unraised sender p long bytes low u =
      (run_command-Harmless (derive_caller env r (hex_encode sender)) p (command_named p.name) u
        (derive-IsOwn env r sender long bytes low)).unraised
