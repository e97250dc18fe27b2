-- ===== src/Commands/Dispatch/Hooks.antt =====
-- Which hooks of the service a command calls.
use reticulum_forwarding_ser.Base.{
  ◌≡◌, ◌⊎◌, refl, inl, inr, Bool, true, false, not, ◌&&◌, ltb, leb, if◌then◌else◌, [], ◌∷◌, List,
  Option, none, some, Option-cases, Result-cases, arith,
}
use reticulum_forwarding_ser.Base.Bytes.{Bytes}
use reticulum_forwarding_ser.Roster
use reticulum_forwarding_ser.Roster.{
  User, Roster, remove, is_banned, add_or_update, set_paused, set_text_only, set_nickname,
}
use reticulum_forwarding_ser.Roster.Finding.{ban_list, resolve, len_users}
use reticulum_forwarding_ser.Commands.{Role, Environment, Outcome, announces, joined, say}
use reticulum_forwarding_ser.Commands.Parser.{Parsed}
use reticulum_forwarding_ser.Commands.Nicknames.{nick_matches}
use reticulum_forwarding_ser.Commands.Callers.{Caller, at_least_mod, is_admin_role, derive_caller}
use reticulum_forwarding_ser.Commands.Handlers.{
  after, changed, found, rename, handle_nick, handle_join, handle_leave, handle_pause,
  handle_resume, handle_text_only, handle_show_all,
}
use reticulum_forwarding_ser.Commands.Moderation.{
  on_argument, on_user, unban_match, unban_text, in_list, with_prefix, requested_role, set_mode,
  handle_user_mode, handle_kick, handle_ban, handle_unban, handle_announce, handle_path,
}
use reticulum_forwarding_ser.Commands.Dispatch.{
  Command, help, about, users, mods, admins, join, leave, pause, resume, textonly, showall, nick,
  usermode, kick, ban, unban, announce, path, unknown, run_command, dispatch, command_named,
}

-- The hook that a command calls: none, the announce, or the one that follows a join.
pub record Hooked (own : Bytes) (o : Outcome) : Type 0 where
  pub hooks : (o.calls ≡ []) ⊎ (o.calls ≡ announces ∷ []) ⊎ (o.calls ≡ joined own ∷ [])

module _ (env : Environment) (r : Roster) (own : Bytes) where
  none-Hooked : (o : Outcome) → o.calls ≡ [] → Hooked own o
  none-Hooked o e = record { hooks = inl e }

  say-Hooked : (t : Bytes) → Hooked own (say r t)
  say-Hooked t = record { hooks = inl refl }

  after-Hooked :
      (x : Roster × Option Roster.Error) (prefix done : Bytes)
      → Hooked own (after env r x prefix done)
  after-Hooked (r', none) prefix done = record { hooks = inl refl }
  after-Hooked (r', some e) prefix done = record { hooks = inl refl }

  if-Hooked :
      (b : Bool) {x y : Outcome} → Hooked own x → Hooked own y → Hooked own (if b then x else y)
  if-Hooked true hx hy = hx
  if-Hooked false hx hy = hy

  found-Hooked :
      (query : Bytes) (next : Bytes × User → Outcome)
      → ((t : Bytes × User) → Hooked own (next t))
      → Hooked own (found env r query next)
  found-Hooked query next h = elim (Result-cases (resolve env.to_lower env.trim_space r query)) [
    | inl (t, e) ↦ rw (found, e) (h t)
    | inr (x, e) ↦ rw (found, e) (record { hooks = inl refl })
  ]

  on_argument-Hooked :
      (role : Role) (args : List Bytes) (denied usage : Bytes) (next : Bytes → Outcome)
      → ((query : Bytes) → Hooked own (next query))
      → Hooked own (on_argument env r role args denied usage next)
  on_argument-Hooked role [] denied usage next h =
      if-Hooked (not (at_least_mod role)) (say-Hooked denied) (say-Hooked usage)
  on_argument-Hooked role (x ∷ []) denied usage next h =
      if-Hooked (not (at_least_mod role)) (say-Hooked denied) (h x)
  on_argument-Hooked role (x ∷ y ∷ more) denied usage next h =
      if-Hooked (not (at_least_mod role)) (say-Hooked denied) (say-Hooked usage)

  on_user-Hooked :
      (role : Role) (args : List Bytes) (denied usage : Bytes) (next : Bytes × User → Outcome)
      → ((t : Bytes × User) → Hooked own (next t))
      → Hooked own (on_user env r role args denied usage next)
  on_user-Hooked role args denied usage next h =
      on_argument-Hooked role args denied usage _ (λ query. found-Hooked query next h)

  -- The handlers that set a flag of a member.
  flag-Hooked :
      (member flag : Bool) (x : Roster × Option Roster.Error) (absent said prefix done : Bytes)
      → Hooked own (
          if not member
          then say r absent
          else if flag
          then say r said
          else after env r x prefix done)
  flag-Hooked member flag x absent said prefix done =
      if-Hooked (not member) (say-Hooked absent)
        (if-Hooked flag (say-Hooked said) (after-Hooked x prefix done))

  rename-Hooked : (h name done : Bytes) → Hooked own (rename env r h name done)
  rename-Hooked h name done =
      if-Hooked (not (nick_matches name)) (say-Hooked _)
        (after-Hooked (changed env r (set_nickname env.to_lower r env.saves h name)) _ done)

  nick-Hooked : (c : Caller) (args : List Bytes) → Hooked own (handle_nick env r c args)
  unfolding handle_nick
  nick-Hooked c [] = say-Hooked _
  nick-Hooked c (x ∷ []) = if-Hooked (not c.member) (say-Hooked _) (rename-Hooked c.hash x _)
  nick-Hooked c (x ∷ y ∷ []) =
      if-Hooked (not (at_least_mod c.role)) (say-Hooked _)
        (found-Hooked x _ λ (h, u). rename-Hooked h y _)
  nick-Hooked c (x ∷ y ∷ z ∷ more) =
      if-Hooked (not (at_least_mod c.role)) (say-Hooked _) (say-Hooked _)

  set_mode-Hooked :
      (c : Caller) (req : Roster.Role) (t : Bytes × User) → Hooked own (set_mode env r c req t)
  unfolding set_mode
  set_mode-Hooked c req (h, u) =
      if-Hooked _ (say-Hooked _)
        (after-Hooked (changed env r (Roster.set_role env.to_lower r env.saves h (some req))) _ _)

  user_mode-Hooked : (c : Caller) (args : List Bytes) → Hooked own (handle_user_mode env r c args)
  unfolding handle_user_mode
  user_mode-Hooked c (mode ∷ query ∷ []) =
      if-Hooked (not (is_admin_role c.role)) (say-Hooked _)
        (elim (Option-cases (requested_role (env.to_lower mode))) [
          | inl e ↦ rw e (say-Hooked _)
          | inr (req, e) ↦ rw e (found-Hooked query _ (set_mode-Hooked c req))
        ])
  user_mode-Hooked c [] = if-Hooked (not (is_admin_role c.role)) (say-Hooked _) (say-Hooked _)
  user_mode-Hooked c (x ∷ []) = if-Hooked (not (is_admin_role c.role)) (say-Hooked _) (say-Hooked _)
  user_mode-Hooked c (x ∷ y ∷ z ∷ more) =
      if-Hooked (not (is_admin_role c.role)) (say-Hooked _) (say-Hooked _)

  unban_match-Hooked : (hash : Bytes) (hs : List Bytes) → Hooked own (unban_match env r hash hs)
  unban_match-Hooked hash [] = say-Hooked _
  unban_match-Hooked hash (h ∷ []) =
      let (r', (was, e)) = Roster.unban env.to_lower r env.saves h in after-Hooked (r', e) _ _
  unban_match-Hooked hash (g ∷ h ∷ hs) = say-Hooked _

  unban_text-Hooked : (hash : Bytes) → Hooked own (unban_text env r hash)
  unban_text-Hooked hash =
      let (r', (was, e)) = Roster.unban env.to_lower r env.saves hash in
      let search = unban_match-Hooked hash (with_prefix hash (env.sort_strings (ban_list r))) in
      if-Hooked (in_list hash (ban_list r))
        (elim (Option-cases e) [
          | inl n ↦ rw n (if-Hooked was (record { hooks = inl refl }) search)
          | inr (e', n) ↦ rw n (record { hooks = inl refl })
        ])
        search

  unban-Hooked : (role : Role) (args : List Bytes) → Hooked own (handle_unban env r role args)
  unfolding handle_unban
  unban-Hooked role [] = if-Hooked (not (at_least_mod role)) (say-Hooked _) (say-Hooked _)
  unban-Hooked role (x ∷ []) =
      if-Hooked (not (at_least_mod role)) (say-Hooked _)
        (unban_text-Hooked (env.to_lower (env.trim_space x)))
  unban-Hooked role (x ∷ y ∷ more) =
      if-Hooked (not (at_least_mod role)) (say-Hooked _) (say-Hooked _)

  announce-Hooked : (role : Role) → Hooked own (handle_announce env r role)
  unfolding handle_announce
  announce-Hooked role =
      if-Hooked (not (at_least_mod role)) (say-Hooked _) (elim (Option-cases env.announce) [
        | inl e ↦ rw e (record { hooks = inl refl })
        | inr (works, e) ↦ rw e (record { hooks = inr (inl refl) })
      ])

  joined_hooks :
      (b : Bool)
      → ((if b then joined own ∷ [] else []) ≡ [])
        ⊎ ((if b then joined own ∷ [] else []) ≡ announces ∷ [])
        ⊎ ((if b then joined own ∷ [] else []) ≡ joined own ∷ [])
  joined_hooks true = inr (inr refl)
  joined_hooks false = inl refl

  join-Hooked : (c : Caller) → c.hash ≡ own → Hooked own (handle_join env r c)
  unfolding handle_join
  join-Hooked c same = if-Hooked c.member (say-Hooked _) (elim (Option-cases c.hash_bytes) [
    | inl e ↦ rw e (say-Hooked _)
    | inr (hash, e) ↦ rw e (
        if-Hooked (is_banned r hash) (say-Hooked _) (
          if-Hooked (ltb 0 env.max_members && leb env.max_members (len_users r)) (say-Hooked _)
            (elim (Option-cases (add_or_update r env.saves hash env.now).1.1) [
              | inl n ↦ rw (n, same) (record { hooks = joined_hooks env.on_join })
              | inr (e', n) ↦ rw n (record { hooks = inl refl })
            ])))
  ])

  path-Hooked : (role : Role) (args : List Bytes) → Hooked own (handle_path env r role args)
  unfolding handle_path
  path-Hooked role args = on_argument-Hooked role args _ _ _ λ query.
      elim (Option-cases env.path_lookup) [
        | inl e ↦ rw e (say-Hooked _)
        | inr (look, e) ↦ rw e (found-Hooked query _ λ target. say-Hooked _)
      ]

  run_command-Hooked :
      (c : Caller) (p : Parsed) (cmd : Command)
      → c.hash ≡ own
      → Hooked own (run_command env r cmd c p)
  unfolding run_command handle_leave handle_pause handle_resume handle_text_only handle_show_all
      handle_kick handle_ban
  run_command-Hooked c p help same = say-Hooked _
  run_command-Hooked c p about same = say-Hooked _
  run_command-Hooked c p users same = say-Hooked _
  run_command-Hooked c p mods same = say-Hooked _
  run_command-Hooked c p admins same = say-Hooked _
  run_command-Hooked c p join same = join-Hooked c same
  run_command-Hooked c p leave same =
      let (r', (was, e)) = remove env.to_lower r env.saves c.hash in
      if-Hooked (not c.member) (say-Hooked _) (after-Hooked (r', e) _ _)
  run_command-Hooked c p pause same =
      flag-Hooked c.member c.paused
        (changed env r (set_paused env.to_lower r env.saves c.hash true)) _ _ _ _
  run_command-Hooked c p resume same =
      flag-Hooked c.member (not c.paused)
        (changed env r (set_paused env.to_lower r env.saves c.hash false)) _ _ _ _
  run_command-Hooked c p textonly same =
      flag-Hooked c.member c.text_only
        (changed env r (set_text_only env.to_lower r env.saves c.hash true)) _ _ _ _
  run_command-Hooked c p showall same =
      flag-Hooked c.member (not c.text_only)
        (changed env r (set_text_only env.to_lower r env.saves c.hash false)) _ _ _ _
  run_command-Hooked c p nick same = nick-Hooked c p.args
  run_command-Hooked c p usermode same = user_mode-Hooked c p.args
  run_command-Hooked c p kick same =
      on_user-Hooked c.role p.args _ _ _
        λ (h, u). let (r', (was, e)) = remove env.to_lower r env.saves h in after-Hooked (r', e) _ _
  run_command-Hooked c p ban same =
      on_user-Hooked c.role p.args _ _ _
        λ (h, u). after-Hooked (changed env r (Roster.ban env.to_lower r env.saves h)) _ _
  run_command-Hooked c p unban same = unban-Hooked c.role p.args
  run_command-Hooked c p announce same = announce-Hooked c.role
  run_command-Hooked c p path same = path-Hooked c.role p.args
  run_command-Hooked c p unknown same = say-Hooked _

-- A command calls at most one hook: the announce, or the one that follows a join, with the hash of
-- its sender in lower case.
pub dispatch-Hooked :
    (env : Environment) (r : Roster) (sender_hash : Bytes) (p : Parsed)
    → Hooked (env.to_lower sender_hash) (dispatch env r sender_hash p)
unfolding dispatch derive_caller
dispatch-Hooked env r sender_hash p =
    run_command-Hooked env r (env.to_lower sender_hash) (derive_caller env r sender_hash) p
      (command_named p.name) (ground arith)
