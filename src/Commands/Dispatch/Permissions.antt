-- ===== src/Commands/Dispatch/Permissions.antt =====
-- What a command can do by the role of who sends it.
use reticulum_forwarding_ser.Base.{
  ◌≡◌, ◌⊎◌, refl, sym, ap, ◌∙◌, subst, inl, inr, Bool, true, false, not, ◌||◌, ◌&&◌, ltb, leb,
  if◌then◌else◌, [], ◌∷◌, ◌==◌, length, List, All, Option, none, some, Option-cases, Bool-cases,
  some-injective, arith,
}
use reticulum_forwarding_ser.Base.Bytes.{Bytes, IsByte, hex_encode}
use reticulum_forwarding_ser.Roster
use reticulum_forwarding_ser.Roster.{
  Roster, set_nickname, set_paused, set_text_only, remove, add_or_update, is_banned,
}
use reticulum_forwarding_ser.Roster.Finding.{get, len_users}
use reticulum_forwarding_ser.Roster.Roles.{
  Confined, refl-Confined, trans-Confined, add_or_update-Confined, remove-Confined,
  set_paused-Confined, set_text_only-Confined, set_nickname-Confined,
}
use reticulum_forwarding_ser.Commands.{Role, user, Environment, joined, Outcome, say}
use reticulum_forwarding_ser.Commands.Parser.{Parsed}
use reticulum_forwarding_ser.Commands.Nicknames.{
  nick_matches, sanitize_nickname, must_hex_bytes, must_hex_bytes-hex_encode,
}
use reticulum_forwarding_ser.Commands.Callers.{Caller, at_least_mod, derive_caller}
use reticulum_forwarding_ser.Commands.Handlers.{
  after, changed, not_joined, named, default_nick, join_hash, handle_join, handle_leave,
  handle_pause, handle_resume, handle_text_only, handle_show_all, handle_nick,
}
use reticulum_forwarding_ser.Commands.Moderation.{
  on_argument, handle_user_mode, handle_kick, handle_ban, handle_unban, handle_announce,
  handle_path,
}
use reticulum_forwarding_ser.Commands.Dispatch.{
  Command, help, about, users, mods, admins, join, leave, pause, resume, textonly, showall, nick,
  usermode, kick, ban, unban, announce, path, unknown, run_command, dispatch, command_named,
}

-- A command that touches its sender only: the roster is confined to them, and at most the replay
-- for them is started.
pub record Quiet (own : Bytes) (r : Roster) (o : Outcome) : Type 0 where
  pub confined : Confined own r o.roster
  pub calls : (o.calls ≡ []) ⊎ (o.calls ≡ joined own ∷ [])

module _ (env : Environment) (r : Roster) where
  say-Quiet : (own t : Bytes) → Quiet own r (say r t)
  say-Quiet own t = record { confined = refl-Confined own r; calls = inl refl }

  after-Quiet :
      (own : Bytes) (x : Roster × Option Roster.Error) (prefix done : Bytes)
      → Confined own r x.0
      → Quiet own r (after env r x prefix done)
  after-Quiet own (r', none) prefix done h = record { confined = h; calls = inl refl }
  after-Quiet own (r', some e) prefix done h = record { confined = h; calls = inl refl }

  -- A caller whose hash is in lower case and of whom the bytes are those of the hash.
  pub record IsOwn (c : Caller) : Type 0 where
    pub low : env.to_lower c.hash ≡ c.hash
    pub same_bytes : (hash : Bytes) → c.hash_bytes ≡ some hash → hex_encode hash ≡ c.hash

  if-Quiet :
      (own : Bytes) (b : Bool) {x y : Outcome}
      → Quiet own r x
      → Quiet own r y
      → Quiet own r (if b then x else y)
  if-Quiet own true hx hy = hx
  if-Quiet own false hx hy = hy

  default_nick-Confined :
      (own : Bytes) (r' : Roster) (hash : Bytes) (f : Bytes → Bytes)
      → env.to_lower own ≡ own
      → Confined own r' (default_nick env r r' own hash f)
  unfolding default_nick
  default_nick-Confined own r' hash f low =
      let name = sanitize_nickname (env.runes (f hash)) in
      elim (Option-cases (get env.to_lower env.trim_space r' own)) [
        | inl e ↦ rw (default_nick, e) (refl-Confined own r')
        | inr (u, e) ↦
            elim (Bool-cases
              (not (length u.nickname == 0) || length (f hash) == 0 || length name == 0)) [
                | inl t ↦ rw (default_nick, e, t) (refl-Confined own r')
                | inr t ↦
                    rw (default_nick, e, t)
                      (subst
                        (λ h.
                          Confined h r' (set_nickname env.to_lower r' env.saves_next own name).0)
                        low (set_nickname-Confined env.to_lower r' env.saves_next own name))
              ]
      ]

  named-Confined :
      (own : Bytes) (r' : Roster) (hash : Bytes) (look : Option (Bytes → Bytes))
      → env.to_lower own ≡ own
      → Confined own r' (named env r r' own hash look)
  named-Confined own r' hash none low = refl-Confined own r'
  named-Confined own r' hash (some f) low = default_nick-Confined own r' hash f low

  joined_calls :
      (b : Bool) (own : Bytes)
      → ((if b then joined own ∷ [] else []) ≡ [])
        ⊎ ((if b then joined own ∷ [] else []) ≡ joined own ∷ [])
  joined_calls true own = inr refl
  joined_calls false own = inl refl

  join_hash-Quiet :
      (c : Caller) (hash : Bytes)
      → env.to_lower c.hash ≡ c.hash
      → hex_encode hash ≡ c.hash
      → Quiet c.hash r (join_hash env r c hash)
  join_hash-Quiet c hash low same = if-Quiet c.hash (is_banned r hash) (say-Quiet c.hash _) (
      if-Quiet c.hash (ltb 0 env.max_members && leb env.max_members (len_users r))
        (say-Quiet c.hash _)
        (let (r', (new, e)) = add_or_update r env.saves hash env.now in
          let added : Confined c.hash r r' =
            subst (λ h. Confined h r r') same (add_or_update-Confined r env.saves hash env.now) in
          elim (Option-cases e) [
            | inl n ↦ rw n (record {
              confined =
                  trans-Confined added
                    (named-Confined c.hash r' hash env.lookup_announced_name low);
              calls = joined_calls env.on_join c.hash;
            })
            | inr (e', n) ↦ rw n (record { confined = added; calls = inl refl })
          ]))

  pub join-Quiet : (c : Caller) → IsOwn c → Quiet c.hash r (handle_join env r c)
  unfolding handle_join
  join-Quiet c o = if-Quiet c.hash c.member (say-Quiet c.hash _) (elim (Option-cases c.hash_bytes) [
    | inl e ↦ rw e (say-Quiet c.hash _)
    | inr (hash, e) ↦ rw e (join_hash-Quiet c hash o.low (o.same_bytes hash e))
  ])

  pub leave-Quiet : (c : Caller) → IsOwn c → Quiet c.hash r (handle_leave env r c)
  unfolding handle_leave
  leave-Quiet c o =
      let left = remove-Confined env.to_lower r env.saves c.hash in
      if-Quiet c.hash (not c.member) (say-Quiet c.hash _) (
        let (r', (was, e)) = remove env.to_lower r env.saves c.hash in
        after-Quiet c.hash (r', e) _ _ (subst (λ h. Confined h r r') o.low left))

  -- The handlers that set a flag of a member.
  flag-Quiet :
      (c : Caller) (flag : Bool) (x : Roster × Option Roster.Error) (text prefix done : Bytes)
      → IsOwn c
      → Confined (env.to_lower c.hash) r x.0
      → Quiet c.hash r (
          if not c.member
          then say r not_joined
          else if flag
          then say r text
          else after env r x prefix done)
  flag-Quiet c flag x text prefix done o h = if-Quiet c.hash (not c.member) (say-Quiet c.hash _) (
      if-Quiet c.hash flag (say-Quiet c.hash text)
        (after-Quiet c.hash x prefix done (subst (λ h. Confined h r x.0) o.low h)))

  pub pause-Quiet : (c : Caller) → IsOwn c → Quiet c.hash r (handle_pause env r c)
  unfolding handle_pause
  pause-Quiet c o =
      flag-Quiet c c.paused (changed env r (set_paused env.to_lower r env.saves c.hash true)) _ _ _
        o (set_paused-Confined env.to_lower r env.saves c.hash true)

  pub resume-Quiet : (c : Caller) → IsOwn c → Quiet c.hash r (handle_resume env r c)
  unfolding handle_resume
  resume-Quiet c o =
      flag-Quiet c (not c.paused) (changed env r (set_paused env.to_lower r env.saves c.hash false))
        _ _ _ o (set_paused-Confined env.to_lower r env.saves c.hash false)

  pub text_only-Quiet : (c : Caller) → IsOwn c → Quiet c.hash r (handle_text_only env r c)
  unfolding handle_text_only
  text_only-Quiet c o =
      flag-Quiet c c.text_only (changed env r (set_text_only env.to_lower r env.saves c.hash true))
        _ _ _ o (set_text_only-Confined env.to_lower r env.saves c.hash true)

  pub show_all-Quiet : (c : Caller) → IsOwn c → Quiet c.hash r (handle_show_all env r c)
  unfolding handle_show_all
  show_all-Quiet c o =
      flag-Quiet c (not c.text_only)
        (changed env r (set_text_only env.to_lower r env.saves c.hash false)) _ _ _ o
        (set_text_only-Confined env.to_lower r env.saves c.hash false)

  nick-Quiet :
      (c : Caller) (args : List Bytes)
      → IsOwn c
      → at_least_mod c.role ≡ false
      → Quiet c.hash r (handle_nick env r c args)
  unfolding handle_nick
  nick-Quiet c [] o u = say-Quiet c.hash _
  nick-Quiet c (x ∷ []) o u =
      let set = set_nickname-Confined env.to_lower r env.saves c.hash x in
      if-Quiet c.hash (not c.member) (say-Quiet c.hash _) (
        if-Quiet c.hash (not (nick_matches x)) (say-Quiet c.hash _) (
          after-Quiet c.hash (changed env r (set_nickname env.to_lower r env.saves c.hash x)) _ _ (
            subst (λ h. Confined h r (set_nickname env.to_lower r env.saves c.hash x).0) o.low
              set)))
  nick-Quiet c (x ∷ y ∷ []) o u = rw (handle_nick, u) (say-Quiet c.hash _)
  nick-Quiet c (x ∷ y ∷ z ∷ more) o u = rw (handle_nick, u) (say-Quiet c.hash _)

  on_argument-Quiet :
      (own : Bytes) (role : Role) (args : List Bytes) (denied usage : Bytes)
      (next : Bytes → Outcome)
      → role ≡ user
      → Quiet own r (on_argument env r role args denied usage next)
  on_argument-Quiet own role [] denied usage next u = rw u (say-Quiet own denied)
  on_argument-Quiet own role (x ∷ []) denied usage next u = rw u (say-Quiet own denied)
  on_argument-Quiet own role (x ∷ y ∷ more) denied usage next u = rw u (say-Quiet own denied)

  denied-Quiet :
      (c : Caller) (p : Parsed) (cmd : Command)
      → c.role ≡ user
      → IsOwn c
      → Quiet c.hash r (run_command env r cmd c p)
  unfolding run_command handle_user_mode handle_kick handle_ban handle_unban handle_announce
      handle_path
  denied-Quiet c p help u o = say-Quiet c.hash _
  denied-Quiet c p about u o = say-Quiet c.hash _
  denied-Quiet c p users u o = say-Quiet c.hash _
  denied-Quiet c p mods u o = say-Quiet c.hash _
  denied-Quiet c p admins u o = say-Quiet c.hash _
  denied-Quiet c p join u o = join-Quiet c o
  denied-Quiet c p leave u o = leave-Quiet c o
  denied-Quiet c p pause u o = pause-Quiet c o
  denied-Quiet c p resume u o = resume-Quiet c o
  denied-Quiet c p textonly u o = text_only-Quiet c o
  denied-Quiet c p showall u o = show_all-Quiet c o
  denied-Quiet c p nick u o = nick-Quiet c p.args o (ap at_least_mod u)
  denied-Quiet c p usermode u o = rw (run_command, handle_user_mode, u) (say-Quiet c.hash _)
  denied-Quiet c p kick u o = on_argument-Quiet c.hash c.role p.args _ _ _ u
  denied-Quiet c p ban u o = on_argument-Quiet c.hash c.role p.args _ _ _ u
  denied-Quiet c p unban u o = rw (run_command, handle_unban, u) (say-Quiet c.hash _)
  denied-Quiet c p announce u o = rw (run_command, handle_announce, u) (say-Quiet c.hash _)
  denied-Quiet c p path u o = on_argument-Quiet c.hash c.role p.args _ _ _ u
  denied-Quiet c p unknown u o = say-Quiet c.hash _

  derive_fields :
      (s : Bytes)
      → ((derive_caller env r s).hash ≡ env.to_lower s)
        × ((derive_caller env r s).hash_bytes ≡ must_hex_bytes (env.to_lower s))
  unfolding derive_caller
  derive_fields s = ground arith

  module _ (sender : Bytes) (long : length sender ≡ 16) (bytes : All IsByte sender)
      (low : env.to_lower (hex_encode sender) ≡ hex_encode sender) where
    derive_hash : (derive_caller env r (hex_encode sender)).hash ≡ hex_encode sender
    derive_hash = (derive_fields (hex_encode sender)).0 ∙ low

    pub derive-IsOwn : IsOwn (derive_caller env r (hex_encode sender))
    derive-IsOwn = record {
      low = ap env.to_lower derive_hash ∙ low ∙ sym derive_hash;
      same_bytes = λ hash q.
          let known : must_hex_bytes (env.to_lower (hex_encode sender)) ≡ some sender =
            ap must_hex_bytes low ∙ must_hex_bytes-hex_encode sender long bytes in
          let same : hash ≡ sender =
            some-injective (sym q ∙ (derive_fields (hex_encode sender)).1 ∙ known) in
          ap hex_encode same ∙ sym derive_hash;
    }

    -- Whatever somebody sends who is neither a moderator nor an administrator, by the
    -- configuration or by the roster: only their own entry in the roster may change, the bans stay,
    -- nobody's role is raised, and the service announces nothing; at most the replay for them is
    -- started. The sender is given by the hex text of their 16 bytes, which lower-casing leaves
    -- as it is.
    pub dispatch-Quiet :
        (p : Parsed)
        → (derive_caller env r (hex_encode sender)).role ≡ user
        → Quiet (hex_encode sender) r (dispatch env r (hex_encode sender) p)
    unfolding dispatch
    dispatch-Quiet p u =
        subst (λ h. Quiet h r (dispatch env r (hex_encode sender) p)) derive_hash
          (denied-Quiet (derive_caller env r (hex_encode sender)) p (command_named p.name) u
            derive-IsOwn)
