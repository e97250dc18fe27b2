-- ===== src/Commands/Handlers.antt =====
-- internal/commands/handlers.go: the handlers of the commands for everybody.
use reticulum_forwarding_ser.Base.{
  true, false, not, ◌&&◌, ◌||◌, [], ◌∷◌, ◌++◌, ◌==◌, ltb, leb, if◌then◌else◌, length, take, List,
  Option, none, some, ok, err,
}
use reticulum_forwarding_ser.Base.Bytes.{Bytes}
use reticulum_forwarding_ser.Base.Text.{codes}
use reticulum_forwarding_ser.Roster
use reticulum_forwarding_ser.Roster.{
  User, Roster, is_banned, add_or_update, remove, set_paused, set_text_only, set_nickname,
}
use reticulum_forwarding_ser.Roster.Finding.{get, resolve, len_users}
use reticulum_forwarding_ser.Commands.{
  Environment, text, failed, unresolved, joined, Outcome, say, or_failed,
}
use reticulum_forwarding_ser.Commands.Callers.{Caller, at_least_mod}
use reticulum_forwarding_ser.Commands.Nicknames.{nick_matches, sanitize_nickname}

abbrev pub not_joined : Bytes
not_joined = codes "You're not in the chat. Send /join first."

abbrev nick_rule : Bytes
nick_rule = codes "Nickname must be 1-24 chars from [A-Za-z0-9_-] (no spaces)."

abbrev nick_spaces : Bytes
nick_spaces =
    codes "Nicknames can't contain spaces. Use a single word from [A-Za-z0-9_-] (1-24 chars)."

-- A nickname, or what stands for one that is empty.
abbrev pub or_label : Bytes → Bytes → Bytes
or_label nick other = if length nick == 0 then other else nick

module _ (env : Environment) (r : Roster) where
  abbrev pub after : Roster × Option Roster.Error → Bytes → Bytes → Outcome
  after (r', e) prefix done = or_failed prefix e (say r' done)

  abbrev pub changed : Roster.Reply (Unit {0}) → Roster × Option Roster.Error
  changed x = (x.0, x.1.1)

  -- The announced name that a user without a nickname gets.
  unfoldable pub default_nick : Roster → Bytes → Bytes → (Bytes → Bytes) → Roster
  default_nick r' h hash lookup_name = elim (get env.to_lower env.trim_space r' h) [
    | none ↦ r'
    | some u ↦
        let nick = sanitize_nickname (env.runes (lookup_name hash)) in
        if not (length u.nickname == 0) || length (lookup_name hash) == 0 || length nick == 0
        then r'
        else (set_nickname env.to_lower r' env.saves_next h nick).0
  ]

  abbrev pub named : Roster → Bytes → Bytes → Option (Bytes → Bytes) → Roster
  named r' h hash none = r'
  named r' h hash (some f) = default_nick r' h hash f

  abbrev pub join_hash : Caller → Bytes → Outcome
  join_hash c hash =
      if is_banned r hash
      then say r (codes "You're banned from this chat.")
      else if ltb 0 env.max_members && leb env.max_members (len_users r)
      then say r (
          codes "Sorry, the chat is full ("
          ++ (env.decimal (len_users r)
              ++ (codes "/"
                  ++ (env.decimal env.max_members ++ codes " members). Please try again later."))))
      else (let (r', (new, e)) = add_or_update r env.saves hash env.now in
          elim e [
            | some e' ↦ record {
              roster = r';
              calls = [];
              reply = failed (codes "Couldn't join: ") e';
            }
            | none ↦ record {
              roster = named r' c.hash hash env.lookup_announced_name;
              calls = (if env.on_join then joined c.hash ∷ [] else []);
              reply = text (
                  codes
                    "Joined. You'll receive forwarded messages from now on. /pause to mute, /leave to exit, /? for help.");
            }
          ])

  unfoldable pub handle_join : Caller → Outcome
  handle_join c =
      if c.member
      then say r (codes "You're already in the chat. Send /pause to mute, /leave to exit.")
      else elim c.hash_bytes [
        | none ↦ say r (codes "Couldn't join: malformed sender hash.")
        | some hash ↦ join_hash c hash
      ]

  unfoldable pub handle_leave : Caller → Outcome
  handle_leave c =
      if not c.member
      then say r (codes "You're not in the chat.")
      else (let (r', (was, e)) = remove env.to_lower r env.saves c.hash in
          after (r', e) (codes "Couldn't leave: ")
            (codes "Left the chat. Send /join any time to come back."))

  unfoldable pub handle_pause : Caller → Outcome
  handle_pause c =
      if not c.member
      then say r not_joined
      else if c.paused
      then say r (codes "You're already paused. Send /resume to come back.")
      else after (changed (set_paused env.to_lower r env.saves c.hash true))
          (codes "Couldn't pause: ")
          (codes "Paused. You won't receive forwarded messages until you /resume.")

  unfoldable pub handle_resume : Caller → Outcome
  handle_resume c =
      if not c.member
      then say r not_joined
      else if not c.paused
      then say r (codes "You're not paused.")
      else after (changed (set_paused env.to_lower r env.saves c.hash false))
          (codes "Couldn't resume: ") (codes "Resumed. You'll receive forwarded messages again.")

  unfoldable pub handle_text_only : Caller → Outcome
  handle_text_only c =
      if not c.member
      then say r not_joined
      else if c.text_only
      then say r
          (codes "You're already on text-only. Send /showall to start receiving attachments again.")
      else after (changed (set_text_only env.to_lower r env.saves c.hash true))
          (codes "Couldn't switch to text-only: ")
          (codes
            "Text-only mode on. You'll get the chat text but no image/file attachments. Send /showall to switch back.")

  unfoldable pub handle_show_all : Caller → Outcome
  handle_show_all c =
      if not c.member
      then say r not_joined
      else if not c.text_only
      then say r (codes "You're already receiving everything.")
      else after (changed (set_text_only env.to_lower r env.saves c.hash false))
          (codes "Couldn't switch back: ")
          (codes "Showing all. You'll receive image and other attachments again.")

  abbrev pub rename : Bytes → Bytes → Bytes → Outcome
  rename h nick done =
      if not (nick_matches nick)
      then say r nick_rule
      else after (changed (set_nickname env.to_lower r env.saves h nick))
          (codes "Couldn't change nickname: ") done

  -- The user that a query finds, or the error.
  abbrev pub found : Bytes → (Bytes × User → Outcome) → Outcome
  found query next = elim (resolve env.to_lower env.trim_space r query) [
    | err e ↦ record { roster = r; calls = []; reply = unresolved e }
    | ok target ↦ next target
  ]

  unfoldable pub handle_nick : Caller → List Bytes → Outcome
  handle_nick c [] = say r (codes "Usage: /nick <newname>   (mod/admin: /nick <user> <newname>)")
  handle_nick c (nick ∷ []) =
      if not c.member
      then say r (codes "Send /join first.")
      else rename c.hash nick (codes "Nickname set to " ++ (nick ++ codes "."))
  handle_nick c (query ∷ nick ∷ []) =
      if not (at_least_mod c.role)
      then say r nick_spaces
      else found query (λ (h, u).
        rename h nick
          (codes "Set " ++ (take 8 h ++ (codes "'s nickname to " ++ (nick ++ codes ".")))))
  handle_nick c (x ∷ y ∷ z ∷ more) =
      if not (at_least_mod c.role)
      then say r nick_spaces
      else say r (
          codes
            "Usage: /nick <newname>   or   /nick <user> <newname>   (no spaces in either argument)")
