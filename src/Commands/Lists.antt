-- ===== src/Commands/Lists.antt =====
-- internal/commands/handlers.go: the replies that list users, and how they are cut to a size.
use mathlib.Core.List.{append_assoc}
use reticulum_forwarding_ser.Base.{
  false, ℕ, ◌+◌, ◌-◌, ◌≤◌, ◌<◌, ◌≡◌, inl, inr, refl, ap, not, ◌&&◌, ◌||◌, [], ◌∷◌, ◌++◌, ◌==◌, ltb,
  leb, if◌then◌else◌, length, length-append, suc, sym, take, List, Option, none, some, arith,
  Bool-cases,
}
use reticulum_forwarding_ser.Base.Bytes.{Bytes}
use reticulum_forwarding_ser.Base.Text.{codes}
use reticulum_forwarding_ser.Base.Assoc.{lookup}
use reticulum_forwarding_ser.Roster.{User, Roster}
use reticulum_forwarding_ser.Commands.{Environment}

-- `strings.Join(lines, "\n")`, with a line break in front.
unfoldable pub joined_lines : List Bytes → Bytes
joined_lines [] = []
joined_lines (line ∷ lines) = (10 ∷ line) ++ joined_lines lines

-- " — "
abbrev pub dash : Bytes
dash = 32 ∷ 226 ∷ 128 ∷ 148 ∷ 32 ∷ []

module _ (env : Environment) where
  -- "\n  ...and %d more (see operator log)"
  unfoldable pub footer : ℕ → Bytes
  footer n = 10 ∷ (codes "  ...and " ++ (env.decimal n ++ codes " more (see operator log)"))

  -- The loop of fitList, over the lines that are left: what is added to the reply, which has
  -- `used` bytes, and how many lines were kept.
  unfoldable pub fit_lines : ℕ → List Bytes → Bytes × ℕ
  fit_lines used [] = ([], 0)
  fit_lines used (line ∷ lines) =
      let need = 1 + length line in
      let rest = fit_lines (used + need) lines in
      if ltb env.max_reply_content_bytes (used + need + length (footer (length lines)))
        && ltb 0 (length lines)
      then (footer (length lines + 1), 0)
      else if ltb env.max_reply_content_bytes (used + need)
      then (footer (length lines + 1), 0)
      else ((10 ∷ line) ++ rest.0, rest.1 + 1)

  unfoldable pub fit_list : Bytes → List Bytes → Bytes
  fit_list header lines =
      let full = header ++ joined_lines lines in
      let (added, kept) = fit_lines (length header) lines in
      if env.max_reply_content_bytes == 0 || leb (length full) env.max_reply_content_bytes
      then full
      else if kept == length lines
      then full
      else header ++ added

  pub user_line : Bytes × User → Bytes
  user_line (hash, u) =
      codes "  "
      ++ ((if length u.nickname == 0 then codes "(no nick)" else u.nickname)
          ++ (dash ++ (take 8 hash ++ (if u.paused then codes " [paused]" else []))))

  pub user_lines : List (Bytes × User) → List Bytes
  user_lines [] = []
  user_lines (x ∷ xs) = user_line x ∷ user_lines xs

  -- listUsers, of the roster's sorted list.
  pub list_users : List (Bytes × User) → Bytes
  list_users [] = codes "No users."
  list_users (x ∷ xs) =
      fit_list (codes "Users (" ++ (env.decimal (length (x ∷ xs)) ++ codes "):"))
        (user_lines (x ∷ xs))

  abbrev nick_of : Option User → Bytes
  nick_of none = []
  nick_of (some u) = u.nickname

  pub config_line : Roster → Bytes → Bytes
  config_line r h =
      let nick = nick_of (lookup (env.to_lower h) r.users) in
      if not (length nick == 0)
      then codes "  " ++ (nick ++ (dash ++ take 8 h))
      else codes "  " ++ take 8 h

  pub config_lines : Roster → List Bytes → List Bytes
  config_lines r [] = []
  config_lines r (h ∷ hs) = config_line r h ∷ config_lines r hs

  pub title_case : Bytes → Bytes
  title_case [] = []
  title_case (c ∷ s) = (if leb b'a' c && leb c b'z' then c - 32 else c) ∷ s

  -- listConfigList, of the hashes in their order.
  pub list_config_list : Roster → Bytes → List Bytes → Bytes
  list_config_list r label [] = codes "No " ++ (label ++ codes " configured.")
  list_config_list r label (h ∷ hs) =
      fit_list (title_case label ++ (codes " (" ++ (env.decimal (length (h ∷ hs)) ++ codes "):")))
        (config_lines r (h ∷ hs))

  -- What the loop adds when it does not keep every line.
  Fits : ℕ → List Bytes → Bytes × ℕ → Type 0
  Fits used lines (added, kept) =
      kept < length lines
      → (used + length added ≤ env.max_reply_content_bytes)
        × (added ≡ joined_lines (take kept lines) ++ footer (length lines - kept))

  fit_lines-Fits :
      (used : ℕ) (lines : List Bytes)
      → used + length (footer (length lines)) ≤ env.max_reply_content_bytes
      → Fits used lines (fit_lines used lines)
  unfolding fit_lines Fits joined_lines
  fit_lines-Fits used [] h = λ p. absurd (omega (arith, p))
  fit_lines-Fits used (line ∷ lines) h =
      let used' = used + (1 + length line) in
      let one_more : length lines + 1 ≡ suc (length lines) = omega arith in
      let stop : Fits used (line ∷ lines) (footer (length lines + 1), 0) = rw one_more (λ p. (
        h,
        let none_off : suc (length lines) ≡ suc (length lines) - 0 = omega arith in
            ap footer none_off,
      )) in
      let max = env.max_reply_content_bytes in
      elim (Bool-cases (ltb max (used' + length (footer (length lines))) && ltb 0 (length lines))) [
        | inl e ↦ rw e stop
        | inr e ↦ elim (Bool-cases (ltb max used')) [
          | inl q ↦ rw (e, q) stop
          | inr q ↦
              rw (e, q)
                (λ p.
                  let (added, kept) = fit_lines used' lines in
                  let more : kept < length lines = omega (arith, p) in
                  let room : used' + length (footer (length lines)) ≤ max =
                    ground (arith, e, more) in
                  let (short, same) = fit_lines-Fits used' lines room more in
                  let next : kept + 1 ≡ suc kept = omega arith in
                  let others : suc (length lines) - (kept + 1) ≡ length lines - kept =
                    omega arith in
                  (
                    omega (arith, short, length-append line added),
                    rw (others, next, same)
                        (sym (
                          append_assoc (10 ∷ line) (joined_lines (take kept lines))
                            (footer (length lines - kept)))),
                  ))
        ]
      ]

  fit_lines-le : (used : ℕ) (lines : List Bytes) → (fit_lines used lines).1 ≤ length lines
  unfolding fit_lines
  fit_lines-le used [] = omega arith
  fit_lines-le used (line ∷ lines) = ground (arith, fit_lines-le (used + (1 + length line)) lines)

  fit_lines-all :
      (used : ℕ) (lines : List Bytes)
      → (fit_lines used lines).1 ≡ length lines
      → (used ≤ env.max_reply_content_bytes)
      → used + length (joined_lines lines) ≤ env.max_reply_content_bytes
  unfolding fit_lines joined_lines
  fit_lines-all used [] h room = omega (arith, room)
  fit_lines-all used (line ∷ lines) h room = ground (
    arith,
    fit_lines-all (used + (1 + length line)) lines,
    length-append line (joined_lines lines),
  )

  -- With a limit, and a header that fits with the footer for every line, a list reply has at most
  -- as many bytes as it may have: it is the whole list if that fits, and if it does not, it is the
  -- header, the first lines, fewer than all, and the footer with the number of the others.
  pub fit_list_fits :
      (header : Bytes) (lines : List Bytes)
      → 0 < env.max_reply_content_bytes
      → length header + length (footer (length lines)) ≤ env.max_reply_content_bytes
      → (length (fit_list header lines) ≤ env.max_reply_content_bytes)
        × (length (header ++ joined_lines lines) ≤ env.max_reply_content_bytes
            → fit_list header lines ≡ header ++ joined_lines lines)
        × (env.max_reply_content_bytes < length (header ++ joined_lines lines)
            → (kept : ℕ) × (kept < length lines)
              × (fit_list header lines
                  ≡ header ++ (joined_lines (take kept lines) ++ footer (length lines - kept))))
  unfolding fit_list Fits
  fit_list_fits header lines on room =
      let full = header ++ joined_lines lines in
      let max = env.max_reply_content_bytes in
      let (added, kept) = fit_lines (length header) lines in
      elim (Bool-cases (max == 0 || leb (length full) max)) [
        | inl e ↦
            (let fits : length full ≤ max = ground (arith, e, on) in
              rw e (fits, λ h. refl, λ h. absurd (omega (arith, h, fits))))
        | inr e ↦
            (let long : max < length full = ground (arith, e) in
              let fewer : kept < length lines = ground (
                arith,
                long,
                length-append header (joined_lines lines),
                fit_lines-le (length header) lines,
                fit_lines-all (length header) lines,
                room,
              ) in
              let off : (kept == length lines) ≡ false = ground (arith, fewer) in
              let (short, same) = fit_lines-Fits (length header) lines room fewer in
              rw (e, off)
                (
                  omega (arith, length-append header added, short),
                  λ h. absurd (omega (arith, h, long)),
                  λ h. (kept, fewer, ap (λ x. header ++ x) same),
                ))
      ]
