-- ===== src/Commands/Nicknames.antt =====
-- internal/commands/handlers.go: nicknames and the bytes of names and hashes.
use reticulum_forwarding_ser.Base.{
  ℕ, ◌+◌, ◌-◌, ◌*◌, ◌/◌, ◌%◌, ◌≤◌, ◌<◌, ◌≡◌, ◌⊎◌, inl, inr, refl, ap, All, length-append,
  List-cases, Bool, true, false, not, ◌&&◌, ◌||◌, [], ◌∷◌, ◌++◌, ◌==◌, ltb, leb, if◌then◌else◌,
  length, take, List, Option, none, some, arith, Bool-cases,
}
use reticulum_forwarding_ser.Base.Bytes.{Bytes, IsByte, hex_digit, hex_encode}

-- A rune of the alphabet of nicknames but '_'.
pub is_nick_rune : ℕ → Bool
is_nick_rune r =
    (leb b'A' r && leb r b'Z')
    || (leb b'a' r && leb r b'z')
    || (leb b'0' r && leb r b'9')
    || r == b'-'

pub all_nick_bytes : Bytes → Bool
all_nick_bytes [] = true
all_nick_bytes (c ∷ s) = (is_nick_rune c || c == b'_') && all_nick_bytes s

-- nickRE.MatchString
unfoldable pub nick_matches : Bytes → Bool
nick_matches s = leb 1 (length s) && leb (length s) 24 && all_nick_bytes s

-- The loop of SanitizeNickname over the runes that are left, with what is written.
pub sanitize_runes : List ℕ → Bool → Bytes → Bytes
sanitize_runes [] prev out = out
sanitize_runes (r ∷ rs) prev out =
    let kept = out ++ (r ∷ []) in
    let marked = out ++ (b'_' ∷ []) in
    let after_kept = sanitize_runes rs false kept in
    let after_marked = sanitize_runes rs true marked in
    let after_none = sanitize_runes rs prev out in
    if is_nick_rune r
    then (if leb 24 (length kept) then kept else after_kept)
    else if not prev && ltb 0 (length out)
    then (if leb 24 (length marked) then marked else after_marked)
    else if leb 24 (length out)
    then out
    else after_none

-- `strings.Trim(out, "_-")`, from the left and from the right.
pub trim_marks_left : Bytes → Bytes
trim_marks_left [] = []
trim_marks_left (c ∷ s) =
    let rest = trim_marks_left s in if c == b'_' || c == b'-' then rest else c ∷ s

-- The byte in front of what is kept of the rest.
abbrev trim_end : ℕ → Bytes → Bytes
trim_end c [] = if c == b'_' || c == b'-' then [] else c ∷ []
trim_end c (d ∷ s) = c ∷ d ∷ s

pub trim_marks_right : Bytes → Bytes
trim_marks_right [] = []
trim_marks_right (c ∷ s) = trim_end c (trim_marks_right s)

-- SanitizeNickname of the runes of a text.
unfoldable pub sanitize_nickname : List ℕ → Bytes
unfolding sanitize_runes
sanitize_nickname runes =
    let out = trim_marks_right (trim_marks_left (sanitize_runes runes false [])) in
    if ltb 24 (length out) then take 24 out else out

unfoldable pub hex_nibble : ℕ → Option ℕ
hex_nibble c =
    if leb b'0' c && leb c b'9'
    then some (c - b'0')
    else if leb b'a' c && leb c b'f'
    then some (c - b'a' + 10)
    else if leb b'A' c && leb c b'F'
    then some (c - b'A' + 10)
    else none

abbrev hex_byte : Option ℕ → Option ℕ → Option Bytes → Option Bytes
hex_byte (some hi) (some lo) (some out) = some ((hi * 16 + lo) ∷ out)
hex_byte _ _ _ = none

unfoldable pub hex_bytes : Bytes → Option Bytes
hex_bytes [] = some []
hex_bytes (a ∷ []) = none
hex_bytes (a ∷ b ∷ h) = hex_byte (hex_nibble a) (hex_nibble b) (hex_bytes h)

unfoldable pub must_hex_bytes : Bytes → Option Bytes
unfolding hex_bytes
must_hex_bytes h = if not (length h == 32) then none else hex_bytes h

all_nick-append :
    (s t : Bytes)
    → all_nick_bytes s ≡ true
    → all_nick_bytes t ≡ true
    → all_nick_bytes (s ++ t) ≡ true
unfolding all_nick_bytes
all_nick-append [] t hs ht = ht
all_nick-append (c ∷ s) t hs ht = ground (arith, all_nick-append s t)

one_mark : (r : ℕ) → (is_nick_rune r || r == b'_') ≡ true → all_nick_bytes (r ∷ []) ≡ true
unfolding all_nick_bytes
one_mark r h = ground arith

runes-nick :
    (rs : List ℕ) (prev : Bool) (out : Bytes)
    → length out < 24
    → all_nick_bytes out ≡ true
    → (length (sanitize_runes rs prev out) ≤ 24)
      × (all_nick_bytes (sanitize_runes rs prev out) ≡ true)
unfolding sanitize_runes is_nick_rune
runes-nick [] prev out short good = (omega arith, good)
runes-nick (r ∷ rs) prev out short good =
    let kept_len = length-append out (r ∷ []) in
    let marked_len = length-append out (b'_' ∷ []) in
    let marked_good = all_nick-append out (b'_' ∷ []) good (one_mark b'_' refl) in
    elim (Bool-cases (is_nick_rune r)) [
      | inl nick ↦
          (let kept_good = all_nick-append out (r ∷ []) good (one_mark r (ground (arith, nick))) in
            elim (Bool-cases (leb 24 (length (out ++ (r ∷ []))))) [
              | inl full ↦ rw (nick, full) (omega (arith, kept_len, short), kept_good)
              | inr more ↦
                  rw (nick, more)
                    (runes-nick rs false (out ++ (r ∷ [])) (ground (arith, more)) kept_good)
            ])
      | inr other ↦ elim (Bool-cases (not prev && ltb 0 (length out))) [
        | inl mark ↦ elim (Bool-cases (leb 24 (length (out ++ (b'_' ∷ []))))) [
          | inl full ↦ rw (other, mark, full) (omega (arith, marked_len, short), marked_good)
          | inr more ↦
              rw (other, mark, more)
                (runes-nick rs true (out ++ (b'_' ∷ [])) (ground (arith, more)) marked_good)
        ]
        | inr skip ↦
            (let fits : leb 24 (length out) ≡ false = ground (arith, short) in
              rw (other, skip, fits) (runes-nick rs prev out short good))
      ]
    ]

Trimmed : Bytes → Bytes → Type 0
Trimmed s t = (length t ≤ length s) × (all_nick_bytes s ≡ true → all_nick_bytes t ≡ true)

left-Trimmed : (s : Bytes) → Trimmed s (trim_marks_left s)
unfolding Trimmed trim_marks_left all_nick_bytes
left-Trimmed [] = (omega arith, λ h. h)
left-Trimmed (c ∷ s) = ground (arith, left-Trimmed s)

end-Trimmed : (c : ℕ) (s t : Bytes) → Trimmed s t → Trimmed (c ∷ s) (trim_end c t)
unfolding Trimmed all_nick_bytes
end-Trimmed c s [] h = ground arith
end-Trimmed c s (d ∷ t) h = ground arith

right-Trimmed : (s : Bytes) → Trimmed s (trim_marks_right s)
unfolding Trimmed trim_marks_right all_nick_bytes
right-Trimmed [] = (omega arith, λ h. h)
right-Trimmed (c ∷ s) = end-Trimmed c s (trim_marks_right s) (right-Trimmed s)

-- Any announced name gives nothing or a text that the nickname rule accepts.
pub nick_matches-sanitize_nickname :
    (runes : List ℕ)
    → (sanitize_nickname runes ≡ []) ⊎ (nick_matches (sanitize_nickname runes) ≡ true)
unfolding sanitize_nickname nick_matches Trimmed all_nick_bytes
nick_matches-sanitize_nickname runes =
    let raw = sanitize_runes runes false [] in
    let left = trim_marks_left raw in
    let out = trim_marks_right left in
    let (short, good) = runes-nick runes false [] (omega arith) refl in
    let (l_short, l_good) = left-Trimmed raw in
    let (r_short, r_good) = right-Trimmed left in
    let fits : ltb 24 (length out) ≡ false = ground (arith, short, l_short, r_short) in
    elim (List-cases out) [
      | inl none_left ↦ inl (rw fits none_left)
      | inr (c, s, e) ↦ inr (
          let pos : 1 ≤ length out = omega (arith, ap length e) in
          let nick : all_nick_bytes out ≡ true = r_good (l_good good) in
          rw fits (ground (arith, short, l_short, r_short, pos, nick)))
    ]

hex_nibble-hex_digit : (n : ℕ) → n < 16 → hex_nibble (hex_digit n) ≡ some n
unfolding hex_nibble hex_digit
hex_nibble-hex_digit n h = ground arith

hex_bytes-hex_encode : (b : Bytes) → All IsByte b → hex_bytes (hex_encode b) ≡ some b
unfolding hex_bytes hex_encode
hex_bytes-hex_encode [] h = refl
hex_bytes-hex_encode (x ∷ b) (hx, h) =
    let high : x / 16 < 16 = omega (arith, hx) in
    let low : x % 16 < 16 = omega arith in
    let whole : x / 16 * 16 + x % 16 ≡ x = omega arith in
    rw
      (
        hex_nibble-hex_digit (x / 16) high,
        hex_nibble-hex_digit (x % 16) low,
        hex_bytes-hex_encode b h,
      )
      (ap (λ y. some (y ∷ b)) whole)

length-hex_encode : (b : Bytes) → length (hex_encode b) ≡ 2 * length b
unfolding hex_encode
length-hex_encode [] = refl
length-hex_encode (x ∷ b) = omega (arith, length-hex_encode b)

-- The bytes of the hex text of an identity hash are that hash.
pub must_hex_bytes-hex_encode :
    (hash : Bytes)
    → length hash ≡ 16
    → All IsByte hash
    → must_hex_bytes (hex_encode hash) ≡ some hash
unfolding must_hex_bytes
must_hex_bytes-hex_encode hash long h =
    let len : (length (hex_encode hash) == 32) ≡ true =
      ground (arith, length-hex_encode hash, long) in
    rw len (hex_bytes-hex_encode hash h)
