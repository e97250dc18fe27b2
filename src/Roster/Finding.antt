-- ===== src/Roster/Finding.antt =====
-- internal/roster/roster.go: reading the roster. `to_lower` and `trim_space` are strings.ToLower
-- and strings.TrimSpace. A list of matches is in the order in which the map is gone through; the
-- code sorts what it prints of it.
use reticulum_forwarding_ser.Base.{
  ℕ, Bool, true, false, not, ◌&&◌, ◌||◌, List, [], ◌∷◌, ◌==◌, ltb, leb, if◌then◌else◌, length,
  Option, Result, ok, err,
}
use reticulum_forwarding_ser.Base.Bytes.{Bytes, ◌=ᵇ◌, has_prefix}
use reticulum_forwarding_ser.Base.Assoc.{lookup}
use reticulum_forwarding_ser.Roster.{User, Roster}

pub data ResolveError : Type 0 where
  empty_identifier : ResolveError
  ambiguous : Bytes → List (Bytes × User) → ResolveError
  no_match : Bytes → ResolveError

pub len_users : Roster → ℕ
len_users r = length r.users

abbrev pub keys {ℓ} : {A : Type ℓ} → List (Bytes × A) → List Bytes
keys [] = []
keys ((k, a) ∷ m) = k ∷ keys m

-- Banlist.
pub ban_list : Roster → List Bytes
ban_list r = keys r.banlist

pub is_hex_prefix : Bytes → Bool
is_hex_prefix [] = true
is_hex_prefix (c ∷ s) = ((leb 48 c && leb c 57) || (leb 97 c && leb c 102)) && is_hex_prefix s

-- The users that a test on the key and the user picks.
pub picked : (Bytes → User → Bool) → List (Bytes × User) → List (Bytes × User)
picked test [] = []
picked test ((h, u) ∷ m) = let rest = picked test m in if test h u then (h, u) ∷ rest else rest

-- `otherwise` for no match.
abbrev pub the_one :
    Bytes
    → Result ResolveError (Bytes × User)
    → List (Bytes × User)
    → Result ResolveError (Bytes × User)
the_one q otherwise [] = otherwise
the_one q otherwise (x ∷ []) = ok x
the_one q otherwise (x ∷ y ∷ xs) = err (ambiguous q (x ∷ y ∷ xs))

-- `a < b` on strings.
pub less_bytes : Bytes → Bytes → Bool
less_bytes [] [] = false
less_bytes [] (y ∷ ys) = true
less_bytes (x ∷ xs) [] = false
less_bytes (x ∷ xs) (y ∷ ys) = ltb x y || (x == y && less_bytes xs ys)

-- The order of List.
pub user_less : (Bytes → Bytes) → Bytes × User → Bytes × User → Bool
user_less to_lower (hi, i) (hj, j) =
    let ni = to_lower i.nickname in
    let nj = to_lower j.nickname in
    if length ni == 0 && not (length nj == 0)
    then false
    else if not (length ni == 0) && length nj == 0
    then true
    else if not (ni =ᵇ nj)
    then less_bytes ni nj
    else less_bytes hi hj

module _ (to_lower trim_space : Bytes → Bytes) where
  unfoldable pub get : Roster → Bytes → Option User
  get r text = lookup (to_lower text) r.users

  pub resolve : Roster → Bytes → Result ResolveError (Bytes × User)
  resolve r query =
      let q = to_lower (trim_space query) in
      let by_hash =
        if is_hex_prefix q && leb 4 (length q)
        then the_one q (err (no_match query)) (picked (λ h u. has_prefix h q) r.users)
        else err (no_match query) in
      if length q == 0
      then err empty_identifier
      else the_one q by_hash (picked (λ h u. to_lower u.nickname =ᵇ q) r.users)
