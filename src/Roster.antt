-- ===== src/Roster.antt =====
-- internal/roster/roster.go: the members, the bans and what each event does to them. Times are
-- numbers with 0 for the zero time, durations are not negative, and texts are bytes. `saves` says
-- whether the store's Save succeeds; `saved` is the state that it wrote last.
pub mod Keys
pub mod Members
pub mod Joining
pub mod Pruning
pub mod Saving
pub mod Finding
pub mod Roles
pub mod Presence
mod Examples
use reticulum_forwarding_ser.Base.{
  ℕ, ◌-◌, Bool, true, false, not, ◌&&◌, ◌||◌, List, [], ◌∷◌, ◌==◌, ltb, if◌then◌else◌, length,
  Option, none, some,
}
use reticulum_forwarding_ser.Base.Bytes.{Bytes, hex_encode}
use reticulum_forwarding_ser.Base.Assoc.{lookup, insert, delete}

pub data Role : Type 0 where
  role_none role_mod role_admin : Role

pub record User : Type 0 where
  pub nickname : Bytes
  pub joined_at : ℕ
  pub last_announce_at : ℕ
  pub last_message_at : ℕ
  pub last_command_at : ℕ
  pub paused : Bool
  pub text_only : Bool
  pub role : Role

abbrev later : ℕ → ℕ → ℕ
later last t = if ltb last t then t else last

unfoldable pub last_seen : User → ℕ
last_seen u =
    later (later (later u.joined_at u.last_message_at) u.last_announce_at) u.last_command_at

unfoldable pub last_spoke : User → ℕ
last_spoke u = later u.joined_at u.last_message_at

pub record Roster : Type 0 where
  pub users : List (Bytes × User)
  pub banlist : List (Bytes × Unit {0})
  pub has_store : Bool
  pub saved : List (Bytes × User) × List (Bytes × Unit {0})

pub data Error : Type 0 where
  hash_length save_failed not_in_roster invalid_role : Error

-- The new state, the value and the error that are returned with it.
abbrev pub Reply : Type 0 → Type 0
Reply A = Roster × (A × Option Error)

unfoldable pub normalize_hash : Bytes → Option Bytes
normalize_hash hash = if not (length hash == 16) then none else some (hex_encode hash)

unfoldable pub persist : {A : Type 0} → Roster → Bool → A → Reply A
persist r saves value =
    if not r.has_store
    then (r, (value, none))
    else if saves
    then (record r { saved = (r.users, r.banlist) }, (value, none))
    else (r, (value, some save_failed))

abbrev pub new_user : ℕ → User
new_user now = record {
  nickname = [];
  joined_at = now;
  last_announce_at = 0;
  last_message_at = now;
  last_command_at = 0;
  paused = false;
  text_only = false;
  role = role_none;
}

abbrev pub with_user : Roster → Bytes → User → Roster
with_user r h u = record r { users = insert h u r.users }

-- AddOrUpdate, Touch, MarkMessage and UpdateLastAnnounce behind the hash check.
unfoldable pub add_or_update_at : Roster → Bool → Bytes → ℕ → Reply Bool
unfolding persist
add_or_update_at r saves h now = elim (lookup h r.users) [
  | none ↦ persist (with_user r h (new_user now)) saves true
  | some u ↦ persist (with_user r h (record u { last_message_at = now })) saves false
]

unfoldable pub add_or_update : Roster → Bool → Bytes → ℕ → Reply Bool
unfolding normalize_hash add_or_update_at
add_or_update r saves hash now = elim (normalize_hash hash) [
  | none ↦ (r, (false, some hash_length))
  | some h ↦ add_or_update_at r saves h now
]

-- A change of an existing user, with a value for a user that is missing.
abbrev pub change :
    {A : Type 0} → Roster → Bool → Bytes → (User → User) → A → Option Error → A → Reply A
change r saves h f missing e value = elim (lookup h r.users) [
  | none ↦ (r, (missing, e))
  | some u ↦ persist (with_user r h (f u)) saves value
]

unfoldable pub touch : Roster → Bool → Bytes → ℕ → Reply Bool
unfolding normalize_hash persist
touch r saves hash now = elim (normalize_hash hash) [
  | none ↦ (r, (false, some hash_length))
  | some h ↦ change r saves h (λ u. record u { last_command_at = now }) false none true
]

unfoldable pub mark_message : Roster → Bool → Bytes → ℕ → Reply Bool
unfolding normalize_hash persist
mark_message r saves hash now = elim (normalize_hash hash) [
  | none ↦ (r, (false, some hash_length))
  | some h ↦ change r saves h (λ u. record u { last_message_at = now }) false none true
]

unfoldable pub announce_at : Roster → Bool → Bytes → ℕ → Reply (Unit {0})
unfolding persist
announce_at r saves h at_time = elim (lookup h r.users) [
  | none ↦ (r, (tt, none))
  | some u ↦
      (if not (ltb u.last_announce_at at_time)
        then (r, (tt, none))
        else persist (with_user r h (record u { last_announce_at = at_time })) saves tt)
]

unfoldable pub update_last_announce : Roster → Bool → Bytes → ℕ → Reply (Unit {0})
unfolding normalize_hash announce_at
update_last_announce r saves hash at_time = elim (normalize_hash hash) [
  | none ↦ (r, (tt, some hash_length))
  | some h ↦ announce_at r saves h at_time
]

-- Does one of the two inactivity rules of Prune fire?
unfoldable pub is_stale : ℕ → ℕ → ℕ → User → Bool
unfolding last_seen last_spoke
is_stale now idle_cutoff silent_cutoff u =
    ltb (last_seen u) (now - idle_cutoff)
    || (ltb 0 silent_cutoff && ltb (last_spoke u) (now - silent_cutoff))

-- The hashes that Prune's loop collects, and the deletion of each.
unfoldable pub stale_hashes : (User → Bool) → List (Bytes × User) → List Bytes
stale_hashes stale [] = []
stale_hashes stale ((h, u) ∷ m) =
    let rest = stale_hashes stale m in if stale u then h ∷ rest else rest

unfoldable pub delete_all : List Bytes → List (Bytes × User) → List (Bytes × User)
delete_all [] m = m
delete_all (h ∷ hs) m = delete h (delete_all hs m)

unfoldable pub prune : Roster → Bool → ℕ → ℕ → ℕ → Reply (List Bytes)
unfolding stale_hashes is_stale delete_all persist
prune r saves now idle_cutoff silent_cutoff =
    let pruned = stale_hashes (is_stale now idle_cutoff silent_cutoff) r.users in
    if length pruned == 0
    then (r, ([], none))
    else persist (record r { users = delete_all pruned r.users }) saves pruned

abbrev pub is_some : {A : Type 0} → Option A → Bool
is_some none = false
is_some (some a) = true

unfoldable pub has : Roster → Bytes → Bool
unfolding normalize_hash
has r hash = elim (normalize_hash hash) [ none ↦ false | some h ↦ is_some (lookup h r.users) ]

unfoldable pub is_banned : Roster → Bytes → Bool
unfolding normalize_hash
is_banned r hash = elim (normalize_hash hash) [
  | none ↦ false
  | some h ↦ is_some (lookup h r.banlist)
]

-- The operations on a hash given as text; `to_lower` is strings.ToLower.
module _ (to_lower : Bytes → Bytes) where
  unfoldable pub remove : Roster → Bool → Bytes → Reply Bool
  unfolding persist
  remove r saves text =
      let h = to_lower text in
      if not (is_some (lookup h r.users))
      then (r, (false, none))
      else persist (record r { users = delete h r.users }) saves true

  unfoldable pub ban : Roster → Bool → Bytes → Reply (Unit {0})
  unfolding persist
  ban r saves text =
      let h = to_lower text in
      persist (record r { users = delete h r.users; banlist = insert h tt r.banlist }) saves tt

  unfoldable pub unban : Roster → Bool → Bytes → Reply Bool
  unfolding persist
  unban r saves text =
      let h = to_lower text in
      if not (is_some (lookup h r.banlist))
      then (r, (false, none))
      else persist (record r { banlist = delete h r.banlist }) saves true

  pub set_paused : Roster → Bool → Bytes → Bool → Reply (Unit {0})
  unfolding persist
  set_paused r saves text paused =
      change r saves (to_lower text) (λ u. record u { paused = paused }) tt (some not_in_roster) tt

  pub set_text_only : Roster → Bool → Bytes → Bool → Reply (Unit {0})
  unfolding persist
  set_text_only r saves text text_only =
      change r saves (to_lower text) (λ u. record u { text_only = text_only }) tt
        (some not_in_roster) tt

  pub set_nickname : Roster → Bool → Bytes → Bytes → Reply (Unit {0})
  unfolding persist
  set_nickname r saves text nick =
      change r saves (to_lower text) (λ u. record u { nickname = nick }) tt (some not_in_roster) tt

  -- `none` is a text that names no role.
  pub set_role : Roster → Bool → Bytes → Option Role → Reply (Unit {0})
  unfolding persist
  set_role r saves text none = (r, (tt, some invalid_role))
  set_role r saves text (some role) =
      change r saves (to_lower text) (λ u. record u { role = role }) tt (some not_in_roster) tt

  unfoldable pub is_paused : Roster → Bytes → Bool
  is_paused r text = elim (lookup (to_lower text) r.users) [ none ↦ false | some u ↦ u.paused ]

  unfoldable pub is_text_only : Roster → Bytes → Bool
  is_text_only r text = elim (lookup (to_lower text) r.users) [
    | none ↦ false
    | some u ↦ u.text_only
  ]

-- The members to whom a message is fanned out.
unfoldable pub active_hashes : List (Bytes × User) → List Bytes
active_hashes [] = []
active_hashes ((h, u) ∷ m) = let rest = active_hashes m in if not u.paused then h ∷ rest else rest
