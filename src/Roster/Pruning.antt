-- ===== src/Roster/Pruning.antt =====
-- Which members a sweep removes.
use reticulum_forwarding_ser.Base.{
  ℕ, ◌+◌, ◌<◌, ◌≡◌, ◌⊎◌, refl, sym, ap, ◌∙◌, inl, inr, Bool, true, false, ◌==◌, if◌then◌else◌,
  Bool-cases, Option-cases, List, [], ◌∷◌, Option, none, some, length, arith,
}
use reticulum_forwarding_ser.Base.Bytes.{Bytes, beq_iff, hex_encode}
use reticulum_forwarding_ser.Base.Assoc.{lookup, insert, lookup-insert}
use reticulum_forwarding_ser.Roster.{
  User, Roster, is_stale, stale_hashes, delete_all, prune, last_seen, last_spoke, touch,
  normalize_hash,
}
use reticulum_forwarding_ser.Roster.Members.{persist-users}
use reticulum_forwarding_ser.Roster.Keys.{IsMap, is_stale_entry, lookup-prune_users}

nil_of : (hs : List Bytes) → (length hs == 0) ≡ true → hs ≡ []
nil_of [] h = refl
nil_of (x ∷ hs) h = absurd (ground arith)

-- The last message time of a member.
abbrev pub spoke : Option User → Option ℕ
spoke none = none
spoke (some u) = some (last_spoke u)

-- A command changes no member's LastSpoke, so that it saves nobody from the silent rule.
pub last_spoke-touch :
    (r : Roster) (saves : Bool) (hash : Bytes) (now : ℕ) (k : Bytes)
    → spoke (lookup k (touch r saves hash now).0.users) ≡ spoke (lookup k r.users)
unfolding touch normalize_hash last_spoke
last_spoke-touch r saves hash now k = elim (Option-cases (lookup (hex_encode hash) r.users)) [
  | inl missing ↦ ground arith
  | inr (u, found) ↦
      (let h = hex_encode hash in
        let v : User = record u { last_command_at = now } in
        let next : Roster = record r { users = insert h v r.users } in
        ground (arith, persist-users next saves true, lookup-insert h k v r.users, beq_iff h k))
]

-- Nothing has been heard of a member since the idle cutoff: no join, message, announce or command.
abbrev pub IsIdle : ℕ → ℕ → User → Type 0
IsIdle now idle u =
    (u.joined_at + idle < now)
    × (u.last_message_at + idle < now)
    × (u.last_announce_at + idle < now)
    × (u.last_command_at + idle < now)

-- There is a silent cutoff, and the member has neither joined nor sent a message since.
abbrev pub IsSilent : ℕ → ℕ → User → Type 0
IsSilent now silent u =
    (0 < silent) × (u.joined_at + silent < now) × (u.last_message_at + silent < now)

is_stale-cases :
    (now idle silent : ℕ) (u : User)
    → (IsIdle now idle u ⊎ IsSilent now silent u → is_stale now idle silent u ≡ true)
      × (¬ (IsIdle now idle u ⊎ IsSilent now silent u) → is_stale now idle silent u ≡ false)
unfolding is_stale last_seen last_spoke
is_stale-cases now idle silent u = (λ h. ground (arith, h), λ h. ground (arith, h))

lookup-pruned :
    (r : Roster) (saves : Bool) (now idle silent : ℕ) (k : Bytes)
    → IsMap r.users
    → lookup k (prune r saves now idle silent).0.users ≡ (
        if is_stale_entry (is_stale now idle silent) (lookup k r.users)
        then none
        else lookup k r.users)
unfolding prune delete_all
lookup-pruned r saves now idle silent k a =
    let stale = stale_hashes (is_stale now idle silent) r.users in
    let gone = lookup-prune_users (is_stale now idle silent) k r.users a in
    elim (Bool-cases (length stale == 0)) [
      | inl nothing ↦
          (let none_stale : stale ≡ [] = nil_of stale nothing in
            rw nothing (ap (λ hs. lookup k (delete_all hs r.users)) (sym none_stale) ∙ gone))
      | inr some_stale ↦ rw some_stale (ap (lookup k) (persist-users _ saves stale) ∙ gone)
    ]

-- A sweep removes a member of whom nothing has been heard since the idle cutoff (no join, message,
-- announce or command), or, where there is a silent cutoff, who has neither joined nor sent a
-- message since that; every other member stays and is unchanged, and nobody is added, whether the
-- store could be written or not. The keys of the roster are all different.
pub lookup-prune :
    (r : Roster) (saves : Bool) (now idle silent : ℕ) (k : Bytes)
    → IsMap r.users
    → (lookup k r.users ≡ none → lookup k (prune r saves now idle silent).0.users ≡ none)
      × ((u : User)
          → lookup k r.users ≡ some u
          → (IsIdle now idle u ⊎ IsSilent now silent u
              → lookup k (prune r saves now idle silent).0.users ≡ none)
            × (¬ (IsIdle now idle u ⊎ IsSilent now silent u)
                → lookup k (prune r saves now idle silent).0.users ≡ some u))
lookup-prune r saves now idle silent k a =
    let swept = lookup-pruned r saves now idle silent k a in
    (
      λ absent. ground (arith, swept, absent),
      λ u found. (
        λ h. ground (arith, swept, found, (is_stale-cases now idle silent u).0 h),
        λ h. ground (arith, swept, found, (is_stale-cases now idle silent u).1 h),
      ),
    )
