-- ===== src/Roster/Members.antt =====
-- What announces, commands and bans do to the members.
use reticulum_forwarding_ser.Base.{
  ℕ, ◌≤◌, ◌≡◌, ap, ◌∙◌, inl, inr, Bool, true, false, ltb, Bool-cases, Option-cases, Option, none,
  some, length, arith,
}
use reticulum_forwarding_ser.Base.Bytes.{Bytes, ◌=ᵇ◌, beq_iff, beq_refl, hex_encode}
use reticulum_forwarding_ser.Base.Assoc.{lookup, insert, delete, lookup-insert, lookup-delete}
use reticulum_forwarding_ser.Roster.{
  User, Roster, normalize_hash, persist, announce_at, update_last_announce, has, is_banned, ban,
}

-- The last announce of a member, and 0 for others.
abbrev pub announced : Option User → ℕ
announced none = 0
announced (some u) = u.last_announce_at

pub persist-users :
    {A : Type 0}
    → (r : Roster) (saves : Bool) (value : A) → (persist r saves value).0.users ≡ r.users
unfolding persist
persist-users r saves value = ground arith

pub persist-banlist :
    {A : Type 0}
    → (r : Roster) (saves : Bool) (value : A) → (persist r saves value).0.banlist ≡ r.banlist
unfolding persist
persist-banlist r saves value = ground arith

-- The state after a ban of h.
banned_state :
    (r after : Roster) (hash : Bytes)
    → length hash ≡ 16
    → after.users ≡ delete (hex_encode hash) r.users
    → after.banlist ≡ insert (hex_encode hash) tt r.banlist
    → (is_banned after hash ≡ true)
      × (has after hash ≡ false)
      × ((k : Bytes) → (hex_encode hash =ᵇ k) ≡ false → lookup k after.users ≡ lookup k r.users)
unfolding is_banned has normalize_hash
banned_state r after hash long eu eb =
    let h = hex_encode hash in
    let listed : lookup h after.banlist ≡ some tt =
      ap (lookup h) eb ∙ ground (arith, lookup-insert h h tt r.banlist, beq_refl h) in
    let gone : lookup h after.users ≡ none =
      ap (lookup h) eu ∙ ground (arith, lookup-delete h h r.users, beq_refl h) in
    (
      ground (arith, listed),
      ground (arith, gone),
      λ k other. ap (lookup k) eu ∙ ground (arith, lookup-delete h k r.users),
    )

module _ (to_lower : Bytes → Bytes) where
  -- If lower-casing leaves the hex text of an identity hash as it is, then after a ban on that text
  -- the identity is banned and is no member, whether the store could be written or not, and every
  -- other key has the member that it had.
  pub is_banned-ban :
      (r : Roster) (saves : Bool) (hash : Bytes)
      → length hash ≡ 16
      → to_lower (hex_encode hash) ≡ hex_encode hash
      → (let after = (ban to_lower r saves (hex_encode hash)).0 in
          (is_banned after hash ≡ true)
          × (has after hash ≡ false)
          × ((k : Bytes)
              → (hex_encode hash =ᵇ k) ≡ false
              → lookup k after.users ≡ lookup k r.users))
  unfolding ban
  is_banned-ban r saves hash long low =
      banned_state r _ hash long (persist-users _ saves tt ∙ ap (λ h. delete h r.users) low)
        (persist-banlist _ saves tt ∙ ap (λ h. insert h tt r.banlist) low)

announce_at-later :
    (r : Roster) (saves : Bool) (h k : Bytes) (t : ℕ)
    → announced (lookup k r.users) ≤ announced (lookup k (announce_at r saves h t).0.users)
unfolding announce_at
announce_at-later r saves h k t = elim (Option-cases (lookup h r.users)) [
  | inl missing ↦ ground arith
  | inr (u, found) ↦ elim (Bool-cases (ltb u.last_announce_at t)) [
    | inr old ↦ ground arith
    | inl new ↦
        (let v : User = record u { last_announce_at = t } in
          let next : Roster = record r { users = insert h v r.users } in
          ground (arith, persist-users next saves tt, lookup-insert h k v r.users, beq_iff h k))
  ]
]

-- An announce never moves the announce time of any member backward, and one that is not later than
-- the member's last changes nothing at all, the store included.
pub update_last_announce_monotone :
    (r : Roster) (saves : Bool) (hash : Bytes) (t : ℕ)
    → ((k : Bytes)
        → announced (lookup k r.users)
          ≤ announced (lookup k (update_last_announce r saves hash t).0.users))
      × (t ≤ announced (lookup (hex_encode hash) r.users)
          → (update_last_announce r saves hash t).0 ≡ r)
unfolding update_last_announce normalize_hash announce_at
update_last_announce_monotone r saves hash t =
    (λ k. ground (arith, announce_at-later r saves (hex_encode hash) k t), λ old. ground arith)
