-- ===== src/Roster/Joining.antt =====
-- What a message of an identity does to the members.
use reticulum_forwarding_ser.Base.{
  ℕ, ◌≡◌, refl, ap, ◌∙◌, inl, inr, Bool, true, false, Option-cases, some, length, arith,
}
use reticulum_forwarding_ser.Base.Bytes.{Bytes, ◌=ᵇ◌, beq_refl, hex_encode}
use reticulum_forwarding_ser.Base.Assoc.{lookup, insert, lookup-insert}
use reticulum_forwarding_ser.Roster.{
  User, Roster, new_user, add_or_update_at, add_or_update, normalize_hash,
}
use reticulum_forwarding_ser.Roster.Keys.{IsMap, insert-IsMap}
use reticulum_forwarding_ser.Roster.Members.{persist-users}

joined_at_key :
    (r : Roster) (saves : Bool) (h : Bytes) (now : ℕ)
    → (u : User) × ((add_or_update_at r saves h now).0.users ≡ insert h u r.users)
      × (u.last_message_at ≡ now)
unfolding add_or_update_at
joined_at_key r saves h now = elim (Option-cases (lookup h r.users)) [
  | inl missing ↦
      (let v : User = new_user now in
        let next : Roster = record r { users = insert h v r.users } in
        (v, ground (arith, persist-users next saves true), refl))
  | inr (u, found) ↦
      (let v : User = record u { last_message_at = now } in
        let next : Roster = record r { users = insert h v r.users } in
        (v, ground (arith, persist-users next saves false), refl))
]

-- A message of an identity makes it a member, or keeps it one, with the message time noted, whether
-- the store could be written or not; every other key has the member that it had, and the members
-- are still a map.
pub add_or_update_joins :
    (r : Roster) (saves : Bool) (hash : Bytes) (now : ℕ)
    → length hash ≡ 16
    → IsMap r.users
    → (let after = (add_or_update r saves hash now).0 in
        ((u : User) × (lookup (hex_encode hash) after.users ≡ some u) × (u.last_message_at ≡ now))
        × ((k : Bytes) → (hex_encode hash =ᵇ k) ≡ false → lookup k after.users ≡ lookup k r.users)
        × IsMap after.users)
unfolding add_or_update normalize_hash
add_or_update_joins r saves hash now long a =
    let h = hex_encode hash in
    let (u, e, stamp) = joined_at_key r saves h now in
    let e' : (add_or_update r saves hash now).0.users ≡ insert h u r.users = ground (arith, e) in
    (
      (u, ap (lookup h) e' ∙ ground (arith, lookup-insert h h u r.users, beq_refl h), stamp),
      λ k other. ap (lookup k) e' ∙ ground (arith, lookup-insert h k u r.users),
      rw e' (insert-IsMap h u r.users a),
    )
