-- ===== src/Roster/Roles.antt =====
-- Which members and which roles an operation can change.
use reticulum_forwarding_ser.Base.{
  ℕ, ◌≤◌, ◌≡◌, refl, ap, ◌∙◌, inl, inr, Bool, true, false, Option, none, some, Option-cases,
  Bool-cases, not, ◌==◌, length, arith,
}
use reticulum_forwarding_ser.Base.Bytes.{Bytes, ◌=ᵇ◌, beq_iff, hex_encode}
use reticulum_forwarding_ser.Base.Assoc.{lookup, insert, delete, lookup-insert, lookup-delete}
use reticulum_forwarding_ser.Roster.{
  Role, role_none, role_mod, role_admin, User, Roster, Error, normalize_hash, persist, with_user,
  change, new_user, add_or_update_at, add_or_update, remove, ban, unban, set_paused, set_text_only,
  set_nickname,
}
use reticulum_forwarding_ser.Roster.Members.{persist-users, persist-banlist}

abbrev pub role_rank : Role → ℕ
role_rank role_none = 0
role_rank role_mod = 1
role_rank role_admin = 2

abbrev pub granted : Option User → ℕ
granted none = 0
granted (some u) = role_rank u.role

-- The rank of the role that the roster grants a key.
abbrev pub role_at : Roster → Bytes → ℕ
role_at r k = granted (lookup k r.users)

-- No role is raised.
abbrev pub Unraised : Roster → Roster → Type 0
Unraised r r' = (k : Bytes) → role_at r' k ≤ role_at r k

-- Only the member at `own` may change, nobody's role is raised, and the bans stay.
pub record Confined (own : Bytes) (r r' : Roster) : Type 0 where
  pub others : (k : Bytes) → (own =ᵇ k) ≡ false → lookup k r'.users ≡ lookup k r.users
  pub bans : r'.banlist ≡ r.banlist
  pub roles : Unraised r r'

pub refl-Confined : (own : Bytes) (r : Roster) → Confined own r r
refl-Confined own r = record { others = λ k h. refl; bans = refl; roles = λ k. omega arith }

pub trans-Confined :
    {own : Bytes} {r s t : Roster} → Confined own r s → Confined own s t → Confined own r t
trans-Confined a b = record {
  others = λ k h. b.others k h ∙ a.others k h;
  bans = b.bans ∙ a.bans;
  roles = λ k. omega (arith, a.roles k, b.roles k);
}

pub insert-Confined :
    (own : Bytes) (r r' : Roster) (u : User)
    → r'.users ≡ insert own u r.users
    → r'.banlist ≡ r.banlist
    → role_rank u.role ≤ role_at r own
    → Confined own r r'
insert-Confined own r r' u eu eb low =
    let at : (k : Bytes) → lookup k r'.users ≡ lookup k (insert own u r.users) =
      λ k. ap (lookup k) eu in
    record {
      others = λ k h. at k ∙ ground (arith, lookup-insert own k u r.users, h);
      bans = eb;
      roles = λ k. ground (arith, at k, lookup-insert own k u r.users, beq_iff own k, low);
    }

delete-Unraised : (own : Bytes) (r r' : Roster) → r'.users ≡ delete own r.users → Unraised r r'
delete-Unraised own r r' eu k =
    ground (arith, ap (lookup k) eu, lookup-delete own k r.users, beq_iff own k)

pub delete-Confined :
    (own : Bytes) (r r' : Roster)
    → r'.users ≡ delete own r.users
    → r'.banlist ≡ r.banlist
    → Confined own r r'
delete-Confined own r r' eu eb =
    let at : (k : Bytes) → lookup k r'.users ≡ lookup k (delete own r.users) =
      λ k. ap (lookup k) eu in
    record {
      others = λ k h. at k ∙ ground (arith, lookup-delete own k r.users, h);
      bans = eb;
      roles = delete-Unraised own r r' eu;
    }

-- A change of a user that keeps their role.
pub change-Confined :
    {A : Type 0} (r : Roster) (saves : Bool) (own : Bytes) (f : User → User) (missing : A)
    (e : Option Error) (value : A)
    → ((u : User) → (f u).role ≡ u.role)
    → Confined own r (change r saves own f missing e value).0
change-Confined r saves own f missing e value same = elim (Option-cases (lookup own r.users)) [
  | inl n ↦ rw (change, n) (refl-Confined own r)
  | inr (u, q) ↦
      rw (change, q)
        (insert-Confined own r _ (f u) (persist-users (with_user r own (f u)) saves value)
          (persist-banlist (with_user r own (f u)) saves value)
          (ground (arith, ap role_rank (same u), ap granted q)))
]

add_or_update_at-Confined :
    (r : Roster) (saves : Bool) (h : Bytes) (now : ℕ)
    → Confined h r (add_or_update_at r saves h now).0
unfolding add_or_update_at persist
add_or_update_at-Confined r saves h now = elim (Option-cases (lookup h r.users)) [
  | inl n ↦
      rw (add_or_update_at, n)
        (let u = new_user now in
          insert-Confined h r _ u (persist-users (with_user r h u) saves true)
            (persist-banlist (with_user r h u) saves true) (omega arith))
  | inr (u, q) ↦
      rw (add_or_update_at, q)
        (let v : User = record u { last_message_at = now } in
          insert-Confined h r _ v (persist-users (with_user r h v) saves false)
            (persist-banlist (with_user r h v) saves false) (ground (arith, ap granted q)))
]

pub add_or_update-Confined :
    (r : Roster) (saves : Bool) (hash : Bytes) (now : ℕ)
    → Confined (hex_encode hash) r (add_or_update r saves hash now).0
unfolding add_or_update
add_or_update-Confined r saves hash now = elim (Bool-cases (not (length hash == 16))) [
  | inl e ↦
      (let z : normalize_hash hash ≡ none = rw (normalize_hash, e) refl in
        rw (add_or_update, z) (refl-Confined (hex_encode hash) r))
  | inr e ↦
      (let z : normalize_hash hash ≡ some (hex_encode hash) = rw (normalize_hash, e) refl in
        rw (add_or_update, z) (add_or_update_at-Confined r saves (hex_encode hash) now))
]

module _ (to_lower : Bytes → Bytes) (r : Roster) (saves : Bool) (text : Bytes) where
  pub remove-Confined : Confined (to_lower text) r (remove to_lower r saves text).0
  unfolding remove persist
  remove-Confined = elim (Option-cases (lookup (to_lower text) r.users)) [
    | inl n ↦ rw (remove, n) (refl-Confined (to_lower text) r)
    | inr (u, q) ↦
        rw (remove, q)
          (let next : Roster = record r { users = delete (to_lower text) r.users } in
            delete-Confined (to_lower text) r _ (persist-users next saves true)
              (persist-banlist next saves true))
  ]

  pub set_paused-Confined :
      (b : Bool) → Confined (to_lower text) r (set_paused to_lower r saves text b).0
  unfolding set_paused
  set_paused-Confined b = change-Confined r saves (to_lower text) _ tt _ tt (λ u. refl)

  pub set_text_only-Confined :
      (b : Bool) → Confined (to_lower text) r (set_text_only to_lower r saves text b).0
  unfolding set_text_only
  set_text_only-Confined b = change-Confined r saves (to_lower text) _ tt _ tt (λ u. refl)

  pub set_nickname-Confined :
      (nick : Bytes) → Confined (to_lower text) r (set_nickname to_lower r saves text nick).0
  unfolding set_nickname
  set_nickname-Confined nick = change-Confined r saves (to_lower text) _ tt _ tt (λ u. refl)

  pub ban-Unraised : Unraised r (ban to_lower r saves text).0
  unfolding ban persist
  ban-Unraised =
      let h = to_lower text in
      let next : Roster = record r { users = delete h r.users; banlist = insert h tt r.banlist } in
      delete-Unraised h r (persist next saves tt).0 (persist-users next saves tt)

  pub unban-Unraised : Unraised r (unban to_lower r saves text).0
  unfolding unban persist
  unban-Unraised = λ k. elim (Option-cases (lookup (to_lower text) r.banlist)) [
    | inl n ↦ rw (unban, n) (omega arith)
    | inr (u, q) ↦
        rw (unban, q)
          (let next : Roster = record r { banlist = delete (to_lower text) r.banlist } in
            ground (arith, ap (lookup k) (persist-users next saves true)))
  ]
