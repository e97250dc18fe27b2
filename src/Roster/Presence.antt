-- ===== src/Roster/Presence.antt =====
-- What Touch and MarkMessage leave as it is.
use reticulum_forwarding_ser.Base.{
  ℕ, ◌≡◌, refl, ap, ◌∙◌, inl, inr, Bool, true, false, List, [], ◌∷◌, Option, none, some,
  Option-cases, arith,
}
use reticulum_forwarding_ser.Base.Bytes.{Bytes, beq_iff, hex_encode}
use reticulum_forwarding_ser.Base.Assoc.{lookup, insert, lookup-insert}
use reticulum_forwarding_ser.Roster.{
  User, Roster, Error, normalize_hash, persist, with_user, change, touch, mark_message, has,
  is_paused, active_hashes,
}
use reticulum_forwarding_ser.Roster.Members.{persist-users, persist-banlist}

-- The flag and the nickname of a member.
abbrev pub standing : Option User → Option (Bool × Bytes)
standing none = none
standing (some u) = some (u.paused, u.nickname)

-- The members with their flags and nicknames, the order of the active ones, and the bans.
pub record SameStanding (r r' : Roster) : Type 0 where
  pub members : (k : Bytes) → standing (lookup k r'.users) ≡ standing (lookup k r.users)
  pub active : active_hashes r'.users ≡ active_hashes r.users
  pub bans : r'.banlist ≡ r.banlist

refl-SameStanding : (r : Roster) → SameStanding r r
refl-SameStanding r = record { members = λ k. refl; active = refl; bans = refl }

pub trans-SameStanding : {r s t : Roster} → SameStanding r s → SameStanding s t → SameStanding r t
trans-SameStanding a b = record {
  members = λ k. b.members k ∙ a.members k;
  active = b.active ∙ a.active;
  bans = b.bans ∙ a.bans;
}

active_hashes-insert :
    (k : Bytes) (u v : User) (m : List (Bytes × User))
    → lookup k m ≡ some u
    → v.paused ≡ u.paused
    → active_hashes (insert k v m) ≡ active_hashes m
unfolding active_hashes lookup insert
active_hashes-insert k u v [] found same = absurd cc
active_hashes-insert k u v ((j, w) ∷ m) found same =
    ground (arith, beq_iff j k, active_hashes-insert k u v m)

change-SameStanding :
    {A : Type 0} (r : Roster) (saves : Bool) (k : Bytes) (f : User → User) (missing : A)
    (e : Option Error) (value : A)
    → ((u : User) → ((f u).paused ≡ u.paused) × ((f u).nickname ≡ u.nickname))
    → SameStanding r (change r saves k f missing e value).0
change-SameStanding r saves k f missing e value same = elim (Option-cases (lookup k r.users)) [
  | inl n ↦ rw (change, n) (refl-SameStanding r)
  | inr (u, q) ↦
      rw (change, q)
        (let next = with_user r k (f u) in
          let at : (persist next saves value).0.users ≡ insert k (f u) r.users =
            persist-users next saves value in
          record {
            members = λ j.
                ground (
                  arith,
                  ap (lookup j) at,
                  lookup-insert k j (f u) r.users,
                  beq_iff k j,
                  q,
                  same u,
                );
            active = ap active_hashes at ∙ active_hashes-insert k u (f u) r.users q (same u).0;
            bans = persist-banlist next saves value;
          })
]

pub touch-SameStanding :
    (r : Roster) (saves : Bool) (hash : Bytes) (now : ℕ) → SameStanding r (touch r saves hash now).0
unfolding touch
touch-SameStanding r saves hash now = elim (Option-cases (normalize_hash hash)) [
  | inl n ↦ rw (touch, n) (refl-SameStanding r)
  | inr (h, n) ↦ rw (touch, n) (change-SameStanding r saves h _ false none true (λ u. (refl, refl)))
]

pub mark_message-SameStanding :
    (r : Roster) (saves : Bool) (hash : Bytes) (now : ℕ)
    → SameStanding r (mark_message r saves hash now).0
unfolding mark_message
mark_message-SameStanding r saves hash now = elim (Option-cases (normalize_hash hash)) [
  | inl n ↦ rw (mark_message, n) (refl-SameStanding r)
  | inr (h, n) ↦
      rw (mark_message, n) (change-SameStanding r saves h _ false none true (λ u. (refl, refl)))
]

pub has-SameStanding : (r r' : Roster) (hash : Bytes) → SameStanding r r' → has r' hash ≡ has r hash
unfolding has normalize_hash
has-SameStanding r r' hash s = ground (arith, s.members (hex_encode hash))

pub is_paused-SameStanding :
    (to_lower : Bytes → Bytes) (r r' : Roster) (text : Bytes)
    → SameStanding r r'
    → is_paused to_lower r' text ≡ is_paused to_lower r text
unfolding is_paused
is_paused-SameStanding to_lower r r' text s = ground (arith, s.members (to_lower text))
