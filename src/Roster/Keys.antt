-- ===== src/Roster/Keys.antt =====
-- The members as a Go map: one entry for each key, and how deletion and pruning treat it.
use reticulum_forwarding_ser.Base.{
  ◌≡◌, refl, inl, inr, Bool-cases, Bool, false, ◌||◌, List, [], ◌∷◌, if◌then◌else◌, Option, none,
  some, arith,
}
use reticulum_forwarding_ser.Base.Bytes.{Bytes, ◌=ᵇ◌, beq_iff}
use reticulum_forwarding_ser.Base.Assoc.{lookup, insert, lookup-insert, lookup-delete}
use reticulum_forwarding_ser.Roster.{User, stale_hashes, delete_all}

-- Each key stands in one entry.
unfoldable pub IsMap : List (Bytes × User) → Type 0
IsMap [] = Unit {0}
IsMap ((k, u) ∷ m) = (lookup k m ≡ none) × IsMap m

pub insert-IsMap : (k : Bytes) (u : User) (m : List (Bytes × User)) → IsMap m → IsMap (insert k u m)
unfolding IsMap lookup insert
insert-IsMap k u [] a = (refl, tt)
insert-IsMap k u ((j, w) ∷ m) (n, a) = elim (Bool-cases (j =ᵇ k)) [
  | inl same ↦ (let e : j ≡ k = (beq_iff j k).0 same in rw same (rw (← e) n, a))
  | inr other ↦
      (let free : lookup j (insert k u m) ≡ none =
          ground (arith, beq_iff j k, beq_iff k j, lookup-insert k j u m) in
        rw other (free, insert-IsMap k u m a))
]

contains : Bytes → List Bytes → Bool
contains k [] = false
contains k (h ∷ hs) = h =ᵇ k || contains k hs

lookup-delete_all :
    (k : Bytes) (hs : List Bytes) (m : List (Bytes × User))
    → lookup k (delete_all hs m) ≡ (if contains k hs then none else lookup k m)
unfolding delete_all contains
lookup-delete_all k [] m = refl
lookup-delete_all k (h ∷ hs) m =
    ground (arith, lookup-delete h k (delete_all hs m), lookup-delete_all k hs m)

abbrev pub is_stale_entry : (User → Bool) → Option User → Bool
is_stale_entry stale none = false
is_stale_entry stale (some u) = stale u

contains-stale_hashes :
    (stale : User → Bool) (k : Bytes) (m : List (Bytes × User))
    → IsMap m
    → contains k (stale_hashes stale m) ≡ is_stale_entry stale (lookup k m)
unfolding IsMap contains stale_hashes lookup
contains-stale_hashes stale k [] a = refl
contains-stale_hashes stale k ((j, u) ∷ m) (n, a) =
    ground (arith, beq_iff j k, contains-stale_hashes stale k m a)

pub lookup-prune_users :
    (stale : User → Bool) (k : Bytes) (m : List (Bytes × User))
    → IsMap m
    → lookup k (delete_all (stale_hashes stale m) m)
      ≡ (if is_stale_entry stale (lookup k m) then none else lookup k m)
lookup-prune_users stale k m a = rw (lookup-delete_all, contains-stale_hashes stale k m a) refl
