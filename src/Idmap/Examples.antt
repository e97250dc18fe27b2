-- ===== src/Idmap/Examples.antt =====
-- A cache with one bubble that one recipient has a view of.
use reticulum_forwarding_ser.Base.{
  ℕ, ◌≤◌, ◌<◌, ◌≡◌, refl, inl, true, [], ◌∷◌, ◌==◌, none, some, arith,
}
use reticulum_forwarding_ser.Base.Bytes.{Bytes, ◌=ᵇ◌}
use reticulum_forwarding_ser.Base.Assoc.{lookup}
use reticulum_forwarding_ser.Idmap.{Cache, len, register_view, lookup_bubble}
use reticulum_forwarding_ser.Idmap.Invariant.{IsValid, in_list, has_view, Distinct}
use reticulum_forwarding_ser.Idmap.Capacity.{register_view-IsValid}
use reticulum_forwarding_ser.Idmap.Lookup.{lookup_bubble-IsValid}

abbrev alice_hex : Bytes
alice_hex = 97 ∷ []

abbrev bob_hex : Bytes
bob_hex = 98 ∷ []

abbrev one : Cache
one = record {
  max_size = 1;
  by_msg_id = (49 ∷ [], 0) ∷ [];
  lru = 0 ∷ [];
  heap = λ r. record { views = (alice_hex, 49 ∷ []) ∷ []; expires_at = 100; listed = 0 == r };
}

one-IsValid : IsValid one
unfolding in_list has_view Distinct ◌=ᵇ◌
one-IsValid = record { indexed = ((refl, refl), tt); listed = λ b. ground arith; once = (refl, tt) }

not_seen : lookup bob_hex (one.heap 0).views ≡ none
unfolding lookup ◌=ᵇ◌
not_seen = refl

register_view-IsValid_example :
    IsValid (register_view 50 (some 0) bob_hex (50 ∷ []) one)
    × (0 < 1 → len (register_view 50 (some 0) bob_hex (50 ∷ []) one) ≤ 1)
register_view-IsValid_example =
    register_view-IsValid 50 0 bob_hex 50 [] one one-IsValid (inl not_seen)

lookup_bubble-IsValid_example :
    IsValid (lookup_bubble 50 (49 ∷ []) one).1
    × ((b : ℕ)
        → (lookup_bubble 50 (49 ∷ []) one).0 ≡ some b
        → (has_view (49 ∷ []) (one.heap b).views ≡ true) × (50 ≤ (one.heap b).expires_at))
lookup_bubble-IsValid_example = lookup_bubble-IsValid 50 (49 ∷ []) one one-IsValid
