-- ===== src/Idmap/Lookup.antt =====
-- What a lookup finds.
use reticulum_forwarding_ser.Base.{
  ℕ, ◌≤◌, ◌≡◌, ◌∙◌, subst, true, ltb, some, Bool-cases, Option-cases, inl, inr, some-injective,
  arith,
}
use reticulum_forwarding_ser.Base.Bytes.{Bytes}
use reticulum_forwarding_ser.Base.Assoc.{lookup, All-lookup}
use reticulum_forwarding_ser.Idmap.{Cache, lookup_bubble}
use reticulum_forwarding_ser.Idmap.Invariant.{has_view, IsValid, remove_bubble-IsValid}
use reticulum_forwarding_ser.Idmap.Front.{moved-IsValid}

-- A bubble that a lookup finds in a valid cache has not expired and has the message id as some
-- recipient's view; and the cache stays valid, whether it is found or not.
pub lookup_bubble-IsValid :
    (now : ℕ) (m : Bytes) (c : Cache)
    → IsValid c
    → IsValid (lookup_bubble now m c).1
      × ((b : ℕ)
          → (lookup_bubble now m c).0 ≡ some b
          → (has_view m (c.heap b).views ≡ true) × (now ≤ (c.heap b).expires_at))
unfolding lookup_bubble
lookup_bubble-IsValid now m c w = elim (Option-cases (lookup m c.by_msg_id)) [
  | inl e ↦ rw (lookup_bubble, e) (w, λ b h. absurd cc)
  | inr (k, e) ↦
      (let (member, view) = All-lookup _ m c.by_msg_id e w.indexed in
        let on : (c.heap k).listed ≡ true = w.listed k ∙ member in
        elim (Bool-cases (ltb (c.heap k).expires_at now)) [
          | inl q ↦ rw (lookup_bubble, e, q) (remove_bubble-IsValid k c w, λ b h. absurd cc)
          | inr q ↦
              rw (lookup_bubble, e, q, on)
                (
                  moved-IsValid k c w on,
                  λ b h.
                      subst
                        (λ t. (has_view m (c.heap t).views ≡ true) × (now ≤ (c.heap t).expires_at))
                        (some-injective h) (view, ground (arith, q)),
                )
        ])
]
