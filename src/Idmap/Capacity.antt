-- ===== src/Idmap/Capacity.antt =====
-- A registered view and the bound on the index.
use reticulum_forwarding_ser.Base.{ℕ, ◌≤◌, ◌<◌, sym, ◌∙◌, subst, ◌∷◌, length, some}
use reticulum_forwarding_ser.Base.Bytes.{Bytes}
use reticulum_forwarding_ser.Idmap.{
  Cache, len, move_to_front, evict_loop, evict_expired, enforce_cap, index, register_view,
}
use reticulum_forwarding_ser.Idmap.Invariant.{IsValid}
use reticulum_forwarding_ser.Idmap.Removals.{
  Removals-views, Removals-IsValid, Removals-max, evict_loop-Removals, enforce_cap-Removals,
  enforce_cap-bound,
}
use reticulum_forwarding_ser.Idmap.Front.{Fresh, front-IsValid, front-max}

-- A view that is registered for a recipient who has none of the bubble yet, or the same one, keeps
-- the cache valid, and leaves at most as many message ids as it may hold, unless the bound is off.
pub register_view-IsValid :
    (now b : ℕ) (r : Bytes) (x : ℕ) (xs : Bytes) (c : Cache)
    → IsValid c
    → Fresh b r (x ∷ xs) c
    → IsValid (register_view now (some b) r (x ∷ xs) c)
      × (0 < c.max_size → len (register_view now (some b) r (x ∷ xs) c) ≤ c.max_size)
unfolding register_view evict_expired
register_view-IsValid now b r x xs c w f =
    let m = x ∷ xs in
    let gone = evict_loop-Removals now (length c.lru) c in
    let c1 = evict_loop now (length c.lru) c in
    let c2 = move_to_front b (index b r m c1) in
    let f1 : Fresh b r m c1 = rw (Removals-views gone b) f in
    let w2 = front-IsValid b r m c1 f1 (Removals-IsValid gone w) in
    let max = front-max b r m c1 ∙ Removals-max gone in
    (
      Removals-IsValid (enforce_cap-Removals c2) w2,
      λ h.
          subst (λ t. len (enforce_cap c2) ≤ t) max
            (enforce_cap-bound c2 w2 (subst (λ t. 0 < t) (sym max) h)),
    )
