-- ===== src/Service/Rewrite/Binding.antt =====
-- What a rewritten reference names.
use reticulum_forwarding_ser.Base.{
  ℕ, ◌≡◌, ◌≢◌, refl, sym, ap, ◌∙◌, true, not, [], ◌∷◌, if◌then◌else◌, List, Option, none, some,
  Bool-cases, Option-cases, inl, inr, arith,
}
use reticulum_forwarding_ser.Base.Bytes.{Bytes, beq_iff, beq_refl}
use reticulum_forwarding_ser.Service.Fields.{
  Key, int_key, negative_key, string_key, other_key, ◌=ᵏ◌, Value, bytes, string, dict, other, Dict,
  empty, entry, assign, key_is, as_hash_bytes, inner_target,
}
use reticulum_forwarding_ser.Service.Rewrite.{target_key, substitute_dict_target, keep_entry}

key_eq_refl : (k : Key) → (k =ᵏ k) ≡ true
unfolding ◌=ᵏ◌
key_eq_refl (int_key t n) = ground arith
key_eq_refl (negative_key t n) = ground arith
key_eq_refl (string_key s) = beq_refl s
key_eq_refl (other_key n) = ground arith

key_eq_sound : (k j : Key) → (k =ᵏ j) ≡ true → k ≡ j
unfolding ◌=ᵏ◌
key_eq_sound (int_key t n) (int_key u m) h = ground arith
key_eq_sound (negative_key t n) (negative_key u m) h = ground arith
key_eq_sound (string_key s) (string_key t) h = ap string_key ((beq_iff s t).0 h)
key_eq_sound (other_key n) (other_key m) h = ground arith
key_eq_sound (int_key t n) (negative_key u m) h = absurd cc
key_eq_sound (int_key t n) (string_key s) h = absurd cc
key_eq_sound (int_key t n) (other_key m) h = absurd cc
key_eq_sound (negative_key t n) (int_key u m) h = absurd cc
key_eq_sound (negative_key t n) (string_key s) h = absurd cc
key_eq_sound (negative_key t n) (other_key m) h = absurd cc
key_eq_sound (string_key s) (int_key u m) h = absurd cc
key_eq_sound (string_key s) (negative_key u m) h = absurd cc
key_eq_sound (string_key s) (other_key m) h = absurd cc
key_eq_sound (other_key n) (int_key u m) h = absurd cc
key_eq_sound (other_key n) (negative_key u m) h = absurd cc
key_eq_sound (other_key n) (string_key s) h = absurd cc

pub keys : Dict → List Key
keys empty = []
keys (entry k v d) = k ∷ keys d

module _ (atoi : Bytes → Option ℕ) where
  target_key-is : (t : Key) (m : Dict) → target_key atoi m ≡ some t → key_is atoi 0 t ≡ true
  unfolding target_key
  target_key-is t empty h = absurd cc
  target_key-is t (entry k v d) h = elim (Bool-cases (key_is atoi 0 k)) [
    | inl e ↦ (let kt : k ≡ t = ground (arith, e) in rw (← kt) e)
    | inr e ↦ target_key-is t d (ground (arith, e))
  ]

  -- Where the target of a dict stands, the assigned bytes are its target.
  inner_target-assign :
      (t : Key) (r : Bytes) (m : Dict)
      → target_key atoi m ≡ some t
      → inner_target atoi (assign t (bytes r) m) ≡ some r
  unfolding target_key inner_target assign as_hash_bytes
  inner_target-assign t r empty h = absurd cc
  inner_target-assign t r (entry k v d) h = elim (Bool-cases (key_is atoi 0 k)) [
    | inl e ↦
        (let kt : k ≡ t = ground (arith, e) in
          let same : (k =ᵏ t) ≡ true = ap (λ x. k =ᵏ x) (sym kt) ∙ key_eq_refl k in
          let te : key_is atoi 0 t ≡ true = rw (← kt) e in rw (same, te) refl)
    | inr e ↦
        (let deeper : target_key atoi d ≡ some t = ground (arith, e) in
          elim (Bool-cases (k =ᵏ t)) [
            | inl q ↦ absurd (
                ground
                  (arith, e, target_key-is t d deeper, ap (key_is atoi 0) (key_eq_sound k t q)))
            | inr q ↦ rw (q, e) (inner_target-assign t r d deeper)
          ])
  ]

  -- The target that a reader finds in the first dict with one under the field: `none` for no such
  -- dict.
  pub bound : ℕ → Dict → Option (Option Bytes)
  bound key empty = none
  bound key (entry k (dict m) d) =
      let rest = bound key d in
      if not (key_is atoi key k)
      then rest
      else elim (target_key atoi m) [ none ↦ rest | some t ↦ some (inner_target atoi m) ]
  bound key (entry k (bytes b) d) = bound key d
  bound key (entry k (string s) d) = bound key d
  bound key (entry k (other n) d) = bound key d

  target_key-assign :
      (t : Key) (v : Value) (m : Dict)
      → target_key atoi m ≡ some t
      → target_key atoi (assign t v m) ≡ some t
  unfolding target_key assign
  target_key-assign t v empty h = absurd cc
  target_key-assign t v (entry k w d) h = elim (Bool-cases (key_is atoi 0 k)) [
    | inl e ↦
        (let kt : k ≡ t = ground (arith, e) in
          let same : (k =ᵏ t) ≡ true = ap (λ x. k =ᵏ x) (sym kt) ∙ key_eq_refl k in
          let te : key_is atoi 0 t ≡ true = rw (← kt) e in rw (same, te) refl)
    | inr e ↦
        (let deeper : target_key atoi d ≡ some t = ground (arith, e) in
          elim (Bool-cases (k =ᵏ t)) [
            | inl q ↦ absurd (
                ground
                  (arith, e, target_key-is t d deeper, ap (key_is atoi 0) (key_eq_sound k t q)))
            | inr q ↦ rw (q, e) (target_key-assign t v d deeper)
          ])
  ]

  -- With the bytes of the recipient's view, the rewriting of a dict field always succeeds and
  -- keeps the keys and their order; without a dict with a target under the field it changes
  -- nothing, and with one the target that a reader then finds is those bytes.
  pub substitute_dict_target-binds :
      (key : ℕ) (r : Bytes) (fields : Dict)
      → (d : Dict) × (substitute_dict_target atoi key (some r) fields ≡ some d)
        × (keys d ≡ keys fields)
        × (bound key fields ≡ none → d ≡ fields)
        × (bound key fields ≢ none → bound key d ≡ some (some r))
  unfolding substitute_dict_target bound keys
  substitute_dict_target-binds key r empty = (empty, refl, refl, λ h. refl, λ h. absurd (h refl))
  substitute_dict_target-binds key r (entry k (bytes b) d) =
      let (d', s, same, none', some') = substitute_dict_target-binds key r d in
      (
        entry k (bytes b) d',
        ap (keep_entry atoi k (bytes b)) s,
        ap (λ x. k ∷ x) same,
        λ h. ap (entry k (bytes b)) (none' h),
        some',
      )
  substitute_dict_target-binds key r (entry k (string b) d) =
      let (d', s, same, none', some') = substitute_dict_target-binds key r d in
      (
        entry k (string b) d',
        ap (keep_entry atoi k (string b)) s,
        ap (λ x. k ∷ x) same,
        λ h. ap (entry k (string b)) (none' h),
        some',
      )
  substitute_dict_target-binds key r (entry k (other b) d) =
      let (d', s, same, none', some') = substitute_dict_target-binds key r d in
      (
        entry k (other b) d',
        ap (keep_entry atoi k (other b)) s,
        ap (λ x. k ∷ x) same,
        λ h. ap (entry k (other b)) (none' h),
        some',
      )
  substitute_dict_target-binds key r (entry k (dict m) d) =
      let (d', s, same, none', some') = substitute_dict_target-binds key r d in
      elim (Bool-cases (key_is atoi key k)) [
        | inr e ↦ (
          entry k (dict m) d',
          rw (e) (ap (keep_entry atoi k (dict m)) s),
          ap (λ x. k ∷ x) same,
          rw (e) (λ h. ap (entry k (dict m)) (none' h)),
          rw (e) some',
        )
        | inl e ↦ elim (Option-cases (target_key atoi m)) [
          | inl q ↦ (
            entry k (dict m) d',
            rw (e, q) (ap (keep_entry atoi k (dict m)) s),
            ap (λ x. k ∷ x) same,
            rw (e, q) (λ h. ap (entry k (dict m)) (none' h)),
            rw (e, q) some',
          )
          | inr (t, q) ↦ (
            entry k (dict (assign t (bytes r) m)) d,
            rw (e, q) refl,
            refl,
            rw (e, q) (λ h. absurd cc),
            rw (e, target_key-assign t (bytes r) m q, inner_target-assign t r m q) (λ h. refl),
          )
        ]
      ]
