-- ===== src/Rns/Resource/Advert/Acceptance.antt =====
-- Which advertisements are accepted.
use reticulum_forwarding_ser.Base.{
  ℕ, ◌*◌, ◌%◌, ◌≤◌, ◌≡◌, ◌↔◌, refl, ap, ◌∙◌, subst, Bool, true, false, not, ◌||◌, ◌==◌, ltb, ◌^◌,
  length, Option, none, some, ok, or_fail, fail_if-ok, bind-ok, or_fail-ok, ok-injective, arith,
}
use reticulum_forwarding_ser.Base.Bytes.{Bytes}
use reticulum_forwarding_ser.Rns.Resource.Sender.{
  max_accepted_resource_size, max_accepted_resource_parts,
}
use reticulum_forwarding_ser.Rns.Resource.Advert.{
  ℤ, pos, negsuc, positive, greater, ResourceAdvertisement, adv_malformed, resource_too_large,
  resource_too_many_parts, has_bit, resource_flag_compressed, resource_flag_has_metadata,
  check_resource_adv, parse_resource_adv, hashmap_malformed, request_id_malformed,
  expected_hashmap_bytes,
}

-- A number from 1 to a bound.
unfoldable pub Within : ℕ → ℤ → Type 0
Within bound (pos n) = (1 ≤ n) × (n ≤ bound)
Within bound (negsuc n) = ⊥

-- The hashmap of an advertisement of n parts.
unfoldable pub IsHashmap : Bytes → ℤ → Type 0
IsHashmap m (pos n) = (1 ≤ length m) × (length m ≤ n * 4) × (length m % 4 ≡ 0)
IsHashmap m (negsuc n) = ⊥

unfoldable pub IsRequestId : Option Bytes → Type 0
IsRequestId none = Unit {0}
IsRequestId (some q) = length q ≡ 16

pub record IsAcceptable (a : ResourceAdvertisement) : Type 0 where
  pub hash_32 : length a.hash ≡ 32
  pub random_4 : length a.random_hash ≡ 4
  pub original_32 : length a.original_hash ≡ 32
  pub parts : Within max_accepted_resource_parts a.num_parts
  pub first : a.segment_index ≡ pos 1
  pub only : a.total_segments ≡ pos 1
  pub transfer : Within max_accepted_resource_size a.transfer_size
  pub data_within : Within max_accepted_resource_size a.data_size
  pub mapped : IsHashmap a.hashmap a.num_parts
  pub request : IsRequestId a.request_id
  pub plain : has_bit a.flags resource_flag_compressed ≡ false
  pub bare : has_bit a.flags resource_flag_has_metadata ≡ false

Within-ok : (c : ℕ) (z : ℤ) → positive z ≡ true → greater z (pos c) ≡ false → Within c z
unfolding Within
Within-ok c (pos n) p g = (ground (arith, p), ground (arith, g))
Within-ok c (negsuc n) p g = absurd cc

Within-positive : (c : ℕ) (z : ℤ) → Within c z → (positive z ≡ true) × (greater z (pos c) ≡ false)
unfolding Within
Within-positive c (pos n) (p, g) = (ground (arith, p), ground (arith, g))
Within-positive c (negsuc n) h = absurd h

segment-ok :
    (i t : ℤ)
    → positive i ≡ true
    → greater i t ≡ false
    → greater t (pos 1) ≡ false
    → (i ≡ pos 1) × (t ≡ pos 1)
segment-ok (pos n) (pos m) p g h =
    let n1 : n ≡ 1 = ground (arith, p, g, h) in
    let m1 : m ≡ 1 = ground (arith, p, g, h) in (ap pos n1, ap pos m1)
segment-ok (pos n) (negsuc m) p g h = absurd cc
segment-ok (negsuc n) t p g h = absurd cc

IsHashmap-ok :
    (m : Bytes) (z : ℤ)
    → Within max_accepted_resource_parts z
    → (hashmap_malformed (length m) (expected_hashmap_bytes z) ≡ false) ↔ IsHashmap m z
unfolding Within IsHashmap hashmap_malformed expected_hashmap_bytes
IsHashmap-ok m (pos n) (p, q) =
    let small : n ≤ 3000 = ground (arith, q) in
    let w : n * 4 % 2 ^ 64 ≡ n * 4 = omega (arith, small) in
    let plain : ltb (n * 4) (2 ^ 63) ≡ true = ground (arith, small) in
    rw (w, plain) (λ h. ground (arith, h, p), λ (l, b, d). ground (arith, l, b, d))
IsHashmap-ok m (negsuc n) h = absurd h

IsRequestId-ok : (q : Option Bytes) → (request_id_malformed q ≡ false) ↔ IsRequestId q
unfolding request_id_malformed IsRequestId
IsRequestId-ok none = (λ h. tt, λ h. refl)
IsRequestId-ok (some q) = (λ h. ground (arith, h), λ h. ground (arith, h))

or-false : (b c : Bool) → (b || c) ≡ false → (b ≡ false) × (c ≡ false)
or-false false c h = (refl, h)
or-false true c h = absurd cc

not-false : (b : Bool) → not b ≡ false → b ≡ true
not-false true h = refl
not-false false h = absurd cc

check-ok :
    (a : ResourceAdvertisement) {r : ResourceAdvertisement}
    → check_resource_adv a ≡ ok r
    → IsAcceptable a × (a ≡ r)
unfolding check_resource_adv
check-ok a h0 =
    let (hash, h1) = fail_if-ok (not (length a.hash == 32)) adv_malformed _ h0 in
    let (random, h2) = fail_if-ok (not (length a.random_hash == 4)) adv_malformed _ h1 in
    let (original, h3) = fail_if-ok (not (length a.original_hash == 32)) adv_malformed _ h2 in
    let (n, h4) = fail_if-ok (not (positive a.num_parts)) adv_malformed _ h3 in
    let (segments, h5) =
      fail_if-ok
        (not (positive a.segment_index)
          || greater a.segment_index a.total_segments
          || not (positive a.total_segments))
        adv_malformed _ h4 in
    let (sizes, h6) =
      fail_if-ok (not (positive a.transfer_size) || not (positive a.data_size)) adv_malformed _
        h5 in
    let (m, h7) =
      fail_if-ok (hashmap_malformed (length a.hashmap) (expected_hashmap_bytes a.num_parts))
        adv_malformed _ h6 in
    let (q, h8) = fail_if-ok (request_id_malformed a.request_id) adv_malformed _ h7 in
    let (single, h9) = fail_if-ok (greater a.total_segments (pos 1)) resource_too_large _ h8 in
    let (caps, h10) =
      fail_if-ok
        (greater a.transfer_size (pos max_accepted_resource_size)
          || greater a.data_size (pos max_accepted_resource_size))
        resource_too_large _ h9 in
    let (count, h11) =
      fail_if-ok (greater a.num_parts (pos max_accepted_resource_parts)) resource_too_many_parts _
        h10 in
    let (c, h12) = fail_if-ok (has_bit a.flags resource_flag_compressed) resource_too_large _ h11 in
    let (x, h13) = fail_if-ok (has_bit a.flags resource_flag_has_metadata) adv_malformed _ h12 in
    let (more, l) =
      or-false (not (positive a.segment_index) || greater a.segment_index a.total_segments) _
        segments in
    let (i, past) = or-false (not (positive a.segment_index)) _ more in
    let (t, d) = or-false (not (positive a.transfer_size)) _ sizes in
    let (t_cap, d_cap) =
      or-false (greater a.transfer_size (pos max_accepted_resource_size)) _ caps in
    let parts = Within-ok _ a.num_parts (not-false _ n) count in
    let (first, only) = segment-ok a.segment_index a.total_segments (not-false _ i) past single in
    (
      record {
        hash_32 = ground (arith, hash);
        random_4 = ground (arith, random);
        original_32 = ground (arith, original);
        parts = parts;
        first = first;
        only = only;
        transfer = Within-ok _ a.transfer_size (not-false _ t) t_cap;
        data_within = Within-ok _ a.data_size (not-false _ d) d_cap;
        mapped = (IsHashmap-ok a.hashmap a.num_parts parts).0 m;
        request = (IsRequestId-ok a.request_id).0 q;
        plain = c;
        bare = x;
      },
      ok-injective h13,
    )

acceptable-ok : (a : ResourceAdvertisement) → IsAcceptable a → check_resource_adv a ≡ ok a
unfolding check_resource_adv
acceptable-ok a g =
    let hash : (length a.hash == 32) ≡ true = ground (arith, g.hash_32) in
    let random : (length a.random_hash == 4) ≡ true = ground (arith, g.random_4) in
    let original : (length a.original_hash == 32) ≡ true = ground (arith, g.original_32) in
    let (n, count) = Within-positive _ a.num_parts g.parts in
    let (t, t_cap) = Within-positive _ a.transfer_size g.transfer in
    let (d, d_cap) = Within-positive _ a.data_size g.data_within in
    let m = (IsHashmap-ok a.hashmap a.num_parts g.parts).1 g.mapped in
    rw
      (
        check_resource_adv,
        hash,
        random,
        original,
        n,
        g.first,
        g.only,
        t,
        d,
        m,
        (IsRequestId-ok a.request_id).1 g.request,
        t_cap,
        d_cap,
        count,
        g.plain,
        g.bare,
      )
      refl

pub parse_resource_adv-accepts :
    (decode : Bytes → Option ResourceAdvertisement) (body : Bytes) (a : ResourceAdvertisement)
    → (parse_resource_adv decode body ≡ ok a) ↔ ((decode body ≡ some a) × IsAcceptable a)
unfolding parse_resource_adv
parse_resource_adv-accepts decode body a = (
  λ h.
      let (b, decoded, checked) = bind-ok (or_fail (decode body) adv_malformed) _ h in
      let (good, same) = check-ok b checked in
      (or_fail-ok (decode body) adv_malformed decoded ∙ ap some same, subst IsAcceptable same good),
  λ (decoded, good). rw (parse_resource_adv, decoded) (acceptable-ok a good),
)
