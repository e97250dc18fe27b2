-- ===== src/Rns/Resource/Sender/Segments.antt =====
-- The hashmap segments that a sender serves continue the receiver's hashmap.
use mathlib.Core.List.{append_assoc}
use reticulum_forwarding_ser.Base.{
  ℕ, ◌+◌, ◌-◌, ◌*◌, ◌/◌, ◌≤◌, ◌<◌, ◌≡◌, ◌⊎◌, inl, inr, sym, ap, ◌∙◌, ◌++◌, ltb, if◌then◌else◌,
  Option-cases, length, length-append, length-take, length-drop, take, drop, take-append, take-all,
  take-add, ok, arith,
}
use reticulum_forwarding_ser.Base.Bytes.{Bytes}
use reticulum_forwarding_ser.Rns.Crypto.{Crypto, IsSound}
use reticulum_forwarding_ser.Rns.Resource.{hashmap_max_len}
use reticulum_forwarding_ser.Rns.Resource.Receiver.{
  Receiver, copy_into, Hmu, extend_hashmap, segment_room, apply_hmu,
}
use reticulum_forwarding_ser.Rns.Resource.Receiver.Invariant.{apply_hmu-IsValid, apply_hmu-ok}
use reticulum_forwarding_ser.Rns.Resource.Wire.{ResourceRequest}
use reticulum_forwarding_ser.Rns.Resource.Sender.{
  Sender, find_part_by_map_hash, segment_at, serve_hmu,
}
use reticulum_forwarding_ser.Rns.Resource.Sender.Prepared.{IsPrepared}
use reticulum_forwarding_ser.Rns.Resource.Sender.Transfer.{Holds, length-hashmap}

-- A segment that is served has index q and k entries: all that a segment holds, or the rest.
abbrev IsSegment : Sender → Hmu → Type 0
IsSegment s u =
    (q : ℕ) × (k : ℕ) × (u.segment_index ≡ q)
    × (0 < k)
    × (q * hashmap_max_len + k ≤ length s.parts)
    × ((k ≡ hashmap_max_len) ⊎ (q * hashmap_max_len + k ≡ length s.parts))
    × (u.hashmap_bytes ≡ take (k * 4) (drop (q * hashmap_max_len * 4) s.hashmap))

segment_at-IsSegment : (s : Sender) (i : ℕ) (u : Hmu) → segment_at s i ≡ ok u → IsSegment s u
unfolding segment_at
segment_at-IsSegment s i u e =
    let n = length s.parts in
    let q = i / hashmap_max_len in
    let start = q * hashmap_max_len in
    let end = if ltb n (start + hashmap_max_len) then n else start + hashmap_max_len in
    (q, end - start, ground arith, ground arith, ground arith, ground arith, ground arith)

pub serve_hmu-IsSegment :
    (s : Sender) (req : ResourceRequest) (u : Hmu) → serve_hmu s req ≡ ok u → IsSegment s u
unfolding serve_hmu
serve_hmu-IsSegment s req u e = elim (Option-cases (find_part_by_map_hash s req.last_map_hash)) [
  | inl missing ↦ absurd (ground arith)
  | inr (k, found) ↦ segment_at-IsSegment s (k + 1) u (ground arith)
]

-- A segment behind the known entries, written into the hashmap.
take_extended :
    (hm full bytes : Bytes) (off m : ℕ)
    → take off hm ≡ take off full
    → bytes ≡ take m (drop off full)
    → length bytes ≡ m
    → off + m ≤ length hm
    → take (off + m) (take off hm ++ copy_into (drop off hm) bytes) ≡ take (off + m) full
take_extended hm full bytes off m same eb lb room =
    let rest = drop (length bytes) (drop off hm) in
    let whole : take (length (drop off hm)) bytes ≡ bytes =
      take-all _ bytes (omega (arith, length-drop off hm)) in
    let long : length (take off hm ++ bytes) ≡ off + m =
      omega (arith, length-append (take off hm) bytes, length-take off hm) in
    ap (λ t. take (off + m) (take off hm ++ (t ++ rest))) whole
    ∙ ap (take (off + m)) (sym (append_assoc (take off hm) bytes rest))
    ∙ take-append (off + m) (take off hm ++ bytes) rest long
    ∙ ap (λ t. t ++ bytes) same
    ∙ ap (λ t. take off full ++ t) eb
    ∙ sym (take-add off m full)

module _ (c : Crypto) (sound : IsSound c) (signing encryption body : Bytes) (s : Sender)
    (p : IsPrepared c signing encryption body s) where
  abbrev HoldsHere : Receiver → Type 0
  HoldsHere = Holds c sound signing encryption body s p

  -- Where an accepted segment begins.
  segment_start :
      (rr : Receiver) (q k m : ℕ)
      → HoldsHere rr
      → q ≡ rr.known_prefix / hashmap_max_len
      → 0 < k
      → m ≡ k * 4
      → m ≤ segment_room rr
      → rr.known_prefix ≡ q * hashmap_max_len
  segment_start rr q k m h eq pos em room = elim h.segmented [
    | inl whole ↦ omega arith
    | inr full ↦ absurd (ground (arith, h.same_n))
  ]

  pub extends-Holds :
      (rr rr' : Receiver) (req : ResourceRequest) (u : Hmu)
      → HoldsHere rr
      → serve_hmu s req ≡ ok u
      → apply_hmu rr u ≡ ok rr'
      → HoldsHere rr'
  extends-Holds rr rr' req u h served applied =
      let (q, k, eq, pos, fits, last, bytes) = serve_hmu-IsSegment s req u served in
      let (eh, es, room, same) = apply_hmu-ok rr rr' u applied in
      let lh = length-hashmap c sound signing encryption body s p in
      let lb : length u.hashmap_bytes ≡ k * 4 =
        ap length bytes
        ∙ omega (
          arith,
          length-take (k * 4) (drop (q * hashmap_max_len * 4) s.hashmap),
          length-drop (q * hashmap_max_len * 4) s.hashmap,
          lh,
        ) in
      let at = segment_start rr q k (length u.hashmap_bytes) h (sym eq ∙ es) pos lb room in
      let grown : rr.known_prefix + length u.hashmap_bytes / 4 ≡ rr.known_prefix + k =
        omega (arith, lb) in
      let size : (rr.known_prefix + k) * 4 ≡ rr.known_prefix * 4 + k * 4 = omega arith in
      let behind : u.hashmap_bytes ≡ take (k * 4) (drop (rr.known_prefix * 4) s.hashmap) =
        rw at bytes in
      let room' : rr.known_prefix * 4 + k * 4 ≤ length rr.hashmap =
        omega (arith, h.valid.hashmap_n, h.same_n, at, fits) in
      let v = apply_hmu-IsValid rr rr' u h.valid applied in
      let result : HoldsHere (extend_hashmap rr u.hashmap_bytes) = record {
        valid = rw same at v;
        same_n = h.same_n;
        agrees =
            rw (grown, size)
              (take_extended rr.hashmap s.hashmap u.hashmap_bytes (rr.known_prefix * 4) (k * 4)
                h.agrees behind lb room');
        same_part = h.same_part;
        segmented = elim last [
          | inl whole ↦ inl (omega (arith, grown, at, whole))
          | inr end ↦ inr (omega (arith, grown, at, end))
        ];
        hash = h.hash;
        random_r = h.random_r;
        expected_size = h.expected_size;
        data_size = h.data_size;
        signing_key = h.signing_key;
        encryption_key = h.encryption_key;
      } in
      rw same result
