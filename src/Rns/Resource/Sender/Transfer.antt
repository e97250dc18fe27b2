-- ===== src/Rns/Resource/Sender/Transfer.antt =====
-- A whole transfer: whatever the order of parts, requests and hashmap updates, a receiver that is
-- full assembles the body that the sender was given.
use reticulum_forwarding_ser.Base.{
  ℕ, zero, suc, ◌+◌, ◌*◌, ◌/◌, ◌%◌, ◌≤◌, ◌<◌, ◌≡◌, ◌⊎◌, refl, sym, ap, ◌∙◌, true, false, List, [],
  ◌∷◌, ◌++◌, ltb, if◌then◌else◌, length, length-append, length-take, length-replicate, replicate,
  take, drop, take-append, drop-append, drop-drop, take-all, take-drop-take, get_or, All, arith,
}
use reticulum_forwarding_ser.Base.Bytes.{Bytes}
use reticulum_forwarding_ser.Rns.Crypto.{Crypto, IsSound}
use reticulum_forwarding_ser.Rns.Resource.{hashmap_max_len, resource_map_hash}
use reticulum_forwarding_ser.Rns.Resource.Split.{join}
use reticulum_forwarding_ser.Rns.Resource.Hashmap.{hashes, build_hashmap-ok}
use reticulum_forwarding_ser.Rns.Resource.Receiver.{
  Receiver, open_receiver, copy_into, entry, window_base, window_size, place_part,
  request_next_window,
}
use reticulum_forwarding_ser.Rns.Resource.Receiver.Invariant.{
  IsValid, open_receiver-IsValid, place_part-IsValid, request_next_window-IsValid, flag-replicate,
  place_part-Fixed,
}
use reticulum_forwarding_ser.Rns.Resource.Receiver.Placing.{
  Tracks, Guarded, build_hashmap-Guarded, hashes-get_or, length-hashes, place_part-Tracks,
}
use reticulum_forwarding_ser.Rns.Resource.Sender.Prepared.{IsPrepared}
use reticulum_forwarding_ser.Rns.Resource.Sender.{Sender, advertise}

-- The map hashes have four bytes.
length-map_hash : (c : Crypto) → IsSound c → (p r : Bytes) → length (resource_map_hash c p r) ≡ 4
length-map_hash c s p r =
    unfold resource_map_hash in
    ground (arith, length-take 4 (c.sha256 (p ++ r)), s.length-sha256 (p ++ r))

-- Entries of a hashmap that is joined from hashes of four bytes.
entry-join :
    (hs : List Bytes) (i : ℕ)
    → All (λ h. length h ≡ 4) hs
    → i < length hs
    → entry (join hs) i ≡ get_or hs i []
entry-join [] i a lt = elim lt [ ]
entry-join (h ∷ hs) zero (h4, a) lt = take-append 4 h (join hs) h4
entry-join (h ∷ hs) (suc i) (h4, a) lt =
    let at : suc i * 4 ≡ 4 + i * 4 = omega arith in
    rw at (
      ap (take 4) (
        sym (drop-drop 4 (i * 4) (h ++ join hs)) ∙ ap (drop (i * 4)) (drop-append 4 h (join hs) h4))
      ∙ entry-join hs i a (omega arith))

hashes-4 :
    (c : Crypto)
    → IsSound c
    → (r : Bytes) (parts : List Bytes) → All (λ h. length h ≡ 4) (hashes c r parts)
hashes-4 c sound r [] = tt
hashes-4 c sound r (p ∷ parts) = (length-map_hash c sound p r, hashes-4 c sound r parts)

length-join_4 : (hs : List Bytes) → All (λ h. length h ≡ 4) hs → length (join hs) ≡ length hs * 4
length-join_4 [] a = refl
length-join_4 (h ∷ hs) (h4, a) = omega (arith, length-append h (join hs), length-join_4 hs a)

module _ (c : Crypto) (sound : IsSound c) (signing encryption body : Bytes) (s : Sender)
    (p : IsPrepared c signing encryption body s) where
  abbrev pub n : ℕ
  n = length s.parts

  hashmap_joined : s.hashmap ≡ join (hashes c s.random_r s.parts)
  hashmap_joined = (build_hashmap-ok c s.parts s.random_r s.hashmap p.mapped).0

  pub length-hashmap : length s.hashmap ≡ n * 4
  length-hashmap =
      ap length hashmap_joined
      ∙ length-join_4 _ (hashes-4 c sound s.random_r s.parts)
      ∙ ap (λ t. t * 4) (length-hashes c s.random_r s.parts)

  entry-hashmap :
      (i : ℕ) → i < n → entry s.hashmap i ≡ resource_map_hash c (get_or s.parts i []) s.random_r
  entry-hashmap i lt =
      ap (λ h. entry h i) hashmap_joined
      ∙ entry-join _ i (hashes-4 c sound s.random_r s.parts) (rw length-hashes lt)
      ∙ hashes-get_or c s.random_r s.parts i lt

  -- What holds of the receiver at every moment of the transfer.
  pub record Holds (rr : Receiver) : Type 0 where
    pub valid : IsValid rr
    pub same_n : length rr.parts ≡ n
    pub agrees : take (rr.known_prefix * 4) rr.hashmap ≡ take (rr.known_prefix * 4) s.hashmap
    pub same_part :
        (i : ℕ)
        → get_or rr.received_flags i false ≡ true
        → get_or rr.parts i [] ≡ get_or s.parts i []
    pub segmented : (rr.known_prefix % hashmap_max_len ≡ 0) ⊎ (rr.known_prefix ≡ n)
    pub hash : rr.hash ≡ s.hash
    pub random_r : rr.random_r ≡ s.random_r
    pub expected_size : rr.expected_size ≡ s.transfer_len
    pub data_size : rr.data_size ≡ s.original_len
    pub signing_key : rr.signing ≡ signing
    pub encryption_key : rr.encryption ≡ encryption

  pub Holds-Tracks : (rr : Receiver) → Holds rr → Tracks c s.parts rr
  Holds-Tracks rr h = record {
    same_n = h.same_n;
    entries = λ i lt.
        let at : i * 4 + 4 ≤ rr.known_prefix * 4 = omega arith in
        sym (take-drop-take (i * 4) 4 (rr.known_prefix * 4) rr.hashmap at)
        ∙ ap (λ t. take 4 (drop (i * 4) t)) h.agrees
        ∙ take-drop-take (i * 4) 4 (rr.known_prefix * 4) s.hashmap at
        ∙ entry-hashmap i (omega (arith, h.valid.known_le, h.same_n))
        ∙ ap (resource_map_hash c (get_or s.parts i [])) (sym h.random_r);
    same_part = h.same_part;
  }

  abbrev pub first_segment : ℕ
  first_segment = if ltb hashmap_max_len n then hashmap_max_len else n

  abbrev pub start : Receiver
  start = open_receiver signing encryption (advertise s)

  pub start-Holds : Holds start
  unfolding open_receiver
  start-Holds =
      let m = first_segment in
      let small : m ≤ n = ground arith in
      let seg : Bytes = take (m * 4) s.hashmap in
      let zeros : Bytes = replicate (n * 4) 0 in
      let len : length seg ≡ m * 4 = omega (arith, length-take (m * 4) s.hashmap, length-hashmap) in
      let lz : length zeros ≡ n * 4 = length-replicate (n * 4) 0 in
      let known : length seg / 4 ≡ m = omega (arith, len) in
      let nil : Bytes = [] in
      let front : take (m * 4) (copy_into zeros seg) ≡ seg =
        ap (λ t. take (m * 4) (t ++ drop (length seg) zeros))
          (take-all (length zeros) seg (omega (arith, len, lz)))
        ∙ take-append (m * 4) seg (drop (length seg) zeros) len in
      let prefix : start.known_prefix ≡ m = ground (arith, known) in
      record {
        valid = open_receiver-IsValid signing encryption (advertise s);
        same_n = length-replicate n nil;
        agrees = rw prefix front;
        same_part = λ i e. absurd (cc (flag-replicate n i));
        segmented = ground (arith, prefix);
        hash = refl;
        random_r = refl;
        expected_size = refl;
        data_size = refl;
        signing_key = refl;
        encryption_key = refl;
      }

  guarded : Guarded c s.random_r s.parts
  guarded = build_hashmap-Guarded c s.parts s.random_r s.hashmap p.mapped

  pub with_part :
      (rr rr' : Receiver)
      → Holds rr
      → IsValid rr'
      → Tracks c s.parts rr'
      → (rr'.hashmap ≡ rr.hashmap)
        × (rr'.known_prefix ≡ rr.known_prefix)
        × (rr'.hash ≡ rr.hash)
        × (rr'.random_r ≡ rr.random_r)
        × (rr'.expected_size ≡ rr.expected_size)
        × (rr'.data_size ≡ rr.data_size)
        × (rr'.signing ≡ rr.signing)
        × (rr'.encryption ≡ rr.encryption)
      → Holds rr'
  with_part rr rr' h v t (ehm, ek, eh, er, ee, ed, es, en) = record {
    valid = v;
    same_n = t.same_n;
    agrees = rw (ehm, ek) h.agrees;
    same_part = t.same_part;
    segmented = rw ek h.segmented;
    hash = eh ∙ h.hash;
    random_r = er ∙ h.random_r;
    expected_size = ee ∙ h.expected_size;
    data_size = ed ∙ h.data_size;
    signing_key = es ∙ h.signing_key;
    encryption_key = en ∙ h.encryption_key;
  }

  -- An own part that arrives for a slot of the window.
  pub arrives-Holds :
      (rr : Receiver) (k : ℕ)
      → Holds rr
      → window_base rr ≤ k
      → k < window_base rr + window_size rr
      → Holds (place_part c rr (get_or s.parts k [])).0
  arrives-Holds rr k h lo hi =
      let g : Guarded c rr.random_r s.parts = rw h.random_r guarded in
      with_part rr _ h (place_part-IsValid c rr (get_or s.parts k []) h.valid)
        (place_part-Tracks c s.parts rr h.valid (Holds-Tracks rr h) g k lo hi)
        (place_part-Fixed c rr (get_or s.parts k []))

  pub asks-Holds : (rr : Receiver) → Holds rr → Holds (request_next_window rr).0
  unfolding request_next_window
  asks-Holds rr h =
      let t : Tracks c s.parts (request_next_window rr).0 = record {
        same_n = h.same_n;
        entries = (Holds-Tracks rr h).entries;
        same_part = h.same_part;
      } in
      with_part rr _ h (request_next_window-IsValid rr h.valid) t
        (refl, refl, refl, refl, refl, refl, refl, refl)
