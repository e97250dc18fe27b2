-- ===== src/Rns/LinkData/Delivery.antt =====
-- Link data and its acknowledgement.
use reticulum_forwarding_ser.Base.{
  ◌+◌, ◌*◌, ◌≡◌, refl, length-drop, length-take, take-append-drop, ◌∷◌, ◌++◌, length, length-append,
  take, drop, take-append, drop-append, true, some, ok, arith,
}
use reticulum_forwarding_ser.Base.Bytes.{Bytes}
use reticulum_forwarding_ser.Rns.Crypto.{Crypto, IsSound}
use reticulum_forwarding_ser.Rns.Packet.{Packet, hashable_part}
use reticulum_forwarding_ser.Rns.Packet.Codec.{IsWire, hashable_part-ok}
use reticulum_forwarding_ser.Rns.Token.Link.{link_token_decrypt-encrypt}
use reticulum_forwarding_ser.Rns.LinkData.{
  packet_to, build_link_data_packet, parse_link_data_packet, build_link_proof, validate_link_proof,
  build_path_request, path_request_target,
}

module _ (c : Crypto) (s : IsSound c) where
  -- With a 16-byte link id, keys of 32 bytes and an IV of 16, link data is built for any
  -- plaintext, addressed to the link, and the other end reads the plaintext back.
  pub parse-build_link_data_packet :
      (link_id signing encryption iv m : Bytes)
      → length link_id ≡ 16
      → length signing ≡ 32
      → length encryption ≡ 32
      → length iv ≡ 16
      → (p : Packet) × (build_link_data_packet c (some iv) link_id signing encryption m ≡ ok p)
        × (p.dest_hash ≡ link_id)
        × (parse_link_data_packet c (some p) signing encryption ≡ ok m)
  unfolding build_link_data_packet parse_link_data_packet
  parse-build_link_data_packet link_id signing encryption iv m hl hs he hi =
      let (w, enc, dec) = link_token_decrypt-encrypt c s m signing encryption iv hs he hi in
      (packet_to 3 0 link_id 0 w, rw (hl, enc) refl, refl, rw dec refl)

  -- A proof of a packet in wire form, signed by one end's Ed25519 seed, is built, and the other end
  -- validates it under the public key of the seed, learning the hash of exactly that packet.
  pub validate-build_link_proof :
      (link_id seed : Bytes) (original : Packet)
      → length link_id ≡ 16
      → IsWire original
      → (p : Packet) × (h : Bytes) × (build_link_proof c link_id
            (some (c.ed25519_sign seed))
            (some original)
          ≡ ok p)
        × (hashable_part original ≡ ok h)
        × (p.dest_hash ≡ link_id)
        × (validate_link_proof c (some p) (c.ed25519_pub seed) ≡ ok (c.sha256 h))
  unfolding build_link_proof validate_link_proof
  validate-build_link_proof link_id seed original hl w =
      let h =
        (original.destination_type * 4 + original.packet_type)
        ∷ (original.dest_hash ++ (original.context ∷ original.payload)) in
      let digest = c.sha256 h in
      let sig = c.ed25519_sign seed digest in
      let ld = s.length-sha256 h in
      let ls = s.length-sign seed digest in
      let long : length (digest ++ sig) ≡ 96 = omega (arith, length-append digest sig) in
      (
        packet_to 3 3 link_id 0 (digest ++ sig),
        h,
        rw (hl, hashable_part-ok original w, ls) refl,
        hashable_part-ok original w,
        refl,
        rw
            (
              long,
              s.length-pub seed,
              take-append 32 digest sig ld,
              drop-append 32 digest sig ld,
              s.verify-sign seed digest,
            )
            refl,
      )

-- A proof that validates under a public key is an explicit one, of 96 bytes: the packet hash that
-- it yields and a signature over that hash by the key.
pub validate_link_proof-authentic :
    (c : Crypto) (p : Packet) (peer_pub h : Bytes)
    → validate_link_proof c (some p) peer_pub ≡ ok h
    → (sig : Bytes) × (p.payload ≡ h ++ sig)
      × (length h ≡ 32)
      × (length sig ≡ 64)
      × (c.ed25519_verify peer_pub h sig ≡ true)
unfolding validate_link_proof
validate_link_proof-authentic c p peer_pub h v =
    let h' = take 32 p.payload in
    (
      drop 32 p.payload,
      ground (arith, take-append-drop 32 p.payload),
      ground (arith, length-take 32 p.payload),
      ground (arith, length-drop 32 p.payload),
      ground arith,
    )

-- The target of a path request is read back from its payload.
pub path_request_target-build :
    (target tag : Bytes) (p : Packet)
    → build_path_request target (some tag) ≡ ok p
    → path_request_target p.payload ≡ ok target
unfolding build_path_request path_request_target
path_request_target-build target tag p h =
    ground (arith, take-append 16 target tag, length-append target tag)
