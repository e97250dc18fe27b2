-- ===== src/Rns/Announce/Validity.antt =====
-- What is announced is read back and verified, and what is verified is bound to its key.
use reticulum_forwarding_ser.Base.{
  or_fail, ℕ, ◌^◌, ◌<◌, ◌≡◌, refl, sym, ◌∙◌, ◌==◌, ◌||◌, ltb, [], fail_if-ok, not, fail_if, ◌>>=◌,
  ◌>>◌, Result, Bool, true, false, ◌++◌, length, length-append, take, drop, drop-append, Option,
  none, some, Result, ok, arith,
}
use reticulum_forwarding_ser.Base.Bytes.{Bytes, ◌=ᵇ◌, beq_iff, beq_refl}
use reticulum_forwarding_ser.Rns.Crypto.{Crypto, IsSound}
use reticulum_forwarding_ser.Rns.Identity.{
  Identity, IsKeyPair, public_key, identity_hash, sign, validate, name_hash, destination_hash,
  validate-sign, length-sign, public_key-drop, length-identity_hash, length-public_key,
  identity_hash-ok, length-name_hash, destination_hash-ok, destination_hash-some,
}
use reticulum_forwarding_ser.Rns.Packet.{Packet, big_endian_uint40, length-big_endian_uint40}
use reticulum_forwarding_ser.Rns.Packet.Codec.{decode-big_endian_uint40}
use reticulum_forwarding_ser.Rns.Announce.{
  Announce, Error, malformed, bad_signature, hash_input, dest_hash_mismatch, bad_ratchet,
  announce_signed_data, announce_body, announce_packet, ratchet_bytes, has_ratchet, build_announce,
  parse_announce, verify_announce, emitted_at,
}
use reticulum_forwarding_ser.Rns.Announce.Slices.{
  key_part, name_part, random_part, ratchet_part, sig_part, app_part, length_body,
}

-- A ratchet key, if there is one, has 32 bytes.
abbrev pub IsRatchet : Option Bytes → Type 0
IsRatchet none = Unit {0}
IsRatchet (some r) = length r ≡ 32

IsRatchet-sized : (r : Option Bytes) → IsRatchet r → bad_ratchet r ≡ false
IsRatchet-sized none h = refl
IsRatchet-sized (some r) h = rw h refl

parse_announce-announce_packet :
    (dest key name random sig app : Bytes) (r : Option Bytes) (context : ℕ)
    → length key ≡ 64
    → length name ≡ 10
    → length random ≡ 10
    → length sig ≡ 64
    → IsRatchet r
    → parse_announce (
        some (
          announce_packet
            (has_ratchet r)
            dest
            context
            (announce_body key name random (ratchet_bytes r) sig app)))
      ≡ ok (record {
        dest_hash = dest;
        public_key = key;
        name_hash = name;
        random_hash = random;
        ratchet_pub = ratchet_bytes r;
        signature = sig;
        app_data = app;
        context_flag = has_ratchet r;
        hops = 0;
        transport_id = [];
      })
unfolding parse_announce
parse_announce-announce_packet dest key name random sig app none context hk hn hr hs ht =
    let long : ltb (length (announce_body key name random [] sig app)) 148 ≡ false =
      ground (arith, length_body key name random [] sig app 0 hk hn hr refl hs) in
    rw
      (
        long,
        key_part key name random [] sig app 0 hk hn hr refl hs,
        name_part key name random [] sig app 0 hk hn hr refl hs,
        random_part key name random [] sig app 0 hk hn hr refl hs,
        sig_part key name random [] sig app 0 hk hn hr refl hs,
        app_part key name random [] sig app 0 hk hn hr refl hs,
      )
      refl
parse_announce-announce_packet dest key name random sig app (some r) context hk hn hr hs ht =
    let long : ltb (length (announce_body key name random r sig app)) 180 ≡ false =
      ground (arith, length_body key name random r sig app 32 hk hn hr ht hs) in
    rw
      (
        long,
        key_part key name random r sig app 32 hk hn hr ht hs,
        name_part key name random r sig app 32 hk hn hr ht hs,
        random_part key name random r sig app 32 hk hn hr ht hs,
        ratchet_part key name random r sig app 32 hk hn hr ht hs,
        sig_part key name random r sig app 32 hk hn hr ht hs,
        app_part key name random r sig app 32 hk hn hr ht hs,
      )
      refl

module _ (c : Crypto) (s : IsSound c) (id : Identity) (k : IsKeyPair c id)
    (full_name app rnd : Bytes) (ratchet : Option Bytes) (context now : ℕ) (h5 : length rnd ≡ 5)
    (hr : IsRatchet ratchet) (ht : now < 2 ^ 40) where
  abbrev key : Bytes
  key = public_key id

  abbrev name : Bytes
  name = name_hash c full_name

  abbrev dest : Bytes
  dest = take 16 (c.sha256 (name ++ identity_hash c id))

  abbrev random : Bytes
  random = rnd ++ big_endian_uint40 now

  abbrev sig : Bytes
  sig = sign c id (announce_signed_data dest key name random (ratchet_bytes ratchet) app)

  abbrev packet : Packet
  packet =
      announce_packet (has_ratchet ratchet) dest context
        (announce_body key name random (ratchet_bytes ratchet) sig app)

  abbrev announce : Announce
  announce = record {
    dest_hash = dest;
    public_key = key;
    name_hash = name;
    random_hash = random;
    ratchet_pub = ratchet_bytes ratchet;
    signature = sig;
    app_data = app;
    context_flag = has_ratchet ratchet;
    hops = 0;
    transport_id = packet.transport_id;
  }

  length-random : length random ≡ 10
  length-random =
      omega (arith, length-append rnd (big_endian_uint40 now), length-big_endian_uint40 now)

  derived : destination_hash c name (identity_hash c id) ≡ some dest
  derived =
      destination_hash-ok c name (identity_hash c id) (length-name_hash c s full_name)
        (length-identity_hash c s id k)

  build-ok : build_announce c (some id) full_name app ratchet context now (some rnd) ≡ ok packet
  unfolding build_announce
  build-ok = rw (IsRatchet-sized ratchet hr, derived) refl

  parse-ok : parse_announce (some packet) ≡ ok announce
  parse-ok =
      parse_announce-announce_packet dest key name random sig app ratchet context
        (length-public_key c s id k) (length-name_hash c s full_name) length-random
        (length-sign c s id (announce_signed_data dest key name random (ratchet_bytes ratchet) app))
        hr

  verify-ok : verify_announce c announce ≡ ok tt
  unfolding verify_announce
  verify-ok =
      rw
        (
          length-public_key c s id k,
          length-sign c s id
              (announce_signed_data dest key name random (ratchet_bytes ratchet) app),
          public_key-drop c s id k,
          validate-sign c s id
              (announce_signed_data dest key name random (ratchet_bytes ratchet) app) k,
          sym (identity_hash-ok c s id k),
          derived,
          beq_refl dest,
        )
        refl

  emitted-ok : emitted_at announce ≡ ok now
  unfolding emitted_at
  emitted-ok = ground (
    arith,
    length-random,
    drop-append 5 rnd (big_endian_uint40 now) h5,
    decode-big_endian_uint40 now ht,
  )

  -- What a key pair announces under any name, with or without a ratchet key, is built; it is read
  -- back with the key, the ratchet and the app data, it verifies, and its emission time is the
  -- clock's, if that fits in 40 bits.
  pub verify-build_announce :
      (p : Packet) × (a : Announce) × (build_announce c
          (some id)
          full_name
          app
          ratchet
          context
          now
          (some rnd)
        ≡ ok p)
      × (parse_announce (some p) ≡ ok a)
      × (verify_announce c a ≡ ok tt)
      × (emitted_at a ≡ ok now)
      × (a.public_key ≡ public_key id)
      × (a.ratchet_pub ≡ ratchet_bytes ratchet)
      × (a.app_data ≡ app)
  verify-build_announce =
      (packet, announce, build-ok, parse-ok, verify-ok, emitted-ok, refl, refl, refl)

not-false : {b : Bool} → not b ≡ false → b ≡ true
not-false {b} h = ground arith

checks :
    (b d : Bool) (o : Option Bytes) (test : Bytes → Bool)
    → (do
      fail_if b malformed
      fail_if d bad_signature
      e ← or_fail o hash_input
      fail_if (test e) dest_hash_mismatch)
      ≡ ok tt
    → (b ≡ false) × (d ≡ false) × (e : Bytes) × (o ≡ some e) × (test e ≡ false)
checks false false none test h = absurd cc
checks false false (some e) test h =
    (refl, refl, e, refl, (fail_if-ok (test e) dest_hash_mismatch (λ u. ok u) (bind h)).0)
  where
    bind : {r : Result Error (Unit {0})} → r ≡ ok tt → (r >>= λ u. ok u) ≡ ok tt
    bind {r} q = rw q refl
checks false true o test h = absurd cc
checks true d o test h = absurd cc

-- An announce that verifies carries a signature over exactly its destination, key, name, random
-- hash, ratchet and app data by the key's Ed25519 half, and its destination hash is the one that
-- the name hash and the key give.
pub verify_announce-authentic :
    (c : Crypto) (a : Announce)
    → verify_announce c a ≡ ok tt
    → (validate c
          (drop 32 a.public_key)
          (a.dest_hash
            ++ (a.public_key ++ (a.name_hash ++ (a.random_hash ++ (a.ratchet_pub ++ a.app_data)))))
          a.signature
        ≡ true)
      × (a.dest_hash ≡ take 16 (c.sha256 (a.name_hash ++ take 16 (c.sha256 a.public_key))))
      × (length a.name_hash ≡ 10)
      × (length a.public_key ≡ 64)
unfolding verify_announce
verify_announce-authentic c a v =
    let (sized, signed, d, hashed, same) =
      checks (not (length a.public_key == 64) || not (length a.signature == 64))
        (not (
          validate c (drop 32 a.public_key)
            (announce_signed_data a.dest_hash a.public_key a.name_hash a.random_hash a.ratchet_pub
              a.app_data)
            a.signature))
        (destination_hash c a.name_hash (take 16 (c.sha256 a.public_key)))
        (λ e. not (e =ᵇ a.dest_hash)) v in
    let (e, ln) = destination_hash-some c a.name_hash _ d hashed in
    (
      not-false signed,
      sym ((beq_iff d a.dest_hash).0 (not-false same)) ∙ e,
      ln,
      ground (arith, sized),
    )
