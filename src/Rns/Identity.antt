-- ===== src/Rns/Identity.antt =====
-- internal/rns/identity.go: key pairs, hashes and signatures. Files and entropy are left out.
pub mod Examples
use reticulum_forwarding_ser.Base.{
  or_fail, ◌>>=◌, ◌>>◌, ℕ, ◌≡◌, Bool, true, false, not, ◌||◌, [], ◌++◌, ◌==◌, if◌then◌else◌, length,
  take, drop, Option, none, some, Result, ok, fail_if, arith, ap, refl, length-append, length-take,
  take-append, drop-append,
}
use reticulum_forwarding_ser.Base.Bytes.{Bytes, hex_encode}
use reticulum_forwarding_ser.Rns.Crypto.{Crypto, IsSound}

abbrev pub identity_hash_len : ℕ
identity_hash_len = 16

abbrev pub name_hash_len : ℕ
name_hash_len = 10

abbrev pub private_key_len : ℕ
private_key_len = 64

abbrev pub public_key_len : ℕ
public_key_len = 64

pub record Identity : Type 0 where
  pub x25519_priv : Bytes
  pub ed25519_seed : Bytes
  pub x25519_pub : Bytes
  pub ed25519_pub : Bytes

pub data Error : Type 0 where
  private_key_length derive_public peer_public_length key_exchange : Error

module _ (c : Crypto) where
  pub identity_from_halves : Bytes → Bytes → Result Error Identity
  identity_from_halves x25519_priv ed25519_seed = do
    x25519_pub ← or_fail (c.x25519 x25519_priv c.x25519_base) derive_public
    ok (record {
      x25519_priv = x25519_priv;
      ed25519_seed = ed25519_seed;
      x25519_pub = x25519_pub;
      ed25519_pub = c.ed25519_pub ed25519_seed;
    })

  pub identity_from_private_key : Bytes → Result Error Identity
  unfolding identity_from_halves
  identity_from_private_key b = do
    fail_if (not (length b == private_key_len)) private_key_length
    identity_from_halves (take 32 b) (drop 32 b)

  pub identity_hash_from_public_key : Bytes → Bytes
  identity_hash_from_public_key pub_key =
      if not (length pub_key == public_key_len)
      then []
      else take identity_hash_len (c.sha256 pub_key)

  pub sign : Identity → Bytes → Bytes
  sign id msg = c.ed25519_sign id.ed25519_seed msg

  unfoldable pub validate : Bytes → Bytes → Bytes → Bool
  validate ed25519_pub msg sig =
      if not (length ed25519_pub == 32) then false else c.ed25519_verify ed25519_pub msg sig

  pub shared_secret : Identity → Bytes → Result Error Bytes
  shared_secret id peer = do
    fail_if (not (length peer == 32)) peer_public_length
    or_fail (c.x25519 id.x25519_priv peer) key_exchange

  pub name_hash : Bytes → Bytes
  name_hash full_name = take name_hash_len (c.sha256 full_name)

  -- `none` is the panic on inputs of other lengths.
  unfoldable pub destination_hash : Bytes → Bytes → Option Bytes
  destination_hash name_h identity_h =
      if not (length name_h == name_hash_len) || not (length identity_h == identity_hash_len)
      then none
      else some (take identity_hash_len (c.sha256 (name_h ++ identity_h)))

pub private_key : Identity → Bytes
private_key id = id.x25519_priv ++ id.ed25519_seed

pub public_key : Identity → Bytes
public_key id = id.x25519_pub ++ id.ed25519_pub

module _ (c : Crypto) where
  pub identity_hash : Identity → Bytes
  unfolding identity_hash_from_public_key public_key
  identity_hash id = identity_hash_from_public_key c (public_key id)

  pub hex_hash : Identity → Bytes
  unfolding identity_hash
  hex_hash id = hex_encode (identity_hash id)

-- The arrays have 32 bytes, and the public halves belong to the private ones.
pub record IsKeyPair (c : Crypto) (id : Identity) : Type 0 where
  pub priv_32 : length id.x25519_priv ≡ 32
  pub seed_32 : length id.ed25519_seed ≡ 32
  pub x25519_pair : c.x25519 id.x25519_priv c.x25519_base ≡ some id.x25519_pub
  pub ed25519_pair : id.ed25519_pub ≡ c.ed25519_pub id.ed25519_seed

-- The identity hash of a key pair has 16 bytes.
pub length-identity_hash :
    (c : Crypto) → IsSound c → (id : Identity) → IsKeyPair c id → length (identity_hash c id) ≡ 16
unfolding identity_hash
length-identity_hash c s id k =
    let long : length (id.x25519_pub ++ id.ed25519_pub) ≡ 64 = ground (
      arith,
      length-append id.x25519_pub id.ed25519_pub,
      s.length-x25519 id.x25519_priv c.x25519_base k.x25519_pair,
      s.length-pub id.ed25519_seed,
    ) in
    ground (
      arith,
      long,
      s.length-sha256 (id.x25519_pub ++ id.ed25519_pub),
      length-take 16 (c.sha256 (id.x25519_pub ++ id.ed25519_pub)),
    )

-- The private key file of a key pair gives the same identity back.
pub identity_from_private_key-private_key :
    (c : Crypto) (id : Identity)
    → IsKeyPair c id
    → identity_from_private_key c (private_key id) ≡ ok id
unfolding identity_from_private_key private_key
identity_from_private_key-private_key c id k = ground (
  arith,
  length-append id.x25519_priv id.ed25519_seed,
  take-append 32 id.x25519_priv id.ed25519_seed k.priv_32,
  drop-append 32 id.x25519_priv id.ed25519_seed k.priv_32,
  k.x25519_pair,
  k.ed25519_pair,
)

-- A signature of a key pair validates under its public key.
pub validate-sign :
    (c : Crypto)
    → IsSound c
    → (id : Identity) (m : Bytes) → IsKeyPair c id
    → validate c id.ed25519_pub m (sign c id m) ≡ true
unfolding validate sign
validate-sign c s id m k =
    ground (arith, k.ed25519_pair, s.length-pub id.ed25519_seed, s.verify-sign id.ed25519_seed m)

pub length-sign : (c : Crypto) → IsSound c → (id : Identity) (m : Bytes) → length (sign c id m) ≡ 64
unfolding sign
length-sign c s id m = s.length-sign id.ed25519_seed m

-- The Ed25519 half of the public key.
pub public_key-drop :
    (c : Crypto)
    → IsSound c
    → (id : Identity) → IsKeyPair c id
    → drop 32 (public_key id) ≡ id.ed25519_pub
unfolding public_key
public_key-drop c s id k =
    drop-append 32 id.x25519_pub id.ed25519_pub
      (s.length-x25519 id.x25519_priv c.x25519_base k.x25519_pair)

pub length-public_key :
    (c : Crypto) → IsSound c → (id : Identity) → IsKeyPair c id → length (public_key id) ≡ 64
unfolding public_key
length-public_key c s id k = omega (
  arith,
  length-append id.x25519_pub id.ed25519_pub,
  s.length-x25519 id.x25519_priv c.x25519_base k.x25519_pair,
  ap length k.ed25519_pair,
  s.length-pub id.ed25519_seed,
)

pub identity_hash-ok :
    (c : Crypto)
    → IsSound c
    → (id : Identity) → IsKeyPair c id
    → identity_hash c id ≡ take 16 (c.sha256 (public_key id))
unfolding identity_hash identity_hash_from_public_key
identity_hash-ok c s id k = rw (length-public_key c s id k) refl

pub length-name_hash : (c : Crypto) → IsSound c → (name : Bytes) → length (name_hash c name) ≡ 10
unfolding name_hash
length-name_hash c s name = omega (arith, length-take 10 (c.sha256 name), s.length-sha256 name)

pub destination_hash-ok :
    (c : Crypto) (name_h identity_h : Bytes)
    → length name_h ≡ 10
    → length identity_h ≡ 16
    → destination_hash c name_h identity_h ≡ some (take 16 (c.sha256 (name_h ++ identity_h)))
unfolding destination_hash
destination_hash-ok c name_h identity_h hn hi = rw (hn, hi) refl

-- What a destination hash says of its inputs.
pub destination_hash-some :
    (c : Crypto) (name_h identity_h d : Bytes)
    → destination_hash c name_h identity_h ≡ some d
    → (d ≡ take 16 (c.sha256 (name_h ++ identity_h))) × (length name_h ≡ 10)
unfolding destination_hash
destination_hash-some c name_h identity_h d h = ground arith

-- Halves of 32 bytes whose X25519 public key exists make a key pair.
pub identity_from_halves-IsKeyPair :
    (c : Crypto) (priv seed : Bytes) {point : Bytes}
    → length priv ≡ 32
    → length seed ≡ 32
    → c.x25519 priv c.x25519_base ≡ some point
    → (id : Identity) × (identity_from_halves c priv seed ≡ ok id)
      × IsKeyPair c id
      × (id.x25519_pub ≡ point)
      × (id.ed25519_pub ≡ c.ed25519_pub seed)
unfolding identity_from_halves
identity_from_halves-IsKeyPair c priv seed {point} hp hs e = (
  record {
    x25519_priv = priv;
    ed25519_seed = seed;
    x25519_pub = point;
    ed25519_pub = c.ed25519_pub seed;
  },
  rw e refl,
  record { priv_32 = hp; seed_32 = hs; x25519_pair = e; ed25519_pair = refl },
  refl,
  refl,
)
