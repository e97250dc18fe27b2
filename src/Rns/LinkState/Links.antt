-- ===== src/Rns/LinkState/Links.antt =====
-- internal/rns/link_state.go: a link and what happens to it alone, and the fresh keys of a
-- handshake. Callbacks and channels are named by numbers.
use Prim.Native.Nat.{bit_and, bit_or}
use reticulum_forwarding_ser.Base.{
  or_fail, ◌>>=◌, ℕ, ◌+◌, Bool, true, false, ◌&&◌, [], ◌∷◌, if◌then◌else◌, set, get_or, List,
  Option, none, some, Result, ok, err,
}
use reticulum_forwarding_ser.Base.Bytes.{Bytes, ◌=ᵇ◌}
use reticulum_forwarding_ser.Base.Assoc.{lookup, insert, delete}
use reticulum_forwarding_ser.Rns.Crypto.{Crypto}
use reticulum_forwarding_ser.Rns.Identity.{Identity}
use reticulum_forwarding_ser.Rns.Identity
use reticulum_forwarding_ser.Rns.Link.{Error as LinkError}
use reticulum_forwarding_ser.Rns.LinkData

pub data LinkState : Type 0 where
  pending active closed : LinkState

-- A nil slice whose absence the code tests is an Option; `activated` is the activation channel,
-- with whether it is closed, and `pending_proofs` names the channels of the waiters.
pub record Link : Type 0 where
  pub id : Bytes
  pub state : LinkState
  pub signing : Bytes
  pub encryption : Bytes
  pub my_ephemeral_x25519_priv : Bytes
  pub peer_dest_hash : Option Bytes
  pub initiator_ed25519_priv : Bytes
  pub peer_ed25519_pub : Bytes
  pub pending_proofs : List (Bytes × ℕ)
  pub activated : Option Bool
  pub my_responder_eph_priv : Bytes
  pub responder_identity : Option Identity
  pub created_at : ℕ
  pub last_activity : ℕ
  pub on_inbound_data : Option ℕ

pub data Error : Type 0 where
  dest_hash_len entropy_failed seed_entropy_failed derive_x25519 unknown_link not_pending not_active
        nil_packet :
      Error
  closed_before_activation no_activation_channel not_activated cancelled : Error
  nil_transfer duplicate_transfer : Error
  identity_error : Identity.Error → Error
  link_error : LinkError → Error
  data_error : LinkData.Error → Error

abbrev pub is_pending : LinkState → Bool
is_pending pending = true
is_pending active = false
is_pending closed = false

abbrev pub in_active_state : LinkState → Bool
in_active_state pending = false
in_active_state active = true
in_active_state closed = false

-- IsActive
pub is_active : Link → Bool
is_active l = in_active_state l.state

pub is_initiator : Link → Bool
is_initiator l = elim l.responder_identity [
  | some i ↦ false
  | none ↦ elim l.peer_dest_hash [ none ↦ false | some h ↦ true ]
]

-- AwaitActive's answer: the state on entry, the state once the channel is closed, and whether the
-- context ended first.
pub await_active : Link → LinkState → Bool → Result Error (Unit {0})
await_active l after cancel = elim l.state [
  | active ↦ ok tt
  | closed ↦ err closed_before_activation
  | pending ↦ elim l.activated [
    | none ↦ err no_activation_channel
    | some ch ↦
        if cancel then err cancelled else if in_active_state after then ok tt else err not_activated
  ]
]

-- The waiter's channel is fresh, so that the one signal it gets fits its buffer.
pub register_proof_waiter : Bytes → ℕ → Link → Link
register_proof_waiter hash_hex ch l = record l {
  pending_proofs = insert hash_hex ch l.pending_proofs;
}

pub clear_proof_waiter : Bytes → Link → Link
clear_proof_waiter hash_hex l = record l { pending_proofs = delete hash_hex l.pending_proofs }

-- The channel that is signalled, if a waiter is found, and the link without the waiter.
pub signal_proof : Bytes → Link → Option ℕ × Link
signal_proof hash_hex l = elim (lookup hash_hex l.pending_proofs) [
  | none ↦ (none, l)
  | some ch ↦ (some ch, record l { pending_proofs = delete hash_hex l.pending_proofs })
]

-- RFC 7748 clamping of 32 random bytes.
unfoldable pub clamp : Bytes → Bytes
clamp priv =
    set (set priv 0 (bit_and (get_or priv 0 0) 248)) 31 (bit_or (bit_and (get_or priv 31 0) 127) 64)

-- newClampedX25519: (private, public)
unfoldable pub new_clamped_x25519 : Crypto → Option Bytes → Result Error (Bytes × Bytes)
unfolding clamp
new_clamped_x25519 c none = err entropy_failed
new_clamped_x25519 c (some random) = do
  point ← or_fail (c.x25519 (clamp random) c.x25519_base) derive_x25519
  ok (clamp random, point)

-- The callback that gets an inbound plaintext: the link's, or the manager's with the link id.
pub data Call : Type 0 where
  link_call : ℕ → Bytes → Call
  default_call : ℕ → Bytes → Bytes → Call

abbrev pub inbound_calls : Option ℕ → Option ℕ → Bytes → Bytes → List Call
inbound_calls (some cb) default link plaintext = link_call cb plaintext ∷ []
inbound_calls none (some cb) link plaintext = default_call cb link plaintext ∷ []
inbound_calls none none link plaintext = []

to_peer : Bytes → Link → Bool
to_peer dest l =
    in_active_state l.state && elim l.peer_dest_hash [ none ↦ [] =ᵇ dest | some h ↦ h =ᵇ dest ]

unfoldable pub first_to : Bytes → List (Bytes × Link) → Option Link
unfolding to_peer
first_to dest [] = none
first_to dest ((k, l) ∷ ls) = if to_peer dest l then some l else first_to dest ls

unfoldable pub count_active : List (Bytes × Link) → ℕ
count_active [] = 0
count_active ((k, l) ∷ ls) =
    let rest = count_active ls in if in_active_state l.state then 1 + rest else rest

abbrev pub pending_link : Bytes → Bytes → Bytes → Bytes → ℕ → Link
pending_link link priv seed dest now = record {
  id = link;
  state = pending;
  signing = [];
  encryption = [];
  my_ephemeral_x25519_priv = priv;
  peer_dest_hash = some dest;
  initiator_ed25519_priv = seed;
  peer_ed25519_pub = [];
  pending_proofs = [];
  activated = some false;
  my_responder_eph_priv = [];
  responder_identity = none;
  created_at = now;
  last_activity = now;
  on_inbound_data = none;
}

abbrev pub activated_link : Link → Bytes → Bytes → Bytes → ℕ → Link
activated_link l signing encryption responder_pub now = record l {
  signing = signing;
  encryption = encryption;
  state = active;
  last_activity = now;
  my_ephemeral_x25519_priv = [];
  peer_ed25519_pub = responder_pub;
  activated = elim l.activated [ none ↦ none | some ch ↦ some true ];
}

abbrev pub accepted_link : Bytes → Bytes → Bytes → Bytes → Option Identity → ℕ → Link
accepted_link link signing encryption priv local_id now = record {
  id = link;
  state = active;
  signing = signing;
  encryption = encryption;
  my_ephemeral_x25519_priv = [];
  peer_dest_hash = none;
  initiator_ed25519_priv = [];
  peer_ed25519_pub = [];
  pending_proofs = [];
  activated = none;
  my_responder_eph_priv = priv;
  responder_identity = local_id;
  created_at = now;
  last_activity = now;
  on_inbound_data = none;
}
