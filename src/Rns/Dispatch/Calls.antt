-- ===== src/Rns/Dispatch/Calls.antt =====
-- internal/rns/resource_dispatch.go: what the dispatcher calls, with which packages of others, and
-- the packets that it makes. The sizes and contexts are those of resource.go, openResourceReceiver's
-- fields those of resource_receiver.go and the packet that of resource_sender.go.
use reticulum_forwarding_ser.Base.{
  ℕ, ◌+◌, ◌/◌, Bool, not, List, ◌==◌, ltb, if◌then◌else◌, length, Option, Result, ok, err,
}
use reticulum_forwarding_ser.Base.Bytes.{Bytes}
use reticulum_forwarding_ser.Rns.Crypto.{Crypto}
use reticulum_forwarding_ser.Rns.Packet.{Packet, destination_link, packet_data, packet_proof}
use reticulum_forwarding_ser.Rns.Identity.{identity_hash_len}
use reticulum_forwarding_ser.Rns.Token
use reticulum_forwarding_ser.Rns.LinkData.{packet_to}
use reticulum_forwarding_ser.Rns.LinkState.Links
use reticulum_forwarding_ser.Rns.Resource.Advert.{ℤ, pos, negsuc, ResourceAdvertisement}
use reticulum_forwarding_ser.Rns.Resource.Receiver.{Receiver, Advertisement, Hmu}
use reticulum_forwarding_ser.Rns.Resource.Sender.{Sender}
use reticulum_forwarding_ser.Rns.Resource.Sender
use reticulum_forwarding_ser.Rns.Resource.Hmu.{Element}
use reticulum_forwarding_ser.Rns.Resource.Wire.{ResourceRequest, ResourceProof}
use reticulum_forwarding_ser.Rns.Resource.Wire

abbrev pub context_resource_adv : ℕ
context_resource_adv = 2

abbrev pub context_resource_req : ℕ
context_resource_req = 3

abbrev pub context_resource_hmu : ℕ
context_resource_hmu = 4

abbrev pub context_resource_icl : ℕ
context_resource_icl = 6

abbrev pub context_resource_rcl : ℕ
context_resource_rcl = 7

abbrev pub max_concurrent_inbound : ℕ
max_concurrent_inbound = 4

pub data Post (S R : Type 0) : Type 0 where
  requested : S → ResourceRequest → Post S R
  proved : S → ResourceProof → Post S R
  sender_cancelled : S → Post S R
  mapped : R → Hmu → Post S R
  part : R → Bytes → Post S R
  receiver_cancelled : R → Post S R
  runs : R → ℕ → Post S R
  broadcast : Packet → Post S R

pub data Error : Type 0 where
  nil_link link_not_active too_many_receivers link_id_len : Error
  sender_error : Sender.Error → Error
  index_error : Links.Error → Error
  body_error : Wire.Error → Error
  token_error : Token.Error → Error

-- The ints of an advertisement that ParseResourceAdv accepts are positive.
abbrev pub positive_part : ℤ → ℕ
positive_part (pos n) = n
positive_part (negsuc n) = 0

abbrev pub transfer_fields : ResourceAdvertisement → Advertisement
transfer_fields a = record {
  transfer_size = positive_part a.transfer_size;
  data_size = positive_part a.data_size;
  num_parts = positive_part a.num_parts;
  hash = a.hash;
  random_hash = a.random_hash;
  hashmap = a.hashmap;
}

abbrev pub with_error : {E A : Type 0} → (E → Error) → Result E A → Result Error A
with_error f (err e) = err (f e)
with_error f (ok a) = ok a

unfoldable pub build_resource_ctx_packet : Bytes → Bytes → ℕ → Bool → Result Error Packet
build_resource_ctx_packet link_id body context is_proof =
    if not (length link_id == identity_hash_len)
    then err link_id_len
    else ok (
        packet_to destination_link (if is_proof then packet_proof else packet_data) link_id context
          body)

-- `decode_adv` and `decode_hmu` are msgpack's decoders, `fresh` and `fresh_sender` the references to a
-- new receiver and a new sender.
pub record Setup (S R : Type 0) : Type 0 where
  pub crypto : Crypto
  pub decode_adv : Bytes → Option ResourceAdvertisement
  pub decode_hmu : Bytes → Option (List Element)
  pub fresh : Receiver → R
  pub fresh_sender : Sender → S

-- resourceTransferTimeout in seconds, the time that a receiver's run has.
pub resource_transfer_timeout : ℕ → ℕ
resource_transfer_timeout transfer_size =
    let d = 30 + transfer_size / 2048 in if ltb 1200 d then 1200 else d
