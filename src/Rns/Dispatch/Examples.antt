-- ===== src/Rns/Dispatch/Examples.antt =====
-- Two receivers on one link, one of which is cancelled; a third that a peer offers; a part for
-- those of the link.
use reticulum_forwarding_ser.Base.{
  ℕ, ◌≡◌, refl, true, [], ◌∷◌, ◌++◌, none, some, ok, List, replicate, arith,
}
use reticulum_forwarding_ser.Base.Bytes.{Bytes, ◌=ᵇ◌, hex_encode, hex_digit}
use reticulum_forwarding_ser.Base.Assoc.{lookup}
use reticulum_forwarding_ser.Rns.Crypto.Toy.{toy, toy-IsSound, zeros}
use reticulum_forwarding_ser.Rns.Packet.{Packet, destination_link, packet_data}
use reticulum_forwarding_ser.Rns.LinkData.{packet_to}
use reticulum_forwarding_ser.Rns.LinkState.{LinkManager, get}
use reticulum_forwarding_ser.Rns.LinkState.Links.{Link, accepted_link}
use reticulum_forwarding_ser.Rns.LinkState.Transfers.{
  lookup_resource_sender, lookup_resource_receiver,
}
use reticulum_forwarding_ser.Rns.Resource.Advert.{pos, ResourceAdvertisement}
use reticulum_forwarding_ser.Rns.Dispatch.Calls.{Setup, context_resource_adv}
use reticulum_forwarding_ser.Rns.Dispatch.{resource_cancel_packet, handle_resource_control}
use reticulum_forwarding_ser.Rns.Dispatch.Cancelling.{stopped, handle_resource_control-cancels}
use reticulum_forwarding_ser.Rns.Dispatch.Capacity.{Bounded, handle_resource_control-Bounded}
use reticulum_forwarding_ser.Rns.Dispatch.Parts.{keyed}

abbrev offer : ResourceAdvertisement
offer = record {
  transfer_size = pos 80;
  data_size = pos 20;
  num_parts = pos 1;
  hash = replicate 32 2;
  random_hash = zeros 4;
  original_hash = replicate 32 2;
  segment_index = pos 1;
  total_segments = pos 1;
  request_id = none;
  flags = pos 1;
  hashmap = zeros 4;
}

abbrev setup : Setup ℕ ℕ
setup = record {
  crypto = toy;
  decode_adv = λ b. some offer;
  decode_hmu = λ b. none;
  fresh = λ rr. 7;
  fresh_sender = λ rs. 8;
}

abbrev shared : Link
shared = accepted_link (zeros 16) (zeros 32) (zeros 32) (zeros 32) none 10

abbrev transfers : List (Bytes × Bytes × ℕ)
transfers =
    (zeros 16, zeros 32, 1) ∷ (zeros 16, replicate 32 1, 2) ∷ (replicate 16 9, zeros 32, 3) ∷ []

abbrev busy : LinkManager ℕ ℕ
busy = record {
  links = (hex_encode (zeros 16), shared) ∷ [];
  default_on_inbound_data = none;
  senders = [];
  receivers = keyed transfers;
}

shared_found : get (zeros 16) busy ≡ some shared
unfolding get lookup hex_encode hex_digit ◌=ᵇ◌
shared_found = refl

handle_resource_control-cancels_example :
    (p : Packet) × (resource_cancel_packet setup (some (zeros 16)) shared (zeros 32) true ≡ ok p)
    × (handle_resource_control setup none p busy ≡ (
      stopped setup true
          (lookup_resource_sender (zeros 16) (zeros 32) busy)
          (lookup_resource_receiver (zeros 16) (zeros 32) busy),
      busy,
    ))
handle_resource_control-cancels_example =
    handle_resource_control-cancels setup toy-IsSound busy shared shared (zeros 16) (zeros 32) true
      none refl refl refl refl refl refl shared_found refl refl refl

abbrev packet : Packet
packet = packet_to destination_link packet_data (zeros 16) 1 (5 ∷ 6 ∷ [])

-- An advertisement whose token is one block of padding.
abbrev sealed_offer : Packet
sealed_offer =
    packet_to destination_link packet_data (zeros 16) context_resource_adv
      (zeros 16 ++ (replicate 16 16 ++ (zeros 16 ++ replicate 16 16)))

handle_resource_control-Bounded_example :
    Bounded setup busy (handle_resource_control setup none sealed_offer busy)
handle_resource_control-Bounded_example =
    handle_resource_control-Bounded setup none sealed_offer busy (ground arith, tt)
