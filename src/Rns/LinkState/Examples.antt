-- ===== src/Rns/LinkState/Examples.antt =====
-- A handshake, a message over the link, and its closing.
use reticulum_forwarding_ser.Base.{
  ℕ, ◌≡◌, refl, [], ◌∷◌, length, none, some, ok, replicate, if◌then◌else◌, arith,
}
use reticulum_forwarding_ser.Base.Bytes.{◌=ᵇ◌, hex_encode}
use reticulum_forwarding_ser.Rns.Crypto.Toy.{toy, toy-IsSound, zeros}
use reticulum_forwarding_ser.Rns.Identity.Examples.{alice, alice-IsKeyPair}
use reticulum_forwarding_ser.Rns.Packet.{Packet}
use reticulum_forwarding_ser.Rns.LinkState.Links.{Link, active, accepted_link}
use reticulum_forwarding_ser.Rns.LinkState.{
  LinkManager, new_link_manager, get, start_link_as_initiator, accept_incoming_link_request,
  handle_lr_proof,
}
use reticulum_forwarding_ser.Rns.LinkState.Transfers.{
  resource_key, lookup_resource_sender, lookup_resource_receiver, count_receivers_for_link,
  close_link,
}
use reticulum_forwarding_ser.Rns.LinkState.Handshake.{handshake-agrees}
use reticulum_forwarding_ser.Rns.LinkState.Invariant.{WellFormed}
use reticulum_forwarding_ser.Rns.LinkState.Reachable.{
  created, stepped, starts, Reachable-WellFormed,
}
use reticulum_forwarding_ser.Rns.LinkState.Closing.{close_link-ends}

abbrev Manager : Type 0
Manager = LinkManager ℕ ℕ

abbrev empty : Manager
empty = new_link_manager

handshake-agrees_example :
    (l l' r : Link) × (request proof : Packet) × (lm1 lm2 peer1 : Manager)
    × (start_link_as_initiator toy
          (some (zeros 32))
          (some (zeros 32))
          10
          (replicate 16 7)
          none
          empty
        ≡ ok (l, request, lm1))
    × (accept_incoming_link_request toy (some (zeros 32)) 11 (some request) (some alice) none empty
        ≡ ok (r, proof, peer1))
    × (handle_lr_proof toy 12 (some proof) alice.ed25519_pub lm1 ≡ ok (l', lm2))
    × (l'.state ≡ active)
    × (r.state ≡ active)
    × (l'.id ≡ r.id)
    × (l'.signing ≡ r.signing)
    × (l'.encryption ≡ r.encryption)
    × (length r.signing ≡ 32)
    × (length r.encryption ≡ 32)
    × (get r.id lm2 ≡ some l')
    × (get r.id peer1 ≡ some r)
handshake-agrees_example =
    handshake-agrees toy toy-IsSound empty empty alice alice-IsKeyPair (replicate 16 7) (zeros 32)
      (zeros 32) (zeros 32) 10 11 12 none refl refl refl refl (zeros 32) (zeros 32) (zeros 32) refl
      refl refl (λ salt long. (zeros 64, refl))

-- A manager with one active link, one transfer on it and one on another link.
abbrev shared : Link
shared = accepted_link (zeros 16) (zeros 32) (zeros 32) (zeros 32) (some alice) 10

abbrev busy : Manager
busy = record {
  links = (hex_encode (zeros 16), shared) ∷ [];
  default_on_inbound_data = some 5;
  senders =
      (resource_key (zeros 16) (1 ∷ []), 1) ∷ (resource_key (replicate 16 7) (1 ∷ []), 2) ∷ [];
  receivers = [];
}

-- A manager that has started a link.
started :
    (lm : Manager) × (l : Link) × (p : Packet) × (start_link_as_initiator toy
        (some (zeros 32))
        (some (zeros 32))
        10
        (replicate 16 7)
        none
        empty
      ≡ ok (l, p, lm))
started =
    let run =
      handshake-agrees toy toy-IsSound empty empty alice alice-IsKeyPair (replicate 16 7) (zeros 32)
        (zeros 32) (zeros 32) 10 11 12 none refl refl refl refl (zeros 32) (zeros 32) (zeros 32)
        refl refl refl (λ salt long. (zeros 64, refl)) in
    (run.5, run.0, run.3, run.8)

Reachable-WellFormed_example : WellFormed started.0
Reachable-WellFormed_example = Reachable-WellFormed toy toy-IsSound (
    stepped created (starts (some (zeros 32)) (some (zeros 32)) 10 (replicate 16 7) none started.3))

close_link-ends_example :
    (get (zeros 16) (close_link (zeros 16) busy).2
      ≡ (if zeros 16 =ᵇ zeros 16 then none else get (zeros 16) busy))
    × (lookup_resource_sender (zeros 16) (1 ∷ []) (close_link (zeros 16) busy).2
        ≡ (if zeros 16 =ᵇ zeros 16 then none else lookup_resource_sender (zeros 16) (1 ∷ []) busy))
    × (lookup_resource_receiver (zeros 16) (1 ∷ []) (close_link (zeros 16) busy).2 ≡ (
        if zeros 16 =ᵇ zeros 16 then none else lookup_resource_receiver (zeros 16) (1 ∷ []) busy))
    × (count_receivers_for_link (zeros 16) (close_link (zeros 16) busy).2 ≡ 0)
close_link-ends_example =
    close_link-ends busy (zeros 16) (ground arith) (zeros 16) (1 ∷ []) (ground arith) (ground arith)
