-- ===== src/Rns/Resource/Sender/Examples.antt =====
-- A transfer of two parts: the second comes first, and the first comes once more at the end.
use reticulum_forwarding_ser.Base.{
  ◌≤◌, ◌<◌, ◌≡◌, ◌⊎◌, refl, true, [], ◌∷◌, ◌++◌, some, ok, length, drop, get_or, replicate, arith,
}
use reticulum_forwarding_ser.Base.Bytes.{Bytes, ◌=ᵇ◌}
use reticulum_forwarding_ser.Rns.Crypto.Toy.{toy, toy-IsSound, zeros}
use reticulum_forwarding_ser.Rns.Token.{
  pkcs7_pad, aes_cbc_encrypt, link_token_encrypt_with_iv, link_token_encrypt, link_token_decrypt,
}
use reticulum_forwarding_ser.Rns.Resource.{
  resource_hash, resource_expected_proof, resource_map_hash, split_loop, split_parts, guard_hit,
  push_guard, hashmap_loop, build_hashmap,
}
use reticulum_forwarding_ser.Rns.Resource.Split.{join}
use reticulum_forwarding_ser.Rns.Resource.Wire.{ResourceRequest}
use reticulum_forwarding_ser.Rns.Resource.Receiver.{
  Receiver, open_receiver, find_slot, advance, fill_slot, settle, scan, place_part,
  request_next_window, assemble,
}
use reticulum_forwarding_ser.Rns.Resource.Receiver.Requests.{request_next_window_progress}
use reticulum_forwarding_ser.Rns.Resource.Receiver.Assembly.{assemble-ok}
use reticulum_forwarding_ser.Rns.Resource.Sender.{
  Sender, choose_hashmap, new_resource_sender, advertise,
}
use reticulum_forwarding_ser.Rns.Resource.Sender.Prepared.{
  IsPrepared, new_resource_sender-IsPrepared,
}
use reticulum_forwarding_ser.Rns.Resource.Sender.Transfer.{Holds, start-Holds}
use reticulum_forwarding_ser.Rns.Resource.Sender.Delivery.{
  Reach, here, next, arrives, strays, asks, transfer_delivers,
}

abbrev body : Bytes
body = replicate 450 5

abbrev prefix : Bytes
prefix = replicate 4 9

abbrev random : Bytes
random = 1 ∷ 2 ∷ 3 ∷ 4 ∷ []

-- The IV, the padded ciphertext and the MAC, which is the first 32 bytes.
abbrev blob : Bytes
blob =
    zeros 16 ++ (prefix ++ (body ++ (replicate 10 10 ++ (zeros 16 ++ (prefix ++ replicate 12 5)))))

abbrev sender : Sender
sender = record {
  hash = replicate 32 5;
  random_r = random;
  expected_proof = replicate 32 5;
  original_len = 450;
  transfer_len = 512;
  parts = (zeros 16 ++ (prefix ++ replicate 444 5)) ∷ (drop 464 blob ∷ []);
  hashmap = 0 ∷ 0 ∷ 0 ∷ 0 ∷ 5 ∷ 5 ∷ 5 ∷ 5 ∷ [];
}

made :
    new_resource_sender toy
      (some prefix)
      (some (zeros 16))
      (some random ∷ [])
      (zeros 32)
      (zeros 32)
      body
    ≡ ok sender
unfolding new_resource_sender choose_hashmap link_token_encrypt link_token_encrypt_with_iv
    aes_cbc_encrypt pkcs7_pad split_parts split_loop build_hashmap hashmap_loop guard_hit push_guard
    resource_map_hash resource_hash resource_expected_proof ◌=ᵇ◌
made = refl

prepared : IsPrepared toy (zeros 32) (zeros 32) body sender
prepared =
    new_resource_sender-IsPrepared toy prefix (some (zeros 16)) (some random ∷ []) (zeros 32)
      (zeros 32) body sender refl made

abbrev start : Receiver
start = open_receiver (zeros 32) (zeros 32) (advertise sender)

begun-Holds : Holds toy toy-IsSound (zeros 32) (zeros 32) body sender prepared start
begun-Holds = start-Holds toy toy-IsSound (zeros 32) (zeros 32) body sender prepared

request_next_window_progress_example :
    (req : ResourceRequest) × ((request_next_window start).1 ≡ some req)
    × ((0 < length req.requested_map)
        ⊎ ((req.exhausted ≡ true) × (start.known_prefix < length start.parts)))
unfolding open_receiver
request_next_window_progress_example =
    request_next_window_progress start begun-Holds.valid (ground arith) (ground arith)

abbrev asked : Receiver
asked = (request_next_window start).0

abbrev second : Receiver
second = (place_part toy asked (get_or sender.parts 1 [])).0

abbrev both : Receiver
both = (place_part toy second (get_or sender.parts 0 [])).0

abbrev again : Receiver
again = (place_part toy both (get_or sender.parts 0 [])).0

reached : Reach toy sender start again
unfolding open_receiver request_next_window place_part settle scan find_slot fill_slot advance
    resource_map_hash ◌=ᵇ◌
reached =
    next
      (next (next (next here (asks start)) (arrives asked 1 (ground arith) (ground arith)))
        (arrives second 0 (ground arith) (ground arith)))
      (strays both (get_or sender.parts 0 []) (ground arith))

full : again.received_count ≡ length again.parts
unfolding open_receiver request_next_window place_part settle scan find_slot fill_slot advance
    resource_map_hash ◌=ᵇ◌
full = refl

transfer_delivers_example : assemble toy again ≡ ok body
transfer_delivers_example =
    transfer_delivers toy toy-IsSound prefix (zeros 32) (zeros 32) body (some (zeros 16))
      (some random ∷ []) sender again refl made reached full

assemble-ok_example :
    (plaintext : Bytes) × (link_token_decrypt toy (join again.parts) again.signing again.encryption
      ≡ ok plaintext)
    × (4 ≤ length plaintext)
    × (body ≡ drop 4 plaintext)
    × (length (join again.parts) ≡ again.expected_size)
    × (length body ≡ again.data_size)
    × (resource_hash toy body again.random_r ≡ again.hash)
assemble-ok_example = assemble-ok toy again body transfer_delivers_example
