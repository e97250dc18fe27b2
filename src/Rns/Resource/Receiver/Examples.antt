-- ===== src/Rns/Resource/Receiver/Examples.antt =====
-- A receiver of two parts that knows one map hash.
use reticulum_forwarding_ser.Base.{◌≡◌, refl, [], ◌∷◌, ok, replicate}
use reticulum_forwarding_ser.Base.Bytes.{◌=ᵇ◌}
use reticulum_forwarding_ser.Rns.Crypto.Toy.{toy, zeros}
use reticulum_forwarding_ser.Rns.Resource.Receiver.{
  Receiver, Advertisement, open_receiver, place_part, Hmu, extend_hashmap, apply_hmu,
}
use reticulum_forwarding_ser.Rns.Resource.Receiver.Invariant.{
  IsValid, open_receiver-IsValid, place_part-IsValid,
}

abbrev adv : Advertisement
adv = record {
  transfer_size = 465;
  data_size = 400;
  num_parts = 2;
  hash = zeros 32;
  random_hash = zeros 4;
  hashmap = 1 ∷ 1 ∷ 1 ∷ 1 ∷ [];
}

abbrev opened : Receiver
opened = open_receiver (zeros 32) (zeros 32) adv

opened-IsValid : IsValid opened
opened-IsValid = open_receiver-IsValid (zeros 32) (zeros 32) adv

place_part-IsValid_example : IsValid (place_part toy opened (replicate 464 1)).0
place_part-IsValid_example = place_part-IsValid toy opened (replicate 464 1) opened-IsValid

abbrev update : Hmu
update = record { hmu_hash = zeros 32; segment_index = 0; hashmap_bytes = 2 ∷ 2 ∷ 2 ∷ 2 ∷ [] }

applied : apply_hmu opened update ≡ ok (extend_hashmap opened update.hashmap_bytes)
unfolding apply_hmu open_receiver ◌=ᵇ◌
applied = refl
