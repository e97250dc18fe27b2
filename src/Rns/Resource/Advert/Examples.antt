-- ===== src/Rns/Resource/Advert/Examples.antt =====
-- An advertisement of one part that is accepted.
use reticulum_forwarding_ser.Base.{◌≡◌, refl, [], ◌∷◌, Option, none, some, ok, replicate, arith}
use reticulum_forwarding_ser.Base.Bytes.{Bytes}
use reticulum_forwarding_ser.Rns.Resource.Advert.{
  ResourceAdvertisement, pos, parse_resource_adv, has_bit,
}
use reticulum_forwarding_ser.Rns.Resource.Advert.Acceptance.{
  Within, IsHashmap, IsAcceptable, IsRequestId, parse_resource_adv-accepts,
}

abbrev one_part : ResourceAdvertisement
one_part = record {
  transfer_size = pos 64;
  data_size = pos 10;
  num_parts = pos 1;
  hash = replicate 32 1;
  random_hash = replicate 4 2;
  original_hash = replicate 32 1;
  segment_index = pos 1;
  total_segments = pos 1;
  request_id = none;
  flags = pos 1;
  hashmap = replicate 4 3;
}

abbrev decoder : Bytes → Option ResourceAdvertisement
decoder body = some one_part

one_part-IsAcceptable : IsAcceptable one_part
unfolding Within IsHashmap IsRequestId has_bit
one_part-IsAcceptable = record {
  hash_32 = refl;
  random_4 = refl;
  original_32 = refl;
  parts = (omega arith, omega arith);
  first = refl;
  only = refl;
  transfer = (omega arith, omega arith);
  data_within = (omega arith, omega arith);
  mapped = (omega arith, omega arith, refl);
  request = tt;
  plain = refl;
  bare = refl;
}

accepted : parse_resource_adv decoder (7 ∷ []) ≡ ok one_part
accepted = (parse_resource_adv-accepts decoder (7 ∷ []) one_part).1 (refl, one_part-IsAcceptable)
