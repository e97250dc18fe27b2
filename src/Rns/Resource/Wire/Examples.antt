-- ===== src/Rns/Resource/Wire/Examples.antt =====
-- A request that is exhausted, and a proof.
use reticulum_forwarding_ser.Base.{◌≡◌, refl, true, [], ◌∷◌, ◌++◌, ok, replicate}
use reticulum_forwarding_ser.Base.Bytes.{Bytes}
use reticulum_forwarding_ser.Rns.Resource.Wire.{
  ResourceRequest, cut_maps, parse_req_tail, parse_resource_req, ResourceProof,
}

abbrev request : ResourceRequest
request = record {
  exhausted = true;
  last_map_hash = replicate 4 1;
  resource_hash = replicate 32 2;
  requested_map = replicate 4 3 ∷ replicate 4 4 ∷ [];
}

abbrev wire : Bytes
wire = 0xff ∷ (replicate 4 1 ++ (replicate 32 2 ++ (replicate 4 3 ++ replicate 4 4)))

parsed : parse_resource_req wire ≡ ok request
unfolding parse_resource_req parse_req_tail cut_maps
parsed = refl

abbrev proof : ResourceProof
proof = record { resource_hash = replicate 32 5; full_proof = replicate 32 6 }
