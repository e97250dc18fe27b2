-- ===== src/Rns/Resource/Wire.antt =====
-- internal/rns/resource_wire.go: the bodies of the request, proof and cancel packets; the hashmap
-- update is in Hmu beside this.
pub mod RoundTrip
mod Examples
use reticulum_forwarding_ser.Base.{
  ℕ, zero, suc, ◌+◌, ◌/◌, ◌%◌, Bool, true, false, not, ◌&&◌, ◌||◌, List, [], ◌∷◌, ◌++◌, ◌==◌, ltb,
  if◌then◌else◌, length, take, drop, Option, none, some, Result, ok, err,
}
use reticulum_forwarding_ser.Base.Bytes.{Bytes}
use reticulum_forwarding_ser.Rns.Resource.{resource_map_hash_len}

abbrev pub hashmap_not_exhausted : ℕ
hashmap_not_exhausted = 0x00

abbrev pub hashmap_exhausted : ℕ
hashmap_exhausted = 0xff

-- `last_map_hash` is empty (nil) in a request that is not exhausted.
pub record ResourceRequest : Type 0 where
  pub exhausted : Bool
  pub last_map_hash : Bytes
  pub resource_hash : Bytes
  pub requested_map : List Bytes

pub data Error : Type 0 where
  nil_request resource_hash_len last_map_hash_len requested_map_len : Error
  too_short exhausted_too_short unknown_flag trailing_bytes proof_len cancel_len : Error

-- The loop that appends the requested map hashes.
pub append_maps : Bytes → List Bytes → Result Error Bytes
append_maps out [] = ok out
append_maps out (mh ∷ rest) =
    let more = append_maps (out ++ mh) rest in
    if not (length mh == resource_map_hash_len) then err requested_map_len else more

-- The flag byte, and the last map hash behind it.
abbrev pub request_head : ResourceRequest → Bytes
request_head req =
    if req.exhausted then hashmap_exhausted ∷ req.last_map_hash else hashmap_not_exhausted ∷ []

pub build_resource_req : Option ResourceRequest → Result Error Bytes
unfolding append_maps
build_resource_req none = err nil_request
build_resource_req (some req) =
    if not (length req.resource_hash == 32)
    then err resource_hash_len
    else if req.exhausted && not (length req.last_map_hash == resource_map_hash_len)
    then err last_map_hash_len
    else append_maps (request_head req ++ req.resource_hash) req.requested_map

-- The loop that cuts the tail of a request into map hashes; each round takes four bytes.
pub cut_maps : ℕ → Bytes → List Bytes
cut_maps zero tail = []
cut_maps (suc n) tail =
    take resource_map_hash_len tail ∷ cut_maps n (drop resource_map_hash_len tail)

-- ParseResourceReq from the resource hash on: `body` is what follows the flag and, in an exhausted
-- request, the last map hash.
pub parse_req_tail : Bool → Bytes → Bytes → Result Error ResourceRequest
unfolding cut_maps
parse_req_tail exhausted last body =
    let tail = drop 32 body in
    if not (length tail % resource_map_hash_len == 0)
    then err trailing_bytes
    else ok (record {
      exhausted = exhausted;
      last_map_hash = last;
      resource_hash = take 32 body;
      requested_map = cut_maps (length tail / resource_map_hash_len) tail;
    })

pub parse_resource_req : Bytes → Result Error ResourceRequest
unfolding parse_req_tail
parse_resource_req [] = err too_short
parse_resource_req (flag ∷ body) =
    if ltb (1 + length body) (1 + 32)
    then err too_short
    else if flag == hashmap_exhausted
    then (if ltb (1 + length body) (1 + resource_map_hash_len + 32)
        then err exhausted_too_short
        else parse_req_tail true (take resource_map_hash_len body)
            (drop resource_map_hash_len body))
    else if flag == hashmap_not_exhausted
    then parse_req_tail false [] body
    else err unknown_flag

pub record ResourceProof : Type 0 where
  pub resource_hash : Bytes
  pub full_proof : Bytes

pub build_resource_proof : Option ResourceProof → Result Error Bytes
build_resource_proof none = err nil_request
build_resource_proof (some p) =
    if not (length p.resource_hash == 32) || not (length p.full_proof == 32)
    then err proof_len
    else ok (p.resource_hash ++ p.full_proof)

pub parse_resource_proof : Bytes → Result Error ResourceProof
parse_resource_proof body =
    if not (length body == 64)
    then err proof_len
    else ok (record { resource_hash = take 32 body; full_proof = drop 32 body })

unfoldable pub build_resource_cancel : Bytes → Result Error Bytes
build_resource_cancel hash = if not (length hash == 32) then err cancel_len else ok hash

unfoldable pub parse_resource_cancel : Bytes → Result Error Bytes
parse_resource_cancel body = if not (length body == 32) then err cancel_len else ok body
