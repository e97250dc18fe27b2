-- ===== src/Rns/Resource/Wire/RoundTrip.antt =====
-- Requests and proofs come back from their bytes, and the bytes from them.
use mathlib.Core.List.{append-nil, append_assoc}
use mathlib.Core.Path.{subst}
use reticulum_forwarding_ser.Base.{
  ℕ, zero, suc, ◌*◌, ◌/◌, ◌%◌, ◌≤◌, ◌≡◌, ◌⊎◌, inl, inr, refl, sym, ap, ◌∙◌, Bool, true, false, List,
  [], ◌∷◌, ◌++◌, ◌==◌, Bool-cases, length, length-append, length-take, length-drop, take, drop,
  take-append, drop-append, take-append-drop, All, some, ok, arith,
}
use reticulum_forwarding_ser.Base.Bytes.{Bytes}
use reticulum_forwarding_ser.Rns.Resource.Split.{join}
use reticulum_forwarding_ser.Rns.Resource.Wire.{
  ResourceRequest, append_maps, request_head, build_resource_req, cut_maps, parse_req_tail,
  parse_resource_req, ResourceProof, build_resource_proof, parse_resource_proof,
}

abbrev IsMapHash : Bytes → Type 0
IsMapHash mh = length mh ≡ 4

append_maps-ok :
    (maps : List Bytes) (out : Bytes)
    → All IsMapHash maps
    → append_maps out maps ≡ ok (out ++ join maps)
unfolding append_maps
append_maps-ok [] out h = rw append-nil refl
append_maps-ok (mh ∷ maps) out (hm, hs) =
    ground (arith, append_maps-ok maps (out ++ mh) hs, append_assoc out mh (join maps))

length-join : (maps : List Bytes) → All IsMapHash maps → length (join maps) ≡ 4 * length maps
length-join [] h = refl
length-join (mh ∷ maps) (hm, hs) = omega (arith, length-append mh (join maps), length-join maps hs)

cut_maps-join : (maps : List Bytes) → All IsMapHash maps → cut_maps (length maps) (join maps) ≡ maps
unfolding cut_maps
cut_maps-join [] h = refl
cut_maps-join (mh ∷ maps) (hm, hs) =
    rw (take-append 4 mh (join maps) hm, drop-append 4 mh (join maps) hm)
      (ap (◌∷◌ mh) (cut_maps-join maps hs))

cut_maps-IsMapHash :
    (n : ℕ) (tail : Bytes)
    → length tail ≡ 4 * n
    → All IsMapHash (cut_maps n tail) × (join (cut_maps n tail) ≡ tail)
unfolding cut_maps
cut_maps-IsMapHash zero [] h = (tt, refl)
cut_maps-IsMapHash zero (b ∷ tail) h = absurd (omega arith)
cut_maps-IsMapHash (suc n) tail h =
    let (a, e) = cut_maps-IsMapHash n (drop 4 tail) (omega (arith, length-drop 4 tail)) in
    ((omega (arith, length-take 4 tail), a), ap (λ t. take 4 tail ++ t) e ∙ take-append-drop 4 tail)

-- A request that BuildResourceReq accepts and whose last map hash is nil when it is not exhausted.
pub record IsWire (req : ResourceRequest) : Type 0 where
  pub hash_32 : length req.resource_hash ≡ 32
  pub last :
      ((req.exhausted ≡ true) × (length req.last_map_hash ≡ 4))
      ⊎ ((req.exhausted ≡ false) × (req.last_map_hash ≡ []))
  pub maps_4 : All IsMapHash req.requested_map

build-ok :
    (req : ResourceRequest)
    → IsWire req
    → build_resource_req (some req)
      ≡ ok ((request_head req ++ req.resource_hash) ++ join req.requested_map)
unfolding build_resource_req
build-ok req w =
    ground
      (arith, append_maps-ok req.requested_map (request_head req ++ req.resource_hash) w.maps_4)

tail-ok :
    (exhausted : Bool) (last hash : Bytes) (maps : List Bytes)
    → length hash ≡ 32
    → All IsMapHash maps
    → parse_req_tail exhausted last (hash ++ join maps)
      ≡ ok (record {
        exhausted = exhausted;
        last_map_hash = last;
        resource_hash = hash;
        requested_map = maps;
      })
unfolding parse_req_tail
tail-ok exhausted last hash maps hh hm =
    let n : length (join maps) / 4 ≡ length maps = omega (arith, length-join maps hm) in
    let even : (length (join maps) % 4 == 0) ≡ true = ground (arith, length-join maps hm) in
    rw
      (
        drop-append 32 hash (join maps) hh,
        even,
        n,
        take-append 32 hash (join maps) hh,
        cut_maps-join maps hm,
      )
      refl

-- Every well-formed request is encoded, and its bytes are parsed to the same request.
pub parse-build_resource_req :
    (req : ResourceRequest)
    → IsWire req
    → (body : Bytes) × (build_resource_req (some req) ≡ ok body)
      × (parse_resource_req body ≡ ok req)
unfolding parse_resource_req
parse-build_resource_req req w =
    let tail : Bytes = req.resource_hash ++ join req.requested_map in
    let lt = length-append req.resource_hash (join req.requested_map) in
    let t =
      tail-ok req.exhausted req.last_map_hash req.resource_hash req.requested_map w.hash_32
        w.maps_4 in
    let b = build-ok req w in
    elim w.last [
      | inl (e, l) ↦ (
        0xff ∷ (req.last_map_hash ++ tail),
        ground
            (arith, b, append_assoc req.last_map_hash req.resource_hash (join req.requested_map)),
        ground (
          arith,
          t,
          lt,
          length-append req.last_map_hash tail,
          take-append 4 req.last_map_hash tail l,
          drop-append 4 req.last_map_hash tail l,
        ),
      )
      | inr (e, l) ↦ (0x00 ∷ tail, ground (arith, b), ground (arith, t, lt))
    ]

tail-inverse :
    (exhausted : Bool) (last body : Bytes) (req : ResourceRequest)
    → parse_req_tail exhausted last body ≡ ok req
    → 32 ≤ length body
    → (req.exhausted ≡ exhausted)
      × (req.last_map_hash ≡ last)
      × (length req.resource_hash ≡ 32)
      × All IsMapHash req.requested_map
      × (req.resource_hash ++ join req.requested_map ≡ body)
unfolding parse_req_tail
tail-inverse exhausted last body req h long =
    let tail = drop 32 body in
    let n = length tail / 4 in
    let whole : length tail % 4 ≡ 0 = ground arith in
    let (maps, joined) = cut_maps-IsMapHash n tail (omega arith) in
    let cut : ResourceRequest = record {
      exhausted = exhausted;
      last_map_hash = last;
      resource_hash = take 32 body;
      requested_map = cut_maps n tail;
    } in
    let same : req ≡ cut = ground arith in
    (
      ap (λ r. r.exhausted) same,
      ap (λ r. r.last_map_hash) same,
      ap (λ r. length r.resource_hash) same ∙ omega (arith, length-take 32 body),
      subst (λ r. All IsMapHash r) (ap (λ r. r.requested_map) (sym same)) maps,
      ap (λ r. r.resource_hash ++ join r.requested_map) same
          ∙ ap (λ t. take 32 body ++ t) joined
          ∙ take-append-drop 32 body,
    )

-- Whatever ParseResourceReq accepts is a well-formed request, and is encoded to the same bytes.
pub build-parse_resource_req :
    (body : Bytes) (req : ResourceRequest)
    → parse_resource_req body ≡ ok req
    → IsWire req × (build_resource_req (some req) ≡ ok body)
unfolding parse_resource_req
build-parse_resource_req [] req h = cc
build-parse_resource_req (flag ∷ body) req h = elim (Bool-cases (flag == 0xff)) [
  | inl full ↦
      let long : 36 ≤ length body = ground arith in
      let h' : parse_req_tail true (take 4 body) (drop 4 body) ≡ ok req = ground arith in
      let inv =
        tail-inverse true (take 4 body) (drop 4 body) req h' (omega (arith, length-drop 4 body)) in
      let four : length req.last_map_hash ≡ 4 = rw inv.1 (omega (arith, length-take 4 body)) in
      let w : IsWire req = record { hash_32 = inv.2; last = inl (inv.0, four); maps_4 = inv.3 } in
      (
        w,
        ground (
          arith,
          build-ok req w,
          append_assoc req.last_map_hash req.resource_hash (join req.requested_map),
          take-append-drop 4 body,
          inv,
        ),
      )
  | inr part ↦
      let long : 32 ≤ length body = ground arith in
      let h' : parse_req_tail false [] body ≡ ok req = ground arith in
      let inv = tail-inverse false [] body req h' long in
      let w : IsWire req = record { hash_32 = inv.2; last = inr (inv.0, inv.1); maps_4 = inv.3 } in
      let zero_flag : flag ≡ 0 = ground arith in (w, ground (arith, build-ok req w, inv))
]

-- A proof of two 32-byte hashes comes back from its 64 bytes.
pub parse-build_resource_proof :
    (p : ResourceProof)
    → length p.resource_hash ≡ 32
    → length p.full_proof ≡ 32
    → (body : Bytes) × (build_resource_proof (some p) ≡ ok body)
      × (parse_resource_proof body ≡ ok p)
unfolding build_resource_proof parse_resource_proof
parse-build_resource_proof p hh hp = (
  p.resource_hash ++ p.full_proof,
  ground arith,
  ground (
    arith,
    length-append p.resource_hash p.full_proof,
    take-append 32 p.resource_hash p.full_proof hh,
    drop-append 32 p.resource_hash p.full_proof hh,
  ),
)
