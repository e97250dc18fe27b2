-- ===== src/Rns/Resource/Split.antt =====
-- The parts of a blob are its consecutive slices.
use reticulum_forwarding_ser.Base.{
  ℕ, zero, suc, ◌+◌, ◌/◌, ◌≤◌, ◌<◌, ◌≡◌, refl, ap, ◌∙◌, List, [], ◌∷◌, ◌++◌, length, length-take,
  length-drop, take, drop, take-append-drop, All, arith,
}
use reticulum_forwarding_ser.Base.Bytes.{Bytes}
use reticulum_forwarding_ser.Rns.Resource.{resource_sdu, split_loop, split_parts}

-- The receiver's concatenation of parts.
abbrev pub join : List Bytes → Bytes
join [] = []
join (p ∷ ps) = p ++ join ps

-- A part that the wire can carry: not empty, and of at most ResourceSDU bytes.
abbrev pub IsPart : Bytes → Type 0
IsPart p = (0 < length p) × (length p ≤ resource_sdu)

join-split_loop :
    (fuel : ℕ) (blob : Bytes) → length blob ≤ fuel → join (split_loop fuel blob) ≡ blob
unfolding split_loop
join-split_loop zero [] h = refl
join-split_loop zero (b ∷ blob) h = absurd (omega arith)
join-split_loop (suc fuel) [] h = refl
join-split_loop (suc fuel) (b ∷ blob) h =
    ap (λ t. take resource_sdu (b ∷ blob) ++ t)
      (join-split_loop fuel (drop resource_sdu (b ∷ blob))
        (omega (arith, length-drop resource_sdu (b ∷ blob))))
    ∙ take-append-drop resource_sdu (b ∷ blob)

split_loop-IsPart : (fuel : ℕ) (blob : Bytes) → All IsPart (split_loop fuel blob)
unfolding split_loop
split_loop-IsPart zero blob = tt
split_loop-IsPart (suc fuel) [] = tt
split_loop-IsPart (suc fuel) (b ∷ blob) =
    let l = length-take resource_sdu (b ∷ blob) in
    ((omega (arith, l), omega (arith, l)), split_loop-IsPart fuel (drop resource_sdu (b ∷ blob)))

length-split_loop :
    (fuel : ℕ) (blob : Bytes)
    → length blob ≤ fuel
    → length (split_loop fuel blob) ≡ (length blob + 463) / 464
unfolding split_loop
length-split_loop zero [] h = refl
length-split_loop zero (b ∷ blob) h = absurd (omega arith)
length-split_loop (suc fuel) [] h = refl
length-split_loop (suc fuel) (b ∷ blob) h = omega (
  arith,
  length-drop resource_sdu (b ∷ blob),
  length-split_loop fuel (drop resource_sdu (b ∷ blob))
      (omega (arith, length-drop resource_sdu (b ∷ blob))),
)

-- The parts of any blob, joined in order, are the blob; there are as few as the part size allows,
-- and each has between 1 and ResourceSDU bytes.
pub join-split_parts :
    (blob : Bytes)
    → (join (split_parts blob) ≡ blob)
      × (length (split_parts blob) ≡ (length blob + 463) / 464)
      × All IsPart (split_parts blob)
unfolding split_parts
join-split_parts blob = (
  join-split_loop (length blob) blob (omega arith),
  length-split_loop (length blob) blob (omega arith),
  split_loop-IsPart (length blob) blob,
)
