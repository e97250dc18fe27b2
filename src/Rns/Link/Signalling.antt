-- ===== src/Rns/Link/Signalling.antt =====
-- The three bytes of the MTU and the mode.
use reticulum_forwarding_ser.Base.{◌%◌, ◌^◌, ◌≡◌, refl, [], ◌∷◌, some, ok, length, All, arith}
use reticulum_forwarding_ser.Base.Bytes.{Bytes, IsByte}
use reticulum_forwarding_ser.Rns.Link.{
  LinkSignalling, encode_signalling, decode_link_signalling, trailer,
}

-- What the fields of 21 and 3 bits keep of any signalling.
abbrev pub masked : LinkSignalling → LinkSignalling
masked s = record { mtu = s.mtu % 2 ^ 21; mode = s.mode % 8 }

-- The decoder gives back the 21 low bits of the MTU and the 3 low bits of the mode.
pub decode-encode_signalling :
    (s : LinkSignalling) → decode_link_signalling (encode_signalling s) ≡ ok (masked s)
unfolding encode_signalling decode_link_signalling
decode-encode_signalling s = ground arith

-- Three bytes that are decoded and encoded again are the same three bytes.
pub encode-decode_signalling :
    (b : Bytes) (s : LinkSignalling)
    → All IsByte b
    → decode_link_signalling b ≡ ok s
    → encode_signalling s ≡ b
unfolding encode_signalling decode_link_signalling
encode-decode_signalling (x ∷ y ∷ z ∷ []) s (hx, (hy, (hz, _))) h = ground arith
encode-decode_signalling [] s b h = cc
encode-decode_signalling (x ∷ []) s b h = cc
encode-decode_signalling (x ∷ y ∷ []) s b h = cc
encode-decode_signalling (x ∷ y ∷ z ∷ w ∷ r) s b h = cc

pub length-encode_signalling : (s : LinkSignalling) → length (encode_signalling s) ≡ 3
unfolding encode_signalling
length-encode_signalling s = refl

-- The trailer shows no more of a signalling than its 21 and 3 bits.
pub trailer-masked : (s : LinkSignalling) → trailer (some (masked s)) ≡ trailer (some s)
unfolding trailer encode_signalling
trailer-masked s = ground arith
