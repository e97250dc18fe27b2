-- ===== src/Rns/Packet/Flags.antt =====
-- packFlags and unpackFlags as arithmetic on the flags byte, inverse to one another.
use Prim.Native.Nat.{bit_and}
use reticulum_forwarding_ser.Base.{
  ℕ, ◌+◌, ◌*◌, ◌/◌, ◌<◌, ◌≡◌, ◌∙◌, Bool, true, false, if◌then◌else◌, arith,
}
use reticulum_forwarding_ser.Base.Bits.{mask_1, mask_3, mask_15, join_bits}
use reticulum_forwarding_ser.Rns.Packet.{pack_flags, unpack_flags}

abbrev pub bit : Bool → ℕ
bit c = if c then 1 else 0

-- The weights of the five fields.
abbrev pub weigh : ℕ → Bool → ℕ → ℕ → ℕ → ℕ
weigh h c t d p = h * 64 + bit c * 32 + t * 16 + d * 4 + p

pub pack_flags-weigh :
    (h : ℕ) (c : Bool) (t d p : ℕ)
    → h < 2
    → t < 2
    → d < 4
    → p < 4
    → pack_flags h c t d p ≡ weigh h c t d p
unfolding pack_flags
pack_flags-weigh h true t d p hh ht hd hp =
    ground (arith, mask_1 h, mask_1 t, mask_3 d, mask_3 p, join_bits (weigh h true t d p))
pack_flags-weigh h false t d p hh ht hd hp =
    ground (arith, mask_1 h, mask_1 t, mask_3 d, mask_3 p, join_bits (weigh h false t d p))

-- The flags byte that weighs the fields of an open packet.
pub unpack_flags-weigh :
    (h : ℕ) (c : Bool) (t d p : ℕ)
    → h < 2
    → t < 2
    → d < 4
    → p < 4
    → unpack_flags (weigh h c t d p) ≡ record {
      ifac_flag = false;
      header_type = h;
      context_flag = c;
      transport_type = t;
      dest_type = d;
      packet_type = p;
    }
unfolding unpack_flags
unpack_flags-weigh h c t d p hh ht hd hp =
    let f = weigh h c t d p in
    ground (
      arith,
      mask_1 (f / 128),
      mask_1 (f / 64),
      mask_1 (f / 32),
      mask_1 (f / 16),
      mask_3 (f / 4),
      mask_3 f,
    )

-- Unpacking a byte with the top bit clear and packing it again gives it back, and the fields are
-- in range.
pub weigh-unpack_flags :
    (f : ℕ)
    → f < 256
    → (unpack_flags f).ifac_flag ≡ false
    → (let u = unpack_flags f in
        (weigh u.header_type u.context_flag u.transport_type u.dest_type u.packet_type ≡ f)
        × (u.header_type < 2)
        × (u.transport_type < 2)
        × (u.dest_type < 4)
        × (u.packet_type < 4))
unfolding unpack_flags
weigh-unpack_flags f h open_flag = ground (
  arith,
  mask_1 (f / 128),
  mask_1 (f / 64),
  mask_1 (f / 32),
  mask_1 (f / 16),
  mask_3 (f / 4),
  mask_3 f,
)

-- The low nibble holds the destination and packet types only.
pub low_nibble :
    (h : ℕ) (c : Bool) (t d p : ℕ)
    → h < 2
    → t < 2
    → d < 4
    → p < 4
    → bit_and (weigh h c t d p) 0x0f ≡ d * 4 + p
low_nibble h true t d p hh ht hd hp = mask_15 _ (omega arith) ∙ omega arith
low_nibble h false t d p hh ht hd hp = mask_15 _ (omega arith) ∙ omega arith
