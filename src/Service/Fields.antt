-- ===== src/Service/Fields.antt =====
-- internal/service/attachments.go and rewrite.go: the fields of a message, as msgpack decodes them.
-- A map's entries are a list, in the order in which one `range` meets them.
use reticulum_forwarding_ser.Base.{
  ℕ, ◌+◌, ◌-◌, ◌*◌, Bool, true, false, not, ◌&&◌, ◌||◌, [], ◌∷◌, ◌==◌, leb, if◌then◌else◌, length,
  Option, none, some,
}
use reticulum_forwarding_ser.Base.Bytes.{Bytes, ◌=ᵇ◌, hex_encode}

-- The dynamic type of a key and its value: an integer type by its place in keyAsInt's list, where
-- int comes first, with a value that an int holds; a string; another type.
pub data Key : Type 0 where
  int_key negative_key : ℕ → ℕ → Key
  string_key : Bytes → Key
  other_key : ℕ → Key

mutual
  pub data Value : Type 0 where
    bytes string : Bytes → Value
    dict : Dict → Value
    other : ℕ → Value

  pub data Dict : Type 0 where
    empty : Dict
    entry : Key → Value → Dict → Dict

infix 50 ◌=ᵏ◌
unfoldable pub ◌=ᵏ◌ : Key → Key → Bool
int_key t n =ᵏ int_key u m = t == u && n == m
negative_key t n =ᵏ negative_key u m = t == u && n == m
string_key s =ᵏ string_key t = s =ᵇ t
other_key n =ᵏ other_key m = n == m
_ =ᵏ _ = false

-- `m[k] = v`
unfoldable pub assign : Key → Value → Dict → Dict
assign k v empty = entry k v empty
assign k v (entry j w d) = if j =ᵏ k then entry k v d else entry j w (assign k v d)

-- keyAsInt, for the tests against a constant n, none of which is negative; `atoi` is strconv.Atoi
-- on the texts whose number is not negative.
pub key_is : (Bytes → Option ℕ) → ℕ → Key → Bool
key_is atoi n (int_key t m) = m == n
key_is atoi n (negative_key t m) = false
key_is atoi n (string_key s) = elim (atoi s) [ none ↦ false | some m ↦ m == n ]
key_is atoi n (other_key m) = false

-- keyAsInt succeeds; `parses` is strconv.Atoi's success.
pub is_int : (Bytes → Bool) → Key → Bool
is_int parses (int_key t m) = true
is_int parses (negative_key t m) = true
is_int parses (string_key s) = parses s
is_int parses (other_key m) = false

abbrev pub field_reply_to : ℕ
field_reply_to = 0x30

abbrev pub field_reply_quote : ℕ
field_reply_quote = 0x31

abbrev pub field_reaction : ℕ
field_reaction = 0x40

abbrev pub field_comment : ℕ
field_comment = 0x41

abbrev pub field_continuation : ℕ
field_continuation = 0x42

abbrev pub target_idx : ℕ
target_idx = 0x00

abbrev pub field_custom_type : ℕ
field_custom_type = 0xfb

abbrev pub field_custom_data : ℕ
field_custom_data = 0xfc

-- "originator-identity"
abbrev pub originator_identity_type : Bytes
originator_identity_type =
    111 ∷ 114 ∷ 105 ∷ 103 ∷ 105 ∷ 110 ∷ 97 ∷ 116 ∷ 111 ∷ 114 ∷ 45 ∷ 105 ∷ 100 ∷ 101 ∷ 110 ∷ 116
    ∷ 105 ∷ 116 ∷ 121 ∷ []

-- One digit that isHexString accepts, as encoding/hex reads it.
unfoldable pub hex_value : ℕ → Option ℕ
hex_value c =
    if leb 48 c && leb c 57
    then some (c - 48)
    else if leb 97 c && leb c 102
    then some (c - 87)
    else if leb 65 c && leb c 70
    then some (c - 55)
    else none

abbrev pub is_hex_digit : ℕ → Bool
is_hex_digit c = (leb 48 c && leb c 57) || (leb 97 c && leb c 102) || (leb 65 c && leb c 70)

abbrev all_hex : Bytes → Bool
all_hex [] = true
all_hex (c ∷ s) = is_hex_digit c && all_hex s

pub is_hex_string : Bytes → Bool
is_hex_string [] = false
is_hex_string (c ∷ s) = all_hex (c ∷ s)

abbrev pub join_digits : Option ℕ → Option ℕ → Option Bytes → Option Bytes
join_digits (some a) (some b) (some bs) = some ((a * 16 + b) ∷ bs)
join_digits _ _ _ = none

-- hex.DecodeString
unfoldable pub hex_decode : Bytes → Option Bytes
hex_decode [] = some []
hex_decode (a ∷ []) = none
hex_decode (a ∷ b ∷ s) = join_digits (hex_value a) (hex_value b) (hex_decode s)

unfoldable pub as_hash_bytes : Value → Option Bytes
as_hash_bytes (bytes b) = some b
as_hash_bytes (string s) =
    if length s == 64 && is_hex_string s
    then elim (hex_decode s) [ some b ↦ some b | none ↦ some s ]
    else some s
as_hash_bytes (dict d) = none
as_hash_bytes (other n) = none

module _ (atoi : Bytes → Option ℕ) where
  unfoldable pub has_reaction_field : Dict → Bool
  has_reaction_field empty = false
  has_reaction_field (entry k v d) = key_is atoi field_reaction k || has_reaction_field d

  -- The map, and whether it was stamped; a literal key has the type int.
  unfoldable pub stamp_reactor_identity : Bytes → Dict → Dict × Bool
  stamp_reactor_identity reactor_hash fields =
      if length reactor_hash == 0 || not (has_reaction_field fields) then (fields, false) else (
        assign (int_key 0 field_custom_data) (bytes reactor_hash)
            (assign (int_key 0 field_custom_type) (string originator_identity_type) fields),
        true,
      )

  -- An annotation of another bubble.
  abbrev pub is_annotation : Key → Bool
  is_annotation k =
      key_is atoi field_reply_to k
      || key_is atoi field_reply_quote k
      || key_is atoi field_reaction k
      || key_is atoi field_comment k
      || key_is atoi field_continuation k

  pub has_attachment : (Bytes → Bool) → Dict → Bool
  has_attachment parses empty = false
  has_attachment parses (entry k v d) =
      (is_int parses k && not (is_annotation k)) || has_attachment parses d

  pub is_primary_bubble : (Bytes → Bool) → Bytes → Dict → Bool
  is_primary_bubble parses content fields =
      not (length content == 0) || has_attachment parses fields

  -- The inner target's bytes of a dict.
  unfoldable pub inner_target : Dict → Option Bytes
  inner_target empty = none
  inner_target (entry k v d) =
      let rest = inner_target d in
      if not (key_is atoi target_idx k)
      then rest
      else elim (as_hash_bytes v) [ some b ↦ some b | none ↦ rest ]

  -- The hex text of the target, or the empty one.
  pub extract_dict_target : Value → Bytes
  extract_dict_target (dict m) = elim (inner_target m) [ none ↦ [] | some b ↦ hex_encode b ]
  extract_dict_target (bytes b) = []
  extract_dict_target (string s) = []
  extract_dict_target (other n) = []
