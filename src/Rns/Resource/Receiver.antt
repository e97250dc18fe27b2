-- ===== src/Rns/Resource/Receiver.antt =====
-- internal/rns/resource_receiver.go: the state of one inbound transfer, the handling of a part and
-- of a hashmap update, the choice of the next request, and the assembly. Packets, channels and
-- timers around these are left out.
pub mod Invariant
pub mod Placing
pub mod Requests
pub mod Assembly
mod Examples
use reticulum_forwarding_ser.Base.{
  ◌>>=◌, ◌>>◌, ℕ, zero, suc, ◌+◌, ◌-◌, ◌*◌, ◌/◌, Bool, true, false, not, ◌&&◌, ◌||◌, List, [], ◌∷◌,
  ◌++◌, ◌==◌, ltb, leb, if◌then◌else◌, length, take, drop, get_or, set, replicate, Option, none,
  some, Result, ok, err, fail_if, wrap_err,
}
use reticulum_forwarding_ser.Base.Bytes.{Bytes, ◌=ᵇ◌}
use reticulum_forwarding_ser.Rns.Crypto.{Crypto}
use reticulum_forwarding_ser.Rns.Token.{link_token_decrypt}
use reticulum_forwarding_ser.Rns.Token
use reticulum_forwarding_ser.Rns.Resource.{
  resource_map_hash_len, resource_random_hash_size, hashmap_max_len, collision_guard_size,
  window_max_slow, resource_map_hash, resource_hash,
}
use reticulum_forwarding_ser.Rns.Resource.Split.{join}
use reticulum_forwarding_ser.Rns.Resource.Wire.{ResourceRequest}

-- `frontier` is consecutiveHeight + 1: the number of leading parts that are all received. A part
-- that is not received is the empty slice (nil).
pub record Receiver : Type 0 where
  pub hash : Bytes
  pub random_r : Bytes
  pub expected_size : ℕ
  pub data_size : ℕ
  pub signing : Bytes
  pub encryption : Bytes
  pub hashmap : Bytes
  pub known_prefix : ℕ
  pub parts : List Bytes
  pub received_flags : List Bool
  pub received_count : ℕ
  pub pending_target : ℕ
  pub frontier : ℕ

-- The fields of an advertisement that the receiver copies.
pub record Advertisement : Type 0 where
  pub transfer_size : ℕ
  pub data_size : ℕ
  pub num_parts : ℕ
  pub hash : Bytes
  pub random_hash : Bytes
  pub hashmap : Bytes

-- `copy(dst, src)`: as many bytes as both have room for.
abbrev pub copy_into : Bytes → Bytes → Bytes
copy_into dst src = take (length dst) src ++ drop (length src) dst

-- The receiver that openResourceReceiver makes from the advertisement and the link's keys.
unfoldable pub open_receiver : Bytes → Bytes → Advertisement → Receiver
open_receiver signing encryption adv =
    let known = length adv.hashmap / resource_map_hash_len in
    record {
      hash = adv.hash;
      random_r = adv.random_hash;
      expected_size = adv.transfer_size;
      data_size = adv.data_size;
      signing = signing;
      encryption = encryption;
      hashmap = copy_into (replicate (adv.num_parts * resource_map_hash_len) 0) adv.hashmap;
      known_prefix = if ltb adv.num_parts known then adv.num_parts else known;
      parts = replicate adv.num_parts [];
      received_flags = replicate adv.num_parts false;
      received_count = 0;
      pending_target = 0;
      frontier = 0;
    }

-- hashmap[off : off+4] at entry i.
abbrev pub entry : Bytes → ℕ → Bytes
entry hashmap i = take resource_map_hash_len (drop (i * resource_map_hash_len) hashmap)

pub data Slot : Type 0 where
  slot : ℕ → Slot
  duplicate unknown : Slot

-- The scan of placePart from entry i over as many entries as the second number says. `dup` is set
-- once a matching entry was found received.
unfoldable pub find_slot : Bytes → List Bool → Bytes → ℕ → ℕ → Bool → Slot
find_slot hashmap flags mh i zero dup = if dup then duplicate else unknown
find_slot hashmap flags mh i (suc n) dup =
    let same = entry hashmap i =ᵇ mh in
    let rest = find_slot hashmap flags mh (i + 1) n (same || dup) in
    if same && not (get_or flags i false) then slot i else rest

-- The loop that moves the frontier over received parts; the first number counts the parts from
-- the frontier on.
unfoldable pub advance : ℕ → List Bool → ℕ → ℕ
advance zero flags frontier = frontier
advance (suc n) flags frontier =
    let further = advance n flags (frontier + 1) in
    if get_or flags frontier false then further else frontier

-- The outcomes of placePart.
pub data Placed : Type 0 where
  placed duplicate_part not_in_window : Placed

-- A part in slot i.
unfoldable pub fill_slot : Receiver → Bytes → ℕ → Receiver
unfolding advance
fill_slot rr part i =
    let flags = set rr.received_flags i true in
    record rr {
      parts = set rr.parts i part;
      received_flags = flags;
      received_count = rr.received_count + 1;
      frontier = advance (length rr.parts - rr.frontier) flags rr.frontier;
    }

-- The first entry of the window, and the number of its entries: consecutiveHeight, or 0 before
-- part 0 has come, up to the guard size or the end of the known entries.
abbrev pub window_base : Receiver → ℕ
window_base rr = rr.frontier - 1

abbrev pub window_size : Receiver → ℕ
window_size rr =
    let end = window_base rr + collision_guard_size in
    (if ltb rr.known_prefix end then rr.known_prefix else end) - window_base rr

-- What placePart does once the scan has ended.
unfoldable pub settle : Receiver → Bytes → Slot → Receiver × Placed
unfolding fill_slot
settle rr part (slot i) = (fill_slot rr part i, placed)
settle rr part duplicate = (rr, duplicate_part)
settle rr part unknown = (rr, not_in_window)

-- placePart's scan for the slot of a part.
unfoldable pub scan : Crypto → Receiver → Bytes → Slot
unfolding find_slot
scan c rr part =
    find_slot rr.hashmap rr.received_flags (resource_map_hash c part rr.random_r) (window_base rr)
      (window_size rr) false

unfoldable pub place_part : Crypto → Receiver → Bytes → Receiver × Placed
place_part c rr part = settle rr part (scan c rr part)

pub window_complete : Receiver → Bool
window_complete rr = leb rr.pending_target rr.received_count

pub record Hmu : Type 0 where
  pub hmu_hash : Bytes
  pub segment_index : ℕ
  pub hashmap_bytes : Bytes

pub data HmuError : Type 0 where
  hash_mismatch wrong_segment segment_too_long : HmuError

-- `copy(rr.hashmap[off:], bytes)` behind the known entries, which grow by the whole hashes copied.
abbrev pub extend_hashmap : Receiver → Bytes → Receiver
extend_hashmap rr bytes =
    let off = rr.known_prefix * resource_map_hash_len in
    record rr {
      hashmap = take off rr.hashmap ++ copy_into (drop off rr.hashmap) bytes;
      known_prefix = rr.known_prefix + length bytes / resource_map_hash_len;
    }

-- The bytes that the next segment may have.
abbrev pub segment_room : Receiver → ℕ
segment_room rr =
    let remaining = length rr.parts - rr.known_prefix in
    (if ltb remaining hashmap_max_len then remaining else hashmap_max_len) * resource_map_hash_len

pub apply_hmu : Receiver → Hmu → Result HmuError Receiver
apply_hmu rr h =
    if not (h.hmu_hash =ᵇ rr.hash)
    then err hash_mismatch
    else if not (h.segment_index == rr.known_prefix / hashmap_max_len)
    then err wrong_segment
    else if ltb (segment_room rr) (length h.hashmap_bytes)
    then err segment_too_long
    else ok (extend_hashmap rr h.hashmap_bytes)

-- The entries that requestNextWindow asks for: from entry i, over as many as the second number
-- says, those not received, until the window has no room left.
unfoldable pub missing : List Bool → ℕ → ℕ → ℕ → List ℕ
missing flags i zero room = []
missing flags i (suc n) zero = []
missing flags i (suc n) (suc room) =
    let skipped = missing flags (i + 1) n (suc room) in
    let taken = missing flags (i + 1) n room in if get_or flags i false then skipped else i ∷ taken

-- Is every entry from i on received, over as many as the second number says?
unfoldable pub all_received : List Bool → ℕ → ℕ → Bool
all_received flags i zero = true
all_received flags i (suc n) = get_or flags i false && all_received flags (i + 1) n

abbrev pub map_entries : Bytes → List ℕ → List Bytes
map_entries hashmap [] = []
map_entries hashmap (i ∷ is) = entry hashmap i ∷ map_entries hashmap is

-- The entries of the next request, whether the known entries are used up, and the request itself.
unfoldable pub wanted_entries : Receiver → List ℕ
unfolding missing
wanted_entries rr = missing rr.received_flags 0 rr.known_prefix window_max_slow

unfoldable pub is_exhausted : Receiver → Bool
unfolding all_received
is_exhausted rr =
    all_received rr.received_flags 0 rr.known_prefix
    && (ltb rr.known_prefix (length rr.parts) && ltb 0 rr.known_prefix)

abbrev pub next_request : Receiver → ResourceRequest
next_request rr = record {
  exhausted = is_exhausted rr;
  last_map_hash = if is_exhausted rr then entry rr.hashmap (rr.known_prefix - 1) else [];
  resource_hash = rr.hash;
  requested_map = map_entries rr.hashmap (wanted_entries rr);
}

-- requestNextWindow: the state with the new target, and the request to send, or `none` where there
-- is nothing to ask for.
unfoldable pub request_next_window : Receiver → Receiver × Option ResourceRequest
request_next_window rr = (
  record rr { pending_target = rr.received_count + length (wanted_entries rr) },
  if length (wanted_entries rr) == 0 && not (is_exhausted rr) then none else some (next_request rr),
)

pub data AssembleError : Type 0 where
  size_mismatch prefix_missing body_size_mismatch body_hash_mismatch : AssembleError
  link_decrypt : Token.Error → AssembleError

pub assemble : Crypto → Receiver → Result AssembleError Bytes
assemble c rr =
    let stream = join rr.parts in
    do
      fail_if (not (length stream == rr.expected_size)) size_mismatch
      plaintext ← wrap_err link_decrypt (link_token_decrypt c stream rr.signing rr.encryption)
      fail_if (ltb (length plaintext) resource_random_hash_size) prefix_missing
      let body = drop resource_random_hash_size plaintext
      fail_if (not (length body == rr.data_size)) body_size_mismatch
      fail_if (not (resource_hash c body rr.random_r =ᵇ rr.hash)) body_hash_mismatch
      ok body
