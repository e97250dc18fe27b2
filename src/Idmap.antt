-- ===== src/Idmap.antt =====
-- internal/idmap/idmap.go: the cache of the message ids that the recipients of a forwarded message
-- compute. A bubble is a shared object, which the model gives by a number and a heap; the list has
-- its oldest element first, so that Back is the head and PushFront adds at the end.
pub mod Invariant
pub mod Removals
pub mod Front
pub mod Capacity
pub mod Lookup
mod Examples
use reticulum_forwarding_ser.Base.{
  ℕ, zero, suc, ◌+◌, Bool, true, false, not, [], ◌∷◌, ◌++◌, ◌==◌, ltb, leb, if◌then◌else◌, length,
  List, Option, none, some,
}
use reticulum_forwarding_ser.Base.Bytes.{Bytes}
use reticulum_forwarding_ser.Base.Assoc.{lookup, insert, delete}

-- `views` takes a recipient's hex hash to its message id; `listed` says that the LRU element is
-- not nil.
pub record Bubble : Type 0 where
  pub views : List (Bytes × Bytes)
  pub expires_at : ℕ
  pub listed : Bool

pub record Cache : Type 0 where
  pub max_size : ℕ
  pub by_msg_id : List (Bytes × ℕ)
  pub lru : List ℕ
  pub heap : ℕ → Bubble

pub new_bubble : ℕ → ℕ → Bubble
new_bubble ttl now = record { views = []; expires_at = now + ttl; listed = false }

pub view_for : Bytes → Bubble → Option Bytes
view_for recipient_hex b = lookup recipient_hex b.views

-- A new cache over the bubbles that there are; a negative size is 0.
pub new_cache : ℕ → (ℕ → Bubble) → Cache
new_cache max_size heap = record { max_size = max_size; by_msg_id = []; lru = []; heap = heap }

pub len : Cache → ℕ
len c = length c.by_msg_id

-- An object that changes.
abbrev pub write : ℕ → Bubble → (ℕ → Bubble) → ℕ → Bubble
write b x heap r = if b == r then x else heap r

-- `for _, msgID := range b.views { delete(c.byMsgID, msgID) }`
pub delete_views : List (Bytes × Bytes) → List (Bytes × ℕ) → List (Bytes × ℕ)
delete_views [] m = m
delete_views ((r, k) ∷ vs) m = delete_views vs (delete k m)

-- `c.lru.Remove(b.lru)`
pub unlist : ℕ → List ℕ → List ℕ
unlist b [] = []
unlist b (r ∷ rs) = let rest = unlist b rs in if r == b then rs else r ∷ rest

-- MoveToFront, PushFront
pub move_to_front : ℕ → Cache → Cache
move_to_front b c =
    if (c.heap b).listed then record c { lru = unlist b c.lru ++ (b ∷ []) } else record c {
      lru = c.lru ++ (b ∷ []);
      heap = write b (record (c.heap b) { listed = true }) c.heap;
    }

pub remove_bubble : ℕ → Cache → Cache
remove_bubble b c =
    let m = delete_views (c.heap b).views c.by_msg_id in
    if (c.heap b).listed
    then record c {
      by_msg_id = m;
      lru = unlist b c.lru;
      heap = write b (record (c.heap b) { listed = false }) c.heap;
    }
    else record c { by_msg_id = m }

-- `c.lru.Back()`
pub back : List ℕ → Option ℕ
back [] = none
back (b ∷ rs) = some b

-- The loop of evictExpiredLocked, on rounds.
pub evict_loop : ℕ → ℕ → Cache → Cache
evict_loop now zero c = c
evict_loop now (suc n) c = elim (back c.lru) [
  | none ↦ c
  | some b ↦ if not (ltb (c.heap b).expires_at now) then c else evict_loop now n (remove_bubble b c)
]

pub evict_expired : ℕ → Cache → Cache
evict_expired now c = evict_loop now (length c.lru) c

-- The loop of enforceCapLocked, on rounds.
pub cap_loop : ℕ → Cache → Cache
cap_loop zero c = c
cap_loop (suc n) c =
    if leb (length c.by_msg_id) c.max_size
    then c
    else elim (back c.lru) [ none ↦ c | some b ↦ cap_loop n (remove_bubble b c) ]

pub enforce_cap : Cache → Cache
enforce_cap c = if c.max_size == 0 then c else cap_loop (length c.lru) c

-- `b.views[recipientHex] = msgIDHex`, `c.byMsgID[msgIDHex] = b`
pub index : ℕ → Bytes → Bytes → Cache → Cache
index b recipient_hex msg_id_hex c = record c {
  by_msg_id = insert msg_id_hex b c.by_msg_id;
  heap =
      write b (record (c.heap b) { views = insert recipient_hex msg_id_hex (c.heap b).views })
        c.heap;
}

pub register_view : ℕ → Option ℕ → Bytes → Bytes → Cache → Cache
register_view now none recipient_hex msg_id_hex c = c
register_view now (some b) recipient_hex [] c = c
register_view now (some b) recipient_hex (x ∷ xs) c =
    enforce_cap (move_to_front b (index b recipient_hex (x ∷ xs) (evict_expired now c)))

pub lookup_bubble : ℕ → Bytes → Cache → Option ℕ × Cache
lookup_bubble now msg_id_hex c = elim (lookup msg_id_hex c.by_msg_id) [
  | none ↦ (none, c)
  | some b ↦
      if ltb (c.heap b).expires_at now
      then (none, remove_bubble b c)
      else if (c.heap b).listed
      then (some b, move_to_front b c)
      else (some b, c)
]
