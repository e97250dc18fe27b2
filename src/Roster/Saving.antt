-- ===== src/Roster/Saving.antt =====
-- The store holds what the members and the bans are, after every event that reports no error.
use reticulum_forwarding_ser.Base.{ℕ, ◌≡◌, Bool, true, Option, none, arith}
use reticulum_forwarding_ser.Base.Bytes.{Bytes}
use reticulum_forwarding_ser.Roster.{
  Roster, Error, Reply, persist, normalize_hash, add_or_update_at, add_or_update, touch,
  mark_message, announce_at, update_last_announce, prune, remove, ban, unban,
}

-- With a store, the state that was written last is the state in memory.
unfoldable pub IsSaved : Roster → Type 0
IsSaved r = r.has_store ≡ true → r.saved ≡ (r.users, r.banlist)

-- The events of the service and of its administrators, and what they do.
pub data Event : Type 0 where
  joins speaks commands announces : Bytes → ℕ → Event
  sweeps : ℕ → ℕ → ℕ → Event
  kicked banned unbanned : Bytes → Event

-- The state and the error of a reply.
abbrev outcome : {A : Type 0} → Reply A → Roster × Option Error
outcome x = (x.0, x.1.1)

unfoldable pub handle : (Bytes → Bytes) → Roster → Bool → Event → Roster × Option Error
unfolding add_or_update touch mark_message update_last_announce prune remove ban unban
handle to_lower r saves (joins hash now) = outcome (add_or_update r saves hash now)
handle to_lower r saves (speaks hash now) = outcome (mark_message r saves hash now)
handle to_lower r saves (commands hash now) = outcome (touch r saves hash now)
handle to_lower r saves (announces hash t) = outcome (update_last_announce r saves hash t)
handle to_lower r saves (sweeps now idle silent) = outcome (prune r saves now idle silent)
handle to_lower r saves (kicked text) = outcome (remove to_lower r saves text)
handle to_lower r saves (banned text) = outcome (ban to_lower r saves text)
handle to_lower r saves (unbanned text) = outcome (unban to_lower r saves text)

-- Where the store was in step with the members and the bans, it is so after every event that
-- reports no error: a join, a message, a command, an announce, a sweep, a kick, a ban or its end.
pub handle-IsSaved :
    (to_lower : Bytes → Bytes) (r : Roster) (saves : Bool) (event : Event)
    → IsSaved r
    → (handle to_lower r saves event).1 ≡ none
    → IsSaved (handle to_lower r saves event).0
unfolding handle IsSaved persist normalize_hash add_or_update_at add_or_update touch mark_message
    announce_at update_last_announce prune remove ban unban
handle-IsSaved to_lower r saves (joins hash now) v e = ground arith
handle-IsSaved to_lower r saves (speaks hash now) v e = ground arith
handle-IsSaved to_lower r saves (commands hash now) v e = ground arith
handle-IsSaved to_lower r saves (announces hash t) v e = ground arith
handle-IsSaved to_lower r saves (sweeps now idle silent) v e = ground arith
handle-IsSaved to_lower r saves (kicked text) v e = ground arith
handle-IsSaved to_lower r saves (banned text) v e = ground arith
handle-IsSaved to_lower r saves (unbanned text) v e = ground arith
