-- ===== src/History/Examples.antt =====
-- A log of two that gets a third message, whose file cannot be written.
use reticulum_forwarding_ser.Base.{ℕ, ◌≤◌, ◌≡◌, refl, Bool, false, [], ◌∷◌, ◌++◌, List, some}
use reticulum_forwarding_ser.History.{Entry, Log, messages, new_log, load, keep_last, log_len}
use reticulum_forwarding_ser.History.Recent.{
  append_all, given, stored_messages, last, append_all-last,
}

abbrev message : ℕ → Entry
message t = record { at = t; sender_hash = 97 ∷ []; sender_nick = 65 ∷ []; content = 104 ∷ [] }

abbrev opened : Log
opened = record { capacity = 2; entries = message 1 ∷ message 2 ∷ [] }

abbrev third : List (Bool × Entry)
third = (false, message 3) ∷ []

opens : new_log (messages (message 1 ∷ message 2 ∷ [])) 2 ≡ some opened
unfolding new_log load keep_last
opens = refl

append_all-last_example :
    ((append_all third opened).entries
      ≡ last 2 (stored_messages (messages (message 1 ∷ message 2 ∷ [])) ++ given third))
    × (log_len (append_all third opened) ≤ 2)
    × (1 ≤ opened.capacity)
    × (1 ≤ 2 → opened.capacity ≡ 2)
append_all-last_example =
    append_all-last (messages (message 1 ∷ message 2 ∷ [])) 2 opened third opens
