-- ===== src/Service/Replay.antt =====
-- internal/service/replay.go: what a member who has joined is sent of the log.
use reticulum_forwarding_ser.Base.{ℕ, ◌-◌, ◌*◌, ◌/◌, [], ◌∷◌, ◌++◌, ltb, if◌then◌else◌, List}
use reticulum_forwarding_ser.Base.Bytes.{Bytes}
use reticulum_forwarding_ser.Base.Text.{codes}
use reticulum_forwarding_ser.History.{Entry, Log, since_oldest}
use reticulum_forwarding_ser.Service.Sanitize.{sanitize_forward}

abbrev second : ℕ
second = 1000000000

-- humanizeAge of nanoseconds, for an age that is not negative; `decimal` is %d.
pub humanize_age : (ℕ → Bytes) → ℕ → Bytes
humanize_age decimal d =
    if ltb d (60 * second)
    then decimal (d / second) ++ codes "s"
    else if ltb d (3600 * second)
    then decimal (d / (60 * second)) ++ codes "m"
    else if ltb d (24 * (3600 * second))
    then decimal (d / (3600 * second)) ++ codes "h"
    else decimal (d / (24 * (3600 * second))) ++ codes "d"

pub replay_body : (ℕ → Bytes) → ℕ → Entry → Bytes
replay_body decimal now e =
    codes "[replay "
    ++ (humanize_age decimal (now - e.at)
        ++ (codes "] [" ++ (e.sender_nick ++ (codes "] " ++ sanitize_forward e.content))))

pub replay_bodies : (ℕ → Bytes) → ℕ → List Entry → List Bytes
replay_bodies decimal now [] = []
replay_bodies decimal now (e ∷ es) = replay_body decimal now e ∷ replay_bodies decimal now es

-- replayHistoryTo: the bodies that are queued for the member, in their order. A cutoff of 0 is
-- none, so that a time before the maximal age, which no clock shows, has none either.
pub replay_history_to : (ℕ → Bytes) → ℕ → ℕ → Log → List Bytes
replay_history_to decimal max_age now log =
    let cutoff = if ltb 0 max_age then now - max_age else 0 in
    replay_bodies decimal now (since_oldest cutoff log)
