-- ===== src/History.antt =====
-- internal/history/log.go: the log of the last messages. A store is a parameter: what the file
-- decodes to when the service starts, and whether a write of it succeeds.
pub mod Recent
mod Examples
use reticulum_forwarding_ser.Base.{
  ℕ, zero, suc, ◌-◌, Bool, [], ◌∷◌, ◌++◌, ltb, if◌then◌else◌, length, drop, List, Option, none,
  some,
}
use reticulum_forwarding_ser.Base.Bytes.{Bytes}

-- `at` is Go's time on a scale whose zero time is 0.
pub record Entry : Type 0 where
  pub at : ℕ
  pub sender_hash : Bytes
  pub sender_nick : Bytes
  pub content : Bytes

pub record Log : Type 0 where
  pub capacity : ℕ
  pub entries : List Entry

-- What os.ReadFile and json.Unmarshal make of the file.
pub data Stored : Type 0 where
  no_file empty_file unreadable undecodable : Stored
  messages : List Entry → Stored

-- `xs[len(xs)-n:]` where it is longer than n
pub keep_last {ℓ} : {A : Type ℓ} → ℕ → List A → List A
keep_last n xs = if ltb n (length xs) then drop (length xs - n) xs else xs

-- load, on a log without entries; `none` is its error.
pub load : Stored → Log → Option Log
load no_file l = some l
load empty_file l = some l
load unreadable l = none
load undecodable l = none
load (messages ms) l = some (record l { entries = keep_last l.capacity ms })

-- New; the capacity is a number, which covers the negative ones with 0.
pub new_log : Stored → ℕ → Option Log
new_log file capacity =
    load file (record { capacity = (if ltb capacity 1 then 1 else capacity); entries = [] })

-- Append: the log, and whether the file was written.
pub append : Bool → Entry → Log → Log × Bool
append saved e l = (record l { entries = keep_last l.capacity (l.entries ++ (e ∷ [])) }, saved)

pub filter_since : ℕ → List Entry → List Entry
filter_since cutoff [] = []
filter_since cutoff (e ∷ es) =
    let rest = filter_since cutoff es in if ltb e.at cutoff then rest else e ∷ rest

-- SinceOldest; the zero time is no filter.
pub since_oldest : ℕ → Log → List Entry
since_oldest zero l = l.entries
since_oldest (suc t) l = filter_since (suc t) l.entries

pub log_len : Log → ℕ
log_len l = length l.entries
