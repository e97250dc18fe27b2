-- ===== src/Commands.antt =====
-- internal/commands: the slash commands of the chat. Replies are texts; where a text goes on with
-- an error of another part, the reply names the error. `Environment` is what the dispatcher is
-- given: the configuration, the functions of Go's library and of the service that it calls, and
-- how the calls of one command turn out.
pub mod Parser
pub mod Nicknames
pub mod Lists
pub mod Callers
pub mod Handlers
pub mod Moderation
pub mod Dispatch
pub mod Examples
use reticulum_forwarding_ser.Base.{ℕ, Bool, [], List, Option, none, some}
use reticulum_forwarding_ser.Base.Bytes.{Bytes}
use reticulum_forwarding_ser.Roster.{User, Roster, Error}
use reticulum_forwarding_ser.Roster.Finding.{ResolveError}

pub data Role : Type 0 where
  user moderator admin : Role

-- `age` is the time since LastSeen.
pub record PathInfo : Type 0 where
  pub known : Bool
  pub age : ℕ
  pub hops : ℕ
  pub next_hop_hex : Bytes
  pub link_active : Bool

-- `decimal` is %d, `quoted` %q and `duration` %s of a duration in seconds; `runes` are those that
-- a `range` over a text meets; `sort_strings` and `sort_slice` are sort.Strings and sort.Slice. `saves` and
-- `saves_next` say whether the first and the second write of the roster's store succeed. A hook
-- that is not set is `none`, and `announce` else says whether it succeeds.
pub record Environment : Type 0 where
  pub to_lower : Bytes → Bytes
  pub trim_space : Bytes → Bytes
  pub fields : Bytes → List Bytes
  pub decimal : ℕ → Bytes
  pub duration : ℕ → Bytes
  pub quoted : Bytes → Bytes
  pub runes : Bytes → List ℕ
  pub sort_strings : List Bytes → List Bytes
  pub sort_slice : (Bytes × User → Bytes × User → Bool) → List (Bytes × User) → List (Bytes × User)
  pub version : Bytes
  pub repo_url : Bytes
  pub admins : List Bytes
  pub mods : List Bytes
  pub max_members : ℕ
  pub announce : Option Bool
  pub path_lookup : Option (Bytes → PathInfo)
  pub on_join : Bool
  pub lookup_announced_name : Option (Bytes → Bytes)
  pub max_reply_content_bytes : ℕ
  pub saves : Bool
  pub saves_next : Bool
  pub now : ℕ

pub data Reply : Type 0 where
  text : Bytes → Reply
  failed : Bytes → Error → Reply
  unresolved : ResolveError → Reply
  announce_failed : Reply

-- The hooks that are called.
pub data Call : Type 0 where
  announces : Call
  joined : Bytes → Call

pub record Outcome : Type 0 where
  pub roster : Roster
  pub calls : List Call
  pub reply : Reply

-- A reply that leaves the roster alone.
abbrev pub say : Roster → Bytes → Outcome
say r t = record { roster = r; calls = []; reply = text t }

abbrev pub or_failed : Bytes → Option Error → Outcome → Outcome
or_failed prefix none o = o
or_failed prefix (some e) o = record o { calls = []; reply = failed prefix e }
