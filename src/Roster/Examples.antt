-- ===== src/Roster/Examples.antt =====
-- A roster of two members: one is on the air only, the other has just spoken.
use reticulum_forwarding_ser.Base.{some, ◌≡◌, ◌⊎◌, refl, true, false, [], ◌∷◌, none, replicate}
use reticulum_forwarding_ser.Base.Bytes.{Bytes, ◌=ᵇ◌, hex_encode, hex_digit}
use reticulum_forwarding_ser.Base.Assoc.{lookup}
use reticulum_forwarding_ser.Roster.{
  User, role_none, Roster, normalize_hash, persist, add_or_update_at, add_or_update, touch, prune,
}
use reticulum_forwarding_ser.Roster.Keys.{IsMap}
use reticulum_forwarding_ser.Roster.Saving.{IsSaved, joins, handle, handle-IsSaved}
use reticulum_forwarding_ser.Roster.Pruning.{
  IsIdle, IsSilent, spoke, last_spoke-touch, lookup-prune,
}

abbrev lurker : User
lurker = record {
  nickname = [];
  joined_at = 10;
  last_announce_at = 990;
  last_message_at = 10;
  last_command_at = 0;
  paused = false;
  text_only = false;
  role = role_none;
}

abbrev speaker : User
speaker = record lurker { last_message_at = 980 }

abbrev hash : Bytes
hash = replicate 16 0

abbrev key : Bytes
key = replicate 32 48

abbrev other_key : Bytes
other_key = replicate 32 49

abbrev roster : Roster
roster = record {
  users = (key, lurker) ∷ (other_key, speaker) ∷ [];
  banlist = [];
  has_store = true;
  saved = ([], []);
}

roster-IsMap : IsMap roster.users
unfolding IsMap lookup ◌=ᵇ◌
roster-IsMap = (refl, (refl, tt))

lookup-prune_example :
    (lookup key roster.users ≡ none → lookup key (prune roster true 1000 300 500).0.users ≡ none)
    × ((u : User)
        → lookup key roster.users ≡ some u
        → (IsIdle 1000 300 u ⊎ IsSilent 1000 500 u
            → lookup key (prune roster true 1000 300 500).0.users ≡ none)
          × (¬ (IsIdle 1000 300 u ⊎ IsSilent 1000 500 u)
              → lookup key (prune roster true 1000 300 500).0.users ≡ some u))
lookup-prune_example = lookup-prune roster true 1000 300 500 key roster-IsMap

last_spoke-touch_example :
    spoke (lookup key (touch roster true hash 999).0.users) ≡ spoke (lookup key roster.users)
last_spoke-touch_example = last_spoke-touch roster true hash 999 key

abbrev same_text : Bytes → Bytes
same_text t = t

abbrev stored : Roster
stored = record roster { saved = (roster.users, roster.banlist) }

stored-IsSaved : IsSaved stored
unfolding IsSaved
stored-IsSaved h = refl

written : (handle same_text stored true (joins hash 1000)).1 ≡ none
unfolding handle add_or_update add_or_update_at normalize_hash persist lookup ◌=ᵇ◌ hex_encode
    hex_digit
written = refl

handle-IsSaved_example : IsSaved (handle same_text stored true (joins hash 1000)).0
handle-IsSaved_example =
    handle-IsSaved same_text stored true (joins hash 1000) stored-IsSaved written
