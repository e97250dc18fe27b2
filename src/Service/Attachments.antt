-- ===== src/Service/Attachments.antt =====
-- internal/service/attachments.go: which fields of a message are forwarded. `size_of` is the
-- length of what msgpack makes of a value, `none` where it fails; the configured field numbers are
-- not negative.
use reticulum_forwarding_ser.Base.{
  ℕ, Bool, not, ◌&&◌, [], ◌∷◌, ◌++◌, ◌==◌, ltb, if◌then◌else◌, List, Option, none, some,
}
use reticulum_forwarding_ser.Base.Bytes.{Bytes}
use reticulum_forwarding_ser.Base.Text.{codes}
use reticulum_forwarding_ser.Service.Fields.{Key, Value, Dict, empty, entry, key_is}

-- `kilobytes` is %.1f of the size in KB.
pub record Policy : Type 0 where
  pub forward_attachments : Bool
  pub forwarded_fields : List ℕ
  pub max_attachment_bytes : ℕ
  pub atoi : Bytes → Option ℕ
  pub size_of : Value → Option ℕ
  pub decimal : ℕ → Bytes
  pub kilobytes : ℕ → Bytes

module _ (p : Policy) where
  pub human_bytes : ℕ → Bytes
  human_bytes n = if ltb n 1024 then p.decimal n ++ codes " B" else p.kilobytes n ++ codes " KB"

  pub field_label : ℕ → Bytes
  field_label key =
      if key == 5
      then codes "file"
      else if key == 6
      then codes "image"
      else if key == 7
      then codes "audio"
      else if key == 48
      then codes "reply-to"
      else if key == 49
      then codes "reply text"
      else if key == 64
      then codes "reaction"
      else if key == 65
      then codes "comment"
      else if key == 66
      then codes "continuation"
      else codes "field " ++ p.decimal key

  -- The number of a key that is in the list of forwarded fields.
  pub forwarded_number : List ℕ → Key → Option ℕ
  forwarded_number [] k = none
  forwarded_number (n ∷ ns) k = if key_is p.atoi n k then some n else forwarded_number ns k

  abbrev is_oversized : ℕ → Bool
  is_oversized size = ltb 0 p.max_attachment_bytes && ltb p.max_attachment_bytes size

  pub drop_note : ℕ → ℕ → Bytes
  drop_note key size =
      codes "["
      ++ (field_label key
          ++ (codes " not forwarded: "
              ++ (human_bytes size
                  ++ (codes " > " ++ (human_bytes p.max_attachment_bytes ++ codes " limit]")))))

  -- The loop.
  unfoldable pub filter_loop : Dict → Dict × List Bytes
  filter_loop empty = (empty, [])
  filter_loop (entry k v d) =
      let (out, drops) = filter_loop d in
      elim (forwarded_number p.forwarded_fields k) [
        | none ↦ (out, drops)
        | some key ↦ elim (p.size_of v) [
          | none ↦ (out, drops)
          | some size ↦
              if is_oversized size
              then (out, drop_note key size ∷ drops)
              else (entry k v out, drops)
        ]
      ]

  unfoldable pub filter_attachments : Dict → Dict × List Bytes
  filter_attachments fields = if not p.forward_attachments then (empty, []) else filter_loop fields
