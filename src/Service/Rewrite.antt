-- ===== src/Service/Rewrite.antt =====
-- internal/service/rewrite.go: the references of a forwarded message are rewritten to what each
-- recipient calls the message that they name.
pub mod Binding
use reticulum_forwarding_ser.Base.{
  ℕ, Bool, true, false, not, ◌&&◌, [], ◌∷◌, ◌++◌, ◌==◌, if◌then◌else◌, length, List, Option, none,
  some,
}
use reticulum_forwarding_ser.Base.Bytes.{Bytes, hex_encode}
use reticulum_forwarding_ser.Idmap.{Bubble, Cache, view_for, lookup_bubble}
use reticulum_forwarding_ser.Service.Fields.{
  Key, Value, bytes, string, dict, other, Dict, empty, entry, assign, key_is, field_reply_to,
  field_reaction, field_comment, field_continuation, target_idx, hex_decode, as_hash_bytes,
  extract_dict_target,
}

-- The targets that the closure rewrites: the dict fields with their bubbles, and the reply's.
pub record Targets : Type 0 where
  pub dicts : List (ℕ × ℕ)
  pub reply : Option ℕ

-- The bytes of a recipient's view: ViewFor and hex.DecodeString.
pub raw_view : Bubble → Bytes → Option Bytes
raw_view b recipient_hex = elim (view_for recipient_hex b) [ none ↦ none | some v ↦ hex_decode v ]

module _ (atoi : Bytes → Option ℕ) where
  pub target_key : Dict → Option Key
  target_key empty = none
  target_key (entry k v d) = if key_is atoi target_idx k then some k else target_key d

  -- `entry k v` in front of what the loop makes of the rest.
  abbrev pub keep_entry : Key → Value → Option Dict → Option Dict
  keep_entry k v none = none
  keep_entry k v (some d) = some (entry k v d)

  -- substituteDictTarget for the field `key`; `none` is its false.
  pub substitute_dict_target : ℕ → Option Bytes → Dict → Option Dict
  substitute_dict_target key raw empty = some empty
  substitute_dict_target key raw (entry k (dict m) d) =
      let rest = keep_entry k (dict m) (substitute_dict_target key raw d) in
      if not (key_is atoi key k) then rest else elim (target_key m) [
        | none ↦ rest
        | some t ↦ elim raw [
          | none ↦ none
          | some r ↦ some (entry k (dict (assign t (bytes r) m)) d)
        ]
      ]
  substitute_dict_target key raw (entry k (bytes b) d) =
      keep_entry k (bytes b) (substitute_dict_target key raw d)
  substitute_dict_target key raw (entry k (string s) d) =
      keep_entry k (string s) (substitute_dict_target key raw d)
  substitute_dict_target key raw (entry k (other n) d) =
      keep_entry k (other n) (substitute_dict_target key raw d)

  -- substituteReplyHash; `none` is its false, which leaves the fields as they are.
  pub substitute_reply_hash : Option Bytes → Dict → Option Dict
  substitute_reply_hash raw empty = some empty
  substitute_reply_hash raw (entry k v d) =
      let rest = keep_entry k v (substitute_reply_hash raw d) in
      if not (key_is atoi field_reply_to k) then rest else elim (as_hash_bytes v) [
        | none ↦ rest
        | some h ↦ elim raw [ none ↦ none | some r ↦ some (entry k (bytes r) d) ]
      ]

  pub strip_reply_hash : Dict → Dict
  strip_reply_hash empty = empty
  strip_reply_hash (entry k v d) =
      let rest = strip_reply_hash d in if key_is atoi field_reply_to k then rest else entry k v rest

  -- The dict field that a key names.
  pub dict_field : Key → Option ℕ
  dict_field k =
      if key_is atoi field_reaction k
      then some field_reaction
      else if key_is atoi field_comment k
      then some field_comment
      else if key_is atoi field_continuation k
      then some field_continuation
      else none

  -- The scan of buildRewrite; a lookup touches the cache.
  unfoldable pub scan_targets : ℕ → Dict → Targets → Cache → Targets × Cache
  scan_targets now empty t c = (t, c)
  scan_targets now (entry k v d) t c = elim (dict_field k) [
    | some f ↦
        if length (extract_dict_target atoi v) == 0
        then scan_targets now d t c
        else (let (found, c') = lookup_bubble now (extract_dict_target atoi v) c in
            elim found [
              | none ↦ scan_targets now d t c'
              | some b ↦ scan_targets now d (record t { dicts = t.dicts ++ ((f, b) ∷ []) }) c'
            ])
    | none ↦
        if not (key_is atoi field_reply_to k)
        then scan_targets now d t c
        else elim (as_hash_bytes v) [
          | none ↦ scan_targets now d t c
          | some h ↦
              (let (found, c') = lookup_bubble now (hex_encode h) c in
                elim found [
                  | none ↦ scan_targets now d t c'
                  | some b ↦ scan_targets now d (record t { reply = some b }) c'
                ])
        ]
  ]

  abbrev pub nothing_found : Targets → Bool
  nothing_found t = length t.dicts == 0 && elim t.reply [ none ↦ true | some b ↦ false ]

  -- buildRewrite: the targets, or `none` for no closure.
  unfoldable pub build_rewrite : ℕ → Dict → Cache → Option Targets × Cache
  build_rewrite now fields c =
      let (t, c') = scan_targets now fields (record { dicts = []; reply = none }) c in
      (if nothing_found t then none else some t, c')

  pub rewrite_dicts : (ℕ → Bubble) → Bytes → List (ℕ × ℕ) → Dict → Option Dict
  rewrite_dicts heap recipient_hex [] d = some d
  rewrite_dicts heap recipient_hex ((f, b) ∷ ts) d =
      elim (substitute_dict_target f (raw_view (heap b) recipient_hex) d) [
        | none ↦ none
        | some d' ↦ rewrite_dicts heap recipient_hex ts d'
      ]

  -- The closure: `none` skips the recipient.
  pub rewrite_for : (ℕ → Bubble) → Targets → Bytes → Dict → Option Dict
  rewrite_for heap t recipient_hex fields = elim (rewrite_dicts heap recipient_hex t.dicts fields) [
    | none ↦ none
    | some d ↦ elim t.reply [
      | none ↦ some d
      | some b ↦ elim (substitute_reply_hash (raw_view (heap b) recipient_hex) d) [
        | none ↦ some (strip_reply_hash d)
        | some d' ↦ some d'
      ]
    ]
  ]
