-- ===== src/Rns/LinkState/Transfers.antt =====
-- internal/rns/link_state.go: the index of a manager's resource transfers, and the closing of a
-- link, which ends its transfers.
use reticulum_forwarding_ser.Base.{
  ◌>>=◌, ℕ, ◌+◌, [], ◌∷◌, ◌++◌, if◌then◌else◌, List, Option, none, some, Result, ok, err,
}
use reticulum_forwarding_ser.Base.Bytes.{Bytes, has_prefix, hex_encode}
use reticulum_forwarding_ser.Base.Assoc.{lookup, insert, delete}
use reticulum_forwarding_ser.Rns.LinkState.{LinkManager}
use reticulum_forwarding_ser.Rns.LinkState.Links.{
  Link, closed, Error, nil_transfer, duplicate_transfer,
}

-- The keys of a link's transfers begin with its hex id and a colon.
unfoldable pub link_prefix : Bytes → Bytes
link_prefix link = hex_encode link ++ (58 ∷ [])

unfoldable pub resource_key : Bytes → Bytes → Bytes
resource_key link hash = hex_encode link ++ (58 ∷ hex_encode hash)

module _ {V : Type 0} where
  abbrev pub register : Bytes → Option V → List (Bytes × V) → Result Error (List (Bytes × V))
  register key none m = err nil_transfer
  register key (some v) m = elim (lookup key m) [
    | some w ↦ err duplicate_transfer
    | none ↦ ok (insert key v m)
  ]

  unfoldable pub count_prefixed : Bytes → List (Bytes × V) → ℕ
  count_prefixed prefix [] = 0
  count_prefixed prefix ((k, v) ∷ m) =
      let rest = count_prefixed prefix m in if has_prefix k prefix then 1 + rest else rest

  -- The entries whose keys have the prefix, and the map without them.
  unfoldable pub taken : Bytes → List (Bytes × V) → List V
  taken prefix [] = []
  taken prefix ((k, v) ∷ m) =
      let rest = taken prefix m in if has_prefix k prefix then v ∷ rest else rest

  unfoldable pub left : Bytes → List (Bytes × V) → List (Bytes × V)
  left prefix [] = []
  left prefix ((k, v) ∷ m) =
      let rest = left prefix m in if has_prefix k prefix then rest else (k, v) ∷ rest

module _ {S R : Type 0} where
  unfoldable pub register_resource_sender :
      Bytes → Bytes → Option S → LinkManager S R → Result Error (LinkManager S R)
  register_resource_sender link hash rs lm = do
    senders ← register (resource_key link hash) rs lm.senders
    ok (record lm { senders = senders })

  unfoldable pub register_resource_receiver :
      Bytes → Bytes → Option R → LinkManager S R → Result Error (LinkManager S R)
  register_resource_receiver link hash rr lm = do
    receivers ← register (resource_key link hash) rr lm.receivers
    ok (record lm { receivers = receivers })

  unfoldable pub unregister_resource : Bytes → Bytes → LinkManager S R → LinkManager S R
  unregister_resource link hash lm =
      let key = resource_key link hash in
      record lm { senders = delete key lm.senders; receivers = delete key lm.receivers }

  unfoldable pub lookup_resource_sender : Bytes → Bytes → LinkManager S R → Option S
  lookup_resource_sender link hash lm = lookup (resource_key link hash) lm.senders

  unfoldable pub lookup_resource_receiver : Bytes → Bytes → LinkManager S R → Option R
  lookup_resource_receiver link hash lm = lookup (resource_key link hash) lm.receivers

  unfoldable pub count_receivers_for_link : Bytes → LinkManager S R → ℕ
  count_receivers_for_link link lm = count_prefixed (link_prefix link) lm.receivers

  -- The senders and the receivers that are cancelled, and the manager without them.
  unfoldable pub close_resources_for_link :
      Bytes → LinkManager S R → (List S × List R) × LinkManager S R
  close_resources_for_link link lm =
      let prefix = link_prefix link in
      (
        (taken prefix lm.senders, taken prefix lm.receivers),
        record lm { senders = left prefix lm.senders; receivers = left prefix lm.receivers },
      )

  -- The link as its holders now see it, if there is one, the transfers that are cancelled, and the
  -- manager.
  unfoldable pub close_link :
      Bytes → LinkManager S R → Option Link × (List S × List R) × LinkManager S R
  close_link link lm =
      let key = hex_encode link in
      elim (lookup key lm.links) [
        | none ↦ (let (cancelled, lm') = close_resources_for_link link lm in (none, cancelled, lm'))
        | some l ↦
            (let (cancelled, lm') =
                close_resources_for_link link (record lm { links = delete key lm.links }) in
              (some (record l { state = closed; signing = []; encryption = [] }), cancelled, lm'))
      ]
