-- ===== src/Rns/Dispatch/Capacity.antt =====
-- How many transfers a peer can open.
use reticulum_forwarding_ser.Base.{
  ℕ, suc, ◌≤◌, ◌≡◌, refl, inl, inr, Bool, true, false, not, List, [], ◌∷◌, ◌==◌, if◌then◌else◌,
  Option, none, Option-cases, ok, Result-cases, All, arith,
}
use reticulum_forwarding_ser.Base.Bytes.{Bytes, IsByte, beq_iff, has_prefix, hex_encode}
use reticulum_forwarding_ser.Base.Assoc.{lookup, insert, All-lookup}
use reticulum_forwarding_ser.Rns.Packet.{Packet}
use reticulum_forwarding_ser.Rns.Token.{link_token_decrypt}
use reticulum_forwarding_ser.Rns.LinkState.{LinkManager, get}
use reticulum_forwarding_ser.Rns.LinkState.Links.{Link, in_active_state}
use reticulum_forwarding_ser.Rns.LinkState.Transfers.{
  link_prefix, resource_key, count_prefixed, register_resource_receiver, count_receivers_for_link,
}
use reticulum_forwarding_ser.Rns.Resource.Receiver.{open_receiver}
use reticulum_forwarding_ser.Rns.LinkState.Closing.{has_prefix-resource_key}
use reticulum_forwarding_ser.Rns.Resource.Advert.{ResourceAdvertisement, parse_resource_adv}
use reticulum_forwarding_ser.Rns.Dispatch.Calls.{
  Setup, Post, transfer_fields, max_concurrent_inbound, context_resource_adv, context_resource_req,
  context_resource_hmu, context_resource_icl, context_resource_rcl,
}
use reticulum_forwarding_ser.Rns.Dispatch.{
  open_resource_receiver, handle_resource_adv, route, handle_resource_control,
}

count-insert :
    {V : Type 0} (p k : Bytes) (v : V) (m : List (Bytes × V))
    → lookup k m ≡ none
    → count_prefixed p (insert k v m)
      ≡ (if has_prefix k p then suc (count_prefixed p m) else count_prefixed p m)
unfolding count_prefixed insert lookup
count-insert p k v [] absent = ground arith
count-insert p k v ((j, w) ∷ m) absent = ground (arith, beq_iff j k, count-insert p k v m)

module _ {S R : Type 0} (t : Setup S R) where
  -- No link has more receivers than the cap, and the links and the senders are those of before.
  pub record Bounded (lm : LinkManager S R) (result : List (Post S R) × LinkManager S R)
      : Type 0 where
    pub same_links : result.1.links ≡ lm.links
    pub same_senders : result.1.senders ≡ lm.senders
    pub within :
        (b : Bytes)
        → All IsByte b
        → count_receivers_for_link b lm ≤ max_concurrent_inbound
        → count_receivers_for_link b result.1 ≤ max_concurrent_inbound

  refl-Bounded : (lm : LinkManager S R) (ps : List (Post S R)) → Bounded lm (ps, lm)
  refl-Bounded lm ps = record { same_links = refl; same_senders = refl; within = λ b hb h. h }

  if-Bounded :
      (lm : LinkManager S R) (b : Bool) (x y : List (Post S R) × LinkManager S R)
      → Bounded lm x
      → Bounded lm y
      → Bounded lm (if b then x else y)
  if-Bounded lm true x y hx hy = hx
  if-Bounded lm false x y hx hy = hy

  open-Bounded :
      (l : Link) (adv : ResourceAdvertisement) (lm lm' : LinkManager S R) (rr : R)
      (ps : List (Post S R))
      → All IsByte l.id
      → open_resource_receiver t l adv lm ≡ ok (rr, lm')
      → Bounded lm (ps, lm')
  unfolding open_resource_receiver register_resource_receiver count_receivers_for_link
  open-Bounded l adv lm lm' rr ps hl opened =
      let key = resource_key l.id adv.hash in
      let v = t.fresh (open_receiver l.signing l.encryption (transfer_fields adv)) in
      elim (Option-cases (lookup key lm.receivers)) [
        | inr (w, q) ↦ absurd (ground (arith, q, opened))
        | inl q ↦
            (let same : lm' ≡ record lm { receivers = insert key v lm.receivers } =
                ground (arith, q, opened) in
              let low : count_prefixed (link_prefix l.id) lm.receivers ≤ 3 =
                ground (arith, q, opened) in
              rw same (record {
                same_links = refl;
                same_senders = refl;
                within = λ b hb h. ground (
                  arith,
                  low,
                  h,
                  count-insert (link_prefix b) key v lm.receivers q,
                  has_prefix-resource_key l.id b adv.hash hl hb,
                  beq_iff l.id b,
                );
              }))
      ]

  adv-Bounded :
      (entropy : Option Bytes) (l : Link) (m : Bytes) (lm : LinkManager S R)
      → All IsByte l.id
      → Bounded lm (handle_resource_adv t entropy l m lm)
  unfolding handle_resource_adv
  adv-Bounded entropy l m lm hl = elim (Result-cases (parse_resource_adv t.decode_adv m)) [
    | inr (e, q) ↦ rw (handle_resource_adv, q) (refl-Bounded lm _)
    | inl (adv, q) ↦ elim (Result-cases (open_resource_receiver t l adv lm)) [
      | inr (e, o) ↦ rw (handle_resource_adv, q, o) (refl-Bounded lm _)
      | inl ((rr, lm'), o) ↦ rw (handle_resource_adv, q, o) (open-Bounded l adv lm lm' rr _ hl o)
    ]
  ]

  route-Bounded :
      (entropy : Option Bytes) (context : ℕ) (l : Link) (m : Bytes) (lm : LinkManager S R)
      → All IsByte l.id
      → Bounded lm (route t entropy context l m lm)
  unfolding route
  route-Bounded entropy context l m lm hl =
      if-Bounded lm (context == context_resource_adv) _ _ (adv-Bounded entropy l m lm hl) (
        if-Bounded lm (context == context_resource_req) _ _ (refl-Bounded lm _) (
          if-Bounded lm (context == context_resource_hmu) _ _ (refl-Bounded lm _) (
            if-Bounded lm (context == context_resource_icl) _ _ (refl-Bounded lm _) (
              if-Bounded lm (context == context_resource_rcl) _ _ (refl-Bounded lm _)
                (refl-Bounded lm [])))))

  -- Whatever resource control packet arrives, where the ids of the links are bytes: a link that has
  -- no more receivers than the cap of four has no more after it, and the links and the senders stay
  -- as they are.
  pub handle_resource_control-Bounded :
      (entropy : Option Bytes) (p : Packet) (lm : LinkManager S R)
      → All (λ (k, l). All IsByte l.id) lm.links
      → Bounded lm (handle_resource_control t entropy p lm)
  unfolding handle_resource_control get
  handle_resource_control-Bounded entropy p lm ids = elim (Option-cases (get p.dest_hash lm)) [
    | inl e ↦ rw (handle_resource_control, e) (refl-Bounded lm _)
    | inr (l, e) ↦
        rw (handle_resource_control, e)
          (if-Bounded lm (not (in_active_state l.state)) _ _ (refl-Bounded lm _)
            (elim (Result-cases (link_token_decrypt t.crypto p.payload l.signing l.encryption)) [
              | inr (x, q) ↦ rw q (refl-Bounded lm _)
              | inl (m, q) ↦ rw q (
                  route-Bounded entropy p.context l m lm (
                    All-lookup (λ (k, l). All IsByte l.id) (hex_encode p.dest_hash) lm.links e ids))
            ]))
  ]
