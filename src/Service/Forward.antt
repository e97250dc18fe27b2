-- ===== src/Service/Forward.antt =====
-- internal/service/forward.go: the fan-out of a message. The result lists the calls of
-- EnqueueBubble in their order; their number is the count that the code returns.
use reticulum_forwarding_ser.Base.{
  ◌≤◌, ◌≡◌, ◌≢◌, ◌⊎◌, refl, ap, ◌∙◌, Bool, true, false, not, ◌||◌, [], ◌∷◌, ◌==◌, if◌then◌else◌,
  length, List, All, Option, none, some, Bool-cases, Option-cases, inl, inr, arith,
}
use reticulum_forwarding_ser.Base.Bytes.{Bytes, ◌=ᵇ◌, beq_iff, beq_refl}
use reticulum_forwarding_ser.Service.Fields.{Dict, empty, hex_decode}

-- One call of EnqueueBubble, and the roster hash that it is for.
pub record Delivery : Type 0 where
  pub to : Bytes
  pub recipient : Bytes
  pub body : Bytes
  pub fields : Dict

-- `opts.rewrite`, which is nil or a closure.
abbrev pub rewritten : Option (Bytes → Dict → Option Dict) → Bytes → Dict → Option Dict
rewritten none h fields = some fields
rewritten (some rw_fields) h fields = rw_fields h fields

length-zero : (b : Bytes) → length b ≡ 0 → b ≡ []
length-zero [] h = refl
length-zero (x ∷ b) h = absurd (omega (arith, h))

pub in_hashes : Bytes → List Bytes → Bool
in_hashes h [] = false
in_hashes h (x ∷ xs) = x =ᵇ h || in_hashes h xs

pub has_delivery : Bytes → List Delivery → Bool
has_delivery h [] = false
has_delivery h (d ∷ ds) = d.to =ᵇ h || has_delivery h ds

widen :
    (x : Bytes) (active hs : List Bytes)
    → All (λ h. in_hashes h active ≡ true) hs
    → All (λ h. in_hashes h (x ∷ active) ≡ true) hs
unfolding in_hashes
widen x active [] a = tt
widen x active (h ∷ hs) (m, a) = (ground (arith, m), widen x active hs a)

every_member : (hs : List Bytes) → All (λ h. in_hashes h hs ≡ true) hs
unfolding in_hashes
every_member [] = tt
every_member (h ∷ hs) = (ground (arith, beq_refl h), widen h hs hs (every_member hs))

module _ (text_only : Bytes → Bool) (rewrite : Option (Bytes → Dict → Option Dict))
    (sender_hex body : Bytes) (fields : Dict) where
  -- What one roster hash gets.
  unfoldable pub delivery_for : Bytes → Option Delivery
  delivery_for h = if h =ᵇ sender_hex then none else elim (hex_decode h) [
    | none ↦ none
    | some raw ↦ if not (length raw == 16) then none else elim (rewritten rewrite h fields) [
      | none ↦ none
      | some own ↦
          if not (text_only h)
          then some (record { to = h; recipient = raw; body = body; fields = own })
          else if length body == 0
          then none
          else some (record { to = h; recipient = raw; body = body; fields = empty })
    ]
  ]

  -- The loop over the active hashes.
  unfoldable pub forward_to_roster : List Bytes → List Delivery
  forward_to_roster [] = []
  forward_to_roster (h ∷ hs) =
      let rest = forward_to_roster hs in elim (delivery_for h) [ none ↦ rest | some d ↦ d ∷ rest ]

  -- What a delivery may be.
  pub record IsAllowed (active : List Bytes) (d : Delivery) : Type 0 where
    pub member : in_hashes d.to active ≡ true
    pub not_sender : d.to ≢ sender_hex
    pub decoded : hex_decode d.to ≡ some d.recipient
    pub recipient_16 : length d.recipient ≡ 16
    pub same_body : d.body ≡ body
    pub plain : text_only d.to ≡ true → (d.fields ≡ empty) × (body ≢ [])
    pub own : text_only d.to ≡ false → rewritten rewrite d.to fields ≡ some d.fields

  delivery-cases :
      (active : List Bytes) (h : Bytes)
      → in_hashes h active ≡ true
      → (delivery_for h ≡ none) ⊎ ((d : Delivery) × (delivery_for h ≡ some d) × IsAllowed active d)
  unfolding delivery_for
  delivery-cases active h a = elim (Bool-cases (h =ᵇ sender_hex)) [
    | inl s ↦ inl (rw (delivery_for, s) refl)
    | inr s ↦ elim (Option-cases (hex_decode h)) [
      | inl r ↦ inl (rw (delivery_for, s, r) refl)
      | inr (raw, r) ↦ elim (Bool-cases (length raw == 16)) [
        | inr l ↦ inl (rw (delivery_for, s, r, l) refl)
        | inl l ↦ elim (Option-cases (rewritten rewrite h fields)) [
          | inl w ↦ inl (rw (delivery_for, s, r, l, w) refl)
          | inr (f, w) ↦ elim (Bool-cases (text_only h)) [
            | inr t ↦ inr (
              record { to = h; recipient = raw; body = body; fields = f },
              rw (delivery_for, s, r, l, w, t) refl,
              record {
                member = a;
                not_sender = λ e. absurd (ground (arith, s, beq_iff h sender_hex, e));
                decoded = r;
                recipient_16 = ground (arith, l);
                same_body = refl;
                plain = λ u. absurd (ground (arith, t, u));
                own = λ u. w;
              },
            )
            | inl t ↦ elim (Bool-cases (length body == 0)) [
              | inl b ↦ inl (rw (delivery_for, s, r, l, w, t, b) refl)
              | inr b ↦ inr (
                record { to = h; recipient = raw; body = body; fields = empty },
                rw (delivery_for, s, r, l, w, t, b) refl,
                record {
                  member = a;
                  not_sender = λ e. absurd (ground (arith, s, beq_iff h sender_hex, e));
                  decoded = r;
                  recipient_16 = ground (arith, l);
                  same_body = refl;
                  plain = λ u. (refl, λ e. absurd (ground (arith, b, ap length e)));
                  own = λ u. absurd (ground (arith, t, u));
                },
              )
            ]
          ]
        ]
      ]
    ]
  ]

  -- The loop, over a part of the active hashes.
  forwarded :
      (active hs : List Bytes)
      → All (λ h. in_hashes h active ≡ true) hs
      → All (IsAllowed active) (forward_to_roster hs) × (length (forward_to_roster hs) ≤ length hs)
  unfolding forward_to_roster
  forwarded active [] a = (tt, omega arith)
  forwarded active (h ∷ hs) (m, a) =
      let (allowed, short) = forwarded active hs a in
      elim (delivery-cases active h m) [
        | inl e ↦ rw (forward_to_roster, e) (allowed, omega (arith, short))
        | inr (d, e, ok) ↦ rw (forward_to_roster, e) ((ok, allowed), omega (arith, short))
      ]

  -- Whom a fan-out is for, besides being an active member.
  pub record IsEligible (h : Bytes) : Type 0 where
    pub not_sender : h ≢ sender_hex
    pub raw : Bytes
    pub decoded : hex_decode h ≡ some raw
    pub raw_16 : length raw ≡ 16
    pub own : Dict
    pub viewed : rewritten rewrite h fields ≡ some own
    pub worth : text_only h ≡ true → body ≢ []

  eligible_delivery :
      (h : Bytes) → IsEligible h → (d : Delivery) × (delivery_for h ≡ some d) × (d.to ≡ h)
  unfolding delivery_for
  eligible_delivery h g =
      let s : (h =ᵇ sender_hex) ≡ false = ground (arith, beq_iff h sender_hex, g.not_sender) in
      let l : (length g.raw == 16) ≡ true = ground (arith, g.raw_16) in
      elim (Bool-cases (text_only h)) [
        | inr t ↦ (
          record { to = h; recipient = g.raw; body = body; fields = g.own },
          rw (delivery_for, s, g.decoded, l, g.viewed, t) refl,
          refl,
        )
        | inl t ↦ elim (Bool-cases (length body == 0)) [
          | inl b ↦ absurd (g.worth t (length-zero body (ground (arith, b))))
          | inr b ↦ (
            record { to = h; recipient = g.raw; body = body; fields = empty },
            rw (delivery_for, s, g.decoded, l, g.viewed, t, b) refl,
            refl,
          )
        ]
      ]

  eligible_served :
      (h : Bytes) (hs : List Bytes)
      → in_hashes h hs ≡ true
      → IsEligible h
      → has_delivery h (forward_to_roster hs) ≡ true
  unfolding in_hashes forward_to_roster has_delivery
  eligible_served h [] m g = absurd cc
  eligible_served h (x ∷ hs) m g = elim (Bool-cases (x =ᵇ h)) [
    | inl e ↦
        (let xh : x ≡ h = (beq_iff x h).0 e in
          let (d, q, to) = eligible_delivery h g in
          let qx : delivery_for x ≡ some d = ap delivery_for xh ∙ q in
          rw (forward_to_roster, qx) (ground (arith, beq_iff d.to h, to)))
    | inr e ↦
        (let later : has_delivery h (forward_to_roster hs) ≡ true =
            eligible_served h hs (ground (arith, m, e)) g in
          elim (Option-cases (delivery_for x)) [
            | inl q ↦ rw (forward_to_roster, q) later
            | inr (d, q) ↦ rw (forward_to_roster, q) (ground (arith, later))
          ])
  ]

  -- Every message of a fan-out goes to an active member who is not the sender, at the 16 bytes of
  -- the member's hash, with the same body; a text-only member gets no fields and no message
  -- without a body, any other gets the fields as they are rewritten for that member. Every active
  -- member gets a message who is not the sender, whose hash decodes to 16 bytes, for whom the
  -- rewriting has a view and who, if text-only, has a body to get; and there are at most as many
  -- messages as active members.
  pub forward_to_roster-IsAllowed :
      (active : List Bytes)
      → All (IsAllowed active) (forward_to_roster active)
        × ((h : Bytes)
            → in_hashes h active ≡ true
            → IsEligible h
            → has_delivery h (forward_to_roster active) ≡ true)
        × (length (forward_to_roster active) ≤ length active)
  forward_to_roster-IsAllowed active =
      let (allowed, short) = forwarded active active (every_member active) in
      (allowed, λ h. eligible_served h active, short)
