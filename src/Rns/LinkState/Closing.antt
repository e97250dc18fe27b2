-- ===== src/Rns/LinkState/Closing.antt =====
-- Keys of the transfer index, and the closing of a link.
use mathlib.Core.List.{append_assoc}
use reticulum_forwarding_ser.Base.{
  drop, take-append-drop, ℕ, ◌≡◌, ◌≢◌, refl, sym, ap, ◌∙◌, true, if◌then◌else◌, [], ◌∷◌, ◌++◌,
  length, length-append, ◌/◌, ◌%◌, take, take-append, List, All, none, Option-cases, Bool-cases,
  inl, inr, arith,
}
use reticulum_forwarding_ser.Base.Bytes.{
  has_prefix, Bytes, IsByte, ◌=ᵇ◌, beq_iff, beq_refl, hex_encode, hex_digit, hex_digit-injective,
  hex_encode-injective,
}
use reticulum_forwarding_ser.Base.Assoc.{lookup, delete, lookup-delete}
use reticulum_forwarding_ser.Rns.LinkState.{LinkManager, get}
use reticulum_forwarding_ser.Rns.LinkState.Transfers.{
  link_prefix, resource_key, left, count_prefixed, lookup_resource_sender, lookup_resource_receiver,
  count_receivers_for_link, close_resources_for_link, close_link,
}

hex_digit_not_colon : (n : ℕ) → hex_digit n ≢ 58
unfolding hex_digit
hex_digit_not_colon n e = absurd (ground arith)

-- A hex text ends at the first colon behind it.
same_prefix :
    (a b s t : Bytes)
    → All IsByte a
    → All IsByte b
    → hex_encode a ++ (58 ∷ s) ≡ hex_encode b ++ (58 ∷ t)
    → (a ≡ b) × (s ≡ t)
unfolding hex_encode
same_prefix [] [] s t ha hb e = (refl, ground arith)
same_prefix [] (y ∷ b) s t ha hb e = absurd (hex_digit_not_colon (y / 16) (ground arith))
same_prefix (x ∷ a) [] s t ha hb e = absurd (hex_digit_not_colon (x / 16) (ground arith))
same_prefix (x ∷ a) (y ∷ b) s t (hx, ha) (hy, hb) e =
    let tails : hex_encode a ++ (58 ∷ s) ≡ hex_encode b ++ (58 ∷ t) = ground arith in
    let (same, rest) = same_prefix a b s t ha hb tails in
    (
      ground (
        arith,
        same,
        hex_digit-injective (x / 16) (y / 16),
        hex_digit-injective (x % 16) (y % 16),
      ),
      rest,
    )

-- Two transfers share a key only if they have the same link id and the same resource hash,
-- whatever the lengths of the four byte strings.
pub resource_key-injective :
    (a b g h : Bytes)
    → All IsByte a
    → All IsByte b
    → All IsByte g
    → All IsByte h
    → resource_key a g ≡ resource_key b h
    → (a ≡ b) × (g ≡ h)
unfolding resource_key
resource_key-injective a b g h ha hb hg hh e =
    let (same, rest) = same_prefix a b (hex_encode g) (hex_encode h) ha hb e in
    (same, hex_encode-injective g h hg hh rest)

key_split : (b h : Bytes) → resource_key b h ≡ link_prefix b ++ hex_encode h
unfolding resource_key link_prefix
key_split b h = sym (append_assoc (hex_encode b) (58 ∷ []) (hex_encode h))

has_prefix_self : (p t : Bytes) → has_prefix (p ++ t) p ≡ true
unfolding has_prefix
has_prefix_self p t = ground (arith, length-append p t, take-append (length p) p t refl, beq_refl p)

has_prefix-splits : (k p : Bytes) → has_prefix k p ≡ true → k ≡ p ++ drop (length p) k
unfolding has_prefix
has_prefix-splits k p h =
    let same : take (length p) k ≡ p = (beq_iff (take (length p) k) p).0 (ground arith) in
    sym (take-append-drop (length p) k) ∙ ap (λ t. t ++ drop (length p) k) same

shares_prefix :
    (a b h : Bytes)
    → All IsByte a
    → All IsByte b
    → has_prefix (resource_key a h) (link_prefix b) ≡ true
    → a ≡ b
unfolding resource_key link_prefix
shares_prefix a b h ha hb q =
    let r = drop (length (link_prefix b)) (resource_key a h) in
    let e = has_prefix-splits (resource_key a h) (link_prefix b) q in
    (same_prefix a b (hex_encode h) r ha hb (e ∙ append_assoc (hex_encode b) (58 ∷ []) r)).0

pub has_prefix-resource_key :
    (a b h : Bytes)
    → All IsByte a
    → All IsByte b
    → has_prefix (resource_key a h) (link_prefix b) ≡ (a =ᵇ b)
has_prefix-resource_key a b h ha hb = elim (Bool-cases (a =ᵇ b)) [
  | inl e ↦
      (let same = (beq_iff a b).0 e in
        rw (e, same, key_split b h) (has_prefix_self (link_prefix b) (hex_encode h)))
  | inr e ↦ elim (Bool-cases (has_prefix (resource_key a h) (link_prefix b))) [
    | inr q ↦ q ∙ sym e
    | inl q ↦ q ∙ sym ((beq_iff a b).1 (shares_prefix a b h ha hb q))
  ]
]

beq-hex_encode :
    (a b : Bytes) → All IsByte a → All IsByte b → (hex_encode b =ᵇ hex_encode a) ≡ (a =ᵇ b)
beq-hex_encode a b ha hb = elim (Bool-cases (a =ᵇ b)) [
  | inl e ↦ (let same = (beq_iff a b).0 e in rw (e, same) (beq_refl (hex_encode b)))
  | inr e ↦
      ground
        (arith, beq_iff a b, beq_iff (hex_encode b) (hex_encode a), hex_encode-injective b a hb ha)
]

module _ {V : Type 0} where
  lookup-left :
      (k p : Bytes) (m : List (Bytes × V))
      → lookup k (left p m) ≡ (if has_prefix k p then none else lookup k m)
  unfolding lookup left
  lookup-left k p [] = ground arith
  lookup-left k p ((j, v) ∷ m) = ground (arith, beq_iff j k, lookup-left k p m)

  count-left : (p : Bytes) (m : List (Bytes × V)) → count_prefixed p (left p m) ≡ 0
  unfolding count_prefixed left
  count-left p [] = refl
  count-left p ((j, v) ∷ m) = ground (arith, count-left p m)

module _ {S R : Type 0} (lm : LinkManager S R) (b : Bytes) (hb : All IsByte b) where
  -- Closing a link takes it and all its transfers out of the manager, and nothing else: every
  -- other link and every transfer of another link is found as before, and no receiver counts
  -- against the closed link any more.
  pub close_link-ends :
      (a h : Bytes)
      → All IsByte a
      → All IsByte h
      → (get a (close_link b lm).2 ≡ (if a =ᵇ b then none else get a lm))
        × (lookup_resource_sender a h (close_link b lm).2
            ≡ (if a =ᵇ b then none else lookup_resource_sender a h lm))
        × (lookup_resource_receiver a h (close_link b lm).2
            ≡ (if a =ᵇ b then none else lookup_resource_receiver a h lm))
        × (count_receivers_for_link b (close_link b lm).2 ≡ 0)
  unfolding get close_link close_resources_for_link lookup_resource_sender lookup_resource_receiver
      count_receivers_for_link
  close_link-ends a h ha hh =
      let pre = has_prefix-resource_key a b h ha hb in
      let key = resource_key a h in
      let senders =
        lookup-left key (link_prefix b) lm.senders
        ∙ ap (λ t. if t then none else lookup key lm.senders) pre in
      let receivers =
        lookup-left key (link_prefix b) lm.receivers
        ∙ ap (λ t. if t then none else lookup key lm.receivers) pre in
      let count = count-left (link_prefix b) lm.receivers in
      elim (Option-cases (lookup (hex_encode b) lm.links)) [
        | inl e ↦ rw (close_link, e) (missing e, senders, receivers, count)
        | inr (l, e) ↦ rw (close_link, e) (deleted, senders, receivers, count)
      ]
    where
      missing :
          lookup (hex_encode b) lm.links ≡ none
          → lookup (hex_encode a) lm.links
            ≡ (if a =ᵇ b then none else lookup (hex_encode a) lm.links)
      missing e = ground (arith, e, beq_iff a b)

      deleted :
          lookup (hex_encode a) (delete (hex_encode b) lm.links)
          ≡ (if a =ᵇ b then none else lookup (hex_encode a) lm.links)
      deleted =
          lookup-delete (hex_encode b) (hex_encode a) lm.links
          ∙ ap (λ t. if t then none else lookup (hex_encode a) lm.links) (beq-hex_encode a b ha hb)
