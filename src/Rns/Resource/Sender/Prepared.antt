-- ===== src/Rns/Resource/Sender/Prepared.antt =====
-- What the preparation of an outbound transfer (NewResourceSender) leaves in the sender.
use reticulum_forwarding_ser.Base.{
  ℕ, zero, suc, ◌≡◌, refl, inl, inr, List, [], ◌∷◌, ◌++◌, length, Option, none, some, ok,
  Result-cases, arith,
}
use reticulum_forwarding_ser.Base.Bytes.{Bytes}
use reticulum_forwarding_ser.Rns.Crypto.{Crypto}
use reticulum_forwarding_ser.Rns.Token.{link_token_encrypt}
use reticulum_forwarding_ser.Rns.Resource.{
  split_parts, build_hashmap, resource_hash, resource_expected_proof,
}
use reticulum_forwarding_ser.Rns.Resource.Sender.{
  Sender, new_resource_sender, choose_hashmap, max_collision_retries,
}

-- What a sender that was made from a body holds.
pub record IsPrepared (c : Crypto) (signing encryption body : Bytes) (s : Sender) : Type 0 where
  pub pre : Bytes
  pub pre_4 : length pre ≡ 4
  pub iv : Option Bytes
  pub blob : Bytes
  pub encrypted : link_token_encrypt c iv (pre ++ body) signing encryption ≡ ok blob
  pub cut : s.parts ≡ split_parts blob
  pub mapped : build_hashmap c s.parts s.random_r ≡ ok s.hashmap
  pub hashed : s.hash ≡ resource_hash c body s.random_r
  pub sized : s.transfer_len ≡ length blob
  pub body_sized : s.original_len ≡ length body

choose_hashmap-ok :
    (c : Crypto) (rounds : ℕ) (parts : List Bytes) (entropy : List (Option Bytes))
    (x : Bytes × Bytes)
    → choose_hashmap c rounds parts entropy ≡ ok x
    → build_hashmap c parts x.0 ≡ ok x.1
unfolding choose_hashmap
choose_hashmap-ok c zero parts entropy x h = cc
choose_hashmap-ok c (suc rounds) parts [] x h = cc
choose_hashmap-ok c (suc rounds) parts (none ∷ entropy) x h = cc
choose_hashmap-ok c (suc rounds) parts (some r ∷ entropy) x h =
    ground (arith, choose_hashmap-ok c rounds parts entropy x)

-- The sender that NewResourceSender returns, once all its checks passed.
abbrev made_sender : Crypto → Bytes → Bytes → Bytes × Bytes → Sender
made_sender c body blob x =
    let hash = resource_hash c body x.0 in
    record {
      hash = hash;
      random_r = x.0;
      expected_proof = resource_expected_proof c body hash;
      original_len = length body;
      transfer_len = length blob;
      parts = split_parts blob;
      hashmap = x.1;
    }

new_resource_sender-ok :
    (c : Crypto) (pre : Bytes) (iv : Option Bytes) (entropy : List (Option Bytes))
    (signing encryption body : Bytes) (s : Sender)
    → new_resource_sender c (some pre) iv entropy signing encryption body ≡ ok s
    → (blob : Bytes) × (x : Bytes × Bytes) × (link_token_encrypt c iv
          (pre ++ body)
          signing
          encryption
        ≡ ok blob)
      × (choose_hashmap c max_collision_retries (split_parts blob) entropy ≡ ok x)
      × (s ≡ made_sender c body blob x)
unfolding new_resource_sender
new_resource_sender-ok c pre iv entropy signing encryption body s made =
    elim (Result-cases (link_token_encrypt c iv (pre ++ body) signing encryption)) [
      | inr (e, bad) ↦ absurd (ground (arith, bad))
      | inl (blob, good) ↦
          elim (Result-cases (choose_hashmap c max_collision_retries (split_parts blob) entropy)) [
            | inr (e, bad) ↦ absurd (ground (arith, bad, good))
            | inl (x, chosen) ↦ (blob, x, good, chosen, ground (arith, good, chosen))
          ]
    ]

-- A sender that is made from a body is prepared for it.
pub new_resource_sender-IsPrepared :
    (c : Crypto) (pre : Bytes) (iv : Option Bytes) (entropy : List (Option Bytes))
    (signing encryption body : Bytes) (s : Sender)
    → length pre ≡ 4
    → new_resource_sender c (some pre) iv entropy signing encryption body ≡ ok s
    → IsPrepared c signing encryption body s
new_resource_sender-IsPrepared c pre iv entropy signing encryption body s h4 made =
    let (blob, x, good, chosen, same) =
      new_resource_sender-ok c pre iv entropy signing encryption body s made in
    let result : IsPrepared c signing encryption body (made_sender c body blob x) = record {
      pre = pre;
      pre_4 = h4;
      iv = iv;
      blob = blob;
      encrypted = good;
      cut = refl;
      mapped = choose_hashmap-ok c max_collision_retries (split_parts blob) entropy x chosen;
      hashed = refl;
      sized = refl;
      body_sized = refl;
    } in
    rw same result
