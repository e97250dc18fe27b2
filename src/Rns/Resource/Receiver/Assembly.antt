-- ===== src/Rns/Resource/Receiver/Assembly.antt =====
-- A full receiver of a transfer holds its parts, and assembles what they were cut from.
use reticulum_forwarding_ser.Base.{
  ℕ, suc, ◌≤◌, ◌<◌, ◌≡◌, refl, true, false, List, [], ◌∷◌, ◌++◌, ◌==◌, ltb, length, length-append,
  drop, drop-append, get_or, Result, ok, err, arith,
}
use reticulum_forwarding_ser.Base.Bytes.{Bytes, ◌=ᵇ◌, beq_iff}
use reticulum_forwarding_ser.Rns.Crypto.{Crypto}
use reticulum_forwarding_ser.Rns.Token.{link_token_decrypt}
use reticulum_forwarding_ser.Rns.Resource.{resource_hash}
use reticulum_forwarding_ser.Rns.Resource.Split.{join}
use reticulum_forwarding_ser.Rns.Resource.Receiver.{Receiver, assemble}
use reticulum_forwarding_ser.Rns.Resource.Receiver.Invariant.{IsValid, count_true-full}
use reticulum_forwarding_ser.Rns.Resource.Receiver.Placing.{Tracks}

list_ext :
    (xs ys : List Bytes)
    → length xs ≡ length ys
    → ((i : ℕ) → i < length xs → get_or xs i [] ≡ get_or ys i [])
    → xs ≡ ys
list_ext [] [] e h = refl
list_ext [] (y ∷ ys) e h = absurd (omega arith)
list_ext (x ∷ xs) [] e h = absurd (omega arith)
list_ext (x ∷ xs) (y ∷ ys) e h =
    let head = h 0 (omega arith) in
    let tail = list_ext xs ys (omega arith) (λ i lt. h (suc i) (omega arith)) in cc (head, tail)

-- Once as many parts have come as the transfer has, the receiver holds exactly its parts, in order.
pub Tracks-full :
    (c : Crypto) (orig : List Bytes) (rr : Receiver)
    → IsValid rr
    → Tracks c orig rr
    → rr.received_count ≡ length rr.parts
    → rr.parts ≡ orig
Tracks-full c orig rr v t full = list_ext rr.parts orig t.same_n λ i lt. t.same_part i (
    count_true-full rr.received_flags i (omega (arith, v.counted, v.flags_n))
      (omega (arith, v.flags_n)))

-- What is delivered is what was advertised: a body that assembly returns has the advertised length
-- and hash, and with a prefix of four bytes in front it is what the link decrypts from the parts
-- joined in order, whose length is the advertised one.
pub assemble-ok :
    (c : Crypto) (rr : Receiver) (body : Bytes)
    → assemble c rr ≡ ok body
    → (plaintext : Bytes) × (link_token_decrypt c (join rr.parts) rr.signing rr.encryption
        ≡ ok plaintext)
      × (4 ≤ length plaintext)
      × (body ≡ drop 4 plaintext)
      × (length (join rr.parts) ≡ rr.expected_size)
      × (length body ≡ rr.data_size)
      × (resource_hash c body rr.random_r ≡ rr.hash)
unfolding assemble
assemble-ok c rr body h = go (link_token_decrypt c (join rr.parts) rr.signing rr.encryption) refl
  where
    go :
        (r : Result _ Bytes)
        → link_token_decrypt c (join rr.parts) rr.signing rr.encryption ≡ r
        → (plaintext : Bytes) × (link_token_decrypt c (join rr.parts) rr.signing rr.encryption
            ≡ ok plaintext)
          × (4 ≤ length plaintext)
          × (body ≡ drop 4 plaintext)
          × (length (join rr.parts) ≡ rr.expected_size)
          × (length body ≡ rr.data_size)
          × (resource_hash c body rr.random_r ≡ rr.hash)
    go (err e) d = absurd (ground arith)
    go (ok p) d =
        let hash_ok = beq_iff (resource_hash c (drop 4 p) rr.random_r) rr.hash in
        (p, d, ground arith, ground arith, ground arith, ground arith, ground (arith, hash_ok))

-- Assembly of parts that decrypt to a prefix and a body of the advertised sizes and hash.
pub assemble_intact :
    (c : Crypto) (rr : Receiver) (pre body : Bytes)
    → length pre ≡ 4
    → length (join rr.parts) ≡ rr.expected_size
    → link_token_decrypt c (join rr.parts) rr.signing rr.encryption ≡ ok (pre ++ body)
    → length body ≡ rr.data_size
    → resource_hash c body rr.random_r ≡ rr.hash
    → assemble c rr ≡ ok body
unfolding assemble
assemble_intact c rr pre body hp hl hd hb hh =
    let same : (resource_hash c body rr.random_r =ᵇ rr.hash) ≡ true = (beq_iff _ _).1 hh in
    let size : (length (join rr.parts) == rr.expected_size) ≡ true = ground arith in
    let long : ltb (length (pre ++ body)) 4 ≡ false = ground (arith, length-append pre body) in
    let sized : (length body == rr.data_size) ≡ true = ground arith in
    rw (size, hd, long, drop-append 4 pre body hp, sized, same) refl
