-- ===== src/Rns/Resource/Sender/Delivery.antt =====
-- The steps of a transfer between a sender and a receiver, and what a full receiver delivers.
use reticulum_forwarding_ser.Base.{
  ℕ, ◌+◌, ◌≤◌, ◌<◌, ◌≡◌, ◌≢◌, sym, ap, ◌∙◌, List, [], ◌++◌, length, get_or, Option, some, ok,
}
use reticulum_forwarding_ser.Base.Bytes.{Bytes}
use reticulum_forwarding_ser.Rns.Crypto.{Crypto, IsSound}
use reticulum_forwarding_ser.Rns.Token.Link.{link_token_decrypt-encrypted}
use reticulum_forwarding_ser.Rns.Resource.Split.{join, join-split_parts}
use reticulum_forwarding_ser.Rns.Resource.Receiver.{
  Receiver, open_receiver, placed, window_base, window_size, place_part, Hmu, apply_hmu,
  request_next_window, assemble,
}
use reticulum_forwarding_ser.Rns.Resource.Receiver.Placing.{place_part_ignores}
use reticulum_forwarding_ser.Rns.Resource.Receiver.Assembly.{Tracks-full, assemble_intact}
use reticulum_forwarding_ser.Rns.Resource.Wire.{ResourceRequest}
use reticulum_forwarding_ser.Rns.Resource.Sender.{Sender, new_resource_sender, advertise, serve_hmu}
use reticulum_forwarding_ser.Rns.Resource.Sender.Prepared.{
  IsPrepared, new_resource_sender-IsPrepared,
}
use reticulum_forwarding_ser.Rns.Resource.Sender.Transfer.{
  Holds, Holds-Tracks, start-Holds, arrives-Holds, asks-Holds,
}
use reticulum_forwarding_ser.Rns.Resource.Sender.Segments.{extends-Holds}

-- One step of the receiver: a part of the sender's arrives for a slot of the window, new or again;
-- bytes of any origin arrive that are not placed; the receiver asks for more; or it accepts a hashmap segment that the sender served.
pub data Step (c : Crypto) (s : Sender) : Receiver → Receiver → Type 0 where
  arrives :
      (rr : Receiver) (k : ℕ)
      → window_base rr ≤ k
      → k < window_base rr + window_size rr
      → Step c s rr (place_part c rr (get_or s.parts k [])).0
  strays :
      (rr : Receiver) (part : Bytes)
      → (place_part c rr part).1 ≢ placed
      → Step c s rr (place_part c rr part).0
  asks : (rr : Receiver) → Step c s rr (request_next_window rr).0
  extends :
      (rr rr' : Receiver) (req : ResourceRequest) (u : Hmu)
      → serve_hmu s req ≡ ok u
      → apply_hmu rr u ≡ ok rr'
      → Step c s rr rr'

-- The states that any sequence of steps reaches.
pub data Reach (c : Crypto) (s : Sender) (rr : Receiver) : Receiver → Type 0 where
  here : Reach c s rr rr
  next : {t u : Receiver} → Reach c s rr t → Step c s t u → Reach c s rr u

module _ (c : Crypto) (sound : IsSound c) (signing encryption body : Bytes) (s : Sender)
    (p : IsPrepared c signing encryption body s) where
  abbrev HoldsHere : Receiver → Type 0
  HoldsHere = Holds c sound signing encryption body s p

  Step-Holds : {t u : Receiver} → Step c s t u → HoldsHere t → HoldsHere u
  Step-Holds (arrives rr k lo hi) h = arrives-Holds c sound signing encryption body s p rr k h lo hi
  Step-Holds (strays rr part ignored) h = rw (place_part_ignores c rr part ignored) h
  Step-Holds (asks rr) h = asks-Holds c sound signing encryption body s p rr h
  Step-Holds (extends rr rr' req u e a) h =
      extends-Holds c sound signing encryption body s p rr rr' req u h e a

  Reach-Holds : {t u : Receiver} → HoldsHere t → Reach c s t u → HoldsHere u
  Reach-Holds h here = h
  Reach-Holds h (next r st) = Step-Holds st (Reach-Holds h r)

  full-assemble :
      (rr : Receiver) → HoldsHere rr → rr.received_count ≡ length rr.parts → assemble c rr ≡ ok body
  full-assemble rr h full =
      let parts : rr.parts ≡ s.parts =
        Tracks-full c s.parts rr h.valid (Holds-Tracks c sound signing encryption body s p rr h)
          full in
      let stream : join rr.parts ≡ p.blob = ap join (parts ∙ p.cut) ∙ (join-split_parts p.blob).0 in
      let decrypted =
        link_token_decrypt-encrypted c sound p.iv (p.pre ++ body) signing encryption p.blob
          p.encrypted in
      assemble_intact c rr p.pre body p.pre_4 (rw stream (sym p.sized ∙ sym h.expected_size))
        (rw (stream, h.signing_key, h.encryption_key) decrypted) (sym (h.data_size ∙ p.body_sized))
        (rw h.random_r (sym p.hashed) ∙ sym h.hash)

-- Whatever the order in which parts arrive for the window and come again, bytes arrive that are not
-- placed, requests are made and hashmap segments are accepted: a receiver that was opened on the advertisement of a prepared sender, and that has
-- received as many parts as were advertised, assembles the body that the sender was given.
pub transfer_delivers :
    (c : Crypto)
    → IsSound c
    → (pre signing encryption body : Bytes) (iv : Option Bytes) (entropy : List (Option Bytes))
      (s : Sender) (rr : Receiver)
    → length pre ≡ 4
    → new_resource_sender c (some pre) iv entropy signing encryption body ≡ ok s
    → Reach c s (open_receiver signing encryption (advertise s)) rr
    → rr.received_count ≡ length rr.parts
    → assemble c rr ≡ ok body
transfer_delivers c sound pre signing encryption body iv entropy s rr h4 made r full =
    let p = new_resource_sender-IsPrepared c pre iv entropy signing encryption body s h4 made in
    full-assemble c sound signing encryption body s p rr
      (Reach-Holds c sound signing encryption body s p
        (start-Holds c sound signing encryption body s p) r)
      full
