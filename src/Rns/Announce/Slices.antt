-- ===== src/Rns/Announce/Slices.antt =====
-- The parts of an announce body by their offsets.
use reticulum_forwarding_ser.Base.{
  ℕ, ◌+◌, ◌≡◌, ap, ◌∙◌, ◌++◌, length, length-append, take, drop, take-append, drop-append,
  drop-skip, arith,
}
use reticulum_forwarding_ser.Base.Bytes.{Bytes}
use reticulum_forwarding_ser.Rns.Announce.{announce_body}

module _ (key name random ratchet sig app : Bytes) (n : ℕ) (hk : length key ≡ 64)
    (hn : length name ≡ 10) (hr : length random ≡ 10) (ht : length ratchet ≡ n)
    (hs : length sig ≡ 64) where
  abbrev body : Bytes
  body = announce_body key name random ratchet sig app

  pub key_part : take 64 body ≡ key
  key_part = take-append 64 key _ hk

  pub name_part : take 10 (drop 64 body) ≡ name
  name_part = ap (take 10) (drop-append 64 key _ hk) ∙ take-append 10 name _ hn

  from_random : drop 74 body ≡ random ++ (ratchet ++ (sig ++ app))
  from_random = drop-skip 64 10 key _ hk ∙ drop-append 10 name _ hn

  pub random_part : take 10 (drop 74 body) ≡ random
  random_part = ap (take 10) from_random ∙ take-append 10 random _ hr

  from_ratchet : drop 84 body ≡ ratchet ++ (sig ++ app)
  from_ratchet = drop-skip 64 20 key _ hk ∙ drop-skip 10 10 name _ hn ∙ drop-append 10 random _ hr

  pub ratchet_part : take n (drop 84 body) ≡ ratchet
  ratchet_part = ap (take n) from_ratchet ∙ take-append n ratchet _ ht

  past_ratchet : (k : ℕ) → drop (84 + (n + k)) body ≡ drop k (sig ++ app)
  past_ratchet k =
      let e : 84 + (n + k) ≡ 64 + (10 + (10 + (n + k))) = omega arith in
      ap (λ i. drop i body) e
      ∙ drop-skip 64 (10 + (10 + (n + k))) key _ hk
      ∙ drop-skip 10 (10 + (n + k)) name _ hn
      ∙ drop-skip 10 (n + k) random _ hr
      ∙ drop-skip n k ratchet _ ht

  pub sig_part : take 64 (drop (84 + (n + 0)) body) ≡ sig
  sig_part = ap (take 64) (past_ratchet 0) ∙ take-append 64 sig app hs

  pub app_part : drop (84 + (n + 64)) body ≡ app
  app_part = past_ratchet 64 ∙ drop-append 64 sig app hs

  pub length_body : length body ≡ 148 + n + length app
  length_body = omega (
    arith,
    length-append key (name ++ (random ++ (ratchet ++ (sig ++ app)))),
    length-append name (random ++ (ratchet ++ (sig ++ app))),
    length-append random (ratchet ++ (sig ++ app)),
    length-append ratchet (sig ++ app),
    length-append sig app,
  )
