-- ===== src/Rns/Hdlc/Frames.antt =====
-- NextFrame on what EncodeHDLC wrote, and on any stream.
use Prim.Native.Nat.{bit_xor}
use mathlib.Core.List.{append-nil, append_assoc}
use reticulum_forwarding_ser.Base.{
  ℕ, suc, ◌≤◌, ◌<◌, ◌≡◌, ◌≢◌, ◌↔◌, refl, ap, ◌∙◌, Bool, true, false, List, [], ◌∷◌, ◌++◌, ◌==◌,
  if◌then◌else◌, length, All, replicate, zero, arith,
}
use reticulum_forwarding_ser.Base.Bytes.{Bytes}
use reticulum_forwarding_ser.Rns.Hdlc.{
  hdlc_flag, hdlc_esc, hdlc_esc_mask, escape, encode_hdlc, ReadError, eof, ok, err, frame_loop,
  next_frame,
}

-- The loop over an escaped packet collects the packet.
frame_loop-escape :
    (e : ReadError) (p out rest : Bytes)
    → frame_loop e false out (escape p ++ (hdlc_flag ∷ rest)) ≡ ok (out ++ p) rest
unfolding frame_loop escape
frame_loop-escape e [] out rest = rw append-nil refl
frame_loop-escape e (b ∷ p) out rest =
    let ih = frame_loop-escape e p (out ++ (b ∷ [])) rest in
    let assoc = append_assoc out (b ∷ []) p in ground (arith, ih, assoc)

next_frame-opens :
    (e : ReadError) (b : ℕ) (s : Bytes)
    → b ≢ hdlc_flag
    → next_frame e (b ∷ s) ≡ frame_loop e false [] (b ∷ s)
unfolding next_frame
next_frame-opens e b s h = ground arith

next_frame-flag : (e : ReadError) (s : Bytes) → next_frame e (hdlc_flag ∷ s) ≡ next_frame e s
unfolding next_frame
next_frame-flag e s = refl

-- An escaped packet begins with no flag.
next_frame-escape :
    (e : ReadError) (b : ℕ) (p s : Bytes)
    → next_frame e (escape (b ∷ p) ++ s) ≡ frame_loop e false [] (escape (b ∷ p) ++ s)
unfolding escape
next_frame-escape e b p s = ground (
  arith,
  next_frame-opens e hdlc_esc (bit_xor b hdlc_esc_mask ∷ (escape p ++ s)),
  next_frame-opens e b (escape p ++ s),
)

skip_flags :
    (e : ReadError) (n : ℕ) (s : Bytes) → next_frame e (replicate n hdlc_flag ++ s) ≡ next_frame e s
skip_flags e zero s = refl
skip_flags e (suc n) s = next_frame-flag e (replicate n hdlc_flag ++ s) ∙ skip_flags e n s

-- After any number of flags, NextFrame reads back a packet that is not empty and that EncodeHDLC
-- framed, and leaves what follows the frame.
pub next_frame-encode_hdlc :
    (e : ReadError) (n : ℕ) (p rest : Bytes)
    → p ≢ []
    → next_frame e (replicate n hdlc_flag ++ (encode_hdlc p ++ rest)) ≡ ok p rest
unfolding encode_hdlc
next_frame-encode_hdlc e n [] rest h = absurd (h refl)
next_frame-encode_hdlc e n (b ∷ p) rest h =
    skip_flags e n _
    ∙ next_frame-flag e _
    ∙ rw append_assoc
        (next_frame-escape e b p (hdlc_flag ∷ rest) ∙ frame_loop-escape e (b ∷ p) [] rest)

-- The frames that a reader takes from a stream, until an error or until the count is reached.
abbrev pub read_frames : ReadError → ℕ → Bytes → List Bytes
read_frames e zero s = []
read_frames e (suc n) s = elim (next_frame e s) [
  | ok f rest ↦ f ∷ read_frames e n rest
  | err x ↦ []
]

abbrev pub encode_all : List Bytes → Bytes
encode_all [] = []
encode_all (p ∷ ps) = encode_hdlc p ++ encode_all ps

read_frames-ok :
    (e : ReadError) (n : ℕ) (s f rest : Bytes)
    → next_frame e s ≡ ok f rest
    → read_frames e (suc n) s ≡ f ∷ read_frames e n rest
read_frames-ok e n s f rest h = rw (h, read_frames)

-- A reader that asks for as many frames as were written, or more, gets the packets in order and
-- then the end of the stream, if none of the packets is empty.
pub read_frames-encode_all :
    (e : ReadError) (ps : List Bytes) (n : ℕ)
    → All (λ p. p ≢ []) ps
    → length ps ≤ n
    → read_frames e n (encode_all ps) ≡ ps
read_frames-encode_all e [] zero h m = refl
read_frames-encode_all e [] (suc n) h m = unfold next_frame in refl
read_frames-encode_all e (p ∷ ps) zero h m = absurd (omega arith)
read_frames-encode_all e (p ∷ ps) (suc n) (hp, hps) m =
    read_frames-ok e n _ p _ (next_frame-encode_hdlc e 0 p (encode_all ps) hp)
    ∙ ap (◌∷◌ p) (read_frames-encode_all e ps n hps (omega arith))

frame_loop-shorter :
    (e : ReadError) (esc : Bool) (out s f rest : Bytes)
    → frame_loop e esc out s ≡ ok f rest
    → length rest < length s
unfolding frame_loop
frame_loop-shorter e esc out [] f rest h = cc
frame_loop-shorter e true out (b ∷ s) f rest h =
    omega (arith, frame_loop-shorter e false (out ++ (bit_xor b hdlc_esc_mask ∷ [])) s f rest h)
frame_loop-shorter e false out (b ∷ s) f rest h = ground (
  arith,
  frame_loop-shorter e (b == hdlc_esc) (if b == hdlc_esc then out else out ++ (b ∷ [])) s f rest,
)

-- Every frame takes at least a byte from the stream, so a read loop comes to the stream's end.
pub next_frame-shorter :
    (e : ReadError) (s f rest : Bytes) → next_frame e s ≡ ok f rest → length rest < length s
unfolding next_frame
next_frame-shorter e [] f rest h = cc
next_frame-shorter e (b ∷ s) f rest h =
    ground (arith, next_frame-shorter e s f rest, frame_loop-shorter e false [] (b ∷ s) f rest)

frame_loop-ne-eof : (e : ReadError) (esc : Bool) (out s : Bytes) → frame_loop e esc out s ≢ err eof
unfolding frame_loop
frame_loop-ne-eof e esc out [] = ground arith
frame_loop-ne-eof e true out (b ∷ s) = frame_loop-ne-eof e false _ s
frame_loop-ne-eof e false out (b ∷ s) =
    ground (
      arith,
      frame_loop-ne-eof e (b == hdlc_esc) (if b == hdlc_esc then out else out ++ (b ∷ [])) s,
    )

-- NextFrame reports io.EOF exactly when the stream ends cleanly with no byte of a frame left:
-- all that is left are flags.
pub next_frame-eof : (s : Bytes) → (next_frame eof s ≡ err eof) ↔ All (λ b. b ≡ hdlc_flag) s
unfolding next_frame
next_frame-eof [] = (λ h. tt, λ h. refl)
next_frame-eof (b ∷ s) =
    let ih = next_frame-eof s in
    let no_eof = frame_loop-ne-eof eof false [] (b ∷ s) in
    (λ h. ground (arith, ih.0, no_eof), λ h. ground (arith, ih.1))
