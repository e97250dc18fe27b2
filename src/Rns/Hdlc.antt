-- ===== src/Rns/Hdlc.antt =====
-- internal/rns/hdlc.go: byte-stuffed frames on a TCP stream.
pub mod Frames
mod Examples
use Prim.Native.Nat.{bit_xor}
use reticulum_forwarding_ser.Base.{ℕ, Bool, true, false, ◌||◌, [], ◌∷◌, ◌++◌, ◌==◌, if◌then◌else◌}
use reticulum_forwarding_ser.Base.Bytes.{Bytes}

abbrev pub hdlc_flag : ℕ
hdlc_flag = 0x7e

abbrev pub hdlc_esc : ℕ
hdlc_esc = 0x7d

abbrev pub hdlc_esc_mask : ℕ
hdlc_esc_mask = 0x20

-- The body of EncodeHDLC's loop, over the bytes that are left.
pub escape : Bytes → Bytes
escape [] = []
escape (b ∷ p) =
    let rest = escape p in
    if b == hdlc_flag || b == hdlc_esc then hdlc_esc ∷ bit_xor b hdlc_esc_mask ∷ rest else b ∷ rest

pub encode_hdlc : Bytes → Bytes
encode_hdlc p = hdlc_flag ∷ (escape p ++ (hdlc_flag ∷ []))

-- What ReadByte and NextFrame report. `read_failed` is any error of the reader but io.EOF.
pub data ReadError : Type 0 where
  eof truncated_escape read_failed : ReadError

pub data Frame : Type 0 where
  ok : Bytes → Bytes → Frame
  err : ReadError → Frame

-- Inside a frame io.EOF becomes ErrTruncatedEscape.
abbrev pub inside : ReadError → ReadError
inside eof = truncated_escape
inside e = e

-- The inner loop of NextFrame. The stream is what ReadByte still gives, and `e` the error that it
-- reports at the end; `escaped` says that the last byte read was ESC. A result holds the frame
-- and the stream behind it.
pub frame_loop : ReadError → Bool → Bytes → Bytes → Frame
frame_loop e escaped out [] = err (inside e)
frame_loop e true out (b ∷ s) = frame_loop e false (out ++ (bit_xor b hdlc_esc_mask ∷ [])) s
frame_loop e false out (b ∷ s) =
    let rest = frame_loop e (b == hdlc_esc) (if b == hdlc_esc then out else out ++ (b ∷ [])) s in
    if b == hdlc_flag then ok out s else rest

-- NextFrame: leading flags are skipped, and the first other byte opens the frame.
pub next_frame : ReadError → Bytes → Frame
next_frame e [] = err e
next_frame e (b ∷ s) =
    let more = next_frame e s in if b == hdlc_flag then more else frame_loop e false [] (b ∷ s)
