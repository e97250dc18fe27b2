-- ===== src/Rns/Hdlc/Examples.antt =====
-- The framing of hdlc.go on concrete streams.
use reticulum_forwarding_ser.Base.{◌≡◌, refl, List, [], ◌∷◌, arith}
use reticulum_forwarding_ser.Base.Bytes.{Bytes}
use reticulum_forwarding_ser.Rns.Hdlc.{eof, ok, next_frame, frame_loop}
use reticulum_forwarding_ser.Rns.Hdlc.Frames.{read_frames, encode_all, read_frames-encode_all}

-- A flag and an escape byte within a packet.
abbrev two_packets : List Bytes
two_packets = (1 ∷ 0x7e ∷ 2 ∷ []) ∷ (0x7d ∷ []) ∷ []

read_frames-encode_all_example : read_frames eof 3 (encode_all two_packets) ≡ two_packets
read_frames-encode_all_example =
    read_frames-encode_all eof two_packets 3 (ground arith, (ground arith, tt)) (ground arith)

framed : next_frame eof (0x7e ∷ 5 ∷ 0x7e ∷ 6 ∷ []) ≡ ok (5 ∷ []) (6 ∷ [])
unfolding next_frame frame_loop
framed = refl
