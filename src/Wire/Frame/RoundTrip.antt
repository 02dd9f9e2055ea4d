-- ===== src/Wire/Frame/RoundTrip.antt =====
-- What ReadTcpFrame makes of the bytes that WriteTcpFrame put on a connection.
use coalago.Base.{
  ℕ, ◌+◌, ◌-◌, ltb, ◌≤◌, ◌<◌, ◌≡◌, refl, sym, ◌∙◌, true, List, [], ◌∷◌, ◌++◌, length, All, arith,
  le→leb, Bool-cases, inl, inr, take-append_length, drop-append_length, length-append,
}
use mathlib.Core.List.{append_assoc, append-nil}
use coalago.Base.Bits.{low_nibble}
use coalago.Wire.Frame.{
  encode_length, done, failed, IoError, read_full, decode_length, read_tcp_frame, Writer, write,
  write_tcp_frame,
}

pub read_full-append : (bs rest : List ℕ) → read_full (length bs) (bs ++ rest) ≡ done bs rest
unfolding read_full
read_full-append bs rest = rw (
  le→leb (length bs) (length (bs ++ rest)) (omega (arith, length-append bs rest)),
  take-append_length bs rest,
  drop-append_length bs rest,
)

-- decodeLength reads back every length below 65805 + 2 ^ 32 that encodeLength wrote.
pub decode_length-encode_length :
    (n : ℕ) (rest : List ℕ)
    → n < 0x1_0000_0000 + 65805
    → decode_length (encode_length n ++ rest) ≡ done n rest
unfolding decode_length encode_length
decode_length-encode_length n rest h = ground (arith, low_nibble n)

-- A frame that fits the buffer is read back whole, and what follows it stays in the stream.
pub read_tcp_frame-frame :
    (size : ℕ) (bs rest : List ℕ)
    → length bs ≤ size
    → length bs < 0x1_0000_0000 + 65805
    → read_tcp_frame size (encode_length (length bs) ++ (bs ++ rest)) ≡ done bs rest
unfolding read_tcp_frame
read_tcp_frame-frame size bs rest h lt =
    rw (decode_length-encode_length (length bs) (bs ++ rest) lt)
      (elim (Bool-cases (ltb size (length bs))) [
        | inl e ↦ absurd (ground arith)
        | inr e ↦ rw e (read_full-append bs rest)
      ])

-- What is put on the wire for a body.
unfoldable pub frame : List ℕ → List ℕ
frame bs = encode_length (length bs) ++ bs

-- The writer after a write that fits.
abbrev pub wrote : Writer → List ℕ → Writer
wrote w bs = record { written = w.written ++ bs; budget = w.budget - length bs }

write_fits :
    (w : Writer) (bs : List ℕ)
    → length bs ≤ w.budget
    → write w bs ≡ record { writer = wrote w bs; count = length bs; ok = true }
unfolding write
write_fits w bs h = rw (le→leb (length bs) w.budget h)

-- On a writer with room for the frame, WriteTcpFrame reports success and the frame's length, and
-- writes the length prefix and the body behind what was written before.
pub write_tcp_frame_lem :
    (w : Writer) (bs : List ℕ)
    → length (frame bs) ≤ w.budget
    → write_tcp_frame w bs
      ≡ record { writer = wrote w (frame bs); count = length (frame bs); ok = true }
unfolding write_tcp_frame frame
write_tcp_frame_lem w bs h =
    let p = encode_length (length bs) in
    let parts : length (p ++ bs) ≡ length p + length bs = length-append p bs in
    let left : w.budget - length p - length bs ≡ w.budget - (length p + length bs) = omega arith in
    rw (write_fits w p (omega arith))
      (rw (write_fits (wrote w p) bs (omega arith)) (rw (append_assoc w.written p bs, parts, left)))

-- What a reader gets from a stream: the bodies `bss`, one by one, and then the end.
abbrev pub ReadsAs : ℕ → List (List ℕ) → List ℕ → Type 0
ReadsAs size [] s = read_tcp_frame size s ≡ failed IoError.eof []
ReadsAs size (bs ∷ bss) s =
    (s' : List ℕ) × (read_tcp_frame size s ≡ done bs s') × ReadsAs size bss s'

-- WriteTcpFrame of each body, in order.
unfoldable pub write_frames : Writer → List (List ℕ) → Writer
write_frames w [] = w
write_frames w (bs ∷ bss) = write_frames (write_tcp_frame w bs).writer bss

unfoldable pub stream_length : List (List ℕ) → ℕ
stream_length [] = 0
stream_length (bs ∷ bss) = length (frame bs) + stream_length bss

stream : List (List ℕ) → List ℕ
stream [] = []
stream (bs ∷ bss) = frame bs ++ stream bss

write_frames-stream :
    (w : Writer) (bss : List (List ℕ))
    → stream_length bss ≤ w.budget
    → (write_frames w bss).written ≡ w.written ++ stream bss
unfolding write_frames stream_length stream
write_frames-stream w [] h = sym (append-nil w.written)
write_frames-stream w (bs ∷ bss) h =
    rw (write_tcp_frame_lem w bs (omega arith), write_frames)
      (write_frames-stream (wrote w (frame bs)) bss (omega arith)
        ∙ append_assoc w.written (frame bs) (stream bss))

stream-ReadsAs :
    (size : ℕ) (bss : List (List ℕ))
    → size < 0x1_0000_0000
    → All (λ bs. length bs ≤ size) bss
    → ReadsAs size bss (stream bss)
unfolding stream frame
stream-ReadsAs size [] lt h = unfold read_tcp_frame decode_length read_full in refl
stream-ReadsAs size (bs ∷ bss) lt (hb, hs) = (
  stream bss,
  rw (append_assoc (encode_length (length bs)) bs (stream bss))
      (read_tcp_frame-frame size bs (stream bss) hb (omega arith)),
  stream-ReadsAs size bss lt hs,
)

-- The frames that WriteTcpFrame puts on a fresh connection with room for them are what ReadTcpFrame
-- takes from it: the same bodies in the same order, and then io.EOF, if each fits the buffer.
pub write_frames-ReadsAs :
    (size budget : ℕ) (bss : List (List ℕ))
    → size < 0x1_0000_0000
    → stream_length bss ≤ budget
    → All (λ bs. length bs ≤ size) bss
    → ReadsAs size bss (write_frames (record { written = []; budget = budget }) bss).written
write_frames-ReadsAs size budget bss lt room fits =
    rw (write_frames-stream (record { written = []; budget = budget }) bss room)
      (stream-ReadsAs size bss lt fits)
