-- ===== src/Arq/Receive/Delivery.antt =====
-- The sender's packets, as their receiver takes them.
use coalago.Base.{
  ℕ, zero, suc, ◌+◌, ◌*◌, ◌≤◌, ◌<◌, ◌≡◌, refl, ap, ◌∙◌, true, Option, some, List, [], ◌∷◌, length,
  drop, get_elem?, ltb, arith, length-drop,
}
use mathlib.Core.Path.{subst}
use coalago.Block.{get_block1}
use coalago.Block.RoundTrip.{new_block_from_int-to_int, size_of}
use coalago.Constants.{max_payload_size, option_block1}
use coalago.Message.{Payload, CoapMessage}
use coalago.Options.{int_value}
use coalago.Arq.{packets}
use coalago.Arq.Blocks.{Frame, Carries, block1-IsBlockType}
use coalago.Arq.Split.{frames_from, frames, Sends, packets-Sends, drop-drop}
use coalago.Arq.Receive.{Received, no_total}
use coalago.Arq.Receive.Progress.{is_whole, last_number, frame_at, Brings}
use coalago.Arq.Receive.Reassembly.{BringAll, rev_come, receive_all, receive_all_whole}

Carries-Brings : (f : Frame) (m : CoapMessage) → Carries option_block1 f m → Brings f m
unfolding size_of get_block1 int_value
Carries-Brings f m (o, p, t) = record {
  block_ok =
      rw (o, get_block1) (ap some (new_block_from_int-to_int f.more f.number 6 (omega arith)));
  payload_ok = p;
  type_ok = t;
}

pub Sends-at :
    (block_type : ℕ) (fs : List Frame) (ms : List CoapMessage) (i : ℕ) (f : Frame)
    → Sends block_type fs ms
    → get_elem? fs i ≡ some f
    → (m : CoapMessage) × (get_elem? ms i ≡ some m) × Carries block_type f m
Sends-at block_type [] [] i f s e = cc
Sends-at block_type [] (m ∷ ms) i f s e = absurd s
Sends-at block_type (g ∷ fs) [] i f s e = absurd s
Sends-at block_type (g ∷ fs) (m ∷ ms) zero f (c, s) e =
    (m, refl, subst (λ x. Carries block_type x m) (cc e) c)
Sends-at block_type (g ∷ fs) (m ∷ ms) (suc i) f (c, s) e = Sends-at block_type fs ms i f s e

more_at :
    (bs : List ℕ) (num : ℕ)
    → ltb max_payload_size (length (drop (num * max_payload_size) bs)) ≡ ltb num (last_number bs)
more_at bs num = ground (arith, length-drop (num * max_payload_size) bs)

frames_from-at :
    (bs : List ℕ) (fuel num i : ℕ)
    → num + i ≤ last_number bs
    → length bs < fuel + num * max_payload_size
    → get_elem? (frames_from fuel num (drop (num * max_payload_size) bs)) i
      ≡ some (frame_at bs (num + i))
unfolding frames_from
frames_from-at bs zero num i h hf = absurd (omega arith)
frames_from-at bs (suc fuel) num zero h hf =
    let same : num + 0 ≡ num = omega arith in rw (more_at bs num, same) refl
frames_from-at bs (suc fuel) num (suc i) h hf =
    let more : ltb num (last_number bs) ≡ true = ground arith in
    let next : num + 1 + i ≡ num + suc i = omega arith in
    rw (more_at bs num, more)
      (rw
        (drop-drop (num * max_payload_size) max_payload_size ((num + 1) * max_payload_size) bs
          (omega arith))
        (frames_from-at bs fuel (num + 1) i (omega arith) (omega arith) ∙ rw next refl))

-- The block with a number, among the blocks of a payload.
pub frames-at :
    (bs : List ℕ) (i : ℕ) → i ≤ last_number bs → get_elem? (frames bs) i ≡ some (frame_at bs i)
unfolding frames
frames-at bs i h =
    let zero_add : 0 + i ≡ i = omega arith in
    frames_from-at bs (length bs + 1) 0 i (omega arith) (omega arith) ∙ rw zero_add refl

-- Every packet of a request's payload brings its block to the receiver.
pub packets-Brings :
    (counter : ℕ) (orig : CoapMessage) (bs : List ℕ) (i : ℕ) (m : CoapMessage)
    → i ≤ last_number bs
    → get_elem? (packets counter option_block1 orig bs) i ≡ some m
    → Brings (frame_at bs i) m
packets-Brings counter orig bs i m h e =
    let (m', e', c) =
      Sends-at option_block1 (frames bs) _ i (frame_at bs i)
        (packets-Sends counter option_block1 orig bs block1-IsBlockType) (frames-at bs i h) in
    let same : m' ≡ m = cc (e, e') in
    subst (Brings (frame_at bs i)) same (Carries-Brings (frame_at bs i) m' c)

-- The messages are the packets with these numbers.
abbrev pub Delivers : List ℕ → List CoapMessage → List ℕ → List CoapMessage → Type 0
Delivers bs ps [] [] = Unit {0}
Delivers bs ps [] (m ∷ ms) = ⊥
Delivers bs ps (i ∷ is) [] = ⊥
Delivers bs ps (i ∷ is) (m ∷ ms) =
    (i ≤ last_number bs) × (get_elem? ps i ≡ some m) × Delivers bs ps is ms

Delivers-BringAll :
    (counter : ℕ) (orig : CoapMessage) (bs is : List ℕ) (ms : List CoapMessage)
    → Delivers bs (packets counter option_block1 orig bs) is ms
    → BringAll bs is ms
Delivers-BringAll counter orig bs [] [] d = tt
Delivers-BringAll counter orig bs [] (m ∷ ms) d = d
Delivers-BringAll counter orig bs (i ∷ is) [] d = d
Delivers-BringAll counter orig bs (i ∷ is) (m ∷ ms) (h, e, d) =
    (h, packets-Brings counter orig bs i m h e, Delivers-BringAll counter orig bs is ms d)

-- The packets that the sender builds for a payload `bs`, in whatever order they come and however
-- often each: a new receiver never panics on them, on the last of them it reports completion exactly
-- if each block of `bs` is among them, and the payload that it then passes on is `bs`.
pub packets_reassembled :
    {E : Type 0} (send : CoapMessage → Option (List ℕ) → Option E) (counter : ℕ)
    (orig : CoapMessage) (bs is : List ℕ) (ms : List CoapMessage) (i : ℕ) (m : CoapMessage)
    → Delivers bs (packets counter option_block1 orig bs) is ms
    → i ≤ last_number bs
    → get_elem? (packets counter option_block1 orig bs) i ≡ some m
    → (r : Received E) × (receive_all send no_total [] ms m ≡ some r)
      × (r.complete ≡ is_whole bs (i ∷ rev_come is []))
      × (r.complete ≡ true → r.message.payload ≡ some (Payload.bytes_payload bs))
packets_reassembled send counter orig bs is ms i m d h e =
    receive_all_whole send bs is ms i m (Delivers-BringAll counter orig bs is ms d) h
      (packets-Brings counter orig bs i m h e)
