-- ===== src/Arq/Receive/Reassembly.antt =====
-- The receiver of the blocks of one payload, whatever their order and however often each comes.
use coalago.Base.{
  ℕ, ◌≤◌, ◌≡◌, refl, sym, ap, ◌∙◌, true, Option, none, some, List, [], ◌∷◌, ltb, ◌==◌, Bool-cases,
  inl, inr,
}
use coalago.Base.Int.{ℤ, pos}
use coalago.Block.{new_block}
use coalago.Constants.{con, max_payload_size}
use coalago.Message.{Payload, CoapMessage, payload_bytes}
use coalago.Arq.Receive.{Chunk, Received, take_block, receive_block, receive_arq_block1, no_total}
use coalago.Arq.Receive.Buffer.{present}
use coalago.Arq.Receive.Progress.{
  part, last_number, frame_at, Brings, is_whole, IsAfter, collect-IsAfter,
}

-- The messages bring the blocks of `bs` with these numbers.
abbrev pub BringAll : List ℕ → List ℕ → List CoapMessage → Type 0
BringAll bs [] [] = Unit {0}
BringAll bs [] (m ∷ ms) = ⊥
BringAll bs (i ∷ is) [] = ⊥
BringAll bs (i ∷ is) (m ∷ ms) = (i ≤ last_number bs) × Brings (frame_at bs i) m × BringAll bs is ms

-- The numbers `is`, the last first, in front of `come`.
abbrev pub rev_come : List ℕ → List ℕ → List ℕ
rev_come [] come = come
rev_come (i ∷ is) come = rev_come is (i ∷ come)

module _ {E : Type 0} (send : CoapMessage → Option (List ℕ) → Option E) where
  take_block-IsAfter :
      (bs come : List ℕ) (total : ℤ) (buf : List Chunk) (i : ℕ) (m : CoapMessage)
      → i ≤ last_number bs
      → IsAfter bs come total buf
      → let r =
          take_block send
            (new_block (ltb i (last_number bs)) (pos i) (pos max_payload_size))
            (part bs i)
            total
            buf
            m in
        IsAfter bs (i ∷ come) r.total_blocks r.buffer
        × (r.complete ≡ is_whole bs (i ∷ come))
        × (r.complete ≡ true → r.message.payload ≡ some (Payload.bytes_payload bs))
  unfolding take_block
  take_block-IsAfter bs come total buf i m le a =
      let (after, whole) = collect-IsAfter bs come total buf i le a in
      elim (Bool-cases (is_whole bs (i ∷ come))) [
        | inl w ↦ let whole' = rw w at whole in rw (whole', take_block) (after, sym w, λ e. refl)
        | inr w ↦ let whole' = rw w at whole in rw (whole', take_block) (after, sym w, λ e. cc e)
      ]

  -- One block of `bs` more, after the blocks with the numbers `come`: the receiver does not panic,
  -- its state is the state after that block too, it reports completion exactly if all blocks have
  -- then come, and what it passes on is then the payload `bs`.
  pub receive_arq_block1_step :
      (bs come : List ℕ) (total : ℤ) (buf : List Chunk) (i : ℕ) (m : CoapMessage)
      → i ≤ last_number bs
      → IsAfter bs come total buf
      → Brings (frame_at bs i) m
      → (r : Received E) × (receive_arq_block1 send total buf m ≡ some r)
        × IsAfter bs (i ∷ come) r.total_blocks r.buffer
        × (r.complete ≡ is_whole bs (i ∷ come))
        × (r.complete ≡ true → r.message.payload ≡ some (Payload.bytes_payload bs))
  unfolding receive_arq_block1 receive_block payload_bytes
  receive_arq_block1_step bs come total buf i m le a b =
      let block = new_block (ltb i (last_number bs)) (pos i) (pos max_payload_size) in
      let (after, whole, bytes) = take_block-IsAfter bs come total buf i m le a in
      (
        take_block send block (part bs i) total buf m,
        ap (λ x. receive_block send x (m.type == con) m.payload total buf m) b.block_ok
            ∙ ap (λ x. receive_block send (some block) (x == con) m.payload total buf m) b.type_ok
            ∙ ap (λ x. receive_block send (some block) true x total buf m) b.payload_ok,
        after,
        whole,
        bytes,
      )

  -- localStateReceiveARQBlock1 for each message in turn, with the state that the one before left.
  unfoldable pub receive_all : ℤ → List Chunk → List CoapMessage → CoapMessage → Option (Received E)
  receive_all total buf [] m = receive_arq_block1 send total buf m
  receive_all total buf (m ∷ ms) last = elim (receive_arq_block1 send total buf m) [
    | none ↦ none
    | some r ↦ receive_all r.total_blocks r.buffer ms last
  ]

  receive_all_from :
      (bs come is : List ℕ) (total : ℤ) (buf : List Chunk) (ms : List CoapMessage) (i : ℕ)
      (m : CoapMessage)
      → IsAfter bs come total buf
      → BringAll bs is ms
      → i ≤ last_number bs
      → Brings (frame_at bs i) m
      → (r : Received E) × (receive_all total buf ms m ≡ some r)
        × (r.complete ≡ is_whole bs (i ∷ rev_come is come))
        × (r.complete ≡ true → r.message.payload ≡ some (Payload.bytes_payload bs))
  unfolding receive_all
  receive_all_from bs come [] total buf [] i m a b le h =
      let (r, e, after, whole, bytes) = receive_arq_block1_step bs come total buf i m le a h in
      (r, e, whole, bytes)
  receive_all_from bs come [] total buf (x ∷ ms) i m a b le h = absurd b
  receive_all_from bs come (j ∷ is) total buf [] i m a b le h = absurd b
  receive_all_from bs come (j ∷ is) total buf (x ∷ ms) i m a (lex, bx, b) le h =
      let (r, e, after, _, _) = receive_arq_block1_step bs come total buf j x lex a bx in
      rw (e, receive_all)
        (receive_all_from bs (j ∷ come) is r.total_blocks r.buffer ms i m after b le h)

  -- A receiver that starts with an empty buffer and gets the blocks of `bs` in any order, each as
  -- often as it comes: it never panics, and on the last of these messages it reports completion
  -- exactly if every block is among them; what it then passes on is the payload `bs`.
  pub receive_all_whole :
      (bs is : List ℕ) (ms : List CoapMessage) (i : ℕ) (m : CoapMessage)
      → BringAll bs is ms
      → i ≤ last_number bs
      → Brings (frame_at bs i) m
      → (r : Received E) × (receive_all no_total [] ms m ≡ some r)
        × (r.complete ≡ is_whole bs (i ∷ rev_come is []))
        × (r.complete ≡ true → r.message.payload ≡ some (Payload.bytes_payload bs))
  receive_all_whole bs is ms i m b le h =
      receive_all_from bs [] is no_total [] ms i m
        (record { holds = tt; same = λ j. unfold present in refl; total_ok = refl }) b le h
