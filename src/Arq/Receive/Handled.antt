-- ===== src/Arq/Receive/Handled.antt =====
-- localstate.go: when the request of a block transfer is handed to its handler.
use coalago.Base.{
  ℕ, ◌≤◌, ◌≡◌, refl, ap, ◌∙◌, true, false, Option, none, some, List, ◌∷◌, ◌==◌, if◌then◌else◌,
}
use coalago.Base.Int.{ℤ}
use coalago.Constants.{con}
use coalago.Message.{Payload, CoapMessage}
use coalago.Arq.Receive.{Chunk, Selected, select_handler}
use coalago.Arq.Receive.Progress.{last_number, frame_at, Brings, is_whole, IsAfter}
use coalago.Arq.Receive.Reassembly.{receive_arq_block1_step}

module _ {E : Type 0} (send : CoapMessage → Option (List ℕ) → Option E) where
  -- A block of `bs`, after the blocks with the numbers `come`, does not panic and goes to no channel;
  -- the handler is called if and only if all the blocks have then come, with the payload `bs`.
  pub select_handler_step :
      (bs come : List ℕ) (total : ℤ) (buf : List Chunk) (i : ℕ) (m : CoapMessage)
      → i ≤ last_number bs
      → IsAfter bs come total buf
      → Brings (frame_at bs i) m
      → (s : Selected) × (select_handler send total buf m ≡ some s)
        × IsAfter bs (i ∷ come) s.total_blocks s.buffer
        × (s.channelled ≡ none)
        × (is_whole bs (i ∷ come) ≡ false → s.handled ≡ none)
        × (is_whole bs (i ∷ come) ≡ true
            → (m' : CoapMessage) × (s.handled ≡ some m')
              × (m'.payload ≡ some (Payload.bytes_payload bs)))
  unfolding select_handler
  select_handler_step bs come total buf i m le a b =
      let (r, e, after, whole, bytes) = receive_arq_block1_step send bs come total buf i m le a b in
      let confirmable : (m.type == con) ≡ true = ap (λ x. x == con) b.type_ok in
      (
        record {
          total_blocks = r.total_blocks;
          buffer = r.buffer;
          handled = if r.complete then some r.message else none;
          channelled = none;
        },
        rw (b.block_ok, select_handler)
            (rw (confirmable, select_handler) (rw (e, select_handler) refl)),
        after,
        refl,
        λ w. rw (whole ∙ w) refl,
        λ w. (r.message, rw (whole ∙ w) refl, bytes (whole ∙ w)),
      )
