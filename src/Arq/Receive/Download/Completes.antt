-- ===== src/Arq/Receive/Download/Completes.antt =====
-- The download of a payload whose blocks all come.
use coalago.Base.{
  ℕ, ◌+◌, ◌≤◌, ◌≡◌, refl, ap, ◌∙◌, true, false, Option, none, some, List, [], ◌∷◌, ◌==◌, arith,
  Bool-cases, inl, inr,
}
use coalago.Base.Int.{ℤ, pos}
use coalago.Block.{new_block, get_block2}
use coalago.Constants.{Error, con, max_payload_size, max_send_attempts, code_empty, code_continue}
use coalago.Message.{Payload, CoapMessage, payload_bytes}
use coalago.Arq.{ack_to}
use coalago.Arq.Blocks.{Frame}
use coalago.Arq.Receive.{Chunk, collect}
use coalago.Arq.Receive.Download.{
  Arrival, Download, finish_download, block_of, Taken, take, download,
}
use coalago.Arq.Receive.Progress.{last_number, frame_at, is_whole, IsAfter, collect-IsAfter}

-- A message that brings a block of a response.
pub record Brings2 (f : Frame) (m : CoapMessage) : Type 0 where
  pub block_ok : get_block2 m ≡ some (new_block f.more (pos f.number) (pos max_payload_size))
  pub payload_ok : m.payload ≡ some (Payload.bytes_payload f.bytes)
  pub type_ok : m.type ≡ con

-- What comes: `none` is a timeout, `some i` the block with the number `i`.
abbrev pub Feeds : List ℕ → List (Option ℕ) → List Arrival → Type 0
Feeds bs [] [] = Unit {0}
Feeds bs [] (a ∷ as') = ⊥
Feeds bs (e ∷ es) [] = ⊥
Feeds bs (none ∷ es) (Arrival.timed_out ∷ as') = Feeds bs es as'
Feeds bs (some i ∷ es) (Arrival.message m ∷ as') =
    (i ≤ last_number bs) × Brings2 (frame_at bs i) m × Feeds bs es as'
Feeds bs (none ∷ es) (Arrival.message m ∷ as') = ⊥
Feeds bs (none ∷ es) (Arrival.broken e ∷ as') = ⊥
Feeds bs (some i ∷ es) (Arrival.timed_out ∷ as') = ⊥
Feeds bs (some i ∷ es) (Arrival.broken e ∷ as') = ⊥

-- The number of timeouts.
abbrev pub timeouts : List (Option ℕ) → ℕ
timeouts [] = 0
timeouts (none ∷ es) = 1 + timeouts es
timeouts (some i ∷ es) = timeouts es

-- The numbers that have come in the end, after those that had come before.
abbrev pub all_come : List (Option ℕ) → List ℕ → List ℕ
all_come [] come = come
all_come (none ∷ es) come = all_come es come
all_come (some i ∷ es) come = all_come es (i ∷ come)

block_of-Brings2 :
    (f : Frame) (m : CoapMessage)
    → Brings2 f m
    → block_of m ≡ some (new_block f.more (pos f.number) (pos max_payload_size))
unfolding block_of
block_of-Brings2 f m b = rw (b.block_ok, block_of) (rw (b.type_ok, block_of) refl)

pub take-Brings2 :
    (f : Frame) (m : CoapMessage) (total : ℤ) (buf : List Chunk)
    → Brings2 f m
    → take (block_of m) m.payload total buf
      ≡ Taken.took
          (collect (new_block f.more (pos f.number) (pos max_payload_size)) f.bytes total buf)
unfolding payload_bytes
take-Brings2 f m total buf b =
    ap (λ x. take x m.payload total buf) (block_of-Brings2 f m b)
    ∙ ap (λ x. take (some (new_block f.more (pos f.number) (pos max_payload_size))) x total buf)
        b.payload_ok
    ∙ unfold take in refl

module _ (send : CoapMessage → Option Error) (orig : CoapMessage)
    (sends : (m : CoapMessage) → send m ≡ none) where
  finish_download-received :
      (m : CoapMessage) (bytes : List ℕ)
      → finish_download send orig m bytes
        ≡ Download.received (record m { payload = some (Payload.bytes_payload bytes) })
  unfolding finish_download
  finish_download-received m bytes =
      rw
        (
          sends (
              ack_to (some orig) (record m { payload = some (Payload.bytes_payload bytes) })
                code_empty),
          finish_download,
        )
        refl

  -- A download at any point of it.
  pub download_from :
      (bs come : List ℕ) (es : List (Option ℕ)) (as' : List Arrival) (attempts : ℕ) (total : ℤ)
      (buf : List Chunk)
      → IsAfter bs come total buf
      → is_whole bs come ≡ false
      → Feeds bs es as'
      → attempts + timeouts es ≤ max_send_attempts
      → is_whole bs (all_come es come) ≡ true
      → (m : CoapMessage) × (download send orig attempts total buf as' ≡ Download.received m)
        × (m.payload ≡ some (Payload.bytes_payload bs))
  unfolding download
  download_from bs come [] [] attempts total buf a partial f lim w = cc (partial, w)
  download_from bs come [] (x ∷ as') attempts total buf a partial f lim w = absurd f
  download_from bs come (none ∷ es) [] attempts total buf a partial f lim w = absurd f
  download_from bs come (some i ∷ es) [] attempts total buf a partial f lim w = absurd f
  download_from bs come (none ∷ es) (Arrival.message m ∷ as') attempts total buf a partial f lim w =
      absurd f
  download_from bs come (none ∷ es) (Arrival.broken e ∷ as') attempts total buf a partial f lim w =
      absurd f
  download_from bs come (some i ∷ es) (Arrival.timed_out ∷ as') attempts total buf a partial f lim
        w =
      absurd f
  download_from bs come (some i ∷ es) (Arrival.broken e ∷ as') attempts total buf a partial f lim
        w =
      absurd f
  download_from bs come (none ∷ es) (Arrival.timed_out ∷ as') attempts total buf a partial f lim w =
      let again : (attempts == max_send_attempts) ≡ false = ground arith in
      rw (again, download)
        (download_from bs come es as' (attempts + 1) total buf a partial f (omega arith) w)
  download_from bs come (some i ∷ es) (Arrival.message m ∷ as') attempts total buf a partial
        (le, b, f) lim w =
      let (after, whole) = collect-IsAfter bs come total buf i le a in
      rw (take-Brings2 (frame_at bs i) m total buf b, download)
        (elim (Bool-cases (is_whole bs (i ∷ come))) [
          | inl all ↦
              let whole' = rw all at whole in
              rw (whole', download)
                (
                  record m { payload = some (Payload.bytes_payload bs) },
                  finish_download-received m bs,
                  refl,
                )
          | inr rest ↦
              let whole' = rw rest at whole in
              rw (whole', download)
                (rw (sends (ack_to (some orig) m code_continue), download)
                  (download_from bs (i ∷ come) es as' attempts _ _ after rest f lim w))
        ])
