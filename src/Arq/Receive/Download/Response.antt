-- ===== src/Arq/Receive/Download/Response.antt =====
-- The packets of a response, downloaded.
use coalago.Base.{
  ◌∙◌, false, ◌≢◌, ◌==◌, Option-cases, Bool-cases, inl, inr, ℕ, ◌≤◌, ◌≡◌, refl, ap, true, Option,
  none, some, List, [], ◌∷◌, get_elem?, arith,
}
use mathlib.Core.Path.{subst}
use coalago.Block.{get_block2}
use coalago.Block.RoundTrip.{new_block_from_int-to_int, size_of}
use coalago.Constants.{Error, con, max_send_attempts, option_block2}
use coalago.Message.{Payload, CoapMessage}
use coalago.Options.{int_value}
use coalago.Arq.{packets}
use coalago.Arq.Blocks.{Frame, Carries, block2-IsBlockType}
use coalago.Arq.Split.{frames, packets-Sends}
use coalago.Arq.Receive.{no_total}
use coalago.Arq.Receive.Buffer.{present}
use coalago.Arq.Receive.Delivery.{Sends-at, frames-at}
use coalago.Arq.Receive.Download.{
  Arrival, Download, Taken, receive_arq_block2, block_of, take, download,
}
use coalago.Arq.Receive.Download.Completes.{
  Brings2, take-Brings2, Feeds, timeouts, all_come, download_from,
}
use coalago.Arq.Receive.Progress.{last_number, frame_at, is_whole, IsAfter, collect-IsAfter}

Carries-Brings2 : (f : Frame) (m : CoapMessage) → Carries option_block2 f m → Brings2 f m
unfolding size_of get_block2 int_value
Carries-Brings2 f m (o, p, t) = record {
  block_ok =
      rw (o, get_block2) (ap some (new_block_from_int-to_int f.more f.number 6 (omega arith)));
  payload_ok = p;
  type_ok = t;
}

packets-Brings2 :
    (counter : ℕ) (orig : CoapMessage) (bs : List ℕ) (i : ℕ) (m : CoapMessage)
    → i ≤ last_number bs
    → get_elem? (packets counter option_block2 orig bs) i ≡ some m
    → Brings2 (frame_at bs i) m
packets-Brings2 counter orig bs i m h e =
    let (m', e', c) =
      Sends-at option_block2 (frames bs) _ i (frame_at bs i)
        (packets-Sends counter option_block2 orig bs block2-IsBlockType) (frames-at bs i h) in
    let same : m' ≡ m = cc (e, e') in
    subst (Brings2 (frame_at bs i)) same (Carries-Brings2 (frame_at bs i) m' c)

-- What arrives from a sender of the packets `ps`: `none` is a timeout, `some i` the packet with the
-- number `i`.
abbrev pub Serves : List ℕ → List CoapMessage → List (Option ℕ) → List Arrival → Type 0
Serves bs ps [] [] = Unit {0}
Serves bs ps [] (a ∷ as') = ⊥
Serves bs ps (e ∷ es) [] = ⊥
Serves bs ps (none ∷ es) (Arrival.timed_out ∷ as') = Serves bs ps es as'
Serves bs ps (some i ∷ es) (Arrival.message m ∷ as') =
    (i ≤ last_number bs) × (get_elem? ps i ≡ some m) × Serves bs ps es as'
Serves bs ps (none ∷ es) (Arrival.message m ∷ as') = ⊥
Serves bs ps (none ∷ es) (Arrival.broken e ∷ as') = ⊥
Serves bs ps (some i ∷ es) (Arrival.timed_out ∷ as') = ⊥
Serves bs ps (some i ∷ es) (Arrival.broken e ∷ as') = ⊥

Serves-Feeds :
    (counter : ℕ) (orig : CoapMessage) (bs : List ℕ) (es : List (Option ℕ)) (as' : List Arrival)
    → Serves bs (packets counter option_block2 orig bs) es as'
    → Feeds bs es as'
Serves-Feeds counter orig bs [] [] s = tt
Serves-Feeds counter orig bs [] (a ∷ as') s = s
Serves-Feeds counter orig bs (none ∷ es) [] s = s
Serves-Feeds counter orig bs (some i ∷ es) [] s = s
Serves-Feeds counter orig bs (none ∷ es) (Arrival.timed_out ∷ as') s =
    Serves-Feeds counter orig bs es as' s
Serves-Feeds counter orig bs (some i ∷ es) (Arrival.message m ∷ as') (h, e, s) =
    (h, packets-Brings2 counter orig bs i m h e, Serves-Feeds counter orig bs es as' s)
Serves-Feeds counter orig bs (none ∷ es) (Arrival.message m ∷ as') s = s
Serves-Feeds counter orig bs (none ∷ es) (Arrival.broken e ∷ as') s = s
Serves-Feeds counter orig bs (some i ∷ es) (Arrival.timed_out ∷ as') s = s
Serves-Feeds counter orig bs (some i ∷ es) (Arrival.broken e ∷ as') s = s

nothing_come : (bs : List ℕ) → IsAfter bs [] no_total []
nothing_come bs = record { holds = tt; same = λ j. unfold present in refl; total_ok = refl }

block_of-skips : (m : CoapMessage) → m.type ≢ con → block_of m ≡ none
unfolding block_of
block_of-skips m h = elim (Option-cases (get_block2 m)) [
  | inl e ↦ rw (e, block_of) refl
  | inr (b, e) ↦
      let other : (m.type == con) ≡ false = ground (arith, h) in
      rw (e, block_of) (rw (other, block_of) refl)
]

take-skips : (m : CoapMessage) → m.type ≢ con → take (block_of m) m.payload no_total [] ≡ Taken.skip
take-skips m h = ap (λ o. take o m.payload no_total []) (block_of-skips m h) ∙ unfold take in refl

-- What receiveARQBlock2 is given first: no message or one that is not CON, for `none`, or the packet
-- with the number `i`, for `some i`.
abbrev pub Opens : List ℕ → List CoapMessage → Option ℕ → Option CoapMessage → Type 0
Opens bs ps none none = Unit {0}
Opens bs ps none (some m) = m.type ≢ con
Opens bs ps (some i) none = ⊥
Opens bs ps (some i) (some m) = (i ≤ last_number bs) × (get_elem? ps i ≡ some m)

-- The client's download of a response `bs`, from what it is given first and what it then reads: where
-- its answers can be sent, the packets of the response come in any order and any number of times with
-- at most six timeouts in between, and each packet comes at least once, receiveARQBlock2 returns a
-- message whose payload is `bs`. What it is given first is no message, a message that is not CON, or a
-- packet of the response, which then counts among those that come.
pub receive_arq_block2-packets :
    (send : CoapMessage → Option Error) (request : CoapMessage)
    (sends : (m : CoapMessage) → send m ≡ none) (counter : ℕ) (response : CoapMessage) (bs : List ℕ)
    (first : Option ℕ) (given : Option CoapMessage) (es : List (Option ℕ)) (as' : List Arrival)
    → Opens bs (packets counter option_block2 response bs) first given
    → Serves bs (packets counter option_block2 response bs) es as'
    → timeouts es ≤ max_send_attempts
    → is_whole bs (all_come (first ∷ es) []) ≡ true
    → (m : CoapMessage) × (receive_arq_block2 send request given as' ≡ Download.received m)
      × (m.payload ≡ some (Payload.bytes_payload bs))
unfolding receive_arq_block2 download
receive_arq_block2-packets send request sends counter response bs none none es as' o s lim w =
    download_from send request sends bs [] es as' 0 no_total [] (nothing_come bs) refl
      (Serves-Feeds counter response bs es as' s) (omega (arith, lim)) w
receive_arq_block2-packets send request sends counter response bs none (some m) es as' o s lim w =
    rw (take-skips m o, receive_arq_block2)
      (download_from send request sends bs [] es as' 0 no_total [] (nothing_come bs) refl
        (Serves-Feeds counter response bs es as' s) (omega (arith, lim)) w)
receive_arq_block2-packets send request sends counter response bs (some i) none es as' o s lim w =
    absurd o
receive_arq_block2-packets send request sends counter response bs (some i) (some m) es as' (le, e) s
      lim w =
    let b = packets-Brings2 counter response bs i m le e in
    let (after, whole) = collect-IsAfter bs [] no_total [] i le (nothing_come bs) in
    rw (take-Brings2 (frame_at bs i) m no_total [] b, receive_arq_block2)
      (elim (Bool-cases (is_whole bs (i ∷ []))) [
        | inl all ↦
            let whole' = rw all at whole in
            rw (whole', receive_arq_block2)
              (record m { payload = some (Payload.bytes_payload bs) }, refl, refl)
        | inr rest ↦
            let whole' = rw rest at whole in
            rw (whole', receive_arq_block2)
              (download_from send request sends bs (i ∷ []) es as' 0 _ _ after rest
                (Serves-Feeds counter response bs es as' s) (omega (arith, lim)) w)
      ])
