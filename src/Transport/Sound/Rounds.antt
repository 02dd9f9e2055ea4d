-- ===== src/Transport/Sound/Rounds.antt =====
-- transport.go: the loops of sendCON and receiveARQBlock2 are safe.
use coalago.Base.{
  ℕ, zero, suc, ◌+◌, ◌≢◌, refl, Option, none, some, List, [], ◌==◌, Option-cases, Bool-cases, inl,
  inr, ◌≡◌, true,
}
use coalago.Base.Int.{ℤ}
use coalago.Arq.Receive.{Chunk, Collected, no_total}
use coalago.Arq.Receive.Download.{Taken, take}
use coalago.Block.{Block, get_block2}
use coalago.Constants.{max_send_attempts}
use coalago.Encryption.{UrlParser}
use coalago.Encryption.Ready.{HasPayload}
use coalago.Message.{CoapMessage, Payload, is_big_payload}
use coalago.Results.{Result}
use coalago.Session.{Primitives}
use coalago.Session.Ready.{Anything}
use coalago.Transport.{Endpoint, Chance, Host, M}
use coalago.Transport.Exchange.{
  again_after, is_session_error, is_timeout, unless_timeout, finished, next_round, download_loop,
  download_rounds, first_round, answered_anyway, download_after, take_response, attempt_loop,
}
use coalago.Transport.Sound.{
  Ends, Safe, Safe-fail, Safe-return, Safe-then, Safe-if, Safe-ignoring_error,
}
use coalago.Transport.Sound.Arriving.{receive_message-Safe}
use coalago.Transport.Sound.Securing.{written_to-Safe, send_ack-Safe}

module _ {p : Primitives} {A B : Type 0} (Q : A → Type 0) (R : B → Type 0) where
  unless_timeout-Ends :
      (after : M p B) (f : A → M p B) (r : Result A × Host p)
      → Ends Q r
      → Safe R after
      → ((a : A) → Q a → Safe R (f a))
      → Ends R (unless_timeout after f r)
  unless_timeout-Ends after f _ (Ends.done a h s q) k l = (l a q).from_host h s
  unless_timeout-Ends after f _ (Ends.failed e h s) k l = elim (Bool-cases (is_timeout e)) [
    | inl x ↦ rw x (k.from_host h s)
    | inr x ↦ rw x (Ends.failed e h s)
  ]
  unless_timeout-Ends after f _ (Ends.waits h s) k l = Ends.waits h s

module _ {p : Primitives} {A : Type 0} (Q : A → Type 0) where
  pub again_after-Ends :
      (again : M p A) (r : Result A × Host p)
      → Ends Q r
      → Safe Q again
      → Ends Q (again_after again r)
  again_after-Ends again _ (Ends.done a h s q) k = Ends.done a h s q
  again_after-Ends again _ (Ends.failed e h s) k = elim (Bool-cases (is_session_error e)) [
    | inl x ↦ rw x (k.from_host h s)
    | inr x ↦ rw x (Ends.failed e h s)
  ]
  again_after-Ends again _ (Ends.waits h s) k = Ends.waits h s

-- What the loop does with a message that has a payload is no crash.
data NoCrash : Taken → Type 0 where
  skipped : NoCrash Taken.skip
  took : (c : Collected) → NoCrash (Taken.took c)

take-NoCrash :
    (o : Option Block) (load : Option Payload) (total : ℤ) (buf : List Chunk)
    → load ≢ none
    → NoCrash (take o load total buf)
unfolding take
take-NoCrash none load total buf h = NoCrash.skipped
take-NoCrash (some b) none total buf h = absurd (h refl)
take-NoCrash (some b) (some x) total buf h = NoCrash.took _

module _ (p : Primitives) (url : UrlParser) (chance : Chance) (tr : Endpoint)
    (send_blocks : CoapMessage → List ℕ → M p (Unit {0}))
    (blocks : (n : CoapMessage) (a : List ℕ)
      → is_big_payload n ≡ true
      → Safe Anything (send_blocks n a)) where
  finished-Safe :
      (orig m : CoapMessage) (bytes : List ℕ)
      → Safe HasPayload (finished p url chance tr send_blocks orig m bytes)
  unfolding finished
  finished-Safe orig m bytes =
      Safe-then HasPayload _ _ (send_ack-Safe p url chance tr _)
        (λ _. Safe-return HasPayload _ (record { payload_there = λ q. cc q }))

  next_round-Safe :
      (orig m : CoapMessage) (again : ℤ → List Chunk → M p CoapMessage) (total : ℤ)
      (buf : List Chunk) (t : Taken)
      → NoCrash t
      → ((n : ℤ) (b : List Chunk) → Safe HasPayload (again n b))
      → Safe HasPayload (next_round p url chance tr send_blocks orig m again total buf t)
  unfolding next_round
  next_round-Safe orig m again total buf _ NoCrash.skipped k = k total buf
  next_round-Safe orig m again total buf _ (NoCrash.took c) k = elim (Option-cases c.whole) [
    | inl e ↦
        rw (e, next_round)
          (Safe-then HasPayload _ _ (send_ack-Safe p url chance tr _)
            (λ _. k c.total_blocks c.buffer))
    | inr (bytes, e) ↦ rw (e, next_round) (finished-Safe orig m bytes)
  ]

  download_loop-Safe :
      (fuel : ℕ) (orig : CoapMessage) (attempts : ℕ) (total : ℤ) (buf : List Chunk)
      → Safe HasPayload (download_loop p url chance tr send_blocks fuel orig attempts total buf)
  unfolding download_loop
  download_loop-Safe zero orig attempts total buf = record { from_host = λ h s. Ends.waits h s }
  download_loop-Safe (suc fuel) orig attempts total buf = record {
    from_host = λ h s.
        unless_timeout-Ends HasPayload HasPayload _ _ _
          ((receive_message-Safe p url chance tr send_blocks blocks orig).from_host h s)
          (elim (Bool-cases (attempts == max_send_attempts)) [
            | inl e ↦ rw e (Safe-fail HasPayload _)
            | inr e ↦ rw e (download_loop-Safe fuel orig (attempts + 1) total buf)
          ])
          (λ m q.
            next_round-Safe orig m _ total buf _ (take-NoCrash _ _ total buf q.payload_there)
              (λ n b. download_loop-Safe fuel orig attempts n b));
  }

  download_rounds-Safe :
      (orig : CoapMessage) (total : ℤ) (buf : List Chunk)
      → Safe HasPayload (download_rounds p url chance tr send_blocks orig total buf)
  unfolding download_rounds
  download_rounds-Safe orig total buf = record {
    from_host = λ h s. (download_loop-Safe _ orig 0 total buf).from_host h s;
  }

  answered_anyway-Safe :
      (m : CoapMessage) → Safe Anything (answered_anyway p url chance tr send_blocks m)
  unfolding answered_anyway
  answered_anyway-Safe m = Safe-ignoring_error Anything _ (send_ack-Safe p url chance tr m)

  first_round-Safe :
      (orig m : CoapMessage) (t : Taken)
      → NoCrash t
      → Safe HasPayload (first_round p url chance tr send_blocks orig m t)
  unfolding first_round
  first_round-Safe orig m _ NoCrash.skipped = download_rounds-Safe orig no_total []
  first_round-Safe orig m _ (NoCrash.took c) = elim (Option-cases c.whole) [
    | inl e ↦
        rw (e, first_round)
          (Safe-then HasPayload _ _ (answered_anyway-Safe _) (λ _. download_rounds-Safe orig _ _))
    | inr (bytes, e) ↦
        rw (e, first_round)
          (Safe-then HasPayload _ _ (answered_anyway-Safe _)
            (λ _. Safe-return HasPayload _ (record { payload_there = λ q. cc q })))
  ]

  download_none-Safe :
      (orig : CoapMessage) → Safe HasPayload (download_after p url chance tr send_blocks orig none)
  unfolding download_after
  download_none-Safe orig = download_rounds-Safe orig no_total []

  download_some-Safe :
      (orig m : CoapMessage)
      → HasPayload m
      → Safe HasPayload (download_after p url chance tr send_blocks orig (some m))
  unfolding download_after
  download_some-Safe orig m q =
      first_round-Safe orig m _ (take-NoCrash _ _ no_total [] q.payload_there)

  take_response-Safe :
      (orig m : CoapMessage)
      → HasPayload m
      → Safe HasPayload (take_response p url chance tr send_blocks orig m)
  unfolding take_response
  take_response-Safe orig m q = elim (Option-cases (get_block2 m)) [
    | inl e ↦
        rw (e, take_response)
          (Safe-if HasPayload _ _ _ (Safe-return HasPayload m q)
            (Safe-if HasPayload _ _ _ (download_none-Safe orig) (Safe-return HasPayload m q)))
    | inr (b, e) ↦
        rw (e, take_response)
          (Safe-if HasPayload _ _ _ (Safe-return HasPayload m q)
            (Safe-if HasPayload _ _ _ (download_none-Safe orig) (download_some-Safe orig m q)))
  ]

  pub attempt_loop-Safe :
      (left : ℕ) (bytes : List ℕ) (orig : CoapMessage)
      → Safe HasPayload (attempt_loop p url chance tr send_blocks left bytes orig)
  unfolding attempt_loop
  attempt_loop-Safe zero bytes orig = Safe-fail HasPayload _
  attempt_loop-Safe (suc left) bytes orig = Safe-then HasPayload _ _ (written_to-Safe _ _ _) (λ _.
      record {
        from_host = λ h s.
            unless_timeout-Ends HasPayload HasPayload _ _ _
              ((receive_message-Safe p url chance tr send_blocks blocks orig).from_host h s)
              (attempt_loop-Safe left bytes orig) (take_response-Safe orig);
      })
