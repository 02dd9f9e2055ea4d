-- ===== src/Transport/Silence.antt =====
-- transport.go: sendCON while its peer is silent, and after that.

use coalago.Base.{
  ℕ, zero, suc, ◌+◌, ◌≡◌, refl, sym, ap, ◌∙◌, false, none, arith, List, [], ◌∷◌, ◌++◌, length,
}
use coalago.Constants.{Error, max_send_attempts}
use coalago.Encryption.{UrlParser}
use coalago.Message.{CoapMessage, is_big_payload}
use coalago.Results.{Result}
use coalago.Session.{Primitives}
use coalago.Transport.{Endpoint, Chance, Host, M, Reading, ◌>>=◌, fail, written_to}
use coalago.Transport.Exchange.{take_response, attempt_loop, send_con}
use coalago.Transport.Input.{receive_message, receive_loop}
use coalago.Transport.Output.{preparation_sending_message}

-- The connection gives nothing until each of these deadlines.
abbrev pub silence : List ℕ → List (ℕ × Reading)
silence [] = []
silence (t ∷ ts) = (t, Reading.deadline) ∷ silence ts

abbrev pub last_of : ℕ → List ℕ → ℕ
last_of t [] = t
last_of t (s ∷ ts) = last_of s ts

-- One entry for each deadline.
abbrev pub for_each : {A : Type 0} → A → List ℕ → List A
for_each x [] = []
for_each x (t ∷ ts) = x ∷ for_each x ts

-- n and one more for each deadline
abbrev more : List ℕ → ℕ → ℕ
more [] n = n
more (t ∷ ts) n = suc (more ts n)

more-length : (ts : List ℕ) (n k : ℕ) → length ts + n ≡ k → more ts n ≡ k
more-length [] n k e = omega (arith, e)
more-length (t ∷ ts) n zero e = omega (arith, e)
more-length (t ∷ ts) n (suc k) e = ap suc (more-length ts n k (omega (arith, e)))

-- The host after it has written `bytes` before each deadline.
abbrev pub waited :
    {p : Primitives} → List ℕ × List ℕ → List ℕ → List (ℕ × Reading) → Host p → Host p
waited written ts later h = record h {
  now = last_of h.now ts;
  incoming = later;
  written = for_each written ts ++ h.written;
}

for_each-append :
    {A : Type 0} (x : A) (ts : List ℕ) (xs : List A)
    → for_each x ts ++ (x ∷ xs) ≡ x ∷ (for_each x ts ++ xs)
for_each-append x [] xs = refl
for_each-append x (t ∷ ts) xs = ap (λ ys. x ∷ ys) (for_each-append x ts xs)

module _ (p : Primitives) (url : UrlParser) (chance : Chance) (tr : Endpoint)
    (send_blocks : CoapMessage → List ℕ → M p (Unit {0})) (bytes : List ℕ)
    (writes : tr.write bytes ≡ none) where
  -- One write for each deadline, and the attempts that are left.
  attempt_loop-silence :
      (ts : List ℕ) (left : ℕ) (m : CoapMessage) (later : List (ℕ × Reading)) (h : Host p)
      → h.incoming ≡ silence ts ++ later
      → attempt_loop p url chance tr send_blocks (more ts left) bytes m h
        ≡ attempt_loop p url chance tr send_blocks left bytes m
            (waited (tr.remote_addr, bytes) ts later h)
  unfolding attempt_loop written_to ◌>>=◌ receive_message receive_loop
  attempt_loop-silence [] left m later h e = rw (sym e) refl
  attempt_loop-silence (t ∷ ts) left m later h e =
      rw (writes, e)
        (attempt_loop-silence ts left m later _ refl
          ∙ rw (for_each-append (tr.remote_addr, bytes) ts h.written) refl)

  -- The first write has been made.
  attempt_loop-answered :
      (left : ℕ) (m r : CoapMessage) (h h' : Host p)
      → receive_message p url chance tr send_blocks m
          (record h { written = (tr.remote_addr, bytes) ∷ h.written })
        ≡ (Result.ok r, h')
      → attempt_loop p url chance tr send_blocks (suc left) bytes m h
        ≡ take_response p url chance tr send_blocks m r h'
  unfolding attempt_loop written_to ◌>>=◌
  attempt_loop-answered left m r h h' e = rw (writes, e) refl

  module _ (send_blocks1 : CoapMessage → M p CoapMessage) (m : CoapMessage) (h h1 : Host p)
      (small : is_big_payload m ≡ false)
      (prepares : preparation_sending_message p url chance tr m tr.remote_addr h
        ≡ (Result.ok bytes, h1)) where
    send_con-loop :
        send_con p url chance tr send_blocks send_blocks1 m h
        ≡ attempt_loop p url chance tr send_blocks max_send_attempts bytes m h1
    unfolding send_con ◌>>=◌
    send_con-loop = rw (small, prepares) refl

    -- A confirmable message with a small payload that is prepared as `bytes`, on a connection that
    -- takes each write of them and is silent for six deadlines: sendCON writes `bytes` six times,
    -- and no more, and fails with ErrMaxAttempts at the last deadline.
    pub send_con_silent :
        (ts : List ℕ) (later : List (ℕ × Reading))
        → length ts ≡ max_send_attempts
        → h1.incoming ≡ silence ts ++ later
        → send_con p url chance tr send_blocks send_blocks1 m h
          ≡ (Result.err Error.max_attempts, waited (tr.remote_addr, bytes) ts later h1)
    send_con_silent ts later count reads =
        send_con-loop
        ∙ ap (λ n. attempt_loop p url chance tr send_blocks n bytes m h1)
            (sym (more-length ts 0 max_send_attempts (omega (arith, count))))
        ∙ attempt_loop-silence ts 0 m later h1 reads
        ∙ unfold attempt_loop fail in refl

    -- A confirmable message with a small payload that is prepared as `bytes`, on a connection that
    -- takes each write of them and is silent for fewer than six deadlines: after one write for each
    -- deadline and one more, the message that receiveMessage then returns is the response that
    -- sendCON goes on with.
    pub send_con_answered :
        (ts : List ℕ) (left : ℕ) (later : List (ℕ × Reading)) (r : CoapMessage) (h2 : Host p)
        → length ts + suc left ≡ max_send_attempts
        → h1.incoming ≡ silence ts ++ later
        → receive_message p url chance tr send_blocks m (record h1 {
          now = last_of h1.now ts;
          incoming = later;
          written = (tr.remote_addr, bytes) ∷ (for_each (tr.remote_addr, bytes) ts ++ h1.written);
        })
          ≡ (Result.ok r, h2)
        → send_con p url chance tr send_blocks send_blocks1 m h
          ≡ take_response p url chance tr send_blocks m r h2
    send_con_answered ts left later r h2 count reads answer =
        send_con-loop
        ∙ ap (λ n. attempt_loop p url chance tr send_blocks n bytes m h1)
            (sym (more-length ts (suc left) max_send_attempts count))
        ∙ attempt_loop-silence ts (suc left) m later h1 reads
        ∙ attempt_loop-answered left m r _ h2 answer
