-- ===== src/Transport.antt =====
-- transport.go: what a transport keeps and shares, and what it draws and reads, as a state.
pub mod Output
pub mod Sound
pub mod Input
pub mod Exchange
pub mod Blocks
pub mod Silence
use coalago.Base.{ℕ, zero, suc, ◌+◌, Option, none, some, List, [], ◌∷◌, ◌++◌}
use coalago.Arq.{message_id_of, raise_counter}
use coalago.Constants.{Error}
use coalago.Message.{CoapMessage, new_message, new_message_id}
use coalago.Results.{Result}
use coalago.Session.{Primitives, SecuredSession}
use coalago.Storage.{Cache}

-- A datagram or frame that a read of the connection gives, a deadline that passes, or an error.
pub data Reading : Type 0 where
  arrived : List ℕ → Reading
  deadline : Reading
  broken : Error → Reading

-- The connection of a transport, and its private key. `write` is the error of a write of some bytes,
-- or for `write_to` to an address.
pub record Endpoint : Type 0 where
  pub local_addr : List ℕ
  pub remote_addr : List ℕ
  pub private_key : List ℕ
  pub write : List ℕ → Option Error
  pub write_to : List ℕ → List ℕ → Option Error

-- The random generators, by the number of draws before.
pub record Chance : Type 0 where
  pub word : ℕ → ℕ
  pub key : ℕ → Option (List ℕ)
  pub token : ℕ → List ℕ

-- The sessions, proxyIDSessions, the time, the counter of message ids, the draws so far, what the
-- connection will give, with the time of each, what the channel of a response will give, where `none`
-- is its timer, and what was written, with its address, last first.
pub record Host (p : Primitives) : Type 0 where
  pub sessions : Cache (SecuredSession p)
  pub proxy_ids : Cache ℕ
  pub now : ℕ
  pub counter : ℕ
  pub draws : ℕ
  pub incoming : List (ℕ × Reading)
  pub handed : List (Option CoapMessage)
  pub written : List (List ℕ × List ℕ)

-- The counter after `n` new messages.
abbrev pub raised : ℕ → ℕ → ℕ
raised zero counter = counter
raised (suc n) counter = raised n (raise_counter counter)

module _ (p : Primitives) where
  abbrev pub M : Type 0 → Type 0
  M A = Host p → Result A × Host p

module _ {p : Primitives} where
  abbrev pub bind_result : {A B : Type 0} → Result A × Host p → (A → M p B) → Result B × Host p
  bind_result (Result.ok a, h) f = f a h
  bind_result (Result.err e, h) f = (Result.err e, h)
  bind_result (Result.panic, h) f = (Result.panic, h)
  bind_result (Result.blocked, h) f = (Result.blocked, h)

  infixl 5 ◌>>=◌
  unfoldable pub ◌>>=◌ : {A B : Type 0} → M p A → (A → M p B) → M p B
  ◌>>=◌ m f h = bind_result (m h) f

  unfoldable pub give : {A : Type 0} → Result A → M p A
  give r h = (r, h)

  unfoldable pub return : {A : Type 0} → A → M p A
  return a h = (Result.ok a, h)

  unfoldable pub fail : {A : Type 0} → Error → M p A
  fail e h = (Result.err e, h)

  -- An error that the code only prints.
  abbrev pub forget_result : {A : Type 0} → Result A × Host p → Result (Unit {0}) × Host p
  forget_result (Result.ok a, h) = (Result.ok tt, h)
  forget_result (Result.err e, h) = (Result.ok tt, h)
  forget_result (Result.panic, h) = (Result.panic, h)
  forget_result (Result.blocked, h) = (Result.blocked, h)

  unfoldable pub ignoring_error : {A : Type 0} → M p A → M p (Unit {0})
  ignoring_error m h = forget_result (m h)

  -- A message by NewCoAPMessage or NewCoAPMessageId.
  unfoldable pub fresh_message : Chance → ℕ → ℕ → M p CoapMessage
  fresh_message chance type code h =
      let counter = raise_counter h.counter in
      (
        Result.ok (new_message (message_id_of counter) (chance.token h.draws) type code),
        record h { counter = counter; draws = h.draws + 1 },
      )

  unfoldable pub fresh_message_id : Chance → ℕ → ℕ → ℕ → M p CoapMessage
  fresh_message_id chance type code id h = (
    Result.ok (new_message_id (chance.token h.draws) type code id),
    record h { draws = h.draws + 1 },
  )

  -- NewCoAPMessage, `n` times, of messages whose id and token the code replaces or has taken already.
  unfoldable pub drawn_messages : ℕ → M p (Unit {0})
  drawn_messages n h =
      (Result.ok tt, record h { counter = raised n h.counter; draws = h.draws + n })

  -- A write to the remote address `to`, which `failure` may stop.
  unfoldable pub written_to : List ℕ → List ℕ → Option Error → M p (Unit {0})
  written_to to bytes failure h = elim failure [
    | some e ↦ (Result.err e, h)
    | none ↦ (Result.ok tt, record h { written = (to, bytes) ∷ h.written })
  ]
