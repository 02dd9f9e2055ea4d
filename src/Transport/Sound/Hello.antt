-- ===== src/Transport/Sound/Hello.antt =====
-- security.go: the client's hello is small, and what its answer gives is no panic.
use coalago.Base.{refl, false, length, ℕ, some, List, Option-cases, inl, inr, ◌≡◌}
use coalago.Constants.{option_handshake_type}
use coalago.Encryption.Ready.{HasPayload}
use coalago.Message.{
  Payload, payload_bytes, payload_length, CoapMessage, get_option, is_big_payload,
}
use coalago.Session.Ready.{Gives, Anything, gives_rules}
use coalago.Transport.Exchange.{client_hello_of, peer_key_in, accepted_key}
use coalago.Message.Fields.{clone_options-keeps}

pub peer_key_in-Gives : (m : CoapMessage) → HasPayload m → Gives Anything (peer_key_in m)
unfolding peer_key_in
peer_key_in-Gives m h = elim (Option-cases (get_option option_handshake_type m)) [
  | inl e ↦ rw (e, peer_key_in) (search gives_rules)
  | inr (o, e) ↦
      rw (e, peer_key_in)
        (elim (Option-cases m.payload) [
          | inl q ↦ absurd (h.payload_there q)
          | inr (x, q) ↦ rw (q, peer_key_in) (search gives_rules)
        ])
]

pub accepted_key-Gives :
    (orig : CoapMessage) (key : List ℕ) → Gives Anything (accepted_key orig key)
unfolding accepted_key
accepted_key-Gives orig key = elim (Option-cases orig.break_connection_on_pk) [
  | inl e ↦ rw (e, accepted_key) (search gives_rules)
  | inr (f, e) ↦ rw (e, accepted_key) (search gives_rules)
]

pub small-payload :
    (m n : CoapMessage)
    → n.payload ≡ m.payload
    → is_big_payload m ≡ false
    → is_big_payload n ≡ false
unfolding is_big_payload
small-payload m n e h = rw e h

-- A hello has the public key as its payload.
pub hello_small :
    (orig : CoapMessage) (key token : List ℕ) (m : CoapMessage)
    → length key ≡ 32
    → is_big_payload (client_hello_of orig key token m) ≡ false
hello_small orig key token m e =
    small-payload (record m { payload = some (Payload.bytes_payload key) })
      (client_hello_of orig key token m)
      (unfold client_hello_of in clone_options-keeps (λ n. n.payload) (λ n os. refl) orig _ _)
      (unfold is_big_payload payload_length payload_bytes in rw e refl)
