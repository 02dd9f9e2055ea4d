-- ===== src/Server/Relay/Closed.antt =====
-- server.go: a server whose proxy is not enabled is no relay.
use coalago.Base.{
  ℕ, ◌≡◌, refl, Bool, true, false, Option, none, some, List, ◌==◌, ◌||◌, ◌&&◌, not, ltb, length,
  if◌then◌else◌, Bool-cases, Option-cases, inl, inr,
}
use coalago.Checksum.{deserialize_checked}
use coalago.Constants.{Error, mtu}
use coalago.Message.{CoapMessage}
use coalago.Message.Accessors.{get_option_proxy_uri_as_string}
use coalago.Results.{Result}
use coalago.Server.{ProxyNote, NoteCache, Server, Waiting, has_waiting}
use coalago.Server.Relay.{
  Route, is_peer_hello, handled_or_processed, note_key, relay_or, route_message, listen_step,
  tcp_step, send_multy_proxy, forward,
}

-- Nothing is relayed.
pub data IsLocal : Route → Type 0 where
  local_drop : IsLocal Route.dropped
  local_forward : (m : CoapMessage) → IsLocal (Route.forwarded m)
  local_hand : (m : CoapMessage) → IsLocal (Route.handed m)
  local_process : (m : CoapMessage) → IsLocal (Route.processed m)

handled-IsLocal :
    (bq : Waiting) (m : CoapMessage) (sender : List ℕ) → IsLocal (handled_or_processed bq m sender)
unfolding handled_or_processed
handled-IsLocal bq m sender = elim (Bool-cases (is_peer_hello m && has_waiting m sender bq)) [
  | inl e ↦ rw e (IsLocal.local_hand m)
  | inr e ↦ rw e (IsLocal.local_process m)
]

chosen :
    (b : Bool) (m : CoapMessage) (other : Route)
    → IsLocal other
    → IsLocal (if b then Route.forwarded m else other)
chosen true m other loc = IsLocal.local_forward m
chosen false m other loc = loc

module _ {c : NoteCache} (write_to : List ℕ → List ℕ → Option Error) where
  -- The server after datagrams, frames and requests to forward, from `s` on.
  pub data Serves (s : Server c) : Server c → Type 0 where
    start : Serves s s
    datagram :
        (now : ℕ) (bq : Waiting) (sender bytes : List ℕ) (t : Server c)
        → Serves s t
        → Serves s (listen_step now bq sender bytes t).1
    frame :
        (now : ℕ) (bq : Waiting) (sender bytes : List ℕ) (t : Server c)
        → Serves s t
        → Serves s (tcp_step now bq sender bytes t).1
    request :
        (now : ℕ) (m : CoapMessage) (host : Option (List ℕ)) (note : ProxyNote) (t : Server c)
        → Serves s t
        → Serves s (forward write_to now m host note t).1

  -- The proxy is not enabled, and no note is there.
  pub record IsClosed (s : Server c) : Type 0 where
    pub disabled : s.proxy_enable ≡ false
    pub empty : (now : ℕ) (key : List ℕ) → c.find now key s.proxy_cache ≡ none

  Stays : Route × Server c → Type 0
  Stays r = IsLocal r.0 × IsClosed r.1

  relay_or-Stays :
      (now : ℕ) (m : CoapMessage) (sender bytes : List ℕ) (s : Server c) (other : Route)
      → IsClosed s
      → IsLocal other
      → Stays (relay_or now m sender bytes s other)
  unfolding relay_or Stays
  relay_or-Stays now m sender bytes s other closed loc =
      rw (closed.empty now (note_key m sender), relay_or) (loc, closed)

  route_message-Stays :
      (now : ℕ) (bq : Waiting) (sender bytes : List ℕ) (s : Server c) (r : Result CoapMessage)
      → IsClosed s
      → Stays (route_message now bq sender bytes s r)
  unfolding route_message Stays
  route_message-Stays now bq sender bytes s (Result.ok m) closed =
      relay_or-Stays now m sender bytes s _ closed (chosen _ m _ (handled-IsLocal bq m sender))
  route_message-Stays now bq sender bytes s (Result.err e) closed = (IsLocal.local_drop, closed)
  route_message-Stays now bq sender bytes s Result.panic closed = (IsLocal.local_drop, closed)
  route_message-Stays now bq sender bytes s Result.blocked closed = (IsLocal.local_drop, closed)

  listen_step-Stays :
      (now : ℕ) (bq : Waiting) (sender bytes : List ℕ) (s : Server c)
      → IsClosed s
      → Stays (listen_step now bq sender bytes s)
  unfolding listen_step Stays
  listen_step-Stays now bq sender bytes s closed =
      elim (Bool-cases (length bytes == 0 || ltb mtu (length bytes))) [
        | inl e ↦ rw e (IsLocal.local_drop, closed)
        | inr e ↦ rw e (route_message-Stays now bq sender bytes s _ closed)
      ]

  tcp_step-Stays :
      (now : ℕ) (bq : Waiting) (sender bytes : List ℕ) (s : Server c)
      → IsClosed s
      → Stays (tcp_step now bq sender bytes s)
  unfolding tcp_step Stays
  tcp_step-Stays now bq sender bytes s closed =
      elim (Option-cases (deserialize_checked bytes).error) [
        | inr (x, e) ↦ rw (e, tcp_step) (IsLocal.local_drop, closed)
        | inl e ↦
            rw (e, tcp_step)
              (elim (Option-cases (deserialize_checked bytes).message) [
                | inl q ↦ rw (q, tcp_step) (IsLocal.local_drop, closed)
                | inr (n, q) ↦ rw (q, tcp_step) (message (record n { sender = some sender }))
              ])
      ]
    where
      message :
          (m : CoapMessage)
          → Stays (
              if not (length (get_option_proxy_uri_as_string m) == 0)
              then (Route.forwarded m, s)
              else relay_or now m sender bytes s (handled_or_processed bq m sender))
      message m = elim (Bool-cases (not (length (get_option_proxy_uri_as_string m) == 0))) [
        | inl e ↦ rw e (IsLocal.local_forward m, closed)
        | inr e ↦ rw e (relay_or-Stays now m sender bytes s _ closed (handled-IsLocal bq m sender))
      ]

  forward-IsClosed :
      (now : ℕ) (m : CoapMessage) (host : Option (List ℕ)) (note : ProxyNote) (s : Server c)
      → IsClosed s
      → ((forward write_to now m host note s).0.written ≡ none)
        × IsClosed (forward write_to now m host note s).1
  unfolding forward send_multy_proxy
  forward-IsClosed now m none note s closed = (refl, closed)
  forward-IsClosed now m (some h) note s closed =
      let kept : IsClosed (record s { proxy_enable = false }) = record {
        disabled = refl;
        empty = closed.empty;
      } in
      rw closed.disabled (refl, kept)

  Serves-IsClosed : {s t : Server c} → IsClosed s → Serves s t → IsClosed t
  unfolding Stays
  Serves-IsClosed closed Serves.start = closed
  Serves-IsClosed closed (Serves.datagram now bq sender bytes t st) =
      (listen_step-Stays now bq sender bytes t (Serves-IsClosed closed st)).1
  Serves-IsClosed closed (Serves.frame now bq sender bytes t st) =
      (tcp_step-Stays now bq sender bytes t (Serves-IsClosed closed st)).1
  Serves-IsClosed closed (Serves.request now m host note t st) =
      (forward-IsClosed now m host note t (Serves-IsClosed closed st)).1

  -- A server whose proxy is not enabled and that has no notes relays nothing, whatever datagrams,
  -- frames and requests to forward come: no bytes go on to an address of a note, and no request is
  -- written to its host.
  pub Serves-IsLocal :
      (s t : Server c) (now : ℕ) (bq : Waiting) (sender bytes : List ℕ) (m : CoapMessage)
      (host : Option (List ℕ)) (note : ProxyNote)
      → IsClosed s
      → Serves s t
      → IsLocal (listen_step now bq sender bytes t).0
        × IsLocal (tcp_step now bq sender bytes t).0
        × ((forward write_to now m host note t).0.written ≡ none)
  unfolding Stays
  Serves-IsLocal s t now bq sender bytes m host note closed serves =
      let kept = Serves-IsClosed closed serves in
      (
        (listen_step-Stays now bq sender bytes t kept).0,
        (tcp_step-Stays now bq sender bytes t kept).0,
        (forward-IsClosed now m host note t kept).0,
      )
