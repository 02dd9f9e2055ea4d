-- ===== src/Server/Relay/Answered.antt =====
-- server.go: a request that is forwarded and its answer.
use coalago.Base.{
  ℕ, ◌+◌, ◌≡◌, ◌≤◌, ◌<◌, refl, sym, ap, ◌∙◌, true, false, Option, none, some, List, ◌++◌, ◌==◌,
  ◌||◌, ltb, length, arith,
}
use coalago.Constants.{Error, mtu}
use coalago.Codec.{serialize}
use coalago.Message.{CoapMessage, remove_options}
use coalago.Results.{Result}
use coalago.Server.{ProxyNote, NoteCache, Server, Waiting}
use coalago.Server.Relay.{
  Route, note_key, relay_or, route_message, listen_step, without_proxy, send_multy_proxy, forward,
}
use coalago.Transport.Input.{preparation_for_local_states}

-- What is documented of go-cache: SetDefault keeps a value for the time of the cache.
pub record Keeps (c : NoteCache) (lifetime : ℕ) : Type 0 where
  pub found_after :
      (now later : ℕ) (key : List ℕ) (note : ProxyNote) (store : c.Store)
      → now ≤ later
      → later < now + lifetime
      → c.find later key (c.keep now key note store) ≡ some note

small : (n : ℕ) → 0 < n → n ≤ mtu → (n == 0 || ltb mtu n) ≡ false
small n h k = ground arith

relay_or_found :
    (c : NoteCache) (now : ℕ) (m : CoapMessage) (sender bytes : List ℕ) (note : ProxyNote)
    (s : Server c) (other : Route)
    → c.find now (note_key m sender) s.proxy_cache ≡ some note
    → relay_or now m sender bytes s other ≡ (
      Route.relayed note bytes,
      record s { proxy_cache = c.keep now (note_key m sender) note s.proxy_cache },
    )
unfolding relay_or
relay_or_found c now m sender bytes note s other e = rw (e, relay_or) refl

listen_step_found :
    (c : NoteCache) (now : ℕ) (bq : Waiting) (sender bytes : List ℕ) (r : CoapMessage)
    (note : ProxyNote) (s : Server c)
    → 0 < length bytes
    → length bytes ≤ mtu
    → preparation_for_local_states bytes sender ≡ Result.ok r
    → c.find now (note_key r sender) s.proxy_cache ≡ some note
    → listen_step now bq sender bytes s ≡ (
      Route.relayed note bytes,
      record s { proxy_cache = c.keep now (note_key r sender) note s.proxy_cache },
    )
unfolding listen_step route_message
listen_step_found c now bq sender bytes r note s some_bytes fits read e =
    rw (small (length bytes) some_bytes fits, read) (relay_or_found c now r sender bytes note s _ e)

-- A request that a server with its proxy enabled has forwarded to `host`: a datagram that comes from
-- there within the time of the cache, passes the checks and has the request's token, goes to the
-- address of the note, byte for byte; and the note is kept again.
pub listen_step-forward :
    (c : NoteCache) (lifetime : ℕ) (keeps : Keeps c lifetime)
    (write_to : List ℕ → List ℕ → Option Error) (now later : ℕ) (bq : Waiting) (m r : CoapMessage)
    (host bytes : List ℕ) (note : ProxyNote) (s : Server c)
    → s.proxy_enable ≡ true
    → write_to (serialize (without_proxy m)).0 host ≡ none
    → now ≤ later
    → later < now + lifetime
    → 0 < length bytes
    → length bytes ≤ mtu
    → preparation_for_local_states bytes host ≡ Result.ok r
    → r.token ≡ m.token
    → let s' = (forward write_to now m (some host) note s).1 in
      listen_step later bq host bytes s' ≡ (
        Route.relayed note bytes,
        record s' { proxy_cache = c.keep later (note_key r host) note s'.proxy_cache },
      )
listen_step-forward c lifetime keeps write_to now later bq m r host bytes note s enabled sent le lt
      some_bytes fits read same =
    listen_step_found c later bq host bytes r note _ some_bytes fits read
      (rw (ap (λ u. u.proxy_cache) forwarded) again)
  where
    token_kept : (without_proxy m).token ≡ m.token
    token_kept = unfold without_proxy remove_options in refl

    stored : Server c
    stored = record s {
      proxy_cache = c.keep now (note_key (without_proxy m) host) note s.proxy_cache;
    }

    forwarded : (forward write_to now m (some host) note s).1 ≡ stored
    forwarded = unfold forward send_multy_proxy in rw (enabled, sent) refl

    key_same : note_key r host ≡ note_key (without_proxy m) host
    key_same = ap (λ t. t ++ host) (same ∙ sym token_kept)

    again : c.find later (note_key r host) stored.proxy_cache ≡ some note
    again = rw key_same (keeps.found_after now later _ note s.proxy_cache le lt)
