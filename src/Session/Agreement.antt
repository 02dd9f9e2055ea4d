-- ===== src/Session/Agreement.antt =====
-- SecuredSession.go: what the two ends of a handshake come to.
use coalago.Base.{
  ◌+◌, ℕ, ◌≡◌, ◌≢◌, refl, ap, ◌∙◌, none, some, List, [], length, arith, bytes_eq_self, take, drop,
  length-take, length-drop,
}
use coalago.Results.{Result}
use coalago.Session.{
  Primitives, Keys, make_nonce, new_static_curve, generate_shared_secret, derive_keys, Aead,
  new_aead, open_text, seal_text, SecuredSession, get_signature, start_session, checked_start,
  verified_keys, verify, peer_verify, confirm, clamped,
}
use coalago.Session.Nonce.{length-make_nonce}

-- What is documented of the primitives: public keys of 32 bytes, Diffie-Hellman, a reader that has as
-- many bytes as are asked for, ciphers for keys of 16 bytes, and that what is sealed has a tag of 16 bytes and can be opened.
pub record Lawful (p : Primitives) : Type 0 where
  pub length_base : (key : List ℕ) → length (p.scalar_base_mult key) ≡ 32
  pub shared :
      (a b : List ℕ)
      → p.scalar_mult a (p.scalar_base_mult b) ≡ p.scalar_mult b (p.scalar_base_mult a)
  pub derived :
      (secret : List ℕ) → (out : List ℕ) × (p.hkdf secret [] [] 40 ≡ some out) × (length out ≡ 40)
  pub cipher : (key : List ℕ) → length key ≡ 16 → (gcm : p.Gcm) × (p.new_gcm key ≡ some gcm)
  pub opened :
      (gcm : p.Gcm) (nonce text associated : List ℕ)
      → length nonce ≡ 12
      → p.gcm_open gcm nonce (p.gcm_seal gcm nonce text associated) associated ≡ some text
  pub tagged :
      (gcm : p.Gcm) (nonce text associated : List ℕ)
      → length (p.gcm_seal gcm nonce text associated) ≡ length text + 16

-- What is sealed with the one is opened with the other, under the same message id; the tag makes the
-- sealed text longer.
abbrev pub Reads : (p : Primitives) → Aead p → Aead p → Type 0
Reads p from to =
    (text associated : List ℕ) (id : ℕ)
    → (sealed : List ℕ) × (seal_text p from text id associated ≡ Result.ok sealed)
      × (length sealed ≡ length text + 16)
      × (open_text p to sealed id associated ≡ Result.ok text)

module _ (p : Primitives) (lawful : Lawful p) where
  -- The keys that HKDF gives have the lengths that NewAEAD wants.
  keys_of_secret :
      (secret : List ℕ)
      → (k : Keys) × (derive_keys p secret [] [] ≡ Result.ok k)
        × (length k.peer_key ≡ 16)
        × (length k.my_key ≡ 16)
        × (length k.peer_iv ≡ 4)
        × (length k.my_iv ≡ 4)
  unfolding derive_keys
  keys_of_secret secret =
      let (out, given, whole) = lawful.derived secret in
      (
        record {
          peer_key = take 16 out;
          my_key = take 16 (drop 16 out);
          peer_iv = take 4 (drop 32 out);
          my_iv = drop 36 out;
        },
        rw given refl,
        omega (arith, length-take 16 out, whole),
        omega (arith, length-take 16 (drop 16 out), length-drop 16 out, whole),
        omega (arith, length-take 4 (drop 32 out), length-drop 32 out, whole),
        omega (arith, length-drop 36 out, whole),
      )

  -- NewAEAD of keys of the right lengths.
  aead_of_keys :
      (peer_key my_key peer_iv my_iv : List ℕ)
      → length peer_key ≡ 16
      → length my_key ≡ 16
      → length peer_iv ≡ 4
      → length my_iv ≡ 4
      → (d e : p.Gcm) × (p.new_gcm peer_key ≡ some d)
        × (p.new_gcm my_key ≡ some e)
        × (new_aead p peer_key my_key peer_iv my_iv
            ≡ Result.ok (record {
              peer_key = peer_key;
              my_key = my_key;
              peer_iv = peer_iv;
              my_iv = my_iv;
              encrypter = some e;
              decrypter = some d;
            }))
  unfolding new_aead
  aead_of_keys peer_key my_key peer_iv my_iv a b c f =
      let (d, de) = lawful.cipher peer_key a in
      let (e, ee) = lawful.cipher my_key b in (d, e, de, ee, rw (a, b, c, f, ee, de) refl)

  -- The keys of a session with a public key of 32 bytes.
  keys_of :
      (s : SecuredSession p)
      → length s.peer_public_key ≡ 32
      → (signature : List ℕ) × (get_signature p s ≡ Result.ok signature)
        × (verified_keys p s signature
            ≡ derive_keys p (p.scalar_mult s.curve.private_key s.peer_public_key) [] [])
  unfolding get_signature verified_keys generate_shared_secret
  keys_of s long =
      let signature = p.sha256 (p.scalar_mult s.curve.private_key s.peer_public_key) in
      (signature, rw long refl, rw (long, bytes_eq_self signature) refl)

  -- What confirm does with Verify and PeerVerify, for the keys of the session's secret.
  confirmed :
      (s : SecuredSession p) (k : Keys)
      → length s.peer_public_key ≡ 32
      → derive_keys p (p.scalar_mult s.curve.private_key s.peer_public_key) [] [] ≡ Result.ok k
      → (confirm p (verify p) s
          ≡ start_session p (new_aead p k.peer_key k.my_key k.peer_iv k.my_iv) s)
        × (confirm p (peer_verify p) s
            ≡ start_session p (new_aead p k.my_key k.peer_key k.my_iv k.peer_iv) s)
  unfolding confirm verify peer_verify checked_start
  confirmed s k long made =
      let (signature, signed, keys) = keys_of s long in
      (rw (signed, confirm, keys, made) refl, rw (signed, confirm, keys, made) refl)

  -- Whatever 32 bytes the peer gave as its key, the check of the signature succeeds at both ends, and
  -- the session has both its ciphers: no signature of the peer is compared.
  pub confirm-accepts :
      (s : SecuredSession p)
      → length s.peer_public_key ≡ 32
      → ((confirm p (verify p) s).1 ≡ none)
        × ((confirm p (verify p) s).0.aead.encrypter ≢ none)
        × ((confirm p (verify p) s).0.aead.decrypter ≢ none)
        × ((confirm p (peer_verify p) s).1 ≡ none)
        × ((confirm p (peer_verify p) s).0.aead.encrypter ≢ none)
        × ((confirm p (peer_verify p) s).0.aead.decrypter ≢ none)
  unfolding start_session
  confirm-accepts s long =
      let (k, made, a, b, c, d) =
        keys_of_secret (p.scalar_mult s.curve.private_key s.peer_public_key) in
      let (f, g, fe, ge, client) = aead_of_keys k.peer_key k.my_key k.peer_iv k.my_iv a b c d in
      let (f', g', fe', ge', server) = aead_of_keys k.my_key k.peer_key k.my_iv k.peer_iv b a d c in
      let (verified, peer_verified) = confirmed s k long made in
      (
        rw (verified, client) refl,
        rw (verified, client) (λ e. cc e),
        rw (verified, client) (λ e. cc e),
        rw (peer_verified, server) refl,
        rw (peer_verified, server) (λ e. cc e),
        rw (peer_verified, server) (λ e. cc e),
      )

  reads :
      (from to : Aead p) (gcm : p.Gcm)
      → from.encrypter ≡ some gcm
      → to.decrypter ≡ some gcm
      → from.my_iv ≡ to.peer_iv
      → length to.peer_iv ≡ 4
      → Reads p from to
  unfolding seal_text open_text
  reads from to gcm e d iv four text associated id =
      let nonce = make_nonce to.peer_iv id in
      (
        p.gcm_seal gcm nonce text associated,
        rw (e, seal_text, iv) refl,
        lawful.tagged gcm nonce text associated,
        rw (d, open_text, lawful.opened gcm nonce text associated (length-make_nonce _ id four))
            refl,
      )

  -- A client and a server with the keys that NewStaticCurve25519 makes, each with the other's public
  -- key: Verify of the one and PeerVerify of the other succeed, and then each opens what the other
  -- seals, under the same message id.
  pub handshake-agrees :
      (a b : List ℕ) (client server : SecuredSession p)
      → client.curve ≡ new_static_curve p a
      → server.curve ≡ new_static_curve p b
      → client.peer_public_key ≡ server.curve.public_key
      → server.peer_public_key ≡ client.curve.public_key
      → let client' = confirm p (verify p) client in
        let server' = confirm p (peer_verify p) server in
        (get_signature p client ≡ get_signature p server)
        × (client'.1 ≡ none)
        × (server'.1 ≡ none)
        × Reads p client'.0.aead server'.0.aead
        × Reads p server'.0.aead client'.0.aead
  unfolding start_session new_static_curve get_signature generate_shared_secret
  handshake-agrees a b client server at bt ct st =
      let theirs : client.peer_public_key ≡ p.scalar_base_mult (clamped b) =
        ct ∙ ap (λ c. c.public_key) bt in
      let ours : server.peer_public_key ≡ p.scalar_base_mult (clamped a) =
        st ∙ ap (λ c. c.public_key) at in
      let client_long : length client.peer_public_key ≡ 32 =
        ap length theirs ∙ lawful.length_base (clamped b) in
      let server_long : length server.peer_public_key ≡ 32 =
        ap length ours ∙ lawful.length_base (clamped a) in
      let same : p.scalar_mult client.curve.private_key client.peer_public_key
          ≡ p.scalar_mult server.curve.private_key server.peer_public_key =
        rw (theirs, ours, at, bt) (lawful.shared (clamped a) (clamped b)) in
      let (k, made, pk, mk, pi, mi) =
        keys_of_secret (p.scalar_mult server.curve.private_key server.peer_public_key) in
      let (d, e, de, ee, client_aead) =
        aead_of_keys k.peer_key k.my_key k.peer_iv k.my_iv pk mk pi mi in
      let (d', e', de', ee', server_aead) =
        aead_of_keys k.my_key k.peer_key k.my_iv k.peer_iv mk pk mi pi in
      let verified = (confirmed client k client_long (rw same made)).0 in
      let peer_verified = (confirmed server k server_long made).1 in
      (
        rw (client_long, server_long, same) refl,
        rw (verified, client_aead) refl,
        rw (peer_verified, server_aead) refl,
        rw (verified, client_aead, peer_verified, server_aead) (reads _ _ e refl (cc) refl mi),
        rw (verified, client_aead, peer_verified, server_aead) (reads _ _ e' refl (cc) refl pi),
      )
