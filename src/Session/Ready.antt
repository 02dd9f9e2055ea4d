-- ===== src/Session/Ready.antt =====
-- SecuredSession.go: a session that is checked has its ciphers.
use coalago.Base.{
  ℕ, ◌≡◌, ◌≢◌, refl, Bool, true, false, Option, none, some, List, [], ◌∷◌, if◌then◌else◌,
  Option-cases, inl, inr,
}
use coalago.Constants.{Error}
use coalago.Results.{Result, ◌>>=◌, or_fail}
use coalago.Session.{
  Primitives, Curve, Keys, generate_shared_secret, derive_keys, Aead, new_aead, open_text,
  seal_text, new_static_curve, new_curve, SecuredSession, new_secured_session, get_signature,
  start_session, checked_start, verified_keys, verify, peer_verify, confirm,
}

-- A value with the property, or an error: no panic, and no wait.
pub data Gives {A : Type 0} (Q : A → Type 0) : Result A → Type 0 where
  given : (a : A) → Q a → Gives Q (Result.ok a)
  refused : (e : Error) → Gives Q (Result.err e)

abbrev pub Anything : {A : Type 0} → A → Type 0
Anything a = Unit {0}

pub bind-Gives :
    {A B : Type 0} (Q : A → Type 0) (R : B → Type 0) (r : Result A) (f : A → Result B)
    → Gives Q r
    → ((a : A) → Q a → Gives R (f a))
    → Gives R (r >>= f)
bind-Gives Q R _ f (Gives.given a q) k = k a q
bind-Gives Q R _ f (Gives.refused e) k = Gives.refused e

pub Gives-bind :
    {A B : Type 0} (R : B → Type 0) (r : Result A) (f : A → Result B)
    → Gives Anything r
    → ((a : A) → Gives R (f a))
    → Gives R (r >>= f)
Gives-bind R r f g k = bind-Gives Anything R r f g (λ a _. k a)

pub Gives-or_fail : {A : Type 0} (o : Option A) (e : Error) → Gives Anything (or_fail o e)
Gives-or_fail none e = Gives.refused e
Gives-or_fail (some a) e = Gives.given a tt

pub Gives-if :
    {A : Type 0} (Q : A → Type 0) (b : Bool) (r s : Result A)
    → Gives Q r
    → Gives Q s
    → Gives Q (if b then r else s)
Gives-if Q true r s g h = g
Gives-if Q false r s g h = h

pub ruleset gives_rules = (Gives.given, Gives.refused, Gives-bind, Gives-or_fail, Gives-if)

module _ (p : Primitives) where
  -- Both ciphers are there.
  pub record IsReady (aead : Aead p) : Type 0 where
    pub seals : aead.encrypter ≢ none
    pub opens : aead.decrypter ≢ none

  ciphers-IsReady :
      (peer_key my_key peer_iv my_iv : List ℕ) (d e : p.Gcm)
      → IsReady (record {
        peer_key = peer_key;
        my_key = my_key;
        peer_iv = peer_iv;
        my_iv = my_iv;
        encrypter = some e;
        decrypter = some d;
      })
  ciphers-IsReady peer_key my_key peer_iv my_iv d e = record {
    seals = λ q. cc q;
    opens = λ q. cc q;
  }

  new_aead-Gives :
      (peer_key my_key peer_iv my_iv : List ℕ)
      → Gives IsReady (new_aead p peer_key my_key peer_iv my_iv)
  unfolding new_aead
  new_aead-Gives peer_key my_key peer_iv my_iv = search (gives_rules, ciphers-IsReady)

  secret-Gives :
      (curve : Curve) (key : List ℕ) → Gives Anything (generate_shared_secret p curve key)
  unfolding generate_shared_secret
  secret-Gives curve key = search gives_rules

  derive_keys-Gives : (secret salt info : List ℕ) → Gives Anything (derive_keys p secret salt info)
  unfolding derive_keys
  derive_keys-Gives secret salt info = search gives_rules

  pub get_signature-Gives : (s : SecuredSession p) → Gives Anything (get_signature p s)
  unfolding get_signature
  get_signature-Gives s = search (gives_rules, secret-Gives)

  verified_keys-Gives :
      (s : SecuredSession p) (signature : List ℕ) → Gives Anything (verified_keys p s signature)
  unfolding verified_keys
  verified_keys-Gives s signature =
      search (gives_rules, secret-Gives, derive_keys-Gives, get_signature-Gives)

  -- A check without an error.
  abbrev pub Started : SecuredSession p × Option Error → Type 0
  Started (s, none) = IsReady s.aead
  Started (s, some e) = Unit {0}

  start_session-Started :
      (r : Result (Aead p)) (s : SecuredSession p) → Gives IsReady r → Started (start_session p r s)
  unfolding start_session
  start_session-Started _ s (Gives.given aead q) = q
  start_session-Started _ s (Gives.refused e) = tt

  checked_start-Started :
      (make : Keys → Result (Aead p)) (s : SecuredSession p) (r : Result Keys)
      → ((k : Keys) → Gives IsReady (make k))
      → Gives Anything r
      → Started (checked_start p make s r)
  unfolding checked_start
  checked_start-Started make s _ made (Gives.given k q) = start_session-Started (make k) s (made k)
  checked_start-Started make s _ made (Gives.refused e) = tt

  confirmed :
      (check : SecuredSession p → List ℕ → SecuredSession p × Option Error) (s : SecuredSession p)
      (r : Result (List ℕ))
      → get_signature p s ≡ r
      → ((signature : List ℕ) → Started (check s signature))
      → Gives Anything r
      → Started (confirm p check s)
  unfolding confirm
  confirmed check s _ e k (Gives.given signature q) = rw (e, confirm) (k signature)
  confirmed check s _ e k (Gives.refused x) = rw (e, confirm) tt

  -- After a Verify or a PeerVerify without an error, the session has both ciphers.
  pub verify-Started : (s : SecuredSession p) → Started (confirm p (verify p) s)
  unfolding verify
  verify-Started s =
      confirmed (verify p) s (get_signature p s) refl
        (λ signature.
          checked_start-Started _ s (verified_keys p s signature) (λ k. new_aead-Gives _ _ _ _)
            (verified_keys-Gives s signature))
        (get_signature-Gives s)

  pub peer_verify-Started : (s : SecuredSession p) → Started (confirm p (peer_verify p) s)
  unfolding peer_verify
  peer_verify-Started s =
      confirmed (peer_verify p) s (get_signature p s) refl
        (λ signature.
          checked_start-Started _ s (verified_keys p s signature) (λ k. new_aead-Gives _ _ _ _)
            (verified_keys-Gives s signature))
        (get_signature-Gives s)

  -- A new session has a public key of the curve.
  pub new_secured_session-Gives :
      (Q : List ℕ → Type 0) (key : List ℕ) (random : Option (List ℕ))
      → ((k : List ℕ) → Q (p.scalar_base_mult k))
      → Gives (λ s. Q s.curve.public_key) (new_secured_session p key random)
  unfolding new_secured_session new_curve new_static_curve
  new_secured_session-Gives Q [] none keys = Gives.refused _
  new_secured_session-Gives Q [] (some r) keys = Gives.given _ (keys _)
  new_secured_session-Gives Q (b ∷ key) random keys = Gives.given _ (keys _)

  -- Neither Open nor Seal panics.
  pub open_text-Gives :
      (aead : Aead p) (text : List ℕ) (id : ℕ) (associated : List ℕ)
      → IsReady aead
      → Gives Anything (open_text p aead text id associated)
  unfolding open_text
  open_text-Gives aead text id associated ready = elim (Option-cases aead.decrypter) [
    | inl e ↦ absurd (ready.opens e)
    | inr (gcm, e) ↦ rw (e, open_text) (Gives-or_fail _ _)
  ]

  pub seal_text-Gives :
      (aead : Aead p) (text : List ℕ) (id : ℕ) (associated : List ℕ)
      → IsReady aead
      → Gives Anything (seal_text p aead text id associated)
  unfolding seal_text
  seal_text-Gives aead text id associated ready = elim (Option-cases aead.encrypter) [
    | inl e ↦ absurd (ready.seals e)
    | inr (gcm, e) ↦ rw (e, seal_text) (Gives.given _ tt)
  ]
