-- ===== src/Session.antt =====
-- session/: the curve, the keys, the ciphers and the secured session.
pub mod Nonce
pub mod Ready
pub mod Agreement
use coalago.Base.{
  ℕ, zero, suc, ◌*◌, ◌/◌, ◌%◌, Bool, Option, none, some, List, [], ◌∷◌, ◌++◌, not, ◌==◌, ◌||◌,
  if◌then◌else◌, bytes_eq, bit_and, bit_or, length, take, drop, copied,
}
use coalago.Constants.{Error}
use coalago.Results.{Result, ◌>>=◌, or_fail}

-- What the code calls in crypto/sha256, golang.org/x/crypto (curve25519 and hkdf with SHA-256, read to
-- a length) and aes12. A Gcm is the cipher.AEAD that NewGCM of NewCipher of a key gives.
pub record Primitives : Type 1 where
  pub Gcm : Type 0
  pub sha256 : List ℕ → List ℕ
  pub scalar_base_mult : List ℕ → List ℕ
  pub scalar_mult : List ℕ → List ℕ → List ℕ
  pub hkdf : List ℕ → List ℕ → List ℕ → ℕ → Option (List ℕ)
  pub new_gcm : List ℕ → Option Gcm
  pub gcm_seal : Gcm → List ℕ → List ℕ → List ℕ → List ℕ
  pub gcm_open : Gcm → List ℕ → List ℕ → List ℕ → Option (List ℕ)

-- Curve25519
pub record Curve : Type 0 where
  pub private_key : List ℕ
  pub public_key : List ℕ

abbrev pub key_size : ℕ
key_size = 32

-- The three masks on the private key.
unfoldable pub mask_first : List ℕ → List ℕ
mask_first [] = []
mask_first (b ∷ bs) = bit_and b 248 ∷ bs

unfoldable pub mask_at : ℕ → List ℕ → List ℕ
mask_at i [] = []
mask_at zero (b ∷ bs) = bit_or (bit_and b 127) 64 ∷ bs
mask_at (suc i) (b ∷ bs) = b ∷ mask_at i bs

unfoldable pub clamped : List ℕ → List ℕ
clamped key = mask_at 31 (mask_first key)

-- DeriveKeysFromSharedSecret: what it cuts from the bytes that HKDF gives.
pub record Keys : Type 0 where
  pub peer_key : List ℕ
  pub my_key : List ℕ
  pub peer_iv : List ℕ
  pub my_iv : List ℕ

abbrev pub key_len : ℕ
key_len = 16

-- makeNonce; the counter is a uint16.
unfoldable pub make_nonce : List ℕ → ℕ → List ℕ
make_nonce iv counter =
    copied (0 ∷ 0 ∷ 0 ∷ 0 ∷ []) iv
    ++ ((counter % 256) ∷ (counter / 256 % 256) ∷ 0 ∷ 0 ∷ 0 ∷ 0 ∷ 0 ∷ 0 ∷ [])

module _ (p : Primitives) where
  open p use {Gcm, sha256, scalar_base_mult, scalar_mult, hkdf, new_gcm, gcm_seal, gcm_open}

  -- NewStaticCurve25519
  unfoldable pub new_static_curve : List ℕ → Curve
  new_static_curve key =
      let private_key = clamped key in
      record { private_key = private_key; public_key = scalar_base_mult private_key }

  -- NewCurve25519; `random` is what rand.Read gives, if it succeeds.
  unfoldable pub new_curve : Option (List ℕ) → Result Curve
  new_curve none = Result.err Error.private_key_creation
  new_curve (some random) = Result.ok (new_static_curve random)

  -- GenerateSharedSecret
  unfoldable pub generate_shared_secret : Curve → List ℕ → Result (List ℕ)
  generate_shared_secret curve peer_public_key =
      if not (length peer_public_key == key_size)
      then Result.err Error.public_key_length
      else Result.ok (scalar_mult curve.private_key peer_public_key)

  unfoldable pub derive_keys : List ℕ → List ℕ → List ℕ → Result Keys
  derive_keys shared_secret salt info = do
    s ← or_fail (hkdf shared_secret salt info 40) Error.derivation_failure
    Result.ok (record {
      peer_key = take key_len s;
      my_key = take key_len (drop key_len s);
      peer_iv = take 4 (drop 32 s);
      my_iv = drop 36 s;
    })

  -- AEAD; the zero value has no ciphers.
  pub record Aead : Type 0 where
    pub peer_key : List ℕ
    pub my_key : List ℕ
    pub peer_iv : List ℕ
    pub my_iv : List ℕ
    pub encrypter : Option Gcm
    pub decrypter : Option Gcm

  abbrev pub zero_aead : Aead
  zero_aead = record {
    peer_key = [];
    my_key = [];
    peer_iv = [];
    my_iv = [];
    encrypter = none;
    decrypter = none;
  }

  -- NewAEAD
  unfoldable pub new_aead : List ℕ → List ℕ → List ℕ → List ℕ → Result Aead
  new_aead peer_key my_key peer_iv my_iv =
      if not (length my_key == 16)
        || not (length peer_key == 16)
        || not (length my_iv == 4)
        || not (length peer_iv == 4)
      then Result.err Error.key_lengths
      else (or_fail (new_gcm my_key) Error.cipher_failure >>= λ encrypter.
          or_fail (new_gcm peer_key) Error.cipher_failure >>= λ decrypter. Result.ok (record {
            peer_key = peer_key;
            my_key = my_key;
            peer_iv = peer_iv;
            my_iv = my_iv;
            encrypter = some encrypter;
            decrypter = some decrypter;
          }))

  -- Open and Seal; a method of a nil cipher panics.
  unfoldable pub open_text : Aead → List ℕ → ℕ → List ℕ → Result (List ℕ)
  open_text aead cipher_text counter associated = elim aead.decrypter [
    | none ↦ Result.panic
    | some gcm ↦
        or_fail (gcm_open gcm (make_nonce aead.peer_iv counter) cipher_text associated)
          Error.authentication_failure
  ]

  unfoldable pub seal_text : Aead → List ℕ → ℕ → List ℕ → Result (List ℕ)
  seal_text aead plain_text counter associated = elim aead.encrypter [
    | none ↦ Result.panic
    | some gcm ↦ Result.ok (gcm_seal gcm (make_nonce aead.my_iv counter) plain_text associated)
  ]

  -- SecuredSession
  pub record SecuredSession : Type 0 where
    pub curve : Curve
    pub aead : Aead
    pub peer_public_key : List ℕ
    pub updated_at : ℕ

  abbrev pub session_of : Curve → SecuredSession
  session_of curve = record {
    curve = curve;
    aead = zero_aead;
    peer_public_key = [];
    updated_at = 0;
  }

  -- NewSecuredSession
  unfoldable pub new_secured_session : List ℕ → Option (List ℕ) → Result SecuredSession
  new_secured_session [] random = do curve ← new_curve random; Result.ok (session_of curve)
  new_secured_session (b ∷ key) random =
      Result.ok (session_of (new_static_curve (sha256 (b ∷ key))))

  -- GetSignature
  unfoldable pub get_signature : SecuredSession → Result (List ℕ)
  get_signature s = do
    secret ← generate_shared_secret s.curve s.peer_public_key
    Result.ok (sha256 secret)

  -- What Verify and PeerVerify both do; they give the keys to NewAEAD in two orders. The session after
  -- the call, and the error.
  unfoldable pub start_session : Result Aead → SecuredSession → SecuredSession × Option Error
  start_session (Result.ok aead) s = (record s { aead = aead }, none)
  start_session (Result.err e) s = (record s { aead = zero_aead }, some e)
  start_session other s = (s, none)

  unfoldable pub checked_start :
      (Keys → Result Aead) → SecuredSession → Result Keys → SecuredSession × Option Error
  checked_start make s (Result.ok keys) = start_session (make keys) s
  checked_start make s (Result.err e) = (s, some e)
  checked_start make s other = (s, none)

  unfoldable pub verified_keys : SecuredSession → List ℕ → Result Keys
  verified_keys s peer_signature = do
    signature ← get_signature s
    (if not (bytes_eq signature peer_signature)
        then Result.err Error.signatures_differ
        else (generate_shared_secret s.curve s.peer_public_key >>= λ secret.
            derive_keys secret [] []))

  -- Verify
  unfoldable pub verify : SecuredSession → List ℕ → SecuredSession × Option Error
  verify s peer_signature =
      checked_start (λ k. new_aead k.peer_key k.my_key k.peer_iv k.my_iv) s
        (verified_keys s peer_signature)

  -- PeerVerify
  unfoldable pub peer_verify : SecuredSession → List ℕ → SecuredSession × Option Error
  peer_verify s peer_signature =
      checked_start (λ k. new_aead k.my_key k.peer_key k.my_iv k.peer_iv) s
        (verified_keys s peer_signature)

  -- GetSignature and the check of the session's own signature, as handshake and receiveHandshake do
  -- with `check` Verify and PeerVerify.
  unfoldable pub confirm :
      (SecuredSession → List ℕ → SecuredSession × Option Error)
      → SecuredSession
      → SecuredSession × Option Error
  confirm check s = elim (get_signature s) [
    | Result.ok signature ↦ check s signature
    | Result.err e ↦ (s, some e)
    | other ↦ (s, none)
  ]
