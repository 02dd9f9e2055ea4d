-- ===== src/Session/Nonce.antt =====
-- AEAD.go: the nonces that a session uses.
use mathlib.Core.List.{append-nil}
use coalago.Base.{
  ℕ, ◌/◌, ◌%◌, ◌<◌, ◌≡◌, ◌↔◌, refl, sym, ap, ◌∙◌, List, [], ◌∷◌, ◌++◌, length, arith, length-append,
  take, drop, copied, copied-append, take-append_length, drop-append_length,
}
use coalago.Session.{make_nonce}

copied_four : (iv : List ℕ) → length iv ≡ 4 → copied (0 ∷ 0 ∷ 0 ∷ 0 ∷ []) iv ≡ iv
copied_four iv e = copied-append (0 ∷ 0 ∷ 0 ∷ 0 ∷ []) iv [] (omega (arith, e)) ∙ append-nil iv

counter_bytes : ℕ → List ℕ
counter_bytes n = (n % 256) ∷ (n / 256 % 256) ∷ 0 ∷ 0 ∷ 0 ∷ 0 ∷ 0 ∷ 0 ∷ []

nonce_parts : (iv : List ℕ) (n : ℕ) → length iv ≡ 4 → make_nonce iv n ≡ iv ++ counter_bytes n
unfolding make_nonce counter_bytes
nonce_parts iv n e = ap (λ x. x ++ counter_bytes n) (copied_four iv e)

first_of : List ℕ → ℕ
first_of [] = 0
first_of (b ∷ bs) = b

second_of : List ℕ → ℕ
unfolding first_of
second_of [] = 0
second_of (b ∷ bs) = first_of bs

counter_bytes-injective :
    (a b : ℕ) → a < 65536 → b < 65536 → counter_bytes a ≡ counter_bytes b → a ≡ b
unfolding counter_bytes
counter_bytes-injective a b la lb e = omega (arith, low, high)
  where
    low : a % 256 ≡ b % 256
    low = unfold first_of in (ap first_of e)

    high : a / 256 % 256 ≡ b / 256 % 256
    high = unfold second_of in (ap second_of e)

-- Two nonces are the same if and only if both the IV and the message id are: for IVs of four bytes
-- and ids of sixteen bits.
pub make_nonce_iff :
    (iv iv' : List ℕ) (a b : ℕ)
    → length iv ≡ 4
    → length iv' ≡ 4
    → a < 65536
    → b < 65536
    → (make_nonce iv a ≡ make_nonce iv' b) ↔ ((iv ≡ iv') × (a ≡ b))
make_nonce_iff iv iv' a b e e' la lb = (parts, whole)
  where
    joined : make_nonce iv a ≡ make_nonce iv' b → iv ++ counter_bytes a ≡ iv' ++ counter_bytes b
    joined same = sym (nonce_parts iv a e) ∙ same ∙ nonce_parts iv' b e'

    first_four : (bs : List ℕ) (n : ℕ) → length bs ≡ 4 → take 4 (bs ++ counter_bytes n) ≡ bs
    first_four bs n four = rw (← four) (take-append_length bs (counter_bytes n))

    after_four :
        (bs : List ℕ) (n : ℕ) → length bs ≡ 4 → drop 4 (bs ++ counter_bytes n) ≡ counter_bytes n
    after_four bs n four = rw (← four) (drop-append_length bs (counter_bytes n))

    parts : make_nonce iv a ≡ make_nonce iv' b → (iv ≡ iv') × (a ≡ b)
    parts same = (
      sym (first_four iv a e) ∙ ap (take 4) (joined same) ∙ first_four iv' b e',
      counter_bytes-injective a b la lb
          (sym (after_four iv a e) ∙ ap (drop 4) (joined same) ∙ after_four iv' b e'),
    )

    whole : (iv ≡ iv') × (a ≡ b) → make_nonce iv a ≡ make_nonce iv' b
    whole (p, q) = rw (p, q) refl

-- The nonce has the twelve bytes that GCM wants.
pub length-make_nonce : (iv : List ℕ) (n : ℕ) → length iv ≡ 4 → length (make_nonce iv n) ≡ 12
unfolding counter_bytes
length-make_nonce iv n e = rw (nonce_parts iv n e, length-append, e) refl
