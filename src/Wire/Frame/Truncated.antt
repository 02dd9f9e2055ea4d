-- ===== src/Wire/Frame/Truncated.antt =====
-- ReadTcpFrame on streams that end too early.
use mathlib.Core.List.{append-nil}
use coalago.Base.{
  ℕ, zero, suc, ◌≤◌, ◌<◌, ◌≡◌, refl, ap, List, [], ◌∷◌, ◌++◌, ltb, length, take, drop, arith, leb,
  le→leb, leb→le, bit_and, ◌==◌, if◌then◌else◌, Bool, true, false, Bool-cases, inl, inr, ◌⊎◌,
  length-append,
}
use coalago.Wire.Frame.{
  Read, done, failed, IoError, ◌>>=◌, read_full, decode_extended, decode_length, read_tcp_frame,
  length_of_1, length_of_2, length_of_4, first_byte,
}
use coalago.Wire.Frame.RoundTrip.{frame, read_tcp_frame-frame}

-- How the same read ends when the stream holds `more` behind: a value or a short buffer comes out
-- the same, with `more` left behind; a read that met the end of the stream has used it up.
abbrev Extends {ℓ} : {A : Type ℓ} → List ℕ → Read A → Read A → Type ℓ
Extends more (done a s) r = r ≡ done a (s ++ more)
Extends more (failed IoError.short_buffer s) r = r ≡ failed IoError.short_buffer (s ++ more)
Extends {A} more (failed IoError.eof s) r =
    ◌≡◌ {A = Read A} (failed IoError.eof s) (failed IoError.eof [])
Extends {A} more (failed IoError.unexpected_eof s) r =
    ◌≡◌ {A = Read A} (failed IoError.unexpected_eof s) (failed IoError.unexpected_eof [])

take-append_le {ℓ} :
    {A : Type ℓ} (n : ℕ) (xs ys : List A) → n ≤ length xs → take n (xs ++ ys) ≡ take n xs
take-append_le zero xs ys h = refl
take-append_le (suc n) [] ys h = absurd (omega arith)
take-append_le (suc n) (x ∷ xs) ys h = ap (◌∷◌ x) (take-append_le n xs ys (omega arith))

drop-append_le {ℓ} :
    {A : Type ℓ} (n : ℕ) (xs ys : List A) → n ≤ length xs → drop n (xs ++ ys) ≡ drop n xs ++ ys
drop-append_le zero xs ys h = refl
drop-append_le (suc n) [] ys h = absurd (omega arith)
drop-append_le (suc n) (x ∷ xs) ys h = drop-append_le n xs ys (omega arith)

read_full-Extends :
    (n : ℕ) (s more : List ℕ) → Extends more (read_full n s) (read_full n (s ++ more))
unfolding read_full
read_full-Extends n s more = elim (Bool-cases (leb n (length s))) [
  | inl e ↦
      let le = leb→le n (length s) e in
      rw
        (
          e,
          le→leb n (length (s ++ more)) (omega (arith, length-append s more)),
          take-append_le n s more le,
          drop-append_le n s more le,
        )
        refl
  | inr e ↦ rw e (elim (Bool-cases (length s == 0)) [ inl z ↦ rw z refl | inr z ↦ rw z refl ])
]

>>=-Extends {ℓ κ} :
    {A : Type ℓ} {B : Type κ} (more : List ℕ) (m m' : Read A) (k : A → List ℕ → Read B)
    → Extends more m m'
    → ((a : A) (s : List ℕ) → Extends more (k a s) (k a (s ++ more)))
    → Extends more (m >>= k) (m' >>= k)
>>=-Extends more (done a s) m' k h hk = rw h (hk a s)
>>=-Extends more (failed IoError.short_buffer s) m' k h hk = rw h
>>=-Extends more (failed IoError.eof s) m' k h hk = cc
>>=-Extends more (failed IoError.unexpected_eof s) m' k h hk = cc

if_Extends {ℓ} :
    {A : Type ℓ} (more : List ℕ) (b : Bool) (x x' y y' : Read A)
    → Extends more x x'
    → Extends more y y'
    → Extends more (if b then x else y) (if b then x' else y')
if_Extends more true x x' y y' h k = h
if_Extends more false x x' y y' h k = k

decode_extended-Extends :
    (n : ℕ) (s more : List ℕ) → Extends more (decode_extended n s) (decode_extended n (s ++ more))
unfolding decode_extended
decode_extended-Extends n s more =
    let full = λ (k : ℕ) (f : List ℕ → ℕ).
      >>=-Extends more (read_full k s) (read_full k (s ++ more)) (λ b s'. done (f b) s')
        (read_full-Extends k s more) (λ b s'. refl) in
    if_Extends more (n == 13) _ _ _ _ (full 1 length_of_1) (
      if_Extends more (n == 14) _ _ _ _ (full 2 length_of_2)
        (if_Extends more (n == 15) _ _ _ _ (full 4 length_of_4) refl))

read_tcp_frame-Extends :
    (size : ℕ) (s more : List ℕ)
    → Extends more (read_tcp_frame size s) (read_tcp_frame size (s ++ more))
unfolding read_tcp_frame decode_length
read_tcp_frame-Extends size s more =
    >>=-Extends more (decode_length s) (decode_length (s ++ more)) _
      (>>=-Extends more (read_full 1 s) (read_full 1 (s ++ more)) _ (read_full-Extends 1 s more)
        (λ b s'. decode_extended-Extends (bit_and (first_byte b) 0x0f) s' more))
      (λ n s'. if_Extends more (ltb size n) _ _ _ _ refl (read_full-Extends n s' more))

cut_short :
    (r : Read (List ℕ)) (bs : List ℕ) (x : ℕ) (back : List ℕ)
    → Extends (x ∷ back) r (done bs [])
    → (r ≡ failed IoError.eof []) ⊎ (r ≡ failed IoError.unexpected_eof [])
cut_short (done a []) bs x back e = cc
cut_short (done a (y ∷ s)) bs x back e = cc
cut_short (failed IoError.short_buffer s) bs x back e = cc
cut_short (failed IoError.eof s) bs x back e = inl e
cut_short (failed IoError.unexpected_eof s) bs x back e = inr e

-- A stream that ends inside a frame: on every proper prefix `front` of the frame of `bs` that fits
-- the buffer, ReadTcpFrame answers io.EOF or io.ErrUnexpectedEOF, and never a body.
pub read_tcp_frame_truncated :
    (size : ℕ) (bs front : List ℕ) (x : ℕ) (back : List ℕ)
    → length bs ≤ size
    → size < 0x1_0000_0000
    → frame bs ≡ front ++ (x ∷ back)
    → (read_tcp_frame size front ≡ failed IoError.eof [])
      ⊎ (read_tcp_frame size front ≡ failed IoError.unexpected_eof [])
unfolding frame
read_tcp_frame_truncated size bs front x back fits lt e =
    cut_short (read_tcp_frame size front) bs x back
      (rw whole at (read_tcp_frame-Extends size front (x ∷ back)))
  where
    whole : read_tcp_frame size (front ++ (x ∷ back)) ≡ done bs []
    whole = rw (append-nil, e) at (read_tcp_frame-frame size bs [] fits (omega arith))
