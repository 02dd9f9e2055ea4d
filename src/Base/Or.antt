-- ===== src/Base/Or.antt =====
-- A bitwise or is a sum where the low bits of the one number are free.
use Prim.Native.Nat.{
  ℕ, zero, suc, ◌+◌, ◌*◌, ◌/◌, ◌%◌, ◌≤◌, ◌<◌, max, digits, bit_or, bit_or-bitwise,
}
use mathlib.Core.Path.{◌≡◌, refl, sym, ◌∙◌}
use native.Mathlib.Omega.{arith}

abbrev or_digits : ℕ → ℕ → ℕ → ℕ
or_digits fuel a b = digits (λ c. c) max fuel a b

-- Any count of digits that reaches past `a` does.
or_digits_enough : (n k a b : ℕ) → a ≤ n → a ≤ k → or_digits n a b ≡ or_digits k a b
or_digits_enough n k zero b p q = first n ∙ sym (first k)
  where
    first : (m : ℕ) → or_digits m 0 b ≡ b
    first zero = refl
    first (suc m) = refl
or_digits_enough zero k (suc a) b p q = absurd (omega arith)
or_digits_enough (suc n) zero (suc a) b p q = absurd (omega arith)
or_digits_enough (suc n) (suc k) (suc a) b p q =
    omega (arith, or_digits_enough n k (suc a / 2) (b / 2) (omega arith) (omega arith))

-- The lowest digit apart.
or_low_digit : (a b : ℕ) → bit_or a b ≡ bit_or (a / 2) (b / 2) * 2 + max (a % 2) (b % 2)
or_low_digit zero b =
    let whole : bit_or 0 b ≡ b = bit_or-bitwise 0 b in
    let half : bit_or 0 (b / 2) ≡ b / 2 = bit_or-bitwise 0 (b / 2) in omega arith
or_low_digit (suc a) b =
    let half = suc a / 2 in
    omega (
      arith,
      bit_or-bitwise (suc a) b,
      bit_or-bitwise half (b / 2),
      or_digits_enough half a half (b / 2) (omega arith) (omega arith),
    )

or_zero_below : (n a : ℕ) → a ≤ n → bit_or a 0 ≡ a
or_zero_below n zero h = refl
or_zero_below zero (suc a) h = absurd (omega arith)
or_zero_below (suc n) (suc a) h =
    omega (arith, or_low_digit (suc a) 0, or_zero_below n (suc a / 2) (omega arith))

pub or_zero : (a : ℕ) → bit_or a 0 ≡ a
or_zero a = or_zero_below a a (omega arith)

or_double : (a r : ℕ) → bit_or (a * 2) r ≡ bit_or a (r / 2) * 2 + r % 2
or_double a r =
    let half : a * 2 / 2 ≡ a = omega arith in or_low_digit (a * 2) r ∙ rw half (omega arith)

or_two : (q r : ℕ) → r < 2 → bit_or (q * 2) r ≡ q * 2 + r
or_two q r h =
    let none_left : r / 2 ≡ 0 = omega arith in or_double q r ∙ rw (none_left, or_zero) (omega arith)

or_four : (q r : ℕ) → r < 4 → bit_or (q * 4) r ≡ q * 4 + r
or_four q r h =
    let e : q * 4 ≡ q * 2 * 2 = omega arith in
    rw e (omega (arith, or_double (q * 2) r, or_two q (r / 2) (omega arith)))

-- The low three bits, and the low four.
pub or_eight : (q r : ℕ) → r < 8 → bit_or (q * 8) r ≡ q * 8 + r
or_eight q r h =
    let e : q * 8 ≡ q * 4 * 2 = omega arith in
    rw e (omega (arith, or_double (q * 4) r, or_four q (r / 2) (omega arith)))

pub or_sixteen : (q r : ℕ) → r < 16 → bit_or (q * 16) r ≡ q * 16 + r
or_sixteen q r h =
    let e : q * 16 ≡ q * 8 * 2 = omega arith in
    rw e (omega (arith, or_double (q * 8) r, or_eight q (r / 2) (omega arith)))
