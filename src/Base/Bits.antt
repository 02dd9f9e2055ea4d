-- ===== src/Base/Bits.antt =====
-- Masks on bytes as arithmetic; each fact is a table, checked by evaluation.
use Prim.Native.Nat.{ℕ, zero, suc, ◌+◌, ◌*◌, ◌%◌, ◌<◌, bit_and, bit_or}
use mathlib.Core.Path.{◌≡◌, refl}
use mathlib.Core.Bool.{Bool, true, ◌&&◌}
use native.Mathlib.Omega.{arith}
use coalago.Base.Tests.{◌==◌, ==_iff}

-- The test `test` over a table of the first `size` numbers.
unfoldable pub tabulated : (ℕ → Bool) → ℕ → Bool
tabulated test zero = true
tabulated test (suc size) = tabulated test size && test size

pub tabulated_sound :
    (test : ℕ → Bool) (size row : ℕ) → row < size → tabulated test size ≡ true → test row ≡ true
unfolding tabulated
tabulated_sound test zero row low table = absurd (omega arith)
tabulated_sound test (suc size) row low table = ground (arith, tabulated_sound test size row)

low_nibble_table : tabulated (λ b. bit_and b 0x0f == b % 16) 256 ≡ true
unfolding tabulated
low_nibble_table = refl

pub low_nibble : (b : ℕ) → b < 256 → bit_and b 0x0f ≡ b % 16
low_nibble b h = (==_iff _ _).0 (tabulated_sound _ 256 b h low_nibble_table)

high_nibble_table :
    tabulated (λ d. tabulated (λ l. bit_or (d * 16 % 256) l == d * 16 + l) 16) 16 ≡ true
unfolding tabulated
high_nibble_table = refl

-- Two nibbles joined by a shift and an or.
pub join_nibbles : (d l : ℕ) → d < 16 → l < 16 → bit_or (d * 16 % 256) l ≡ d * 16 + l
join_nibbles d l hd hl =
    (==_iff _ _).0 (tabulated_sound _ 16 l hl (tabulated_sound _ 16 d hd high_nibble_table))

header_table :
    tabulated (λ t. tabulated (λ l. bit_or (bit_or 64 (t * 16 % 256)) l == 64 + t * 16 + l) 16) 4
    ≡ true
unfolding tabulated
header_table = refl

-- The version 1, the type and the token length in one byte.
pub join_header : (t l : ℕ) → t < 4 → l < 16 → bit_or (bit_or 64 (t * 16 % 256)) l ≡ 64 + t * 16 + l
join_header t l ht hl =
    (==_iff _ _).0 (tabulated_sound _ 16 l hl (tabulated_sound _ 4 t ht header_table))

low_two_table : tabulated (λ b. bit_and b 3 == b % 4) 16 ≡ true
unfolding tabulated
low_two_table = refl

pub low_two : (b : ℕ) → b < 16 → bit_and b 3 ≡ b % 4
low_two b h = (==_iff _ _).0 (tabulated_sound _ 16 b h low_two_table)

mask_table : tabulated (λ l. bit_and 0x0f (l % 256) == l) 16 ≡ true
unfolding tabulated
mask_table = refl

pub mask_nibble : (l : ℕ) → l < 16 → bit_and 0x0f (l % 256) ≡ l
mask_nibble l h = (==_iff _ _).0 (tabulated_sound _ 16 l h mask_table)
