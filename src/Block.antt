-- ===== src/Block.antt =====
-- block.go: the value of a Block1 or Block2 option.
pub mod RoundTrip
use coalago.Base.{
  ℕ, zero, suc, ◌+◌, ◌-◌, ◌*◌, ◌/◌, ◌%◌, ◌^◌, Bool, true, false, Option, none, some, ◌||◌, ltb, leb,
  ◌==◌, if◌then◌else◌, bit_and, bit_or, bit_xor,
}
use coalago.Base.Int.{ℤ, pos, negsuc}
use coalago.Constants.{option_block1, option_block2}
use coalago.Message.{CoapMessage, get_option}
use coalago.Options.{int_value}

-- The integers are Go's int; a block number stays far from 2 ^ 59, so that no shift overflows.
pub record Block : Type 0 where
  pub number : ℤ
  pub more : Bool
  pub size : ℤ

-- newBlock
unfoldable pub new_block : Bool → ℤ → ℤ → Block
new_block more num size = record { number = num; more = more; size = size }

-- The whole part of the logarithm to base 2, for 1 ≤ n < 2 ^ fuel.
log2_fuel : ℕ → ℕ → ℕ
log2_fuel zero n = 0
log2_fuel (suc fuel) n = let rest = log2_fuel fuel (n / 2) in if leb n 1 then 0 else suc rest

-- computeSZX: int(math.Log(size)/math.Log(2) - 4), the real number rounded towards zero. Below 16 the
-- difference is negative, and rounding up makes -(4 - ⌈log2 size⌉) of it.
unfoldable pub compute_szx : ℕ → ℤ
unfolding log2_fuel
compute_szx size =
    if leb 16 size
    then pos (log2_fuel 11 size - 4)
    else if leb 9 size
    then pos 0
    else if leb 5 size
    then negsuc 0
    else if leb 3 size
    then negsuc 1
    else if leb 2 size
    then negsuc 2
    else negsuc 3

-- `a | b` on integers, for a ≥ 0.
unfoldable pub int_or : ℕ → ℤ → ℤ
int_or a (pos b) = pos (bit_or a b)
int_or a (negsuc n) = negsuc (bit_xor n (bit_and n a))

-- v << k on an integer
unfoldable pub shift_left : ℤ → ℕ → ℤ
shift_left (pos n) k = pos (n * 2 ^ k)
shift_left (negsuc n) k = negsuc ((n + 1) * 2 ^ k - 1)

-- `a | b` where b ≥ 0.
unfoldable pub or_int : ℤ → ℕ → ℤ
or_int (pos a) b = pos (bit_or a b)
or_int (negsuc n) b = negsuc (bit_xor n (bit_and n b))

both_or : ℤ → ℤ → ℤ
both_or a (pos b) = or_int a b
both_or (pos a) (negsuc n) = int_or a (negsuc n)
both_or (negsuc m) (negsuc n) = negsuc (bit_and m n)

-- block.ToInt
unfoldable pub to_int : Block → ℤ
unfolding compute_szx int_or or_int both_or shift_left
to_int b = elim b.size [
  | negsuc n ↦ pos 0
  | pos size ↦
      if ltb 1024 size || leb size 0
      then pos 0
      else both_or (or_int (shift_left b.number 4) (if b.more then 8 else 0)) (compute_szx size)
]

-- v >> 4, and the low four bits of v
unfoldable pub shift_right_4 : ℤ → ℤ
shift_right_4 (pos n) = pos (n / 16)
shift_right_4 (negsuc n) = negsuc (n / 16)

unfoldable pub low_4 : ℤ → ℕ
low_4 (pos n) = n % 16
low_4 (negsuc n) = 15 - n % 16

-- newBlockFromInt, by block.FromInt
unfoldable pub new_block_from_int : ℤ → Block
unfolding shift_right_4 low_4
new_block_from_int v = record {
  number = shift_right_4 v;
  more = low_4 v / 8 == 1;
  size = pos (2 ^ (low_4 v % 8 + 4));
}

-- GetBlock1
unfoldable pub get_block1 : CoapMessage → Option Block
get_block1 m = elim (get_option option_block1 m) [
  | none ↦ none
  | some o ↦ some (new_block_from_int (int_value o.value))
]

-- GetBlock2
unfoldable pub get_block2 : CoapMessage → Option Block
get_block2 m = elim (get_option option_block2 m) [
  | none ↦ none
  | some o ↦ some (new_block_from_int (int_value o.value))
]
