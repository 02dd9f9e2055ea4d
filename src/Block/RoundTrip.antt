-- ===== src/Block/RoundTrip.antt =====
-- A block survives ToInt and FromInt.
use coalago.Base.{
  ℕ, zero, suc, ◌+◌, ◌*◌, ◌/◌, ◌%◌, ◌^◌, ◌≤◌, ◌<◌, ◌≡◌, refl, ap, Bool, true, false, if◌then◌else◌,
  bit_or, arith,
}
use coalago.Base.Or.{or_eight, or_sixteen}
use coalago.Base.Int.{pos}
use coalago.Block.{new_block, to_int, new_block_from_int}

-- The sizes of the draft: 16 to 1024.
unfoldable pub size_of : ℕ → ℕ
size_of szx = 2 ^ (szx + 4)

-- The option value as a sum.
unfoldable pub option_value : ℕ → Bool → ℕ → ℕ
option_value num more szx = num * 16 + (if more then 8 else 0) + szx

or_parts :
    (num : ℕ) (more : Bool) (szx : ℕ)
    → szx < 8
    → bit_or (bit_or (num * 16) (if more then 8 else 0)) szx ≡ option_value num more szx
unfolding option_value
or_parts num true szx h =
    let e : num * 16 + 8 ≡ (num * 2 + 1) * 8 = omega arith in
    rw (or_sixteen num 8 (omega arith)) (rw e (or_eight (num * 2 + 1) szx h))
or_parts num false szx h =
    let e : num * 16 + 0 ≡ (num * 2) * 8 = omega arith in
    rw (or_sixteen num 0 (omega arith)) (rw e (or_eight (num * 2) szx h))

-- For the sizes of the draft ToInt gives the number, the flag and the size's exponent in one value.
pub to_int-option_value :
    (more : Bool) (num szx : ℕ)
    → szx ≤ 6
    → to_int (new_block more (pos num) (pos (size_of szx))) ≡ pos (option_value num more szx)
unfolding to_int new_block size_of
to_int-option_value more num zero h = ap pos (or_parts num more 0 (omega arith))
to_int-option_value more num (suc zero) h = ap pos (or_parts num more 1 (omega arith))
to_int-option_value more num (suc (suc zero)) h = ap pos (or_parts num more 2 (omega arith))
to_int-option_value more num (suc (suc (suc zero))) h = ap pos (or_parts num more 3 (omega arith))
to_int-option_value more num (suc (suc (suc (suc zero)))) h =
    ap pos (or_parts num more 4 (omega arith))
to_int-option_value more num (suc (suc (suc (suc (suc zero))))) h =
    ap pos (or_parts num more 5 (omega arith))
to_int-option_value more num (suc (suc (suc (suc (suc (suc zero)))))) h =
    ap pos (or_parts num more 6 (omega arith))
to_int-option_value more num (suc (suc (suc (suc (suc (suc (suc n))))))) h = absurd (omega arith)

-- FromInt takes such a value apart.
pub new_block_from_int-option_value :
    (more : Bool) (num szx : ℕ)
    → szx < 8
    → new_block_from_int (pos (option_value num more szx))
      ≡ new_block more (pos num) (pos (size_of szx))
unfolding new_block_from_int new_block size_of option_value
new_block_from_int-option_value true num szx h =
    let e1 : (num * 16 + 8 + szx) / 16 ≡ num = omega arith in
    let e2 : (num * 16 + 8 + szx) % 16 ≡ 8 + szx = omega arith in
    let e3 : (8 + szx) / 8 ≡ 1 = omega arith in
    let e4 : (8 + szx) % 8 ≡ szx = omega arith in rw (e1, e2, e3, e4) refl
new_block_from_int-option_value false num szx h =
    let e1 : (num * 16 + 0 + szx) / 16 ≡ num = omega arith in
    let e2 : (num * 16 + 0 + szx) % 16 ≡ szx = omega arith in
    let e3 : szx / 8 ≡ 0 = omega arith in
    let e4 : szx % 8 ≡ szx = omega arith in rw (e1, e2, e3, e4) refl

-- Every block of a size 16, 32, ..., 1024 is read back whole from its option value.
pub new_block_from_int-to_int :
    (more : Bool) (num szx : ℕ)
    → szx ≤ 6
    → new_block_from_int (to_int (new_block more (pos num) (pos (size_of szx))))
      ≡ new_block more (pos num) (pos (size_of szx))
new_block_from_int-to_int more num szx h =
    rw (to_int-option_value more num szx h)
      (new_block_from_int-option_value more num szx (omega arith))
