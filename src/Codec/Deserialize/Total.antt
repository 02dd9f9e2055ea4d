-- ===== src/Codec/Deserialize/Total.antt =====
-- The loop over the options ends on every input: each round takes a byte at least.
use coalago.Base.{
  ℕ, zero, suc, ◌+◌, ◌≤◌, ◌<◌, ◌≢◌, ◌%◌, ◌/◌, some, List, [], ◌∷◌, length, drop, leb, ◌==◌, arith,
  Bool-cases, Option-cases, inl, inr, length-drop, bit_and, take,
}
use coalago.Codec.Deserialize.{
  Kind, kind, Extended, extended_1, extended_2, read_extended, Round, add_value, take_option,
  after_delta, round, Parsed, parse_options,
}
use coalago.Constants.{Error, payload_marker}
use coalago.Options.{CoapOption}
use coalago.Wire.{decode_int}

-- What is left is at most `n` bytes.
abbrev IsWithin : ℕ → Extended → Type 0
IsWithin n (Extended.value v t) = length t ≤ n
IsWithin n Extended.reserved = Unit {0}
IsWithin n Extended.out_of_range = Unit {0}

abbrev Leaves : ℕ → Round → Type 0
Leaves n (Round.next last options t) = length t ≤ n
Leaves n (Round.finish options t) = Unit {0}
Leaves n (Round.fail options e) = Unit {0}
Leaves n Round.crash = Unit {0}

read_extended-IsWithin : (n : ℕ) (tmp : List ℕ) → IsWithin (length tmp) (read_extended n tmp)
unfolding read_extended
read_extended-IsWithin n tmp = elim (Bool-cases (n == 13)) [
  | inl e ↦ rw e (one tmp)
  | inr e ↦ rw e (elim (Bool-cases (n == 14)) [
    | inl q ↦ rw q (two tmp)
    | inr q ↦ rw q (elim (Bool-cases (n == 15)) [ inl r ↦ rw r tt | inr r ↦ rw r (omega arith) ])
  ])
]
  where
    one : (tmp : List ℕ) → IsWithin (length tmp) (extended_1 tmp)
    one [] = tt
    one (a ∷ tmp) = omega arith

    two : (tmp : List ℕ) → IsWithin (length tmp) (extended_2 tmp)
    two [] = tt
    two (a ∷ []) = tt
    two (a ∷ b ∷ tmp) = omega arith

add_value-Leaves :
    (k : Kind) (code : ℕ) (options : List CoapOption) (bs tmp : List ℕ)
    → Leaves (length tmp) (add_value k code options bs tmp)
unfolding add_value
add_value-Leaves Kind.int_kind code options bs tmp = elim (Option-cases (decode_int bs)) [
  | inl e ↦ rw e tt
  | inr (v, e) ↦ rw e (omega arith)
]
add_value-Leaves Kind.string_kind code options bs tmp = omega arith
add_value-Leaves Kind.unknown code options bs tmp = elim (Bool-cases (bit_and code 1 == 1)) [
  | inl e ↦ rw e tt
  | inr e ↦ rw e (omega arith)
]

Leaves-more : (n k : ℕ) (r : Round) → n ≤ k → Leaves n r → Leaves k r
Leaves-more n k (Round.next last options t) h l = omega arith
Leaves-more n k (Round.finish options t) h l = tt
Leaves-more n k (Round.fail options e) h l = tt
Leaves-more n k Round.crash h l = tt

take_option-Leaves :
    (code : ℕ) (options : List CoapOption) (len : ℕ) (tmp : List ℕ)
    → Leaves (length tmp) (take_option code options len tmp)
unfolding take_option
take_option-Leaves code options len tmp = elim (Bool-cases (leb len (length tmp))) [
  | inl e ↦ rw e (
      Leaves-more (length (drop len tmp)) (length tmp) _ (omega (arith, length-drop len tmp))
        (add_value-Leaves (kind code) code options (take len tmp) (drop len tmp)))
  | inr e ↦ rw e (omega arith)
]

after_delta-Leaves :
    (n last : ℕ) (options : List CoapOption) (len : ℕ) (d : Extended)
    → IsWithin n d
    → Leaves n (after_delta last options len d)
unfolding after_delta
after_delta-Leaves n last options len Extended.out_of_range w = tt
after_delta-Leaves n last options len Extended.reserved w = tt
after_delta-Leaves n last options len (Extended.value delta tmp) w =
    with_length (read_extended len tmp) (read_extended-IsWithin len tmp)
  where
    with_length :
        (x : Extended)
        → IsWithin (length tmp) x
        → Leaves n (elim x [
          | Extended.out_of_range ↦ Round.crash
          | Extended.reserved ↦ Round.fail (some options) Error.option_length_uses_value_15
          | Extended.value k tmp' ↦ take_option ((last + delta) % 0x1_0000) options k tmp'
        ])
    with_length Extended.out_of_range h = tt
    with_length Extended.reserved h = tt
    with_length (Extended.value k t) h =
        Leaves-more (length t) n _ (omega arith) (take_option-Leaves _ options k t)

round-Leaves :
    (last : ℕ) (options : List CoapOption) (b : ℕ) (tmp : List ℕ)
    → Leaves (length tmp) (round last options (b ∷ tmp))
unfolding round
round-Leaves last options b tmp = elim (Bool-cases (b == payload_marker)) [
  | inl e ↦ rw e tt
  | inr e ↦ rw e (
      after_delta-Leaves (length tmp) last options (bit_and b 0x0f) _
        (read_extended-IsWithin (b / 16) tmp))
]

-- Whatever the bytes are, the loop over the options ends within one round more than there are bytes:
-- with the options and the payload, with an error, or with a panic that deserialize recovers from.
pub parse_options_ends :
    (fuel last : ℕ) (options : List CoapOption) (tmp : List ℕ)
    → length tmp < fuel
    → parse_options fuel last options tmp ≢ Parsed.stuck
unfolding parse_options
parse_options_ends zero last options tmp h = absurd (omega arith)
parse_options_ends (suc fuel) last options [] h = unfold round in (λ e. cc e)
parse_options_ends (suc fuel) last options (b ∷ tmp) h =
    go (λ l o t s. parse_options_ends fuel l o t s) (round last options (b ∷ tmp))
      (round-Leaves last options b tmp)
  where
    go :
        ((l : ℕ) (o : List CoapOption) (t : List ℕ)
          → length t < fuel
          → parse_options fuel l o t ≢ Parsed.stuck)
        → (r : Round) → Leaves (length tmp) r
        → (elim r [
          | Round.next last' options' tmp' ↦ parse_options fuel last' options' tmp'
          | Round.finish options' payload ↦ Parsed.parsed options' payload
          | Round.fail options' e ↦ Parsed.failed options' e
          | Round.crash ↦ Parsed.panicked
        ])
          ≢ Parsed.stuck
    go ends (Round.next last' options' t) l = ends last' options' t (omega arith)
    go ends (Round.finish options' payload) l = λ e. cc e
    go ends (Round.fail options' x) l = λ e. cc e
    go ends Round.crash l = λ e. cc e
