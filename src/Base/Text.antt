-- ===== src/Base/Text.antt =====
-- Go strings as byte lists, and the parts of package strings that the source calls.
use Prim.Native.Nat.{ℕ, zero, suc, ◌+◌, ◌-◌, ◌*◌, ◌/◌, ◌%◌}
use Prim.Native.Char.{code}
use Prim.Native.String.{String}
use mathlib.Core.Bool.{Bool, true, false, ◌&&◌, ◌||◌}
use mathlib.Core.List.{List, [], ◌∷◌, ◌++◌, reverse}
use mathlib.Core.Option.{Option, none, some}
use coalago.Base.Tests.{◌==◌, leb, if◌then◌else◌}
use coalago.Base.Int.{ℤ, pos, negsuc}

-- The bytes of an ASCII text.
abbrev pub codes : String → List ℕ
codes String.[] = []
codes (String.◌∷◌ c s) = code c ∷ codes s

-- strings.Join
unfoldable pub join : List (List ℕ) → List ℕ → List ℕ
join [] sep = []
join (s ∷ []) sep = s
join (s ∷ t ∷ ss) sep = s ++ (sep ++ join (t ∷ ss) sep)

-- strings.Split by a one-byte separator; `part` holds the bytes of the piece in hand, reversed.
unfoldable pub split_from : List ℕ → ℕ → List ℕ → List (List ℕ)
split_from part sep [] = reverse part ∷ []
split_from part sep (b ∷ bs) = elim (b == sep) [
  | true ↦ reverse part ∷ split_from [] sep bs
  | false ↦ split_from (b ∷ part) sep bs
]

abbrev pub split : List ℕ → ℕ → List (List ℕ)
split s sep = split_from [] sep s

-- One end of strings.Trim with the cutset "/ ".
unfoldable pub trim_left : List ℕ → List ℕ
trim_left [] = []
trim_left (b ∷ bs) = elim (b == b'/' || b == b' ') [ true ↦ trim_left bs | false ↦ b ∷ bs ]

unfoldable pub trim : List ℕ → List ℕ
unfolding trim_left
trim s = reverse (trim_left (reverse (trim_left s)))

is_digit : ℕ → Bool
is_digit b = leb b'0' b && leb b b'9'

-- The value of a string of decimal digits after the value `acc`.
digits_value : ℕ → List ℕ → Option ℕ
unfolding is_digit
digits_value acc [] = some acc
digits_value acc (b ∷ bs) =
    let rest = digits_value (acc * 10 + (b - b'0')) bs in if is_digit b then rest else none

nonempty_value : List ℕ → Option ℕ
unfolding digits_value
nonempty_value [] = none
nonempty_value (b ∷ bs) = digits_value 0 (b ∷ bs)

-- strconv.Atoi on a 64-bit platform: an optional sign, decimal digits, and the range of int.
bounded_pos : Option ℕ → Option ℤ
bounded_pos none = none
bounded_pos (some n) = if leb n 0x7fff_ffff_ffff_ffff then some (pos n) else none

bounded_neg : Option ℕ → Option ℤ
bounded_neg none = none
bounded_neg (some n) =
    if n == 0
    then some (pos 0)
    else if leb n 0x8000_0000_0000_0000
    then some (negsuc (n - 1))
    else none

unfoldable pub atoi : List ℕ → Option ℤ
unfolding nonempty_value bounded_pos bounded_neg
atoi [] = none
atoi (b ∷ bs) =
    if b == b'-'
    then bounded_neg (nonempty_value bs)
    else if b == b'+'
    then bounded_pos (nonempty_value bs)
    else bounded_pos (nonempty_value (b ∷ bs))

-- strconv.Itoa of a number below 10 ^ fuel.
unfoldable pub itoa_from : ℕ → ℕ → List ℕ
itoa_from zero n = []
itoa_from (suc fuel) n =
    let more = itoa_from fuel (n / 10) in
    let digit : List ℕ = (n % 10 + b'0') ∷ [] in if n / 10 == 0 then digit else more ++ digit

abbrev pub itoa : ℕ → List ℕ
itoa n = itoa_from 20 n
