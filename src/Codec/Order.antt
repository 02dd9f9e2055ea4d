-- ===== src/Codec/Order.antt =====
-- The order of the options in a datagram: sort.Sort over sortOptions, for the at most twelve
-- elements that the library sorts by insertion.
pub mod Insertion
pub mod Stable
use coalago.Base.{ℕ, ◌≤◌, Bool, List, [], ◌∷◌, length, ltb, if◌then◌else◌}
use coalago.Options.{CoapOption}

-- The codes from `last` on do not fall.
abbrev pub Ascends : ℕ → List CoapOption → Type 0
Ascends last [] = Unit {0}
Ascends last (o ∷ os) = (last ≤ o.code) × Ascends o.code os

-- `r` reversed, in front of `s`.
abbrev pub rev_onto : List CoapOption → List CoapOption → List CoapOption
rev_onto [] s = s
rev_onto (y ∷ r) s = rev_onto r (y ∷ s)

-- An option put into its place in the sorted part, which is held last element first.
unfoldable pub put_in : CoapOption → List CoapOption → List CoapOption
put_in x [] = x ∷ []
put_in x (y ∷ r) = let rest = put_in x r in if ltb x.code y.code then y ∷ rest else x ∷ y ∷ r

unfoldable pub put_all_in : List CoapOption → List CoapOption → List CoapOption
unfolding put_in
put_all_in [] r = r
put_all_in (x ∷ s) r = put_all_in s (put_in x r)

-- Insertion sort on lists.
unfoldable pub ordered : List CoapOption → List CoapOption
unfolding put_all_in
ordered os = rev_onto (put_all_in os []) []
