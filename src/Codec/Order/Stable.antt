-- ===== src/Codec/Order/Stable.antt =====
-- Insertion sort orders the options by code, and keeps the order of those with one code.
use mathlib.Core.List.{append-nil}
use coalago.Base.{
  ℕ, ◌≤◌, ◌<◌, ◌≡◌, refl, sym, ◌∙◌, List, [], ◌∷◌, ◌++◌, length, filter, All, ltb, ◌==◌, arith,
  Bool-cases, inl, inr,
}
use native.Mathlib.Nat.{le_refl}
use coalago.Codec.Order.{Ascends, rev_onto, put_in, put_all_in, ordered}
use coalago.Codec.Order.Insertion.{sort_options-ordered}
use coalago.Codec.{sort_options}
use coalago.Message.{has_code}
use coalago.Options.{CoapOption}

-- The sorted part, last element first: the codes from `b` on do not rise.
abbrev Descends : ℕ → List CoapOption → Type 0
Descends b [] = Unit {0}
Descends b (y ∷ r) = (y.code ≤ b) × Descends y.code r

abbrev IsDescending : List CoapOption → Type 0
IsDescending [] = Unit {0}
IsDescending (y ∷ r) = Descends y.code r

-- A descending list whose first element is at most the first of an ascending one.
abbrev Meets : List CoapOption → List CoapOption → Type 0
Meets [] s = Ascends 0 s
Meets (y ∷ r) s = Ascends y.code s × Descends y.code r

rev_onto-Ascends : (r s : List CoapOption) → Meets r s → Ascends 0 (rev_onto r s)
rev_onto-Ascends [] s h = h
rev_onto-Ascends (y ∷ []) s (h, d) = (omega arith, h)
rev_onto-Ascends (y ∷ z ∷ r) s (h, d) = rev_onto-Ascends (z ∷ r) (y ∷ s) ((d.0, h), d.1)

put_in-Descends :
    (b : ℕ) (x : CoapOption) (r : List CoapOption)
    → x.code ≤ b
    → Descends b r
    → Descends b (put_in x r)
unfolding put_in
put_in-Descends b x [] h d = (h, tt)
put_in-Descends b x (y ∷ r) h d = elim (Bool-cases (ltb x.code y.code)) [
  | inl e ↦ rw e (d.0, put_in-Descends y.code x r (ground arith) d.1)
  | inr e ↦ rw e (h, (ground arith, d.1))
]

put_in-IsDescending :
    (x : CoapOption) (r : List CoapOption) → IsDescending r → IsDescending (put_in x r)
unfolding put_in
put_in-IsDescending x [] d = tt
put_in-IsDescending x (y ∷ r) d = elim (Bool-cases (ltb x.code y.code)) [
  | inl e ↦ rw e (put_in-Descends y.code x r (ground arith) d)
  | inr e ↦ rw e (ground arith, d)
]

put_all_in-IsDescending : (s r : List CoapOption) → IsDescending r → IsDescending (put_all_in s r)
unfolding put_all_in
put_all_in-IsDescending [] r d = d
put_all_in-IsDescending (x ∷ s) r d =
    put_all_in-IsDescending s (put_in x r) (put_in-IsDescending x r d)

Meets-nil : (r : List CoapOption) → IsDescending r → Meets r []
Meets-nil [] d = tt
Meets-nil (y ∷ r) d = (tt, d)

pub ordered-Ascends : (os : List CoapOption) → Ascends 0 (ordered os)
unfolding ordered
ordered-Ascends os =
    rev_onto-Ascends (put_all_in os []) [] (Meets-nil _ (put_all_in-IsDescending os [] tt))

-- The options with one code, before and after.
filter-rev_onto :
    (c : ℕ) (r s : List CoapOption)
    → filter (has_code c) (rev_onto r s) ≡ rev_onto (filter (has_code c) r) (filter (has_code c) s)
filter-rev_onto c [] s = refl
filter-rev_onto c (y ∷ r) s = elim (Bool-cases (y.code == c)) [
  | inl e ↦ rw e (filter-rev_onto c r (y ∷ s) ∙ rw e)
  | inr e ↦ rw e (filter-rev_onto c r (y ∷ s) ∙ rw e)
]

filter-put_in :
    (c : ℕ) (x : CoapOption) (r : List CoapOption)
    → filter (has_code c) (put_in x r) ≡ filter (has_code c) (x ∷ r)
unfolding put_in
filter-put_in c x [] = refl
filter-put_in c x (y ∷ r) = ground (arith, filter-put_in c x r)

filter-put_all_in :
    (c : ℕ) (s r : List CoapOption)
    → filter (has_code c) (put_all_in s r)
      ≡ rev_onto (filter (has_code c) s) (filter (has_code c) r)
unfolding put_all_in
filter-put_all_in c [] r = refl
filter-put_all_in c (x ∷ s) r =
    filter-put_all_in c s (put_in x r)
    ∙ rw (filter-put_in c x r) (elim (Bool-cases (x.code == c)) [ inl e ↦ rw e | inr e ↦ rw e ])

rev_onto-rev_onto : (a b c : List CoapOption) → rev_onto (rev_onto a b) c ≡ rev_onto b (a ++ c)
rev_onto-rev_onto [] b c = refl
rev_onto-rev_onto (x ∷ a) b c = rev_onto-rev_onto a (x ∷ b) c

pub filter-ordered :
    (c : ℕ) (os : List CoapOption) → filter (has_code c) (ordered os) ≡ filter (has_code c) os
unfolding ordered
filter-ordered c os =
    filter-rev_onto c (put_all_in os []) []
    ∙ rw (filter-put_all_in c os [])
        (rev_onto-rev_onto (filter (has_code c) os) [] [] ∙ append-nil _)

-- What holds of every option holds of every option after sorting.
module _ (P : CoapOption → Type 0) where
  put_in-All : (x : CoapOption) (r : List CoapOption) → P x → All P r → All P (put_in x r)
  unfolding put_in
  put_in-All x [] p h = (p, tt)
  put_in-All x (y ∷ r) p h = elim (Bool-cases (ltb x.code y.code)) [
    | inl e ↦ rw e (h.0, put_in-All x r p h.1)
    | inr e ↦ rw e (p, h)
  ]

  put_all_in-All : (s r : List CoapOption) → All P s → All P r → All P (put_all_in s r)
  unfolding put_all_in
  put_all_in-All [] r hs hr = hr
  put_all_in-All (x ∷ s) r hs hr = put_all_in-All s (put_in x r) hs.1 (put_in-All x r hs.0 hr)

  rev_onto-All : (r s : List CoapOption) → All P r → All P s → All P (rev_onto r s)
  rev_onto-All [] s hr hs = hs
  rev_onto-All (y ∷ r) s hr hs = rev_onto-All r (y ∷ s) hr.1 (hr.0, hs)

  pub ordered-All : (os : List CoapOption) → All P os → All P (ordered os)
  unfolding ordered
  ordered-All os h = rev_onto-All (put_all_in os []) [] (put_all_in-All os [] h tt) tt

-- An ascending list is determined by its options of each code.
no_lower : (c b : ℕ) (os : List CoapOption) → c < b → Ascends b os → filter (has_code c) os ≡ []
no_lower c b [] h a = refl
no_lower c b (o ∷ os) h a = ground (arith, no_lower c o.code os (omega arith) a.1)

first_not_lower :
    (o p : CoapOption) (os ps : List CoapOption)
    → Ascends p.code ps
    → filter (has_code o.code) (o ∷ os) ≡ filter (has_code o.code) (p ∷ ps)
    → p.code ≤ o.code
first_not_lower o p os ps a h = elim (Bool-cases (ltb o.code p.code)) [
  | inl e ↦ ground (arith, h, no_lower o.code p.code (p ∷ ps) (ground arith) (le_refl p.code, a))
  | inr e ↦ ground arith
]

first_same :
    (o p : CoapOption) (os ps : List CoapOption)
    → o.code ≡ p.code
    → filter (has_code o.code) (o ∷ os) ≡ filter (has_code o.code) (p ∷ ps)
    → o ≡ p
first_same o p os ps e h = ground (arith, h)

rest_same :
    (o p : CoapOption) (os ps : List CoapOption) (c : ℕ)
    → o ≡ p
    → filter (has_code c) (o ∷ os) ≡ filter (has_code c) (p ∷ ps)
    → filter (has_code c) os ≡ filter (has_code c) ps
rest_same o p os ps c e h = ground (arith, h)

pub Ascends-unique :
    (b b' : ℕ) (os ps : List CoapOption)
    → Ascends b os
    → Ascends b' ps
    → ((c : ℕ) → filter (has_code c) os ≡ filter (has_code c) ps)
    → os ≡ ps
Ascends-unique b b' [] [] a a' h = refl
Ascends-unique b b' [] (p ∷ ps) a a' h = ground (arith, h p.code)
Ascends-unique b b' (o ∷ os) [] a a' h = ground (arith, h o.code)
Ascends-unique b b' (o ∷ os) (p ∷ ps) a a' h =
    let le = first_not_lower o p os ps a'.1 (h o.code) in
    let ge = first_not_lower p o ps os a.1 (sym (h p.code)) in
    let e = first_same o p os ps (omega arith) (h o.code) in
    let same = Ascends-unique o.code p.code os ps a.1 a'.1 (λ c. rest_same o p os ps c e (h c)) in
    cc (e, same)

-- For at most twelve options: after sort.Sort the codes do not fall from one option to the next, and
-- the options with any one code are the same as before, in the same order.
pub sort_options_stable :
    (os : List CoapOption)
    → length os ≤ 12
    → Ascends 0 (sort_options os)
      × ((c : ℕ) → filter (has_code c) (sort_options os) ≡ filter (has_code c) os)
sort_options_stable os h =
    rw (sort_options-ordered os h) (ordered-Ascends os, λ c. filter-ordered c os)
