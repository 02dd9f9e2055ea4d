-- ===== src/Arq/Receive/Buffer.antt =====
-- The buffer of blocks: its keys, their number and its bytes.
use coalago.Base.{
  ltb, ℕ, zero, suc, ◌+◌, ◌≤◌, ◌<◌, ◌≡◌, refl, ap, Bool, true, false, List, [], ◌∷◌, length, ◌==◌,
  ==_iff, ◌&&◌, ◌||◌, if◌then◌else◌, arith, Bool-cases, inl, inr,
}
use coalago.Base.Int.{pos, int_eq}
use coalago.Arq.Receive.{Chunk, store, lookup}

-- Whether the buffer has an entry under the number.
unfoldable pub present : ℕ → List Chunk → Bool
present j [] = false
present j (c ∷ buf) = int_eq c.key (pos j) || present j buf

-- Whether all numbers below `n` have an entry.
unfoldable pub all_present : ℕ → List Chunk → Bool
unfolding present
all_present zero buf = true
all_present (suc n) buf = present n buf && all_present n buf

-- The entries hold the bytes that `part` gives for their numbers, which are below `n`; no number is
-- there twice.
abbrev pub Holds : (ℕ → List ℕ) → ℕ → List Chunk → Type 0
Holds part n [] = Unit {0}
Holds part n (c ∷ buf) =
    ((j : ℕ) × (c ≡ record { key = pos j; bytes = part j }) × (j < n) × (present j buf ≡ false))
    × Holds part n buf

pub present-store :
    (part : ℕ → List ℕ) (n i j : ℕ) (buf : List Chunk)
    → Holds part n buf
    → present j (store (pos i) (part i) buf) ≡ (i == j) || present j buf
unfolding present store
present-store part n i j [] h = refl
present-store part n i j (c ∷ buf) ((k, e, lt, new), h) =
    rw e (ground (arith, present-store part n i j buf h))

pub store-Holds :
    (part : ℕ → List ℕ) (n i : ℕ) (buf : List Chunk)
    → i < n
    → Holds part n buf
    → Holds part n (store (pos i) (part i) buf)
unfolding present store
store-Holds part n i [] lt h = ((i, refl, lt, refl), tt)
store-Holds part n i (c ∷ buf) lt ((k, e, ltk, new), h) = elim (Bool-cases (k == i)) [
  | inl q ↦ rw (e, q) ((i, refl, lt, rw ((==_iff k i).0 q) at new), h)
  | inr q ↦
      rw (e, q)
        (
          (k, refl, ltk, ground (present-store part n i k buf h, arith, new)),
          store-Holds part n i buf lt h,
        )
]

pub lookup-Holds :
    (part : ℕ → List ℕ) (n i : ℕ) (buf : List Chunk)
    → Holds part n buf
    → present i buf ≡ true
    → lookup (pos i) buf ≡ part i
unfolding present lookup
lookup-Holds part n i [] h p = cc
lookup-Holds part n i (c ∷ buf) ((k, e, ltk, new), h) p = elim (Bool-cases (k == i)) [
  | inl q ↦ rw (e, q) (ap part ((==_iff k i).0 q))
  | inr q ↦ rw (e, q) (lookup-Holds part n i buf h (rw (e, q) at p))
]

-- The number of entries, counted by their numbers.
count : ℕ → List Chunk → ℕ
count zero buf = 0
count (suc n) buf = count n buf + (if present n buf then 1 else 0)

count-le : (n : ℕ) (buf : List Chunk) → count n buf ≤ n
unfolding count
count-le zero buf = omega arith
count-le (suc n) buf = ground (arith, count-le n buf)

count-all_present : (n : ℕ) (buf : List Chunk) → (count n buf == n) ≡ all_present n buf
unfolding count all_present
count-all_present zero buf = refl
count-all_present (suc n) buf = ground (arith, count-le n buf, count-all_present n buf)

count-nil : (n : ℕ) → count n [] ≡ 0
unfolding count present
count-nil zero = refl
count-nil (suc n) = omega (arith, count-nil n)

count-cons :
    (n j : ℕ) (bytes : List ℕ) (buf : List Chunk)
    → present j buf ≡ false
    → count n (record { key = pos j; bytes = bytes } ∷ buf)
      ≡ count n buf + (if ltb j n then 1 else 0)
unfolding count present
count-cons zero j bytes buf h = ground arith
count-cons (suc n) j bytes buf h = ground (arith, count-cons n j bytes buf h, h)

length-count :
    (part : ℕ → List ℕ) (n : ℕ) (buf : List Chunk) → Holds part n buf → length buf ≡ count n buf
length-count part n [] h = omega (arith, count-nil n)
length-count part n (c ∷ buf) ((k, e, lt, new), h) =
    rw e (ground (arith, length-count part n buf h, count-cons n k (part k) buf new))

-- The buffer has as many entries as there are numbers exactly if each number is there.
pub length-all_present :
    (part : ℕ → List ℕ) (n : ℕ) (buf : List Chunk)
    → Holds part n buf
    → (n == length buf) ≡ all_present n buf
length-all_present part n buf h = ground (arith, length-count part n buf h, count-all_present n buf)
