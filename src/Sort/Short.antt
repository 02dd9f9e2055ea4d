-- ===== src/Sort/Short.antt =====
-- The steps of sort.Sort on at most twelve elements.
use coalago.Base.{
  ℕ, suc, ◌-◌, ◌≤◌, ◌≡◌, refl, Bool, true, false, List, length, leb, le→leb, lt→ltb, arith,
  Bool-cases, inl, inr,
}
use native.Mathlib.Numerals.{add-one}
use coalago.Sort.{sink, insertion_loop, insertion_sort, pdqsort, sort}

module _ {ℓ} {A : Type ℓ} (less : List A → ℕ → ℕ → Bool) (swap : List A → ℕ → ℕ → List A) where
  pub sink_swaps :
      (j : ℕ) (l : List A)
      → less l (suc j) j ≡ true
      → sink less swap 0 (suc j) l ≡ sink less swap 0 j (swap l (suc j) j)
  unfolding sink
  sink_swaps j l h = rw (lt→ltb 0 (suc j) (omega arith), sink) (rw (h, sink) refl)

  pub sink_stays : (j : ℕ) (l : List A) → less l (suc j) j ≡ false → sink less swap 0 (suc j) l ≡ l
  unfolding sink
  sink_stays j l h = rw (lt→ltb 0 (suc j) (omega arith), sink) (rw (h, sink) refl)

  pub insertion_loop-suc :
      (k i : ℕ) (l : List A)
      → insertion_loop less swap 0 (suc k) i l
        ≡ insertion_loop less swap 0 k (suc i) (sink less swap 0 i l)
  unfolding insertion_loop
  insertion_loop-suc k i l = refl

  pdqsort_short :
      (fuel n limit : ℕ) (b p : Bool) (l : List A)
      → n ≤ 12
      → pdqsort less swap (suc fuel) 0 n limit b p l ≡ insertion_sort less swap 0 n l
  unfolding pdqsort
  pdqsort_short fuel n limit b p l h = rw (le→leb (n - 0) 12 (omega arith), pdqsort) refl

  pub sort_short :
      (l : List A)
      → 2 ≤ length l
      → length l ≤ 12
      → sort less swap l ≡ insertion_sort less swap 0 (length l) l
  unfolding sort
  sort_short l lo hi = elim (Bool-cases (leb (length l) 1)) [
    | inl e ↦ absurd (ground arith)
    | inr e ↦ rw (e, add-one (length l)) (pdqsort_short (length l) (length l) _ true true l hi)
  ]
