-- ===== src/Sort.antt =====
-- sort.Sort of the Go library, on a slice that is reached through Less and Swap alone.
pub mod Short
use Prim.Native.Nat.{max}
use coalago.Base.{
  ℕ, zero, suc, ◌+◌, ◌-◌, ◌*◌, ◌/◌, ◌%◌, ◌^◌, Bool, true, false, not, List, length, ◌&&◌, ltb, leb,
  ◌==◌, if◌then◌else◌, bit_and, bit_xor,
}

-- What choosePivot saw of the order of the samples.
pub data SortedHint : Type 0 where
  unknown increasing decreasing : SortedHint

-- bits.Len
bits_len_fuel : ℕ → ℕ → ℕ
bits_len_fuel zero n = 0
bits_len_fuel (suc fuel) n = let rest = bits_len_fuel fuel (n / 2) in if n == 0 then 0 else suc rest

unfoldable pub bits_len : ℕ → ℕ
unfolding bits_len_fuel
bits_len n = bits_len_fuel 64 n

-- xorshift.Next, on a uint64
xorshift_next : ℕ → ℕ
xorshift_next r =
    let r1 = bit_xor r (r * 2 ^ 13 % 2 ^ 64) in
    let r2 = bit_xor r1 (r1 / 2 ^ 7) in bit_xor r2 (r2 * 2 ^ 17 % 2 ^ 64)

-- A sample's index or three of them, with the swaps counted so far.
pub record Samples : Type 0 where
  pub low : ℕ
  pub high : ℕ
  pub swaps : ℕ

module _ {ℓ} {A : Type ℓ} (less : List A → ℕ → ℕ → Bool) (swap : List A → ℕ → ℕ → List A) where
  -- The inner loop of insertionSort, from the index `j` down to `a`.
  unfoldable pub sink : ℕ → ℕ → List A → List A
  sink a zero l = l
  sink a (suc j) l = elim (ltb a (suc j) && less l (suc j) j) [
    | true ↦ sink a j (swap l (suc j) j)
    | false ↦ l
  ]

  -- The outer loop of insertionSort, for `k` more rounds from the index `i` on.
  unfoldable pub insertion_loop : ℕ → ℕ → ℕ → List A → List A
  insertion_loop a zero i l = l
  insertion_loop a (suc k) i l = insertion_loop a k (suc i) (sink a i l)

  unfoldable pub insertion_sort : ℕ → ℕ → List A → List A
  unfolding sink insertion_loop
  insertion_sort a b l = insertion_loop a (b - (a + 1)) (a + 1) l

  sift_down : ℕ → ℕ → ℕ → ℕ → List A → List A
  sift_down zero root hi first l = l
  sift_down (suc fuel) root hi first l =
      let child = 2 * root + 1 in
      let child' =
        if ltb (child + 1) hi && less l (first + child) (first + child + 1)
        then child + 1
        else child in
      elim (leb hi child) [
        | true ↦ l
        | false ↦ elim (less l (first + root) (first + child')) [
          | false ↦ l
          | true ↦ sift_down fuel child' hi first (swap l (first + root) (first + child'))
        ]
      ]

  -- The first loop of heapSort, for i = k - 1 down to 0.
  build_heap : ℕ → ℕ → ℕ → List A → List A
  unfolding sift_down
  build_heap zero hi first l = l
  build_heap (suc i) hi first l = build_heap i hi first (sift_down hi i hi first l)

  pop_heap : ℕ → ℕ → List A → List A
  unfolding sift_down
  pop_heap zero first l = l
  pop_heap (suc i) first l = pop_heap i first (sift_down i 0 i first (swap l first (first + i)))

  heap_sort : ℕ → ℕ → List A → List A
  unfolding build_heap pop_heap
  heap_sort a b l =
      let hi = b - a in pop_heap hi a (if hi == 0 then l else build_heap ((hi - 1) / 2 + 1) hi a l)

  -- The loop of breakPatterns.
  break_loop : ℕ → ℕ → ℕ → ℕ → ℕ → ℕ → ℕ → List A → List A
  unfolding xorshift_next
  break_loop zero i random modulus idx a len l = l
  break_loop (suc k) i random modulus idx a len l =
      let random' = xorshift_next random in
      let drawn = bit_and random' (modulus - 1) in
      let other = if leb len drawn then drawn - len else drawn in
      break_loop k (i + 1) random' modulus idx a len (swap l (idx - 1 + i) (a + other))

  break_patterns : ℕ → ℕ → List A → List A
  unfolding break_loop bits_len
  break_patterns a b l =
      let len = b - a in
      if leb 8 len then break_loop 3 0 len (2 ^ bits_len len) (a + len / 4 * 2 - 1) a len l else l

  order2 : List A → ℕ → ℕ → ℕ → Samples
  order2 l a b swaps =
      if less l b a
      then record { low = b; high = a; swaps = swaps + 1 }
      else record { low = a; high = b; swaps = swaps }

  -- The index of the median of three, as `high`.
  median : List A → ℕ → ℕ → ℕ → ℕ → Samples
  unfolding order2
  median l a b c swaps =
      let s1 = order2 l a b swaps in
      let s2 = order2 l s1.high c s1.swaps in order2 l s1.low s2.low s2.swaps

  median_adjacent : List A → ℕ → ℕ → Samples
  unfolding median
  median_adjacent l a swaps = median l (a - 1) a (a + 1) swaps

  hint_of : ℕ → SortedHint
  hint_of swaps =
      if swaps == 0
      then SortedHint.increasing
      else if swaps == 12
      then SortedHint.decreasing
      else SortedHint.unknown

  choose_pivot : ℕ → ℕ → List A → ℕ × SortedHint
  unfolding median_adjacent hint_of
  choose_pivot a b l =
      let len = b - a in
      let i = a + len / 4 in
      let j = a + len / 4 * 2 in
      let k = a + len / 4 * 3 in
      let mi = median_adjacent l i 0 in
      let mj = median_adjacent l j mi.swaps in
      let mk = median_adjacent l k mj.swaps in
      let long = median l mi.high mj.high mk.high mk.swaps in
      let short = median l i j k 0 in
      if leb 8 len
      then if leb 50 len then (long.high, hint_of long.swaps) else (short.high, hint_of short.swaps)
      else (j, SortedHint.increasing)

  -- reverseRange, for at most `fuel` rounds
  reverse_loop : ℕ → ℕ → ℕ → List A → List A
  reverse_loop zero i j l = l
  reverse_loop (suc fuel) i j l = elim (ltb i j) [
    | true ↦ reverse_loop fuel (i + 1) (j - 1) (swap l i j)
    | false ↦ l
  ]

  -- The first index from `i` on, below `i` + `k`, whose element is less than the one before it.
  ascend : ℕ → ℕ → List A → ℕ
  ascend zero i l = i
  ascend (suc k) i l = elim (less l i (i - 1)) [ true ↦ i | false ↦ ascend k (i + 1) l ]

  shift_right : ℕ → ℕ → List A → List A
  shift_right zero j l = l
  shift_right (suc k) j l = elim (less l j (j - 1)) [
    | true ↦ shift_right k (j + 1) (swap l j (j - 1))
    | false ↦ l
  ]

  partial_loop : ℕ → ℕ → ℕ → ℕ → List A → List A × Bool
  unfolding ascend shift_right
  partial_loop zero i a b l = (l, false)
  partial_loop (suc steps) i a b l =
      let i' = ascend (b - i) i l in
      let l1 = swap l i' (i' - 1) in
      let l2 = if leb 2 (i' - a) then sink 0 (i' - 1) l1 else l1 in
      let l3 = if leb 2 (b - i') then shift_right (b - (i' + 1)) (i' + 1) l2 else l2 in
      elim (i' == b) [
        | true ↦ (l, true)
        | false ↦ elim (ltb (b - a) 50) [ true ↦ (l, false) | false ↦ partial_loop steps i' a b l3 ]
      ]

  -- partialInsertionSort
  partial_insertion_sort : ℕ → ℕ → List A → List A × Bool
  unfolding partial_loop sink
  partial_insertion_sort a b l = partial_loop 5 (a + 1) a b l

  -- `for i <= j && test(i) { i++ }`, with `k` at least j + 1 - i
  up_while : (ℕ → Bool) → ℕ → ℕ → ℕ
  up_while test zero i = i
  up_while test (suc k) i = elim (test i) [ true ↦ up_while test k (i + 1) | false ↦ i ]

  -- `for i <= j && test(j) { j-- }`, with `k` at least j + 1 - i
  down_while : (ℕ → Bool) → ℕ → ℕ → ℕ
  down_while test zero j = j
  down_while test (suc k) j = elim (test j) [ true ↦ down_while test k (j - 1) | false ↦ j ]

  -- The loop of partition and of partitionEqual: `left` and `right` are the tests of its two scans.
  partition_loop : (List A → ℕ → Bool) → (List A → ℕ → Bool) → ℕ → ℕ → ℕ → List A → List A × ℕ × ℕ
  unfolding up_while down_while
  partition_loop left right zero i j l = (l, i, j)
  partition_loop left right (suc fuel) i j l =
      let i' = up_while (left l) (j + 1 - i) i in
      let j' = down_while (right l) (j + 1 - i') j in
      elim (ltb j' i') [
        | true ↦ (l, i', j')
        | false ↦ partition_loop left right fuel (i' + 1) (j' - 1) (swap l i' j')
      ]

  -- partition: the slice, the pivot's place, and whether it was partitioned already
  partition : ℕ → ℕ → ℕ → List A → List A × ℕ × Bool
  unfolding partition_loop
  partition a b pivot l =
      let l1 = swap l a pivot in
      let left = λ (m : List A) (i : ℕ). less m i a in
      let right = λ (m : List A) (j : ℕ). not (less m j a) in
      let i = up_while (left l1) (b - 1 - a) (a + 1) in
      let j = down_while (right l1) (b - i) (b - 1) in
      let (l2, i', j') = partition_loop left right (b - a) (i + 1) (j - 1) (swap l1 i j) in
      if ltb j i then (swap l1 j a, j, true) else (swap l2 j' a, j', false)

  partition_equal : ℕ → ℕ → ℕ → List A → List A × ℕ
  unfolding partition_loop
  partition_equal a b pivot l =
      let (l', i, j) =
        partition_loop (λ m i. not (less m a i)) (λ m j. less m a j) (b - a) (a + 1) (b - 1)
          (swap l a pivot) in
      (l', i)

  pub record Range : Type ℓ where
    pub slice : List A
    pub pivot : ℕ
    pub hint : SortedHint

  -- The part of a round of pdqsort before its partition: breakPatterns, choosePivot, reverseRange.
  prepare : ℕ → ℕ → Bool → List A → Range
  unfolding break_patterns choose_pivot reverse_loop
  prepare a b was_balanced l =
      let l1 = if was_balanced then l else break_patterns a b l in
      let (pivot, hint) = choose_pivot a b l1 in
      elim hint [
        | SortedHint.decreasing ↦ record {
          slice = reverse_loop (b - a) a (b - 1) l1;
          pivot = b - 1 - (pivot - a);
          hint = SortedHint.increasing;
        }
        | other ↦ record { slice = l1; pivot = pivot; hint = other }
      ]

  is_increasing : SortedHint → Bool
  is_increasing SortedHint.increasing = true
  is_increasing _ = false

  -- pdqsort of the range from `a` to `b`. Each round makes the range shorter, so `b - a` rounds and
  -- as deep a recursion are enough.
  unfoldable pub pdqsort : ℕ → ℕ → ℕ → ℕ → Bool → Bool → List A → List A
  unfolding insertion_sort heap_sort prepare is_increasing partial_insertion_sort partition
      partition_equal
  pdqsort zero a b limit was_balanced was_partitioned l = l
  pdqsort (suc fuel) a b limit was_balanced was_partitioned l =
      let len = b - a in
      let limit' = if was_balanced then limit else limit - 1 in
      let r = prepare a b was_balanced l in
      let (l1, finished) =
        if was_balanced && (was_partitioned && is_increasing r.hint)
        then partial_insertion_sort a b r.slice
        else (r.slice, false) in
      let (le, mid_e) = partition_equal a b r.pivot l1 in
      let (lp, mid, already) = partition a b r.pivot l1 in
      elim (leb len 12) [
        | true ↦ insertion_sort a b l
        | false ↦ elim (limit == 0) [
          | true ↦ heap_sort a b l
          | false ↦ elim finished [
            | true ↦ l1
            | false ↦ elim (ltb 0 a && not (less l1 (a - 1) r.pivot)) [
              | true ↦ pdqsort fuel mid_e b limit' was_balanced was_partitioned le
              | false ↦ elim (ltb (mid - a) (b - mid)) [
                | true ↦
                    pdqsort fuel (mid + 1) b limit' (leb (len / 8) (mid - a)) already
                      (pdqsort fuel a mid limit' true true lp)
                | false ↦
                    pdqsort fuel a mid limit' (leb (len / 8) (b - mid)) already
                      (pdqsort fuel (mid + 1) b limit' true true lp)
              ]
            ]
          ]
        ]
      ]

  -- sort.Sort
  unfoldable pub sort : List A → List A
  sort l = let n = length l in if leb n 1 then l else pdqsort (n + 1) 0 n (bits_len n) true true l
