-- ===== src/Codec/Order/Insertion.antt =====
-- sort.Sort with the Less and Swap of sortOptions is insertion sort on at most twelve options.
use coalago.Base.{
  ℕ, zero, suc, ◌+◌, ◌-◌, ◌≤◌, ◌≡◌, refl, ap, ◌∙◌, Bool, true, false, List, [], ◌∷◌, length,
  get_elem?, set, ltb, arith, Bool-cases, inl, inr, if◌then◌else◌,
}
use coalago.Codec.{less, exchange, swap_loop, swap, sort_options}
use coalago.Codec.Order.{rev_onto, put_in, put_all_in, ordered}
use coalago.Options.{CoapOption}
use coalago.Sort
use coalago.Sort.Short.{sink_swaps, sink_stays, insertion_loop-suc, sort_short}

get_elem?-rev_onto :
    (r s : List CoapOption) (i k : ℕ)
    → i ≡ length r + k
    → get_elem? (rev_onto r s) i ≡ get_elem? s k
get_elem?-rev_onto [] s i k e = ap (get_elem? s) (omega arith)
get_elem?-rev_onto (y ∷ r) s i k e = get_elem?-rev_onto r (y ∷ s) i (suc k) (omega arith)

set-rev_onto :
    (r s : List CoapOption) (i k : ℕ) (v : CoapOption)
    → i ≡ length r + k
    → set (rev_onto r s) i v ≡ rev_onto r (set s k v)
set-rev_onto [] s i k v e = ap (λ n. set s n v) (omega arith)
set-rev_onto (y ∷ r) s i k v e = set-rev_onto r (y ∷ s) i (suc k) v (omega arith)

-- Between neighbours the loop of Swap finds no index.
swap_loop_neighbours : (k index j : ℕ) (os : List CoapOption) → swap_loop k index (suc j) j os ≡ os
unfolding swap_loop
swap_loop_neighbours zero index j os = refl
swap_loop_neighbours (suc k) index j os = ground (arith, swap_loop_neighbours k (suc index) j os)

exchange-rev_onto :
    (r s : List CoapOption) (x y : CoapOption)
    → exchange (rev_onto r (y ∷ x ∷ s)) (suc (length r)) (length r) ≡ rev_onto r (x ∷ y ∷ s)
unfolding exchange
exchange-rev_onto r s x y =
    let at_x = get_elem?-rev_onto r (y ∷ x ∷ s) (suc (length r)) 1 (omega arith) in
    let at_y = get_elem?-rev_onto r (y ∷ x ∷ s) (length r) 0 (omega arith) in
    rw (at_x, exchange)
      (rw (at_y, exchange)
        (rw (set-rev_onto r (y ∷ x ∷ s) (suc (length r)) 1 y (omega arith))
          (set-rev_onto r (y ∷ y ∷ s) (length r) 0 x (omega arith))))

if_same {ℓ} : {A : Type ℓ} (b : Bool) (a : A) → (if b then a else a) ≡ a
if_same true a = refl
if_same false a = refl

swap-rev_onto :
    (r s : List CoapOption) (x y : CoapOption)
    → swap (rev_onto r (y ∷ x ∷ s)) (suc (length r)) (length r) ≡ rev_onto r (x ∷ y ∷ s)
unfolding swap
swap-rev_onto r s x y =
    rw (exchange-rev_onto r s x y, swap_loop_neighbours) (if_same _ (rev_onto r (x ∷ y ∷ s)))

less-rev_onto :
    (r s : List CoapOption) (x y : CoapOption)
    → less (rev_onto r (y ∷ x ∷ s)) (suc (length r)) (length r) ≡ ltb x.code y.code
unfolding less
less-rev_onto r s x y =
    let at_x = get_elem?-rev_onto r (y ∷ x ∷ s) (suc (length r)) 1 (omega arith) in
    let at_y = get_elem?-rev_onto r (y ∷ x ∷ s) (length r) 0 (omega arith) in
    rw (at_x, less) (rw (at_y, less) refl)

sink-rev_onto :
    (r s : List CoapOption) (x : CoapOption)
    → Sort.sink less swap 0 (length r) (rev_onto r (x ∷ s)) ≡ rev_onto (put_in x r) s
unfolding Sort.sink put_in
sink-rev_onto [] s x = refl
sink-rev_onto (y ∷ r) s x = elim (Bool-cases (ltb x.code y.code)) [
  | inl e ↦ rw e (
      sink_swaps less swap (length r) _ (less-rev_onto r s x y ∙ e)
      ∙ rw (swap-rev_onto r s x y) (sink-rev_onto r (y ∷ s) x))
  | inr e ↦ rw e (sink_stays less swap (length r) _ (less-rev_onto r s x y ∙ e))
]

length-put_in : (x : CoapOption) (r : List CoapOption) → length (put_in x r) ≡ suc (length r)
unfolding put_in
length-put_in x [] = refl
length-put_in x (y ∷ r) = ground (arith, length-put_in x r)

insertion_loop-rev_onto :
    (s r : List CoapOption)
    → Sort.insertion_loop less swap 0 (length s) (length r) (rev_onto r s)
      ≡ rev_onto (put_all_in s r) []
unfolding Sort.insertion_loop put_all_in
insertion_loop-rev_onto [] r = refl
insertion_loop-rev_onto (x ∷ s) r =
    insertion_loop-suc less swap (length s) (length r) (rev_onto r (x ∷ s))
    ∙ rw (sink-rev_onto r s x, ← length-put_in x r) (insertion_loop-rev_onto s (put_in x r))

insertion_sort-ordered :
    (x : CoapOption) (s : List CoapOption)
    → Sort.insertion_sort less swap 0 (suc (length s)) (x ∷ s) ≡ ordered (x ∷ s)
unfolding Sort.insertion_sort ordered
insertion_sort-ordered x s =
    let rounds : suc (length s) - (0 + 1) ≡ length s = omega arith in
    ap (λ k. Sort.insertion_loop less swap 0 k 1 (x ∷ s)) rounds
    ∙ insertion_loop-rev_onto s (x ∷ [])

-- On at most twelve options sort.Sort gives what insertion sort gives.
pub sort_options-ordered : (os : List CoapOption) → length os ≤ 12 → sort_options os ≡ ordered os
unfolding sort_options ordered
sort_options-ordered [] h = unfold Sort.sort in refl
sort_options-ordered (x ∷ []) h = unfold Sort.sort in refl
sort_options-ordered (x ∷ y ∷ os) h =
    sort_short less swap (x ∷ y ∷ os) (omega arith) h ∙ insertion_sort-ordered x (y ∷ os)
