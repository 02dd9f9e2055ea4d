-- ===== src/Arq/Receive/Progress.antt =====
-- The receiver's state after some blocks of one payload, whatever their order.
use coalago.Base.{
  ℕ, zero, suc, ◌+◌, ◌-◌, ◌*◌, ◌/◌, ◌≤◌, ◌<◌, ◌≡◌, refl, sym, ap, ◌∙◌, Bool, true, false, none,
  some, List, [], ◌∷◌, length, take, drop, ltb, ◌==◌, ==_iff, not, ◌&&◌, ◌||◌, if◌then◌else◌, arith,
  Bool-cases, inl, inr, take-append-drop,
}
use coalago.Base.Int.{ℤ, pos, int_eq}
use coalago.Block.{new_block, get_block1}
use coalago.Constants.{con, max_payload_size}
use coalago.Message.{Payload, CoapMessage}
use coalago.Arq.Blocks.{Frame}
use coalago.Arq.Split.{drop-drop}
use coalago.Arq.Receive.{
  Chunk, store, assemble_from, assemble_blocks, collect, after_last, no_total,
}
use coalago.Arq.Receive.Buffer.{
  present, all_present, Holds, present-store, store-Holds, lookup-Holds, length-all_present,
}

-- The bytes of the block with the number `i`, and the number of the last block.
abbrev pub part : List ℕ → ℕ → List ℕ
part bs i = take max_payload_size (drop (i * max_payload_size) bs)

abbrev pub last_number : List ℕ → ℕ
last_number bs = (length bs - 1) / max_payload_size

-- The block with the number `i` of the payload `bs`.
abbrev pub frame_at : List ℕ → ℕ → Frame
frame_at bs i = record { number = i; more = ltb i (last_number bs); bytes = part bs i }

-- A message that brings a block: it is confirmable, its Block1 option decodes to the block's number
-- and flag, and its payload is the block's bytes.
pub record Brings (f : Frame) (m : CoapMessage) : Type 0 where
  pub block_ok : get_block1 m ≡ some (new_block f.more (pos f.number) (pos max_payload_size))
  pub payload_ok : m.payload ≡ some (Payload.bytes_payload f.bytes)
  pub type_ok : m.type ≡ con

-- Whether a number has come.
abbrev pub has_come : ℕ → List ℕ → Bool
has_come j [] = false
has_come j (i ∷ come) = (i == j) || has_come j come

-- Whether all numbers below `n` have come.
abbrev pub have_come : ℕ → List ℕ → Bool
have_come zero come = true
have_come (suc n) come = has_come n come && have_come n come

-- Whether all blocks of the payload have come.
abbrev pub is_whole : List ℕ → List ℕ → Bool
is_whole bs come = have_come (suc (last_number bs)) come

-- The receiver's state after the blocks of `bs` with the numbers `come`.
pub record IsAfter (bs come : List ℕ) (total : ℤ) (buf : List Chunk) : Type 0 where
  pub holds : Holds (part bs) (suc (last_number bs)) buf
  pub same : (j : ℕ) → present j buf ≡ has_come j come
  pub total_ok :
      total ≡ (if has_come (last_number bs) come then pos (suc (last_number bs)) else no_total)

all_present-have_come :
    (buf : List Chunk) (come : List ℕ)
    → ((j : ℕ) → present j buf ≡ has_come j come)
    → (n : ℕ) → all_present n buf ≡ have_come n come
unfolding all_present
all_present-have_come buf come h zero = refl
all_present-have_come buf come h (suc n) = rw (h n, all_present-have_come buf come h n)

drop-past {ℓ} : {A : Type ℓ} (n : ℕ) (xs : List A) → length xs ≤ n → drop n xs ≡ []
drop-past zero [] h = refl
drop-past zero (x ∷ xs) h = absurd (omega arith)
drop-past (suc n) [] h = refl
drop-past (suc n) (x ∷ xs) h = drop-past n xs (omega arith)

all_present-present :
    (n j : ℕ) (buf : List Chunk) → all_present n buf ≡ true → j < n → present j buf ≡ true
unfolding all_present
all_present-present zero j buf h lt = absurd (omega arith)
all_present-present (suc n) j buf h lt = ground (arith, all_present-present n j buf)

-- The blocks from number `i` on are the bytes from there on.
assemble_from-drop :
    (bs : List ℕ) (count i : ℕ) (buf : List Chunk)
    → count + i ≡ suc (last_number bs)
    → Holds (part bs) (suc (last_number bs)) buf
    → all_present (suc (last_number bs)) buf ≡ true
    → assemble_from count i buf ≡ drop (i * max_payload_size) bs
unfolding assemble_from
assemble_from-drop bs zero i buf e h p = sym (drop-past (i * max_payload_size) bs (omega arith))
assemble_from-drop bs (suc count) i buf e h p =
    rw
      (
        lookup-Holds (part bs) _ i buf h (all_present-present _ i buf p (omega arith)),
        assemble_from-drop bs count (i + 1) buf (omega arith) h p,
      )
      (rw
        (sym (
          drop-drop (i * max_payload_size) max_payload_size ((i + 1) * max_payload_size) bs
            (omega arith)))
        (take-append-drop max_payload_size (drop (i * max_payload_size) bs)))

-- The total after a block, as localStateReceiveARQBlock1 sets it.
abbrev new_total : List ℕ → ℕ → ℤ → ℤ
new_total bs i total = if not (ltb i (last_number bs)) then pos (i + 1) else total

store-IsAfter :
    (bs come : List ℕ) (total : ℤ) (buf : List Chunk) (i : ℕ)
    → i ≤ last_number bs
    → IsAfter bs come total buf
    → IsAfter bs (i ∷ come) (new_total bs i total) (store (pos i) (part bs i) buf)
store-IsAfter bs come total buf i le a = record {
  holds = store-Holds (part bs) _ i buf (omega arith) a.holds;
  same = λ j. present-store (part bs) _ i j buf a.holds ∙ ap (λ b. (i == j) || b) (a.same j);
  total_ok = elim (Bool-cases (ltb i (last_number bs))) [
    | inl e ↦ let ne : (i == last_number bs) ≡ false = ground arith in rw (e, ne) a.total_ok
    | inr e ↦
        let same : (i == last_number bs) ≡ true = ground arith in
        rw (e, same) (ap (λ k. pos (k + 1)) ((==_iff i _).0 same) ∙ ap pos (omega arith))
  ];
}

is_full :
    (bs come : List ℕ) (total : ℤ) (buf : List Chunk)
    → IsAfter bs come total buf
    → int_eq total (pos (length buf)) ≡ is_whole bs come
is_full bs come total buf a = elim (Bool-cases (has_come (last_number bs) come)) [
  | inl e ↦
      rw (a.total_ok, e)
        (length-all_present (part bs) _ buf a.holds
          ∙ all_present-have_come buf come a.same _
          ∙ rw e refl)
  | inr e ↦ rw (a.total_ok, e) refl
]

whole_bytes :
    (bs come : List ℕ) (total : ℤ) (buf : List Chunk)
    → IsAfter bs come total buf
    → is_whole bs come ≡ true
    → assemble_blocks buf total ≡ bs
unfolding assemble_blocks
whole_bytes bs come total buf a w =
    let last : has_come (last_number bs) come ≡ true = ground (arith, w) in
    rw (a.total_ok, last)
      (assemble_from-drop bs (suc (last_number bs)) 0 buf (omega arith) a.holds
        (all_present-have_come buf come a.same _ ∙ w))

-- A block of `bs` collected: the state after it, and the payload exactly if all blocks have come.
pub collect-IsAfter :
    (bs come : List ℕ) (total : ℤ) (buf : List Chunk) (i : ℕ)
    → i ≤ last_number bs
    → IsAfter bs come total buf
    → let c =
        collect
          (new_block (ltb i (last_number bs)) (pos i) (pos max_payload_size))
          (part bs i)
          total
          buf in
      IsAfter bs (i ∷ come) c.total_blocks c.buffer
      × (c.whole ≡ (if is_whole bs (i ∷ come) then some bs else none))
unfolding collect after_last new_block
collect-IsAfter bs come total buf i le a =
    let a' = store-IsAfter bs come total buf i le a in
    let total' = new_total bs i total in
    let buf' = store (pos i) (part bs i) buf in
    (
      a',
      elim (Bool-cases (is_whole bs (i ∷ come))) [
        | inl w ↦
            rw (is_full bs (i ∷ come) total' buf' a', w)
              (ap some (whole_bytes bs (i ∷ come) total' buf' a' w))
        | inr w ↦ rw (is_full bs (i ∷ come) total' buf' a', w) refl
      ],
    )
