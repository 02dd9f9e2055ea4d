-- ===== src/Arq/Split.antt =====
-- All the packets of a payload, against a plain description of how the payload is cut.
use mathlib.Core.List.{append-nil}
use coalago.Base.{
  ℕ, zero, suc, ◌+◌, ◌≤◌, ◌<◌, ◌≡◌, refl, sym, ap, ◌∙◌, Bool, true, false, List, [], ◌∷◌, ◌++◌,
  length, take, drop, ltb, ltb→lt, arith, Bool-cases, inl, inr, if◌then◌else◌, length-drop,
  take-append-drop,
}
use mathlib.Core.Path.{subst}
use coalago.Constants.{max_payload_size}
use coalago.Message.{CoapMessage}
use coalago.Arq.{
  SendState, construct_next_block, raise_counter, message_id_of, construct_blocks, new_send_state,
  packets,
}
use coalago.Arq.Blocks.{
  Frame, Carries, IsBlockType, next_frame, construct_next_block-Carries, construct_next_block-end,
  construct_next_block-state,
}

-- The blocks of the bytes `bs`, numbered from `num`: 1024 bytes each, and the rest as the last. The
-- first argument bounds their count.
unfoldable pub frames_from : ℕ → ℕ → List ℕ → List Frame
frames_from zero num bs = []
frames_from (suc fuel) num bs =
    let rest = frames_from fuel (num + 1) (drop max_payload_size bs) in
    let more = ltb max_payload_size (length bs) in
    record { number = num; more = more; bytes = take max_payload_size bs }
    ∷ (if more then rest else [])

unfoldable pub frames : List ℕ → List Frame
frames bs = frames_from (length bs + 1) 0 bs

-- The messages carry the frames, one by one.
abbrev pub Sends : ℕ → List Frame → List CoapMessage → Type 0
Sends block_type [] [] = Unit {0}
Sends block_type [] (m ∷ ms) = ⊥
Sends block_type (f ∷ fs) [] = ⊥
Sends block_type (f ∷ fs) (m ∷ ms) = Carries block_type f m × Sends block_type fs ms

drop-nil {ℓ} : {A : Type ℓ} (n : ℕ) → drop {A = A} n [] ≡ []
drop-nil zero = refl
drop-nil (suc n) = refl

pub drop-drop {ℓ} :
    {A : Type ℓ} (n k m : ℕ) (xs : List A) → m ≡ n + k → drop k (drop n xs) ≡ drop m xs
drop-drop zero k m xs e = ap (λ j. drop j xs) (omega arith)
drop-drop (suc n) k m [] e = drop-nil k ∙ sym (drop-nil m)
drop-drop (suc n) k zero (x ∷ xs) e = absurd (omega arith)
drop-drop (suc n) k (suc m) (x ∷ xs) e = drop-drop n k m xs (omega arith)

-- What the loops keep of the sender's state.
record IsReady (s : SendState) : Type 0 where
  size_ok : s.block_size ≡ max_payload_size
  length_ok : s.lenght ≡ length s.payload
  start_ok : s.start ≤ s.lenght

more_left :
    (s : SendState)
    → IsReady s
    → ltb max_payload_size (length (drop s.start s.payload)) ≡ ltb (s.start + s.block_size) s.lenght
more_left s r = ground (arith, length-drop s.start s.payload)

construct_blocks_last :
    (fuel counter block_type : ℕ) (s : SendState)
    → ltb (s.start + s.block_size) s.lenght ≡ false
    → construct_blocks (suc fuel) counter block_type s
      ≡ (construct_next_block (message_id_of (raise_counter counter)) block_type s).message ∷ []
unfolding construct_blocks
construct_blocks_last fuel counter block_type s e =
    rw
      (
        construct_next_block-end (message_id_of (raise_counter counter)) block_type s,
        construct_blocks,
      )
      (rw (e, construct_blocks) refl)

construct_blocks_more :
    (fuel counter block_type : ℕ) (s : SendState)
    → ltb (s.start + s.block_size) s.lenght ≡ true
    → construct_blocks (suc fuel) counter block_type s
      ≡ (construct_next_block (message_id_of (raise_counter counter)) block_type s).message
        ∷ construct_blocks fuel (raise_counter counter) block_type (record s {
          stop = s.start + s.block_size;
          next_num_block = s.next_num_block + 1;
          start = s.start + s.block_size;
        })
unfolding construct_blocks
construct_blocks_more fuel counter block_type s e =
    let id = message_id_of (raise_counter counter) in
    rw (construct_next_block-end id block_type s, construct_blocks)
      (rw (e, construct_blocks) (rw (construct_next_block-state id block_type s e) refl))

carried :
    (id block_type : ℕ) (s : SendState) (more : Bool)
    → IsBlockType block_type
    → IsReady s
    → ltb (s.start + s.block_size) s.lenght ≡ more
    → Carries block_type
        (record {
          number = s.next_num_block;
          more = more;
          bytes = take max_payload_size (drop s.start s.payload);
        })
        (construct_next_block id block_type s).message
carried id block_type s more b r e =
    subst (λ f. Carries block_type f (construct_next_block id block_type s).message) same
      (construct_next_block-Carries id block_type s b r.size_ok r.length_ok r.start_ok)
  where
    same : next_frame s ≡ record {
      number = s.next_num_block;
      more = more;
      bytes = take max_payload_size (drop s.start s.payload);
    }
    same = rw (e, r.size_ok) refl

construct_blocks-Sends :
    (fuel counter block_type : ℕ) (s : SendState)
    → IsBlockType block_type
    → IsReady s
    → Sends block_type
        (frames_from fuel s.next_num_block (drop s.start s.payload))
        (construct_blocks fuel counter block_type s)
unfolding frames_from
construct_blocks-Sends zero counter block_type s b r = unfold construct_blocks in tt
construct_blocks-Sends (suc fuel) counter block_type s b r =
    let id = message_id_of (raise_counter counter) in
    elim (Bool-cases (ltb (s.start + s.block_size) s.lenght)) [
      | inl e ↦
          rw (construct_blocks_more fuel counter block_type s e, more_left s r, e)
            (
              carried id block_type s true b r e,
              rw
                  (drop-drop s.start max_payload_size (s.start + s.block_size) s.payload
                    (omega arith))
                  (construct_blocks-Sends fuel (raise_counter counter) block_type _ b (record {
                    size_ok = r.size_ok;
                    length_ok = r.length_ok;
                    start_ok = ground arith;
                  })),
            )
      | inr e ↦
          rw (construct_blocks_last fuel counter block_type s e, more_left s r, e)
            (carried id block_type s false b r e, tt)
    ]

-- A payload of `bs` is sent as its blocks of 1024 bytes in order: packet by packet the Block1 or
-- Block2 option holds the number, the more flag and the size, the payload holds the slice.
pub packets-Sends :
    (counter block_type : ℕ) (m : CoapMessage) (bs : List ℕ)
    → IsBlockType block_type
    → Sends block_type (frames bs) (packets counter block_type m bs)
unfolding packets frames new_send_state
packets-Sends counter block_type m bs b =
    construct_blocks-Sends (length bs + 1) counter block_type (new_send_state m bs) b
      (record { size_ok = refl; length_ok = refl; start_ok = omega arith })

-- The bytes of the blocks, one after the other.
unfoldable pub frames_bytes : List Frame → List ℕ
frames_bytes [] = []
frames_bytes (f ∷ fs) = f.bytes ++ frames_bytes fs

take-all {ℓ} : {A : Type ℓ} (n : ℕ) (xs : List A) → length xs ≤ n → take n xs ≡ xs
take-all zero [] h = refl
take-all zero (x ∷ xs) h = absurd (omega arith)
take-all (suc n) [] h = refl
take-all (suc n) (x ∷ xs) h = ap (◌∷◌ x) (take-all n xs (omega arith))

pub frames_from-bytes :
    (fuel num : ℕ) (bs : List ℕ) → length bs < fuel → frames_bytes (frames_from fuel num bs) ≡ bs
unfolding frames_bytes frames_from
frames_from-bytes zero num bs h = absurd (omega arith)
frames_from-bytes (suc fuel) num bs h = elim (Bool-cases (ltb max_payload_size (length bs))) [
  | inl e ↦
      let long = ltb→lt max_payload_size (length bs) e in
      rw e (
        rw
          (frames_from-bytes fuel (num + 1) (drop max_payload_size bs)
            (omega (arith, length-drop max_payload_size bs)))
          (take-append-drop max_payload_size bs))
  | inr e ↦ rw (e, append-nil) (take-all max_payload_size bs (ground arith))
]
