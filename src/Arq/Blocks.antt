-- ===== src/Arq/Blocks.antt =====
-- The packets of a payload, as their receiver reads them: block number, flag and frame.

use coalago.Base.{
  ℕ, zero, suc, ◌+◌, ◌-◌, ◌≤◌, ◌≡◌, refl, ap, ◌∙◌, Bool, true, false, Option, some, List, [], ◌∷◌,
  length, take, drop, ltb, ltb→lt, ◌==◌, ==_self, not, ◌≢◌, arith, Bool-cases, inl, inr,
  if◌then◌else◌, length-drop,
}
use coalago.Base.Int.{pos}
use coalago.Block.{new_block, to_int}
use coalago.Constants.{
  con, coaps_scheme, max_payload_size, option_proxy_uri, option_proxy_security_id, option_block1,
  option_block2,
}
use coalago.Message.{Payload, CoapMessage, get_option, new_message}
use coalago.Message.Fields.{
  add_option-keeps, add_options-keeps, clone_options-keeps, get_option-same,
}
use coalago.Uri.{get_scheme, set_scheme_coaps}
use coalago.Uri.Path.{set_uri_path-keeps}
use coalago.Message.Fields.{
  add_option-keeps, add_options-keeps, clone_options-keeps, get_option-same,
}
use coalago.Uri.{get_scheme, set_scheme_coaps}
use coalago.Uri.Path.{set_uri_path-keeps}
use coalago.Message.OptionLists.{get_option-add_option, get_option-clone_options_ne}
use coalago.Options.{Value, is_repeatable_option}
use coalago.Arq.{SendState, new_blocking_message, construct_next_block}

-- A block of a payload.
pub record Frame : Type 0 where
  pub number : ℕ
  pub more : Bool
  pub bytes : List ℕ

-- The option with the code `block_type` and the payload of a block's message.
abbrev pub Carries : ℕ → Frame → CoapMessage → Type 0
Carries block_type f m =
    (get_option block_type m
      ≡ some (record {
        code = block_type;
        value = Value.int (to_int (new_block f.more (pos f.number) (pos max_payload_size)));
      }))
    × (m.payload ≡ some (Payload.bytes_payload f.bytes))
    × (m.type ≡ con)

-- The option codes under which blocks are sent.
abbrev pub IsBlockType : ℕ → Type 0
IsBlockType block_type =
    (is_repeatable_option block_type ≡ false)
    × (option_proxy_uri ≢ block_type)
    × (option_proxy_security_id ≢ block_type)

pub block1-IsBlockType : IsBlockType option_block1
unfolding is_repeatable_option
block1-IsBlockType = (refl, omega arith, omega arith)

pub block2-IsBlockType : IsBlockType option_block2
unfolding is_repeatable_option
block2-IsBlockType = (refl, omega arith, omega arith)

-- The frame that the state is about to send.
abbrev pub next_frame : SendState → Frame
next_frame s = record {
  number = s.next_num_block;
  more = ltb (s.start + s.block_size) s.lenght;
  bytes = take s.block_size (drop s.start s.payload);
}

-- The slice up to the payload's end.
take-past {ℓ} :
    {A : Type ℓ} (n k : ℕ) (xs : List A) → length xs ≤ n → length xs ≤ k → take n xs ≡ take k xs
take-past zero zero xs h j = refl
take-past zero (suc k) [] h j = refl
take-past zero (suc k) (x ∷ xs) h j = absurd (omega arith)
take-past (suc n) zero [] h j = refl
take-past (suc n) zero (x ∷ xs) h j = absurd (omega arith)
take-past (suc n) (suc k) [] h j = refl
take-past (suc n) (suc k) (x ∷ xs) h j = ap (◌∷◌ x) (take-past n k xs (omega arith) (omega arith))

module _ (id : ℕ) (orig : CoapMessage) (recipient : Option (List ℕ)) (frame : List ℕ)
    (block_type num size window : ℕ) (more : Bool) where
  new_blocking_message-option :
      is_repeatable_option block_type ≡ false
      → get_option block_type
          (new_blocking_message id orig recipient frame block_type num size window more)
        ≡ some (record {
          code = block_type;
          value = Value.int (to_int (new_block more (pos num) (pos size)));
        })
  unfolding new_blocking_message
  new_blocking_message-option single =
      get_option-same block_type _ _ refl
      ∙ get_option-add_option block_type block_type _ _ single
      ∙ rw (==_self block_type)

  new_blocking_message-payload :
      (new_blocking_message id orig recipient frame block_type num size window more).payload
      ≡ some (Payload.bytes_payload frame)
  unfolding new_blocking_message
  new_blocking_message-payload =
      add_option-keeps (λ m. m.payload) (λ m os. refl) _ _ _
      ∙ add_options-keeps (λ m. m.payload) (λ m os. refl) _ _
      ∙ set_uri_path-keeps (λ m. m.payload) (λ m os. refl) _ _

  new_blocking_message-type :
      (new_blocking_message id orig recipient frame block_type num size window more).type ≡ con
  unfolding new_blocking_message
  new_blocking_message-type =
      add_option-keeps (λ m. m.type) (λ m os. refl) _ _ _
      ∙ add_options-keeps (λ m. m.type) (λ m os. refl) _ _
      ∙ set_uri_path-keeps (λ m. m.type) (λ m os. refl) _ _
      ∙ add_option-keeps (λ m. m.type) (λ m os. refl) _ _ _
      ∙ elim (Bool-cases (get_scheme orig == coaps_scheme)) [
        | inl e ↦ rw e (
            unfold set_scheme_coaps new_message in
            add_option-keeps (λ m. m.type) (λ m os. refl) _ _ _)
        | inr e ↦ rw e (unfold new_message in refl)
      ]

-- The stop of constructNextBlock: its flag and its slice.
abbrev stop_of : SendState → ℕ
stop_of s = if ltb s.lenght (s.start + s.block_size) then s.lenght else s.start + s.block_size

stop_more : (s : SendState) → ltb (stop_of s) s.lenght ≡ ltb (s.start + s.block_size) s.lenght
stop_more s = ground arith

stop_slice :
    (s : SendState)
    → s.lenght ≡ length s.payload
    → s.start ≤ s.lenght
    → take (stop_of s - s.start) (drop s.start s.payload)
      ≡ take s.block_size (drop s.start s.payload)
stop_slice s len h = elim (Bool-cases (ltb s.lenght (s.start + s.block_size))) [
  | inl e ↦
      let short = ltb→lt s.lenght (s.start + s.block_size) e in
      rw e (
        take-past _ _ _ (omega (arith, length-drop s.start s.payload))
          (omega (arith, length-drop s.start s.payload)))
  | inr e ↦
      let whole : s.start + s.block_size - s.start ≡ s.block_size = omega arith in rw e (rw whole)
]

pub construct_next_block-Carries :
    (id block_type : ℕ) (s : SendState)
    → IsBlockType block_type
    → s.block_size ≡ max_payload_size
    → s.lenght ≡ length s.payload
    → s.start ≤ s.lenght
    → Carries block_type (next_frame s) (construct_next_block id block_type s).message
unfolding construct_next_block
construct_next_block-Carries id block_type s (single, p1, p2) size len h = (
  get_option-same block_type _ _ refl
      ∙ get_option-clone_options_ne block_type s.orig_message codes m (p1, (p2, tt))
      ∙ new_blocking_message-option id s.orig_message s.orig_message.recipient _ block_type
          s.next_num_block s.block_size s.window_size _ single
      ∙ rw (stop_more s, size) refl,
  clone_options-keeps (λ m. m.payload) (λ m os. refl) s.orig_message codes m
      ∙ new_blocking_message-payload id s.orig_message s.orig_message.recipient _ block_type
          s.next_num_block s.block_size s.window_size _
      ∙ rw (stop_slice s len h) refl,
  clone_options-keeps (λ m. m.type) (λ m os. refl) s.orig_message codes m
      ∙ new_blocking_message-type id s.orig_message s.orig_message.recipient _ block_type
          s.next_num_block s.block_size s.window_size _,
)
  where
    codes : List ℕ
    codes = option_proxy_uri ∷ option_proxy_security_id ∷ []

    m : CoapMessage
    m =
        new_blocking_message id s.orig_message s.orig_message.recipient
          (take (stop_of s - s.start) (drop s.start s.payload)) block_type s.next_num_block
          s.block_size s.window_size (ltb (stop_of s) s.lenght)

-- The flag that ends the loops, and the state that they go on with.
pub construct_next_block-end :
    (id block_type : ℕ) (s : SendState)
    → (construct_next_block id block_type s).end ≡ not (ltb (s.start + s.block_size) s.lenght)
unfolding construct_next_block
construct_next_block-end id block_type s = ap not (stop_more s)

pub construct_next_block-state :
    (id block_type : ℕ) (s : SendState)
    → ltb (s.start + s.block_size) s.lenght ≡ true
    → (construct_next_block id block_type s).state ≡ record s {
      stop = s.start + s.block_size;
      next_num_block = s.next_num_block + 1;
      start = s.start + s.block_size;
    }
unfolding construct_next_block
construct_next_block-state id block_type s h = ground arith
