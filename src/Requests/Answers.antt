-- ===== src/Requests/Answers.antt =====
-- The answer carries the id and the token of its request.
use coalago.Base.{
  ℕ, ◌≤◌, ◌<◌, ◌≡◌, refl, ◌∙◌, true, false, Option, none, some, List, ltb, ◌==◌, if◌then◌else◌,
  length, arith, Bool-cases, Option-cases, inl, inr,
}
use coalago.Base.Int.{ℤ, pos, negsuc}
use coalago.Constants.{
  con, non, ack, coaps_scheme, option_observe, code_not_found, code_method_not_allowed,
}
use coalago.Message.{CoapMessage, new_message_id, get_option}
use coalago.Message.Fields.{add_option-keeps, clone_options-keeps}
use coalago.Options.{CoapOption, int_value}
use coalago.Uri.{get_scheme, set_scheme_coaps}
use coalago.Requests.{
  HandlerResult, Resource, get_method, is_ping, replied, not_allowed_answer, no_resource_answer,
  with_media_type, with_observe, with_scheme, result_answer, is_zero, request_on_receive,
}

-- The answer `r` to the request `m`, with the code `code`.
pub record Answers (m : CoapMessage) (code : ℕ) (r : CoapMessage) : Type 0 where
  pub id_ok : r.message_id ≡ m.message_id
  pub token_ok : r.token ≡ m.token
  pub type_ok : r.type ≡ ack
  pub code_ok : r.code ≡ code

module _ {X : Type 0} (f : CoapMessage → X)
    (ignores : (m : CoapMessage) (os : List CoapOption) → f (record m { options = os }) ≡ f m) where
  with_media_type-keeps : (n : ℤ) (r : CoapMessage) → f (with_media_type n r) ≡ f r
  unfolding with_media_type
  with_media_type-keeps (pos n) r = add_option-keeps f ignores _ _ r
  with_media_type-keeps (negsuc n) r = refl

  with_observe-keeps : (m r : CoapMessage) → f (with_observe m r) ≡ f r
  unfolding with_observe
  with_observe-keeps m r = elim (Option-cases (get_option option_observe m)) [
    | inl e ↦ rw (e, with_observe) refl
    | inr (o, e) ↦
        rw (e, with_observe)
          (elim (Bool-cases (is_zero (int_value o.value))) [
            | inl z ↦ rw z (add_option-keeps f ignores _ _ r)
            | inr z ↦ rw z refl
          ])
  ]

  with_scheme-keeps : (m r : CoapMessage) → f (with_scheme m r) ≡ f r
  unfolding with_scheme set_scheme_coaps
  with_scheme-keeps m r = elim (Bool-cases (get_scheme m == coaps_scheme)) [
    | inl e ↦ rw e (add_option-keeps f ignores _ _ r)
    | inr e ↦ rw e refl
  ]

  -- The last steps of returnResultFromResource.
  result_answer-keeps :
      (random : List ℕ) (m : CoapMessage) (result : HandlerResult)
      → f (result_answer random m result)
        ≡ f (record (new_message_id random ack result.code m.message_id) {
          payload = result.payload;
          token = m.token;
        })
  unfolding result_answer
  result_answer-keeps random m result =
      clone_options-keeps f ignores m _ _
      ∙ with_scheme-keeps m _
      ∙ with_observe-keeps m _
      ∙ with_media_type-keeps result.media_type _

replied-token :
    (random : List ℕ) (m : CoapMessage) → 0 < length m.token → replied random m ≡ m.token
unfolding replied
replied-token random m h = let yes : ltb 0 (length m.token) ≡ true = ground arith in rw yes refl

not_allowed_answer-Answers :
    (random : List ℕ) (m : CoapMessage)
    → 0 < length m.token
    → Answers m code_method_not_allowed (not_allowed_answer random m)
unfolding not_allowed_answer new_message_id
not_allowed_answer-Answers random m h = record {
  id_ok = clone_options-keeps (λ x. x.message_id) (λ x os. refl) m _ _;
  token_ok = clone_options-keeps (λ x. x.token) (λ x os. refl) m _ _ ∙ replied-token random m h;
  type_ok = clone_options-keeps (λ x. x.type) (λ x os. refl) m _ _;
  code_ok = clone_options-keeps (λ x. x.code) (λ x os. refl) m _ _;
}

no_resource_answer-Answers :
    (random : List ℕ) (m : CoapMessage)
    → 0 < length m.token
    → Answers m code_not_found (no_resource_answer random m)
unfolding no_resource_answer new_message_id
no_resource_answer-Answers random m h = record {
  id_ok = clone_options-keeps (λ x. x.message_id) (λ x os. refl) m _ _;
  token_ok = clone_options-keeps (λ x. x.token) (λ x os. refl) m _ _ ∙ replied-token random m h;
  type_ok = clone_options-keeps (λ x. x.type) (λ x os. refl) m _ _;
  code_ok = clone_options-keeps (λ x. x.code) (λ x os. refl) m _ _;
}

result_answer-Answers :
    (random : List ℕ) (m : CoapMessage) (result : HandlerResult)
    → Answers m result.code (result_answer random m result)
unfolding new_message_id
result_answer-Answers random m result = record {
  id_ok = result_answer-keeps (λ x. x.message_id) (λ x os. refl) random m result;
  token_ok = result_answer-keeps (λ x. x.token) (λ x os. refl) random m result;
  type_ok = result_answer-keeps (λ x. x.type) (λ x os. refl) random m result;
  code_ok = result_answer-keeps (λ x. x.code) (λ x os. refl) random m result;
}

-- The code of the answer, if there is one.
abbrev handled_code : ℕ → Option HandlerResult → Option ℕ
handled_code type none = none
handled_code type (some result) = if type == non then none else some result.code

abbrev pub expected_code : Option Resource → CoapMessage → Option ℕ
expected_code none m = if m.type == con then some code_not_found else none
expected_code (some r) m =
    if r.method == get_method m
    then handled_code m.type (r.handler m)
    else some code_method_not_allowed

-- What a request has as its answer: none, or one that answers it with the code.
abbrev pub IsAnswered : CoapMessage → Option ℕ → Option CoapMessage → Type 0
IsAnswered m none none = Unit {0}
IsAnswered m none (some r) = ⊥
IsAnswered m (some code) none = ⊥
IsAnswered m (some code) (some r) = Answers m code r

-- A request with a code up to 4 that is no ping and has a token: it is answered if and only if it is
-- CON and there is no resource (4.04), or the resource has another method (4.05), or the handler
-- gives a result and the request is not NON (the result's code). The answer is an ACK with the
-- request's message id and token.
pub request_on_receive-IsAnswered :
    (id : ℕ) (random : List ℕ) (resource : Option Resource) (m : CoapMessage)
    → m.code ≤ 4
    → is_ping m ≡ false
    → 0 < length m.token
    → IsAnswered m (expected_code resource m) (request_on_receive id random resource m)
unfolding request_on_receive
request_on_receive-IsAnswered id random none m low no_ping h =
    let small : ltb 4 m.code ≡ false = ground arith in
    rw (small, no_ping)
      (elim (Bool-cases (m.type == con)) [
        | inl e ↦ rw e (no_resource_answer-Answers random m h)
        | inr e ↦ rw e tt
      ])
request_on_receive-IsAnswered id random (some r) m low no_ping h =
    let small : ltb 4 m.code ≡ false = ground arith in
    rw (small, no_ping)
      (elim (Bool-cases (r.method == get_method m)) [
        | inr e ↦ rw e (not_allowed_answer-Answers random m h)
        | inl e ↦ rw e (elim (Option-cases (r.handler m)) [
          | inl g ↦ rw g tt
          | inr (result, g) ↦ rw g (elim (Bool-cases (m.type == non)) [
            | inl n ↦ rw n tt
            | inr n ↦ rw n (result_answer-Answers random m result)
          ])
        ])
      ])
