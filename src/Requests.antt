-- ===== src/Requests.antt =====
-- layerRequest.go, resource.go, and the resources of server.go: the answer to a request.
pub mod Answers
pub mod Routes
use coalago.Base.{
  ℕ, ◌+◌, Bool, true, false, Option, none, some, List, [], ◌∷◌, ◌++◌, ◌&&◌, ltb, ◌==◌,
  if◌then◌else◌, bytes_eq, length, copied,
}
use coalago.Base.Int.{ℤ, pos, negsuc}
use coalago.Base.Text.{codes, trim, itoa}
use coalago.Constants.{
  con, non, ack, rst, coaps_scheme, code_empty, code_get, code_post, code_put, code_delete,
  code_not_found, code_method_not_allowed, option_block1, option_block2, option_content_format,
  option_observe, option_proxy_security_id, option_selective_repeat_window_size,
}
use coalago.Message.{
  Payload, CoapMessage, new_message_id, new_message, get_option, add_option, clone_options,
}
use coalago.Options.{Value, int_value}
use coalago.Uri.{get_scheme, get_uri_path, set_scheme_coaps}

-- CoAPResourceHandlerResult
pub record HandlerResult : Type 0 where
  pub payload : Option Payload
  pub code : ℕ
  pub media_type : ℤ

-- CoAPResource, without its hash and media types, which nothing reads.
pub record Resource : Type 0 where
  pub method : ℕ
  pub path : List ℕ
  pub handler : CoapMessage → Option HandlerResult

-- NewCoAPResource
unfoldable pub new_coap_resource : ℕ → List ℕ → (CoapMessage → Option HandlerResult) → Resource
new_coap_resource method path handler = record {
  method = method;
  path = trim path;
  handler = handler;
}

-- NewResponse
unfoldable pub new_response : Option Payload → ℕ → HandlerResult
new_response payload code = record { payload = payload; code = code; media_type = negsuc 0 }

-- GetMethod
unfoldable pub get_method : CoapMessage → ℕ
get_method m =
    if m.code == code_get
    then 1
    else if m.code == code_post
    then 3
    else if m.code == code_put
    then 2
    else if m.code == code_delete
    then 4
    else 0

-- isPing
unfoldable pub is_ping : CoapMessage → Bool
is_ping m = (m.type == con) && (m.code == code_empty)

-- The answers of returnPing, methodNotAllowed, noResource and returnResultFromResource; the random
-- token that the constructor draws is an argument, and for returnPing the next message id too.
unfoldable pub ping_answer : ℕ → List ℕ → CoapMessage → CoapMessage
ping_answer id random m =
    let r = new_message id random rst code_empty in
    record r { message_id = m.message_id; token = copied r.token m.token }

unfoldable pub replied : List ℕ → CoapMessage → List ℕ
replied random m = if ltb 0 (length m.token) then m.token else random

unfoldable pub not_allowed_answer : List ℕ → CoapMessage → CoapMessage
not_allowed_answer random m =
    let r = new_message_id random ack code_method_not_allowed m.message_id in
    clone_options m (option_block1 ∷ option_block2 ∷ option_proxy_security_id ∷ []) (record r {
      payload =
          some (Payload.string_payload (codes "Method is not allowed for requested resource"));
      token = replied random m;
    })

unfoldable pub no_resource_answer : List ℕ → CoapMessage → CoapMessage
no_resource_answer random m =
    let r = new_message_id random ack code_not_found m.message_id in
    let text = codes "Requested resource " ++ (get_uri_path m ++ codes " does not exist") in
    let r' =
      clone_options m (option_block1 ∷ option_block2 ∷ option_proxy_security_id ∷ [])
        (record r { payload = some (Payload.string_payload text); token = replied random m }) in
    record r' { recipient = m.sender }

unfoldable pub with_media_type : ℤ → CoapMessage → CoapMessage
with_media_type (pos n) r = add_option option_content_format (Value.media (pos n)) r
with_media_type (negsuc n) r = r

abbrev pub is_zero : ℤ → Bool
is_zero (pos n) = n == 0
is_zero (negsuc n) = false

unfoldable pub with_observe : CoapMessage → CoapMessage → CoapMessage
with_observe m r = elim (get_option option_observe m) [
  | none ↦ r
  | some o ↦
      if is_zero (int_value o.value) then add_option option_observe (Value.int (pos 1)) r else r
]

unfoldable pub with_scheme : CoapMessage → CoapMessage → CoapMessage
with_scheme m r = if get_scheme m == coaps_scheme then set_scheme_coaps r else r

unfoldable pub result_answer : List ℕ → CoapMessage → HandlerResult → CoapMessage
result_answer random m result =
    let r = new_message_id random ack result.code m.message_id in
    let r' = record r { payload = result.payload; token = m.token } in
    clone_options m
      (option_block1 ∷ option_block2 ∷ option_selective_repeat_window_size
        ∷ option_proxy_security_id ∷ [])
      (with_scheme m (with_observe m (with_media_type result.media_type r')))

-- requestOnReceive: the message that it sends to the sender of the request, if any.
unfoldable pub request_on_receive : ℕ → List ℕ → Option Resource → CoapMessage → Option CoapMessage
request_on_receive id random resource m =
    if ltb 4 m.code
    then none
    else if is_ping m
    then some (ping_answer id random m)
    else elim resource [
      | none ↦ if m.type == con then some (no_resource_answer random m) else none
      | some r ↦
          if r.method == get_method m
          then (elim (r.handler m) [
            | none ↦ none
            | some result ↦ if m.type == non then none else some (result_answer random m result)
          ])
          else some (not_allowed_answer random m)
    ]

-- The resources of a Server: a map from keys, the newest entry of a key first.
abbrev pub Resources : Type 0
Resources = List (List ℕ × Resource)

-- path + fmt.Sprint(method)
unfoldable pub resource_key : List ℕ → ℕ → List ℕ
resource_key path method = path ++ itoa method

-- addResource
unfoldable pub add_resource : Resource → Resources → Resources
add_resource r rs = (resource_key r.path r.method, r) ∷ rs

unfoldable pub find_resource : List ℕ → Resources → Option Resource
find_resource key [] = none
find_resource key ((k, r) ∷ rs) =
    let rest = find_resource key rs in if bytes_eq k key then some r else rest

-- getResourceForPathAndMethod
unfoldable pub get_resource : List ℕ → ℕ → Resources → Option Resource
get_resource path method rs = elim (find_resource (resource_key (b'*' ∷ []) method) rs) [
  | some r ↦ some r
  | none ↦ find_resource (resource_key (trim path) method) rs
]
