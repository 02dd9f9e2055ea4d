-- ===== src/Constants/CodeText.antt =====
-- constants.go: the methods of CoapCode.
use Prim.Native.String.{String}
use coalago.Base.{ℕ, Bool, ltb, leb, ◌==◌, ◌&&◌, if◌then◌else◌}
use coalago.Constants.{
  code_get, code_post, code_put, code_delete, code_empty, code_created, code_deleted, code_valid,
  code_changed, code_content, code_continue, code_bad_request, code_unauthorized, code_bad_option,
  code_forbidden, code_not_found, code_method_not_allowed, code_not_acceptable,
  code_precondition_failed, code_request_entity_too_large, code_unsupported_content_format,
  code_internal_server_error, code_not_implemented, code_bad_gateway, code_service_unavailable,
  code_gateway_timeout, code_proxying_not_supported,
}

-- CoapCode.String
unfoldable pub code_string : ℕ → String
code_string code =
    if code == code_get
    then "GET"
    else if code == code_post
    then "POST"
    else if code == code_put
    then "PUT"
    else if code == code_delete
    then "DELETE"
    else if code == code_empty
    then "0 Empty"
    else if code == code_created
    then "201 Created"
    else if code == code_deleted
    then "202 Deleted"
    else if code == code_valid
    then "203 Valid"
    else if code == code_changed
    then "204 Changed"
    else if code == code_content
    then "205 Content"
    else if code == code_continue
    then "231 Continue"
    else if code == code_bad_request
    then "400 Bad Request"
    else if code == code_unauthorized
    then "401 Unauthorized"
    else if code == code_bad_option
    then "402 Bad Option"
    else if code == code_forbidden
    then "403 Forbidden"
    else if code == code_not_found
    then "404 Not Found"
    else if code == code_method_not_allowed
    then "405 Method Not Allowed"
    else if code == code_not_acceptable
    then "406 Not Acceptable"
    else if code == code_precondition_failed
    then "412 Precondition Failed"
    else if code == code_request_entity_too_large
    then "413 Request Entity Too Large"
    else if code == code_unsupported_content_format
    then "415 Unsupported Content Format"
    else if code == code_internal_server_error
    then "500 Internal Server Error"
    else if code == code_not_implemented
    then "501 Not Implemented"
    else if code == code_bad_gateway
    then "502 Bad Gateway"
    else if code == code_service_unavailable
    then "503 Service Unavailable"
    else if code == code_gateway_timeout
    then "504 Gateway Timeout"
    else if code == code_proxying_not_supported
    then "505 Proxying Not Supported"
    else "Unknown"

-- CoapCode.Group
unfoldable pub code_group : ℕ → String
code_group c =
    if ltb 64 c && ltb c 96
    then "2.xx"
    else if ltb 127 c && ltb c 144
    then "4.xx"
    else if ltb 159 c && ltb c 166
    then "5.xx"
    else "others"

pub is_registered_method : ℕ → Bool
is_registered_method c = ltb 0 c && leb c 4

pub is_common_error : ℕ → Bool
is_common_error c = leb 128 c && ltb c 160

pub is_internal_error : ℕ → Bool
is_internal_error c = leb 160 c && leb c 165
