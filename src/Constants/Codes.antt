-- ===== src/Constants/Codes.antt =====
-- constants.go: CoapCode.
use coalago.Base.{ℕ}

-- CoapCode: methods and responses
abbrev pub code_get : ℕ
code_get = 1

abbrev pub code_post : ℕ
code_post = 2

abbrev pub code_put : ℕ
code_put = 3

abbrev pub code_delete : ℕ
code_delete = 4

abbrev pub code_empty : ℕ
code_empty = 0

abbrev pub code_created : ℕ
code_created = 65

abbrev pub code_deleted : ℕ
code_deleted = 66

abbrev pub code_valid : ℕ
code_valid = 67

abbrev pub code_changed : ℕ
code_changed = 68

abbrev pub code_content : ℕ
code_content = 69

abbrev pub code_continue : ℕ
code_continue = 95

abbrev pub code_bad_request : ℕ
code_bad_request = 128

abbrev pub code_unauthorized : ℕ
code_unauthorized = 129

abbrev pub code_bad_option : ℕ
code_bad_option = 130

abbrev pub code_forbidden : ℕ
code_forbidden = 131

abbrev pub code_not_found : ℕ
code_not_found = 132

abbrev pub code_method_not_allowed : ℕ
code_method_not_allowed = 133

abbrev pub code_not_acceptable : ℕ
code_not_acceptable = 134

abbrev pub code_request_entity_incomplete : ℕ
code_request_entity_incomplete = 136

abbrev pub code_conflict : ℕ
code_conflict = 137

abbrev pub code_precondition_failed : ℕ
code_precondition_failed = 140

abbrev pub code_request_entity_too_large : ℕ
code_request_entity_too_large = 141

abbrev pub code_unsupported_content_format : ℕ
code_unsupported_content_format = 143

abbrev pub code_internal_server_error : ℕ
code_internal_server_error = 160

abbrev pub code_not_implemented : ℕ
code_not_implemented = 161

abbrev pub code_bad_gateway : ℕ
code_bad_gateway = 162

abbrev pub code_service_unavailable : ℕ
code_service_unavailable = 163

abbrev pub code_gateway_timeout : ℕ
code_gateway_timeout = 164

abbrev pub code_proxying_not_supported : ℕ
code_proxying_not_supported = 165
