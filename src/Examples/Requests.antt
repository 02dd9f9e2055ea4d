-- ===== src/Examples/Requests.antt =====
-- layerRequest.go, server.go: the answer to a request, and the resource that it gets.
use coalago.Base.{
  ℕ, ◌≡◌, refl, none, some, List, [], ◌∷◌, ◌&&◌, ◌==◌, if◌then◌else◌, bytes_eq, arith,
}
use coalago.Base.Tests.{bytes_eq as bytes_eq'}
use coalago.Base.Int.{negsuc}
use coalago.Base.Text.{trim}
use coalago.Examples.Codec.{request}
use coalago.Requests.{
  Resource, resource_key, is_ping, get_method, request_on_receive, add_resource, find_resource,
  get_resource,
}
use coalago.Requests.Answers.{expected_code, IsAnswered, request_on_receive-IsAnswered}
use coalago.Requests.Routes.{get_resource-add_resource}

-- A resource that answers with 2.05.
abbrev info_resource : Resource
info_resource = record {
  method = 1;
  path = b'i' ∷ [];
  handler = λ m. some (record { payload = none; code = 69; media_type = negsuc 0 });
}

request_on_receive-IsAnswered_example :
    IsAnswered request
      (expected_code (some info_resource) request)
      (request_on_receive 9 [] (some info_resource) request)
request_on_receive-IsAnswered_example =
    request_on_receive-IsAnswered 9 [] (some info_resource) request (omega arith)
      (unfold is_ping in refl) (omega arith)

-- The code that this request is answered with.
expected_of_request : expected_code (some info_resource) request ≡ some 69
unfolding get_method
expected_of_request = refl

abbrev slash_path : List ℕ
slash_path = b'/' ∷ b'i' ∷ []

get_resource-add_resource_example :
    get_resource slash_path 1 (add_resource info_resource [])
    ≡ (elim (find_resource (resource_key (b'*' ∷ []) 1) []) [
      | some w ↦ some w
      | none ↦
          if bytes_eq info_resource.path (trim slash_path) && (info_resource.method == 1)
          then some info_resource
          else find_resource (resource_key (trim slash_path) 1) []
    ])
get_resource-add_resource_example =
    get_resource-add_resource slash_path 1 info_resource [] (omega arith) (omega arith)
      (unfold bytes_eq' in refl)
