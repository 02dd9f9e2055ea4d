-- ===== src/Examples/Client.antt =====
-- client.go: the message for coaps+tcp://host/a//b?unit=c&unit=f
use coalago.Base.{ℕ, ◌≡◌, refl, some, List, [], ◌∷◌}
use coalago.Base.Text.{codes}
use coalago.Client.{Located, Locator, construct_message}
use coalago.Client.Requested.{Names, Says, construct_message-Says}
use coalago.Constants.{code_get, coaps_scheme}
use coalago.Encryption.{Query}
use coalago.Message.{CoapMessage}
use coalago.Results.{Result}
use coalago.Transport.{Host}
use coalago.Examples.Secured.{plain, fixed_url, new_host, chance}

abbrev located : Located
located = record {
  scheme = codes "coaps+tcp";
  host = codes "host";
  path = codes "/a//b";
  raw_query = codes "unit=c&unit=f";
}

-- A key with two values.
abbrev unit_query : Query
unit_query = record { key = codes "unit"; first = codes "c"; others = codes "f" ∷ [] }

abbrev locator : Locator
locator = record {
  parse = λ uri. some located;
  parse_query = λ query. some (unit_query ∷ []);
  resolve = λ host. codes "10.0.0.2:5684";
}

abbrev uri : List ℕ
uri = codes "coaps+tcp://host/a//b?unit=c&unit=f"

construct_message-Says_example :
    (m : CoapMessage) × (h' : Host plain) × (construct_message plain fixed_url chance locator
        code_get uri new_host
      ≡ (Result.ok m, h'))
    × Says
        (record {
          path = codes "/a//b";
          scheme = codes "coaps+tcp";
          queries = unit_query ∷ [];
          addr = codes "10.0.0.2:5684";
        })
        coaps_scheme
        code_get
        m
construct_message-Says_example =
    construct_message-Says plain fixed_url chance locator code_get coaps_scheme uri located
      (unit_query ∷ []) new_host refl refl Names.coaps_tcp
