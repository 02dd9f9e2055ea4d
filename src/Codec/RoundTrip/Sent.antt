-- ===== src/Codec/RoundTrip/Sent.antt =====
-- deserialize after Serialize, from a message's own options: Serialize may replace the scheme option,
-- and sorts.
use coalago.Base.{
  ℕ, ◌+◌, ◌≤◌, ◌≡◌, refl, ap, ◌∙◌, Bool, true, false, none, some, List, [], ◌∷◌, length, All,
  All-append, ◌==◌, arith, Bool-cases, Option-cases, inl, inr, map, filter, length-append,
  length-map, bit_and, if◌then◌else◌,
}
use coalago.Base.Int.{pos}
use coalago.Codec.{serialize, sorted_message, normalize_scheme, value_to_bytes}
use coalago.Codec.Deserialize.{
  kind, is_int_code, deserialize, validate_message, has_repeated_critical,
}
use coalago.Codec.OptionRound.{IsSendable, received}
use coalago.Codec.Order.{Ascends}
use coalago.Codec.Order.Insertion.{sort_options-ordered}
use coalago.Codec.Order.Stable.{ordered-All, sort_options_stable}
use coalago.Codec.RoundTrip.{HasHeader, arrived, deserialize-datagram}
use coalago.Constants.{option_uri_scheme, coap_scheme}
use coalago.Message.{
  CoapMessage, has_code, lacks_code, first_with, get_option, get_options, add_option,
}
use coalago.Message.OptionLists.{get_options-add_option}
use coalago.Options.{Value, CoapOption, is_repeatable_option}
use coalago.Wire.{encode_int}

-- No critical option is there twice, but for those that may be.
unfoldable pub IsDistinct : List CoapOption → Type 0
IsDistinct os =
    (c : ℕ) → is_repeatable_option c ≡ false → bit_and c 1 ≡ 1 → length (filter (has_code c) os) ≤ 1

-- A message that goes through a datagram whole.
pub record IsSendableMessage (m : CoapMessage) : Type 0 where
  pub header : HasHeader m
  pub few : length m.options ≤ 12
  pub sendable : All IsSendable m.options
  pub distinct : IsDistinct m.options

abbrev coap_option : CoapOption
coap_option = record { code = option_uri_scheme; value = Value.int (pos coap_scheme) }

coap_option-IsSendable : IsSendable coap_option
unfolding kind is_int_code value_to_bytes encode_int
coap_option-IsSendable = record {
  known = λ e. cc;
  short = omega arith;
  int_short = λ e. omega arith;
}

filter-All {ℓ} :
    {A : Type 0} (P : A → Type ℓ) (p : A → Bool) (xs : List A) → All P xs → All P (filter p xs)
filter-All P p [] h = tt
filter-All P p (x ∷ xs) h = elim (Bool-cases (p x)) [
  | inl e ↦ rw e (h.0, filter-All P p xs h.1)
  | inr e ↦ rw e (filter-All P p xs h.1)
]

length-filter-lacks_code-le :
    (c : ℕ) (os : List CoapOption) → length (filter (lacks_code c) os) ≤ length os
length-filter-lacks_code-le c [] = omega arith
length-filter-lacks_code-le c (o ∷ os) = ground (arith, length-filter-lacks_code-le c os)

-- Where the option is there, RemoveOptions makes the list shorter.
length-filter-lacks_code :
    (c : ℕ) (os : List CoapOption) (o : CoapOption)
    → first_with c os ≡ some o
    → length (filter (lacks_code c) os) + 1 ≤ length os
length-filter-lacks_code c [] o h = cc
length-filter-lacks_code c (x ∷ os) o h =
    ground (arith, length-filter-lacks_code c os o, length-filter-lacks_code-le c os)

either {ℓ κ} :
    {A : Type ℓ} (P : A → Type κ) (b : Bool) (x y : A) → P x → P y → P (if b then x else y)
either P true x y hx hy = hx
either P false x y hx hy = hy

-- What Serialize makes of the scheme option.
pub normalize_scheme-cases :
    (m : CoapMessage) (P : CoapMessage → Type 0)
    → P m
    → ((o : CoapOption)
        → get_option option_uri_scheme m ≡ some o
        → P (add_option option_uri_scheme (Value.int (pos coap_scheme)) m))
    → P (normalize_scheme m)
unfolding normalize_scheme
normalize_scheme-cases m P same replaced = elim (Option-cases (get_option option_uri_scheme m)) [
  | inl e ↦ rw (e, normalize_scheme) same
  | inr (o, e) ↦ rw (e, normalize_scheme) (either P _ _ m (replaced o e) same)
]

add_option-IsDistinct :
    (m : CoapMessage) (v : Value)
    → IsDistinct m.options
    → IsDistinct (add_option option_uri_scheme v m).options
unfolding IsDistinct get_options
add_option-IsDistinct m v d = λ c r k.
    rw (get_options-add_option c option_uri_scheme v m)
      (elim (Bool-cases (option_uri_scheme == c)) [
        | inl e ↦ rw e (unfold is_repeatable_option in omega arith)
        | inr e ↦ rw e (d c r k)
      ])

replaced-IsSendableMessage :
    (m : CoapMessage) (o : CoapOption)
    → get_option option_uri_scheme m ≡ some o
    → IsSendableMessage m
    → IsSendableMessage (add_option option_uri_scheme (Value.int (pos coap_scheme)) m)
unfolding get_option add_option is_repeatable_option
replaced-IsSendableMessage m o e s =
    let rest = filter (lacks_code option_uri_scheme) m.options in
    record {
      header = record {
        type_ok = s.header.type_ok;
        id_ok = s.header.id_ok;
        token_ok = s.header.token_ok;
      };
      few = omega (
        arith,
        s.few,
        length-filter-lacks_code option_uri_scheme m.options o e,
        length-append rest (coap_option ∷ []),
      );
      sendable =
          All-append IsSendable rest (coap_option ∷ [])
            (filter-All IsSendable (lacks_code option_uri_scheme) m.options s.sendable)
            (coap_option-IsSendable, tt);
      distinct = add_option-IsDistinct m _ s.distinct;
    }

normalize_scheme-IsSendableMessage :
    (m : CoapMessage) → IsSendableMessage m → IsSendableMessage (normalize_scheme m)
normalize_scheme-IsSendableMessage m s =
    normalize_scheme-cases m IsSendableMessage s (λ o e. replaced-IsSendableMessage m o e s)

-- Arrived options keep their codes.
filter-map-received :
    (c : ℕ) (os : List CoapOption)
    → filter (has_code c) (map received os) ≡ map received (filter (has_code c) os)
unfolding received
filter-map-received c [] = refl
filter-map-received c (o ∷ os) = ground (arith, filter-map-received c os)

not_repeated :
    (all rest : List CoapOption) → IsDistinct all → has_repeated_critical all rest ≡ false
unfolding has_repeated_critical IsDistinct
not_repeated all [] d = refl
not_repeated all (o ∷ rest) d = ground (arith, d o.code, not_repeated all rest d)

received-IsDistinct : (os : List CoapOption) → IsDistinct os → IsDistinct (map received os)
unfolding IsDistinct
received-IsDistinct os d = λ c r k. omega (
  arith,
  ap (length {A = CoapOption}) (filter-map-received c os),
  length-map (filter (has_code c) os) received,
  d c r k,
)

arrived-validate :
    (m : CoapMessage) → HasHeader m → IsDistinct m.options → validate_message (arrived m) ≡ none
unfolding validate_message arrived
arrived-validate m h d =
    let all = map received m.options in
    ground (arith, not_repeated all all (received-IsDistinct m.options d))

sorted_message-ready :
    (m : CoapMessage)
    → IsSendableMessage m
    → HasHeader (sorted_message m)
      × Ascends 0 (sorted_message m).options
      × All IsSendable (sorted_message m).options
      × IsDistinct (sorted_message m).options
unfolding sorted_message IsDistinct
sorted_message-ready m s =
    let n = normalize_scheme-IsSendableMessage m s in
    let os = (normalize_scheme m).options in
    let (ascends, same) = sort_options_stable os n.few in
    (
      record { type_ok = n.header.type_ok; id_ok = n.header.id_ok; token_ok = n.header.token_ok },
      ascends,
      rw (sort_options-ordered os n.few) (ordered-All IsSendable os n.sendable),
      λ c r k. rw (same c) (n.distinct c r k),
    )

-- Deserialize's parser reads what Serialize wrote: the type, code, id, token and payload of the
-- message, and under each code its options in their order, each value as the bytes that were sent.
-- For messages of at most twelve options, all known to it and none of them a critical one given
-- twice.
pub deserialize-serialize :
    (m : CoapMessage)
    → IsSendableMessage m
    → (deserialize (serialize m).0
        ≡ record { message = some (arrived (serialize m).1); error = none })
      × ((c : ℕ)
          → get_options c (arrived (serialize m).1)
            ≡ map received (get_options c (normalize_scheme m)))
unfolding serialize
deserialize-serialize m s =
    let (header, ascends, sendable, distinct) = sorted_message-ready m s in
    (
      deserialize-datagram (sorted_message m) header ascends sendable
          ∙ rw (arrived-validate (sorted_message m) header distinct),
      λ c. same_options c,
    )
  where
    same_options :
        (c : ℕ)
        → get_options c (arrived (sorted_message m))
          ≡ map received (get_options c (normalize_scheme m))
    same_options c =
        unfold get_options arrived sorted_message in
        (filter-map-received c _
          ∙ ap (map received) (
              (sort_options_stable (normalize_scheme m).options
                  (normalize_scheme-IsSendableMessage m s).few).1
                c))
