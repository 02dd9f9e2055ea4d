-- ===== src/Checksum/Accepted.antt =====
-- What the check of the checksum lets pass.
use coalago.Base.{
  ◌↔◌, ℕ, ◌≡◌, refl, sym, ap, Option, none, some, List, [], ◌∷◌, ◌++◌, filter, Bool-cases,
  Option-cases, inl, inr, bytes_eq, bytes_eq_iff, arith,
}
use coalago.Codec.{serialize}
use coalago.Checksum.{
  hex, checksum_ieee, clone_for_checksum, calculate_checksum, apply_checksum, verify_checksum,
  check_message, deserialize_checked,
}
use coalago.Codec.Deserialize.{deserialize}
use coalago.Constants.{Error, option_checksum}
use coalago.Message.{CoapMessage, lacks_code, remove_options, add_option, get_option}
use coalago.Message.OptionLists.{get_option-add_option}
use coalago.Options.{Value, CoapOption, string_value, is_repeatable_option}

-- The options without the checksum, of a message that had one added.
filter-lacks_code-snoc :
    (v : Value) (os : List CoapOption)
    → filter (lacks_code option_checksum) (
        filter (lacks_code option_checksum) (filter (lacks_code option_checksum) os)
        ++ (record { code = option_checksum; value = v } ∷ []))
      ≡ filter (lacks_code option_checksum) (filter (lacks_code option_checksum) os)
filter-lacks_code-snoc v [] = refl
filter-lacks_code-snoc v (o ∷ os) = ground (arith, filter-lacks_code-snoc v os)

same_clone :
    (m : CoapMessage)
    → clone_for_checksum (apply_checksum m) ≡ clone_for_checksum (remove_options option_checksum m)
unfolding clone_for_checksum apply_checksum add_option remove_options is_repeatable_option
same_clone m = rw (filter-lacks_code-snoc _ m.options) refl

-- The checksum does not depend on the checksum option.
calculate_checksum-apply_checksum :
    (m : CoapMessage)
    → calculate_checksum (apply_checksum m) ≡ calculate_checksum (remove_options option_checksum m)
unfolding calculate_checksum
calculate_checksum-apply_checksum m = ap (λ c. hex 8 (checksum_ieee (serialize c).0)) (same_clone m)

get_option-apply_checksum :
    (m : CoapMessage)
    → get_option option_checksum (apply_checksum m)
      ≡ some (record {
        code = option_checksum;
        value = Value.str (calculate_checksum (remove_options option_checksum m));
      })
unfolding apply_checksum is_repeatable_option
get_option-apply_checksum m = get_option-add_option option_checksum option_checksum _ _ refl

-- verifyChecksum accepts every message that applyChecksum was called on.
pub verify_checksum-apply_checksum : (m : CoapMessage) → verify_checksum (apply_checksum m) ≡ none
unfolding verify_checksum string_value
verify_checksum-apply_checksum m =
    let same = (bytes_eq_iff _ _).1 (sym (calculate_checksum-apply_checksum m)) in
    rw (get_option-apply_checksum m, verify_checksum) (rw same refl)

check_message-accepts :
    (r : Option CoapMessage) (e : Option Error) (m : CoapMessage)
    → check_message r e ≡ record { message = some m; error = none }
    → ((r ≡ some m) × (e ≡ none)) × (verify_checksum m ≡ none)
unfolding check_message
check_message-accepts r (some e) m h = cc h
check_message-accepts none none m h = cc h
check_message-accepts (some x) none m h = elim (Option-cases (verify_checksum x)) [
  | inl ok ↦
      let same : x ≡ m = (let h' = rw (ok, check_message) at h in cc h') in
      ((ap some same, refl), rw same at ok)
  | inr (e, bad) ↦ (let h' = rw (bad, check_message) at h in cc h')
]

verify_checksum-none :
    (m : CoapMessage) (o : CoapOption)
    → get_option option_checksum m ≡ some o
    → verify_checksum m ≡ none
    → string_value o.value ≡ calculate_checksum m
unfolding verify_checksum
verify_checksum-none m o e ok =
    elim (Bool-cases (bytes_eq (string_value o.value) (calculate_checksum m))) [
      | inl q ↦ (bytes_eq_iff _ _).0 q
      | inr q ↦ (let h' = rw (q, verify_checksum) at (rw (e, verify_checksum) at ok) in cc h')
    ]

verify_checksum-right :
    (m : CoapMessage)
    → ((o : CoapOption)
        → get_option option_checksum m ≡ some o
        → string_value o.value ≡ calculate_checksum m)
    → verify_checksum m ≡ none
unfolding verify_checksum
verify_checksum-right m h = elim (Option-cases (get_option option_checksum m)) [
  | inl e ↦ rw (e, verify_checksum) refl
  | inr (o, e) ↦
      let same = (bytes_eq_iff (string_value o.value) (calculate_checksum m)).1 (h o e) in
      rw (e, verify_checksum) (rw same refl)
]

-- Deserialize returns a message without an error exactly if deserialize does, and the message's
-- checksum option, if it has one, holds the checksum of the message.
pub deserialize_checked-accepts :
    (bs : List ℕ) (m : CoapMessage)
    → (deserialize_checked bs ≡ record { message = some m; error = none }) ↔ (
        (deserialize bs ≡ record { message = some m; error = none })
        × ((o : CoapOption)
            → get_option option_checksum m ≡ some o
            → string_value o.value ≡ calculate_checksum m))
unfolding deserialize_checked
deserialize_checked-accepts bs m = (forth, back)
  where
    forth :
        deserialize_checked bs ≡ record { message = some m; error = none }
        → (deserialize bs ≡ record { message = some m; error = none })
          × ((o : CoapOption)
              → get_option option_checksum m ≡ some o
              → string_value o.value ≡ calculate_checksum m)
    forth h =
        let (same, ok) =
          check_message-accepts (deserialize bs).message (deserialize bs).error m h in
        (cc (same.0, same.1), λ o e. verify_checksum-none m o e ok)

    back :
        (deserialize bs ≡ record { message = some m; error = none })
          × ((o : CoapOption)
              → get_option option_checksum m ≡ some o
              → string_value o.value ≡ calculate_checksum m)
        → deserialize_checked bs ≡ record { message = some m; error = none }
    back (e, h) = rw e (unfold check_message in rw (verify_checksum-right m h, check_message) refl)
