-- ===== src/Examples/Storage.antt =====
-- storage.go, message.go: runs of the cache and of the checksum.
use coalago.Base.{
  true, ℕ, ◌+◌, ◌≡◌, ◌↔◌, refl, none, some, List, [], ◌∷◌, ltb, if◌then◌else◌, arith,
}
use coalago.Base.Tests.{bytes_eq}
use coalago.Base.Text.{codes}
use coalago.Checksum.{
  apply_checksum, verify_checksum, calculate_checksum, deserialize_checked, checksum_ieee, hex,
}
use coalago.Checksum.Accepted.{verify_checksum-apply_checksum, deserialize_checked-accepts}
use coalago.Codec.Deserialize.{deserialize}
use coalago.Constants.{option_checksum}
use coalago.Examples.Codec.{request}
use coalago.Message.{CoapMessage, get_option}
use coalago.Options.{CoapOption, string_value}
use coalago.Storage.{
  new_sharded_cache, set_item, get_item, load_or_store, cleanup, in_shard, put, erase, load,
  delete_item, shard, fnv32,
}
use coalago.Storage.History.{Answer, Call, call, answers, plain_answers, answers-plain_answers}
use coalago.Storage.Sessions.{
  session_key, get_session, set_session, delete_session, get_session-set_session,
  get_session-delete_session,
}

-- crc32.ChecksumIEEE of "123456789"
crc_check : hex 8 (checksum_ieee (codes "123456789")) ≡ codes "cbf43926"
unfolding hex checksum_ieee
crc_check = refl

verify_checksum-apply_checksum_example : verify_checksum (apply_checksum request) ≡ none
verify_checksum-apply_checksum_example = verify_checksum-apply_checksum request

-- GET with the id 1, and nothing else.
abbrev small_datagram : List ℕ
small_datagram = 64 ∷ 1 ∷ 0 ∷ 1 ∷ []

abbrev small_message : CoapMessage
small_message = elim (deserialize small_datagram).message [ none ↦ request | some m ↦ m ]

deserialize_checked-accepts_example :
    (deserialize_checked small_datagram ≡ record { message = some small_message; error = none }) ↔ (
      (deserialize small_datagram ≡ record { message = some small_message; error = none })
      × ((o : CoapOption)
          → get_option option_checksum small_message ≡ some o
          → string_value o.value ≡ calculate_checksum small_message))
deserialize_checked-accepts_example = deserialize_checked-accepts small_datagram small_message

abbrev key_a : List ℕ
key_a = 97 ∷ []

abbrev some_calls : List (ℕ × Call ℕ)
some_calls =
    (3, Call.set key_a 7)
    ∷ (4, Call.get key_a)
    ∷ (9, Call.load_or_set key_a 8)
    ∷ (20, Call.clean)
    ∷ (21, Call.get key_a)
    ∷ []

answers-plain_answers_example :
    answers some_calls (new_sharded_cache 10) ≡ plain_answers 10 some_calls (λ t k. none)
answers-plain_answers_example =
    answers-plain_answers 10 3 some_calls
      (omega arith, (omega arith, (omega arith, (omega arith, (omega arith, tt)))))

run_of_calls :
    answers some_calls (new_sharded_cache 10)
    ≡ Answer.done
      ∷ Answer.found (some 7)
      ∷ Answer.loaded 7 true
      ∷ Answer.done
      ∷ Answer.found none
      ∷ []
unfolding answers call set_item get_item load_or_store cleanup new_sharded_cache in_shard put erase
    load delete_item shard fnv32 bytes_eq
run_of_calls = refl

get_session-set_session_example :
    (get_session {S = ℕ} 5
      (98 ∷ [])
      (99 ∷ [])
      key_a
      (set_session 3 (97 ∷ []) (99 ∷ []) key_a 7 (new_sharded_cache 10))).0
    ≡ (if ltb (3 + (new_sharded_cache {V = ℕ} 10).ttl) 5 then none else some 7)
get_session-set_session_example =
    get_session-set_session 3 5 (97 ∷ []) (98 ∷ []) (99 ∷ []) key_a 7 (new_sharded_cache 10)
      (λ e. absurd (omega arith))

get_session-delete_session_example :
    (get_session 5 key_a key_a key_a
      (delete_session key_a key_a key_a (new_sharded_cache {V = ℕ} 10))).0
    ≡ none
get_session-delete_session_example =
    get_session-delete_session 5 key_a key_a key_a (new_sharded_cache 10)

-- Two pairs of a sender and a receiver with one key.
same_session_key :
    session_key (codes "1.1.1.1:1") (codes "12.0.0.1:5") []
    ≡ session_key (codes "1.1.1.1:11") (codes "2.0.0.1:5") []
unfolding session_key
same_session_key = refl
