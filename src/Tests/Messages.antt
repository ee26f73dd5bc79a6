-- ===== src/Tests/Messages.antt =====
-- Runs of the values and messages of crates/cycbox-sdk/src/message/.
use cycbox.Base.{ℕ, ◌≡◌, refl, ap, List, [], ◌∷◌, some, none, true, false, arith}
use cycbox.Base.Int.{pos, negsuc}
use cycbox.Base.Text.{Text, text}
use cycbox.Value.{
  Value, new_u8_array, new_boolean, as_i8, as_i16, as_i32, as_i64, as_u16_array, as_u32_array,
  as_u64_array,
}
use cycbox.Value.Builder
use cycbox.Value.Builder.{ValueBuilder}
use cycbox.Value.Scalars.{signed_round_trip}
use cycbox.Value.Shape.{Reads, uint_arrays_exact}
use cycbox.Message.{Message, get_seq_id, is_success, error_message, metadata_value, remove_metadata}
use cycbox.Message.Builder.{request, response_success, response_error, build}
use cycbox.Message.Response.{response_matches}
use cycbox.Message.Metadata.{metadata_value-remove_metadata}
use cycbox.Tests.{message_of}

abbrev named : ValueBuilder
named = Builder.builder (text "x")

signed_round_trip_example :
    (as_i8 (Builder.int8 1 named (negsuc 127)) ≡ some (negsuc 127))
    × (as_i16 (Builder.int16 1 named (pos 3)) ≡ some (pos 3))
    × (as_i32 (Builder.int32 1 named (negsuc 0)) ≡ some (negsuc 0))
    × (as_i64 (Builder.int64 1 named (negsuc 5)) ≡ some (negsuc 5))
signed_round_trip_example =
    signed_round_trip 1 named (negsuc 127) (pos 3) (negsuc 0) (negsuc 5) (omega arith) (omega arith)
      (omega arith) (omega arith)

abbrev five_bytes : Value
five_bytes = new_u8_array (text "x") (1 ∷ 2 ∷ 3 ∷ 4 ∷ 5 ∷ [])

uint_arrays_exact_example :
    Reads 2 five_bytes.value_payload (as_u16_array five_bytes) (Builder.uint16_array 1 named)
    × Reads 4 five_bytes.value_payload (as_u32_array five_bytes) (Builder.uint32_array 1 named)
    × Reads 8 five_bytes.value_payload (as_u64_array five_bytes) (Builder.uint64_array 1 named)
unfolding new_u8_array
uint_arrays_exact_example =
    uint_arrays_exact 1 named five_bytes
      (omega arith, (omega arith, (omega arith, (omega arith, (omega arith, tt)))))

abbrev command : Text
command = text "set_highlight"

response_matches_example :
    let req = build 1 (request 300 command 4) in
    let good = build 2 (response_success 2 req) in
    let bad = build 2 (response_error 2 req (text "no")) in
    (get_seq_id req ≡ 300)
    × (get_seq_id good ≡ 300)
    × (get_seq_id bad ≡ 300)
    × (good.frame ≡ command)
    × (bad.frame ≡ command)
    × (good.connection_id ≡ req.connection_id)
    × (bad.connection_id ≡ req.connection_id)
    × (is_success good ≡ true)
    × (is_success bad ≡ false)
    × (error_message (λ bs. bs) good ≡ none)
    × (error_message (λ bs. bs) bad ≡ some (text "no"))
response_matches_example =
    response_matches (λ bs. bs) 1 2 300 4 command (text "no") (omega arith) (λ e. cc e) refl

abbrev tagged : Message
tagged = record (message_of (1 ∷ [])) {
  metadata = new_boolean (text "a") true ∷ new_boolean (text "b") false ∷ [];
}

metadata_value-remove_metadata_example :
    (metadata_value (text "a") (remove_metadata (text "a") tagged) ≡ none)
    × (metadata_value (text "b") (remove_metadata (text "a") tagged)
        ≡ metadata_value (text "b") tagged)
metadata_value-remove_metadata_example =
    metadata_value-remove_metadata (text "a") (text "b") tagged (λ e. omega (arith, ap first_of e))
  where
    first_of : List ℕ → ℕ
    first_of [] = 0
    first_of (b ∷ bs) = b
