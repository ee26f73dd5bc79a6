-- ===== src/Transport/Send/RawCommand.antt =====
-- crates/cycbox-sdk/src/transport.rs: the reply to "send_raw".
use mathlib.Core.Option
use cycbox.Base.{
  ℕ, ◌≡◌, ◌⊎◌, inl, inr, refl, ap, ◌∙◌, List, [], ◌∷◌, Option, Bool, some, none, true, false,
  Option-cases, bytes_eq, bytes_eq_refl,
}
use cycbox.Base.Text.{Text, text}
use cycbox.Value.Builder
use cycbox.Value.{Value, as_u8_array}
use cycbox.Message.{Message, get_command, param, get_seq_id, is_success}
use cycbox.Message.Builder.{response_success, response_error, build}
use cycbox.Transport.Send.{WriteAll, command_id_send_raw, write_raw, send_raw, handle_command}

-- A reply to `command`, which says whether it has succeeded.
abbrev pub Replies : Message → Bool → Message → Type 0
Replies command good reply =
    (get_seq_id reply ≡ get_seq_id command)
    × (reply.connection_id ≡ command.connection_id)
    × (is_success reply ≡ good)

success-Replies :
    (now : ℕ) (command : Message) → Replies command true (build now (response_success now command))
unfolding build response_success is_success get_seq_id Builder.builder Builder.boolean Option.bind
    bytes_eq
success-Replies now command = (refl, refl, refl)

error-Replies :
    (now : ℕ) (command : Message) (e : Text)
    → Replies command false (build now (response_error now command e))
unfolding build response_error is_success get_seq_id Builder.builder Builder.boolean Option.bind
    bytes_eq
error-Replies now command e = (refl, refl, refl)

-- Nothing to write, or it was written.
abbrev pub Written : WriteAll → List ℕ → Type 0
Written write [] = Unit
Written write (b ∷ bs) = write (b ∷ bs) ≡ none

write_raw-Replies :
    (write : WriteAll) (now : ℕ) (command : Message) (bytes : List ℕ)
    → (Written write bytes × Replies command true (write_raw write now command bytes))
      ⊎ (¬ Written write bytes × Replies command false (write_raw write now command bytes))
unfolding write_raw
write_raw-Replies write now command [] = inl (tt, success-Replies now command)
write_raw-Replies write now command (b ∷ bs) = elim (Option-cases (write (b ∷ bs))) [
  | inl e ↦ inl (e, rw (e, write_raw) (success-Replies now command))
  | inr (x, e) ↦ inr ((λ k. cc (e, k)), rw (e, write_raw) (error-Replies now command x.message))
]

-- "send_raw" is always answered under the command's sequence id and connection id: with an error
-- and nothing offered to the byte stream when the parameter `bytes` is missing, and otherwise with
-- the bytes offered, and with a success exactly when there was nothing to write or it was written.
pub send_raw_reply :
    (lossy : List ℕ → Text) (write : WriteAll)
    (codec_handle transport_handle : Message → Option Message) (now : ℕ) (command : Message)
    → get_command lossy command ≡ command_id_send_raw
    → (reply : Message) × (bytes : List ℕ) × (handle_command lossy write codec_handle
          transport_handle now command
        ≡ (some reply, bytes))
      × (((param (text "bytes") command ≡ none) × (bytes ≡ []) × Replies command false reply)
          ⊎ ((v : Value) × (param (text "bytes") command ≡ some v)
              × (bytes ≡ v.value_payload)
              × ((Written write bytes × Replies command true reply)
                  ⊎ (¬ Written write bytes × Replies command false reply))))
unfolding handle_command send_raw as_u8_array
send_raw_reply lossy write codec_handle transport_handle now command h =
    let named : bytes_eq (get_command lossy command) command_id_send_raw ≡ true =
      ap (λ x. bytes_eq x command_id_send_raw) h ∙ bytes_eq_refl command_id_send_raw in
    elim (Option-cases (param (text "bytes") command)) [
      | inl e ↦ (
        build now (response_error now command (text "missing 'bytes' parameter")),
        [],
        rw (named, e, handle_command, send_raw) refl,
        inl (e, refl, error-Replies now command _),
      )
      | inr (v, e) ↦ (
        write_raw write now command v.value_payload,
        v.value_payload,
        rw (named, e, handle_command, send_raw) refl,
        inr (v, e, refl, write_raw-Replies write now command v.value_payload),
      )
    ]
