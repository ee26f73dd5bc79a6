-- ===== src/Transport/Send.antt =====
-- crates/cycbox-sdk/src/transport.rs: `send` and `handle_command` of `CodecTransport`. What
-- `write_all` of the byte stream answers is a parameter.
pub mod Delivery
pub mod RawCommand
use mathlib.Core.Option
use cycbox.Base.{
  ℕ, List, [], ◌∷◌, ◌++◌, Option, some, none, Bool, true, false, if◌then◌else◌, bytes_eq,
}
use cycbox.Base.Text.{Text, text}
use cycbox.Value.{as_u8_array}
use cycbox.Message.{Message, get_command, param}
use cycbox.Message.Builder.{response_success, response_error, frame_or_payload, build}
use cycbox.Codec.{Codec, CycBoxError, Result, ok, err}
use cycbox.Transport.{CodecTransport}

-- `std::io::Error`: whether its kind is `NotConnected`, and its text.
pub record IoError : Type 0 where
  pub not_connected : Bool
  pub message : Text

-- What `write_all` answers: `none` is success.
abbrev pub WriteAll : Type 0
WriteAll = List ℕ → Option IoError

-- `offered` is what `write_all` was called on, and empty when it was not called.
pub record Sent (S : Type 0) : Type 0 where
  pub transport : CodecTransport S
  pub message : Message
  pub offered : List ℕ
  pub result : Result {0} Unit

unfoldable pub write_error : IoError → CycBoxError
write_error e =
    if e.not_connected then CycBoxError.discarded e.message else CycBoxError.connection e.message

unfoldable pub written : Option IoError → Result {0} Unit
unfolding write_error
written none = ok tt
written (some e) = err (write_error e)

unfoldable pub write_frame : WriteAll → List ℕ → Result {0} Unit
unfolding written
write_frame write [] = ok tt
write_frame write (b ∷ bs) = written (write (b ∷ bs))

module _ {S : Type 0} (codec : Codec S) where
  -- An empty frame becomes the payload.
  unfoldable pub send : WriteAll → Message → CodecTransport S → Sent S
  unfolding write_frame
  send write m t = elim (codec.encode t.codec_state m) [
    | err e ↦ record { transport = t; message = m; offered = []; result = err e }
    | ok (s, m') ↦
        let frame = frame_or_payload m'.frame m'.payload in
        record {
          transport = record t { codec_state = s };
          message = record m' { frame = frame };
          offered = frame;
          result = write_frame write frame;
        }
  ]

  -- One message after another; the bytes that `write_all` was called on.
  unfoldable pub send_all : WriteAll → List Message → CodecTransport S → List ℕ
  unfolding send
  send_all write [] t = []
  send_all write (m ∷ ms) t =
      let sent = send write m t in sent.offered ++ send_all write ms sent.transport

-- "send_raw": the response, and the bytes that `write_all` was called on.
abbrev pub command_id_send_raw : Text
command_id_send_raw = text "send_raw"

unfoldable pub write_raw : WriteAll → ℕ → Message → List ℕ → Message
write_raw write now command [] = build now (response_success now command)
write_raw write now command (b ∷ bs) = elim (write (b ∷ bs)) [
  | none ↦ build now (response_success now command)
  | some e ↦ build now (response_error now command e.message)
]

unfoldable pub send_raw : WriteAll → ℕ → Message → Message × List ℕ
unfolding write_raw Option.bind
send_raw write now command = elim (Option.bind (param (text "bytes") command) as_u8_array) [
  | none ↦ (build now (response_error now command (text "missing 'bytes' parameter")), [])
  | some bytes ↦ (write_raw write now command bytes, bytes)
]

-- Other commands go to the codec and then to the byte stream.
unfoldable pub handle_command :
    (List ℕ → Text)
    → WriteAll
    → (Message → Option Message)
    → (Message → Option Message)
    → ℕ
    → Message
    → Option Message × List ℕ
unfolding send_raw bytes_eq
handle_command lossy write codec_handle transport_handle now command =
    let (response, bytes) = send_raw write now command in
    if bytes_eq (get_command lossy command) command_id_send_raw
    then (some response, bytes)
    else elim (codec_handle command) [
      | some answer ↦ (some answer, [])
      | none ↦ (transport_handle command, [])
    ]
