-- ===== src/Engine/Connection.antt =====
-- crates/cycbox-engine/src/connection.rs: a connection puts a transformer and the formatters around
-- a transport. The transport and the transformer are records of functions over their states. A call
-- that gives `none` does not return: a formatter may run for ever.
pub mod Returns
use mathlib.Core.Option
use cycbox.Base.{ℕ, List, [], ◌∷◌, Option, none, some, bytes_eq, if◌then◌else◌}
use cycbox.Base.Text.{Text, text}
use cycbox.Value.{as_u8_array}
use cycbox.Message.{Message, param, get_command}
use cycbox.Message.Builder.{
  build, new, with_message_type, with_frame, with_payload, with_metadata, with_contents,
  with_hex_contents, with_display_hex, with_highlighted, response_success, response_error,
}
use cycbox.Codec.{CycBoxError, Result, ok, err}
use cycbox.Formatter.Hexdump.{format_hexdump}
use cycbox.Formatter.Terminal.{Encodings, format_terminal}

-- `MessageTransport`, with what its calls answer.
pub record MessageTransport (T : Type 0) : Type 0 where
  pub recv : T → T × Result (Option Message)
  pub send : T → Message → T × Message × Result (Unit {0})
  pub handle_command : T → Message → T × Option Message

-- `Transformer`: a message comes back changed, also beside an error.
pub record Transformer (U : Type 0) : Type 0 where
  pub on_receive : U → Message → U × Message
  pub on_send : U → Message → U × Message

pub record Connection (T U E : Type 0) : Type 0 where
  pub connection_id : ℕ
  pub transport : T
  pub transformer : Option U
  pub encoding : E
  pub highlight_bytes : Option (List ℕ)

module _ {T U E : Type 0} where
  unfoldable pub new_connection : ℕ → T → Option U → E → Connection T U E
  new_connection id transport transformer encoding = record {
    connection_id = id;
    transport = transport;
    transformer = transformer;
    encoding = encoding;
    highlight_bytes = none;
  }

module _ {T U E : Type 0} (messages : MessageTransport T) (parts : Transformer U)
    (encodings : Encodings E) where
  -- The transformer is asked only for a message without values.
  unfoldable pub transform_received : Connection T U E → Message → Connection T U E × Message
  transform_received c m = elim c.transformer [
    | none ↦ (c, m)
    | some u ↦ elim m.values [
      | v ∷ vs ↦ (c, m)
      | [] ↦ let (u', m') = parts.on_receive u m in (record c { transformer = some u' }, m')
    ]
  ]

  unfoldable pub transform_sent : Connection T U E → Message → Connection T U E × Message
  transform_sent c m = elim c.transformer [
    | none ↦ (c, m)
    | some u ↦ let (u', m') = parts.on_send u m in (record c { transformer = some u' }, m')
  ]

  -- The text view, if there is none yet, and the hexadecimal view.
  unfoldable pub format : Connection T U E → Message → Option Message
  unfolding format_terminal format_hexdump
  format c m = Option.map (format_hexdump c.highlight_bytes) (elim m.contents [
    | [] ↦ format_terminal encodings c.encoding c.highlight_bytes m
    | x ∷ xs ↦ some m
  ])

  unfoldable pub recv : Connection T U E → Option (Connection T U E × Result (Option Message))
  unfolding transform_received format
  recv c =
      let (t, answer) = messages.recv c.transport in
      let c₁ = record c { transport = t } in
      elim answer [
        | err e ↦ some (c₁, err e)
        | ok none ↦ some (c₁, ok none)
        | ok (some m) ↦
            let (c₂, m₁) = transform_received c₁ m in
            Option.map
              (λ shown. (c₂, ok (some (record shown { connection_id = c₂.connection_id }))))
              (format c₂ m₁)
      ]

  abbrev fill_frame : Message → Message
  fill_frame m = elim m.frame [ [] ↦ record m { frame = m.payload } | b ∷ bs ↦ m ]

  -- The message that confirms what was sent.
  unfoldable pub tx_message : ℕ → ℕ → Message → Message
  tx_message now id m =
      record (build now (
        with_highlighted m.highlighted (
          with_display_hex m.display_hex (
            with_hex_contents m.hex_contents (
              with_contents m.contents (
                with_metadata m.metadata (
                  with_payload m.payload_type m.payload
                    (with_frame m.frame (with_message_type (text "tx") new))))))))) {
                      connection_id = id;
                    }

  unfoldable pub send : ℕ → Connection T U E → Message → Option (Connection T U E × Result Message)
  unfolding transform_sent format tx_message
  send now c m =
      let (c₁, m₁) = transform_sent c m in
      let (t, m₂, answer) = messages.send c₁.transport (fill_frame m₁) in
      let c₂ = record c₁ { transport = t } in
      elim answer [
        | err e ↦ some (c₂, err e)
        | ok done ↦
            Option.map (λ shown. (c₂, ok (tx_message now c₂.connection_id shown))) (format c₂ m₂)
      ]

  -- `lossy` reads the command's bytes as a text.
  unfoldable pub handle_command :
      (List ℕ → Text) → ℕ → Connection T U E → Message → Connection T U E × Option Message
  unfolding get_command param as_u8_array response_success response_error build
  handle_command lossy now c command =
      let id = get_command lossy command in
      if bytes_eq id (text "set_highlight")
      then elim (Option.bind (param (text "bytes") command) as_u8_array) [
        | some bytes ↦ (
          record c { highlight_bytes = some bytes },
          some (build now (response_success now command)),
        )
        | none ↦
            (c, some (build now (response_error now command (text "missing 'bytes' parameter"))))
      ]
      else if bytes_eq id (text "clear_highlight")
      then (record c { highlight_bytes = none }, some (build now (response_success now command)))
      else (let (t, answer) = messages.handle_command c.transport command in
          (record c { transport = t }, answer))
