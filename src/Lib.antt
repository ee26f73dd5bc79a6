-- ===== src/Lib.antt =====
-- CycBox is a toolbox for serial and network protocols: transports bring bytes, codecs cut
-- them into messages, and scripts and the user interface exchange requests and responses
-- with the engine. This library models the path from bytes to messages and back.
--
-- Parts, with paths from the repository's root:
-- - crates/cycbox-sdk/src/message/value.rs: typed values. Value.antt has `Value` and its
--   readers (`as_u16`, `as_i32_array`, ...), Value/Builder.antt has `ValueBuilder`. A number is
--   stored as its little-endian bytes; integers are two's complement (Base/Int.antt), and
--   floats are their bit patterns.
-- - crates/cycbox-sdk/src/message/content.rs: what a message shows. Content.antt.
-- - crates/cycbox-sdk/src/message/mod.rs and builder.rs: `Message` and `MessageBuilder`.
--   Message.antt and Message/Builder.antt, with the accessors under their own names; the
--   builder's setters are spelled `with_...`.
-- - crates/cycbox-sdk/src/message/lua_functions.rs: the readers of binary data that scripts call.
--   Message/LuaFunctions.antt.
-- - crates/cycbox-sdk/src/codec.rs and error.rs: the trait `Codec` is the record `Codec` of
--   Codec.antt, whose functions take and return the codec's state and the receive buffer.
--   `Lawful` has what the transport needs of a codec.
-- - crates/cycbox-runtime/src/codec/line.rs, slip.rs, cobs.rs, passthrough.rs and timeout.rs:
--   the codecs of the runtime, in Codec/Line.antt, Codec/Slip.antt, Codec/Cobs.antt,
--   Codec/Passthrough.antt and Codec/Timeout.antt. `decode` and `encode` are the methods of
--   `impl Codec`; the loops of `encode_cobs`, `decode_cobs`, `encode_slip` and `decode_slip` are
--   recursive functions over their local variables.
-- - crates/cycbox-sdk/src/transport.rs: `CodecTransport` owns a byte stream and a codec.
--   Transport.antt models `recv` as a function of the events to come: what `read` and
--   `take_session_boundary` answer, and what the clocks show. Each arm of the match in `recv` is
--   one function (`at_eof`, `on_bytes`, `on_timeout`). Transport/Send.antt has `send` and
--   `handle_command`; what `write_all` answers is a parameter.
-- - crates/cbrt/src/parser.rs: CBRT frames, samples of several channels behind a sync word.
--   Cbrt/Frame.antt reads the fields of a frame as `parse_at` does, with the CRC of the `crc` crate
--   as a parameter; Cbrt/Session.antt has the session state, the sequence numbers and the
--   timestamps, Cbrt/Timing.antt the sample times over a parameter that stands for `f64`,
--   Cbrt/Rows.antt the values, Cbrt/Halves.antt the 16-bit floats, Cbrt/Contents.antt what is
--   shown, and Cbrt/Parse.antt `parse_at` as a whole.
-- - crates/cbrt/src/codec.rs and transformer.rs: Cbrt/Stream.antt is the codec, whose loop looks
--   for the sync word; Cbrt/Transform.antt parses frames in the messages of other transports.
-- - crates/cycbox-sdk/src/manifest/: forms. Manifest.antt has the data, Manifest/Field.antt the
--   methods of `FormField`, Manifest/Utils.antt those of `FormUtils`, where a change to a field
--   that `find_field_mut` gives is a function on the field, and Manifest/Groups.antt
--   `Manifest::with_groups` and `with_encoding_field`.
-- - crates/cycbox-engine/src/formatter/hexdump.rs and terminal.rs: Formatter/Hexdump.antt and
--   Formatter/Terminal.antt. What their loops keep in local variables is a record.
-- - crates/cycbox-engine/src/connection.rs: Engine/Connection.antt, over records of functions for
--   the transport and the transformer.
-- - crates/cycbox-engine/src/tasks/delay_queue_task.rs: Engine/DelayQueue.antt, a relation between
--   the states of the task: each pass of the loop and each arm of its `select!` is a step.
-- - crates/cycbox-engine/src/tasks/connection_task.rs: Engine/ConnectionTask.antt has the loop over a
--   live connection, a function on its state for each arm of the `select!`, with what the task calls
--   outside as a list; Engine/Reconnect.antt has the loop around it, over the outcomes of the attempts.
-- - crates/cycbox-engine/src/tasks/engine_task.rs, command.rs and state.rs: Engine/EngineTask.antt,
--   a function on the state of the task for each control command, with its reply and with what it
--   does to connections and queues as a list.
--
-- How they interact: `recv` puts the bytes of a read into the buffer and calls `decode` until
-- the codec asks for more; the codec delivers messages that `MessageBuilder::rx` builds. `send`
-- lets the codec fill in the frame and writes it out. Requests and responses are messages whose
-- frame is the command and whose payload is the sequence id. A connection takes messages from its
-- transport, lets the transformer read values from them and the formatters show them; the CBRT
-- transformer leaves alone what the CBRT codec has read.
--
-- Bounds and fuel. The receive buffer is limited to 1024 * 1024 * 1024 bytes, as in the source.
-- The loop in `recv` that decodes all messages runs on one unit of fuel more than the buffer has
-- bytes, which suffices for every lawful codec since each message uses up a byte. `decode_cobs`
-- runs on the length of its data, since each block uses up its code byte; `chunks_exact` runs on
-- the length of the slice. The loop of the CBRT codec runs on one unit more than the buffer has
-- bytes, since each round drops one. The loop that highlights a text runs on one unit more than
-- the text is long, which suffices for a pattern that is not empty. A byte is a number; where a
-- theorem needs it to be less than 256 it says so.
--
-- Not modelled: received messages and scripts' timers in the engine task, the repeating messages, the channels and the scheduling of the engine; the other Lua
-- bindings and extensions; the serial port driver; the values of a manifest and localization.
-- Log output and the sending side of the observer's bounded channel are left out: `observed` has
-- what was offered to it. The lossy reading of bytes as UTF-8 is a parameter, and so are the
-- encodings of the text view; a text is its UTF-8 bytes. The errors of other libraries are their
-- texts.
pub mod Base
pub mod Value
pub mod Content
pub mod Manifest
pub mod Message
pub mod Codec
pub mod Transport
pub mod Cbrt
pub mod Formatter
pub mod Engine
pub mod Tests
