-- ===== src/Tests/Views.antt =====
-- Runs of the formatters of crates/cycbox-engine/src/formatter/.
use cycbox.Base.{
  ℕ, ◌+◌, ◌<◌, ◌≤◌, ◌≡◌, ◌≢◌, ◌↔◌, ap, [], Option, none, some, true, false, length, arith,
}
use cycbox.Base.Text.{text}
use cycbox.Message.{Message}
use cycbox.Formatter.Hexdump.{is_highlighted}
use cycbox.Formatter.Hexdump.Matches.{OccursAt, is_highlighted-Covers}
use cycbox.Formatter.Terminal.{Encodings, highlight_text, decode_bytes}
use cycbox.Formatter.Terminal.Pieces.{joined, highlight_text-Joins, highlight_text-empty}
use cycbox.Codec.{Result, ok}
use cycbox.Engine.Connection.{MessageTransport, Transformer, Connection, new_connection, recv}
use cycbox.Engine.Connection.Returns.{Tagged, recv-Returns}
use cycbox.Engine.ConnectionTask.{Task, Event, queues, run, established, max_outbox_len}
use cycbox.Engine.ConnectionTask.Order.{queued, run-InOrder}
use mathlib.Core.List.{Sublistᴰ}
use cycbox.Codec.{err, pending}
use cycbox.Base.{List, ◌∷◌, ◌++◌, refl, if◌then◌else◌, ◌==◌}
use cycbox.Tests.{message_of}

-- An encoding that keeps all bytes as they are, but for a byte order mark.
abbrev marks_dropped : Encodings ℕ
marks_dropped = record {
  chars = λ t. t;
  is_utf8 = λ bytes. true;
  utf_8 = λ e. false;
  decode = λ e bytes. some [];
}

highlight_text-Joins_example :
    (m' : Message) × (highlight_text marks_dropped 6 (text "ababa") (text "ab") (message_of [])
      ≡ some m')
    × (joined m'.contents ≡ text "ababa")
highlight_text-Joins_example =
    highlight_text-Joins marks_dropped (text "ababa") (text "ab") (message_of [])
      (λ e. omega (arith, ap length e))

highlight_text-empty_example :
    highlight_text marks_dropped 9 (text "hello") [] (message_of []) ≡ none
highlight_text-empty_example = highlight_text-empty marks_dropped 9 (text "hello") (message_of [])

is_highlighted-Covers_example :
    (is_highlighted (text "xabx") 2 (some (text "ab")) ≡ true)
    ↔ ((start : ℕ) × (start ≤ 2) × (2 < start + 2) × OccursAt (text "xabx") (text "ab") start)
is_highlighted-Covers_example = is_highlighted-Covers (text "xabx") (text "ab") 2

-- A transport that always delivers the same message, and a transformer that changes nothing.
abbrev one_message : MessageTransport ℕ
one_message = record {
  recv = λ t. (t, ok (some (message_of (text "abc"))));
  send = λ t m. (t, m, ok tt);
  handle_command = λ t m. (t, none);
}

abbrev unchanged : Transformer ℕ
unchanged = record { on_receive = λ u m. (u, m); on_send = λ u m. (u, m) }

abbrev plain_connection : Connection ℕ ℕ ℕ
plain_connection = new_connection 4 0 (some 0) 0

-- An encoding of single bytes.
abbrev as_is : Encodings ℕ
as_is = record {
  chars = λ t. t;
  is_utf8 = λ bytes. true;
  utf_8 = λ e. false;
  decode = λ e bytes. some bytes;
}

-- The pattern is a letter of the messages.
abbrev with_pattern : Connection ℕ ℕ ℕ
with_pattern = record plain_connection { highlight_bytes = some (text "b") }

letter_shows : decode_bytes as_is 0 (text "b") ≢ some []
unfolding decode_bytes
letter_shows e = cc

recv-Returns_example :
    (c' : Connection ℕ ℕ ℕ) × (r : Result (Option Message)) × (recv one_message unchanged as_is
        with_pattern
      ≡ some (c', r))
    × Tagged 4 r
unfolding new_connection
recv-Returns_example = recv-Returns one_message unchanged as_is with_pattern letter_shows

-- A transport that defers every other message.
abbrev half_duplex : MessageTransport ℕ
half_duplex = record {
  recv = λ t. (t, ok none);
  send = λ t m. if t == 0 then (1, m, err (pending [])) else (0, m, ok tt);
  handle_command = λ t m. (t, none);
}

-- The first message is deferred, and goes when the second one comes.
abbrev two_messages : List (ℕ × Event)
two_messages = (5, queues (message_of (text "a"))) ∷ (6, queues (message_of (text "b"))) ∷ []

abbrev one_deferred : Task ℕ ℕ ℕ
one_deferred =
    elim (run half_duplex unchanged marks_dropped (λ t. t) two_messages
      (established plain_connection)) [ none ↦ established plain_connection | some t ↦ t ]

run-InOrder_example :
    Sublistᴰ (one_deferred.accepted ++ one_deferred.pending_outbox) (queued two_messages)
    × (length one_deferred.pending_outbox ≤ max_outbox_len)
unfolding run mathlib.Core.Option.bind cycbox.Engine.Connection.send new_connection
run-InOrder_example =
    run-InOrder half_duplex unchanged marks_dropped (λ t. t) two_messages plain_connection
      one_deferred refl
