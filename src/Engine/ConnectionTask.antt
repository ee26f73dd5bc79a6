-- ===== src/Engine/ConnectionTask.antt =====
-- crates/cycbox-engine/src/tasks/connection_task.rs: the loop that moves messages between a
-- connection and the engine while the connection lives, and its outbox of messages that the codec
-- could not take yet. A branch of the `select!` is an event: it runs to its end before the next
-- one. `none` stands for a branch that does not return.
pub mod Sublists
pub mod Outbox
pub mod Order
use mathlib.Core.Option
use cycbox.Base.{
  ℕ, List, [], ◌∷◌, ◌++◌, Option, none, some, Bool, true, false, ltb, leb, ◌&&◌, not, if◌then◌else◌,
  length, drop,
}
use cycbox.Base.Text.{Text, text}
use cycbox.Message.{Message}
use cycbox.Message.Builder.{
  build, new, with_message_type, with_connection_id, with_timestamp, with_frame,
}
use cycbox.Codec.{CycBoxError, connection, discarded, pending, Result, ok, err}
use cycbox.Formatter.Terminal.{Encodings}
use cycbox.Engine.Connection.{MessageTransport, Transformer, Connection, recv, send, handle_command}

-- What the engine is told; a notice is the values that its text is made of.
pub data Notice : Type 0 where
  outbox_full lost : Notice
  outbox_depth dropping : ℕ → Notice
  retry_discarded send_discarded : Text → Notice
  retry_reconnecting retry_failed : CycBoxError → Notice
  recv_reconnecting recv_failed send_reconnecting send_failed : CycBoxError → Notice

-- What the task calls outside of the connection, `responds` being the answer to a command.
pub data Call : Type 0 where
  receive_message send_confirm broadcast : Message → Call
  warn error : Notice → Call
  responds : Option Message → Call
  closes : Call

pub data DrainOutcome : Type 0 where
  idle reconnect : DrainOutcome

-- In the loop, out of it to reconnect, or at the end of the task.
pub data Status : Type 0 where
  connected reconnecting closed : Status

-- `accepted` and `calls` record what the connection has accepted and what has been called.
pub record Task (T U E : Type 0) : Type 0 where
  pub held : Connection T U E
  pub pending_outbox : List Message
  pub outbox_warned : Bool
  pub accepted : List Message
  pub calls : List Call
  pub status : Status

-- `MAX_OUTBOX_LEN` and `OUTBOX_WARN_THRESHOLD`
abbrev pub max_outbox_len : ℕ
max_outbox_len = 64

abbrev pub outbox_warn_threshold : ℕ
outbox_warn_threshold = 8

module _ {T U E : Type 0} where
  abbrev pub call : Call → Task T U E → Task T U E
  call c t = record t { calls = t.calls ++ c ∷ [] }

  -- Where the loop starts with a new connection.
  abbrev pub established : Connection T U E → Task T U E
  established c = record {
    held = c;
    pending_outbox = [];
    outbox_warned = false;
    accepted = [];
    calls = [];
    status = connected;
  }

  -- `break`
  abbrev pub leave : Task T U E → Task T U E
  leave t = record t { status = reconnecting }

  -- A full outbox loses its oldest message.
  unfoldable pub make_room : Task T U E → Task T U E
  make_room t =
      if leb max_outbox_len (length t.pending_outbox)
      then call (warn outbox_full) (record t { pending_outbox = drop 1 t.pending_outbox })
      else t

  unfoldable pub warn_once : Task T U E → Task T U E
  warn_once t =
      if not t.outbox_warned && ltb outbox_warn_threshold (length t.pending_outbox)
      then call (warn (outbox_depth (length t.pending_outbox))) (record t { outbox_warned = true })
      else t

  unfoldable pub enqueue_outbox : Message → Task T U E → Task T U E
  unfolding make_room warn_once
  enqueue_outbox m t =
      let roomy = make_room t in
      warn_once (record roomy { pending_outbox = roomy.pending_outbox ++ m ∷ [] })

  -- The message is taken from the front of the outbox, and goes back there when it can be sent
  -- again.
  unfoldable pub drain_result : Message → Result Message → Task T U E → Task T U E × DrainOutcome
  drain_result m (ok tx_msg) t =
      (call (send_confirm tx_msg) (record t { accepted = t.accepted ++ m ∷ [] }), idle)
  drain_result m (err (pending e)) t = (record t { pending_outbox = m ∷ t.pending_outbox }, idle)
  drain_result m (err (discarded reason)) t = (call (warn (retry_discarded reason)) t, idle)
  drain_result m (err (connection e)) t = (
    call (warn (retry_reconnecting (connection e)))
        (record t { pending_outbox = m ∷ t.pending_outbox }),
    reconnect,
  )
  drain_result m (err e) t = (call (error (retry_failed e)) t, idle)

  unfoldable pub after_drain : Task T U E × DrainOutcome → Task T U E
  after_drain (t, idle) = t
  after_drain (t, reconnect) = leave t

  -- What the fast path does with the answer to `send`.
  unfoldable pub send_result : Message → Result Message → Task T U E → Task T U E
  unfolding enqueue_outbox
  send_result m (ok tx_msg) t =
      call (send_confirm tx_msg) (record t { accepted = t.accepted ++ m ∷ [] })
  send_result m (err (pending e)) t = enqueue_outbox m t
  send_result m (err (discarded reason)) t = call (warn (send_discarded reason)) t
  send_result m (err (connection e)) t = leave (call (warn (send_reconnecting (connection e))) t)
  send_result m (err e) t = call (error (send_failed e)) t

  unfoldable pub recv_failure : CycBoxError → Task T U E → Task T U E
  recv_failure (connection e) t = leave (call (warn (recv_reconnecting (connection e))) t)
  recv_failure e t = call (error (recv_failed e)) t

  -- What is still queued behind the loop is dropped.
  unfoldable pub drop_outbox : Task T U E → Task T U E
  drop_outbox t = elim t.pending_outbox [
    | [] ↦ t
    | m ∷ ms ↦ call (warn (dropping (length t.pending_outbox))) (record t { pending_outbox = [] })
  ]

-- What a branch of the `select!` waits for. `queues` is a message to send, and `observes` the bytes
-- of a raw read with their time.
pub data Event : Type 0 where
  cancels receives ticks : Event
  queues commands : Message → Event
  observes : ℕ → List ℕ → Event

module _ {T U E : Type 0} (messages : MessageTransport T) (parts : Transformer U)
    (encodings : Encodings E) (lossy : List ℕ → Text) where
  unfoldable pub drain_outbox : ℕ → Task T U E → Option (Task T U E × DrainOutcome)
  unfolding drain_result
  drain_outbox now t = elim t.pending_outbox [
    | [] ↦ some (t, idle)
    | m ∷ rest ↦
        Option.map (λ r. drain_result m r.1 (record t { held = r.0; pending_outbox = rest }))
          (send messages parts encodings now t.held m)
  ]

  unfoldable pub drain : ℕ → Task T U E → Option (Task T U E)
  unfolding drain_outbox after_drain
  drain now t = Option.map after_drain (drain_outbox now t)

  unfoldable pub recv_result : ℕ → Result (Option Message) → Task T U E → Option (Task T U E)
  unfolding drain recv_failure
  recv_result now (ok (some m)) t = drain now (call (receive_message m) t)
  recv_result now (ok none) t = some (leave (call (warn lost) t))
  recv_result now (err e) t = some (recv_failure e t)

  -- With messages in the outbox a new one stands behind them.
  unfoldable pub queue_message : ℕ → Message → Task T U E → Option (Task T U E)
  unfolding drain enqueue_outbox send_result
  queue_message now m t = elim t.pending_outbox [
    | [] ↦
        Option.map (λ r. send_result m r.1 (record t { held = r.0 }))
          (send messages parts encodings now t.held m)
    | x ∷ xs ↦ drain now (enqueue_outbox m t)
  ]

  -- `RawBytes` as a message.
  abbrev pub raw_rx_message : ℕ → ℕ → ℕ → List ℕ → Message
  raw_rx_message now id timestamp bytes = build now (
      with_frame bytes
        (with_timestamp timestamp (with_connection_id id (with_message_type (text "raw_rx") new))))

  -- One round of the loop at the time `now`.
  unfoldable pub step : ℕ → Event → Task T U E → Option (Task T U E)
  unfolding recv_result queue_message drain recv handle_command
  step now cancels t = some (call closes (record t { status = closed }))
  step now receives t =
      Option.bind (recv messages parts encodings t.held)
        (λ r. recv_result now r.1 (record t { held = r.0 }))
  step now (queues m) t = queue_message now m t
  step now ticks t = elim t.pending_outbox [ [] ↦ some t | x ∷ xs ↦ drain now t ]
  step now (commands m) t =
      let (c, answer) = handle_command messages parts encodings lossy now t.held m in
      some (call (responds answer) (record t { held = c }))
  step now (observes timestamp bytes) t =
      some (call (broadcast (raw_rx_message now t.held.connection_id timestamp bytes)) t)

  -- The loop over the events until it is left, and what comes behind it.
  unfoldable pub run : List (ℕ × Event) → Task T U E → Option (Task T U E)
  unfolding step drop_outbox
  run [] t = some t
  run ((now, e) ∷ es) t = elim t.status [
    | connected ↦ Option.bind (step now e t) (run es)
    | reconnecting ↦ some (drop_outbox t)
    | closed ↦ some t
  ]
