-- ===== src/Tests/Schedules.antt =====
-- Runs of the tasks of crates/cycbox-engine/src/tasks/.
use cycbox.Base.{◌+◌, ◌≡◌, inl, inr, refl, [], ◌∷◌, true, All, arith}
use cycbox.Engine.DelayQueue.{
  DelayQueueTask, from_message, here, waits, receives, time_passes, sends, Run, done, and_then,
  started, Phase, starts, returns,
}
use cycbox.Engine.DelayQueue.Runs.{
  SentOnTime, Run-SentOnTime, count, queued, handed_over, OnlyDropsAtEnd, Run-balances,
}
use cycbox.Base.{min, ◌^◌}
use cycbox.Base.Text.{text}
use cycbox.Codec.{connection}
use cycbox.Engine.Reconnect.{
  transport_fails, lives_and_is_lost, lives_until_cancelled, max_backoff, first_round, attempt,
  rounds,
}
use cycbox.Engine.Reconnect.Backoff.{InRange, failures, rounds-Waits}
use cycbox.Manifest.Groups.{Manifest, PluginCategory}
use cycbox.Base.{some, none, ℕ, List}
use cycbox.Engine.EngineTask.{
  LuaScript, ControlCommand, start, stop, send_repeating_messages, stop_repeating_messages,
  handle_all, idle,
}
use cycbox.Engine.EngineTask.BatchIds.{Distinct, batch_ids}
use cycbox.Engine.EngineTask.Coherent.{Coherent, commands-Coherent}
use cycbox.Tests.{message_of}

-- A message for microsecond 1 is received at the start of the epoch, and sent when it is due.
abbrev at_last : DelayQueueTask
at_last = record {
  queue = [];
  now = 1000;
  received = message_of [] ∷ [];
  sent = (message_of [], 1000) ∷ [];
  dropped = [];
  phase = Phase.checking;
}

waited_for : Run 0 (started 0) at_last
unfolding from_message
waited_for =
    and_then
      (and_then
        (and_then (and_then (and_then done (starts refl)) (waits refl (inl refl)))
          (receives (message_of []) refl))
        (time_passes {later = 1000} (omega arith)))
      (sends refl (here, (omega arith, tt)) (omega arith))

Run-SentOnTime_example : All (SentOnTime 0) at_last.sent
Run-SentOnTime_example = Run-SentOnTime 0 0 at_last waited_for

-- The task is cancelled while the message waits for its time.
abbrev cut_short : DelayQueueTask
cut_short = record {
  queue = [];
  now = 0;
  received = message_of [] ∷ [];
  sent = [];
  dropped = message_of [] ∷ [];
  phase = Phase.returned;
}

cancelled : Run 0 (started 0) cut_short
unfolding from_message
cancelled =
    and_then
      (and_then
        (and_then (and_then (and_then done (starts refl)) (waits refl (inl refl)))
          (receives (message_of []) refl))
        (waits refl (inr (_, [], (here, (omega arith, tt)), omega arith))))
      (returns refl)

Run-balances_example :
    (count (λ m. true) cut_short.received
      ≡ count (λ m. true) (handed_over cut_short)
        + count (λ m. true) (queued cut_short)
        + count (λ m. true) cut_short.dropped)
    × OnlyDropsAtEnd cut_short
Run-balances_example = Run-balances 0 0 (λ m. true) cut_short cancelled

rounds-Waits_example :
    All InRange
      (rounds
        (lives_and_is_lost
          ∷ transport_fails (connection (text "refused"))
          ∷ lives_until_cancelled
          ∷ [])
        first_round).waits
    × ((rounds (failures 2 (text "refused")) (attempt lives_and_is_lost first_round)).backoff
        ≡ min (2 ^ 2) max_backoff)
rounds-Waits_example =
    rounds-Waits
      (lives_and_is_lost
        ∷ transport_fails (connection (text "refused"))
        ∷ lives_until_cancelled
        ∷ [])
      2 (text "refused") first_round refl

-- Scripts without hooks.
abbrev no_hooks : LuaScript ℕ ℕ
no_hooks = record {
  new = λ code configs n. some n;
  empty = 0;
  on_start = λ l. (l, true);
  on_stop = λ l. (l, true);
  on_send = λ l m. (l, m, true);
}

abbrev two_connections : Manifest ℕ ℕ ℕ
two_connections = record {
  id = [];
  version = [];
  name = [];
  description = [];
  author = [];
  config_schema = [];
  configs = [] ∷ [] ∷ [];
  message_input_groups = [];
  category = PluginCategory.run_mode;
  lua_script = none;
  dashboards = [];
}

abbrev session : List (ControlCommand ℕ ℕ ℕ)
session =
    send_repeating_messages
    ∷ start none
    ∷ send_repeating_messages
    ∷ send_repeating_messages
    ∷ stop_repeating_messages (1 ∷ [])
    ∷ start (some two_connections)
    ∷ stop
    ∷ start none
    ∷ send_repeating_messages
    ∷ []

commands-Coherent_example :
    Coherent (handle_all no_hooks session (idle no_hooks (text "script") two_connections)).0
    × Distinct
        (batch_ids (handle_all no_hooks session (idle no_hooks (text "script") two_connections)).1)
commands-Coherent_example =
    commands-Coherent no_hooks session (text "script") two_connections (omega arith)
