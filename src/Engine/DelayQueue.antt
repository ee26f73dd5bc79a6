-- ===== src/Engine/DelayQueue.antt =====
-- crates/cycbox-engine/src/tasks/delay_queue_task.rs: the task that keeps messages until their time
-- has come, as a relation between its states. `Instant`s are nanoseconds of the monotonic clock.
pub mod Runs
pub mod Drain
use cycbox.Base.{
  ℕ, ◌+◌, ◌-◌, ◌*◌, ◌<◌, ◌≤◌, ◌≡◌, ◌⊎◌, List, [], ◌∷◌, ◌++◌, leb, map, if◌then◌else◌, All,
}
use cycbox.Message.{Message}

pub record ScheduledMessage : Type 0 where
  pub message : Message
  pub deadline : ℕ

-- `system` is the time since the epoch in nanoseconds; a timestamp is in microseconds. A timestamp
-- that has passed is due at once.
unfoldable pub from_message : ℕ → ℕ → Message → ScheduledMessage
from_message instant system m =
    let target = m.timestamp * 1000 in
    record {
      message = m;
      deadline = if leb system target then instant + (target - system) else instant;
    }

-- Taking an element out of the heap leaves the others.
pub data Pops : List ScheduledMessage → ScheduledMessage → List ScheduledMessage → Type 0 where
  here : {top : ScheduledMessage} {rest : List ScheduledMessage} → Pops (top ∷ rest) top rest
  there :
      {top other : ScheduledMessage} {queue rest : List ScheduledMessage}
      → Pops queue top rest
      → Pops (other ∷ queue) top (other ∷ rest)

-- What `peek` and `pop` give: an element with the least deadline. The heap is free in its choice
-- among equal ones.
abbrev pub IsTop : List ScheduledMessage → ScheduledMessage → List ScheduledMessage → Type 0
IsTop queue top rest = Pops queue top rest × All (λ other. top.deadline ≤ other.deadline) queue

-- Where the task stands: before its loop, about to look at the heap, in a `select!`, or it has
-- returned.
pub data Phase : Type 0 where
  starting checking waiting returned : Phase

-- The task, with what it has received, what it has handed to the engine, and when, and what was in
-- its heap when it returned.
pub record DelayQueueTask : Type 0 where
  pub queue : List ScheduledMessage
  pub now : ℕ
  pub received : List Message
  pub sent : List (Message × ℕ)
  pub dropped : List Message
  pub phase : Phase

-- Nothing is queued, or the top is not due.
abbrev pub NothingDue : DelayQueueTask → Type 0
NothingDue t =
    (t.queue ≡ [])
    ⊎ ((top : ScheduledMessage) × (rest : List ScheduledMessage) × IsTop t.queue top rest
        × (t.now < top.deadline))

-- The wall clock shows `epoch` more than the monotonic clock.
pub data Step (epoch : ℕ) : DelayQueueTask → DelayQueueTask → Type 0 where
  -- Time passes between any two steps of the loop.
  time_passes :
      {t : DelayQueueTask} {later : ℕ} → t.now ≤ later → Step epoch t (record t { now = later })
  -- The timer is created, or the task ends at once.
  starts : {t : DelayQueueTask} → t.phase ≡ starting → Step epoch t (record t { phase = checking })
  fails_to_start :
      {t : DelayQueueTask} → t.phase ≡ starting → Step epoch t (record t { phase = returned })
  sends :
      {t : DelayQueueTask} {top : ScheduledMessage} {rest : List ScheduledMessage}
      → t.phase ≡ checking
      → IsTop t.queue top rest
      → top.deadline ≤ t.now
      → Step epoch t (record t { queue = rest; sent = t.sent ++ (top.message, t.now) ∷ [] })
  waits :
      {t : DelayQueueTask}
      → t.phase ≡ checking
      → NothingDue t
      → Step epoch t (record t { phase = waiting })
  -- The delay is over or has failed.
  wakes : {t : DelayQueueTask} → t.phase ≡ waiting → Step epoch t (record t { phase = checking })
  receives :
      {t : DelayQueueTask} (m : Message)
      → t.phase ≡ waiting
      → Step epoch t (record t {
        queue = from_message t.now (epoch + t.now) m ∷ t.queue;
        received = t.received ++ m ∷ [];
        phase = checking;
      })
  -- The channel is closed or the task is cancelled. The heap goes with the task.
  returns :
      {t : DelayQueueTask}
      → t.phase ≡ waiting
      → Step epoch t
          (record t { queue = []; dropped = map (λ s. s.message) t.queue; phase = returned })

pub data Run (epoch : ℕ) : DelayQueueTask → DelayQueueTask → Type 0 where
  done : {t : DelayQueueTask} → Run epoch t t
  and_then : {s t u : DelayQueueTask} → Run epoch s t → Step epoch t u → Run epoch s u

-- The task at its start.
abbrev pub started : ℕ → DelayQueueTask
started now = record {
  queue = [];
  now = now;
  received = [];
  sent = [];
  dropped = [];
  phase = starting;
}
