-- ===== src/Engine/DelayQueue/Runs.antt =====
-- crates/cycbox-engine/src/tasks/delay_queue_task.rs: what holds after any run of the task.
use cycbox.Base.{
  ℕ, ◌+◌, ◌*◌, ◌≤◌, ◌≡◌, ◌≢◌, ◌⊎◌, inl, inr, sym, refl, ap, ◌∙◌, List, [], ◌∷◌, ◌++◌, map, Bool,
  true, if◌then◌else◌, All, All-append, arith,
}
use cycbox.Message.{Message}
use cycbox.Engine.DelayQueue.{
  ScheduledMessage, from_message, Pops, here, there, DelayQueueTask, Step, time_passes, sends,
  waits, wakes, receives, returns, starts, fails_to_start, starting, checking, waiting, returned,
  Run, done, and_then, started,
}

-- The deadline is not before the timestamp.
abbrev OnTime : ℕ → ScheduledMessage → Type 0
OnTime epoch s = s.message.timestamp * 1000 ≤ epoch + s.deadline

-- The message was sent at its timestamp or later.
abbrev pub SentOnTime : ℕ → Message × ℕ → Type 0
SentOnTime epoch (m, at) = m.timestamp * 1000 ≤ epoch + at

from_message-OnTime :
    (epoch now : ℕ) (m : Message) → OnTime epoch (from_message now (epoch + now) m)
unfolding from_message
from_message-OnTime epoch now m = ground arith

pub Pops-All :
    (P : ScheduledMessage → Type 0) (queue rest : List ScheduledMessage) (top : ScheduledMessage)
    → Pops queue top rest
    → All P queue
    → P top × All P rest
Pops-All P queue rest top here h = h
Pops-All P queue rest top (there p) h = let (a, b) = Pops-All P _ _ top p h.1 in (a, (h.0, b))

-- How many of the messages satisfy a test.
unfoldable pub count : (Message → Bool) → List Message → ℕ
count p [] = 0
count p (m ∷ ms) = (if p m then 1 else 0) + count p ms

count-append :
    (p : Message → Bool) (xs ys : List Message) → count p (xs ++ ys) ≡ count p xs + count p ys
unfolding count
count-append p [] ys = omega arith
count-append p (x ∷ xs) ys = omega (arith, count-append p xs ys)

abbrev pub queued : DelayQueueTask → List Message
queued t = map (λ s. s.message) t.queue

abbrev pub handed_over : DelayQueueTask → List Message
handed_over t = map (λ s. s.0) t.sent

pub Pops-count :
    (p : Message → Bool) (queue rest : List ScheduledMessage) (top : ScheduledMessage)
    → Pops queue top rest
    → count p (map (λ s. s.message) queue)
      ≡ (if p top.message then 1 else 0) + count p (map (λ s. s.message) rest)
unfolding count
Pops-count p queue rest top here = refl
Pops-count p queue rest top (there h) = omega (arith, Pops-count p _ _ top h)

-- Nothing has been dropped, or the task has returned and nothing is queued any more.
abbrev pub OnlyDropsAtEnd : DelayQueueTask → Type 0
OnlyDropsAtEnd t = (t.dropped ≡ []) ⊎ ((t.phase ≡ returned) × (t.queue ≡ []))

none_dropped : (t : DelayQueueTask) → t.phase ≢ returned → OnlyDropsAtEnd t → t.dropped ≡ []
none_dropped t h (inl e) = e
none_dropped t h (inr (p, e)) = absurd (h p)

starting≢returned : starting ≢ returned
starting≢returned e = cc

checking≢returned : checking ≢ returned
checking≢returned e = cc

waiting≢returned : waiting ≢ returned
waiting≢returned e = cc

-- What every step keeps.
record Kept (epoch : ℕ) (p : Message → Bool) (t : DelayQueueTask) : Type 0 where
  queue_on_time : All (OnTime epoch) t.queue
  sent_on_time : All (SentOnTime epoch) t.sent
  only_drops_at_end : OnlyDropsAtEnd t
  balance : count p t.received ≡ count p (handed_over t) + count p (queued t) + count p t.dropped

map-append :
    (xs ys : List (Message × ℕ))
    → map (λ s. s.0) (xs ++ ys) ≡ map (λ s. s.0) xs ++ map (λ s. s.0) ys
map-append [] ys = refl
map-append (x ∷ xs) ys = ap (◌∷◌ x.0) (map-append xs ys)

pub handed :
    (p : Message → Bool) (sent : List (Message × ℕ)) (m : Message) (at a b : ℕ)
    → a ≡ (if p m then 1 else 0) + b
    → count p (map (λ s. s.0) sent) + a ≡ count p (map (λ s. s.0) (sent ++ (m, at) ∷ [])) + b
unfolding count
handed p sent m at a b e = omega (
  arith,
  e,
  ap (count p) (map-append sent ((m, at) ∷ [])),
  count-append p (map (λ s. s.0) sent) (m ∷ []),
)

sent_late :
    (epoch deadline now due : ℕ) → due ≤ epoch + deadline → deadline ≤ now → due ≤ epoch + now
sent_late epoch deadline now due h k = omega (arith, h, k)

Step-Kept :
    (epoch : ℕ) (p : Message → Bool) (t u : DelayQueueTask)
    → Step epoch t u
    → Kept epoch p t
    → Kept epoch p u
unfolding count from_message
Step-Kept epoch p t u (time_passes h) k = record {
  queue_on_time = k.queue_on_time;
  sent_on_time = k.sent_on_time;
  only_drops_at_end = k.only_drops_at_end;
  balance = k.balance;
}
Step-Kept epoch p t u (starts h) k = record {
  queue_on_time = k.queue_on_time;
  sent_on_time = k.sent_on_time;
  only_drops_at_end = inl (none_dropped t (λ e. starting≢returned (sym h ∙ e)) k.only_drops_at_end);
  balance = k.balance;
}
Step-Kept epoch p t u (fails_to_start h) k = record {
  queue_on_time = k.queue_on_time;
  sent_on_time = k.sent_on_time;
  only_drops_at_end = inl (none_dropped t (λ e. starting≢returned (sym h ∙ e)) k.only_drops_at_end);
  balance = k.balance;
}
Step-Kept epoch p t u (waits h w) k = record {
  queue_on_time = k.queue_on_time;
  sent_on_time = k.sent_on_time;
  only_drops_at_end = inl (none_dropped t (λ e. checking≢returned (sym h ∙ e)) k.only_drops_at_end);
  balance = k.balance;
}
Step-Kept epoch p t u (wakes h) k = record {
  queue_on_time = k.queue_on_time;
  sent_on_time = k.sent_on_time;
  only_drops_at_end = inl (none_dropped t (λ e. waiting≢returned (sym h ∙ e)) k.only_drops_at_end);
  balance = k.balance;
}
Step-Kept epoch p t u (returns h) k = record {
  queue_on_time = tt;
  sent_on_time = k.sent_on_time;
  only_drops_at_end = inr (refl, refl);
  balance = omega (
    arith,
    k.balance,
    ap (count p) (none_dropped t (λ e. waiting≢returned (sym h ∙ e)) k.only_drops_at_end),
  );
}
Step-Kept epoch p t u (receives m h) k = record {
  queue_on_time = (from_message-OnTime epoch t.now m, k.queue_on_time);
  sent_on_time = k.sent_on_time;
  only_drops_at_end = inl (none_dropped t (λ e. waiting≢returned (sym h ∙ e)) k.only_drops_at_end);
  balance = omega (arith, k.balance, count-append p t.received (m ∷ []));
}
Step-Kept epoch p t u (sends {top = top} {rest = rest} h (pops, least) due) k = record {
  queue_on_time = (Pops-All (OnTime epoch) t.queue rest top pops k.queue_on_time).1;
  sent_on_time = All-append (SentOnTime epoch) t.sent ((top.message, t.now) ∷ []) k.sent_on_time (
    sent_late epoch top.deadline t.now _
        (Pops-All (OnTime epoch) t.queue rest top pops k.queue_on_time).0 due,
    tt,
  );
  only_drops_at_end = inl (none_dropped t (λ e. checking≢returned (sym h ∙ e)) k.only_drops_at_end);
  balance =
      k.balance
      ∙ ap (λ n. n + count p t.dropped)
          (handed p t.sent top.message t.now (count p (map (λ s. s.message) t.queue))
            (count p (map (λ s. s.message) rest)) (Pops-count p t.queue rest top pops));
}

Run-Kept :
    (epoch : ℕ) (p : Message → Bool) (t u : DelayQueueTask)
    → Run epoch t u
    → Kept epoch p t
    → Kept epoch p u
Run-Kept epoch p t u done k = k
Run-Kept epoch p t u (and_then run step) k = Step-Kept epoch p _ u step (Run-Kept epoch p t _ run k)

started-Kept : (epoch now : ℕ) (p : Message → Bool) → Kept epoch p (started now)
unfolding count
started-Kept epoch now p = record {
  queue_on_time = tt;
  sent_on_time = tt;
  only_drops_at_end = inl refl;
  balance = refl;
}

-- While the wall clock runs with the monotonic clock, no message is sent before its timestamp.
pub Run-SentOnTime :
    (epoch now : ℕ) (t : DelayQueueTask) → Run epoch (started now) t → All (SentOnTime epoch) t.sent
Run-SentOnTime epoch now t run =
    (Run-Kept epoch (λ m. true) (started now) t run
      (started-Kept epoch now (λ m. true))).sent_on_time

-- No message is duplicated or made up, and none is lost before the task returns: of the messages
-- with any property, as many have been received as have been sent, are still queued or were dropped
-- with the heap, and nothing has been dropped unless the task has returned.
pub Run-balances :
    (epoch now : ℕ) (p : Message → Bool) (t : DelayQueueTask)
    → Run epoch (started now) t
    → (count p t.received ≡ count p (handed_over t) + count p (queued t) + count p t.dropped)
      × OnlyDropsAtEnd t
Run-balances epoch now p t run =
    let kept = Run-Kept epoch p (started now) t run (started-Kept epoch now p) in
    (kept.balance, kept.only_drops_at_end)
