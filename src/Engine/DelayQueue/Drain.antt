-- ===== src/Engine/DelayQueue/Drain.antt =====
-- crates/cycbox-engine/src/tasks/delay_queue_task.rs: messages that are due are sent.
use native.Mathlib.Decide.{dec_le}
use cycbox.Base.{
  List-cases, ℕ, zero, suc, map, inl, inr, ◌+◌, ◌≤◌, ◌≡◌, refl, ap, sym, subst, ◌∙◌, Bool, List, [],
  ◌∷◌, ◌++◌, All, arith, length,
}
use cycbox.Message.{Message}
use cycbox.Engine.DelayQueue.{
  ScheduledMessage, Pops, here, there, IsTop, DelayQueueTask, checking, sends, Run, done, and_then,
}
use cycbox.Engine.DelayQueue.Runs.{Pops-All, Pops-count, count, handed_over, queued, handed}

abbrev Least : ℕ → List ScheduledMessage → Type 0
Least d = All (λ other. d ≤ other.deadline)

Least-trans : (a b : ℕ) (queue : List ScheduledMessage) → a ≤ b → Least b queue → Least a queue
Least-trans a b [] h k = tt
Least-trans a b (s ∷ queue) h k = (omega (arith, h, k.0), Least-trans a b queue h k.1)

-- A heap that is not empty has a top.
pub IsTop-exists :
    (s : ScheduledMessage) (queue : List ScheduledMessage)
    → (top : ScheduledMessage) × (rest : List ScheduledMessage) × IsTop (s ∷ queue) top rest
IsTop-exists s [] = (s, [], (here, (omega arith, tt)))
IsTop-exists s (x ∷ queue) =
    let (top, rest, (pops, least)) = IsTop-exists x queue in
    elim (dec_le s.deadline top.deadline) [
      | yes first ↦ (
        s,
        x ∷ queue,
        (here, (omega arith, Least-trans s.deadline top.deadline (x ∷ queue) first least)),
      )
      | no later ↦ (top, s ∷ rest, (there pops, (omega arith, least)))
    ]

Pops-length :
    (queue rest : List ScheduledMessage) (top : ScheduledMessage)
    → Pops queue top rest
    → length queue ≡ suc (length rest)
Pops-length queue rest top here = refl
Pops-length queue rest top (there p) = ap suc (Pops-length _ _ top p)

Run-trans : (epoch : ℕ) (s t u : DelayQueueTask) → Run epoch s t → Run epoch t u → Run epoch s u
Run-trans epoch s t u r done = r
Run-trans epoch s t u r (and_then r' step) = and_then (Run-trans epoch s t _ r r') step

-- A run that sends all that is queued.
abbrev pub Drains : ℕ → (Message → Bool) → DelayQueueTask → Type 0
Drains epoch p t =
    (u : DelayQueueTask) × Run epoch t u
    × (u.queue ≡ [])
    × (count p (handed_over u) ≡ count p (handed_over t) + count p (queued t))

drain :
    (n epoch : ℕ) (p : Message → Bool) (t : DelayQueueTask)
    → length t.queue ≡ n
    → t.phase ≡ checking
    → All (λ s. s.deadline ≤ t.now) t.queue
    → Drains epoch p t
unfolding count
drain zero epoch p t len phase due = elim (List-cases t.queue) [
  | inl e ↦ (t, done, e, omega (arith, ap (λ q. count p (map (λ s. s.message) q)) e))
  | inr (s, q, e) ↦ absurd (omega (arith, len, ap length e))
]
drain (suc n) epoch p t len phase due = elim (List-cases t.queue) [
  | inl e ↦ absurd (omega (arith, len, ap length e))
  | inr (s, q, e) ↦
      let (top, rest, is_top) = IsTop-exists s q in
      let at : IsTop t.queue top rest = subst (λ q. IsTop q top rest) (sym e) is_top in
      let (now_due, others_due) = Pops-All (λ s. s.deadline ≤ t.now) t.queue rest top at.0 due in
      let next : DelayQueueTask = record t {
        queue = rest;
        sent = t.sent ++ (top.message, t.now) ∷ [];
      } in
      let (u, run, empty, balance) =
        drain n epoch p next (omega (arith, len, Pops-length t.queue rest top at.0)) phase
          others_due in
      (
        u,
        Run-trans epoch t next u (and_then done (sends phase at now_due)) run,
        empty,
        balance
            ∙ sym (
                handed p t.sent top.message t.now (count p (queued t))
                  (count p (map (λ s. s.message) rest)) (Pops-count p t.queue rest top at.0)),
      )
]

-- When the loop looks at the heap and everything that is queued is due, it can send all of it: some
-- run leaves nothing queued, with what was queued added to what has been sent.
pub due-Drains :
    (epoch : ℕ) (p : Message → Bool) (t : DelayQueueTask)
    → t.phase ≡ checking
    → All (λ s. s.deadline ≤ t.now) t.queue
    → Drains epoch p t
due-Drains epoch p t phase due = drain (length t.queue) epoch p t refl phase due
