-- ===== src/Engine/ConnectionTask/Order.antt =====
-- crates/cycbox-engine/src/tasks/connection_task.rs: what holds after any events.
use mathlib.Core.List.{Sublistᴰ}
use cycbox.Base.{
  ℕ, ◌≤◌, ◌≡◌, ◌⊎◌, refl, sym, ap, ◌∙◌, subst, inl, inr, List, [], ◌∷◌, ◌++◌, append_assoc,
  append-nil, Option, none, some, length, List-cases, arith,
}
use cycbox.Base.Text.{Text}
use cycbox.Message.{Message}
use cycbox.Codec.{Result, ok, err}
use cycbox.Formatter.Terminal.{Encodings}
use cycbox.Engine.Connection.{MessageTransport, Transformer, Connection, send, recv}
use cycbox.Engine.ConnectionTask.{
  Task, Status, connected, reconnecting, closed, DrainOutcome, receive_message, call,
  enqueue_outbox, after_drain, drain_outbox, drain, recv_result, queue_message, Event, cancels,
  receives, ticks, queues, commands, observes, step, run, established, max_outbox_len,
}
use cycbox.Engine.ConnectionTask.Sublists.{Holds, Holds-map, Holds-bind, map-Holds, bind-Holds}
use cycbox.Engine.ConnectionTask.Outbox.{
  Kept, Kept-append, enqueue_outbox-Kept, drain_result-Kept, after_drain-Kept, send_result-Kept,
  recv_failure-Kept, drop_outbox-Kept,
}

-- The messages to send among the events.
unfoldable pub queued : List (ℕ × Event) → List Message
queued [] = []
queued ((now, queues m) ∷ es) = m ∷ queued es
queued ((now, e) ∷ es) = queued es

queued_cons :
    (now : ℕ) (e : Event) (es : List (ℕ × Event))
    → queued ((now, e) ∷ es) ≡ queued ((now, e) ∷ []) ++ queued es
unfolding queued
queued_cons now cancels es = refl
queued_cons now receives es = refl
queued_cons now ticks es = refl
queued_cons now (queues m) es = refl
queued_cons now (commands m) es = refl
queued_cons now (observes timestamp bytes) es = refl

Status-cases : (s : Status) → (s ≡ connected) ⊎ (s ≡ reconnecting) ⊎ (s ≡ closed)
Status-cases connected = inl refl
Status-cases reconnecting = inr (inl refl)
Status-cases closed = inr (inr refl)

module _ {T U E : Type 0} (messages : MessageTransport T) (parts : Transformer U)
    (encodings : Encodings E) (lossy : List ℕ → Text) where
  drain-Kept :
      (now : ℕ) (h : List Message) (t : Task T U E)
      → Kept h t
      → Holds (Kept h) (drain messages parts encodings lossy now t)
  unfolding drain drain_outbox
  drain-Kept now h t kept = elim (List-cases t.pending_outbox) [
    | inl e ↦ rw (e, drain, drain_outbox) (after_drain-Kept h (t, DrainOutcome.idle) kept)
    | inr (m, rest, e) ↦
        rw (e, drain, drain_outbox)
          (Holds-map (λ r. Kept h r.0) (Kept h) after_drain _ (after_drain-Kept h)
            (map-Holds (λ r. Kept h r.0) _ (send messages parts encodings now t.held m)
              (λ r.
                drain_result-Kept h m r.1 (record t { held = r.0; pending_outbox = rest })
                  (record {
                    in_order = subst (λ l. Sublistᴰ (t.accepted ++ l) h) e kept.in_order;
                    bounded = subst (λ l. length l ≤ max_outbox_len) e kept.bounded;
                  }))))
  ]

  recv_result-Kept :
      (now : ℕ) (h : List Message) (r : Result (Option Message)) (t : Task T U E)
      → Kept h t
      → Holds (Kept h) (recv_result messages parts encodings lossy now r t)
  unfolding recv_result
  recv_result-Kept now h (ok (some m)) t kept =
      drain-Kept now h (call (receive_message m) t)
        (record { in_order = kept.in_order; bounded = kept.bounded })
  recv_result-Kept now h (ok none) t kept = record {
    in_order = kept.in_order;
    bounded = kept.bounded;
  }
  recv_result-Kept now h (err e) t kept = recv_failure-Kept h e t kept

  queue_message-Kept :
      (now : ℕ) (h : List Message) (m : Message) (t : Task T U E)
      → Kept h t
      → Holds (Kept (h ++ m ∷ [])) (queue_message messages parts encodings lossy now m t)
  unfolding queue_message
  queue_message-Kept now h m t kept = elim (List-cases t.pending_outbox) [
    | inl e ↦
        rw (e, queue_message)
          (map-Holds (Kept (h ++ m ∷ [])) _ (send messages parts encodings now t.held m) (λ r.
            send_result-Kept h m r.1 (record t { held = r.0 }) e
              (record { in_order = kept.in_order; bounded = kept.bounded })))
    | inr (x, xs, e) ↦
        rw (e, queue_message)
          (drain-Kept now (h ++ m ∷ []) (enqueue_outbox m t) (enqueue_outbox-Kept h m t kept))
  ]

  step-Kept :
      (now : ℕ) (h : List Message) (e : Event) (t : Task T U E)
      → Kept h t
      → Holds (Kept (h ++ queued ((now, e) ∷ []))) (step messages parts encodings lossy now e t)
  unfolding step queued
  step-Kept now h cancels t kept =
      rw (append-nil h) (record { in_order = kept.in_order; bounded = kept.bounded })
  step-Kept now h receives t kept = rw (append-nil h) (
      bind-Holds (Kept h) _ (recv messages parts encodings t.held) (λ r.
        recv_result-Kept now h r.1 (record t { held = r.0 })
          (record { in_order = kept.in_order; bounded = kept.bounded })))
  step-Kept now h (queues m) t kept = queue_message-Kept now h m t kept
  step-Kept now h ticks t kept = rw (append-nil h) (elim (List-cases t.pending_outbox) [
    | inl e ↦ rw (e, step) kept
    | inr (x, xs, e) ↦ rw (e, step) (drain-Kept now h t kept)
  ])
  step-Kept now h (commands m) t kept =
      rw (append-nil h) (record { in_order = kept.in_order; bounded = kept.bounded })
  step-Kept now h (observes timestamp bytes) t kept =
      rw (append-nil h) (record { in_order = kept.in_order; bounded = kept.bounded })

  run-Kept :
      (es : List (ℕ × Event)) (h : List Message) (t : Task T U E)
      → Kept h t
      → Holds (Kept (h ++ queued es)) (run messages parts encodings lossy es t)
  unfolding run queued
  run-Kept [] h t kept = rw (append-nil h) kept
  run-Kept ((now, e) ∷ es) h t kept = elim (Status-cases t.status) [
    | inl p ↦
        rw (p, run)
          (Holds-bind (Kept (h ++ queued ((now, e) ∷ []))) _ (run messages parts encodings lossy es)
            (step messages parts encodings lossy now e t)
            (λ u k.
              subst (λ l. Holds (Kept l) (run messages parts encodings lossy es u))
                (append_assoc h (queued ((now, e) ∷ [])) (queued es)
                  ∙ ap (◌++◌ h) (sym (queued_cons now e es)))
                (run-Kept es (h ++ queued ((now, e) ∷ [])) u k))
            (step-Kept now h e t kept))
    | inr (inl p) ↦ rw (p, run) (Kept-append h _ _ (drop_outbox-Kept h t kept))
    | inr (inr p) ↦ rw (p, run) (Kept-append h _ t kept)
  ]

  -- After any events, however the connection answers, the messages that it has accepted and then
  -- those in the outbox are some of the messages to send, each at most once and in their order. The
  -- outbox never holds more than 64.
  pub run-InOrder :
      (es : List (ℕ × Event)) (c : Connection T U E) (t : Task T U E)
      → run messages parts encodings lossy es (established c) ≡ some t
      → Sublistᴰ (t.accepted ++ t.pending_outbox) (queued es)
        × (length t.pending_outbox ≤ max_outbox_len)
  run-InOrder es c t e =
      let kept : Kept (queued es) t = subst (Holds (Kept (queued es))) e (
        run-Kept es [] (established c)
          (record { in_order = Sublistᴰ.slnil; bounded = omega arith })) in
      (kept.in_order, kept.bounded)
