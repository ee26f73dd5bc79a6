-- ===== src/Engine/ConnectionTask/Outbox.antt =====
-- crates/cycbox-engine/src/tasks/connection_task.rs: what holds of the outbox after every branch.
use mathlib.Core.List.{Sublistᴰ}
use mathlib.Core.List.Sublistᴰ.{refl as sublist_refl, trans, append}
use cycbox.Base.{
  ◌≤◌, ◌<◌, ◌≡◌, ◌⊎◌, refl, sym, ap, subst, inl, inr, List, [], ◌∷◌, ◌++◌, append_assoc, append-nil,
  Bool-cases, leb, ltb, ◌&&◌, not, length, List-cases, arith,
}
use cycbox.Base.{length-append}
use cycbox.Base.Text.{Text}
use cycbox.Message.{Message}
use cycbox.Codec.{
  CycBoxError, io, json, connection, discarded, parse, pending, invalid_value, invalid_format,
  missing_field, unsupported, lua, lua_function, other, Result, ok, err,
}
use cycbox.Engine.ConnectionTask.{
  error, retry_failed, send_failed, recv_failed, Task, DrainOutcome, idle, reconnect, call,
  max_outbox_len, make_room, warn_once, enqueue_outbox, drain_result, after_drain, send_result,
  recv_failure, drop_outbox,
}
use cycbox.Engine.ConnectionTask.Sublists.{sublist-append, nil_sublist, without, moved}

-- An error that is none of the three the loop tells apart.
record IsOther (T U E : Type 0) (e : CycBoxError) : Type 0 where
  drained :
      (m : Message) (t : Task T U E)
      → drain_result m (err e) t ≡ (call (error (retry_failed e)) t, idle)
  sent : (m : Message) (t : Task T U E) → send_result m (err e) t ≡ call (error (send_failed e)) t
  received : (t : Task T U E) → recv_failure e t ≡ call (error (recv_failed e)) t

Error-cases :
    (T U E : Type 0) (e : CycBoxError)
    → ((s : Text) × (e ≡ pending s))
      ⊎ ((s : Text) × (e ≡ discarded s))
      ⊎ ((s : Text) × (e ≡ connection s))
      ⊎ IsOther T U E e
unfolding drain_result send_result recv_failure
Error-cases T U E (pending s) = inl (s, refl)
Error-cases T U E (discarded s) = inr (inl (s, refl))
Error-cases T U E (connection s) = inr (inr (inl (s, refl)))
Error-cases T U E (io s) =
    inr (inr (inr (record { drained = λ m t. refl; sent = λ m t. refl; received = λ t. refl })))
Error-cases T U E (json s) =
    inr (inr (inr (record { drained = λ m t. refl; sent = λ m t. refl; received = λ t. refl })))
Error-cases T U E (parse s) =
    inr (inr (inr (record { drained = λ m t. refl; sent = λ m t. refl; received = λ t. refl })))
Error-cases T U E (invalid_value f s) =
    inr (inr (inr (record { drained = λ m t. refl; sent = λ m t. refl; received = λ t. refl })))
Error-cases T U E (invalid_format s) =
    inr (inr (inr (record { drained = λ m t. refl; sent = λ m t. refl; received = λ t. refl })))
Error-cases T U E (missing_field s) =
    inr (inr (inr (record { drained = λ m t. refl; sent = λ m t. refl; received = λ t. refl })))
Error-cases T U E (unsupported s) =
    inr (inr (inr (record { drained = λ m t. refl; sent = λ m t. refl; received = λ t. refl })))
Error-cases T U E (lua s) =
    inr (inr (inr (record { drained = λ m t. refl; sent = λ m t. refl; received = λ t. refl })))
Error-cases T U E (lua_function s) =
    inr (inr (inr (record { drained = λ m t. refl; sent = λ m t. refl; received = λ t. refl })))
Error-cases T U E (other s) =
    inr (inr (inr (record { drained = λ m t. refl; sent = λ m t. refl; received = λ t. refl })))

module _ {T U E : Type 0} where
  -- The messages that were accepted and behind them those in the outbox are some of `history` in
  -- its order, and the outbox has at most 64.
  pub record Kept (history : List Message) (t : Task T U E) : Type 0 where
    pub in_order : Sublistᴰ (t.accepted ++ t.pending_outbox) history
    pub bounded : length t.pending_outbox ≤ max_outbox_len

  pub Kept-append : (h k : List Message) (t : Task T U E) → Kept h t → Kept (h ++ k) t
  Kept-append h k t kept = record {
    in_order = sublist-append k kept.in_order;
    bounded = kept.bounded;
  }

  pub make_room_lem :
      (h : List Message) (t : Task T U E)
      → Kept h t
      → Kept h (make_room t) × (length (make_room t).pending_outbox < max_outbox_len)
  unfolding make_room
  make_room_lem h t kept = elim (Bool-cases (leb max_outbox_len (length t.pending_outbox))) [
    | inr roomy ↦ rw (roomy, make_room) (kept, ground arith)
    | inl full ↦ elim (List-cases t.pending_outbox) [
      | inl e ↦
          rw (full, e, make_room)
            (
              record {
                in_order = subst (λ l. Sublistᴰ (t.accepted ++ l) h) e kept.in_order;
                bounded = omega arith;
              },
              omega arith,
            )
      | inr (m, rest, e) ↦
          rw (full, e, make_room)
            (
              record {
                in_order =
                    without t.accepted m rest
                      (subst (λ l. Sublistᴰ (t.accepted ++ l) h) e kept.in_order);
                bounded = omega (arith, ap length e, kept.bounded);
              },
              omega (arith, ap length e, kept.bounded),
            )
    ]
  ]

  warn_once-Kept : (h : List Message) (t : Task T U E) → Kept h t → Kept h (warn_once t)
  unfolding warn_once
  warn_once-Kept h t kept =
      elim (Bool-cases (not t.outbox_warned && ltb 8 (length t.pending_outbox))) [
        | inl deep ↦
            rw (deep, warn_once) (record { in_order = kept.in_order; bounded = kept.bounded })
        | inr shallow ↦ rw (shallow, warn_once) kept
      ]

  pub enqueue_outbox-Kept :
      (h : List Message) (m : Message) (t : Task T U E)
      → Kept h t
      → Kept (h ++ m ∷ []) (enqueue_outbox m t)
  unfolding enqueue_outbox
  enqueue_outbox-Kept h m t kept =
      let (roomy, short) = make_room_lem h t kept in
      warn_once-Kept (h ++ m ∷ [])
        (record (make_room t) { pending_outbox = (make_room t).pending_outbox ++ m ∷ [] })
        (record {
          in_order =
              subst (λ l. Sublistᴰ l (h ++ m ∷ []))
                (append_assoc (make_room t).accepted (make_room t).pending_outbox (m ∷ []))
                (append roomy.in_order (sublist_refl (m ∷ [])));
          bounded = omega (arith, short, length-append (make_room t).pending_outbox (m ∷ []));
        })

  -- The message in hand stood in front of the outbox.
  pub drain_result-Kept :
      (h : List Message) (m : Message) (r : Result Message) (t : Task T U E)
      → Kept h (record t { pending_outbox = m ∷ t.pending_outbox })
      → Kept h (drain_result m r t).0
  unfolding drain_result
  drain_result-Kept h m (ok tx_msg) t kept = record {
    in_order = moved t.accepted m t.pending_outbox kept.in_order;
    bounded = omega (arith, kept.bounded);
  }
  drain_result-Kept h m (err e) t kept = elim (Error-cases T U E e) [
    | inl (s, p) ↦
        rw (p, drain_result) (record { in_order = kept.in_order; bounded = kept.bounded })
    | inr (inl (s, p)) ↦
        rw (p, drain_result)
          (record {
            in_order = without t.accepted m t.pending_outbox kept.in_order;
            bounded = omega (arith, kept.bounded);
          })
    | inr (inr (inl (s, p))) ↦
        rw (p, drain_result) (record { in_order = kept.in_order; bounded = kept.bounded })
    | inr (inr (inr o)) ↦ rw (o.drained m t) (record {
      in_order = without t.accepted m t.pending_outbox kept.in_order;
      bounded = omega (arith, kept.bounded);
    })
  ]

  pub after_drain-Kept :
      (h : List Message) (r : Task T U E × DrainOutcome) → Kept h r.0 → Kept h (after_drain r)
  unfolding after_drain
  after_drain-Kept h (t, idle) kept = kept
  after_drain-Kept h (t, reconnect) kept = record {
    in_order = kept.in_order;
    bounded = kept.bounded;
  }

  -- The outbox is empty and the message new.
  pub send_result-Kept :
      (h : List Message) (m : Message) (r : Result Message) (t : Task T U E)
      → t.pending_outbox ≡ []
      → Kept h t
      → Kept (h ++ m ∷ []) (send_result m r t)
  unfolding send_result
  send_result-Kept h m (ok tx_msg) t e kept = record {
    in_order = rw e (
        subst (λ l. Sublistᴰ l (h ++ m ∷ [])) (sym (append-nil (t.accepted ++ m ∷ [])))
          (append
            (subst (λ l. Sublistᴰ l h) (append-nil t.accepted)
              (subst (λ l. Sublistᴰ (t.accepted ++ l) h) e kept.in_order))
            (sublist_refl (m ∷ []))));
    bounded = kept.bounded;
  }
  send_result-Kept h m (err x) t e kept =
      let later = Kept-append h (m ∷ []) t kept in
      elim (Error-cases T U E x) [
        | inl (s, p) ↦ rw (p, send_result) (enqueue_outbox-Kept h m t kept)
        | inr (inl (s, p)) ↦
            rw (p, send_result) (record { in_order = later.in_order; bounded = later.bounded })
        | inr (inr (inl (s, p))) ↦
            rw (p, send_result) (record { in_order = later.in_order; bounded = later.bounded })
        | inr (inr (inr o)) ↦
            rw (o.sent m t) (record { in_order = later.in_order; bounded = later.bounded })
      ]

  pub recv_failure-Kept :
      (h : List Message) (e : CycBoxError) (t : Task T U E) → Kept h t → Kept h (recv_failure e t)
  unfolding recv_failure
  recv_failure-Kept h e t kept = elim (Error-cases T U E e) [
    | inl (s, p) ↦
        rw (p, recv_failure) (record { in_order = kept.in_order; bounded = kept.bounded })
    | inr (inl (s, p)) ↦
        rw (p, recv_failure) (record { in_order = kept.in_order; bounded = kept.bounded })
    | inr (inr (inl (s, p))) ↦
        rw (p, recv_failure) (record { in_order = kept.in_order; bounded = kept.bounded })
    | inr (inr (inr o)) ↦
        rw (o.received t) (record { in_order = kept.in_order; bounded = kept.bounded })
  ]

  pub drop_outbox-Kept : (h : List Message) (t : Task T U E) → Kept h t → Kept h (drop_outbox t)
  unfolding drop_outbox
  drop_outbox-Kept h t kept = elim (List-cases t.pending_outbox) [
    | inl e ↦ rw (e, drop_outbox) kept
    | inr (m, ms, e) ↦
        rw (e, drop_outbox)
          (record {
            in_order =
                trans (append (sublist_refl t.accepted) (nil_sublist t.pending_outbox))
                  kept.in_order;
            bounded = omega arith;
          })
  ]
