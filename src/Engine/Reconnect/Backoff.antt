-- ===== src/Engine/Reconnect/Backoff.antt =====
-- crates/cycbox-engine/src/tasks/connection_task.rs: how long `start_connection` waits.
use cycbox.Base.{
  ℕ, zero, suc, ◌*◌, ◌^◌, ◌≤◌, ◌≡◌, refl, sym, ap, ◌∙◌, min, List, [], ◌∷◌, All, All-append, Bool,
  Bool-cases, if◌then◌else◌, inl, inr, true, false, arith,
}
use native.Mathlib.Nat.{pow-suc, mul_assoc, mul_comm}
use cycbox.Codec.{connection}
use cycbox.Base.Text.{Text}
use cycbox.Engine.Reconnect.{
  Attempt, codec_fails, transport_fails, transformer_fails, lives_and_is_lost,
  lives_until_cancelled, cancelled_while_waiting, Rounds, is_connection, max_backoff, first_round,
  wait, attempt, rounds,
}

abbrev pub InRange : ℕ → Type 0
InRange seconds = (1 ≤ seconds) × (seconds ≤ max_backoff)

record Paced (r : Rounds) : Type 0 where
  next : InRange r.backoff
  past : All InRange r.waits

wait-Paced : (r : Rounds) → Paced r → Paced (wait r)
unfolding wait
wait-Paced r p = elim (Bool-cases r.reconnecting) [
  | inl e ↦
      rw (e, wait)
        (record {
          next = (omega (arith, p.next.0), omega arith);
          past = All-append InRange r.waits (r.backoff ∷ []) p.past (p.next, tt);
        })
  | inr e ↦ rw (e, wait) (record { next = p.next; past = p.past })
]

-- n failures to connect in a row.
abbrev pub failures : ℕ → Text → List Attempt
failures zero e = []
failures (suc n) e = transport_fails (connection e) ∷ failures n e

attempt-Paced : (a : Attempt) (r : Rounds) → Paced r → Paced (attempt a r)
unfolding attempt
attempt-Paced (codec_fails e) r p = record { next = p.next; past = p.past }
attempt-Paced (transport_fails e) r p = elim (Bool-cases (is_connection e)) [
  | inl h ↦ rw (h, attempt) (record { next = p.next; past = p.past })
  | inr h ↦ rw (h, attempt) (record { next = p.next; past = p.past })
]
attempt-Paced (transformer_fails e) r p = record { next = p.next; past = p.past }
attempt-Paced lives_and_is_lost r p = record { next = (omega arith, omega arith); past = p.past }
attempt-Paced lives_until_cancelled r p = record {
  next = (omega arith, omega arith);
  past = p.past;
}
attempt-Paced cancelled_while_waiting r p = record { next = p.next; past = p.past }

if-Paced : (b : Bool) (r s : Rounds) → Paced r → Paced s → Paced (if b then r else s)
if-Paced true r s p q = p
if-Paced false r s p q = q

rounds-Paced : (attempts : List Attempt) (r : Rounds) → Paced r → Paced (rounds attempts r)
unfolding rounds
rounds-Paced [] r p = p
rounds-Paced (a ∷ more) r p =
    if-Paced r.ended r _ p (rounds-Paced more _ (attempt-Paced a (wait r) (wait-Paced r p)))

-- While the connection fails again and again, the wait doubles up to its limit.
failures-doubles :
    (n b : ℕ) (e : Text) (r : Rounds)
    → r.ended ≡ false
    → r.reconnecting ≡ true
    → r.backoff ≡ min b max_backoff
    → (rounds (failures n e) r).backoff ≡ min (b * 2 ^ n) max_backoff
unfolding rounds wait attempt
failures-doubles zero b e r live trying start = start ∙ ap (λ k. min k 10) {y = b * 1} (omega arith)
failures-doubles (suc n) b e r live trying start =
    rw (live, trying, rounds, wait, attempt)
      (failures-doubles n (b * 2) e _ refl refl (rw start (omega arith))
        ∙ ap (λ k. min k max_backoff)
            (mul_assoc b 2 (2 ^ n) ∙ ap (λ k. b * k) (mul_comm 2 (2 ^ n) ∙ sym (pow-suc 2 n))))

-- Every wait lasts between 1 and 10 seconds, whatever happens. While the task has not ended, the
-- wait that follows the loss of a connection and n failures to connect in a row is 2 ^ n seconds,
-- but at most 10.
pub rounds-Waits :
    (attempts : List Attempt) (n : ℕ) (e : Text) (r : Rounds)
    → r.ended ≡ false
    → All InRange (rounds attempts first_round).waits
      × ((rounds (failures n e) (attempt lives_and_is_lost r)).backoff ≡ min (2 ^ n) max_backoff)
unfolding attempt
rounds-Waits attempts n e r live = (
  (rounds-Paced attempts first_round
      (record { next = (omega arith, omega arith); past = tt })).past,
  failures-doubles n 1 e (attempt lives_and_is_lost r) live refl refl
      ∙ ap (λ k. min k max_backoff) {y = 2 ^ n} (omega arith),
)
