-- ===== src/Cbrt/Session/Sequence.antt =====
-- crates/cbrt/src/parser.rs: how many frames a gap in the sequence numbers stands for.
use cycbox.Base.{ℕ, ◌+◌, ◌-◌, ◌%◌, ◌<◌, ◌≡◌, some, none, ◌==◌, if◌then◌else◌, arith}
use cycbox.Cbrt.Session.{duplicate, dropped, seq_delta, seq_event}

-- When `n` < 256 frames were lost between frame `k` and the next, fewer than 255 losses are counted
-- exactly, none gives no event, and 255 look like a duplicate.
pub seq_event-counts :
    (k n : ℕ)
    → n < 256
    → seq_event (some ((k + 1 + n) % 256)) (some (k % 256))
      ≡ (if n == 255 then some duplicate else if n == 0 then none else some (dropped n))
unfolding seq_event seq_delta
seq_event-counts k n h =
    let delta : ((k + 1 + n) % 256 + 256 - k % 256) % 256 ≡ (n + 1) % 256 = omega arith in
    rw delta (ground arith)
