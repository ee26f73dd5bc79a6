-- ===== src/Cbrt/Session.antt =====
-- crates/cbrt/src/parser.rs: the session state, and what a frame does to its sequence numbers and
-- device timestamps. `F` is the type of `f64`.
pub mod Sequence
pub mod Wrap
pub mod Anchor
use mathlib.Core.Option
use cycbox.Base.{
  ℕ, ◌+◌, ◌-◌, ◌*◌, ◌%◌, ◌^◌, min, List, [], ◌∷◌, Option, some, none, Bool, true, false, ◌&&◌, ◌==◌,
  ltb, if◌then◌else◌,
}
use cycbox.Base.Int.{ℤ, pos, negsuc, pos_part, ◌+ℤ◌, ◌-ℤ◌, min_ℤ, leb_ℤ, signed}

pub record SessionProfile : Type 0 where
  pub flag_bits : ℕ
  pub datatype : ℕ
  pub channels : ℕ

pub record SessionState (F : Type 0) : Type 0 where
  pub profile : Option SessionProfile
  pub last_seq : Option ℕ
  pub last_ts_raw : Option ℕ
  pub wrap_count : ℕ
  pub frame_count : ℕ
  pub ts_anchor_us : Option ℤ
  pub last_anchor_us : Option ℕ
  pub last_sample_count : Option ℕ
  pub period_ema_us : Option F

pub data SeqEvent : Type 0 where
  duplicate : SeqEvent
  dropped : ℕ → SeqEvent

-- `SessionProfile == SessionProfile`.
unfoldable pub profile_eq : SessionProfile → SessionProfile → Bool
profile_eq p q = p.flag_bits == q.flag_bits && p.datatype == q.datatype && p.channels == q.channels

-- `wrapping_sub` on a byte, and the event that it stands for.
unfoldable pub seq_delta : ℕ → ℕ → ℕ
seq_delta cur last = (cur + 256 - last) % 256

unfoldable pub seq_event : Option ℕ → Option ℕ → Option SeqEvent
unfolding seq_delta
seq_event none last = none
seq_event (some cur) none = none
seq_event (some cur) (some last) =
    let delta = seq_delta cur last in
    if delta == 0 then some duplicate else if ltb 1 delta then some (dropped (delta - 1)) else none

-- `raw < prev && (prev - raw) > 0x8000_0000`.
unfoldable pub wraps : Option ℕ → ℕ → Bool
wraps none raw = false
wraps (some prev) raw = ltb raw prev && ltb 0x8000_0000 (prev - raw)

-- `saturating_add(1)` on a `u64`.
abbrev pub saturating_suc_u64 : ℕ → ℕ
saturating_suc_u64 n = min (n + 1) (2 ^ 64 - 1)

-- `(wrap_count << 32) | raw` on `u64`: the shift drops the upper bits.
unfoldable pub full_ts : ℕ → ℕ → ℕ
full_ts wrap_count raw = wrap_count * 2 ^ 32 % 2 ^ 64 + raw

-- `i64` with saturation at both ends.
unfoldable pub saturate_i64 : ℤ → ℤ
saturate_i64 (pos n) = pos (min n (2 ^ 63 - 1))
saturate_i64 (negsuc n) = negsuc (min n (2 ^ 63 - 1))

abbrev pub as_i64 : ℕ → ℤ
as_i64 n = signed (2 ^ 63) n

unfoldable pub anchor_of : Option ℤ → ℤ → ℤ
anchor_of none candidate = candidate
anchor_of (some prev) candidate = min_ℤ prev candidate

module _ {F : Type 0} where
  abbrev pub default_state : SessionState F
  default_state = record {
    profile = none;
    last_seq = none;
    last_ts_raw = none;
    wrap_count = 0;
    frame_count = 0;
    ts_anchor_us = none;
    last_anchor_us = none;
    last_sample_count = none;
    period_ema_us = none;
  }

  -- All fields are cleared, whatever they were.
  unfoldable pub reset : SessionState F → SessionState F
  reset s = record s {
    profile = none;
    last_seq = none;
    last_ts_raw = none;
    wrap_count = 0;
    frame_count = 0;
    ts_anchor_us = none;
    last_anchor_us = none;
    last_sample_count = none;
    period_ema_us = none;
  }

  unfoldable pub session_changed : SessionProfile → SessionState F → Bool
  unfolding profile_eq
  session_changed new_profile s = elim s.profile [
    | none ↦ true
    | some p ↦ if profile_eq p new_profile then false else true
  ]

  -- A frame with another profile starts a new session.
  unfoldable pub enter_profile : SessionProfile → SessionState F → SessionState F
  unfolding session_changed reset
  enter_profile new_profile s =
      if session_changed new_profile s then record (reset s) { profile = some new_profile } else s

  -- The device timestamp of a frame on 64 bits.
  unfoldable pub unwrap_ts : ℕ → SessionState F → ℕ × SessionState F
  unfolding wraps full_ts
  unwrap_ts raw s =
      let wrap_count =
        if wraps s.last_ts_raw raw then saturating_suc_u64 s.wrap_count else s.wrap_count in
      (full_ts wrap_count raw, record s { wrap_count = wrap_count; last_ts_raw = some raw })

  unfoldable pub note_seq : Option ℕ → SessionState F → Option SeqEvent × SessionState F
  unfolding seq_event
  note_seq seq s = (
    seq_event seq s.last_seq,
    elim seq [ some cur ↦ record s { last_seq = some cur } | none ↦ s ],
  )

  -- The host time of a frame that carries the device time `ts`, in microseconds.
  unfoldable pub anchored_us : ℕ → ℕ → SessionState F → ℕ × SessionState F
  unfolding anchor_of saturate_i64
  anchored_us arrival_us ts s =
      let candidate = saturate_i64 (as_i64 arrival_us -ℤ as_i64 ts) in
      let anchor = anchor_of s.ts_anchor_us candidate in
      (pos_part (saturate_i64 (as_i64 ts +ℤ anchor)), record s { ts_anchor_us = some anchor })

  -- Without a device timestamp the time base is the arrival.
  unfoldable pub base_us : ℕ → Option ℕ → SessionState F → ℕ × SessionState F
  unfolding anchored_us
  base_us arrival_us none s = (arrival_us, s)
  base_us arrival_us (some ts) s = anchored_us arrival_us ts s
