-- ===== src/Cbrt/Timing.antt =====
-- crates/cbrt/src/parser.rs: when the samples of a frame were taken. The arithmetic of `f64` and
-- `f32` is a parameter; `F` is the type of `f64`, and an `f32` is its bit pattern.
use cycbox.Base.{ℕ, ◌-◌, max, Option, some, none, Bool, true, false, ltb, if◌then◌else◌}
use cycbox.Base.Int.{ℤ}
use cycbox.Cbrt.Session.{SessionState}

-- What the source uses of floating point numbers. Conversions with `as` saturate.
pub record Floats (F : Type 0) : Type 0 where
  pub as_f64 : ℕ → F
  pub plus : F → F → F
  pub minus : F → F → F
  pub times : F → F → F
  pub over : F → F → F
  pub min : F → F → F
  pub le : F → F → Bool
  pub gt : F → F → Bool
  pub is_finite : F → Bool
  pub round : F → F
  pub as_u64 : F → ℕ
  pub as_u32 : F → ℕ
  pub period_ema_alpha : F
  pub i32_as_f32 : ℤ → ℕ
  pub over_f32 : ℕ → ℕ → ℕ

pub record SampleTiming (F : Type 0) : Type 0 where
  pub anchor_us : ℕ
  pub period_us : Option F
  pub anchor_at_last : Bool
  pub sample_count : ℕ

module _ {F : Type 0} (floats : Floats F) where
  -- `SampleTiming::ts`: the time of sample `i`.
  unfoldable pub ts : SampleTiming F → ℕ → ℕ
  ts timing i = elim timing.period_us [
    | some p ↦
        let k =
          if timing.anchor_at_last
          then floats.minus (floats.as_f64 i)
              (floats.minus (floats.as_f64 (max timing.sample_count 1)) (floats.as_f64 1))
          else floats.as_f64 i in
        let t = floats.plus (floats.as_f64 timing.anchor_us) (floats.times k p) in
        if floats.le t (floats.as_f64 0) then 0 else floats.as_u64 (floats.round t)
    | none ↦ timing.anchor_us
  ]

  unfoldable pub smooth : Option F → F → F
  smooth none raw = raw
  smooth (some prev) raw =
      floats.plus (floats.times floats.period_ema_alpha raw)
        (floats.times (floats.minus (floats.as_f64 1) floats.period_ema_alpha) prev)

  -- The new estimate when `span` samples lie between the anchors.
  unfoldable pub measure : Option F → ℕ → ℕ → Option F
  unfolding smooth
  measure ema gap span =
      let raw = floats.over (floats.as_f64 gap) (floats.as_f64 span) in
      if ltb 0 span
      then if floats.is_finite raw
        then if floats.gt raw (floats.as_f64 0) then some (smooth ema raw) else ema
        else ema
      else ema

  -- The number of samples between the anchors of this frame and of the one before.
  unfoldable pub span_of : Bool → Option ℕ → ℕ → ℕ
  span_of false last_sample_count sample_count = sample_count
  span_of true none sample_count = 0
  span_of true (some last) sample_count = last

  unfoldable pub next_ema : Bool → ℕ → ℕ → SessionState F → Option F
  unfolding measure span_of
  next_ema has_ts anchor_us sample_count s = elim s.last_anchor_us [
    | some last_anchor ↦
        if ltb last_anchor anchor_us
        then measure s.period_ema_us (anchor_us - last_anchor)
            (span_of has_ts s.last_sample_count sample_count)
        else s.period_ema_us
    | none ↦ s.period_ema_us
  ]

  unfoldable pub infer_period : Bool → ℕ → ℕ → SessionState F → Option F × SessionState F
  unfolding next_ema
  infer_period has_ts anchor_us sample_count s =
      let ema = next_ema has_ts anchor_us sample_count s in
      (
        ema,
        record s {
          last_anchor_us = some anchor_us;
          last_sample_count = some sample_count;
          period_ema_us = ema;
        },
      )

  -- A period of 0 counts as none.
  unfoldable pub provided_period : Option ℕ → Option F
  provided_period none = none
  provided_period (some p) =
      if floats.gt (floats.as_f64 p) (floats.as_f64 0) then some (floats.as_f64 p) else none

  -- The period field wins, and the state stays as it is.
  unfoldable pub effective_period :
      Option ℕ → Bool → ℕ → ℕ → SessionState F → Option F × SessionState F
  unfolding provided_period infer_period
  effective_period period_us has_ts base sample_count s = elim (provided_period period_us) [
    | some p ↦ (some p, s)
    | none ↦ infer_period has_ts base sample_count s
  ]
