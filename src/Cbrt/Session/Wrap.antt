-- ===== src/Cbrt/Session/Wrap.antt =====
-- crates/cbrt/src/parser.rs: device timestamps of 32 bits are continued over their wraps.
use cycbox.Base.{
  ℕ, ◌+◌, ◌*◌, ◌/◌, ◌%◌, ◌^◌, ◌<◌, ◌≤◌, ◌≡◌, refl, ap₂, List, [], ◌∷◌, map, some, none,
  if◌then◌else◌, arith,
}
use cycbox.Cbrt.Session.{SessionState, wraps, full_ts, unwrap_ts, saturating_suc_u64}

-- The 64-bit timestamps of frames that carry the lower 32 bits of the device times `ts`.
unfoldable pub unwrap_all : {F : Type 0} → List ℕ → SessionState F → List ℕ
unfolding unwrap_ts
unwrap_all [] s = []
unwrap_all (t ∷ ts) s = let (full, s') = unwrap_ts (t % 2 ^ 32) s in full ∷ unwrap_all ts s'

-- Each time is at most 2 ^ 31 microseconds, almost 36 minutes, after the one before, and fits 64
-- bits.
abbrev pub Follows : ℕ → List ℕ → Type 0
Follows t [] = Unit
Follows t (t' ∷ ts) = (t ≤ t') × (t' < t + 2 ^ 31) × (t' < 2 ^ 64) × Follows t' ts

-- The state after a frame at the device time `t`, counted from `base` on.
abbrev Tracks : {F : Type 0} → ℕ → ℕ → SessionState F → Type 0
Tracks base t s = (s.last_ts_raw ≡ some (t % 2 ^ 32)) × (s.wrap_count + base ≡ t / 2 ^ 32)

wrap_count-next :
    (base t t' w : ℕ)
    → w + base ≡ t / 2 ^ 32
    → t ≤ t'
    → t' < t + 2 ^ 31
    → t' < 2 ^ 64
    → (if wraps (some (t % 2 ^ 32)) (t' % 2 ^ 32) then saturating_suc_u64 w else w) + base
      ≡ t' / 2 ^ 32
unfolding wraps
wrap_count-next base t t' w e lo hi fits = ground arith

full_ts-exact :
    (base t w : ℕ) → w + base ≡ t / 2 ^ 32 → t < 2 ^ 64 → full_ts w (t % 2 ^ 32) + base * 2 ^ 32 ≡ t
unfolding full_ts
full_ts-exact base t w e fits = omega arith

pub unwrap_next :
    {F : Type 0} (base t t' : ℕ) (s : SessionState F)
    → Tracks base t s
    → t ≤ t'
    → t' < t + 2 ^ 31
    → t' < 2 ^ 64
    → let (full, s') = unwrap_ts (t' % 2 ^ 32) s in (full + base * 2 ^ 32 ≡ t') × Tracks base t' s'
unfolding unwrap_ts
unwrap_next base t t' s (raw, e) lo hi fits =
    let next = wrap_count-next base t t' s.wrap_count e lo hi fits in
    rw raw (full_ts-exact base t' _ next fits, (refl, next))

unwrap_tracked :
    {F : Type 0} (base t : ℕ) (ts : List ℕ) (s : SessionState F)
    → Tracks base t s
    → Follows t ts
    → map (λ full. full + base * 2 ^ 32) (unwrap_all ts s) ≡ ts
unfolding unwrap_all
unwrap_tracked base t [] s h f = refl
unwrap_tracked base t (t' ∷ ts) s h (lo, hi, fits, f) =
    let (full, tracks) = unwrap_next base t t' s h lo hi fits in
    ap₂ ◌∷◌ full (unwrap_tracked base t' ts (unwrap_ts (t' % 2 ^ 32) s).1 tracks f)

-- In a state that has seen no timestamp and counted no wrap, for device times below 2 ^ 64 that
-- never go back and of which each is less than 2 ^ 31 after the one before: the timestamps of the
-- frames differ from the device times by one offset, a multiple of 2 ^ 32.
pub unwrap_all-exact :
    {F : Type 0} (t : ℕ) (ts : List ℕ) (s : SessionState F)
    → s.last_ts_raw ≡ none
    → s.wrap_count ≡ 0
    → t < 2 ^ 64
    → Follows t ts
    → map (λ full. full + t / 2 ^ 32 * 2 ^ 32) (unwrap_all (t ∷ ts) s) ≡ t ∷ ts
unfolding unwrap_all unwrap_ts wraps
unwrap_all-exact t ts s none_yet zero_yet fits f =
    rw (none_yet, zero_yet)
      (ap₂ ◌∷◌ (full_ts-exact (t / 2 ^ 32) t 0 (omega arith) fits)
        (unwrap_tracked (t / 2 ^ 32) t ts _ (refl, omega arith) f))
