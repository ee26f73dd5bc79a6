-- ===== src/Cbrt/Session/Anchor.antt =====
-- crates/cbrt/src/parser.rs: the host time of a frame with a device timestamp.
use cycbox.Base.{ℕ, ◌^◌, ◌<◌, ◌≤◌, ◌≡◌, refl, Option, some, none, arith}
use cycbox.Base.Int.{ℤ, pos, negsuc, pos_part, ◌≤ℤ◌, ◌+ℤ◌, ◌-ℤ◌, sub_ℕ}
use cycbox.Cbrt.Session.{SessionState, as_i64, saturate_i64, anchor_of, anchored_us}

as_i64-pos : (n : ℕ) → n < 2 ^ 63 → as_i64 n ≡ pos n
as_i64-pos n h = ground arith

not_later :
    (arrival ts : ℕ) (anchor : ℤ)
    → anchor ≤ℤ sub_ℕ arrival ts
    → arrival < 2 ^ 63
    → ts < 2 ^ 63
    → pos_part (saturate_i64 (pos ts +ℤ anchor)) ≤ arrival
unfolding saturate_i64
not_later arrival ts (pos n) h ha ht = ground arith
not_later arrival ts (negsuc n) h ha ht = ground arith

difference :
    (arrival ts : ℕ)
    → arrival < 2 ^ 63
    → ts < 2 ^ 63
    → saturate_i64 (as_i64 arrival -ℤ as_i64 ts) ≡ sub_ℕ arrival ts
unfolding saturate_i64
difference arrival ts ha ht = rw (as_i64-pos arrival ha, as_i64-pos ts ht) (ground arith)

-- The anchor before, if there was one, is no smaller.
abbrev pub NoLarger : ℤ → Option ℤ → Type 0
NoLarger a none = Unit
NoLarger a (some prev) = a ≤ℤ prev

anchor_of-least :
    (prev : Option ℤ) (candidate : ℤ)
    → (anchor_of prev candidate ≤ℤ candidate) × NoLarger (anchor_of prev candidate) prev
unfolding anchor_of
anchor_of-least none candidate = (omega arith, tt)
anchor_of-least (some prev) candidate = (ground arith, ground arith)

-- While arrival and device time are below 2 ^ 63, the host time of a frame with a device time is
-- never later than its arrival, and the new anchor is no larger than the one before or than the
-- difference between arrival and device time.
pub anchored_us_lem :
    {F : Type 0} (arrival_us ts : ℕ) (s : SessionState F)
    → arrival_us < 2 ^ 63
    → ts < 2 ^ 63
    → let (base, s') = anchored_us arrival_us ts s in
      (base ≤ arrival_us)
      × ((anchor : ℤ) × (s'.ts_anchor_us ≡ some anchor)
          × (anchor ≤ℤ sub_ℕ arrival_us ts)
          × NoLarger anchor s.ts_anchor_us)
unfolding anchored_us
anchored_us_lem arrival_us ts s ha ht =
    let (low, down) = anchor_of-least s.ts_anchor_us (sub_ℕ arrival_us ts) in
    let anchor = anchor_of s.ts_anchor_us (sub_ℕ arrival_us ts) in
    rw (difference arrival_us ts ha ht, as_i64-pos ts ht)
      (not_later arrival_us ts anchor low ha ht, (anchor, refl, low, down))
