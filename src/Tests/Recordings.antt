-- ===== src/Tests/Recordings.antt =====
-- Runs of the CBRT parser of crates/cbrt/src/parser.rs.
use cycbox.Base.{
  ℕ, ◌≡◌, ◌≢◌, ◌+◌, ◌*◌, ◌/◌, ◌%◌, ◌^◌, ◌<◌, ◌≤◌, refl, List, [], ◌∷◌, ◌++◌, map, some, none, arith,
}
use cycbox.Base.Int.{ℤ, ◌≤ℤ◌, sub_ℕ}
use cycbox.Base.Words.{le_bytes}
use cycbox.Cbrt.Frame.{need_more, go, exact, bytes_per_datatype, compute_sample_count, parse_frame}
use cycbox.Cbrt.Frame.Written.{Written, Valid, frame_bytes, read_back, parse_frame-frame_bytes}
use cycbox.Cbrt.Frame.Bounds.{Sound, parse_frame-Sound}
use cycbox.Cbrt.Frame.Samples.{ReadsWithin, samples-ReadsWithin}
use cycbox.Cbrt.Session.{SessionState, default_state, seq_event, dropped, anchored_us}
use cycbox.Cbrt.Session.Sequence.{seq_event-counts}
use cycbox.Cbrt.Session.Wrap.{unwrap_all, unwrap_all-exact}
use cycbox.Cbrt.Session.Anchor.{NoLarger, anchored_us_lem}

abbrev pub seven : List ℕ → ℕ
seven bs = 7

-- Two samples of one channel of bytes, with a sequence number and a checksum.
abbrev pub small : Written
small = record {
  flags = 0b0011_0000;
  channels = 1;
  seq = 9;
  ts = 0;
  period = 0;
  payload = 5 ∷ 6 ∷ [];
}

pub small-Valid : Valid small
unfolding exact bytes_per_datatype
small-Valid = record {
  known = refl;
  some_channels = refl;
  seq_fits = omega arith;
  ts_fits = omega arith;
  period_fits = omega arith;
  payload_fits = omega arith;
  whole = refl;
}

abbrev small_bytes : List ℕ
small_bytes = 1 ∷ [] ++ (frame_bytes seven small ++ 2 ∷ [])

small_read : parse_frame seven 1 small_bytes ≡ go (read_back small 10 2)
unfolding le_bytes
small_read = parse_frame-frame_bytes seven small (1 ∷ []) (2 ∷ []) small-Valid (omega arith)

small_decided : parse_frame seven 1 small_bytes ≢ need_more
small_decided e = cc (small_read, e)

parse_frame-Sound_example : Sound 1 small_bytes (read_back small 10 2)
parse_frame-Sound_example = parse_frame-Sound seven 1 small_bytes (read_back small 10 2) small_read

one_sample : 1 < compute_sample_count 2 0 1
unfolding compute_sample_count bytes_per_datatype
one_sample = omega arith

samples-ReadsWithin_example : ReadsWithin (read_back small 10 2) 1 0
samples-ReadsWithin_example =
    samples-ReadsWithin seven 1 small_bytes (read_back small 10 2) 1 0 small_read one_sample
      (omega arith)

seq_event-counts_example :
    seq_event (some ((250 + 1 + 9) % 256)) (some (250 % 256)) ≡ some (dropped 9)
seq_event-counts_example = seq_event-counts 250 9 (omega arith)

-- `f64` is no part of these runs.
abbrev fresh : SessionState ℕ
fresh = default_state

unwrap_all-exact_example :
    map
      (λ full. full + 4_294_967_290 / 2 ^ 32 * 2 ^ 32)
      (unwrap_all (4_294_967_290 ∷ 4_294_967_300 ∷ []) fresh)
    ≡ 4_294_967_290 ∷ 4_294_967_300 ∷ []
unwrap_all-exact_example =
    unwrap_all-exact 4_294_967_290 (4_294_967_300 ∷ []) fresh refl refl (omega arith)
      (omega arith, omega arith, omega arith, tt)

anchored_us_lem_example :
    let (base, s') = anchored_us 1_000_000 400 fresh in
    (base ≤ 1_000_000)
    × ((anchor : ℤ) × (s'.ts_anchor_us ≡ some anchor)
        × (anchor ≤ℤ sub_ℕ 1_000_000 400)
        × NoLarger anchor none)
anchored_us_lem_example = anchored_us_lem 1_000_000 400 fresh (omega arith) (omega arith)
