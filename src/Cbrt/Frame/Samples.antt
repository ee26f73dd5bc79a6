-- ===== src/Cbrt/Frame/Samples.antt =====
-- crates/cbrt/src/parser.rs: the indices at which the samples of an accepted frame are read.
use native.Mathlib.Nat.{div-mul-le_self}
use cycbox.Base.{
  ℕ, ◌+◌, ◌*◌, ◌/◌, ◌<◌, ◌≤◌, ◌≡◌, ◌≢◌, ◌⊎◌, inl, inr, sym, ◌∙◌, List, some, true, false,
  Bool-cases, Option-cases, ◌==◌, arith,
}
use cycbox.Cbrt.Frame.{
  Frame, exact, datatype_of, compute_sample_count, bytes_per_datatype, bit_byte, sample_offset,
  parse_frame, go,
}
use cycbox.Cbrt.Frame.Bounds.{parse_frame-Sound}

-- Row `s` and column `c` of a table whose rows have `cols` entries of `w` bytes.
in_table :
    (rows cols w s c : ℕ) → s < rows → c < cols → s * (w * cols) + c * w + w ≤ rows * (cols * w)
in_table rows cols w s c hs hc = grind arith

packed_within :
    (len channels s ch : ℕ) → s < len * 8 / channels → ch < channels → (s * channels + ch) / 8 < len
packed_within len channels s ch hs hc =
    let cell : s * channels + ch + 1 ≤ len * 8 / channels * channels = grind arith in
    omega (arith, cell, div-mul-le_self (len * 8) channels)

-- Every sample that is read stands inside the payload.
abbrev pub ReadsWithin : Frame → ℕ → ℕ → Type 0
ReadsWithin f s ch =
    (((datatype_of f.flags == 0xE) ≡ true) × (bit_byte f.channels s ch < f.payload_len))
    ⊎ ((bps : ℕ) × (bytes_per_datatype (datatype_of f.flags) ≡ some bps)
        × (sample_offset bps f.channels s ch + bps ≤ f.payload_len))

count_packed :
    (len dt channels : ℕ)
    → channels ≢ 0
    → (dt == 0xE) ≡ true
    → compute_sample_count len dt channels ≡ len * 8 / channels
unfolding compute_sample_count
count_packed len dt channels some_ch packed =
    let busy : (channels == 0) ≡ false = ground arith in rw (busy, packed)

count_plain :
    (len dt channels bps : ℕ)
    → channels ≢ 0
    → (dt == 0xE) ≡ false
    → bytes_per_datatype dt ≡ some bps
    → compute_sample_count len dt channels ≡ len / (channels * bps)
unfolding compute_sample_count
count_plain len dt channels bps some_ch plain e =
    let busy : (channels == 0) ≡ false = ground arith in rw (busy, plain, e)

pub exact_typed :
    (len dt channels : ℕ)
    → (dt == 0xE) ≡ false
    → exact len dt channels ≡ true
    → (bps : ℕ) × (bytes_per_datatype dt ≡ some bps)
unfolding exact
exact_typed len dt channels plain whole = elim (Option-cases (bytes_per_datatype dt)) [
  | inl e ↦ absurd (refused (sym (rw (plain, e)) ∙ whole))
  | inr h ↦ h
]
  where
    refused : false ≡ true → ⊥
    refused k = cc k

exact-ReadsWithin :
    (f : Frame) (s ch : ℕ)
    → f.channels ≢ 0
    → exact f.payload_len (datatype_of f.flags) f.channels ≡ true
    → s < compute_sample_count f.payload_len (datatype_of f.flags) f.channels
    → ch < f.channels
    → ReadsWithin f s ch
unfolding bit_byte sample_offset
exact-ReadsWithin f s ch some_ch whole hs hc =
    let dt = datatype_of f.flags in
    elim (Bool-cases (dt == 0xE)) [
      | inl packed ↦
          let count = count_packed f.payload_len dt f.channels some_ch packed in
          inl (packed, packed_within f.payload_len f.channels s ch (omega (arith, hs, count)) hc)
      | inr plain ↦
          let (bps, e) = exact_typed f.payload_len dt f.channels plain whole in
          let count = count_plain f.payload_len dt f.channels bps some_ch plain e in
          let row = f.channels * bps in
          inr (
            bps,
            e,
            omega (
              arith,
              in_table (f.payload_len / row) f.channels bps s ch (omega (arith, hs, count)) hc,
              div-mul-le_self f.payload_len row,
            ),
          )
    ]

-- For every sample and channel of an accepted frame, the bytes that are read lie in the payload.
pub samples-ReadsWithin :
    (checksum : List ℕ → ℕ) (sync_pos : ℕ) (buf : List ℕ) (f : Frame) (s ch : ℕ)
    → parse_frame checksum sync_pos buf ≡ go f
    → s < compute_sample_count f.payload_len (datatype_of f.flags) f.channels
    → ch < f.channels
    → ReadsWithin f s ch
samples-ReadsWithin checksum sync_pos buf f s ch e hs hc =
    let (after, fits, within, some_ch, few, whole) = parse_frame-Sound checksum sync_pos buf f e in
    exact-ReadsWithin f s ch some_ch whole hs hc
