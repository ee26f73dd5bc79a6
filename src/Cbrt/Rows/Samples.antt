-- ===== src/Cbrt/Rows/Samples.antt =====
-- crates/cbrt/src/parser.rs: which values a payload becomes, and in which order.
use cycbox.Base.{
  ℕ, zero, suc, ◌+◌, ◌*◌, ◌<◌, ◌≤◌, ◌≡◌, refl, sym, ap, subst, ◌∙◌, inl, inr, List, [], ◌∷◌, ◌++◌,
  Option, some, none, false, true, ◌==◌, Bool-cases, arith, length, All, length-append,
}
use cycbox.Base.Words.{IsByte}
use cycbox.Value.{Value}
use cycbox.Value.Builder.{ValueBuilder, builder, with_timestamp}
use cycbox.Cbrt.Frame.{exact, bytes_per_datatype, sample_offset}
use cycbox.Cbrt.Frame.Samples.{exact_typed}
use cycbox.Cbrt.Timing.{Floats, SampleTiming}
use cycbox.Cbrt.Rows.Bytes.{Carries, sample_value-Carries}
use cycbox.Cbrt.Rows.{channel_id, for_range, sample_value, channel, pushed, materialize_values}

abbrev pub nth : {A : Type 0} → ℕ → List A → Option A
nth n [] = none
nth zero (x ∷ xs) = some x
nth (suc n) (x ∷ xs) = nth n xs

nth-append_left :
    {A : Type 0} (n : ℕ) (xs ys : List A) → n < length xs → nth n (xs ++ ys) ≡ nth n xs
nth-append_left n [] ys h = absurd (omega arith)
nth-append_left zero (x ∷ xs) ys h = refl
nth-append_left (suc n) (x ∷ xs) ys h = nth-append_left n xs ys (omega arith)

nth-append_right : {A : Type 0} (n : ℕ) (xs ys : List A) → nth (length xs + n) (xs ++ ys) ≡ nth n ys
nth-append_right n [] ys = ap (λ k. nth k ys) {x = 0 + n} {y = n} (omega arith)
nth-append_right n (x ∷ xs) ys =
    ap (λ k. nth k (x ∷ (xs ++ ys))) {x = suc (length xs) + n} {y = suc (length xs + n)}
      (omega arith)
    ∙ nth-append_right n xs ys

length-for_range :
    {A : Type 0} (from n k : ℕ) (f : ℕ → List A)
    → ((i : ℕ) → length (f i) ≡ k)
    → length (for_range from n f) ≡ n * k
unfolding for_range
length-for_range from zero k f h = omega arith
length-for_range from (suc n) k f h = grind (
  arith,
  length-append (f from) (for_range (from + 1) n f),
  h from,
  length-for_range (from + 1) n k f h,
)

nth-for_range :
    {A : Type 0} (from n k s j : ℕ) (f : ℕ → List A)
    → ((i : ℕ) → length (f i) ≡ k)
    → s < n
    → j < k
    → nth (s * k + j) (for_range from n f) ≡ nth j (f (from + s))
unfolding for_range
nth-for_range from zero k s j f h hs hj = absurd (omega arith)
nth-for_range from (suc n) k zero j f h hs hj =
    ap (λ i. nth i (f from ++ for_range (from + 1) n f)) {x = 0 * k + j} {y = j} (omega arith)
    ∙ nth-append_left j (f from) (for_range (from + 1) n f) (omega (arith, h from))
    ∙ ap (λ i. nth j (f i)) {x = from} {y = from + 0} (omega arith)
nth-for_range from (suc n) k (suc s) j f h hs hj =
    ap (λ i. nth i (f from ++ for_range (from + 1) n f)) {y = length (f from) + (s * k + j)}
      (grind (arith, h from))
    ∙ nth-append_right (s * k + j) (f from) (for_range (from + 1) n f)
    ∙ nth-for_range (from + 1) n k s j f h (omega arith) hj
    ∙ ap (λ i. nth j (f i)) {x = from + 1 + s} {y = from + suc s} (omega arith)

module _ {F : Type 0} (floats : Floats F) (now : ℕ) where
  pushed-length :
      (b : ValueBuilder) (dt bps off : ℕ) (payload : List ℕ)
      → bytes_per_datatype dt ≡ some bps
      → length (pushed floats (sample_value floats now b dt off payload)) ≡ 1
  unfolding sample_value bytes_per_datatype
  pushed-length b dt bps off payload h = ground arith

  row-length :
      (dt bps channels s : ℕ) (payload : List ℕ) (timing : SampleTiming F)
      → bytes_per_datatype dt ≡ some bps
      → length (
          for_range 0 channels (λ ch. pushed floats (
            sample_value floats now
              (channel floats timing s ch)
              dt
              (sample_offset bps channels s ch)
              payload)))
        ≡ channels
  row-length dt bps channels s payload timing e =
      length-for_range 0 channels 1 _
        (λ ch. pushed-length (channel floats timing s ch) dt bps _ payload e)
      ∙ omega arith

  -- A payload of whole samples becomes one value for every sample of every channel.
  pub length-materialize_values :
      (len dt channels : ℕ) (payload : List ℕ) (timing : SampleTiming F)
      → exact len dt channels ≡ true
      → length (materialize_values floats now dt channels payload timing)
        ≡ timing.sample_count * channels
  unfolding materialize_values
  length-materialize_values len dt channels payload timing whole = elim (Bool-cases (dt == 0xE)) [
    | inl packed ↦ rw packed (
        length-for_range 0 timing.sample_count channels _
          (λ s. length-for_range 0 channels 1 _ (λ ch. refl) ∙ omega arith))
    | inr plain ↦
        let (bps, e) = exact_typed len dt channels plain whole in
        rw (plain, e)
          (length-for_range 0 timing.sample_count channels _
            (λ s. row-length dt bps channels s payload timing e))
  ]

  nth-pushed :
      (o : Option Value) (k : ℕ)
      → length (pushed floats o) ≡ k
      → k ≡ 1
      → nth 0 (pushed floats o) ≡ o
  nth-pushed none k h e = absurd (omega (arith, h, e))
  nth-pushed (some v) k h e = refl

  at :
      (dt bps channels s ch : ℕ) (payload : List ℕ) (timing : SampleTiming F)
      → dt < 10
      → bytes_per_datatype dt ≡ some bps
      → s < timing.sample_count
      → ch < channels
      → nth (s * channels + ch) (materialize_values floats now dt channels payload timing)
        ≡ sample_value floats now
            (channel floats timing s ch)
            dt
            (sample_offset bps channels s ch)
            payload
  unfolding materialize_values
  at dt bps channels s ch payload timing h e hs hc =
      let plain : (dt == 0xE) ≡ false = ground arith in
      let cell : ℕ → ℕ → List Value = λ s ch. pushed floats (
        sample_value floats now (channel floats timing s ch) dt (sample_offset bps channels s ch)
          payload) in
      let row : ℕ → List Value = λ s. for_range 0 channels (cell s) in
      let one : (s ch : ℕ) → length (cell s ch) ≡ 1 =
        λ s ch. pushed-length (channel floats timing s ch) dt bps _ payload e in
      rw (plain, e)
        (nth-for_range 0 timing.sample_count channels s ch row
            (λ s. row-length dt bps channels s payload timing e) hs hc
          ∙ ap (λ i. nth ch (row i)) {x = 0 + s} {y = s} (omega arith)
          ∙ ap (λ i. nth i (row s)) {x = ch} {y = ch * 1 + 0} (omega arith)
          ∙ nth-for_range 0 channels 1 ch 0 (cell s) (one s) hc (omega arith)
          ∙ ap (λ i. nth 0 (cell s i)) {x = 0 + ch} {y = ch} (omega arith)
          ∙ nth-pushed _ 1 (one s ch) refl)

  -- Of an integer or IEEE datatype (0 to 9), the value at row `s` and column `ch` has the id of the
  -- channel and the bytes that the payload has at that row and column, as
  -- long as these are bytes within the payload.
  pub materialize_values-Carries :
      (dt bps channels s ch : ℕ) (payload : List ℕ) (timing : SampleTiming F)
      → dt < 10
      → bytes_per_datatype dt ≡ some bps
      → s < timing.sample_count
      → ch < channels
      → All IsByte payload
      → sample_offset bps channels s ch + bps ≤ length payload
      → Carries
          (nth (s * channels + ch) (materialize_values floats now dt channels payload timing))
          (channel_id ch)
          bps
          (sample_offset bps channels s ch)
          payload
  unfolding channel_id with_timestamp builder
  materialize_values-Carries dt bps channels s ch payload timing h e hs hc bytes fits =
      let off = sample_offset bps channels s ch in
      subst (λ o. Carries o (channel_id ch) bps off payload)
        (sym (at dt bps channels s ch payload timing h e hs hc))
        (sample_value-Carries floats now (channel floats timing s ch) dt bps off payload h e bytes
          fits)
