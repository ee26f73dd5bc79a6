-- ===== src/Cbrt/Rows/Bytes.antt =====
-- crates/cbrt/src/parser.rs: the bytes of a value are those of its sample.
use cycbox.Base.{
  ℕ, zero, suc, ◌+◌, ◌-◌, ◌*◌, ◌^◌, ◌<◌, ◌≤◌, ◌≡◌, refl, sym, ap, subst, ◌∙◌, List, [], ◌∷◌, Option,
  some, arith, length, take, drop, All, length-take, length-drop,
}
use cycbox.Base.Words.{IsByte, le_bytes, le_value, le_bytes-le_value, le_value-lt}
use cycbox.Base.Int.{signed, unsigned, unsigned-signed}
use cycbox.Base.Text.{Text}
use cycbox.Value.{Value}
use cycbox.Value.Builder.{
  ValueBuilder, int8, int16, int32, int64, uint8, uint16, uint32, uint64, float32, float64,
}
use cycbox.Cbrt.Frame.{byte_at, bytes_per_datatype, slice}
use cycbox.Cbrt.Timing.{Floats}
use cycbox.Cbrt.Rows.{sample_value, word_at}

All-take : (n : ℕ) (xs : List ℕ) → All IsByte xs → All IsByte (take n xs)
All-take zero xs h = tt
All-take (suc n) [] h = tt
All-take (suc n) (x ∷ xs) h = (h.0, All-take n xs h.1)

All-drop : (n : ℕ) (xs : List ℕ) → All IsByte xs → All IsByte (drop n xs)
All-drop zero xs h = h
All-drop (suc n) [] h = tt
All-drop (suc n) (x ∷ xs) h = All-drop n xs h.1

word_bytes :
    (n off : ℕ) (payload : List ℕ)
    → All IsByte payload
    → off + n ≤ length payload
    → (le_bytes n (word_at n off payload) ≡ slice off (off + n) payload)
      × (word_at n off payload < 256 ^ n)
word_bytes n off payload bytes h =
    let bs = take n (drop off payload) in
    let kept = All-take n (drop off payload) (All-drop off payload bytes) in
    let len : length bs ≡ n =
      omega (arith, length-take n (drop off payload), length-drop off payload) in
    (
      ap (λ k. le_bytes k (le_value bs)) (sym len)
          ∙ le_bytes-le_value bs kept
          ∙ ap (λ k. take k (drop off payload)) (omega arith),
      subst (λ k. le_value bs < 256 ^ k) len (le_value-lt bs kept),
    )

signed_bytes :
    (n half off : ℕ) (payload : List ℕ)
    → All IsByte payload
    → off + n ≤ length payload
    → 256 ^ n ≡ 2 * half
    → le_bytes n (unsigned half (signed half (word_at n off payload))) ≡ slice off (off + n) payload
signed_bytes n half off payload bytes h w =
    let (e, small) = word_bytes n off payload bytes h in
    ap (le_bytes n) (unsigned-signed half (word_at n off payload) (omega (arith, small, w))) ∙ e

byte_bytes :
    (off : ℕ) (payload : List ℕ)
    → All IsByte payload
    → off + 1 ≤ length payload
    → (byte_at off payload ∷ [] ≡ slice off (off + 1) payload) × (byte_at off payload < 256)
unfolding byte_at
byte_bytes off payload bytes h =
    let bs = drop off payload in
    let (e, small) =
      first bs (All-drop off payload bytes) (omega (arith, h, length-drop off payload)) in
    (e ∙ ap (λ k. take k bs) {x = 1} {y = off + 1 - off} (omega arith), small)
  where
    first :
        (bs : List ℕ)
        → All IsByte bs
        → 1 ≤ length bs
        → (byte_at 0 bs ∷ [] ≡ take 1 bs) × (byte_at 0 bs < 256)
    first [] k h = absurd (omega arith)
    first (b ∷ bs) k h = (refl, k.0)

signed_byte :
    (off : ℕ) (payload : List ℕ)
    → All IsByte payload
    → off + 1 ≤ length payload
    → unsigned (2 ^ 7) (signed (2 ^ 7) (byte_at off payload)) ∷ [] ≡ slice off (off + 1) payload
signed_byte off payload bytes h =
    let (e, small) = byte_bytes off payload bytes h in
    ap (λ x. x ∷ []) (unsigned-signed (2 ^ 7) (byte_at off payload) (omega (arith, small))) ∙ e

some_eq : {x y : ℕ} → some x ≡ some y → x ≡ y
some_eq p = cc p

-- The value is there, with the id and the bytes of the sample.
abbrev pub Carries : Option Value → Text → ℕ → ℕ → List ℕ → Type 0
Carries o id n off payload =
    (v : Value) × (o ≡ some v) × (v.id ≡ id) × (v.value_payload ≡ slice off (off + n) payload)

module _ {F : Type 0} (floats : Floats F) (now : ℕ) (b : ValueBuilder) where
  -- The value of a sample of the datatypes 0 to 9 has the bytes of the sample.
  pub sample_value-Carries :
      (dt bps off : ℕ) (payload : List ℕ)
      → dt < 10
      → bytes_per_datatype dt ≡ some bps
      → All IsByte payload
      → off + bps ≤ length payload
      → Carries (sample_value floats now b dt off payload) b.id bps off payload
  unfolding sample_value bytes_per_datatype uint8 int8 uint16 int16 uint32 int32 uint64 int64
      float32 float64
  sample_value-Carries zero bps off payload h e bytes fits =
      subst (λ n. Carries (sample_value floats now b 0 off payload) b.id n off payload) (some_eq e)
        (_, refl, refl, (byte_bytes off payload bytes (omega (arith, fits, some_eq e))).0)
  sample_value-Carries (suc zero) bps off payload h e bytes fits =
      subst (λ n. Carries (sample_value floats now b 1 off payload) b.id n off payload) (some_eq e)
        (_, refl, refl, signed_byte off payload bytes (omega (arith, fits, some_eq e)))
  sample_value-Carries (suc (suc zero)) bps off payload h e bytes fits =
      subst (λ n. Carries (sample_value floats now b 2 off payload) b.id n off payload) (some_eq e)
        (_, refl, refl, (word_bytes 2 off payload bytes (omega (arith, fits, some_eq e))).0)
  sample_value-Carries (suc (suc (suc zero))) bps off payload h e bytes fits =
      subst (λ n. Carries (sample_value floats now b 3 off payload) b.id n off payload) (some_eq e)
        (
          _,
          refl,
          refl,
          signed_bytes 2 (2 ^ 15) off payload bytes (omega (arith, fits, some_eq e)) refl,
        )
  sample_value-Carries (suc (suc (suc (suc zero)))) bps off payload h e bytes fits =
      subst (λ n. Carries (sample_value floats now b 4 off payload) b.id n off payload) (some_eq e)
        (_, refl, refl, (word_bytes 4 off payload bytes (omega (arith, fits, some_eq e))).0)
  sample_value-Carries (suc (suc (suc (suc (suc zero))))) bps off payload h e bytes fits =
      subst (λ n. Carries (sample_value floats now b 5 off payload) b.id n off payload) (some_eq e)
        (
          _,
          refl,
          refl,
          signed_bytes 4 (2 ^ 31) off payload bytes (omega (arith, fits, some_eq e)) refl,
        )
  sample_value-Carries (suc (suc (suc (suc (suc (suc zero)))))) bps off payload h e bytes fits =
      subst (λ n. Carries (sample_value floats now b 6 off payload) b.id n off payload) (some_eq e)
        (_, refl, refl, (word_bytes 8 off payload bytes (omega (arith, fits, some_eq e))).0)
  sample_value-Carries (suc (suc (suc (suc (suc (suc (suc zero))))))) bps off payload h e bytes
        fits =
      subst (λ n. Carries (sample_value floats now b 7 off payload) b.id n off payload) (some_eq e)
        (
          _,
          refl,
          refl,
          signed_bytes 8 (2 ^ 63) off payload bytes (omega (arith, fits, some_eq e)) refl,
        )
  sample_value-Carries (suc (suc (suc (suc (suc (suc (suc (suc zero)))))))) bps off payload h e
        bytes fits =
      subst (λ n. Carries (sample_value floats now b 8 off payload) b.id n off payload) (some_eq e)
        (_, refl, refl, (word_bytes 4 off payload bytes (omega (arith, fits, some_eq e))).0)
  sample_value-Carries (suc (suc (suc (suc (suc (suc (suc (suc (suc zero))))))))) bps off payload h
        e bytes fits =
      subst (λ n. Carries (sample_value floats now b 9 off payload) b.id n off payload) (some_eq e)
        (_, refl, refl, (word_bytes 8 off payload bytes (omega (arith, fits, some_eq e))).0)
  sample_value-Carries (suc (suc (suc (suc (suc (suc (suc (suc (suc (suc n)))))))))) bps off payload
        h e bytes fits =
      absurd (omega arith)
