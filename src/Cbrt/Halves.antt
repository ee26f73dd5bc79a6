-- ===== src/Cbrt/Halves.antt =====
-- crates/cbrt/src/parser.rs: 16-bit floats widened to the bit pattern of an `f32`.
use cycbox.Base.{
  ℕ, zero, suc, ◌+◌, ◌-◌, ◌*◌, ◌/◌, ◌%◌, ◌^◌, ◌<◌, ◌≤◌, ◌≡◌, ◌≢◌, ◌∙◌, inl, inr, ap, sym, refl,
  true, false, Bool-cases, ◌==◌, if◌then◌else◌, arith,
}
use native.Mathlib.Nat.{pow-suc, mul_assoc, mul_comm, mul_right_comm}

-- `(bits as u32) << 16`.
unfoldable pub bf16_to_f32 : ℕ → ℕ
bf16_to_f32 bits = bits * 2 ^ 16

-- `(sign << 31) | (e_out << 23) | (m << 13)` with `m` below 2 ^ 10 and `e_out` below 2 ^ 8.
abbrev assemble : ℕ → ℕ → ℕ → ℕ
assemble sign e_out m = sign * 2 ^ 31 + e_out * 2 ^ 23 + m * 2 ^ 13

-- The loop shifts the mantissa of a subnormal number up to its leading bit. `e_out` is the source's
-- `e` + 127. A mantissa that is not 0 takes at most 10 steps.
unfoldable pub normalize : ℕ → ℕ → ℕ → ℕ × ℕ
normalize zero m e_out = (m, e_out)
normalize (suc fuel) m e_out =
    let next = normalize fuel (m * 2) (e_out - 1) in if m / 0x400 % 2 == 0 then next else (m, e_out)

unfoldable pub f16_to_f32 : ℕ → ℕ
unfolding normalize
f16_to_f32 bits =
    let sign = bits / 2 ^ 15 % 2 in
    let exp = bits / 2 ^ 10 % 0x20 in
    let mant = bits % 0x400 in
    if exp == 0
    then if mant == 0
      then sign * 2 ^ 31
      else (let (m, e_out) = normalize 10 mant (127 - 14) in assemble sign e_out (m % 0x400))
    else if exp == 0x1F
    then assemble sign 0xFF mant
    else assemble sign (exp + 127 - 15) mant

-- The number that a bit pattern stands for, without its sign, in units of 2 ^ -149.
abbrev pub magnitude_f16 : ℕ → ℕ
magnitude_f16 bits =
    if bits / 2 ^ 10 % 32 == 0
    then bits % 2 ^ 10 * 2 ^ 125
    else (2 ^ 10 + bits % 2 ^ 10) * 2 ^ (bits / 2 ^ 10 % 32 + 124)

abbrev pub magnitude_f32 : ℕ → ℕ
magnitude_f32 bits =
    if bits / 2 ^ 23 % 256 == 0
    then bits % 2 ^ 23
    else (2 ^ 23 + bits % 2 ^ 23) * 2 ^ (bits / 2 ^ 23 % 256 - 1)

pow_plus : (d k : ℕ) → 2 ^ (d + k) ≡ 2 ^ d * 2 ^ k
pow_plus zero k = ap (λ n. 2 ^ n) {x = 0 + k} {y = k} (omega arith) ∙ omega arith
pow_plus (suc d) k =
    ap (λ n. 2 ^ n) {y = suc (d + k)} (omega arith)
    ∙ pow-suc 2 (d + k)
    ∙ ap (λ n. n * 2) (pow_plus d k)
    ∙ mul_right_comm (2 ^ d) (2 ^ k) 2
    ∙ ap (λ n. n * 2 ^ k) (sym (pow-suc 2 d))

shift : (m k : ℕ) → m * 2 * 2 ^ k ≡ m * 2 ^ suc k
shift m k = mul_assoc m 2 (2 ^ k) ∙ ap (λ n. m * n) (mul_comm 2 (2 ^ k) ∙ sym (pow-suc 2 k))

shift_down : (m k : ℕ) → 0 < k → m * 2 * 2 ^ (k - 1) ≡ m * 2 ^ k
shift_down m k h = shift m (k - 1) ∙ ap (λ n. m * 2 ^ n) {x = suc (k - 1)} (omega arith)

normalize_lem :
    (fuel m e_out : ℕ)
    → m < 2048
    → 1024 ≤ m * 2 ^ fuel
    → fuel < e_out
    → let (m', e') = normalize fuel m e_out in
      (1024 ≤ m') × (m' < 2048) × (0 < e') × (e' ≤ e_out) × (m' * 2 ^ e' ≡ m * 2 ^ e_out)
unfolding normalize
normalize_lem zero m e_out h h' he = (omega arith, h, he, omega arith, refl)
normalize_lem (suc fuel) m e_out h h' he = elim (Bool-cases (m / 0x400 % 2 == 0)) [
  | inr done ↦ rw done (ground arith, h, omega arith, omega arith, refl)
  | inl low ↦
      let small : m < 1024 = ground arith in
      let (a, b, c, d, e) =
        normalize_lem fuel (m * 2) (e_out - 1) (omega arith) (omega (arith, shift m fuel))
          (omega arith) in
      rw low (a, b, c, omega (arith, d), e ∙ shift_down m e_out (omega arith))
]

assembled :
    (sign e_out m : ℕ)
    → sign < 2
    → 0 < e_out
    → e_out < 256
    → m < 1024
    → magnitude_f32 (assemble sign e_out m) ≡ (2 ^ 10 + m) * 2 ^ 13 * 2 ^ (e_out - 1)
assembled sign e_out m hs h0 he hm =
    let exp : assemble sign e_out m / 2 ^ 23 % 256 ≡ e_out = omega arith in
    let mant : assemble sign e_out m % 2 ^ 23 ≡ m * 2 ^ 13 = omega arith in
    let normal : (e_out == 0) ≡ false = ground arith in rw (exp, mant, normal) (grind arith)

f16_normal :
    (sign exp mant : ℕ)
    → sign < 2
    → 0 < exp
    → exp < 31
    → mant < 1024
    → magnitude_f32 (assemble sign (exp + 127 - 15) mant) ≡ (2 ^ 10 + mant) * 2 ^ (exp + 124)
f16_normal sign exp mant hs h0 he hm =
    assembled sign (exp + 127 - 15) mant hs (omega arith) (omega arith) hm
    ∙ mul_assoc (2 ^ 10 + mant) (2 ^ 13) (2 ^ (exp + 127 - 15 - 1))
    ∙ ap (λ n. (2 ^ 10 + mant) * n)
        (sym (pow_plus 13 (exp + 127 - 15 - 1)) ∙ ap (λ n. 2 ^ n) {y = exp + 124} (omega arith))

f16_subnormal :
    (sign mant : ℕ)
    → sign < 2
    → 0 < mant
    → mant < 1024
    → let (m, e_out) = normalize 10 mant (127 - 14) in
      magnitude_f32 (assemble sign e_out (m % 0x400)) ≡ mant * 2 ^ 125
f16_subnormal sign mant hs h0 hm =
    let (m, e_out) = normalize 10 mant (127 - 14) in
    let (a, b, c, d, e) = normalize_lem 10 mant 113 (omega arith) (omega arith) (omega arith) in
    assembled sign e_out (m % 0x400) hs c (omega (arith, d)) (omega arith)
    ∙ ap (λ n. n * 2 ^ 13 * 2 ^ (e_out - 1)) {y = m} (omega (arith, a, b))
    ∙ ap (λ n. n * 2 ^ (e_out - 1)) {x = m * 2 ^ 13} {y = m * 2 ^ 12 * 2} (omega arith)
    ∙ shift_down (m * 2 ^ 12) e_out c
    ∙ mul_right_comm m (2 ^ 12) (2 ^ e_out)
    ∙ ap (λ n. n * 2 ^ 12) e
    ∙ omega arith

sign_of : (sign e_out m : ℕ) → e_out < 256 → m < 1024 → assemble sign e_out m / 2 ^ 31 ≡ sign
sign_of sign e_out m he hm = omega arith

f16_zero : (sign : ℕ) → magnitude_f32 (sign * 2 ^ 31) ≡ 0
f16_zero sign =
    let exp : (sign * 2 ^ 31 / 2 ^ 23 % 256 == 0) ≡ true = ground arith in rw exp (omega arith)

-- A 16-bit float that is finite keeps its sign and stands for the same number as an `f32`, be it
-- zero, subnormal or normal.
pub f16_to_f32-magnitude :
    (bits : ℕ)
    → bits < 2 ^ 16
    → bits / 2 ^ 10 % 32 ≢ 31
    → (f16_to_f32 bits / 2 ^ 31 ≡ bits / 2 ^ 15)
      × (magnitude_f32 (f16_to_f32 bits) ≡ magnitude_f16 bits)
unfolding f16_to_f32
f16_to_f32-magnitude bits h finite =
    let sign = bits / 2 ^ 15 % 2 in
    let exp = bits / 2 ^ 10 % 0x20 in
    let mant = bits % 0x400 in
    let top : sign ≡ bits / 2 ^ 15 = omega arith in
    elim (Bool-cases (exp == 0)) [
      | inl low ↦ elim (Bool-cases (mant == 0)) [
        | inl nothing ↦ rw (low, nothing) (omega arith, f16_zero sign ∙ ground arith)
        | inr sub ↦
            let (a, b, c, d, e) =
              normalize_lem 10 mant 113 (omega arith) (ground arith) (omega arith) in
            rw (low, sub)
              (
                sign_of sign _ _ (omega (arith, d)) (omega arith) ∙ top,
                f16_subnormal sign mant (omega arith) (ground arith) (omega arith),
              )
      ]
      | inr high ↦
          let other : (exp == 0x1F) ≡ false = ground arith in
          rw (high, other)
            (
              sign_of sign _ _ (ground arith) (omega arith) ∙ top,
              f16_normal sign exp mant (omega arith) (ground arith) (ground arith) (omega arith),
            )
    ]
