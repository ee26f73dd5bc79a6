-- ===== src/Value/Shape.antt =====
-- crates/cycbox-sdk/src/message/value.rs: which payloads the array readers accept.
use native.Mathlib.Nat.{div-add-mod}
use cycbox.Base.{
  ℕ, zero, suc, ◌*◌, ◌%◌, ◌/◌, ◌≤◌, ◌<◌, ◌≡◌, ◌≢◌, ◌⊎◌, inl, inr, refl, sym, ap, ap₂, ◌∙◌, true,
  List, true, [], ◌∷◌, ◌++◌, map, Option, some, none, arith, leb, ◌==◌, Bool-cases, length, take,
  drop, All, length-drop, length-take, take-append-drop,
}
use cycbox.Base.Words.{IsByte, le_bytes, le_value, le_bytes-le_value}
use cycbox.Value.{Value, chunks_exact, read_le_array, as_u16_array, as_u32_array, as_u64_array}
use cycbox.Value.Builder.{ValueBuilder, extend_le, uint16_array, uint32_array, uint64_array}

All-take {ℓ κ} : {A : Type ℓ} (P : A → Type κ) (n : ℕ) (xs : List A) → All P xs → All P (take n xs)
All-take P zero xs h = tt
All-take P (suc n) [] h = tt
All-take P (suc n) (x ∷ xs) h = (h.0, All-take P n xs h.1)

All-drop {ℓ κ} : {A : Type ℓ} (P : A → Type κ) (n : ℕ) (xs : List A) → All P xs → All P (drop n xs)
All-drop P zero xs h = h
All-drop P (suc n) [] h = tt
All-drop P (suc n) (x ∷ xs) h = All-drop P n xs h.1

first_chunk :
    (n : ℕ) (bs : List ℕ)
    → n ≤ length bs
    → All IsByte bs
    → le_bytes n (le_value (take n bs)) ≡ take n bs
first_chunk n bs h all =
    let len : length (take n bs) ≡ n = omega (arith, length-take n bs) in
    ap (λ k. le_bytes k (le_value (take n bs))) (sym len)
    ∙ le_bytes-le_value (take n bs) (All-take IsByte n bs all)

extend_le-chunks :
    (fuel n k : ℕ) (bs : List ℕ)
    → 0 < n
    → k ≤ fuel
    → length bs ≡ n * k
    → All IsByte bs
    → extend_le n (map le_value (chunks_exact fuel n bs)) ≡ bs
unfolding chunks_exact extend_le
extend_le-chunks zero n k [] hn hk e all = refl
extend_le-chunks zero n k (b ∷ bs) hn hk e all = absurd (grind arith)
extend_le-chunks (suc fuel) n zero [] hn hk e all = ground arith
extend_le-chunks (suc fuel) n zero (b ∷ bs) hn hk e all = absurd (omega arith)
extend_le-chunks (suc fuel) n (suc k) bs hn hk e all =
    let fits : n ≤ length bs = omega (arith, e) in
    let rest : length (drop n bs) ≡ n * k = omega (arith, length-drop n bs) in
    let later =
      extend_le-chunks fuel n k (drop n bs) hn (omega arith) rest (All-drop IsByte n bs all) in
    let full : leb n (length bs) ≡ true = ground arith in
    rw full (ap₂ ◌++◌ (first_chunk n bs fits all) later ∙ take-append-drop n bs)

-- Either the length is no multiple of the width, or the reader gives a list which the builder turns
-- back into the very same bytes.
abbrev pub Reads : ℕ → List ℕ → Option (List ℕ) → (List ℕ → Value) → Type 0
Reads n bs r build =
    ((length bs % n ≢ 0) × (r ≡ none))
    ⊎ ((vs : List ℕ) × (r ≡ some vs) × ((build vs).value_payload ≡ bs))

read_le_array_cases :
    (n : ℕ) (bs : List ℕ)
    → 0 < n
    → All IsByte bs
    → ((length bs % n ≢ 0) × (read_le_array n bs ≡ none))
      ⊎ ((vs : List ℕ) × (read_le_array n bs ≡ some vs) × (extend_le n vs ≡ bs))
unfolding read_le_array
read_le_array_cases n bs hn all = elim (Bool-cases (length bs % n == 0)) [
  | inl whole ↦
      let zero_rest : length bs % n ≡ 0 = ground arith in
      let count : length bs ≡ n * (length bs / n) = omega (arith, div-add-mod (length bs) n) in
      inr (
        map le_value (chunks_exact (length bs) n bs),
        rw whole,
        extend_le-chunks (length bs) n (length bs / n) bs hn (grind arith) count all,
      )
  | inr partial ↦ inl (ground arith, rw partial)
]

-- On a payload of bytes, the readers of unsigned arrays of 16, 32 and 64 bits refuse exactly the
-- lengths that are no multiple of the width, and otherwise read a list that the builder turns back
-- into the same bytes.
pub uint_arrays_exact :
    (now : ℕ) (b : ValueBuilder) (v : Value)
    → All IsByte v.value_payload
    → Reads 2 v.value_payload (as_u16_array v) (uint16_array now b)
      × Reads 4 v.value_payload (as_u32_array v) (uint32_array now b)
      × Reads 8 v.value_payload (as_u64_array v) (uint64_array now b)
unfolding as_u16_array as_u32_array as_u64_array uint16_array uint32_array uint64_array
uint_arrays_exact now b v all = (
  read_le_array_cases 2 v.value_payload (omega arith) all,
  read_le_array_cases 4 v.value_payload (omega arith) all,
  read_le_array_cases 8 v.value_payload (omega arith) all,
)
