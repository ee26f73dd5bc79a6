-- ===== src/Cbrt/Frame/At.antt =====
-- crates/cbrt/src/parser.rs: reading the fields that stand at known places of the buffer.
use cycbox.Base.{
  ℕ, zero, suc, ◌+◌, ◌^◌, ◌<◌, ◌≡◌, refl, sym, ap, ◌∙◌, List, [], ◌∷◌, ◌++◌, Option, some, none,
  Bool, true, false, ltb, if◌then◌else◌, arith, length, take, drop, length-append, take-append_left,
  drop-append_left, drop_all,
}
use cycbox.Base.Words.{le_bytes, length-le_bytes, le_value-le_bytes}
use cycbox.Cbrt.Frame.{Parse, go, and_then, byte_at, word, optional}

-- From index `cur` on, the buffer is `tail`.
abbrev pub At : ℕ → List ℕ → List ℕ → Type 0
At cur buf tail = (drop cur buf ≡ tail) × (cur + length tail ≡ length buf)

drop-drop : {A : Type 0} (m n : ℕ) (xs : List A) → drop n (drop m xs) ≡ drop (m + n) xs
drop-drop zero n xs = ap (λ k. drop k xs) (omega arith)
drop-drop (suc m) n [] = drop_all n [] (omega arith) ∙ sym (drop_all (suc m + n) [] (omega arith))
drop-drop (suc m) n (x ∷ xs) =
    drop-drop m n xs ∙ ap (λ k. drop k (x ∷ xs)) {x = suc (m + n)} (omega arith)

pub At-next :
    (cur w : ℕ) (buf xs tail : List ℕ)
    → length xs ≡ w
    → At cur buf (xs ++ tail)
    → At (cur + w) buf tail
At-next cur w buf xs tail len (e, all) = (
  sym (drop-drop cur w buf) ∙ ap (drop w) e ∙ drop-append_left w xs tail len,
  omega (arith, length-append xs tail),
)

pub At-append : (pre tail : List ℕ) → At (length pre) (pre ++ tail) tail
At-append pre tail = (drop-append_left (length pre) pre tail refl, sym (length-append pre tail))

pub word-At :
    (cur w v : ℕ) (buf tail : List ℕ)
    → v < 256 ^ w
    → At cur buf (le_bytes w v ++ tail)
    → word w cur buf ≡ go (record { field = v; cur = cur + w })
unfolding word
word-At cur w v buf tail fits (e, all) =
    let enough : ltb (length buf) (cur + w) ≡ false =
      ground (arith, length-append (le_bytes w v) tail, length-le_bytes w v) in
    let bytes : take w (drop cur buf) ≡ le_bytes w v =
      ap (take w) e ∙ take-append_left w (le_bytes w v) tail (length-le_bytes w v) in
    rw (enough, bytes, le_value-le_bytes w v fits)

-- An optional field as bytes, and as the parser reads it.
abbrev pub field_bytes : Bool → ℕ → ℕ → List ℕ
field_bytes has w v = if has then le_bytes w v else []

abbrev pub field_of : Bool → ℕ → Option ℕ
field_of has v = if has then some v else none

pub optional-At :
    (has : Bool) (cur w v : ℕ) (buf tail : List ℕ)
    → v < 256 ^ w
    → At cur buf (field_bytes has w v ++ tail)
    → optional has w cur buf
      ≡ go (record { field = field_of has v; cur = cur + length (field_bytes has w v) })
unfolding optional and_then
optional-At false cur w v buf tail fits at =
    ap (λ c. go (record { field = none; cur = c })) (omega arith)
optional-At true cur w v buf tail fits at =
    rw (word-At cur w v buf tail fits at)
      (ap (λ n. go (record { field = some v; cur = cur + n })) (sym (length-le_bytes w v)))

pub byte_at-At : (i b : ℕ) (buf tail : List ℕ) → At i buf (b ∷ tail) → byte_at i buf ≡ b
unfolding byte_at
byte_at-At i b buf tail (e, all) = rw (e, byte_at)

pub and_then-go :
    {A B : Type 0} (a : Parse A) (x : A) (f : A → Parse B) → a ≡ go x → and_then a f ≡ f x
unfolding and_then
and_then-go a x f e = rw (e, and_then)
