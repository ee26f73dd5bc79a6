-- ===== src/Codec/Slip/Escape.antt =====
-- crates/cycbox-runtime/src/codec/slip.rs: escaping and its inverse.
use cycbox.Base.{
  ℕ, ◌*◌, ◌≤◌, ◌≡◌, ◌≢◌, ◌⊎◌, inl, inr, ◌↔◌, refl, sym, ap, ◌∙◌, List, [], ◌∷◌, ◌++◌, append-nil,
  append_assoc, arith, length, Avoids,
}
use native.Mathlib.Decide.{ℕ_discrete}
use cycbox.Codec.{ok}
use cycbox.Codec.Slip.{esc, esc_end, esc_esc, escape, decode_slip_loop, decode_slip, end_byte}

pub escape-Avoids : (bs : List ℕ) → Avoids end_byte (escape bs)
unfolding escape
escape-Avoids [] = tt
escape-Avoids (b ∷ bs) = ground (arith, escape-Avoids bs)

pub length-escape :
    (bs : List ℕ) → (length bs ≤ length (escape bs)) × (length (escape bs) ≤ 2 * length bs)
unfolding escape
length-escape [] = omega arith
length-escape (b ∷ bs) = ground (arith, length-escape bs)

plain_step :
    (b : ℕ) (bs out : List ℕ)
    → b ≢ esc
    → b ≢ end_byte
    → decode_slip_loop (b ∷ bs) out ≡ decode_slip_loop bs (out ++ b ∷ [])
unfolding decode_slip_loop
plain_step b [] out h k = ground arith
plain_step b (x ∷ bs) out h k = ground arith

-- The three ways in which `escape` writes a byte.
escape_cases :
    (b : ℕ) (bs : List ℕ)
    → ((b ≡ end_byte) × (escape (b ∷ bs) ≡ esc ∷ esc_end ∷ escape bs))
      ⊎ ((b ≡ esc) × (escape (b ∷ bs) ≡ esc ∷ esc_esc ∷ escape bs))
      ⊎ ((b ≢ esc) × (b ≢ end_byte) × (escape (b ∷ bs) ≡ b ∷ escape bs))
unfolding escape
escape_cases b bs = elim (ℕ_discrete b end_byte) [
  | yes e ↦ inl (e, ground arith)
  | no n ↦ elim (ℕ_discrete b esc) [
    | yes e ↦ inr (inl (e, ground arith))
    | no k ↦ inr (inr (k, n, ground arith))
  ]
]

loop-escape : (bs out : List ℕ) → decode_slip_loop (escape bs) out ≡ ok (out ++ bs)
unfolding decode_slip_loop
loop-escape [] out = unfold escape in ap ok (sym (append-nil out))
loop-escape (b ∷ bs) out =
    let later = λ (x : ℕ). loop-escape bs (out ++ x ∷ []) ∙ ap ok (append_assoc out (x ∷ []) bs) in
    elim (escape_cases b bs) [
      | inl (e, w) ↦ rw (w, e) (later end_byte)
      | inr (inl (e, w)) ↦ rw (w, e) (later esc)
      | inr (inr (h, k, w)) ↦ rw w (plain_step b (escape bs) out h k ∙ later b)
    ]

-- Unescaping undoes escaping.
pub decode_slip-escape : (bs : List ℕ) → decode_slip (escape bs) ≡ ok bs
unfolding decode_slip
decode_slip-escape bs = loop-escape bs []

-- What the loop accepts is the escaped form of what it adds to the output.
abbrev Adds : List ℕ → List ℕ → List ℕ → Type 0
Adds frame_data out r = (bs : List ℕ) × (r ≡ out ++ bs) × (frame_data ≡ escape bs)

Adds-cons :
    (written : List ℕ) (b : ℕ) (rest out r : List ℕ)
    → ((bs : List ℕ) → written ++ escape bs ≡ escape (b ∷ bs))
    → Adds rest (out ++ b ∷ []) r
    → Adds (written ++ rest) out r
Adds-cons written b rest out r h (bs, e, w) =
    (b ∷ bs, e ∙ append_assoc out (b ∷ []) bs, ap (◌++◌ written) w ∙ h bs)

loop-exact :
    (frame_data out r : List ℕ) → decode_slip_loop frame_data out ≡ ok r → Adds frame_data out r
unfolding decode_slip_loop escape
loop-exact [] out r e = ([], ground (arith, append-nil out), refl)
loop-exact (b ∷ []) out r e =
    Adds-cons (b ∷ []) b [] out r (λ bs. ground arith)
      ([], ground (arith, append-nil (out ++ b ∷ [])), refl)
loop-exact (b ∷ next ∷ rest) out r e = elim (ℕ_discrete b esc) [
  | yes h ↦ elim (ℕ_discrete next esc_end) [
    | yes k ↦
        Adds-cons (b ∷ next ∷ []) end_byte rest out r (λ bs. ground arith)
          (loop-exact rest (out ++ end_byte ∷ []) r (ground arith))
    | no k ↦
        Adds-cons (b ∷ next ∷ []) esc rest out r (λ bs. ground arith)
          (loop-exact rest (out ++ esc ∷ []) r (ground arith))
  ]
  | no h ↦
      Adds-cons (b ∷ []) b (next ∷ rest) out r (λ bs. ground arith)
        (loop-exact (next ∷ rest) (out ++ b ∷ []) r (ground arith))
]

-- `decode_slip` accepts exactly the escaped payloads, and each gives its payload.
pub decode_slip_exact :
    (frame_data payload : List ℕ)
    → (decode_slip frame_data ≡ ok payload) ↔ (frame_data ≡ escape payload)
unfolding decode_slip
decode_slip_exact frame_data payload = (
  λ e. let (bs, r, w) = loop-exact frame_data [] payload e in rw r w,
  λ w. rw w (loop-escape payload []),
)
