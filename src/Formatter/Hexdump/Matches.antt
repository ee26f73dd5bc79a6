-- ===== src/Formatter/Hexdump/Matches.antt =====
-- crates/cycbox-engine/src/formatter/hexdump.rs: which bytes are highlighted.
use native.Mathlib.Decide.{ℕ_discrete}
use cycbox.Base.{
  ℕ, zero, suc, ◌+◌, ◌-◌, ◌<◌, ◌≤◌, ◌≡◌, ◌↔◌, inl, inr, refl, sym, ap, subst, ◌∙◌, List, [], ◌∷◌,
  ◌++◌, some, true, leb, Bool-cases, bytes_eq→eq, bytes_eq_refl, arith, length, take, drop,
  length-append, take-append-drop, take-append_left, drop-append_left, length-take,
}
use cycbox.Formatter.Hexdump.{matches_at, any_match, is_highlighted}

-- The pattern stands in the data at `start`.
abbrev pub OccursAt : List ℕ → List ℕ → ℕ → Type 0
OccursAt data_list wanted start =
    (pre : List ℕ) × (post : List ℕ) × (data_list ≡ pre ++ (wanted ++ post)) × (length pre ≡ start)

matches_at→OccursAt :
    (data_list wanted : List ℕ) (start : ℕ)
    → matches_at data_list wanted start ≡ true
    → OccursAt data_list wanted start
unfolding matches_at
matches_at→OccursAt data_list wanted start e =
    let inside : start + length wanted ≤ length data_list = ground arith in
    let same : take (length wanted) (drop start data_list) ≡ wanted =
      bytes_eq→eq (take (length wanted) (drop start data_list)) wanted (ground arith) in
    let rest = drop (length wanted) (drop start data_list) in
    (
      take start data_list,
      rest,
      sym (take-append-drop start data_list)
          ∙ ap (λ t. take start data_list ++ t)
              (sym (take-append-drop (length wanted) (drop start data_list))
                ∙ ap (λ t. t ++ rest) same),
      omega (arith, length-take start data_list),
    )

OccursAt→matches_at :
    (data_list wanted : List ℕ) (start : ℕ)
    → OccursAt data_list wanted start
    → matches_at data_list wanted start ≡ true
unfolding matches_at
OccursAt→matches_at data_list wanted start (pre, post, e, len) =
    let at : drop start data_list ≡ wanted ++ post =
      ap (drop start) e ∙ drop-append_left start pre (wanted ++ post) len in
    let found : take (length wanted) (drop start data_list) ≡ wanted =
      ap (take (length wanted)) at ∙ take-append_left (length wanted) wanted post refl in
    let inside : leb (start + length wanted) (length data_list) ≡ true =
      ground (arith, ap length e, length-append pre (wanted ++ post), length-append wanted post) in
    rw (inside, found, bytes_eq_refl wanted)

any_match→OccursAt :
    (data_list wanted : List ℕ) (from n : ℕ)
    → any_match data_list wanted from n ≡ true
    → (start : ℕ) × (from ≤ start) × (start < from + n) × OccursAt data_list wanted start
unfolding any_match
any_match→OccursAt data_list wanted from zero e = cc e
any_match→OccursAt data_list wanted from (suc n) e =
    elim (Bool-cases (matches_at data_list wanted from)) [
      | inl here ↦ (from, omega arith, omega arith, matches_at→OccursAt data_list wanted from here)
      | inr later ↦
          let rest : any_match data_list wanted from (suc n)
              ≡ any_match data_list wanted (from + 1) n =
            rw later in
          let (start, low, high, at) =
            any_match→OccursAt data_list wanted (from + 1) n (sym rest ∙ e) in
          (start, omega (arith, low), omega (arith, high), at)
    ]

OccursAt→any_match :
    (data_list wanted : List ℕ) (from n start : ℕ)
    → from ≤ start
    → start < from + n
    → OccursAt data_list wanted start
    → any_match data_list wanted from n ≡ true
unfolding any_match
OccursAt→any_match data_list wanted from zero start low high at = absurd (omega arith)
OccursAt→any_match data_list wanted from (suc n) start low high at =
    elim (Bool-cases (matches_at data_list wanted from)) [
      | inl here ↦ rw here
      | inr later ↦ elim (ℕ_discrete from start) [
        | yes same ↦
            let here =
              OccursAt→matches_at data_list wanted from
                (subst (OccursAt data_list wanted) (sym same) at) in
            cc (here, later)
        | no other ↦
            rw later (
              OccursAt→any_match data_list wanted (from + 1) n start (ground arith) (omega arith)
                at)
      ]
    ]

-- A byte is highlighted exactly when an occurrence of the pattern in the data covers it.
pub is_highlighted-Covers :
    (data_list wanted : List ℕ) (pos : ℕ)
    → (is_highlighted data_list pos (some wanted) ≡ true) ↔ (
        (start : ℕ) × (start ≤ pos)
        × (pos < start + length wanted)
        × OccursAt data_list wanted start)
unfolding is_highlighted
is_highlighted-Covers data_list [] pos = (λ e. cc e, λ (start, low, high, at). absurd (omega arith))
is_highlighted-Covers data_list (b ∷ bs) pos = (
  λ e.
      let (start, low, high, at) = any_match→OccursAt data_list (b ∷ bs) _ _ e in
      (start, omega (arith, high), omega (arith, low), at),
  λ (start, low, high, at).
      OccursAt→any_match data_list (b ∷ bs) (pos - length bs) _ start (omega arith) (omega arith)
        at,
)
