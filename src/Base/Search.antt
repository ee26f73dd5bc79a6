-- ===== src/Base/Search.antt =====
-- `iter().position(|&b| b == c)` of the Rust sources, and what it finds.
use Prim.Native.Nat.{ℕ, suc}
use mathlib.Core.Path.{◌≡◌, refl, ap}
use mathlib.Core.Logic.{◌≢◌}
use mathlib.Core.Option
use mathlib.Core.Option.{Option, none, some}
use mathlib.Core.List.{List, [], ◌∷◌, ◌++◌}
use native.Mathlib.Omega.{arith}
use mathlib.Core.Logic.{inl, inr}
use native.Mathlib.Decide.{ℕ_discrete}
use cycbox.Base.Tests.{◌==◌, if◌then◌else◌, Option-cases}
use cycbox.Base.Lists.{length, All}

unfoldable pub position : ℕ → List ℕ → Option ℕ
position c [] = none
position c (b ∷ bs) = if b == c then some 0 else Option.map suc (position c bs)

abbrev pub Avoids : ℕ → List ℕ → Type 0
Avoids c = All (λ b. b ≢ c)

pub position-append :
    (c : ℕ) (xs ys : List ℕ) → Avoids c xs → position c (xs ++ c ∷ ys) ≡ some (length xs)
unfolding position
position-append c [] ys h = ground arith
position-append c (x ∷ xs) ys h = ground (arith, position-append c xs ys h.1)

pub position-none : (c : ℕ) (xs : List ℕ) → Avoids c xs → position c xs ≡ none
unfolding position
position-none c [] h = refl
position-none c (x ∷ xs) h = ground (arith, position-none c xs h.1)

-- What is found splits the list at the first occurrence.
pub position_splits :
    (c : ℕ) (xs : List ℕ) (i : ℕ)
    → position c xs ≡ some i
    → (pre : List ℕ) × (post : List ℕ) × (xs ≡ pre ++ c ∷ post) × Avoids c pre × (length pre ≡ i)
unfolding position
position_splits c [] i h = ground arith
position_splits c (x ∷ xs) i h = elim (ℕ_discrete x c) [
  | yes hit ↦ ([], xs, ground arith, tt, ground arith)
  | no miss ↦ elim (Option-cases (position c xs)) [
    | inl e ↦ ground arith
    | inr (j, e) ↦
        let (pre, post, split, avoids, len) = position_splits c xs j e in
        (x ∷ pre, post, ap (◌∷◌ x) split, (miss, avoids), ground arith)
  ]
]

pub position-none→Avoids : (c : ℕ) (xs : List ℕ) → position c xs ≡ none → Avoids c xs
unfolding position
position-none→Avoids c [] h = tt
position-none→Avoids c (x ∷ xs) h = elim (Option-cases (position c xs)) [
  | inl e ↦ (ground arith, position-none→Avoids c xs e)
  | inr (i, e) ↦ ground arith
]
