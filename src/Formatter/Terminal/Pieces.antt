-- ===== src/Formatter/Terminal/Pieces.antt =====
-- crates/cycbox-engine/src/formatter/terminal.rs: the pieces that a text is cut into.
use cycbox.Base.{
  if◌then◌else◌, ℕ, zero, suc, ◌+◌, ◌-◌, ◌<◌, ◌≤◌, ◌≡◌, ◌≢◌, inl, inr, refl, sym, ap, ap₂, ◌∙◌,
  List, [], ◌∷◌, ◌++◌, append-nil, append_assoc, Option, none, some, Bool-cases, Option-cases, ltb,
  bytes_eq, bytes_eq→eq, arith, length, take, drop, length-take, length-drop, take-append-drop,
  take_all, drop_all,
}
use cycbox.Base.Text.{Text}
use cycbox.Content.{Content}
use cycbox.Message.{Message}
use cycbox.Formatter.Terminal.{
  find, normal, marked, Highlighting, add_match, find_all, at_start, after, whole_or, finish,
  highlight_text, Encodings,
}

-- The text of some contents.
unfoldable pub joined : List Content → Text
joined [] = []
joined (c ∷ cs) = c.payload ++ joined cs

joined-append : (xs ys : List Content) → joined (xs ++ ys) ≡ joined xs ++ joined ys
unfolding joined
joined-append [] ys = refl
joined-append (c ∷ xs) ys =
    ap (λ t. c.payload ++ t) (joined-append xs ys)
    ∙ sym (append_assoc c.payload (joined xs) (joined ys))

take-join : (a b : ℕ) (xs : Text) → take a xs ++ take b (drop a xs) ≡ take (a + b) xs
take-join zero b xs = ap (λ n. take n xs) (omega arith)
take-join (suc a) b [] = take_all b [] (omega arith) ∙ sym (take_all (suc a + b) [] (omega arith))
take-join (suc a) b (x ∷ xs) =
    ap (◌∷◌ x) (take-join a b xs) ∙ ap (λ n. take n (x ∷ xs)) {x = suc (a + b)} (omega arith)

-- A match lies within the text.
find-within :
    (wanted t : Text) (pos : ℕ)
    → wanted ≢ []
    → find wanted t ≡ some pos
    → pos + length wanted ≤ length t
unfolding find
find-within wanted [] pos h e = elim (Bool-cases (bytes_eq wanted [])) [
  | inl empty ↦ absurd (h (bytes_eq→eq wanted [] empty))
  | inr full ↦ ground arith
]
find-within wanted (b ∷ bs) pos h e =
    elim (Bool-cases (bytes_eq (take (length wanted) (b ∷ bs)) wanted)) [
      | inl here ↦ ground (
        arith,
        ap length (bytes_eq→eq (take (length wanted) (b ∷ bs)) wanted here),
        length-take (length wanted) (b ∷ bs),
      )
      | inr later ↦ elim (Option-cases (find wanted bs)) [
        | inl absent ↦ ground arith
        | inr (j, found) ↦ ground (arith, find-within wanted bs j h found)
      ]
    ]

-- Both positions are the same, and what is before them is in the contents.
abbrev Upto : Text → ℕ → Highlighting → Type 0
Upto t p h =
    (h.last_pos ≡ p) × (h.search_start ≡ p) × (p ≤ length t) × (joined h.contents ≡ take p t)

abbrev before : Text → ℕ → ℕ → List Content
before t p q = if ltb p q then normal (take (q - p) (drop p t)) ∷ [] else []

joined-before : (t : Text) (p pos : ℕ) → joined (before t p (p + pos)) ≡ take pos (drop p t)
unfolding joined
joined-before t p pos = elim (Bool-cases (ltb p (p + pos))) [
  | inl apart ↦
      rw apart
        (append-nil (take (p + pos - p) (drop p t)) ∙ ap (λ n. take n (drop p t)) (omega arith))
  | inr same ↦ rw same (ap (λ n. take n (drop p t)) {x = 0} {y = pos} (ground arith))
]

joined-match :
    (t wanted : Text) (p pos : ℕ) (cs : List Content)
    → joined cs ≡ take p t
    → let q = p + pos in
      joined (cs ++ (before t p q ++ marked (take (q + length wanted - q) (drop q t)) ∷ []))
      ≡ take (q + length wanted) t
unfolding joined
joined-match t wanted p pos cs text =
    let q = p + pos in
    let hit = take (q + length wanted - q) (drop q t) in
    joined-append cs (before t p q ++ marked hit ∷ [])
    ∙ ap₂ (λ a b. a ++ b) text
        (joined-append (before t p q) (marked hit ∷ [])
          ∙ ap₂ (λ a b. a ++ b) (joined-before t p pos)
              (append-nil hit ∙ ap (λ n. take n (drop q t)) {y = length wanted} (omega arith)))
    ∙ sym (append_assoc (take p t) (take pos (drop p t)) (take (length wanted) (drop q t)))
    ∙ ap (λ a. a ++ take (length wanted) (drop q t)) (take-join p pos t)
    ∙ take-join q (length wanted) t

add_match-Upto :
    (t wanted : Text) (p pos : ℕ) (h : Highlighting)
    → p + pos + length wanted ≤ length t
    → Upto t p h
    → Upto t (p + pos + length wanted) (add_match t wanted pos h)
unfolding add_match
add_match-Upto t wanted p pos h fits (last, start, inside, text) = (
  omega (arith, start),
  omega (arith, start),
  fits,
  rw (last, start) (joined-match t wanted p pos h.contents text),
)

filled : (t : Text) → t ≢ [] → 0 < length t
filled [] h = absurd (h refl)
filled (b ∷ bs) h = omega arith

abbrev Found : Text → Option Highlighting → Type 0
Found t o = (h : Highlighting) × (p : ℕ) × (o ≡ some h) × Upto t p h

find_all-Found :
    (fuel : ℕ) (t wanted : Text) (p : ℕ) (h : Highlighting)
    → wanted ≢ []
    → length t - p < fuel
    → Upto t p h
    → Found t (find_all fuel t wanted h)
unfolding find_all
find_all-Found zero t wanted p h full enough up = absurd (omega arith)
find_all-Found (suc fuel) t wanted p h full enough up =
    elim (Option-cases (find wanted (drop h.search_start t))) [
      | inl absent ↦ rw (absent, find_all) (h, p, refl, up)
      | inr (pos, found) ↦
          let fits = find-within wanted (drop h.search_start t) pos full found in
          let here : p + pos + length wanted ≤ length t =
            omega (arith, fits, length-drop h.search_start t, up.0, up.1, up.2) in
          rw (found, find_all)
            (find_all-Found fuel t wanted (p + pos + length wanted) (add_match t wanted pos h) full
              (omega (arith, here, filled wanted full, enough))
              (add_match-Upto t wanted p pos h here up))
    ]

joined-after : (t : Text) (p : ℕ) → joined (after t p) ≡ drop p t
unfolding joined after
joined-after t p = elim (Bool-cases (ltb p (length t))) [
  | inl more ↦ rw more (append-nil (drop p t))
  | inr nothing ↦ rw nothing (sym (drop_all p t (ground arith)))
]

or_whole : (t : Text) (cs : List Content) → joined cs ≡ t → joined (whole_or t cs) ≡ t
unfolding joined whole_or
or_whole t [] e = append-nil t
or_whole t (c ∷ cs) e = e

finish-joined : (t : Text) (p : ℕ) (h : Highlighting) → Upto t p h → joined (finish t h) ≡ t
unfolding finish
finish-joined t p h (last, start, inside, text) = or_whole t (h.contents ++ after t h.last_pos) (
    joined-append h.contents (after t h.last_pos)
    ∙ ap₂ (λ a b. a ++ b) text (ap (λ n. joined (after t n)) last ∙ joined-after t p)
    ∙ take-append-drop p t)

find-empty : (t : Text) → find [] t ≡ some 0
unfolding find bytes_eq
find-empty [] = refl
find-empty (b ∷ bs) = refl

find_all-empty : (fuel : ℕ) (t : Text) (h : Highlighting) → find_all fuel t [] h ≡ none
unfolding find_all
find_all-empty zero t h = refl
find_all-empty (suc fuel) t h =
    rw (find-empty (drop h.search_start t), find_all) (find_all-empty fuel t (add_match t [] 0 h))

-- A pattern that is not empty is found in finitely many rounds, and the pieces that the text is cut
-- into are the whole text, in order.
pub highlight_text-Joins :
    {E : Type 0} (encodings : Encodings E) (t wanted : Text) (m : Message)
    → wanted ≢ []
    → (m' : Message) × (highlight_text encodings (suc (length t)) t wanted m ≡ some m')
      × (joined m'.contents ≡ t)
unfolding highlight_text joined
highlight_text-Joins encodings t wanted m full =
    let (h, p, e, up) =
      find_all-Found (suc (length t)) t wanted 0 at_start full (omega arith)
        (refl, refl, omega arith, refl) in
    rw e (_, refl, finish-joined t p h up)

-- When the decoded pattern is empty, the loop finds it wherever it looks: it does not end, whatever
-- the text and the number of rounds.
pub highlight_text-empty :
    {E : Type 0} (encodings : Encodings E) (fuel : ℕ) (t : Text) (m : Message)
    → highlight_text encodings fuel t [] m ≡ none
unfolding highlight_text
highlight_text-empty encodings fuel t m = rw (find_all-empty fuel t at_start)
