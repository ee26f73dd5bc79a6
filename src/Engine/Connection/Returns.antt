-- ===== src/Engine/Connection/Returns.antt =====
-- crates/cycbox-engine/src/connection.rs: a connection delivers what its transport receives.
use mathlib.Core.Option
use cycbox.Base.{
  List-cases, ℕ, ◌≡◌, ◌≢◌, inl, inr, refl, sym, ap, subst, ◌∙◌, List, [], ◌∷◌, Option, none, some,
  Bool-cases, Option-cases,
}
use cycbox.Base.Text.{Text}
use cycbox.Message.{Message}
use cycbox.Codec.{Result, ok, err}
use cycbox.Formatter.Terminal.{
  Encodings, decode_bytes, strip_newline, has_too_many_non_viewable_chars, format_text,
  format_terminal,
}
use cycbox.Formatter.Terminal.Pieces.{highlight_text-Joins}
use cycbox.Engine.Connection.{
  MessageTransport, Transformer, Connection, transform_received, format, recv,
}

-- The call returns.
abbrev Returns : {A : Type 0} → Option A → Type 0
Returns {A} o = (a : A) × (o ≡ some a)

map-Returns : {A B : Type 0} (f : A → B) (o : Option A) → Returns o → Returns (Option.map f o)
map-Returns f o (a, e) = rw e (f a, refl)

module _ {E : Type 0} (encodings : Encodings E) (encoding : E) where
  -- The pattern, if there is one, is not decoded to an empty text.
  abbrev pub Visible : Option (List ℕ) → Type 0
  Visible none = Unit
  Visible (some bytes) = decode_bytes encodings encoding bytes ≢ some []

  format_text-Returns :
      (wanted : Option (List ℕ)) (t : Text) (m : Message)
      → Visible wanted
      → Returns (format_text encodings encoding wanted t m)
  unfolding format_text
  format_text-Returns none t m h = (_, refl)
  format_text-Returns (some []) t m h = (_, refl)
  format_text-Returns (some (b ∷ bs)) t m h =
      elim (Option-cases (decode_bytes encodings encoding (b ∷ bs))) [
        | inl failed ↦ rw (failed, format_text) (_, refl)
        | inr (pattern', e) ↦
            let (m', e', joins) =
              highlight_text-Joins encodings t pattern' m (λ empty. h (e ∙ ap some empty)) in
            rw (e, format_text) (m', e')
      ]

  format_terminal-Returns :
      (wanted : Option (List ℕ)) (m : Message)
      → Visible wanted
      → Returns (format_terminal encodings encoding wanted m)
  unfolding format_terminal
  format_terminal-Returns wanted m h = elim (List-cases m.contents) [
    | inr (c, cs, e) ↦ rw (e, format_terminal) (_, refl)
    | inl bare ↦ elim (List-cases m.frame) [
      | inl empty ↦ rw (bare, empty, format_terminal) (_, refl)
      | inr (b, bs, e) ↦ elim (Option-cases (decode_bytes encodings encoding m.frame)) [
        | inl failed ↦ rw (bare, e, failed, format_terminal) (_, refl)
        | inr (t, decoded) ↦
            elim (Bool-cases (has_too_many_non_viewable_chars encodings (strip_newline t))) [
              | inl many ↦ rw (bare, e, decoded, many, format_terminal) (_, refl)
              | inr few ↦
                  rw (bare, e, decoded, few, format_terminal)
                    (format_text-Returns wanted (strip_newline t) m h)
            ]
      ]
    ]
  ]

-- A delivered message carries the id.
abbrev pub Tagged : ℕ → Result (Option Message) → Type 0
Tagged id (ok (some m)) = m.connection_id ≡ id
Tagged id (ok none) = Unit
Tagged id (err e) = Unit

module _ {T U E : Type 0} (messages : MessageTransport T) (parts : Transformer U)
    (encodings : Encodings E) where
  abbrev SameSetup : Connection T U E → Connection T U E → Type 0
  SameSetup c c' =
      (c'.connection_id ≡ c.connection_id)
      × (c'.encoding ≡ c.encoding)
      × (c'.highlight_bytes ≡ c.highlight_bytes)

  transform_received-SameSetup :
      (c : Connection T U E) (m : Message)
      → SameSetup c (transform_received messages parts encodings c m).0
  unfolding transform_received
  transform_received-SameSetup c m = elim (Option-cases c.transformer) [
    | inl e ↦ rw (e, transform_received) (refl, refl, refl)
    | inr (u, e) ↦ elim (List-cases m.values) [
      | inl bare ↦ rw (e, bare, transform_received) (refl, refl, refl)
      | inr (v, vs, e') ↦ rw (e, e', transform_received) (refl, refl, refl)
    ]
  ]

  format-Returns :
      (c : Connection T U E) (m : Message)
      → Visible encodings c.encoding c.highlight_bytes
      → Returns (format messages parts encodings c m)
  unfolding format
  format-Returns c m h = elim (List-cases m.contents) [
    | inl bare ↦
        rw (bare, format)
          (map-Returns _ _ (format_terminal-Returns encodings c.encoding c.highlight_bytes m h))
    | inr (x, xs, e) ↦ rw (e, format) (_, refl)
  ]

  -- When the pattern to highlight is not decoded to an empty text, `recv` returns whatever the
  -- transport answers and the transformer does, and a message that it delivers carries the id of
  -- the connection.
  pub recv-Returns :
      (c : Connection T U E)
      → Visible encodings c.encoding c.highlight_bytes
      → (c' : Connection T U E) × (r : Result (Option Message)) × (recv messages parts encodings c
          ≡ some (c', r))
        × Tagged c.connection_id r
  unfolding recv
  recv-Returns c h = by_answer (messages.recv c.transport).1 refl
    where
      by_answer :
          (answer : Result (Option Message))
          → (messages.recv c.transport).1 ≡ answer
          → (c' : Connection T U E) × (r : Result (Option Message)) × (recv messages parts encodings
                c
              ≡ some (c', r))
            × Tagged c.connection_id r
      by_answer (err x) e =
          (record c { transport = (messages.recv c.transport).0 }, err x, rw (e, recv) refl, tt)
      by_answer (ok none) e =
          (record c { transport = (messages.recv c.transport).0 }, ok none, rw (e, recv) refl, tt)
      by_answer (ok (some m)) e =
          let c₁ = record c { transport = (messages.recv c.transport).0 } in
          let (c₂, m₁) = transform_received messages parts encodings c₁ m in
          let (id, encoding, highlight) = transform_received-SameSetup c₁ m in
          let visible : Visible encodings c₂.encoding c₂.highlight_bytes =
            subst (λ x. Visible encodings x c₂.highlight_bytes) (sym encoding)
              (subst (Visible encodings c.encoding) (sym highlight) h) in
          let (shown, formatted) = format-Returns c₂ m₁ visible in
          (
            c₂,
            ok (some (record shown { connection_id = c₂.connection_id })),
            rw (e, formatted, recv) refl,
            id,
          )
