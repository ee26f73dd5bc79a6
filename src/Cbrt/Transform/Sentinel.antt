-- ===== src/Cbrt/Transform/Sentinel.antt =====
-- crates/cbrt/src/transformer.rs: the transformer beside the codec, and the connections beside one
-- another.
use cycbox.Base.{
  ℕ, ◌≡◌, ◌≢◌, ◌⊎◌, inl, inr, refl, subst, List, [], ◌∷◌, some, Bool-cases, Option-cases, bytes_eq,
  arith,
}
use cycbox.Base.Text.{text}
use cycbox.Value.{Value}
use cycbox.Value.Builder.{string, builder}
use cycbox.Codec.{Clock, ok, err, CycBoxError}
use cycbox.Message.{Message, metadata_value, find_value}
use cycbox.Message.Builder.{build, rx, with_timestamp, add_values, with_metadata, with_contents}
use cycbox.Cbrt.Frame.{Frame, Parse, need_more, reject, go}
use cycbox.Cbrt.Session.{SessionState}
use cycbox.Cbrt.Timing.{Floats}
use cycbox.Cbrt.Parse.{Completed, Noted, message_of, metadata_of}
use cycbox.Cbrt.Stream.{CbrtCodec, decode}
use cycbox.Cbrt.Stream.Cases.{decode-induct}
use cycbox.Cbrt.Transform.{
  Sessions, Received, lookup, insert, on_receive, on_outcome, starts_with_sync,
}

ok_eq : {x y : Message} → ok (some x) ≡ ok (some y) → x ≡ y
ok_eq p = cc p

module _ {F : Type 0} where
  lookup-insert :
      (k id : ℕ) (s : SessionState F) (sessions : Sessions F)
      → k ≢ id
      → lookup k (insert id s sessions) ≡ lookup k sessions
  unfolding lookup insert
  lookup-insert k id s [] h = ground arith
  lookup-insert k id s ((j, old) ∷ rest) h = ground (arith, lookup-insert k id s rest h)

module _ (checksum : List ℕ → ℕ) {F : Type 0} (floats : Floats F) where
  -- The datatype is the first metadata of a message.
  message_of-datatype :
      (now arrival_us : ℕ) (payload frame : List ℕ) (f : Frame) (noted : Noted F)
      → (v : Value) × (metadata_value
            (text "datatype")
            (message_of floats now arrival_us payload frame f noted)
          ≡ some v)
  unfolding message_of metadata_of metadata_value find_value build with_contents with_metadata
      add_values with_timestamp rx string builder bytes_eq
  message_of-datatype now arrival_us payload frame f noted = (_, refl)

  decode-datatype :
      (c : Clock) (s : CbrtCodec F) (buf : List ℕ) (m : Message)
      → (decode checksum floats c s buf).outcome ≡ ok (some m)
      → (v : Value) × (metadata_value (text "datatype") m ≡ some v)
  decode-datatype c s buf =
      decode-induct checksum floats
        (λ buf d.
          (m : Message)
          → d.outcome ≡ ok (some m)
          → (v : Value) × (metadata_value (text "datatype") m ≡ some v))
        c s (λ buf e m o. cc o) (λ buf i e p m o. cc o)
        (λ buf i f e p m o.
          subst (λ m. (v : Value) × (metadata_value (text "datatype") m ≡ some v)) (ok_eq o)
            (message_of-datatype c.wall c.wall _ _ f _))
        (λ buf i d e p h. h) buf

  -- A message that the CBRT codec has delivered passes the transformer as it is, and no session
  -- changes.
  pub on_receive-decode :
      (now : ℕ) (sessions : Sessions F) (c : Clock) (s : CbrtCodec F) (buf : List ℕ) (m : Message)
      → (decode checksum floats c s buf).outcome ≡ ok (some m)
      → on_receive checksum floats now sessions m
        ≡ record { sessions = sessions; message = m; outcome = ok tt }
  unfolding on_receive
  on_receive-decode now sessions c s buf m e =
      let (v, has) = decode-datatype c s buf m e in rw (has, on_receive)

  abbrev Isolates : Sessions F → Message → ℕ → Received F → Type 0
  Isolates sessions m other r =
      (lookup other r.sessions ≡ lookup other sessions)
      × ((r.outcome ≡ ok tt) ⊎ ((e : CycBoxError) × (r.outcome ≡ err e) × (r.message ≡ m)))

  on_outcome-Isolates :
      (sessions : Sessions F) (m : Message) (s : SessionState F) (outcome : Parse (Completed F))
      (other : ℕ)
      → other ≢ m.connection_id
      → Isolates sessions m other (on_outcome checksum floats sessions m s outcome)
  unfolding on_outcome
  on_outcome-Isolates sessions m s (go done) other h =
      (lookup-insert other m.connection_id done.state sessions h, inl refl)
  on_outcome-Isolates sessions m s need_more other h =
      (lookup-insert other m.connection_id s sessions h, inr (_, refl, refl))
  on_outcome-Isolates sessions m s reject other h =
      (lookup-insert other m.connection_id _ sessions h, inr (_, refl, refl))

  -- A message on one connection leaves the sessions of the other connections as they are, and it
  -- comes back unchanged when it is refused.
  pub on_receive-Isolates :
      (now : ℕ) (sessions : Sessions F) (m : Message) (other : ℕ)
      → other ≢ m.connection_id
      → let r = on_receive checksum floats now sessions m in
        (lookup other r.sessions ≡ lookup other sessions)
        × ((r.outcome ≡ ok tt) ⊎ ((e : CycBoxError) × (r.outcome ≡ err e) × (r.message ≡ m)))
  unfolding on_receive
  on_receive-Isolates now sessions m other h =
      elim (Option-cases (metadata_value (text "datatype") m)) [
        | inr (v, e) ↦ rw (e, on_receive) (refl, inl refl)
        | inl e ↦ elim (Bool-cases (starts_with_sync m.payload)) [
          | inr other_start ↦ rw (e, other_start, on_receive) (refl, inr (_, refl, refl))
          | inl starts ↦ rw (e, starts, on_receive) (on_outcome-Isolates sessions m _ _ other h)
        ]
      ]
