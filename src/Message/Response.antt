-- ===== src/Message/Response.antt =====
-- crates/cycbox-sdk/src/message/builder.rs: requests and their responses.
use cycbox.Base.{
  ℕ, ◌^◌, ◌<◌, ◌≡◌, ◌≢◌, refl, ap, ◌∙◌, bytes_eq, List, [], ◌∷◌, some, none, true, false, arith,
  take_all, bytes_eq,
}
use cycbox.Base.Words.{le_bytes, length-le_bytes, le_value-le_bytes}
use cycbox.Base.Text.{Text}
use mathlib.Core.Option
use cycbox.Value.Builder
use cycbox.Message.{Message, get_seq_id, is_success, error_message}
use cycbox.Message.Builder.{request, response_success, response_error, build, frame_or_payload}

pub get_seq_id-le_bytes :
    (m : Message) (seq : ℕ) → seq < 2 ^ 64 → m.payload ≡ le_bytes 8 seq → get_seq_id m ≡ seq
unfolding get_seq_id
get_seq_id-le_bytes m seq h e =
    rw
      (
        e,
        take_all 8 (le_bytes 8 seq) (omega (arith, length-le_bytes 8 seq)),
        le_value-le_bytes 8 seq h,
      )
      (ground (arith, length-le_bytes 8 seq))

frame_kept : (fr bytes : List ℕ) → fr ≢ [] → frame_or_payload fr bytes ≡ fr
unfolding frame_or_payload
frame_kept [] bytes h = absurd (h refl)
frame_kept (f ∷ fs) bytes h = refl

-- A request with a command that is not empty and a sequence id below 2 ^ 64 carries both, and the
-- responses that are built from it carry the same connection, id and command. A success says so and
-- has no error; an error says so and gives its message back, when reading the message as UTF-8
-- leaves it alone.
pub response_matches :
    (lossy : List ℕ → Text) (now later seq at : ℕ) (command e : Text)
    → seq < 2 ^ 64
    → command ≢ []
    → lossy e ≡ e
    → let req = build now (request seq command at) in
      let good = build later (response_success later req) in
      let bad = build later (response_error later req e) in
      (get_seq_id req ≡ seq)
      × (get_seq_id good ≡ seq)
      × (get_seq_id bad ≡ seq)
      × (good.frame ≡ command)
      × (bad.frame ≡ command)
      × (good.connection_id ≡ req.connection_id)
      × (bad.connection_id ≡ req.connection_id)
      × (is_success good ≡ true)
      × (is_success bad ≡ false)
      × (error_message lossy good ≡ none)
      × (error_message lossy bad ≡ some e)
unfolding build request response_success response_error is_success error_message Builder.builder
    Builder.boolean Builder.string Option.bind bytes_eq
response_matches lossy now later seq at command e hs hc he =
    let kept = frame_kept command (le_bytes 8 seq) hc in
    let carried = ap (λ fr. frame_or_payload fr (le_bytes 8 seq)) kept ∙ kept in
    (
      get_seq_id-le_bytes _ seq hs refl,
      get_seq_id-le_bytes _ seq hs refl,
      get_seq_id-le_bytes _ seq hs refl,
      carried,
      carried,
      refl,
      refl,
      refl,
      refl,
      refl,
      ap some he,
    )
