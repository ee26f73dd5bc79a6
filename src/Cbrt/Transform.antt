-- ===== src/Cbrt/Transform.antt =====
-- crates/cbrt/src/transformer.rs: CBRT frames in messages, with a session for each connection.
pub mod Sentinel
use Prim.Native.String.{String}
use mathlib.Core.Option
use mathlib.Core.Option.{get_or}
use cycbox.Base.{
  ℕ, List, [], ◌∷◌, ◌++◌, Option, some, none, Bool, true, false, ◌==◌, ltb, bytes_eq, if◌then◌else◌,
  length, take,
}
use cycbox.Base.Text.{Text, text}
use cycbox.Message.{Message, metadata_value}
use cycbox.Codec.{CycBoxError, Result, ok, err}
use cycbox.Cbrt.Frame.{Parse, need_more, reject, go}
use cycbox.Cbrt.Session.{SessionState, default_state, reset}
use cycbox.Cbrt.Timing.{Floats}
use cycbox.Cbrt.Parse.{Completed, parse_at}
use cycbox.Cbrt.Stream.{cbrt_sync}

-- The map from connection ids to sessions.
abbrev pub Sessions : Type 0 → Type 0
Sessions F = List (ℕ × SessionState F)

module _ {F : Type 0} where
  unfoldable pub lookup : ℕ → Sessions F → Option (SessionState F)
  lookup id [] = none
  lookup id ((k, s) ∷ rest) = if k == id then some s else lookup id rest

  -- The entry is replaced where it stands, or added behind the others.
  unfoldable pub insert : ℕ → SessionState F → Sessions F → Sessions F
  insert id s [] = (id, s) ∷ []
  insert id s ((k, old) ∷ rest) =
      let others = insert id s rest in if k == id then (k, s) ∷ rest else (k, old) ∷ others

-- `message` is `&mut`: it comes back with the sessions.
pub record Received (F : Type 0) : Type 0 where
  pub sessions : Sessions F
  pub message : Message
  pub outcome : Result (Unit {0})

abbrev invalid_format : String → Result (Unit {0})
invalid_format t = err (CycBoxError.invalid_format (text t))

-- `extend` on an empty list is the assignment of the source.
unfoldable pub extend_message : Message → Message → Message
extend_message m parsed = record m {
  values = m.values ++ parsed.values;
  metadata = m.metadata ++ parsed.metadata;
  contents = m.contents ++ parsed.contents;
}

unfoldable pub starts_with_sync : List ℕ → Bool
starts_with_sync payload =
    if ltb (length payload) 4 then false else bytes_eq (take 4 payload) cbrt_sync

module _ (checksum : List ℕ → ℕ) {F : Type 0} (floats : Floats F) where
  unfoldable pub on_outcome :
      Sessions F → Message → SessionState F → Parse (Completed F) → Received F
  unfolding extend_message insert reset
  on_outcome sessions m s (go done) = record {
    sessions = insert m.connection_id done.state sessions;
    message = extend_message m done.message;
    outcome = ok tt;
  }
  on_outcome sessions m s need_more = record {
    sessions = insert m.connection_id s sessions;
    message = m;
    outcome = invalid_format "cbrt: payload truncated mid-frame";
  }
  on_outcome sessions m s reject = record {
    sessions = insert m.connection_id (reset s) sessions;
    message = m;
    outcome = invalid_format "cbrt: frame validation failed";
  }

  -- `now` is the wall clock. The lock is free, so that it cannot be poisoned.
  unfoldable pub on_receive : ℕ → Sessions F → Message → Received F
  unfolding metadata_value starts_with_sync parse_at on_outcome lookup
  on_receive now sessions m = elim (metadata_value (text "datatype") m) [
    | some sentinel ↦ record { sessions = sessions; message = m; outcome = ok tt }
    | none ↦
        if starts_with_sync m.payload
        then (let s = get_or (lookup m.connection_id sessions) default_state in
            let arrival_us = if m.timestamp == 0 then now else m.timestamp in
            on_outcome sessions m s (parse_at floats checksum now arrival_us s m.payload 0))
        else record {
          sessions = sessions;
          message = m;
          outcome = invalid_format "cbrt: payload does not start with CBRT sync word";
        }
  ]
