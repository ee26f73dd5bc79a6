-- ===== src/Engine/Reconnect.antt =====
-- crates/cycbox-engine/src/tasks/connection_task.rs: the loop of `start_connection` around the
-- connections, which waits before it tries again.
pub mod Backoff
use cycbox.Base.{
  ℕ, ◌*◌, min, List, [], ◌∷◌, ◌++◌, Option, none, some, Bool, true, false, if◌then◌else◌,
}
use cycbox.Base.Text.{Text, text}
use cycbox.Codec.{CycBoxError, connection}
use cycbox.Manifest.{FormGroup}
use cycbox.Manifest.Utils.{get_text_value, get_receive_timeout}

-- What the task reads in its configuration.
pub record Settings (E : Type 0) : Type 0 where
  pub transport_id : Text
  pub codec_id : Text
  pub transformer_id : Option Text
  pub encoding : E
  pub timeout : ℕ

-- Without a transport or a codec the task ends with an error.
pub data Configured (E : Type 0) : Type 0 where
  missing_transport missing_codec : Configured E
  configured : Settings E → Configured E

module _ {E : Type 0} (get_encoding_from_name : Text → E) where
  abbrev encoding_of : Option Text → E
  encoding_of none = get_encoding_from_name (text "utf-8")
  encoding_of (some name) = get_encoding_from_name name

  unfoldable pub read_settings : {F : Type 0} → List (FormGroup F) → Configured E
  unfolding get_text_value get_receive_timeout
  read_settings config = elim (get_text_value (text "app") (text "app_transport") config) [
    | none ↦ missing_transport
    | some transport_id ↦ elim (get_text_value (text "app") (text "app_codec") config) [
      | none ↦ missing_codec
      | some codec_id ↦ configured (record {
        transport_id = transport_id;
        codec_id = codec_id;
        transformer_id = get_text_value (text "app") (text "app_transformer") config;
        encoding = encoding_of (get_text_value (text "app") (text "app_encoding") config);
        timeout = get_receive_timeout config;
      })
    ]
  ]

-- How one round goes: a part cannot be created, or the connection is established, and lives until
-- it is lost or the task is cancelled.
pub data Attempt : Type 0 where
  codec_fails transport_fails transformer_fails : CycBoxError → Attempt
  lives_and_is_lost lives_until_cancelled cancelled_while_waiting : Attempt

-- `waits` records the waits, in seconds.
pub record Rounds : Type 0 where
  pub backoff : ℕ
  pub reconnecting : Bool
  pub waits : List ℕ
  pub ended : Bool

abbrev pub max_backoff : ℕ
max_backoff = 10

abbrev pub first_round : Rounds
first_round = record { backoff = 1; reconnecting = false; waits = []; ended = false }

-- The wait before a round, but for the first.
unfoldable pub wait : Rounds → Rounds
wait r =
    if r.reconnecting
    then record r { waits = r.waits ++ r.backoff ∷ []; backoff = min (r.backoff * 2) max_backoff }
    else r

abbrev pub again : Rounds → Rounds
again r = record r { reconnecting = true }

abbrev pub over : Rounds → Rounds
over r = record r { ended = true }

-- `matches!(e, CycBoxError::Connection(_))`
abbrev pub is_connection : CycBoxError → Bool
is_connection (connection e) = true
is_connection e = false

-- What follows the wait. Only a failure to connect is tried again, and a connection that is
-- established resets the wait.
unfoldable pub attempt : Attempt → Rounds → Rounds
attempt (codec_fails e) r = over r
attempt (transport_fails e) r = if is_connection e then again r else over r
attempt (transformer_fails e) r = over r
attempt lives_and_is_lost r = again (record r { backoff = 1 })
attempt lives_until_cancelled r = over (record r { backoff = 1 })
attempt cancelled_while_waiting r = over r

unfoldable pub rounds : List Attempt → Rounds → Rounds
unfolding wait attempt
rounds [] r = r
rounds (a ∷ more) r = let rest = rounds more (attempt a (wait r)) in if r.ended then r else rest
