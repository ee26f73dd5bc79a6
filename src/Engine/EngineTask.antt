-- ===== src/Engine/EngineTask.antt =====
-- crates/cycbox-engine/src/tasks/engine_task.rs: the task that handles the engine's commands one at
-- a time. The scripts are a record of functions over the state of the interpreter.
pub mod BatchIds
pub mod Coherent
use mathlib.Core.Option
use mathlib.Core.Option.{get_or}
use cycbox.Base.{
  ℕ, ◌+◌, ◌%◌, ◌^◌, ◌==◌, List, [], ◌∷◌, ◌++◌, Option, none, some, Bool, true, false, ltb, ◌&&◌,
  ◌||◌, not, if◌then◌else◌, length,
}
use cycbox.Base.Text.{Text}
use cycbox.Message.{Message}
use cycbox.Manifest.{FormGroup}
use cycbox.Manifest.Groups.{Manifest}

-- `LuaScript`: `none` for a script that is not accepted; a hook answers whether it went well. The
-- number is that of the connections a script may command.
pub record LuaScript (L F : Type 0) : Type 0 where
  pub new : Text → List (List (FormGroup F)) → ℕ → Option L
  pub empty : L
  pub on_start : L → L × Bool
  pub on_stop : L → L × Bool
  pub on_send : L → Message → L × Message × Bool

pub record EngineState (F J M : Type 0) : Type 0 where
  pub manifest : Manifest F J M
  pub running : Bool
  pub connection_count : ℕ
  pub lua_enabled : Bool

-- `EngineError::Engine`, by its text.
pub data EngineError : Type 0 where
  already_running not_running script_rejected : EngineError

pub data Reply (F J M : Type 0) : Type 0 where
  ok_state : EngineState F J M → Reply F J M
  ok_batch : ℕ → Reply F J M
  ok_unit : Reply F J M
  failed : EngineError → Reply F J M

-- What the engine does to others: it opens and closes connections, reports an error of a script,
-- and hands a message to a connection or to the delay queue.
pub data Act (F : Type 0) : Type 0 where
  opens : ℕ → List (FormGroup F) → Act F
  closes_all reports warns_not_running : Act F
  sends : ℕ → Message → Act F
  delays : Message → Act F

-- `connections` is the number of senders to connections, and `batches` the keys of the repeating
-- messages.
pub record EngineTask (L F J M : Type 0) : Type 0 where
  pub state : EngineState F J M
  pub lua_script : L
  pub connections : ℕ
  pub batches : List ℕ
  pub batch_id : ℕ
  pub acts : List (Act F)

pub data ControlCommand (F J M : Type 0) : Type 0 where
  get_state stop send_repeating_messages : ControlCommand F J M
  set_manifest : Manifest F J M → ControlCommand F J M
  start : Option (Manifest F J M) → ControlCommand F J M
  set_lua : Option Text → Option Bool → Bool → ControlCommand F J M
  stop_repeating_messages : List ℕ → ControlCommand F J M

unfoldable pub remove : ℕ → List ℕ → List ℕ
remove id [] = []
remove id (b ∷ bs) = let rest = remove id bs in if b == id then rest else b ∷ rest

-- `HashMap::insert` replaces what has the same key.
unfoldable pub insert : ℕ → List ℕ → List ℕ
unfolding remove
insert id batches = id ∷ remove id batches

-- `fetch_add` of an `AtomicU64` wraps around.
abbrev pub fetch_add : ℕ → ℕ
fetch_add id = (id + 1) % 2 ^ 64

unfoldable pub remove_all : List ℕ → List ℕ → List ℕ
unfolding remove
remove_all [] batches = batches
remove_all (id ∷ ids) batches = remove_all ids (remove id batches)

-- One connection for each configuration, numbered from 0.
unfoldable pub opened : {F : Type 0} → ℕ → List (List (FormGroup F)) → List (Act F)
opened i [] = []
opened i (config ∷ configs) = opens i config ∷ opened (i + 1) configs

abbrev reported : {F : Type 0} → Bool → List (Act F)
reported fine = if fine then [] else reports ∷ []

abbrev or_else : Option Text → Option Text → Option Text
or_else none t = t
or_else (some s) t = some s

abbrev pub lua_code : {F J M : Type 0} → EngineState F J M → Text
lua_code s = if s.lua_enabled then get_or s.manifest.lua_script [] else []

module _ {L F J M : Type 0} (scripts : LuaScript L F) where
  abbrev act : List (Act F) → EngineTask L F J M → EngineTask L F J M
  act as' t = record t { acts = t.acts ++ as' }

  abbrev report_unless : Bool → EngineTask L F J M → EngineTask L F J M
  report_unless fine t = act (reported fine) t

  -- A script that is not accepted leaves the old one.
  unfoldable pub load_script :
      List (List (FormGroup F)) → EngineTask L F J M → EngineTask L F J M × Bool
  load_script configs t = elim (scripts.new (lua_code t.state) configs t.connections) [
    | none ↦ (act (reports ∷ []) t, false)
    | some script ↦
        let (l, fine) = scripts.on_start script in
        (record (report_unless fine t) { lua_script = l }, true)
  ]

  -- A connection task is started for each configuration.
  abbrev pub start_connections : Manifest F J M → EngineTask L F J M → EngineTask L F J M
  start_connections manifest t = act (closes_all ∷ opened 0 manifest.configs) (record t {
    state = record t.state {
      manifest = manifest;
      running = true;
      connection_count = length manifest.configs;
    };
    connections = length manifest.configs;
  })

  -- A manifest that comes with the command is stored also by an engine that is running.
  unfoldable pub start_all :
      Option (Manifest F J M) → EngineTask L F J M → EngineTask L F J M × Reply F J M
  unfolding load_script opened
  start_all manifest t =
      let chosen = get_or manifest t.state.manifest in
      if t.state.running
      then (record t { state = record t.state { manifest = chosen } }, failed already_running)
      else (let (loaded, fine) = load_script chosen.configs (start_connections chosen t) in
          (loaded, ok_state loaded.state))

  unfoldable pub stop_all : EngineTask L F J M → EngineTask L F J M
  stop_all t =
      let (l, fine) = scripts.on_stop t.lua_script in
      act (closes_all ∷ []) (record (report_unless fine t) {
        lua_script = scripts.empty;
        state = record t.state { running = false; connection_count = 0 };
        batches = [];
        connections = 0;
      })

  -- Whether the flag changes.
  abbrev pub enabled_changed : Option Bool → EngineState F J M → Bool
  enabled_changed none s = false
  enabled_changed (some b) s = (b && not s.lua_enabled) || (not b && s.lua_enabled)

  abbrev pub edited : Option Text → Option Bool → EngineTask L F J M → EngineTask L F J M
  edited code enabled t = record t {
    state = record t.state {
      manifest = record t.state.manifest { lua_script = or_else code t.state.manifest.lua_script };
      lua_enabled = get_or enabled t.state.lua_enabled;
    };
  }

  abbrev pub stop_script : EngineTask L F J M → EngineTask L F J M
  stop_script t =
      let (l, fine) = scripts.on_stop t.lua_script in
      record (report_unless fine t) { lua_script = l }

  -- A script that runs is exchanged when asked for, or when switching it on or off matters.
  unfoldable pub set_script :
      Option Text → Option Bool → Bool → EngineTask L F J M → EngineTask L F J M × Reply F J M
  unfolding load_script
  set_script code enabled reload t =
      let changed = edited code enabled t in
      if reload || (enabled_changed enabled t.state && t.state.running)
      then (let (loaded, accepted) =
            load_script changed.state.manifest.configs (stop_script changed) in
          (loaded, if accepted then ok_state loaded.state else failed script_rejected))
      else (changed, ok_state changed.state)

  unfoldable pub handle :
      ControlCommand F J M → EngineTask L F J M → EngineTask L F J M × Reply F J M
  unfolding start_all stop_all set_script insert remove_all
  handle get_state t = (t, ok_state t.state)
  handle (set_manifest m) t =
      let t₁ = record t { state = record t.state { manifest = m } } in (t₁, ok_state t₁.state)
  handle (start manifest) t = start_all manifest t
  handle stop t = let t₁ = stop_all t in (t₁, ok_state t₁.state)
  handle send_repeating_messages t =
      if t.state.running
      then (
        record t { batches = insert t.batch_id t.batches; batch_id = fetch_add t.batch_id },
        ok_batch t.batch_id,
      )
      else (t, failed not_running)
  handle (stop_repeating_messages []) t = (record t { batches = [] }, ok_unit)
  handle (stop_repeating_messages (id ∷ ids)) t =
      (record t { batches = remove_all (id ∷ ids) t.batches }, ok_unit)
  handle (set_lua code enabled reload) t = set_script code enabled reload t

  -- A message for a later time goes to the delay queue; one for a connection that does not exist is
  -- dropped.
  unfoldable pub route : ℕ → Message → EngineTask L F J M → EngineTask L F J M
  route now m t =
      let (l, m₁, fine) = scripts.on_send t.lua_script m in
      let t₁ = record (report_unless fine t) { lua_script = l } in
      if ltb (now + 500) m₁.timestamp
      then act (delays m₁ ∷ []) t₁
      else if ltb m₁.connection_id t.connections
      then act (sends m₁.connection_id m₁ ∷ []) t₁
      else t₁

  unfoldable pub route_all : ℕ → List Message → EngineTask L F J M → EngineTask L F J M
  unfolding route
  route_all now [] t = t
  route_all now (m ∷ ms) t = route_all now ms (route now m t)

  unfoldable pub send_messages : ℕ → List Message → EngineTask L F J M → EngineTask L F J M
  unfolding route_all
  send_messages now ms t =
      if t.state.running then route_all now ms t else act (warns_not_running ∷ []) t

  -- The commands one after the other, with what is answered to them.
  unfoldable pub handle_all :
      List (ControlCommand F J M) → EngineTask L F J M → EngineTask L F J M × List (Reply F J M)
  unfolding handle
  handle_all [] t = (t, [])
  handle_all (c ∷ cs) t =
      let (next, reply) = handle c t in
      let (last, replies) = handle_all cs next in (last, reply ∷ replies)

  -- The task at its start, with the manifest of the run mode, in which a missing script is replaced.
  abbrev pub idle : Text → Manifest F J M → EngineTask L F J M
  idle default_script manifest = record {
    state = record {
      manifest = record manifest { lua_script = or_else manifest.lua_script (some default_script) };
      running = false;
      connection_count = 0;
      lua_enabled = true;
    };
    lua_script = scripts.empty;
    connections = 0;
    batches = [];
    batch_id = 1;
    acts = [];
  }
