-- ===== src/Engine/EngineTask/BatchIds.antt =====
-- crates/cycbox-engine/src/tasks/engine_task.rs: the ids that the engine answers for repeating
-- messages.
use cycbox.Base.{
  ℕ, ◌+◌, ◌^◌, ◌<◌, ◌≤◌, ◌≡◌, ◌≢◌, ◌⊎◌, refl, sym, subst, inl, inr, List, [], ◌∷◌, ◌++◌, Bool, true,
  false, if◌then◌else◌, All, Option-cases, arith, length, ◌||◌, ◌&&◌,
}
use mathlib.Core.Option.{get_or}
use cycbox.Manifest.{FormGroup}
use cycbox.Engine.EngineTask.{
  LuaScript, EngineTask, EngineState, EngineError, ControlCommand, get_state, stop,
  send_repeating_messages, set_manifest, start, set_lua, stop_repeating_messages, fetch_add,
  start_connections, stop_script, edited, load_script, enabled_changed, lua_code, Reply, ok_state,
  ok_batch, ok_unit, failed, start_all, stop_all, set_script, handle, handle_all,
}

-- No number occurs twice.
abbrev pub Distinct : List ℕ → Type 0
Distinct [] = Unit
Distinct (b ∷ bs) = All (λ c. c ≢ b) bs × Distinct bs

-- Different numbers that are not below `n`.
abbrev pub Fresh : ℕ → List ℕ → Type 0
Fresh n ids = All (λ b. n ≤ b) ids × Distinct ids

pub if-elim :
    {A : Type 0} (P : A → Type 0) (b : Bool) (x y : A)
    → (b ≡ true → P x)
    → (b ≡ false → P y)
    → P (if b then x else y)
if-elim P true x y h k = h refl
if-elim P false x y h k = k refl

module _ {F J M : Type 0} where
  -- The batch ids among what is answered.
  unfoldable pub batch_ids : List (Reply F J M) → List ℕ
  batch_ids [] = []
  batch_ids (ok_batch id ∷ rs) = id ∷ batch_ids rs
  batch_ids (r ∷ rs) = batch_ids rs

  batch_ids-cons :
      (r : Reply F J M) (rs : List (Reply F J M))
      → batch_ids (r ∷ rs) ≡ batch_ids (r ∷ []) ++ batch_ids rs
  unfolding batch_ids
  batch_ids-cons (ok_state s) rs = refl
  batch_ids-cons (ok_batch id) rs = refl
  batch_ids-cons ok_unit rs = refl
  batch_ids-cons (failed e) rs = refl

  no_id :
      (accepted : Bool) (s : EngineState F J M) (e : EngineError)
      → batch_ids ((if accepted then ok_state s else failed e) ∷ []) ≡ []
  unfolding batch_ids
  no_id true s e = refl
  no_id false s e = refl

above-others : (n : ℕ) (bs : List ℕ) → All (λ b. n + 1 ≤ b) bs → All (λ b. b ≢ n) bs
above-others n [] h = tt
above-others n (b ∷ bs) (h, hs) = (λ e. omega (arith, h, e), above-others n bs hs)

above_earlier : (n : ℕ) (bs : List ℕ) → All (λ b. n + 1 ≤ b) bs → All (λ b. n ≤ b) bs
above_earlier n [] h = tt
above_earlier n (b ∷ bs) (h, hs) = (omega (arith, h), above_earlier n bs hs)

module _ {L F J M : Type 0} where
  -- The answer has no id and the next id stays, or it has the next id, which goes up.
  abbrev pub Numbered : EngineTask L F J M → EngineTask L F J M × Reply F J M → Type 0
  Numbered t (u, r) =
      ((batch_ids (r ∷ []) ≡ []) × (u.batch_id ≡ t.batch_id))
      ⊎ ((batch_ids (r ∷ []) ≡ t.batch_id ∷ []) × (u.batch_id ≡ fetch_add t.batch_id))

module _ {L F J M : Type 0} (scripts : LuaScript L F) where
  batch_id-load_script :
      (configs : List (List (FormGroup F))) (t : EngineTask L F J M)
      → (load_script scripts configs t).0.batch_id ≡ t.batch_id
  unfolding load_script
  batch_id-load_script configs t =
      elim (Option-cases (scripts.new (lua_code t.state) configs t.connections)) [
        | inl e ↦ rw (e, load_script) refl
        | inr (s, e) ↦ rw (e, load_script) refl
      ]

  pub handle-Numbered :
      (c : ControlCommand F J M) (t : EngineTask L F J M) → Numbered t (handle scripts c t)
  unfolding handle start_all stop_all set_script batch_ids
  handle-Numbered get_state t = inl (refl, refl)
  handle-Numbered (set_manifest m) t = inl (refl, refl)
  handle-Numbered (start m) t =
      if-elim (Numbered t) t.state.running _ _ (λ e. inl (refl, refl))
        (λ e. inl (
          refl,
          batch_id-load_script (get_or m t.state.manifest).configs
              (start_connections scripts (get_or m t.state.manifest) t),
        ))
  handle-Numbered stop t = inl (refl, refl)
  handle-Numbered send_repeating_messages t =
      if-elim (Numbered t) t.state.running _ _ (λ e. inr (refl, refl)) (λ e. inl (refl, refl))
  handle-Numbered (stop_repeating_messages []) t = inl (refl, refl)
  handle-Numbered (stop_repeating_messages (id ∷ ids)) t = inl (refl, refl)
  handle-Numbered (set_lua code enabled reload) t =
      if-elim (Numbered t) (reload || (enabled_changed scripts enabled t.state && t.state.running))
        _ _
        (λ e. inl (
          no_id _ _ _,
          batch_id-load_script t.state.manifest.configs
              (stop_script scripts (edited scripts code enabled t)),
        ))
        (λ e. inl (refl, refl))

  -- From a state whose next id is far enough from the end of the numbers, the ids are different
  -- and not below it.
  pub handle_all-batch_ids :
      (cs : List (ControlCommand F J M)) (t : EngineTask L F J M)
      → t.batch_id + length cs < 2 ^ 64
      → Fresh t.batch_id (batch_ids (handle_all scripts cs t).1)
  unfolding handle_all batch_ids
  handle_all-batch_ids [] t h = (tt, tt)
  handle_all-batch_ids (c ∷ cs) t h =
      let (u, r) = handle scripts c t in
      let rest = (handle_all scripts cs u).1 in
      subst (Fresh t.batch_id) (sym (batch_ids-cons r rest)) (elim (handle-Numbered c t) [
        | inl (e, k) ↦
            subst (λ ids. Fresh t.batch_id (ids ++ batch_ids rest)) (sym e)
              (subst (λ n. Fresh n (batch_ids rest)) k
                (handle_all-batch_ids cs u (omega (arith, h, k))))
        | inr (e, k) ↦
            let next : u.batch_id ≡ t.batch_id + 1 = omega (arith, h, k) in
            let (above, different) =
              subst (λ n. Fresh n (batch_ids rest)) next
                (handle_all-batch_ids cs u (omega (arith, h, next))) in
            subst (λ ids. Fresh t.batch_id (ids ++ batch_ids rest)) (sym e)
              (
                (omega arith, above_earlier t.batch_id (batch_ids rest) above),
                (above-others t.batch_id (batch_ids rest) above, different),
              )
      ])
