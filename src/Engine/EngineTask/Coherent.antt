-- ===== src/Engine/EngineTask/Coherent.antt =====
-- crates/cycbox-engine/src/tasks/engine_task.rs: what holds between the commands.
use cycbox.Base.{
  ℕ, ◌+◌, ◌^◌, ◌<◌, ◌≡◌, ◌≢◌, ◌==◌, refl, sym, ap, subst, length, ◌∙◌, List, [], ◌∷◌, Bool, false,
  Bool-cases, inl, inr, All, Option-cases, Option-cases, arith, ◌||◌, ◌&&◌,
}
use mathlib.Core.Option.{get_or}
use mathlib.Core.Bool.{true≢false}
use cycbox.Base.Text.{Text}
use cycbox.Manifest.{FormGroup}
use cycbox.Manifest.Groups.{Manifest}
use cycbox.Engine.EngineTask.BatchIds.{
  Distinct, if-elim, batch_ids, handle-Numbered, handle_all-batch_ids,
}
use cycbox.Engine.EngineTask.{
  fetch_add, insert, LuaScript, EngineTask, ControlCommand, get_state, stop,
  send_repeating_messages, set_manifest, start, set_lua, stop_repeating_messages, remove,
  remove_all, idle, start_connections, stop_script, edited, load_script, enabled_changed, lua_code,
  Reply, start_all, stop_all, set_script, handle, handle_all,
}

remove-All : (P : ℕ → Type 0) (id : ℕ) (bs : List ℕ) → All P bs → All P (remove id bs)
unfolding remove
remove-All P id [] h = tt
remove-All P id (b ∷ bs) (h, hs) = elim (Bool-cases (b == id)) [
  | inl e ↦ rw (e, remove) (remove-All P id bs hs)
  | inr e ↦ rw (e, remove) (h, remove-All P id bs hs)
]

remove-Distinct : (id : ℕ) (bs : List ℕ) → Distinct bs → Distinct (remove id bs)
unfolding remove
remove-Distinct id [] h = tt
remove-Distinct id (b ∷ bs) (h, hs) = elim (Bool-cases (b == id)) [
  | inl e ↦ rw (e, remove) (remove-Distinct id bs hs)
  | inr e ↦ rw (e, remove) (remove-All (λ c. c ≢ b) id bs h, remove-Distinct id bs hs)
]

remove_all-All : (P : ℕ → Type 0) (ids bs : List ℕ) → All P bs → All P (remove_all ids bs)
unfolding remove_all
remove_all-All P [] bs h = h
remove_all-All P (id ∷ ids) bs h = remove_all-All P ids (remove id bs) (remove-All P id bs h)

remove_all-Distinct : (ids bs : List ℕ) → Distinct bs → Distinct (remove_all ids bs)
unfolding remove_all
remove_all-Distinct [] bs h = h
remove_all-Distinct (id ∷ ids) bs h =
    remove_all-Distinct ids (remove id bs) (remove-Distinct id bs h)

remove_all-nil : (ids : List ℕ) → remove_all ids [] ≡ []
unfolding remove_all remove
remove_all-nil [] = refl
remove_all-nil (id ∷ ids) = remove_all-nil ids

given_out_later : (n : ℕ) (bs : List ℕ) → All (λ b. b < n) bs → All (λ b. b < n + 1) bs
given_out_later n [] h = tt
given_out_later n (b ∷ bs) (h, hs) = (omega (arith, h), given_out_later n bs hs)

not_among : (n : ℕ) (bs : List ℕ) → All (λ b. b ≢ n) (remove n bs)
unfolding remove
not_among n [] = tt
not_among n (b ∷ bs) = elim (Bool-cases (b == n)) [
  | inl e ↦ rw (e, remove) (not_among n bs)
  | inr e ↦ rw (e, remove) ((λ p. ground arith), not_among n bs)
]

no_wrap : (n : ℕ) → n + 1 < 2 ^ 64 → fetch_add n ≡ n + 1
no_wrap n h = omega (arith, h)

-- The count is the number of connections, an engine that does not run has neither connections nor
-- repeating messages, and the keys of the latter are different and below the next id.
pub record CoherentParts (count connections : ℕ) (running : Bool) (batches : List ℕ) (batch_id : ℕ)
    : Type 0 where
  counted : count ≡ connections
  no_connections : running ≡ false → connections ≡ 0
  no_batches : running ≡ false → batches ≡ []
  given_out : All (λ b. b < batch_id) batches
  different : Distinct batches

module _ {L F J M : Type 0} where
  abbrev pub Coherent : EngineTask L F J M → Type 0
  Coherent t =
      CoherentParts t.state.connection_count t.connections t.state.running t.batches t.batch_id

  abbrev CoherentAfter : EngineTask L F J M × Reply F J M → Type 0
  CoherentAfter r = Coherent r.0

module _ {L F J M : Type 0} (scripts : LuaScript L F) where
  load_script-Coherent :
      (configs : List (List (FormGroup F))) (t : EngineTask L F J M)
      → Coherent t
      → Coherent (load_script scripts configs t).0
  unfolding load_script
  load_script-Coherent configs t k =
      elim (Option-cases (scripts.new (lua_code t.state) configs t.connections)) [
        | inl e ↦ rw (e, load_script) k
        | inr (s, e) ↦ rw (e, load_script) k
      ]

  handle-Coherent :
      (c : ControlCommand F J M) (t : EngineTask L F J M)
      → t.batch_id + 1 < 2 ^ 64
      → Coherent t
      → Coherent (handle scripts c t).0
  unfolding handle start_all stop_all set_script insert
  handle-Coherent get_state t h k = k
  handle-Coherent (set_manifest m) t h k = k
  handle-Coherent (start m) t h k =
      if-elim CoherentAfter t.state.running _ _ (λ e. k)
        (λ e.
          load_script-Coherent (get_or m t.state.manifest).configs
            (start_connections scripts (get_or m t.state.manifest) t)
            (record {
              counted = refl;
              no_connections = λ f. absurd (true≢false f);
              no_batches = λ f. k.no_batches e;
              given_out = k.given_out;
              different = k.different;
            }))
  handle-Coherent stop t h k = record {
    counted = refl;
    no_connections = λ f. refl;
    no_batches = λ f. refl;
    given_out = tt;
    different = tt;
  }
  handle-Coherent send_repeating_messages t h k =
      if-elim CoherentAfter t.state.running _ _
        (λ e. record {
          counted = k.counted;
          no_connections = k.no_connections;
          no_batches = λ f. absurd (true≢false (sym e ∙ f));
          given_out =
              subst (λ n. All (λ b. b < n) (insert t.batch_id t.batches))
                (sym (no_wrap t.batch_id h))
                (
                  omega arith,
                  given_out_later t.batch_id (remove t.batch_id t.batches)
                      (remove-All (λ b. b < t.batch_id) t.batch_id t.batches k.given_out),
                );
          different =
              (not_among t.batch_id t.batches, remove-Distinct t.batch_id t.batches k.different);
        })
        (λ e. k)
  handle-Coherent (stop_repeating_messages []) t h k = record {
    counted = k.counted;
    no_connections = k.no_connections;
    no_batches = λ f. refl;
    given_out = tt;
    different = tt;
  }
  handle-Coherent (stop_repeating_messages (id ∷ ids)) t h k = record {
    counted = k.counted;
    no_connections = k.no_connections;
    no_batches = λ f. ap (remove_all (id ∷ ids)) (k.no_batches f) ∙ remove_all-nil (id ∷ ids);
    given_out = remove_all-All (λ b. b < t.batch_id) (id ∷ ids) t.batches k.given_out;
    different = remove_all-Distinct (id ∷ ids) t.batches k.different;
  }
  handle-Coherent (set_lua code enabled reload) t h k =
      if-elim CoherentAfter (reload || (enabled_changed scripts enabled t.state && t.state.running))
        _ _
        (λ e.
          load_script-Coherent t.state.manifest.configs
            (stop_script scripts (edited scripts code enabled t)) k)
        (λ e. k)

  handle_all-Coherent :
      (cs : List (ControlCommand F J M)) (t : EngineTask L F J M)
      → t.batch_id + length cs < 2 ^ 64
      → Coherent t
      → Coherent (handle_all scripts cs t).0
  unfolding handle_all
  handle_all-Coherent [] t h k = k
  handle_all-Coherent (c ∷ cs) t h k =
      let u = (handle scripts c t).0 in
      let next = handle-Coherent c t (omega (arith, h)) k in
      elim (handle-Numbered scripts c t) [
        | inl (e, same) ↦ handle_all-Coherent cs u (omega (arith, h, same)) next
        | inr (e, more) ↦ handle_all-Coherent cs u (omega (arith, h, more)) next
      ]

  -- Whatever commands an engine handles from its start on, fewer than 2 ^ 64 - 1, the connections
  -- it counts are those it has, it has neither connections nor repeating messages while it does not
  -- run, the keys of its repeating messages are different and below the next id, and all the ids
  -- that it has answered for repeating messages are different from each other.
  pub commands-Coherent :
      (cs : List (ControlCommand F J M)) (default : Text) (m : Manifest F J M)
      → 1 + length cs < 2 ^ 64
      → Coherent (handle_all scripts cs (idle scripts default m)).0
        × Distinct (batch_ids (handle_all scripts cs (idle scripts default m)).1)
  commands-Coherent cs default m h = (
    handle_all-Coherent cs (idle scripts default m) h (record {
      counted = refl;
      no_connections = λ f. refl;
      no_batches = λ f. refl;
      given_out = tt;
      different = tt;
    }),
    (handle_all-batch_ids scripts cs (idle scripts default m) h).1,
  )
