-- ===== src/Search/Trials.antt =====
-- `trial` of internal/search/search.go and what it calls: one setting over several repeats.
pub mod Effect
pub mod Ends
pub mod Repeats
use snmptune.Prelude.{
  ℕ, zero, suc, ◌+◌, ◌*◌, ◌/◌, ◌-◌, Bool, true, false, ◌&&◌, ◌||◌, not, Option, none, some, List,
  [], ◌∷◌, ◌++◌, min, max, length, ltb, leb, ◌==◌, if◌then◌else◌,
}
use snmptune.Text.{Text}
use snmptune.Agent.{Error, CtxError, canceled, deadline_exceeded, Environment}
use snmptune.Exec.{Exec, done, ◌>>=◌}
use snmptune.Float.{FloatOps}
use snmptune.Safety.{
  Canary, Tracker, Verdict, restarted, lost, stressed, note_trial, exhausted, cooldown, probe,
}
use snmptune.Slices.{contains}
use snmptune.Walk.{Settings, Result, missing_oids, product, settings_eq, missing}
use snmptune.Walk.Run.{RunEnd, ran, aborted}
use snmptune.Walk.Run
use snmptune.Workload.{Workload}
use snmptune.Search.{
  Label, Abort, restarted_after, lost_after, interrupted_during, transport_error_during, Failure,
  run_interrupted, aborted_by, stressed_before, deadline, exhausted_budget, Trial, ok, Outcome,
  Options, Runner, is_try, score,
}

-- What `trial` returns: `(nil, false)`, `(nil, true)`, or a trial and false.
pub data TrialEnd (F : Type 0) : Type 0 where
  skipped stopped : TrialEnd F
  measured : Trial F → TrialEnd F

-- What one repeat leaves: `trial` returns, or its loop goes on with a run.
pub data Repeat (F : Type 0) : Type 0 where
  leave : TrialEnd F → Repeat F
  finished_run : Result → Repeat F

module _ {F : Type 0} where
  -- `r.out.Trials = append(…)` and `r.Budget.NoteTrial()`.
  unfoldable pub append_trial : Trial F → Runner F → Runner F
  append_trial t r =
      let out = r.out in
      record r {
        out = record out { trials = out.trials ++ t ∷ [] };
        tracker = note_trial r.tracker;
      }

  unfoldable pub set_aborted : Abort → Runner F → Runner F
  set_aborted a r = let out = r.out in record r { out = record out { aborted = some a } }

  -- The stressed case of the `switch`: no product at or above this is tried from here on.
  unfoldable pub lower_ceiling : Label → Runner F → Runner F
  lower_ceiling phase r =
      let out = r.out in
      record r {
        out = record out { stressed = true };
        ceiling =
            if is_try phase then r.ceiling else min r.ceiling (max r.last_good r.start_product + 1);
      }

  -- What follows a complete trial.
  unfoldable pub settle : Settings → Trial F → Runner F → Runner F
  settle s t r =
      let r' = append_trial t r in
      if ok t
      then record r' { last_good = max r.last_good (product s) }
      else record r' { ceiling = min r.ceiling (product s) }

module _ (float : FloatOps) where
  open float use {F, of_nat, mul, div, lt}

  -- `record`.
  unfoldable pub record_failed : Settings → Label → List Result → Failure → Runner F → Runner F
  record_failed s phase runs failure r =
      let t = score float s phase runs in
      append_trial (record t { failure = some failure; score = of_nat 0 }) r

  -- `r.record(…)` behind its guard `len(runs) > 0`.
  unfoldable pub record_partial : Settings → Label → List Result → Failure → Runner F → Runner F
  record_partial s phase [] failure r = r
  record_partial s phase (run ∷ runs) failure r = record_failed s phase (run ∷ runs) failure r

  -- `abort`.
  unfoldable pub abort : Abort → Settings → Label → List Result → Runner F → Runner F
  abort reason s phase runs r =
      record_partial s phase runs (aborted_by reason) (set_aborted reason r)

  unfoldable pub set_interrupted : CtxError → Settings → Runner F → Runner F
  set_interrupted deadline_exceeded s r =
      let out = r.out in record r { out = record out { budget_limited = some deadline } }
  set_interrupted canceled s r = set_aborted (interrupted_during s) r

  -- The test of the reference: more of it is missing than the tolerance allows.
  unfoldable pub is_short : ℕ → List Text → F → Bool
  is_short gone ref tolerance =
      lt tolerance (div (mul (of_nat 100) (of_nat gone)) (of_nat (length ref)))

  -- The check of a clean run against the reference.
  unfoldable pub check_reference : List Text → F → Result → Result
  check_reference ref tolerance res = elim res.failure [
    | [] ↦
        (let gone = missing ref res.oids in
          if ltb 0 (length ref) && is_short gone ref tolerance
          then record res { failure = missing_oids gone (length ref) ∷ [] }
          else res)
    | _ ∷ _ ↦ res
  ]

module _ (env : Environment) (float : FloatOps) where
  open env use {World, ctx_err, sleep}
  open float use {F}

  -- `interrupted`.
  unfoldable pub interrupted :
      Settings → Label → List Result → Runner F → World → Bool × Runner F × World
  interrupted s phase runs r w =
      let (c, w') = ctx_err w in
      elim c [
        | none ↦ (false, r, w')
        | some e ↦ (
          true,
          record_partial float s phase runs run_interrupted (set_interrupted float e s r),
          w',
        )
      ]

  module _ (workload : Workload) (opts : Options F) (fuel : ℕ) where
    -- From `walk.Run` on.
    unfoldable pub after_walk :
        Settings → Label → List Result → Runner F → RunEnd × World → Repeat F × Runner F × World
    after_walk s phase runs r (ran res, w) = (
      finished_run (check_reference float r.ref_oids opts.tolerance res),
      record r { last_set = s; prev_run = res.duration },
      w,
    )
    after_walk s phase runs r (aborted res e, w) =
        let r' = record r { last_set = s; prev_run = res.duration } in
        let (ended, r'', w') = interrupted s phase runs r' w in
        (leave stopped, (if ended then r'' else set_aborted (transport_error_during s e) r''), w')

    unfoldable pub measure_run :
        Settings → Label → List Result → Runner F → World → Exec (Repeat F × Runner F × World)
    measure_run s phase runs r w =
        Run.run env fuel workload s w >>= λ end. done (after_walk s phase runs r end)

    -- The `switch` on the canary, before the walk. `i` counts the repeats from 0.
    unfoldable pub on_verdict :
        Verdict
        → ℕ
        → Settings
        → Label
        → List Result
        → Runner F
        → World
        → Exec (Repeat F × Runner F × World)
    on_verdict restarted i s phase runs r w =
        done (leave stopped, abort float (restarted_after r.last_set) s phase runs r, w)
    on_verdict lost i s phase runs r w =
        done (leave stopped, abort float (lost_after r.last_set) s phase runs r, w)
    on_verdict stressed i s phase runs r w =
        let r' = lower_ceiling phase r in
        if leb r'.ceiling (product s)
        then done (leave skipped, record_partial float s phase runs (stressed_before (i + 1)) r', w)
        else measure_run s phase runs r' w
    on_verdict _ i s phase runs r w = measure_run s phase runs r w

    -- The body of the loop over the repeats.
    unfoldable pub repeat :
        ℕ → Settings → Label → List Result → Runner F → World → Exec (Repeat F × Runner F × World)
    repeat i s phase runs r w =
        let w1 = sleep (cooldown opts.cooldown r.prev_run) w in
        let (ended, r', w2) = interrupted s phase runs r w1 in
        if ended
        then done (leave stopped, r', w2)
        else (let (v, c, w3) = probe env r'.canary w2 in
            on_verdict v i s phase runs (record r' { canary = c }) w3)

    -- Behind the loop.
    unfoldable pub finish : Settings → Label → List Result → Runner F → TrialEnd F × Runner F
    finish s phase runs r = let t = score float s phase runs in (measured t, settle s t r)

    abbrev is_failed : Result → Bool
    is_failed res = elim res.failure [ [] ↦ false | _ ∷ _ ↦ true ]

    -- Behind the body: return, go on to the end of `trial` after a failed run, or loop.
    unfoldable pub next_repeat :
        Settings
        → Label
        → List Result
        → (List Result → Runner F → World → Exec (TrialEnd F × Runner F × World))
        → Repeat F × Runner F × World
        → Exec (TrialEnd F × Runner F × World)
    next_repeat s phase runs loop (leave end, r, w) = done (end, r, w)
    next_repeat s phase runs loop (finished_run res, r, w) = elim (is_failed res) [
      | true ↦ (let (end, r') = finish s phase (runs ++ res ∷ []) r in done (end, r', w))
      | false ↦ loop (runs ++ res ∷ []) r w
    ]

    -- The loop over the repeats that are left.
    unfoldable pub repeats :
        ℕ
        → ℕ
        → Settings
        → Label
        → List Result
        → Runner F
        → World
        → Exec (TrialEnd F × Runner F × World)
    repeats zero i s phase runs r w = let (end, r') = finish s phase runs r in done (end, r', w)
    repeats (suc left) i s phase runs r w =
        repeat i s phase runs r w >>= next_repeat s phase runs (repeats left (i + 1) s phase)

    -- Behind the tests at the head of `trial`.
    unfoldable pub begin :
        Settings → Label → Runner F → World → Exec (TrialEnd F × Runner F × World)
    begin s phase r w = repeats opts.repeats 0 s phase [] (record r { measured = s ∷ r.measured }) w

    -- The test of the budget.
    unfoldable pub within_budget :
        Settings → Label → Runner F → World → Exec (TrialEnd F × Runner F × World)
    within_budget s phase r w =
        let (reason, w') = exhausted env r.tracker w in
        elim reason [
          | some e ↦
              (let out = r.out in
                done (
                  stopped,
                  record r { out = record out { budget_limited = some (exhausted_budget e) } },
                  w',
                ))
          | none ↦ begin s phase r w'
        ]

    -- `trial`.
    unfoldable pub trial :
        Settings → Label → Runner F → World → Exec (TrialEnd F × Runner F × World)
    trial s phase r w =
        if leb r.ceiling (product s) || contains settings_eq r.measured s
        then done (skipped, r, w)
        else (let (ended, r', w') = interrupted s phase [] r w in
            if ended then done (stopped, r', w') else within_budget s phase r' w')
