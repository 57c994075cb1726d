-- ===== src/Search/Phases.antt =====
-- `Run` and `Measure` of internal/search/search.go: escalate, bisect, split, and the last probe.
pub mod Sound
pub mod Ends
pub mod Total
pub mod Promises
use snmptune.Prelude.{
  ℕ, zero, suc, ◌+◌, ◌*◌, ◌/◌, ◌-◌, ◌%◌, ◌^◌, Bool, true, false, ◌&&◌, ◌||◌, not, Option, none,
  some, List, [], ◌∷◌, ◌++◌, map, min, max, length, ltb, leb, ◌==◌, if◌then◌else◌,
}
use snmptune.Text.{u32_mod}
use snmptune.Agent.{CtxError, Environment}
use snmptune.Exec.{Exec, done, out_of_fuel, ◌>>=◌}
use snmptune.Float.{FloatOps}
use snmptune.Inventory.{Inventory}
use snmptune.Safety.{Canary, Tracker, restarted, lost, Verdict, probe}
use snmptune.Walk.{Settings, product, settings_eq}
use snmptune.Walk.Run.{no_settings}
use snmptune.Workload.{Workload, widest_table}
use snmptune.Search.{
  start, Label, escalate, bisect, split, try, Abort, restarted_after, lost_after, aborted_by, Note,
  exceeds_max_product, not_tried, failed_bisecting, plateau, stressed_after, Trial, ok, Outcome,
  Options, Runner, split_candidates,
}
use snmptune.Search.Reference.{reference_oids}
use snmptune.Search.Trials.{TrialEnd, skipped, stopped, measured, trial, set_aborted}

-- `int(^uint(0) >> 1)`.
abbrev pub max_int : ℕ
max_int = 2 ^ 63 - 1

-- `v0` of `init`.
unfoldable pub start_vars : ℕ → ℕ
start_vars widest =
    if ltb 0 widest then min start.max_vars_per_pdu widest else start.max_vars_per_pdu

module _ {F : Type 0} where
  -- `init`: the runner.
  unfoldable pub init : ℕ → Inventory → Workload → Canary → Tracker → Runner F
  init ceiling reference workload canary tracker = record {
    out = record {
      trials = [];
      aborted = none;
      budget_limited = none;
      stressed = false;
      note = none;
    };
    ceiling = ceiling;
    last_good = 0;
    start_product = start.max_repetitions * start_vars (widest_table workload);
    prev_run = 0;
    last_set = no_settings;
    ref_oids = reference_oids reference workload;
    measured = [];
    canary = canary;
    tracker = tracker;
  }

  unfoldable pub set_note : Note → Runner F → Runner F
  set_note n r = let out = r.out in record r { out = record out { note = some n } }

-- How the phase that escalates ends: `Run` returns, or with `lastGoodR` and `firstBadR`.
pub data Climbed : Type 0 where
  returned : Climbed
  bounds : ℕ → ℕ → Climbed

-- What a measured trial means for it: stop with bounds and a note, or go on.
pub data Step (F : Type 0) : Type 0 where
  halt : ℕ → ℕ → Note → Step F
  climb : ℕ → F → Step F

-- How the phase that bisects ends: `Run` returns, or with `lastGoodR`.
pub data Found : Type 0 where
  returned : Found
  best_reps : ℕ → Found

-- `firstBadR - lastGoodR` on uint32.
unfoldable pub gap : ℕ → ℕ → ℕ
gap good bad = (bad + u32_mod - good) % u32_mod

-- The test of the loop that bisects.
unfoldable pub is_wide : ℕ → ℕ → Bool
is_wide good bad = ltb (max 1 (good / 10)) (gap good bad)

module _ (env : Environment) (float : FloatOps) (workload : Workload)
    (opts : Options (FloatOps.F float)) (fuel : ℕ) where
  open env use {World, ctx_err}
  open float use {F, of_nat, add, mul, lt}

  abbrev try_setting : Settings → Label → Runner F → World → Exec (TrialEnd F × Runner F × World)
  try_setting s phase r w = trial env float workload opts fuel s phase r w

  unfoldable pub judge_climb : Settings → ℕ → F → Trial F → Runner F → Step F
  judge_climb s last_good prev t r =
      let reps = s.max_repetitions in
      if not (ok t)
      then halt last_good reps (failed_bisecting s)
      else if ltb 0 last_good && lt t.score (mul prev (add (of_nat 1) opts.plateau_gain))
      then halt reps 0 (plateau s)
      else if r.out.stressed
      then halt reps 0 (stressed_after s)
      else climb reps t.score

  -- Behind a trial of the escalation. `loop` takes the new `lastGoodR` and `prevScore`.
  unfoldable pub after_climb :
      Settings
      → ℕ
      → F
      → (ℕ → F → Runner F → World → Exec (Climbed × Runner F × World))
      → TrialEnd F × Runner F × World
      → Exec (Climbed × Runner F × World)
  after_climb s last_good prev loop (stopped, r, w) = done (returned, r, w)
  after_climb s last_good prev loop (skipped, r, w) =
      done (bounds last_good 0, set_note (not_tried s) r, w)
  after_climb s last_good prev loop (measured t, r, w) = elim (judge_climb s last_good prev t r) [
    | halt good bad note ↦ done (bounds good bad, set_note note r, w)
    | climb good score ↦ loop good score r w
  ]

  -- The loop that escalates, with fuel for its steps.
  unfoldable pub escalation :
      ℕ → ℕ → ℕ → ℕ → F → Runner F → World → Exec (Climbed × Runner F × World)
  escalation zero v0 reps last_good prev r w = out_of_fuel
  escalation (suc steps) v0 reps last_good prev r w =
      let s : Settings = record { max_repetitions = reps; max_vars_per_pdu = v0 } in
      let next =
        try_setting s escalate r w
        >>= after_climb s last_good prev (escalation steps v0 (reps * 2 % u32_mod)) in
      if ltb r.tracker.budget.max_product (product s)
      then done (bounds last_good 0, set_note (exceeds_max_product s) r, w)
      else next

  unfoldable pub after_bisect :
      ℕ
      → ℕ
      → ℕ
      → (ℕ → ℕ → Runner F → World → Exec (Found × Runner F × World))
      → TrialEnd F × Runner F × World
      → Exec (Found × Runner F × World)
  after_bisect good bad mid loop (stopped, r, w) = done (returned, r, w)
  after_bisect good bad mid loop (skipped, r, w) = done (best_reps good, r, w)
  after_bisect good bad mid loop (measured t, r, w) = elim (ok t) [
    | true ↦ loop mid bad r w
    | false ↦ loop good mid r w
  ]

  -- The loop that bisects.
  unfoldable pub bisection : ℕ → ℕ → ℕ → ℕ → Runner F → World → Exec (Found × Runner F × World)
  bisection zero v0 good bad r w = out_of_fuel
  bisection (suc steps) v0 good bad r w =
      let mid = (good + bad) % u32_mod / 2 in
      let s : Settings = record { max_repetitions = mid; max_vars_per_pdu = v0 } in
      let next = try_setting s bisect r w >>= after_bisect good bad mid (bisection steps v0) in
      if is_wide good bad then next else done (best_reps good, r, w)

  -- The phase is entered only behind a failed step of the escalation.
  unfoldable pub bisect_phase : ℕ → ℕ → Climbed × Runner F × World → Exec (Found × Runner F × World)
  bisect_phase steps v0 (returned, r, w) = done (Found.returned, r, w)
  bisect_phase steps v0 (bounds good bad, r, w) =
      if ltb 0 bad then bisection steps v0 good bad r w else done (best_reps good, r, w)

  -- Behind a trial of the last phase, or of `Measure`: true when `Run` returns.
  unfoldable pub after_split :
      (Runner F → World → Exec (Bool × Runner F × World))
      → TrialEnd F × Runner F × World
      → Exec (Bool × Runner F × World)
  after_split loop (stopped, r, w) = done (true, r, w)
  after_split loop (skipped, r, w) = loop r w
  after_split loop (measured t, r, w) = loop r w

  -- The loop over the candidates.
  unfoldable pub splitting : ℕ → List ℕ → Runner F → World → Exec (Bool × Runner F × World)
  splitting total [] r w = done (false, r, w)
  splitting total (v ∷ vs) r w =
      let s : Settings = record { max_repetitions = total / v % u32_mod; max_vars_per_pdu = v } in
      let next = try_setting s split r w >>= after_split (splitting total vs) in
      let rest = splitting total vs r w in if total / v == 0 then rest else next

  unfoldable pub split_phase : ℕ → ℕ → Found × Runner F × World → Exec (Bool × Runner F × World)
  split_phase v0 widest (returned, r, w) = done (true, r, w)
  split_phase v0 widest (best_reps good, r, w) =
      if ltb 0 good
      then splitting (good * v0) (split_candidates v0 widest) r w
      else done (false, r, w)

  unfoldable pub fail_trial : Settings → Abort → Trial F → Trial F
  fail_trial s reason t =
      if settings_eq t.settings s
      then record t { failure = some (aborted_by reason); score = of_nat 0 }
      else t

  unfoldable pub fail_last : Abort → Runner F → Runner F
  fail_last reason r =
      let out = r.out in
      record r {
        out = record out {
          aborted = some reason;
          trials = map (fail_trial r.last_set reason) out.trials;
        };
      }

  unfoldable pub on_final : Verdict → Runner F → Runner F
  on_final restarted r = fail_last (restarted_after r.last_set) r
  on_final lost r = fail_last (lost_after r.last_set) r
  on_final _ r = r

  -- `finalProbe`.
  unfoldable pub final_probe : Runner F → World → Runner F × World
  final_probe r w =
      let (c, w1) = ctx_err w in
      elim c [
        | some _ ↦ (r, w1)
        | none ↦
            if length r.out.trials == 0
            then (r, w1)
            else (let (v, canary, w2) = probe env r.canary w1 in
                (on_final v (record r { canary = canary }), w2))
      ]

  -- The end of `Run` and of `Measure`.
  unfoldable pub conclude : Bool × Runner F × World → Runner F × World
  conclude (true, r, w) = (r, w)
  conclude (false, r, w) = final_probe r w

  -- `Run` up to the last probe.
  unfoldable pub run_phases : ℕ → ℕ → Runner F → World → Exec (Bool × Runner F × World)
  run_phases steps widest r w =
      let v0 = start_vars widest in
      escalation steps v0 start.max_repetitions 0 (of_nat 0) r w
      >>= bisect_phase steps v0
      >>= split_phase v0 widest

  -- `Run`: the runner's outcome is what it returns.
  unfoldable pub run : ℕ → Inventory → Canary → Tracker → World → Exec (Runner F × World)
  run steps reference canary tracker w =
      run_phases steps (widest_table workload)
        (init (tracker.budget.max_product + 1) reference workload canary tracker) w
      >>= λ end. done (conclude end)

  -- The loop of `Measure`.
  unfoldable pub measuring : List Settings → Runner F → World → Exec (Bool × Runner F × World)
  measuring [] r w = done (false, r, w)
  measuring (s ∷ ss) r w = try_setting s try r w >>= after_split (measuring ss)

  -- `Measure`.
  unfoldable pub measure :
      List Settings → Inventory → Canary → Tracker → World → Exec (Runner F × World)
  measure settings reference canary tracker w =
      measuring settings (init max_int reference workload canary tracker) w >>= λ end.
      done (conclude end)
