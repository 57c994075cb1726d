-- ===== src/Search/Trials/Ends.antt =====
-- `trial` ends by the deadline of its walks, without a panic.
use snmptune.Prelude.{
  ℕ, zero, suc, ◌+◌, ◌≤◌, ◌<◌, List, [], ◌∷◌, ◌||◌, arith, leb, Bool-cases, Option-cases, inl, inr,
}
use snmptune.Agent.{Environment, sys_up_time_oid}
use snmptune.Agent.Deadline.{Deadline}
use snmptune.Exec.{done, Ends, >>=-Ends}
use snmptune.Float.{FloatOps}
use snmptune.Safety.{
  Tracker, Verdict, ok, restarted, lost, stressed, exhausted, elapsed, cooldown, probe,
}
use snmptune.Slices.{contains}
use snmptune.Walk.{Settings, Result, product, settings_eq}
use snmptune.Walk.Run
use snmptune.Walk.Run.{RunEnd, ran, aborted}
use snmptune.Walk.Run.Scope.{run-keeps, HaveArcs}
use snmptune.Workload.{Workload}
use snmptune.Search.{Label, Options, Runner}
use snmptune.Search.Trials.{
  Repeat, leave, finished_run, lower_ceiling, interrupted, after_walk, measure_run, on_verdict,
  repeat, next_repeat, repeats, begin, within_budget, trial, is_failed,
}

module _ (env : Environment) (limit : Deadline env) (float : FloatOps) (workload : Workload)
    (opts : Options (FloatOps.F float)) (fuel : ℕ) (arcs : HaveArcs workload.tables) where
  open env use {World, get, ctx_err, sleep, now}
  open limit use {remaining, get_keeps, ctx_keeps, now_keeps, sleep_keeps}
  open float use {F}

  -- No call gives time back.
  abbrev pub Later : {A : Type 0} → World → A × Runner F × World → Type 0
  Later w0 (a, r, w) = remaining w ≤ remaining w0

  interrupted-keeps :
      (s : Settings) (phase : Label) (runs : List Result) (r : Runner F) (w : World)
      → remaining (interrupted env float s phase runs r w).2 ≤ remaining w
  unfolding interrupted
  interrupted-keeps s phase runs r w = elim (Option-cases (ctx_err w).0) [
    | inl e ↦ rw (e, interrupted) (ctx_keeps w)
    | inr (x, e) ↦ rw (e, interrupted) (ctx_keeps w)
  ]

  after_walk-keeps :
      (s : Settings) (phase : Label) (runs : List Result) (r : Runner F) (end : RunEnd) (w : World)
      → remaining (after_walk env float workload opts fuel s phase runs r (end, w)).2 ≤ remaining w
  unfolding after_walk
  after_walk-keeps s phase runs r (ran res) w = omega arith
  after_walk-keeps s phase runs r (aborted res e) w = interrupted-keeps s phase runs _ w

  measure_run-Ends :
      (s : Settings) (phase : Label) (runs : List Result) (r : Runner F) (w0 w : World)
      → remaining w < fuel
      → remaining w ≤ remaining w0
      → Ends (Later w0) (measure_run env float workload opts fuel s phase runs r w)
  unfolding measure_run
  measure_run-Ends s phase runs r w0 w lt le =
      >>=-Ends (λ (a : RunEnd × World). remaining a.1 ≤ remaining w) (Later w0)
        (Run.run env fuel workload s w)
        (λ end. done (after_walk env float workload opts fuel s phase runs r end))
        (run-keeps env limit fuel workload s w lt arcs)
        (λ (end, w') k. omega (arith, after_walk-keeps s phase runs r end w'))

  on_verdict-Ends :
      (v : Verdict) (i : ℕ) (s : Settings) (phase : Label) (runs : List Result) (r : Runner F)
      (w0 w : World)
      → remaining w < fuel
      → remaining w ≤ remaining w0
      → Ends (Later w0) (on_verdict env float workload opts fuel v i s phase runs r w)
  unfolding on_verdict
  on_verdict-Ends restarted i s phase runs r w0 w lt le = le
  on_verdict-Ends lost i s phase runs r w0 w lt le = le
  on_verdict-Ends stressed i s phase runs r w0 w lt le =
      elim (Bool-cases (leb (lower_ceiling phase r).ceiling (product s))) [
        | inl e ↦ rw e le
        | inr e ↦ rw e (measure_run-Ends s phase runs (lower_ceiling phase r) w0 w lt le)
      ]
  on_verdict-Ends ok i s phase runs r w0 w lt le = measure_run-Ends s phase runs r w0 w lt le

  repeat-Ends :
      (i : ℕ) (s : Settings) (phase : Label) (runs : List Result) (r : Runner F) (w : World)
      → remaining w < fuel
      → Ends (Later w) (repeat env float workload opts fuel i s phase runs r w)
  unfolding repeat probe
  repeat-Ends i s phase runs r w lt =
      let w1 = sleep (cooldown opts.cooldown r.prev_run) w in
      let (ended, r', w2) = interrupted env float s phase runs r w1 in
      let less : remaining w2 ≤ remaining w = omega (
        arith,
        sleep_keeps (cooldown opts.cooldown r.prev_run) w,
        interrupted-keeps s phase runs r w1,
      ) in
      let asked : remaining (get (sys_up_time_oid ∷ []) w2).1 ≤ remaining w2 =
        get_keeps (sys_up_time_oid ∷ []) w2 in
      elim (Bool-cases ended) [
        | inl e ↦ rw e less
        | inr e ↦ rw e (on_verdict-Ends _ i s phase runs _ w _ (omega arith) (omega arith))
      ]

  repeats-Ends :
      (left i : ℕ) (s : Settings) (phase : Label) (runs : List Result) (r : Runner F) (w0 w : World)
      → remaining w < fuel
      → remaining w ≤ remaining w0
      → Ends (Later w0) (repeats env float workload opts fuel left i s phase runs r w)
  unfolding repeats next_repeat
  repeats-Ends zero i s phase runs r w0 w lt le = le
  repeats-Ends (suc left) i s phase runs r w0 w lt le =
      >>=-Ends (Later w) (Later w0) (repeat env float workload opts fuel i s phase runs r w)
        (next_repeat env float workload opts fuel s phase runs
          (repeats env float workload opts fuel left (i + 1) s phase))
        (repeat-Ends i s phase runs r w lt)
        (after (λ rs r' w' lt' le'. repeats-Ends left (i + 1) s phase rs r' w0 w' lt' le'))
    where
      after :
          ((rs : List Result) (r' : Runner F) (w' : World)
            → remaining w' < fuel
            → remaining w' ≤ remaining w0
            → Ends (Later w0) (repeats env float workload opts fuel left (i + 1) s phase rs r' w'))
          → (a : Repeat F × Runner F × World) → Later w a
          → Ends (Later w0) (
              next_repeat env float workload opts fuel s phase runs
                (repeats env float workload opts fuel left (i + 1) s phase)
                a)
      after loop (leave end, r', w') k = omega arith
      after loop (finished_run res, r', w') k =
          elim (Bool-cases (is_failed env float workload opts fuel res)) [
            | inl e ↦ rw (e, next_repeat) (omega arith)
            | inr e ↦ rw (e, next_repeat) (loop _ r' w' (omega arith) (omega arith))
          ]

  exhausted-keeps : (t : Tracker) (w : World) → remaining (exhausted env t w).1 ≤ remaining w
  unfolding exhausted elapsed
  exhausted-keeps t w = ground (arith, now_keeps w)

  within_budget-Ends :
      (s : Settings) (phase : Label) (r : Runner F) (w0 w : World)
      → remaining w < fuel
      → remaining w ≤ remaining w0
      → Ends (Later w0) (within_budget env float workload opts fuel s phase r w)
  unfolding within_budget begin
  within_budget-Ends s phase r w0 w lt le =
      let kept = exhausted-keeps r.tracker w in
      elim (Option-cases (exhausted env r.tracker w).0) [
        | inr (x, e) ↦ rw (e, within_budget) (omega arith)
        | inl e ↦
            rw (e, within_budget)
              (repeats-Ends opts.repeats 0 s phase [] _ w0 _ (omega arith) (omega arith))
      ]

  pub trial-Ends :
      (s : Settings) (phase : Label) (r : Runner F) (w : World)
      → remaining w < fuel
      → Ends (Later w) (trial env float workload opts fuel s phase r w)
  unfolding trial
  trial-Ends s phase r w lt =
      elim (Bool-cases (leb r.ceiling (product s) || contains settings_eq r.measured s)) [
        | inl e ↦ rw e (omega arith)
        | inr e ↦
            let kept = interrupted-keeps s phase [] r w in
            rw e (elim (Bool-cases (interrupted env float s phase [] r w).0) [
              | inl k ↦ rw k kept
              | inr k ↦ rw k (within_budget-Ends s phase _ w _ (omega arith) kept)
            ])
      ]
