-- ===== src/Search/Phases/Total.antt =====
-- `Run` and `Measure` return, and keep their promises.
use snmptune.Prelude.{ℕ, ◌+◌, ◌^◌, ◌<◌, ◌≡◌, refl, Bool, List, All}
use snmptune.Agent.{Environment}
use snmptune.Agent.Deadline.{Deadline}
use snmptune.Exec.{done, Ends, >>=-Ends, Ends-Ensures}
use snmptune.Float.{FloatOps}
use snmptune.Inventory.{Inventory}
use snmptune.Safety.{Canary, Tracker}
use snmptune.Walk.{Settings, product}
use snmptune.Walk.Run.Scope.{HaveArcs}
use snmptune.Workload.{Workload, widest_table}
use snmptune.Search.{Options, Runner}
use snmptune.Search.Guarded.{IsGuarded}
use snmptune.Search.Phases.{init, conclude, run_phases, run, measuring, max_int}
use snmptune.Search.Phases.Ends.{EndGoes, run_phases-Ends, measuring-Ends}
use snmptune.Search.Phases.Promises.{
  Kept, run-Kept_when_done, run_phases-IsGuarded_when_done, measure-IsGuarded_when_done,
}

module _ (env : Environment) (limit : Deadline env) (float : FloatOps) (workload : Workload)
    (opts : Options (FloatOps.F float)) (fuel : ℕ) (arcs : HaveArcs workload.tables) where
  open env use {World}
  open limit use {remaining}
  open float use {F}

  pub init-max_product :
      (ceiling : ℕ) (reference : Inventory) (canary : Canary) (tracker : Tracker)
      → (init {F = F} ceiling reference workload canary tracker).tracker.budget.max_product
        ≡ tracker.budget.max_product
  unfolding init
  init-max_product ceiling reference canary tracker = refl

  -- Under a deadline that leaves less time than the fuel, for columns with at least one arc each, with
  -- an unused tracker and a `MaxProduct` below 2^31 and below the number of steps, `Run` returns and
  -- does not panic, whatever the agent answers. Its outcome has only trials whose product is at most
  -- `MaxProduct`, each at another setting, and no more of them than `MaxTrials` if that is not 0; this
  -- holds of aborted runs too.
  pub run_promises :
      (steps : ℕ) (reference : Inventory) (canary : Canary) (tracker : Tracker) (w : World)
      → remaining w < fuel
      → tracker.trials ≡ 0
      → tracker.budget.max_product < 2 ^ 31
      → tracker.budget.max_product < steps
      → Ends
          (λ (e : Runner F × World).
            Kept (tracker.budget.max_product + 1) tracker.budget.max_trials e.0.out.trials)
          (run env float workload opts fuel steps reference canary tracker w)
  unfolding run
  run_promises steps reference canary tracker w lt unused small enough =
      Ends-Ensures (λ _. Unit) _ _ returns
        (run-Kept_when_done env float workload opts fuel steps reference canary tracker w unused)
    where
      returns :
          Ends
            (λ (_ : Runner F × World). Unit)
            (run env float workload opts fuel steps reference canary tracker w)
      returns =
          >>=-Ends
            (EndGoes env limit float workload opts fuel arcs tracker.budget.max_product small)
            (λ _. Unit)
            (run_phases env float workload opts fuel steps (widest_table workload)
              (init (tracker.budget.max_product + 1) reference workload canary tracker) w)
            (λ end. done (conclude env float workload opts fuel end))
            (run_phases-Ends env limit float workload opts fuel arcs tracker.budget.max_product
              small steps (widest_table workload)
              (init (tracker.budget.max_product + 1) reference workload canary tracker) w enough
              (lt, init-max_product _ reference canary tracker))
            (λ end k. tt)

  -- Under a deadline that leaves less time than the fuel, for columns with at least one arc each, with
  -- an unused tracker and a `MaxProduct` below 2^31 and below the number of steps, the phases of `Run`
  -- return, and the trials that they recorded are guarded: behind one that failed as it was measured,
  -- only settings with smaller products are tried.
  pub run_phases-IsGuarded :
      (steps : ℕ) (reference : Inventory) (canary : Canary) (tracker : Tracker) (w : World)
      → remaining w < fuel
      → tracker.trials ≡ 0
      → tracker.budget.max_product < 2 ^ 31
      → tracker.budget.max_product < steps
      → Ends
          (λ (e : Bool × Runner F × World). IsGuarded e.1.out.trials)
          (run_phases env float workload opts fuel steps
            (widest_table workload)
            (init (tracker.budget.max_product + 1) reference workload canary tracker)
            w)
  run_phases-IsGuarded steps reference canary tracker w lt unused small enough =
      Ends-Ensures
        (EndGoes env limit float workload opts fuel arcs tracker.budget.max_product small) _ _
        (run_phases-Ends env limit float workload opts fuel arcs tracker.budget.max_product small
          steps (widest_table workload)
          (init (tracker.budget.max_product + 1) reference workload canary tracker) w enough
          (lt, init-max_product _ reference canary tracker))
        (run_phases-IsGuarded_when_done env float workload opts fuel steps reference canary tracker
          w unused)

  -- Under a deadline that leaves less time than the fuel, for columns with at least one arc each, and
  -- with an unused tracker and a `MaxProduct` below 2^31, the loop of `Measure` returns for every list
  -- of settings whose products are below 2^63, so that they do not wrap as an int. Behind a setting that failed as it was measured it tries only settings with smaller
  -- products: a requested setting at or above its product is left out.
  pub measure-IsGuarded :
      (ss : List Settings) (reference : Inventory) (canary : Canary) (tracker : Tracker) (w : World)
      → All (λ s. product s < 2 ^ 63) ss
      → remaining w < fuel
      → tracker.trials ≡ 0
      → tracker.budget.max_product < 2 ^ 31
      → Ends
          (λ (e : Bool × Runner F × World). IsGuarded e.1.out.trials)
          (measuring env float workload opts fuel ss
            (init max_int reference workload canary tracker)
            w)
  measure-IsGuarded ss reference canary tracker w _ lt unused small =
      Ends-Ensures
        (EndGoes env limit float workload opts fuel arcs tracker.budget.max_product small) _ _
        (measuring-Ends env limit float workload opts fuel arcs tracker.budget.max_product small ss
          (init max_int reference workload canary tracker) w
          (lt, init-max_product _ reference canary tracker))
        (measure-IsGuarded_when_done env float workload opts fuel ss reference canary tracker w
          unused)
