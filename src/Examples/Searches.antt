-- ===== src/Examples/Searches.antt =====
-- The theorems about the search and its recommendation, at one small workload.
use snmptune.Prelude.{
  ℕ, ◌<◌, ◌^◌, ◌≡◌, ◌⊎◌, refl, false, none, some, [], ◌∷◌, All, arith, ◌/◌, ◌≢◌, ◌↔◌, true, ltb,
  length,
}
use snmptune.Text.{codes}
use snmptune.Exec.{Ends}
use snmptune.Float.{fixed_point}
use snmptune.Slices.Sorted.{ltb-WeakOrder, IsQuantile}
use snmptune.Inventory.{Inventory}
use snmptune.Walk.{Settings, Result, product, new_result}
use snmptune.Workload.{Workload, widest_table}
use snmptune.Search.{Trial, Outcome, Options, escalate, ok, peak, no_runs, score}
use snmptune.Search.Score.{IsClean, rates, score_lem}
use snmptune.Search.Best.{IsBest, peak_lem}
use snmptune.Search.Guarded.{IsGuarded}
use snmptune.Search.Phases.{run, run_phases, init, measuring, max_int}
use snmptune.Search.Phases.Promises.{Kept}
use snmptune.Search.Phases.Total.{run_promises, run_phases-IsGuarded, measure-IsGuarded}
use snmptune.Walk
use snmptune.Walk.Run.Ends.{collected}
use snmptune.Walk.Run.Scope.{HaveArcs, InTables, run_lem}
use snmptune.Oid
use snmptune.Text
use snmptune.Report.{Recommendation, recommend}
use snmptune.Report.Choice.{IsJustified, recommend_lem}
use snmptune.Examples.Agents.{small_agent, small_deadline, ten_requests, fresh_tracker, canary}

abbrev pub workload : Workload
workload = record {
  tables =
      record { base = codes "1.3.6.1.9"; columns = codes "1.3.6.1.9.1" ∷ codes "1.3.6.1.9.2" ∷ [] }
      ∷ [];
  scalars = [];
}

abbrev pub options : Options ℕ
options = record { repeats = 2; cooldown = 1_000_000; tolerance = 500; plateau_gain = 500 }

abbrev pub reference : Inventory
reference = record {
  subtrees =
      record {
        root = codes "1.3.6.1.9";
        oids = codes "1.3.6.1.9.1" ∷ codes "1.3.6.1.9.2" ∷ [];
        bytes = 120;
        columns = [];
        skipped = [];
        partial = false;
      }
      ∷ [];
  partial = false;
  pdus = 3;
  duration = 15_000_000;
}

abbrev pub at : ℕ → Settings
at reps = record { max_repetitions = reps; max_vars_per_pdu = 2 }

abbrev pub clean_trial : ℕ → ℕ → Trial ℕ
clean_trial reps rate = record {
  settings = at reps;
  phase = escalate;
  runs = [];
  score = rate;
  failure = none;
}

abbrev pub outcome : Outcome ℕ
outcome = record {
  trials =
      clean_trial 2 900
      ∷ clean_trial 4 1500
      ∷ record { settings = at 8; phase = escalate; runs = []; score = 0; failure = some no_runs }
      ∷ [];
  aborted = none;
  budget_limited = none;
  stressed = false;
  note = none;
}

abbrev clean_run : Result
clean_run = record (new_result (at 4)) { varbinds = 20 }

score_lem_example :
    let t = score fixed_point (at 4) escalate (clean_run ∷ []) in
    ((ok t ≡ true) ↔ (((clean_run ∷ []) ≢ []) × All IsClean (clean_run ∷ [])))
    × (ok t ≡ true
        → IsQuantile ltb
            (rates fixed_point (clean_run ∷ []))
            (length (rates fixed_point (clean_run ∷ [])) / 2)
            t.score)
score_lem_example = score_lem fixed_point ltb-WeakOrder (at 4) escalate (clean_run ∷ [])

peak_lem_example :
    ((peak fixed_point outcome ≡ none) × All (λ t. ok t ≡ false) outcome.trials)
    ⊎ ((b : Trial ℕ) × (peak fixed_point outcome ≡ some b) × IsBest fixed_point ok outcome.trials b)
peak_lem_example = peak_lem fixed_point ltb-WeakOrder outcome

recommend_lem_example :
    ((recommend fixed_point outcome 1472 ≡ none) × All (λ t. ok t ≡ false) outcome.trials)
    ⊎ ((rec : Recommendation ℕ) × (recommend fixed_point outcome 1472 ≡ some rec)
        × IsJustified fixed_point outcome 1472 rec)
recommend_lem_example = recommend_lem fixed_point ltb-WeakOrder outcome 1472

first_column-arcs : Oid.parse (Oid.canonical (codes "1.3.6.1.9.1")) ≡ 1 ∷ 3 ∷ 6 ∷ 1 ∷ 9 ∷ 1 ∷ []
unfolding Oid.parse Oid.canonical Text.trim_dot Text.split Text.parse_uint
first_column-arcs = refl

second_column-arcs : Oid.parse (Oid.canonical (codes "1.3.6.1.9.2")) ≡ 1 ∷ 3 ∷ 6 ∷ 1 ∷ 9 ∷ 2 ∷ []
unfolding Oid.parse Oid.canonical Text.trim_dot Text.split Text.parse_uint
second_column-arcs = refl

workload-HaveArcs : HaveArcs workload.tables
workload-HaveArcs = (((λ e. cc first_column-arcs), ((λ e. cc second_column-arcs), tt)), tt)

run_lem_example :
    Ends
      (λ end. All (InTables workload.tables) (collected end.0))
      (Walk.Run.run small_agent 11 workload (at 4) ten_requests)
run_lem_example =
    run_lem small_agent small_deadline 11 workload (at 4) ten_requests (omega arith)
      workload-HaveArcs

run_promises_example :
    Ends
      (λ e. Kept 41 2 e.0.out.trials)
      (run small_agent fixed_point workload options 11 50 reference canary fresh_tracker
        ten_requests)
run_promises_example =
    run_promises small_agent small_deadline fixed_point workload options 11 workload-HaveArcs 50
      reference canary fresh_tracker ten_requests (omega arith) refl (omega arith) (omega arith)

run_phases-IsGuarded_example :
    Ends
      (λ e. IsGuarded e.1.out.trials)
      (run_phases small_agent fixed_point workload options 11 50
        (widest_table workload)
        (init 41 reference workload canary fresh_tracker)
        ten_requests)
run_phases-IsGuarded_example =
    run_phases-IsGuarded small_agent small_deadline fixed_point workload options 11
      workload-HaveArcs 50 reference canary fresh_tracker ten_requests (omega arith) refl
      (omega arith) (omega arith)

small_products : All (λ s. product s < 2 ^ 63) (at 4 ∷ at 2 ∷ [])
unfolding product
small_products = (omega arith, (omega arith, tt))

measure-IsGuarded_example :
    Ends
      (λ e. IsGuarded e.1.out.trials)
      (measuring small_agent fixed_point workload options 11
        (at 4 ∷ at 2 ∷ [])
        (init max_int reference workload canary fresh_tracker)
        ten_requests)
measure-IsGuarded_example =
    measure-IsGuarded small_agent small_deadline fixed_point workload options 11 workload-HaveArcs
      (at 4 ∷ at 2 ∷ []) reference canary fresh_tracker ten_requests small_products (omega arith)
      refl (omega arith)
