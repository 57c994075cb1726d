-- ===== src/Search.antt =====
-- internal/search/search.go: the data of the search. Its operations are in the modules below.
pub mod Reference
pub mod Trials
pub mod Phases
pub mod Guarded
pub mod Best
pub mod Score
pub mod Plan
pub mod Ladder
use snmptune.Prelude.{
  ℕ, zero, suc, ◌+◌, ◌*◌, ◌/◌, ◌^◌, ◌-◌, Bool, true, false, ◌&&◌, ◌||◌, not, Option, none, some,
  List, [], ◌∷◌, ◌++◌, min, max, length, get_or, ltb, leb, ◌==◌, if◌then◌else◌,
}
use snmptune.Text.{Text}
use snmptune.Agent.{Error}
use snmptune.Float.{FloatOps}
use snmptune.Safety.{Canary, Tracker, Exhaustion}
use snmptune.Slices.{sort, contains}
use snmptune.Walk.{Settings, Result, Cause, varbinds_per_second}
use snmptune.Workload.{Workload}

-- `Start`.
abbrev pub start : Settings
start = record { max_repetitions = 2; max_vars_per_pdu = 10 }

-- `SplitVars`.
abbrev pub split_vars : List ℕ
split_vars = 5 ∷ 10 ∷ 20 ∷ 50 ∷ []

-- The phase that a trial is recorded under.
pub data Label : Type 0 where
  escalate bisect split try : Label

abbrev pub is_try : Label → Bool
is_try try = true
is_try _ = false

-- `Outcome.Aborted` when it is not empty.
pub data Abort : Type 0 where
  restarted_after lost_after interrupted_during : Settings → Abort
  transport_error_during : Settings → Error → Abort

-- `Trial.Failure` when it is not empty. `stressed_before i` names the repeat `i`.
pub data Failure : Type 0 where
  run_failed : List Cause → Failure
  no_runs run_interrupted : Failure
  aborted_by : Abort → Failure
  stressed_before : ℕ → Failure

-- `Outcome.BudgetLimited` when it is not empty: the deadline of the context, or the tracker.
pub data Limit : Type 0 where
  deadline : Limit
  exhausted_budget : Exhaustion → Limit

-- `Outcome.Note` when it is not empty.
pub data Note : Type 0 where
  exceeds_max_product not_tried failed_bisecting plateau stressed_after : Settings → Note

-- `F` is the type of float64 values.
pub record Trial (F : Type 0) : Type 0 where
  pub settings : Settings
  pub phase : Label
  pub runs : List Result
  pub score : F
  pub failure : Option Failure

abbrev pub is_clean : Option Failure → Bool
is_clean none = true
is_clean (some _) = false

-- `OK`.
abbrev pub ok : {F : Type 0} → Trial F → Bool
ok t = is_clean t.failure

pub record Outcome (F : Type 0) : Type 0 where
  pub trials : List (Trial F)
  pub aborted : Option Abort
  pub budget_limited : Option Limit
  pub stressed : Bool
  pub note : Option Note

pub record Options (F : Type 0) : Type 0 where
  pub repeats : ℕ
  pub cooldown : ℕ
  pub tolerance : F
  pub plateau_gain : F

-- `Runner` without the environment and what stays fixed. `canary` and `tracker` are its own.
pub record Runner (F : Type 0) : Type 0 where
  pub out : Outcome F
  pub ceiling : ℕ
  pub last_good : ℕ
  pub start_product : ℕ
  pub prev_run : ℕ
  pub last_set : Settings
  pub ref_oids : List Text
  pub measured : List Settings
  pub canary : Canary
  pub tracker : Tracker

-- The test of the loops for the best trial: none so far, or a better score.
module _ (float : FloatOps) where
  open float use {F, of_nat, lt}

  abbrev pub beats : Trial F → Option (Trial F) → Bool
  beats t none = true
  beats t (some best) = lt best.score t.score

  -- The loop of `Peak`, for a test in the place of `OK`; `bestWithin` of the report has another.
  unfoldable pub best_from : (Trial F → Bool) → Option (Trial F) → List (Trial F) → Option (Trial F)
  best_from test best [] = best
  best_from test best (t ∷ ts) = best_from test (if test t && beats t best then some t else best) ts

  unfoldable pub peak : Outcome F → Option (Trial F)
  peak o = best_from ok none o.trials

  -- The loop of `score`: the failure of the first failed run, or the rates.
  unfoldable pub rates_from : List F → List Result → Option (List Cause) × List F
  rates_from rates [] = (none, rates)
  rates_from rates (r ∷ rs) = elim r.failure [
    | [] ↦ rates_from (rates ++ varbinds_per_second float r ∷ []) rs
    | c ∷ cs ↦ (some (c ∷ cs), rates)
  ]

  unfoldable pub median : List F → F
  median rates = get_or (sort lt rates) (length rates / 2) (of_nat 0)

  unfoldable pub score_rates :
      Settings → Label → List Result → Option (List Cause) × List F → Trial F
  score_rates s phase runs (some causes, rates) = record {
    settings = s;
    phase = phase;
    runs = runs;
    score = of_nat 0;
    failure = some (run_failed causes);
  }
  score_rates s phase runs (none, []) = record {
    settings = s;
    phase = phase;
    runs = runs;
    score = of_nat 0;
    failure = some no_runs;
  }
  score_rates s phase runs (none, r ∷ rs) = record {
    settings = s;
    phase = phase;
    runs = runs;
    score = median (r ∷ rs);
    failure = none;
  }

  unfoldable pub score : Settings → Label → List Result → Trial F
  score s phase runs = score_rates s phase runs (rates_from [] runs)

-- The loop of `splitCandidates` over `SplitVars`.
unfoldable pub candidates_from : List ℕ → ℕ → ℕ → List ℕ → List ℕ
candidates_from out v0 widest [] = out
candidates_from out v0 widest (v ∷ vs) =
    candidates_from (if not (v == v0) && (widest == 0 || leb v widest) then out ++ v ∷ [] else out)
      v0 widest vs

unfoldable pub split_candidates : ℕ → ℕ → List ℕ
split_candidates v0 widest =
    let out = candidates_from [] v0 widest split_vars in
    sort ltb (
      if ltb 0 widest && not (widest == v0) && not (contains ◌==◌ out widest)
      then out ++ widest ∷ []
      else out)
