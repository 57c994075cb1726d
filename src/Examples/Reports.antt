-- ===== src/Examples/Reports.antt =====
-- The theorems about what a report shows, at a report with a fragmented trial.
use snmptune.Prelude.{ℕ, ◌≤◌, ◌<◌, ◌≡◌, ◌↔◌, ◌⊎◌, true, false, none, some, [], ◌∷◌, arith, All}
use snmptune.Text.{codes}
use snmptune.Float.{fixed_point}
use snmptune.Slices.Sorted.{ltb-WeakOrder}
use snmptune.Walk.{getbulk, Pdu, new_result}
use snmptune.Search.{Trial, Outcome}
use snmptune.Search.Best.{IsBest}
use snmptune.Report.{fits_within}
use snmptune.Report.View.{best_place, trial_view, view, build}
use snmptune.Report.Lines.{document}
use snmptune.Report.Marks.{At, best_place_lem}
use snmptune.Report.Agreement.{AllAgree, document-view, trial_view_lem}
use snmptune.Examples.Searches.{reference, outcome, clean_trial, at}

abbrev big_response : Pdu
big_response = record {
  seq = 1;
  sent = 0;
  kind = getbulk;
  repeaters = 10;
  max_reps = 16;
  requested = 160;
  rows = 16;
  varbinds = 160;
  bytes = 1600;
  rtt = 5_000_000;
  retries = 0;
  truncated = false;
  error = none;
}

abbrev fragmented_trial : Trial ℕ
fragmented_trial = record (clean_trial 16 3000) {
  runs = record (new_result (at 16)) { pdus = big_response ∷ [] } ∷ [];
}

abbrev mixed : Outcome ℕ
mixed = record outcome { trials = fragmented_trial ∷ outcome.trials }

best_place_lem_example :
    ((best_place fixed_point mixed 1472 ≡ none)
      × All (λ t. fits_within fixed_point 1472 t ≡ false) mixed.trials)
    ⊎ ((k : ℕ) × (x : Trial ℕ) × (best_place fixed_point mixed 1472 ≡ some (k, x))
        × At mixed.trials k x
        × IsBest fixed_point (fits_within fixed_point 1472) mixed.trials x)
best_place_lem_example = best_place_lem fixed_point ltb-WeakOrder mixed 1472

document-view_example :
    AllAgree false
      (document fixed_point (build fixed_point (codes "192.0.2.1") reference mixed 1500)).trials
      (view fixed_point (build fixed_point (codes "192.0.2.1") reference mixed 1500)).trials
unfolding build
document-view_example =
    document-view fixed_point (build fixed_point (codes "192.0.2.1") reference mixed 1500)

trial_view_lem_example :
    let v = trial_view fixed_point 1500 false fragmented_trial in
    ((v.fragmented ≡ true) ↔ (1 < v.fragments))
    × (v.fragmented ≡ true → 100 ≤ v.fill_pct)
    × (v.fragmented ≡ false → v.fill_pct ≤ 100)
trial_view_lem_example = trial_view_lem fixed_point 1500 false fragmented_trial (omega arith)
