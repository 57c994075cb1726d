-- ===== src/Report/View.antt =====
-- `Build`, and the document that `JSON` writes, of internal/report/report.go.
use snmptune.Prelude.{
  ℕ, suc, ◌/◌, Bool, true, false, ◌&&◌, Option, none, some, List, [], ◌∷◌, map, length, ltb, ◌==◌,
  if◌then◌else◌,
}
use snmptune.Text.{Text}
use snmptune.Float.{FloatOps}
use snmptune.Inventory.{Subtree, Inventory}
use snmptune.Walk.{Settings}
use snmptune.Search.{Trial, Outcome, Label, Failure, Abort, Limit, Note}
use snmptune.Report.{
  datagram_limit, fragments, fill_pct, max_bytes, rtts, percentile, fits_within, Recommendation,
  recommend,
}

-- `Report`; nil is no recommendation.
pub record Report (F : Type 0) : Type 0 where
  pub target : Text
  pub reference : Inventory
  pub outcome : Outcome F
  pub recommendation : Option (Recommendation F)
  pub mtu : ℕ
  pub color : Bool

pub record TrialView (F : Type 0) : Type 0 where
  pub phase : Label
  pub settings : Settings
  pub score : F
  pub p50_ms : F
  pub p99_ms : F
  pub repeats : ℕ
  pub failure : Option Failure
  pub max_bytes : ℕ
  pub fragmented : Bool
  pub fill_pct : ℕ
  pub fragments : ℕ
  pub best_unfragmented : Bool

pub record SubtreeView (F : Type 0) : Type 0 where
  pub root : Text
  pub oids : ℕ
  pub bytes : ℕ
  pub per_varbind : F
  pub columns : ℕ
  pub partial : Bool
  pub skipped : List Text

pub record View (F : Type 0) : Type 0 where
  pub target : Text
  pub reference : List (SubtreeView F)
  pub reference_pdus : ℕ
  pub trials : List (TrialView F)
  pub recommendation : Option (Recommendation F)
  pub aborted : Option Abort
  pub budget_limited : Option Limit
  pub stressed : Bool
  pub note : Option Note
  pub datagram_limit : ℕ

module _ (float : FloatOps) where
  open float use {F, of_nat, div, lt}

  -- `Build` with `WithMTU`; the caller sets the colour.
  unfoldable pub build : Text → Inventory → Outcome F → ℕ → Report F
  build target inv o mtu = record {
    target = target;
    reference = inv;
    outcome = o;
    recommendation = recommend float o (datagram_limit mtu);
    mtu = mtu;
    color = false;
  }

  -- `ms`.
  unfoldable pub ms : ℕ → F
  ms d = div (of_nat (d / 1000)) (of_nat 1000)

  -- `MeanBytesPerVarbind`.
  unfoldable pub mean_bytes : Subtree → F
  mean_bytes s =
      if length s.oids == 0 then of_nat 0 else div (of_nat s.bytes) (of_nat (length s.oids))

  -- The pointer that `bestWithin` returns, as the place of its trial. `Text` and `JSON` compare it
  -- with the place of each trial.
  abbrev pub beats_at : Trial F → Option (ℕ × Trial F) → Bool
  beats_at t none = true
  beats_at t (some (i, best)) = lt best.score t.score

  unfoldable pub best_at :
      (Trial F → Bool) → Option (ℕ × Trial F) → ℕ → List (Trial F) → Option (ℕ × Trial F)
  best_at test best i [] = best
  best_at test best i (t ∷ ts) =
      best_at test (if test t && beats_at t best then some (i, t) else best) (suc i) ts

  unfoldable pub best_place : Outcome F → ℕ → Option (ℕ × Trial F)
  best_place o limit = best_at (fits_within float limit) none 0 o.trials

  abbrev pub is_at : ℕ → Option (ℕ × Trial F) → Bool
  is_at i none = false
  is_at i (some (j, t)) = i == j

  unfoldable pub trial_view : ℕ → Bool → Trial F → TrialView F
  trial_view mtu best t =
      let d = (rtts t).0 in
      let mb = max_bytes t in
      record {
        phase = t.phase;
        settings = t.settings;
        score = t.score;
        p50_ms = ms (percentile float d (of_nat 50));
        p99_ms = ms (percentile float d (of_nat 99));
        repeats = length t.runs;
        failure = t.failure;
        max_bytes = mb;
        fragmented = ltb (datagram_limit mtu) mb;
        fill_pct = fill_pct mb (datagram_limit mtu);
        fragments = fragments mb mtu;
        best_unfragmented = best;
      }

  -- The loop over the trials.
  unfoldable pub trial_views : ℕ → Option (ℕ × Trial F) → ℕ → List (Trial F) → List (TrialView F)
  trial_views mtu best i [] = []
  trial_views mtu best i (t ∷ ts) =
      trial_view mtu (is_at i best) t ∷ trial_views mtu best (suc i) ts

  unfoldable pub subtree_view : Subtree → SubtreeView F
  subtree_view st = record {
    root = st.root;
    oids = length st.oids;
    bytes = st.bytes;
    per_varbind = mean_bytes st;
    columns = length st.columns;
    partial = st.partial;
    skipped = st.skipped;
  }

  -- The value that `JSON` marshals.
  unfoldable pub view : Report F → View F
  view r =
      let limit = datagram_limit r.mtu in
      record {
        target = r.target;
        reference = map subtree_view r.reference.subtrees;
        reference_pdus = r.reference.pdus;
        trials = trial_views r.mtu (best_place r.outcome limit) 0 r.outcome.trials;
        recommendation = r.recommendation;
        aborted = r.outcome.aborted;
        budget_limited = r.outcome.budget_limited;
        stressed = r.outcome.stressed;
        note = r.outcome.note;
        datagram_limit = limit;
      }
