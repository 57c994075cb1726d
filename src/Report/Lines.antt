-- ===== src/Report/Lines.antt =====
-- `Text` and `OpenNMS` of internal/report/report.go. `Text` is the list of what its lines show; the
-- fixed wording and the padding of the columns are left out.
use snmptune.Prelude.{
  ℕ, suc, ◌-◌, Bool, true, false, ◌&&◌, not, Option, none, some, List, [], ◌∷◌, ◌++◌, map, length,
  ltb, if◌then◌else◌,
}
use snmptune.Text.{Text, codes, format_uint}
use snmptune.Float.{FloatOps}
use snmptune.Inventory.{Subtree, is_table}
use snmptune.Inventory
use snmptune.Walk.{Settings}
use snmptune.Search.{
  Trial, Outcome, Label, Failure, Abort, Limit, Note, exceeds_max_product, not_tried,
  failed_bisecting, plateau, stressed_after, ok,
}
use snmptune.Report.{
  datagram_limit, fragments, fill_pct, max_bytes, rtts, percentile, all_requested, Recommendation,
  Reason,
}
use snmptune.Report.View.{Report, ms, mean_bytes, best_place, is_at}

pub data Banner : Type 0 where
  no_banner : Banner
  aborted : Abort → Banner
  budget_limited : Limit → Banner

-- `fragmentDetail`: the fragments, and the bytes above the limit.
pub record Detail : Type 0 where
  pub fragments : ℕ
  pub over : ℕ

unfoldable pub fragment_detail : ℕ → ℕ → Detail
fragment_detail payload mtu = record {
  fragments = fragments payload mtu;
  over = payload - datagram_limit mtu;
}

pub data Mark : Type 0 where
  clean best : Mark
  clean_fragmented : Detail → Mark
  failed : Option Failure → Mark
  failed_fragmented : Detail → Option Failure → Mark

pub data Color : Type 0 where
  plain red green : Color

-- The three numbers of a clean trial: its score, p50 and p99.
pub record TrialLine (F : Type 0) : Type 0 where
  pub phase : Label
  pub settings : Settings
  pub measured : Option (F × F × F)
  pub max_bytes : ℕ
  pub fill : ℕ
  pub mark : Mark
  pub color : Color

-- `columns` is none for a subtree that is no table.
pub record SubtreeLine (F : Type 0) : Type 0 where
  pub root : Text
  pub oids : ℕ
  pub per_varbind : F
  pub columns : Option ℕ
  pub skipped : List Text

pub data Notice : Type 0 where
  noted : Note → Notice
  stressed_but_measured stressed_and_stopped : Notice

pub record Size : Type 0 where
  pub bytes : ℕ
  pub fill : ℕ
  pub over : Option Detail

pub record Advice (F : Type 0) : Type 0 where
  pub settings : Settings
  pub timeout_ms : ℕ
  pub p99_ms : F
  pub retry : ℕ
  pub size : Size
  pub peak : Settings
  pub reason : Reason F

pub record Document (F : Type 0) : Type 0 where
  pub banner : Banner
  pub target : Text
  pub total : ℕ
  pub count : ℕ
  pub pdus : ℕ
  pub duration : ℕ
  pub partial : Bool
  pub subtrees : List (SubtreeLine F)
  pub trials : List (TrialLine F)
  pub limit : ℕ
  pub mtu : ℕ
  pub notices : List Notice
  pub advice : Option (Advice F)

unfoldable pub banner_of : {F : Type 0} → Outcome F → Banner
banner_of o = elim o.aborted [
  | some a ↦ aborted a
  | none ↦ elim o.budget_limited [ some l ↦ budget_limited l | none ↦ no_banner ]
]

-- `strings.Contains(note, "stress")`, by what the notes say.
unfoldable pub mentions_stress : Option Note → Bool
mentions_stress none = false
mentions_stress (some (exceeds_max_product s)) = false
mentions_stress (some (not_tried s)) = true
mentions_stress (some (failed_bisecting s)) = false
mentions_stress (some (plateau s)) = false
mentions_stress (some (stressed_after s)) = true

unfoldable pub notices_of : {F : Type 0} → Outcome F → List Notice
notices_of o =
    let first : List Notice = elim o.note [ none ↦ [] | some n ↦ noted n ∷ [] ] in
    if o.stressed && not (mentions_stress o.note)
    then (if all_requested o
        then first ++ stressed_but_measured ∷ []
        else first ++ stressed_and_stopped ∷ [])
    else first

-- The `mark` of a line.
unfoldable pub mark_of : {F : Type 0} → ℕ → Bool → Trial F → Mark
mark_of mtu is_best t =
    let mb = max_bytes t in
    let fragmented = ltb (datagram_limit mtu) mb in
    if ok t
    then (if fragmented
        then clean_fragmented (fragment_detail mb mtu)
        else if is_best
        then best
        else clean)
    else if fragmented
    then failed_fragmented (fragment_detail mb mtu) t.failure
    else failed t.failure

-- `paint`.
unfoldable pub paint : Bool → Color → Color
paint colored c = if colored then c else plain

unfoldable pub color_of : {F : Type 0} → Bool → ℕ → Bool → Trial F → Color
color_of colored mtu is_best t =
    if ltb (datagram_limit mtu) (max_bytes t)
    then paint colored red
    else if ok t && is_best
    then paint colored green
    else plain

unfoldable pub size_of : ℕ → ℕ → Size
size_of bytes mtu =
    let limit = datagram_limit mtu in
    record {
      bytes = bytes;
      fill = fill_pct bytes limit;
      over = if ltb limit bytes then some (fragment_detail bytes mtu) else none;
    }

module _ (float : FloatOps) where
  open float use {F, of_nat}

  unfoldable pub subtree_line : Subtree → SubtreeLine F
  subtree_line st = record {
    root = st.root;
    oids = length st.oids;
    per_varbind = mean_bytes float st;
    columns = if is_table st then some (length st.columns) else none;
    skipped = st.skipped;
  }

  unfoldable pub trial_line : Bool → ℕ → Bool → Trial F → TrialLine F
  trial_line colored mtu is_best t =
      let d = (rtts t).0 in
      record {
        phase = t.phase;
        settings = t.settings;
        measured =
            if ok t
            then some (
              t.score,
              ms float (percentile float d (of_nat 50)),
              ms float (percentile float d (of_nat 99)),
            )
            else none;
        max_bytes = max_bytes t;
        fill = fill_pct (max_bytes t) (datagram_limit mtu);
        mark = mark_of mtu is_best t;
        color = color_of colored mtu is_best t;
      }

  -- The loop over the trials.
  unfoldable pub trial_lines :
      Bool → ℕ → Option (ℕ × Trial F) → ℕ → List (Trial F) → List (TrialLine F)
  trial_lines colored mtu place i [] = []
  trial_lines colored mtu place i (t ∷ ts) =
      trial_line colored mtu (is_at float i place) t ∷ trial_lines colored mtu place (suc i) ts

  unfoldable pub advice_of : ℕ → Recommendation F → Advice F
  advice_of mtu rec = record {
    settings = rec.settings;
    timeout_ms = rec.timeout_ms;
    p99_ms = ms float rec.p99;
    retry = rec.retry;
    size = size_of rec.max_bytes mtu;
    peak = rec.peak;
    reason = rec.reason;
  }

  -- `Text`.
  unfoldable pub document : Report F → Document F
  document r =
      let limit = datagram_limit r.mtu in
      record {
        banner = banner_of r.outcome;
        target = r.target;
        total = Inventory.total r.reference;
        count = length r.reference.subtrees;
        pdus = r.reference.pdus;
        duration = r.reference.duration;
        partial = r.reference.partial;
        subtrees = map subtree_line r.reference.subtrees;
        trials = trial_lines r.color r.mtu (best_place float r.outcome limit) 0 r.outcome.trials;
        limit = limit;
        mtu = r.mtu;
        notices = notices_of r.outcome;
        advice = elim r.recommendation [ none ↦ none | some rec ↦ some (advice_of r.mtu rec) ];
      }

abbrev newline : Text
newline = 10 ∷ []

-- `OpenNMS`.
unfoldable pub opennms : {F : Type 0} → Report F → Text
opennms r = elim r.recommendation [
  | none ↦ codes "<!-- snmptune: no error-free trial, nothing to recommend -->" ++ newline
  | some rec ↦
      codes "<definition version=\"v2c\" max-repetitions=\""
      ++ format_uint rec.settings.max_repetitions
      ++ codes "\" max-vars-per-pdu=\""
      ++ format_uint rec.settings.max_vars_per_pdu
      ++ codes "\" timeout=\""
      ++ format_uint rec.timeout_ms
      ++ codes "\" retry=\""
      ++ format_uint rec.retry
      ++ codes "\">"
      ++ newline
      ++ codes "    <specific>"
      ++ r.target
      ++ codes "</specific>"
      ++ newline
      ++ codes "</definition>"
      ++ newline
]
