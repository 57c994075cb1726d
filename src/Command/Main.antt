-- ===== src/Command/Main.antt =====
-- `run` of cmd/snmptune/main.go. The files, the dialling and the terminal are its host's.
use snmptune.Prelude.{
  ℕ, Bool, ◌&&◌, ◌||◌, not, Option, none, some, List, [], ◌∷◌, ◌++◌, ltb, if◌then◌else◌,
}
use snmptune.Text.{Text, codes, text_eq}
use snmptune.Agent.{Environment, Error}
use snmptune.Exec.{Exec, done, ◌>>=◌}
use snmptune.Float.{FloatOps}
use snmptune.Inventory.{Inventory}
use snmptune.Inventory.Walk
use snmptune.Safety.{Canary, Tracker, new_canary, start_tracker}
use snmptune.Search.{Outcome, Runner}
use snmptune.Search.Phases
use snmptune.Search.Plan.{Plan, plan}
use snmptune.Workload.{Workload}
use snmptune.Workload.Inventory.{is_whole_tree}
use snmptune.Workload.Group.{Node, Read, Loaded, unreadable, unparsable, no_group, loaded}
use snmptune.Text.{is_named}
use snmptune.Report.View.{Report, View, build, view}
use snmptune.Report.Lines.{Document, document, opennms}
use snmptune.Command.Options.{UsageError, refused, accepted, Options, is_empty, parse}
use snmptune.Command.Prepare.{
  Warning, whole_tree, with_canonical, load_group, roots_of, planned_workload, sort_out,
  complete_inventory, trial_workload, nothing_to_try, show_wide,
}

-- The part of `agent.Config` that the options set.
pub record Config : Type 0 where
  pub target : Text
  pub port : ℕ
  pub community : Text
  pub timeout : ℕ
  pub retries : ℕ

-- What the trials found, and what is printed of it.
pub data Printed (F : Type 0) : Type 0 where
  json : View F → Printed F
  definition : Text → Printed F
  text : Document F → Printed F

-- How `run` ends. A `Loaded` that is not `loaded` is an error of the group file.
pub data Ending (F : Type 0) : Type 0 where
  usage : UsageError → Ending F
  version_shown : Ending F
  bad_group : Loaded → Ending F
  log_not_opened : Text → Ending F
  planned : Bool → Plan F → Ending F
  not_dialled : Error → Ending F
  preflight_failed nothing_complete : Ending F
  reference_failed wide_failed : Error → Ending F
  not_marshalled : Text → Ending F
  reported : Outcome F → Report F → Printed F → Ending F

unfoldable pub exit_code : {F : Type 0} → Ending F → ℕ
exit_code (usage e) = 2
exit_code version_shown = 0
exit_code (bad_group l) = 2
exit_code (log_not_opened e) = 2
exit_code (planned b p) = 0
exit_code (not_dialled e) = 1
exit_code preflight_failed = 1
exit_code nothing_complete = 1
exit_code (reference_failed e) = 1
exit_code (wide_failed e) = 1
exit_code (not_marshalled e) = 1
exit_code (reported o r p) = elim o.aborted [
  | some a ↦ 1
  | none ↦ elim r.recommendation [ none ↦ 1 | some c ↦ 0 ]
]

-- What `run` calls of the system. `with_timeout` is `context.WithTimeout`; a log that is open does not
-- change what follows.
pub record Host (env : Environment) (float : FloatOps) : Type 0 where
  pub read_file : Text → Read Text
  pub unmarshal : Text → Read Node
  pub open_log : Text → Environment.World env → Option Text × Environment.World env
  pub with_timeout : ℕ → Environment.World env → Environment.World env
  pub dial : Config → Environment.World env → Option Error × Environment.World env
  pub marshal_error : View (FloatOps.F float) → Option Text
  pub is_terminal : Bool

-- The lines on stderr that warn come with the ending.
abbrev pub Finish : Type 0 → Type 0 → Type 0
Finish F W = Ending F × List Warning × W

module _ (env : Environment) (float : FloatOps) (host : Host env float) (fuel steps : ℕ) where
  open env use {World}
  open float use {F}
  open host use {read_file, unmarshal, open_log, with_timeout, dial, marshal_error, is_terminal}

  unfoldable pub is_colored : Options F → Bool
  is_colored o = text_eq o.color (codes "always") || (text_eq o.color (codes "auto") && is_terminal)

  -- The report is printed.
  unfoldable pub print_report : Options F → Outcome F → Report F → Ending F
  print_report o outcome r =
      if o.json_out
      then elim (marshal_error (view float r)) [
        | some e ↦ not_marshalled e
        | none ↦ reported outcome r (json (view float r))
      ]
      else if text_eq o.format (codes "opennms")
      then reported outcome r (definition (opennms r))
      else reported outcome r (text (document float r))

  unfoldable pub make_report : Options F → Inventory → Outcome F → Report F
  make_report o shown outcome = record (build float o.target shown outcome o.mtu) {
    color = is_colored o;
  }

  -- The trials.
  unfoldable pub search :
      Options F → Workload → Inventory → Canary → Tracker → World → Exec (Runner F × World)
  search o workload reference canary tracker w = elim o.settings [
    | [] ↦ Phases.run env float workload o.search fuel steps reference canary tracker w
    | s ∷ ss ↦ Phases.measure env float workload o.search fuel (s ∷ ss) reference canary tracker w
  ]

  unfoldable pub after_search :
      Options F → Inventory → List Warning → Runner F × World → Finish F World
  after_search o shown warnings (r, w) =
      (print_report o r.out (make_report o shown r.out), warnings, w)

  -- Behind the reference: `workload` has something to try.
  unfoldable pub after_reference :
      Options F
      → Workload
      → Inventory
      → Canary
      → Tracker
      → List Warning
      → Option Error × Inventory × World
      → Exec (Finish F World)
  after_reference o workload reference canary tracker warnings (some e, shown, w) =
      done (wide_failed e, warnings, w)
  after_reference o workload reference canary tracker warnings (none, shown, w) =
      search o workload reference canary tracker w >>= λ end.
      done (after_search o shown warnings end)

  -- The walk of the reference tree, if there is one: `shown`.
  unfoldable pub add_wide :
      Inventory → Option Error × Inventory × World → Option Error × Inventory × World
  add_wide ref (some e, wide, w) = (some e, wide, w)
  add_wide ref (none, wide, w) = (none, show_wide ref wide, w)

  unfoldable pub walk_wide : Options F → Inventory → World → Exec (Option Error × Inventory × World)
  walk_wide o ref w =
      if is_named o.reference_tree
      then (Walk.walk env fuel o.budget.max_oids (o.reference_tree ∷ []) w >>= λ end.
          done (add_wide ref end))
      else done (none, ref, w)

  unfoldable pub after_walk :
      Options F
      → Workload
      → Canary
      → Tracker
      → List Warning
      → Option Error × Inventory × World
      → Exec (Finish F World)
  after_walk o group canary tracker warnings (some e, ref, w) =
      done (reference_failed e, warnings, w)
  after_walk o group canary tracker warnings (none, ref, w) =
      let workload = trial_workload o.oids ref group in
      let warned = warnings ++ (sort_out ref).warnings in
      if nothing_to_try workload
      then done (nothing_complete, warned, w)
      else (walk_wide o ref w
          >>= after_reference o workload (complete_inventory ref) canary tracker warned)

  -- Behind the canary: the tracker starts, and the reference is walked.
  unfoldable pub after_canary :
      Options F → Workload → List Warning → Option Canary × World → Exec (Finish F World)
  after_canary o group warnings (none, w) = done (preflight_failed, warnings, w)
  after_canary o group warnings (some canary, w) =
      let (tracker, w1) =
        start_tracker env (record { budget = o.budget; trials = 0; start = 0 }) w in
      Walk.walk env fuel o.budget.max_oids (roots_of o group) w1
      >>= after_walk o group canary tracker warnings

  unfoldable pub after_dial :
      Options F → Workload → List Warning → Option Error × World → Exec (Finish F World)
  after_dial o group warnings (some e, w) = done (not_dialled e, warnings, w)
  after_dial o group warnings (none, w) = after_canary o group warnings (new_canary env w)

  unfoldable pub config : Options F → Config
  config o = record {
    target = o.target;
    port = o.port;
    community = o.community;
    timeout = o.timeout;
    retries = o.retries;
  }

  unfoldable pub bounded : Options F → World → World
  bounded o w = if ltb 0 o.budget.max_duration then with_timeout o.budget.max_duration w else w

  unfoldable pub after_log :
      Options F → Workload → List Warning → Option Text × World → Exec (Finish F World)
  after_log o group warnings (some e, w) = done (log_not_opened e, warnings, w)
  after_log o group warnings (none, w) = after_dial o group warnings (dial (config o) (bounded o w))

  unfoldable pub log_opened : Options F → World → Option Text × World
  log_opened o w = if is_named o.pdu_log then open_log o.pdu_log w else (none, w)

  unfoldable pub warnings_of : List Text → List Warning
  warnings_of rs = if is_whole_tree rs then whole_tree ∷ [] else []

  -- Behind the group: a dry run sends nothing.
  unfoldable pub after_group : Options F → World → Loaded → Exec (Finish F World)
  after_group o w (unreadable e) = done (bad_group (unreadable e), [], w)
  after_group o w (unparsable e) = done (bad_group (unparsable e), [], w)
  after_group o w (no_group n ns) = done (bad_group (no_group n ns), [], w)
  after_group o w (loaded group) =
      let warnings = warnings_of (roots_of o group) in
      if o.dry_run
      then (plan steps (planned_workload o group) o.budget o.search >>= λ p.
          done (planned (not (is_empty o.oids)) p, warnings, w))
      else after_log o group warnings (log_opened o w)

  -- `run`, behind `parse`.
  unfoldable pub run_options : Options F → World → Exec (Finish F World)
  run_options o w =
      if o.show_version
      then done (version_shown, [], w)
      else after_group (with_canonical o) w (load_group read_file unmarshal (with_canonical o))

  -- `run`, for what `fs.Parse` makes of the arguments.
  unfoldable pub run : Option (Options F) → World → Exec (Finish F World)
  run args w = elim (parse args) [
    | refused e ↦ done (usage e, [], w)
    | accepted o ↦ run_options o w
  ]
