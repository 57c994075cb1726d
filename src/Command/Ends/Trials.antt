-- ===== src/Command/Ends/Trials.antt =====
-- The trials of a run, and the walk of its reference tree, return.
use snmptune.Prelude.{
  ℕ, ◌+◌, ◌^◌, ◌<◌, ◌≡◌, refl, true, Option, none, some, List, [], ◌∷◌, map, inl, inr, arith,
  Bool-cases, Option-cases,
}
use snmptune.Text.{codes, text_eq}
use snmptune.Oid
use snmptune.Agent.{Environment, Error}
use snmptune.Agent.Deadline.{Deadline}
use snmptune.Exec.{done, Ends, >>=-Ends}
use snmptune.Float.{FloatOps}
use snmptune.Inventory.{Inventory}
use snmptune.Inventory.Walk.Result.{HasArcs, WalkDone, walk-WalkDone}
use snmptune.Safety.{Canary, Tracker, Budget}
use snmptune.Search.{Outcome, Runner}
use snmptune.Search.Phases.{init, max_int, conclude, measuring, measure}
use snmptune.Search.Phases.Ends.{EndGoes, measuring-Ends}
use snmptune.Search.Phases.Promises.{Kept}
use snmptune.Search.Phases.Total.{init-max_product, run_promises}
use snmptune.Walk.{Settings}
use snmptune.Walk.Run.Scope.{HaveArcs}
use snmptune.Workload.{Workload}
use snmptune.Text.{is_named}
use snmptune.Report.View.{Report, view}
use snmptune.Command.Options.{Options}
use snmptune.Command.Prepare.{Warning}
use snmptune.Command.Main.{
  Ending, reported, Host, Finish, print_report, search, after_search, after_reference, add_wide,
  walk_wide,
}

abbrev pub BoundedFor : {F : Type 0} → Budget → List Settings → Outcome F → Type 0
BoundedFor b [] outcome = Kept (b.max_product + 1) b.max_trials outcome.trials
BoundedFor b (s ∷ ss) outcome = Unit

-- What is known of the trials that `Run` recorded.
abbrev pub Bounded : {F : Type 0} → Options F → Outcome F → Type 0
Bounded o outcome = BoundedFor o.budget o.settings outcome

abbrev pub IsBounded : {F : Type 0} → Options F → Ending F → Type 0
IsBounded o (reported outcome r p) = Bounded o outcome
IsBounded o _ = Unit

abbrev pub FinishBounded : {F W : Type 0} → Options F → Finish F W → Type 0
FinishBounded o (ending, warnings, w) = IsBounded o ending

-- The tracker of a run that started at that time.
abbrev pub started : Budget → ℕ → Tracker
started b n = record { budget = b; trials = 0; start = n }

-- A walk that leaves less time than the fuel.
abbrev pub InTime :
    (env : Environment)
    → Deadline env
    → ℕ
    → Option Error × Inventory × Environment.World env
    → Type 0
InTime env limit fuel (e, inv, w) = Deadline.remaining limit w < fuel

module _ (env : Environment) (limit : Deadline env) (float : FloatOps) (host : Host env float)
    (fuel steps : ℕ) where
  open env use {World}
  open limit use {remaining, now_keeps}
  open float use {F}
  open host use {read_file, unmarshal}

  print_report-IsBounded :
      (o : Options F) (outcome : Outcome F) (r : Report F)
      → Bounded o outcome
      → IsBounded o (print_report env float host fuel steps o outcome r)
  unfolding print_report
  print_report-IsBounded o outcome r h = elim (Bool-cases o.json_out) [
    | inl e ↦ rw e (elim (Option-cases (Host.marshal_error host (view float r))) [
      | inr (x, k) ↦ rw (k, print_report) tt
      | inl k ↦ rw (k, print_report) h
    ])
    | inr e ↦
        rw e (elim (Bool-cases (text_eq o.format (codes "opennms"))) [
          | inl k ↦ rw k h
          | inr k ↦ rw k h
        ])
  ]

  module _ (o : Options F) (small : o.budget.max_product < 2 ^ 31)
      (enough : o.budget.max_product < steps) where
    measure-Ends :
        (ss : List Settings) (workload : Workload) (reference : Inventory) (canary : Canary) (n : ℕ)
        (w : World)
        → HaveArcs workload.tables
        → remaining w < fuel
        → Ends
            (λ (e : Runner F × World). Unit)
            (measure env float workload o.search fuel ss reference canary (started o.budget n) w)
    unfolding measure
    measure-Ends ss workload reference canary n w arcs lt =
        let r = init max_int reference workload canary (started o.budget n) in
        >>=-Ends (EndGoes env limit float workload o.search fuel arcs o.budget.max_product small)
          (λ _. Unit) (measuring env float workload o.search fuel ss r w)
          (λ end. done (conclude env float workload o.search fuel end))
          (measuring-Ends env limit float workload o.search fuel arcs o.budget.max_product small ss
            r w
            (
              lt,
              init-max_product env limit float workload o.search fuel arcs max_int reference canary
                  (started o.budget n),
            ))
          (λ end k. tt)

    abbrev SearchBounded : Runner F × World → Type 0
    SearchBounded (r, w) = Bounded o r.out

    search-Bounded :
        (workload : Workload) (reference : Inventory) (canary : Canary) (n : ℕ) (w : World)
        → HaveArcs workload.tables
        → remaining w < fuel
        → Ends SearchBounded
            (search env float host fuel steps o workload reference canary (started o.budget n) w)
    unfolding search
    search-Bounded workload reference canary n w arcs lt = by_settings o.settings refl
      where
        by_settings :
            (ss : List Settings)
            → o.settings ≡ ss
            → Ends
                (λ (a : Runner F × World). BoundedFor o.budget ss a.0.out)
                (search env float host fuel steps o workload reference canary
                  (started o.budget n)
                  w)
        by_settings [] e =
            rw (e, search)
              (run_promises env limit float workload o.search fuel arcs steps reference canary
                (started o.budget n) w lt refl small enough)
        by_settings (s ∷ ss) e =
            rw (e, search) (measure-Ends (s ∷ ss) workload reference canary n w arcs lt)

    pub after_reference-Ends :
        (workload : Workload) (reference : Inventory) (canary : Canary) (n : ℕ)
        (warnings : List Warning)
        → HaveArcs workload.tables
        → (a : Option Error × Inventory × World) → (InTime env limit fuel) a
        → Ends (FinishBounded o) (
            after_reference env float host fuel steps o workload reference canary
              (started o.budget n)
              warnings
              a)
    unfolding after_reference after_search
    after_reference-Ends workload reference canary n warnings arcs (some e, shown, w) lt = tt
    after_reference-Ends workload reference canary n warnings arcs (none, shown, w) lt =
        >>=-Ends SearchBounded (FinishBounded o) _
          (λ end. done (after_search env float host fuel steps o shown warnings end))
          (search-Bounded workload reference canary n w arcs lt)
          (λ (r, w') h. print_report-IsBounded o r.out _ h)

    add_wide-InTime :
        (ref : Inventory) (w : World)
        → remaining w < fuel
        → (a : Option Error × Inventory × World)
        → WalkDone env limit (map Oid.canonical (o.reference_tree ∷ [])) w a
        → (InTime env limit fuel) (add_wide env float host fuel steps ref a)
    unfolding add_wide
    add_wide-InTime ref w lt (some e, wide, w') (h, le, r) = omega arith
    add_wide-InTime ref w lt (none, wide, w') (h, le, r) = omega arith

    pub walk_wide-keeps :
        (ref : Inventory) (w : World)
        → (is_named o.reference_tree ≡ true → HasArcs o.reference_tree)
        → remaining w < fuel
        → Ends (InTime env limit fuel) (walk_wide env float host fuel steps o ref w)
    unfolding walk_wide add_wide
    walk_wide-keeps ref w arcs lt = elim (Bool-cases (is_named o.reference_tree)) [
      | inr e ↦ rw e lt
      | inl e ↦ rw e (
          >>=-Ends (WalkDone env limit (map Oid.canonical (o.reference_tree ∷ [])) w)
            (InTime env limit fuel) _ (λ end. done (add_wide env float host fuel steps ref end))
            (walk-WalkDone env limit fuel o.budget.max_oids (o.reference_tree ∷ []) w lt
              (arcs e, tt))
            (add_wide-InTime ref w lt))
    ]
