-- ===== src/Command/Ends.antt =====
-- `run` of cmd/snmptune/main.go returns, whatever the agent answers.
pub mod Trials
use snmptune.Prelude.{
  ℕ, zero, suc, ◌+◌, ◌^◌, ◌≤◌, ◌<◌, ◌≡◌, ◌≢◌, refl, sym, subst, Bool, true, false, Option, none,
  some, List, [], ◌∷◌, ◌++◌, map, inl, inr, arith, All, All-append, All-mono, Bool-cases,
  Option-cases, ltb, lt→ltb,
}
use snmptune.Text.{Text, codes, text_eq}
use snmptune.Oid
use snmptune.Agent.{Environment, Error, sys_up_time_oid}
use snmptune.Agent.Deadline.{Deadline}
use snmptune.Exec.{Exec, done, Ends, >>=-Ends, Ends-mono, Ends-if}
use snmptune.Float.{FloatOps}
use snmptune.Inventory.{Subtree, Inventory}
use snmptune.Inventory.Walk
use snmptune.Inventory.Walk.Result.{HasArcs, WalkDone, walk-WalkDone}
use snmptune.Safety.{
  Canary, Tracker, Budget, baseline_loop, new_canary, note_uptime, with_baseline, start_tracker,
}
use snmptune.Search.{start, Outcome, Runner, Trial}
use snmptune.Search.Ladder.{IsLadder, plan-IsLadder}
use snmptune.Search.Plan.{Plan, plan}
use snmptune.Search.Phases.{start_vars, init, max_int, conclude, measuring, measure}
use snmptune.Search.Phases.Ends.{EndGoes, measuring-Ends}
use snmptune.Search.Phases.Promises.{Kept}
use snmptune.Search.Phases.Total.{init-max_product, run_promises}
use snmptune.Walk.{Settings}
use snmptune.Walk.Run.Scope.{HaveArcs}
use snmptune.Workload.{Table, Workload, widest_table, roots}
use snmptune.Workload.Group.{Loaded, unreadable, unparsable, no_group, loaded}
use snmptune.Text.{is_named}
use snmptune.Report.View.{Report, view}
use snmptune.Command.Options.{Options, Parsed, refused, accepted, parse}
use snmptune.Command.Prepare.{
  Warning, with_canonical, load_group, roots_of, planned_workload, sort_out, complete_inventory,
  trial_workload, trial_tables, nothing_to_try, show_wide,
}
use snmptune.Oid.Rooted.{IsRooted, canonical-IsRooted, parse-IsRooted}
use snmptune.Command.Rooted.{table_of-arcs}
use snmptune.Command.Complete.{trial_tables-All}
use snmptune.Command.Main.{
  Ending, usage, reported, not_marshalled, Config, Host, Finish, print_report, make_report, search,
  after_search, after_reference, add_wide, walk_wide, after_walk, after_canary, after_dial, bounded,
  config, after_log, log_opened, warnings_of, after_group, run_options, run,
}
use snmptune.Command.Walkable.{
  IsWalkable, GroupFine, walkable_map, IsRooted-subtrees, canonical-IsWalkable, walkable-arcs,
}
use snmptune.Command.Ends.Trials.{
  FinishBounded, started, InTime, walk_wide-keeps, after_reference-Ends,
}

module _ (env : Environment) (limit : Deadline env) where
  open env use {World, get}
  open limit use {remaining, get_keeps, now_keeps}

  baseline_loop-keeps :
      (n : ℕ) (rtts : List ℕ) (c : Canary) (w : World)
      → remaining (baseline_loop env n rtts c w).2 ≤ remaining w
  unfolding baseline_loop
  baseline_loop-keeps zero rtts c w = omega arith
  baseline_loop-keeps (suc n) rtts c w =
      let (r, w') = get (sys_up_time_oid ∷ []) w in
      elim (Option-cases r.error) [
        | inr (e, k) ↦
            rw (k, baseline_loop)
              (omega (arith, get_keeps (sys_up_time_oid ∷ []) w, baseline_loop-keeps n rtts c w'))
        | inl k ↦
            rw (k, baseline_loop)
              (omega (
                arith,
                get_keeps (sys_up_time_oid ∷ []) w,
                baseline_loop-keeps n (rtts ++ r.response.rtt ∷ []) (note_uptime c r.response) w',
              ))
      ]

  new_canary-keeps : (w : World) → remaining (new_canary env w).1 ≤ remaining w
  unfolding new_canary
  new_canary-keeps w = baseline_loop-keeps _ _ _ w

module _ (env : Environment) (limit : Deadline env) (float : FloatOps) (host : Host env float)
    (fuel steps : ℕ) where
  open env use {World}
  open limit use {remaining, now_keeps}
  open float use {F}
  open host use {read_file, unmarshal}

  module _ (o : Options F) (small : o.budget.max_product < 2 ^ 31)
      (enough : o.budget.max_product < steps) where
    module _ (tree : is_named o.reference_tree ≡ true → HasArcs o.reference_tree)
        (rooted : All IsRooted o.oids) where
      trial_workload-arcs :
          (ref : Inventory) (group : Workload)
          → All (λ st. IsRooted st.root) ref.subtrees
          → HaveArcs group.tables
          → HaveArcs (trial_workload o.oids ref group).tables
      unfolding trial_workload
      trial_workload-arcs ref group h arcs =
          All-mono _ _ (trial_tables o.oids ref group.tables) (λ t (k, _). k)
            (trial_tables-All (λ st. IsRooted st.root) _ o.oids ref group.tables table_of-arcs h
              arcs)

      after_walk-Ends :
          (group : Workload) (canary : Canary) (n : ℕ) (warnings : List Warning)
          → HaveArcs group.tables
          → (a : Option Error × Inventory × World) → (InTime env limit fuel) a
          → (a.0 ≡ none → All (λ st. IsRooted st.root) a.1.subtrees)
          → Ends
              (FinishBounded o)
              (after_walk env float host fuel steps o group canary (started o.budget n) warnings a)
      unfolding after_walk
      after_walk-Ends group canary n warnings arcs (some e, ref, w) lt h = tt
      after_walk-Ends group canary n warnings arcs (none, ref, w) lt h =
          let workload = trial_workload o.oids ref group in
          elim (Bool-cases (nothing_to_try workload)) [
            | inl e ↦ rw e tt
            | inr e ↦ rw e (
                >>=-Ends (InTime env limit fuel) (FinishBounded o)
                  (walk_wide env float host fuel steps o ref w)
                  (after_reference env float host fuel steps o workload (complete_inventory ref)
                    canary (started o.budget n) (warnings ++ (sort_out ref).warnings))
                  (walk_wide-keeps env limit float host fuel steps o small enough ref w tree lt)
                  (λ b k.
                    after_reference-Ends env limit float host fuel steps o small enough workload
                      (complete_inventory ref) canary n _
                      (trial_workload-arcs ref group (h refl) arcs) b k))
          ]

      roots_of-IsWalkable :
          (group : Workload) → All IsWalkable (roots group) → All IsWalkable (roots_of o group)
      unfolding roots_of
      roots_of-IsWalkable group h =
          All-append IsWalkable o.oids (roots group)
            (All-mono IsRooted IsWalkable o.oids canonical-IsWalkable rooted) h

      after_canary-Ends :
          (group : Workload) (warnings : List Warning)
          → GroupFine group
          → (a : Option Canary × World) → remaining a.1 < fuel
          → Ends (FinishBounded o) (after_canary env float host fuel steps o group warnings a)
      unfolding after_canary start_tracker
      after_canary-Ends group warnings fine (none, w) lt = tt
      after_canary-Ends group warnings (arcs, walkable) (some canary, w) lt =
          let (n, w1) = Environment.now env w in
          let rs = roots_of o group in
          let can_walk : All IsWalkable rs = roots_of-IsWalkable group walkable in
          >>=-Ends (WalkDone env limit (map Oid.canonical rs) w1) (FinishBounded o)
            (Walk.walk env fuel o.budget.max_oids rs w1)
            (after_walk env float host fuel steps o group canary (started o.budget n) warnings)
            (walk-WalkDone env limit fuel o.budget.max_oids rs w1 (omega (arith, now_keeps w))
              (All-mono IsWalkable HasArcs rs walkable-arcs can_walk))
            (λ (e, ref, w2) (h, le, same).
              after_walk-Ends group canary n warnings arcs (e, ref, w2) (omega (arith, now_keeps w))
                (λ q. IsRooted-subtrees ref.subtrees _ (same q) (walkable_map rs can_walk)))

      module _
          (dial_keeps : (c : Config) (w : World) → remaining (Host.dial host c w).1 ≤ remaining w)
          (timeout_bounds : (d : ℕ) (w : World) → remaining (Host.with_timeout host d w) ≤ d)
          (timed : 0 < o.budget.max_duration) (in_time : o.budget.max_duration < fuel) where
        after_dial-Ends :
            (group : Workload) (warnings : List Warning)
            → GroupFine group
            → (a : Option Error × World) → remaining a.1 < fuel
            → Ends (FinishBounded o) (after_dial env float host fuel steps o group warnings a)
        unfolding after_dial
        after_dial-Ends group warnings fine (some e, w) lt = tt
        after_dial-Ends group warnings fine (none, w) lt =
            after_canary-Ends group warnings fine (new_canary env w)
              (omega (arith, new_canary-keeps env limit w))

        bounded-remaining : (w : World) → remaining (bounded env float host fuel steps o w) < fuel
        unfolding bounded
        bounded-remaining w =
            rw (lt→ltb 0 o.budget.max_duration timed)
              (omega (arith, timeout_bounds o.budget.max_duration w))

        after_log-Ends :
            (group : Workload) (warnings : List Warning)
            → GroupFine group
            → (a : Option Text × World)
            → Ends (FinishBounded o) (after_log env float host fuel steps o group warnings a)
        unfolding after_log
        after_log-Ends group warnings fine (some e, w) = tt
        after_log-Ends group warnings fine (none, w) =
            let w1 = bounded env float host fuel steps o w in
            after_dial-Ends group warnings fine
              (Host.dial host (config env float host fuel steps o) w1)
              (omega
                (arith, dial_keeps (config env float host fuel steps o) w1, bounded-remaining w))

        pub after_group-Ends :
            (w : World) (l : Loaded)
            → ((group : Workload) → l ≡ loaded group → GroupFine group)
            → Ends (FinishBounded o) (after_group env float host fuel steps o w l)
        unfolding after_group
        after_group-Ends w (unreadable e) fine = tt
        after_group-Ends w (unparsable e) fine = tt
        after_group-Ends w (no_group n ns) fine = tt
        after_group-Ends w (loaded group) fine =
            let warnings = warnings_of env float host fuel steps (roots_of o group) in
            Ends-if (FinishBounded o) o.dry_run _ _
              (>>=-Ends
                (λ (p : Plan F).
                  IsLadder o.budget.max_product
                    (start_vars (widest_table (planned_workload o group))) start.max_repetitions
                    p.ladder)
                (FinishBounded o) (plan steps (planned_workload o group) o.budget o.search) _
                (plan-IsLadder steps (planned_workload o group) o.budget o.search small enough)
                (λ p h. tt))
              (after_log-Ends group warnings (fine group refl)
                (log_opened env float host fuel steps o w))

  -- What is asked of the options: a duration is given, the bounds are below the fuel, the subtrees
  -- can be walked, and so can those of the group.
  pub record Fine (o : Options F) : Type 0 where
    pub timed : 0 < o.budget.max_duration
    pub in_time : o.budget.max_duration < fuel
    pub small : o.budget.max_product < 2 ^ 31
    pub enough : o.budget.max_product < steps
    pub oids : All IsWalkable o.oids
    pub tree :
        is_named (Oid.canonical o.reference_tree) ≡ true → HasArcs (Oid.canonical o.reference_tree)
    pub group :
        (g : Workload) → load_group read_file unmarshal (with_canonical o) ≡ loaded g → GroupFine g

  run_options-Ends :
      ((c : Config) (w : World) → remaining (Host.dial host c w).1 ≤ remaining w)
      → ((d : ℕ) (w : World) → remaining (Host.with_timeout host d w) ≤ d)
      → (o : Options F) → Fine o
      → (w : World) → Ends (FinishBounded o) (run_options env float host fuel steps o w)
  unfolding run_options with_canonical
  run_options-Ends dial_keeps timeout_bounds o fine w =
      Ends-if (FinishBounded o) o.show_version _ _ tt (
        after_group-Ends (with_canonical o) fine.small fine.enough fine.tree
          (walkable_map o.oids fine.oids) dial_keeps timeout_bounds fine.timed fine.in_time w
          (load_group read_file unmarshal (with_canonical o)) fine.group)

  -- Refused options end `run` with their error.
  abbrev pub RunEnd : Parsed F → Finish F World → Type 0
  RunEnd (refused u) (ending, warnings, w) = ending ≡ usage u
  RunEnd (accepted o) f = FinishBounded o f

  -- If dialling gives no time back, a context with a timeout of `d` leaves at most `d`, and the options
  -- that are accepted, if any, bound the duration above 0 and below the fuel and `MaxProduct` below 2^31
  -- and below the steps, and name subtrees that can be walked, as their group does: `run` returns and
  -- does not panic, whatever the agent answers. Refused options end it with their error. When it reports
  -- a search without `--try`, every trial keeps its product within `MaxProduct`, no two have the same
  -- settings, and there are at most `MaxTrials` of them if that is not 0.
  pub run-RunEnd :
      ((c : Config) (w : World) → remaining (Host.dial host c w).1 ≤ remaining w)
      → ((d : ℕ) (w : World) → remaining (Host.with_timeout host d w) ≤ d)
      → (args : Option (Options F)) → ((o : Options F) → parse args ≡ accepted o → Fine o)
      → (w : World) → Ends (RunEnd (parse args)) (run env float host fuel steps args w)
  unfolding run
  run-RunEnd dial_keeps timeout_bounds args fine w = by_parse (parse args) refl
    where
      by_parse :
          (p : Parsed F) → parse args ≡ p → Ends (RunEnd p) (run env float host fuel steps args w)
      by_parse (refused u) e = rw (e, run) refl
      by_parse (accepted o) e =
          rw (e, run) (run_options-Ends dial_keeps timeout_bounds o (fine o e) w)
