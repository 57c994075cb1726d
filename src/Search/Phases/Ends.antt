-- ===== src/Search/Phases/Ends.antt =====
-- `Run` and `Measure` of the search end, without a panic.
use snmptune.Prelude.{
  ℕ, zero, suc, ◌+◌, ◌*◌, ◌/◌, ◌%◌, ◌^◌, ◌≤◌, ◌<◌, ◌≡◌, refl, ap, ◌∙◌, Bool, true, List, [], ◌∷◌,
  ◌⊎◌, inl, inr, arith, ltb, ◌==◌, Bool-cases,
}
use snmptune.Text.{u32_mod}
use snmptune.Agent.{Environment}
use snmptune.Agent.Deadline.{Deadline}
use snmptune.Exec.{Exec, done, Ends, >>=-Ends, Ends-mono, Ends-both}
use snmptune.Float.{FloatOps}
use snmptune.Walk.{Settings, product}
use snmptune.Walk.Run.Scope.{HaveArcs}
use snmptune.Workload.{Workload}
use snmptune.Safety.{note_trial}
use snmptune.Search.{
  start, Label, escalate, bisect, split, try, Trial, ok, Options, Runner, split_candidates,
}
use snmptune.Search.Trials.{TrialEnd, skipped, stopped, measured, trial}
use snmptune.Search.Trials.Effect.{Same, none_added, one_added}
use snmptune.Search.Trials.Repeats.{Tried, not_tried, tried, trial-Tried, TriedEnd}
use snmptune.Search.Trials.Ends.{trial-Ends, Later}
use snmptune.Search.Phases.{
  start_vars, set_note, Climbed, bounds, Step, halt, climb, Found, best_reps, gap, is_wide,
  judge_climb, after_climb, escalation, after_bisect, bisection, bisect_phase, after_split,
  splitting, split_phase, run_phases, measuring,
}

pub le_mul : (m n : ℕ) → 0 < n → m ≤ m * n
le_mul m zero h = absurd (omega arith)
le_mul m (suc n) h = grind arith

module _ {F : Type 0} where
  Same-budget : {r r' : Runner F} → Same r r' → r'.tracker.budget ≡ r.tracker.budget
  Same-budget same = ap (λ t. t.budget) same.tracker

  Tried-budget :
      {s : Settings} {stop : Bool} {r r' : Runner F}
      → Tried s r stop r'
      → r'.tracker.budget ≡ r.tracker.budget
  unfolding note_trial
  Tried-budget (not_tried same) = Same-budget same
  Tried-budget (tried small new room (none_added same)) = Same-budget same
  Tried-budget (tried small new room (one_added t a low)) = ap (λ t. t.budget) a.tracker

pub start_vars_positive : (widest : ℕ) → 0 < start_vars widest
unfolding start_vars
start_vars_positive widest = ground arith

module _ (env : Environment) (limit : Deadline env) (float : FloatOps) (workload : Workload)
    (opts : Options (FloatOps.F float)) (fuel : ℕ) (arcs : HaveArcs workload.tables) (bound : ℕ)
    (small : bound < 2 ^ 31) where
  open env use {World}
  open limit use {remaining}
  open float use {F, of_nat}

  -- A run that may go on: the time is below the fuel, and the bound of its budget is the same.
  abbrev Goes : Runner F → World → Type 0
  Goes r w = (remaining w < fuel) × (r.tracker.budget.max_product ≡ bound)

  abbrev TrialGoes : TrialEnd F × Runner F × World → Type 0
  TrialGoes (end, r, w) = Goes r w

  abbrev ClimbedGoes : Climbed × Runner F × World → Type 0
  ClimbedGoes (Climbed.returned, r, w) = Goes r w
  ClimbedGoes (bounds good bad, r, w) = Goes r w × ((bad ≡ 0) ⊎ ((good < bad) × (bad ≤ bound)))

  abbrev FoundGoes : Found × Runner F × World → Type 0
  FoundGoes (end, r, w) = Goes r w

  abbrev pub EndGoes : Bool × Runner F × World → Type 0
  EndGoes (end, r, w) = Goes r w

  trial-Goes :
      (s : Settings) (phase : Label) (r : Runner F) (w : World)
      → Goes r w
      → Ends TrialGoes (trial env float workload opts fuel s phase r w)
  trial-Goes s phase r w (lt, same) =
      Ends-mono _ TrialGoes _
        (Ends-both (Later env limit float workload opts fuel arcs w)
          (TriedEnd env float workload opts fuel s r) _
          (trial-Ends env limit float workload opts fuel arcs s phase r w lt)
          (trial-Tried env float workload opts fuel s phase r w))
        (λ (end, r', w') k. (omega (arith, k.0), ap (λ b. b.max_product) (Tried-budget k.1) ∙ same))

  -- A failed or last step of the escalation leaves bounds, and a clean one goes on above.
  abbrev StepGoes : ℕ → ℕ → Step F → Type 0
  StepGoes reps good (halt g b n) = (b ≡ 0) ⊎ ((g < b) × (b ≤ bound))
  StepGoes reps good (climb g p) = g ≡ reps

  judge_climb-StepGoes :
      (s : Settings) (good : ℕ) (prev : F) (t : Trial F) (r : Runner F)
      → good < s.max_repetitions
      → s.max_repetitions ≤ bound
      → StepGoes s.max_repetitions good (judge_climb env float workload opts fuel s good prev t r)
  unfolding judge_climb
  judge_climb-StepGoes s good prev t r lt le = ground arith

  after_climb-Goes :
      (s : Settings) (good : ℕ) (prev : F)
      (loop : ℕ → F → Runner F → World → Exec (Climbed × Runner F × World))
      → good < s.max_repetitions
      → s.max_repetitions ≤ bound
      → ((p : F) (r : Runner F) (w : World)
          → Goes r w
          → Ends ClimbedGoes (loop s.max_repetitions p r w))
      → (a : TrialEnd F × Runner F × World) → TrialGoes a
      → Ends ClimbedGoes (after_climb env float workload opts fuel s good prev loop a)
  unfolding after_climb set_note
  after_climb-Goes s good prev loop lt le h (stopped, r, w) k = k
  after_climb-Goes s good prev loop lt le h (skipped, r, w) k = (k, inl refl)
  after_climb-Goes s good prev loop lt le h (measured t, r, w) k =
      decided (judge_climb env float workload opts fuel s good prev t r)
        (judge_climb-StepGoes s good prev t r lt le)
    where
      decided :
          (step : Step F)
          → StepGoes s.max_repetitions good step
          → Ends ClimbedGoes (elim step [
            | halt g b n ↦ done (bounds g b, set_note n r, w)
            | climb g p ↦ loop g p r w
          ])
      decided (halt g b n) e = (k, e)
      decided (climb g p) e = rw e (h p r w k)

  escalation-Ends :
      (steps v0 reps good : ℕ) (prev : F) (r : Runner F) (w : World)
      → 0 < v0
      → good < reps
      → 0 < steps
      → bound + 1 < steps + reps
      → Goes r w
      → Ends ClimbedGoes (escalation env float workload opts fuel steps v0 reps good prev r w)
  unfolding escalation product set_note
  escalation-Ends zero v0 reps good prev r w positive lt some_left enough h = absurd (omega arith)
  escalation-Ends (suc steps) v0 reps good prev r w positive lt some_left enough h =
      let s : Settings = record { max_repetitions = reps; max_vars_per_pdu = v0 } in
      let loop = escalation env float workload opts fuel steps v0 (reps * 2 % u32_mod) in
      elim (Bool-cases (ltb r.tracker.budget.max_product (reps * v0))) [
        | inl e ↦ rw e (h, inl refl)
        | inr e ↦
            let le : reps * v0 ≤ bound = ground (arith, h.1) in
            let fits : reps ≤ bound = omega (arith, le_mul reps v0 positive) in
            let twice : reps * 2 % u32_mod ≡ reps * 2 = omega arith in
            rw e (
              >>=-Ends TrialGoes ClimbedGoes (trial env float workload opts fuel s escalate r w)
                (after_climb env float workload opts fuel s good prev loop)
                (trial-Goes s escalate r w h)
                (after_climb-Goes s good prev loop lt fits (λ p r' w'.
                  escalation-Ends steps v0 (reps * 2 % u32_mod) reps p r' w' positive
                    (omega (arith, twice)) (omega arith) (omega (arith, twice)))))
      ]

  wide_gap : (good bad : ℕ) → is_wide good bad ≡ true → good < bad → bad ≤ bound → good + 1 < bad
  unfolding is_wide gap
  wide_gap good bad e lt le = ground arith

  after_bisect-Goes :
      (good bad mid : ℕ) (loop : ℕ → ℕ → Runner F → World → Exec (Found × Runner F × World))
      → ((r : Runner F) (w : World) → Goes r w → Ends FoundGoes (loop mid bad r w))
      → ((r : Runner F) (w : World) → Goes r w → Ends FoundGoes (loop good mid r w))
      → (a : TrialEnd F × Runner F × World) → TrialGoes a
      → Ends FoundGoes (after_bisect env float workload opts fuel good bad mid loop a)
  unfolding after_bisect
  after_bisect-Goes good bad mid loop up down (stopped, r, w) k = k
  after_bisect-Goes good bad mid loop up down (skipped, r, w) k = k
  after_bisect-Goes good bad mid loop up down (measured t, r, w) k = elim (Bool-cases (ok t)) [
    | inl e ↦ rw (e, after_bisect) (up r w k)
    | inr e ↦ rw (e, after_bisect) (down r w k)
  ]

  bisection-Ends :
      (steps v0 good bad : ℕ) (r : Runner F) (w : World)
      → good < bad
      → bad ≤ bound
      → bad ≤ good + steps
      → Goes r w
      → Ends FoundGoes (bisection env float workload opts fuel steps v0 good bad r w)
  unfolding bisection
  bisection-Ends zero v0 good bad r w lt le enough h = absurd (omega arith)
  bisection-Ends (suc steps) v0 good bad r w lt le enough h =
      let mid = (good + bad) % u32_mod / 2 in
      let s : Settings = record { max_repetitions = mid; max_vars_per_pdu = v0 } in
      let loop = bisection env float workload opts fuel steps v0 in
      elim (Bool-cases (is_wide good bad)) [
        | inr e ↦ rw e h
        | inl e ↦
            let wide = wide_gap good bad e lt le in
            rw e (
              >>=-Ends TrialGoes FoundGoes (trial env float workload opts fuel s bisect r w)
                (after_bisect env float workload opts fuel good bad mid loop)
                (trial-Goes s bisect r w h)
                (after_bisect-Goes good bad mid loop
                  (λ r' w'.
                    bisection-Ends steps v0 mid bad r' w' (omega (arith, wide)) le
                      (omega (arith, wide)))
                  (λ r' w'.
                    bisection-Ends steps v0 good mid r' w' (omega (arith, wide))
                      (omega (arith, wide)) (omega (arith, wide)))))
      ]

  bisect_phase-Ends :
      (steps v0 : ℕ)
      → bound < steps
      → (a : Climbed × Runner F × World) → ClimbedGoes a
      → Ends FoundGoes (bisect_phase env float workload opts fuel steps v0 a)
  unfolding bisect_phase
  bisect_phase-Ends steps v0 enough (Climbed.returned, r, w) h = h
  bisect_phase-Ends steps v0 enough (bounds good bad, r, w) (h, inl none_failed) = rw none_failed h
  bisect_phase-Ends steps v0 enough (bounds good bad, r, w) (h, inr (lt, le)) =
      elim (Bool-cases (ltb 0 bad)) [
        | inl e ↦ rw e (bisection-Ends steps v0 good bad r w lt le (omega arith) h)
        | inr e ↦ rw e h
      ]

  after_split-Goes :
      (loop : Runner F → World → Exec (Bool × Runner F × World))
      → ((r : Runner F) (w : World) → Goes r w → Ends EndGoes (loop r w))
      → (a : TrialEnd F × Runner F × World) → TrialGoes a
      → Ends EndGoes (after_split env float workload opts fuel loop a)
  unfolding after_split
  after_split-Goes loop h (stopped, r, w) k = k
  after_split-Goes loop h (skipped, r, w) k = h r w k
  after_split-Goes loop h (measured t, r, w) k = h r w k

  splitting-Ends :
      (total : ℕ) (vs : List ℕ) (r : Runner F) (w : World)
      → Goes r w
      → Ends EndGoes (splitting env float workload opts fuel total vs r w)
  unfolding splitting
  splitting-Ends total [] r w h = h
  splitting-Ends total (v ∷ vs) r w h =
      let s : Settings = record { max_repetitions = total / v % u32_mod; max_vars_per_pdu = v } in
      elim (Bool-cases (total / v == 0)) [
        | inl e ↦ rw e (splitting-Ends total vs r w h)
        | inr e ↦ rw e (
            >>=-Ends TrialGoes EndGoes (trial env float workload opts fuel s split r w)
              (after_split env float workload opts fuel
                (splitting env float workload opts fuel total vs))
              (trial-Goes s split r w h)
              (after_split-Goes (splitting env float workload opts fuel total vs)
                (λ r' w'. splitting-Ends total vs r' w')))
      ]

  split_phase-Ends :
      (v0 widest : ℕ) (a : Found × Runner F × World)
      → FoundGoes a
      → Ends EndGoes (split_phase env float workload opts fuel v0 widest a)
  unfolding split_phase
  split_phase-Ends v0 widest (Found.returned, r, w) h = h
  split_phase-Ends v0 widest (best_reps good, r, w) h = elim (Bool-cases (ltb 0 good)) [
    | inl e ↦ rw e (splitting-Ends (good * v0) (split_candidates v0 widest) r w h)
    | inr e ↦ rw e h
  ]

  pub run_phases-Ends :
      (steps widest : ℕ) (r : Runner F) (w : World)
      → bound < steps
      → Goes r w
      → Ends EndGoes (run_phases env float workload opts fuel steps widest r w)
  unfolding run_phases
  run_phases-Ends steps widest r w enough h =
      let v0 = start_vars widest in
      >>=-Ends FoundGoes EndGoes _ (split_phase env float workload opts fuel v0 widest)
        (>>=-Ends ClimbedGoes FoundGoes _ (bisect_phase env float workload opts fuel steps v0)
          (escalation-Ends steps v0 start.max_repetitions 0 (of_nat 0) r w
            (start_vars_positive widest) (omega arith) (omega arith) (omega arith) h)
          (bisect_phase-Ends steps v0 enough))
        (split_phase-Ends v0 widest)

  pub measuring-Ends :
      (ss : List Settings) (r : Runner F) (w : World)
      → Goes r w
      → Ends EndGoes (measuring env float workload opts fuel ss r w)
  unfolding measuring
  measuring-Ends [] r w h = h
  measuring-Ends (s ∷ ss) r w h =
      >>=-Ends TrialGoes EndGoes (trial env float workload opts fuel s try r w)
        (after_split env float workload opts fuel (measuring env float workload opts fuel ss))
        (trial-Goes s try r w h)
        (after_split-Goes (measuring env float workload opts fuel ss)
          (λ r' w'. measuring-Ends ss r' w'))
