-- ===== src/Search/Phases/Sound.antt =====
-- The phases of `Run` and the loop of `Measure` keep the promises about the trials.
use snmptune.Prelude.{
  ℕ, zero, suc, ◌+◌, ◌*◌, ◌/◌, ◌%◌, ◌≡◌, refl, Bool, true, false, List, [], ◌∷◌, Bool-cases, inl,
  inr, arith, ltb, ◌==◌,
}
use snmptune.Text.{u32_mod}
use snmptune.Agent.{Environment}
use snmptune.Exec.{Exec, done, Ensures, >>=-Ensures, Ensures-mono}
use snmptune.Float.{FloatOps}
use snmptune.Inventory.{Inventory}
use snmptune.Safety.{Canary, Tracker}
use snmptune.Walk.{Settings, product}
use snmptune.Workload.{Workload}
use snmptune.Search.{
  start, Label, escalate, bisect, split, try, Note, ok, Options, Runner, split_candidates,
}
use snmptune.Search.Guarded.{Sound, Ready, Tried-Sound}
use snmptune.Search.Trials.{TrialEnd, skipped, stopped, measured, trial}
use snmptune.Search.Trials.Effect.{is_stopped}
use snmptune.Search.Trials.Repeats.{TriedEnd, trial-Tried}
use snmptune.Search.Phases.{
  start_vars, init, set_note, Climbed, bounds, Step, halt, climb, Found, best_reps, is_wide,
  judge_climb, after_climb, escalation, after_bisect, bisection, bisect_phase, after_split,
  splitting, split_phase, run_phases, measuring,
}

module _ {F : Type 0} where
  abbrev pub Going : ℕ → ℕ → Runner F → Type 0
  Going bound limit r = Sound bound limit r × Ready r

  set_note-Going :
      (bound limit : ℕ) (n : Note) (r : Runner F)
      → Going bound limit r
      → Going bound limit (set_note n r)
  unfolding set_note
  set_note-Going bound limit n r (h, ready) = (
    record {
      guarded = h.guarded;
      distinct = h.distinct;
      below = h.below;
      known = h.known;
      counted = h.counted;
      bounded = h.bounded;
      within = h.within;
      cap = h.cap;
    },
    ready,
  )

module _ (env : Environment) (float : FloatOps) (workload : Workload)
    (opts : Options (FloatOps.F float)) (fuel bound limit : ℕ) where
  open env use {World}
  open float use {F, of_nat}

  -- What each loop leaves: the promises, and unless `Run` returns, a run that may go on.
  abbrev TrialSound : TrialEnd F × Runner F × World → Type 0
  TrialSound (end, r, w) = Sound bound limit r × (is_stopped end ≡ false → Ready r)

  abbrev ClimbedSound : Climbed × Runner F × World → Type 0
  ClimbedSound (Climbed.returned, r, w) = Sound bound limit r
  ClimbedSound (bounds good bad, r, w) = Going bound limit r

  abbrev FoundSound : Found × Runner F × World → Type 0
  FoundSound (Found.returned, r, w) = Sound bound limit r
  FoundSound (best_reps good, r, w) = Going bound limit r

  abbrev pub EndSound : Bool × Runner F × World → Type 0
  EndSound (true, r, w) = Sound bound limit r
  EndSound (false, r, w) = Going bound limit r

  trial-Sound :
      (s : Settings) (phase : Label) (r : Runner F) (w : World)
      → Going bound limit r
      → Ensures TrialSound (trial env float workload opts fuel s phase r w)
  trial-Sound s phase r w h =
      Ensures-mono (TriedEnd env float workload opts fuel s r) TrialSound _
        (trial-Tried env float workload opts fuel s phase r w) (λ a path. Tried-Sound path h)

  after_climb-Sound :
      (s : Settings) (good : ℕ) (prev : F)
      (loop : ℕ → F → Runner F → World → Exec (Climbed × Runner F × World))
      → ((g : ℕ) (p : F) (r : Runner F) (w : World)
          → Going bound limit r
          → Ensures ClimbedSound (loop g p r w))
      → (a : TrialEnd F × Runner F × World) → TrialSound a
      → Ensures ClimbedSound (after_climb env float workload opts fuel s good prev loop a)
  unfolding after_climb
  after_climb-Sound s good prev loop h (stopped, r, w) (k, _) = k
  after_climb-Sound s good prev loop h (skipped, r, w) (k, go) =
      set_note-Going bound limit _ r (k, go refl)
  after_climb-Sound s good prev loop h (measured t, r, w) (k, go) =
      decided (judge_climb env float workload opts fuel s good prev t r)
    where
      decided :
          (step : Step F)
          → Ensures ClimbedSound (elim step [
            | halt good bad note ↦ done (bounds good bad, set_note note r, w)
            | climb good score ↦ loop good score r w
          ])
      decided (halt g b n) = set_note-Going bound limit n r (k, go refl)
      decided (climb g p) = h g p r w (k, go refl)

  escalation-Sound :
      (steps v0 reps good : ℕ) (prev : F) (r : Runner F) (w : World)
      → Going bound limit r
      → Ensures ClimbedSound (escalation env float workload opts fuel steps v0 reps good prev r w)
  unfolding escalation
  escalation-Sound zero v0 reps good prev r w h = tt
  escalation-Sound (suc steps) v0 reps good prev r w h =
      let s : Settings = record { max_repetitions = reps; max_vars_per_pdu = v0 } in
      let loop = escalation env float workload opts fuel steps v0 (reps * 2 % u32_mod) in
      elim (Bool-cases (ltb r.tracker.budget.max_product (product s))) [
        | inl e ↦ rw e (set_note-Going bound limit _ r h)
        | inr e ↦ rw e (
            >>=-Ensures TrialSound ClimbedSound (trial env float workload opts fuel s escalate r w)
              (after_climb env float workload opts fuel s good prev loop)
              (trial-Sound s escalate r w h)
              (after_climb-Sound s good prev loop
                (λ g p r' w'. escalation-Sound steps v0 (reps * 2 % u32_mod) g p r' w')))
      ]

  after_bisect-Sound :
      (good bad mid : ℕ) (loop : ℕ → ℕ → Runner F → World → Exec (Found × Runner F × World))
      → ((g b : ℕ) (r : Runner F) (w : World)
          → Going bound limit r
          → Ensures FoundSound (loop g b r w))
      → (a : TrialEnd F × Runner F × World) → TrialSound a
      → Ensures FoundSound (after_bisect env float workload opts fuel good bad mid loop a)
  unfolding after_bisect
  after_bisect-Sound good bad mid loop h (stopped, r, w) (k, _) = k
  after_bisect-Sound good bad mid loop h (skipped, r, w) (k, go) = (k, go refl)
  after_bisect-Sound good bad mid loop h (measured t, r, w) (k, go) = elim (Bool-cases (ok t)) [
    | inl e ↦ rw (e, after_bisect) (h mid bad r w (k, go refl))
    | inr e ↦ rw (e, after_bisect) (h good mid r w (k, go refl))
  ]

  bisection-Sound :
      (steps v0 good bad : ℕ) (r : Runner F) (w : World)
      → Going bound limit r
      → Ensures FoundSound (bisection env float workload opts fuel steps v0 good bad r w)
  unfolding bisection
  bisection-Sound zero v0 good bad r w h = tt
  bisection-Sound (suc steps) v0 good bad r w h =
      let mid = (good + bad) % u32_mod / 2 in
      let s : Settings = record { max_repetitions = mid; max_vars_per_pdu = v0 } in
      let loop = bisection env float workload opts fuel steps v0 in
      elim (Bool-cases (is_wide good bad)) [
        | inl e ↦ rw e (
            >>=-Ensures TrialSound FoundSound (trial env float workload opts fuel s bisect r w)
              (after_bisect env float workload opts fuel good bad mid loop)
              (trial-Sound s bisect r w h)
              (after_bisect-Sound good bad mid loop
                (λ g b r' w'. bisection-Sound steps v0 g b r' w')))
        | inr e ↦ rw e h
      ]

  bisect_phase-Sound :
      (steps v0 : ℕ) (a : Climbed × Runner F × World)
      → ClimbedSound a
      → Ensures FoundSound (bisect_phase env float workload opts fuel steps v0 a)
  unfolding bisect_phase
  bisect_phase-Sound steps v0 (Climbed.returned, r, w) h = h
  bisect_phase-Sound steps v0 (bounds good bad, r, w) h = elim (Bool-cases (ltb 0 bad)) [
    | inl e ↦ rw e (bisection-Sound steps v0 good bad r w h)
    | inr e ↦ rw e h
  ]

  after_split-Sound :
      (loop : Runner F → World → Exec (Bool × Runner F × World))
      → ((r : Runner F) (w : World) → Going bound limit r → Ensures EndSound (loop r w))
      → (a : TrialEnd F × Runner F × World) → TrialSound a
      → Ensures EndSound (after_split env float workload opts fuel loop a)
  unfolding after_split
  after_split-Sound loop h (stopped, r, w) (k, _) = k
  after_split-Sound loop h (skipped, r, w) (k, go) = h r w (k, go refl)
  after_split-Sound loop h (measured t, r, w) (k, go) = h r w (k, go refl)

  splitting-Sound :
      (total : ℕ) (vs : List ℕ) (r : Runner F) (w : World)
      → Going bound limit r
      → Ensures EndSound (splitting env float workload opts fuel total vs r w)
  unfolding splitting
  splitting-Sound total [] r w h = h
  splitting-Sound total (v ∷ vs) r w h =
      let s : Settings = record { max_repetitions = total / v % u32_mod; max_vars_per_pdu = v } in
      elim (Bool-cases (total / v == 0)) [
        | inl e ↦ rw e (splitting-Sound total vs r w h)
        | inr e ↦ rw e (
            >>=-Ensures TrialSound EndSound (trial env float workload opts fuel s split r w)
              (after_split env float workload opts fuel
                (splitting env float workload opts fuel total vs))
              (trial-Sound s split r w h)
              (after_split-Sound (splitting env float workload opts fuel total vs)
                (λ r' w'. splitting-Sound total vs r' w')))
      ]

  split_phase-Sound :
      (v0 widest : ℕ) (a : Found × Runner F × World)
      → FoundSound a
      → Ensures EndSound (split_phase env float workload opts fuel v0 widest a)
  unfolding split_phase
  split_phase-Sound v0 widest (Found.returned, r, w) h = h
  split_phase-Sound v0 widest (best_reps good, r, w) h = elim (Bool-cases (ltb 0 good)) [
    | inl e ↦ rw e (splitting-Sound (good * v0) (split_candidates v0 widest) r w h)
    | inr e ↦ rw e h
  ]

  pub run_phases-Sound :
      (steps widest : ℕ) (r : Runner F) (w : World)
      → Going bound limit r
      → Ensures EndSound (run_phases env float workload opts fuel steps widest r w)
  unfolding run_phases
  run_phases-Sound steps widest r w h =
      let v0 = start_vars widest in
      >>=-Ensures FoundSound EndSound _ (split_phase env float workload opts fuel v0 widest)
        (>>=-Ensures ClimbedSound FoundSound _ (bisect_phase env float workload opts fuel steps v0)
          (escalation-Sound steps v0 start.max_repetitions 0 (of_nat 0) r w h)
          (bisect_phase-Sound steps v0))
        (split_phase-Sound v0 widest)

  pub measuring-Sound :
      (ss : List Settings) (r : Runner F) (w : World)
      → Going bound limit r
      → Ensures EndSound (measuring env float workload opts fuel ss r w)
  unfolding measuring
  measuring-Sound [] r w h = h
  measuring-Sound (s ∷ ss) r w h =
      >>=-Ensures TrialSound EndSound (trial env float workload opts fuel s try r w)
        (after_split env float workload opts fuel (measuring env float workload opts fuel ss))
        (trial-Sound s try r w h)
        (after_split-Sound (measuring env float workload opts fuel ss)
          (λ r' w'. measuring-Sound ss r' w'))

module _ {F : Type 0} where
  pub init-Going :
      (ceiling : ℕ) (reference : Inventory) (workload : Workload) (canary : Canary)
      (tracker : Tracker)
      → tracker.trials ≡ 0
      → Going {F = F} ceiling tracker.budget.max_trials
          (init ceiling reference workload canary tracker)
  unfolding init
  init-Going ceiling reference workload canary tracker unused = (
    record {
      guarded = tt;
      distinct = tt;
      below = tt;
      known = tt;
      counted = unused;
      bounded = refl;
      within = λ _. omega arith;
      cap = omega arith;
    },
    tt,
  )
