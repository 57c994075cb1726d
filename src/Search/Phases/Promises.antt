-- ===== src/Search/Phases/Promises.antt =====
-- What `Run` and `Measure` promise about their trials, wherever they return.
use snmptune.Prelude.{
  ℕ, ◌+◌, ◌≤◌, ◌<◌, ◌≡◌, refl, Bool, true, false, List, [], ◌∷◌, map, Bool-cases, inl, inr, arith,
  length, All, Option-cases, ◌==◌,
}
use snmptune.Agent.{Environment}
use snmptune.Exec.{done, Ensures, >>=-Ensures, Ensures-mono}
use snmptune.Float.{FloatOps}
use snmptune.Inventory.{Inventory}
use snmptune.Safety.{Canary, Tracker, Verdict, restarted, lost, stressed}
use snmptune.Walk.{Settings, product, settings_eq}
use snmptune.Workload.{Workload, widest_table}
use snmptune.Search.{Abort, Trial, Options, Runner}
use snmptune.Search.Guarded.{Sound, IsDistinct, IsGuarded}
use snmptune.Search.Phases.{
  init, fail_trial, fail_last, on_final, final_probe, conclude, run_phases, run, measuring, max_int,
}
use snmptune.Search.Phases.Sound.{EndSound, run_phases-Sound, measuring-Sound, init-Going}

module _ {F : Type 0} where
  -- At most so many trials, each at its own setting, with no product at or above the bound.
  pub record Kept (bound limit : ℕ) (ts : List (Trial F)) : Type 0 where
    pub below : All (λ t. product t.settings < bound) ts
    pub distinct : IsDistinct ts
    pub within : 0 < limit → length ts ≤ limit

  Sound-Kept :
      {bound limit : ℕ} {r : Runner F} → Sound bound limit r → Kept bound limit r.out.trials
  Sound-Kept h = record { below = h.below; distinct = h.distinct; within = h.within }

module _ (env : Environment) (float : FloatOps) (workload : Workload)
    (opts : Options (FloatOps.F float)) (fuel : ℕ) where
  open env use {World, ctx_err}
  open float use {F, of_nat}

  fail_trial-settings :
      (s : Settings) (reason : Abort) (t : Trial F)
      → (fail_trial env float workload opts fuel s reason t).settings ≡ t.settings
  unfolding fail_trial
  fail_trial-settings s reason t = ground arith

  map-below :
      (bound : ℕ) (s : Settings) (reason : Abort) (ts : List (Trial F))
      → All (λ t. product t.settings < bound) ts
      → All
          (λ t. product t.settings < bound)
          (map (fail_trial env float workload opts fuel s reason) ts)
  map-below bound s reason [] h = tt
  map-below bound s reason (t ∷ ts) (h, hs) =
      (rw (fail_trial-settings s reason t) h, map-below bound s reason ts hs)

  map_apart :
      (s x : Settings) (reason : Abort) (ts : List (Trial F))
      → All (λ t. settings_eq x t.settings ≡ false) ts
      → All
          (λ t. settings_eq x t.settings ≡ false)
          (map (fail_trial env float workload opts fuel s reason) ts)
  map_apart s x reason [] h = tt
  map_apart s x reason (t ∷ ts) (h, hs) =
      (rw (fail_trial-settings s reason t) h, map_apart s x reason ts hs)

  map-IsDistinct :
      (s : Settings) (reason : Abort) (ts : List (Trial F))
      → IsDistinct ts
      → IsDistinct (map (fail_trial env float workload opts fuel s reason) ts)
  map-IsDistinct s reason [] h = tt
  map-IsDistinct s reason (t ∷ ts) (h, hs) = (
    rw (fail_trial-settings s reason t) (map_apart s t.settings reason ts h),
    map-IsDistinct s reason ts hs,
  )

  map-length :
      (s : Settings) (reason : Abort) (ts : List (Trial F))
      → length (map (fail_trial env float workload opts fuel s reason) ts) ≡ length ts
  map-length s reason [] = refl
  map-length s reason (t ∷ ts) = omega (arith, map-length s reason ts)

  fail_last-Kept :
      (bound limit : ℕ) (reason : Abort) (r : Runner F)
      → Kept bound limit r.out.trials
      → Kept bound limit (fail_last env float workload opts fuel reason r).out.trials
  unfolding fail_last
  fail_last-Kept bound limit reason r h = record {
    below = map-below bound r.last_set reason r.out.trials h.below;
    distinct = map-IsDistinct r.last_set reason r.out.trials h.distinct;
    within = rw (map-length r.last_set reason r.out.trials) h.within;
  }

  on_final-Kept :
      (bound limit : ℕ) (v : Verdict) (r : Runner F)
      → Kept bound limit r.out.trials
      → Kept bound limit (on_final env float workload opts fuel v r).out.trials
  unfolding on_final
  on_final-Kept bound limit restarted r h = fail_last-Kept bound limit _ r h
  on_final-Kept bound limit lost r h = fail_last-Kept bound limit _ r h
  on_final-Kept bound limit stressed r h = h
  on_final-Kept bound limit Verdict.ok r h = h

  final_probe-Kept :
      (bound limit : ℕ) (r : Runner F) (w : World)
      → Kept bound limit r.out.trials
      → Kept bound limit (final_probe env float workload opts fuel r w).0.out.trials
  unfolding final_probe
  final_probe-Kept bound limit r w h = elim (Option-cases (ctx_err w).0) [
    | inr (e, c) ↦ rw (c, final_probe) h
    | inl c ↦
        rw (c, final_probe)
          (elim (Bool-cases (length r.out.trials == 0)) [
            | inl e ↦ rw e h
            | inr e ↦ rw e (on_final-Kept bound limit _ _ h)
          ])
  ]

  conclude-Kept :
      (bound limit : ℕ) (a : Bool × Runner F × World)
      → EndSound env float workload opts fuel bound limit a
      → Kept bound limit (conclude env float workload opts fuel a).0.out.trials
  unfolding conclude
  conclude-Kept bound limit (true, r, w) h = Sound-Kept h
  conclude-Kept bound limit (false, r, w) (h, _) = final_probe-Kept bound limit r w (Sound-Kept h)

  EndSound-IsGuarded :
      (bound limit : ℕ) (a : Bool × Runner F × World)
      → EndSound env float workload opts fuel bound limit a
      → IsGuarded a.1.out.trials
  EndSound-IsGuarded bound limit (true, r, w) h = h.guarded
  EndSound-IsGuarded bound limit (false, r, w) (h, _) = h.guarded

  pub run-Kept_when_done :
      (steps : ℕ) (reference : Inventory) (canary : Canary) (tracker : Tracker) (w : World)
      → tracker.trials ≡ 0
      → Ensures
          (λ (e : Runner F × World).
            Kept (tracker.budget.max_product + 1) tracker.budget.max_trials e.0.out.trials)
          (run env float workload opts fuel steps reference canary tracker w)
  unfolding run
  run-Kept_when_done steps reference canary tracker w unused =
      let bound = tracker.budget.max_product + 1 in
      let limit = tracker.budget.max_trials in
      >>=-Ensures (EndSound env float workload opts fuel bound limit) _
        (run_phases env float workload opts fuel steps (widest_table workload)
          (init bound reference workload canary tracker) w)
        (λ end. done (conclude env float workload opts fuel end))
        (run_phases-Sound env float workload opts fuel bound limit steps (widest_table workload)
          (init bound reference workload canary tracker) w
          (init-Going bound reference workload canary tracker unused))
        (conclude-Kept bound limit)

  pub run_phases-IsGuarded_when_done :
      (steps : ℕ) (reference : Inventory) (canary : Canary) (tracker : Tracker) (w : World)
      → tracker.trials ≡ 0
      → Ensures
          (λ (e : Bool × Runner F × World). IsGuarded e.1.out.trials)
          (run_phases env float workload opts fuel steps
            (widest_table workload)
            (init (tracker.budget.max_product + 1) reference workload canary tracker)
            w)
  run_phases-IsGuarded_when_done steps reference canary tracker w unused =
      let bound = tracker.budget.max_product + 1 in
      let limit = tracker.budget.max_trials in
      Ensures-mono (EndSound env float workload opts fuel bound limit) _ _
        (run_phases-Sound env float workload opts fuel bound limit steps (widest_table workload)
          (init bound reference workload canary tracker) w
          (init-Going bound reference workload canary tracker unused))
        (EndSound-IsGuarded bound limit)

  pub measure-IsGuarded_when_done :
      (ss : List Settings) (reference : Inventory) (canary : Canary) (tracker : Tracker) (w : World)
      → tracker.trials ≡ 0
      → Ensures
          (λ (e : Bool × Runner F × World). IsGuarded e.1.out.trials)
          (measuring env float workload opts fuel ss
            (init max_int reference workload canary tracker)
            w)
  measure-IsGuarded_when_done ss reference canary tracker w unused =
      let limit = tracker.budget.max_trials in
      Ensures-mono (EndSound env float workload opts fuel max_int limit) _ _
        (measuring-Sound env float workload opts fuel max_int limit ss
          (init max_int reference workload canary tracker) w
          (init-Going max_int reference workload canary tracker unused))
        (EndSound-IsGuarded max_int limit)
