-- ===== src/Search/Trials/Repeats.antt =====
-- The loop of `trial`, one repeat after another, and `trial` itself.
use snmptune.Prelude.{
  ℕ, zero, suc, ◌+◌, ◌<◌, ◌≡◌, refl, Bool, false, some, List, [], ◌∷◌, ◌++◌, ◌||◌, arith, leb,
  leb→le, Bool-cases, Option-cases, inl, inr,
}
use snmptune.Agent.{Environment}
use snmptune.Exec.{Exec, done, Ensures, >>=-Ensures, Ensures-mono, Ensures-trivial}
use snmptune.Float.{FloatOps}
use snmptune.Safety.{
  Canary, Exhaustion, Verdict, ok, restarted, lost, stressed, exhausted, cooldown, probe,
}
use snmptune.Safety.Limits.{HasRoom, exhausted-none}
use snmptune.Slices.{contains}
use snmptune.Walk.{Settings, Result, product, settings_eq}
use snmptune.Walk.Run
use snmptune.Walk.Run.{RunEnd, ran, aborted}
use snmptune.Workload.{Workload}
use snmptune.Search.{Label, Options, Runner, exhausted_budget, stressed_before}
use snmptune.Search.Trials.{
  TrialEnd, Repeat, leave, finished_run, lower_ceiling, interrupted, after_walk, measure_run,
  on_verdict, repeat, finish, next_repeat, repeats, begin, within_budget, trial, is_failed,
}
use snmptune.Search.Trials.Effect.{
  is_stopped, Same, Effect, none_added, Same-refl, Same-trans, Same-Effect, set_aborted-Same,
  lower_ceiling-Same, score-settings, record_partial-Effect, settle-Effect, abort-Effect,
  interrupted_cases, interrupted_start,
}

module _ {F : Type 0} where
  -- The whole of `trial`: the setting was not tried and nothing was recorded, or it is below the
  -- ceiling, was not tried before, and the budget has room for it.
  pub data Tried (s : Settings) (r : Runner F) (stop : Bool) (r' : Runner F) : Type 0 where
    not_tried : Same r r' → Tried s r stop r'
    tried :
        product s < r.ceiling
        → contains settings_eq r.measured s ≡ false
        → HasRoom r.tracker
        → Effect s (record r { measured = s ∷ r.measured }) stop r'
        → Tried s r stop r'

module _ (env : Environment) (float : FloatOps) where
  open env use {World, ctx_err, sleep}
  open float use {F}

  module _ (workload : Workload) (opts : Options F) (fuel : ℕ) where
    -- What a repeat may leave behind it.
    abbrev pub RepeatEffect : Settings → Runner F → Repeat F × Runner F × World → Type 0
    RepeatEffect s r (leave end, r', w) = Effect s r (is_stopped end) r'
    RepeatEffect s r (finished_run res, r', w) = Same r r'

    abbrev TrialEffect : Settings → Runner F → TrialEnd F × Runner F × World → Type 0
    TrialEffect s r (end, r', w) = Effect s r (is_stopped end) r'

    walked :
        (s : Settings) (n : ℕ) (r : Runner F) → Same r (record r { last_set = s; prev_run = n })
    walked s n r = record {
      trials = refl;
      tracker = refl;
      measured_before = refl;
      lower = omega arith;
    }

    probed : (c : Canary) (r : Runner F) → Same r (record r { canary = c })
    probed c r = record {
      trials = refl;
      tracker = refl;
      measured_before = refl;
      lower = omega arith;
    }

    after_walk-Effect :
        (s : Settings) (phase : Label) (runs : List Result) (r : Runner F) (end : RunEnd × World)
        → RepeatEffect s r (after_walk env float workload opts fuel s phase runs r end)
    unfolding after_walk
    after_walk-Effect s phase runs r (ran res, w) = walked s res.duration r
    after_walk-Effect s phase runs r (aborted res e, w) =
        let r1 = record r { last_set = s; prev_run = res.duration } in
        elim (interrupted_cases env float s phase runs r1 w) [
          | inl (e0, e1) ↦
              rw (e0, e1)
                (none_added (Same-trans (walked s res.duration r) (set_aborted-Same _ r1)))
          | inr (e0, eff) ↦ rw e0 (Same-Effect (walked s res.duration r) eff)
        ]

    measure_run-Effect :
        (s : Settings) (phase : Label) (runs : List Result) (r : Runner F) (w : World)
        → Ensures (RepeatEffect s r) (measure_run env float workload opts fuel s phase runs r w)
    unfolding measure_run
    measure_run-Effect s phase runs r w =
        >>=-Ensures (λ _. Unit) (RepeatEffect s r) (Run.run env fuel workload s w)
          (λ end. done (after_walk env float workload opts fuel s phase runs r end))
          (Ensures-trivial _) (λ end _. after_walk-Effect s phase runs r end)

    Same-RepeatEffect :
        (s : Settings) {r r1 : Runner F} (a : Repeat F × Runner F × World)
        → Same r r1
        → RepeatEffect s r1 a
        → RepeatEffect s r a
    Same-RepeatEffect s (leave end, r', w) h k = Same-Effect h k
    Same-RepeatEffect s (finished_run res, r', w) h k = Same-trans h k

    stressed-Effect :
        (i : ℕ) (s : Settings) (phase : Label) (runs : List Result) (r : Runner F) (w : World)
        → Ensures
            (RepeatEffect s r)
            (on_verdict env float workload opts fuel stressed i s phase runs r w)
    unfolding on_verdict
    stressed-Effect i s phase runs r w =
        let r1 = lower_ceiling phase r in
        let same = lower_ceiling-Same phase r in
        elim (Bool-cases (leb r1.ceiling (product s))) [
          | inl e ↦ rw e (
              Same-Effect same (
                record_partial-Effect float s phase runs (stressed_before (i + 1)) r1 false
                  (λ _. leb→le _ _ e)))
          | inr e ↦ rw e (
              Ensures-mono (RepeatEffect s r1) (RepeatEffect s r) _
                (measure_run-Effect s phase runs r1 w) (λ a. Same-RepeatEffect s a same))
        ]

    on_verdict-Effect :
        (v : Verdict) (i : ℕ) (s : Settings) (phase : Label) (runs : List Result) (r : Runner F)
        (w : World)
        → Ensures (RepeatEffect s r) (on_verdict env float workload opts fuel v i s phase runs r w)
    unfolding on_verdict
    on_verdict-Effect restarted i s phase runs r w = abort-Effect float _ s phase runs r
    on_verdict-Effect lost i s phase runs r w = abort-Effect float _ s phase runs r
    on_verdict-Effect stressed i s phase runs r w = stressed-Effect i s phase runs r w
    on_verdict-Effect ok i s phase runs r w = measure_run-Effect s phase runs r w

    repeat-Effect :
        (i : ℕ) (s : Settings) (phase : Label) (runs : List Result) (r : Runner F) (w : World)
        → Ensures (RepeatEffect s r) (repeat env float workload opts fuel i s phase runs r w)
    unfolding repeat
    repeat-Effect i s phase runs r w =
        let w1 = sleep (cooldown opts.cooldown r.prev_run) w in
        elim (interrupted_cases env float s phase runs r w1) [
          | inl (e0, e1) ↦
              rw (e0, e1)
                (let (v, c, w3) = probe env r.canary (interrupted env float s phase runs r w1).2 in
                  let r2 = record r { canary = c } in
                  Ensures-mono (RepeatEffect s r2) (RepeatEffect s r) _
                    (on_verdict-Effect v i s phase runs r2 w3)
                    (λ a. Same-RepeatEffect s a (probed c r)))
          | inr (e0, eff) ↦ rw e0 eff
        ]

    finish-Effect :
        (s : Settings) (phase : Label) (runs : List Result) (r : Runner F) (w : World)
        → let (end, r') = finish env float workload opts fuel s phase runs r in
          TrialEffect s r (end, r', w)
    unfolding finish
    finish-Effect s phase runs r w = settle-Effect float s _ r (score-settings float s phase runs)

    next_repeat-Effect :
        (s : Settings) (phase : Label) (runs : List Result) (r : Runner F)
        (loop : List Result → Runner F → World → Exec (TrialEnd F × Runner F × World))
        → ((runs' : List Result) (r' : Runner F) (w' : World)
            → Ensures (TrialEffect s r') (loop runs' r' w'))
        → (a : Repeat F × Runner F × World) → RepeatEffect s r a
        → Ensures (TrialEffect s r) (next_repeat env float workload opts fuel s phase runs loop a)
    unfolding next_repeat
    next_repeat-Effect s phase runs r loop h (leave end, r', w) k = k
    next_repeat-Effect s phase runs r loop h (finished_run res, r', w) k =
        elim (Bool-cases (is_failed env float workload opts fuel res)) [
          | inl e ↦
              rw (e, next_repeat) (Same-Effect k (finish-Effect s phase (runs ++ res ∷ []) r' w))
          | inr e ↦
              rw (e, next_repeat)
                (Ensures-mono (TrialEffect s r') (TrialEffect s r) _ (h (runs ++ res ∷ []) r' w)
                  (λ a. Same-Effect k))
        ]

    repeats-Effect :
        (left i : ℕ) (s : Settings) (phase : Label) (runs : List Result) (r : Runner F) (w : World)
        → Ensures (TrialEffect s r) (repeats env float workload opts fuel left i s phase runs r w)
    unfolding repeats
    repeats-Effect zero i s phase runs r w = finish-Effect s phase runs r w
    repeats-Effect (suc left) i s phase runs r w =
        >>=-Ensures (RepeatEffect s r) (TrialEffect s r)
          (repeat env float workload opts fuel i s phase runs r w)
          (next_repeat env float workload opts fuel s phase runs
            (repeats env float workload opts fuel left (i + 1) s phase))
          (repeat-Effect i s phase runs r w)
          (next_repeat-Effect s phase runs r
            (repeats env float workload opts fuel left (i + 1) s phase)
            (λ runs' r' w'. repeats-Effect left (i + 1) s phase runs' r' w'))

    abbrev pub TriedEnd : Settings → Runner F → TrialEnd F × Runner F × World → Type 0
    TriedEnd s r (end, r', w) = Tried s r (is_stopped end) r'

    within_budget-Tried :
        (s : Settings) (phase : Label) (r : Runner F) (w : World)
        → product s < r.ceiling
        → contains settings_eq r.measured s ≡ false
        → Ensures (TriedEnd s r) (within_budget env float workload opts fuel s phase r w)
    unfolding within_budget begin
    within_budget-Tried s phase r w small fresh =
        elim (Option-cases (exhausted env r.tracker w).0) [
          | inl e ↦
              rw (e, within_budget)
                (Ensures-mono (TrialEffect s r1) (TriedEnd s r) _
                  (repeats-Effect opts.repeats 0 s phase [] r1 _)
                  (λ a k. tried small fresh (exhausted-none env r.tracker w e) k))
          | inr (reason, e) ↦ rw (e, within_budget) (not_tried (budget_limited-Same r reason))
        ]
      where
        r1 : Runner F
        r1 = record r { measured = s ∷ r.measured }

        budget_limited-Same :
            (r : Runner F) (reason : Exhaustion)
            → let out = r.out in
              Same r
                (record r { out = record out { budget_limited = some (exhausted_budget reason) } })
        budget_limited-Same r reason = record {
          trials = refl;
          tracker = refl;
          measured_before = refl;
          lower = omega arith;
        }

    pub trial-Tried :
        (s : Settings) (phase : Label) (r : Runner F) (w : World)
        → Ensures (TriedEnd s r) (trial env float workload opts fuel s phase r w)
    unfolding trial
    trial-Tried s phase r w =
        elim (Bool-cases (leb r.ceiling (product s) || contains settings_eq r.measured s)) [
          | inl e ↦ rw e (not_tried (Same-refl r))
          | inr e ↦ rw e (elim (interrupted_start env float s phase r w) [
            | inl (e0, e1) ↦
                rw (e0, e1) (within_budget-Tried s phase r _ (ground arith) (ground arith))
            | inr (e0, eff) ↦ rw e0 (not_tried eff)
          ])
        ]
