-- ===== src/Search/Trials/Effect.antt =====
-- What `trial` does to the recorded trials, the ceiling and the budget, on every way through it.
use snmptune.Prelude.{
  ◌≤◌, ◌≡◌, refl, ◌∙◌, Bool, true, false, Option, none, some, List, [], ◌∷◌, ◌++◌, arith,
  Bool-cases, Option-cases, ◌⊎◌, inl, inr,
}
use snmptune.Agent.{Environment, canceled, deadline_exceeded, CtxError}
use snmptune.Float.{FloatOps}
use snmptune.Safety.{note_trial}
use snmptune.Walk.{Settings, Result, Cause, product}
use snmptune.Search
use snmptune.Search.{
  Label, Abort, Failure, Trial, Options, Runner, interrupted_during, stressed_before, aborted_by,
  run_interrupted, restarted_after, lost_after, score, rates_from, score_rates, is_try,
}
use snmptune.Search.Trials.{
  TrialEnd, stopped, append_trial, set_aborted, lower_ceiling, settle, record_failed,
  record_partial, abort, set_interrupted, interrupted,
}

abbrev pub is_stopped : {F : Type 0} → TrialEnd F → Bool
is_stopped stopped = true
is_stopped _ = false

module _ {F : Type 0} where
  -- Nothing was recorded; the ceiling may have come down.
  pub record Same (r r' : Runner F) : Type 0 where
    pub trials : r'.out.trials ≡ r.out.trials
    pub tracker : r'.tracker ≡ r.tracker
    pub measured_before : r'.measured ≡ r.measured
    pub lower : r'.ceiling ≤ r.ceiling

  -- One trial was recorded, and counted.
  pub record Added (s : Settings) (t : Trial F) (r r' : Runner F) : Type 0 where
    pub at_settings : t.settings ≡ s
    pub trials : r'.out.trials ≡ r.out.trials ++ t ∷ []
    pub tracker : r'.tracker ≡ note_trial r.tracker
    pub measured_before : r'.measured ≡ r.measured
    pub lower : r'.ceiling ≤ r.ceiling

  -- What may happen behind the tests at the head of `trial`. A failed trial lowers the ceiling to
  -- its product unless the run stops.
  pub data Effect (s : Settings) (r : Runner F) (stop : Bool) (r' : Runner F) : Type 0 where
    none_added : Same r r' → Effect s r stop r'
    one_added :
        (t : Trial F)
        → Added s t r r'
        → (stop ≡ false → Search.ok t ≡ false → r'.ceiling ≤ product s)
        → Effect s r stop r'

  pub Same-refl : (r : Runner F) → Same r r
  Same-refl r = record {
    trials = refl;
    tracker = refl;
    measured_before = refl;
    lower = omega arith;
  }

  pub Same-trans : {r r1 r2 : Runner F} → Same r r1 → Same r1 r2 → Same r r2
  Same-trans a b = record {
    trials = b.trials ∙ a.trials;
    tracker = b.tracker ∙ a.tracker;
    measured_before = b.measured_before ∙ a.measured_before;
    lower = omega arith;
  }

  pub Same-Added :
      {s : Settings} {t : Trial F} {r r1 r2 : Runner F}
      → Same r r1
      → Added s t r1 r2
      → Added s t r r2
  Same-Added a b = record {
    at_settings = b.at_settings;
    trials = ground arith;
    tracker = ground arith;
    measured_before = b.measured_before ∙ a.measured_before;
    lower = omega arith;
  }

  pub Same-Effect :
      {s : Settings} {r r1 r2 : Runner F} {stop : Bool}
      → Same r r1
      → Effect s r1 stop r2
      → Effect s r stop r2
  Same-Effect a (none_added b) = none_added (Same-trans a b)
  Same-Effect a (one_added t b low) = one_added t (Same-Added a b) low

  pub set_aborted-Same : (a : Abort) (r : Runner F) → Same r (set_aborted a r)
  unfolding set_aborted
  set_aborted-Same a r = record {
    trials = refl;
    tracker = refl;
    measured_before = refl;
    lower = omega arith;
  }

  pub lower_ceiling-Same : (phase : Label) (r : Runner F) → Same r (lower_ceiling phase r)
  unfolding lower_ceiling
  lower_ceiling-Same phase r = record {
    trials = refl;
    tracker = refl;
    measured_before = refl;
    lower = ground arith;
  }

module _ (float : FloatOps) where
  open float use {F}

  score_rates-settings :
      (s : Settings) (phase : Label) (runs : List Result) (o : Option (List Cause) × List F)
      → (score_rates float s phase runs o).settings ≡ s
  unfolding score_rates
  score_rates-settings s phase runs (some c, rates) = refl
  score_rates-settings s phase runs (none, []) = refl
  score_rates-settings s phase runs (none, r ∷ rs) = refl

  pub score-settings :
      (s : Settings) (phase : Label) (runs : List Result) → (score float s phase runs).settings ≡ s
  unfolding score
  score-settings s phase runs = score_rates-settings s phase runs (rates_from float [] runs)

  -- A partial trial is recorded as a failed one, if it has a run.
  pub record_partial-Effect :
      (s : Settings) (phase : Label) (runs : List Result) (failure : Failure) (r : Runner F)
      (stop : Bool)
      → (stop ≡ false → r.ceiling ≤ product s)
      → Effect s r stop (record_partial float s phase runs failure r)
  unfolding record_partial record_failed append_trial
  record_partial-Effect s phase [] failure r stop low = none_added (Same-refl r)
  record_partial-Effect s phase (run ∷ runs) failure r stop low =
      one_added _
        (record {
          at_settings = score-settings s phase (run ∷ runs);
          trials = refl;
          tracker = refl;
          measured_before = refl;
          lower = omega arith;
        })
        (λ h _. low h)

  set_interrupted-Same :
      (e : CtxError) (s : Settings) (r : Runner F) → Same r (set_interrupted float e s r)
  unfolding set_interrupted
  set_interrupted-Same deadline_exceeded s r = record {
    trials = refl;
    tracker = refl;
    measured_before = refl;
    lower = omega arith;
  }
  set_interrupted-Same canceled s r = set_aborted-Same (interrupted_during s) r

  pub settle-Effect :
      (s : Settings) (t : Trial F) (r : Runner F) → t.settings ≡ s → Effect s r false (settle s t r)
  unfolding settle append_trial
  settle-Effect s t r e = elim (Bool-cases (Search.ok t)) [
    | inl good ↦ one_added t (added e) (λ _ bad. cc)
    | inr bad ↦ one_added t (added e) (λ _ _. ground arith)
  ]
    where
      added : t.settings ≡ s → Added s t r (settle s t r)
      added e = record {
        at_settings = e;
        trials = ground arith;
        tracker = ground arith;
        measured_before = ground arith;
        lower = ground arith;
      }

  pub abort-Effect :
      (a : Abort) (s : Settings) (phase : Label) (runs : List Result) (r : Runner F)
      → Effect s r true (abort float a s phase runs r)
  unfolding abort
  abort-Effect a s phase runs r =
      Same-Effect (set_aborted-Same a r)
        (record_partial-Effect s phase runs (aborted_by a) (set_aborted a r) true (λ h. cc))

module _ (env : Environment) (float : FloatOps) where
  open env use {World, ctx_err, sleep}
  open float use {F}

  -- Either the context is fine and nothing changes, or the run stops.
  pub interrupted_cases :
      (s : Settings) (phase : Label) (runs : List Result) (r : Runner F) (w : World)
      → (((interrupted env float s phase runs r w).0 ≡ false)
          × ((interrupted env float s phase runs r w).1 ≡ r))
        ⊎ (((interrupted env float s phase runs r w).0 ≡ true)
            × Effect s r true (interrupted env float s phase runs r w).1)
  unfolding interrupted
  interrupted_cases s phase runs r w = elim (Option-cases (ctx_err w).0) [
    | inl e ↦ inl (rw (e, interrupted) refl, rw (e, interrupted) refl)
    | inr (c, e) ↦ inr (
      rw (e, interrupted) refl,
      rw (e, interrupted)
          (Same-Effect (set_interrupted-Same float c s r) (
            record_partial-Effect float s phase runs run_interrupted (set_interrupted float c s r)
              true (λ h. cc))),
    )
  ]

  -- Before the first repeat there is nothing to record.
  pub interrupted_start :
      (s : Settings) (phase : Label) (r : Runner F) (w : World)
      → (((interrupted env float s phase [] r w).0 ≡ false)
          × ((interrupted env float s phase [] r w).1 ≡ r))
        ⊎ (((interrupted env float s phase [] r w).0 ≡ true)
            × Same r (interrupted env float s phase [] r w).1)
  unfolding interrupted record_partial
  interrupted_start s phase r w = elim (Option-cases (ctx_err w).0) [
    | inl e ↦ inl (rw (e, interrupted) refl, rw (e, interrupted) refl)
    | inr (c, e) ↦
        inr (rw (e, interrupted) refl, rw (e, interrupted) (set_interrupted-Same float c s r))
  ]
