-- ===== src/Safety/Limits.antt =====
-- When `Exhausted` gives a reason.
use snmptune.Prelude.{ℕ, ◌<◌, ◌-◌, ◌≡◌, ◌↔◌, none, some, arith}
use snmptune.Agent.{Environment}
use snmptune.Safety.{Tracker, max_trials_reached, exhausted, elapsed}

-- The tracker may count one more trial. A bound of 0 is none.
abbrev pub HasRoom : Tracker → Type 0
HasRoom t = 0 < t.budget.max_trials → t.trials < t.budget.max_trials

abbrev pub HasTime : Tracker → ℕ → Type 0
HasTime t spent = 0 < t.budget.max_duration → spent < t.budget.max_duration

module _ (env : Environment) where
  open env use {World, now}

  -- `Exhausted` gives no reason exactly if neither bound is reached: the count of trials is below
  -- its bound, and so is the time since the start by the clock that it reads. Where both are
  -- reached it names the trials.
  pub exhausted_lem :
      (t : Tracker) (w : World)
      → (((exhausted env t w).0 ≡ none) ↔ (HasRoom t × HasTime t ((now w).0 - t.start)))
        × (¬ HasRoom t → (exhausted env t w).0 ≡ some (max_trials_reached t.budget.max_trials))
  unfolding exhausted elapsed
  exhausted_lem t w = ((λ h. (ground arith, ground arith), λ h. ground arith), λ h. ground arith)

  pub exhausted-none : (t : Tracker) (w : World) → (exhausted env t w).0 ≡ none → HasRoom t
  exhausted-none t w h = ((exhausted_lem t w).0.0 h).0
