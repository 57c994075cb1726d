-- ===== src/Safety.antt =====
-- internal/safety/safety.go: canary probes, budgets and the cooldown.
pub mod Verdicts
pub mod Baseline
pub mod Limits
use snmptune.Prelude.{
  ℕ, zero, suc, ◌+◌, ◌-◌, ◌*◌, ◌/◌, ◌%◌, Bool, true, false, ◌&&◌, ◌||◌, Option, none, some, List,
  [], ◌∷◌, ◌++◌, max, ltb, leb, if◌then◌else◌, length, get_or,
}
use snmptune.Text.{u32_mod}
use snmptune.Agent.{
  Value, uint32, uint, int, Varbind, Response, Error, Reply, Environment, sys_up_time_oid,
}
use snmptune.Slices.{sort}

pub data Verdict : Type 0 where
  ok stressed restarted lost : Verdict

abbrev pub baseline_probes : ℕ
baseline_probes = 5

abbrev pub stress_factor : ℕ
stress_factor = 3

-- 10 ms.
abbrev pub stress_floor : ℕ
stress_floor = 10_000_000

-- The transport is the environment's.
pub record Canary : Type 0 where
  pub baseline : ℕ
  pub last_uptime : ℕ
  pub seen : Bool
  pub lost_probes : ℕ

value_uptime : Value → ℕ
value_uptime (uint32 v) = v
value_uptime (uint v) = v % u32_mod
value_uptime (int v) = v % u32_mod
value_uptime _ = 0

varbinds_uptime : List Varbind → ℕ
unfolding value_uptime
varbinds_uptime [] = 0
varbinds_uptime (vb ∷ _) = value_uptime vb.value

unfoldable pub uptime : Response → ℕ
unfolding varbinds_uptime
uptime resp = varbinds_uptime resp.varbinds

unfoldable pub note_uptime : Canary → Response → Canary
note_uptime c resp = record c { last_uptime = uptime resp; seen = true }

-- The end of `Probe`, behind the last `noteUptime`.
classify : Canary → Response → Verdict
classify c resp =
    if ltb 0 resp.retries
    then ok
    else if ltb (stress_factor * c.baseline) resp.rtt && ltb stress_floor resp.rtt
    then stressed
    else ok

-- `Probe` on what its `Get` returned.
judge_error : Canary → Verdict × Canary
judge_error c =
    let d = record c { lost_probes = c.lost_probes + 1 } in
    if leb 2 d.lost_probes then (lost, d) else (ok, d)

judge_answer : Canary → Response → Verdict × Canary
unfolding classify
judge_answer c resp =
    let d = record c { lost_probes = 0 } in
    if d.seen && ltb (uptime resp) d.last_uptime
    then (restarted, note_uptime d resp)
    else (classify d resp, note_uptime d resp)

unfoldable pub judge : Canary → Reply → Verdict × Canary
unfolding judge_error judge_answer
judge c r = elim r.error [ some _ ↦ judge_error c | none ↦ judge_answer c r.response ]

-- The median of the measured times, `none` if there are none.
unfoldable pub with_baseline : List ℕ → Canary → Option Canary
with_baseline [] c = none
with_baseline (t ∷ ts) c =
    some (record c { baseline = get_or (sort ltb (t ∷ ts)) (length (t ∷ ts) / 2) 0 })

module _ (env : Environment) where
  open env use {World, get, now}

  -- `Probe`.
  unfoldable pub probe : Canary → World → Verdict × Canary × World
  unfolding judge
  probe c w = let (r, w') = get (sys_up_time_oid ∷ []) w in let (v, c') = judge c r in (v, c', w')

  -- The loop of `NewCanary`, over the probes left.
  unfoldable pub baseline_loop : ℕ → List ℕ → Canary → World → List ℕ × Canary × World
  baseline_loop zero rtts c w = (rtts, c, w)
  baseline_loop (suc left) rtts c w =
      let (r, w') = get (sys_up_time_oid ∷ []) w in
      elim r.error [
        | some _ ↦ baseline_loop left rtts c w'
        | none ↦ baseline_loop left (rtts ++ r.response.rtt ∷ []) (note_uptime c r.response) w'
      ]

  -- `NewCanary`; `none` is its error.
  unfoldable pub new_canary : World → Option Canary × World
  new_canary w =
      let blank : Canary = record {
        baseline = 0;
        last_uptime = 0;
        seen = false;
        lost_probes = 0;
      } in
      let (rtts, c, w') = baseline_loop baseline_probes [] blank w in (with_baseline rtts c, w')

-- `Budget`. The program treats a negative bound like 0.
pub record Budget : Type 0 where
  pub max_duration : ℕ
  pub max_trials : ℕ
  pub max_product : ℕ
  pub max_oids : ℕ

unfoldable pub defaults : Budget
defaults = record {
  max_duration = 900_000_000_000;
  max_trials = 40;
  max_product = 1000;
  max_oids = 200_000;
}

-- `Tracker`; its `Now` is the clock of the environment.
pub record Tracker : Type 0 where
  pub budget : Budget
  pub trials : ℕ
  pub start : ℕ

-- The reason that `Exhausted` gives, with what it prints.
pub data Exhaustion : Type 0 where
  max_trials_reached max_duration_reached : ℕ → Exhaustion

unfoldable pub note_trial : Tracker → Tracker
note_trial t = record t { trials = t.trials + 1 }

module _ (env : Environment) where
  open env use {World, now}

  unfoldable pub start_tracker : Tracker → World → Tracker × World
  start_tracker t w = let (n, w') = now w in (record t { start = n }, w')

  unfoldable pub elapsed : Tracker → World → ℕ × World
  elapsed t w = let (n, w') = now w in (n - t.start, w')

  -- `Exhausted`. The clock is read only if there is a duration budget.
  unfoldable pub exhausted : Tracker → World → Option Exhaustion × World
  exhausted t w =
      if ltb 0 t.budget.max_trials && leb t.budget.max_trials t.trials
      then (some (max_trials_reached t.budget.max_trials), w)
      else if ltb 0 t.budget.max_duration
      then (let (e, w') = elapsed t w in
          (
            (if leb t.budget.max_duration e
                then some (max_duration_reached t.budget.max_duration)
                else none),
            w',
          ))
      else (none, w)

-- `Cooldown`.
unfoldable pub cooldown : ℕ → ℕ → ℕ
cooldown minimum previous = max minimum previous
