-- ===== src/Examples/Agents.antt =====
-- A small agent, its deadline, and the theorems about canary, budget and reference walk at it.
use snmptune.Prelude.{
  ℕ, ◌-◌, ◌/◌, ◌≤◌, ◌≡◌, ◌≢◌, ◌↔◌, refl, true, none, some, List, [], ◌∷◌, map, arith, ltb, ◌==◌,
  if◌then◌else◌, length,
}
use snmptune.Text
use snmptune.Text.{Text, codes}
use snmptune.Oid
use snmptune.Agent.{Varbind, uint32, end_of_mib_view, Reply, Environment, deadline_exceeded}
use snmptune.Agent.Deadline.{Deadline}
use snmptune.Exec.{Ends}
use snmptune.Inventory.Walk.{walk}
use snmptune.Inventory.Walk.Result.{WalkEnd, walk_lem}
use snmptune.Safety.{
  Canary, Tracker, baseline_probes, new_canary, probe, lost, restarted, uptime, stressed, exhausted,
  max_trials_reached,
}
use snmptune.Safety.Baseline.{answered_rtts, probes, new_canary_lem}
use snmptune.Safety.Limits.{HasRoom, HasTime, exhausted_lem}
use snmptune.Safety.Verdicts.{
  Failed, Answered, WentBack, IsSlow, reply, probe_verdicts, probe_twice_lost,
}
use snmptune.Slices.Sorted.{IsQuantile}

abbrev pub row : Text → Varbind
row o = record { oid = o; value = uint32 7 }

-- The first row behind an OID, and the end of the view behind the last.
abbrev pub next_row : Text → Varbind
unfolding Oid.compare Oid.compare_arcs
next_row o =
    if Oid.is_gt (Oid.compare (codes "1.3.6.1.9.1") o)
    then row (codes "1.3.6.1.9.1")
    else if Oid.is_gt (Oid.compare (codes "1.3.6.1.9.2") o)
    then row (codes "1.3.6.1.9.2")
    else record { oid = o; value = end_of_mib_view }

abbrev answer : List Varbind → Reply
answer vbs = record {
  response = record { varbinds = vbs; rtt = 5_000_000; bytes = 60; retries = 0 };
  error = none;
}

abbrev pub small_agent : Environment
small_agent = record {
  World = ℕ;
  get = λ os w. (answer (map row os), w);
  get_bulk = λ os n w. (answer (map next_row os), w - 1);
  ctx_err = λ w. ((if w == 0 then some deadline_exceeded else none), w);
  now = λ w. (1_000_000_000 - w, w);
  sleep = λ n w. w;
}

abbrev pub ten_requests : ℕ
ten_requests = 10

pub expires_at_zero : (w : ℕ) → w ≡ 0 → (if w == 0 then some deadline_exceeded else none) ≢ none
expires_at_zero w e = ground arith

abbrev pub small_deadline : Deadline small_agent
small_deadline = record {
  remaining = λ w. w;
  expires = expires_at_zero;
  bulk_spends = λ os n w. omega arith;
  get_keeps = λ os w. omega arith;
  ctx_keeps = λ w. omega arith;
  now_keeps = λ w. omega arith;
  sleep_keeps = λ n w. omega arith;
}

abbrev roots : List Text
roots = codes "1.3.6.1.9" ∷ []

one_root_arcs : Oid.parse (Oid.canonical (codes "1.3.6.1.9")) ≡ 1 ∷ 3 ∷ 6 ∷ 1 ∷ 9 ∷ []
unfolding Oid.parse Oid.canonical snmptune.Text.trim_dot snmptune.Text.split
    snmptune.Text.parse_uint
one_root_arcs = refl

one_root : Oid.parse (Oid.canonical (codes "1.3.6.1.9")) ≢ []
one_root = λ e. cc one_root_arcs

walk_lem_example :
    Ends (WalkEnd small_agent small_deadline) (walk small_agent 11 0 roots ten_requests)
walk_lem_example =
    walk_lem small_agent small_deadline 11 0 roots ten_requests (omega arith) (one_root, tt)

abbrev pub canary : Canary
canary = record { baseline = 4_000_000; last_uptime = 100; seen = true; lost_probes = 0 }

probe_verdicts_example :
    (((probe small_agent canary 3).0 ≡ lost) ↔ (Failed (reply small_agent 3) × (1 ≤ 0)))
    × (((probe small_agent canary 3).0 ≡ restarted)
        ↔ (Answered (reply small_agent 3) × WentBack canary (reply small_agent 3)))
    × (((probe small_agent canary 3).0 ≡ stressed) ↔ (
        Answered (reply small_agent 3)
        × ¬ WentBack canary (reply small_agent 3)
        × IsSlow canary (reply small_agent 3)))
probe_verdicts_example = probe_verdicts small_agent canary 3

probe_twice_lost_example :
    let (_, c', w') = probe small_agent canary 3 in
    ((probe small_agent c' w').0 ≡ lost)
    ↔ (Failed (reply small_agent 3) × Failed (reply small_agent w'))
probe_twice_lost_example = probe_twice_lost small_agent canary 3

new_canary_lem_example :
    let rtts = answered_rtts (probes small_agent baseline_probes 3) in
    (((new_canary small_agent 3).0 ≡ none) ↔ (rtts ≡ []))
    × ((c : Canary)
        → (new_canary small_agent 3).0 ≡ some c
        → IsQuantile ltb rtts (length rtts / 2) c.baseline)
new_canary_lem_example = new_canary_lem small_agent 3

abbrev tracker : Tracker
tracker = record {
  budget = record { max_duration = 900; max_trials = 2; max_product = 40; max_oids = 100 };
  trials = 2;
  start = 0;
}

abbrev pub fresh_tracker : Tracker
fresh_tracker = record tracker { trials = 0 }

exhausted_lem_example :
    (((exhausted small_agent tracker 3).0 ≡ none)
      ↔ (HasRoom tracker × HasTime tracker (999_999_997 - 0)))
    × (¬ HasRoom tracker → (exhausted small_agent tracker 3).0 ≡ some (max_trials_reached 2))
exhausted_lem_example = exhausted_lem small_agent tracker 3

small_agent_restarted : (probe small_agent canary 3).0 ≡ restarted
unfolding probe uptime
small_agent_restarted = refl
