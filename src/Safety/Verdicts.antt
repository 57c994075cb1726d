-- ===== src/Safety/Verdicts.antt =====
-- What each verdict of `Probe` means.
use snmptune.Prelude.{◌*◌, ◌≤◌, ◌<◌, ◌≡◌, ◌≢◌, ◌↔◌, true, none, [], ◌∷◌, arith}
use snmptune.Agent.{Reply, Environment, sys_up_time_oid}
use snmptune.Safety.{
  Canary, stressed, restarted, lost, judge, probe, uptime, stress_factor, stress_floor, note_uptime,
}

abbrev pub Failed : Reply → Type 0
Failed r = r.error ≢ none

abbrev pub Answered : Reply → Type 0
Answered r = r.error ≡ none

-- The answer's uptime is below the last one that the canary saw.
abbrev pub WentBack : Canary → Reply → Type 0
WentBack c r = (c.seen ≡ true) × (uptime r.response < c.last_uptime)

abbrev pub IsSlow : Canary → Reply → Type 0
IsSlow c r =
    (r.response.retries ≡ 0)
    × (stress_factor * c.baseline < r.response.rtt)
    × (stress_floor < r.response.rtt)

judge_lost : (c : Canary) (r : Reply) → ((judge c r).0 ≡ lost) ↔ (Failed r × (1 ≤ c.lost_probes))
unfolding judge
judge_lost c r = (λ h. ground arith, λ h. ground arith)

judge_restarted :
    (c : Canary) (r : Reply) → ((judge c r).0 ≡ restarted) ↔ (Answered r × WentBack c r)
unfolding judge
judge_restarted c r = (λ h. ground arith, λ h. ground arith)

judge_stressed :
    (c : Canary) (r : Reply)
    → ((judge c r).0 ≡ stressed) ↔ (Answered r × ¬ WentBack c r × IsSlow c r)
unfolding judge
judge_stressed c r = (λ h. ground arith, λ h. ground arith)

pub judge-uptime :
    (c : Canary) (r : Reply)
    → Answered r
    → ((judge c r).1.last_uptime ≡ uptime r.response)
      × ((judge c r).1.seen ≡ true)
      × ((judge c r).1.baseline ≡ c.baseline)
unfolding judge note_uptime
judge-uptime c r h = (ground arith, ground arith, ground arith)

module _ (env : Environment) where
  open env use {World, get}

  abbrev pub reply : World → Reply
  reply w = (get (sys_up_time_oid ∷ []) w).0

  -- What `Probe` reports of one request: `lost` exactly if the request gave an error, be it a
  -- timeout, an error of the transport or an error status that the agent answered with, and the canary
  -- already counts a failed probe; `restarted` exactly if it gave none and the uptime of the response
  -- is smaller than the last one seen, where a response without an uptime value has the uptime 0; and
  -- `stressed` exactly if it gave no error, the uptime is no smaller, and it was answered without a
  -- retransmission, more than three times slower than the baseline and slower than 10 ms.
  pub probe_verdicts :
      (c : Canary) (w : World)
      → (((probe env c w).0 ≡ lost) ↔ (Failed (reply w) × (1 ≤ c.lost_probes)))
        × (((probe env c w).0 ≡ restarted) ↔ (Answered (reply w) × WentBack c (reply w)))
        × (((probe env c w).0 ≡ stressed)
            ↔ (Answered (reply w) × ¬ WentBack c (reply w) × IsSlow c (reply w)))
  unfolding probe
  probe_verdicts c w =
      (judge_lost c (reply w), judge_restarted c (reply w), judge_stressed c (reply w))

judge_two : (c : Canary) (r s : Reply) → ((judge (judge c r).1 s).0 ≡ lost) ↔ (Failed r × Failed s)
unfolding judge note_uptime
judge_two c r s = (λ h. (ground arith, ground arith), λ h. ground arith)

module _ (env : Environment) where
  open env use {World, get}

  -- Of two probes in a row the second one's verdict is `lost` exactly if both requests gave an error,
  -- be it a timeout, an error of the transport or an error status that the agent answered with,
  -- whatever the canary had seen before.
  pub probe_twice_lost :
      (c : Canary) (w : World)
      → let (_, c', w') = probe env c w in
        ((probe env c' w').0 ≡ lost) ↔ (Failed (reply env w) × Failed (reply env w'))
  unfolding probe
  probe_twice_lost c w = judge_two c (reply env w) (reply env (get (sys_up_time_oid ∷ []) w).1)
