-- ===== src/Walk.antt =====
-- internal/walk/walk.go: the settings under test, the telemetry of a walk and its result.
pub mod Table
pub mod Run
use snmptune.Prelude.{
  ℕ, zero, suc, ◌+◌, ◌-◌, ◌*◌, Bool, true, false, ◌&&◌, not, Option, none, some, List, [], ◌∷◌,
  ◌++◌, length, ltb, ◌==◌, if◌then◌else◌,
}
use snmptune.Text.{Text, text_eq}
use snmptune.Slices.{contains}
use snmptune.Agent.{Response, Error, timeout, agent_error, Reply, Environment}
use snmptune.Float.{FloatOps}

pub record Settings : Type 0 where
  pub max_repetitions : ℕ
  pub max_vars_per_pdu : ℕ

-- `Product`, as long as it is below 2^63 and does not wrap; only settings of `--try` can exceed that.
unfoldable pub product : Settings → ℕ
product s = s.max_repetitions * s.max_vars_per_pdu

-- `==` on two `Settings`.
unfoldable pub settings_eq : Settings → Settings → Bool
settings_eq s t = s.max_repetitions == t.max_repetitions && s.max_vars_per_pdu == t.max_vars_per_pdu

pub data Kind : Type 0 where
  getbulk get : Kind

-- `PDU.Error` when it is not empty.
pub data Note : Type 0 where
  failed : Error → Note
  misordered_skipped : Note

-- `PDU`, without the round-trip time in float milliseconds, which only the JSON log shows.
pub record Pdu : Type 0 where
  pub seq : ℕ
  pub sent : ℕ
  pub kind : Kind
  pub repeaters : ℕ
  pub max_reps : ℕ
  pub requested : ℕ
  pub rows : ℕ
  pub varbinds : ℕ
  pub bytes : ℕ
  pub rtt : ℕ
  pub retries : ℕ
  pub truncated : Bool
  pub error : Option Note

-- One of the texts that `Result.Failure` joins; the empty list is the empty text, a clean walk.
-- `missing_oids` is the text that the search writes.
pub data Cause : Type 0 where
  request_failed : Error → Cause
  empty_response : List Text → Cause
  truncated_responses : ℕ → Cause
  missing_oids : ℕ → ℕ → Cause

pub record Result : Type 0 where
  pub settings : Settings
  pub pdus : List Pdu
  pub oids : List Text
  pub varbinds : ℕ
  pub duration : ℕ
  pub skips : List Text
  pub timeouts : ℕ
  pub agent_errors : ℕ
  pub truncations : ℕ
  pub retries : ℕ
  pub failure : List Cause

abbrev pub new_result : Settings → Result
new_result s = record {
  settings = s;
  pdus = [];
  oids = [];
  varbinds = 0;
  duration = 0;
  skips = [];
  timeouts = 0;
  agent_errors = 0;
  truncations = 0;
  retries = 0;
  failure = [];
}

agent_time_from : ℕ → List Pdu → ℕ
agent_time_from d [] = d
agent_time_from d (p ∷ ps) = agent_time_from (d + p.rtt) ps

unfoldable pub agent_time : Result → ℕ
unfolding agent_time_from
agent_time r = agent_time_from 0 r.pdus

module _ (float : FloatOps) where
  open float use {F, of_nat, div, seconds}

  unfoldable pub varbinds_per_second : Result → F
  varbinds_per_second r =
      let d = agent_time r in if d == 0 then of_nat 0 else div (of_nat r.varbinds) (seconds d)

-- The state of `walker`: its result, and the PDUs that its logger was given.
pub record Walker : Type 0 where
  pub res : Result
  pub logged : List Pdu

-- `emit`. A PDU is the last of `res.PDUs` until it is emitted, and nothing reads it there before, so
-- the model appends it as it stands when it is emitted.
unfoldable pub emit : Walker → Pdu → Walker
emit wk p =
    let res = wk.res in
    record { res = record res { pdus = res.pdus ++ p ∷ [] }; logged = wk.logged ++ p ∷ [] }

abbrev is_timeout : Option Error → Bool
is_timeout (some (timeout _)) = true
is_timeout _ = false

abbrev is_agent_error : Option Error → Bool
is_agent_error (some (agent_error _)) = true
is_agent_error _ = false

abbrev note_of : Option Error → Option Note
note_of none = none
note_of (some e) = some (failed e)

abbrev pub bump : Bool → ℕ → ℕ
bump true n = n + 1
bump false n = n

-- `send`, behind the reply: the counters and the telemetry.
unfoldable pub new_pdu : Result → Kind → List Text → ℕ → ℕ → Reply → Pdu
new_pdu res kind oids reps sent r = record {
  seq = length res.pdus + 1;
  sent = sent;
  kind = kind;
  repeaters = length oids;
  max_reps = reps;
  requested = elim kind [ getbulk ↦ length oids * reps | get ↦ length oids ];
  rows = 0;
  varbinds = length r.response.varbinds;
  bytes = r.response.bytes;
  rtt = r.response.rtt;
  retries = r.response.retries;
  truncated = false;
  error = note_of r.error;
}

unfoldable pub count_reply : Result → Reply → Result
count_reply res r = record res {
  retries = res.retries + r.response.retries;
  timeouts = bump (is_timeout r.error) res.timeouts;
  agent_errors = bump (is_agent_error r.error) res.agent_errors;
}

module _ (env : Environment) where
  open env use {World, get as get_request, get_bulk, now}

  -- `send`: the reply, the telemetry of the request and the walker. A failed request is emitted.
  unfoldable pub send : Walker → Kind → List Text → ℕ → World → Reply × Pdu × Walker × World
  send wk kind oids reps w =
      let (sent, w1) = now w in
      let (r, w2) = elim kind as (λ _. Reply × World) [
        | getbulk ↦ get_bulk oids reps w1
        | get ↦ get_request oids w1
      ] in
      let p = new_pdu wk.res kind oids reps sent r in
      let counted = record wk { res = count_reply wk.res r } in
      (r, p, elim r.error [ none ↦ counted | some _ ↦ emit counted p ], w2)

-- `Missing`.
missing_from : ℕ → List Text → List Text → ℕ
missing_from n [] got = n
missing_from n (o ∷ ref) got = missing_from (if contains text_eq got o then n else n + 1) ref got

unfoldable pub missing : List Text → List Text → ℕ
unfolding missing_from
missing ref got = missing_from 0 ref got
