-- ===== src/Agent/Sim.antt =====
-- internal/agent/sim/sim.go: the simulated agent, without its lock.
pub mod Plain
pub mod Protocol
use snmptune.Prelude.{
  ℕ, zero, suc, ◌+◌, ◌*◌, ◌/◌, ◌%◌, Bool, true, false, ◌&&◌, ◌||◌, not, Option, none, some, List,
  [], ◌∷◌, ◌++◌, map, length, ltb, leb, ◌==◌, if◌then◌else◌, Ordering,
}
use snmptune.Text.{is_named, Text, codes, text_eq, format_uint, u32_mod, join}
use snmptune.Oid
use snmptune.Oid.{Arcs, compare_arcs, is_gt}
use snmptune.Slices.{sort}
use snmptune.Agent.{
  Value, uint32, string, octets, other, end_of_mib_view, no_such_instance, Varbind, Response,
  CtxError, Error, timeout, agent_error, context_error, Reply, sys_up_time_oid,
}

pub data RequestKind : Type 0 where
  get getnext getbulk : RequestKind

pub record Request : Type 0 where
  pub kind : RequestKind
  pub oids : List Text
  pub max_reps : ℕ
  pub varbinds : ℕ

-- `Agent`. A map is a list of pairs, the first of a key counting; a nil `arcs` is empty.
pub record SimAgent : Type 0 where
  pub max_rows : ℕ
  pub max_bytes : ℕ
  pub rtt : ℕ → ℕ
  pub timeout : ℕ
  pub restart_after : ℕ
  pub loop_oid : Text
  pub misorder : List (Text × Text)
  pub error_above : ℕ
  pub retries : ℕ
  pub keys : List Text
  pub arcs : List Arcs
  pub values : List (Text × Value)
  pub requests : List Request
  pub uptime : ℕ

-- `New`: an hour, and a day.
unfoldable pub new : SimAgent
new = record {
  max_rows = 0;
  max_bytes = 0;
  rtt = λ n. 0;
  timeout = 3_600_000_000_000;
  restart_after = 0;
  loop_oid = [];
  misorder = [];
  error_above = 0;
  retries = 0;
  keys = [];
  arcs = [];
  values = [];
  requests = [];
  uptime = 86_400_000_000_000;
}

unfoldable pub find {ℓ} : {A : Type ℓ} → List (Text × A) → Text → Option A
find [] o = none
find ((k, v) ∷ kvs) o = let rest = find kvs o in if text_eq k o then some v else rest

abbrev pub is_some {ℓ} : {A : Type ℓ} → Option A → Bool
is_some none = false
is_some (some a) = true

unfoldable pub value_or : Value → Option Value → Value
value_or d none = d
value_or d (some v) = v

-- `Set`.
unfoldable pub set : Text → Value → SimAgent → SimAgent
set o v a =
    let k = Oid.canonical o in
    if is_some (find a.values k)
    then record a { values = (k, v) ∷ a.values }
    else record a { keys = a.keys ++ k ∷ []; arcs = []; values = (k, v) ∷ a.values }

-- `fmt.Sprintf("%s.1.%d.%d", ...)` and `fmt.Sprintf("c%dr%d", ...)`.
unfoldable pub cell_oid : Text → ℕ → ℕ → Text
cell_oid base c r = Oid.canonical base ++ codes ".1." ++ format_uint c ++ codes "." ++ format_uint r

unfoldable pub cell_text : ℕ → ℕ → Text
cell_text c r = codes "c" ++ format_uint c ++ codes "r" ++ format_uint r

-- The loops of `AddTable`, over what is left of the rows and of the columns.
unfoldable pub add_rows : Text → ℕ → ℕ → ℕ → SimAgent → SimAgent
add_rows base c zero r a = a
add_rows base c (suc left) r a =
    add_rows base c left (suc r) (set (cell_oid base c r) (string (cell_text c r)) a)

unfoldable pub add_columns : Text → ℕ → ℕ → ℕ → SimAgent → SimAgent
add_columns base zero rows c a = a
add_columns base (suc left) rows c a = add_columns base left rows (suc c) (add_rows base c rows 1 a)

unfoldable pub add_table : Text → ℕ → ℕ → SimAgent → SimAgent
add_table base cols rows a = add_columns base cols rows 1 a

-- `beginLocked`: a pending restart, and the sort.
unfoldable pub restart : SimAgent → SimAgent
restart a =
    if ltb 0 a.restart_after && leb a.restart_after (length a.requests)
    then record a { uptime = 0; restart_after = 0 }
    else a

abbrev pub is_before : Text → Text → Bool
is_before o p = is_gt (Oid.compare p o)

unfoldable pub begin : SimAgent → SimAgent
begin a =
    let b = restart a in
    if ltb 0 (length b.arcs) || length b.keys == 0
    then b
    else (let keys = sort is_before b.keys in record b { keys = keys; arcs = map Oid.parse keys })

-- `sort.Search` over the sorted OIDs: the first one after the arcs.
unfoldable pub first_after : List Text → List Arcs → Arcs → Option Text
first_after (k ∷ ks) (b ∷ bs) arcs =
    let rest = first_after ks bs arcs in if is_gt (compare_arcs b arcs) then some k else rest
first_after _ _ arcs = none

-- `fmtArcs`.
unfoldable pub fmt_arcs : Arcs → Text
fmt_arcs arcs = join (map format_uint arcs)

-- `nextLocked`. A missing value is nil.
unfoldable pub next : SimAgent → Arcs → Varbind
next a arcs =
    if is_named a.loop_oid && Oid.is_eq (compare_arcs arcs (Oid.parse a.loop_oid))
    then (let o = Oid.canonical a.loop_oid in
        record { oid = o; value = value_or other (find a.values o) })
    else elim (find a.misorder (Oid.format arcs)) [
      | some wrong ↦ record { oid = wrong; value = value_or other (find a.values wrong) }
      | none ↦ elim (first_after a.keys a.arcs arcs) [
        | none ↦ record { oid = fmt_arcs arcs; value = end_of_mib_view }
        | some k ↦ record { oid = k; value = value_or other (find a.values k) }
      ]
    ]

-- `encodedSize`.
unfoldable pub value_size : Value → ℕ
value_size (string v) = 2 + length v
value_size (octets v) = 2 + length v
value_size _ = 6

unfoldable pub encoded_size : Varbind → ℕ
encoded_size vb = 4 + length (Oid.parse vb.oid) + value_size vb.value

unfoldable pub total_size : ℕ → List Varbind → ℕ
total_size n [] = n
total_size n (vb ∷ vbs) = total_size (n + encoded_size vb) vbs

-- `finishLocked`; 1 ms is 10^6 ns.
unfoldable pub finish : RequestKind → List Text → ℕ → List Varbind → SimAgent → Reply × SimAgent
finish kind oids reps vbs a =
    let rtt = a.rtt (length vbs) in
    let b = record a {
      requests =
          a.requests
          ++ record { kind = kind; oids = oids; max_reps = reps; varbinds = length vbs } ∷ [];
      uptime = a.uptime + rtt + 1_000_000;
    } in
    if ltb a.timeout rtt
    then (
      record {
        response = record { varbinds = []; rtt = 0; bytes = 0; retries = a.retries };
        error = some (timeout (codes "snmp: timeout"));
      },
      b,
    )
    else (
      record {
        response = record {
          varbinds = vbs;
          rtt = rtt;
          bytes = total_size 0 vbs;
          retries = a.retries;
        };
        error = none;
      },
      b,
    )

-- The body of the loop of `Get`.
unfoldable pub get_one : SimAgent → Text → Varbind
get_one a requested =
    let o = Oid.canonical requested in
    if text_eq o sys_up_time_oid
    then record { oid = o; value = uint32 (a.uptime / 10_000_000 % u32_mod) }
    else record { oid = o; value = value_or no_such_instance (find a.values o) }

-- What the context's error ends at once.
abbrev pub ended : CtxError → Reply
ended e = record {
  response = record { varbinds = []; rtt = 0; bytes = 0; retries = 0 };
  error = some (context_error e);
}

unfoldable pub sim_get : Option CtxError → List Text → SimAgent → Reply × SimAgent
sim_get (some e) oids a = (ended e, a)
sim_get none oids a = let b = begin a in finish get oids 0 (map (get_one b) oids) b

unfoldable pub sim_get_next : Option CtxError → List Text → SimAgent → Reply × SimAgent
sim_get_next (some e) oids a = (ended e, a)
sim_get_next none oids a =
    let b = begin a in finish getnext oids 0 (map (λ o. next b (Oid.parse o)) oids) b

-- The variables of the loops of `GetBulk`; `full` is behind the `break rows`.
pub record Bulk : Type 0 where
  pub cursors : List Arcs
  pub bytes : ℕ
  pub vbs : List Varbind
  pub full : Bool

-- The loop over the cursors of a row. The cursors that were moved come first.
unfoldable pub bulk_row : SimAgent → List Arcs → List Arcs → ℕ → List Varbind → Bulk
bulk_row a moved [] bytes vbs = record { cursors = moved; bytes = bytes; vbs = vbs; full = false }
bulk_row a moved (c ∷ cs) bytes vbs =
    let vb = next a c in
    let more =
      bulk_row a (moved ++ Oid.parse vb.oid ∷ []) cs (bytes + encoded_size vb) (vbs ++ vb ∷ []) in
    if ltb 0 a.max_bytes && ltb a.max_bytes (bytes + encoded_size vb)
    then record { cursors = moved ++ c ∷ cs; bytes = bytes; vbs = vbs; full = true }
    else more

-- The loop over the rows, `left` of them from row `r`.
unfoldable pub bulk_rows : SimAgent → ℕ → ℕ → List Arcs → ℕ → List Varbind → List Varbind
bulk_rows a zero r cursors bytes vbs = vbs
bulk_rows a (suc left) r cursors bytes vbs =
    let b = bulk_row a [] cursors bytes vbs in
    let more = bulk_rows a left (suc r) b.cursors b.bytes b.vbs in
    if ltb 0 a.max_rows && leb a.max_rows r then vbs else if b.full then b.vbs else more

unfoldable pub sim_get_bulk : Option CtxError → List Text → ℕ → SimAgent → Reply × SimAgent
sim_get_bulk (some e) oids n a = (ended e, a)
sim_get_bulk none oids n a =
    let b = begin a in
    if ltb 0 b.error_above && ltb b.error_above (length oids * n)
    then (
      record {
        response = record { varbinds = []; rtt = b.rtt 0; bytes = 0; retries = b.retries };
        error = some (agent_error (codes "snmp: agent error tooBig at index 0"));
      },
      record b {
        requests =
            b.requests ++ record { kind = getbulk; oids = oids; max_reps = n; varbinds = 0 } ∷ [];
      },
    )
    else finish getbulk oids n (bulk_rows b n 0 (map Oid.parse oids) 0 []) b
