-- ===== src/Walk/Table.antt =====
-- `table` and `scalars` of internal/walk/walk.go: one chunk of columns or scalars.
pub mod Scope
pub mod Ends
use snmptune.Prelude.{
  ℕ, zero, suc, ◌+◌, ◌-◌, ◌/◌, ◌%◌, Bool, true, false, ◌&&◌, ◌||◌, not, Option, none, some, List,
  [], ◌∷◌, ◌++◌, map, length, get_or, set, replicate, ltb, ◌==◌, if◌then◌else◌,
}
use snmptune.Text.{Text}
use snmptune.Oid
use snmptune.Oid.{is_gt}
use snmptune.Agent.{
  Value, no_such_object, no_such_instance, end_of_mib_view, Varbind, Response, Error, Environment,
  context_error, is_end,
}
use snmptune.Exec.{Exec, done, panicked, out_of_fuel}
use snmptune.Walk.{Walker, Result, Pdu, getbulk, get, Note, misordered_skipped, emit, send, bump}

-- `column`.
pub record Column : Type 0 where
  pub oid : Text
  pub cursor : Text
  pub jumped : Bool

-- What the loop over the varbinds of one response reads and writes.
pub record Scan : Type 0 where
  pub active : List Column
  pub finished : List Bool
  pub any_finished : Bool
  pub last_row_all_end : Bool
  pub note : Option Note
  pub res : Result

abbrev pub no_column : Column
no_column = record { oid = []; cursor = []; jumped = false }

unfoldable pub finish : ℕ → Scan → Scan
finish i s = record s { finished = set s.finished i true; any_finished = true }

-- A misordered answer: go on behind the shared arcs; `none` is a panic.
unfoldable pub jump : ℕ → Column → Varbind → Scan → Option Scan
jump i c vb s = elim (Oid.skip_target c.cursor vb.oid) [
  | none ↦ none
  | some target ↦
      (let t = record s {
        res = record (s.res) { skips = s.res.skips ++ c.oid ∷ [] };
        note = some misordered_skipped;
        active = set s.active i (record c { cursor = target; jumped = true });
      } in
        some (if Oid.has_prefix target c.oid then t else finish i t))
]

unfoldable pub collect : ℕ → Column → Varbind → Scan → Scan
collect i c vb s = record s {
  active = set s.active i (record c { cursor = vb.oid });
  res = record (s.res) { oids = s.res.oids ++ vb.oid ∷ []; varbinds = s.res.varbinds + 1 };
}

-- A varbind at column `i`, behind the test for the last row.
unfoldable pub take_varbind : ℕ → Column → Varbind → Scan → Option Scan
take_varbind i c vb s =
    if get_or s.finished i false || c.jumped
    then some s
    else if is_end vb.value || not (Oid.has_prefix vb.oid c.oid)
    then some (finish i s)
    else if not (is_gt (Oid.compare vb.oid c.cursor))
    then jump i c vb s
    else some (collect i c vb s)

-- The body of the loop over the varbinds, at position `idx`.
unfoldable pub visit : ℕ → ℕ → ℕ → Varbind → Scan → Option Scan
visit width rows idx vb s =
    let i = idx % width in
    let partial = (idx / width == rows - 1) && not (is_end vb.value) in
    let t = record s { last_row_all_end = if partial then false else s.last_row_all_end } in
    take_varbind i (get_or t.active i no_column) vb t

unfoldable pub visit_all : ℕ → ℕ → ℕ → List Varbind → Scan → Option Scan
visit_all width rows idx [] s = some s
visit_all width rows idx (vb ∷ vbs) s = elim (visit width rows idx vb s) [
  | none ↦ none
  | some t ↦ visit_all width rows (idx + 1) vbs t
]

-- `active[:0]` filled with the columns that are not finished.
unfoldable pub keep_unfinished : List Column → List Bool → List Column
keep_unfinished [] fs = []
keep_unfinished (c ∷ cs) [] = c ∷ cs
keep_unfinished (c ∷ cs) (f ∷ fs) = let rest = keep_unfinished cs fs in if f then rest else c ∷ rest

-- How `table` returns: nil, an error of the context or of a request, or `errWalk`.
pub data TableEnd : Type 0 where
  complete : TableEnd
  failed_with : Error → TableEnd
  walk_error : List Text → TableEnd

-- Where one round of `table` leaves: with an end, or with the columns of the next round.
pub data Round : Type 0 where
  stop : TableEnd → Round
  again : List Column → Round

unfoldable pub row_count : ℕ → ℕ → ℕ
row_count n width = (n + width - 1) / width

-- Behind the response: what the round does with it.
unfoldable pub digest : List Column → ℕ → Response → Pdu → Walker → Option (Round × Walker)
digest active reps resp p wk =
    let width = length active in
    let n = length resp.varbinds in
    let rows = row_count n width in
    let s0 : Scan = record {
      active = map (λ (c : Column). record c { jumped = false }) active;
      finished = replicate width false;
      any_finished = false;
      last_row_all_end = ltb 0 n;
      note = p.error;
      res = wk.res;
    } in
    elim (visit_all width rows 0 resp.varbinds s0) [
      | none ↦ none
      | some s ↦
          (let truncated = (ltb rows reps || not (n % width == 0)) && not s.last_row_all_end in
            let q = record p { rows = rows; truncated = truncated; error = s.note } in
            let res = record (s.res) { truncations = bump truncated s.res.truncations } in
            let wk' = emit (record wk { res = res }) q in
            some (
              (if n == 0 && not s.any_finished
                  then stop (walk_error (map (λ (c : Column). c.cursor) active))
                  else again (keep_unfinished s.active s.finished)),
              wk',
            ))
    ]

module _ (env : Environment) where
  open env use {World, ctx_err}

  -- One round of the loop of `table`.
  unfoldable pub round : List Column → ℕ → Walker → World → Option (Round × Walker × World)
  round active reps wk w =
      let (c, w1) = ctx_err w in
      elim c [
        | some e ↦ some (stop (failed_with (context_error e)), wk, w1)
        | none ↦
            (let (r, p, wk1, w2) =
                send env wk getbulk (map (λ (c : Column). c.cursor) active) reps w1 in
              elim r.error [
                | some e ↦ some (stop (failed_with e), wk1, w2)
                | none ↦ elim (digest active reps r.response p wk1) [
                  | none ↦ none
                  | some (next, wk2) ↦ some (next, wk2, w2)
                ]
              ])
      ]

  -- The loop of `table`, with fuel for the rounds.
  unfoldable pub table_loop :
      ℕ → List Column → ℕ → Walker → World → Exec (TableEnd × Walker × World)
  table_loop zero active reps wk w = out_of_fuel
  table_loop (suc fuel) [] reps wk w = done (complete, wk, w)
  table_loop (suc fuel) (c ∷ cs) reps wk w = elim (round (c ∷ cs) reps wk w) [
    | none ↦ panicked
    | some (stop end, wk', w') ↦ done (end, wk', w')
    | some (again next, wk', w') ↦ table_loop fuel next reps wk' w'
  ]

  unfoldable pub start_column : Text → Column
  start_column c = record { oid = Oid.canonical c; cursor = Oid.canonical c; jumped = false }

  unfoldable pub table : ℕ → List Text → ℕ → Walker → World → Exec (TableEnd × Walker × World)
  table fuel chunk reps wk w = table_loop fuel (map start_column chunk) reps wk w

unfoldable pub is_exception : Value → Bool
is_exception no_such_object = true
is_exception no_such_instance = true
is_exception end_of_mib_view = true
is_exception _ = false

unfoldable pub count_values : ℕ → List Varbind → ℕ
count_values n [] = n
count_values n (vb ∷ vbs) = count_values (if is_exception vb.value then n else n + 1) vbs

module _ (env : Environment) where
  open env use {World}

  -- `scalars`: the error, if any.
  unfoldable pub scalars : List Text → Walker → World → Option Error × Walker × World
  scalars chunk wk w =
      let (r, p, wk1, w1) = send env wk get chunk 0 w in
      elim r.error [
        | some e ↦ (some e, wk1, w1)
        | none ↦
            (let wk2 = emit wk1 p in
              let res = wk2.res in
              (
                none,
                record wk2 {
                  res = record res { varbinds = count_values res.varbinds r.response.varbinds };
                },
                w1,
              ))
      ]
