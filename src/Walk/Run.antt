-- ===== src/Walk/Run.antt =====
-- `Run` of internal/walk/walk.go: a whole workload at one setting.
pub mod Ends
pub mod Scope
use snmptune.Prelude.{
  ℕ, zero, suc, ◌-◌, Bool, true, false, ◌||◌, none, some, List, [], ◌∷◌, ◌++◌, ltb, ◌==◌,
  if◌then◌else◌,
}
use snmptune.Text.{Text, codes}
use snmptune.Agent.{Error, timeout, agent_error, other_error, Environment}
use snmptune.Exec.{Exec, done, panicked, out_of_fuel, ◌>>=◌}
use snmptune.Workload
use snmptune.Workload.{Workload}
use snmptune.Walk.{
  Settings, Result, Walker, Cause, request_failed, empty_response, truncated_responses, new_result,
}
use snmptune.Walk.Table.{complete, failed_with, walk_error, table, scalars}

-- The loop of `slices.Chunk(xs, room + 1)`: what stands in the chunk, and the room left in it.
module _ {A : Type 0} where
  unfoldable pub chunk_from : ℕ → ℕ → List A → List A → List (List A)
  chunk_from size room [] [] = []
  chunk_from size room (c ∷ cur) [] = (c ∷ cur) ∷ []
  chunk_from size zero cur (x ∷ xs) = cur ∷ chunk_from size (size - 1) (x ∷ []) xs
  chunk_from size (suc room) cur (x ∷ xs) = chunk_from size room (cur ++ x ∷ []) xs

  unfoldable pub chunks : ℕ → List A → List (List A)
  chunks size xs = chunk_from size size [] xs

-- The chunks that the two nested loops over tables and chunks visit.
unfoldable pub table_chunks : ℕ → List Workload.Table → List (List Text)
table_chunks size [] = []
table_chunks size (t ∷ ts) = chunks size t.columns ++ table_chunks size ts

-- The settings of an empty `Result`.
abbrev pub no_settings : Settings
no_settings = record { max_repetitions = 0; max_vars_per_pdu = 0 }

-- `Run` returns a result, or an error beside the result so far.
pub data RunEnd : Type 0 where
  ran : Result → RunEnd
  aborted : Result → Error → RunEnd

abbrev pub is_own_limit : Error → Bool
is_own_limit (timeout _) = true
is_own_limit (agent_error _) = true
is_own_limit _ = false

-- What the loop over the table chunks leaves: it went through, or `Run` returns.
pub data Phase : Type 0 where
  through : List Cause → Phase
  returned : RunEnd → Phase

abbrev stamp : Walker → List Cause → ℕ → Result
stamp wk failures duration = record (wk.res) { failure = failures; duration = duration }

module _ (env : Environment) where
  open env use {World, now}

  -- An error of `table` that is not `errWalk`.
  unfoldable pub table_failure : Error → List Cause → Walker → ℕ → World → RunEnd × World
  table_failure e failures wk start w =
      if is_own_limit e
      then (let (n, w') = now w in
          (ran (stamp wk (failures ++ request_failed e ∷ []) (n - start)), w'))
      else (aborted wk.res e, w)

  unfoldable pub run_tables :
      ℕ → List (List Text) → ℕ → List Cause → ℕ → Walker → World → Exec (Phase × Walker × World)
  run_tables fuel [] reps failures start wk w = done (through failures, wk, w)
  run_tables fuel (c ∷ cs) reps failures start wk w = elim (table env fuel c reps wk w) [
    | out_of_fuel ↦ out_of_fuel
    | panicked ↦ panicked
    | done (complete, wk', w') ↦ run_tables fuel cs reps failures start wk' w'
    | done (walk_error oids, wk', w') ↦
        run_tables fuel cs reps (failures ++ empty_response oids ∷ []) start wk' w'
    | done (failed_with e, wk', w') ↦
        (let (end, w'') = table_failure e failures wk' start w' in done (returned end, wk', w''))
  ]

  -- The loop over the chunks of scalars; an error of the agent's own ends it, any other ends `Run`.
  unfoldable pub run_scalars :
      List (List Text) → List Cause → Walker → World → Phase × Walker × World
  run_scalars [] failures wk w = (through failures, wk, w)
  run_scalars (c ∷ cs) failures wk w =
      let (e, wk', w') = scalars env c wk w in
      elim e [
        | none ↦ run_scalars cs failures wk' w'
        | some e' ↦
            if is_own_limit e'
            then (through (failures ++ request_failed e' ∷ []), wk', w')
            else (returned (aborted wk'.res e'), wk', w')
      ]

  -- The end of `Run`.
  unfoldable pub conclude : List Cause → ℕ → Walker → World → RunEnd × World
  conclude failures start wk w =
      let (n, w') = now w in
      let more =
        if ltb 0 wk.res.truncations
        then failures ++ truncated_responses wk.res.truncations ∷ []
        else failures in
      (ran (stamp wk more (n - start)), w')

  unfoldable pub after_scalars : ℕ → Phase × Walker × World → RunEnd × World
  after_scalars start (returned end, wk, w) = (end, w)
  after_scalars start (through failures, wk, w) = conclude failures start wk w

  unfoldable pub after_tables : Workload → ℕ → ℕ → Phase × Walker × World → RunEnd × World
  after_tables workload size start (returned end, wk, w) = (end, w)
  after_tables workload size start (through failures, wk, w) =
      after_scalars start (run_scalars (chunks size workload.scalars) failures wk w)

  unfoldable pub run : ℕ → Workload → Settings → World → Exec (RunEnd × World)
  run fuel workload s w =
      if s.max_repetitions == 0 || s.max_vars_per_pdu == 0
      then done (aborted (new_result no_settings) (other_error (codes "invalid settings")), w)
      else (let (start, w1) = now w in
          let wk : Walker = record { res = new_result s; logged = [] } in
          let size = s.max_vars_per_pdu in
          run_tables fuel (table_chunks size workload.tables) s.max_repetitions [] start wk w1
          >>= λ after. done (after_tables workload size start after))
