-- ===== src/Walk/Run/Ends.antt =====
-- `Run` of the walk ends by its deadline, and collects only what is in scope.
use snmptune.Prelude.{
  ℕ, zero, suc, ◌-◌, ◌≤◌, ◌<◌, ◌≡◌, refl, inl, inr, ◌||◌, Option, none, some, List, [], ◌∷◌, ◌++◌,
  arith, Bool-cases, Option-cases, All, All-append, All-snoc, ◌==◌, if◌then◌else◌,
}
use snmptune.Text.{Text}
use snmptune.Agent.{Environment, Error}
use snmptune.Agent.Deadline.{Deadline}
use snmptune.Exec.{Exec, done, panicked, out_of_fuel, Ends, >>=-Ends}
use snmptune.Workload
use snmptune.Workload.{Workload}
use snmptune.Walk
use snmptune.Walk.{
  Settings, Result, Walker, Cause, empty_response, request_failed, get, send, emit, new_result,
}
use snmptune.Walk.Table.{TableEnd, complete, failed_with, walk_error, table, scalars}
use snmptune.Walk.Table.Ends.{TableDone, IsPlanned, table-Ends}
use snmptune.Walk.Run.{
  chunk_from, chunks, table_chunks, RunEnd, ran, aborted, is_own_limit, Phase, through, returned,
  table_failure, run_tables, run_scalars, conclude, after_scalars, after_tables, run,
}

module _ {A : Type 0} (P : A → Type 0) where
  chunk_from-All :
      (size room : ℕ) (cur xs : List A)
      → All P cur
      → All P xs
      → All (All P) (chunk_from size room cur xs)
  unfolding chunk_from
  chunk_from-All size room [] [] h k = tt
  chunk_from-All size room (c ∷ cur) [] h k = (h, tt)
  chunk_from-All size zero cur (x ∷ xs) h (p, k) =
      (h, chunk_from-All size (size - 1) (x ∷ []) xs (p, tt) k)
  chunk_from-All size (suc room) cur (x ∷ xs) h (p, k) =
      chunk_from-All size room (cur ++ x ∷ []) xs (All-snoc P cur x h p) k

  chunks-All : (size : ℕ) (xs : List A) → All P xs → All (All P) (chunks size xs)
  unfolding chunks
  chunks-All size xs h = chunk_from-All size size [] xs tt h

table_chunks-All :
    (P : Text → Type 0) (size : ℕ) (ts : List Workload.Table)
    → All (λ t. All P t.columns) ts
    → All (All P) (table_chunks size ts)
unfolding table_chunks
table_chunks-All P size [] h = tt
table_chunks-All P size (t ∷ ts) (h, hs) =
    All-append (All P) (chunks size t.columns) (table_chunks size ts)
      (chunks-All P size t.columns h) (table_chunks-All P size ts hs)

-- The OIDs that a result of `Run` holds, beside an error too.
abbrev pub collected : RunEnd → List Text
collected (ran res) = res.oids
collected (aborted res e) = res.oids

module _ (env : Environment) where
  open env use {World, now}
  open env use {get as get_request}

  send_get-oids :
      (chunk : List Text) (wk : Walker) (w : World)
      → (send env wk get chunk 0 w).2.res.oids ≡ wk.res.oids
  unfolding send emit Walk.count_reply
  send_get-oids chunk wk w = elim (Option-cases (get_request chunk (now w).1).0.error) [
    | inl e ↦ rw e refl
    | inr (x, e) ↦ rw e refl
  ]

  scalars-oids :
      (chunk : List Text) (wk : Walker) (w : World)
      → (scalars env chunk wk w).1.res.oids ≡ wk.res.oids
  unfolding scalars send emit Walk.count_reply
  scalars-oids chunk wk w = elim (Option-cases (get_request chunk (now w).1).0.error) [
    | inl e ↦ rw (e, scalars) (send_get-oids chunk wk w)
    | inr (x, e) ↦ rw (e, scalars) (send_get-oids chunk wk w)
  ]

  module _ (limit : Deadline env) (Scope : Text → Type 0) where
    open limit use {remaining, get_keeps, now_keeps}

    scalars-keeps :
        (chunk : List Text) (wk : Walker) (w : World)
        → remaining (scalars env chunk wk w).2 ≤ remaining w
    unfolding scalars send
    scalars-keeps chunk wk w = elim (Option-cases (get_request chunk (now w).1).0.error) [
      | inl e ↦ rw (e, scalars) (omega (arith, get_keeps chunk (now w).1, now_keeps w))
      | inr (x, e) ↦ rw (e, scalars) (omega (arith, get_keeps chunk (now w).1, now_keeps w))
    ]

    abbrev pub RunDone : World → RunEnd × World → Type 0
    RunDone w (end, w') = All Scope (collected end) × (remaining w' ≤ remaining w)

    abbrev PhaseDone : World → Phase × Walker × World → Type 0
    PhaseDone w (through failures, wk, w') = All Scope wk.res.oids × (remaining w' ≤ remaining w)
    PhaseDone w (returned end, wk, w') = RunDone w (end, w')

    table_failure-RunDone :
        (e : Error) (failures : List Cause) (wk : Walker) (start : ℕ) (w0 w : World)
        → All Scope wk.res.oids
        → remaining w ≤ remaining w0
        → RunDone w0 (table_failure env e failures wk start w)
    unfolding table_failure
    table_failure-RunDone e failures wk start w0 w h le = elim (Bool-cases (is_own_limit e)) [
      | inl k ↦ rw k (h, omega (arith, now_keeps w))
      | inr k ↦ rw k (h, le)
    ]

    run_tables-Ends :
        (fuel : ℕ) (cs : List (List Text)) (reps : ℕ) (failures : List Cause) (start : ℕ)
        (wk : Walker) (w0 w : World)
        → remaining w < fuel
        → remaining w ≤ remaining w0
        → All (All (IsPlanned env limit Scope)) cs
        → All Scope wk.res.oids
        → Ends (PhaseDone w0) (run_tables env fuel cs reps failures start wk w)
    unfolding run_tables
    run_tables-Ends fuel [] reps failures start wk w0 w lt le _ h = (h, le)
    run_tables-Ends fuel (c ∷ cs) reps failures start wk w0 w lt le (p, ps) h =
        by_table (table env fuel c reps wk w) (table-Ends env limit Scope fuel c reps wk w lt p h)
          (λ fs wk' w' lt' le' h'. run_tables-Ends fuel cs reps fs start wk' w0 w' lt' le' ps h')
      where
        by_table :
            (m : Exec (TableEnd × Walker × World))
            → Ends (TableDone env limit Scope w) m
            → ((fs : List Cause) (wk' : Walker) (w' : World)
                → remaining w' < fuel
                → remaining w' ≤ remaining w0
                → All Scope wk'.res.oids
                → Ends (PhaseDone w0) (run_tables env fuel cs reps fs start wk' w'))
            → Ends (PhaseDone w0) (elim m [
              | out_of_fuel ↦ out_of_fuel
              | panicked ↦ panicked
              | done (complete, wk', w') ↦ run_tables env fuel cs reps failures start wk' w'
              | done (walk_error oids, wk', w') ↦
                  run_tables env fuel cs reps (failures ++ empty_response oids ∷ []) start wk' w'
              | done (failed_with e, wk', w') ↦
                  (let (end, w'') = table_failure env e failures wk' start w' in
                    done (returned end, wk', w''))
            ])
        by_table out_of_fuel k loop = absurd k
        by_table panicked k loop = absurd k
        by_table (done (complete, wk', w')) (k, l) loop =
            loop _ wk' w' (omega arith) (omega arith) k
        by_table (done (walk_error oids, wk', w')) (k, l) loop =
            loop _ wk' w' (omega arith) (omega arith) k
        by_table (done (failed_with e, wk', w')) (k, l) loop =
            table_failure-RunDone e failures wk' start w0 w' k (omega arith)

    run_scalars-PhaseDone :
        (cs : List (List Text)) (failures : List Cause) (wk : Walker) (w0 w : World)
        → remaining w ≤ remaining w0
        → All Scope wk.res.oids
        → PhaseDone w0 (run_scalars env cs failures wk w)
    unfolding run_scalars
    run_scalars-PhaseDone [] failures wk w0 w le h = (h, le)
    run_scalars-PhaseDone (c ∷ cs) failures wk w0 w le h =
        let (e, wk', w') = scalars env c wk w in
        let same : All Scope wk'.res.oids = rw (scalars-oids c wk w) h in
        let less : remaining w' ≤ remaining w0 = omega (arith, scalars-keeps c wk w) in
        by_error e wk' w' less same (run_scalars-PhaseDone cs failures wk' w0 w' less same)
      where
        by_error :
            (o : Option Error) (wk' : Walker) (w' : World)
            → remaining w' ≤ remaining w0
            → All Scope wk'.res.oids
            → PhaseDone w0 (run_scalars env cs failures wk' w')
            → PhaseDone w0 (elim o [
              | none ↦ run_scalars env cs failures wk' w'
              | some e' ↦
                  if is_own_limit e'
                  then (through (failures ++ request_failed e' ∷ []), wk', w')
                  else (returned (aborted wk'.res e'), wk', w')
            ])
        by_error none wk' w' less same rest = rest
        by_error (some e') wk' w' less same rest = elim (Bool-cases (is_own_limit e')) [
          | inl k ↦ rw k (same, less)
          | inr k ↦ rw k (same, less)
        ]

    after_scalars-RunDone :
        (start : ℕ) (w0 : World) (a : Phase × Walker × World)
        → PhaseDone w0 a
        → RunDone w0 (after_scalars env start a)
    unfolding after_scalars conclude
    after_scalars-RunDone start w0 (returned end, wk, w) h = h
    after_scalars-RunDone start w0 (through failures, wk, w) (h, le) =
        (h, omega (arith, now_keeps w))

    after_tables-RunDone :
        (workload : Workload) (size start : ℕ) (w0 : World) (a : Phase × Walker × World)
        → PhaseDone w0 a
        → RunDone w0 (after_tables env workload size start a)
    unfolding after_tables
    after_tables-RunDone workload size start w0 (returned end, wk, w) h = h
    after_tables-RunDone workload size start w0 (through failures, wk, w) (h, le) =
        after_scalars-RunDone start w0
          (run_scalars env (chunks size workload.scalars) failures wk w)
          (run_scalars-PhaseDone (chunks size workload.scalars) failures wk w0 w le h)

    pub run-Ends :
        (fuel : ℕ) (workload : Workload) (s : Settings) (w : World)
        → remaining w < fuel
        → All (λ t. All (IsPlanned env limit Scope) t.columns) workload.tables
        → Ends (RunDone w) (run env fuel workload s w)
    unfolding run
    run-Ends fuel workload s w lt planned =
        elim (Bool-cases (s.max_repetitions == 0 || s.max_vars_per_pdu == 0)) [
          | inl e ↦ rw e (tt, omega arith)
          | inr e ↦ rw e (
              >>=-Ends (PhaseDone w) (RunDone w) _
                (λ after. done (after_tables env workload s.max_vars_per_pdu (now w).0 after))
                (run_tables-Ends fuel (table_chunks s.max_vars_per_pdu workload.tables)
                  s.max_repetitions [] (now w).0 _ w (now w).1 (omega (arith, now_keeps w))
                  (now_keeps w)
                  (table_chunks-All (IsPlanned env limit Scope) s.max_vars_per_pdu workload.tables
                    planned)
                  tt)
                (after_tables-RunDone workload s.max_vars_per_pdu (now w).0 w))
        ]
