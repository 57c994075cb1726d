-- ===== src/Walk/Table/Ends.antt =====
-- `table` ends by its deadline, without a panic, and collects only what lies under its columns.
use snmptune.Prelude.{
  ℕ, zero, suc, ◌-◌, ◌≤◌, ◌<◌, ◌≡◌, ◌≢◌, refl, inl, inr, Bool, true, false, Option, none, some,
  List, [], ◌∷◌, map, replicate, arith, Option-cases, All, length, ltb, if◌then◌else◌,
}
use snmptune.Text.{Text}
use snmptune.Oid
use snmptune.Oid.{parse, has_prefix}
use snmptune.Agent.{Environment, Response, Reply}
use snmptune.Agent.Deadline.{Deadline, time_left}
use snmptune.Walk
use snmptune.Exec.{Exec, done, panicked, Ends, Ends-mono, OnSome}
use snmptune.Walk.{Walker, Result, Pdu, getbulk, send, emit, bump}
use snmptune.Walk.Table.{
  Column, Scan, visit_all, row_count, keep_unfinished, TableEnd, failed_with, Round, stop, again,
  digest, round, table_loop, start_column, table,
}
use snmptune.Walk.Table.Scope.{IsColumn, InScope, visit_all-InScope, All-keep_unfinished}

module _ (Scope : Text → Type 0) where
  -- What a round leaves: the columns of the next one, and the OIDs so far.
  abbrev pub Columns : Round → Type 0
  Columns (stop _) = Unit
  Columns (again cs) = All (IsColumn Scope) cs

  abbrev Digested : Round × Walker → Type 0
  Digested (next, wk) = Columns next × All Scope wk.res.oids

  blank :
      (cs : List Column)
      → All (IsColumn Scope) cs
      → All (IsColumn Scope) (map (λ (c : Column). record c { jumped = false }) cs)
  blank [] h = tt
  blank (c ∷ cs) (p, h) = (record { arcs = p.arcs; covers = p.covers }, blank cs h)

  length-blank :
      (cs : List Column) → length (map (λ (c : Column). record c { jumped = false }) cs) ≡ length cs
  length-blank [] = refl
  length-blank (c ∷ cs) = omega (arith, length-blank cs)

  next-Columns :
      (b : Bool) (end : TableEnd) (s : Scan)
      → All (IsColumn Scope) s.active
      → Columns (if b then stop end else again (keep_unfinished s.active s.finished))
  next-Columns true end s h = tt
  next-Columns false end s h = All-keep_unfinished Scope s.active s.finished h

  digest-Digested :
      (cs : List Column) (reps : ℕ) (resp : Response) (p : Pdu) (wk : Walker)
      → 0 < length cs
      → All (IsColumn Scope) cs
      → All Scope wk.res.oids
      → OnSome Digested (digest cs reps resp p wk)
  unfolding digest emit
  digest-Digested cs reps resp p wk positive h inside =
      let s0 : Scan = record {
        active = map (λ (c : Column). record c { jumped = false }) cs;
        finished = replicate (length cs) false;
        any_finished = false;
        last_row_all_end = ltb 0 (length resp.varbinds);
        note = p.error;
        res = wk.res;
      } in
      let rows = row_count (length resp.varbinds) (length cs) in
      by_scan (visit_all (length cs) rows 0 resp.varbinds s0) refl (
        visit_all-InScope Scope (length cs) rows 0 resp.varbinds s0 positive
          (record { columns = blank cs h; wide = length-blank cs; inside = inside }))
    where
      by_scan :
          (o : Option Scan)
          → visit_all
              (length cs)
              (row_count (length resp.varbinds) (length cs))
              0
              resp.varbinds
              (record {
                active = map (λ (c : Column). record c { jumped = false }) cs;
                finished = replicate (length cs) false;
                any_finished = false;
                last_row_all_end = ltb 0 (length resp.varbinds);
                note = p.error;
                res = wk.res;
              })
            ≡ o
          → OnSome (InScope Scope (length cs)) o
          → OnSome Digested (digest cs reps resp p wk)
      by_scan none e k = absurd k
      by_scan (some s) e k = rw (e, digest) (next-Columns _ _ s k.columns, k.inside)

module _ (env : Environment) where
  open env use {World, ctx_err, get_bulk, now}

  send-oids :
      (wk : Walker) (os : List Text) (reps : ℕ) (w : World)
      → (send env wk getbulk os reps w).2.res.oids ≡ wk.res.oids
  unfolding send emit Walk.count_reply
  send-oids wk os reps w = elim (Option-cases (get_bulk os reps (now w).1).0.error) [
    | inl e ↦ rw e refl
    | inr (x, e) ↦ rw e refl
  ]

  module _ (limit : Deadline env) where
    open limit use {remaining, expires, bulk_spends, ctx_keeps, now_keeps}

    send-spends :
        (wk : Walker) (os : List Text) (reps : ℕ) (w : World)
        → remaining (send env wk getbulk os reps w).3 ≤ remaining w - 1
    unfolding send
    send-spends wk os reps w = omega (arith, bulk_spends os reps (now w).1, now_keeps w)

    -- A round that goes on has used some of the time.
    abbrev Left : World → Round → World → Type 0
    Left w (stop _) w' = remaining w' ≤ remaining w
    Left w (again _) w' = remaining w' < remaining w

    strictly : (w w' : World) (next : Round) → remaining w' < remaining w → Left w next w'
    strictly w w' (stop _) h = omega arith
    strictly w w' (again _) h = h

    module _ (Scope : Text → Type 0) where
      abbrev RoundEnd : World → Round × Walker × World → Type 0
      RoundEnd w (next, wk, w') = Columns Scope next × All Scope wk.res.oids × Left w next w'

      round-RoundEnd :
          (cs : List Column) (reps : ℕ) (wk : Walker) (w : World)
          → 0 < length cs
          → All (IsColumn Scope) cs
          → All Scope wk.res.oids
          → OnSome (RoundEnd w) (round env cs reps wk w)
      unfolding round
      round-RoundEnd cs reps wk w positive h inside = elim (Option-cases (ctx_err w).0) [
        | inr (e, c) ↦ rw (c, round) (tt, inside, ctx_keeps w)
        | inl c ↦ rw (c, round) (by_reply (time_left env limit w c))
      ]
        where
          sent : Reply × Pdu × Walker × World
          sent = send env wk getbulk (map (λ (c : Column). c.cursor) cs) reps (ctx_err w).1

          by_digest :
              (o : Option (Round × Walker)) (w2 : World)
              → remaining w2 < remaining w
              → OnSome (Digested Scope) o
              → OnSome
                  (RoundEnd w)
                  (elim o [ none ↦ none | some (next, wk2) ↦ some (next, wk2, w2) ])
          by_digest none w2 lt k = absurd k
          by_digest (some (next, wk2)) w2 lt (k, l) = (k, l, strictly w w2 next lt)

          by_reply :
              0 < remaining w
              → OnSome (RoundEnd w) (
                  let (r, p, wk1, w2) = sent in
                  elim r.error [
                    | some e ↦ some (stop (failed_with e), wk1, w2)
                    | none ↦ elim (digest cs reps r.response p wk1) [
                      | none ↦ none
                      | some (next, wk2) ↦ some (next, wk2, w2)
                    ]
                  ])
          by_reply left =
              let (r, p, wk1, w2) = sent in
              let same = send-oids wk (map (λ (c : Column). c.cursor) cs) reps (ctx_err w).1 in
              let spent = send-spends wk (map (λ (c : Column). c.cursor) cs) reps (ctx_err w).1 in
              elim (Option-cases r.error) [
                | inr (e, k) ↦ rw k (tt, rw same inside, omega (arith, spent, ctx_keeps w))
                | inl k ↦ rw k (
                    by_digest (digest cs reps r.response p wk1) w2
                      (omega (arith, spent, ctx_keeps w))
                      (digest-Digested Scope cs reps r.response p wk1 positive h (rw same inside)))
              ]

      abbrev pub TableDone : World → TableEnd × Walker × World → Type 0
      TableDone w (end, wk, w') = All Scope wk.res.oids × (remaining w' ≤ remaining w)

      TableDone-mono :
          (w w1 : World) (m : Exec (TableEnd × Walker × World))
          → remaining w1 ≤ remaining w
          → Ends (TableDone w1) m
          → Ends (TableDone w) m
      TableDone-mono w w1 m le h =
          Ends-mono (TableDone w1) (TableDone w) m h (λ a k. (k.0, omega (arith, k.1)))

      table_loop-Ends :
          (fuel : ℕ) (cs : List Column) (reps : ℕ) (wk : Walker) (w : World)
          → remaining w < fuel
          → All (IsColumn Scope) cs
          → All Scope wk.res.oids
          → Ends (TableDone w) (table_loop env fuel cs reps wk w)
      unfolding table_loop
      table_loop-Ends zero cs reps wk w lt h inside = absurd (omega arith)
      table_loop-Ends (suc fuel) [] reps wk w lt h inside = (inside, omega arith)
      table_loop-Ends (suc fuel) (c ∷ cs) reps wk w lt h inside =
          by_round (round env (c ∷ cs) reps wk w)
            (round-RoundEnd (c ∷ cs) reps wk w (omega arith) h inside)
            (λ next wk' w' less k l. table_loop-Ends fuel next reps wk' w' less k l)
        where
          by_round :
              (o : Option (Round × Walker × World))
              → OnSome (RoundEnd w) o
              → ((next : List Column) (wk' : Walker) (w' : World)
                  → remaining w' < fuel
                  → All (IsColumn Scope) next
                  → All Scope wk'.res.oids
                  → Ends (TableDone w') (table_loop env fuel next reps wk' w'))
              → Ends (TableDone w) (elim o [
                | none ↦ panicked
                | some (stop end, wk', w') ↦ done (end, wk', w')
                | some (again next, wk', w') ↦ table_loop env fuel next reps wk' w'
              ])
          by_round none k loop = absurd k
          by_round (some (stop end, wk', w')) (_, k, le) loop = (k, le)
          by_round (some (again next, wk', w')) (cols, k, less) loop =
              TableDone-mono w w' _ (omega arith) (loop next wk' w' (omega arith) cols k)

      -- The text has arcs, and what lies under it is in scope.
      abbrev pub IsPlanned : Text → Type 0
      IsPlanned c =
          (parse (Oid.canonical c) ≢ [])
          × ((o : Text) → has_prefix o (Oid.canonical c) ≡ true → Scope o)

      start_column-IsColumn :
          (chunk : List Text)
          → All IsPlanned chunk
          → All (IsColumn Scope) (map (start_column env) chunk)
      unfolding start_column
      start_column-IsColumn [] h = tt
      start_column-IsColumn (c ∷ chunk) ((arcs, covers), h) =
          (record { arcs = arcs; covers = covers }, start_column-IsColumn chunk h)

      pub table-Ends :
          (fuel : ℕ) (chunk : List Text) (reps : ℕ) (wk : Walker) (w : World)
          → remaining w < fuel
          → All IsPlanned chunk
          → All Scope wk.res.oids
          → Ends (TableDone w) (table env fuel chunk reps wk w)
      unfolding table
      table-Ends fuel chunk reps wk w lt h inside =
          table_loop-Ends fuel _ reps wk w lt (start_column-IsColumn chunk h) inside
