-- ===== src/Walk/Run/Scope.antt =====
-- `Run` of the walk collects only what lies under the columns of its workload.
use snmptune.Prelude.{ℕ, ◌≤◌, ◌<◌, ◌≡◌, ◌≢◌, inl, inr, true, List, [], ◌∷◌, All, All-mono, Any}
use snmptune.Text.{Text}
use snmptune.Oid
use snmptune.Oid.{parse, has_prefix}
use snmptune.Agent.{Environment}
use snmptune.Agent.Deadline.{Deadline}
use snmptune.Exec.{Ends, Ends-mono}
use snmptune.Workload
use snmptune.Workload.{Workload}
use snmptune.Walk.{Settings}
use snmptune.Walk.Table.Ends.{IsPlanned}
use snmptune.Walk.Run.{RunEnd, run}
use snmptune.Walk.Run.Ends.{collected, RunDone, run-Ends}

All-Any :
    {A : Type 0} (P : A → Text → Type 0) (xs : List A)
    → All (λ x. (o : Text) → P x o → Any (λ y. P y o) xs) xs
All-Any P [] = tt
All-Any P (x ∷ xs) = (λ o h. inl h, All-mono _ _ xs (λ y f o h. inr (f o h)) (All-Any P xs))

-- The OID lies at or under the column.
abbrev pub InColumn : Text → Text → Type 0
InColumn c o = has_prefix o (Oid.canonical c) ≡ true

-- It lies under some column of some table.
abbrev pub InTables : List Workload.Table → Text → Type 0
InTables ts o = Any (λ t. Any (λ c. InColumn c o) t.columns) ts

abbrev pub HaveArcs : List Workload.Table → Type 0
HaveArcs ts = All (λ t. All (λ c. parse (Oid.canonical c) ≢ []) t.columns) ts

All-both :
    {A : Type 0} (P Q R : A → Type 0) (xs : List A)
    → ((x : A) → P x → Q x → R x)
    → All P xs
    → All Q xs
    → All R xs
All-both P Q R [] f h k = tt
All-both P Q R (x ∷ xs) f (p, h) (q, k) = (f x p q, All-both P Q R xs f h k)

module _ (env : Environment) (limit : Deadline env) where
  open env use {World}
  open limit use {remaining}

  IsPlanned-InTables :
      (ts : List Workload.Table)
      → HaveArcs ts
      → All (λ t. All (IsPlanned env limit (InTables ts)) t.columns) ts
  IsPlanned-InTables ts arcs =
      All-both _ _ _ ts
        (λ t a f.
          All-both _ _ _ t.columns (λ c p g. (p, λ o h. f o (g o h))) a
            (All-Any InColumn t.columns))
        arcs (All-Any (λ t o. Any (λ c. InColumn c o) t.columns) ts)

  -- Under a deadline that leaves less time than the fuel, and for columns with at least one arc
  -- each, `Run` returns and does not panic, whatever the agent answers. Every OID of its result, also
  -- beside an error, lies at or under a column of the workload.
  pub run_lem :
      (fuel : ℕ) (workload : Workload) (s : Settings) (w : World)
      → remaining w < fuel
      → HaveArcs workload.tables
      → Ends
          (λ (end : RunEnd × World). All (InTables workload.tables) (collected end.0))
          (run env fuel workload s w)
  run_lem fuel workload s w lt arcs =
      Ends-mono (RunDone env limit (InTables workload.tables) w) _ _
        (run-Ends env limit (InTables workload.tables) fuel workload s w lt
          (IsPlanned-InTables workload.tables arcs))
        (λ a k. k.0)

  pub run-keeps :
      (fuel : ℕ) (workload : Workload) (s : Settings) (w : World)
      → remaining w < fuel
      → HaveArcs workload.tables
      → Ends (λ (end : RunEnd × World). remaining end.1 ≤ remaining w) (run env fuel workload s w)
  run-keeps fuel workload s w lt arcs =
      Ends-mono (RunDone env limit (InTables workload.tables) w) _ _
        (run-Ends env limit (InTables workload.tables) fuel workload s w lt
          (IsPlanned-InTables workload.tables arcs))
        (λ a k. k.1)
