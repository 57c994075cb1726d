-- ===== src/Search/Plan.antt =====
-- `DefaultOptions` and `Plan` of internal/search/search.go. The plan is what its lines show.
use snmptune.Prelude.{
  ℕ, zero, suc, ◌*◌, ◌/◌, ◌%◌, List, [], ◌∷◌, map, max, length, leb, if◌then◌else◌,
}
use snmptune.Text.{Text, u32_mod}
use snmptune.Exec.{Exec, done, out_of_fuel, ◌>>=◌}
use snmptune.Float.{FloatOps}
use snmptune.Inventory.{reference_repetitions}
use snmptune.Safety.{Budget}
use snmptune.Walk.{Settings}
use snmptune.Workload.{Workload, widest_table, roots}
use snmptune.Search.{start, Options, split_candidates}
use snmptune.Search.Phases.{start_vars}

-- 2 s, and 0.10.
unfoldable pub default_options : (float : FloatOps) → Options (FloatOps.F float)
default_options float = record {
  repeats = 3;
  cooldown = 2_000_000_000;
  tolerance = FloatOps.of_nat float 1;
  plateau_gain = FloatOps.div float (FloatOps.of_nat float 1) (FloatOps.of_nat float 10);
}

-- The bases of the tables with the numbers of their columns come first.
pub record Plan (F : Type 0) : Type 0 where
  pub tables : List (Text × ℕ)
  pub scalars : List Text
  pub reference_repetitions : ℕ
  pub roots : List Text
  pub budget : Budget
  pub repeats : ℕ
  pub cooldown : ℕ
  pub tolerance : F
  pub ladder : List Settings
  pub split : List ℕ
  pub pdus : ℕ
  pub bytes : ℕ

-- The loop of the escalation ladder, over a uint32, with fuel for its steps.
unfoldable pub ladder : ℕ → ℕ → ℕ → ℕ → Exec (List Settings)
ladder zero bound v0 reps = out_of_fuel
ladder (suc steps) bound v0 reps =
    let s : Settings = record { max_repetitions = reps; max_vars_per_pdu = v0 } in
    let rest = ladder steps bound v0 (reps * 2 % u32_mod) in
    if leb (reps * v0) bound then (rest >>= λ l. done (s ∷ l)) else done []

module _ {F : Type 0} where
  unfoldable pub plan : ℕ → Workload → Budget → Options F → Exec (Plan F)
  plan steps w b o =
      let widest = widest_table w in
      let v0 = start_vars widest in
      ladder steps b.max_product v0 start.max_repetitions >>= λ l. done (record {
        tables = map (λ t. (t.base, length t.columns)) w.tables;
        scalars = w.scalars;
        reference_repetitions = reference_repetitions;
        roots = roots w;
        budget = b;
        repeats = o.repeats;
        cooldown = o.cooldown;
        tolerance = o.tolerance;
        ladder = l;
        split = split_candidates v0 widest;
        pdus = b.max_oids / max 1 (start.max_vars_per_pdu * start.max_repetitions);
        bytes = b.max_oids * 64;
      })
