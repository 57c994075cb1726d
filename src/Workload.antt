-- ===== src/Workload.antt =====
-- internal/workload/workload.go: the tables and scalars that one trial queries.
pub mod Inventory
pub mod Group
pub mod Columns
use snmptune.Prelude.{ℕ, List, [], ◌∷◌, map, max, length}
use snmptune.Text.{Text}

pub record Table : Type 0 where
  pub base : Text
  pub columns : List Text

pub record Workload : Type 0 where
  pub tables : List Table
  pub scalars : List Text

-- The loop of `WidestTable`.
widest_from : ℕ → List Table → ℕ
widest_from n [] = n
widest_from n (t ∷ ts) = widest_from (max n (length t.columns)) ts

unfoldable pub widest_table : Workload → ℕ
unfolding widest_from
widest_table w = widest_from 0 w.tables

-- `Roots`.
unfoldable pub roots : Workload → List Text
roots w = map (λ t. t.base) w.tables
