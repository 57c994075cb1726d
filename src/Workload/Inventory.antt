-- ===== src/Workload/Inventory.antt =====
-- `FromInventory` and `IsWholeTree` of internal/workload/workload.go.
use snmptune.Prelude.{ℕ, Bool, false, ◌||◌, List, [], ◌∷◌, ◌++◌, map, if◌then◌else◌}
use snmptune.Text.{Text, codes, text_eq, format_uint}
use snmptune.Oid
use snmptune.Inventory
use snmptune.Inventory.{Subtree, is_table}
use snmptune.Workload.{Table, Workload}

-- `fmt.Sprintf("%s.1.%d", st.Root, c)`.
unfoldable pub column_text : Text → ℕ → Text
column_text root c = root ++ codes ".1." ++ format_uint c

unfoldable pub table_of : Subtree → Table
table_of st = record {
  base = st.root;
  columns = if is_table st then map (column_text st.root) st.columns else st.root ∷ [];
}

unfoldable pub from_inventory : Inventory.Inventory → Workload
from_inventory inv = record { tables = map table_of inv.subtrees; scalars = [] }

unfoldable pub is_whole_tree : List Text → Bool
is_whole_tree [] = false
is_whole_tree (r ∷ rs) = text_eq (Oid.canonical r) (codes "1.3.6.1") || is_whole_tree rs
