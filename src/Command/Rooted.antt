-- ===== src/Command/Rooted.antt =====
-- The columns of a subtree that the program can walk.
use snmptune.Prelude.{ℕ, ◌≢◌, Bool-cases, inl, inr, List, [], ◌∷◌, ◌++◌, map, All}
use snmptune.Text.{Text, codes, format_uint}
use snmptune.Oid.{parse, canonical}
use snmptune.Oid.Rooted.{IsRooted, append-IsRooted, has_arcs-IsRooted}
use snmptune.Inventory.{Subtree, is_table}
use snmptune.Workload.Inventory.{column_text, table_of}

columns-arcs :
    (root : Text)
    → IsRooted root
    → (cs : List ℕ) → All (λ c. parse (canonical c) ≢ []) (map (column_text root) cs)
unfolding column_text
columns-arcs root h [] = tt
columns-arcs root h (c ∷ cs) = (
  has_arcs-IsRooted (column_text root c) (
      append-IsRooted (root ++ codes ".1.") (format_uint c) (append-IsRooted root (codes ".1.") h)),
  columns-arcs root h cs,
)

-- The columns of a table that `FromInventory` makes of such a subtree have arcs.
pub table_of-arcs :
    (st : Subtree) → IsRooted st.root → All (λ c. parse (canonical c) ≢ []) (table_of st).columns
unfolding table_of
table_of-arcs st h = elim (Bool-cases (is_table st)) [
  | inl e ↦ rw e (columns-arcs st.root h st.columns)
  | inr e ↦ rw e (has_arcs-IsRooted st.root h, tt)
]
