-- ===== src/Search/Reference.antt =====
-- `referenceOIDs`: the OIDs of the inventory that the workload walks.
use snmptune.Prelude.{Bool, false, ◌||◌, List, [], ◌∷◌, ◌++◌, if◌then◌else◌}
use snmptune.Text.{Text, text_eq}
use snmptune.Oid
use snmptune.Inventory.{Subtree, Inventory}
use snmptune.Workload
use snmptune.Workload.{Workload}

-- The map entry of a root: the columns of every table whose base has that name.
unfoldable pub columns_of : Text → List Workload.Table → List Text
columns_of root [] = []
columns_of root (t ∷ ts) =
    let rest = columns_of root ts in
    if text_eq (Oid.canonical t.base) root then t.columns ++ rest else rest

unfoldable pub in_some : Text → List Text → Bool
in_some o [] = false
in_some o (c ∷ cs) = Oid.has_prefix o c || in_some o cs

unfoldable pub keep_in : List Text → List Text → List Text
keep_in cols [] = []
keep_in cols (o ∷ oids) = let rest = keep_in cols oids in if in_some o cols then o ∷ rest else rest

reference_from : List Subtree → List Workload.Table → List Text
reference_from [] tables = []
reference_from (st ∷ sts) tables =
    keep_in (columns_of st.root tables) st.oids ++ reference_from sts tables

unfoldable pub reference_oids : Inventory → Workload → List Text
unfolding reference_from
reference_oids inv w = reference_from inv.subtrees w.tables
