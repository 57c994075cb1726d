-- ===== src/Examples/Workloads.antt =====
-- The theorems about workloads, at a small datacollection file.
use snmptune.Prelude.{◌≡◌, ◌++◌, [], ◌∷◌, arith}
use snmptune.Text.{Text, codes}
use snmptune.Oid.{parse, format}
use snmptune.Workload.{Workload}
use snmptune.Workload.Inventory.{column_text}
use snmptune.Workload.Group.{Node, node, nil, cons, split_group_arg, parent_oid}
use snmptune.Workload.Columns.{column_text_lem, split_group_arg_lem}

abbrev column : Text → Node
column o = node (codes "mibObj") [] o (codes "ifIndex") nil

abbrev scalar : Node
scalar = node (codes "mibObj") [] (codes ".1.3.6.1.2.1.1.3") (codes "0") nil

abbrev datacollection : Node
datacollection = node (codes "datacollection-group") [] [] [] (
    cons
      (node (codes "group") (codes "mib2") [] [] (
        cons (column (codes ".1.3.6.1.2.1.2.2.1.10"))
          (cons (column (codes ".1.3.6.1.2.1.2.2.1.10")) (cons scalar nil))))
      (cons
        (node (codes "group") (codes "other") [] []
          (cons (column (codes ".1.3.6.1.2.1.31.1.1.1.6")) nil))
        nil))

column_text_lem_example :
    (parse (column_text (format (1 ∷ 3 ∷ [])) 7) ≡ 1 ∷ 3 ∷ 1 ∷ 7 ∷ [])
    × (parent_oid (parent_oid (column_text (format (1 ∷ 3 ∷ [])) 7)) ≡ format (1 ∷ 3 ∷ []))
column_text_lem_example =
    column_text_lem (1 ∷ 3 ∷ []) 7 (λ e. cc) (omega arith, (omega arith, tt)) (omega arith)

split_group_arg_lem_example :
    split_group_arg (codes "mib2.xml" ++ b':' ∷ codes "mib2") ≡ (codes "mib2.xml", codes "mib2")
split_group_arg_lem_example =
    split_group_arg_lem (codes "mib2.xml") (codes "mib2") (λ e. cc)
      (omega arith, (omega arith, (omega arith, (omega arith, tt))))
