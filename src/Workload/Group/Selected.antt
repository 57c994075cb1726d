-- ===== src/Workload/Group/Selected.antt =====
-- `FromDatacollection` takes the selected groups, all of their objects, and fails without one.
use snmptune.Prelude.{List, All, if◌then◌else◌}
use snmptune.Text.{Text}
use snmptune.Workload.{Workload}
use snmptune.Workload.Group.{Node, Nodes, nil, cons, children_of, add_objects, is_skipped}
use snmptune.Workload.Group.Sound.{IsSelected, StemsFrom}
use snmptune.Workload.Group.Tidy.{IsTidy, CoversIf}

abbrev pub AllNodes : (Node → Type 0) → Nodes → Type 0
AllNodes P nil = Unit
AllNodes P (cons n ns) = P n × AllNodes P ns

-- If the name selects the group, the workload queries all of its objects.
abbrev pub CoversGroup : Text → Workload → Node → Type 0
CoversGroup name w g = IsSelected name g → AllNodes (CoversIf w) (children_of g)

abbrev step : Text → Node → Workload → Workload
step name g w = if is_skipped name g then w else add_objects (children_of g) w

-- What `FromDatacollection` promises of the workload.
pub record IsSelection (name : Text) (gs : List Node) (w : Workload) : Type 0 where
  pub tidy : IsTidy w
  pub covers : All (CoversGroup name w) gs
  pub stems : StemsFrom name gs w
