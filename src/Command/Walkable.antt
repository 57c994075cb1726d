-- ===== src/Command/Walkable.antt =====
-- Subtrees that the program can walk, and the groups whose subtrees it can.
use snmptune.Prelude.{◌≡◌, sym, subst, List, [], ◌∷◌, map, All}
use snmptune.Text.{Text}
use snmptune.Oid
use snmptune.Inventory.{Subtree}
use snmptune.Inventory.Walk.Result.{HasArcs}
use snmptune.Walk.Run.Scope.{HaveArcs}
use snmptune.Workload.{Workload, roots}
use snmptune.Oid.Rooted.{IsRooted, canonical-IsRooted, parse-IsRooted}

abbrev pub IsWalkable : Text → Type 0
IsWalkable r = IsRooted (Oid.canonical r)

-- What is asked of the group: its columns have arcs, and its bases can be walked.
abbrev pub GroupFine : Workload → Type 0
GroupFine group = HaveArcs group.tables × All IsWalkable (roots group)

pub walkable_map : (rs : List Text) → All IsWalkable rs → All IsRooted (map Oid.canonical rs)
walkable_map [] h = tt
walkable_map (r ∷ rs) (p, ps) = (p, walkable_map rs ps)

pub IsRooted-subtrees :
    (sts : List Subtree) (rs : List Text)
    → map (λ st. st.root) sts ≡ rs
    → All IsRooted rs
    → All (λ st. IsRooted st.root) sts
IsRooted-subtrees sts rs e h = of_map sts (subst (All IsRooted) (sym e) h)
  where
    of_map :
        (us : List Subtree)
        → All IsRooted (map (λ st. st.root) us)
        → All (λ st. IsRooted st.root) us
    of_map [] k = tt
    of_map (u ∷ us) (p, ps) = (p, of_map us ps)

pub canonical-IsWalkable : (r : Text) → IsRooted r → IsWalkable r
canonical-IsWalkable r h = rw (canonical-IsRooted r h) h

pub walkable-arcs : (r : Text) → IsWalkable r → HasArcs r
walkable-arcs r h = parse-IsRooted (Oid.canonical r) h
