-- ===== src/Workload/Group.antt =====
-- `FromDatacollection` of internal/workload/workload.go: the workload of a datacollection group.
pub mod Sound
pub mod Tidy
pub mod Selected
use snmptune.Prelude.{
  ℕ, zero, suc, Bool, true, false, ◌&&◌, not, Option, none, some, List, [], ◌∷◌, ◌++◌, length, take,
  drop, if◌then◌else◌,
}
use snmptune.Text.{is_named, Text, codes, text_eq, dot, last_index}
use snmptune.Text.Signed.{is_int}
use snmptune.Oid
use snmptune.Slices.{contains}
use snmptune.Workload.{Table, Workload}

-- `SplitGroupArg`: file and group.
split_at : Text → Option ℕ → Text × Text
split_at arg (some (suc i)) = (take (suc i) arg, drop (suc (suc i)) arg)
split_at arg _ = (arg, [])

unfoldable pub split_group_arg : Text → Text × Text
unfolding split_at
split_group_arg arg = split_at arg (last_index b':' arg)

-- `parentOID`.
cut_at : Text → Option ℕ → Text
cut_at o (some (suc i)) = take (suc i) o
cut_at o _ = o

unfoldable pub parent_oid : Text → Text
unfolding cut_at
parent_oid o = cut_at o (last_index dot o)

-- `node`: the local name of the element, its attributes, empty where they are missing, and its
-- children.
mutual
  pub data Node : Type 0 where
    node : Text → Text → Text → Text → Nodes → Node

  pub data Nodes : Type 0 where
    nil : Nodes
    cons : Node → Nodes → Nodes

abbrev pub local_name : Node → Text
local_name (node l n o i cs) = l

abbrev pub name_of : Node → Text
name_of (node l n o i cs) = n

abbrev pub oid_of : Node → Text
oid_of (node l n o i cs) = o

abbrev pub instance_of : Node → Text
instance_of (node l n o i cs) = i

abbrev pub children_of : Node → Nodes
children_of (node l n o i cs) = cs

-- `collectGroups`: a group is not searched for groups inside it.
unfoldable mutual
  pub groups_in : Node → List Node
  groups_in (node l n o i cs) =
      let inner = groups_below cs in
      if text_eq l (codes "group") then node l n o i cs ∷ [] else inner

  pub groups_below : Nodes → List Node
  groups_below nil = []
  groups_below (cons n ns) = groups_in n ++ groups_below ns

unfoldable pub add_once : Text → List Text → List Text
add_once s ss = if contains text_eq ss s then ss else ss ++ s ∷ []

-- The map `tables` with the list `order` of its keys: the tables in the order of their first column.
unfoldable pub add_column : Text → Text → List Table → List Table
add_column base o [] = record { base = base; columns = add_once o [] } ∷ []
add_column base o (t ∷ ts) =
    let rest = add_column base o ts in
    if text_eq t.base base then record t { columns = add_once o t.columns } ∷ ts else t ∷ rest

unfoldable pub add_scalar : Text → Workload → Workload
add_scalar s w = record w { scalars = add_once s w.scalars }

-- The body of the inner loop.
unfoldable pub add_object : Node → Workload → Workload
add_object obj w =
    let o = Oid.canonical (oid_of obj) in
    if not (text_eq (local_name obj) (codes "mibObj"))
    then w
    else if is_int (instance_of obj)
    then add_scalar (o ++ codes "." ++ instance_of obj) w
    else record w { tables = add_column (parent_oid (parent_oid o)) o w.tables }

unfoldable pub add_objects : Nodes → Workload → Workload
add_objects nil w = w
add_objects (cons n ns) w = add_objects ns (add_object n w)

-- The loop over the groups: the names of all, and the workload of those that are selected.
unfoldable pub is_skipped : Text → Node → Bool
is_skipped name g = is_named name && not (text_eq (name_of g) name)

unfoldable pub read_groups : Text → List Text → Workload → List Node → List Text × Workload
read_groups name names w [] = (names, w)
read_groups name names w (g ∷ gs) =
    read_groups name (names ++ name_of g ∷ [])
      (if is_skipped name g then w else add_objects (children_of g) w) gs

-- What `FromDatacollection` returns: its error is one of reading or of parsing the file, or names
-- the groups that there are.
pub data Loaded : Type 0 where
  unreadable unparsable : Text → Loaded
  no_group : Text → List Text → Loaded
  loaded : Workload → Loaded

abbrev pub empty_workload : Workload
empty_workload = record { tables = []; scalars = [] }

-- Behind `xml.Unmarshal`.
unfoldable pub select_groups : Text → Node → Loaded
select_groups name root =
    let (names, w) = read_groups name [] empty_workload (groups_in root) in
    if is_named name && not (contains text_eq names name) then no_group name names else loaded w

-- `os.ReadFile` and `xml.Unmarshal` give their error, or what they read.
pub data Read (A : Type 0) : Type 0 where
  read_error : Text → Read A
  content : A → Read A

module _ (read_file : Text → Read Text) (unmarshal : Text → Read Node) where
  unfoldable pub from_datacollection : Text → Text → Loaded
  from_datacollection path name = elim (read_file path) [
    | read_error e ↦ unreadable e
    | content raw ↦ elim (unmarshal raw) [
      | read_error e ↦ unparsable e
      | content root ↦ select_groups name root
    ]
  ]
