-- ===== src/Command/Prepare.antt =====
-- What `run` of cmd/snmptune/main.go makes of its options and of the reference walk, before the trials.
use snmptune.Prelude.{◌+◌, Bool, true, false, ◌&&◌, ◌||◌, List, [], ◌∷◌, ◌++◌, map, if◌then◌else◌}
use snmptune.Text.{Text, text_eq}
use snmptune.Oid
use snmptune.Slices.{contains}
use snmptune.Inventory.{Subtree, Inventory}
use snmptune.Workload.{Table, Workload, roots}
use snmptune.Workload.Inventory.{from_inventory}
use snmptune.Workload.Group.{
  Node, Read, Loaded, loaded, empty_workload, split_group_arg, from_datacollection,
}
use snmptune.Text.{is_named}
use snmptune.Command.Options.{Options, is_empty}

-- A line on stderr that warns.
pub data Warning : Type 0 where
  whole_tree : Warning
  misordered dropped : Text → Warning

module _ {F : Type 0} where
  unfoldable pub with_canonical : Options F → Options F
  with_canonical o = record o {
    oids = map Oid.canonical o.oids;
    reference_tree = Oid.canonical o.reference_tree;
  }

  -- `SplitGroupArg` and `FromDatacollection`, if there is a group.
  unfoldable pub load_group : (Text → Read Text) → (Text → Read Node) → Options F → Loaded
  load_group read_file unmarshal o =
      if is_named o.group
      then (let (file, name) = split_group_arg o.group in
          from_datacollection read_file unmarshal file name)
      else loaded empty_workload

  unfoldable pub roots_of : Options F → Workload → List Text
  roots_of o w = o.oids ++ roots w

  -- The workload that the plan shows.
  unfoldable pub planned_workload : Options F → Workload → Workload
  planned_workload o w = record w {
    tables = w.tables ++ map (λ r. record { base = r; columns = r ∷ [] }) o.oids;
  }

-- `complete`, the keys of `partial`, and the warnings of the loop over the reference's subtrees.
pub record Sorted : Type 0 where
  pub complete : List Subtree
  pub partial : List Text
  pub warnings : List Warning

unfoldable pub sort_subtree : Sorted → Subtree → Sorted
sort_subtree acc st =
    let warned = acc.warnings ++ map misordered st.skipped in
    if st.partial
    then record acc {
      partial = acc.partial ++ st.root ∷ [];
      warnings = warned ++ dropped st.root ∷ [];
    }
    else record acc { complete = acc.complete ++ st ∷ []; warnings = warned }

unfoldable pub sort_subtrees : Sorted → List Subtree → Sorted
sort_subtrees acc [] = acc
sort_subtrees acc (st ∷ sts) = sort_subtrees (sort_subtree acc st) sts

unfoldable pub sort_out : Inventory → Sorted
sort_out ref = sort_subtrees (record { complete = []; partial = []; warnings = [] }) ref.subtrees

-- The reference of the trials.
unfoldable pub complete_inventory : Inventory → Inventory
complete_inventory ref = record {
  subtrees = (sort_out ref).complete;
  partial = false;
  pdus = ref.pdus;
  duration = ref.duration;
}

-- The loop that fills `fromOIDs`.
unfoldable pub named_subtrees : List Text → List Subtree → List Subtree
named_subtrees oids [] = []
named_subtrees oids (st ∷ sts) =
    let rest = named_subtrees oids sts in if contains text_eq oids st.root then st ∷ rest else rest

-- The `slices.DeleteFunc`.
unfoldable pub drop_partial : List Text → List Table → List Table
drop_partial partial [] = []
drop_partial partial (t ∷ ts) =
    let rest = drop_partial partial ts in if contains text_eq partial t.base then rest else t ∷ rest

-- The tables of `--oid` subtrees stand before those of the group.
unfoldable pub trial_tables : List Text → Inventory → List Table → List Table
trial_tables oids ref tables =
    let s = sort_out ref in
    let from : Inventory = record {
      subtrees = named_subtrees oids s.complete;
      partial = false;
      pdus = 0;
      duration = 0;
    } in
    drop_partial s.partial
      (if is_empty oids then tables else (from_inventory from).tables ++ tables)

unfoldable pub trial_workload : List Text → Inventory → Workload → Workload
trial_workload oids ref w = record w { tables = trial_tables oids ref w.tables }

unfoldable pub nothing_to_try : Workload → Bool
nothing_to_try w = no_tables w.tables && is_empty w.scalars
  where
    no_tables : List Table → Bool
    no_tables [] = true
    no_tables (t ∷ ts) = false

-- `shown`, behind the walk of the reference tree.
unfoldable pub show_wide : Inventory → Inventory → Inventory
show_wide ref wide = record {
  subtrees = ref.subtrees ++ wide.subtrees;
  pdus = ref.pdus + wide.pdus;
  duration = ref.duration + wide.duration;
  partial = ref.partial || wide.partial;
}
