-- ===== src/Workload/Group/Tidy.antt =====
-- What `FromDatacollection` makes of the objects: no doubles, and each column in its table.
use snmptune.Prelude.{
  ◌≡◌, ◌≢◌, refl, Bool, true, false, List, [], ◌∷◌, ◌++◌, map, Bool-cases, All, All-snoc, Any, inl,
  inr,
}
use snmptune.Text.{Text, codes, text_eq}
use snmptune.Text.Equality.{
  Among, Among-snoc, Among-last, IsDistinct, contains_iff, not_contains-IsDistinct, text_eq_iff,
  text_ne,
}
use snmptune.Text.Signed.{is_int}
use snmptune.Oid
use snmptune.Slices.{contains}
use snmptune.Workload.{Table, Workload}
use snmptune.Workload.Group.{
  Node, local_name, oid_of, instance_of, parent_oid, add_once, add_column, add_scalar, add_object,
}

add_once-IsDistinct : (s : Text) (ss : List Text) → IsDistinct ss → IsDistinct (add_once s ss)
unfolding add_once
add_once-IsDistinct s ss h = elim (Bool-cases (contains text_eq ss s)) [
  | inl e ↦ rw e h
  | inr e ↦ rw e (not_contains-IsDistinct ss s e h)
]

pub add_once-Among : (s : Text) (ss : List Text) → Among s (add_once s ss)
unfolding add_once
add_once-Among s ss = elim (Bool-cases (contains text_eq ss s)) [
  | inl e ↦ rw e ((contains_iff ss s).0 e)
  | inr e ↦ rw e (Among-last s ss)
]

add_once_keeps : (s u : Text) (ss : List Text) → Among u ss → Among u (add_once s ss)
unfolding add_once
add_once_keeps s u ss h = elim (Bool-cases (contains text_eq ss s)) [
  | inl e ↦ rw e h
  | inr e ↦ rw e (Among-snoc u s ss h)
]

pub add_once-All :
    (P : Text → Type 0) (s : Text) (ss : List Text) → P s → All P ss → All P (add_once s ss)
unfolding add_once
add_once-All P s ss p h = elim (Bool-cases (contains text_eq ss s)) [
  | inl e ↦ rw e h
  | inr e ↦ rw e (All-snoc P ss s h p)
]

-- The columns of a table are distinct, and the table is the one that each of them belongs to.
pub record IsGood (t : Table) : Type 0 where
  pub distinct : IsDistinct t.columns
  pub owned : All (λ o. parent_oid (parent_oid o) ≡ t.base) t.columns

abbrev pub bases : List Table → List Text
bases = map (λ t. t.base)

add_to-IsGood :
    (o : Text) (t : Table)
    → parent_oid (parent_oid o) ≡ t.base
    → IsGood t
    → IsGood (record t { columns = add_once o t.columns })
add_to-IsGood o t e h = record {
  distinct = add_once-IsDistinct o t.columns h.distinct;
  owned = add_once-All _ o t.columns e h.owned;
}

add_column-IsGood :
    (base o : Text) (ts : List Table)
    → parent_oid (parent_oid o) ≡ base
    → All IsGood ts
    → All IsGood (add_column base o ts)
unfolding add_column
add_column-IsGood base o [] e h =
    (record { distinct = add_once-IsDistinct o [] tt; owned = add_once-All _ o [] e tt }, tt)
add_column-IsGood base o (t ∷ ts) e (p, h) = elim (Bool-cases (text_eq t.base base)) [
  | inl k ↦ rw k (add_to-IsGood o t (let b = (text_eq_iff t.base base).0 k in cc) p, h)
  | inr k ↦ rw k (p, add_column-IsGood base o ts e h)
]

-- The bases stay as they are, or one that is new stands behind them.
add_column-bases :
    (P : Text → Type 0) (base o : Text) (ts : List Table)
    → P base
    → All P (bases ts)
    → All P (bases (add_column base o ts))
unfolding add_column
add_column-bases P base o [] p h = (p, tt)
add_column-bases P base o (t ∷ ts) p (q, h) = elim (Bool-cases (text_eq t.base base)) [
  | inl k ↦ rw k (q, h)
  | inr k ↦ rw k (q, add_column-bases P base o ts p h)
]

add_column-IsDistinct :
    (base o : Text) (ts : List Table)
    → IsDistinct (bases ts)
    → IsDistinct (bases (add_column base o ts))
unfolding add_column
add_column-IsDistinct base o [] h = (tt, tt)
add_column-IsDistinct base o (t ∷ ts) (h, hs) = elim (Bool-cases (text_eq t.base base)) [
  | inl k ↦ rw k (h, hs)
  | inr k ↦ rw k (
    add_column-bases (λ u. t.base ≢ u) base o ts (text_ne t.base base k) h,
    add_column-IsDistinct base o ts hs,
  )
]

-- The table with the base holds the column.
abbrev pub Holds : Text → Text → List Table → Type 0
Holds base o = Any (λ t. (t.base ≡ base) × Among o t.columns)

add_column-Holds : (base o : Text) (ts : List Table) → Holds base o (add_column base o ts)
unfolding add_column
add_column-Holds base o [] = inl (refl, add_once-Among o [])
add_column-Holds base o (t ∷ ts) = elim (Bool-cases (text_eq t.base base)) [
  | inl k ↦ rw k (inl ((text_eq_iff t.base base).0 k, add_once-Among o t.columns))
  | inr k ↦ rw k (inr (add_column-Holds base o ts))
]

add_column_keeps :
    (base o b u : Text) (ts : List Table) → Holds b u ts → Holds b u (add_column base o ts)
unfolding add_column
add_column_keeps base o b u [] h = absurd h
add_column_keeps base o b u (t ∷ ts) (inl (e, a)) = elim (Bool-cases (text_eq t.base base)) [
  | inl k ↦ rw k (inl (e, add_once_keeps o u t.columns a))
  | inr k ↦ rw k (inl (e, a))
]
add_column_keeps base o b u (t ∷ ts) (inr h) = elim (Bool-cases (text_eq t.base base)) [
  | inl k ↦ rw k (inr h)
  | inr k ↦ rw k (inr (add_column_keeps base o b u ts h))
]

pub record IsTidy (w : Workload) : Type 0 where
  pub scalars : IsDistinct w.scalars
  pub bases : IsDistinct (bases w.tables)
  pub tables : All IsGood w.tables

abbrev pub is_object : Node → Bool
is_object obj = text_eq (local_name obj) (codes "mibObj")

abbrev pub object_oid : Node → Text
object_oid obj = Oid.canonical (oid_of obj)

abbrev pub scalar_of : Node → Text
scalar_of obj = object_oid obj ++ codes "." ++ instance_of obj

-- The workload queries the object: as a scalar if its instance is a number, else as a column of the
-- table that it belongs to.
pub record Covers (w : Workload) (obj : Node) : Type 0 where
  pub as_scalar : is_int (instance_of obj) ≡ true → Among (scalar_of obj) w.scalars
  pub as_column :
      is_int (instance_of obj) ≡ false
      → Holds (parent_oid (parent_oid (object_oid obj))) (object_oid obj) w.tables

abbrev pub CoversIf : Workload → Node → Type 0
CoversIf w obj = is_object obj ≡ true → Covers w obj

pub add_object-IsTidy : (obj : Node) (w : Workload) → IsTidy w → IsTidy (add_object obj w)
unfolding add_object add_scalar
add_object-IsTidy obj w h = elim (Bool-cases (is_object obj)) [
  | inr e ↦ rw e h
  | inl e ↦ rw e (elim (Bool-cases (is_int (instance_of obj))) [
    | inl k ↦ rw k (record {
      scalars = add_once-IsDistinct (scalar_of obj) w.scalars h.scalars;
      bases = h.bases;
      tables = h.tables;
    })
    | inr k ↦ rw k (record {
      scalars = h.scalars;
      bases = add_column-IsDistinct _ (object_oid obj) w.tables h.bases;
      tables = add_column-IsGood _ (object_oid obj) w.tables refl h.tables;
    })
  ])
]

pub add_object-Covers : (obj : Node) (w : Workload) → CoversIf (add_object obj w) obj
unfolding add_object add_scalar
add_object-Covers obj w e = rw e (elim (Bool-cases (is_int (instance_of obj))) [
  | inl k ↦
      rw k
        (record { as_scalar = λ _. add_once-Among (scalar_of obj) w.scalars; as_column = λ h. cc })
  | inr k ↦ rw k (record {
    as_scalar = λ h. cc;
    as_column = λ _. add_column-Holds _ (object_oid obj) w.tables;
  })
])

pub add_object_keeps :
    (obj other : Node) (w : Workload) → CoversIf w other → CoversIf (add_object obj w) other
unfolding add_object add_scalar
add_object_keeps obj other w h o = elim (Bool-cases (is_object obj)) [
  | inr e ↦ rw e (h o)
  | inl e ↦ rw e (elim (Bool-cases (is_int (instance_of obj))) [
    | inl k ↦ rw k (record {
      as_scalar =
          λ i. add_once_keeps (scalar_of obj) (scalar_of other) w.scalars ((h o).as_scalar i);
      as_column = (h o).as_column;
    })
    | inr k ↦ rw k (record {
      as_scalar = (h o).as_scalar;
      as_column = λ i.
          add_column_keeps _ (object_oid obj) _ (object_oid other) w.tables ((h o).as_column i);
    })
  ])
]
