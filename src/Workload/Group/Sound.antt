-- ===== src/Workload/Group/Sound.antt =====
-- What `FromDatacollection` queries stems from the objects of the selected groups.
use snmptune.Prelude.{
  ◌≡◌, ◌≢◌, refl, subst, Bool, true, false, List, [], ◌∷◌, ◌++◌, ◌⊎◌, inl, inr, arith, Bool-cases,
  All, Any, if◌then◌else◌,
}
use snmptune.Text.{Text, text_eq, is_named}
use snmptune.Text.Equality.{Among, text_eq_iff}
use snmptune.Text.Signed.{is_int}
use snmptune.Workload.{Table, Workload}
use snmptune.Workload.Group.{
  Node, Nodes, nil, cons, name_of, children_of, instance_of, add_once, add_column, add_scalar,
  add_object, add_objects, is_skipped, read_groups,
}
use snmptune.Workload.Group.Tidy.{is_object, object_oid, scalar_of, add_once-Among, add_once-All}

-- A group is selected by its name, or by an empty name.
abbrev pub IsSelected : Text → Node → Type 0
IsSelected name g = (is_named name ≡ false) ⊎ (name_of g ≡ name)

pub is_skipped-IsSelected : (name : Text) (g : Node) → is_skipped name g ≡ false → IsSelected name g
unfolding is_skipped
is_skipped-IsSelected name g e = elim (Bool-cases (is_named name)) [
  | inr k ↦ inl k
  | inl k ↦ inr ((text_eq_iff (name_of g) name).0 (ground arith))
]

pub IsSelected-not_skipped :
    (name : Text) (g : Node) → IsSelected name g → is_skipped name g ≡ false
unfolding is_skipped
IsSelected-not_skipped name g (inl k) = ground arith
IsSelected-not_skipped name g (inr e) = let k = (text_eq_iff (name_of g) name).1 e in ground arith

abbrev pub AmongNodes : Node → Nodes → Type 0
AmongNodes n nil = ⊥
AmongNodes n (cons m ms) = (m ≡ n) ⊎ AmongNodes n ms

-- The text is the query of a mibObj that stands in a selected one of the groups, and whose instance is
-- a number or not.
pub record Stems (name : Text) (gs : List Node) (numbered : Bool) (query : Node → Text) (s : Text)
    : Type 0 where
  pub group : Node
  pub listed : Any (λ g. g ≡ group) gs
  pub selected : IsSelected name group
  pub object : Node
  pub inside : AmongNodes object (children_of group)
  pub kind : is_object object ≡ true
  pub instance : is_int (instance_of object) ≡ numbered
  pub text : s ≡ query object

-- Each scalar, and each column of a table, has its property; no table is without a column.
pub record Queries (S C : Text → Type 0) (w : Workload) : Type 0 where
  pub scalars : All S w.scalars
  pub tables : All (λ t. (t.columns ≢ []) × All C t.columns) w.tables

module _ (S C : Text → Type 0) where
  -- What the object is queried with has the property.
  record Gives (obj : Node) : Type 0 where
    scalar : is_object obj ≡ true → is_int (instance_of obj) ≡ true → S (scalar_of obj)
    column : is_object obj ≡ true → is_int (instance_of obj) ≡ false → C (object_oid obj)

  add_once-ne-nil : (s : Text) (ss : List Text) → add_once s ss ≢ []
  add_once-ne-nil s ss e = subst (Among s) e (add_once-Among s ss)

  add_column-All :
      (base o : Text) (ts : List Table)
      → C o
      → All (λ t. (t.columns ≢ []) × All C t.columns) ts
      → All (λ t. (t.columns ≢ []) × All C t.columns) (add_column base o ts)
  unfolding add_column
  add_column-All base o [] p h = ((add_once-ne-nil o [], add_once-All C o [] p tt), tt)
  add_column-All base o (t ∷ ts) p ((n, q), h) = elim (Bool-cases (text_eq t.base base)) [
    | inl k ↦ rw k ((add_once-ne-nil o t.columns, add_once-All C o t.columns p q), h)
    | inr k ↦ rw k ((n, q), add_column-All base o ts p h)
  ]

  add_object-Queries :
      (obj : Node) (w : Workload) → Gives obj → Queries S C w → Queries S C (add_object obj w)
  unfolding add_object add_scalar
  add_object-Queries obj w g h = elim (Bool-cases (is_object obj)) [
    | inr e ↦ rw e h
    | inl e ↦ rw e (elim (Bool-cases (is_int (instance_of obj))) [
      | inl k ↦ rw k (record {
        scalars = add_once-All S (scalar_of obj) w.scalars (g.scalar e k) h.scalars;
        tables = h.tables;
      })
      | inr k ↦ rw k (record {
        scalars = h.scalars;
        tables = add_column-All _ (object_oid obj) w.tables (g.column e k) h.tables;
      })
    ])
  ]

  add_objects-Queries :
      (ns : Nodes) (w : Workload)
      → ((n : Node) → AmongNodes n ns → Gives n)
      → Queries S C w
      → Queries S C (add_objects ns w)
  unfolding add_objects
  add_objects-Queries nil w f h = h
  add_objects-Queries (cons n ns) w f h =
      add_objects-Queries ns (add_object n w) (λ m a. f m (inr a))
        (add_object-Queries n w (f n (inl refl)) h)

  step-Queries :
      (name : Text) (g : Node) (w : Workload)
      → (is_skipped name g ≡ false → (n : Node) → AmongNodes n (children_of g) → Gives n)
      → Queries S C w
      → Queries S C (if is_skipped name g then w else add_objects (children_of g) w)
  step-Queries name g w f h = elim (Bool-cases (is_skipped name g)) [
    | inl e ↦ rw e h
    | inr e ↦ rw e (add_objects-Queries (children_of g) w (f e) h)
  ]

  read_groups-Queries :
      (name : Text) (names : List Text) (w : Workload) (gs : List Node)
      → ((g : Node)
          → Any (λ h. h ≡ g) gs
          → is_skipped name g ≡ false
          → (n : Node) → AmongNodes n (children_of g)
          → Gives n)
      → Queries S C w
      → Queries S C (read_groups name names w gs).1
  unfolding read_groups
  read_groups-Queries name names w [] f h = h
  read_groups-Queries name names w (g ∷ gs) f h =
      read_groups-Queries name (names ++ name_of g ∷ [])
        (if is_skipped name g then w else add_objects (children_of g) w) gs (λ k a. f k (inr a))
        (step-Queries name g w (f g (inl refl)) h)

abbrev pub StemsFrom : Text → List Node → Workload → Type 0
StemsFrom name gs = Queries (Stems name gs true scalar_of) (Stems name gs false object_oid)

pub read_groups-StemsFrom :
    (name : Text) (names : List Text) (w : Workload) (gs : List Node)
    → StemsFrom name gs w
    → StemsFrom name gs (read_groups name names w gs).1
read_groups-StemsFrom name names w gs =
    read_groups-Queries _ _ name names w gs (λ g listed shown n inside. record {
      scalar = λ e i. record {
        group = g;
        listed = listed;
        selected = is_skipped-IsSelected name g shown;
        object = n;
        inside = inside;
        kind = e;
        instance = i;
        text = refl;
      };
      column = λ e i. record {
        group = g;
        listed = listed;
        selected = is_skipped-IsSelected name g shown;
        object = n;
        inside = inside;
        kind = e;
        instance = i;
        text = refl;
      };
    })
