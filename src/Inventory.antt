-- ===== src/Inventory.antt =====
-- internal/inventory/inventory.go: the reference walk.
pub mod Walk
pub mod Parent
use snmptune.Prelude.{
  ℕ, zero, suc, ◌+◌, ◌-◌, ◌%◌, Bool, true, false, ◌||◌, ◌&&◌, not, List, [], ◌∷◌, ◌++◌, length,
  get_or, ltb, ◌==◌, if◌then◌else◌, Option, none, some, take,
}
use snmptune.Text.{Text, u32_mod}
use snmptune.Oid
use snmptune.Oid.{Arcs}
use snmptune.Slices.{sort, contains}

abbrev pub reference_repetitions : ℕ
reference_repetitions = 10

pub record Subtree : Type 0 where
  pub root : Text
  pub oids : List Text
  pub bytes : ℕ
  pub columns : List ℕ
  pub skipped : List Text
  pub partial : Bool

pub record Inventory : Type 0 where
  pub subtrees : List Subtree
  pub partial : Bool
  pub pdus : ℕ
  pub duration : ℕ

-- `IsTable`.
unfoldable pub is_table : Subtree → Bool
is_table s = ltb 0 (length s.columns)

total_from : ℕ → List Subtree → ℕ
total_from n [] = n
total_from n (s ∷ ss) = total_from (n + length s.oids) ss

unfoldable pub total : Inventory → ℕ
unfolding total_from
total inv = total_from 0 inv.subtrees

-- The last arc one smaller, as a uint32.
unfoldable pub decrement_last : Arcs → Arcs
decrement_last [] = []
decrement_last (x ∷ []) = (x + u32_mod - 1) % u32_mod ∷ []
decrement_last (x ∷ y ∷ a) = x ∷ decrement_last (y ∷ a)

format_parent : Text → Arcs → Text
format_parent o [] = o
format_parent o (x ∷ a) = Oid.format (decrement_last (x ∷ a))

-- `parentOf`.
unfoldable pub parent_of : Text → Text
unfolding format_parent
parent_of o = format_parent o (Oid.parse o)

-- The loop of `inferColumns`; `none` is its early `return nil`.
infer_from : ℕ → List ℕ → List Text → Option (List ℕ)
infer_from depth cols [] = some cols
infer_from depth cols (o ∷ oids) =
    let arcs = Oid.parse o in
    let c = get_or arcs (depth + 1) 0 in
    let rest = infer_from depth (if contains ◌==◌ cols c then cols else cols ++ c ∷ []) oids in
    if ltb (length arcs) (depth + 3) || not (get_or arcs depth 0 == 1) then none else rest

sorted_or_nil : Option (List ℕ) → List ℕ
sorted_or_nil none = []
sorted_or_nil (some cols) = sort ltb cols

-- `inferColumns`; nil and the empty slice are one list.
unfoldable pub infer_columns : Text → List Text → List ℕ
unfolding infer_from sorted_or_nil
infer_columns root [] = []
infer_columns root (o ∷ oids) = sorted_or_nil (infer_from (length (Oid.parse root)) [] (o ∷ oids))
