-- ===== src/Workload/Columns.antt =====
-- The columns of a workload and the base of their table.
use snmptune.Prelude.{
  ℕ, ◌≤◌, ◌≡◌, ◌≢◌, ◌∙◌, refl, sym, ap, List, [], ◌∷◌, ◌++◌, map, arith, append_assoc, All-append,
}
use snmptune.Text.{Text, codes, dot, join, format_uint, last_index, max_u32}
use snmptune.Text.Decimal.{format_uint-NoDot, format_uint-ne-nil}
use snmptune.Text.LastIndex.{Without, last_index-append, take-length, drop-length}
use snmptune.Oid.{Arcs, parse, format}
use snmptune.Oid.RoundTrip.{Fits, parse-format}
use snmptune.Workload.Inventory.{column_text}
use snmptune.Workload.Group.{parent_oid, split_group_arg}

-- One more arc is written behind a dot.
format-snoc : (a : Arcs) (x : ℕ) → a ≢ [] → format (a ++ x ∷ []) ≡ format a ++ dot ∷ format_uint x
unfolding format join
format-snoc [] x h = absurd (h refl)
format-snoc (y ∷ []) x h = refl
format-snoc (y ∷ z ∷ a) x h =
    ap (λ t. format_uint y ++ dot ∷ t) (format-snoc (z ∷ a) x (λ e. cc))
    ∙ sym (append_assoc (format_uint y) (dot ∷ format (z ∷ a)) (dot ∷ format_uint x))

cut_last : (s rest : Text) → s ≢ [] → Without dot rest → parent_oid (s ++ dot ∷ rest) ≡ s
unfolding parent_oid
cut_last [] rest h k = absurd (h refl)
cut_last (c ∷ s) rest h k =
    rw (last_index-append dot (c ∷ s) rest k) (take-length (c ∷ s) (dot ∷ rest))

append-ne-nil : (s t : Text) → s ≢ [] → s ++ t ≢ []
append-ne-nil [] t h = absurd (h refl)
append-ne-nil (c ∷ s) t h = λ e. cc e

join_cons-ne-nil : (p : Text) (ps : List Text) → p ≢ [] → join (p ∷ ps) ≢ []
unfolding join
join_cons-ne-nil p [] h = h
join_cons-ne-nil p (q ∷ ps) h = append-ne-nil p (dot ∷ join (q ∷ ps)) h

format-ne-nil : (a : Arcs) → a ≢ [] → format a ≢ []
unfolding format
format-ne-nil [] h = absurd (h refl)
format-ne-nil (x ∷ a) h =
    join_cons-ne-nil (format_uint x) (map format_uint a) (format_uint-ne-nil x)

-- `parentOID` of an OID with at least two arcs, as `Format` writes it, is the OID without its last
-- arc.
pub parent_oid-format : (a : Arcs) (x : ℕ) → a ≢ [] → parent_oid (format (a ++ x ∷ [])) ≡ format a
parent_oid-format a x h =
    rw (format-snoc a x h)
      (cut_last (format a) (format_uint x) (format-ne-nil a h) (format_uint-NoDot x))

snoc_some : (a : Arcs) (x : ℕ) → a ++ x ∷ [] ≢ []
snoc_some [] x e = cc
snoc_some (y ∷ a) x e = cc

one_text : format_uint 1 ≡ b'1' ∷ []
unfolding format_uint snmptune.Text.digits
one_text = refl

-- A column of `FromInventory` is the OID root.1.c.
column_text-format :
    (a : Arcs) (c : ℕ) → a ≢ [] → column_text (format a) c ≡ format ((a ++ 1 ∷ []) ++ c ∷ [])
unfolding column_text
column_text-format a c h =
    append_assoc (format a) (codes ".1.") (format_uint c)
    ∙ sym (append_assoc (format a) (codes ".1") (dot ∷ format_uint c))
    ∙ ap (λ t. (format a ++ dot ∷ t) ++ dot ∷ format_uint c) (sym one_text)
    ∙ ap (λ t. t ++ dot ∷ format_uint c) (sym (format-snoc a 1 h))
    ∙ sym (format-snoc (a ++ 1 ∷ []) c (snoc_some a 1))

-- For a root with at least one arc, all of them uint32, the column that `FromInventory` writes for a
-- column arc `c` parses to root.1.c, and `FromDatacollection` gives a column of that name the root as
-- the base of its table.
pub column_text_lem :
    (a : Arcs) (c : ℕ)
    → a ≢ []
    → Fits a
    → c ≤ max_u32
    → (parse (column_text (format a) c) ≡ (a ++ 1 ∷ []) ++ c ∷ [])
      × (parent_oid (parent_oid (column_text (format a) c)) ≡ format a)
column_text_lem a c h fits small = rw (column_text-format a c h) (
  parse-format ((a ++ 1 ∷ []) ++ c ∷ []) (snoc_some (a ++ 1 ∷ []) c)
      (All-append _ (a ++ 1 ∷ []) _ (All-append _ a _ fits (omega arith, tt)) (small, tt)),
  rw (parent_oid-format (a ++ 1 ∷ []) c (snoc_some a 1)) (parent_oid-format a 1 h),
)

-- `SplitGroupArg` gives back a file name that is not empty and a group without a colon which a colon
-- joined.
pub split_group_arg_lem :
    (file group : Text)
    → file ≢ []
    → Without b':' group
    → split_group_arg (file ++ b':' ∷ group) ≡ (file, group)
unfolding split_group_arg
split_group_arg_lem [] group h k = absurd (h refl)
split_group_arg_lem (c ∷ s) group h k =
    rw
      (
        last_index-append b':' (c ∷ s) group k,
        take-length (c ∷ s) (b':' ∷ group),
        drop-length (c ∷ s) group b':',
      )
      refl
