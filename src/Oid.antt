-- ===== src/Oid.antt =====
-- internal/oid/oid.go: object identifiers as dotted text, compared by their arcs.
pub mod Order
pub mod Skip
pub mod Rooted
pub mod RoundTrip
pub mod Target
use snmptune.Prelude.{
  ℕ, zero, suc, ◌+◌, ◌%◌, ◌≡◌, refl, Bool, true, false, not, ◌&&◌, ◌||◌, Option, none, some, List,
  [], ◌∷◌, map, Ordering, length, take, ltb, ◌==◌, if◌then◌else◌,
}
use snmptune.Text.{Text, trim_dot, split, join, parse_uint, format_uint, u32_mod}

abbrev pub Arcs : Type 0
Arcs = List ℕ

-- `Parse`: no arcs for the empty text, else one for each part.
parse_parts : Text → Arcs
parse_parts [] = []
parse_parts (c ∷ s) = map parse_uint (split (c ∷ s))

unfoldable pub parse : Text → Arcs
unfolding parse_parts
parse s = parse_parts (trim_dot s)

-- `CompareArcs`: the answers -1, 0 and 1 are `lt`, `eq` and `gt`.
unfoldable pub compare_arcs : Arcs → Arcs → Ordering
compare_arcs [] [] = Ordering.eq
compare_arcs [] (b ∷ ys) = Ordering.lt
compare_arcs (a ∷ xs) [] = Ordering.gt
compare_arcs (a ∷ xs) (b ∷ ys) =
    let rest = compare_arcs xs ys in
    if a == b then rest else if ltb a b then Ordering.lt else Ordering.gt

unfoldable pub compare : Text → Text → Ordering
compare a b = compare_arcs (parse a) (parse b)

abbrev pub is_eq : Ordering → Bool
is_eq Ordering.eq = true
is_eq _ = false

abbrev pub is_gt : Ordering → Bool
is_gt Ordering.gt = true
is_gt _ = false

unfoldable pub has_prefix_arcs : Arcs → Arcs → Bool
has_prefix_arcs a p =
    if ltb (length a) (length p) then false else is_eq (compare_arcs (take (length p) a) p)

unfoldable pub has_prefix : Text → Text → Bool
has_prefix o prefix = has_prefix_arcs (parse o) (parse prefix)

-- The loop of `SkipTarget`: how many arcs the two share from the left.
unfoldable pub shared : Arcs → Arcs → ℕ
shared [] b = 0
shared (x ∷ a) [] = 0
shared (x ∷ a) (y ∷ b) = let n = shared a b in if x == y then suc n else 0

-- `arcs[n-1]++` on a `[]uint32` of `n` arcs; `none` is the panic on an index out of range.
unfoldable pub increment_last : Arcs → Option Arcs
increment_last [] = none
increment_last (x ∷ []) = some ((x + 1) % u32_mod ∷ [])
increment_last (x ∷ y ∷ a) = elim (increment_last (y ∷ a)) [ none ↦ none | some b ↦ some (x ∷ b) ]

-- `a[:n]` of a slice whose capacity is its length, and the increment. Without arcs it panics.
unfoldable pub skip_arcs : Arcs → Arcs → Option Arcs
skip_arcs a b = let n = shared a b in increment_last (take (if n == 0 then 1 else n) a)

-- `Format`.
unfoldable pub format : Arcs → Text
format arcs = join (map format_uint arcs)

-- `SkipTarget`; `none` is a panic.
unfoldable pub skip_target : Text → Text → Option Text
skip_target request answer = elim (skip_arcs (parse request) (parse answer)) [
  | none ↦ none
  | some arcs ↦ some (format arcs)
]

unfoldable pub canonical : Text → Text
canonical s = trim_dot s
