-- ===== src/Oid/Order.antt =====
-- The order of `CompareArcs`, and `HasPrefix` as a statement about lists of arcs.
use snmptune.Prelude.{
  ℕ, suc, ◌≡◌, ◌≢◌, refl, subst, true, false, not, ◌↔◌, [], ◌∷◌, ◌++◌, arith, Ordering, length, ltb,
}
use snmptune.Text.{Text}
use snmptune.Oid.{Arcs, parse, compare, compare_arcs, has_prefix_arcs, is_gt}

-- `a` sorts before `b`.
abbrev pub Lt : Arcs → Arcs → Type 0
Lt a b = compare_arcs a b ≡ Ordering.lt

pub compare_arcs_self : (a : Arcs) → compare_arcs a a ≡ Ordering.eq
unfolding compare_arcs
compare_arcs_self [] = refl
compare_arcs_self (x ∷ a) = ground (arith, compare_arcs_self a)

pub eq_of_compare_arcs : (a b : Arcs) → compare_arcs a b ≡ Ordering.eq → a ≡ b
unfolding compare_arcs
eq_of_compare_arcs [] [] h = refl
eq_of_compare_arcs [] (y ∷ b) h = cc
eq_of_compare_arcs (x ∷ a) [] h = cc
eq_of_compare_arcs (x ∷ a) (y ∷ b) h = ground (arith, eq_of_compare_arcs a b)

pub Lt_trans : (a b c : Arcs) → Lt a b → Lt b c → Lt a c
unfolding compare_arcs
Lt_trans [] [] c h k = cc
Lt_trans [] (y ∷ b) [] h k = cc
Lt_trans [] (y ∷ b) (z ∷ c) h k = refl
Lt_trans (x ∷ a) [] c h k = cc
Lt_trans (x ∷ a) (y ∷ b) [] h k = cc
Lt_trans (x ∷ a) (y ∷ b) (z ∷ c) h k = ground (arith, Lt_trans a b c)

-- `a` comes after `b` exactly when `b` comes before `a`.
pub compare_arcs_gt : (a b : Arcs) → compare_arcs a b ≡ Ordering.gt → Lt b a
unfolding compare_arcs
compare_arcs_gt [] [] h = cc
compare_arcs_gt [] (y ∷ b) h = cc
compare_arcs_gt (x ∷ a) [] h = refl
compare_arcs_gt (x ∷ a) (y ∷ b) h = ground (arith, compare_arcs_gt a b)

pub compare_arcs_lt : (a b : Arcs) → Lt a b → compare_arcs b a ≡ Ordering.gt
unfolding compare_arcs
compare_arcs_lt [] [] h = cc
compare_arcs_lt [] (y ∷ b) h = refl
compare_arcs_lt (x ∷ a) [] h = cc
compare_arcs_lt (x ∷ a) (y ∷ b) h = ground (arith, compare_arcs_lt a b)

pub Lt_irrefl : (a : Arcs) → ¬ Lt a a
Lt_irrefl a h = cc (compare_arcs_self a)

-- `CompareArcs` is a strict total order: its 0 means equal arcs, its -1 and 1 mirror one another,
-- and its -1 is transitive.
pub compare_arcs_total_order :
    (a b c : Arcs)
    → ((compare_arcs a b ≡ Ordering.eq) ↔ (a ≡ b))
      × ((compare_arcs a b ≡ Ordering.gt) ↔ (compare_arcs b a ≡ Ordering.lt))
      × (compare_arcs a b ≡ Ordering.lt
          → compare_arcs b c ≡ Ordering.lt
          → compare_arcs a c ≡ Ordering.lt)
compare_arcs_total_order a b c = (
  (eq_of_compare_arcs a b, λ e. rw e (compare_arcs_self b)),
  (compare_arcs_gt a b, compare_arcs_lt b a),
  Lt_trans a b c,
)

-- The arcs begin with the prefix.
abbrev pub StartsWith : Arcs → Arcs → Type 0
StartsWith a p = (rest : Arcs) × (a ≡ p ++ rest)

cons_length :
    (x : ℕ) (a p : Arcs) → ltb (suc (length a)) (suc (length p)) ≡ ltb (length a) (length p)
cons_length x a p = ground arith

has_prefix_arcs-cons :
    (x y : ℕ) (a p : Arcs)
    → has_prefix_arcs (x ∷ a) (y ∷ p) ≡ true
    → (x ≡ y) × (has_prefix_arcs a p ≡ true)
unfolding has_prefix_arcs compare_arcs
has_prefix_arcs-cons x y a p h = ground arith

has_prefix_arcs-nil : (y : ℕ) (p : Arcs) → ¬ (has_prefix_arcs [] (y ∷ p) ≡ true)
unfolding has_prefix_arcs
has_prefix_arcs-nil y p h = ground arith

has_prefix_arcs_sound : (a p : Arcs) → has_prefix_arcs a p ≡ true → StartsWith a p
has_prefix_arcs_sound a [] h = (a, refl)
has_prefix_arcs_sound [] (y ∷ p) h = absurd (has_prefix_arcs-nil y p h)
has_prefix_arcs_sound (x ∷ a) (y ∷ p) h =
    let (e, k) = has_prefix_arcs-cons x y a p h in
    let (rest, q) = has_prefix_arcs_sound a p k in (rest, cc)

pub has_prefix_arcs-append : (p rest : Arcs) → has_prefix_arcs (p ++ rest) p ≡ true
unfolding has_prefix_arcs compare_arcs
has_prefix_arcs-append [] [] = refl
has_prefix_arcs-append [] (x ∷ rest) = ground arith
has_prefix_arcs-append (y ∷ p) rest = ground (arith, has_prefix_arcs-append p rest)

-- `HasPrefix` on arcs answers true exactly when the arcs are the prefix followed by some arcs.
pub has_prefix_arcs_iff : (a p : Arcs) → (has_prefix_arcs a p ≡ true) ↔ StartsWith a p
has_prefix_arcs_iff a p = (has_prefix_arcs_sound a p, λ s. rw s.1 (has_prefix_arcs-append p s.0))

-- The order on texts.
abbrev pub Before : Text → Text → Type 0
Before o p = Lt (parse o) (parse p)

not_before_nil : (a : Arcs) → ¬ Lt a []
unfolding compare_arcs
not_before_nil [] h = cc
not_before_nil (x ∷ a) h = cc

pub has_arcs_of_Before : (o p : Text) → Before o p → parse p ≢ []
has_arcs_of_Before o p lt e = not_before_nil (parse o) (subst (Lt (parse o)) e lt)

pub greater_of_test : (o cursor : Text) → not (is_gt (compare o cursor)) ≡ false → Before cursor o
unfolding compare
greater_of_test o cursor h = compare_arcs_gt (parse o) (parse cursor) (ground arith)
