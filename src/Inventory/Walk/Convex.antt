-- ===== src/Inventory/Walk/Convex.antt =====
-- The OIDs under a root stand together in a sorted list.
use snmptune.Prelude.{
  ℕ, ◌≡◌, refl, subst, true, false, List, [], ◌∷◌, ◌++◌, arith, All, inl, inr, Bool-cases,
  if◌then◌else◌,
}
use snmptune.Text.{Text}
use snmptune.Oid.{Arcs, parse, compare_arcs, has_prefix}
use snmptune.Oid.Order.{Lt, Before, StartsWith, has_prefix_arcs_iff}
use snmptune.Agent.Served.{IsSorted}

StartsWith-cons : (y : ℕ) (o r : Arcs) → StartsWith o r → StartsWith (y ∷ o) (y ∷ r)
StartsWith-cons y o r (rest, e) = (rest, rw e refl)

between_head :
    (y z : ℕ) (r o rest : Arcs)
    → Lt (y ∷ r) (z ∷ o)
    → Lt (z ∷ o) ((y ∷ r) ++ rest)
    → (z ≡ y) × Lt r o × Lt o (r ++ rest)
unfolding compare_arcs
between_head y z r o rest h k = ground arith

nothing_before_nil : (a : Arcs) → ¬ Lt a []
unfolding compare_arcs
nothing_before_nil [] h = cc
nothing_before_nil (x ∷ a) h = cc

-- What sorts between a root and an OID under it is under it.
between : (r o rest : Arcs) → Lt r o → Lt o (r ++ rest) → StartsWith o r
between [] o rest h k = (o, refl)
between (y ∷ r) [] rest h k = absurd (nothing_before_nil (y ∷ r) h)
between (y ∷ r) (z ∷ o) rest h k =
    let (e, h', k') = between_head y z r o rest h k in
    rw e (StartsWith-cons y o r (between r o rest h' k'))

between-has_prefix :
    (root o p : Text)
    → Before root o
    → Before o p
    → has_prefix p root ≡ true
    → has_prefix o root ≡ true
unfolding has_prefix
between-has_prefix root o p h k e =
    let (rest, q) = (has_prefix_arcs_iff (parse p) (parse root)).0 e in
    (has_prefix_arcs_iff (parse o) (parse root)).1
      (between (parse root) (parse o) rest h (subst (Lt (parse o)) q k))

-- The OIDs under the root, and those before the first that is not.
unfoldable pub under : Text → List Text → List Text
under root [] = []
under root (o ∷ os) = let rest = under root os in if has_prefix o root then o ∷ rest else rest

unfoldable pub leading : Text → List Text → List Text
leading root [] = []
leading root (o ∷ os) = let rest = leading root os in if has_prefix o root then o ∷ rest else []

none_under :
    (root o : Text) (os : List Text)
    → Before root o
    → has_prefix o root ≡ false
    → All (Before o) os
    → under root os ≡ []
unfolding under
none_under root o [] h e k = refl
none_under root o (p ∷ os) h e (k, ks) = elim (Bool-cases (has_prefix p root)) [
  | inl q ↦ absurd (cc (between-has_prefix root o p h k q))
  | inr q ↦ rw (q, none_under root o os h e ks) refl
]

pub leading-under :
    (root : Text) (os : List Text)
    → All (Before root) os
    → IsSorted os
    → leading root os ≡ under root os
unfolding leading under
leading-under root [] h k = refl
leading-under root (o ∷ os) (h, hs) (k, ks) = elim (Bool-cases (has_prefix o root)) [
  | inl e ↦ rw (e, leading-under root os hs ks) refl
  | inr e ↦ rw (e, none_under root o os h e k) refl
]
