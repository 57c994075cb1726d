-- ===== src/Inventory/Walk/Ascending.antt =====
-- The OIDs that the reference walk collects lie under their root and ascend.
use snmptune.Prelude.{
  ℕ, ◌<◌, ◌≡◌, ◌≢◌, ◌⊎◌, inl, inr, refl, sym, subst, ◌∙◌, Bool, true, not, ◌||◌, Option, none, some,
  List, [], ◌∷◌, ◌++◌, arith, Bool-cases, All, All-mono, All-snoc,
}
use mathlib.Core.Option.{none-ne-some}
use snmptune.Text.{Text, max_u32}
use snmptune.Oid.{Arcs, parse, compare, has_prefix, skip_target, is_gt}
use snmptune.Oid.Order.{Lt, Lt_trans, Before, has_arcs_of_Before, greater_of_test}
use snmptune.Exec.{OnSome}
use snmptune.Oid.Target.{Advance, skip_target_lem, skip_target-Advance, target-ne-nil}
use snmptune.Agent.{Varbind, Response, is_end}
use snmptune.Inventory.{Subtree, parent_of}
use snmptune.Inventory.Parent.{parent_of-target}
use snmptune.Inventory.Walk.{State, jump, collect, visit, digest}

-- The last arc, 0 if there is none.
abbrev pub last_arc : Arcs → ℕ
last_arc [] = 0
last_arc (x ∷ []) = x
last_arc (x ∷ y ∷ a) = last_arc (y ∷ a)

-- A skipped prefix has a next sibling.
abbrev pub HasSibling : Text → Type 0
HasSibling p = last_arc (parse p) < max_u32

abbrev pub IsAscending : List Text → Type 0
IsAscending [] = Unit
IsAscending (o ∷ os) = All (Before o) os × IsAscending os

-- Each OID is at or before the cursor.
abbrev Reached : Text → Text → Type 0
Reached cursor o = Before o cursor ⊎ (parse o ≡ parse cursor)

last_arc-append : (common : Arcs) (x : ℕ) → last_arc (common ++ x ∷ []) ≡ x
last_arc-append [] x = refl
last_arc-append (y ∷ []) x = refl
last_arc-append (y ∷ z ∷ common) x = last_arc-append (z ∷ common) x

IsAscending-snoc :
    (os : List Text) (p : Text)
    → IsAscending os
    → All (λ o. Before o p) os
    → IsAscending (os ++ p ∷ [])
IsAscending-snoc [] p _ _ = (tt, tt)
IsAscending-snoc (o ∷ os) p (h, hs) (k, ks) = (All-snoc _ os p h k, IsAscending-snoc os p hs ks)

Before-Reached : (o cursor p : Text) → Before cursor p → Reached cursor o → Before o p
Before-Reached o cursor p lt (inl k) = Lt_trans (parse o) (parse cursor) (parse p) k lt
Before-Reached o cursor p lt (inr e) = subst (λ a. Lt a (parse p)) (sym e) lt

-- What the walk keeps about the OIDs so far.
pub record Ordered (s : State) : Type 0 where
  pub ascending : IsAscending s.st.oids
  pub reached : All (Reached s.cursor) s.st.oids

pub record Under (root : Text) (st : Subtree) : Type 0 where
  pub at_root : st.root ≡ root
  pub inside : All (λ o. has_prefix o root ≡ true) st.oids

-- The order is kept where every skip moved forward.
abbrev pub Kept : Text → State → Type 0
Kept root s = Under root s.st × (parse s.cursor ≢ []) × (All HasSibling s.st.skipped → Ordered s)

collect-Kept :
    (root : Text) (vb : Varbind) (s : State)
    → has_prefix vb.oid root ≡ true
    → Before s.cursor vb.oid
    → Kept root s
    → Kept root (collect vb s)
collect-Kept root vb s inside lt (u, _, h) = (
  record { at_root = u.at_root; inside = All-snoc _ s.st.oids vb.oid u.inside inside },
  has_arcs_of_Before s.cursor vb.oid lt,
  λ good.
      let before =
        All-mono _ _ s.st.oids (λ o k. Before-Reached o s.cursor vb.oid lt k) (h good).reached in
      record {
        ascending = IsAscending-snoc s.st.oids vb.oid (h good).ascending before;
        reached =
            All-snoc _ s.st.oids vb.oid (All-mono _ _ s.st.oids (λ o k. inl k) before) (inr refl);
      },
)

All-init :
    {A : Type 0} (P : A → Type 0) (xs : List A) (a : A) → All P (xs ++ a ∷ []) → All P xs × P a
All-init P [] a (h, _) = (tt, h)
All-init P (x ∷ xs) a (h, hs) = let (k, l) = All-init P xs a hs in ((h, k), l)

forward_of_HasSibling :
    (request target : Text)
    → Advance request target
    → HasSibling (parent_of target)
    → Before request target
forward_of_HasSibling request target adv h = adv.forward (
    subst (λ n. n < max_u32) (last_arc-append adv.common adv.x)
      (subst (λ a. last_arc a < max_u32) (parent_of-target request target adv) h))

jump-Kept :
    (root : Text) (vb : Varbind) (s : State) → Kept root s → OnSome (Kept root) (jump root vb s)
unfolding jump
jump-Kept root vb s (u, arcs, h) = by_target (skip_target s.cursor vb.oid) refl
  where
    by_target :
        (o : Option Text)
        → skip_target s.cursor vb.oid ≡ o
        → OnSome (Kept root) (elim o [
          | none ↦ none
          | some target ↦ some (record s {
            st = record (s.st) { skipped = s.st.skipped ++ parent_of target ∷ [] };
            finished = s.finished || not (has_prefix target root);
            cursor = target;
          })
        ])
    by_target none e =
        let (t, k, _) = skip_target_lem s.cursor vb.oid arcs in absurd (none-ne-some t (sym e ∙ k))
    by_target (some target) e = (
      record { at_root = u.at_root; inside = u.inside },
      target-ne-nil s.cursor target (skip_target-Advance s.cursor vb.oid target e),
      λ good.
          let (before, sibling) = All-init HasSibling s.st.skipped (parent_of target) good in
          let adv = skip_target-Advance s.cursor vb.oid target e in
          let lt = forward_of_HasSibling s.cursor target adv sibling in
          record {
            ascending = (h before).ascending;
            reached =
                All-mono _ _ s.st.oids (λ o k. inl (Before-Reached o s.cursor target lt k))
                  (h before).reached;
          },
    )

finish-Kept :
    (root : Text) (b : Bool) (s : State) → Kept root s → Kept root (record s { finished = b })
finish-Kept root b s (u, arcs, h) =
    (u, arcs, λ good. record { ascending = (h good).ascending; reached = (h good).reached })

pub visit-Kept :
    (root : Text) (vbs : List Varbind) (s : State)
    → Kept root s
    → OnSome (Kept root) (visit root vbs s)
unfolding visit
visit-Kept root [] s h = h
visit-Kept root (vb ∷ vbs) s h =
    elim (Bool-cases (is_end vb.value || not (has_prefix vb.oid root))) [
      | inl e ↦ rw e (finish-Kept root true s h)
      | inr e ↦ rw e (elim (Bool-cases (not (is_gt (compare vb.oid s.cursor)))) [
        | inl k ↦ rw k (jump-Kept root vb s h)
        | inr k ↦ rw k (
            visit-Kept root vbs (collect vb s)
              (collect-Kept root vb s (ground arith) (greater_of_test vb.oid s.cursor k) h))
      ])
    ]

pub digest-Kept :
    (root : Text) (resp : Response) (s : State)
    → Kept root s
    → OnSome (Kept root) (digest root resp s)
unfolding digest
digest-Kept root resp s (u, arcs, h) = visit-Kept root resp.varbinds _ (
  record { at_root = u.at_root; inside = u.inside },
  arcs,
  λ good. record { ascending = (h good).ascending; reached = (h good).reached },
)
