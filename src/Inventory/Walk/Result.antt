-- ===== src/Inventory/Walk/Result.antt =====
-- What the inventory of `Walk` promises, and that the walk ends by its deadline.
use snmptune.Prelude.{
  ℕ, ◌≤◌, ◌<◌, ◌≡◌, ◌≢◌, refl, sym, ap, ◌∙◌, map, ◌++◌, append_assoc, append-nil, subst, Bool, true,
  false, Option, none, some, List, [], ◌∷◌, arith, All, All-snoc,
}
use mathlib.Core.Option.{some-ne-none}
use mathlib.Core.List.{map-append}
use snmptune.Text.{Text}
use snmptune.Oid
use snmptune.Oid.{parse, has_prefix}
use snmptune.Agent.{Environment, Error}
use snmptune.Agent.Deadline.{Deadline}
use snmptune.Exec.{Exec, done, panicked, out_of_fuel, Ends, >>=-Ends, Ends-mono}
use snmptune.Inventory.{Subtree, Inventory}
use snmptune.Inventory.Walk.{
  State, End, finished, cut_short, failed_with, walk_root, start_root, close_root, walk_roots,
  with_duration, walk,
}
use snmptune.Inventory.Walk.Ascending.{HasSibling, IsAscending, Kept}
use snmptune.Inventory.Walk.Rounds.{RootEnd, walk_root-Ends}

-- The OIDs of a subtree lie under its root. They ascend, if no skip went past the largest uint32.
pub record IsWalked (st : Subtree) : Type 0 where
  pub inside : All (λ o. has_prefix o st.root ≡ true) st.oids
  pub ascending : All HasSibling st.skipped → IsAscending st.oids

abbrev pub HasArcs : Text → Type 0
HasArcs root = parse (Oid.canonical root) ≢ []

module _ (env : Environment) where
  open env use {World, now}

  module _ (limit : Deadline env) where
    open limit use {remaining, now_keeps}

    start_root-Kept :
        (root : Text) (total pdus : ℕ)
        → parse root ≢ []
        → Kept root (start_root env root total pdus)
    start_root-Kept root total pdus arcs =
        (record { at_root = refl; inside = tt }, arcs, λ _. record { ascending = tt; reached = tt })

    close_root-IsWalked :
        (root : Text) (partial : Bool) (s : State)
        → Kept root s
        → IsWalked (close_root env partial s)
    unfolding close_root
    close_root-IsWalked root partial s (u, _, h) = record {
      inside = subst (λ r. All (λ o. has_prefix o r ≡ true) s.st.oids) (sym u.at_root) u.inside;
      ascending = λ good. (h good).ascending;
    }

    abbrev pub WalkEnd : Option Error × Inventory × World → Type 0
    WalkEnd (e, inv, w) = All IsWalked inv.subtrees

    -- The walk also gives no time back, and without an error it has a subtree for each root.
    abbrev pub WalkDone : List Text → World → Option Error × Inventory × World → Type 0
    WalkDone before w (e, inv, w') =
        All IsWalked inv.subtrees
        × (remaining w' ≤ remaining w)
        × (e ≡ none → map (λ st. st.root) inv.subtrees ≡ before)

    abbrev roots_of : Inventory → List Text
    roots_of inv = map (λ st. st.root) inv.subtrees

    close_root-root :
        (root : Text) (partial : Bool) (s : State)
        → Kept root s
        → (close_root env partial s).root ≡ root
    unfolding close_root
    close_root-root root partial s (u, _, _) = u.at_root

    add_subtree-roots :
        (root : Text) (partial : Bool) (s : State) (inv : Inventory) (roots : List Text)
        → Kept root s
        → map (λ st. st.root) (inv.subtrees ++ close_root env partial s ∷ []) ++ roots
          ≡ roots_of inv ++ root ∷ roots
    add_subtree-roots root partial s inv roots k =
        ap (λ ts. ts ++ roots)
          (map-append (λ st. st.root) inv.subtrees (close_root env partial s ∷ []))
        ∙ append_assoc (roots_of inv) (_ ∷ []) roots
        ∙ ap (λ r. roots_of inv ++ r ∷ roots) (close_root-root root partial s k)

    WalkDone-mono :
        (before before' : List Text) (w w' : World) (m : Exec (Option Error × Inventory × World))
        → before ≡ before'
        → remaining w ≤ remaining w'
        → Ends (WalkDone before w) m
        → Ends (WalkDone before' w') m
    WalkDone-mono before before' w w' m e le h =
        Ends-mono (WalkDone before w) (WalkDone before' w') m h
          (λ a (k, l, r). (k, omega arith, λ x. r x ∙ e))

    walk_roots-Ends :
        (fuel max_oids : ℕ) (roots : List Text) (total : ℕ) (inv : Inventory) (w : World)
        → remaining w < fuel
        → All HasArcs roots
        → All IsWalked inv.subtrees
        → Ends
            (WalkDone (roots_of inv ++ map Oid.canonical roots) w)
            (walk_roots env fuel max_oids roots total inv w)
    unfolding walk_roots
    walk_roots-Ends fuel max_oids [] total inv w lt _ h =
        (h, omega arith, λ x. sym (append-nil (roots_of inv)))
    walk_roots-Ends fuel max_oids (root ∷ roots) total inv w lt (arcs, all_arcs) h =
        let r = Oid.canonical root in
        by_root (walk_root env fuel max_oids r (start_root env r total inv.pdus) w) refl
          (walk_root-Ends env limit fuel max_oids r (start_root env r total inv.pdus) w lt
            (start_root-Kept r total inv.pdus arcs))
          (λ n i w' less k. walk_roots-Ends fuel max_oids roots n i w' less all_arcs k)
      where
        by_root :
            (m : Exec (End × State × World))
            → walk_root env fuel max_oids
                (Oid.canonical root)
                (start_root env (Oid.canonical root) total inv.pdus)
                w
              ≡ m
            → Ends (RootEnd env limit (Oid.canonical root) w) m
            → ((n : ℕ) (i : Inventory) (w' : World)
                → remaining w' < fuel
                → All IsWalked i.subtrees
                → Ends
                    (WalkDone (roots_of i ++ map Oid.canonical roots) w')
                    (walk_roots env fuel max_oids roots n i w'))
            → Ends
                (WalkDone (roots_of inv ++ map Oid.canonical (root ∷ roots)) w)
                (walk_roots env fuel max_oids (root ∷ roots) total inv w)
        by_root out_of_fuel e k again = absurd k
        by_root panicked e k again = absurd k
        by_root (done (failed_with x, s, w')) e (k, le) again =
            rw (e, walk_roots) (h, le, λ y. absurd (some-ne-none x y))
        by_root (done (cut_short, s, w')) e (k, le) again =
            rw (e, walk_roots)
              (WalkDone-mono _ _ w' w _
                (add_subtree-roots (Oid.canonical root) true s inv (map Oid.canonical roots) k) le
                (again s.total _ w' (omega arith) (
                  All-snoc IsWalked inv.subtrees _ h
                    (close_root-IsWalked (Oid.canonical root) true s k))))
        by_root (done (finished, s, w')) e (k, le) again =
            rw (e, walk_roots)
              (WalkDone-mono _ _ w' w _
                (add_subtree-roots (Oid.canonical root) false s inv (map Oid.canonical roots) k) le
                (again s.total _ w' (omega arith) (
                  All-snoc IsWalked inv.subtrees _ h
                    (close_root-IsWalked (Oid.canonical root) false s k))))

    with_duration-WalkDone :
        (before : List Text) (w : World) (start : ℕ) (a : Option Error × Inventory × World)
        → WalkDone before w a
        → WalkDone before w (with_duration env start a)
    unfolding with_duration
    with_duration-WalkDone before w start (some e, inv, w') h = h
    with_duration-WalkDone before w start (none, inv, w') (h, le, r) =
        (h, omega (arith, now_keeps w'), r)

    pub walk-WalkDone :
        (fuel max_oids : ℕ) (roots : List Text) (w : World)
        → remaining w < fuel
        → All HasArcs roots
        → Ends (WalkDone (map Oid.canonical roots) w) (walk env fuel max_oids roots w)
    unfolding walk
    walk-WalkDone fuel max_oids roots w lt arcs =
        let before = map Oid.canonical roots in
        >>=-Ends (WalkDone before w) (WalkDone before w) _
          (λ end. done (with_duration env (now w).0 end))
          (WalkDone-mono before before (now w).1 w _ refl (now_keeps w) (
            walk_roots-Ends fuel max_oids roots 0 _ (now w).1 (omega (arith, now_keeps w)) arcs tt))
          (with_duration-WalkDone before w (now w).0)

    -- For roots with at least one arc each, and under a deadline that leaves less time than the fuel,
    -- the reference walk returns and does not panic. In every inventory that it returns, beside an
    -- error too, the OIDs of each subtree lie under its root, and ascend strictly by their arcs if
    -- none of its skipped prefixes ends in the largest uint32.
    pub walk_lem :
        (fuel max_oids : ℕ) (roots : List Text) (w : World)
        → remaining w < fuel
        → All HasArcs roots
        → Ends WalkEnd (walk env fuel max_oids roots w)
    walk_lem fuel max_oids roots w lt arcs =
        Ends-mono (WalkDone (map Oid.canonical roots) w) WalkEnd _
          (walk-WalkDone fuel max_oids roots w lt arcs) (λ a h. h.0)
