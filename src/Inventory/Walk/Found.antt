-- ===== src/Inventory/Walk/Found.antt =====
-- The inventory of a reference walk against an agent that keeps to the protocol.
use snmptune.Prelude.{
  ℕ, ◌<◌, ◌≤◌, ◌≡◌, refl, subst, append_assoc, append-nil, ◌∙◌, false, Option, none, some, List, [],
  ◌∷◌, ◌++◌, arith, length, Bool-cases, inl, inr,
}
use snmptune.Text.{Text}
use snmptune.Oid
use snmptune.Oid.{compare, is_gt}
use snmptune.Agent.{Environment, Error}
use snmptune.Agent.Served.{Serves, later, later-All, later-IsSorted}
use snmptune.Exec.{Exec, done, panicked, out_of_fuel, Ends, >>=-Ends}
use snmptune.Inventory.{Subtree, Inventory}
use snmptune.Inventory.Walk.{
  State, End, finished, cut_short, failed_with, walk_root, start_root, close_root, walk_roots,
  with_duration, walk,
}
use snmptune.Inventory.Walk.Convex.{under, leading-under}
use snmptune.Inventory.Walk.Complete.{Collected, walk_root-Collected}

-- The subtree is finished, and holds the agent's OIDs that sort after the root and lie under it.
pub record IsComplete (mib : List Text) (root : Text) (st : Subtree) : Type 0 where
  pub at_root : st.root ≡ root
  pub whole : st.partial ≡ false
  pub none_skipped : st.skipped ≡ []
  pub found : st.oids ≡ under root (later mib root)

-- One subtree for each root, in their order.
abbrev pub AllComplete : List Text → List Text → List Subtree → Type 0
AllComplete mib [] [] = Unit
AllComplete mib [] (st ∷ sts) = ⊥
AllComplete mib (r ∷ rs) [] = ⊥
AllComplete mib (r ∷ rs) (st ∷ sts) = IsComplete mib (Oid.canonical r) st × AllComplete mib rs sts

AllComplete-snoc :
    (mib : List Text) (rs : List Text) (sts : List Subtree) (r : Text) (st : Subtree)
    → AllComplete mib rs sts
    → IsComplete mib (Oid.canonical r) st
    → AllComplete mib (rs ++ r ∷ []) (sts ++ st ∷ [])
AllComplete-snoc mib [] [] r st h k = (k, tt)
AllComplete-snoc mib [] (u ∷ us) r st h k = absurd h
AllComplete-snoc mib (s ∷ rs) [] r st h k = absurd h
AllComplete-snoc mib (s ∷ rs) (u ∷ us) r st (h, hs) k = (h, AllComplete-snoc mib rs us r st hs k)

later-le : (os : List Text) (c : Text) → length (later os c) ≤ length os
unfolding later
later-le [] c = omega arith
later-le (o ∷ os) c = elim (Bool-cases (is_gt (compare o c))) [
  | inl e ↦ rw e (omega (arith, later-le os c))
  | inr e ↦ rw e (omega (arith, later-le os c))
]

module _ (env : Environment) (mib : List Text) (serves : Serves env mib) where
  open env use {World, now}
  open serves use {sorted}

  close_root-IsComplete :
      (root : Text) (total pdus : ℕ) (s : State) (w : World)
      → Collected mib root (start_root env root total pdus) (finished, s, w)
      → IsComplete mib root (close_root env false s)
  unfolding close_root
  close_root-IsComplete root total pdus s w (same, q) = record {
    at_root = same.root;
    whole = refl;
    none_skipped = same.skipped;
    found =
        q
        ∙ leading-under root (later mib root) (later-All mib root) (later-IsSorted mib root sorted);
  }

  -- No error, and every subtree is there and complete.
  abbrev pub AllFound : List Text → Option Error × Inventory × World → Type 0
  AllFound roots (e, inv, w) =
      (e ≡ none) × (inv.partial ≡ false) × AllComplete mib roots inv.subtrees

  one_more :
      (before roots : List Text) (root : Text) (m : Exec (Option Error × Inventory × World))
      → Ends (AllFound ((before ++ root ∷ []) ++ roots)) m
      → Ends (AllFound (before ++ root ∷ roots)) m
  one_more before roots root m =
      subst (λ l. Ends (AllFound l) m) (append_assoc before (root ∷ []) roots)

  walk_roots-AllFound :
      (fuel : ℕ) (before roots : List Text) (total : ℕ) (inv : Inventory) (w : World)
      → length mib < fuel
      → inv.partial ≡ false
      → AllComplete mib before inv.subtrees
      → Ends (AllFound (before ++ roots)) (walk_roots env fuel 0 roots total inv w)
  unfolding walk_roots
  walk_roots-AllFound fuel before [] total inv w lt whole h =
      rw (append-nil before) (refl, whole, h)
  walk_roots-AllFound fuel before (root ∷ roots) total inv w lt whole h =
      by_root (walk_root env fuel 0 r (start_root env r total inv.pdus) w) refl
        (walk_root-Collected env mib serves r fuel (start_root env r total inv.pdus) w
          (omega (arith, later-le mib r)))
        (λ n i w' p k. walk_roots-AllFound fuel (before ++ root ∷ []) roots n i w' lt p k)
    where
      r : Text
      r = Oid.canonical root

      by_root :
          (m : Exec (End × State × World))
          → walk_root env fuel 0 r (start_root env r total inv.pdus) w ≡ m
          → Ends (Collected mib r (start_root env r total inv.pdus)) m
          → ((n : ℕ) (i : Inventory) (w' : World)
              → i.partial ≡ false
              → AllComplete mib (before ++ root ∷ []) i.subtrees
              → Ends
                  (AllFound ((before ++ root ∷ []) ++ roots))
                  (walk_roots env fuel 0 roots n i w'))
          → Ends
              (AllFound (before ++ root ∷ roots))
              (walk_roots env fuel 0 (root ∷ roots) total inv w)
      by_root out_of_fuel e k again = absurd k
      by_root panicked e k again = absurd k
      by_root (done (failed_with x, s, w')) e k again = absurd k
      by_root (done (cut_short, s, w')) e k again = absurd k
      by_root (done (finished, s, w')) e k again =
          rw (e, walk_roots)
            (one_more before roots root _ (
              again s.total _ w' whole (
                AllComplete-snoc mib before inv.subtrees root (close_root env false s) h
                  (close_root-IsComplete r total inv.pdus s w' k))))

  with_duration-AllFound :
      (roots : List Text) (start : ℕ) (a : Option Error × Inventory × World)
      → AllFound roots a
      → AllFound roots (with_duration env start a)
  unfolding with_duration
  with_duration-AllFound roots start (some x, inv, w) h = h
  with_duration-AllFound roots start (none, inv, w) h = h

  -- Against an agent that keeps to the protocol, with a context that stays alive, no bound on the OIDs
  -- and more fuel than the agent has OIDs, the reference walk returns without an error and without a
  -- panic. Its inventory is not partial and has one finished subtree for each root, in their order,
  -- which skipped nothing and holds, in order, all the agent's OIDs that sort after the root and lie
  -- under it, and no other.
  pub walk-AllFound :
      (fuel : ℕ) (roots : List Text) (w : World)
      → length mib < fuel
      → Ends (AllFound roots) (walk env fuel 0 roots w)
  unfolding walk
  walk-AllFound fuel roots w lt =
      >>=-Ends (AllFound roots) (AllFound roots) _ (λ end. done (with_duration env (now w).0 end))
        (walk_roots-AllFound fuel [] roots 0 _ (now w).1 lt refl tt)
        (with_duration-AllFound roots (now w).0)
