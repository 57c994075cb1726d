-- ===== src/Command/Complete.antt =====
-- The trials of cmd/snmptune/main.go query only what the reference walk finished.
use snmptune.Prelude.{
  ◌≡◌, refl, sym, Bool, true, false, List, [], ◌∷◌, ◌++◌, map, inl, inr, All, Any, All-append,
  All-mono, All-snoc, Bool-cases, if◌then◌else◌,
}
use snmptune.Text.{Text, text_eq}
use snmptune.Text.Equality.{Among, Among-snoc, Among-last, not_contains}
use snmptune.Slices.{contains}
use snmptune.Inventory.{Subtree, Inventory}
use snmptune.Workload.{Table}
use snmptune.Workload.Inventory.{table_of, from_inventory}
use snmptune.Command.Options.{is_empty}
use snmptune.Command.Prepare.{
  misordered, dropped, Sorted, sort_subtree, sort_subtrees, sort_out, named_subtrees, drop_partial,
  trial_tables,
}

-- Every subtree of that root is finished.
abbrev pub AllFinished : Text → List Subtree → Type 0
AllFinished base = All (λ st. st.root ≡ base → st.partial ≡ false)

-- There is a subtree of that root, and each is finished.
abbrev pub IsFinished : List Subtree → Text → Type 0
IsFinished sts base = Any (λ st. (st.root ≡ base) × (st.partial ≡ false)) sts × AllFinished base sts

sort_subtree-partial :
    (acc : Sorted) (st : Subtree) (base : Text)
    → (Among base acc.partial → Among base (sort_subtree acc st).partial)
      × (st.partial ≡ true → st.root ≡ base → Among base (sort_subtree acc st).partial)
unfolding sort_subtree
sort_subtree-partial acc st base = elim (Bool-cases (st.partial)) [
  | inl e ↦ rw e (
    λ h. Among-snoc base st.root acc.partial h,
    λ p q. rw (sym q) (Among-last st.root acc.partial),
  )
  | inr e ↦ rw e (λ h. h, λ p q. cc)
]

sort_subtrees-partial :
    (base : Text) (sts : List Subtree) (acc : Sorted)
    → ¬ Among base (sort_subtrees acc sts).partial
    → (¬ Among base acc.partial) × AllFinished base sts
unfolding sort_subtrees
sort_subtrees-partial base [] acc h = (h, tt)
sort_subtrees-partial base (st ∷ sts) acc h =
    let (out, rest) = sort_subtrees-partial base sts (sort_subtree acc st) h in
    let step = sort_subtree-partial acc st base in
    (
      λ a. out (step.0 a),
      (λ q. elim (Bool-cases (st.partial)) [ inl e ↦ absurd (out (step.1 e q)) | inr e ↦ e ], rest),
    )

module _ (P : Subtree → Type 0) where
  sort_subtree-complete :
      (acc : Sorted) (st : Subtree)
      → All P acc.complete
      → P st
      → All P (sort_subtree acc st).complete
  unfolding sort_subtree
  sort_subtree-complete acc st h p = by_flag (st.partial)
    where
      by_flag :
          (b : Bool)
          → All P
              (if b
                then record acc {
                  partial = acc.partial ++ st.root ∷ [];
                  warnings = (acc.warnings ++ map misordered st.skipped) ++ dropped st.root ∷ [];
                }
                else record acc {
                  complete = acc.complete ++ st ∷ [];
                  warnings = acc.warnings ++ map misordered st.skipped;
                }).complete
      by_flag true = h
      by_flag false = All-snoc P acc.complete st h p

  pub sort_subtrees-complete :
      (sts : List Subtree) (acc : Sorted)
      → All P acc.complete
      → All P sts
      → All P (sort_subtrees acc sts).complete
  unfolding sort_subtrees
  sort_subtrees-complete [] acc h k = h
  sort_subtrees-complete (st ∷ sts) acc h (p, ps) =
      sort_subtrees-complete sts (sort_subtree acc st) (sort_subtree-complete acc st h p) ps

  pub named_subtrees-All :
      (oids : List Text) (sts : List Subtree) → All P sts → All P (named_subtrees oids sts)
  unfolding named_subtrees
  named_subtrees-All oids [] h = tt
  named_subtrees-All oids (st ∷ sts) (p, ps) = elim (Bool-cases (contains text_eq oids st.root)) [
    | inl e ↦ rw e (p, named_subtrees-All oids sts ps)
    | inr e ↦ rw e (named_subtrees-All oids sts ps)
  ]

-- A property of tables holds of those that are left, which have no partial base.
drop_partial-All :
    (P : Table → Type 0) (partial : List Text) (ts : List Table)
    → All P ts
    → All (λ t. P t × (¬ Among t.base partial)) (drop_partial partial ts)
unfolding drop_partial
drop_partial-All P partial [] h = tt
drop_partial-All P partial (t ∷ ts) (p, ps) = elim (Bool-cases (contains text_eq partial t.base)) [
  | inl e ↦ rw e (drop_partial-All P partial ts ps)
  | inr e ↦ rw e ((p, not_contains partial t.base e), drop_partial-All P partial ts ps)
]

table_of-All :
    (P : Subtree → Type 0) (Q : Table → Type 0) (sts : List Subtree)
    → ((st : Subtree) → P st → Q (table_of st))
    → All P sts
    → All Q (map table_of sts)
table_of-All P Q [] f h = tt
table_of-All P Q (st ∷ sts) f (p, ps) = (f st p, table_of-All P Q sts f ps)

-- The tables of the trials are those of the group and those made of finished subtrees, without the
-- ones whose base is partial.
pub trial_tables-All :
    (P : Subtree → Type 0) (Q : Table → Type 0) (oids : List Text) (ref : Inventory)
    (ts : List Table)
    → ((st : Subtree) → P st → Q (table_of st))
    → All P ref.subtrees
    → All Q ts
    → All (λ t. Q t × (¬ Among t.base (sort_out ref).partial)) (trial_tables oids ref ts)
unfolding trial_tables sort_out from_inventory
trial_tables-All P Q oids ref ts f h k = elim (Bool-cases (is_empty oids)) [
  | inl e ↦ rw e (drop_partial-All Q _ ts k)
  | inr e ↦ rw e (
      drop_partial-All Q _ _ (
        All-append Q _ ts
          (table_of-All P Q _ f
            (named_subtrees-All P oids _ (sort_subtrees-complete P ref.subtrees _ tt h)))
          k))
]

present_finished :
    (sts : List Subtree) (base : Text)
    → Among base (map (λ st. st.root) sts)
    → AllFinished base sts
    → Any (λ st. (st.root ≡ base) × (st.partial ≡ false)) sts
present_finished [] base a h = absurd a
present_finished (st ∷ sts) base (inl e) (p, ps) = inl (e, p e)
present_finished (st ∷ sts) base (inr a) (p, ps) = inr (present_finished sts base a ps)

roots_present : (sts : List Subtree) → All (λ st. Among st.root (map (λ s. s.root) sts)) sts
roots_present [] = tt
roots_present (st ∷ sts) = (inl refl, weaken sts (roots_present sts))
  where
    weaken :
        (us : List Subtree)
        → All (λ u. Among u.root (map (λ s. s.root) sts)) us
        → All (λ u. Among u.root (map (λ s. s.root) (st ∷ sts))) us
    weaken [] h = tt
    weaken (u ∷ us) (p, ps) = (inr p, weaken us ps)

-- If the reference has a subtree for the base of every table of the group: for every table of the
-- trials, the reference has a subtree whose root is the table's base, and no subtree of that root is
-- partial.
pub trial_tables-IsFinished :
    (oids : List Text) (ref : Inventory) (group : List Table)
    → All (λ t. Among t.base (map (λ st. st.root) ref.subtrees)) group
    → All (λ t. IsFinished ref.subtrees t.base) (trial_tables oids ref group)
unfolding sort_out
trial_tables-IsFinished oids ref group h =
    All-mono _ _ (trial_tables oids ref group)
      (λ t (a, out).
        let finished = (sort_subtrees-partial t.base ref.subtrees _ out).1 in
        (present_finished ref.subtrees t.base a finished, finished))
      (trial_tables-All (λ st. Among st.root (map (λ s. s.root) ref.subtrees))
        (λ t. Among t.base (map (λ s. s.root) ref.subtrees)) oids ref group
        (λ st a. unfold table_of in a) (roots_present ref.subtrees) h)
