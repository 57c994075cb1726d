-- ===== src/Search/Best.antt =====
-- `Peak` returns a clean trial whose score no other clean trial beats.
use snmptune.Prelude.{
  ◌≡◌, refl, Bool, true, false, ◌&&◌, none, some, List, [], ◌∷◌, ◌⊎◌, inl, inr, arith, Bool-cases,
  All, Any,
}
use snmptune.Float.{FloatOps}
use snmptune.Slices.Sorted.{WeakOrder}
use snmptune.Search.{Trial, Outcome, ok, best_from, peak}

module _ (float : FloatOps) where
  open float use {F, lt}

  -- The trial passes the test, stands among the trials, and none that passes has a greater score.
  pub record IsBest (test : Trial F → Bool) (ts : List (Trial F)) (b : Trial F) : Type 0 where
    pub passes : test b ≡ true
    pub present : Any (λ t. t ≡ b) ts
    pub unbeaten : All (λ t. test t ≡ true → lt b.score t.score ≡ false) ts

  module _ (order : WeakOrder lt) (test : Trial F → Bool) where
    open order use {asymmetric, not_lt_trans}

    -- From a trial that passes, the loop goes to one that it does not beat.
    pub record Improves (b0 : Trial F) (ts : List (Trial F)) (b : Trial F) : Type 0 where
      pub found : best_from float test (some b0) ts ≡ some b
      pub passes : test b ≡ true
      pub present : (b0 ≡ b) ⊎ Any (λ t. t ≡ b) ts
      pub kept : lt b.score b0.score ≡ false
      pub unbeaten : All (λ t. test t ≡ true → lt b.score t.score ≡ false) ts

    lt_self : (x : F) → lt x x ≡ false
    lt_self x = elim (Bool-cases (lt x x)) [ inl e ↦ asymmetric x x e | inr e ↦ e ]

    improves :
        (b0 : Trial F) (ts : List (Trial F)) → test b0 ≡ true → (b : Trial F) × Improves b0 ts b
    unfolding best_from
    improves b0 [] h = (
      b0,
      record {
        found = refl;
        passes = h;
        present = inl refl;
        kept = lt_self b0.score;
        unbeaten = tt;
      },
    )
    improves b0 (t ∷ ts) h = elim (Bool-cases (test t && lt b0.score t.score)) [
      | inl e ↦
          let (b, i) = improves t ts (ground arith) in
          (
            b,
            record {
              found = rw e i.found;
              passes = i.passes;
              present = inr i.present;
              kept =
                  not_lt_trans b.score t.score b0.score i.kept
                    (asymmetric b0.score t.score (ground arith));
              unbeaten = (λ _. i.kept, i.unbeaten);
            },
          )
      | inr e ↦
          let (b, i) = improves b0 ts h in
          (
            b,
            record {
              found = rw e i.found;
              passes = i.passes;
              present = elim (i.present) [ inl p ↦ inl p | inr p ↦ inr (inr p) ];
              kept = i.kept;
              unbeaten =
                  (λ p. not_lt_trans b.score b0.score t.score i.kept (ground arith), i.unbeaten);
            },
          )
    ]

    -- Without a best trial so far the loop finds one, unless none passes.
    pub best_from_lem :
        (ts : List (Trial F))
        → ((best_from float test none ts ≡ none) × All (λ t. test t ≡ false) ts)
          ⊎ ((b : Trial F) × (best_from float test none ts ≡ some b) × IsBest test ts b)
    unfolding best_from
    best_from_lem [] = inl (refl, tt)
    best_from_lem (t ∷ ts) = elim (Bool-cases (test t)) [
      | inl e ↦
          let (b, i) = improves t ts e in
          inr (
            b,
            rw e i.found,
            record { passes = i.passes; present = i.present; unbeaten = (λ _. i.kept, i.unbeaten) },
          )
      | inr e ↦ elim (best_from_lem ts) [
        | inl (n, all) ↦ inl (rw e n, (e, all))
        | inr (b, s, i) ↦ inr (
          b,
          rw e s,
          record { passes = i.passes; present = inr i.present; unbeaten = (λ p. cc, i.unbeaten) },
        )
      ]
    ]

  -- If the scores are weakly ordered, `Peak` is nil exactly if every trial failed, and otherwise a
  -- clean trial of the outcome whose score no other clean trial exceeds.
  pub peak_lem :
      WeakOrder lt
      → (o : Outcome F)
      → ((peak float o ≡ none) × All (λ t. ok t ≡ false) o.trials)
        ⊎ ((b : Trial F) × (peak float o ≡ some b) × IsBest ok o.trials b)
  unfolding peak
  peak_lem order o = best_from_lem order ok o.trials
