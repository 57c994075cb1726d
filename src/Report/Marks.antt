-- ===== src/Report/Marks.antt =====
-- Which trial `Text` and `JSON` mark as the best.
use snmptune.Prelude.{
  ℕ, zero, suc, ◌+◌, ◌≡◌, ◌∙◌, refl, sym, ap, subst, Bool, true, false, ◌&&◌, Option, none, some,
  List, [], ◌∷◌, ◌⊎◌, inl, inr, arith, Bool-cases, All,
}
use mathlib.Core.Option.{some-ne-none, some-injective}
use snmptune.Float.{FloatOps}
use snmptune.Slices.Sorted.{WeakOrder}
use snmptune.Search.{Trial, Outcome, best_from}
use snmptune.Search.Best.{IsBest, best_from_lem}
use snmptune.Report.{fits_within}
use snmptune.Report.View.{best_at, beats_at, best_place}

-- The element stands at that place.
abbrev pub At : {A : Type 0} → List A → ℕ → A → Type 0
At [] n x = ⊥
At (y ∷ ys) zero x = y ≡ x
At (y ∷ ys) (suc n) x = At ys n x

module _ (float : FloatOps) where
  open float use {F, lt}

  abbrev pub Place : Type 0
  Place = Option (ℕ × Trial F)

  abbrev pub drop_place : Place → Option (Trial F)
  drop_place none = none
  drop_place (some (i, t)) = some t

  pub best_at-best_from :
      (test : Trial F → Bool) (b : Place) (i : ℕ) (ts : List (Trial F))
      → drop_place (best_at float test b i ts) ≡ best_from float test (drop_place b) ts
  unfolding best_at best_from
  best_at-best_from test b i [] = refl
  best_at-best_from test none i (t ∷ ts) = elim (Bool-cases (test t)) [
    | inl e ↦ rw e (best_at-best_from test (some (i, t)) (suc i) ts)
    | inr e ↦ rw e (best_at-best_from test none (suc i) ts)
  ]
  best_at-best_from test (some (j, u)) i (t ∷ ts) =
      elim (Bool-cases (test t && lt u.score t.score)) [
        | inl e ↦ rw e (best_at-best_from test (some (i, t)) (suc i) ts)
        | inr e ↦ rw e (best_at-best_from test (some (j, u)) (suc i) ts)
      ]

  -- Where the loop found its trial.
  abbrev pub FoundAt : Place → ℕ → List (Trial F) → ℕ → Trial F → Type 0
  FoundAt b i ts k x = (b ≡ some (k, x)) ⊎ ((n : ℕ) × (k ≡ i + n) × At ts n x)

  later_FoundAt :
      (b c : Place) (i : ℕ) (t : Trial F) (ts : List (Trial F)) (k : ℕ) (x : Trial F)
      → ((c ≡ some (k, x)) → FoundAt b i (t ∷ ts) k x)
      → FoundAt c (suc i) ts k x
      → FoundAt b i (t ∷ ts) k x
  later_FoundAt b c i t ts k x f (inl e) = f e
  later_FoundAt b c i t ts k x f (inr (n, e, h)) = inr (suc n, omega arith, h)

  here_FoundAt :
      (b : Place) (i : ℕ) (t : Trial F) (ts : List (Trial F)) (k : ℕ) (x : Trial F)
      → ◌≡◌ {A = Place} (some (i, t)) (some (k, x))
      → FoundAt b i (t ∷ ts) k x
  here_FoundAt b i t ts k x e = inr (0, (let p : i ≡ k = cc in omega (arith, p)), cc)

  pub best_at-FoundAt :
      (test : Trial F → Bool) (b : Place) (i : ℕ) (ts : List (Trial F)) (k : ℕ) (x : Trial F)
      → best_at float test b i ts ≡ some (k, x)
      → FoundAt b i ts k x
  unfolding best_at
  best_at-FoundAt test b i [] k x e = inl e
  best_at-FoundAt test b i (t ∷ ts) k x e = elim (Bool-cases (test t && beats_at float t b)) [
    | inl p ↦
        later_FoundAt b (some (i, t)) i t ts k x (here_FoundAt b i t ts k x)
          (best_at-FoundAt test (some (i, t)) (suc i) ts k x (rw p at e))
    | inr p ↦
        later_FoundAt b b i t ts k x (λ q. inl q)
          (best_at-FoundAt test b (suc i) ts k x (rw p at e))
  ]

  pub found_at : (ts : List (Trial F)) (k : ℕ) (x : Trial F) → FoundAt none 0 ts k x → At ts k x
  found_at ts k x (inl e) = absurd (some-ne-none (k, x) (sym e))
  found_at ts k x (inr (n, e, h)) = rw (let q : k ≡ n = omega (arith, e) in q) h

  -- If the scores are weakly ordered: the trial that `Text` and `JSON` mark as the best stands at the
  -- place that they compare with, is clean, has no response above the limit, and no other such trial
  -- has a greater score. None is marked exactly if there is no such trial.
  pub best_place_lem :
      WeakOrder lt
      → (o : Outcome F) (limit : ℕ)
      → ((best_place float o limit ≡ none) × All (λ t. fits_within float limit t ≡ false) o.trials)
        ⊎ ((k : ℕ) × (x : Trial F) × (best_place float o limit ≡ some (k, x))
            × At o.trials k x
            × IsBest float (fits_within float limit) o.trials x)
  unfolding best_place
  best_place_lem order o limit = by_place (best_at float test none 0 o.trials) refl
    where
      test : Trial F → Bool
      test = fits_within float limit

      by_place :
          (p : Place)
          → best_at float test none 0 o.trials ≡ p
          → ((p ≡ none) × All (λ t. test t ≡ false) o.trials)
            ⊎ ((k : ℕ) × (x : Trial F) × (p ≡ some (k, x))
                × At o.trials k x
                × IsBest float test o.trials x)
      by_place none e = elim (best_from_lem float order test o.trials) [
        | inl (n, h) ↦ inl (refl, h)
        | inr (x, f, h) ↦ absurd (
            some-ne-none x (sym f ∙ sym (best_at-best_from test none 0 o.trials) ∙ ap drop_place e))
      ]
      by_place (some (k, x)) e = elim (best_from_lem float order test o.trials) [
        | inl (n, h) ↦
            absurd
              (some-ne-none x (sym (ap drop_place e) ∙ best_at-best_from test none 0 o.trials ∙ n))
        | inr (y, f, h) ↦
            let same : y ≡ x =
              some-injective y x
                (sym f ∙ sym (best_at-best_from test none 0 o.trials) ∙ ap drop_place e) in
            inr (
              k,
              x,
              refl,
              found_at o.trials k x (best_at-FoundAt test none 0 o.trials k x e),
              subst (IsBest float test o.trials) same h,
            )
      ]

  some_place : (i j : ℕ) (t u : Trial F) → ◌≡◌ {A = Place} (some (i, t)) (some (j, u)) → t ≡ u
  some_place i j t u e = cc

  both_true : (a b : Bool) → a && b ≡ true → a ≡ true
  both_true true b e = refl
  both_true false b e = e

  best_at_passes :
      (test : Trial F → Bool) (b : Place) (i : ℕ) (ts : List (Trial F))
      → ((j : ℕ) (u : Trial F) → b ≡ some (j, u) → test u ≡ true)
      → (k : ℕ) (x : Trial F) → best_at float test b i ts ≡ some (k, x)
      → test x ≡ true
  unfolding best_at
  best_at_passes test b i [] h k x e = h k x e
  best_at_passes test b i (t ∷ ts) h k x e = elim (Bool-cases (test t && beats_at float t b)) [
    | inl p ↦
        best_at_passes test (some (i, t)) (suc i) ts
          (λ j u q.
            subst (λ v. test v ≡ true) (some_place i j t u q)
              (both_true (test t) (beats_at float t b) p))
          k x (rw p at e)
    | inr p ↦ best_at_passes test b (suc i) ts h k x (rw p at e)
  ]

  -- The trial at the place passes the test.
  pub best_place_passes :
      (o : Outcome F) (limit k : ℕ) (x : Trial F)
      → best_place float o limit ≡ some (k, x)
      → At o.trials k x × (fits_within float limit x ≡ true)
  unfolding best_place
  best_place_passes o limit k x e = (
    found_at o.trials k x (best_at-FoundAt (fits_within float limit) none 0 o.trials k x e),
    best_at_passes (fits_within float limit) none 0 o.trials
        (λ j u h. absurd (some-ne-none (j, u) (sym h))) k x e,
  )
