-- ===== src/Search/Score.antt =====
-- What `score` makes of the repeats of one setting.
use snmptune.Prelude.{
  ◌/◌, ◌≡◌, ◌≢◌, ◌∙◌, ◌↔◌, refl, sym, ap, true, Option, none, some, List, [], ◌∷◌, ◌++◌, map, arith,
  append_assoc, append-nil, All, length, inl, inr, ◌⊎◌,
}
use snmptune.Float.{FloatOps}
use snmptune.Slices.Sorted.{WeakOrder, IsQuantile, sort-IsQuantile}
use snmptune.Walk.{Settings, Result, Cause, varbinds_per_second}
use snmptune.Search.{Label, ok, rates_from, median, score_rates, score}

abbrev pub IsClean : Result → Type 0
IsClean r = r.failure ≡ []

module _ (float : FloatOps) where
  open float use {F, lt}

  abbrev pub rates : List Result → List F
  rates runs = map (varbinds_per_second float) runs

  -- Every run is clean and its rates are added, or some failure is found.
  abbrev RatesFound : List F → List Result → Type 0
  RatesFound acc runs =
      (All IsClean runs × (rates_from float acc runs ≡ (none, acc ++ rates runs)))
      ⊎ ((¬ All IsClean runs)
          × ((cs : List Cause) × (rest : List F) × (rates_from float acc runs ≡ (some cs, rest))))

  not-IsClean : (r : Result) (c : Cause) (cs : List Cause) → r.failure ≡ c ∷ cs → ¬ IsClean r
  not-IsClean r c cs e h = cc

  rates_from-step :
      (acc : List F) (r : Result) (runs : List Result)
      → IsClean r
      → rates_from float acc (r ∷ runs)
        ≡ rates_from float (acc ++ varbinds_per_second float r ∷ []) runs
  unfolding rates_from
  rates_from-step acc r runs e =
      ap
        (λ (f : List Cause). elim f as (λ _. Option (List Cause) × List F) [
          | [] ↦ rates_from float (acc ++ varbinds_per_second float r ∷ []) runs
          | c ∷ cs ↦ (some (c ∷ cs), acc)
        ])
        e

  rates_from-RatesFound : (acc : List F) (runs : List Result) → RatesFound acc runs
  unfolding rates_from
  rates_from-RatesFound acc [] = inl (tt, ap (λ l. (none, l)) (sym (append-nil acc)))
  rates_from-RatesFound acc (r ∷ runs) =
      by_failure r.failure refl
        (rates_from-RatesFound (acc ++ varbinds_per_second float r ∷ []) runs)
    where
      by_failure :
          (f : List Cause)
          → r.failure ≡ f
          → RatesFound (acc ++ varbinds_per_second float r ∷ []) runs
          → RatesFound acc (r ∷ runs)
      by_failure (c ∷ cs) e _ =
          inr ((λ h. not-IsClean r c cs e h.0), (c ∷ cs, acc, rw (e, rates_from) refl))
      by_failure [] e (inl (h, k)) = inl (
        (e, h),
        rates_from-step acc r runs e
            ∙ k
            ∙ ap (λ l. (none, l))
                (append_assoc acc (varbinds_per_second float r ∷ []) (rates runs)),
      )
      by_failure [] e (inr (h, (cs, rest, k))) =
          inr ((λ a. h a.1), (cs, rest, rates_from-step acc r runs e ∙ k))

  score_of_rates :
      (order : WeakOrder lt) (s : Settings) (phase : Label) (runs : List Result) (ls : List F)
      → (ok (score_rates float s phase runs (none, ls)) ≡ true → ls ≢ [])
        × (ls ≢ []
            → (ok (score_rates float s phase runs (none, ls)) ≡ true)
              × IsQuantile lt ls (length ls / 2) (score_rates float s phase runs (none, ls)).score)
  unfolding score_rates median
  score_of_rates order s phase runs [] = ((λ h e. cc h), (λ h. absurd (h refl)))
  score_of_rates order s phase runs (l ∷ ls) = (
    (λ _ e. cc e),
    λ _. (refl, sort-IsQuantile lt order (l ∷ ls) (length (l ∷ ls) / 2) _ (omega arith)),
  )

  rates-ne-nil : (runs : List Result) → runs ≢ [] → rates runs ≢ []
  rates-ne-nil [] h e = h refl
  rates-ne-nil (r ∷ runs) h e = cc e

  -- If the rates are weakly ordered: a trial is clean exactly if it has a run and all its runs are
  -- clean. Its score is then a median of the rates of its runs: it is one of them, at most half of
  -- them are smaller, and at most half are greater.
  pub score_lem :
      WeakOrder lt
      → (s : Settings) (phase : Label) (runs : List Result)
      → let t = score float s phase runs in
        ((ok t ≡ true) ↔ ((runs ≢ []) × All IsClean runs))
        × (ok t ≡ true → IsQuantile lt (rates runs) (length (rates runs) / 2) t.score)
  unfolding score score_rates
  score_lem order s phase runs = elim (rates_from-RatesFound [] runs) [
    | inr (bad, (cs, rest, e)) ↦ rw (e, score) (((λ h. cc h), (λ h. absurd (bad h.1))), (λ h. cc h))
    | inl (clean, e) ↦
        let (some_runs, good) = score_of_rates order s phase runs (rates runs) in
        rw (e, score)
          (
            (
              (λ h. ((λ nil. some_runs h (ap rates nil)), clean)),
              (λ h. (good (rates-ne-nil runs h.0)).0),
            ),
            (λ h. (good (some_runs h)).1),
          )
  ]
