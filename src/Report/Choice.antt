-- ===== src/Report/Choice.antt =====
-- What `recommend` chooses.
pub mod Notch
use snmptune.Prelude.{
  ℕ, ◌≤◌, ◌<◌, ◌≡◌, ◌≢◌, ◌∙◌, refl, sym, ap, Bool, true, false, ◌&&◌, Option, none, some, List, [],
  ◌∷◌, ◌⊎◌, inl, inr, arith, Bool-cases, Option-cases, All, Any, leb, leb→le, if◌then◌else◌,
}
use snmptune.Float.{FloatOps}
use snmptune.Slices.Sorted.{WeakOrder}
use snmptune.Walk.{Settings, product, settings_eq}
use snmptune.Search.{Trial, Outcome, ok, start, peak}
use snmptune.Search.Best.{IsBest, best_from_lem, peak_lem}
use snmptune.Report.{
  Recommendation, Reason, max_bytes, all_requested, fits_within, best_within, is_notch, notch_from,
  choose, fill_in, recommend,
}
use snmptune.Report.Choice.Notch.{IsHighest, notch_from_lem}

module _ (float : FloatOps) where
  open float use {F, lt}

  -- The chosen trial is a clean one of the outcome, with a product at or below the peak's. It is the
  -- peak, or the highest clean setting with a smaller product that fits in a datagram.
  pub record IsChosen (o : Outcome F) (limit : ℕ) (top chosen : Trial F) : Type 0 where
    pub clean : ok chosen ≡ true
    pub present : Any (λ t. t ≡ chosen) o.trials
    pub at_most : product chosen.settings ≤ product top.settings
    pub notch : (chosen ≡ top) ⊎ IsHighest float top limit o.trials chosen
    pub stays :
        all_requested o ≡ false
        → settings_eq top.settings start ≡ false
        → chosen ≡ top
        → All (λ t. is_notch float top limit t ≡ false) o.trials

  at_top :
      (o : Outcome F) (limit : ℕ) (top : Trial F)
      → ok top ≡ true
      → Any (λ t. t ≡ top) o.trials
      → (all_requested o ≡ false
          → settings_eq top.settings start ≡ false
          → All (λ t. is_notch float top limit t ≡ false) o.trials)
      → IsChosen o limit top top
  at_top o limit top c p s = record {
    clean = c;
    present = p;
    at_most = omega arith;
    notch = inl refl;
    stays = λ a b _. s a b;
  }

  not_itself : (b top : Trial F) → b ≡ top → ¬ (product b.settings < product top.settings)
  not_itself b top e h = omega (arith, ap (λ (t : Trial F). product t.settings) e)

  below_top :
      (o : Outcome F) (limit : ℕ) (top b : Trial F)
      → IsHighest float top limit o.trials b
      → IsChosen o limit top b
  below_top o limit top b h = record {
    clean = h.clean;
    present = h.present;
    at_most = omega (arith, h.smaller);
    notch = inr h;
    stays = λ _ _ e. absurd (not_itself b top e h.smaller);
  }

  choose_lem :
      (o : Outcome F) (limit : ℕ) (top : Trial F)
      → ok top ≡ true
      → Any (λ t. t ≡ top) o.trials
      → IsChosen o limit top (choose float o limit top).0
  unfolding choose
  choose_lem o limit top c p = elim (Bool-cases (all_requested o)) [
    | inl e ↦ rw e (at_top o limit top c p (λ h. cc))
    | inr e ↦ rw e (elim (Bool-cases (settings_eq top.settings start)) [
      | inl k ↦ rw k (at_top o limit top c p (λ _ h. cc))
      | inr k ↦ rw k (elim (notch_from_lem float top limit o.trials) [
        | inl (n, none_left) ↦ rw (n, choose) (at_top o limit top c p (λ _ _. none_left))
        | inr (b, n, h) ↦ rw (n, choose) (below_top o limit top b h)
      ])
    ])
  ]

  -- What a recommendation stands on.
  pub record IsJustified (o : Outcome F) (limit : ℕ) (rec : Recommendation F) : Type 0 where
    pub top : Trial F
    pub chosen : Trial F
    pub choice : IsChosen o limit top chosen
    pub settings : rec.settings ≡ chosen.settings
    pub peak_settings : rec.peak ≡ top.settings
    pub largest : rec.max_bytes ≡ max_bytes chosen
    pub whole :
        rec.fragmented ≡ false
        → IsBest float (fits_within float limit) o.trials top × (max_bytes chosen ≤ limit)
    pub broken :
        rec.fragmented ≡ true
        → IsBest float ok o.trials top
          × All (λ t. fits_within float limit t ≡ false) o.trials
          × (chosen ≡ top)

  fits_within_parts :
      (limit : ℕ) (t : Trial F)
      → fits_within float limit t ≡ true
      → (ok t ≡ true) × (max_bytes t ≤ limit)
  unfolding fits_within
  fits_within_parts limit t h = (ground arith, ground arith)

  -- A trial below the peak fits, and so does the peak itself where it has to.
  chosen_fits :
      (o : Outcome F) (limit : ℕ) (top chosen : Trial F)
      → IsChosen o limit top chosen
      → max_bytes top ≤ limit
      → max_bytes chosen ≤ limit
  chosen_fits o limit top chosen c h = elim (c.notch) [ inl e ↦ rw e h | inr n ↦ n.fits ]

  whole-IsJustified :
      (o : Outcome F) (limit : ℕ) (top : Trial F)
      → IsBest float (fits_within float limit) o.trials top
      → IsJustified o limit (fill_in float limit false top (choose float o limit top))
  unfolding fill_in
  whole-IsJustified o limit top best =
      let (c, small) = fits_within_parts limit top best.passes in
      let choice = choose_lem o limit top c best.present in
      record {
        top = top;
        chosen = (choose float o limit top).0;
        choice = choice;
        settings = refl;
        peak_settings = refl;
        largest = refl;
        whole = λ _. (best, chosen_fits o limit top _ choice small);
        broken = λ h. cc;
      }

  none_found :
      (P : Trial F → Bool) (b : Trial F) (ts : List (Trial F))
      → All (λ t. P t ≡ false) ts
      → Any (λ t. t ≡ b) ts
      → P b ≡ false
  none_found P b [] _ h = absurd h
  none_found P b (t ∷ ts) (n, _) (inl e) = sym (ap P e) ∙ n
  none_found P b (t ∷ ts) (_, ns) (inr h) = none_found P b ts ns h

  highest-fits_within :
      (limit : ℕ) (top : Trial F) (ts : List (Trial F)) (b : Trial F)
      → IsHighest float top limit ts b
      → fits_within float limit b ≡ true
  unfolding fits_within
  highest-fits_within limit top ts b h = let c = h.clean in let l = h.fits in ground arith

  -- A trial below the peak fits, so where none fits the peak is chosen.
  chosen_is_top :
      (o : Outcome F) (limit : ℕ) (top chosen : Trial F)
      → IsChosen o limit top chosen
      → All (λ t. fits_within float limit t ≡ false) o.trials
      → chosen ≡ top
  chosen_is_top o limit top chosen c none_fits = elim (c.notch) [
    | inl e ↦ e
    | inr n ↦
        let k = none_found (fits_within float limit) chosen o.trials none_fits n.present in
        let l = highest-fits_within limit top o.trials chosen n in cc
  ]

  broken-IsJustified :
      (o : Outcome F) (limit : ℕ) (top : Trial F)
      → IsBest float ok o.trials top
      → All (λ t. fits_within float limit t ≡ false) o.trials
      → IsJustified o limit (fill_in float limit true top (choose float o limit top))
  unfolding fill_in
  broken-IsJustified o limit top best none_fits =
      let choice = choose_lem o limit top best.passes best.present in
      record {
        top = top;
        chosen = (choose float o limit top).0;
        choice = choice;
        settings = refl;
        peak_settings = refl;
        largest = refl;
        whole = λ h. cc;
        broken = λ _. (best, none_fits, chosen_is_top o limit top _ choice none_fits);
      }

  -- If the scores are weakly ordered: `recommend` fails exactly if no trial is clean. Otherwise its
  -- settings are those of a clean trial of the outcome whose product does not exceed the peak's, and
  -- which is the peak or the highest clean trial below it that fits in one datagram; outside the try
  -- mode, and unless the peak is the default setting, the peak itself is chosen only if no such trial
  -- exists. Unless `fragmented` is set, the peak is the best clean trial within the limit and the
  -- largest response fits; where it is set, no clean trial fits, the peak is the best clean one, and
  -- the peak itself is chosen, without a step below it.
  pub recommend_lem :
      WeakOrder lt
      → (o : Outcome F) (limit : ℕ)
      → ((recommend float o limit ≡ none) × All (λ t. ok t ≡ false) o.trials)
        ⊎ ((rec : Recommendation F) × (recommend float o limit ≡ some rec)
            × IsJustified o limit rec)
  unfolding recommend best_within
  recommend_lem order o limit =
      elim (best_from_lem float order (fits_within float limit) o.trials) [
        | inr (t, e, best) ↦ inr (_, rw (e, recommend) refl, whole-IsJustified o limit t best)
        | inl (e, none_fits) ↦ elim (peak_lem float order o) [
          | inl (k, all_failed) ↦ inl (rw (e, k, recommend) refl, all_failed)
          | inr (t, k, best) ↦
              inr (_, rw (e, k, recommend) refl, broken-IsJustified o limit t best none_fits)
        ]
      ]
