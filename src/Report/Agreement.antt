-- ===== src/Report/Agreement.antt =====
-- `Text` and `JSON` say the same of each trial.
use snmptune.Prelude.{
  ℕ, zero, suc, ◌+◌, ◌≤◌, ◌<◌, ◌*◌, ◌/◌, ◌%◌, ◌-◌, ◌≡◌, ◌↔◌, ◌∙◌, refl, sym, subst, Bool, true,
  false, none, some, List, [], ◌∷◌, inl, inr, arith, Bool-cases, ltb, ◌==◌, ==_iff, ltb→lt, lt→ltb,
  if◌then◌else◌,
}
use native.Mathlib.Nat.{div-add-mod, mod-lt}
use snmptune.Float.{FloatOps}
use snmptune.Search.{Trial, Outcome, ok}
use snmptune.Report.{datagram_limit, fragments, fill_pct, max_bytes, fits_within}
use snmptune.Report.Datagram.{fragments_exact, fragments_one}
use snmptune.Report.View.{Report, TrialView, best_place, is_at, trial_view, trial_views, view}
use snmptune.Report.Lines.{
  Mark, best, clean_fragmented, failed_fragmented, Color, plain, red, green, TrialLine, mark_of,
  paint, color_of, trial_line, trial_lines, document,
}
use snmptune.Report.Marks.{At, Place, best_place_passes}

abbrev pub shows_fragmented : Mark → Bool
shows_fragmented (clean_fragmented d) = true
shows_fragmented (failed_fragmented d f) = true
shows_fragmented _ = false

abbrev pub shows_best : Mark → Bool
shows_best best = true
shows_best _ = false

-- The colour that a mark calls for.
abbrev pub color_for : Mark → Color
color_for best = green
color_for (clean_fragmented d) = red
color_for (failed_fragmented d f) = red
color_for _ = plain

-- A line of `Text` and the entry of `JSON` for the same trial.
pub record Agree {F : Type 0} (colored : Bool) (l : TrialLine F) (v : TrialView F) : Type 0 where
  pub settings : l.settings ≡ v.settings
  pub fragmented : shows_fragmented l.mark ≡ v.fragmented
  pub best_one : shows_best l.mark ≡ v.best_unfragmented
  pub fill : l.fill ≡ v.fill_pct
  pub color : l.color ≡ (if colored then color_for l.mark else plain)

abbrev pub AllAgree : {F : Type 0} → Bool → List (TrialLine F) → List (TrialView F) → Type 0
AllAgree colored [] [] = Unit
AllAgree colored [] (v ∷ vs) = ⊥
AllAgree colored (l ∷ ls) [] = ⊥
AllAgree colored (l ∷ ls) (v ∷ vs) = Agree colored l v × AllAgree colored ls vs

module _ {F : Type 0} where
  mark_of-fragmented :
      (mtu : ℕ) (b : Bool) (t : Trial F)
      → shows_fragmented (mark_of mtu b t) ≡ ltb (datagram_limit mtu) (max_bytes t)
  unfolding mark_of
  mark_of-fragmented mtu b t = elim (Bool-cases (ok t)) [
    | inl e ↦ rw e (elim (Bool-cases (ltb (datagram_limit mtu) (max_bytes t))) [
      | inl k ↦ rw k refl
      | inr k ↦ rw k (elim (Bool-cases b) [ inl p ↦ rw p refl | inr p ↦ rw p refl ])
    ])
    | inr e ↦ rw e (elim (Bool-cases (ltb (datagram_limit mtu) (max_bytes t))) [
      | inl k ↦ rw k refl
      | inr k ↦ rw k refl
    ])
  ]

  -- The marked trial is clean and small, so the mark is not hidden by another.
  mark_of-best :
      (mtu : ℕ) (b : Bool) (t : Trial F)
      → (b ≡ true → (ok t ≡ true) × (ltb (datagram_limit mtu) (max_bytes t) ≡ false))
      → shows_best (mark_of mtu b t) ≡ b
  unfolding mark_of
  mark_of-best mtu true t h = rw ((h refl).0, (h refl).1) refl
  mark_of-best mtu false t h = elim (Bool-cases (ok t)) [
    | inl e ↦ rw e (elim (Bool-cases (ltb (datagram_limit mtu) (max_bytes t))) [
      | inl k ↦ rw k refl
      | inr k ↦ rw k refl
    ])
    | inr e ↦ rw e (elim (Bool-cases (ltb (datagram_limit mtu) (max_bytes t))) [
      | inl k ↦ rw k refl
      | inr k ↦ rw k refl
    ])
  ]

  color_of-mark :
      (colored : Bool) (mtu : ℕ) (b : Bool) (t : Trial F)
      → color_of colored mtu b t ≡ (if colored then color_for (mark_of mtu b t) else plain)
  unfolding color_of mark_of paint
  color_of-mark true mtu b t = ground arith
  color_of-mark false mtu b t = ground arith

module _ (float : FloatOps) where
  open float use {F}

  -- Every trial that the place names is clean and within the limit.
  abbrev FinePlace : ℕ → ℕ → Place float → List (Trial F) → Type 0
  FinePlace limit i place [] = Unit
  FinePlace limit i place (t ∷ ts) =
      (is_at float i place ≡ true → (ok t ≡ true) × (ltb limit (max_bytes t) ≡ false))
      × FinePlace limit (suc i) place ts

  FinePlace-At :
      (limit i : ℕ) (place : Place float) (ts : List (Trial F))
      → ((n : ℕ) (t : Trial F)
          → At ts n t
          → is_at float (i + n) place ≡ true
          → (ok t ≡ true) × (ltb limit (max_bytes t) ≡ false))
      → FinePlace limit i place ts
  FinePlace-At limit i place [] h = tt
  FinePlace-At limit i place (t ∷ ts) h = (
    λ e. h 0 t refl (subst (λ n. is_at float n place ≡ true) (omega arith) e),
    FinePlace-At limit (suc i) place ts
        (λ n u a e. h (suc n) u a (subst (λ n. is_at float n place ≡ true) (omega arith) e)),
  )

  At-≡ : (ts : List (Trial F)) (n : ℕ) (t u : Trial F) → At ts n t → At ts n u → t ≡ u
  At-≡ [] n t u a b = absurd a
  At-≡ (x ∷ ts) zero t u a b = sym a ∙ b
  At-≡ (x ∷ ts) (suc n) t u a b = At-≡ ts n t u a b

  fits_within-fine :
      (limit : ℕ) (t : Trial F)
      → fits_within float limit t ≡ true
      → (ok t ≡ true) × (ltb limit (max_bytes t) ≡ false)
  unfolding fits_within
  fits_within-fine limit t e = (
    let p : ok t ≡ true = ground arith in p,
    let q : ltb limit (max_bytes t) ≡ false = ground arith in q,
  )

  best_place-FinePlace :
      (o : Outcome F) (limit : ℕ) → FinePlace limit 0 (best_place float o limit) o.trials
  best_place-FinePlace o limit = by_place (best_place float o limit) refl
    where
      by_place : (p : Place float) → best_place float o limit ≡ p → FinePlace limit 0 p o.trials
      by_place none e = FinePlace-At limit 0 none o.trials (λ n t a q. absurd (cc q))
      by_place (some (k, x)) e =
          let (a, fits) = best_place_passes float o limit k x e in
          FinePlace-At limit 0 (some (k, x)) o.trials (λ n t b q.
            let same : t ≡ x =
              At-≡ o.trials k t x
                (subst (λ m. At o.trials m t)
                  ((==_iff n k).0
                    (subst (λ m. (m == k) ≡ true) (let z : 0 + n ≡ n = omega arith in z) q))
                  b)
                a in
            fits_within-fine limit t (rw same fits))

  trial_line-Agree :
      (colored : Bool) (mtu : ℕ) (b : Bool) (t : Trial F)
      → (b ≡ true → (ok t ≡ true) × (ltb (datagram_limit mtu) (max_bytes t) ≡ false))
      → Agree colored (trial_line float colored mtu b t) (trial_view float mtu b t)
  unfolding trial_line trial_view
  trial_line-Agree colored mtu b t h = record {
    settings = refl;
    fragmented = mark_of-fragmented mtu b t;
    best_one = mark_of-best mtu b t h;
    fill = refl;
    color = color_of-mark colored mtu b t;
  }

  trial_lines-AllAgree :
      (colored : Bool) (mtu : ℕ) (place : Place float) (i : ℕ) (ts : List (Trial F))
      → FinePlace (datagram_limit mtu) i place ts
      → AllAgree colored
          (trial_lines float colored mtu place i ts)
          (trial_views float mtu place i ts)
  unfolding trial_lines trial_views
  trial_lines-AllAgree colored mtu place i [] h = tt
  trial_lines-AllAgree colored mtu place i (t ∷ ts) (h, hs) = (
    trial_line-Agree colored mtu (is_at float i place) t h,
    trial_lines-AllAgree colored mtu place (suc i) ts hs,
  )

  -- For every report, the lines of `Text` and the entries of `JSON` stand for the same trials in the
  -- same order: each pair has the same settings and fill, the mark of the line names fragments exactly
  -- if the entry is flagged as fragmented, it names the best exactly if the entry is flagged so, and
  -- the line's colour is the one that its mark calls for.
  pub document-view :
      (r : Report F) → AllAgree r.color (document float r).trials (view float r).trials
  unfolding document view
  document-view r =
      trial_lines-AllAgree r.color r.mtu (best_place float r.outcome (datagram_limit r.mtu)) 0
        r.outcome.trials (best_place-FinePlace r.outcome (datagram_limit r.mtu))

  -- The quotient is at least 100 for more than the limit, and at most 100 otherwise.
  full_or_more :
      (q r limit half bytes : ℕ)
      → limit * q + r ≡ bytes * 100 + half
      → r < limit
      → limit < bytes
      → 100 ≤ q
  full_or_more q r limit half bytes e s h = grind arith

  full_or_less :
      (q r limit half bytes : ℕ)
      → limit * q + r ≡ bytes * 100 + half
      → half < limit
      → bytes ≤ limit
      → q ≤ 100
  full_or_less q r limit half bytes e s h = grind arith

  datagram_limit-pos : (mtu : ℕ) → 28 < mtu → 0 < datagram_limit mtu
  unfolding datagram_limit
  datagram_limit-pos mtu h = omega arith

  more_than_one : (n per x : ℕ) → x + 8 ≤ n * per → 1 ≤ n
  more_than_one zero per x h = absurd (omega arith)
  more_than_one (suc n) per x h = omega arith

  -- At an MTU above 28: `JSON` flags a trial as fragmented exactly if it counts more than one
  -- fragment for its largest response; the fill of a fragmented trial is at least 100, and that of
  -- another is at most 100.
  pub trial_view_lem :
      (mtu : ℕ) (b : Bool) (t : Trial F)
      → 28 < mtu
      → let v = trial_view float mtu b t in
        ((v.fragmented ≡ true) ↔ (1 < v.fragments))
        × (v.fragmented ≡ true → 100 ≤ v.fill_pct)
        × (v.fragmented ≡ false → v.fill_pct ≤ 100)
  unfolding trial_view fill_pct
  trial_view_lem mtu b t h = (
    (λ e. over (ltb→lt limit mb e), λ k. lt→ltb limit mb (many k)),
    λ e.
        full_or_more (fill_pct mb limit) (sum % limit) limit (limit / 2) mb (div-add-mod sum limit)
          (mod-lt sum pos) (ltb→lt limit mb e),
    λ e.
        full_or_less (fill_pct mb limit) (sum % limit) limit (limit / 2) mb (div-add-mod sum limit)
          (omega (arith, pos)) (small e),
  )
    where
      mb : ℕ
      mb = max_bytes t

      limit : ℕ
      limit = datagram_limit mtu

      sum : ℕ
      sum = mb * 100 + limit / 2

      pos : 0 < limit
      pos = datagram_limit-pos mtu h

      small : ltb limit mb ≡ false → mb ≤ limit
      small e = ground arith

      one : (fragments mb mtu ≡ 1) ↔ (mb ≤ limit)
      one = fragments_one mb mtu (omega arith)

      some_fragment : 1 ≤ fragments mb mtu
      some_fragment =
          more_than_one (fragments mb mtu) (mtu - 20) mb (fragments_exact mb mtu (omega arith)).0

      over : limit < mb → 1 < fragments mb mtu
      over k = elim (Bool-cases (ltb 1 (fragments mb mtu))) [
        | inl e ↦ ltb→lt 1 (fragments mb mtu) e
        | inr e ↦
            absurd
              (let fits : mb ≤ limit = one.0 (ground (arith, some_fragment)) in omega (arith, fits))
      ]

      many : 1 < fragments mb mtu → limit < mb
      many k = elim (Bool-cases (ltb limit mb)) [
        | inl e ↦ ltb→lt limit mb e
        | inr e ↦
            absurd (let single : fragments mb mtu ≡ 1 = one.1 (small e) in omega (arith, single))
      ]
