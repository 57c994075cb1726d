-- ===== src/Command/Exits.antt =====
-- The exit code of `run` in cmd/snmptune/main.go behind a search.
use snmptune.Prelude.{
  ℕ, ◌≡◌, ◌≢◌, ◌↔◌, ◌⊎◌, inl, inr, refl, sym, ◌∙◌, Bool, true, false, Option, none, some, List, [],
  ◌∷◌, arith, Bool-cases, Option-cases, All, Any,
}
use mathlib.Core.Option.{some-ne-none}
use snmptune.Text.{Text, codes, text_eq}
use snmptune.Agent.{Environment}
use snmptune.Float.{FloatOps}
use snmptune.Slices.Sorted.{WeakOrder}
use snmptune.Inventory.{Inventory}
use snmptune.Search.{Trial, Outcome, Runner, ok}
use snmptune.Report.{datagram_limit, recommend}
use snmptune.Report.Choice.{recommend_lem}
use snmptune.Report.Lines.{document, opennms}
use snmptune.Report.View.{Report, view, build}
use snmptune.Command.Options.{Options}
use snmptune.Command.Prepare.{Warning}
use snmptune.Command.Main.{
  reported, Printed, json, definition, text, Host, exit_code, print_report, make_report,
  after_search,
}

true_ne_false : true ≢ false
true_ne_false e = cc

zero_ne_one : ¬ (◌≡◌ {A = ℕ} 1 0)
zero_ne_one e = omega arith

module _ (env : Environment) (float : FloatOps) (host : Host env float) where
  open env use {World}
  open float use {F, lt}
  open host use {marshal_error}

  reported-code :
      (o : Outcome F) (r : Report F) (p : Printed F)
      → (exit_code (reported o r p) ≡ 0) ↔ ((o.aborted ≡ none) × (r.recommendation ≢ none))
  unfolding exit_code
  reported-code o r p = elim (Option-cases o.aborted) [
    | inr (a, e) ↦ rw (e, exit_code) (λ h. cc, λ (h, k). absurd (some-ne-none a h))
    | inl e ↦
        rw (e, exit_code)
          (elim (Option-cases r.recommendation) [
            | inr (c, k) ↦ rw (k, exit_code) (λ h. (refl, some-ne-none c), λ h. refl)
            | inl k ↦ rw (k, exit_code) (λ h. cc, λ (h, g). absurd (g refl))
          ])
  ]

  -- The report can be printed: it is not asked for as JSON, or marshalling it succeeds.
  abbrev pub IsPrintable : Options F → Report F → Type 0
  IsPrintable o r = (o.json_out ≡ false) ⊎ (marshal_error (view float r) ≡ none)

  print_report-code :
      (fuel steps : ℕ) (o : Options F) (outcome : Outcome F) (r : Report F)
      → (exit_code (print_report env float host fuel steps o outcome r) ≡ 0)
        ↔ (((outcome.aborted ≡ none) × (r.recommendation ≢ none)) × IsPrintable o r)
  unfolding print_report exit_code
  print_report-code fuel steps o outcome r =
      by_format o.json_out refl (marshal_error (view float r)) refl
    where
      by_format :
          (b : Bool)
          → o.json_out ≡ b
          → (m : Option Text) → marshal_error (view float r) ≡ m
          → (exit_code (print_report env float host fuel steps o outcome r) ≡ 0)
            ↔ (((outcome.aborted ≡ none) × (r.recommendation ≢ none)) × IsPrintable o r)
      by_format true e (some x) k = (
        λ h. absurd (zero_ne_one (rw (print_report, exit_code, e, k) at h)),
        λ (h, p). elim p [
          | inl q ↦ absurd (true_ne_false (sym e ∙ q))
          | inr q ↦ absurd (some-ne-none x (sym k ∙ q))
        ],
      )
      by_format true e none k = (
        λ h. (
          (reported-code outcome r (json (view float r))).0 (rw (print_report, e, k) at h),
          inr k,
        ),
        λ (h, p). rw (print_report, e, k) ((reported-code outcome r (json (view float r))).1 h),
      )
      by_format false e m k = elim (Bool-cases (text_eq o.format (codes "opennms"))) [
        | inl f ↦ (
          λ h. (
            (reported-code outcome r (definition (opennms r))).0 (rw (print_report, e, f) at h),
            inl e,
          ),
          λ (h, p).
              rw (print_report, e, f) ((reported-code outcome r (definition (opennms r))).1 h),
        )
        | inr f ↦ (
          λ h. (
            (reported-code outcome r (text (document float r))).0 (rw (print_report, e, f) at h),
            inl e,
          ),
          λ (h, p).
              rw (print_report, e, f) ((reported-code outcome r (text (document float r))).1 h),
        )
      ]

  clean_chosen :
      (ts : List (Trial F)) (c : Trial F)
      → ok c ≡ true
      → Any (λ t. t ≡ c) ts
      → Any (λ t. ok t ≡ true) ts
  clean_chosen [] c h a = absurd a
  clean_chosen (t ∷ ts) c h (inl e) = inl (rw e h)
  clean_chosen (t ∷ ts) c h (inr a) = inr (clean_chosen ts c h a)

  none_clean : (ts : List (Trial F)) → All (λ t. ok t ≡ false) ts → ¬ Any (λ t. ok t ≡ true) ts
  none_clean [] h a = absurd a
  none_clean (t ∷ ts) (p, ps) (inl e) = true_ne_false (sym e ∙ p)
  none_clean (t ∷ ts) (p, ps) (inr a) = none_clean ts ps a

  recommend_iff :
      WeakOrder lt
      → (o : Outcome F) (limit : ℕ)
      → (recommend float o limit ≢ none) ↔ Any (λ t. ok t ≡ true) o.trials
  recommend_iff order o limit = elim (recommend_lem float order o limit) [
    | inl (e, h) ↦ (λ k. absurd (k e), λ a. absurd (none_clean o.trials h a))
    | inr (rec, e, j) ↦
        let c = j.choice in
        (λ k. clean_chosen o.trials j.chosen c.clean c.present, λ a. rw e (some-ne-none rec))
  ]

  -- If the scores are weakly ordered: behind a search, the exit code is 0 exactly if the search was not
  -- aborted, at least one of its trials is clean, and the report could be printed, that is, it was not
  -- asked for as JSON or marshalling it gave no error.
  pub after_search-code :
      WeakOrder lt
      → (fuel steps : ℕ) (o : Options F) (shown : Inventory) (warnings : List Warning)
        (r : Runner F) (w : World)
      → (exit_code (after_search env float host fuel steps o shown warnings (r, w)).0 ≡ 0) ↔ (
          ((r.out.aborted ≡ none) × Any (λ t. ok t ≡ true) r.out.trials)
          × IsPrintable o (make_report env float host fuel steps o shown r.out))
  unfolding after_search make_report build
  after_search-code order fuel steps o shown warnings r w =
      let report = make_report env float host fuel steps o shown r.out in
      let code = print_report-code fuel steps o r.out report in
      let rec = recommend_iff order r.out (datagram_limit o.mtu) in
      (
        λ h. (((code.0 h).0.0, rec.0 (made (code.0 h).0.1)), (code.0 h).1),
        λ ((a, c), p). code.1 ((a, unmade (rec.1 c)), p),
      )
    where
      made :
          (make_report env float host fuel steps o shown r.out).recommendation ≢ none
          → recommend float r.out (datagram_limit o.mtu) ≢ none
      made h = h

      unmade :
          recommend float r.out (datagram_limit o.mtu) ≢ none
          → (make_report env float host fuel steps o shown r.out).recommendation ≢ none
      unmade h = h
