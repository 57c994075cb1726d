-- ===== src/Report/Choice/Notch.antt =====
-- The loop of `recommend` for the setting below the peak.
use snmptune.Prelude.{
  ℕ, ◌≤◌, ◌<◌, ◌≡◌, refl, true, false, ◌&&◌, none, some, List, [], ◌∷◌, ◌⊎◌, inl, inr, arith,
  Bool-cases, All, Any,
}
use snmptune.Float.{FloatOps}
use snmptune.Walk.{product}
use snmptune.Search.{Trial, ok}
use snmptune.Report.{max_bytes, is_notch, is_higher, notch_from}

module _ (float : FloatOps) where
  open float use {F, lt}

  -- A clean trial that fits in a datagram, with a product below the peak's and at or above that of
  -- every other such trial.
  pub record IsHighest (top : Trial F) (limit : ℕ) (ts : List (Trial F)) (b : Trial F)
      : Type 0 where
    pub clean : ok b ≡ true
    pub smaller : product b.settings < product top.settings
    pub fits : max_bytes b ≤ limit
    pub present : Any (λ t. t ≡ b) ts
    pub highest :
        All (λ t. is_notch float top limit t ≡ true → product t.settings ≤ product b.settings) ts

  module _ (top : Trial F) (limit : ℕ) where
    record Climbs (b0 : Trial F) (ts : List (Trial F)) (b : Trial F) : Type 0 where
      found : notch_from float top limit (some b0) ts ≡ some b
      passes : is_notch float top limit b ≡ true
      present : (b0 ≡ b) ⊎ Any (λ t. t ≡ b) ts
      kept : product b0.settings ≤ product b.settings
      highest :
          All (λ t. is_notch float top limit t ≡ true → product t.settings ≤ product b.settings) ts

    higher-le :
        (t b0 : Trial F)
        → (is_notch float top limit t && is_higher float t (some b0)) ≡ true
        → (is_notch float top limit t ≡ true) × (product b0.settings ≤ product t.settings)
    unfolding is_higher
    higher-le t b0 h = (ground arith, ground arith)

    not_higher-le :
        (t b0 : Trial F)
        → (is_notch float top limit t && is_higher float t (some b0)) ≡ false
        → is_notch float top limit t ≡ true
        → product t.settings ≤ product b0.settings
    unfolding is_higher
    not_higher-le t b0 h k = ground arith

    climbs :
        (b0 : Trial F) (ts : List (Trial F))
        → is_notch float top limit b0 ≡ true
        → (b : Trial F) × Climbs b0 ts b
    unfolding notch_from
    climbs b0 [] h = (
      b0,
      record { found = refl; passes = h; present = inl refl; kept = omega arith; highest = tt },
    )
    climbs b0 (t ∷ ts) h =
        elim (Bool-cases (is_notch float top limit t && is_higher float t (some b0))) [
          | inl e ↦
              let (n, up) = higher-le t b0 e in
              let (b, i) = climbs t ts n in
              (
                b,
                record {
                  found = rw e i.found;
                  passes = i.passes;
                  present = inr i.present;
                  kept = omega (arith, i.kept);
                  highest = (λ _. i.kept, i.highest);
                },
              )
          | inr e ↦
              let (b, i) = climbs b0 ts h in
              (
                b,
                record {
                  found = rw e i.found;
                  passes = i.passes;
                  present = elim (i.present) [ inl p ↦ inl p | inr p ↦ inr (inr p) ];
                  kept = i.kept;
                  highest = (λ p. omega (arith, not_higher-le t b0 e p, i.kept), i.highest);
                },
              )
        ]

    is_notch_parts :
        (b : Trial F)
        → is_notch float top limit b ≡ true
        → (ok b ≡ true) × (product b.settings < product top.settings) × (max_bytes b ≤ limit)
    unfolding is_notch
    is_notch_parts b h = (ground arith, ground arith, ground arith)

    pub notch_from_lem :
        (ts : List (Trial F))
        → ((notch_from float top limit none ts ≡ none)
            × All (λ t. is_notch float top limit t ≡ false) ts)
          ⊎ ((b : Trial F) × (notch_from float top limit none ts ≡ some b)
              × IsHighest top limit ts b)
    unfolding notch_from is_higher
    notch_from_lem [] = inl (refl, tt)
    notch_from_lem (t ∷ ts) = elim (Bool-cases (is_notch float top limit t)) [
      | inl e ↦
          let (b, i) = climbs t ts e in
          let (c, s, m) = is_notch_parts b i.passes in
          inr (
            b,
            rw e i.found,
            record {
              clean = c;
              smaller = s;
              fits = m;
              present = i.present;
              highest = (λ _. i.kept, i.highest);
            },
          )
      | inr e ↦ elim (notch_from_lem ts) [
        | inl (n, all) ↦ inl (rw e n, (e, all))
        | inr (b, n, i) ↦ inr (
          b,
          rw e n,
          record {
            clean = i.clean;
            smaller = i.smaller;
            fits = i.fits;
            present = inr i.present;
            highest = (λ p. cc, i.highest);
          },
        )
      ]
    ]
