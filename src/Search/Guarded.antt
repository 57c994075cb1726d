-- ===== src/Search/Guarded.antt =====
-- The promises of the search about the trials it records, kept by every call of `trial`.
use snmptune.Prelude.{
  ℕ, ◌≤◌, ◌<◌, ◌≡◌, sym, subst, Bool, true, false, List, [], ◌∷◌, ◌++◌, arith, Bool-cases, inl, inr,
  length, length-append, All, All-mono, All-snoc,
}
use snmptune.Safety.{note_trial}
use snmptune.Safety.Limits.{HasRoom}
use snmptune.Slices.{contains}
use snmptune.Walk.{Settings, product, settings_eq}
use snmptune.Search.{Trial, Runner, ok}
use snmptune.Search.Trials.Effect.{Same, Added, none_added, one_added}
use snmptune.Search.Trials.Repeats.{Tried, not_tried, tried}

module _ {F : Type 0} where
  -- Behind a failed trial only smaller products are tried.
  abbrev pub IsGuarded : List (Trial F) → Type 0
  IsGuarded [] = Unit
  IsGuarded (t ∷ ts) =
      (ok t ≡ false → All (λ (u : Trial F). product u.settings < product t.settings) ts)
      × IsGuarded ts

  -- No setting is measured twice.
  abbrev pub IsDistinct : List (Trial F) → Type 0
  IsDistinct [] = Unit
  IsDistinct (t ∷ ts) =
      All (λ (u : Trial F). settings_eq t.settings u.settings ≡ false) ts × IsDistinct ts

  abbrev AllBelow : ℕ → List (Trial F) → Type 0
  AllBelow bound = All (λ t. product t.settings < bound)

  -- The trials so far are guarded, distinct, below the bound, and no more than the budget allows.
  pub record Sound (bound limit : ℕ) (r : Runner F) : Type 0 where
    pub guarded : IsGuarded r.out.trials
    pub distinct : IsDistinct r.out.trials
    pub below : AllBelow bound r.out.trials
    pub known : All (λ t. contains settings_eq r.measured t.settings ≡ true) r.out.trials
    pub counted : r.tracker.trials ≡ length r.out.trials
    pub bounded : r.tracker.budget.max_trials ≡ limit
    pub within : 0 < limit → length r.out.trials ≤ limit
    pub cap : r.ceiling ≤ bound

  -- The run may go on: the ceiling is at or below every failed product.
  abbrev pub Ready : Runner F → Type 0
  Ready r = All (λ t. ok t ≡ false → r.ceiling ≤ product t.settings) r.out.trials

settings_eq_sound : (s t : Settings) → settings_eq s t ≡ true → s ≡ t
unfolding settings_eq
settings_eq_sound s t h = ground arith

settings_eq_self : (s : Settings) → settings_eq s s ≡ true
unfolding settings_eq
settings_eq_self s = ground arith

-- A setting that was not measured differs from all that were.
fresh :
    (measured : List Settings) (s t : Settings)
    → contains settings_eq measured s ≡ false
    → contains settings_eq measured t ≡ true
    → settings_eq t s ≡ false
fresh measured s t new old = elim (Bool-cases (settings_eq t s)) [
  | inl e ↦ cc (settings_eq_sound t s e)
  | inr e ↦ e
]

known_cons :
    (measured : List Settings) (s t : Settings)
    → contains settings_eq measured t ≡ true
    → contains settings_eq (s ∷ measured) t ≡ true
unfolding contains
known_cons measured s t h = ground arith

known_self :
    (measured : List Settings) (s : Settings) → contains settings_eq (s ∷ measured) s ≡ true
unfolding contains
known_self measured s = ground (arith, settings_eq_self s)

module _ {F : Type 0} where
  IsGuarded-snoc :
      (ts : List (Trial F)) (u : Trial F)
      → IsGuarded ts
      → All (λ t. ok t ≡ false → product u.settings < product t.settings) ts
      → IsGuarded (ts ++ u ∷ [])
  IsGuarded-snoc [] u g h = ((λ _. tt), tt)
  IsGuarded-snoc (t ∷ ts) u (g, gs) (h, hs) =
      ((λ bad. All-snoc _ ts u (g bad) (h bad)), IsGuarded-snoc ts u gs hs)

  IsDistinct-snoc :
      (ts : List (Trial F)) (u : Trial F)
      → IsDistinct ts
      → All (λ t. settings_eq t.settings u.settings ≡ false) ts
      → IsDistinct (ts ++ u ∷ [])
  IsDistinct-snoc [] u g h = (tt, tt)
  IsDistinct-snoc (t ∷ ts) u (g, gs) (h, hs) = (All-snoc _ ts u g h, IsDistinct-snoc ts u gs hs)

  Sound-Same :
      {bound limit : ℕ} {r r' : Runner F} → Same r r' → Sound bound limit r → Sound bound limit r'
  Sound-Same {bound} {limit} {r} {r'} same h = record {
    guarded = subst IsGuarded (sym same.trials) h.guarded;
    distinct = subst IsDistinct (sym same.trials) h.distinct;
    below = subst (AllBelow bound) (sym same.trials) h.below;
    known = rw (same.trials, same.measured_before) h.known;
    counted = rw (same.trials, same.tracker) h.counted;
    bounded = rw same.tracker h.bounded;
    within = rw same.trials h.within;
    cap = omega (arith, same.lower, h.cap);
  }

  Ready-Same : {r r' : Runner F} → Same r r' → Ready r → Ready r'
  Ready-Same {r} {r'} same h =
      rw same.trials (All-mono _ _ r.out.trials (λ t k bad. omega (arith, k bad, same.lower)) h)

  -- One more trial, below the ceiling, at a setting that was not tried before.
  Sound-Added :
      {bound limit : ℕ} {s : Settings} {t : Trial F} {r r' : Runner F}
      → Added s t (record r { measured = s ∷ r.measured }) r'
      → product s < r.ceiling
      → contains settings_eq r.measured s ≡ false
      → HasRoom r.tracker
      → Ready r
      → Sound bound limit r
      → Sound bound limit r'
  unfolding note_trial
  Sound-Added {bound} {limit} {s} {t} {r} {r'} a small new room ready h = record {
    guarded = rw a.trials (
        IsGuarded-snoc r.out.trials t h.guarded (
          rw a.at_settings
            (All-mono _ _ r.out.trials (λ u k bad. omega (arith, k bad, small)) ready)));
    distinct = rw a.trials (
        IsDistinct-snoc r.out.trials t h.distinct (
          rw a.at_settings
            (All-mono _ _ r.out.trials (λ u k. fresh r.measured s u.settings new k) h.known)));
    below =
        rw a.trials
          (All-snoc _ r.out.trials t h.below (rw a.at_settings (omega (arith, small, h.cap))));
    known =
        rw (a.trials, a.measured_before)
          (All-snoc _ r.out.trials t
            (All-mono _ _ r.out.trials (λ u k. known_cons r.measured s u.settings k) h.known)
            (rw a.at_settings (known_self r.measured s)));
    counted =
        rw (a.trials, a.tracker) (omega (arith, h.counted, length-append r.out.trials (t ∷ [])));
    within = rw a.trials (λ some_bound. omega (
      arith,
      room (omega (arith, h.bounded)),
      h.counted,
      h.bounded,
      length-append r.out.trials (t ∷ []),
    ));
    bounded = rw a.tracker h.bounded;
    cap = omega (arith, a.lower, h.cap);
  }

  Ready-Added :
      {s : Settings} {t : Trial F} {r r' : Runner F}
      → Added s t (record r { measured = s ∷ r.measured }) r'
      → (ok t ≡ false → r'.ceiling ≤ product s)
      → Ready r
      → Ready r'
  Ready-Added {s} {t} {r} {r'} a low ready = rw a.trials (
      All-snoc _ r.out.trials t
        (All-mono _ _ r.out.trials (λ u k bad. omega (arith, k bad, a.lower)) ready)
        (rw a.at_settings low))

  Sound-marked :
      {bound limit : ℕ} (s : Settings) (r : Runner F)
      → Sound bound limit r
      → Sound bound limit (record r { measured = s ∷ r.measured })
  Sound-marked s r h = record {
    guarded = h.guarded;
    distinct = h.distinct;
    below = h.below;
    known = All-mono _ _ r.out.trials (λ u k. known_cons r.measured s u.settings k) h.known;
    counted = h.counted;
    bounded = h.bounded;
    within = h.within;
    cap = h.cap;
  }

  -- Every way through `trial` keeps the promises, and leaves the run ready unless it stops.
  pub Tried-Sound :
      {bound limit : ℕ} {s : Settings} {r r' : Runner F} {stop : Bool}
      → Tried s r stop r'
      → Sound bound limit r × Ready r
      → Sound bound limit r' × (stop ≡ false → Ready r')
  Tried-Sound (not_tried same) (h, ready) = (Sound-Same same h, λ _. Ready-Same same ready)
  Tried-Sound {s = s} {r = r} (tried small new room (none_added same)) (h, ready) =
      (Sound-Same same (Sound-marked s r h), λ _. Ready-Same same ready)
  Tried-Sound (tried small new room (one_added t a low)) (h, ready) =
      (Sound-Added a small new room ready h, λ going. Ready-Added a (low going) ready)
