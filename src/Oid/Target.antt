-- ===== src/Oid/Target.antt =====
-- What the target of `SkipTarget` means once its text is parsed again.
use snmptune.Prelude.{
  ℕ, ◌≤◌, ◌<◌, ◌≡◌, ◌≢◌, ◌∙◌, refl, sym, none, some, [], ◌∷◌, ◌++◌, arith, All-append, subst,
}
use mathlib.Core.Option.{some-injective, some-ne-none}
use snmptune.Text.{Text, max_u32}
use snmptune.Oid.{Arcs, parse, format, shared, increment_last, skip_arcs, skip_target}
use snmptune.Oid.Order.{Lt}
use snmptune.Oid.Skip.{next_sibling, IsLastShared, skip_arcs_lem}
use snmptune.Oid.RoundTrip.{Fits, parse-Fits, parse-format}

Fits-prefix : (p q : Arcs) → Fits (p ++ q) → Fits p
Fits-prefix [] q h = tt
Fits-prefix (x ∷ p) q (hx, h) = (hx, Fits-prefix p q h)

Fits-middle : (p : Arcs) (x : ℕ) (q : Arcs) → Fits (p ++ x ∷ q) → x ≤ max_u32
Fits-middle [] x q (h, _) = h
Fits-middle (y ∷ p) x q (_, h) = Fits-middle p x q h

pub snoc-ne-nil : (p : Arcs) (x : ℕ) → p ++ x ∷ [] ≢ []
snoc-ne-nil [] x e = cc
snoc-ne-nil (y ∷ p) x e = cc

-- The target is the next sibling of an arc `x` of the request, and sorts after the request unless
-- `x` is the largest uint32.
pub record Advance (request target : Text) : Type 0 where
  pub common : Arcs
  pub x : ℕ
  pub rest : Arcs
  pub from : parse request ≡ common ++ x ∷ rest
  pub to : parse target ≡ next_sibling common x
  pub fits : x ≤ max_u32
  pub common_fits : Fits common
  pub forward : x < max_u32 → Lt (parse request) (parse target)

module _ (request answer : Text) (common : Arcs) (x : ℕ) (rest : Arcs)
    (d : parse request ≡ common ++ x ∷ rest)
    (e : skip_arcs (parse request) (parse answer) ≡ some (next_sibling common x))
    (last : IsLastShared common x rest (parse answer))
    (lt : x < max_u32 → (below : Arcs) → Lt (common ++ x ∷ below) (next_sibling common x)) where
  request-Fits : Fits (common ++ x ∷ rest)
  request-Fits = subst Fits d (parse-Fits request)

  parse-next_sibling : parse (format (next_sibling common x)) ≡ next_sibling common x
  parse-next_sibling =
      parse-format (next_sibling common x) (snoc-ne-nil common _)
        (All-append _ common _ (Fits-prefix common _ request-Fits) (omega arith))

  skip_target-format : skip_target request answer ≡ some (format (next_sibling common x))
  unfolding skip_target
  skip_target-format = rw (e, skip_target)

  format-Advance :
      (adv : Advance request (format (next_sibling common x))) × IsLastShared adv.common adv.x
        adv.rest
        (parse answer)
  format-Advance = (
    record {
      common = common;
      x = x;
      rest = rest;
      from = d;
      to = parse-next_sibling;
      fits = Fits-middle common x rest request-Fits;
      common_fits = Fits-prefix common _ request-Fits;
      forward = λ small. rw (d, parse-next_sibling) (lt small rest);
    },
    last,
  )

-- `SkipTarget` on texts. For a request with at least one arc it does not panic: it returns a target
-- whose text parses to the request cut behind an arc `x`, with `x` incremented as a uint32, and which
-- sorts after the request unless `x` is the largest uint32. The arc `x` is the last of the arcs that
-- request and answer share from the front, or the first arc of the request if they share none.
pub skip_target_lem :
    (request answer : Text)
    → parse request ≢ []
    → (target : Text) × (skip_target request answer ≡ some target)
      × ((adv : Advance request target) × IsLastShared adv.common adv.x adv.rest (parse answer))
skip_target_lem request answer h =
    let (common, x, rest, d, e, last, lt) = skip_arcs_lem (parse request) (parse answer) h in
    (
      format (next_sibling common x),
      skip_target-format request answer common x rest d e last lt,
      format-Advance request answer common x rest d e last lt,
    )

skip_target_nil : (request answer : Text) → parse request ≡ [] → skip_target request answer ≡ none
unfolding skip_target skip_arcs shared increment_last
skip_target_nil request answer e = rw (e, skip_target) refl

-- Without arcs in the request there is no target, so every target advances.
pub skip_target-Advance :
    (request answer target : Text)
    → skip_target request answer ≡ some target
    → Advance request target
skip_target-Advance request answer target e = by_arcs (parse request) refl
  where
    by_arcs : (a : Arcs) → parse request ≡ a → Advance request target
    by_arcs [] d = absurd (some-ne-none target (sym e ∙ skip_target_nil request answer d))
    by_arcs (y ∷ a) d =
        let (t, k, (adv, _)) = skip_target_lem request answer (λ n. cc) in
        subst (Advance request) (some-injective t target (sym k ∙ e)) adv

pub target-ne-nil : (request target : Text) → Advance request target → parse target ≢ []
target-ne-nil request target adv e = snoc-ne-nil adv.common _ (sym adv.to ∙ e)
