-- ===== src/Inventory/Parent.antt =====
-- `parentOf` of a target names the arcs that a walk skips.
use snmptune.Prelude.{ℕ, ◌+◌, ◌-◌, ◌%◌, ◌≤◌, ◌≡◌, refl, ap, [], ◌∷◌, ◌++◌, arith, All-append}
use snmptune.Text.{Text, u32_mod, max_u32}
use snmptune.Oid.{Arcs, parse, format}
use snmptune.Oid.Skip.{next_sibling}
use snmptune.Oid.RoundTrip.{parse-format}
use snmptune.Oid.Target.{Advance, snoc-ne-nil}
use snmptune.Inventory.{decrement_last, format_parent, parent_of}

decrement_last-next_sibling :
    (common : Arcs) (x : ℕ)
    → x ≤ max_u32
    → decrement_last (next_sibling common x) ≡ common ++ x ∷ []
unfolding decrement_last
decrement_last-next_sibling [] x h =
    ap (λ (n : ℕ). n ∷ [])
      (let e : ((x + 1) % u32_mod + u32_mod - 1) % u32_mod ≡ x = omega arith in e)
decrement_last-next_sibling (y ∷ []) x h =
    ap (λ (n : ℕ). y ∷ n ∷ [])
      (let e : ((x + 1) % u32_mod + u32_mod - 1) % u32_mod ≡ x = omega arith in e)
decrement_last-next_sibling (y ∷ z ∷ common) x h =
    ap (λ a. y ∷ a) (decrement_last-next_sibling (z ∷ common) x h)

format_parent-sibling :
    (o : Text) (common : Arcs) (x : ℕ)
    → format_parent o (next_sibling common x) ≡ format (decrement_last (next_sibling common x))
unfolding format_parent
format_parent-sibling o [] x = refl
format_parent-sibling o (y ∷ common) x = refl

-- For a target that `SkipTarget` computed for a request, `parentOf` gives back the arcs of the
-- request up to the one that was incremented, also where the increment wrapped. It is not one arc
-- shorter than the target.
pub parent_of-target :
    (request target : Text)
    → (adv : Advance request target) → parse (parent_of target) ≡ adv.common ++ adv.x ∷ []
unfolding parent_of
parent_of-target request target adv =
    rw
      (
        adv.to,
        format_parent-sibling target adv.common adv.x,
        decrement_last-next_sibling adv.common adv.x adv.fits,
      )
      (parse-format (adv.common ++ adv.x ∷ []) (snoc-ne-nil adv.common adv.x)
        (All-append _ adv.common _ adv.common_fits (adv.fits, tt)))
