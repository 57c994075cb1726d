-- ===== src/Oid/Skip.antt =====
-- `SkipTarget` moves a walk forward: its target is the next sibling of the shared arcs.
use snmptune.Prelude.{
  ℕ, zero, suc, ◌+◌, ◌-◌, ◌∙◌, if◌then◌else◌, subst, ◌%◌, ◌≤◌, ◌<◌, ◌≡◌, ◌≢◌, ◌⊎◌, refl, sym, ap,
  some, [], ◌∷◌, ◌++◌, arith, inl, inr, Bool-cases, length, take, ◌==◌,
}
use snmptune.Text.{u32_mod, max_u32}
use snmptune.Oid.{Arcs, compare_arcs, shared, increment_last, skip_arcs}
use snmptune.Oid.Order.{Lt}

-- The arcs up to a position, and the arc there one larger, as a uint32.
abbrev pub next_sibling : Arcs → ℕ → Arcs
next_sibling common x = common ++ ((x + 1) % u32_mod) ∷ []

increment_last-append :
    (common : Arcs) (x : ℕ) → increment_last (common ++ x ∷ []) ≡ some (next_sibling common x)
unfolding increment_last
increment_last-append [] x = refl
increment_last-append (y ∷ []) x = refl
increment_last-append (y ∷ z ∷ common) x = rw (increment_last-append (z ∷ common) x)

-- A prefix of `n` arcs ends in the arc before `n`.
take_split :
    (a : Arcs) (n : ℕ)
    → n < length a
    → (common : Arcs) × (x : ℕ) × (rest : Arcs) × (take (suc n) a ≡ common ++ x ∷ [])
      × (a ≡ common ++ x ∷ rest)
      × (length common ≡ n)
take_split [] n h = absurd (omega arith)
take_split (x ∷ a) zero h = ([], x, a, refl, refl, refl)
take_split (x ∷ a) (suc n) h =
    let (common, y, rest, e, d, l) = take_split a n (omega arith) in
    (x ∷ common, y, rest, ap (λ r. x ∷ r) e, ap (λ r. x ∷ r) d, ap suc l)

pub Lt_next_sibling :
    (common : Arcs) (x : ℕ) (rest : Arcs)
    → x < max_u32
    → Lt (common ++ x ∷ rest) (next_sibling common x)
unfolding compare_arcs
Lt_next_sibling [] x rest h = ground arith
Lt_next_sibling (y ∷ common) x rest h = ground (arith, Lt_next_sibling common x rest h)

shared-le : (a b : Arcs) → shared a b ≤ length a
unfolding shared
shared-le [] b = omega arith
shared-le (x ∷ a) [] = omega arith
shared-le (x ∷ a) (y ∷ b) = ground (arith, shared-le a b)

-- Two lists that do not begin with the same arc.
abbrev pub Parts : Arcs → Arcs → Type 0
Parts [] b = Unit
Parts (x ∷ a) [] = Unit
Parts (x ∷ a) (y ∷ b) = x ≢ y

shared-Parts : (a b : Arcs) → shared a b ≡ 0 → Parts a b
unfolding shared
shared-Parts [] b e = tt
shared-Parts (x ∷ a) [] e = tt
shared-Parts (x ∷ a) (y ∷ b) e = λ p. ground arith

-- The arc `x` of `common ++ x ∷ rest` is the last of the arcs that it shares with `b`, or the first
-- arc where they share none.
abbrev pub IsLastShared : Arcs → ℕ → Arcs → Arcs → Type 0
IsLastShared common x rest b =
    ((rest' : Arcs) × (b ≡ common ++ x ∷ rest') × Parts rest rest')
    ⊎ ((common ≡ []) × Parts (x ∷ rest) b)

same_suc : (x y n k : ℕ) → (if x == y then suc n else 0) ≡ suc k → (x ≡ y) × (n ≡ k)
same_suc x y n k e = (ground arith, ground arith)

shared_up_to :
    (common : Arcs) (x : ℕ) (rest b : Arcs)
    → shared (common ++ x ∷ rest) b ≡ suc (length common)
    → (rest' : Arcs) × (b ≡ common ++ x ∷ rest') × Parts rest rest'
unfolding shared
shared_up_to [] x rest [] e = absurd (omega (arith, e))
shared_up_to [] x rest (y ∷ b) e =
    let (p, n) = same_suc x y (shared rest b) 0 e in (b, cc p, shared-Parts rest b n)
shared_up_to (z ∷ common) x rest [] e = absurd (omega (arith, e))
shared_up_to (z ∷ common) x rest (y ∷ b) e =
    let (p, n) = same_suc z y (shared (common ++ x ∷ rest) b) (suc (length common)) e in
    let (rest', d, parts) = shared_up_to common x rest b n in (rest', cc (p, d), parts)

none_shared :
    (common : Arcs) (x : ℕ) (rest b : Arcs)
    → shared (common ++ x ∷ rest) b ≡ 0
    → 1 ≡ suc (length common)
    → (common ≡ []) × Parts (x ∷ rest) b
none_shared [] x rest b e l = (refl, shared-Parts (x ∷ rest) b e)
none_shared (z ∷ common) x rest b e l = absurd (omega (arith, l))

shared-IsLastShared :
    (common : Arcs) (x : ℕ) (rest b : Arcs)
    → (if shared (common ++ x ∷ rest) b == 0 then 1 else shared (common ++ x ∷ rest) b)
      ≡ suc (length common)
    → IsLastShared common x rest b
shared-IsLastShared common x rest b e = elim (Bool-cases (shared (common ++ x ∷ rest) b == 0)) [
  | inl z ↦ inr (none_shared common x rest b (ground arith) (ground arith))
  | inr z ↦ inl (shared_up_to common x rest b (ground arith))
]

kept :
    (a b : Arcs)
    → a ≢ []
    → (k : ℕ) × (k < length a) × ((if shared a b == 0 then 1 else shared a b) ≡ suc k)
kept [] b h = absurd (h refl)
kept (x ∷ a) b _ = (shared (x ∷ a) b - 1, omega (arith, shared-le (x ∷ a) b), ground arith)

-- For a request with arcs, `SkipTarget` never panics. It splits the request at its last arc `x` of
-- those that it shares with the answer, behind which the two go on differently or end, or at its
-- first arc if they share none; it keeps what stands before `x` and adds one to it. If `x` is below
-- the largest uint32, the target sorts after everything under the kept arcs and `x`, the request
-- included.
pub skip_arcs_lem :
    (a b : Arcs)
    → a ≢ []
    → (common : Arcs) × (x : ℕ) × (rest : Arcs) × (a ≡ common ++ x ∷ rest)
      × (skip_arcs a b ≡ some (next_sibling common x))
      × IsLastShared common x rest b
      × (x < max_u32 → (below : Arcs) → Lt (common ++ x ∷ below) (next_sibling common x))
unfolding skip_arcs
skip_arcs_lem a b h =
    let (k, small, e) = kept a b h in
    let (common, x, rest, p, d, l) = take_split a k small in
    (
      common,
      x,
      rest,
      d,
      rw (e, p) (increment_last-append common x),
      shared-IsLastShared common x rest b (
          subst (λ r. (if shared r b == 0 then 1 else shared r b) ≡ suc (length common)) d
            (e ∙ ap suc (sym l))),
      λ h below. Lt_next_sibling common x below h,
    )

next_sibling-max_lt :
    (common rest : Arcs) → Lt (next_sibling common max_u32) (common ++ max_u32 ∷ rest)
unfolding compare_arcs
next_sibling-max_lt [] rest = refl
next_sibling-max_lt (y ∷ common) rest = ground (arith, next_sibling-max_lt common rest)

take_common :
    (common rest : Arcs) (x : ℕ)
    → take (suc (length common)) (common ++ x ∷ rest) ≡ common ++ x ∷ []
take_common [] rest x = refl
take_common (y ∷ common) rest x = ap (λ a. y ∷ a) (take_common common rest x)

skip_arcs_at :
    (a b : Arcs) (n : ℕ) → shared a b ≡ suc n → skip_arcs a b ≡ increment_last (take (suc n) a)
unfolding skip_arcs
skip_arcs_at a b n e = rw e (ap (λ k. increment_last (take k a)) (kept_suc n))
  where
    kept_suc : (n : ℕ) → (if suc n == 0 then 1 else suc n) ≡ suc n
    kept_suc n = ground arith

-- If the last arc that request and answer share is the largest uint32, the increment wraps to 0 and
-- the target of `SkipTarget` sorts before the request: the walk goes back.
pub skip_arcs_wraps :
    (common rest b : Arcs)
    → shared (common ++ max_u32 ∷ rest) b ≡ suc (length common)
    → (t : Arcs) × (skip_arcs (common ++ max_u32 ∷ rest) b ≡ some t)
      × Lt t (common ++ max_u32 ∷ rest)
skip_arcs_wraps common rest b e = (
  next_sibling common max_u32,
  skip_arcs_at (common ++ max_u32 ∷ rest) b (length common) e
      ∙ ap increment_last (take_common common rest max_u32)
      ∙ increment_last-append common max_u32,
  next_sibling-max_lt common rest,
)
