-- ===== src/Agent/Served.antt =====
-- An agent that keeps to the protocol: it answers a GetBulk with what its OIDs have behind the cursor.
use snmptune.Prelude.{
  ℕ, ◌<◌, ◌≡◌, ◌≢◌, refl, ◌∙◌, subst, true, false, none, List, [], ◌∷◌, arith, All, inl, inr,
  Bool-cases, if◌then◌else◌,
}
use snmptune.Text.{Text}
use snmptune.Oid.{compare, is_gt}
use snmptune.Oid.Order.{Lt_trans, Before, compare_arcs_gt, compare_arcs_lt, Lt_irrefl}
use snmptune.Agent.{Varbind, Environment, is_end}

-- The OIDs that sort after the cursor.
unfoldable pub later : List Text → Text → List Text
later [] cursor = []
later (o ∷ os) cursor =
    let rest = later os cursor in if is_gt (compare o cursor) then o ∷ rest else rest

abbrev pub IsSorted : List Text → Type 0
IsSorted [] = Unit
IsSorted (o ∷ os) = All (Before o) os × IsSorted os

-- A response about these OIDs: one value for each in turn, ends of the view behind the last; it may
-- stop early.
abbrev pub IsAnswer : List Text → List Varbind → Type 0
IsAnswer os [] = Unit
IsAnswer [] (vb ∷ vbs) = is_end vb.value ≡ true
IsAnswer (o ∷ os) (vb ∷ vbs) = (vb.oid ≡ o) × (is_end vb.value ≡ false) × IsAnswer os vbs

-- The agent has these OIDs, the context stays alive, and every GetBulk with a repetition is answered
-- with at least one varbind.
pub record Serves (env : Environment) (mib : List Text) : Type 0 where
  pub sorted : IsSorted mib
  pub alive : (w : Environment.World env) → (Environment.ctx_err env w).0 ≡ none
  pub answered :
      (o : Text) (n : ℕ) (w : Environment.World env)
      → 0 < n
      → (Environment.get_bulk env (o ∷ []) n w).0.error ≡ none
  pub some_answer :
      (o : Text) (n : ℕ) (w : Environment.World env)
      → 0 < n
      → (Environment.get_bulk env (o ∷ []) n w).0.response.varbinds ≢ []
  pub answer :
      (o : Text) (n : ℕ) (w : Environment.World env)
      → 0 < n
      → IsAnswer (later mib o) (Environment.get_bulk env (o ∷ []) n w).0.response.varbinds

pub is_gt→Before : (o c : Text) → is_gt (compare o c) ≡ true → Before c o
unfolding compare
is_gt→Before o c e = compare_arcs_gt _ _ (ground arith)

pub Before→is_gt : (o c : Text) → Before c o → is_gt (compare o c) ≡ true
unfolding compare
Before→is_gt o c h = rw (compare_arcs_lt _ _ h) refl

pub later_all : (os : List Text) (c : Text) → All (Before c) os → later os c ≡ os
unfolding later
later_all [] c h = refl
later_all (o ∷ os) c (p, ps) = rw (Before→is_gt o c p, later_all os c ps) refl

pub later-All : (os : List Text) (c : Text) → All (Before c) (later os c)
unfolding later
later-All [] c = tt
later-All (o ∷ os) c = elim (Bool-cases (is_gt (compare o c))) [
  | inl e ↦ rw e (is_gt→Before o c e, later-All os c)
  | inr e ↦ rw e (later-All os c)
]

All-Before_trans :
    (c o : Text) (os : List Text) → Before c o → All (Before o) os → All (Before c) os
All-Before_trans c o [] h k = tt
All-Before_trans c o (p ∷ os) h (k, ks) = (Lt_trans _ _ _ h k, All-Before_trans c o os h ks)

pub later-IsSorted : (os : List Text) (c : Text) → IsSorted os → IsSorted (later os c)
unfolding later
later-IsSorted [] c h = tt
later-IsSorted (o ∷ os) c (k, h) = elim (Bool-cases (is_gt (compare o c))) [
  | inl e ↦ rw (e, later_all os c (All-Before_trans c o os (is_gt→Before o c e) k)) (k, h)
  | inr e ↦ rw e (later-IsSorted os c h)
]

not_gt : (o c : Text) → ¬ Before c o → is_gt (compare o c) ≡ false
not_gt o c h = elim (Bool-cases (is_gt (compare o c))) [
  | inl e ↦ absurd (h (is_gt→Before o c e))
  | inr e ↦ e
]

later-head : (x : Text) (xs : List Text) → All (Before x) xs → later (x ∷ xs) x ≡ xs
unfolding later
later-head x xs k = rw (not_gt x x (Lt_irrefl _), later_all xs x k) refl

-- Behind the first OID after the cursor are the ones after that.
pub later-next :
    (mib : List Text) (c o : Text) (os : List Text)
    → IsSorted mib
    → later mib c ≡ o ∷ os
    → later mib o ≡ os
unfolding later
later-next [] c o os h e = cc
later-next (x ∷ xs) c o os (k, h) e = elim (Bool-cases (is_gt (compare x c))) [
  | inl g ↦
      let all : later xs c ≡ xs = later_all xs c (All-Before_trans c x xs (is_gt→Before x c g) k) in
      here (rw (g, all) at e)
  | inr g ↦
      let rest : later xs c ≡ o ∷ os = rw g at e in
      let first : Before c o = (subst (All (Before c)) rest (later-All xs c)).0 in
      rw (not_gt x o (λ b. cc (Before→is_gt x c (Lt_trans _ _ _ first b))))
        (later-next xs c o os h rest)
]
  where
    here : x ∷ xs ≡ o ∷ os → later (x ∷ xs) o ≡ os
    here q =
        let same : x ≡ o = cc in
        let rest : xs ≡ os = cc in
        subst (λ y. later (x ∷ xs) y ≡ os) same (later-head x xs k ∙ rest)
