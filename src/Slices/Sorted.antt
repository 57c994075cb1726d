-- ===== src/Slices/Sorted.antt =====
-- The sort puts the elements in order and keeps how often each kind stands in the list, so the
-- element at a position splits the list as a quantile does.
use snmptune.Prelude.{
  ℕ, ◌≡◌, refl, Bool, true, false, List, [], ◌∷◌, Bool-cases, inl, inr, arith, length, get_or, ap,
  sym, subst, ◌∙◌, All, ◌+◌, suc, zero, ◌≤◌, ◌<◌, ltb, if◌then◌else◌,
}
use snmptune.Slices.{insert, sort}

-- A strict order in which two elements may be equivalent.
pub record WeakOrder {ℓ} {A : Type ℓ} (lt : A → A → Bool) : Type ℓ where
  pub asymmetric : (a b : A) → lt a b ≡ true → lt b a ≡ false
  pub not_lt_trans : (a b c : A) → lt a b ≡ false → lt b c ≡ false → lt a c ≡ false

pub ltb-WeakOrder : WeakOrder ltb
ltb-WeakOrder = record {
  asymmetric = λ a b h. ground arith;
  not_lt_trans = λ a b c h k. ground arith;
}

-- How many elements pass a test.
module _ {ℓ} {A : Type ℓ} (p : A → Bool) where
  abbrev pub count : List A → ℕ
  count [] = 0
  count (x ∷ xs) = (if p x then 1 else 0) + count xs

  count-le-length : (xs : List A) → count xs ≤ length xs
  count-le-length [] = omega arith
  count-le-length (x ∷ xs) = ground (arith, count-le-length xs)

  count-insert : (lt : A → A → Bool) (a : A) (xs : List A) → count (insert lt a xs) ≡ count (a ∷ xs)
  unfolding insert
  count-insert lt a [] = refl
  count-insert lt a (x ∷ xs) = ground (arith, count-insert lt a xs)

  pub count-sort : (lt : A → A → Bool) (xs : List A) → count (sort lt xs) ≡ count xs
  unfolding sort
  count-sort lt [] = refl
  count-sort lt (x ∷ xs) =
      count-insert lt x (sort lt xs) ∙ ap (λ n. (if p x then 1 else 0) + n) (count-sort lt xs)

  count-get :
      (xs : List A) (k : ℕ) (d : A) → k < length xs → p (get_or xs k d) ≡ true → 1 ≤ count xs
  count-get [] k d h e = absurd (omega arith)
  count-get (x ∷ xs) zero d h e = ground arith
  count-get (x ∷ xs) (suc k) d h e = omega (arith, count-get xs k d (omega arith) e)

  count_none : (xs : List A) → All (λ x. p x ≡ false) xs → count xs ≡ 0
  count_none [] h = refl
  count_none (x ∷ xs) (hx, h) = ground (arith, count_none xs h)

count-true {ℓ} : {A : Type ℓ} (xs : List A) → count (λ _. true) xs ≡ length xs
count-true [] = refl
count-true (x ∷ xs) = omega (arith, count-true xs)

-- No element is less than one before it.
module _ {ℓ} {A : Type ℓ} (lt : A → A → Bool) where
  abbrev pub IsSorted : List A → Type 0
  IsSorted [] = Unit
  IsSorted (x ∷ xs) = All (λ y. lt y x ≡ false) xs × IsSorted xs

  pub length-sort : (xs : List A) → length (sort lt xs) ≡ length xs
  length-sort xs = sym (count-true (sort lt xs)) ∙ count-sort (λ _. true) lt xs ∙ count-true xs

module _ {ℓ} {A : Type ℓ} (lt : A → A → Bool) (order : WeakOrder lt) where
  open order use {asymmetric, not_lt_trans}

  All-insert :
      (b a : A) (xs : List A)
      → lt a b ≡ false
      → All (λ y. lt y b ≡ false) xs
      → All (λ y. lt y b ≡ false) (insert lt a xs)
  unfolding insert
  All-insert b a [] h _ = (h, tt)
  All-insert b a (x ∷ xs) h (hx, hs) = elim (Bool-cases (lt x a)) [
    | inl e ↦ rw e (hx, All-insert b a xs h hs)
    | inr e ↦ rw e (h, (hx, hs))
  ]

  All-trans :
      (a x : A) (xs : List A)
      → lt x a ≡ false
      → All (λ y. lt y x ≡ false) xs
      → All (λ y. lt y a ≡ false) xs
  All-trans a x [] h _ = tt
  All-trans a x (y ∷ xs) h (hy, hs) = (not_lt_trans y x a hy h, All-trans a x xs h hs)

  insert-IsSorted : (a : A) (xs : List A) → IsSorted lt xs → IsSorted lt (insert lt a xs)
  unfolding insert
  insert-IsSorted a [] _ = (tt, tt)
  insert-IsSorted a (x ∷ xs) (hx, hs) = elim (Bool-cases (lt x a)) [
    | inl e ↦ rw e (All-insert x a xs (asymmetric x a e) hx, insert-IsSorted a xs hs)
    | inr e ↦ rw e ((e, All-trans a x xs e hx), (hx, hs))
  ]

  pub sort-IsSorted : (xs : List A) → IsSorted lt (sort lt xs)
  unfolding sort
  sort-IsSorted [] = tt
  sort-IsSorted (x ∷ xs) = insert-IsSorted x (sort lt xs) (sort-IsSorted xs)

  lt_self : (a : A) → lt a a ≡ false
  lt_self a = elim (Bool-cases (lt a a)) [ inl e ↦ asymmetric a a e | inr e ↦ e ]

  All-get :
      (x d : A) (xs : List A) (k : ℕ)
      → k < length xs
      → All (λ y. lt y x ≡ false) xs
      → lt (get_or xs k d) x ≡ false
  All-get x d [] k h _ = absurd (omega arith)
  All-get x d (y ∷ xs) zero h (hy, _) = hy
  All-get x d (y ∷ xs) (suc k) h (_, hs) = All-get x d xs k (omega arith) hs

  -- At most `k` elements are less than the one at position `k`.
  count_below :
      (xs : List A) (k : ℕ) (d : A)
      → IsSorted lt xs
      → k < length xs
      → count (λ y. lt y (get_or xs k d)) xs ≤ k
  count_below [] k d _ h = absurd (omega arith)
  count_below (x ∷ xs) zero d (hx, _) h = ground (arith, lt_self x, count_none (λ y. lt y x) xs hx)
  count_below (x ∷ xs) (suc k) d (_, hs) h = ground (arith, count_below xs k d hs (omega arith))

  -- Of the elements behind it only some are greater.
  count_above :
      (xs : List A) (k : ℕ) (d : A)
      → IsSorted lt xs
      → k < length xs
      → count (λ y. lt (get_or xs k d) y) xs + k < length xs
  count_above [] k d _ h = absurd (omega arith)
  count_above (x ∷ xs) zero d (hx, _) h =
      ground (arith, lt_self x, count-le-length (λ y. lt x y) xs)
  count_above (x ∷ xs) (suc k) d (hx, hs) h =
      ground (arith, All-get x d xs k (omega arith) hx, count_above xs k d hs (omega arith))

-- The element stands in the list; at most `k` elements are less, and with it and the greater ones
-- at most `length xs - k` are left.
pub record IsQuantile {ℓ} {A : Type ℓ} (lt : A → A → Bool) (xs : List A) (k : ℕ) (a : A)
    : Type ℓ where
  pub present : (p : A → Bool) → p a ≡ true → 1 ≤ count p xs
  pub below : count (λ y. lt y a) xs ≤ k
  pub above : count (λ y. lt a y) xs + k < length xs

pub sort-IsQuantile {ℓ} :
    {A : Type ℓ} (lt : A → A → Bool) (order : WeakOrder lt) (xs : List A) (k : ℕ) (d : A)
    → k < length xs
    → IsQuantile lt xs k (get_or (sort lt xs) k d)
sort-IsQuantile lt order xs k d h =
    let s = sort lt xs in
    let small : k < length s = omega (arith, length-sort lt xs) in
    let v = get_or s k d in
    record {
      present = λ p e. subst (λ n. 1 ≤ n) (count-sort p lt xs) (count-get p s k d small e);
      below =
          subst (λ n. n ≤ k) (count-sort (λ y. lt y v) lt xs)
            (count_below lt order s k d (sort-IsSorted lt order xs) small);
      above = omega (
        arith,
        count-sort (λ y. lt v y) lt xs,
        length-sort lt xs,
        count_above lt order s k d (sort-IsSorted lt order xs) small,
      );
    }
