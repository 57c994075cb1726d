-- ===== src/Text/Equality.antt =====
-- `==` on texts, and `slices.Contains` of them.
use snmptune.Prelude.{
  ◌≡◌, ◌≢◌, ◌↔◌, refl, true, false, List, [], ◌∷◌, arith, Bool-cases, inl, inr, Any, All, All-snoc,
  ◌++◌,
}
use snmptune.Text.{Text, text_eq}
use snmptune.Slices.{contains}

eq_of_text_eq : (s t : Text) → text_eq s t ≡ true → s ≡ t
unfolding text_eq
eq_of_text_eq [] [] h = refl
eq_of_text_eq [] (d ∷ t) h = cc
eq_of_text_eq (c ∷ s) [] h = cc
eq_of_text_eq (c ∷ s) (d ∷ t) h = ground (arith, eq_of_text_eq s t)

pub text_eq_self : (s : Text) → text_eq s s ≡ true
unfolding text_eq
text_eq_self [] = refl
text_eq_self (c ∷ s) = ground (arith, text_eq_self s)

pub text_eq_iff : (s t : Text) → (text_eq s t ≡ true) ↔ (s ≡ t)
text_eq_iff s t = (eq_of_text_eq s t, λ e. rw e (text_eq_self t))

-- The text is among them.
abbrev pub Among : Text → List Text → Type 0
Among s = Any (λ t. t ≡ s)

contains_sound : (ts : List Text) (s : Text) → contains text_eq ts s ≡ true → Among s ts
unfolding contains
contains_sound [] s h = cc
contains_sound (t ∷ ts) s h = elim (Bool-cases (text_eq t s)) [
  | inl e ↦ inl (eq_of_text_eq t s e)
  | inr e ↦ inr (contains_sound ts s (rw e at h))
]

contains_complete : (ts : List Text) (s : Text) → Among s ts → contains text_eq ts s ≡ true
unfolding contains
contains_complete [] s h = absurd h
contains_complete (t ∷ ts) s (inl e) = rw (e, text_eq_self s) refl
contains_complete (t ∷ ts) s (inr h) = ground (arith, contains_complete ts s h)

pub contains_iff : (ts : List Text) (s : Text) → (contains text_eq ts s ≡ true) ↔ Among s ts
contains_iff ts s = (contains_sound ts s, contains_complete ts s)

pub not_contains : (ts : List Text) (s : Text) → contains text_eq ts s ≡ false → ¬ Among s ts
not_contains ts s h a = cc (contains_complete ts s a)

pub Among-snoc : (s t : Text) (ts : List Text) → Among s ts → Among s (ts ++ t ∷ [])
Among-snoc s t [] h = absurd h
Among-snoc s t (u ∷ ts) (inl e) = inl e
Among-snoc s t (u ∷ ts) (inr h) = inr (Among-snoc s t ts h)

pub Among-last : (s : Text) (ts : List Text) → Among s (ts ++ s ∷ [])
Among-last s [] = inl refl
Among-last s (u ∷ ts) = inr (Among-last s ts)

-- No text stands twice.
abbrev pub IsDistinct : List Text → Type 0
IsDistinct [] = Unit
IsDistinct (t ∷ ts) = All (λ u. t ≢ u) ts × IsDistinct ts

not_in-All : (s : Text) (ts : List Text) → ¬ Among s ts → All (λ t. t ≢ s) ts
not_in-All s [] h = tt
not_in-All s (t ∷ ts) h = ((λ e. h (inl e)), not_in-All s ts (λ a. h (inr a)))

IsDistinct-snoc :
    (ts : List Text) (s : Text) → IsDistinct ts → All (λ t. t ≢ s) ts → IsDistinct (ts ++ s ∷ [])
IsDistinct-snoc [] s h k = (tt, tt)
IsDistinct-snoc (t ∷ ts) s (h, hs) (k, ks) = (All-snoc _ ts s h k, IsDistinct-snoc ts s hs ks)

pub not_contains-IsDistinct :
    (ts : List Text) (s : Text)
    → contains text_eq ts s ≡ false
    → IsDistinct ts
    → IsDistinct (ts ++ s ∷ [])
not_contains-IsDistinct ts s new h =
    IsDistinct-snoc ts s h (not_in-All s ts (not_contains ts s new))

pub text_ne : (s t : Text) → text_eq s t ≡ false → s ≢ t
text_ne s t h e = cc ((text_eq_iff s t).1 e)
