-- ===== src/Text/LastIndex.antt =====
-- The last place of a byte in a text.
use snmptune.Prelude.{
  ℕ, suc, ◌≡◌, ◌≢◌, ap, refl, none, some, [], ◌∷◌, ◌++◌, arith, length, take, drop, All,
}
use snmptune.Text.{Text, last_index}

-- The byte does not stand in the text.
abbrev pub Without : ℕ → Text → Type 0
Without c = All (λ x. x ≢ c)

pub last_index-Without : (c : ℕ) (s : Text) → Without c s → last_index c s ≡ none
unfolding last_index
last_index-Without c [] h = refl
last_index-Without c (x ∷ s) (hx, h) = rw (last_index-Without c s h, last_index) (ground arith)

pub last_index-append :
    (c : ℕ) (s rest : Text) → Without c rest → last_index c (s ++ c ∷ rest) ≡ some (length s)
unfolding last_index
last_index-append c [] rest h = rw (last_index-Without c rest h, last_index) (ground arith)
last_index-append c (x ∷ s) rest h = rw (last_index-append c s rest h, last_index) refl

pub take-length : (s rest : Text) → take (length s) (s ++ rest) ≡ s
take-length [] rest = refl
take-length (x ∷ s) rest = ap (λ t. x ∷ t) (take-length s rest)

pub drop-length : (s rest : Text) (c : ℕ) → drop (suc (length s)) (s ++ c ∷ rest) ≡ rest
drop-length [] rest c = refl
drop-length (x ∷ s) rest c = drop-length s rest c
