-- ===== src/Text/Decimal.antt =====
-- Decimal numbers: what `FormatUint` writes is read back by `ParseUint`.
use snmptune.Prelude.{
  ℕ, zero, suc, ◌+◌, ◌-◌, ◌*◌, ◌/◌, ◌%◌, ◌^◌, ◌≤◌, ◌<◌, ◌≡◌, ◌≢◌, ◌∙◌, refl, false, [], ◌∷◌, arith,
  ==_iff, Bool-cases, inl, inr, ◌==◌, All,
}
use native.Mathlib.Nat.{pow-suc}
use snmptune.Text.{Text, dot, max_u32, scan, parse_uint, digits, format_uint}

scan_digit :
    (n d : ℕ) (s : Text)
    → n * 10 + d ≤ max_u32
    → d < 10
    → scan n ((b'0' + d) ∷ s) ≡ scan (n * 10 + d) s
unfolding scan
scan_digit n d s h k = ground arith

pub tenth : (f n : ℕ) → n < 10 ^ suc f → n / 10 < 10 ^ f
tenth f n h = omega (arith, pow-suc 10 f)

last_digit : (n : ℕ) (out : Text) → n ≤ max_u32 → scan (n / 10) ((b'0' + n % 10) ∷ out) ≡ scan n out
last_digit n out k =
    let e : n / 10 * 10 + n % 10 ≡ n = omega arith in
    scan_digit (n / 10) (n % 10) out (omega arith) (omega arith) ∙ rw e refl

-- Reading what the loop wrote goes on with what it had written before.
scan-digits :
    (f n : ℕ) (out : Text) → n < 10 ^ f → n ≤ max_u32 → scan 0 (digits f n out) ≡ scan n out
unfolding digits
scan-digits zero n out h k = let e : n ≡ 0 = omega arith in rw e refl
scan-digits (suc f) n out h k = elim (Bool-cases (n == 0)) [
  | inl e ↦ rw e (rw ((==_iff n 0).0 e) refl)
  | inr e ↦ rw e (
      scan-digits f (n / 10) ((b'0' + n % 10) ∷ out) (tenth f n h) (omega arith)
      ∙ last_digit n out k)
]

scan-le : (s : Text) (n : ℕ) → n ≤ max_u32 → scan n s ≤ max_u32
unfolding scan
scan-le [] n h = h
scan-le (c ∷ s) n h = ground (arith, scan-le s (n * 10 + (c - b'0')))

pub parse_uint-le : (s : Text) → parse_uint s ≤ max_u32
unfolding parse_uint
parse_uint-le s = scan-le s 0 (omega arith)

-- Every uint32 is read back from its decimal print.
pub parse_uint-format_uint : (n : ℕ) → n ≤ max_u32 → parse_uint (format_uint n) ≡ n
unfolding parse_uint format_uint
parse_uint-format_uint n h = elim (Bool-cases (n == 0)) [
  | inl e ↦ rw e (unfold scan in omega (arith, (==_iff n 0).0 e))
  | inr e ↦ rw e (scan-digits 20 n [] (omega arith) h ∙ unfold scan in refl)
]

-- A part holds digits only, so it has no dot.
abbrev pub NoDot : Text → Type 0
NoDot = All (λ c. c ≢ dot)

digits-NoDot : (f n : ℕ) (out : Text) → NoDot out → NoDot (digits f n out)
unfolding digits
digits-NoDot zero n out h = h
digits-NoDot (suc f) n out h =
    let rest = digits-NoDot f (n / 10) ((b'0' + n % 10) ∷ out) (omega arith, h) in
    elim (Bool-cases (n == 0)) [ inl e ↦ rw e h | inr e ↦ rw e rest ]

pub format_uint-NoDot : (n : ℕ) → NoDot (format_uint n)
unfolding format_uint
format_uint-NoDot n = elim (Bool-cases (n == 0)) [
  | inl e ↦ rw e (omega arith)
  | inr e ↦ rw e (digits-NoDot 20 n [] tt)
]

digits-ne-nil : (f n : ℕ) (out : Text) → out ≢ [] → digits f n out ≢ []
unfolding digits
digits-ne-nil zero n out h = h
digits-ne-nil (suc f) n out h =
    let rest = digits-ne-nil f (n / 10) ((b'0' + n % 10) ∷ out) (λ e. cc) in
    elim (Bool-cases (n == 0)) [ inl e ↦ rw e h | inr e ↦ rw e rest ]

digits_positive : (f n : ℕ) → (n == 0) ≡ false → digits (suc f) n [] ≢ []
unfolding digits
digits_positive f n e = rw e (digits-ne-nil f (n / 10) ((b'0' + n % 10) ∷ []) (λ h. cc))

pub format_uint-ne-nil : (n : ℕ) → format_uint n ≢ []
unfolding format_uint
format_uint-ne-nil n = elim (Bool-cases (n == 0)) [
  | inl e ↦ rw e (λ h. cc)
  | inr e ↦ rw e (digits_positive 19 n e)
]
