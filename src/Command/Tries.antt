-- ===== src/Command/Tries.antt =====
-- The settings that `--try` of cmd/snmptune/main.go accepts.
use snmptune.Prelude.{
  ℕ, zero, suc, ◌+◌, ◌-◌, ◌*◌, ◌/◌, ◌%◌, ◌^◌, ◌≤◌, ◌<◌, ◌≡◌, ◌∙◌, refl, ap, true, false, some, [],
  ◌∷◌, ◌++◌, arith, inl, inr, Bool-cases, ◌==◌, ==_iff,
}
use snmptune.Text.{Text, is_digit, u32_mod, digits, format_uint}
use snmptune.Text.Decimal.{tenth}
use snmptune.Command.Setting.{
  skip_space, scan_digits, scan_number, below, scan_uint32, scan_signed, scan_int, after_reps,
  sscanf, setting_of,
}

-- The digits of a number, then a text that starts with none.
abbrev pub NoDigit : Text → Type 0
NoDigit [] = Unit
NoDigit (c ∷ s) = is_digit c ≡ false

scan_digit :
    (n d : ℕ) (s : Text) → d < 10 → scan_digits n ((b'0' + d) ∷ s) ≡ scan_digits (n * 10 + d) s
unfolding scan_digits
scan_digit n d s h =
    let e : is_digit (b'0' + d) ≡ true = ground arith in
    let k : n * 10 + (b'0' + d - b'0') ≡ n * 10 + d = omega arith in rw (e, k) refl

last_digit : (n : ℕ) (s : Text) → scan_digits (n / 10) ((b'0' + n % 10) ∷ s) ≡ scan_digits n s
last_digit n s =
    let e : n / 10 * 10 + n % 10 ≡ n = omega arith in
    scan_digit (n / 10) (n % 10) s (omega arith) ∙ rw e refl

scan_digits-digits :
    (f n : ℕ) (out rest : Text)
    → n < 10 ^ f
    → scan_digits 0 (digits f n out ++ rest) ≡ scan_digits n (out ++ rest)
unfolding digits
scan_digits-digits zero n out rest h = let e : n ≡ 0 = omega arith in rw e refl
scan_digits-digits (suc f) n out rest h = elim (Bool-cases (n == 0)) [
  | inl e ↦ rw e (rw ((==_iff n 0).0 e) refl)
  | inr e ↦ rw e (
      scan_digits-digits f (n / 10) ((b'0' + n % 10) ∷ out) rest (tenth f n h)
      ∙ last_digit n (out ++ rest))
]

scan_digits-NoDigit : (n : ℕ) (s : Text) → NoDigit s → scan_digits n s ≡ (n, s)
unfolding scan_digits
scan_digits-NoDigit n [] h = refl
scan_digits-NoDigit n (c ∷ s) h = rw h refl

-- A text that starts with a digit.
abbrev Leads : Text → Type 0
Leads [] = ⊥
Leads (c ∷ s) = is_digit c ≡ true

digits-Leads : (f n : ℕ) (out : Text) → Leads out → Leads (digits f n out)
unfolding digits
digits-Leads zero n out h = h
digits-Leads (suc f) n out h =
    let rest = digits-Leads f (n / 10) ((b'0' + n % 10) ∷ out) (ground arith) in
    elim (Bool-cases (n == 0)) [ inl e ↦ rw e h | inr e ↦ rw e rest ]

some_digits-Leads : (f n : ℕ) → (n == 0) ≡ false → Leads (digits (suc f) n [])
unfolding digits
some_digits-Leads f n e = rw e (digits-Leads f (n / 10) ((b'0' + n % 10) ∷ []) (ground arith))

format_uint-Leads : (n : ℕ) → Leads (format_uint n)
unfolding format_uint
format_uint-Leads n = elim (Bool-cases (n == 0)) [
  | inl e ↦ rw e refl
  | inr e ↦ rw e (some_digits-Leads 19 n e)
]

append-Leads : (s t : Text) → Leads s → Leads (s ++ t)
append-Leads [] t h = absurd h
append-Leads (c ∷ s) t h = h

scan_number-Leads : (s : Text) → Leads s → scan_number s ≡ some (scan_digits 0 s)
unfolding scan_number
scan_number-Leads [] h = absurd h
scan_number-Leads (c ∷ s) h = rw h refl

skip_space-Leads : (s : Text) → Leads s → skip_space s ≡ some s
unfolding skip_space
skip_space-Leads [] h = absurd h
skip_space-Leads (c ∷ s) h = ground arith

scan_signed-Leads : (s : Text) → Leads s → scan_signed s ≡ below (2 ^ 63) (scan_number s)
unfolding scan_signed
scan_signed-Leads [] h = absurd h
scan_signed-Leads (c ∷ s) h = ground arith

scan_digits-format_uint :
    (n : ℕ) (rest : Text)
    → n < 10 ^ 20
    → NoDigit rest
    → scan_digits 0 (format_uint n ++ rest) ≡ (n, rest)
unfolding format_uint
scan_digits-format_uint n rest h k = elim (Bool-cases (n == 0)) [
  | inl e ↦
      let z : n ≡ 0 = (==_iff n 0).0 e in
      rw e (scan_digit 0 0 rest (omega arith) ∙ scan_digits-NoDigit 0 rest k ∙ rw z refl)
  | inr e ↦ rw e (scan_digits-digits 20 n [] rest h ∙ scan_digits-NoDigit n rest k)
]

-- What is printed is read back, up to what follows it.
scan_number-format_uint :
    (n : ℕ) (rest : Text)
    → n < 10 ^ 20
    → NoDigit rest
    → scan_number (format_uint n ++ rest) ≡ some (n, rest)
scan_number-format_uint n rest h k =
    scan_number-Leads (format_uint n ++ rest)
      (append-Leads (format_uint n) rest (format_uint-Leads n))
    ∙ ap (λ a. some a) (scan_digits-format_uint n rest h k)

below-some : (bound n : ℕ) (s : Text) → n < bound → below bound (some (n, s)) ≡ some (n, s)
unfolding below
below-some bound n s h = ground arith

scan_uint32-format_uint :
    (n : ℕ) (rest : Text)
    → n < u32_mod
    → NoDigit rest
    → scan_uint32 (format_uint n ++ rest) ≡ some (n, rest)
unfolding scan_uint32
scan_uint32-format_uint n rest h k =
    rw
      (
        skip_space-Leads (format_uint n ++ rest)
            (append-Leads (format_uint n) rest (format_uint-Leads n)),
        scan_uint32,
        scan_number-format_uint n rest (omega arith) k,
      )
      (below-some u32_mod n rest h)

scan_int-format_uint :
    (n : ℕ) (rest : Text)
    → n < 2 ^ 63
    → NoDigit rest
    → scan_int (format_uint n ++ rest) ≡ some (n, rest)
unfolding scan_int
scan_int-format_uint n rest h k =
    let leads = append-Leads (format_uint n) rest (format_uint-Leads n) in
    rw
      (
        skip_space-Leads (format_uint n ++ rest) leads,
        scan_int,
        scan_signed-Leads (format_uint n ++ rest) leads,
        scan_number-format_uint n rest (omega arith) k,
      )
      (below-some (2 ^ 63) n rest h)

-- A setting R:V with R from 1 below 2^32 and V from 1 below 2^63 is read as it is printed, whatever
-- follows it that does not start with a digit.
pub setting_of-format_uint :
    (r v : ℕ) (rest : Text)
    → 1 ≤ r
    → r < u32_mod
    → 1 ≤ v
    → v < 2 ^ 63
    → NoDigit rest
    → setting_of (format_uint r ++ b':' ∷ (format_uint v ++ rest))
      ≡ some (record { max_repetitions = r; max_vars_per_pdu = v })
unfolding setting_of sscanf after_reps
setting_of-format_uint r v rest r_pos r_small v_pos v_small k =
    rw
      (
        scan_uint32-format_uint r (b':' ∷ (format_uint v ++ rest)) r_small refl,
        sscanf,
        setting_of,
        scan_int-format_uint v rest v_small k,
        after_reps,
      )
      (ground arith)
