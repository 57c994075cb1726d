-- ===== src/Command/Setting.antt =====
-- The `--try` flag of cmd/snmptune/main.go: `fmt.Sscanf(t, "%d:%d", ...)` into a uint32 and an int, for
-- an ASCII text.
use snmptune.Prelude.{
  ℕ, ◌+◌, ◌-◌, ◌*◌, ◌^◌, ◌||◌, ◌&&◌, Option, none, some, [], ◌∷◌, ltb, leb, ◌==◌, if◌then◌else◌,
}
use snmptune.Text.{Text, is_digit, u32_mod}
use snmptune.Walk.{Settings}

-- `SkipSpace`: a newline is an error.
unfoldable pub skip_space : Text → Option Text
skip_space [] = some []
skip_space (c ∷ s) =
    let rest = skip_space s in
    if c == 10 then none else if (leb 9 c && leb c 13) || c == b' ' then rest else some (c ∷ s)

-- All the digits that follow, and what is left.
unfoldable pub scan_digits : ℕ → Text → ℕ × Text
scan_digits n [] = (n, [])
scan_digits n (c ∷ s) =
    let rest = scan_digits (n * 10 + (c - b'0')) s in if is_digit c then rest else (n, c ∷ s)

-- There must be a digit.
unfoldable pub scan_number : Text → Option (ℕ × Text)
scan_number [] = none
scan_number (c ∷ s) = if is_digit c then some (scan_digits 0 (c ∷ s)) else none

unfoldable pub below : ℕ → Option (ℕ × Text) → Option (ℕ × Text)
below bound none = none
below bound (some (n, s)) = if ltb n bound then some (n, s) else none

-- `%d` into a uint32.
unfoldable pub scan_uint32 : Text → Option (ℕ × Text)
scan_uint32 s = elim (skip_space s) [ none ↦ none | some t ↦ below u32_mod (scan_number t) ]

-- A negative number is 0: the program refuses both.
unfoldable pub negative : Option (ℕ × Text) → Option (ℕ × Text)
negative none = none
negative (some (n, s)) = some (0, s)

unfoldable pub scan_signed : Text → Option (ℕ × Text)
scan_signed [] = none
scan_signed (c ∷ s) =
    if c == b'-'
    then negative (below (2 ^ 63 + 1) (scan_number s))
    else if c == b'+'
    then below (2 ^ 63) (scan_number s)
    else below (2 ^ 63) (scan_number (c ∷ s))

-- `%d` into an int.
unfoldable pub scan_int : Text → Option (ℕ × Text)
scan_int s = elim (skip_space s) [ none ↦ none | some t ↦ scan_signed t ]

-- Behind the first number: the colon and the second. What follows it is not read.
unfoldable pub after_reps : ℕ × Text → Option Settings
after_reps (r, []) = none
after_reps (r, c ∷ s) =
    if c == b':'
    then elim (scan_int s) [
      | none ↦ none
      | some (v, t) ↦ some (record { max_repetitions = r; max_vars_per_pdu = v })
    ]
    else none

unfoldable pub sscanf : Text → Option Settings
sscanf t = elim (scan_uint32 t) [ none ↦ none | some a ↦ after_reps a ]

-- The test of the loop over `tries`.
unfoldable pub setting_of : Text → Option Settings
setting_of t = elim (sscanf t) [
  | none ↦ none
  | some s ↦ if ltb s.max_repetitions 1 || ltb s.max_vars_per_pdu 1 then none else some s
]
