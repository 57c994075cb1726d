-- ===== src/Text/Signed.antt =====
-- The part of Go's strconv.Atoi that internal/workload/workload.go uses: whether a text is an int.
use snmptune.Prelude.{ℕ, ◌+◌, ◌-◌, ◌*◌, ◌^◌, Bool, false, ◌&&◌, [], ◌∷◌, leb, ◌==◌, if◌then◌else◌}
use snmptune.Text.{Text, is_digit}

-- The digits are all there is, and their value is at most the bound.
unfoldable pub bounded_digits : ℕ → ℕ → Text → Bool
bounded_digits bound n [] = leb n bound
bounded_digits bound n (c ∷ s) = is_digit c && bounded_digits bound (n * 10 + (c - b'0')) s

unfoldable pub magnitude : ℕ → Text → Bool
magnitude bound [] = false
magnitude bound (c ∷ s) = bounded_digits bound 0 (c ∷ s)

-- `strconv.Atoi(s)` returns no error: a sign or none, then digits, within 64 bits.
unfoldable pub is_int : Text → Bool
is_int [] = false
is_int (c ∷ s) =
    if c == b'-'
    then magnitude (2 ^ 63) s
    else if c == b'+'
    then magnitude (2 ^ 63 - 1) s
    else magnitude (2 ^ 63 - 1) (c ∷ s)
