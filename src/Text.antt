-- ===== src/Text.antt =====
-- The parts of Go's strings and strconv packages that internal/oid/oid.go calls. A string is the
-- list of its bytes.
use Prim.Native.Char.{code}
use Prim.Native.String.{String}
use snmptune.Prelude.{
  ℕ, zero, suc, ◌+◌, ◌-◌, ◌*◌, ◌/◌, ◌%◌, ◌^◌, ◌≡◌, refl, Bool, true, false, Option, none, some,
  ◌&&◌, ◌||◌, List, [], ◌∷◌, ◌++◌, ltb, leb, ◌==◌, if◌then◌else◌,
}
pub mod Decimal
pub mod Parts
pub mod Equality
pub mod LastIndex
pub mod Signed

abbrev pub Text : Type 0
Text = List ℕ

-- The bytes of an ASCII literal.
abbrev pub codes : String → Text
codes String.[] = []
codes (String.◌∷◌ c s) = code c ∷ codes s

-- `s != ""`.
abbrev pub is_named : Text → Bool
is_named [] = false
is_named (c ∷ s) = true

-- `==` on strings.
unfoldable pub text_eq : Text → Text → Bool
text_eq [] [] = true
text_eq [] (d ∷ t) = false
text_eq (c ∷ s) [] = false
text_eq (c ∷ s) (d ∷ t) = c == d && text_eq s t

abbrev pub dot : ℕ
dot = b'.'

-- `strings.LastIndex(s, c)` of a text of one byte; `none` is -1.
unfoldable pub last_index : ℕ → Text → Option ℕ
last_index c [] = none
last_index c (x ∷ s) = elim (last_index c s) [
  | some i ↦ some (suc i)
  | none ↦ if x == c then some 0 else none
]

-- `strings.TrimPrefix(s, ".")`.
unfoldable pub trim_dot : Text → Text
trim_dot [] = []
trim_dot (c ∷ s) = if c == dot then s else c ∷ s

-- `strings.Split(s, ".")`: the parts, the one being read last; there is always one.
unfoldable pub split_from : Text → Text → List Text
split_from cur [] = cur ∷ []
split_from cur (c ∷ s) = elim (c == dot) [
  | true ↦ cur ∷ split_from [] s
  | false ↦ split_from (cur ++ c ∷ []) s
]

unfoldable pub split : Text → List Text
unfolding split_from
split s = split_from [] s

-- `strings.Join(parts, ".")`.
unfoldable pub join : List Text → Text
join [] = []
join (p ∷ []) = p
join (p ∷ q ∷ ps) = p ++ dot ∷ join (q ∷ ps)

abbrev pub u32_mod : ℕ
u32_mod = 2 ^ 32

abbrev pub max_u32 : ℕ
max_u32 = 2 ^ 32 - 1

abbrev pub is_digit : ℕ → Bool
is_digit c = leb b'0' c && leb c b'9'

-- The loop of `strconv.ParseUint(p, 10, 32)`: 0 on a syntax error, and the largest value on a range
-- error, whichever comes first.
unfoldable pub scan : ℕ → Text → ℕ
scan n [] = n
scan n (c ∷ s) =
    let m = n * 10 + (c - b'0') in
    let rest = scan m s in if is_digit c then (if ltb max_u32 m then max_u32 else rest) else 0

-- The value that `strconv.ParseUint(p, 10, 32)` returns beside its error.
unfoldable pub parse_uint : Text → ℕ
unfolding scan
parse_uint s = scan 0 s

-- The loop of `strconv.FormatUint(n, 10)`. A uint64 has at most 20 digits.
unfoldable pub digits : ℕ → ℕ → Text → Text
digits zero n out = out
digits (suc f) n out =
    let more = digits f (n / 10) ((b'0' + n % 10) ∷ out) in if n == 0 then out else more

unfoldable pub format_uint : ℕ → Text
format_uint n = if n == 0 then b'0' ∷ [] else digits 20 n []
