-- ===== src/Oid/RoundTrip.antt =====
-- `Format` followed by `Parse`.
use snmptune.Prelude.{
  ◌≤◌, ◌≡◌, ◌≢◌, ◌∙◌, refl, ap, List, [], ◌∷◌, ◌++◌, map, arith, append-nil, All,
}
use snmptune.Text.{Text, dot, trim_dot, split, join, parse_uint, format_uint, max_u32}
use snmptune.Text.Decimal.{
  parse_uint-le, NoDot, parse_uint-format_uint, format_uint-NoDot, format_uint-ne-nil,
}
use snmptune.Text.Parts.{split-join}
use snmptune.Oid.{Arcs, parse_parts, parse, format}

-- Every arc is a uint32.
abbrev pub Fits : Arcs → Type 0
Fits = All (λ x. x ≤ max_u32)

map-Fits : (ps : List Text) → Fits (map parse_uint ps)
map-Fits [] = tt
map-Fits (p ∷ ps) = (parse_uint-le p, map-Fits ps)

parse_parts-Fits : (s : Text) → Fits (parse_parts s)
unfolding parse_parts
parse_parts-Fits [] = tt
parse_parts-Fits (c ∷ s) = map-Fits (split (c ∷ s))

pub parse-Fits : (s : Text) → Fits (parse s)
unfolding parse
parse-Fits s = parse_parts-Fits (trim_dot s)

map_parse-format : (a : Arcs) → Fits a → map parse_uint (map format_uint a) ≡ a
map_parse-format [] _ = refl
map_parse-format (x ∷ a) (h, hs) = rw (parse_uint-format_uint x h, map_parse-format a hs)

map-NoDot : (a : Arcs) → All NoDot (map format_uint a)
map-NoDot [] = tt
map-NoDot (x ∷ a) = (format_uint-NoDot x, map-NoDot a)

-- A text that starts with no dot is left alone, and is split if it is not empty.
parse_of_NoDot :
    (p rest : Text) → NoDot p → p ≢ [] → parse (p ++ rest) ≡ map parse_uint (split (p ++ rest))
unfolding parse parse_parts trim_dot
parse_of_NoDot [] rest h e = absurd (e refl)
parse_of_NoDot (c ∷ p) rest (hc, h) e = ground arith

parse-join :
    (p : Text) (ps : List Text)
    → NoDot p
    → p ≢ []
    → parse (join (p ∷ ps)) ≡ map parse_uint (split (join (p ∷ ps)))
unfolding join
parse-join p [] h e = rw (← append-nil p) (parse_of_NoDot p [] h e)
parse-join p (q ∷ ps) h e = parse_of_NoDot p (dot ∷ join (q ∷ ps)) h e

-- `Parse` reads back every non-empty list of uint32 arcs that `Format` wrote.
pub parse-format : (a : Arcs) → a ≢ [] → Fits a → parse (format a) ≡ a
unfolding format
parse-format [] h _ = absurd (h refl)
parse-format (x ∷ a) _ h =
    parse-join (format_uint x) (map format_uint a) (format_uint-NoDot x) (format_uint-ne-nil x)
    ∙ ap (map parse_uint) (split-join (map format_uint (x ∷ a)) (λ e. cc) (map-NoDot (x ∷ a)))
    ∙ map_parse-format (x ∷ a) h
