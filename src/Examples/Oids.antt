-- ===== src/Examples/Oids.antt =====
-- The theorems about OIDs and sizes at concrete ones.
use snmptune.Prelude.{
  ℕ, ◌+◌, ◌-◌, ◌*◌, ◌/◌, ◌%◌, ◌≤◌, ◌<◌, ◌≡◌, ◌≢◌, ◌↔◌, refl, true, some, [], ◌∷◌, ◌++◌, arith,
  Ordering,
}
use snmptune.Text
use snmptune.Text.{Text, codes, max_u32}
use snmptune.Float.{fixed_point}
use snmptune.Oid
use snmptune.Oid.{
  Arcs, compare_arcs, has_prefix_arcs, shared, skip_arcs, skip_target, parse, format,
}
use snmptune.Oid.Order.{Lt, StartsWith, compare_arcs_total_order, has_prefix_arcs_iff}
use snmptune.Oid.RoundTrip.{parse-format}
use snmptune.Oid.Skip.{next_sibling, IsLastShared, skip_arcs_lem, skip_arcs_wraps}
use snmptune.Oid.Target.{Advance, skip_target_lem, skip_target-Advance}
use snmptune.Inventory.{parent_of}
use snmptune.Inventory.Parent.{parent_of-target}
use snmptune.Report.{datagram_limit, fragments, suggest_timeout, timeout_floor_ms}
use snmptune.Report.Datagram.{fragments_exact, fragments_one, suggest_timeout_lem}

abbrev request : Text
request = codes "1.3.6.1.2"

abbrev reply : Text
reply = codes "1.3.6.1.1"

abbrev target : Text
target = codes "1.3.6.2"

abbrev arcs : Arcs
arcs = 1 ∷ 3 ∷ 6 ∷ 1 ∷ 2 ∷ []

abbrev other_arcs : Arcs
other_arcs = 1 ∷ 3 ∷ 6 ∷ 1 ∷ 1 ∷ []

compare_arcs_total_order_example :
    ((compare_arcs other_arcs arcs ≡ Ordering.eq) ↔ (other_arcs ≡ arcs))
    × ((compare_arcs other_arcs arcs ≡ Ordering.gt) ↔ (compare_arcs arcs other_arcs ≡ Ordering.lt))
    × (compare_arcs other_arcs arcs ≡ Ordering.lt
        → compare_arcs arcs (2 ∷ []) ≡ Ordering.lt
        → compare_arcs other_arcs (2 ∷ []) ≡ Ordering.lt)
compare_arcs_total_order_example = compare_arcs_total_order other_arcs arcs (2 ∷ [])

has_prefix_arcs_iff_example :
    (has_prefix_arcs arcs (1 ∷ 3 ∷ []) ≡ true) ↔ StartsWith arcs (1 ∷ 3 ∷ [])
has_prefix_arcs_iff_example = has_prefix_arcs_iff arcs (1 ∷ 3 ∷ [])

parse-format_example : parse (format (4_294_967_295 ∷ 0 ∷ [])) ≡ 4_294_967_295 ∷ 0 ∷ []
parse-format_example =
    parse-format (4_294_967_295 ∷ 0 ∷ []) (λ e. cc) (omega arith, (omega arith, tt))

request-arcs : parse request ≡ arcs
unfolding Oid.parse Text.trim_dot Text.split Text.parse_uint
request-arcs = refl

request_has_arcs : parse request ≢ []
request_has_arcs e = cc request-arcs

skip_arcs_lem_example :
    (common : Arcs) × (x : ℕ) × (rest : Arcs) × (arcs ≡ common ++ x ∷ rest)
    × (skip_arcs arcs other_arcs ≡ some (next_sibling common x))
    × IsLastShared common x rest other_arcs
    × (x < max_u32 → (below : Arcs) → Lt (common ++ x ∷ below) (next_sibling common x))
skip_arcs_lem_example = skip_arcs_lem arcs other_arcs (λ e. cc)

skip_target_lem_example :
    (t : Text) × (skip_target request reply ≡ some t)
    × ((adv : Advance request t) × IsLastShared adv.common adv.x adv.rest (parse reply))
skip_target_lem_example = skip_target_lem request reply request_has_arcs

-- The request shares its arc 4294967295 with the answer.
wrapping_shared : shared ((1 ∷ []) ++ max_u32 ∷ 5 ∷ []) (1 ∷ max_u32 ∷ 4 ∷ []) ≡ 2
unfolding shared
wrapping_shared = refl

skip_arcs_wraps_example :
    (t : Arcs) × (skip_arcs ((1 ∷ []) ++ max_u32 ∷ 5 ∷ []) (1 ∷ max_u32 ∷ 4 ∷ []) ≡ some t)
    × Lt t ((1 ∷ []) ++ max_u32 ∷ 5 ∷ [])
skip_arcs_wraps_example = skip_arcs_wraps (1 ∷ []) (5 ∷ []) (1 ∷ max_u32 ∷ 4 ∷ []) wrapping_shared

target_text : skip_target request reply ≡ some target
unfolding skip_target skip_arcs shared Oid.increment_last format Oid.parse Text.trim_dot Text.split
    Text.parse_uint Text.join Text.format_uint Text.digits
target_text = refl

abbrev advance : Advance request target
advance = skip_target-Advance request reply target target_text

parent_of-target_example : parse (parent_of target) ≡ advance.common ++ advance.x ∷ []
parent_of-target_example = parent_of-target request target advance

fragments_exact_example :
    (3000 + 8 ≤ fragments 3000 1500 * (1500 - 20))
    × (fragments 3000 1500 * (1500 - 20) < 3000 + 8 + (1500 - 20))
fragments_exact_example = fragments_exact 3000 1500 (omega arith)

fragments_one_example : (fragments 1472 1500 ≡ 1) ↔ (1472 ≤ datagram_limit 1500)
fragments_one_example = fragments_one 1472 1500 (omega arith)

-- The fixed point arithmetic rounds up like the hypothesis says.
fixed_point_ceil :
    (a b : ℕ)
    → (a * 10000 * (b * 10000) / 10000 * 10000 / (100 * 10000) + 9999) / 10000 ≡ (a * b + 99) / 100
fixed_point_ceil a b = omega arith

suggest_timeout_lem_example :
    let t = suggest_timeout fixed_point 233_900_000 in
    (t % 100 ≡ 0)
    × (233_900_000 / 1_000_000 * 3 ≤ t)
    × (timeout_floor_ms ≤ t)
    × ((u : ℕ) → u % 100 ≡ 0 → 233_900_000 / 1_000_000 * 3 ≤ u → timeout_floor_ms ≤ u → t ≤ u)
    × (233_900_000 * 3 < (t + 3) * 1_000_000)
suggest_timeout_lem_example =
    suggest_timeout_lem fixed_point 233_900_000 (λ a b _. fixed_point_ceil a b) (omega arith)
