-- ===== src/Command/TryBounds.antt =====
-- The bounds of the settings that `--try` of cmd/snmptune/main.go accepts.
use snmptune.Prelude.{
  ℕ, ◌+◌, ◌^◌, ◌≤◌, ◌<◌, ◌≡◌, sym, ◌||◌, Option, none, some, [], ◌∷◌, arith, inl, inr, Bool-cases,
  Option-cases, ltb, ltb→lt, subst, if◌then◌else◌, ◌==◌,
}
use mathlib.Core.Option.{some-ne-none, some-injective}
use snmptune.Text.{Text, u32_mod}
use snmptune.Walk.{Settings}
use snmptune.Command.Setting.{
  skip_space, scan_number, below, negative, scan_uint32, scan_signed, scan_int, after_reps, sscanf,
  setting_of,
}

abbrev IsBelow : ℕ → Option (ℕ × Text) → Type 0
IsBelow bound none = Unit
IsBelow bound (some (n, s)) = n < bound

below-IsBelow : (bound : ℕ) (o : Option (ℕ × Text)) → IsBelow bound (below bound o)
unfolding below
below-IsBelow bound none = tt
below-IsBelow bound (some (n, s)) = elim (Bool-cases (ltb n bound)) [
  | inl e ↦ rw e (ltb→lt n bound e)
  | inr e ↦ rw e tt
]

negative-IsBelow : (o : Option (ℕ × Text)) → IsBelow (2 ^ 63) (negative o)
unfolding negative
negative-IsBelow none = tt
negative-IsBelow (some (n, s)) = omega arith

scan_uint32-IsBelow : (t : Text) → IsBelow u32_mod (scan_uint32 t)
unfolding scan_uint32
scan_uint32-IsBelow t = elim (Option-cases (skip_space t)) [
  | inl e ↦ rw (e, scan_uint32) tt
  | inr (s, e) ↦ rw (e, scan_uint32) (below-IsBelow u32_mod (scan_number s))
]

scan_signed-IsBelow : (t : Text) → IsBelow (2 ^ 63) (scan_signed t)
unfolding scan_signed
scan_signed-IsBelow [] = tt
scan_signed-IsBelow (c ∷ s) = elim (Bool-cases (c == b'-')) [
  | inl e ↦ rw (e, scan_signed) (negative-IsBelow (below (2 ^ 63 + 1) (scan_number s)))
  | inr e ↦
      rw (e, scan_signed)
        (elim (Bool-cases (c == b'+')) [
          | inl k ↦ rw k (below-IsBelow (2 ^ 63) (scan_number s))
          | inr k ↦ rw k (below-IsBelow (2 ^ 63) (scan_number (c ∷ s)))
        ])
]

scan_int-IsBelow : (t : Text) → IsBelow (2 ^ 63) (scan_int t)
unfolding scan_int
scan_int-IsBelow t = elim (Option-cases (skip_space t)) [
  | inl e ↦ rw (e, scan_int) tt
  | inr (s, e) ↦ rw (e, scan_int) (scan_signed-IsBelow s)
]

abbrev AreBelow : Option Settings → Type 0
AreBelow none = Unit
AreBelow (some s) = (s.max_repetitions < u32_mod) × (s.max_vars_per_pdu < 2 ^ 63)

after_reps-AreBelow : (a : ℕ × Text) → a.0 < u32_mod → AreBelow (after_reps a)
unfolding after_reps
after_reps-AreBelow (r, []) h = tt
after_reps-AreBelow (r, c ∷ s) h = elim (Bool-cases (c == b':')) [
  | inr e ↦ rw e tt
  | inl e ↦ rw e (by_vars (scan_int s) (scan_int-IsBelow s))
]
  where
    by_vars :
        (o : Option (ℕ × Text))
        → IsBelow (2 ^ 63) o
        → AreBelow (elim o [
          | none ↦ none
          | some (v, t) ↦ some (record { max_repetitions = r; max_vars_per_pdu = v })
        ])
    by_vars none k = tt
    by_vars (some (v, t)) k = (h, k)

sscanf-AreBelow : (t : Text) → AreBelow (sscanf t)
unfolding sscanf
sscanf-AreBelow t = by_reps (scan_uint32 t) (scan_uint32-IsBelow t)
  where
    by_reps :
        (o : Option (ℕ × Text))
        → IsBelow u32_mod o
        → AreBelow (elim o [ none ↦ none | some a ↦ after_reps a ])
    by_reps none k = tt
    by_reps (some a) k = after_reps-AreBelow a k

-- Every setting that `--try` accepts has from 1 to 2^32 - 1 repetitions, and from 1 to 2^63 - 1
-- variables.
pub setting_of-bounds :
    (t : Text) (s : Settings)
    → setting_of t ≡ some s
    → (1 ≤ s.max_repetitions)
      × (s.max_repetitions < u32_mod)
      × (1 ≤ s.max_vars_per_pdu)
      × (s.max_vars_per_pdu < 2 ^ 63)
unfolding setting_of
setting_of-bounds t s e = by_scan (sscanf t) (sscanf-AreBelow t) e
  where
    by_scan :
        (o : Option Settings)
        → AreBelow o
        → (elim o [
          | none ↦ none
          | some u ↦ if ltb u.max_repetitions 1 || ltb u.max_vars_per_pdu 1 then none else some u
        ])
          ≡ some s
        → (1 ≤ s.max_repetitions)
          × (s.max_repetitions < u32_mod)
          × (1 ≤ s.max_vars_per_pdu)
          × (s.max_vars_per_pdu < 2 ^ 63)
    by_scan none k q = absurd (some-ne-none s (sym q))
    by_scan (some u) (small, vars) q =
        elim (Bool-cases (ltb u.max_repetitions 1 || ltb u.max_vars_per_pdu 1)) [
          | inl b ↦ absurd (some-ne-none s (sym (rw b at q)))
          | inr b ↦
              let same : u ≡ s = some-injective u s (rw b at q) in
              subst
                (λ x.
                  (1 ≤ x.max_repetitions)
                  × (x.max_repetitions < u32_mod)
                  × (1 ≤ x.max_vars_per_pdu)
                  × (x.max_vars_per_pdu < 2 ^ 63))
                same (ground arith, small, ground arith, vars)
        ]
