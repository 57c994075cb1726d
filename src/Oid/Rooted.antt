-- ===== src/Oid/Rooted.antt =====
-- OIDs whose text does not start with a dot and is not empty.
use snmptune.Prelude.{◌==◌, ◌≡◌, ◌≢◌, refl, Bool-cases, inl, inr, arith, List, [], ◌∷◌, ◌++◌, map}
use snmptune.Text.{Text, dot, trim_dot, split, split_from}
use snmptune.Oid.{parse, canonical, parse_parts}

abbrev pub IsRooted : Text → Type 0
IsRooted [] = ⊥
IsRooted (c ∷ s) = c ≢ dot

pub canonical-IsRooted : (t : Text) → IsRooted t → canonical t ≡ t
unfolding canonical trim_dot
canonical-IsRooted [] h = absurd h
canonical-IsRooted (c ∷ s) h = elim (Bool-cases (c == dot)) [
  | inl e ↦ absurd (h (ground arith))
  | inr e ↦ rw e refl
]

split_from-ne-nil : (cur s : Text) → split_from cur s ≢ []
unfolding split_from
split_from-ne-nil cur [] = λ e. cc e
split_from-ne-nil cur (c ∷ s) = elim (Bool-cases (c == dot)) [
  | inl e ↦ rw (e, split_from) (λ q. cc q)
  | inr e ↦ rw (e, split_from) (split_from-ne-nil (cur ++ c ∷ []) s)
]

map-ne-nil : {A B : Type 0} (f : A → B) (xs : List A) → xs ≢ [] → map f xs ≢ []
map-ne-nil f [] h = absurd (h refl)
map-ne-nil f (x ∷ xs) h = λ e. cc e

pub parse-IsRooted : (t : Text) → IsRooted t → parse t ≢ []
unfolding parse canonical parse_parts split
parse-IsRooted [] h = absurd h
parse-IsRooted (c ∷ s) h =
    rw (canonical-IsRooted (c ∷ s) h)
      (map-ne-nil _ (split_from [] (c ∷ s)) (split_from-ne-nil [] (c ∷ s)))

pub append-IsRooted : (s t : Text) → IsRooted s → IsRooted (s ++ t)
append-IsRooted [] t h = absurd h
append-IsRooted (c ∷ s) t h = h

pub has_arcs-IsRooted : (t : Text) → IsRooted t → parse (canonical t) ≢ []
has_arcs-IsRooted t h = rw (canonical-IsRooted t h) (parse-IsRooted t h)
