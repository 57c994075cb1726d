-- ===== src/Command/Checked.antt =====
-- What `parse` of cmd/snmptune/main.go accepts.
use snmptune.Prelude.{
  ℕ, ◌≤◌, ◌≡◌, ◌≢◌, ◌↔◌, ◌⊎◌, inl, inr, refl, Bool, true, false, ◌&&◌, ◌||◌, not, none, List, [],
  ◌∷◌, arith, Option-cases, All, ltb, if◌then◌else◌,
}
use snmptune.Text.{Text, codes}
use snmptune.Text.Equality.{text_eq_iff}
use snmptune.Text.{is_named}
use snmptune.Command.Setting.{setting_of}
use snmptune.Command.Options.{
  UsageError, Parsed, refused, accepted, Options, is_empty, is_format, is_color, add_setting,
  read_tries, validate,
}

abbrev pub IsAccepted : {F : Type 0} → Parsed F → Type 0
IsAccepted (refused e) = ⊥
IsAccepted (accepted o) = Unit

-- The two parsers of one guard: refused where it is set, and as the rest says otherwise.
guard_iff :
    {F : Type 0} (P Q : Type 0) (b : Bool) (u : UsageError) (rest : Parsed F)
    → ((b ≡ false) ↔ P)
    → (IsAccepted rest ↔ Q)
    → IsAccepted (if b then refused u else rest) ↔ (P × Q)
guard_iff P Q true u rest p q = (λ a. absurd a, λ (x, y). cc (p.1 x))
guard_iff P Q false u rest p q = (λ a. (p.0 refl, q.0 a), λ (x, y). q.1 y)

version_iff :
    {F : Type 0} (Q : Type 0) (b : Bool) (o : Options F) (rest : Parsed F)
    → b ≡ false
    → (IsAccepted rest ↔ Q)
    → IsAccepted (if b then accepted o else rest) ↔ Q
version_iff Q true o rest e q = cc
version_iff Q false o rest e q = q

repeats_iff : (n : ℕ) → (ltb n 1 ≡ false) ↔ (1 ≤ n)
repeats_iff n = ground arith

mtu_iff : (n : ℕ) → (ltb n 576 ≡ false) ↔ (576 ≤ n)
mtu_iff n = ground arith

port_iff : (n : ℕ) → ((ltb n 1 || ltb 65535 n) ≡ false) ↔ ((1 ≤ n) × (n ≤ 65535))
port_iff n = ground arith

-- One of two tests passes exactly if the text is one of the two.
either_iff :
    (a b : Bool) (P Q : Type 0) → ((a ≡ true) ↔ P) → ((b ≡ true) ↔ Q) → ((a || b) ≡ true) ↔ (P ⊎ Q)
either_iff true b P Q p q = (λ e. inl (p.0 refl), λ h. refl)
either_iff false b P Q p q =
    (λ e. inr (q.0 e), λ h. elim h [ inl x ↦ absurd (cc (p.1 x)) | inr y ↦ q.1 y ])

not_iff : (a : Bool) (P : Type 0) → ((a ≡ true) ↔ P) → (not a ≡ false) ↔ P
not_iff true P p = (λ e. p.0 refl, λ h. refl)
not_iff false P p = (λ e. cc, λ h. cc (p.1 h))

named_iff : (t : Text) → (not (is_named t) ≡ false) ↔ (t ≢ [])
named_iff [] = (λ e. cc, λ h. absurd (h refl))
named_iff (c ∷ t) = (λ e q. cc, λ h. refl)

source_iff :
    (ts : List Text) (t : Text)
    → ((is_empty ts && not (is_named t)) ≡ false) ↔ ((ts ≢ []) ⊎ (t ≢ []))
unfolding is_empty
source_iff [] [] = (λ e. cc, λ h. elim h [ inl k ↦ absurd (k refl) | inr k ↦ absurd (k refl) ])
source_iff [] (c ∷ t) = (λ e. inr (λ q. cc), λ h. refl)
source_iff (x ∷ ts) t = (λ e. inl (λ q. cc), λ h. refl)

format_iff : (t : Text) → (not (is_format t) ≡ false) ↔ ((t ≡ codes "text") ⊎ (t ≡ codes "opennms"))
unfolding is_format
format_iff t =
    not_iff _ _
      (either_iff _ _ _ _ (text_eq_iff t (codes "text")) (text_eq_iff t (codes "opennms")))

color_iff :
    (t : Text)
    → (not (is_color t) ≡ false)
      ↔ (((t ≡ codes "auto") ⊎ (t ≡ codes "always")) ⊎ (t ≡ codes "never"))
unfolding is_color
color_iff t = not_iff _ _ (
    either_iff _ _ _ _
      (either_iff _ _ _ _ (text_eq_iff t (codes "auto")) (text_eq_iff t (codes "always")))
      (text_eq_iff t (codes "never")))

module _ {F : Type 0} where
  tries_iff :
      (o : Options F) (ts : List Text)
      → IsAccepted (read_tries o ts) ↔ All (λ t. setting_of t ≢ none) ts
  unfolding read_tries
  tries_iff o [] = (λ a. tt, λ a. tt)
  tries_iff o (t ∷ ts) = elim (Option-cases (setting_of t)) [
    | inl e ↦ rw (e, read_tries) (λ a. absurd a, λ (h, hs). absurd (h refl))
    | inr (s, e) ↦
        rw (e, read_tries)
          (
            λ a. (λ q. cc, (tries_iff (add_setting o s) ts).0 a),
            λ (h, hs). (tries_iff (add_setting o s) ts).1 hs,
          )
  ]

  -- The options that the program can work with, when it is not asked for its version.
  abbrev pub IsUsable : Options F → Type 0
  IsUsable o =
      (o.target ≢ [])
      × (((o.oids ≢ []) ⊎ (o.group ≢ []))
          × (((o.format ≡ codes "text") ⊎ (o.format ≡ codes "opennms"))
              × ((1 ≤ o.search.repeats)
                  × ((((o.color ≡ codes "auto") ⊎ (o.color ≡ codes "always"))
                        ⊎ (o.color ≡ codes "never"))
                      × ((576 ≤ o.mtu)
                          × (((1 ≤ o.port) × (o.port ≤ 65535))
                              × All (λ t. setting_of t ≢ none) o.tries))))))

  -- Unless they ask for the version, options are accepted exactly if there is a target, a subtree or a
  -- group, a known format and colour, at least one repeat, an MTU of at least 576, a port from 1 to
  -- 65535, and every `--try` is a setting.
  pub validate-IsUsable :
      (o : Options F) → o.show_version ≡ false → IsAccepted (validate o) ↔ IsUsable o
  unfolding validate
  validate-IsUsable o e = version_iff _ o.show_version o _ e (
      guard_iff _ _ _ _ _ (named_iff o.target) (
        guard_iff _ _ _ _ _ (source_iff o.oids o.group) (
          guard_iff _ _ _ _ _ (format_iff o.format) (
            guard_iff _ _ _ _ _ (repeats_iff o.search.repeats) (
              guard_iff _ _ _ _ _ (color_iff o.color) (
                guard_iff _ _ _ _ _ (mtu_iff o.mtu)
                  (guard_iff _ _ _ _ _ (port_iff o.port) (tries_iff o o.tries))))))))
