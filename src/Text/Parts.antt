-- ===== src/Text/Parts.antt =====
-- Splitting a joined text at its dots gives the parts back.
use snmptune.Prelude.{
  ◌≡◌, ◌≢◌, ◌∙◌, refl, ap, List, [], ◌∷◌, ◌++◌, append_assoc, append-nil, arith, All,
}
use snmptune.Text.{Text, dot, split_from, split, join}
use snmptune.Text.Decimal.{NoDot}

split_from_last : (p cur : Text) → NoDot p → split_from cur p ≡ (cur ++ p) ∷ []
unfolding split_from
split_from_last [] cur h = rw append-nil
split_from_last (c ∷ p) cur (hc, h) =
    ground (arith, split_from_last p (cur ++ c ∷ []) h, append_assoc cur (c ∷ []) p)

split_from_part :
    (p cur rest : Text)
    → NoDot p
    → split_from cur (p ++ dot ∷ rest) ≡ (cur ++ p) ∷ split_from [] rest
unfolding split_from
split_from_part [] cur rest h = rw append-nil
split_from_part (c ∷ p) cur rest (hc, h) =
    ground (arith, split_from_part p (cur ++ c ∷ []) rest h, append_assoc cur (c ∷ []) p)

pub split-join : (ps : List Text) → ps ≢ [] → All NoDot ps → split (join ps) ≡ ps
unfolding split join
split-join [] h _ = absurd (h refl)
split-join (p ∷ []) _ (hp, _) = split_from_last p [] hp
split-join (p ∷ q ∷ ps) _ (hp, hq) =
    split_from_part p [] (join (q ∷ ps)) hp ∙ ap (λ r. p ∷ r) (split-join (q ∷ ps) (λ e. cc) hq)
