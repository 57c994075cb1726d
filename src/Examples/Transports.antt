-- ===== src/Examples/Transports.antt =====
-- The theorems about the gosnmp transport, at a library whose packets are lists of OIDs.
use snmptune.Prelude.{ℕ, ◌≡◌, ◌↔◌, true, refl, none, List, [], ◌∷◌, length}
use snmptune.Text.{Text, codes}
use snmptune.Agent.{is_end, uint32}
use snmptune.Agent.Gosnmp.{
  VariableType, end_type, ticks_type, Library, Sent, answered, convert, do_request,
}
use snmptune.Agent.Gosnmp.Replies.{IsFair, do_request-IsFair, convert-is_end}

abbrev library : Library
library = record {
  Packet = List Text;
  Variable = Text;
  status = λ p. none;
  error_index = λ p. 0;
  variables = λ p. p;
  marshalled = λ p. none;
  name = λ v. v;
  type_of = λ v. ticks_type;
  ticks = λ v. length v;
  value = λ v. uint32 7;
}

abbrev sends : ℕ → (Sent (List Text) × ℕ) × ℕ
sends w = ((answered (codes ".1.3.6.1" ∷ []), 1), w)

do_request-IsFair_example :
    IsFair library
      (answered (codes ".1.3.6.1" ∷ []))
      (do_request library ℕ (λ w. (w, w)) (λ w. (none, w)) sends 5).0
do_request-IsFair_example = do_request-IsFair library ℕ (λ w. (w, w)) (λ w. (none, w)) sends 5

convert-is_end_example :
    (is_end (convert library (codes ".1.3")) ≡ true) ↔ (◌≡◌ {A = VariableType} ticks_type end_type)
unfolding is_end
convert-is_end_example = convert-is_end library (codes ".1.3") refl
