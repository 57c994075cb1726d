-- ===== src/Agent/Gosnmp/Replies.antt =====
-- What the replies of the gosnmp transport say.
use snmptune.Prelude.{
  ℕ, ◌%◌, ◌≡◌, ◌↔◌, ◌⊎◌, refl, true, false, Option, none, List, [], map, inl, inr, Option-cases,
}
use mathlib.Core.Option.{some-ne-none}
use snmptune.Text.{u32_mod}
use snmptune.Agent.{
  CtxError, Reply, Varbind, end_of_mib_view, no_such_object, no_such_instance, uint32, is_end,
}
use snmptune.Agent.Gosnmp.{
  VariableType, end_type, object_type, instance_type, ticks_type, other_type, Library, Sent, failed,
  answered, convert, varbind_of, read_packet, on_sent, do_request,
}

module _ (lib : Library) where
  open lib use {Packet, Variable, status, variables, type_of, value}

  -- The request was answered by a packet without an error status, and the reply has its variables.
  abbrev pub IsGood : Sent Packet → List Varbind → Type 0
  IsGood (failed err) vbs = ⊥
  IsGood (answered pkt) vbs = (status pkt ≡ none) × (vbs ≡ map (varbind_of lib) (variables pkt))

  -- A reply without an error is good, one with an error has no varbinds.
  abbrev pub IsFair : Sent Packet → Reply → Type 0
  IsFair sent r =
      ((r.error ≡ none) ↔ IsGood sent r.response.varbinds)
      × ((r.error ≡ none) ⊎ (r.response.varbinds ≡ []))

  read_packet-IsFair :
      (rtt retries : ℕ) (pkt : Packet) → IsFair (answered pkt) (read_packet lib rtt retries pkt)
  unfolding read_packet
  read_packet-IsFair rtt retries pkt = elim (Option-cases (status pkt)) [
    | inl e ↦ rw (e, read_packet) ((λ h. (refl, refl), λ h. refl), inl refl)
    | inr (t, e) ↦
        rw (e, read_packet)
          ((λ h. absurd (some-ne-none _ h), λ (h, k). absurd (some-ne-none t h)), inr refl)
  ]

  module _ (World : Type 0) (now : World → ℕ × World)
      (ctx_err : World → Option CtxError × World) where
    on_sent-IsFair :
        (rtt retries : ℕ) (sent : Sent Packet) (w : World)
        → IsFair sent (on_sent lib World now ctx_err rtt retries sent w).0
    unfolding on_sent
    on_sent-IsFair rtt retries (failed err) w =
        ((λ h. absurd (some-ne-none _ h), λ h. absurd h), inr refl)
    on_sent-IsFair rtt retries (answered pkt) w = read_packet-IsFair rtt retries pkt

    -- For every request: `do` returns no error exactly if the library returned a packet without an
    -- error status, and then the varbinds are its variables in order; beside an error there are none.
    pub do_request-IsFair :
        (send : World → (Sent Packet × ℕ) × World) (w : World)
        → IsFair (send (now w).1).0.0 (do_request lib World now ctx_err send w).0
    unfolding do_request
    do_request-IsFair send w =
        let ((sent, retries), w2) = send (now w).1 in on_sent-IsFair _ retries sent (now w2).1

  -- If no value that the library holds is the end of the view, the walks see an end exactly for a
  -- variable of that type.
  pub convert-is_end :
      (v : Variable)
      → is_end (value v) ≡ false
      → (is_end (convert lib v) ≡ true) ↔ (type_of v ≡ end_type)
  unfolding convert is_end
  convert-is_end v h = by_type (type_of v)
    where
      by_type :
          (t : VariableType)
          → (is_end (elim t [
            | end_type ↦ end_of_mib_view
            | object_type ↦ no_such_object
            | instance_type ↦ no_such_instance
            | ticks_type ↦ uint32 (Library.ticks lib v % u32_mod)
            | other_type ↦ value v
          ])
              ≡ true)
            ↔ (t ≡ end_type)
      by_type end_type = (λ e. refl, λ e. refl)
      by_type object_type = (λ e. cc, λ e. cc)
      by_type instance_type = (λ e. cc, λ e. cc)
      by_type ticks_type = (λ e. cc, λ e. cc)
      by_type other_type = (λ e. cc, λ e. cc)
