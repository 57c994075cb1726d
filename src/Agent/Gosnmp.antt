-- ===== src/Agent/Gosnmp.antt =====
-- internal/agent/gosnmp.go: the transport. The library, the clock and the context are parameters.
pub mod Replies
use snmptune.Prelude.{
  ℕ, ◌+◌, ◌-◌, ◌%◌, Bool, true, false, ◌||◌, ◌&&◌, Option, none, some, List, [], ◌∷◌, ◌++◌, map,
  ◌==◌, if◌then◌else◌,
}
use snmptune.Text.{Text, codes, trim_dot, u32_mod, format_uint}
use snmptune.Agent.{
  Value, end_of_mib_view, no_such_object, no_such_instance, uint32, Varbind, Response, CtxError,
  Error, timeout, agent_error, context_error, other_error, Reply,
}

-- The types of a variable that `convert` tells apart.
pub data VariableType : Type 0 where
  end_type object_type instance_type ticks_type other_type : VariableType

-- What the library gives. `ticks` is `ToBigInt(v.Value).Uint64()`, `marshalled` the length of what
-- `MarshalMsg` returns, if it returns no error, and `status` the text of an error that is not NoError.
pub record Library : Type 1 where
  pub Packet : Type 0
  pub Variable : Type 0
  pub status : Packet → Option Text
  pub error_index : Packet → ℕ
  pub variables : Packet → List Variable
  pub marshalled : Packet → Option ℕ
  pub name : Variable → Text
  pub type_of : Variable → VariableType
  pub ticks : Variable → ℕ
  pub value : Variable → Value

-- What sending a request returns: the text of an error, or a packet.
pub data Sent (P : Type 0) : Type 0 where
  failed : Text → Sent P
  answered : P → Sent P

-- `strings.HasPrefix` and `strings.Contains`.
unfoldable pub starts_with : Text → Text → Bool
starts_with s [] = true
starts_with [] (d ∷ t) = false
starts_with (c ∷ s) (d ∷ t) = c == d && starts_with s t

unfoldable pub contains_text : Text → Text → Bool
contains_text [] t = starts_with [] t
contains_text (c ∷ s) t = starts_with (c ∷ s) t || contains_text s t

unfoldable pub size_or_zero : Option ℕ → ℕ
size_or_zero none = 0
size_or_zero (some n) = n

module _ (lib : Library) where
  open lib use {
    Packet, Variable, status, error_index, variables, marshalled, name, type_of, ticks, value,
  }

  unfoldable pub convert : Variable → Value
  convert v = elim (type_of v) [
    | end_type ↦ end_of_mib_view
    | object_type ↦ no_such_object
    | instance_type ↦ no_such_instance
    | ticks_type ↦ uint32 (ticks v % u32_mod)
    | other_type ↦ value v
  ]

  unfoldable pub varbind_of : Variable → Varbind
  varbind_of v = record { oid = trim_dot (name v); value = convert v }

  abbrev pub bare : ℕ → ℕ → Response
  bare rtt retries = record { varbinds = []; rtt = rtt; bytes = 0; retries = retries }

  -- The error of a request that failed, by what the context reports then.
  unfoldable pub error_of : Option CtxError → Text → ℕ → Error
  error_of (some c) err retries = context_error c
  error_of none err retries =
      if contains_text err (codes "request timeout")
      then timeout (codes "snmp: timeout after " ++ format_uint retries ++ codes " retries")
      else other_error err

  -- The end of `do`, for a packet.
  unfoldable pub read_packet : ℕ → ℕ → Packet → Reply
  read_packet rtt retries pkt = elim (status pkt) [
    | some text ↦ record {
      response = bare rtt retries;
      error = some (
          agent_error (
            codes "snmp: agent error "
            ++ text
            ++ codes " at index "
            ++ format_uint (error_index pkt)));
    }
    | none ↦ record {
      response = record {
        varbinds = map varbind_of (variables pkt);
        rtt = rtt;
        bytes = size_or_zero (marshalled pkt);
        retries = retries;
      };
      error = none;
    }
  ]

  module _ (World : Type 0) (now : World → ℕ × World)
      (ctx_err : World → Option CtxError × World) where
    unfoldable pub on_sent : ℕ → ℕ → Sent Packet → World → Reply × World
    on_sent rtt retries (failed err) w =
        let (c, w') = ctx_err w in
        (record { response = bare rtt retries; error = some (error_of c err retries) }, w')
    on_sent rtt retries (answered pkt) w = (read_packet rtt retries pkt, w)

    -- `do`. A request comes with the retries that it made.
    unfoldable pub do_request : (World → (Sent Packet × ℕ) × World) → World → Reply × World
    do_request send w =
        let (start, w1) = now w in
        let ((sent, retries), w2) = send w1 in
        let (end, w3) = now w2 in on_sent (end - start) retries sent w3
