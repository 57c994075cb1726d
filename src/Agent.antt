-- ===== src/Agent.antt =====
-- internal/agent/agent.go: what an agent answers, and the interface `Transport` that everything
-- above it talks to.
pub mod Deadline
pub mod Served
pub mod Sim
pub mod Gosnmp
use snmptune.Prelude.{ℕ, Bool, true, false, Option, List}
use snmptune.Text.{Text, codes}

-- A Go `any`: the types that the program tells apart, and one constructor for the rest. A number is
-- its bit pattern, 32 bits of a `uint32` and 64 of a `uint` or an `int`.
pub data Value : Type 0 where
  end_of_mib_view no_such_object no_such_instance : Value
  uint32 uint int : ℕ → Value
  string octets : Text → Value
  other : Value

pub record Varbind : Type 0 where
  pub oid : Text
  pub value : Value

-- A `time.Duration` is its nanoseconds. `rtt` is a difference of monotonic clock readings, which is
-- not negative.
pub record Response : Type 0 where
  pub varbinds : List Varbind
  pub rtt : ℕ
  pub bytes : ℕ
  pub retries : ℕ

-- What `ctx.Err()` returns when it is not nil.
pub data CtxError : Type 0 where
  canceled deadline_exceeded : CtxError

-- An `error` by what `errors.Is` finds in its chain, with its text.
pub data Error : Type 0 where
  timeout agent_error : Text → Error
  context_error : CtxError → Error
  other_error : Text → Error

-- A Go call returns a response also beside an error.
pub record Reply : Type 0 where
  pub response : Response
  pub error : Option Error

-- The context, the clock and the transport of one run. The world is all that decides their answers;
-- each call is given the world that the call before it left, as requests are strictly sequential.
pub record Environment : Type 1 where
  pub World : Type 0
  pub get : List Text → World → Reply × World
  pub get_bulk : List Text → ℕ → World → Reply × World
  pub ctx_err : World → Option CtxError × World
  pub now : World → ℕ × World
  pub sleep : ℕ → World → World

abbrev pub sys_up_time_oid : Text
sys_up_time_oid = codes "1.3.6.1.2.1.1.3.0"

unfoldable pub is_end : Value → Bool
is_end end_of_mib_view = true
is_end _ = false
