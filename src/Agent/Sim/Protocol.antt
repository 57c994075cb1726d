-- ===== src/Agent/Sim/Protocol.antt =====
-- The simulated agent as an environment, and that it keeps to the protocol.
use snmptune.Prelude.{
  ℕ, zero, suc, ◌<◌, ◌≡◌, ◌≢◌, refl, false, none, List, [], ◌∷◌, map, length, arith, ltb,
}
use snmptune.Text.{Text}
use snmptune.Oid
use snmptune.Agent.{Varbind, Environment}
use snmptune.Agent.Served.{IsSorted, Serves}
use snmptune.Agent.Sim.{
  SimAgent, RequestKind, getbulk, begin, finish, bulk_rows, sim_get, sim_get_bulk,
}
use snmptune.Agent.Sim.Plain.{
  IsPlain, begin-IsPlain, sim_get-IsPlain, sim_get_bulk-IsPlain, sim_get_bulk-finish,
  bulk_rows-ne-nil, bulk_rows-IsAnswer,
}

abbrev pub PlainAgent : List Text → Type 0
PlainAgent mib = (a : SimAgent) × IsPlain mib a

module _ (mib : List Text) (sorted : IsSorted mib) where
  -- The context stays alive, and the clock stands.
  abbrev pub sim_env : Environment
  sim_env = record {
    World = PlainAgent mib;
    get = λ oids (a, h).
        let r = sim_get none oids a in (r.0, (r.1, sim_get-IsPlain mib sorted oids a h));
    get_bulk = λ oids n (a, h).
        let r = sim_get_bulk none oids n a in
        (r.0, (r.1, sim_get_bulk-IsPlain mib sorted oids n a h));
    ctx_err = λ w. (none, w);
    now = λ w. (0, w);
    sleep = λ n w. w;
  }

  finish-error :
      (kind : RequestKind) (oids : List Text) (reps : ℕ) (vbs : List Varbind) (a : SimAgent)
      → ltb a.timeout (a.rtt (length vbs)) ≡ false
      → (finish kind oids reps vbs a).0.error ≡ none
  unfolding finish
  finish-error kind oids reps vbs a h = rw h refl

  finish-varbinds :
      (kind : RequestKind) (oids : List Text) (reps : ℕ) (vbs : List Varbind) (a : SimAgent)
      → ltb a.timeout (a.rtt (length vbs)) ≡ false
      → (finish kind oids reps vbs a).0.response.varbinds ≡ vbs
  unfolding finish
  finish-varbinds kind oids reps vbs a h = rw h refl

  prompt_begin :
      (a : SimAgent) → IsPlain mib a → (n : ℕ) → ltb (begin a).timeout ((begin a).rtt n) ≡ false
  prompt_begin a h n = (begin-IsPlain mib a h).prompt n

  pub sim_env-Serves : Serves sim_env mib
  sim_env-Serves = record {
    sorted = sorted;
    alive = λ w. refl;
    answered = λ o n (a, h) pos.
        rw (sim_get_bulk-finish mib sorted (o ∷ []) n a h)
          (finish-error getbulk (o ∷ []) n _ (begin a) (prompt_begin a h _));
    some_answer = λ o n (a, h) pos. some_row o n a h pos;
    answer = λ o n (a, h) pos.
        rw
          (
            sim_get_bulk-finish mib sorted (o ∷ []) n a h,
            finish-varbinds getbulk (o ∷ []) n
                (bulk_rows (begin a) n 0 (map Oid.parse (o ∷ [])) 0 []) (begin a)
                (prompt_begin a h _),
          )
          (bulk_rows-IsAnswer mib sorted (begin a) (begin-IsPlain mib a h) n o);
  }
    where
      some_row :
          (o : Text) (n : ℕ) (a : SimAgent)
          → IsPlain mib a
          → 0 < n
          → (sim_get_bulk none (o ∷ []) n a).0.response.varbinds ≢ []
      some_row o zero a h pos = absurd (omega arith)
      some_row o (suc n) a h pos =
          rw
            (
              sim_get_bulk-finish mib sorted (o ∷ []) (suc n) a h,
              finish-varbinds getbulk (o ∷ []) (suc n)
                  (bulk_rows (begin a) (suc n) 0 (map Oid.parse (o ∷ [])) 0 []) (begin a)
                  (prompt_begin a h _),
            )
            (bulk_rows-ne-nil mib sorted (begin a) (begin-IsPlain mib a h) n o)
