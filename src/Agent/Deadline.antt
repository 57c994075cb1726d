-- ===== src/Agent/Deadline.antt =====
-- What `context.WithTimeout` gives a run: each request takes time, and once none is left the context
-- reports an error. No other call gives time back.
use snmptune.Prelude.{ℕ, zero, suc, ◌-◌, ◌≤◌, ◌<◌, ◌≡◌, ◌≢◌, refl, none, List, arith}
use snmptune.Agent.{Environment}

module _ (env : Environment) where
  open env use {World, get, get_bulk, ctx_err, now, sleep}

  pub record Deadline : Type 0 where
    pub remaining : World → ℕ
    pub expires : (w : World) → remaining w ≡ 0 → (ctx_err w).0 ≢ none
    pub bulk_spends :
        (os : List (List ℕ)) (n : ℕ) (w : World) → remaining (get_bulk os n w).1 ≤ remaining w - 1
    pub get_keeps : (os : List (List ℕ)) (w : World) → remaining (get os w).1 ≤ remaining w
    pub ctx_keeps : (w : World) → remaining (ctx_err w).1 ≤ remaining w
    pub now_keeps : (w : World) → remaining (now w).1 ≤ remaining w
    pub sleep_keeps : (n : ℕ) (w : World) → remaining (sleep n w) ≤ remaining w

  pub time_left :
      (limit : Deadline) (w : World) → (ctx_err w).0 ≡ none → 0 < Deadline.remaining limit w
  time_left limit w h = positive (Deadline.remaining limit w) refl
    where
      positive : (n : ℕ) → Deadline.remaining limit w ≡ n → 0 < n
      positive zero e = absurd (Deadline.expires limit w e h)
      positive (suc n) e = omega arith
