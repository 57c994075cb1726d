-- ===== src/Search/Ladder.antt =====
-- The escalation ladder of a plan.
use snmptune.Prelude.{
  ℕ, zero, suc, ◌+◌, ◌*◌, ◌%◌, ◌^◌, ◌≤◌, ◌<◌, ◌≡◌, refl, true, List, [], ◌∷◌, inl, inr, arith, leb,
  leb→le, Bool-cases,
}
use snmptune.Text.{u32_mod}
use snmptune.Exec.{out_of_fuel, Ends, >>=-Ends}
use snmptune.Safety.{Budget}
use snmptune.Walk.{Settings}
use snmptune.Workload.{Workload, widest_table}
use snmptune.Search.{start, Options}
use snmptune.Search.Phases.{start_vars}
use snmptune.Search.Phases.Ends.{le_mul, start_vars_positive}
use snmptune.Search.Plan.{Plan, ladder, plan}

-- The settings double their repetitions from the first, as long as the product is within the bound.
abbrev pub IsLadder : ℕ → ℕ → ℕ → List Settings → Type 0
IsLadder bound v0 reps [] = bound < reps * v0
IsLadder bound v0 reps (s ∷ ss) =
    (s.max_repetitions ≡ reps)
    × (s.max_vars_per_pdu ≡ v0)
    × (reps * v0 ≤ bound)
    × IsLadder bound v0 (reps * 2) ss

ladder-IsLadder :
    (steps bound v0 reps : ℕ)
    → bound < 2 ^ 31
    → 0 < v0
    → 0 < reps
    → bound + 1 < steps + reps
    → 0 < steps
    → Ends (IsLadder bound v0 reps) (ladder steps bound v0 reps)
unfolding ladder
ladder-IsLadder zero bound v0 reps small vars pos enough some_left = absurd (omega arith)
ladder-IsLadder (suc steps) bound v0 reps small vars pos enough some_left =
    elim (Bool-cases (leb (reps * v0) bound)) [
      | inr e ↦ rw e (ground arith)
      | inl e ↦
          let le : reps * v0 ≤ bound = leb→le (reps * v0) bound e in
          let fits : reps ≤ bound = omega (arith, le_mul reps v0 vars) in
          let twice : reps * 2 % u32_mod ≡ reps * 2 = omega arith in
          rw e (
            >>=-Ends (IsLadder bound v0 (reps * 2)) (IsLadder bound v0 reps)
              (ladder steps bound v0 (reps * 2 % u32_mod)) _
              (rw twice (
                ladder-IsLadder steps bound v0 (reps * 2) small vars (omega arith) (omega arith)
                  (omega arith)))
              (λ l k. (refl, refl, le, k)))
    ]

-- With a `MaxProduct` below 2^31 and below the number of steps, `Plan` returns, and its ladder is all
-- the settings that start with 2 repetitions and double them, at the width that `Run` starts with,
-- while their product is at most `MaxProduct`; the next is above it.
pub plan-IsLadder :
    {F : Type 0} (steps : ℕ) (w : Workload) (b : Budget) (o : Options F)
    → b.max_product < 2 ^ 31
    → b.max_product < steps
    → Ends
        (λ (p : Plan F).
          IsLadder b.max_product (start_vars (widest_table w)) start.max_repetitions p.ladder)
        (plan steps w b o)
unfolding plan
plan-IsLadder steps w b o small enough =
    >>=-Ends (IsLadder b.max_product (start_vars (widest_table w)) start.max_repetitions) _ _ _
      (ladder-IsLadder steps b.max_product (start_vars (widest_table w)) start.max_repetitions small
        (start_vars_positive (widest_table w)) (omega arith) (omega arith) (omega arith))
      (λ l k. k)

ladder-out_of_fuel :
    (steps bound v0 reps : ℕ)
    → u32_mod * v0 ≤ bound
    → reps < u32_mod
    → ladder steps bound v0 reps ≡ out_of_fuel
unfolding ladder
ladder-out_of_fuel zero bound v0 reps large small = refl
ladder-out_of_fuel (suc steps) bound v0 reps large small =
    let fits : leb (reps * v0) bound ≡ true =
      ground (arith, times_le reps u32_mod v0 (omega arith)) in
    rw (fits, ladder-out_of_fuel steps bound v0 (reps * 2 % u32_mod) large (omega arith)) refl
  where
    times_le : (a b c : ℕ) → a ≤ b → a * c ≤ b * c
    times_le a b c h = grind arith

-- With a `MaxProduct` of at least 2^32 times the width that `Run` starts with, `Plan` does not return:
-- no number of steps is enough, as the repetitions of the ladder wrap to 0.
pub plan-out_of_fuel :
    {F : Type 0} (w : Workload) (b : Budget) (o : Options F)
    → u32_mod * start_vars (widest_table w) ≤ b.max_product
    → (steps : ℕ) → plan steps w b o ≡ out_of_fuel
unfolding plan
plan-out_of_fuel w b o large steps =
    rw
      (ladder-out_of_fuel steps b.max_product (start_vars (widest_table w)) start.max_repetitions
        large (omega arith))
      refl
