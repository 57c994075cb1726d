-- ===== src/Inventory/Walk/Rounds.antt =====
-- One root of `Walk`: its rounds keep the invariant, use up the time, and end.
use snmptune.Prelude.{
  ℕ, zero, suc, ◌≤◌, ◌<◌, ◌≡◌, inl, inr, refl, Option, none, some, [], ◌∷◌, arith, Bool-cases,
  Option-cases, if◌then◌else◌,
}
use snmptune.Text.{Text}
use snmptune.Agent.{Environment}
use snmptune.Agent.Deadline.{Deadline, time_left}
use snmptune.Exec.{Exec, done, panicked, out_of_fuel, Ends, OnSome}
use snmptune.Inventory.{reference_repetitions}
use snmptune.Inventory.Walk.{State, End, finished, digest, is_full, request, round, walk_root}
use snmptune.Inventory.Walk.Ascending.{Kept, digest-Kept}

module _ (env : Environment) where
  open env use {World, ctx_err, get_bulk, now}

  abbrev RoundKept : Text → Option (Option End × State × World) → Type 0
  RoundKept root = OnSome (λ a. Kept root a.1)

  request-Kept :
      (root : Text) (s : State) (w : World) → Kept root s → RoundKept root (request env root s w)
  unfolding request
  request-Kept root s w h =
      let (r, w1) = get_bulk (s.cursor ∷ []) reference_repetitions w in
      elim (Option-cases r.error) [
        | inr (e, k) ↦ rw (k, request) h
        | inl k ↦
            rw (k, request)
              (by_digest (digest root r.response s) (digest-Kept root r.response s h) w1)
      ]
    where
      by_digest :
          (o : Option State)
          → OnSome (Kept root) o
          → (w1 : World)
          → RoundKept root (elim o [
            | none ↦ none
            | some t ↦ some ((if t.finished then some finished else none), t, w1)
          ])
      by_digest none k w1 = absurd k
      by_digest (some t) k w1 = k

  round-Kept :
      (max_oids : ℕ) (root : Text) (s : State) (w : World)
      → Kept root s
      → RoundKept root (round env max_oids root s w)
  unfolding round
  round-Kept max_oids root s w h = elim (Bool-cases (is_full max_oids s.total)) [
    | inl e ↦ rw e h
    | inr e ↦ rw e (elim (Option-cases (ctx_err w).0) [
      | inr (c, k) ↦ rw (k, round) h
      | inl k ↦ rw (k, round) (request-Kept root s (ctx_err w).1 h)
    ])
  ]

  module _ (limit : Deadline env) where
    open limit use {remaining, expires, bulk_spends, ctx_keeps, now_keeps}

    -- A round that goes on has used some of the time.
    abbrev RoundSpends : World → Option (Option End × State × World) → Type 0
    RoundSpends w none = Unit
    RoundSpends w (some (none, s, w')) = remaining w' < remaining w
    RoundSpends w (some (some end, s, w')) = remaining w' ≤ remaining w

    request-spends :
        (root : Text) (s : State) (w0 w : World)
        → 0 < remaining w0
        → remaining w ≤ remaining w0
        → RoundSpends w0 (request env root s w)
    unfolding request
    request-spends root s w0 w some_left le =
        let (r, w1) = get_bulk (s.cursor ∷ []) reference_repetitions w in
        let spent = bulk_spends (s.cursor ∷ []) reference_repetitions w in
        elim (Option-cases r.error) [
          | inr (e, k) ↦
              rw (k, request)
                (elim (Option-cases (ctx_err w1).0) [
                  | inl c ↦ rw c (omega (arith, spent, ctx_keeps w1))
                  | inr (x, c) ↦ rw c (omega (arith, spent, ctx_keeps w1))
                ])
          | inl k ↦ rw (k, request) (by_digest (digest root r.response s) w1 (omega (arith, spent)))
        ]
      where
        by_digest :
            (o : Option State) (w1 : World)
            → remaining w1 < remaining w0
            → RoundSpends w0 (elim o [
              | none ↦ none
              | some t ↦ some ((if t.finished then some finished else none), t, w1)
            ])
        by_digest none w1 h = tt
        by_digest (some t) w1 h = elim (Bool-cases (t.finished)) [
          | inl e ↦ rw e (omega arith)
          | inr e ↦ rw e h
        ]

    round-spends :
        (max_oids : ℕ) (root : Text) (s : State) (w : World)
        → RoundSpends w (round env max_oids root s w)
    unfolding round
    round-spends max_oids root s w = elim (Bool-cases (is_full max_oids s.total)) [
      | inl e ↦ rw e (omega arith)
      | inr e ↦ rw e (elim (Option-cases (ctx_err w).0) [
        | inr (c, k) ↦ rw (k, round) (ctx_keeps w)
        | inl k ↦
            rw (k, round)
              (request-spends root s w (ctx_err w).1 (time_left env limit w k) (ctx_keeps w))
      ])
    ]

    abbrev pub RootEnd : Text → World → End × State × World → Type 0
    RootEnd root w (end, s, w') = Kept root s × (remaining w' ≤ remaining w)

    RootEnd-mono :
        (root : Text) (w w1 : World) (m : Exec (End × State × World))
        → remaining w1 ≤ remaining w
        → Ends (RootEnd root w1) m
        → Ends (RootEnd root w) m
    RootEnd-mono root w w1 (done (end, s, w')) le (k, h) = (k, omega arith)
    RootEnd-mono root w w1 panicked le h = absurd h
    RootEnd-mono root w w1 out_of_fuel le h = absurd h

    pub walk_root-Ends :
        (fuel max_oids : ℕ) (root : Text) (s : State) (w : World)
        → remaining w < fuel
        → Kept root s
        → Ends (RootEnd root w) (walk_root env fuel max_oids root s w)
    unfolding walk_root
    walk_root-Ends zero max_oids root s w lt h = absurd (omega arith)
    walk_root-Ends (suc fuel) max_oids root s w lt h =
        by_round (round env max_oids root s w) refl (round-Kept max_oids root s w h)
          (round-spends max_oids root s w) (walk_root-Ends fuel max_oids root)
      where
        by_round :
            (o : Option (Option End × State × World))
            → round env max_oids root s w ≡ o
            → RoundKept root o
            → RoundSpends w o
            → ((s' : State) (w' : World)
                → remaining w' < fuel
                → Kept root s'
                → Ends (RootEnd root w') (walk_root env fuel max_oids root s' w'))
            → Ends (RootEnd root w) (walk_root env (suc fuel) max_oids root s w)
        by_round none e k spends again = absurd k
        by_round (some (some end, s', w')) e k spends again = rw (walk_root, e) (k, spends)
        by_round (some (none, s', w')) e k spends again =
            rw (walk_root, e) (RootEnd-mono root w w' _ (omega arith) (again s' w' (omega arith) k))
