-- ===== src/Inventory/Walk.antt =====
-- `Walk` of internal/inventory/inventory.go: a GetBulk walk with one repeater over each root.
pub mod Ascending
pub mod Rounds
pub mod Result
pub mod Convex
pub mod Complete
pub mod Found
use snmptune.Prelude.{
  ℕ, zero, suc, ◌+◌, ◌-◌, Bool, true, false, ◌||◌, ◌&&◌, not, Option, none, some, List, [], ◌∷◌,
  ◌++◌, length, ltb, leb, ◌==◌, if◌then◌else◌,
}
use snmptune.Text.{Text}
use snmptune.Oid
use snmptune.Oid.{is_gt}
use snmptune.Agent.{Varbind, Response, Error, Environment, is_end}
use snmptune.Exec.{Exec, done, panicked, out_of_fuel, ◌>>=◌}
use snmptune.Inventory.{Subtree, Inventory, parent_of, infer_columns, reference_repetitions}

-- The variables of `Walk`: the subtree at hand, the cursor, the count of OIDs over all roots, the
-- count of PDUs, and the local `done`.
pub record State : Type 0 where
  pub st : Subtree
  pub cursor : Text
  pub total : ℕ
  pub pdus : ℕ
  pub finished : Bool

-- A misordered answer; `none` is a panic.
unfoldable pub jump : Text → Varbind → State → Option State
jump root vb s = elim (Oid.skip_target s.cursor vb.oid) [
  | none ↦ none
  | some target ↦ some (record s {
    st = record (s.st) { skipped = s.st.skipped ++ parent_of target ∷ [] };
    finished = s.finished || not (Oid.has_prefix target root);
    cursor = target;
  })
]

abbrev collect : Varbind → State → State
collect vb s = record s {
  st = record (s.st) { oids = s.st.oids ++ vb.oid ∷ [] };
  cursor = vb.oid;
  total = s.total + 1;
}

-- The loop over the varbinds of one response.
unfoldable pub visit : Text → List Varbind → State → Option State
visit root [] s = some s
visit root (vb ∷ vbs) s =
    let more = visit root vbs (collect vb s) in
    if is_end vb.value || not (Oid.has_prefix vb.oid root)
    then some (record s { finished = true })
    else if not (is_gt (Oid.compare vb.oid s.cursor))
    then jump root vb s
    else more

-- What stands before that loop.
unfoldable pub digest : Text → Response → State → Option State
digest root resp s = visit root resp.varbinds (record s {
  pdus = s.pdus + 1;
  st = record (s.st) { bytes = s.st.bytes + resp.bytes };
  finished = length resp.varbinds == 0;
})

-- How the loop over one root ends.
pub data End : Type 0 where
  finished cut_short : End
  failed_with : Error → End

-- The test of `MaxOIDs`; 0 is no bound.
abbrev pub is_full : ℕ → ℕ → Bool
is_full max_oids total = ltb 0 max_oids && leb max_oids total

module _ (env : Environment) where
  open env use {World, ctx_err, get_bulk, now}

  -- The request of one round, and what follows it. The context is read again after an error.
  unfoldable pub request : Text → State → World → Option (Option End × State × World)
  request root s w =
      let (r, w1) = get_bulk (s.cursor ∷ []) reference_repetitions w in
      elim r.error [
        | some e ↦
            (let (c, w2) = ctx_err w1 in
              some ((elim c [ some _ ↦ some cut_short | none ↦ some (failed_with e) ]), s, w2))
        | none ↦ elim (digest root r.response s) [
          | none ↦ none
          | some t ↦ some ((if t.finished then some finished else none), t, w1)
        ]
      ]

  -- One round of the loop; the context is read only if the OIDs leave room.
  unfoldable pub round : ℕ → Text → State → World → Option (Option End × State × World)
  round max_oids root s w =
      if is_full max_oids s.total
      then some (some cut_short, s, w)
      else (let (c, w1) = ctx_err w in
          elim c [ some _ ↦ some (some cut_short, s, w1) | none ↦ request root s w1 ])

  -- The loop over one root, with fuel for the rounds.
  unfoldable pub walk_root : ℕ → ℕ → Text → State → World → Exec (End × State × World)
  walk_root zero max_oids root s w = out_of_fuel
  walk_root (suc fuel) max_oids root s w = elim (round max_oids root s w) [
    | none ↦ panicked
    | some (some end, s', w') ↦ done (end, s', w')
    | some (none, s', w') ↦ walk_root fuel max_oids root s' w'
  ]

  abbrev pub start_root : Text → ℕ → ℕ → State
  start_root root total pdus = record {
    st = record { root = root; oids = []; bytes = 0; columns = []; skipped = []; partial = false };
    cursor = root;
    total = total;
    pdus = pdus;
    finished = false;
  }

  -- What is appended to `inv.Subtrees` behind the loop.
  unfoldable pub close_root : Bool → State → Subtree
  close_root partial s = record (s.st) {
    partial = partial;
    columns = infer_columns s.st.root s.st.oids;
  }

  -- The loop over the roots. The error of `Walk` comes with the inventory so far.
  unfoldable pub walk_roots :
      ℕ → ℕ → List Text → ℕ → Inventory → World → Exec (Option Error × Inventory × World)
  walk_roots fuel max_oids [] total inv w = done (none, inv, w)
  walk_roots fuel max_oids (root ∷ roots) total inv w =
      elim (walk_root fuel max_oids (Oid.canonical root)
        (start_root (Oid.canonical root) total inv.pdus) w) [
          | out_of_fuel ↦ out_of_fuel
          | panicked ↦ panicked
          | done (failed_with e, s, w') ↦ done (some e, record inv { pdus = s.pdus }, w')
          | done (cut_short, s, w') ↦
              walk_roots fuel max_oids roots s.total
                (record inv {
                  subtrees = inv.subtrees ++ close_root true s ∷ [];
                  partial = true;
                  pdus = s.pdus;
                })
                w'
          | done (finished, s, w') ↦
              walk_roots fuel max_oids roots s.total
                (record inv { subtrees = inv.subtrees ++ close_root false s ∷ []; pdus = s.pdus })
                w'
        ]

  -- The clock is read at the start and at a successful end.
  unfoldable pub with_duration :
      ℕ → Option Error × Inventory × World → Option Error × Inventory × World
  with_duration start (some e, inv, w) = (some e, inv, w)
  with_duration start (none, inv, w) =
      let (n, w') = now w in (none, record inv { duration = n - start }, w')

  -- `Walk`.
  unfoldable pub walk : ℕ → ℕ → List Text → World → Exec (Option Error × Inventory × World)
  walk fuel max_oids roots w =
      let (start, w1) = now w in
      walk_roots fuel max_oids roots 0
        (record { subtrees = []; partial = false; pdus = 0; duration = 0 }) w1
      >>= λ end. done (with_duration start end)
