-- ===== src/Agent/Sim/Plain.antt =====
-- The simulated agent without its faults keeps to the protocol.
use snmptune.Prelude.{
  ℕ, zero, suc, ◌+◌, ◌≡◌, ◌≢◌, refl, sym, ap, ◌∙◌, subst, Bool, true, false, ◌&&◌, ◌||◌, Option,
  none, some, List, [], ◌∷◌, ◌++◌, map, length, ltb, leb, ◌==◌, arith, All, Bool-cases, inl, inr,
  append_assoc, append-nil, if◌then◌else◌,
}
use snmptune.Text.{Text}
use snmptune.Oid
use snmptune.Oid.{Arcs, compare, compare_arcs, is_gt}
use snmptune.Agent.Sim
use snmptune.Agent.{Varbind, other, end_of_mib_view, is_end}
use snmptune.Agent.Served.{later, later-next, IsSorted, IsAnswer}
use snmptune.Agent.Sim.{
  SimAgent, RequestKind, getbulk, get, find, value_or, restart, begin, first_after, next,
  encoded_size, finish, bulk_row, bulk_rows, Bulk, sim_get, sim_get_bulk, get_one,
}

-- No loop, no misorder, no error and no limit of bytes is set, no answer comes too late, and the OIDs
-- are sorted already; the rows may be limited, and a restart may be set.
pub record IsPlain (mib : List Text) (a : SimAgent) : Type 0 where
  pub no_loop : a.loop_oid ≡ []
  pub no_misorder : a.misorder ≡ []
  pub no_error : a.error_above ≡ 0
  pub no_limit : a.max_bytes ≡ 0
  pub prompt : (n : ℕ) → ltb a.timeout (a.rtt n) ≡ false
  pub keys : a.keys ≡ mib
  pub arcs : a.arcs ≡ map Oid.parse mib
  pub values : All (λ k. is_end (value_or other (find a.values k)) ≡ false) mib

module _ (mib : List Text) where
  restart-IsPlain : (a : SimAgent) → IsPlain mib a → IsPlain mib (restart a)
  unfolding restart
  restart-IsPlain a h = by_flag (ltb 0 a.restart_after && leb a.restart_after (length a.requests))
    where
      by_flag :
          (b : Bool) → IsPlain mib (if b then record a { uptime = 0; restart_after = 0 } else a)
      by_flag true = record {
        no_loop = h.no_loop;
        no_misorder = h.no_misorder;
        no_error = h.no_error;
        no_limit = h.no_limit;
        prompt = h.prompt;
        keys = h.keys;
        arcs = h.arcs;
        values = h.values;
      }
      by_flag false = h

  is_ready :
      (ks os : List Text) (bs : List Arcs)
      → ks ≡ os
      → bs ≡ map Oid.parse os
      → (ltb 0 (length bs) || length ks == 0) ≡ true
  is_ready ks [] bs e f = rw (e, f) refl
  is_ready ks (o ∷ os) bs e f = rw (e, f) (ground arith)

  pub begin-IsPlain : (a : SimAgent) → IsPlain mib a → IsPlain mib (begin a)
  unfolding begin
  begin-IsPlain a h =
      let k = restart-IsPlain a h in
      rw (is_ready (restart a).keys mib (restart a).arcs k.keys k.arcs) k

  finish-IsPlain :
      (kind : RequestKind) (oids : List Text) (reps : ℕ) (vbs : List Varbind) (a : SimAgent)
      → IsPlain mib a
      → IsPlain mib (finish kind oids reps vbs a).1
  unfolding finish
  finish-IsPlain kind oids reps vbs a h = rw (h.prompt (length vbs)) (record {
    no_loop = h.no_loop;
    no_misorder = h.no_misorder;
    no_error = h.no_error;
    no_limit = h.no_limit;
    prompt = h.prompt;
    keys = h.keys;
    arcs = h.arcs;
    values = h.values;
  })

abbrev first : List Text → Option Text
first [] = none
first (o ∷ os) = some o

first_after-later :
    (os : List Text) (c : Text)
    → first_after os (map Oid.parse os) (Oid.parse c) ≡ first (later os c)
unfolding first_after later compare
first_after-later [] c = refl
first_after-later (o ∷ os) c =
    elim (Bool-cases (is_gt (compare_arcs (Oid.parse o) (Oid.parse c)))) [
      | inl e ↦ rw e refl
      | inr e ↦ rw e (first_after-later os c)
    ]

-- A varbind that answers for the first of these OIDs.
abbrev IsNext : List Text → Varbind → Type 0
IsNext [] vb = is_end vb.value ≡ true
IsNext (o ∷ os) vb = (vb.oid ≡ o) × (is_end vb.value ≡ false)

later-All_of : (P : Text → Type 0) (os : List Text) (c : Text) → All P os → All P (later os c)
unfolding later
later-All_of P [] c h = tt
later-All_of P (o ∷ os) c (p, ps) = elim (Bool-cases (is_gt (compare o c))) [
  | inl e ↦ rw e (p, later-All_of P os c ps)
  | inr e ↦ rw e (later-All_of P os c ps)
]

module _ (mib : List Text) (sorted : IsSorted mib) (a : SimAgent) (plain : IsPlain mib a) where
  open plain use {no_loop, no_misorder, no_limit, keys, arcs, values}

  next-IsNext : (c : Text) → IsNext (later mib c) (next a (Oid.parse c))
  unfolding next find is_end
  next-IsNext c =
      rw (no_loop, no_misorder, keys, arcs, first_after-later mib c)
        (by_later (later mib c)
          (later-All_of (λ k. is_end (value_or other (find a.values k)) ≡ false) mib c values))
    where
      by_later :
          (os : List Text)
          → All (λ k. is_end (value_or other (find a.values k)) ≡ false) os
          → IsNext os (elim (first os) [
            | none ↦ record { oid = Sim.fmt_arcs (Oid.parse c); value = end_of_mib_view }
            | some k ↦ record { oid = k; value = value_or other (find a.values k) }
          ])
      by_later [] h = refl
      by_later (o ∷ os) (h, hs) = (refl, h)

  bulk_row-one :
      (c : Text) (bytes : ℕ) (vbs : List Varbind)
      → let vb = next a (Oid.parse c) in
        bulk_row a [] (Oid.parse c ∷ []) bytes vbs ≡ record {
          cursors = Oid.parse vb.oid ∷ [];
          bytes = bytes + encoded_size vb;
          vbs = vbs ++ vb ∷ [];
          full = false;
        }
  unfolding bulk_row
  bulk_row-one c bytes vbs = rw no_limit refl

  -- What the rows from one on add to the varbinds so far.
  record Added (os : List Text) (vbs : List Varbind) (all : List Varbind) : Type 0 where
    tail : List Varbind
    appended : all ≡ vbs ++ tail
    answers : IsAnswer os tail

  Added-none : (os : List Text) (vbs : List Varbind) → Added os vbs vbs
  Added-none os vbs = record { tail = []; appended = sym (append-nil vbs); answers = tt }

  Added-one :
      (c : Text) (vbs all : List Varbind)
      → Added (later mib (next a (Oid.parse c)).oid) (vbs ++ next a (Oid.parse c) ∷ []) all
      → Added (later mib c) vbs all
  Added-one c vbs all h = record {
    tail = vb ∷ h.tail;
    appended = h.appended ∙ append_assoc vbs (vb ∷ []) h.tail;
    answers = by_later (later mib c) refl (next-IsNext c);
  }
    where
      vb : Varbind
      vb = next a (Oid.parse c)

      by_later : (os : List Text) → later mib c ≡ os → IsNext os vb → IsAnswer os (vb ∷ h.tail)
      by_later [] e k = k
      by_later (o ∷ os) e (same, k) = (
        same,
        k,
        subst (λ l. IsAnswer l h.tail) (ap (later mib) same ∙ later-next mib c o os sorted e)
            h.answers,
      )

  bulk_rows-Added :
      (left r : ℕ) (c : Text) (bytes : ℕ) (vbs : List Varbind)
      → Added (later mib c) vbs (bulk_rows a left r (Oid.parse c ∷ []) bytes vbs)
  unfolding bulk_rows
  bulk_rows-Added zero r c bytes vbs = Added-none (later mib c) vbs
  bulk_rows-Added (suc left) r c bytes vbs =
      let vb = next a (Oid.parse c) in
      let more = bulk_rows-Added left (suc r) vb.oid (bytes + encoded_size vb) (vbs ++ vb ∷ []) in
      elim (Bool-cases (ltb 0 a.max_rows && leb a.max_rows r)) [
        | inl e ↦ rw e (Added-none (later mib c) vbs)
        | inr e ↦ rw (e, bulk_row-one c bytes vbs) (Added-one c vbs _ more)
      ]

  not_capped : (m : ℕ) → (ltb 0 m && leb m 0) ≡ false
  not_capped m = ground arith

  -- The first row is always there.
  pub bulk_rows-ne-nil :
      (left : ℕ) (c : Text) → bulk_rows a (suc left) 0 (Oid.parse c ∷ []) 0 [] ≢ []
  unfolding bulk_rows
  bulk_rows-ne-nil left c =
      let vb = next a (Oid.parse c) in
      let more = bulk_rows-Added left 1 vb.oid (0 + encoded_size vb) (vb ∷ []) in
      rw (not_capped a.max_rows, bulk_row-one c 0 []) (λ e. cc (sym more.appended ∙ e))

  pub bulk_rows-IsAnswer :
      (n : ℕ) (c : Text) → IsAnswer (later mib c) (bulk_rows a n 0 (Oid.parse c ∷ []) 0 [])
  bulk_rows-IsAnswer n c =
      let h = bulk_rows-Added n 0 c 0 [] in
      subst (IsAnswer (later mib c)) (sym h.appended) h.answers

module _ (mib : List Text) (sorted : IsSorted mib) where
  pub sim_get-IsPlain :
      (oids : List Text) (a : SimAgent) → IsPlain mib a → IsPlain mib (sim_get none oids a).1
  unfolding sim_get
  sim_get-IsPlain oids a h = finish-IsPlain mib get oids 0 _ (begin a) (begin-IsPlain mib a h)

  -- What `GetBulk` answers: the rows, as no error is set.
  pub sim_get_bulk-finish :
      (oids : List Text) (n : ℕ) (a : SimAgent)
      → IsPlain mib a
      → sim_get_bulk none oids n a
        ≡ finish getbulk oids n (bulk_rows (begin a) n 0 (map Oid.parse oids) 0 []) (begin a)
  unfolding sim_get_bulk
  sim_get_bulk-finish oids n a h = rw (begin-IsPlain mib a h).no_error refl

  pub sim_get_bulk-IsPlain :
      (oids : List Text) (n : ℕ) (a : SimAgent)
      → IsPlain mib a
      → IsPlain mib (sim_get_bulk none oids n a).1
  sim_get_bulk-IsPlain oids n a h =
      rw (sim_get_bulk-finish oids n a h)
        (finish-IsPlain mib getbulk oids n _ (begin a) (begin-IsPlain mib a h))
