-- ===== src/Walk/Table/Scope.antt =====
-- The loop of `table` over one response keeps its columns and its OIDs in scope, without a panic.
use snmptune.Prelude.{
  ℕ, ◌%◌, ◌<◌, ◌≡◌, ◌≢◌, refl, sym, ◌∙◌, Bool, true, false, not, ◌||◌, Option, none, some, inl, inr,
  ◌+◌, List, [], ◌∷◌, ◌++◌, arith, Bool-cases, All, All-snoc, All-get_or, All-set, length-set,
  length, get_or, set, if◌then◌else◌,
}
use mathlib.Core.Option.{none-ne-some}
use native.Mathlib.Nat.{mod-lt}
use snmptune.Text.{Text}
use snmptune.Oid.{parse, compare, has_prefix, skip_target, is_gt}
use snmptune.Oid.Order.{has_arcs_of_Before, greater_of_test}
use snmptune.Oid.Target.{skip_target_lem, skip_target-Advance, target-ne-nil}
use snmptune.Agent.{Varbind, is_end}
use snmptune.Exec.{OnSome}
use snmptune.Walk.{misordered_skipped}
use snmptune.Walk.Table.{
  Column, Scan, no_column, finish, jump, collect, take_varbind, visit, visit_all, keep_unfinished,
}

module _ (Scope : Text → Type 0) where
  -- The cursor has arcs, and what lies under the column is in scope.
  pub record IsColumn (c : Column) : Type 0 where
    pub arcs : parse c.cursor ≢ []
    pub covers : (o : Text) → has_prefix o c.oid ≡ true → Scope o

  pub record InScope (width : ℕ) (s : Scan) : Type 0 where
    pub columns : All IsColumn s.active
    pub wide : length s.active ≡ width
    pub inside : All Scope s.res.oids

  finish-InScope : (width i : ℕ) (s : Scan) → InScope width s → InScope width (finish i s)
  unfolding finish
  finish-InScope width i s h = record { columns = h.columns; wide = h.wide; inside = h.inside }

  jump-InScope :
      (width i : ℕ) (c : Column) (vb : Varbind) (s : Scan)
      → IsColumn c
      → InScope width s
      → OnSome (InScope width) (jump i c vb s)
  unfolding jump
  jump-InScope width i c vb s col h = by_target (skip_target c.cursor vb.oid) refl
    where
      moved : (target : Text) → parse target ≢ [] → Scan
      moved target arcs = record s {
        res = record (s.res) { skips = s.res.skips ++ c.oid ∷ [] };
        note = some misordered_skipped;
        active = set s.active i (record c { cursor = target; jumped = true });
      }

      moved-InScope : (target : Text) (arcs : parse target ≢ []) → InScope width (moved target arcs)
      moved-InScope target arcs = record {
        columns =
            All-set IsColumn s.active i (record c { cursor = target; jumped = true })
              (record { arcs = arcs; covers = col.covers }) h.columns;
        wide = length-set s.active i (record c { cursor = target; jumped = true }) ∙ h.wide;
        inside = h.inside;
      }

      by_target :
          (o : Option Text)
          → skip_target c.cursor vb.oid ≡ o
          → OnSome (InScope width) (elim o [
            | none ↦ none
            | some target ↦
                (let t = record s {
                  res = record (s.res) { skips = s.res.skips ++ c.oid ∷ [] };
                  note = some misordered_skipped;
                  active = set s.active i (record c { cursor = target; jumped = true });
                } in
                  some (if has_prefix target c.oid then t else finish i t))
          ])
      by_target none e =
          let (t, k, _) = skip_target_lem c.cursor vb.oid col.arcs in
          absurd (none-ne-some t (sym e ∙ k))
      by_target (some target) e =
          let arcs = target-ne-nil c.cursor target (skip_target-Advance c.cursor vb.oid target e) in
          elim (Bool-cases (has_prefix target c.oid)) [
            | inl k ↦ rw k (moved-InScope target arcs)
            | inr k ↦ rw k (finish-InScope width i _ (moved-InScope target arcs))
          ]

  collect-InScope :
      (width i : ℕ) (c : Column) (vb : Varbind) (s : Scan)
      → IsColumn c
      → has_prefix vb.oid c.oid ≡ true
      → parse vb.oid ≢ []
      → InScope width s
      → InScope width (collect i c vb s)
  unfolding collect
  collect-InScope width i c vb s col under arcs h = record {
    columns =
        All-set IsColumn s.active i (record c { cursor = vb.oid })
          (record { arcs = arcs; covers = col.covers }) h.columns;
    wide = length-set s.active i (record c { cursor = vb.oid }) ∙ h.wide;
    inside = All-snoc Scope s.res.oids vb.oid h.inside (col.covers vb.oid under);
  }

  take_varbind-InScope :
      (width i : ℕ) (c : Column) (vb : Varbind) (s : Scan)
      → IsColumn c
      → InScope width s
      → OnSome (InScope width) (take_varbind i c vb s)
  unfolding take_varbind
  take_varbind-InScope width i c vb s col h =
      elim (Bool-cases (get_or s.finished i false || c.jumped)) [
        | inl e ↦ rw e h
        | inr e ↦ rw e (elim (Bool-cases (is_end vb.value || not (has_prefix vb.oid c.oid))) [
          | inl k ↦ rw k (finish-InScope width i s h)
          | inr k ↦ rw k (elim (Bool-cases (not (is_gt (compare vb.oid c.cursor)))) [
            | inl m ↦ rw m (jump-InScope width i c vb s col h)
            | inr m ↦ rw m (
                collect-InScope width i c vb s col (ground arith)
                  (has_arcs_of_Before c.cursor vb.oid (greater_of_test vb.oid c.cursor m)) h)
          ])
        ])
      ]

  visit-InScope :
      (width rows idx : ℕ) (vb : Varbind) (s : Scan)
      → 0 < width
      → InScope width s
      → OnSome (InScope width) (visit width rows idx vb s)
  unfolding visit
  visit-InScope width rows idx vb s positive h =
      take_varbind-InScope width (idx % width) _ vb _
        (All-get_or IsColumn s.active (idx % width) no_column (rw h.wide (mod-lt idx positive))
          h.columns)
        (record { columns = h.columns; wide = h.wide; inside = h.inside })

  pub visit_all-InScope :
      (width rows idx : ℕ) (vbs : List Varbind) (s : Scan)
      → 0 < width
      → InScope width s
      → OnSome (InScope width) (visit_all width rows idx vbs s)
  unfolding visit_all
  visit_all-InScope width rows idx [] s positive h = h
  visit_all-InScope width rows idx (vb ∷ vbs) s positive h =
      by_visit (visit width rows idx vb s) (visit-InScope width rows idx vb s positive h)
        (λ t k. visit_all-InScope width rows (idx + 1) vbs t positive k)
    where
      by_visit :
          (o : Option Scan)
          → OnSome (InScope width) o
          → ((t : Scan)
              → InScope width t
              → OnSome (InScope width) (visit_all width rows (idx + 1) vbs t))
          → OnSome
              (InScope width)
              (elim o [ none ↦ none | some t ↦ visit_all width rows (idx + 1) vbs t ])
      by_visit none k more = absurd k
      by_visit (some t) k more = more t k

  pub All-keep_unfinished :
      (cs : List Column) (fs : List Bool) → All IsColumn cs → All IsColumn (keep_unfinished cs fs)
  unfolding keep_unfinished
  All-keep_unfinished [] fs h = tt
  All-keep_unfinished (c ∷ cs) [] h = h
  All-keep_unfinished (c ∷ cs) (true ∷ fs) (p, h) = All-keep_unfinished cs fs h
  All-keep_unfinished (c ∷ cs) (false ∷ fs) (p, h) = (p, All-keep_unfinished cs fs h)
