-- ===== src/Inventory/Walk/Complete.antt =====
-- Against an agent that keeps to the protocol, the reference walk finishes and finds every OID.
use snmptune.Prelude.{
  ℕ, zero, suc, ◌+◌, ◌<◌, ◌≡◌, ◌≢◌, refl, sym, ap, subst, ◌∙◌, Bool, true, false, Option, none,
  some, List, [], ◌∷◌, ◌++◌, arith, All, inl, inr, Bool-cases, if◌then◌else◌, length, append_assoc,
  append-nil, ◌==◌,
}
use snmptune.Text.{Text}
use snmptune.Oid.{compare, is_gt, has_prefix}
use snmptune.Oid.Order.{Before}
use snmptune.Agent.{Varbind, Response, Environment}
use snmptune.Agent.Served.{Serves, later, later-All, later-next, Before→is_gt, IsAnswer, IsSorted}
use snmptune.Exec.{done, OnSome, OnSome-mono, panicked, Ends, Ends-mono}
use snmptune.Inventory.{reference_repetitions}
use snmptune.Inventory.Walk.{
  State, End, finished, cut_short, failed_with, collect, visit, digest, request, round, walk_root,
}
use snmptune.Inventory.Walk.Convex.{leading}

-- The OIDs that are still to be collected under the root.
abbrev pub rest_of : List Text → Text → State → List Text
rest_of mib root s = leading root (later mib s.cursor)

-- From one state to a later one, nothing else of the subtree changes.
pub record Same (s t : State) : Type 0 where
  pub root : t.st.root ≡ s.st.root
  pub skipped : t.st.skipped ≡ s.st.skipped
  pub partial : t.st.partial ≡ s.st.partial

-- What some answers do: the walk has collected all that is left, or it goes on with fewer left.
data Progress (mib : List Text) (root : Text) (n : ℕ) (s t : State) : Type 0 where
  all : t.finished ≡ true → t.st.oids ≡ s.st.oids ++ rest_of mib root s → Progress mib root n s t
  some_left :
      t.finished ≡ false
      → t.st.oids ++ rest_of mib root t ≡ s.st.oids ++ rest_of mib root s
      → length (later mib t.cursor) + n ≡ length (later mib s.cursor)
      → Progress mib root n s t

module _ (mib : List Text) (sorted : IsSorted mib) (root : Text) where
  abbrev Visited : ℕ → State → State → Type 0
  Visited n s t = Same s t × Progress mib root n s t

  collect-Visited :
      (vb : Varbind) (s t : State) (os : List Text) (n : ℕ)
      → later mib s.cursor ≡ vb.oid ∷ os
      → has_prefix vb.oid root ≡ true
      → Visited n (collect vb s) t
      → Visited (suc n) s t
  unfolding leading
  collect-Visited vb s t os n e inside (same, p) =
      (record { root = same.root; skipped = same.skipped; partial = same.partial }, by_progress p)
    where
      next : later mib vb.oid ≡ os
      next = later-next mib s.cursor vb.oid os sorted e

      grown :
          (s.st.oids ++ vb.oid ∷ []) ++ leading root (later mib vb.oid)
          ≡ s.st.oids ++ rest_of mib root s
      grown = rw (e, next, inside) (append_assoc s.st.oids (vb.oid ∷ []) (leading root os))

      by_progress : Progress mib root n (collect vb s) t → Progress mib root (suc n) s t
      by_progress (all f q) = all f (q ∙ grown)
      by_progress (some_left f q l) = some_left f (q ∙ grown) (
          let k : length (later mib vb.oid) ≡ length os = ap length next in
          let m : length (later mib s.cursor) ≡ suc (length os) = ap length e ∙ refl in
          omega (arith, l, k, m))

  nothing_left : (s : State) → later mib s.cursor ≡ [] → s.st.oids ≡ s.st.oids ++ rest_of mib root s
  unfolding leading
  nothing_left s e = rw e (sym (append-nil s.st.oids))

  none_inside :
      (s : State) (o : Text) (os : List Text)
      → later mib s.cursor ≡ o ∷ os
      → has_prefix o root ≡ false
      → s.st.oids ≡ s.st.oids ++ rest_of mib root s
  unfolding leading
  none_inside s o os e k = rw (e, k) (sym (append-nil s.st.oids))

  first_later :
      (s : State) (o : Text) (os : List Text)
      → later mib s.cursor ≡ o ∷ os
      → is_gt (compare o s.cursor) ≡ true
  first_later s o os e =
      Before→is_gt o s.cursor (subst (All (Before s.cursor)) e (later-All mib s.cursor)).0

  unchanged : (s : State) → Same s s
  unchanged s = record { root = refl; skipped = refl; partial = refl }

  visit-Visited :
      (vbs : List Varbind) (s : State) (os : List Text)
      → later mib s.cursor ≡ os
      → IsAnswer os vbs
      → s.finished ≡ false
      → OnSome (Visited (length vbs) s) (visit root vbs s)
  unfolding visit
  visit-Visited [] s os e a f = (unchanged s, some_left f refl (omega arith))
  visit-Visited (vb ∷ vbs) s [] e a f =
      rw a (record { root = refl; skipped = refl; partial = refl }, all refl (nothing_left s e))
  visit-Visited (vb ∷ vbs) s (o ∷ os) e (same, not_end, a) f =
      let e' : later mib s.cursor ≡ vb.oid ∷ os = e ∙ ap (λ x. x ∷ os) (sym same) in
      elim (Bool-cases (has_prefix vb.oid root)) [
        | inr k ↦
            rw (not_end, k)
              (
                record { root = refl; skipped = refl; partial = refl },
                all refl (none_inside s vb.oid os e' k),
              )
        | inl k ↦
            rw (not_end, k, first_later s vb.oid os e')
              (OnSome-mono (Visited (length vbs) (collect vb s)) (Visited (suc (length vbs)) s)
                (visit root vbs (collect vb s))
                (visit-Visited vbs (collect vb s) os (later-next mib s.cursor vb.oid os sorted e') a
                  f)
                (λ t. collect-Visited vb s t os (length vbs) e' k))
      ]

-- How the walk of one root ends: finished, with all that was left.
abbrev pub Collected : {W : Type 0} → List Text → Text → State → End × State × W → Type 0
Collected mib root s (finished, t, w) = Same s t × (t.st.oids ≡ s.st.oids ++ rest_of mib root s)
Collected mib root s _ = ⊥

abbrev RoundDone : {W : Type 0} → List Text → Text → State → Option End × State × W → Type 0
RoundDone mib root s (some end, t, w) = Collected mib root s (end, t, w)
RoundDone mib root s (none, t, w) =
    Same s t
    × (t.st.oids ++ rest_of mib root t ≡ s.st.oids ++ rest_of mib root s)
    × (length (later mib t.cursor) < length (later mib s.cursor))

Same-trans : {s t u : State} → Same s t → Same t u → Same s u
Same-trans h k = record {
  root = k.root ∙ h.root;
  skipped = k.skipped ∙ h.skipped;
  partial = k.partial ∙ h.partial;
}

module _ (env : Environment) (mib : List Text) (serves : Serves env mib) (root : Text) where
  open env use {World, ctx_err, get_bulk}
  open serves use {sorted, alive, answered, some_answer, answer}

  digest-Visited :
      (resp : Response) (s : State)
      → resp.varbinds ≢ []
      → IsAnswer (later mib s.cursor) resp.varbinds
      → OnSome (Visited mib sorted root (length resp.varbinds) s) (digest root resp s)
  unfolding digest
  digest-Visited resp s some_vb a =
      OnSome-mono (Visited mib sorted root (length resp.varbinds) s0) _
        (visit root resp.varbinds s0)
        (visit-Visited mib sorted root resp.varbinds s0 (later mib s.cursor) refl a
          (not_empty resp.varbinds some_vb))
        (λ t (same, p). (
          record { root = same.root; skipped = same.skipped; partial = same.partial },
          by_progress t p,
        ))
    where
      s0 : State
      s0 = record s {
        pdus = s.pdus + 1;
        st = record (s.st) { bytes = s.st.bytes + resp.bytes };
        finished = length resp.varbinds == 0;
      }

      not_empty : (vbs : List Varbind) → vbs ≢ [] → (length vbs == 0) ≡ false
      not_empty [] h = absurd (h refl)
      not_empty (vb ∷ vbs) h = ground arith

      by_progress :
          (t : State)
          → Progress mib root (length resp.varbinds) s0 t
          → Progress mib root (length resp.varbinds) s t
      by_progress t (all f q) = all f q
      by_progress t (some_left f q l) = some_left f q l

  positive : (vbs : List Varbind) → vbs ≢ [] → 0 < length vbs
  positive [] h = absurd (h refl)
  positive (vb ∷ vbs) h = omega arith

  request-RoundDone : (s : State) (w : World) → OnSome (RoundDone mib root s) (request env root s w)
  unfolding request
  request-RoundDone s w =
      let (r, w1) = get_bulk (s.cursor ∷ []) reference_repetitions w in
      rw (answered s.cursor reference_repetitions w (omega arith), request)
        (by_digest (length r.response.varbinds)
          (positive r.response.varbinds
            (some_answer s.cursor reference_repetitions w (omega arith)))
          (digest root r.response s) w1
          (digest-Visited r.response s (some_answer s.cursor reference_repetitions w (omega arith))
            (answer s.cursor reference_repetitions w (omega arith))))
    where
      flagged :
          (b : Bool) (t : State) (w1 : World)
          → (b ≡ true → RoundDone mib root s (some finished, t, w1))
          → (b ≡ false → RoundDone mib root s (none, t, w1))
          → RoundDone mib root s ((if b then some finished else none), t, w1)
      flagged true t w1 h k = h refl
      flagged false t w1 h k = k refl

      by_digest :
          (n : ℕ)
          → 0 < n
          → (o : Option State) (w1 : World) → OnSome (Visited mib sorted root n s) o
          → OnSome (RoundDone mib root s) (elim o [
            | none ↦ none
            | some t ↦ some ((if t.finished then some finished else none), t, w1)
          ])
      by_digest n pos none w1 h = absurd h
      by_digest n pos (some t) w1 (same, all f q) =
          flagged t.finished t w1 (λ e. (same, q)) (λ e. cc)
      by_digest n pos (some t) w1 (same, some_left f q l) =
          flagged t.finished t w1 (λ e. cc) (λ e. (same, q, omega arith))

  round-RoundDone : (s : State) (w : World) → OnSome (RoundDone mib root s) (round env 0 root s w)
  unfolding round
  round-RoundDone s w = rw (alive w, round) (request-RoundDone s (ctx_err w).1)

  pub walk_root-Collected :
      (fuel : ℕ) (s : State) (w : World)
      → length (later mib s.cursor) < fuel
      → Ends (Collected mib root s) (walk_root env fuel 0 root s w)
  unfolding walk_root
  walk_root-Collected zero s w lt = absurd (omega arith)
  walk_root-Collected (suc fuel) s w lt =
      by_round (round env 0 root s w) (round-RoundDone s w) (walk_root-Collected fuel)
    where
      by_round :
          (o : Option (Option End × State × World))
          → OnSome (RoundDone mib root s) o
          → ((t : State) (w' : World)
              → length (later mib t.cursor) < fuel
              → Ends (Collected mib root t) (walk_root env fuel 0 root t w'))
          → Ends (Collected mib root s) (elim o [
            | none ↦ panicked
            | some (some end, s', w') ↦ done (end, s', w')
            | some (none, s', w') ↦ walk_root env fuel 0 root s' w'
          ])
      by_round none h again = absurd h
      by_round (some (some end, t, w')) h again = h
      by_round (some (none, t, w')) (same, q, l) again =
          Ends-mono (Collected mib root t) (Collected mib root s) _ (again t w' (omega arith))
            (λ a k. further a k same q)
        where
          further :
              (a : End × State × World)
              → Collected mib root t a
              → Same s t
              → t.st.oids ++ rest_of mib root t ≡ s.st.oids ++ rest_of mib root s
              → Collected mib root s a
          further (finished, u, w2) (k, e) same q = (Same-trans same k, e ∙ q)
          further (cut_short, u, w2) k same q = absurd k
          further (failed_with x, u, w2) k same q = absurd k
