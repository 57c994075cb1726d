-- ===== src/Safety/Baseline.antt =====
-- What `NewCanary` measures.
use snmptune.Prelude.{
  ℕ, zero, suc, ◌/◌, ◌≡◌, ◌↔◌, refl, false, none, some, List, [], ◌∷◌, ◌++◌, arith, ltb, length,
  append_assoc, append-nil, subst, sym, get_or,
}
use snmptune.Agent.{Reply, Environment, sys_up_time_oid}
use snmptune.Slices.{sort}
use snmptune.Slices.Sorted.{IsQuantile, sort-IsQuantile, ltb-WeakOrder}
use snmptune.Safety.{Canary, baseline_probes, baseline_loop, with_baseline, new_canary, note_uptime}

-- The round-trip times of the answers among some replies.
abbrev pub answered_rtts : List Reply → List ℕ
answered_rtts [] = []
answered_rtts (r ∷ rs) =
    let rest = answered_rtts rs in elim r.error [ some _ ↦ rest | none ↦ r.response.rtt ∷ rest ]

with_baseline_lem :
    (rtts : List ℕ) (c : Canary)
    → ((with_baseline rtts c ≡ none) ↔ (rtts ≡ []))
      × ((c' : Canary)
          → with_baseline rtts c ≡ some c'
          → IsQuantile ltb rtts (length rtts / 2) c'.baseline)
unfolding with_baseline
with_baseline_lem [] c = ((λ _. refl, λ _. refl), λ c' h. cc)
with_baseline_lem (t ∷ ts) c = (
  (λ h. cc, λ h. cc),
  λ c' h.
      subst (IsQuantile ltb (t ∷ ts) (length (t ∷ ts) / 2))
        (let e : get_or (sort ltb (t ∷ ts)) (length (t ∷ ts) / 2) 0 ≡ c'.baseline = ground arith in
          e)
        (sort-IsQuantile ltb ltb-WeakOrder (t ∷ ts) (length (t ∷ ts) / 2) 0 (omega arith)),
)

module _ (env : Environment) where
  open env use {World, get}

  -- The replies to so many probes in a row.
  abbrev pub probes : ℕ → World → List Reply
  probes zero w = []
  probes (suc n) w = let (r, w') = get (sys_up_time_oid ∷ []) w in r ∷ probes n w'

  baseline_loop-rtts :
      (n : ℕ) (rtts : List ℕ) (c : Canary) (w : World)
      → (baseline_loop env n rtts c w).0 ≡ rtts ++ answered_rtts (probes n w)
  unfolding baseline_loop
  baseline_loop-rtts zero rtts c w = sym (append-nil rtts)
  baseline_loop-rtts (suc n) rtts c w =
      let (r, w') = get (sys_up_time_oid ∷ []) w in
      ground (
        arith,
        baseline_loop-rtts n (rtts ++ r.response.rtt ∷ []) (note_uptime c r.response) w',
        baseline_loop-rtts n rtts c w',
        append_assoc rtts (r.response.rtt ∷ []) (answered_rtts (probes n w')),
      )

  -- `NewCanary` fails exactly if each of its five probes gives an error, be it a timeout, an error of
  -- the transport or an error status that the agent answered with. Otherwise the baseline is a median
  -- of the times of the probes without an error: it is one of them, at most half of them are smaller, and at most
  -- half are greater.
  pub new_canary_lem :
      (w : World)
      → let rtts = answered_rtts (probes baseline_probes w) in
        (((new_canary env w).0 ≡ none) ↔ (rtts ≡ []))
        × ((c : Canary)
            → (new_canary env w).0 ≡ some c
            → IsQuantile ltb rtts (length rtts / 2) c.baseline)
  unfolding new_canary
  new_canary_lem w =
      let blank : Canary = record {
        baseline = 0;
        last_uptime = 0;
        seen = false;
        lost_probes = 0;
      } in
      let (rtts, c, _) = baseline_loop env baseline_probes [] blank w in
      subst
        (λ (l : List ℕ).
          ((with_baseline rtts c ≡ none) ↔ (l ≡ []))
          × ((c' : Canary)
              → with_baseline rtts c ≡ some c'
              → IsQuantile ltb l (length l / 2) c'.baseline))
        (baseline_loop-rtts baseline_probes [] blank w) (with_baseline_lem rtts c)
