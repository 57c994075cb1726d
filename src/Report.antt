-- ===== src/Report.antt =====
-- internal/report/report.go: the recommendation behind a search. Sizes and times are not negative;
-- the command line refuses an MTU below 576.
pub mod Datagram
pub mod Choice
pub mod View
pub mod Lines
pub mod Marks
pub mod Agreement
use snmptune.Prelude.{
  ℕ, zero, suc, ◌+◌, ◌*◌, ◌/◌, ◌-◌, Bool, true, false, ◌&&◌, ◌||◌, not, Option, none, some, List,
  [], ◌∷◌, ◌++◌, min, max, length, get_or, ltb, leb, ◌==◌, if◌then◌else◌,
}
use snmptune.Float.{FloatOps}
use snmptune.Slices.{sort}
use snmptune.Walk.{Settings, Result, Pdu, product, settings_eq}
use snmptune.Search.{Trial, Outcome, Label, is_try, ok, start, best_from, peak}

abbrev pub timeout_factor : ℕ
timeout_factor = 3

abbrev pub timeout_round_ms : ℕ
timeout_round_ms = 100

abbrev pub timeout_floor_ms : ℕ
timeout_floor_ms = 500

abbrev pub default_mtu : ℕ
default_mtu = 1500

abbrev pub udp_overhead : ℕ
udp_overhead = 28

unfoldable pub datagram_limit : ℕ → ℕ
datagram_limit mtu = mtu - udp_overhead

unfoldable pub fragments : ℕ → ℕ → ℕ
fragments payload mtu = let per = mtu - 20 in (payload + 8 + per - 1) / per

unfoldable pub fill_pct : ℕ → ℕ → ℕ
fill_pct payload limit = (payload * 100 + limit / 2) / limit

-- The loops of `maxBytes`.
unfoldable pub max_pdu_bytes : ℕ → List Pdu → ℕ
max_pdu_bytes n [] = n
max_pdu_bytes n (p ∷ ps) = max_pdu_bytes (max n p.bytes) ps

unfoldable pub max_run_bytes : ℕ → List Result → ℕ
max_run_bytes n [] = n
max_run_bytes n (run ∷ runs) = max_run_bytes (max_pdu_bytes n run.pdus) runs

unfoldable pub max_bytes : {F : Type 0} → Trial F → ℕ
max_bytes t = max_run_bytes 0 t.runs

-- The loops of `rtts`: the times of clean requests, and whether any was retried.
unfoldable pub pdu_rtts : List ℕ × Bool → List Pdu → List ℕ × Bool
pdu_rtts acc [] = acc
pdu_rtts (out, retried) (p ∷ ps) =
    let next = elim p.error as (λ _. List ℕ × Bool) [
      | none ↦ (out ++ p.rtt ∷ [], retried)
      | some _ ↦ (out, retried)
    ] in
    pdu_rtts (if ltb 0 p.retries then (out, true) else next) ps

unfoldable pub run_rtts : List ℕ × Bool → List Result → List ℕ × Bool
run_rtts acc [] = acc
run_rtts acc (run ∷ runs) = run_rtts (pdu_rtts acc run.pdus) runs

unfoldable pub rtts : {F : Type 0} → Trial F → List ℕ × Bool
rtts t = run_rtts ([], false) t.runs

-- `Recommendation.Reason` by what it says; `oversize` wraps it.
pub data Reason (F : Type 0) : Type 0 where
  best_requested : ℕ → F → Reason F
  default_sustained none_below : Reason F
  headroom : Settings → F → Reason F
  oversize : ℕ → Reason F → Reason F

-- `Recommendation`, without the two times in float milliseconds, which only the output shows.
pub record Recommendation (F : Type 0) : Type 0 where
  pub settings : Settings
  pub peak : Settings
  pub reason : Reason F
  pub p50 : ℕ
  pub p99 : ℕ
  pub timeout_ms : ℕ
  pub retry : ℕ
  pub max_bytes : ℕ
  pub fragmented : Bool

-- The loop of `allRequested`.
unfoldable pub only_tries : {F : Type 0} → List (Trial F) → Bool
only_tries [] = true
only_tries (t ∷ ts) = let rest = only_tries ts in if is_try t.phase then rest else false

unfoldable pub all_requested : {F : Type 0} → Outcome F → Bool
all_requested o = only_tries o.trials && ltb 0 (length o.trials)

module _ (float : FloatOps) where
  open float use {F, of_nat, mul, div, lt, ceil}

  -- The test of `bestWithin`.
  unfoldable pub fits_within : ℕ → Trial F → Bool
  fits_within limit t = ok t && leb (max_bytes t) limit

  unfoldable pub best_within : Outcome F → ℕ → Option (Trial F)
  best_within o limit = best_from float (fits_within limit) none o.trials

  -- `SuggestTimeout`; 1 ms is 10^6 ns.
  unfoldable pub suggest_timeout : ℕ → ℕ
  suggest_timeout p99 =
      let v =
        ceil
          (div (mul (of_nat (p99 / 1_000_000)) (of_nat timeout_factor)) (of_nat timeout_round_ms))
        * timeout_round_ms in
      max v timeout_floor_ms

  unfoldable pub percentile : List ℕ → F → ℕ
  percentile [] pct = 0
  percentile (d ∷ ds) pct =
      let s = sort ltb (d ∷ ds) in
      let i = ceil (mul (div pct (of_nat 100)) (of_nat (length s))) - 1 in
      get_or s (min i (length s - 1)) 0

  -- Whether the loop of `recommend` takes `t` in the place of `below`.
  unfoldable pub is_notch : Trial F → ℕ → Trial F → Bool
  is_notch peak limit t =
      ok t && not (leb (product peak.settings) (product t.settings)) && leb (max_bytes t) limit

  unfoldable pub is_higher : Trial F → Option (Trial F) → Bool
  is_higher t none = true
  is_higher t (some below) =
      ltb (product below.settings) (product t.settings)
      || (product t.settings == product below.settings && lt below.score t.score)

  unfoldable pub notch_from : Trial F → ℕ → Option (Trial F) → List (Trial F) → Option (Trial F)
  notch_from peak limit below [] = below
  notch_from peak limit below (t ∷ ts) =
      notch_from peak limit (if is_notch peak limit t && is_higher t below then some t else below)
        ts

  -- The trial that `recommend` chooses, and its reason.
  unfoldable pub choose : Outcome F → ℕ → Trial F → Trial F × Reason F
  choose o limit peak =
      if all_requested o
      then (peak, best_requested limit peak.score)
      else if settings_eq peak.settings start
      then (peak, default_sustained)
      else elim (notch_from peak limit none o.trials) [
        | some below ↦ (below, headroom peak.settings peak.score)
        | none ↦ (peak, none_below)
      ]

  -- The end of `recommend`.
  unfoldable pub fill_in : ℕ → Bool → Trial F → Trial F × Reason F → Recommendation F
  fill_in limit fragmented peak (chosen, reason) =
      let (times, retried) = rtts chosen in
      let p99 = percentile times (of_nat 99) in
      record {
        settings = chosen.settings;
        peak = peak.settings;
        reason = if fragmented then oversize limit reason else reason;
        p50 = percentile times (of_nat 50);
        p99 = p99;
        timeout_ms = suggest_timeout p99;
        retry = if retried then 2 else 1;
        max_bytes = max_bytes chosen;
        fragmented = fragmented;
      }

  -- `recommend`; `none` is its false.
  unfoldable pub recommend : Outcome F → ℕ → Option (Recommendation F)
  recommend o limit = elim (best_within o limit) [
    | some t ↦ some (fill_in limit false t (choose o limit t))
    | none ↦ elim (peak float o) [
      | some t ↦ some (fill_in limit true t (choose o limit t))
      | none ↦ none
    ]
  ]
