-- ===== src/Report/Datagram.antt =====
-- Sizes: datagrams, fragments, and the timeout that is suggested.
use snmptune.Prelude.{
  ℕ, suc, zero, ◌+◌, ◌-◌, ◌*◌, ◌/◌, ◌%◌, ◌^◌, ◌≤◌, ◌<◌, ◌≡◌, ◌↔◌, arith, subst, refl,
}
use native.Mathlib.Nat.{div-add-mod, mod-lt}
use snmptune.Float.{FloatOps}
use snmptune.Report.{datagram_limit, fragments, suggest_timeout, timeout_floor_ms}

round_up :
    (x per : ℕ) → 0 < per → (x ≤ (x + per - 1) / per * per) × ((x + per - 1) / per * per < x + per)
round_up x per h =
    let q = (x + per - 1) / per in
    let e : per * q + (x + per - 1) % per ≡ x + per - 1 = div-add-mod (x + per - 1) per in
    let r : (x + per - 1) % per < per = mod-lt (x + per - 1) h in (omega arith, omega arith)

-- The fragments of a payload are just enough for it and the 8-byte UDP header, at `mtu - 20` bytes
-- each: with one fewer they would not fit.
pub fragments_exact :
    (payload mtu : ℕ)
    → 20 < mtu
    → (payload + 8 ≤ fragments payload mtu * (mtu - 20))
      × (fragments payload mtu * (mtu - 20) < payload + 8 + (mtu - 20))
unfolding fragments
fragments_exact payload mtu h = round_up (payload + 8) (mtu - 20) (omega arith)

one_times : (q x per : ℕ) → 0 < x → x ≤ per → x ≤ q * per → q * per < x + per → q ≡ 1
one_times zero x per p small lo hi = absurd (omega arith)
one_times (suc zero) x per p small lo hi = refl
one_times (suc (suc q)) x per p small lo hi = absurd (grind arith)

-- A payload goes in one fragment exactly if it is within the datagram limit.
pub fragments_one :
    (payload mtu : ℕ) → 28 ≤ mtu → (fragments payload mtu ≡ 1) ↔ (payload ≤ datagram_limit mtu)
unfolding datagram_limit
fragments_one payload mtu h =
    let (lo, hi) = fragments_exact payload mtu (omega arith) in
    (
      λ e. one_fits (subst (λ n. payload + 8 ≤ n * (mtu - 20)) e lo),
      λ small.
          one_times (fragments payload mtu) (payload + 8) (mtu - 20) (omega arith) (omega arith) lo
            hi,
    )
  where
    one_fits : payload + 8 ≤ 1 * (mtu - 20) → payload ≤ mtu - 28
    one_fits k = omega arith

module _ (float : FloatOps) where
  open float use {F, of_nat, mul, div, ceil}

  -- Where the float quotient of a product by 100 is rounded up exactly, the suggested timeout is the
  -- smallest multiple of 100 ms that is at least 500 ms and at least three times the p99 in whole
  -- milliseconds, whose fraction the code drops first. So it can stay below three times the exact
  -- p99, by less than 3 ms.
  pub suggest_timeout_lem :
      (p99 : ℕ)
      → ((a b : ℕ)
          → a * b < 2 ^ 46
          → ceil (div (mul (of_nat a) (of_nat b)) (of_nat 100)) ≡ (a * b + 99) / 100)
      → p99 / 1_000_000 * 3 < 2 ^ 46
      → let t = suggest_timeout float p99 in
        (t % 100 ≡ 0)
        × (p99 / 1_000_000 * 3 ≤ t)
        × (timeout_floor_ms ≤ t)
        × ((u : ℕ) → u % 100 ≡ 0 → p99 / 1_000_000 * 3 ≤ u → timeout_floor_ms ≤ u → t ≤ u)
        × (p99 * 3 < (t + 3) * 1_000_000)
  unfolding suggest_timeout
  suggest_timeout_lem p99 exact small =
      let e = exact (p99 / 1_000_000) 3 small in
      (
        omega (arith, e),
        omega (arith, e),
        omega (arith, e),
        λ u h k l. omega (arith, e),
        omega (arith, e),
      )
