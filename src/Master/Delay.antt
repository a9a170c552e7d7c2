-- ===== src/Master/Delay.antt =====
-- `restart_delay` of run/master/src/main.rs: how the delay grows with the failures.
use thwip.Prelude.{ℕ, zero, suc, ◌+◌, ◌-◌, ◌*◌, ◌^◌, ◌≤◌, ◌<◌, ◌≡◌, ◌⊎◌, inl, inr, min, arith}
use native.Mathlib.Nat.{pow-suc, pow-le-pow_right}
use thwip.Master.{restart_base_delay, restart_max_delay, restart_delay}

-- The delay never shrinks as failures add up, and stays from the base delay to the longest one.
pub restart_delay-bounds :
    (a b : ℕ)
    → a ≤ b
    → (restart_base_delay ≤ restart_delay a)
      × (restart_delay a ≤ restart_delay b)
      × (restart_delay b ≤ restart_max_delay)
unfolding restart_delay
restart_delay-bounds a b h =
    let one : 2 ^ 0 ≤ 2 ^ min (a - 1) 16 = pow-le-pow_right (omega arith) {i = 0} (omega arith) in
    let grows : 2 ^ min (a - 1) 16 ≤ 2 ^ min (b - 1) 16 =
      pow-le-pow_right (omega arith) (omega arith) in
    (omega arith, omega arith, omega arith)

-- Every failure after the first doubles the delay, up to the longest one.
pub restart_delay-doubles :
    (failures : ℕ)
    → 0 < failures
    → restart_delay (failures + 1) ≡ min (2 * restart_delay failures) restart_max_delay
unfolding restart_delay
restart_delay-doubles zero h = absurd (omega arith)
restart_delay-doubles (suc f) h = go (omega arith)
  where
    next : suc f + 1 - 1 ≡ suc f
    next = omega arith

    go :
        (f < 16) ⊎ (16 ≤ f)
        → min (restart_base_delay * 2 ^ min (suc f + 1 - 1) 16) restart_max_delay
          ≡ min
              (2 * min (restart_base_delay * 2 ^ min (suc f - 1) 16) restart_max_delay)
              restart_max_delay
    go (inl lt) =
        let e : min (suc f + 1 - 1) 16 ≡ suc f = omega arith in
        let e' : min (suc f - 1) 16 ≡ f = omega arith in rw (e, e') (omega (arith, pow-suc 2 f))
    go (inr le) =
        let e : min (suc f + 1 - 1) 16 ≡ 16 = omega arith in
        let e' : min (suc f - 1) 16 ≡ 16 = omega arith in rw (e, e') (omega arith)
