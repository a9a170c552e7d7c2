-- ===== src/Readiness/Token/Generations.antt =====
-- `next_generation` of run/slave/src/runtime/readiness/token.rs: after how many uses of a slot a
-- generation comes back.
use thwip.Prelude.{ℕ, zero, suc, ◌+◌, ◌-◌, ◌%◌, ◌^◌, ◌≤◌, ◌<◌, ◌≡◌, ◌↔◌, arith}
use thwip.Prelude.Bits.{bit_and-ones}
use thwip.Readiness.Token.{generation_mask, next_generation}

abbrev pub iterate : ℕ → ℕ → ℕ
iterate zero generation = generation
iterate (suc n) generation = next_generation (iterate n generation)

next_generation-cyclic :
    (g : ℕ) → 0 < g → g ≤ generation_mask → next_generation g ≡ g % generation_mask + 1
unfolding next_generation
next_generation-cyclic g positive small =
    let bits = bit_and-ones 30 ((g + 1) % 2 ^ 64) in ground (arith, bits)

iterate-cyclic :
    (n g : ℕ) → 0 < g → g ≤ generation_mask → iterate n g ≡ (g + n - 1) % generation_mask + 1
iterate-cyclic zero g positive small = omega arith
iterate-cyclic (suc n) g positive small =
    let ih = iterate-cyclic n g positive small in
    let next = next_generation-cyclic (iterate n g) (omega arith) (omega arith) in omega arith

-- A slot's generations stay from 1 to the mask, and one comes back after as many uses of the slot as the mask says
-- and after multiples of it, never earlier.
pub iterate-next_generation :
    (n g : ℕ)
    → 0 < g
    → g ≤ generation_mask
    → (0 < iterate n g)
      × (iterate n g ≤ generation_mask)
      × ((iterate n g ≡ g) ↔ (n % generation_mask ≡ 0))
iterate-next_generation n g positive small =
    let e = iterate-cyclic n g positive small in
    (omega arith, omega arith, (λ h. omega arith, λ h. omega arith))
