-- ===== src/Prelude/Bits.antt =====
-- Binary digits: `|` and `&` on numbers put together from fields, in terms of arithmetic.
use Prim.Native.Nat.{
  ℕ, zero, suc, ◌+◌, ◌-◌, ◌*◌, ◌/◌, ◌%◌, ◌^◌, ◌≤◌, ◌<◌, min, max, bit_and, bit_or, digits,
  bit_and-bitwise, bit_or-bitwise,
}
use mathlib.Core.Path.{◌≡◌, refl, sym, ap, ◌∙◌}
use native.Mathlib.Omega.{arith}
use native.Mathlib.Nat.{pow-suc, one-le-pow, mod_def, mul-div-le, div-div-eq-div-mul, mul_comm}

-- The digits of a result do not depend on the count that the recursion runs on.
or_fuel : (n m a b : ℕ) → a ≤ n → a ≤ m → digits (λ y. y) max n a b ≡ digits (λ y. y) max m a b
or_fuel zero zero a b p q = refl
or_fuel zero (suc m) zero b p q = refl
or_fuel zero (suc m) (suc a) b p q = absurd (omega arith)
or_fuel (suc n) zero zero b p q = refl
or_fuel (suc n) zero (suc a) b p q = absurd (omega arith)
or_fuel (suc n) (suc m) zero b p q = refl
or_fuel (suc n) (suc m) (suc a) b p q =
    omega (arith, or_fuel n m (suc a / 2) (b / 2) (omega arith) (omega arith))

and_fuel :
    (n m a b : ℕ) → a ≤ n → a ≤ m → digits (λ y. zero) min n a b ≡ digits (λ y. zero) min m a b
and_fuel zero zero a b p q = refl
and_fuel zero (suc m) zero b p q = refl
and_fuel zero (suc m) (suc a) b p q = absurd (omega arith)
and_fuel (suc n) zero zero b p q = refl
and_fuel (suc n) zero (suc a) b p q = absurd (omega arith)
and_fuel (suc n) (suc m) zero b p q = refl
and_fuel (suc n) (suc m) (suc a) b p q =
    omega (arith, and_fuel n m (suc a / 2) (b / 2) (omega arith) (omega arith))

bit_or-halves : (a b : ℕ) → bit_or a b ≡ bit_or (a / 2) (b / 2) * 2 + max (a % 2) (b % 2)
bit_or-halves zero b = omega (arith, bit_or-bitwise 0 b, bit_or-bitwise 0 (b / 2))
bit_or-halves (suc a) b = omega (
  arith,
  bit_or-bitwise (suc a) b,
  bit_or-bitwise (suc a / 2) (b / 2),
  or_fuel a (suc a / 2) (suc a / 2) (b / 2) (omega arith) (omega arith),
)

bit_and-halves : (a b : ℕ) → bit_and a b ≡ bit_and (a / 2) (b / 2) * 2 + min (a % 2) (b % 2)
bit_and-halves zero b = omega (arith, bit_and-bitwise 0 b, bit_and-bitwise 0 (b / 2))
bit_and-halves (suc a) b = omega (
  arith,
  bit_and-bitwise (suc a) b,
  bit_and-bitwise (suc a / 2) (b / 2),
  and_fuel a (suc a / 2) (suc a / 2) (b / 2) (omega arith) (omega arith),
)

or_nothing : (n a : ℕ) → a ≤ n → bit_or a 0 ≡ a
or_nothing n zero h = omega (arith, bit_or-bitwise 0 0)
or_nothing zero (suc a) h = absurd (omega arith)
or_nothing (suc n) (suc a) h =
    omega (arith, bit_or-halves (suc a) 0, or_nothing n (suc a / 2) (omega arith))

and_nothing : (n a : ℕ) → a ≤ n → bit_and a 0 ≡ 0
and_nothing n zero h = omega (arith, bit_and-bitwise 0 0)
and_nothing zero (suc a) h = absurd (omega arith)
and_nothing (suc n) (suc a) h =
    omega (arith, bit_and-halves (suc a) 0, and_nothing n (suc a / 2) (omega arith))

double_div : (p a : ℕ) → a / (p * 2) ≡ a / 2 / p
double_div p a = ap (λ d. a / d) (mul_comm p 2) ∙ sym (div-div-eq-div-mul a 2 p)

double_mod : (p a : ℕ) → a % (p * 2) ≡ a / 2 % p * 2 + a % 2
double_mod p a =
    let e : p * 2 * (a / (p * 2)) ≡ p * (a / 2 / p) * 2 =
      ap (λ d. p * 2 * d) (double_div p a) ∙ omega arith in
    omega (arith, mod_def a (p * 2), mod_def (a / 2) p, mul-div-le (a / 2) p, e)

-- A field of `k` bits below the others: `|` adds it.
pub bit_or-add : (k a y : ℕ) → y < 2 ^ k → bit_or (a * 2 ^ k) y ≡ a * 2 ^ k + y
bit_or-add zero a y h =
    let e : y ≡ 0 = omega arith in
    let e' : a * 1 ≡ a = omega arith in rw (e, e') (or_nothing a a (omega arith) ∙ omega arith)
bit_or-add (suc k) a y h =
    step (bit_or-add k a (y / 2) (omega (arith, pow-suc 2 k))) ∙ omega (arith, shifted)
  where
    shifted : a * 2 ^ suc k ≡ a * 2 ^ k * 2
    shifted = ap (λ p. a * p) (pow-suc 2 k) ∙ omega arith

    step :
        bit_or (a * 2 ^ k) (y / 2) ≡ a * 2 ^ k + y / 2
        → bit_or (a * 2 ^ suc k) y ≡ a * 2 ^ k * 2 + y
    step ih =
        let half : a * 2 ^ k * 2 / 2 ≡ a * 2 ^ k = omega arith in
        rw shifted
          (omega (arith, bit_or-halves (a * 2 ^ k * 2) y, ap (λ x. bit_or x (y / 2)) half, ih))

-- A mask of `k` ones.
pub bit_and-ones : (k a : ℕ) → bit_and a (2 ^ k - 1) ≡ a % 2 ^ k
bit_and-ones zero a = and_nothing a a (omega arith) ∙ omega arith
bit_and-ones (suc k) a =
    let e : 2 ^ suc k ≡ 2 ^ k * 2 = pow-suc 2 k in
    let positive : 1 ≤ 2 ^ k = one-le-pow k 2 (omega arith) in
    let half : (2 ^ k * 2 - 1) / 2 ≡ 2 ^ k - 1 = omega arith in
    rw e (
      omega (
        arith,
        bit_and-halves a (2 ^ k * 2 - 1),
        ap (λ x. bit_and (a / 2) x) half,
        bit_and-ones k (a / 2),
        double_mod (2 ^ k) a,
      ))

-- A mask of one bit.
pub bit_and-bit : (k a : ℕ) → bit_and a (2 ^ k) ≡ a / 2 ^ k % 2 * 2 ^ k
bit_and-bit zero a = omega (arith, bit_and-halves a 1, and_nothing (a / 2) (a / 2) (omega arith))
bit_and-bit (suc k) a =
    let e : 2 ^ suc k ≡ 2 ^ k * 2 = pow-suc 2 k in
    let half : 2 ^ k * 2 / 2 ≡ 2 ^ k = omega arith in
    let value : a / (2 ^ k * 2) % 2 * (2 ^ k * 2) ≡ a / 2 / 2 ^ k % 2 * 2 ^ k * 2 =
      ap (λ d. d % 2 * (2 ^ k * 2)) (double_div (2 ^ k) a) ∙ omega arith in
    rw e (
      omega (
        arith,
        bit_and-halves a (2 ^ k * 2),
        ap (λ x. bit_and (a / 2) x) half,
        bit_and-bit k (a / 2),
        value,
      ))
