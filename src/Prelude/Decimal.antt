-- ===== src/Prelude/Decimal.antt =====
-- Decimal numbers: what `to_string` writes, `parse` reads.
use thwip.Prelude.Tests.{ltb, ◌==◌, Bool-cases}
use thwip.Prelude.Text.{Bytes, is_ascii_digit, decimal_onto, to_decimal, digits_value, parse_uint}
use thwip.Prelude.Lists.{All}
use Prim.Native.Nat.{ℕ, zero, suc, ◌+◌, ◌-◌, ◌*◌, ◌/◌, ◌%◌, ◌^◌, ◌<◌}
use mathlib.Core.Bool.{true, false}
use mathlib.Core.List.{[], ◌∷◌}
use mathlib.Core.Logic.{◌≢◌, ◌⊎◌, inl, inr}
use mathlib.Core.Option.{some}
use mathlib.Core.Path.{◌≡◌, refl, ◌∙◌, ap}
use native.Mathlib.Omega.{arith}

digits_value-cons :
    (acc d : ℕ) (out : Bytes)
    → d < 10
    → digits_value acc ((b'0' + d) ∷ out) ≡ digits_value (acc * 10 + d) out
digits_value-cons acc d out h = step (ground arith) (omega arith)
  where
    step :
        is_ascii_digit (b'0' + d) ≡ true
        → b'0' + d - b'0' ≡ d
        → digits_value acc ((b'0' + d) ∷ out) ≡ digits_value (acc * 10 + d) out
    step e e' = unfold digits_value in rw (digits_value, e, e')

decimal_onto-value :
    (fuel n : ℕ) (out : Bytes)
    → n < fuel
    → digits_value 0 (decimal_onto fuel n out) ≡ digits_value n out
decimal_onto-value zero n out h = elim h [ ]
decimal_onto-value (suc fuel) n out h = elim (Bool-cases (ltb n 10)) [
  | inl small ↦ done small (digits_value-cons 0 n out (ground arith))
  | inr big ↦
      let ih = decimal_onto-value fuel (n / 10) ((b'0' + n % 10) ∷ out) (ground arith) in
      more big ih (digits_value-cons (n / 10) (n % 10) out (omega arith)) (omega arith)
]
  where
    done :
        ltb n 10 ≡ true
        → digits_value 0 ((b'0' + n) ∷ out) ≡ digits_value (0 * 10 + n) out
        → digits_value 0 (decimal_onto (suc fuel) n out) ≡ digits_value n out
    done e d =
        let e' : 0 * 10 + n ≡ n = omega arith in
        unfold decimal_onto in rw (decimal_onto, e) (d ∙ ap (λ k. digits_value k out) e')

    more :
        ltb n 10 ≡ false
        → digits_value 0 (decimal_onto fuel (n / 10) ((b'0' + n % 10) ∷ out))
          ≡ digits_value (n / 10) ((b'0' + n % 10) ∷ out)
        → digits_value (n / 10) ((b'0' + n % 10) ∷ out) ≡ digits_value (n / 10 * 10 + n % 10) out
        → n / 10 * 10 + n % 10 ≡ n
        → digits_value 0 (decimal_onto (suc fuel) n out) ≡ digits_value n out
    more e ih d e' =
        unfold decimal_onto in rw (decimal_onto, e) (ih ∙ d ∙ ap (λ k. digits_value k out) e')

-- The value of the digits is the number.
pub digits_value-to_decimal : (n : ℕ) → digits_value 0 (to_decimal n) ≡ some n
digits_value-to_decimal n = whole (decimal_onto-value (suc n) n [] (omega arith))
  where
    whole :
        digits_value 0 (decimal_onto (suc n) n []) ≡ digits_value n []
        → digits_value 0 (to_decimal n) ≡ some n
    whole e = unfold to_decimal digits_value in e

abbrev pub Digits : Bytes → Type 0
Digits s = All (λ c. is_ascii_digit c ≡ true) s

decimal_onto-Digits : (fuel n : ℕ) (out : Bytes) → Digits out → Digits (decimal_onto fuel n out)
decimal_onto-Digits zero n out h = unfold decimal_onto in h
decimal_onto-Digits (suc fuel) n out h =
    step (decimal_onto-Digits fuel (n / 10) ((b'0' + n % 10) ∷ out) (ground arith, h))
  where
    step :
        Digits (decimal_onto fuel (n / 10) ((b'0' + n % 10) ∷ out))
        → Digits (decimal_onto (suc fuel) n out)
    step ih = elim (Bool-cases (ltb n 10)) [
      | inl e ↦ unfold decimal_onto in rw (decimal_onto, e) (ground arith, h)
      | inr e ↦ unfold decimal_onto in rw (decimal_onto, e) ih
    ]

-- Every byte is a digit.
pub to_decimal-Digits : (n : ℕ) → Digits (to_decimal n)
to_decimal-Digits n = unfold to_decimal in decimal_onto-Digits (suc n) n [] tt

decimal_onto-nonempty :
    (fuel n : ℕ) (out : Bytes) → (0 < fuel) ⊎ (out ≢ []) → decimal_onto fuel n out ≢ []
decimal_onto-nonempty zero n out (inl h) e = elim h [ ]
decimal_onto-nonempty zero n out (inr h) e = h (unfold decimal_onto in e)
decimal_onto-nonempty (suc fuel) n out h e =
    step (decimal_onto-nonempty fuel (n / 10) ((b'0' + n % 10) ∷ out) (inr (λ k. cc))) e
  where
    step :
        decimal_onto fuel (n / 10) ((b'0' + n % 10) ∷ out) ≢ [] → decimal_onto (suc fuel) n out ≢ []
    step ih e = unfold decimal_onto in ground arith

pub to_decimal-nonempty : (n : ℕ) → to_decimal n ≢ []
to_decimal-nonempty n = unfold to_decimal in decimal_onto-nonempty (suc n) n [] (inl (omega arith))

-- `parse` reads back what `to_string` writes.
pub parse_uint-to_decimal : (w n : ℕ) → n < 2 ^ w → parse_uint w (to_decimal n) ≡ some n
parse_uint-to_decimal w n h =
    go (to_decimal n) (to_decimal-Digits n) (digits_value-to_decimal n) (to_decimal-nonempty n)
  where
    go : (s : Bytes) → Digits s → digits_value 0 s ≡ some n → s ≢ [] → parse_uint w s ≡ some n
    go [] d v ne = absurd (ne refl)
    go (c ∷ s) (d, ds) v ne =
        let plus : (c == b'+') ≡ false = ground arith in
        let fit : ltb n (2 ^ w) ≡ true = ground arith in unfold parse_uint in rw (plus, v, fit)
