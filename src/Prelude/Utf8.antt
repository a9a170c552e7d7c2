-- ===== src/Prelude/Utf8.antt =====
-- UTF-8 validity (`std::str::from_utf8`, `String::from_utf8`) and `str::trim`, over bytes.
use Prim.Native.Nat.{ℕ, zero, suc, ◌-◌}
use mathlib.Core.Path.{◌≡◌, refl}
use mathlib.Core.Bool.{Bool, true, false, ◌&&◌, ◌||◌}
use mathlib.Core.List.{[], ◌∷◌, ◌++◌, reverse}
use mathlib.Core.Option.{Option, none, some}
use native.Mathlib.Omega.{arith}
use thwip.Prelude.Tests.{ltb, leb, ◌==◌, if◌then◌else◌}
use thwip.Prelude.Text.{Bytes, is_ascii_whitespace}

-- What must follow a first byte: how many more bytes, and the range of the next one.
pub record Tail : Type 0 where
  pub count : ℕ
  pub low : ℕ
  pub high : ℕ

abbrev pub one_of : ℕ → ℕ → ℕ → Option Tail
one_of n low high = some (record { count = n; low = low; high = high })

unfoldable pub lead : ℕ → Option Tail
lead c =
    if ltb c 0x80
    then one_of 0 0x80 0xBF
    else if ltb c 0xC2
    then none
    else if ltb c 0xE0
    then one_of 1 0x80 0xBF
    else if c == 0xE0
    then one_of 2 0xA0 0xBF
    else if c == 0xED
    then one_of 2 0x80 0x9F
    else if ltb c 0xF0
    then one_of 2 0x80 0xBF
    else if c == 0xF0
    then one_of 3 0x90 0xBF
    else if ltb c 0xF4
    then one_of 3 0x80 0xBF
    else if c == 0xF4
    then one_of 3 0x80 0x8F
    else none

-- The bytes go on with `t.count` bytes of a character, and then with whole characters.
unfoldable pub utf8_from : ℕ → ℕ → ℕ → Bytes → Bool
unfolding lead
utf8_from zero low high [] = true
utf8_from (suc n) low high [] = false
utf8_from (suc n) low high (c ∷ s) = leb low c && (leb c high && utf8_from n 0x80 0xBF s)
utf8_from zero low high (c ∷ s) = elim (lead c) [
  | none ↦ false
  | some t ↦ utf8_from t.count t.low t.high s
]

unfoldable pub is_utf8 : Bytes → Bool
unfolding utf8_from
is_utf8 s = utf8_from 0 0x80 0xBF s

-- Valid text may be put together.
utf8_from-append :
    (n low high : ℕ) (s t : Bytes)
    → utf8_from n low high s ≡ true
    → is_utf8 t ≡ true
    → utf8_from n low high (s ++ t) ≡ true
unfolding utf8_from is_utf8
utf8_from-append zero low high [] [] h k = refl
utf8_from-append zero low high [] (c ∷ t) h k = k
utf8_from-append (suc n) low high [] t h k = cc
utf8_from-append (suc n) low high (c ∷ s) t h k = ground (arith, utf8_from-append n 0x80 0xBF s t)
utf8_from-append zero low high (c ∷ s) t h k =
    step (lead c) h (λ r e. utf8_from-append r.count r.low r.high s t e k)
  where
    step :
        (o : Option Tail)
        → elim o [ none ↦ false | some r ↦ utf8_from r.count r.low r.high s ] ≡ true
        → ((r : Tail)
            → utf8_from r.count r.low r.high s ≡ true
            → utf8_from r.count r.low r.high (s ++ t) ≡ true)
        → elim o [ none ↦ false | some r ↦ utf8_from r.count r.low r.high (s ++ t) ] ≡ true
    step none e f = e
    step (some r) e f = f r e

pub is_utf8-append : (s t : Bytes) → is_utf8 s ≡ true → is_utf8 t ≡ true → is_utf8 (s ++ t) ≡ true
unfolding is_utf8
is_utf8-append s t h k = utf8_from-append 0 0x80 0xBF s t h k

-- How many bytes the white space character at the front takes; 0 if there is none. The vertical
-- tab counts here, and not among the ASCII white space.
abbrev is_space : ℕ → Bool
is_space c = is_ascii_whitespace c || (c == 11)

space_2 : ℕ → ℕ → Bool
space_2 a b = (a == 0xC2) && ((b == 0x85) || (b == 0xA0))

space_3 : ℕ → ℕ → ℕ → Bool
space_3 a b c =
    ((a == 0xE1) && ((b == 0x9A) && (c == 0x80)))
    || (((a == 0xE2)
          && ((b == 0x80)
              && ((leb 0x80 c && leb c 0x8A) || ((c == 0xA8) || ((c == 0xA9) || (c == 0xAF))))))
        || (((a == 0xE2) && ((b == 0x81) && (c == 0x9F)))
            || ((a == 0xE3) && ((b == 0x80) && (c == 0x80)))))

unfoldable pub space_width : Bytes → ℕ
unfolding space_2 space_3
space_width [] = 0
space_width (a ∷ []) = if is_space a then 1 else 0
space_width (a ∷ b ∷ []) = if is_space a then 1 else if space_2 a b then 2 else 0
space_width (a ∷ b ∷ c ∷ s) =
    if is_space a then 1 else if space_2 a b then 2 else if space_3 a b c then 3 else 0

-- The same for bytes in reverse.
unfoldable pub space_width_back : Bytes → ℕ
unfolding space_2 space_3
space_width_back [] = 0
space_width_back (a ∷ []) = if is_space a then 1 else 0
space_width_back (a ∷ b ∷ []) = if is_space a then 1 else if space_2 b a then 2 else 0
space_width_back (a ∷ b ∷ c ∷ s) =
    if is_space a then 1 else if space_2 b a then 2 else if space_3 c b a then 3 else 0

unfoldable pub skip_spaces : (Bytes → ℕ) → ℕ → Bytes → Bytes
skip_spaces width n [] = []
skip_spaces width (suc n) (c ∷ s) = skip_spaces width n s
skip_spaces width zero (c ∷ s) =
    let n = width (c ∷ s) in
    let rest = skip_spaces width (n - 1) s in if n == 0 then c ∷ s else rest

unfoldable pub trim_start : Bytes → Bytes
unfolding skip_spaces space_width
trim_start s = skip_spaces space_width 0 s

unfoldable pub trim_end : Bytes → Bytes
unfolding skip_spaces space_width_back
trim_end s = reverse (skip_spaces space_width_back 0 (reverse s))

unfoldable pub trim : Bytes → Bytes
unfolding trim_start trim_end
trim s = trim_end (trim_start s)
