-- ===== src/Prelude/Text.antt =====
-- Text as the bytes of its UTF-8 form, as `&str` holds it, with the operations of the standard
-- library that the source uses on `&str` and `&[u8]`.
use Prim.Native.Char.{code}
use Prim.Native.Nat.{ℕ, zero, suc, ◌+◌, ◌-◌, ◌*◌, ◌/◌, ◌%◌, ◌^◌}
use Prim.Native.String.{String}
use mathlib.Core.Path.{◌≡◌}
use mathlib.Core.Logic.{◌↔◌}
use mathlib.Core.Bool.{Bool, true, false, not, ◌&&◌, ◌||◌}
use mathlib.Core.List.{List, [], ◌∷◌, map}
use mathlib.Core.Option
use mathlib.Core.Option.{Option, none, some}
use native.Mathlib.Omega.{arith}
use thwip.Prelude.Tests.{ltb, leb, ◌==◌, if◌then◌else◌}
use thwip.Prelude.Lists.{any, is_empty}

abbrev pub Bytes : Type 0
Bytes = List ℕ

-- The bytes of an ASCII literal.
abbrev pub codes : String → Bytes
codes String.[] = []
codes (String.◌∷◌ c s) = code c ∷ codes s

infix 50 ◌=ᵇ◌
unfoldable pub ◌=ᵇ◌ : Bytes → Bytes → Bool
[] =ᵇ [] = true
(x ∷ a) =ᵇ (y ∷ b) = (x == y) && (a =ᵇ b)
_ =ᵇ _ = false

pub =ᵇ_iff : (a b : Bytes) → ((a =ᵇ b) ≡ true) ↔ (a ≡ b)
unfolding ◌=ᵇ◌
=ᵇ_iff (x ∷ a) (y ∷ b) = ground (arith, =ᵇ_iff a b)
=ᵇ_iff _ _ = ground arith

-- `u8::is_ascii_*`
abbrev pub is_ascii_digit : ℕ → Bool
is_ascii_digit c = leb b'0' c && leb c b'9'

abbrev pub is_ascii_upper : ℕ → Bool
is_ascii_upper c = leb b'A' c && leb c b'Z'

abbrev pub is_ascii_lower : ℕ → Bool
is_ascii_lower c = leb b'a' c && leb c b'z'

abbrev pub is_ascii_alphanumeric : ℕ → Bool
is_ascii_alphanumeric c = is_ascii_digit c || (is_ascii_upper c || is_ascii_lower c)

abbrev pub is_ascii_control : ℕ → Bool
is_ascii_control c = ltb c 32 || (c == 127)

-- Space, tab, line feed, form feed and carriage return.
abbrev pub is_ascii_whitespace : ℕ → Bool
is_ascii_whitespace c = (c == 32) || ((c == 9) || ((c == 10) || ((c == 12) || (c == 13))))

unfoldable pub to_lower : ℕ → ℕ
to_lower c = if is_ascii_upper c then c + 32 else c

abbrev pub to_ascii_lowercase : Bytes → Bytes
to_ascii_lowercase s = map to_lower s

abbrev pub eq_ignore_ascii_case : Bytes → Bytes → Bool
eq_ignore_ascii_case a b = to_ascii_lowercase a =ᵇ to_ascii_lowercase b

-- `strip_prefix` and `starts_with` for a text pattern.
unfoldable pub strip_prefix : Bytes → Bytes → Option Bytes
strip_prefix [] s = some s
strip_prefix (p ∷ ps) [] = none
strip_prefix (p ∷ ps) (c ∷ s) = if p == c then strip_prefix ps s else none

unfoldable pub starts_with : Bytes → Bytes → Bool
starts_with [] s = true
starts_with (p ∷ ps) [] = false
starts_with (p ∷ ps) (c ∷ s) = (p == c) && starts_with ps s

-- `split_once` for an ASCII character.
abbrev pub before : ℕ → Bytes × Bytes → Bytes × Bytes
before c (a, b) = (c ∷ a, b)

unfoldable pub split_once : ℕ → Bytes → Option (Bytes × Bytes)
split_once d [] = none
split_once d (c ∷ s) = if c == d then some ([], s) else Option.map (before c) (split_once d s)

abbrev pub contains : ℕ → Bytes → Bool
contains d s = any (λ c. c == d) s

-- Adds a byte to the first piece; a split always has one.
abbrev pub extend_first : ℕ → List Bytes → List Bytes
extend_first c [] = (c ∷ []) ∷ []
extend_first c (p ∷ ps) = (c ∷ p) ∷ ps

-- `split` for an ASCII character.
unfoldable pub split : ℕ → Bytes → List Bytes
split d [] = [] ∷ []
split d (c ∷ s) = let rest = split d s in if c == d then [] ∷ rest else extend_first c rest

-- `split("\r\n")`
unfoldable pub split_crlf : Bytes → List Bytes
split_crlf [] = [] ∷ []
split_crlf (c ∷ []) = (c ∷ []) ∷ []
split_crlf (c ∷ d ∷ s) =
    let cut = split_crlf s in
    let go = split_crlf (d ∷ s) in if (c == 13) && (d == 10) then [] ∷ cut else extend_first c go

-- `split_ascii_whitespace`: the maximal pieces without white space. The flag says that the byte
-- before was part of the piece at the head of the result.
abbrev pub drop_empty : List Bytes → List Bytes
drop_empty [] = []
drop_empty ([] ∷ ps) = drop_empty ps
drop_empty ((c ∷ p) ∷ ps) = (c ∷ p) ∷ drop_empty ps

unfoldable pub split_at_whitespace : Bytes → List Bytes
split_at_whitespace [] = [] ∷ []
split_at_whitespace (c ∷ s) =
    let rest = split_at_whitespace s in
    if is_ascii_whitespace c then [] ∷ rest else extend_first c rest

unfoldable pub split_ascii_whitespace : Bytes → List Bytes
unfolding split_at_whitespace
split_ascii_whitespace s = drop_empty (split_at_whitespace s)

-- `trim_start_matches` and `trim_end_matches` for a set of ASCII characters.
unfoldable pub trim_start_matches : (ℕ → Bool) → Bytes → Bytes
trim_start_matches p [] = []
trim_start_matches p (c ∷ s) = if p c then trim_start_matches p s else c ∷ s

unfoldable pub trim_end_matches : (ℕ → Bool) → Bytes → Bytes
trim_end_matches p [] = []
trim_end_matches p (c ∷ s) =
    let rest = trim_end_matches p s in if p c && is_empty rest then [] else c ∷ rest

unfoldable pub trim_matches : (ℕ → Bool) → Bytes → Bytes
unfolding trim_start_matches trim_end_matches
trim_matches p s = trim_end_matches p (trim_start_matches p s)

-- `str::parse` into an unsigned integer of `w` bits: an optional `+`, then decimal digits; `none` is
-- `ParseIntError`.
unfoldable pub digits_value : ℕ → Bytes → Option ℕ
digits_value acc [] = some acc
digits_value acc (c ∷ s) = if is_ascii_digit c then digits_value (acc * 10 + (c - b'0')) s else none

abbrev pub fits : ℕ → Option ℕ → Option ℕ
fits w none = none
fits w (some n) = if ltb n (2 ^ w) then some n else none

unfoldable pub parse_uint : ℕ → Bytes → Option ℕ
unfolding digits_value
parse_uint w [] = none
parse_uint w (c ∷ s) =
    if (c == b'+') && not (is_empty s)
    then fits w (digits_value 0 s)
    else fits w (digits_value 0 (c ∷ s))

-- `to_string` of an unsigned number. A number has at most as many digits as its value plus one.
unfoldable pub decimal_onto : ℕ → ℕ → Bytes → Bytes
decimal_onto zero n out = out
decimal_onto (suc fuel) n out =
    let more = decimal_onto fuel (n / 10) ((b'0' + n % 10) ∷ out) in
    if ltb n 10 then (b'0' + n) ∷ out else more

unfoldable pub to_decimal : ℕ → Bytes
unfolding decimal_onto
to_decimal n = decimal_onto (suc n) n []

-- `find` for an ASCII character: the index of the first one.
unfoldable pub find_byte : ℕ → Bytes → Option ℕ
find_byte d [] = none
find_byte d (c ∷ s) = if c == d then some 0 else Option.map suc (find_byte d s)

-- `HashSet::contains` for texts.
abbrev pub contains_text : Bytes → List Bytes → Bool
contains_text name names = any (λ n. n =ᵇ name) names
