-- ===== src/StaticFiles/Escapes.antt =====
-- `percent_decode` (run/slave/src/static_files.rs) against an encoder.
use thwip.Prelude.{
  ℕ, ◌+◌, ◌-◌, ◌/◌, ◌%◌, ◌<◌, ◌≡◌, refl, Bool, false, some, [], ◌∷◌, arith, ltb, ◌==◌,
  if◌then◌else◌, ok, ◌>>=◌,
}
use thwip.Prelude.Text.{Bytes}
use thwip.StaticFiles.{hex, hex_pair, percent_decode}

abbrev digit : Bool → ℕ → ℕ
digit upper n = if ltb n 10 then b'0' + n else if upper then b'A' + (n - 10) else b'a' + (n - 10)

-- How a client may write a byte: as itself, where it is not `%`, or as `%` and two digits.
pub data Escaped : Bytes → Bytes → Type 0 where
  done : Escaped [] []
  plain :
      (c : ℕ) {raw text : Bytes}
      → (c == b'%') ≡ false
      → Escaped raw text
      → Escaped (c ∷ raw) (c ∷ text)
  coded :
      (c : ℕ) (high low : Bool) {raw text : Bytes}
      → c < 256
      → Escaped raw text
      → Escaped (b'%' ∷ (digit high (c / 16) ∷ (digit low (c % 16) ∷ raw))) (c ∷ text)

hex-digit : (upper : Bool) (n : ℕ) → n < 16 → hex (digit upper n) ≡ some n
unfolding hex
hex-digit upper n h = ground arith

hex_pair-digits :
    (high low : Bool) (c : ℕ)
    → c < 256
    → hex_pair (digit high (c / 16)) (digit low (c % 16)) ≡ some c
hex_pair-digits high low c h =
    rw (hex_pair, hex-digit high (c / 16) (omega arith), hex-digit low (c % 16) (omega arith))
      (ground arith)

percent_decode-plain :
    (c : ℕ) (s : Bytes)
    → (c == b'%') ≡ false
    → percent_decode (c ∷ s) ≡ (percent_decode s >>= λ t. ok (c ∷ t))
unfolding percent_decode
percent_decode-plain c [] h = rw h refl
percent_decode-plain c (a ∷ []) h = rw h refl
percent_decode-plain c (a ∷ b ∷ s) h = rw h refl

-- `percent_decode` reads back every text, however its bytes are escaped.
pub percent_decode-Escaped : (raw text : Bytes) → Escaped raw text → percent_decode raw ≡ ok text
unfolding percent_decode
percent_decode-Escaped _ _ done = refl
percent_decode-Escaped _ _ (plain c {raw} {text} h e) =
    rw (percent_decode-plain c raw h, percent_decode-Escaped raw text e) refl
percent_decode-Escaped _ _ (coded c high low {raw} {text} h e) =
    rw (hex_pair-digits high low c h, percent_decode-Escaped raw text e) refl
