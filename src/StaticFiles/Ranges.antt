-- ===== src/StaticFiles/Ranges.antt =====
-- `parse_range` (run/slave/src/static_files.rs): which ranges it answers.
use thwip.Prelude.{
  ℕ, ap, ◌∙◌, append-nil, >>-eq-ok, ◌^◌, ◌-◌, ◌≤◌, ◌<◌, min, ◌≡◌, refl, ◌≢◌, false, not, ◌||◌, some,
  [], ◌∷◌, ◌++◌, arith, ltb, leb, ◌==◌, is_empty, ok, ◌>>=◌, ◌>>◌, guard, ok_or, >>=-eq-ok,
}
use mathlib.Core.Path.{subst}
use thwip.Prelude.Decimal.{Digits, to_decimal-Digits, to_decimal-nonempty, parse_uint-to_decimal}
use thwip.Prelude.Text.{Bytes, codes, strip_prefix, split_once, contains, parse_uint, to_decimal}
use thwip.StaticFiles.{
  bad_request, range_not_satisfiable, Range, end_of, bounded_range, range_of, check_range,
  parse_range,
}

check_range-bounds :
    (length : ℕ) (range answer : Range)
    → check_range length range ≡ ok answer
    → (answer ≡ range) × (answer.start ≤ answer.end) × (answer.start < length)
unfolding check_range
check_range-bounds length range answer h = ground arith

range_of-end :
    (length : ℕ) (start end : Bytes) (range : Range)
    → range_of length (start, end) ≡ ok range
    → range.end ≤ length - 1
unfolding range_of
range_of-end length start end range h = ground arith

parse_range-opened :
    (value : Bytes) (length : ℕ) (range : Range)
    → parse_range value length ≡ ok range
    → (ok_or (strip_prefix (codes "bytes=") value) bad_request >>= λ value'.
        guard (not (contains b',' value' || (length == 0))) range_not_satisfiable
        >> (ok_or (split_once b'-' value') bad_request >>= λ ends.
            range_of length ends >>= check_range length))
      ≡ ok range
unfolding parse_range
parse_range-opened value length range h = h

-- A range that is answered lies inside the file: `parse_range` refuses all else, an empty file
-- included.
pub parse_range-bounds :
    (value : Bytes) (length : ℕ) (range : Range)
    → parse_range value length ≡ ok range
    → (range.start ≤ range.end) × (range.end < length)
parse_range-bounds value length range h =
    let (value', _, h₁) =
      >>=-eq-ok (ok_or (strip_prefix (codes "bytes=") value) bad_request) _
        (parse_range-opened value length range h) in
    let (_, h₂) =
      >>-eq-ok (guard (not (contains b',' value' || (length == 0))) range_not_satisfiable) _ h₁ in
    let ((start, end), _, h₃) = >>=-eq-ok (ok_or (split_once b'-' value') bad_request) _ h₂ in
    let (found, made, checked) = >>=-eq-ok (range_of length (start, end)) (check_range length) h₃ in
    let (same, le, lt) = check_range-bounds length found range checked in
    let last = range_of-end length start end found made in (le, bound found same last lt)
  where
    bound :
        (found : Range)
        → range ≡ found
        → found.end ≤ length - 1
        → range.start < length
        → range.end < length
    bound found e h k = let e' : range.end ≡ found.end = ap (λ r. r.end) e in omega arith

split_once-Digits :
    (s rest : Bytes) → Digits s → split_once b'-' (s ++ (b'-' ∷ rest)) ≡ some (s, rest)
unfolding split_once
split_once-Digits [] rest h = refl
split_once-Digits (c ∷ s) rest (h, hs) = ground (arith, split_once-Digits s rest hs)

no_comma :
    (s rest : Bytes) → Digits s → contains b',' rest ≡ false → contains b',' (s ++ rest) ≡ false
no_comma [] rest h k = k
no_comma (c ∷ s) rest (h, hs) k = ground (arith, no_comma s rest hs k)

is_empty-false : (s : Bytes) → s ≢ [] → is_empty s ≡ false
is_empty-false [] ne = absurd (ne refl)
is_empty-false (c ∷ s) ne = refl

end_of-nonempty :
    (s : Bytes) (length : ℕ) → s ≢ [] → end_of s length ≡ ok_or (parse_uint 64 s) bad_request
end_of-nonempty [] length ne = absurd (ne refl)
end_of-nonempty (c ∷ s) length ne = unfold end_of in refl

-- A range that is asked for in full, and begins within the file, is the one that is answered, cut at
-- the file's end.
pub parse_range-closed :
    (a b length : ℕ)
    → a ≤ b
    → a < length
    → b < 2 ^ 64
    → parse_range (codes "bytes=" ++ (to_decimal a ++ (b'-' ∷ to_decimal b))) length
      ≡ ok (record { start = a; end = min b (length - 1) })
parse_range-closed a b length le lt small =
    go (no_comma da (b'-' ∷ db) (to_decimal-Digits a) no_comma_b)
      (split_once-Digits da db (to_decimal-Digits a)) (is_empty-false da (to_decimal-nonempty a))
      (parse_uint-to_decimal 64 a (omega arith))
      (end_of-nonempty db length (to_decimal-nonempty b)
        ∙ ap (λ o. ok_or o bad_request) (parse_uint-to_decimal 64 b small))
      (ground arith) (ground arith) (ground arith)
  where
    da : Bytes
    da = to_decimal a

    db : Bytes
    db = to_decimal b

    no_comma_b : contains b',' (b'-' ∷ db) ≡ false
    no_comma_b =
        let e : db ++ [] ≡ db = append-nil db in
        subst (λ t. contains b',' t ≡ false) e (no_comma db [] (to_decimal-Digits b) refl)

    go :
        contains b',' (da ++ (b'-' ∷ db)) ≡ false
        → split_once b'-' (da ++ (b'-' ∷ db)) ≡ some (da, db)
        → is_empty da ≡ false
        → parse_uint 64 da ≡ some a
        → end_of db length ≡ ok b
        → (length == 0) ≡ false
        → leb length a ≡ false
        → ltb (min b (length - 1)) a ≡ false
        → parse_range (codes "bytes=" ++ (da ++ (b'-' ∷ db))) length
          ≡ ok (record { start = a; end = min b (length - 1) })
    go comma cut nonempty pa pb nonzero start_in order =
        unfold parse_range strip_prefix range_of bounded_range check_range in
        rw (comma, nonzero, cut, nonempty, pa, pb, start_in, order)
