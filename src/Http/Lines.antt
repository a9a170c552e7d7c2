-- ===== src/Http/Lines.antt =====
-- A head that is put together from lines: where it ends, and the lines that it splits into.
use thwip.Http.{find_head_end}
use thwip.Prelude.{
  ℕ, suc, ◌+◌, ◌≡◌, refl, ◌≢◌, ◌∙◌, sym, ap, some, List, [], ◌∷◌, ◌++◌, arith, length, drop, All,
  append_assoc, length-append,
}
use thwip.Prelude.Text.{Bytes, starts_with, split_crlf, extend_first}

-- No carriage return.
abbrev pub NoCr : Bytes → Type 0
NoCr line = All (λ c. c ≢ 13) line

-- A line that may stand in a head behind the first.
abbrev pub IsLine : Bytes → Type 0
IsLine line = (line ≢ []) × NoCr line

-- Lines with a line break between each two.
abbrev pub text_of : Bytes → List Bytes → Bytes
text_of l [] = l
text_of l (m ∷ ms) = l ++ (13 ∷ 10 ∷ text_of m ms)

find_head_end-skip :
    (c : ℕ) (s : Bytes) (n : ℕ)
    → c ≢ 13
    → find_head_end s ≡ some n
    → find_head_end (c ∷ s) ≡ some (suc n)
unfolding find_head_end starts_with
find_head_end-skip c s n ne h = ground arith

find_head_end-line :
    (l s : Bytes) (n : ℕ)
    → NoCr l
    → find_head_end s ≡ some n
    → find_head_end (l ++ s) ≡ some (length l + n)
find_head_end-line [] s n h f = f ∙ ap some (omega arith)
find_head_end-line (c ∷ l) s n (ne, h) f =
    find_head_end-skip c (l ++ s) (length l + n) ne (find_head_end-line l s n h f)
    ∙ ap some (omega arith)

find_head_end-break :
    (c : ℕ) (s : Bytes) (n : ℕ)
    → c ≢ 13
    → find_head_end (c ∷ s) ≡ some n
    → find_head_end (13 ∷ 10 ∷ c ∷ s) ≡ some (suc (suc n))
find_head_end-break c s n ne h = let e = find_head_end-skip 10 (c ∷ s) n (omega arith) h in missed e
  where
    missed :
        find_head_end (10 ∷ c ∷ s) ≡ some (suc n)
        → find_head_end (13 ∷ 10 ∷ c ∷ s) ≡ some (suc (suc n))
    missed e = unfold find_head_end starts_with in ground arith

find_head_end-mark : (rest : Bytes) → find_head_end (13 ∷ 10 ∷ 13 ∷ 10 ∷ rest) ≡ some 0
unfolding find_head_end starts_with
find_head_end-mark rest = refl

text_of-cons : (c : ℕ) (l : Bytes) (ls : List Bytes) → text_of (c ∷ l) ls ≡ c ∷ text_of l ls
text_of-cons c l [] = refl
text_of-cons c l (m ∷ ms) = refl

-- The mark behind the last line is the first one.
pub find_head_end-text_of :
    (l : Bytes) (ls : List Bytes) (rest : Bytes)
    → NoCr l
    → All IsLine ls
    → find_head_end (text_of l ls ++ (13 ∷ 10 ∷ 13 ∷ 10 ∷ rest)) ≡ some (length (text_of l ls))
find_head_end-text_of l [] rest h t =
    find_head_end-line l _ 0 h (find_head_end-mark rest) ∙ ap some (omega arith)
find_head_end-text_of l ([] ∷ ms) rest h ((ne, _), t) = absurd (ne refl)
find_head_end-text_of l ((c ∷ m) ∷ ms) rest h ((_, (k, nc)), t) =
    let ih = find_head_end-text_of (c ∷ m) ms rest (k, nc) t in
    let mark : Bytes = 13 ∷ 10 ∷ 13 ∷ 10 ∷ rest in
    let e : text_of (c ∷ m) ms ++ mark ≡ c ∷ (text_of m ms ++ mark) =
      ap (λ x. x ++ mark) (text_of-cons c m ms) in
    let broken =
      find_head_end-break c (text_of m ms ++ mark) (length (text_of (c ∷ m) ms)) k (rw e at ih) in
    rw (append_assoc l (13 ∷ 10 ∷ text_of (c ∷ m) ms) mark) (
      find_head_end-line l _ _ h (rw (← e) at broken)
      ∙ ap some (sym (length-append {0} l (13 ∷ 10 ∷ text_of (c ∷ m) ms))))

split_crlf-skip : (c : ℕ) (s : Bytes) → c ≢ 13 → split_crlf (c ∷ s) ≡ extend_first c (split_crlf s)
unfolding split_crlf
split_crlf-skip c [] ne = refl
split_crlf-skip c (d ∷ s) ne = ground arith

split_crlf-line : (l s : Bytes) → NoCr l → split_crlf (l ++ (13 ∷ 10 ∷ s)) ≡ l ∷ split_crlf s
split_crlf-line [] s h = unfold split_crlf in refl
split_crlf-line (c ∷ l) s (ne, h) =
    split_crlf-skip c (l ++ (13 ∷ 10 ∷ s)) ne ∙ ap (extend_first c) (split_crlf-line l s h)

split_crlf-last : (l : Bytes) → NoCr l → split_crlf l ≡ l ∷ []
split_crlf-last [] h = unfold split_crlf in refl
split_crlf-last (c ∷ l) (ne, h) = split_crlf-skip c l ne ∙ ap (extend_first c) (split_crlf-last l h)

-- The text splits into its lines.
pub split_crlf-text_of :
    (l : Bytes) (ls : List Bytes) → NoCr l → All IsLine ls → split_crlf (text_of l ls) ≡ l ∷ ls
split_crlf-text_of l [] h t = split_crlf-last l h
split_crlf-text_of l (m ∷ ms) h ((_, k), t) =
    split_crlf-line l (text_of m ms) h ∙ ap (λ r. l ∷ r) (split_crlf-text_of m ms k t)

-- Behind the blank line stands what follows it.
pub drop-mark : (h rest : Bytes) → drop (length h + 4) (h ++ (13 ∷ 10 ∷ 13 ∷ 10 ∷ rest)) ≡ rest
drop-mark [] rest = refl
drop-mark (c ∷ h) rest =
    let e : suc (length h) + 4 ≡ suc (length h + 4) = omega arith in rw e (drop-mark h rest)
