-- ===== src/Http/Scan.antt =====
-- Where the head of a request ends, and what a parse says of bytes that arrive in pieces.
use thwip.Http.{head_end_mark, find_head_end}
use thwip.Prelude.{
  ℕ, zero, suc, ◌+◌, ◌≤◌, ◌<◌, ◌≡◌, refl, sym, true, false, Option, none, some, [], ◌∷◌, ◌++◌,
  arith, length, take, drop, Bool-cases, Option-cases, ◌⊎◌, inl, inr, ◌∙◌, length-take,
  take-append-drop,
}
use thwip.Prelude.Text.{Bytes, starts_with}
use mathlib.Core.Bool.{false≢true}

starts_with-append : (p s t : Bytes) → starts_with p s ≡ true → starts_with p (s ++ t) ≡ true
unfolding starts_with
starts_with-append [] s t h = refl
starts_with-append (p ∷ ps) [] t h = cc
starts_with-append (p ∷ ps) (c ∷ s) t h = ground (arith, starts_with-append ps s t)

starts_with-length : (p s : Bytes) → starts_with p s ≡ true → length p ≤ length s
unfolding starts_with
starts_with-length [] s h = omega arith
starts_with-length (p ∷ ps) [] h = cc
starts_with-length (p ∷ ps) (c ∷ s) h = ground (arith, starts_with-length ps s)

starts_with-append_le :
    (p s t : Bytes) → length p ≤ length s → starts_with p (s ++ t) ≡ starts_with p s
unfolding starts_with
starts_with-append_le [] s t h = refl
starts_with-append_le (p ∷ ps) [] t h = absurd (omega arith)
starts_with-append_le (p ∷ ps) (c ∷ s) t h = ground (arith, starts_with-append_le ps s t)

-- The two ways in which the mark is found.
find_head_end_cases :
    (c : ℕ) (s : Bytes) (n : ℕ)
    → find_head_end (c ∷ s) ≡ some n
    → ((n ≡ 0) × (starts_with head_end_mark (c ∷ s) ≡ true))
      ⊎ ((m : ℕ) × (n ≡ suc m)
          × (find_head_end s ≡ some m)
          × (starts_with head_end_mark (c ∷ s) ≡ false))
unfolding find_head_end
find_head_end_cases c s n h = elim (Bool-cases (starts_with head_end_mark (c ∷ s))) [
  | inl here ↦ inl (ground (arith, here), here)
  | inr later ↦ go (find_head_end s) refl
]
  where
    go :
        (o : Option ℕ)
        → find_head_end s ≡ o
        → ((n ≡ 0) × (starts_with head_end_mark (c ∷ s) ≡ true))
          ⊎ ((m : ℕ) × (n ≡ suc m)
              × (find_head_end s ≡ some m)
              × (starts_with head_end_mark (c ∷ s) ≡ false))
    go none e = ground arith
    go (some m) e = ground arith

-- The mark stands at `n`, inside the bytes.
pub find_head_end_mark :
    (bytes : Bytes) (n : ℕ)
    → find_head_end bytes ≡ some n
    → (starts_with head_end_mark (drop n bytes) ≡ true) × (n + 4 ≤ length bytes)
find_head_end_mark [] n h = absurd (unfold find_head_end in cc)
find_head_end_mark (c ∷ s) n h = elim (find_head_end_cases c s n h) [
  | inl (e, here) ↦
      let inside = starts_with-length head_end_mark (c ∷ s) here in (rw e here, omega arith)
  | inr (m, e, found, _) ↦
      let (marked, inside) = find_head_end_mark s m found in (rw e marked, omega arith)
]

-- More bytes behind the mark do not move it.
pub find_head_end-append :
    (bytes more : Bytes) (n : ℕ)
    → find_head_end bytes ≡ some n
    → find_head_end (bytes ++ more) ≡ some n
unfolding find_head_end
find_head_end-append [] more n h = cc
find_head_end-append (c ∷ s) more n h = elim (find_head_end_cases c s n h) [
  | inl (e, here) ↦ ground (arith, starts_with-append head_end_mark (c ∷ s) more here)
  | inr (m, e, found, not_here) ↦
      let (_, inside) = find_head_end_mark s m found in
      ground (
        arith,
        starts_with-append_le head_end_mark (c ∷ s) more (omega arith),
        find_head_end-append s more m found,
      )
]

-- Fewer than four bytes hold no mark.
find_head_end-none : (bytes : Bytes) → length bytes < 4 → find_head_end bytes ≡ none
find_head_end-none bytes h = elim (Option-cases (find_head_end bytes)) [
  | inl e ↦ e
  | inr (n, e) ↦ absurd (omega (arith, (find_head_end_mark bytes n e).1))
]

-- Before all of the mark has come, there is none.
pub find_head_end-take :
    (bytes : Bytes) (n k : ℕ)
    → find_head_end bytes ≡ some n
    → k < n + 4
    → find_head_end (take k bytes) ≡ none
find_head_end-take [] n k h lt = absurd (unfold find_head_end in cc)
find_head_end-take (c ∷ s) n zero h lt = unfold find_head_end in refl
find_head_end-take (c ∷ s) n (suc k) h lt = elim (find_head_end_cases c s n h) [
  | inl (e, here) ↦ find_head_end-none (c ∷ take k s) (omega (arith, length-take {0} k s))
  | inr (m, e, found, not_here) ↦
      let ih = find_head_end-take s m k found (omega arith) in
      elim (Bool-cases (starts_with head_end_mark (c ∷ take k s))) [
        | inl here ↦ absurd (
            false≢true (
              sym not_here
              ∙ (rw (take-append-drop k s) at
                  (starts_with-append head_end_mark (c ∷ take k s) (drop k s) here))))
        | inr nope ↦ miss nope ih
      ]
]
  where
    miss :
        starts_with head_end_mark (c ∷ take k s) ≡ false
        → find_head_end (take k s) ≡ none
        → find_head_end (c ∷ take k s) ≡ none
    miss nope ih = unfold find_head_end in rw (nope, ih)
