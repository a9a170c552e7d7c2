-- ===== src/Http/Trimming.antt =====
-- Trimming and lower case, as the parser of headers uses them.
use thwip.Prelude.{
  ℕ, ◌≡◌, refl, ◌∙◌, sym, ap, Bool, true, false, ◌&&◌, [], ◌∷◌, arith, if◌then◌else◌, any, is_empty,
  Bool-cases, inl, inr, ||-eq-false,
}
use thwip.Prelude.Text.{
  Bytes, to_lower, to_ascii_lowercase, trim_start_matches, trim_end_matches, trim_matches,
}

module _ (p : ℕ → Bool) where
  trim_end-cons :
      (c : ℕ) (s : Bytes)
      → trim_end_matches p (c ∷ s)
        ≡ (if p c && is_empty (trim_end_matches p s) then [] else c ∷ trim_end_matches p s)
  unfolding trim_end_matches
  trim_end-cons c s = refl

  trim_end_idem : (s : Bytes) → trim_end_matches p (trim_end_matches p s) ≡ trim_end_matches p s
  trim_end_idem [] = unfold trim_end_matches in refl
  trim_end_idem (c ∷ s) =
      let ih = trim_end_idem s in
      elim (Bool-cases (p c && is_empty (trim_end_matches p s))) [
        | inl gone ↦
            let e : trim_end_matches p (c ∷ s) ≡ [] = trim_end-cons c s ∙ rw gone in
            ap (trim_end_matches p) e ∙ empty ∙ sym e
        | inr stays ↦
            let e : trim_end_matches p (c ∷ s) ≡ c ∷ trim_end_matches p s =
              trim_end-cons c s ∙ rw stays in
            rw e (trim_end-cons c (trim_end_matches p s) ∙ rw (ih, stays))
      ]
    where
      empty : trim_end_matches p [] ≡ []
      empty = unfold trim_end_matches in refl

  -- Text that does not begin with such a byte.
  Starts : Bytes → Type 0
  Starts [] = Unit
  Starts (c ∷ s) = p c ≡ false

  trim_start-Starts : (s : Bytes) → Starts (trim_start_matches p s)
  trim_start-Starts [] = unfold trim_start_matches Starts in tt
  trim_start-Starts (c ∷ s) = go (trim_start-Starts s)
    where
      go : Starts (trim_start_matches p s) → Starts (trim_start_matches p (c ∷ s))
      go ih = elim (Bool-cases (p c)) [
        | inl e ↦ unfold trim_start_matches in rw (trim_start_matches, e) ih
        | inr e ↦ unfold trim_start_matches Starts in rw (trim_start_matches, e) e
      ]

  trim_start_of_Starts : (s : Bytes) → Starts s → trim_start_matches p s ≡ s
  unfolding trim_start_matches Starts
  trim_start_of_Starts [] h = refl
  trim_start_of_Starts (c ∷ s) h = rw h

  trim_end-Starts : (s : Bytes) → Starts s → Starts (trim_end_matches p s)
  trim_end-Starts [] h = unfold trim_end_matches Starts in tt
  trim_end-Starts (c ∷ s) h = rw (trim_end-cons c s) (unfold Starts in rw h h)

  -- Trimming twice is trimming once.
  pub trim_matches_idem : (s : Bytes) → trim_matches p (trim_matches p s) ≡ trim_matches p s
  trim_matches_idem s =
      unfold trim_matches in
      (ap (trim_end_matches p) (trim_start_of_Starts _ (trim_end-Starts _ (trim_start-Starts s)))
        ∙ trim_end_idem (trim_start_matches p s))

  -- What no byte of the text is, no byte of the trimmed text is.
  module _ (q : ℕ → Bool) where
    any-trim_start : (s : Bytes) → any q s ≡ false → any q (trim_start_matches p s) ≡ false
    any-trim_start [] h = unfold trim_start_matches in refl
    any-trim_start (c ∷ s) h = elim (Bool-cases (p c)) [
      | inl e ↦ skip e (any-trim_start s (||-eq-false (q c) (any q s) h).1)
      | inr e ↦ unfold trim_start_matches in rw (trim_start_matches, e) h
    ]
      where
        skip :
            p c ≡ true
            → any q (trim_start_matches p s) ≡ false
            → any q (trim_start_matches p (c ∷ s)) ≡ false
        skip e ih = unfold trim_start_matches in rw (trim_start_matches, e) ih

    pub any-trim_end : (s : Bytes) → any q s ≡ false → any q (trim_end_matches p s) ≡ false
    any-trim_end [] h = unfold trim_end_matches in refl
    any-trim_end (c ∷ s) h =
        let (first, rest) = ||-eq-false (q c) (any q s) h in
        let ih = any-trim_end s rest in
        rw (trim_end-cons c s) (elim (Bool-cases (p c && is_empty (trim_end_matches p s))) [
          | inl gone ↦ rw gone
          | inr stays ↦ rw (stays, first) ih
        ])

    pub any-trim_matches : (s : Bytes) → any q s ≡ false → any q (trim_matches p s) ≡ false
    any-trim_matches s h =
        unfold trim_matches in any-trim_end (trim_start_matches p s) (any-trim_start s h)

pub to_lower_idem : (c : ℕ) → to_lower (to_lower c) ≡ to_lower c
unfolding to_lower
to_lower_idem c = ground arith

pub to_ascii_lowercase_idem :
    (s : Bytes) → to_ascii_lowercase (to_ascii_lowercase s) ≡ to_ascii_lowercase s
to_ascii_lowercase_idem [] = refl
to_ascii_lowercase_idem (c ∷ s) = cc (to_lower_idem c, to_ascii_lowercase_idem s)
