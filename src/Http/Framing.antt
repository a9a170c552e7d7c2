-- ===== src/Http/Framing.antt =====
-- `RequestHead::body_length` (run/slave/src/http.rs): which lengths it accepts.
use thwip.Http.{
  Header, RequestHead, BodyFramingError, is_named, content_length_of, agree, content_length_loop,
  or_zero, body_length,
}
use thwip.Prelude.{
  ℕ, ◌∙◌, ◌≡◌, refl, sym, ◌↔◌, true, false, Option, none, some, List, [], ◌∷◌, arith, if◌then◌else◌,
  any, All, Result, ok, ◌>>=◌, Bool-cases, inl, inr, >>=-eq-ok,
}
use mathlib.Core.Bool.{false≢true}
use mathlib.Core.Path.{subst}

-- A header that gives a content length gives this one.
abbrev pub Declares : ℕ → Header → Type 0
Declares n header = is_named "content-length" header ≡ true → content_length_of header ≡ ok n

-- The length of the body is `n`: no transfer coding, every content length is `n`, and `n` is 0 where
-- there is none.
pub record FramesAs (request : RequestHead) (n : ℕ) : Type 0 where
  pub no_coding : any (is_named "transfer-encoding") request.headers ≡ false
  pub declared : All (Declares n) request.headers
  pub default : any (is_named "content-length") request.headers ≡ false → n ≡ 0

Agrees : Option ℕ → ℕ → Type 0
Agrees none value = Unit
Agrees (some previous) value = previous ≡ value

agree-eq-ok :
    (seen : Option ℕ) (value : ℕ) (o : Option ℕ)
    → agree seen value ≡ ok o
    → Agrees seen value × (o ≡ some value)
unfolding agree Agrees
agree-eq-ok none value o h = (tt, ground arith)
agree-eq-ok (some m) value o h = ground arith

-- One round of the loop at a header that gives a content length.
round_lem :
    (seen : Option ℕ) (header : Header) (headers : List Header) (o : Option ℕ)
    → is_named "content-length" header ≡ true
    → content_length_loop seen (header ∷ headers) ≡ ok o
    → (value : ℕ) × (content_length_of header ≡ ok value)
      × Agrees seen value
      × (content_length_loop (some value) headers ≡ ok o)
unfolding content_length_loop Agrees
round_lem seen header headers o e h =
    let (value, gives, rest) = >>=-eq-ok (content_length_of header) _ (opened e h) in
    let (seen', agrees, rest') = >>=-eq-ok (agree seen value) _ rest in
    let (a, e') = agree-eq-ok seen value seen' agrees in (value, gives, a, rw e' at rest')
  where
    opened :
        is_named "content-length" header ≡ true
        → content_length_loop seen (header ∷ headers) ≡ ok o
        → (content_length_of header >>= λ value.
            agree seen value >>= λ seen'. content_length_loop seen' headers)
          ≡ ok o
    opened e h = rw (e, content_length_loop) at h

loop_some :
    (m : ℕ) (headers : List Header) (o : Option ℕ)
    → content_length_loop (some m) headers ≡ ok o
    → (o ≡ some m) × All (Declares m) headers
loop_some m [] o h = (unfold content_length_loop in ground arith, tt)
loop_some m (header ∷ headers) o h = elim (Bool-cases (is_named "content-length" header)) [
  | inl named ↦
      let (v, gives, same, rest) = round_lem (some m) header headers o named h in
      let (e, f) = loop_some v headers o rest in joined v (unfold Agrees in sym same) e f gives
  | inr other ↦ let (e, f) = loop_some m headers o (skip other h) in (e, ((λ n. cc), f))
]
  where
    joined :
        (v : ℕ)
        → v ≡ m
        → o ≡ some v
        → All (Declares v) headers
        → content_length_of header ≡ ok v
        → (o ≡ some m) × All (Declares m) (header ∷ headers)
    joined v same e f gives =
        subst (λ w. (o ≡ some w) × All (Declares w) (header ∷ headers)) same (e, ((λ _. gives), f))

    skip :
        is_named "content-length" header ≡ false
        → content_length_loop (some m) (header ∷ headers) ≡ ok o
        → content_length_loop (some m) headers ≡ ok o
    skip e h = unfold content_length_loop in ground arith

pub undeclared :
    (n : ℕ) (headers : List Header)
    → any (is_named "content-length") headers ≡ false
    → All (Declares n) headers
undeclared n [] h = tt
undeclared n (header ∷ headers) h = elim (Bool-cases (is_named "content-length" header)) [
  | inl named ↦ absurd (ground arith)
  | inr other ↦
      ((λ named. absurd (false≢true (sym other ∙ named))), undeclared n headers (ground arith))
]

-- Every outcome of the loop that is not an error.
abbrev Outcome : List Header → Option ℕ → Type 0
Outcome headers none = any (is_named "content-length") headers ≡ false
Outcome headers (some n) =
    All (Declares n) headers × (any (is_named "content-length") headers ≡ true)

loop_none :
    (headers : List Header) (o : Option ℕ)
    → content_length_loop none headers ≡ ok o
    → Outcome headers o
loop_none [] none h = refl
loop_none [] (some n) h = absurd (unfold content_length_loop in cc)
loop_none (header ∷ headers) o h = elim (Bool-cases (is_named "content-length" header)) [
  | inl named ↦
      let (v, gives, _, rest) = round_lem none header headers o named h in
      let (e, f) = loop_some v headers o rest in rw e (((λ _. gives), f), rw named)
  | inr other ↦ pass o other (loop_none headers o (skip other h))
]
  where
    skip :
        is_named "content-length" header ≡ false
        → content_length_loop none (header ∷ headers) ≡ ok o
        → content_length_loop none headers ≡ ok o
    skip e h = unfold content_length_loop in ground arith

    pass :
        (p : Option ℕ)
        → is_named "content-length" header ≡ false
        → Outcome headers p
        → Outcome (header ∷ headers) p
    pass none e r = rw (e, r)
    pass (some n) e (f, r) = (((λ n. cc), f), rw (e, r))

-- A round at a content length that agrees.
round_back :
    (seen : Option ℕ) (n : ℕ) (header : Header) (headers : List Header)
    → is_named "content-length" header ≡ true
    → content_length_of header ≡ ok n
    → agree seen n ≡ ok (some n)
    → content_length_loop seen (header ∷ headers) ≡ content_length_loop (some n) headers
unfolding content_length_loop
round_back seen n header headers named gives agrees = rw (content_length_loop, named, gives, agrees)

round_skip :
    (seen : Option ℕ) (header : Header) (headers : List Header)
    → is_named "content-length" header ≡ false
    → content_length_loop seen (header ∷ headers) ≡ content_length_loop seen headers
unfolding content_length_loop
round_skip seen header headers other = rw (content_length_loop, other)

agree_self : (n : ℕ) → agree (some n) n ≡ ok (some n)
unfolding agree
agree_self n = ground arith

loop_some_back :
    (n : ℕ) (headers : List Header)
    → All (Declares n) headers
    → content_length_loop (some n) headers ≡ ok (some n)
loop_some_back n [] f = unfold content_length_loop in refl
loop_some_back n (header ∷ headers) (f, fs) = elim (Bool-cases (is_named "content-length" header)) [
  | inl named ↦
      round_back (some n) n header headers named (f named) (agree_self n)
      ∙ loop_some_back n headers fs
  | inr other ↦ round_skip (some n) header headers other ∙ loop_some_back n headers fs
]

loop_none_back :
    (n : ℕ) (headers : List Header)
    → All (Declares n) headers
    → content_length_loop none headers
      ≡ ok (if any (is_named "content-length") headers then some n else none)
loop_none_back n [] f = unfold content_length_loop in refl
loop_none_back n (header ∷ headers) (f, fs) = elim (Bool-cases (is_named "content-length" header)) [
  | inl named ↦
      round_back none n header headers named (f named) (unfold agree in refl)
      ∙ loop_some_back n headers fs
      ∙ rw named
  | inr other ↦ round_skip none header headers other ∙ loop_none_back n headers fs ∙ rw other
]

body_length-plain :
    (request : RequestHead)
    → any (is_named "transfer-encoding") request.headers ≡ false
    → body_length request ≡ (content_length_loop none request.headers >>= λ seen. ok (or_zero seen))
unfolding body_length
body_length-plain request h = rw h

FramesAs-of_ok : (request : RequestHead) (n : ℕ) → body_length request ≡ ok n → FramesAs request n
FramesAs-of_ok request n h =
    elim (Bool-cases (any (is_named "transfer-encoding") request.headers)) [
      | inl coded ↦ absurd (unfold body_length in ground arith)
      | inr plain ↦
          let (o, e, e') =
            >>=-eq-ok (content_length_loop none request.headers) _
              (sym (body_length-plain request plain) ∙ h) in
          go plain o (loop_none request.headers o e) e'
    ]
  where
    go :
        any (is_named "transfer-encoding") request.headers ≡ false
        → (o : Option ℕ) → Outcome request.headers o
        → ◌≡◌ {A = Result ℕ BodyFramingError} (ok (or_zero o)) (ok n)
        → FramesAs request n
    go plain none no_length e = record {
      no_coding = plain;
      declared = undeclared n request.headers no_length;
      default = λ _. ground arith;
    }
    go plain (some m) (f, some_length) e = record {
      no_coding = plain;
      declared = subst (λ k. All (Declares k) request.headers) (ground arith) f;
      default = λ no_length. absurd (false≢true (sym no_length ∙ some_length));
    }

-- The length is accepted exactly where the request is framed by it.
pub body_length-eq-ok_iff :
    (request : RequestHead) (n : ℕ) → (body_length request ≡ ok n) ↔ FramesAs request n
body_length-eq-ok_iff request n = (FramesAs-of_ok request n, back)
  where
    back : FramesAs request n → body_length request ≡ ok n
    back f =
        body_length-plain request f.no_coding
        ∙ rw (loop_none_back n request.headers f.declared)
            (elim (Bool-cases (any (is_named "content-length") request.headers)) [
              | inl e ↦ rw e
              | inr e ↦ rw (e, f.default e)
            ])
