-- ===== src/Http/WellFormed.antt =====
-- What the parser (run/slave/src/http.rs) guarantees of the parts of a request head.
use thwip.Http.{
  HttpVersion, Header, RequestHead, complete, is_token, is_blank, ParseError, invalid_header,
  parse_parts, three_parts, parse_request_line, header_of, parse_header, parse_headers, parse_lines,
  parse_request_head,
}
use thwip.Http.Fragments.{Accepted-of_parse}
use thwip.Http.Trimming.{trim_matches_idem, any-trim_matches, to_ascii_lowercase_idem}
use thwip.Prelude.{
  ℕ, ◌+◌, ◌≡◌, refl, ◌≢◌, sym, Bool, true, false, not, ◌||◌, List, [], ◌∷◌, arith, ◌==◌,
  if◌then◌else◌, all, any, is_empty, All, Result, ok, err, ◌>>=◌, ok_or, Bool-cases, ◌⊎◌, inl, inr,
  >>=-eq-ok, &&-eq-true,
}
use mathlib.Core.Path.{subst}
use thwip.Prelude.Text.{
  Bytes, to_lower, to_ascii_lowercase, is_ascii_upper, is_ascii_alphanumeric, is_ascii_whitespace,
  is_ascii_control, split_once, trim_matches, split_ascii_whitespace, split_at_whitespace,
  drop_empty, extend_first,
}

-- A header as the parser makes them: a token in lower case, and a value on one line with no blank at
-- its ends.
pub record IsHeader (h : Header) : Type 0 where
  pub named : h.name ≢ []
  pub token : all is_token h.name ≡ true
  pub lower : to_ascii_lowercase h.name ≡ h.name
  pub no_break : any (λ c. (c == 13) || (c == 10)) h.value ≡ false
  pub trimmed : trim_matches is_blank h.value ≡ h.value

-- A part of a request line.
pub record IsPart (s : Bytes) : Type 0 where
  pub nonempty : s ≢ []
  pub no_space : any is_ascii_whitespace s ≡ false

-- A request head as the parser makes them.
pub record IsRequest (r : RequestHead) : Type 0 where
  pub method_part : IsPart r.method
  pub method_token : all is_token r.method ≡ true
  pub target_part : IsPart r.target
  pub target_plain : any is_ascii_control r.target ≡ false
  pub headers : All IsHeader r.headers

abbrev NoSpace : Bytes → Type 0
NoSpace s = any is_ascii_whitespace s ≡ false

extend_first-NoSpace :
    (c : ℕ) (ps : List Bytes)
    → is_ascii_whitespace c ≡ false
    → All NoSpace ps
    → All NoSpace (extend_first c ps)
extend_first-NoSpace c [] e h = (rw e, tt)
extend_first-NoSpace c (p ∷ ps) e (h, hs) = (rw e h, hs)

split_at_whitespace-NoSpace : (s : Bytes) → All NoSpace (split_at_whitespace s)
split_at_whitespace-NoSpace [] = unfold split_at_whitespace in (refl, tt)
split_at_whitespace-NoSpace (c ∷ s) =
    step (split_at_whitespace s) (split_at_whitespace-NoSpace s)
      (Bool-cases (is_ascii_whitespace c)) refl
  where
    step :
        (ps : List Bytes)
        → All NoSpace ps
        → (is_ascii_whitespace c ≡ true) ⊎ (is_ascii_whitespace c ≡ false)
        → split_at_whitespace s ≡ ps
        → All NoSpace (split_at_whitespace (c ∷ s))
    step ps h (inl space) e =
        unfold split_at_whitespace in rw (split_at_whitespace, space, e) (refl, h)
    step ps h (inr other) e =
        unfold split_at_whitespace in
        rw (split_at_whitespace, other, e) (extend_first-NoSpace c ps other h)

drop_empty-IsPart : (ps : List Bytes) → All NoSpace ps → All IsPart (drop_empty ps)
drop_empty-IsPart [] h = tt
drop_empty-IsPart ([] ∷ ps) (h, hs) = drop_empty-IsPart ps hs
drop_empty-IsPart ((c ∷ p) ∷ ps) (h, hs) =
    (record { nonempty = λ e. cc; no_space = h }, drop_empty-IsPart ps hs)

parse_parts-eq-ok :
    (a b c method target : Bytes) (version : HttpVersion)
    → parse_parts a b c ≡ ok (method, target, version)
    → (a ≡ method) × (b ≡ target) × (all is_token a ≡ true) × (any is_ascii_control b ≡ false)
unfolding parse_parts
parse_parts-eq-ok a b c method target version h = ground arith

three_parts-lem :
    (ps : List Bytes) (method target : Bytes) (version : HttpVersion)
    → All IsPart ps
    → three_parts ps ≡ ok (method, target, version)
    → IsPart method
      × (all is_token method ≡ true)
      × IsPart target
      × (any is_ascii_control target ≡ false)
three_parts-lem (a ∷ b ∷ c ∷ []) method target version (pa, (pb, _)) h =
    let (ea, eb, token, plain) = parse_parts-eq-ok a b c method target version h in
    (subst IsPart ea pa, rw ea at token, subst IsPart eb pb, rw eb at plain)
three_parts-lem [] method target version w h = cc
three_parts-lem (a ∷ []) method target version w h = cc
three_parts-lem (a ∷ b ∷ []) method target version w h = cc
three_parts-lem (a ∷ b ∷ c ∷ d ∷ ps) method target version w h = cc

parse_request_line-lem :
    (line method target : Bytes) (version : HttpVersion)
    → parse_request_line line ≡ ok (method, target, version)
    → IsPart method
      × (all is_token method ≡ true)
      × IsPart target
      × (any is_ascii_control target ≡ false)
unfolding parse_request_line split_ascii_whitespace
parse_request_line-lem line method target version h =
    three_parts-lem _ method target version (drop_empty-IsPart _ (split_at_whitespace-NoSpace line))
      h

upper_is_token : (c : ℕ) → is_ascii_upper c ≡ true → is_ascii_alphanumeric (c + 32) ≡ true
upper_is_token c h = ground arith

to_lower-is_token : (c : ℕ) → is_token c ≡ true → is_token (to_lower c) ≡ true
to_lower-is_token c h = elim (Bool-cases (is_ascii_upper c)) [
  | inl up ↦ unfold to_lower in rw up (unfold is_token in rw (upper_is_token c up))
  | inr stays ↦ unfold to_lower in rw stays h
]

all-is_token-lower :
    (s : Bytes) → all is_token s ≡ true → all is_token (to_ascii_lowercase s) ≡ true
all-is_token-lower [] h = refl
all-is_token-lower (c ∷ s) h =
    let (first, rest) = &&-eq-true (is_token c) (all is_token s) h in
    rw (to_lower-is_token c first) (all-is_token-lower s rest)

header_of-eq-ok :
    (name value : Bytes) (h : Header)
    → header_of (name, value) ≡ ok h
    → (h ≡ record { name = to_ascii_lowercase name; value = trim_matches is_blank value })
      × (is_empty name ≡ false)
      × (all is_token name ≡ true)
      × (any (λ c. (c == 13) || (c == 10)) value ≡ false)
header_of-eq-ok name value h e =
    checked (is_empty name) (all is_token name) (any (λ c. (c == 13) || (c == 10)) value)
      (record { name = to_ascii_lowercase name; value = trim_matches is_blank value })
      (unfold header_of in e)
  where
    checked :
        (x y z : Bool) (g : Header)
        → (if x || (not y || z) then err invalid_header else ok g) ≡ ok h
        → (h ≡ g) × (x ≡ false) × (y ≡ true) × (z ≡ false)
    checked x y z g e = ground arith

parse_header-opened :
    (line : Bytes) (h : Header)
    → parse_header line ≡ ok h
    → (ok_or (split_once b':' line) invalid_header >>= header_of) ≡ ok h
unfolding parse_header
parse_header-opened line h e = e

parse_header-IsHeader : (line : Bytes) (h : Header) → parse_header line ≡ ok h → IsHeader h
parse_header-IsHeader line h e =
    let ((name, value), cut, made) = >>=-eq-ok _ header_of (parse_header-opened line h e) in
    let (same, nonempty, token, no_break) = header_of-eq-ok name value h made in
    subst IsHeader (sym same) (record {
      named = lower-nonempty name nonempty;
      token = all-is_token-lower name token;
      lower = to_ascii_lowercase_idem name;
      no_break = any-trim_matches is_blank _ value no_break;
      trimmed = trim_matches_idem is_blank value;
    })
  where
    lower-nonempty : (s : Bytes) → is_empty s ≡ false → to_ascii_lowercase s ≢ []
    lower-nonempty [] h e = cc
    lower-nonempty (c ∷ s) h e = cc

nothing : (hs : List Header) → parse_headers [] ≡ ok hs → [] ≡ hs
unfolding parse_headers
nothing hs h = cc

parse_headers-IsHeader :
    (lines : List Bytes) (hs : List Header) → parse_headers lines ≡ ok hs → All IsHeader hs
parse_headers-IsHeader [] hs h = subst (All IsHeader) (nothing hs h) tt
parse_headers-IsHeader (line ∷ lines) hs h = elim (Bool-cases (is_empty line)) [
  | inl e ↦ parse_headers-IsHeader lines hs (skip e h)
  | inr e ↦
      let (x, this, rest) = >>=-eq-ok (parse_header line) _ (opened e h) in
      let (xs, others, made) = >>=-eq-ok (parse_headers lines) _ rest in
      subst (All IsHeader) (ok-injective made)
        (parse_header-IsHeader line x this, parse_headers-IsHeader lines xs others)
]
  where
    skip : is_empty line ≡ true → parse_headers (line ∷ lines) ≡ ok hs → parse_headers lines ≡ ok hs
    skip e h = unfold parse_headers in rw (e, parse_headers) at h

    opened :
        is_empty line ≡ false
        → parse_headers (line ∷ lines) ≡ ok hs
        → (parse_header line >>= λ x. parse_headers lines >>= λ xs. ok (x ∷ xs)) ≡ ok hs
    opened e h = unfold parse_headers in rw (e, parse_headers) at h

    ok-injective :
        {a b : List Header} → ◌≡◌ {A = Result (List Header) ParseError} (ok a) (ok b) → a ≡ b
    ok-injective e = cc

parse_lines-opened :
    (line : Bytes) (lines : List Bytes) (r : RequestHead)
    → parse_lines (line ∷ lines) ≡ ok r
    → (parse_request_line line >>= λ p. parse_headers lines >>= λ hs.
        ok (record { method = p.0; target = p.1; version = p.2; headers = hs }))
      ≡ ok r
unfolding parse_lines
parse_lines-opened line lines r h = h

parse_lines-IsRequest :
    (lines : List Bytes) (r : RequestHead) → parse_lines lines ≡ ok r → IsRequest r
parse_lines-IsRequest [] r h = absurd (unfold parse_lines in cc)
parse_lines-IsRequest (line ∷ lines) r h =
    let ((method, target, version), first, rest) =
      >>=-eq-ok (parse_request_line line) _ (parse_lines-opened line lines r h) in
    let (hs, others, made) = >>=-eq-ok (parse_headers lines) _ rest in
    let (m, token, t, plain) = parse_request_line-lem line method target version first in
    subst IsRequest (ok-injective made) (record {
      method_part = m;
      method_token = token;
      target_part = t;
      target_plain = plain;
      headers = parse_headers-IsHeader lines hs others;
    })
  where
    ok-injective :
        {a b : RequestHead} → ◌≡◌ {A = Result RequestHead ParseError} (ok a) (ok b) → a ≡ b
    ok-injective e = cc

-- Every request head that the parser accepts is well formed.
pub parse_request_head-IsRequest :
    (bytes : Bytes) (r : RequestHead) (consumed : ℕ)
    → parse_request_head bytes ≡ ok (complete r consumed)
    → IsRequest r
parse_request_head-IsRequest bytes r consumed h =
    let a = Accepted-of_parse bytes r consumed h in parse_lines-IsRequest _ r a.lines
