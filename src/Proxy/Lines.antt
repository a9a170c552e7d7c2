-- ===== src/Proxy/Lines.antt =====
-- The lines of the request that `request_bytes` (run/slave/src/proxy.rs) writes, as the parser of
-- run/slave/src/http.rs reads them.
use mathlib.Core.Bool.{false≢true}
use thwip.Http.{Header, is_token, is_blank, header_of, parse_header, parse_headers}
use thwip.Http.WellFormed.{IsHeader, IsPart}
use thwip.Http.Lines.{NoCr, IsLine}
use thwip.Prelude.{
  ℕ, ◌≡◌, refl, ◌≢◌, ◌∙◌, sym, ap, true, false, ◌||◌, some, List, [], ◌∷◌, ◌++◌, map, arith, ◌==◌,
  all, any, is_empty, All, ok, &&-eq-true, ||-eq-false, All-append,
}
use thwip.Prelude.Text.{
  Bytes, codes, to_ascii_lowercase, is_ascii_whitespace, split_once, trim_matches,
  split_ascii_whitespace, split_at_whitespace, drop_empty,
}

abbrev pub line_of : Header → Bytes
line_of h = h.name ++ (codes ": " ++ h.value)

-- A token byte is none of those that are not.
pub token_ne : (c d : ℕ) → is_token d ≡ false → is_token c ≡ true → c ≢ d
token_ne c d fails h e = absurd (false≢true (sym fails ∙ rw e at h))

token_colon : (c : ℕ) → is_token c ≡ true → c ≢ b':'
token_colon c h = token_ne c b':' (unfold is_token in refl) h

token_cr : (c : ℕ) → is_token c ≡ true → c ≢ 13
token_cr c h = token_ne c 13 (unfold is_token in refl) h

split_once-token :
    (name rest : Bytes)
    → all is_token name ≡ true
    → split_once b':' (name ++ (b':' ∷ rest)) ≡ some (name, rest)
unfolding split_once
split_once-token [] rest h = refl
split_once-token (c ∷ s) rest h = ground (arith, split_once-token s rest, token_colon c)

pub trim_matches-blank : (s : Bytes) → trim_matches is_blank (32 ∷ s) ≡ trim_matches is_blank s
unfolding trim_matches
trim_matches-blank s = refl

pub header_of-IsHeader : (h : Header) → IsHeader h → header_of (h.name, 32 ∷ h.value) ≡ ok h
header_of-IsHeader h w = checked (λ i. record { name = w.lower i; value = value i })
  where
    value : trim_matches is_blank (32 ∷ h.value) ≡ h.value
    value = trim_matches-blank h.value ∙ w.trimmed

    nonempty : is_empty h.name ≡ false
    nonempty = go h.name w.named
      where
        go : (s : Bytes) → s ≢ [] → is_empty s ≡ false
        go [] ne = absurd (ne refl)
        go (c ∷ s) ne = refl

    made : Header
    made = record { name = to_ascii_lowercase h.name; value = trim_matches is_blank (32 ∷ h.value) }

    checked : made ≡ h → header_of (h.name, 32 ∷ h.value) ≡ ok h
    checked e = unfold header_of in rw (nonempty, w.token, w.no_break) (ap ok e)

pub parse_header-line_of : (h : Header) → IsHeader h → parse_header (line_of h) ≡ ok h
parse_header-line_of h w = let cut = split_once-token h.name (32 ∷ h.value) w.token in read cut
  where
    read :
        split_once b':' (line_of h) ≡ some (h.name, 32 ∷ h.value) → parse_header (line_of h) ≡ ok h
    read cut = unfold parse_header in rw cut (header_of-IsHeader h w)

pub NoCr-of_token : (s : Bytes) → all is_token s ≡ true → NoCr s
NoCr-of_token [] h = tt
NoCr-of_token (c ∷ s) h =
    let (first, rest) = &&-eq-true (is_token c) (all is_token s) h in
    (token_cr c first, NoCr-of_token s rest)

pub NoCr-of_no_break : (s : Bytes) → any (λ c. (c == 13) || (c == 10)) s ≡ false → NoCr s
NoCr-of_no_break [] h = tt
NoCr-of_no_break (c ∷ s) h = (ground arith, NoCr-of_no_break s (ground arith))

pub NoCr-of_no_space : (s : Bytes) → any is_ascii_whitespace s ≡ false → NoCr s
NoCr-of_no_space [] h = tt
NoCr-of_no_space (c ∷ s) h = (ground arith, NoCr-of_no_space s (ground arith))

pub append-ne-nil : (s t : Bytes) → s ≢ [] → s ++ t ≢ []
append-ne-nil [] t ne e = ne refl
append-ne-nil (c ∷ s) t ne e = cc

pub line_of-IsLine : (h : Header) → IsHeader h → IsLine (line_of h)
line_of-IsLine h w = (
  append-ne-nil h.name _ w.named,
  All-append _ h.name (codes ": " ++ h.value) (NoCr-of_token h.name w.token)
      (omega arith, (omega arith, NoCr-of_no_break h.value w.no_break)),
)

pub parse_headers_step :
    (line : Bytes) (lines : List Bytes) (h : Header) (hs : List Header)
    → is_empty line ≡ false
    → parse_header line ≡ ok h
    → parse_headers lines ≡ ok hs
    → parse_headers (line ∷ lines) ≡ ok (h ∷ hs)
unfolding parse_headers
parse_headers_step line lines h hs e p r = rw (parse_headers, e, p, r)

pub line_of-nonempty : (h : Header) → IsHeader h → is_empty (line_of h) ≡ false
line_of-nonempty h w = go h.name w.named
  where
    go : (s : Bytes) → s ≢ [] → is_empty (s ++ (codes ": " ++ h.value)) ≡ false
    go [] ne = absurd (ne refl)
    go (c ∷ s) ne = refl

-- The lines of headers are read back one by one.
pub parse_headers-line_of :
    (hs : List Header) → All IsHeader hs → parse_headers (map line_of hs) ≡ ok hs
parse_headers-line_of [] w = unfold parse_headers in refl
parse_headers-line_of (h ∷ hs) (w, ws) =
    parse_headers_step (line_of h) (map line_of hs) h hs (line_of-nonempty h w)
      (parse_header-line_of h w) (parse_headers-line_of hs ws)

pub lines-IsLine : (hs : List Header) → All IsHeader hs → All IsLine (map line_of hs)
lines-IsLine [] w = tt
lines-IsLine (h ∷ hs) (w, ws) = (line_of-IsLine h w, lines-IsLine hs ws)

-- Splitting at white space: a part, a space, and what follows.
split_at_whitespace-part :
    (s rest : Bytes)
    → any is_ascii_whitespace s ≡ false
    → split_at_whitespace (s ++ (32 ∷ rest)) ≡ s ∷ split_at_whitespace rest
split_at_whitespace-part [] rest h = unfold split_at_whitespace in refl
split_at_whitespace-part (c ∷ s) rest h =
    step (||-eq-false _ _ h).0 (split_at_whitespace-part s rest (||-eq-false _ _ h).1)
  where
    step :
        is_ascii_whitespace c ≡ false
        → split_at_whitespace (s ++ (32 ∷ rest)) ≡ s ∷ split_at_whitespace rest
        → split_at_whitespace (c ∷ (s ++ (32 ∷ rest))) ≡ (c ∷ s) ∷ split_at_whitespace rest
    step e ih = unfold split_at_whitespace in rw (e, ih)

drop_empty-part : (s : Bytes) (ps : List Bytes) → s ≢ [] → drop_empty (s ∷ ps) ≡ s ∷ drop_empty ps
drop_empty-part [] ps ne = absurd (ne refl)
drop_empty-part (c ∷ s) ps ne = refl

abbrev pub request_line : Bytes → Bytes → Bytes
request_line method target = method ++ (codes " " ++ (target ++ codes " HTTP/1.1"))

pub split_request_line :
    (method target : Bytes)
    → IsPart method
    → IsPart target
    → split_ascii_whitespace (request_line method target) ≡ method ∷ target ∷ codes "HTTP/1.1" ∷ []
split_request_line method target m t =
    go (split_at_whitespace-part method _ m.no_space) (split_at_whitespace-part target _ t.no_space)
      (λ ps. drop_empty-part method ps m.nonempty) (λ ps. drop_empty-part target ps t.nonempty)
  where
    go :
        split_at_whitespace (method ++ (32 ∷ (target ++ (32 ∷ codes "HTTP/1.1"))))
          ≡ method ∷ split_at_whitespace (target ++ (32 ∷ codes "HTTP/1.1"))
        → split_at_whitespace (target ++ (32 ∷ codes "HTTP/1.1"))
          ≡ target ∷ split_at_whitespace (codes "HTTP/1.1")
        → ((ps : List Bytes) → drop_empty (method ∷ ps) ≡ method ∷ drop_empty ps)
        → ((ps : List Bytes) → drop_empty (target ∷ ps) ≡ target ∷ drop_empty ps)
        → split_ascii_whitespace (request_line method target)
          ≡ method ∷ target ∷ codes "HTTP/1.1" ∷ []
    go a b d e =
        unfold split_ascii_whitespace in
        (ap drop_empty a
          ∙ d (split_at_whitespace (target ++ (32 ∷ codes "HTTP/1.1")))
          ∙ ap (λ r. method ∷ drop_empty r) b
          ∙ ap (λ r. method ∷ r) (e (split_at_whitespace (codes "HTTP/1.1"))))
