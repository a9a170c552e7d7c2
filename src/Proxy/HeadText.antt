-- ===== src/Proxy/HeadText.antt =====
-- The head that `request_bytes` writes (run/slave/src/proxy.rs), line by line, in the eyes of the parser
-- of run/slave/src/http.rs.
use thwip.Http.{
  http11, Header, RequestHead, is_token, is_blank, parse_version, parse_parts, parse_request_line,
  header_of, parse_header, parse_headers, parse_lines,
}
use thwip.Http.Lines.{NoCr, IsLine, text_of}
use thwip.Http.WellFormed.{IsHeader, IsPart}
use thwip.Prelude.{
  ◌≡◌, refl, ◌≢◌, ◌∙◌, ap, Bool, true, false, ◌||◌, List, [], ◌∷◌, ◌++◌, map, arith, ◌==◌, all, any,
  keep, is_empty, All, ok, append_assoc, Bool-cases, All-append, inl, inr,
}
use thwip.Prelude.Text.{
  Bytes, codes, ◌=ᵇ◌, split_once, split_ascii_whitespace, to_lower, is_ascii_control, trim_matches,
}
use thwip.Proxy.{
  Upstream, connection_headers, is_sent, target_of, header_bytes, headers_bytes, request_bytes,
}
use thwip.Proxy.Lines.{
  line_of, NoCr-of_no_break, parse_headers_step, parse_header-line_of, line_of-nonempty,
  trim_matches-blank, lines-IsLine, request_line, split_request_line,
}

abbrev pub host_header : Upstream → Header
host_header u = record { name = codes "host"; value = u.authority }

abbrev pub close_header : Header
close_header = record { name = codes "connection"; value = codes "close" }

-- The headers that are sent on.
abbrev pub sent : RequestHead → List Header
sent r = keep (is_sent (connection_headers r.headers)) r.headers

-- The request that the upstream is to see.
abbrev pub forwarded : Upstream → RequestHead → RequestHead
forwarded u r = record {
  method = r.method;
  target = target_of u r.target;
  version = http11;
  headers = host_header u ∷ (sent r ++ close_header ∷ []);
}

-- What is asked of the request and of the upstream together.
pub record CanForward (u : Upstream) (r : RequestHead) : Type 0 where
  pub method_part : IsPart r.method
  pub method_token : all is_token r.method ≡ true
  pub target_part : IsPart (target_of u r.target)
  pub target_plain : any is_ascii_control (target_of u r.target) ≡ false
  pub headers : All IsHeader r.headers
  pub authority_no_break : any (λ c. (c == 13) || (c == 10)) u.authority ≡ false
  pub authority_trimmed : trim_matches is_blank u.authority ≡ u.authority

pub lines_of : Upstream → RequestHead → List Bytes
lines_of u r =
    (codes "Host: " ++ u.authority) ∷ (map line_of (sent r) ++ (codes "Connection: close" ∷ []))

-- The head that is sent, up to the blank line.
unfoldable pub head_text : Upstream → RequestHead → Bytes
unfolding lines_of
head_text u r = text_of (request_line r.method (target_of u r.target)) (lines_of u r)

all_bytes : List Header → Bytes
all_bytes [] = []
all_bytes (h ∷ hs) = header_bytes h ++ all_bytes hs

headers_bytes-keep :
    (names : List Bytes) (hs : List Header)
    → headers_bytes names hs ≡ all_bytes (keep (is_sent names) hs)
headers_bytes-keep names [] = unfold headers_bytes all_bytes in refl
headers_bytes-keep names (h ∷ hs) = elim (Bool-cases (is_sent names h)) [
  | inl yes' ↦ step yes' (headers_bytes-keep names hs)
  | inr no' ↦ pass no' (headers_bytes-keep names hs)
]
  where
    step :
        is_sent names h ≡ true
        → headers_bytes names hs ≡ all_bytes (keep (is_sent names) hs)
        → headers_bytes names (h ∷ hs) ≡ all_bytes (keep (is_sent names) (h ∷ hs))
    step e ih = unfold headers_bytes all_bytes in rw (headers_bytes, e, ih)

    pass :
        is_sent names h ≡ false
        → headers_bytes names hs ≡ all_bytes (keep (is_sent names) hs)
        → headers_bytes names (h ∷ hs) ≡ all_bytes (keep (is_sent names) (h ∷ hs))
    pass e ih = unfold headers_bytes all_bytes in rw (headers_bytes, e, ih)

text_of-headers :
    (first : Bytes) (hs : List Header) (last : Bytes)
    → text_of first (map line_of hs ++ (last ∷ [])) ≡ first ++ (13 ∷ 10 ∷ (all_bytes hs ++ last))
unfolding all_bytes
text_of-headers first [] last = refl
text_of-headers first (h ∷ hs) last =
    ap (λ t. first ++ (13 ∷ 10 ∷ t)) (text_of-headers (line_of h) hs last) ∙ simp append_assoc

-- What is written is the head, the blank line, and the body.
pub request_bytes-head_text :
    (u : Upstream) (r : RequestHead) (body : Bytes)
    → request_bytes u r body ≡ head_text u r ++ (13 ∷ 10 ∷ 13 ∷ 10 ∷ body)
request_bytes-head_text u r body =
    opened (headers_bytes-keep (connection_headers r.headers) r.headers)
      (text_of-headers (codes "Host: " ++ u.authority) (sent r) (codes "Connection: close"))
  where
    target : Bytes
    target = target_of u r.target

    opened :
        headers_bytes (connection_headers r.headers) r.headers ≡ all_bytes (sent r)
        → text_of
            (codes "Host: " ++ u.authority)
            (map line_of (sent r) ++ (codes "Connection: close" ∷ []))
          ≡ (codes "Host: " ++ u.authority)
            ++ (13 ∷ 10 ∷ (all_bytes (sent r) ++ codes "Connection: close"))
        → request_bytes u r body ≡ head_text u r ++ (13 ∷ 10 ∷ 13 ∷ 10 ∷ body)
    opened a b = unfold request_bytes head_text in rw (a, b) (simp append_assoc)

pub keep-All :
    {A : Type 0} (P : A → Type 0) (p : A → Bool) (xs : List A) → All P xs → All P (keep p xs)
keep-All P p [] h = tt
keep-All P p (x ∷ xs) (h, hs) = elim (Bool-cases (p x)) [
  | inl e ↦ rw e (h, keep-All P p xs hs)
  | inr e ↦ rw e (keep-All P p xs hs)
]

pub lines-All : (u : Upstream) (r : RequestHead) → CanForward u r → All IsLine (lines_of u r)
unfolding lines_of
lines-All u r w = (
  ((λ e. cc), host),
  All-append _ (map line_of (sent r)) _ (lines-IsLine (sent r) (keep-All _ _ r.headers w.headers))
      (((λ e. cc), omega arith), tt),
)
  where
    host : NoCr (codes "Host: " ++ u.authority)
    host =
        All-append _ (codes "Host: ") u.authority (omega arith)
          (NoCr-of_no_break u.authority w.authority_no_break)

parse_request_line-lem :
    (method target : Bytes)
    → IsPart method
    → IsPart target
    → all is_token method ≡ true
    → any is_ascii_control target ≡ false
    → parse_request_line (request_line method target) ≡ ok (method, target, http11)
parse_request_line-lem method target m t token plain =
    read (split_request_line method target m t) (nonempty target t.nonempty)
  where
    nonempty : (s : Bytes) → s ≢ [] → is_empty s ≡ false
    nonempty [] ne = absurd (ne refl)
    nonempty (c ∷ s) ne = refl

    read :
        split_ascii_whitespace (request_line method target)
          ≡ method ∷ target ∷ codes "HTTP/1.1" ∷ []
        → is_empty target ≡ false
        → parse_request_line (request_line method target) ≡ ok (method, target, http11)
    read e ne = unfold parse_request_line parse_parts parse_version ◌=ᵇ◌ in rw (e, token, ne, plain)

host-parsed :
    (u : Upstream) (r : RequestHead)
    → CanForward u r
    → parse_header (codes "Host: " ++ u.authority) ≡ ok (host_header u)
host-parsed u r w = read (trim_matches-blank u.authority ∙ w.authority_trimmed)
  where
    read :
        trim_matches is_blank (32 ∷ u.authority) ≡ u.authority
        → parse_header (codes "Host: " ++ u.authority) ≡ ok (host_header u)
    read e =
        unfold parse_header header_of split_once is_token to_lower in rw (w.authority_no_break, e)

close-parsed : parse_header (codes "Connection: close") ≡ ok close_header
unfolding parse_header trim_matches to_lower split_once
close-parsed = refl

-- Headers, and one more line behind them.
parse_headers-append :
    (hs : List Header) (line : Bytes) (h : Header)
    → All IsHeader hs
    → parse_headers (line ∷ []) ≡ ok (h ∷ [])
    → parse_headers (map line_of hs ++ line ∷ []) ≡ ok (hs ++ h ∷ [])
parse_headers-append [] line h w e = e
parse_headers-append (x ∷ xs) line h (w, ws) e =
    parse_headers_step (line_of x) (map line_of xs ++ line ∷ []) x (xs ++ h ∷ [])
      (line_of-nonempty x w) (parse_header-line_of x w) (parse_headers-append xs line h ws e)

pub lines-parsed :
    (u : Upstream) (r : RequestHead)
    → CanForward u r
    → parse_lines (request_line r.method (target_of u r.target) ∷ lines_of u r) ≡ ok (forwarded u r)
lines-parsed u r w =
    read
      (parse_request_line-lem r.method (target_of u r.target) w.method_part w.target_part
        w.method_token w.target_plain)
      (parse_headers_step (codes "Host: " ++ u.authority) _ (host_header u) _ refl
        (host-parsed u r w)
        (parse_headers-append (sent r) (codes "Connection: close") close_header
          (keep-All _ _ r.headers w.headers)
          (parse_headers_step (codes "Connection: close") [] close_header [] refl close-parsed
            (unfold parse_headers in refl))))
  where
    read :
        parse_request_line (request_line r.method (target_of u r.target))
          ≡ ok (r.method, target_of u r.target, http11)
        → parse_headers (
            (codes "Host: " ++ u.authority)
            ∷ (map line_of (sent r) ++ (codes "Connection: close" ∷ [])))
          ≡ ok (host_header u ∷ (sent r ++ close_header ∷ []))
        → parse_lines (request_line r.method (target_of u r.target) ∷ lines_of u r)
          ≡ ok (forwarded u r)
    read a b = unfold parse_lines lines_of in rw (a, b)
