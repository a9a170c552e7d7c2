-- ===== src/Tests/Requests.antt =====
-- Runs of run/slave/src/http.rs.
use thwip.Prelude.{
  ℕ, zero, suc, ◌+◌, ◌≤◌, ◌≡◌, refl, ◌↔◌, true, [], ◌∷◌, ◌++◌, arith, length, take, drop, ok, err,
}
use thwip.Prelude.Text.{
  Bytes, codes, ◌=ᵇ◌, starts_with, split_crlf, split_ascii_whitespace, split_once, to_lower,
  trim_matches,
}
use thwip.Prelude.Utf8.{is_utf8}
use thwip.Http.{
  Header, RequestHead, http11, complete, incomplete, head_too_large, max_request_head_size,
  parse_request_head, body_length, head_end_mark, find_head_end,
}
use thwip.Http.WellFormed.{IsRequest, parse_request_head-IsRequest}
use thwip.Http.Fragments.{
  parse_request_head-bounds, parse_request_head-append, parse_request_head-prefix,
  parse_request_head-fragment_too_large,
}
use thwip.Http.Framing.{FramesAs, body_length-eq-ok_iff}

abbrev request_text : Bytes
request_text =
    codes "GET /a HTTP/1.1"
    ++ (13 ∷ 10 ∷ (codes "content-length: 2" ++ (13 ∷ 10 ∷ 13 ∷ 10 ∷ [])))
    ++ codes "hi"

abbrev length_header : Header
length_header = record { name = codes "content-length"; value = codes "2" }

abbrev request_head : RequestHead
request_head = record {
  method = codes "GET";
  target = codes "/a";
  version = http11;
  headers = length_header ∷ [];
}

request_text-parsed : parse_request_head request_text ≡ ok (complete request_head 38)
unfolding parse_request_head find_head_end starts_with is_utf8 split_crlf split_ascii_whitespace
    ◌=ᵇ◌ split_once to_lower trim_matches
request_text-parsed = refl

parse_request_head-IsRequest_example : IsRequest request_head
parse_request_head-IsRequest_example =
    parse_request_head-IsRequest request_text request_head 38 request_text-parsed

parse_request_head-bounds_example :
    (4 ≤ 38)
    × (38 ≤ length request_text)
    × (38 ≤ max_request_head_size + 4)
    × (starts_with head_end_mark (drop 34 request_text) ≡ true)
parse_request_head-bounds_example =
    parse_request_head-bounds request_text request_head 38 request_text-parsed

parse_request_head-append_example :
    parse_request_head (request_text ++ codes "GET") ≡ ok (complete request_head 38)
parse_request_head-append_example =
    parse_request_head-append request_text (codes "GET") request_head 38 request_text-parsed

parse_request_head-prefix_example : parse_request_head (take 37 request_text) ≡ ok incomplete
parse_request_head-prefix_example =
    parse_request_head-prefix request_text request_head 38 37 request_text-parsed (omega arith)
      (omega arith)

body_length-eq-ok_iff_example : (body_length request_head ≡ ok 2) ↔ FramesAs request_head 2
body_length-eq-ok_iff_example = body_length-eq-ok_iff request_head 2

-- A target that fills the head up to the limit.
abbrev slashes : ℕ → Bytes
slashes zero = []
slashes (suc n) = b'/' ∷ slashes n

abbrev long_text : Bytes
long_text = codes "GET " ++ slashes 16370 ++ codes " HTTP/1.1" ++ (13 ∷ 10 ∷ 13 ∷ 10 ∷ [])

abbrev long_head : RequestHead
long_head = record { method = codes "GET"; target = slashes 16370; version = http11; headers = [] }

long_text-parsed : parse_request_head long_text ≡ ok (complete long_head 16387)
unfolding parse_request_head find_head_end starts_with is_utf8 split_crlf split_ascii_whitespace
    ◌=ᵇ◌ split_once to_lower trim_matches
long_text-parsed = refl

parse_request_head-fragment_too_large_example :
    parse_request_head (take 16385 long_text) ≡ err (head_too_large max_request_head_size)
parse_request_head-fragment_too_large_example =
    parse_request_head-fragment_too_large long_text long_head 16387 16385 long_text-parsed
      (omega arith) (omega arith)
