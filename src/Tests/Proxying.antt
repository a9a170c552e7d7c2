-- ===== src/Tests/Proxying.antt =====
-- Runs of run/slave/src/proxy.rs.
use thwip.Prelude.{
  ℕ, zero, suc, ◌+◌, ◌≤◌, ◌≡◌, refl, Bool, true, false, List, [], ◌∷◌, ◌++◌, arith, length, drop,
  Result, ok, err,
}
use thwip.Prelude.Text.{
  Bytes, codes, ◌=ᵇ◌, split, split_once, starts_with, split_crlf, split_ascii_whitespace, to_lower,
  trim_matches, parse_uint, contains_text,
}
use thwip.Prelude.Utf8.{is_utf8}
use thwip.Http.{
  Header, RequestHead, http11, complete, parse_request_head, find_head_end, body_length,
  max_request_head_size,
}
use thwip.Proxy.{Upstream, connection_headers, request_bytes}
use thwip.Proxy.HeadText.{forwarded, head_text}
use thwip.Proxy.Forward.{IsPlain, parse_request_head-request_bytes}
use thwip.Proxy.Framing.{length_name, forwarded-body_length}
use thwip.Proxy.Smuggling.{request_bytes-drops_length}

abbrev upstream_one : Upstream
upstream_one = record {
  authority = codes "a:80";
  connect_address = codes "a:80";
  base_path = codes "/x";
}

abbrev posted_text : Bytes
posted_text =
    codes "POST /a HTTP/1.1"
    ++ (13 ∷ 10 ∷ codes "content-length: 2")
    ++ (13 ∷ 10 ∷ codes "connection: x-trace")
    ++ (13 ∷ 10 ∷ codes "x-trace: 1")
    ++ (13 ∷ 10 ∷ 13 ∷ 10 ∷ [])

abbrev length_header : Header
length_header = record { name = codes "content-length"; value = codes "2" }

abbrev posted_head : RequestHead
posted_head = record {
  method = codes "POST";
  target = codes "/a";
  version = http11;
  headers =
      length_header
      ∷ record { name = codes "connection"; value = codes "x-trace" }
      ∷ record { name = codes "x-trace"; value = codes "1" }
      ∷ [];
}

posted_text-parsed : parse_request_head posted_text ≡ ok (complete posted_head 72)
unfolding parse_request_head find_head_end starts_with is_utf8 split_crlf split_ascii_whitespace
    ◌=ᵇ◌ split_once to_lower trim_matches
posted_text-parsed = refl

upstream_one-IsPlain : IsPlain upstream_one
unfolding trim_matches
upstream_one-IsPlain = record {
  authority_no_break = refl;
  authority_trimmed = refl;
  base_no_space = refl;
  base_plain = refl;
}

head_text-utf8 : is_utf8 (head_text upstream_one posted_head) ≡ true
unfolding head_text is_utf8 thwip.Proxy.target_of thwip.Prelude.Text.trim_end_matches
    thwip.Proxy.is_hop_by_hop ◌=ᵇ◌ connection_headers split thwip.Prelude.Utf8.trim to_lower
head_text-utf8 = refl

head_text-small : length (head_text upstream_one posted_head) ≤ max_request_head_size
unfolding head_text thwip.Proxy.target_of thwip.Prelude.Text.trim_end_matches
    thwip.Proxy.is_hop_by_hop ◌=ᵇ◌ connection_headers split thwip.Prelude.Utf8.trim to_lower
head_text-small = omega arith

parse_request_head-request_bytes_example :
    (parse_request_head (request_bytes upstream_one posted_head (codes "hi"))
      ≡ ok (
          complete
            (forwarded upstream_one posted_head)
            (length (head_text upstream_one posted_head) + 4)))
    × (drop
          (length (head_text upstream_one posted_head) + 4)
          (request_bytes upstream_one posted_head (codes "hi"))
        ≡ codes "hi")
parse_request_head-request_bytes_example =
    parse_request_head-request_bytes upstream_one posted_text posted_head 72 (codes "hi")
      posted_text-parsed upstream_one-IsPlain head_text-utf8 head_text-small

posted_head-length : body_length posted_head ≡ ok 2
unfolding body_length ◌=ᵇ◌ parse_uint
posted_head-length = refl

names_trace : contains_text length_name (connection_headers posted_head.headers) ≡ false
unfolding connection_headers ◌=ᵇ◌ split thwip.Prelude.Utf8.trim to_lower
names_trace = refl

forwarded-body_length_example : body_length (forwarded upstream_one posted_head) ≡ ok 2
forwarded-body_length_example =
    forwarded-body_length upstream_one posted_head 2 names_trace posted_head-length

abbrev smuggling_head : RequestHead
smuggling_head = record {
  method = codes "POST";
  target = codes "/a";
  version = http11;
  headers =
      length_header ∷ record { name = codes "connection"; value = codes "Content-Length" } ∷ [];
}

abbrev smuggling_text : Bytes
smuggling_text =
    codes "POST /a HTTP/1.1"
    ++ (13 ∷ 10 ∷ codes "content-length: 2")
    ++ (13 ∷ 10 ∷ codes "connection: Content-Length")
    ++ (13 ∷ 10 ∷ 13 ∷ 10 ∷ [])

smuggling_text-parsed : parse_request_head smuggling_text ≡ ok (complete smuggling_head 67)
unfolding parse_request_head find_head_end starts_with is_utf8 split_crlf split_ascii_whitespace
    ◌=ᵇ◌ split_once to_lower trim_matches
smuggling_text-parsed = refl

smuggling-utf8 : is_utf8 (head_text upstream_one smuggling_head) ≡ true
unfolding head_text is_utf8 thwip.Proxy.target_of thwip.Prelude.Text.trim_end_matches
    thwip.Proxy.is_hop_by_hop ◌=ᵇ◌ connection_headers split thwip.Prelude.Utf8.trim to_lower
smuggling-utf8 = refl

smuggling-small : length (head_text upstream_one smuggling_head) ≤ max_request_head_size
unfolding head_text thwip.Proxy.target_of thwip.Prelude.Text.trim_end_matches
    thwip.Proxy.is_hop_by_hop ◌=ᵇ◌ connection_headers split thwip.Prelude.Utf8.trim to_lower
smuggling-small = omega arith

names_length : contains_text length_name (connection_headers smuggling_head.headers) ≡ true
unfolding connection_headers ◌=ᵇ◌ split thwip.Prelude.Utf8.trim to_lower
names_length = refl

request_bytes-drops_length_example :
    (parse_request_head (request_bytes upstream_one smuggling_head (codes "hi"))
      ≡ ok (
          complete
            (forwarded upstream_one smuggling_head)
            (length (head_text upstream_one smuggling_head) + 4)))
    × (body_length (forwarded upstream_one smuggling_head) ≡ ok 0)
    × (drop
          (length (head_text upstream_one smuggling_head) + 4)
          (request_bytes upstream_one smuggling_head (codes "hi"))
        ≡ codes "hi")
request_bytes-drops_length_example =
    request_bytes-drops_length upstream_one smuggling_text smuggling_head 67 (codes "hi")
      smuggling_text-parsed upstream_one-IsPlain smuggling-utf8 smuggling-small names_length
