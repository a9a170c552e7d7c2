-- ===== src/Proxy/Smuggling.antt =====
-- What an upstream reads behind a forwarded request whose length is not sent on (run/slave/src/proxy.rs
-- with `RequestHead::body_length` of run/slave/src/http.rs).
use thwip.Prelude.{◌+◌, ◌≤◌, ◌≡◌, ℕ, true, length, drop, ok}
use thwip.Prelude.Text.{Bytes, contains_text}
use thwip.Prelude.Utf8.{is_utf8}
use thwip.Http.{RequestHead, complete, parse_request_head, body_length, max_request_head_size}
use thwip.Proxy.{Upstream, connection_headers, request_bytes}
use thwip.Proxy.HeadText.{forwarded, head_text}
use thwip.Proxy.Forward.{IsPlain, parse_request_head-request_bytes}
use thwip.Proxy.Framing.{length_name, forwarded-drops_length}

-- A request that the parser accepted, and whose `Connection` header names the content length, is sent to
-- a plain upstream as a head from which the parser and the framing read a request without a body, and
-- whatever body it has right behind that head: if the head that is sent is valid UTF-8 of at most 16384
-- bytes.
pub request_bytes-drops_length :
    (u : Upstream) (bytes : Bytes) (r : RequestHead) (consumed : ℕ) (body : Bytes)
    → parse_request_head bytes ≡ ok (complete r consumed)
    → IsPlain u
    → is_utf8 (head_text u r) ≡ true
    → length (head_text u r) ≤ max_request_head_size
    → contains_text length_name (connection_headers r.headers) ≡ true
    → (parse_request_head (request_bytes u r body)
        ≡ ok (complete (forwarded u r) (length (head_text u r) + 4)))
      × (body_length (forwarded u r) ≡ ok 0)
      × (drop (length (head_text u r) + 4) (request_bytes u r body) ≡ body)
request_bytes-drops_length u bytes r consumed body h p valid small named =
    let (head, rest) = parse_request_head-request_bytes u bytes r consumed body h p valid small in
    (head, forwarded-drops_length u r named, rest)
