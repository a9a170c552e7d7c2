-- ===== src/Proxy.antt =====
-- run/slave/src/proxy.rs: the upstream's URL, and the request that is sent to it. Text is the bytes
-- of its UTF-8 form.
pub mod Lines
pub mod HeadText
pub mod Forward
pub mod Framing
pub mod Smuggling
use thwip.Prelude.{
  ℕ, suc, ◌+◌, String, ◌≡◌, Bool, true, false, not, ◌&&◌, ◌||◌, Option, none, some, List, [], ◌∷◌,
  ◌++◌, map, ◌==◌, if◌then◌else◌, length, get_elem?, any, keep, is_empty, Result, ok, err, ◌>>=◌,
  ◌>>◌, guard, ok_or,
}
use thwip.Prelude.Text.{
  Bytes, codes, ◌=ᵇ◌, to_ascii_lowercase, strip_prefix, starts_with, split_once, split, contains,
  trim_end_matches, find_byte, contains_text,
}
use thwip.Prelude.Utf8.{trim}
use thwip.Http.{Header, RequestHead, is_named}

pub record Upstream : Type 0 where
  pub authority : Bytes
  pub connect_address : Bytes
  pub base_path : Bytes

pub data UpstreamError : Type 0 where
  unsupported_scheme missing_host invalid_authority : UpstreamError

-- The authority, and the path with its slash.
abbrev pub split_path : Bytes → Option (Bytes × Bytes) → Bytes × Bytes
split_path remainder none = (remainder, [])
split_path remainder (some (authority, path)) = (authority, b'/' ∷ path)

abbrev pub with_port : Bytes → Bytes
with_port authority = authority ++ codes ":80"

-- An IPv6 authority in brackets: what stands behind the closing one decides.
unfoldable pub bracketed_address : Bytes → ℕ → Result Bytes UpstreamError
bracketed_address authority closing =
    if closing + 1 == length authority
    then ok (with_port authority)
    else elim (get_elem? authority (closing + 1)) [
      | none ↦ err invalid_authority
      | some c ↦ if c == b':' then ok authority else err invalid_authority
    ]

unfoldable pub connect_address_of : Bytes → Result Bytes UpstreamError
unfolding bracketed_address
connect_address_of authority =
    if starts_with (codes "[") authority
    then ok_or (find_byte b']' authority) invalid_authority >>= bracketed_address authority
    else if contains b':' authority
    then ok authority
    else ok (with_port authority)

-- The checks of `parse` on the two parts of the URL.
unfoldable pub parse_parts : Bytes × Bytes → Result Upstream UpstreamError
unfolding connect_address_of
parse_parts (authority, base_path) = do
  guard (not (is_empty authority)) missing_host
  guard (not (contains b'@' authority || (contains b'?' authority || contains b'#' authority)))
      invalid_authority
  connect_address ← connect_address_of authority
  ok (record { authority = authority; connect_address = connect_address; base_path = base_path })

unfoldable pub parse : Bytes → Result Upstream UpstreamError
unfolding parse_parts
parse url = do
  remainder ← ok_or (strip_prefix (codes "http://") url) unsupported_scheme
  parse_parts (split_path remainder (split_once b'/' remainder))

-- The names that one `Connection` value lists.
abbrev pub nominated : Bytes → List Bytes
nominated value = map (λ name. to_ascii_lowercase (trim name)) (split b',' value)

unfoldable pub connection_headers : List Header → List Bytes
connection_headers [] = []
connection_headers (header ∷ headers) =
    if is_named "connection" header
    then nominated header.value ++ connection_headers headers
    else connection_headers headers

-- The headers that are never sent on.
unfoldable pub is_hop_by_hop : Header → Bool
is_hop_by_hop header =
    is_named "host" header
    || (is_named "connection" header
        || (is_named "proxy-connection" header
            || (is_named "keep-alive" header
                || (is_named "transfer-encoding" header || is_named "upgrade" header))))

abbrev pub is_sent : List Bytes → Header → Bool
is_sent names header = not (is_hop_by_hop header || contains_text header.name names)

unfoldable pub target_of : Upstream → Bytes → Bytes
target_of upstream target =
    if is_empty upstream.base_path
    then target
    else trim_end_matches (λ c. c == b'/') upstream.base_path ++ target

abbrev pub header_bytes : Header → Bytes
header_bytes header = header.name ++ (codes ": " ++ (header.value ++ (13 ∷ 10 ∷ [])))

-- The loop over the headers; `continue` skips one.
unfoldable pub headers_bytes : List Bytes → List Header → Bytes
headers_bytes names [] = []
headers_bytes names (header ∷ headers) =
    if is_sent names header
    then header_bytes header ++ headers_bytes names headers
    else headers_bytes names headers

unfoldable pub request_bytes : Upstream → RequestHead → Bytes → Bytes
request_bytes upstream request body =
    request.method
    ++ (codes " "
        ++ (target_of upstream request.target
            ++ (codes " HTTP/1.1"
                ++ (13
                    ∷ 10
                    ∷ (codes "Host: "
                        ++ (upstream.authority
                            ++ (13
                                ∷ 10
                                ∷ (headers_bytes (connection_headers request.headers)
                                      request.headers
                                    ++ (codes "Connection: close"
                                        ++ (13 ∷ 10 ∷ 13 ∷ 10 ∷ body))))))))))
