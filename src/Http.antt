-- ===== src/Http.antt =====
-- run/slave/src/http.rs: the request head, its parser, and the framing of the body. Text is the
-- bytes of its UTF-8 form. A `usize` has 64 bits.
pub mod Lines
pub mod Trimming
pub mod WellFormed
pub mod Fragments
pub mod Framing
pub mod Scan
use thwip.Prelude.{
  ℕ, zero, suc, ◌+◌, ◌*◌, ◌≤◌, ◌<◌, String, ◌≡◌, Bool, true, false, not, ◌&&◌, ◌||◌, Option, none,
  some, List, [], ◌∷◌, ◌++◌, ltb, leb, ◌==◌, if◌then◌else◌, length, take, all, any, is_empty,
  Result, ok, err, ◌>>=◌, ◌>>◌, guard, ok_or,
}
use thwip.Prelude.Text.{
  Bytes, codes, ◌=ᵇ◌, is_ascii_digit, is_ascii_alphanumeric, is_ascii_control, to_lower,
  to_ascii_lowercase, starts_with, split_once, contains, split_crlf, split_ascii_whitespace,
  trim_matches, parse_uint,
}
use thwip.Prelude.Utf8.{is_utf8}
use mathlib.Core.Option

abbrev pub max_request_head_size : ℕ
max_request_head_size = 16 * 1024

pub data HttpVersion : Type 0 where
  http10 http11 : HttpVersion

pub record Header : Type 0 where
  pub name : Bytes
  pub value : Bytes

pub record RequestHead : Type 0 where
  pub method : Bytes
  pub target : Bytes
  pub version : HttpVersion
  pub headers : List Header

pub data BodyFramingError : Type 0 where
  invalid_content_length conflicting_content_length unsupported_transfer_encoding : BodyFramingError

pub data RequestHeadParse : Type 0 where
  incomplete : RequestHeadParse
  complete : (request : RequestHead) (consumed : ℕ) → RequestHeadParse

pub data ParseError : Type 0 where
  head_too_large : (limit : ℕ) → ParseError
  invalid_request_line invalid_method invalid_target unsupported_version : ParseError
  invalid_header invalid_text : ParseError

abbrev pub is_named : String → Header → Bool
is_named name header = header.name =ᵇ codes name

-- One round of the loop of `body_length`, at a header that gives a content length.
unfoldable pub content_length_of : Header → Result ℕ BodyFramingError
content_length_of header =
    if is_empty header.value || not (all is_ascii_digit header.value)
    then err invalid_content_length
    else ok_or (parse_uint 64 header.value) invalid_content_length

-- `match content_length`: a second value must agree with the first.
unfoldable pub agree : Option ℕ → ℕ → Result (Option ℕ) BodyFramingError
agree none value = ok (some value)
agree (some previous) value =
    if previous == value then ok (some value) else err conflicting_content_length

unfoldable pub content_length_loop : Option ℕ → List Header → Result (Option ℕ) BodyFramingError
unfolding content_length_of agree
content_length_loop seen [] = ok seen
content_length_loop seen (header ∷ headers) = elim (is_named "content-length" header) [
  | false ↦ content_length_loop seen headers
  | true ↦ do
    value ← content_length_of header
    seen' ← agree seen value
    content_length_loop seen' headers
]

abbrev pub or_zero : Option ℕ → ℕ
or_zero none = 0
or_zero (some n) = n

unfoldable pub body_length : RequestHead → Result ℕ BodyFramingError
unfolding content_length_loop
body_length request =
    if any (is_named "transfer-encoding") request.headers
    then err unsupported_transfer_encoding
    else do seen ← content_length_loop none request.headers; ok (or_zero seen)

-- "\r\n\r\n"
abbrev pub head_end_mark : Bytes
head_end_mark = 13 ∷ 10 ∷ 13 ∷ 10 ∷ []

unfoldable pub find_head_end : Bytes → Option ℕ
find_head_end [] = none
find_head_end (c ∷ s) =
    let later = find_head_end s in
    if starts_with head_end_mark (c ∷ s) then some 0 else Option.map suc later

unfoldable pub is_token : ℕ → Bool
is_token byte = is_ascii_alphanumeric byte || contains byte (codes "!#$%&'*+-.^_`|~")

unfoldable pub parse_version : Bytes → Result HttpVersion ParseError
parse_version version =
    if version =ᵇ codes "HTTP/1.0"
    then ok http10
    else if version =ᵇ codes "HTTP/1.1"
    then ok http11
    else err unsupported_version

-- The checks of `parse_request_line`, once it has exactly three parts.
unfoldable pub parse_parts : Bytes → Bytes → Bytes → Result (Bytes × Bytes × HttpVersion) ParseError
unfolding is_token parse_version
parse_parts method target version = do
  guard (all is_token method) invalid_method
  guard (not (is_empty target || any is_ascii_control target)) invalid_target
  found ← parse_version version
  ok (method, target, found)

abbrev pub three_parts : List Bytes → Result (Bytes × Bytes × HttpVersion) ParseError
three_parts (method ∷ target ∷ version ∷ []) = parse_parts method target version
three_parts _ = err invalid_request_line

unfoldable pub parse_request_line : Bytes → Result (Bytes × Bytes × HttpVersion) ParseError
unfolding parse_parts
parse_request_line line = three_parts (split_ascii_whitespace line)

abbrev pub is_blank : ℕ → Bool
is_blank c = (c == 32) || (c == 9)

unfoldable pub header_of : Bytes × Bytes → Result Header ParseError
unfolding is_token
header_of (name, value) =
    if is_empty name || (not (all is_token name) || any (λ c. (c == 13) || (c == 10)) value)
    then err invalid_header
    else ok (record { name = to_ascii_lowercase name; value = trim_matches is_blank value })

unfoldable pub parse_header : Bytes → Result Header ParseError
unfolding header_of
parse_header line = do pair ← ok_or (split_once b':' line) invalid_header; header_of pair

unfoldable pub parse_headers : List Bytes → Result (List Header) ParseError
unfolding parse_header
parse_headers [] = ok []
parse_headers (line ∷ lines) = elim (is_empty line) [
  | true ↦ parse_headers lines
  | false ↦ do header ← parse_header line; headers ← parse_headers lines; ok (header ∷ headers)
]

-- The rest of `parse_request_head`, on the lines of the head.
unfoldable pub parse_lines : List Bytes → Result RequestHead ParseError
unfolding parse_request_line parse_headers
parse_lines [] = err invalid_request_line
parse_lines (request_line ∷ lines) = do
  (method, target, version) ← parse_request_line request_line
  headers ← parse_headers lines
  ok (record { method = method; target = target; version = version; headers = headers })

-- `parse_request_head` once `find_head_end` has answered.
unfoldable pub parse_at : Bytes → Option ℕ → Result RequestHeadParse ParseError
unfolding parse_lines
parse_at bytes none =
    if ltb max_request_head_size (length bytes)
    then err (head_too_large max_request_head_size)
    else ok incomplete
parse_at bytes (some head_end) =
    if ltb max_request_head_size head_end then err (head_too_large max_request_head_size) else do
      guard (is_utf8 (take head_end bytes)) invalid_text
      request ← parse_lines (split_crlf (take head_end bytes))
      ok (complete request (head_end + 4))

unfoldable pub parse_request_head : Bytes → Result RequestHeadParse ParseError
unfolding parse_at
parse_request_head bytes = parse_at bytes (find_head_end bytes)
