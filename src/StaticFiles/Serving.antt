-- ===== src/StaticFiles/Serving.antt =====
-- run/slave/src/static_files.rs: serving a file, whole and as a stream of chunks. The file system and
-- the table of media types (`mime_guess`) are the fields of `FileSystem`; an absolute path is the list
-- of its parts under `/`. The messages of the reading thread are a list, for a receiver that stays.
pub mod Inside
pub mod Chunks
pub mod Answers
use thwip.Prelude.{
  ℕ, zero, suc, ◌+◌, ◌-◌, ◌/◌, ◌%◌, ◌≤◌, min, ◌≡◌, Bool, true, false, not, ◌&&◌, ◌||◌, Option, none,
  some, List, [], ◌∷◌, ◌++◌, ltb, leb, ◌==◌, if◌then◌else◌, length, take, drop, any, find, Result,
  ok, err, ◌>>=◌, ◌>>◌, guard,
}
use thwip.Prelude.Text.{Bytes, codes, ◌=ᵇ◌, to_decimal}
use thwip.Http.{Header, RequestHead}
use thwip.Router.{crlf, response_bytes_with_body}
use thwip.StaticFiles.{
  StaticError, bad_request, forbidden, method_not_allowed, not_found, too_large,
  range_not_satisfiable, io, max_in_memory_static_file_size, stream_chunk_size, Range, parse_range,
  FilePath, RequestTarget, parse_request_target, relative_path,
}

-- `io::ErrorKind`, as far as the source tells the kinds apart.
pub data IoErrorKind : Type 0 where
  missing permission_denied other_kind : IoErrorKind

pub data FileKind : Type 0 where
  regular directory special : FileKind

-- `fs::Metadata`: `modified` is in seconds since the epoch, `none` where it cannot be told.
pub record Metadata : Type 0 where
  pub kind : FileKind
  pub len : ℕ
  pub modified : Option ℕ

pub record FileSystem : Type 0 where
  pub canonicalize : FilePath → Result FilePath IoErrorKind
  pub metadata : FilePath → Result Metadata IoErrorKind
  pub read : FilePath → Result Bytes IoErrorKind
  pub content_type : FilePath → Bytes

unfoldable pub map_io_error : {A : Type 0} → Result A IoErrorKind → Result A StaticError
map_io_error (ok a) = ok a
map_io_error (err missing) = err not_found
map_io_error (err permission_denied) = err forbidden
map_io_error (err other_kind) = err io

-- `Path::starts_with`, which compares whole parts.
unfoldable pub is_under : FilePath → FilePath → Bool
is_under [] path = true
is_under (part ∷ root) [] = false
is_under (part ∷ root) (first ∷ path) = (part =ᵇ first) && is_under root path

abbrev pub is_dir : FileKind → Bool
is_dir directory = true
is_dir regular = false
is_dir special = false

abbrev pub is_file : FileKind → Bool
is_file regular = true
is_file directory = false
is_file special = false

-- Canonicalizes a path, which must lie under the root, and reads its metadata.
unfoldable pub locate : FileSystem → FilePath → FilePath → Result (FilePath × Metadata) StaticError
unfolding map_io_error is_under
locate fs root path = do
  candidate ← map_io_error (fs.canonicalize path)
  guard (is_under root candidate) forbidden
  found ← map_io_error (fs.metadata candidate)
  ok (candidate, found)

unfoldable pub index_of :
    FileSystem → FilePath → FilePath × Metadata → Result (FilePath × Metadata) StaticError
unfolding locate
index_of fs root (candidate, found) =
    if is_dir found.kind
    then locate fs root (candidate ++ (codes "index.html" ∷ []))
    else ok (candidate, found)

unfoldable pub resolve_static_path :
    FileSystem → FilePath → Bytes → Result (FilePath × Metadata) StaticError
unfolding map_io_error locate index_of
resolve_static_path fs root raw_target = do
  target ← parse_request_target raw_target
  root' ← map_io_error (fs.canonicalize root)
  relative ← relative_path target.path
  first ← locate fs root' (root' ++ relative)
  last ← index_of fs root' first
  guard (is_file last.1.kind) not_found
  ok last

pub record StaticFile : Type 0 where
  pub bytes : Bytes
  pub content_type : Bytes
  pub content_length : ℕ

abbrev pub is_get_or_head : Bytes → Bool
is_get_or_head method = (method =ᵇ codes "GET") || (method =ᵇ codes "HEAD")

unfoldable pub serve_static : FileSystem → FilePath → Bytes → Bytes → Result StaticFile StaticError
unfolding resolve_static_path map_io_error
serve_static fs root method raw_target = do
  guard (is_get_or_head method) method_not_allowed
  found ← resolve_static_path fs root raw_target
  guard (leb found.1.len max_in_memory_static_file_size) too_large
  bytes ← map_io_error (fs.read found.0)
  ok (record {
    bytes = bytes;
    content_type = fs.content_type found.0;
    content_length = found.1.len;
  })

abbrev plain_text : Bytes
plain_text = codes "text/plain; charset=utf-8"

unfoldable pub static_error_response : StaticError → Bytes
static_error_response bad_request =
    response_bytes_with_body 400 plain_text (codes "bad request") true
static_error_response forbidden = response_bytes_with_body 403 plain_text (codes "forbidden") true
static_error_response method_not_allowed =
    response_bytes_with_body 405 plain_text (codes "method not allowed") true
static_error_response not_found = response_bytes_with_body 404 plain_text (codes "not found") true
static_error_response too_large =
    response_bytes_with_body 413 plain_text (codes "file too large") true
static_error_response range_not_satisfiable =
    response_bytes_with_body 416 plain_text (codes "range not satisfiable") true
static_error_response io =
    response_bytes_with_body 500 plain_text (codes "internal server error") true

unfoldable pub static_response_bytes : FileSystem → FilePath → Bytes → Bytes → Bytes
unfolding serve_static static_error_response
static_response_bytes fs root method raw_target = elim (serve_static fs root method raw_target) [
  | ok file ↦
      response_bytes_with_body 200 file.content_type file.bytes (not (method =ᵇ codes "HEAD"))
  | err error ↦ static_error_response error
]

-- `{:x}`; a number has at most as many digits as its value plus one.
abbrev hex_digit : ℕ → ℕ
hex_digit n = if ltb n 10 then b'0' + n else b'a' + (n - 10)

unfoldable pub hex_onto : ℕ → ℕ → Bytes → Bytes
hex_onto zero n out = out
hex_onto (suc fuel) n out =
    let more = hex_onto fuel (n / 16) (hex_digit (n % 16) ∷ out) in
    if ltb n 16 then hex_digit n ∷ out else more

unfoldable pub etag_of : Metadata → Bytes
unfolding hex_onto
etag_of found =
    let modified : ℕ = elim found.modified [ none ↦ 0 | some seconds ↦ seconds ] in
    (b'"' ∷ hex_onto (suc found.len) found.len [])
    ++ (b'-' ∷ hex_onto (suc modified) modified [])
    ++ (b'"' ∷ [])

-- What the reading thread is given.
pub record FileStream : Type 0 where
  pub path : FilePath
  pub start : ℕ
  pub length : ℕ

pub record StaticStreamResponse : Type 0 where
  pub head : Bytes
  pub stream : Option FileStream

unfoldable pub not_modified_head : Bytes → Bytes
not_modified_head etag =
    codes "HTTP/1.1 304 Not Modified"
    ++ crlf
    ++ codes "ETag: "
    ++ etag
    ++ crlf
    ++ codes "Cache-Control: public, max-age=3600"
    ++ crlf
    ++ codes "Connection: close"
    ++ crlf
    ++ crlf

abbrev content_range : Option Range → ℕ → Bytes
content_range none length = []
content_range (some range) length =
    codes "Content-Range: bytes "
    ++ to_decimal range.start
    ++ codes "-"
    ++ to_decimal range.end
    ++ codes "/"
    ++ to_decimal length
    ++ crlf

abbrev status_of : Option Range → Bytes
status_of none = codes "200 OK"
status_of (some range) = codes "206 Partial Content"

-- A whole file is answered from its first byte to its last; an empty one has no last byte.
abbrev pub covered : Option Range → ℕ → Range
covered none length = record { start = 0; end = length - 1 }
covered (some range) length = range

abbrev pub response_length : Option Range → ℕ → ℕ
response_length range length =
    if length == 0 then 0 else (covered range length).end - (covered range length).start + 1

unfoldable pub stream_head : Bytes → Bytes → Option Range → ℕ → Bytes
stream_head etag media range length =
    codes "HTTP/1.1 "
    ++ status_of range
    ++ crlf
    ++ codes "Content-Type: "
    ++ media
    ++ crlf
    ++ codes "Content-Length: "
    ++ to_decimal (response_length range length)
    ++ crlf
    ++ codes "Accept-Ranges: bytes"
    ++ crlf
    ++ codes "ETag: "
    ++ etag
    ++ crlf
    ++ codes "Cache-Control: public, max-age=3600"
    ++ crlf
    ++ content_range range length
    ++ codes "Connection: close"
    ++ crlf
    ++ crlf

abbrev pub parse_wanted : ℕ → Option Header → Result (Option Range) StaticError
parse_wanted length none = ok none
parse_wanted length (some header) = do range ← parse_range header.value length; ok (some range)

abbrev pub wanted_range : List Header → ℕ → Result (Option Range) StaticError
wanted_range headers length = parse_wanted length (find (λ h. h.name =ᵇ codes "range") headers)

abbrev pub stream_of : Bytes → FilePath → Option Range → ℕ → Option FileStream
stream_of method path range length =
    let n = response_length range length in
    if (method =ᵇ codes "GET") && ltb 0 n
    then some (record { path = path; start = (covered range length).start; length = n })
    else none

-- The answer for a file that is found and not known to the client.
unfoldable pub stream_ranged :
    FileSystem → RequestHead → FilePath → Metadata → Result StaticStreamResponse StaticError
unfolding etag_of stream_head
stream_ranged fs request path found = do
  range ← wanted_range request.headers found.len
  ok (record {
    head = stream_head (etag_of found) (fs.content_type path) range found.len;
    stream = stream_of request.method path range found.len;
  })

abbrev pub is_matching : Bytes → List Header → Bool
is_matching etag headers = any (λ h. (h.name =ᵇ codes "if-none-match") && (h.value =ᵇ etag)) headers

unfoldable pub stream_found :
    FileSystem → RequestHead → FilePath × Metadata → Result StaticStreamResponse StaticError
unfolding etag_of not_modified_head stream_ranged
stream_found fs request (path, found) =
    if is_matching (etag_of found) request.headers
    then ok (record { head = not_modified_head (etag_of found); stream = none })
    else stream_ranged fs request path found

unfoldable pub static_stream_response :
    FileSystem → FilePath → RequestHead → Result StaticStreamResponse StaticError
unfolding resolve_static_path stream_found
static_stream_response fs root request = do
  guard (is_get_or_head request.method) method_not_allowed
  found ← resolve_static_path fs root request.target
  stream_found fs request found

-- The loop of `spawn_file_stream` on the bytes from `start` on: `read_exact` fails where too few are
-- left. Every chunk takes at least one byte, so `remaining` is enough fuel.
unfoldable pub chunks_of : ℕ → Bytes → ℕ → List (Result Bytes IoErrorKind)
chunks_of fuel content zero = []
chunks_of zero content (suc n) = []
chunks_of (suc fuel) content (suc n) =
    let size = min stream_chunk_size (suc n) in
    let rest = chunks_of fuel (drop size content) (suc n - size) in
    if leb size (length content) then ok (take size content) ∷ rest else err other_kind ∷ []

unfoldable pub spawn_file_stream : FileSystem → FileStream → List (Result Bytes IoErrorKind)
unfolding chunks_of
spawn_file_stream fs stream = elim (fs.read stream.path) [
  | err error ↦ err error ∷ []
  | ok content ↦ chunks_of stream.length (drop stream.start content) stream.length
]
