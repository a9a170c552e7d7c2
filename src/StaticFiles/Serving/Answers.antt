-- ===== src/StaticFiles/Serving/Answers.antt =====
-- `static_stream_response` (run/slave/src/static_files.rs): the file an answer has.
use thwip.Prelude.{
  ℕ, ◌+◌, ◌≤◌, ◌≡◌, ap, ◌∙◌, true, Option, none, some, arith, length, take, drop, ok, guard,
  >>=-eq-ok, >>-eq-ok, ok-injective,
}
use mathlib.Core.Path.{subst}
use thwip.Prelude.Text.{Bytes, codes, ◌=ᵇ◌}
use thwip.Http.{Header, RequestHead}
use thwip.StaticFiles.{method_not_allowed, FilePath, Range, parse_range}
use thwip.StaticFiles.Ranges.{parse_range-bounds}
use thwip.StaticFiles.Serving.{
  Metadata, FileSystem, FileStream, StaticStreamResponse, is_under, resolve_static_path,
  stream_found, static_stream_response, spawn_file_stream, covered, response_length, wanted_range,
  parse_wanted, stream_of, is_get_or_head, stream_ranged,
}
use thwip.StaticFiles.Serving.Inside.{resolve_static_path-IsInside}
use thwip.StaticFiles.Serving.Chunks.{Delivers, spawn_file_stream-Delivers}

parse_wanted-bounds :
    (length : ℕ) (header : Option Header) (range : Option Range)
    → parse_wanted length header ≡ ok range
    → (covered range length).start + response_length range length ≤ length
parse_wanted-bounds length none range h =
    subst (λ r. (covered r length).start + response_length r length ≤ length) (ok-injective h)
      (ground arith)
parse_wanted-bounds length (some header) range h =
    let (found, e, h₁) = >>=-eq-ok (parse_range header.value length) _ h in
    let (le, lt) = parse_range-bounds header.value length found e in
    subst (λ r. (covered r length).start + response_length r length ≤ length) (ok-injective h₁)
      (ground arith)

stream_of-bounds :
    (method : Bytes) (path : FilePath) (range : Option Range) (length : ℕ) (stream : FileStream)
    → (covered range length).start + response_length range length ≤ length
    → stream_of method path range length ≡ some stream
    → (stream.path ≡ path)
      × (stream.start + stream.length ≤ length)
      × ((method =ᵇ codes "GET") ≡ true)
stream_of-bounds method path range length stream fits h = ground arith

stream_ranged-bounds :
    (fs : FileSystem) (request : RequestHead) (path : FilePath) (found : Metadata)
    (response : StaticStreamResponse) (stream : FileStream)
    → stream_ranged fs request path found ≡ ok response
    → response.stream ≡ some stream
    → (stream.path ≡ path)
      × (stream.start + stream.length ≤ found.len)
      × ((request.method =ᵇ codes "GET") ≡ true)
unfolding stream_ranged
stream_ranged-bounds fs request path found response stream h s =
    let (range, e, h₁) = >>=-eq-ok (wanted_range request.headers found.len) _ h in
    let same = ap (λ r. r.stream) (ok-injective h₁) in
    stream_of-bounds request.method path range found.len stream
      (parse_wanted-bounds found.len _ range e) (same ∙ s)

-- The stream of an answer reads the file that was found, and no byte behind its end.
stream_found-bounds :
    (fs : FileSystem) (request : RequestHead) (path : FilePath) (found : Metadata)
    (response : StaticStreamResponse) (stream : FileStream)
    → stream_found fs request (path, found) ≡ ok response
    → response.stream ≡ some stream
    → (stream.path ≡ path)
      × (stream.start + stream.length ≤ found.len)
      × ((request.method =ᵇ codes "GET") ≡ true)
unfolding stream_found
stream_found-bounds fs request path found response stream h s =
    ground (arith, stream_ranged-bounds fs request path found response stream)

-- The stream of an answer delivers, in chunks of at most the chunk size, bytes of one file inside
-- the canonical root: as many as the stream says, from its start on, and none where the request is not a `GET`. The
-- hypothesis on `read` says that a file holds as many bytes as its metadata tell.
pub static_stream_response-Delivers :
    (fs : FileSystem) (root : FilePath) (request : RequestHead) (response : StaticStreamResponse)
    (stream : FileStream) (content : Bytes)
    → ((path : FilePath) (found : Metadata) (bytes : Bytes)
        → fs.metadata path ≡ ok found
        → fs.read path ≡ ok bytes
        → length bytes ≡ found.len)
    → static_stream_response fs root request ≡ ok response
    → response.stream ≡ some stream
    → fs.read stream.path ≡ ok content
    → (root' : FilePath) × (fs.canonicalize root ≡ ok root')
      × (is_under root' stream.path ≡ true)
      × ((request.method =ᵇ codes "GET") ≡ true)
      × Delivers (spawn_file_stream fs stream) (take stream.length (drop stream.start content))
unfolding static_stream_response
static_stream_response-Delivers fs root request response stream content sized h s read =
    let (_, h₁) = >>-eq-ok (guard (is_get_or_head request.method) method_not_allowed) _ h in
    let ((path, found), e, h₂) = >>=-eq-ok (resolve_static_path fs root request.target) _ h₁ in
    let (same, fits, get) = stream_found-bounds fs request path found response stream h₂ s in
    let (root', r, (_, under, known), _) =
      resolve_static_path-IsInside fs root request.target (path, found) e in
    let size : length content ≡ found.len = sized stream.path found content (rw same known) read in
    (root', r, rw same under, get, spawn_file_stream-Delivers fs stream content read (omega arith))
