-- ===== src/Tests/Files.antt =====
-- Runs of run/slave/src/static_files.rs.
use thwip.Prelude.{
  ℕ, zero, suc, ◌+◌, ◌-◌, ◌≤◌, ◌<◌, ◌^◌, min, ◌≡◌, refl, Bool, true, false, Option, some, none,
  List, [], ◌∷◌, ◌++◌, arith, length, take, drop, Result, ok, err,
}
use thwip.Prelude.Text.{Bytes, codes, ◌=ᵇ◌, starts_with, split_once, to_decimal}
use thwip.Http.{RequestHead, http11}
use thwip.Router.{crlf}
use thwip.StaticFiles.{
  RequestTarget, FilePath, split_query, parse_range, percent_decode, parse_request_target,
}
use thwip.StaticFiles.Ranges.{parse_range-bounds, parse_range-closed}
use thwip.StaticFiles.Targets.{IsTarget, parse_request_target-IsTarget}
use thwip.StaticFiles.Escapes.{Escaped, done, plain, coded, percent_decode-Escaped}
use thwip.StaticFiles.Serving.{
  IoErrorKind, regular, Metadata, FileSystem, FileStream, is_file, is_under, resolve_static_path,
  static_stream_response, spawn_file_stream,
}
use thwip.StaticFiles.Serving.Inside.{IsInside, resolve_static_path-IsInside}
use thwip.StaticFiles.Serving.Chunks.{Delivers}
use thwip.StaticFiles.Serving.Answers.{static_stream_response-Delivers}

suffix-parsed : parse_range (codes "bytes=-3") 10 ≡ ok (record { start = 7; end = 9 })
unfolding parse_range thwip.Prelude.Text.strip_prefix split_once thwip.Prelude.Text.parse_uint
suffix-parsed = refl

parse_range-bounds_example : (7 ≤ 9) × (9 < 10)
parse_range-bounds_example =
    parse_range-bounds (codes "bytes=-3") 10 (record { start = 7; end = 9 }) suffix-parsed

parse_range-closed_example :
    parse_range (codes "bytes=" ++ (to_decimal 2 ++ (b'-' ∷ to_decimal 40))) 10
    ≡ ok (record { start = 2; end = min 40 9 })
parse_range-closed_example = parse_range-closed 2 40 10 (omega arith) (omega arith) (omega arith)

abbrev asked : Bytes
asked = codes "/a%20b?q"

abbrev target : RequestTarget
target = record { path = codes "/a b"; query = some (codes "q") }

asked-parsed : parse_request_target asked ≡ ok target
unfolding parse_request_target starts_with split_once thwip.Prelude.Utf8.is_utf8
    thwip.Prelude.Text.split ◌=ᵇ◌
asked-parsed = refl

parse_request_target-IsTarget_example :
    (starts_with (codes "/") (split_query asked (split_once b'?' asked)).0 ≡ true)
    × (percent_decode (split_query asked (split_once b'?' asked)).0 ≡ ok (codes "/a b"))
    × (some (codes "q") ≡ (split_query asked (split_once b'?' asked)).1)
    × IsTarget (codes "/a b")
parse_request_target-IsTarget_example = parse_request_target-IsTarget asked target asked-parsed

text-Escaped : Escaped (codes "a%2Fb") (codes "a/b")
text-Escaped = plain b'a' refl (coded b'/' true true (omega arith) (plain b'b' refl done))

percent_decode-Escaped_example : percent_decode (codes "a%2Fb") ≡ ok (codes "a/b")
percent_decode-Escaped_example = percent_decode-Escaped (codes "a%2Fb") (codes "a/b") text-Escaped

-- A file system where every path is canonical, and every one is a file of ten bytes.
abbrev ten_bytes : Bytes
ten_bytes = codes "0123456789"

abbrev ten_metadata : Metadata
ten_metadata = record { kind = regular; len = 10; modified = none }

abbrev files : FileSystem
files = record {
  canonicalize = λ path. ok path;
  metadata = λ path. ok ten_metadata;
  read = λ path. ok ten_bytes;
  content_type = λ path. codes "text/plain";
}

abbrev root : FilePath
root = codes "srv" ∷ []

abbrev place : FilePath × Metadata
place = (codes "srv" ∷ codes "a b" ∷ [], ten_metadata)

asked-resolved : resolve_static_path files root asked ≡ ok place
unfolding resolve_static_path parse_request_target starts_with split_once thwip.Prelude.Utf8.is_utf8
    thwip.Prelude.Text.split ◌=ᵇ◌
asked-resolved = refl

resolve_static_path-IsInside_example :
    (root' : FilePath) × (◌≡◌ {A = Result FilePath IoErrorKind} (ok root) (ok root'))
    × IsInside files root' place
    × (is_file regular ≡ true)
resolve_static_path-IsInside_example =
    resolve_static_path-IsInside files root asked place asked-resolved

abbrev ranged : RequestHead
ranged = record {
  method = codes "GET";
  target = asked;
  version = http11;
  headers = record { name = codes "range"; value = codes "bytes=-3" } ∷ [];
}

abbrev tail_stream : FileStream
tail_stream = record { path = place.0; start = 7; length = 3 }

abbrev tail_head : Bytes
tail_head =
    codes "HTTP/1.1 206 Partial Content"
    ++ crlf
    ++ codes "Content-Type: text/plain"
    ++ crlf
    ++ codes "Content-Length: 3"
    ++ crlf
    ++ codes "Accept-Ranges: bytes"
    ++ crlf
    ++ (codes "ETag: " ++ (b'"' ∷ codes "a-0") ++ (b'"' ∷ []))
    ++ crlf
    ++ codes "Cache-Control: public, max-age=3600"
    ++ crlf
    ++ codes "Content-Range: bytes 7-9/10"
    ++ crlf
    ++ codes "Connection: close"
    ++ crlf
    ++ crlf

ranged-answered :
    static_stream_response files root ranged
    ≡ ok (record { head = tail_head; stream = some tail_stream })
unfolding static_stream_response ◌=ᵇ◌ parse_request_target starts_with split_once
    thwip.Prelude.Utf8.is_utf8 thwip.Prelude.Text.split parse_range thwip.Prelude.Text.strip_prefix
    thwip.Prelude.Text.parse_uint to_decimal
ranged-answered = refl

static_stream_response-Delivers_example :
    (root' : FilePath) × (◌≡◌ {A = Result FilePath IoErrorKind} (ok root) (ok root'))
    × (is_under root' place.0 ≡ true)
    × ((codes "GET" =ᵇ codes "GET") ≡ true)
    × Delivers (spawn_file_stream files tail_stream) (take 3 (drop 7 ten_bytes))
static_stream_response-Delivers_example =
    static_stream_response-Delivers files root ranged
      (record { head = tail_head; stream = some tail_stream }) tail_stream ten_bytes
      (λ path found bytes m r. ground arith) ranged-answered refl refl
