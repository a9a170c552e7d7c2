-- ===== src/StaticFiles.antt =====
-- run/slave/src/static_files.rs: targets, ranges, and the responses for static files. Text is the
-- bytes of its UTF-8 form, and a `u64` a number below 2 ^ 64. A path is the list of its parts under
-- the root. The file system and the table of media types are parameters.
pub mod Ranges
pub mod Targets
pub mod Escapes
pub mod Serving
use thwip.Prelude.{
  ℕ, zero, suc, ◌+◌, ◌-◌, ◌*◌, ◌^◌, ◌/◌, ◌%◌, min, String, ◌≡◌, Bool, true, false, not, ◌&&◌, ◌||◌,
  Option, none, some, List, [], ◌∷◌, ◌++◌, ltb, leb, ◌==◌, if◌then◌else◌, length, any, find,
  is_empty, Result, ok, err, ◌>>=◌, ◌>>◌, guard, ok_or,
}
use thwip.Prelude.Text.{
  Bytes, codes, ◌=ᵇ◌, strip_prefix, starts_with, split_once, split, contains, parse_uint,
  is_ascii_control, to_decimal,
}
use thwip.Prelude.Utf8.{is_utf8}
use thwip.Http.{Header, RequestHead, is_named}
use thwip.Router.{crlf, response_bytes_with_body}

abbrev pub max_in_memory_static_file_size : ℕ
max_in_memory_static_file_size = 4 * 1024 * 1024

abbrev pub stream_chunk_size : ℕ
stream_chunk_size = 64 * 1024

pub data StaticError : Type 0 where
  bad_request forbidden method_not_allowed not_found too_large range_not_satisfiable io :
      StaticError

pub record Range : Type 0 where
  pub start : ℕ
  pub end : ℕ

abbrev pub parse_u64 : Bytes → Result ℕ StaticError
parse_u64 s = ok_or (parse_uint 64 s) bad_request

-- `length - n` where the source says `saturating_sub`; `length - 1` is taken only of a length above 0.
unfoldable pub suffix_range : Bytes → ℕ → Result Range StaticError
suffix_range end length = do
  suffix ← parse_u64 end
  guard (not (suffix == 0)) range_not_satisfiable
  ok (record { start = length - suffix; end = length - 1 })

unfoldable pub end_of : Bytes → ℕ → Result ℕ StaticError
end_of [] length = ok (length - 1)
end_of (c ∷ s) length = parse_u64 (c ∷ s)

unfoldable pub bounded_range : Bytes → Bytes → ℕ → Result Range StaticError
bounded_range start end length = do
  first ← parse_u64 start
  last ← end_of end length
  ok (record { start = first; end = min last (length - 1) })

unfoldable pub range_of : ℕ → Bytes × Bytes → Result Range StaticError
unfolding suffix_range bounded_range
range_of length (start, end) =
    if is_empty start then suffix_range end length else bounded_range start end length

unfoldable pub check_range : ℕ → Range → Result Range StaticError
check_range length range =
    if leb length range.start || ltb range.end range.start
    then err range_not_satisfiable
    else ok range

unfoldable pub parse_range : Bytes → ℕ → Result Range StaticError
unfolding range_of check_range
parse_range value length = do
  value' ← ok_or (strip_prefix (codes "bytes=") value) bad_request
  guard (not (contains b',' value' || (length == 0))) range_not_satisfiable
  ends ← ok_or (split_once b'-' value') bad_request
  range ← range_of length ends
  check_range length range

unfoldable pub hex : ℕ → Option ℕ
hex byte =
    if leb b'0' byte && leb byte b'9'
    then some (byte - b'0')
    else if leb b'a' byte && leb byte b'f'
    then some (byte - b'a' + 10)
    else if leb b'A' byte && leb byte b'F'
    then some (byte - b'A' + 10)
    else none

-- `high << 4 | low` of two digits.
abbrev pub hex_pair : ℕ → ℕ → Option ℕ
hex_pair a b = elim (hex a) [
  | none ↦ none
  | some high ↦ elim (hex b) [ none ↦ none | some low ↦ some (high * 16 + low) ]
]

-- The loop of `percent_decode`, on the bytes from `index` on.
unfoldable pub percent_decode : Bytes → Result Bytes StaticError
unfolding hex
percent_decode [] = ok []
percent_decode (c ∷ []) = if c == b'%' then err bad_request else ok (c ∷ [])
percent_decode (c ∷ a ∷ []) =
    let rest = percent_decode (a ∷ []) in
    if c == b'%' then err bad_request else rest >>= λ s. ok (c ∷ s)
percent_decode (c ∷ a ∷ b ∷ s) =
    let plain = percent_decode (a ∷ b ∷ s) in
    let decoded = percent_decode s in
    if c == b'%'
    then (do d ← ok_or (hex_pair a b) bad_request; t ← decoded; ok (d ∷ t))
    else (do t ← plain; ok (c ∷ t))

abbrev pub FilePath : Type 0
FilePath = List Bytes

-- `Path::components`: repeated slashes and inner dots vanish.
pub data Component : Type 0 where
  root_dir cur_dir parent_dir : Component
  normal : Bytes → Component

abbrev pub component_of : Bytes → Option Component
component_of part =
    if is_empty part || (part =ᵇ codes ".")
    then none
    else if part =ᵇ codes ".."
    then some parent_dir
    else some (normal part)

unfoldable pub components_of : List Bytes → List Component
components_of [] = []
components_of (part ∷ parts) = elim (component_of part) [
  | none ↦ components_of parts
  | some c ↦ c ∷ components_of parts
]

abbrev pub first_component : List Bytes → List Component
first_component [] = []
first_component (part ∷ parts) =
    if is_empty part then root_dir ∷ [] else if part =ᵇ codes "." then cur_dir ∷ [] else []

-- A path that begins with a slash is absolute; the empty path has no component.
unfoldable pub components : Bytes → List Component
unfolding components_of
components path =
    if is_empty path
    then []
    else first_component (split b'/' path) ++ components_of (split b'/' path)

unfoldable pub relative_of : List Component → Result FilePath StaticError
relative_of [] = ok []
relative_of (root_dir ∷ cs) = relative_of cs
relative_of (normal part ∷ cs) = do rest ← relative_of cs; ok (part ∷ rest)
relative_of (cur_dir ∷ cs) = err forbidden
relative_of (parent_dir ∷ cs) = err forbidden

unfoldable pub relative_path : Bytes → Result FilePath StaticError
unfolding components relative_of
relative_path path = relative_of (components path)

pub record RequestTarget : Type 0 where
  pub path : Bytes
  pub query : Option Bytes

abbrev pub split_query : Bytes → Option (Bytes × Bytes) → Bytes × Option Bytes
split_query raw none = (raw, none)
split_query raw (some (path, query)) = (path, some query)

unfoldable pub target_of : Bytes × Option Bytes → Result RequestTarget StaticError
unfolding percent_decode relative_path
target_of (raw_path, query) = do
  guard (starts_with (codes "/") raw_path) bad_request
  path ← percent_decode raw_path
  guard (is_utf8 path) bad_request
  guard (not (any (λ byte. (byte == 0) || is_ascii_control byte) path)) bad_request
  relative ← relative_path path
  ok (record { path = path; query = query })

unfoldable pub parse_request_target : Bytes → Result RequestTarget StaticError
unfolding target_of
parse_request_target raw = target_of (split_query raw (split_once b'?' raw))
