-- ===== src/Http/Fragments.antt =====
-- A request head that arrives in pieces: `parse_request_head` is called on every prefix of the
-- connection's read buffer (run/slave/src/http.rs).
use thwip.Http.{
  max_request_head_size, RequestHead, incomplete, complete, head_end_mark, find_head_end, parse_at,
  parse_request_head, parse_lines, ParseError, head_too_large,
}
use thwip.Http.Scan.{find_head_end_mark, find_head_end-append, find_head_end-take}
use thwip.Prelude.{
  ℕ, ◌+◌, ◌-◌, ◌≤◌, ◌<◌, if◌then◌else◌, ◌≡◌, refl, Bool, true, Option, none, some, ◌++◌, arith, ltb,
  length, take, drop, Result, ok, err, length-take, take-append_le,
}
use thwip.Prelude.Text.{Bytes, starts_with, split_crlf}
use thwip.Prelude.Utf8.{is_utf8}

-- What a successful parse has found out.
pub record Accepted (bytes : Bytes) (request : RequestHead) (consumed : ℕ) : Type 0 where
  pub head_end : ℕ
  pub found : find_head_end bytes ≡ some head_end
  pub small : head_end ≤ max_request_head_size
  pub consumes : consumed ≡ head_end + 4
  pub text : is_utf8 (take head_end bytes) ≡ true
  pub lines : parse_lines (split_crlf (take head_end bytes)) ≡ ok request

Accepted-at :
    (bytes : Bytes) (request : RequestHead) (consumed : ℕ) (o : Option ℕ)
    → find_head_end bytes ≡ o
    → parse_at bytes o ≡ ok (complete request consumed)
    → Accepted bytes request consumed
unfolding parse_at
Accepted-at bytes request consumed none e h = absurd (ground arith)
Accepted-at bytes request consumed (some n) e h =
    go (is_utf8 (take n bytes)) (parse_lines (split_crlf (take n bytes))) refl refl
  where
    go :
        (b : Bool) (r : Result RequestHead ParseError)
        → is_utf8 (take n bytes) ≡ b
        → parse_lines (split_crlf (take n bytes)) ≡ r
        → Accepted bytes request consumed
    go b r eb er = record {
      head_end = n;
      found = e;
      small = ground arith;
      consumes = ground arith;
      text = ground arith;
      lines = ground arith;
    }

pub Accepted-of_parse :
    (bytes : Bytes) (request : RequestHead) (consumed : ℕ)
    → parse_request_head bytes ≡ ok (complete request consumed)
    → Accepted bytes request consumed
unfolding parse_request_head
Accepted-of_parse bytes request consumed h =
    Accepted-at bytes request consumed (find_head_end bytes) refl h

-- And the other way round.
pub parse_of_Accepted :
    (bytes : Bytes) (request : RequestHead) (consumed : ℕ)
    → Accepted bytes request consumed
    → parse_request_head bytes ≡ ok (complete request consumed)
unfolding parse_request_head parse_at
parse_of_Accepted bytes request consumed a = rw (a.found, a.text, a.lines) (ground arith)

-- What is accepted lies inside the bytes, ends with the blank line, and respects the limit.
pub parse_request_head-bounds :
    (bytes : Bytes) (request : RequestHead) (consumed : ℕ)
    → parse_request_head bytes ≡ ok (complete request consumed)
    → (4 ≤ consumed)
      × (consumed ≤ length bytes)
      × (consumed ≤ max_request_head_size + 4)
      × (starts_with head_end_mark (drop (consumed - 4) bytes) ≡ true)
parse_request_head-bounds bytes request consumed h =
    let a = Accepted-of_parse bytes request consumed h in
    let (mark, inside) = find_head_end_mark bytes a.head_end a.found in
    let small = a.small in
    let consumes = a.consumes in
    let e : consumed - 4 ≡ a.head_end = omega arith in
    (omega arith, omega arith, omega arith, rw e mark)

-- Once a head is accepted, bytes that follow it (the body) change neither the head nor its length.
pub parse_request_head-append :
    (bytes more : Bytes) (request : RequestHead) (consumed : ℕ)
    → parse_request_head bytes ≡ ok (complete request consumed)
    → parse_request_head (bytes ++ more) ≡ ok (complete request consumed)
parse_request_head-append bytes more request consumed h =
    let a = Accepted-of_parse bytes request consumed h in
    let inside = (find_head_end_mark bytes a.head_end a.found).1 in
    let same : take a.head_end (bytes ++ more) ≡ take a.head_end bytes =
      take-append_le a.head_end bytes more (omega arith) in
    parse_of_Accepted (bytes ++ more) request consumed (record {
      head_end = a.head_end;
      found = find_head_end-append bytes more a.head_end a.found;
      small = a.small;
      consumes = a.consumes;
      text = rw same a.text;
      lines = rw same a.lines;
    })

parse_at-none :
    (bytes : Bytes)
    → parse_at bytes none ≡ (
        if ltb max_request_head_size (length bytes)
        then err (head_too_large max_request_head_size)
        else ok incomplete)
unfolding parse_at
parse_at-none bytes = refl

parse_unfinished :
    (bytes : Bytes)
    → find_head_end bytes ≡ none
    → parse_request_head bytes ≡ (
        if ltb max_request_head_size (length bytes)
        then err (head_too_large max_request_head_size)
        else ok incomplete)
unfolding parse_request_head
parse_unfinished bytes e = rw e (parse_at-none bytes)

-- A head that is accepted whole is reported incomplete on every prefix that lacks some of it, as
-- long as the prefix has no more than 16384 bytes.
pub parse_request_head-prefix :
    (bytes : Bytes) (request : RequestHead) (consumed k : ℕ)
    → parse_request_head bytes ≡ ok (complete request consumed)
    → k < consumed
    → k ≤ max_request_head_size
    → parse_request_head (take k bytes) ≡ ok incomplete
parse_request_head-prefix bytes request consumed k h lt le =
    let a = Accepted-of_parse bytes request consumed h in
    let consumes = a.consumes in
    rw
      (parse_unfinished (take k bytes)
        (find_head_end-take bytes a.head_end k a.found (omega arith)))
      (ground (arith, length-take {0} k bytes))

-- The limit is on the bytes before the blank line where the head is whole, and on all the bytes
-- read where it is not: so a head that is accepted whole is refused as too large on a prefix that
-- lacks only part of the blank line and is longer than 16384 bytes.
pub parse_request_head-fragment_too_large :
    (bytes : Bytes) (request : RequestHead) (consumed k : ℕ)
    → parse_request_head bytes ≡ ok (complete request consumed)
    → k < consumed
    → max_request_head_size < k
    → parse_request_head (take k bytes) ≡ err (head_too_large max_request_head_size)
parse_request_head-fragment_too_large bytes request consumed k h lt gt =
    let a = Accepted-of_parse bytes request consumed h in
    let consumes = a.consumes in
    let inside = (find_head_end_mark bytes a.head_end a.found).1 in
    rw
      (parse_unfinished (take k bytes)
        (find_head_end-take bytes a.head_end k a.found (omega arith)))
      (ground (arith, length-take {0} k bytes))
