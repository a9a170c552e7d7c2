-- ===== src/Readiness/Worker/Reading.antt =====
-- run/slave/src/runtime/readiness/worker.rs: reading requests.
use thwip.Prelude.{
  slice, ℕ, zero, suc, ◌+◌, ◌*◌, ◌^◌, ◌||◌, Option, none, some, [], ◌∷◌, ◌++◌, ltb, leb,
  if◌then◌else◌, length, Result, ok, err,
}
use thwip.Prelude.Text.{Bytes, codes}
use thwip.Prelude.Repeat.{Round, again, stop, repeat}
use thwip.Http.{
  RequestHead, RequestHeadParse, incomplete, complete, ParseError, parse_request_head, body_length,
  BodyFramingError, unsupported_transfer_encoding, invalid_content_length,
  conflicting_content_length,
}
use thwip.Readiness.Connection.{
  PendingRequest, pending_request, set_pending_request, take_pending_request,
}
use thwip.Readiness.Os.{Os, IoError, would_block, interrupted, other_error}
use thwip.Readiness.Worker.{fetch_add, max_reads_per_event}
use thwip.Readiness.Worker.Writing.{Local}

-- How the loop of reads ends: `left` where it breaks with nothing to do, or after its last round.
pub data ReadEnd : Type 0 where
  left closed panicked : ReadEnd
  refused : (status : ℕ) → (message : Bytes) → ReadEnd
  requested : (request : RequestHead) → (body : Bytes) → ReadEnd

abbrev pub buffer_size : ℕ
buffer_size = 8 * 1024

-- Reading through the TLS library.
unfoldable pub ssl_read : Os → ℕ → Result Bytes IoError
ssl_read os n = elim (os.read_tls n) [
  | err e ↦ err e
  | ok zero ↦ ok []
  | ok (suc k) ↦
      if os.process_new_packets (suc n)
      then os.reader_read (suc (suc n)) buffer_size
      else err other_error
]

abbrev pub read_client : Os → Local → Result Bytes IoError
read_client os l = elim l.connection.ssl [
  | none ↦ os.read l.asked buffer_size
  | some ssl ↦ ssl_read os l.asked
]

abbrev pub too_large : Local → Round Local ReadEnd
too_large l = stop l (refused 413 (codes "request is too large"))

abbrev pub body_of : Bytes → PendingRequest → Option Bytes
body_of read_buffer pending = slice read_buffer pending.body_start pending.body_end

abbrev pub taken : Local → Local
taken l = record {
  connection = take_pending_request l.connection;
  metrics = record l.metrics { requests = fetch_add l.metrics.requests 1 };
  asked = l.asked;
}

abbrev pub request_taken : Local → RequestHead → Option Bytes → Round Local ReadEnd
request_taken l head none = stop l panicked
request_taken l head (some body) = stop l (requested head body)

abbrev pub complete_pending : Local → Option PendingRequest → Round Local ReadEnd
complete_pending l none = again l
complete_pending l (some pending) =
    if leb pending.body_end (length l.connection.read_buffer)
    then request_taken (taken l) pending.head (body_of l.connection.read_buffer pending)
    else again l

-- The connection's own pending request, if it has one, is taken once its body is there.
unfoldable pub complete_request : Local → Round Local ReadEnd
unfolding take_pending_request
complete_request l = complete_pending l (pending_request l.connection)

abbrev pub pend : PendingRequest → Local → Local
pend pending l = record l { connection = set_pending_request pending l.connection }

-- `checked_add` is of 64 bits.
unfoldable pub frame_body :
    ℕ → Local → RequestHead → ℕ → Result ℕ BodyFramingError → Round Local ReadEnd
unfolding complete_request set_pending_request
frame_body limit l head consumed (ok n) =
    if leb (2 ^ 64) (consumed + n) || ltb limit (consumed + n)
    then too_large l
    else (let pending : PendingRequest = record {
      head = head;
      body_start = consumed;
      body_end = consumed + n;
    } in
        complete_request (pend pending l))
frame_body limit l head consumed (err unsupported_transfer_encoding) =
    stop l (refused 501 (codes "transfer encoding is not supported"))
frame_body limit l head consumed (err invalid_content_length) =
    stop l (refused 400 (codes "invalid content length"))
frame_body limit l head consumed (err conflicting_content_length) =
    stop l (refused 400 (codes "invalid content length"))

unfoldable pub after_head : ℕ → Local → Result RequestHeadParse ParseError → Round Local ReadEnd
unfolding frame_body
after_head limit l (ok incomplete) = again l
after_head limit l (ok (complete head consumed)) =
    frame_body limit l head consumed (body_length head)
after_head limit l (err e) = stop l (refused 400 (codes "invalid HTTP request"))

unfoldable pub parse_more : ℕ → Local → Option PendingRequest → Round Local ReadEnd
unfolding after_head complete_request
parse_more limit l (some pending) = complete_request l
parse_more limit l none = after_head limit l (parse_request_head l.connection.read_buffer)

abbrev pub counted_read : ℕ → Local → Local
counted_read n l = record l {
  metrics = record l.metrics { bytes_read = fetch_add l.metrics.bytes_read n };
}

abbrev pub extended : Os → Bytes → Local → Local
extended os bytes l = record l {
  connection = record l.connection {
    read_buffer = l.connection.read_buffer ++ bytes;
    last_progress = os.now l.asked;
  };
  asked = suc l.asked;
}

abbrev pub end_of_input : Local → Round Local ReadEnd
end_of_input l = elim l.connection.ssl [ none ↦ stop l closed | some ssl ↦ stop l left ]

unfoldable pub after_read : Os → ℕ → Local → Result Bytes IoError → Round Local ReadEnd
unfolding parse_more
after_read os limit l (ok []) = end_of_input l
after_read os limit l (ok (b ∷ bytes)) =
    let counted = counted_read (length (b ∷ bytes)) l in
    if ltb limit (length l.connection.read_buffer + length (b ∷ bytes))
    then too_large counted
    else parse_more limit (extended os (b ∷ bytes) counted) (pending_request l.connection)
after_read os limit l (err would_block) = stop l left
after_read os limit l (err interrupted) = again l
after_read os limit l (err other_error) = stop l closed

unfoldable pub read_round : Os → ℕ → Local → Round Local ReadEnd
unfolding after_read ssl_read
read_round os limit l =
    after_read os limit (record l { asked = suc (suc (suc l.asked)) }) (read_client os l)

unfoldable pub read_loop : Os → ℕ → Local → Local × ReadEnd
unfolding read_round repeat
read_loop os limit l = repeat (read_round os limit) max_reads_per_event left l
