-- ===== src/Readiness/Worker/Writing.antt =====
-- run/slave/src/runtime/readiness/worker.rs: `write_ready`, and the chunks of a file's stream
-- (`StaticStream::try_next` of run/slave/src/static_files.rs).
use thwip.Prelude.{
  slice_from, ℕ, zero, suc, ◌+◌, Bool, false, not, ◌&&◌, ◌||◌, Option, none, some, [], ltb, ◌==◌,
  if◌then◌else◌, length, Result, ok, err, ◌>>=◌,
}
use thwip.Prelude.Text.{Bytes}
use thwip.Prelude.Repeat.{Round, again, stop, repeat}
use thwip.Readiness.Token.{ConnectionId, client, token}
use thwip.Readiness.Connection.{Connection, ProxyState, proxy, is_proxying, is_writing_response}
use thwip.Readiness.Os.{
  Os, IoError, would_block, interrupted, other_error, Received, chunk, chunk_failed, empty,
  disconnected,
}
use thwip.Readiness.Worker.{
  ReadinessWorker, WorkerMetrics, fetch_add, io_failure, panic, Handled, asks, current, if_current,
  put, insert_id, remove_connection, with_token, reregister_client, close_client,
  max_writes_per_event,
}

-- What the rounds of a handler's loop over one socket change.
pub record Local : Type 0 where
  pub connection : Connection
  pub metrics : WorkerMetrics
  pub asked : ℕ

abbrev pub to_local : ReadinessWorker → Connection → Local
to_local w c = record { connection = c; metrics = w.metrics; asked = w.asked }

abbrev pub from_local : ReadinessWorker → ℕ → Local → ReadinessWorker
from_local w slot l = put (record w { metrics = l.metrics; asked = l.asked }) slot l.connection

-- A write of a slice.
abbrev pub sends : (Bytes → Result ℕ IoError) → Option Bytes → Option (Result ℕ IoError)
sends write none = none
sends write (some bytes) = some (write bytes)

-- How the loop of writes ends: `left` where it breaks without a failure, or after its last round.
pub data WriteEnd : Type 0 where
  left failed blocked panicked : WriteEnd

abbrev pub wants_write : Os → ℕ → Connection → Bool
wants_write os n c = elim c.ssl [ none ↦ false | some ssl ↦ os.wants_write n ]

abbrev pub is_written : Connection → Bool
is_written c = c.write_offset == length c.write_buffer

abbrev pub unwritten : Connection → Option Bytes
unwritten c = slice_from c.write_buffer c.write_offset

abbrev pub writing_application : Connection → Bool
writing_application c = ltb c.write_offset (length c.write_buffer)

-- `none` where the slice panics.
abbrev pub attempt : Os → Local → Option (Result ℕ IoError)
attempt os l = elim l.connection.ssl [
  | none ↦ sends (os.write l.asked) (unwritten l.connection)
  | some ssl ↦
      if writing_application l.connection
      then sends (os.writer_write l.asked) (unwritten l.connection)
      else some (os.write_tls l.asked)
]

abbrev pub written : Os → ℕ → Local → Local
written os n l = record {
  connection = record l.connection {
    write_offset =
        if writing_application l.connection
        then l.connection.write_offset + n
        else l.connection.write_offset;
    last_progress = os.now l.asked;
  };
  metrics = record l.metrics { bytes_written = fetch_add l.metrics.bytes_written n };
  asked = suc (suc l.asked);
}

abbrev pub after_attempt : Os → Local → Result ℕ IoError → Round Local WriteEnd
after_attempt os l (ok zero) = stop l failed
after_attempt os l (ok (suc n)) =
    if is_written (written os (suc n) l).connection
      && not (wants_write os (suc l.asked) l.connection)
    then stop (written os (suc n) l) left
    else again (written os (suc n) l)
after_attempt os l (err would_block) = stop l blocked
after_attempt os l (err interrupted) = again (record l { asked = suc l.asked })
after_attempt os l (err other_error) = stop l failed

abbrev pub after_slice : Os → Local → Option (Result ℕ IoError) → Round Local WriteEnd
after_slice os l none = stop l panicked
after_slice os l (some r) = after_attempt os l r

unfoldable pub write_round : Os → Local → Round Local WriteEnd
write_round os l =
    if is_written l.connection && not (wants_write os l.asked l.connection)
    then stop l left
    else after_slice os (record l { asked = suc l.asked })
        (attempt os (record l { asked = suc l.asked }))

unfoldable pub write_loop : Os → Local → Local × WriteEnd
unfolding write_round repeat
write_loop os l = repeat (write_round os) max_writes_per_event left l

pub data StaticChunk : Type 0 where
  data_chunk : Bytes → StaticChunk
  pending finished : StaticChunk

-- `StaticStream::try_next`; the error is the thread's.
unfoldable pub try_next : Received → Option StaticChunk
try_next (chunk bytes) = some (data_chunk bytes)
try_next chunk_failed = none
try_next empty = some pending
try_next disconnected = some finished

abbrev pub counted_response : ReadinessWorker → ReadinessWorker
counted_response w = record w {
  metrics = record w.metrics { responses = fetch_add w.metrics.responses 1 };
}

abbrev pub counted_error : ReadinessWorker → ReadinessWorker
counted_error w = record w { metrics = record w.metrics { errors = fetch_add w.metrics.errors 1 } }

-- Here a registration that fails ends the loop.
abbrev pub register_or_fail : Os → ConnectionId → ReadinessWorker → Handled
register_or_fail os id w =
    with_token id client (if os.registers w.asked then ok (asks w) else err io_failure)

abbrev pub after_chunk :
    Os → ConnectionId → Connection → ReadinessWorker → Option StaticChunk → Handled
after_chunk os id c w (some (data_chunk bytes)) =
    register_or_fail os id (put w id.slot (record c { write_buffer = bytes; write_offset = 0 }))
after_chunk os id c w (some pending) = register_or_fail os id w
after_chunk os id c w (some finished) = ok (remove_connection id (counted_response w))
after_chunk os id c w none = ok (remove_connection id (counted_error w))

-- `static_stream.as_ref().unwrap()` panics where there is no stream.
unfoldable pub advance_static_stream : Os → ConnectionId → ReadinessWorker → Handled
unfolding try_next token remove_connection
advance_static_stream os id w = if_current (current w id) w λ c. elim c.static_stream [
  | none ↦ err panic
  | some stream ↦ after_chunk os id c (asks w) (try_next (os.received w.asked stream))
]

-- The part of a response that is there is sent: what comes next.
abbrev pub await_upstream : Os → ConnectionId → Connection → ReadinessWorker → Handled
await_upstream os id c w = do
  w' ← reregister_client os id (put w id.slot (record c { write_buffer = []; write_offset = 0 }))
  ok (record w' { pending_upstream_reads = insert_id id w'.pending_upstream_reads })

abbrev pub after_response :
    Os → ConnectionId → Connection → Option ProxyState → ReadinessWorker → Handled
after_response os id c none w = close_client os id w
after_response os id c (some p) w =
    if w.draining || p.upstream_eof then close_client os id w else await_upstream os id c w

abbrev pub after_write : Os → ConnectionId → Connection → Bool → ReadinessWorker → Handled
after_write os id c write_finished w =
    if write_finished && (is_writing_response c || is_proxying c)
    then elim c.static_stream [
      | some stream ↦ advance_static_stream os id w
      | none ↦ after_response os id c (proxy c) (counted_response w)
    ]
    else if write_finished
    then reregister_client os id w
    else if is_writing_response c
    then ok (record w { pending_writes = insert_id id w.pending_writes })
    else ok w

abbrev pub after_loop : Os → ConnectionId → Connection → WriteEnd → ReadinessWorker → Handled
after_loop os id c blocked w = ok w
after_loop os id c panicked w = err panic
after_loop os id c failed w = ok (remove_connection id w)
after_loop os id c left w =
    after_write os id c (is_written c && not (wants_write os w.asked c)) (asks w)

abbrev pub idle_session : Os → ReadinessWorker → Connection → Bool
idle_session os w c = elim c.ssl [
  | none ↦ false
  | some ssl ↦ is_written c && not (os.wants_write w.asked)
]

unfoldable pub write_ready : Os → ConnectionId → ReadinessWorker → Handled
unfolding write_loop reregister_client close_client advance_static_stream remove_connection
write_ready os id w = if_current (current w id) w λ c.
    if idle_session os w c
    then reregister_client os id (asks w)
    else (let (l, end) = write_loop os (to_local (asks w) c) in
        after_loop os id l.connection end (from_local w id.slot l))
