-- ===== src/Readiness/Worker/Exchanging.antt =====
-- run/slave/src/runtime/readiness/worker.rs: writing a request to an upstream, and reading its response.
use thwip.Readiness.Worker.Writing.{sends}
use thwip.Prelude.{
  slice_from, ℕ, zero, suc, ◌+◌, ◌*◌, min, Bool, true, false, not, ◌||◌, Option, none, some, List,
  [], ◌∷◌, ◌++◌, ◌==◌, if◌then◌else◌, length, is_empty, Result, ok, err, ◌>>=◌,
}
use thwip.Prelude.Text.{Bytes, codes}
use thwip.Prelude.Repeat.{Round, again, stop, repeat}
use thwip.Readiness.Token.{ConnectionId, upstream, token}
use thwip.Readiness.Connection.{
  Connection, ProxyState, connecting, writing_request, reading_response, transition,
  record_progress, begin_proxy, proxy,
}
use thwip.Readiness.Os.{Os, IoError, would_block, interrupted, other_error}
use thwip.Readiness.Worker.{
  panic, ReadinessWorker, fetch_add, Fatal, io_failure, Handled, asks, current, if_current, put,
  insert_id, remove_connection, with_token, reregister_client, max_writes_per_event,
}
use thwip.Readiness.Worker.Proxying.{fail_proxy, in_phase}

-- The rounds of the loop that writes the request.
pub record Upload : Type 0 where
  pub proxy : ProxyState
  pub made_progress : Bool
  pub asked : ℕ

-- How that loop ends: `unfinished` after its last round.
pub data UploadEnd : Type 0 where
  unfinished sent failed blocked panicked : UploadEnd

abbrev pub unsent : ProxyState → Option Bytes
unsent p = slice_from p.request_buffer p.request_offset

abbrev pub is_uploaded : ProxyState → Bool
is_uploaded p = p.request_offset == length p.request_buffer

abbrev pub after_upload : Os → Upload → Result ℕ IoError → Round Upload UploadEnd
after_upload os u (ok zero) = stop u failed
after_upload os u (ok (suc n)) = again (record {
  proxy =
      record_progress (os.now u.asked)
        (record u.proxy { request_offset = u.proxy.request_offset + suc n });
  made_progress = true;
  asked = suc u.asked;
})
after_upload os u (err would_block) = stop u blocked
after_upload os u (err interrupted) = again u
after_upload os u (err other_error) = stop u failed

abbrev pub after_unsent : Os → Upload → Option (Result ℕ IoError) → Round Upload UploadEnd
after_unsent os u none = stop u panicked
after_unsent os u (some r) = after_upload os u r

unfoldable pub upload_round : Os → Upload → Round Upload UploadEnd
unfolding record_progress
upload_round os u =
    if is_uploaded u.proxy
    then stop u sent
    else after_unsent os (record u { asked = suc u.asked })
        (sends (os.upstream_write u.asked) (unsent u.proxy))

-- `finished |= ...` after the loop.
abbrev pub finish_upload : Upload × UploadEnd → Upload × UploadEnd
finish_upload (u, unfinished) = (u, if is_uploaded u.proxy then sent else unfinished)
finish_upload (u, sent) = (u, sent)
finish_upload (u, failed) = (u, failed)
finish_upload (u, blocked) = (u, blocked)
finish_upload (u, panicked) = (u, panicked)

unfoldable pub upload : Os → Upload → Upload × UploadEnd
unfolding upload_round repeat
upload os u = finish_upload (repeat (upload_round os) max_writes_per_event unfinished u)

-- `take_error` once the socket is writable: an error of its own ends the loop of the worker.
abbrev pub connected : Os → ProxyState → ℕ → Result (Option ProxyState) Fatal
connected os p n = elim p.phase [
  | connecting ↦ elim (os.take_error n) [
    | err e ↦ err io_failure
    | ok (some e) ↦ ok none
    | ok none ↦ ok (some (transition writing_request (os.now (suc n)) p))
  ]
  | writing_request ↦ ok (some p)
  | reading_response ↦ ok (some p)
]

abbrev pub touched : Os → Connection → Upload → ProxyState → Connection
touched os c u p =
    if u.made_progress
    then record (begin_proxy p c) { last_progress = os.now u.asked }
    else begin_proxy p c

abbrev pub upload_failed : Os → ConnectionId → ReadinessWorker → Handled
upload_failed os id w = fail_proxy os id 502 (codes "upstream connection failed") w

abbrev pub after_request :
    Os → ConnectionId → Connection → Upload → UploadEnd → ReadinessWorker → Handled
after_request os id c u panicked w = err panic
after_request os id c u blocked w =
    ok (put (record w { asked = u.asked }) id.slot (begin_proxy u.proxy c))
after_request os id c u failed w =
    upload_failed os id (put (record w { asked = suc u.asked }) id.slot (touched os c u u.proxy))
after_request os id c u unfinished w =
    let w' = put (record w { asked = suc u.asked }) id.slot (touched os c u u.proxy) in
    ok (record w' { pending_upstream_writes = insert_id id w'.pending_upstream_writes })
after_request os id c u sent w =
    let w' =
      put (record w { asked = suc (suc (suc u.asked)) }) id.slot
        (touched os c u (transition reading_response (os.now (suc u.asked)) u.proxy)) in
    with_token id upstream
      (if os.registers (suc (suc u.asked)) then ok w' else upload_failed os id w')

abbrev pub write_request :
    Os → ConnectionId → Connection → ReadinessWorker → Option ProxyState → Handled
write_request os id c w none = upload_failed os id w
write_request os id c w (some p) =
    let (u, end) = upload os (record { proxy = p; made_progress = false; asked = w.asked }) in
    after_request os id c u end w

unfoldable pub write_upstream_request : Os → ConnectionId → ReadinessWorker → Handled
unfolding fail_proxy upload transition begin_proxy token
write_upstream_request os id w = if_current (current w id) w λ c. elim (proxy c) [
  | none ↦ ok w
  | some p ↦
      if in_phase reading_response c
      then ok w
      else connected os p w.asked >>= write_request os id c (asks (asks w))
]

-- `read` of the upstream, again after every interruption.
unfoldable pub read_upstream : List (Result Bytes IoError) → Result Bytes IoError
read_upstream [] = err would_block
read_upstream (ok bytes ∷ answers) = ok bytes
read_upstream (err would_block ∷ answers) = err would_block
read_upstream (err interrupted ∷ answers) = read_upstream answers
read_upstream (err other_error ∷ answers) = err other_error

-- The end of the response; what is not yet sent is kept.
unfoldable pub mark_upstream_eof : ConnectionId → ReadinessWorker → ReadinessWorker
unfolding begin_proxy remove_connection
mark_upstream_eof id w = elim (current w id) [
  | none ↦ w
  | some c ↦
      let w' = elim (proxy c) as (λ _. ReadinessWorker) [
        | none ↦ w
        | some p ↦ put w id.slot (begin_proxy (record p { upstream_eof = true }) c)
      ] in
      if is_empty c.write_buffer then remove_connection id w' else w'
]

abbrev pub received : Os → ℕ → Connection → ProxyState → Bytes → Connection
received os n c p bytes =
    record (begin_proxy (record_progress (os.now n) (record p { response_started = true })) c) {
      write_buffer = c.write_buffer ++ bytes;
      write_offset = 0;
      last_progress = os.now (suc n);
    }

abbrev pub after_read :
    Os → ConnectionId → Connection → ProxyState → Result Bytes IoError → ReadinessWorker → Handled
after_read os id c p (ok []) w = ok (mark_upstream_eof id w)
after_read os id c p (ok (b ∷ bytes)) w =
    let counted = record w.metrics {
      bytes_read = fetch_add w.metrics.bytes_read (length (b ∷ bytes));
    } in
    reregister_client os id (
      put (record w { metrics = counted; asked = suc (suc w.asked) }) id.slot
        (received os w.asked c p (b ∷ bytes)))
after_read os id c p (err would_block) w = ok w
after_read os id c p (err interrupted) w = fail_proxy os id 502 (codes "upstream response failed") w
after_read os id c p (err other_error) w = fail_proxy os id 502 (codes "upstream response failed") w

unfoldable pub read_upstream_response : Os → ConnectionId → ReadinessWorker → Handled
unfolding read_upstream mark_upstream_eof reregister_client fail_proxy begin_proxy record_progress
read_upstream_response os id w = if_current (current w id) w λ c. elim (proxy c) [
  | none ↦ ok w
  | some p ↦
      if not (is_empty c.write_buffer) || not (in_phase reading_response c)
      then ok w
      else after_read os id c p
          (read_upstream
            (os.upstream_reads w.asked (min (8 * 1024) w.limits.max_write_buffer_size)))
          (asks w)
]
