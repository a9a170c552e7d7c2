-- ===== src/Readiness/Worker/Loop.antt =====
-- run/slave/src/runtime/readiness/worker.rs: the dispatch of events, and the loop of the worker.
use thwip.Prelude.{
  ℕ, zero, suc, Bool, true, false, not, ◌&&◌, ◌||◌, Option, none, some, List, [], ltb, ◌==◌,
  if◌then◌else◌, length, Result, ok, err, ◌>>=◌,
}
use thwip.Prelude.Text.{codes}
use thwip.Readiness.Token.{ConnectionId, SocketRole, client, upstream, from_token, control_token}
use thwip.Readiness.Connection.{is_proxying}
use thwip.Readiness.Os.{Os, IoError, would_block, interrupted, other_error, ReadyEvent}
use thwip.Readiness.Worker.{
  ReadinessWorker, Fatal, io_failure, Handled, asks, current, if_current, is_current, at_entry,
  insert_id, remove_connection, count, for_each,
}
use thwip.Readiness.Worker.Accepting.{accept_ready}
use thwip.Readiness.Worker.Answering.{connection_ready}
use thwip.Readiness.Worker.Writing.{write_ready, is_written, counted_error}
use thwip.Readiness.Worker.Proxying.{process_dns_results, fail_proxy}
use thwip.Readiness.Worker.Exchanging.{write_upstream_request, read_upstream_response}
use thwip.Readiness.Worker.Timers.{
  begin_shutdown, pump_static_streams, close_idle_connections, close_expired_resolutions,
  close_expired_proxies, drain_deadline_expired, close_all_connections,
}

abbrev pub when : Bool → (ReadinessWorker → Handled) → ReadinessWorker → Handled
when true handler w = handler w
when false handler w = ok w

abbrev pub is_closed : ReadyEvent → Bool
is_closed event = event.read_closed || event.write_closed

-- The error itself is only logged.
unfoldable pub log_socket_error : ConnectionId → Bool → ReadinessWorker → ReadinessWorker
unfolding is_current
log_socket_error id error_event w =
    if not error_event || not (is_current w id) then w else counted_error w

unfoldable pub dispatch_client : Os → ConnectionId → ReadyEvent → ReadinessWorker → Handled
unfolding log_socket_error write_ready connection_ready remove_connection
dispatch_client os id event w =
    if event.error then ok (remove_connection id (log_socket_error id true w)) else do
      w₁ ← when event.writable (write_ready os id) w
      w₂ ← when (event.readable && not w₁.draining) (connection_ready os id) w₁
      if_current (current w₂ id) w₂
          λ c. if is_closed event && is_written c then ok (remove_connection id w₂) else ok w₂

unfoldable pub dispatch_upstream : Os → ConnectionId → ReadyEvent → ReadinessWorker → Handled
unfolding fail_proxy write_upstream_request read_upstream_response is_current
dispatch_upstream os id event w = at_entry w id.slot λ c.
    if not (is_proxying c)
    then ok w
    else if event.error
    then fail_proxy os id 502 (codes "upstream connection failed") w
    else do
      w₁ ← when event.writable (write_upstream_request os id) w
      w₂ ← when (event.readable && is_current w₁ id) (read_upstream_response os id) w₁
      ok (
          if is_closed event && is_current w₂ id
          then record w₂ { pending_upstream_reads = insert_id id w₂.pending_upstream_reads }
          else w₂)

abbrev pub dispatch_role : Os → ReadyEvent → ConnectionId → SocketRole → ReadinessWorker → Handled
dispatch_role os event id client w = dispatch_client os id event w
dispatch_role os event id upstream w = dispatch_upstream os id event w

unfoldable pub dispatch_socket :
    Os → ReadyEvent → Option (ConnectionId × SocketRole) → ReadinessWorker → Handled
unfolding dispatch_client dispatch_upstream is_current
dispatch_socket os event none w = ok w
dispatch_socket os event (some (id, role)) w =
    if is_current w id then dispatch_role os event id role w else ok w

unfoldable pub dispatch : Os → ReadyEvent → ReadinessWorker → Handled
unfolding process_dns_results accept_ready dispatch_socket from_token
dispatch os event w =
    if event.token == control_token
    then process_dns_results os w
    else if ltb event.token (length w.listeners)
    then when (event.readable && not w.draining) (accept_ready os event.token) w
    else dispatch_socket os event (from_token event.token) w

-- The handlers that an earlier turn left to do; a set is drained in the order that the hash set
-- gives.
unfoldable pub resume_pending : Os → ReadinessWorker → Handled
unfolding for_each write_ready write_upstream_request read_upstream_response
resume_pending os w = do
  w₁ ←
      for_each (write_ready os) (os.drain_order w.asked w.pending_writes)
        (record (asks w) { pending_writes = [] })
  w₂ ←
      for_each (write_upstream_request os) (os.drain_order w₁.asked w₁.pending_upstream_writes)
        (record (asks w₁) { pending_upstream_writes = [] })
  for_each (read_upstream_response os) (os.drain_order w₂.asked w₂.pending_upstream_reads)
      (record (asks w₂) { pending_upstream_reads = [] })

-- A poll that is interrupted starts the next turn.
abbrev pub dispatch_polled : Os → Result (List ReadyEvent) IoError → ReadinessWorker → Handled
dispatch_polled os (ok events) w = for_each (dispatch os) events w
dispatch_polled os (err interrupted) w = ok w
dispatch_polled os (err would_block) w = err io_failure
dispatch_polled os (err other_error) w = err io_failure

abbrev pub begin_if_requested : Os → ReadinessWorker → ReadinessWorker
begin_if_requested os w =
    if os.shutdown_requested w.asked && not w.draining then begin_shutdown os (asks w) else asks w

-- A turn that does not return: what is due, what is left over, and then the events.
unfoldable pub serve : Os → ReadinessWorker → Handled
unfolding process_dns_results close_expired_resolutions close_expired_proxies close_idle_connections
    pump_static_streams resume_pending dispatch for_each
serve os w = do
  w₁ ← process_dns_results os w
  w₂ ← close_expired_resolutions os w₁
  w₃ ← close_expired_proxies os w₂
  w₄ ← pump_static_streams os (close_idle_connections os w₃)
  w₅ ← resume_pending os w₄
  dispatch_polled os (os.polls w₅.asked) (asks w₅)

-- A turn of the loop of `run`: it goes on with a worker, or the loop returns.
pub data Turned : Type 0 where
  running : ReadinessWorker → Turned
  finished : ReadinessWorker → Turned
  failed : Fatal → Turned

abbrev pub to_turned : Handled → Turned
to_turned (ok w) = running w
to_turned (err e) = failed e

abbrev pub serve_or_finish : Os → ReadinessWorker → Turned
serve_or_finish os w =
    if w.draining && (count w.connections == 0)
    then finished w
    else if drain_deadline_expired os w
    then finished (close_all_connections w)
    else to_turned (serve os (asks w))

unfoldable pub run_turn : Os → ReadinessWorker → Turned
unfolding begin_shutdown count close_all_connections serve
run_turn os w = serve_or_finish os (begin_if_requested os w)

-- At most so many turns of the loop.
abbrev pub next_turn : (ReadinessWorker → Turned) → Turned → Turned
next_turn later (running w) = later w
next_turn later (finished w) = finished w
next_turn later (failed e) = failed e

unfoldable pub run : Os → ℕ → ReadinessWorker → Turned
unfolding run_turn
run os zero w = running w
run os (suc turns) w = next_turn (run os turns) (run_turn os w)
