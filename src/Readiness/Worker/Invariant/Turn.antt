-- ===== src/Readiness/Worker/Invariant/Turn.antt =====
-- The turns of the loop of run/slave/src/runtime/readiness/worker.rs keep the worker sound.
use thwip.Prelude.{Bool, true, false, not, ◌&&◌, List, [], ◌∷◌, if◌then◌else◌, Result, ok, err}
use thwip.Prelude.Text.{codes}
use thwip.Readiness.Token.{ConnectionId}
use thwip.Readiness.Os.{Os, Contract, IoError, would_block, interrupted, other_error, ReadyEvent}
use thwip.Readiness.Worker.{
  ReadinessWorker, io_failure, panic, Handled, asks, remove_connection, ids_where, for_each,
}
use thwip.Readiness.Worker.Writing.{write_ready}
use thwip.Readiness.Worker.Proxying.{fail_proxy, fail_resolution, process_dns_results}
use thwip.Readiness.Worker.Exchanging.{write_upstream_request, read_upstream_response}
use thwip.Readiness.Worker.Timers.{
  remove_all, begin_shutdown, pump_static_streams, close_idle_connections,
  close_expired_resolutions, close_expired_proxies, close_all_connections, is_quiet,
  is_idle_connection, starts_draining, close_idle, handshake_expired, resolution_expired,
  proxy_expired, phase_message,
}
use thwip.Readiness.Worker.Loop.{
  dispatch, resume_pending, dispatch_polled, begin_if_requested, serve, Turned, running, finished,
  failed, to_turned, run_turn,
}
use thwip.Readiness.Worker.Invariant.{
  IsWorker, IsHandled, >>=-IsHandled, for_each-IsHandled, remove_connection-IsWorker,
}
use thwip.Readiness.Worker.Invariant.Writing.{write_ready-IsHandled}
use thwip.Readiness.Worker.Invariant.Proxying.{
  fail_proxy-IsHandled, fail_resolution-IsHandled, process_dns_results-IsHandled,
}
use thwip.Readiness.Worker.Invariant.Exchanging.{write_upstream_request-IsHandled}
use thwip.Readiness.Worker.Invariant.Exchanging.{read_upstream_response-IsHandled}
use thwip.Readiness.Worker.Invariant.Streams.{pump_static_streams-IsHandled}
use thwip.Readiness.Worker.Invariant.Dispatch.{dispatch-IsHandled}

remove_all-IsWorker :
    (ids : List ConnectionId) (w : ReadinessWorker) → IsWorker w → IsWorker (remove_all ids w)
unfolding remove_all
remove_all-IsWorker [] w h = h
remove_all-IsWorker (id ∷ ids) w h =
    remove_all-IsWorker ids (remove_connection id w) (remove_connection-IsWorker id w h)

begin_shutdown-IsWorker :
    (os : Os) (w : ReadinessWorker) → IsWorker w → IsWorker (begin_shutdown os w)
unfolding begin_shutdown
begin_shutdown-IsWorker os w h =
    remove_all-IsWorker (ids_where (λ _. is_quiet) (starts_draining os w)) (starts_draining os w) h

begin_if_requested-IsWorker :
    (os : Os) (w : ReadinessWorker) → IsWorker w → IsWorker (begin_if_requested os w)
begin_if_requested-IsWorker os w h = go (os.shutdown_requested w.asked && not w.draining)
  where
    go : (b : Bool) → IsWorker (if b then begin_shutdown os (asks w) else asks w)
    go true = begin_shutdown-IsWorker os (asks w) h
    go false = h

close_idle_connections-IsWorker :
    (os : Os) (w : ReadinessWorker) → IsWorker w → IsWorker (close_idle_connections os w)
unfolding close_idle_connections
close_idle_connections-IsWorker os w h =
    remove_all-IsWorker (ids_where (handshake_expired os w.asked) (close_idle os w))
      (close_idle os w)
      (remove_all-IsWorker
        (ids_where (λ _. is_idle_connection w.limits.idle_timeout (os.now w.asked)) w)
        (asks (asks w)) h)

close_all_connections-IsWorker :
    (w : ReadinessWorker) → IsWorker w → IsWorker (close_all_connections w)
unfolding close_all_connections
close_all_connections-IsWorker w h = remove_all-IsWorker (ids_where (λ _ c. true) w) w h

close_expired_resolutions-IsHandled :
    (os : Os) (w : ReadinessWorker) → IsWorker w → IsHandled (close_expired_resolutions os w)
unfolding close_expired_resolutions
close_expired_resolutions-IsHandled os w h =
    for_each-IsHandled (λ id. fail_resolution os id 504 (codes "upstream DNS resolution timed out"))
      (ids_where (λ _. resolution_expired w.dns_timeout (os.now w.asked)) w) (asks w)
      (λ id w' h'.
        fail_resolution-IsHandled os id 504 (codes "upstream DNS resolution timed out") w' h')
      h

close_expired_proxies-IsHandled :
    (os : Os) (w : ReadinessWorker) → IsWorker w → IsHandled (close_expired_proxies os w)
unfolding close_expired_proxies
close_expired_proxies-IsHandled os w h =
    for_each-IsHandled (λ id. fail_proxy os id 504 (phase_message w id))
      (ids_where (λ _. proxy_expired w.proxy_limits (os.now w.asked)) w) (asks w)
      (λ id w' h'. fail_proxy-IsHandled os id 504 (phase_message w id) w' h') h

module _ (os : Os) (contract : Contract os) where
  resume_pending-IsHandled : (w : ReadinessWorker) → IsWorker w → IsHandled (resume_pending os w)
  unfolding resume_pending
  resume_pending-IsHandled w h =
      >>=-IsHandled
        (for_each (write_ready os) (os.drain_order w.asked w.pending_writes)
          (record (asks w) { pending_writes = [] }))
        _
        (for_each-IsHandled (write_ready os) (os.drain_order w.asked w.pending_writes)
          (record (asks w) { pending_writes = [] })
          (λ id w' h'. write_ready-IsHandled os contract id w' h') h)
        (λ w₁ h₁.
          >>=-IsHandled
            (for_each (write_upstream_request os)
              (os.drain_order w₁.asked w₁.pending_upstream_writes)
              (record (asks w₁) { pending_upstream_writes = [] }))
            _
            (for_each-IsHandled (write_upstream_request os)
              (os.drain_order w₁.asked w₁.pending_upstream_writes)
              (record (asks w₁) { pending_upstream_writes = [] })
              (λ id w' h'. write_upstream_request-IsHandled os contract id w' h') h₁)
            (λ w₂ h₂.
              for_each-IsHandled (read_upstream_response os)
                (os.drain_order w₂.asked w₂.pending_upstream_reads)
                (record (asks w₂) { pending_upstream_reads = [] })
                (λ id w' h'. read_upstream_response-IsHandled os id w' h') h₂))

  dispatch_polled-IsHandled :
      (r : Result (List ReadyEvent) IoError) (w : ReadinessWorker)
      → IsWorker w
      → IsHandled (dispatch_polled os r w)
  dispatch_polled-IsHandled (ok events) w h =
      for_each-IsHandled (dispatch os) events w
        (λ event w' h'. dispatch-IsHandled os event w' contract h') h
  dispatch_polled-IsHandled (err interrupted) w h = h
  dispatch_polled-IsHandled (err would_block) w h = tt
  dispatch_polled-IsHandled (err other_error) w h = tt

  serve-IsHandled : (w : ReadinessWorker) → IsWorker w → IsHandled (serve os w)
  unfolding serve
  serve-IsHandled w h =
      >>=-IsHandled (process_dns_results os w) _ (process_dns_results-IsHandled os w h) λ w₁ h₁.
        >>=-IsHandled (close_expired_resolutions os w₁) _
          (close_expired_resolutions-IsHandled os w₁ h₁)
          λ w₂ h₂.
            >>=-IsHandled (close_expired_proxies os w₂) _ (close_expired_proxies-IsHandled os w₂ h₂)
              λ w₃ h₃.
                >>=-IsHandled (pump_static_streams os (close_idle_connections os w₃)) _
                  (pump_static_streams-IsHandled os _ contract
                    (close_idle_connections-IsWorker os w₃ h₃))
                  λ w₄ h₄.
                    >>=-IsHandled (resume_pending os w₄) _ (resume_pending-IsHandled w₄ h₄)
                      λ w₅ h₅. dispatch_polled-IsHandled (os.polls w₅.asked) (asks w₅) h₅

-- A turn leaves a sound worker, or ends with an error that the loop returns, but not with a panic.
abbrev pub IsTurned : Turned → Type 0
IsTurned (running w) = IsWorker w
IsTurned (finished w) = IsWorker w
IsTurned (failed io_failure) = Unit
IsTurned (failed panic) = ⊥

to_turned-IsTurned : (r : Handled) → IsHandled r → IsTurned (to_turned r)
to_turned-IsTurned (ok w) h = h
to_turned-IsTurned (err io_failure) h = tt
to_turned-IsTurned (err panic) h = h

pub run_turn-IsTurned :
    (os : Os) (w : ReadinessWorker) → Contract os → IsWorker w → IsTurned (run_turn os w)
unfolding run_turn
run_turn-IsTurned os w contract h = go _ _ (begin_if_requested-IsWorker os w h)
  where
    w' : ReadinessWorker
    w' = begin_if_requested os w

    go :
        (a b : Bool)
        → IsWorker w'
        → IsTurned (
            if a
            then finished w'
            else if b
            then finished (close_all_connections w')
            else to_turned (serve os (asks w')))
    go true b k = k
    go false true k = close_all_connections-IsWorker w' k
    go false false k = to_turned-IsTurned _ (serve-IsHandled os contract (asks w') k)
