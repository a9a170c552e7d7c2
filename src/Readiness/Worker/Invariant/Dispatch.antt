-- ===== src/Readiness/Worker/Invariant/Dispatch.antt =====
-- `dispatch` of run/slave/src/runtime/readiness/worker.rs: no event makes the worker panic.
use thwip.Prelude.{
  ◌≡◌, refl, Bool, true, false, not, ◌&&◌, ◌||◌, Option, none, some, arith, ltb, ◌==◌,
  if◌then◌else◌, length, get_elem?-lt, ok,
}
use thwip.Readiness.Token.{ConnectionId, SocketRole, client, upstream, from_token, control_token}
use thwip.Readiness.Connection.{Connection, is_proxying}
use thwip.Readiness.Os.{Os, Contract, ReadyEvent}
use thwip.Readiness.Worker.{ReadinessWorker, Handled, current, entry, is_current, insert_id}
use thwip.Readiness.Worker.Accepting.{accept_ready}
use thwip.Readiness.Worker.Answering.{connection_ready}
use thwip.Readiness.Worker.Writing.{write_ready, is_written, counted_error}
use thwip.Readiness.Worker.Exchanging.{write_upstream_request, read_upstream_response}
use thwip.Readiness.Worker.Loop.{
  log_socket_error, when, is_closed, dispatch_client, dispatch_upstream, dispatch_role,
  dispatch_socket, dispatch,
}
use thwip.Readiness.Worker.Invariant.{
  if-IsHandled, IsWorker, IsHandled, >>=-IsHandled, if_current-IsHandled,
  remove_connection-IsWorker, current-entry,
}
use thwip.Readiness.Worker.Invariant.Closing.{at_entry-some}
use thwip.Readiness.Worker.Invariant.Writing.{write_ready-IsHandled}
use thwip.Readiness.Worker.Invariant.Proxying.{fail_proxy-IsHandled, process_dns_results-IsHandled}
use thwip.Readiness.Worker.Invariant.Exchanging.{write_upstream_request-IsHandled}
use thwip.Readiness.Worker.Invariant.Exchanging.{read_upstream_response-IsHandled}
use thwip.Readiness.Worker.Invariant.Answering.{connection_ready-IsHandled}
use thwip.Readiness.Worker.Invariant.Accepting.{accept_ready-IsHandled}

when-IsHandled :
    (b : Bool) (handler : ReadinessWorker → Handled) (w : ReadinessWorker)
    → IsWorker w
    → (b ≡ true → IsHandled (handler w))
    → IsHandled (when b handler w)
when-IsHandled true handler w h k = k refl
when-IsHandled false handler w h k = h

log_socket_error-IsWorker :
    (id : ConnectionId) (error_event : Bool) (w : ReadinessWorker)
    → IsWorker w
    → IsWorker (log_socket_error id error_event w)
unfolding log_socket_error
log_socket_error-IsWorker id error_event w h = go (not error_event || not (is_current w id))
  where
    go : (b : Bool) → IsWorker (if b then w else counted_error w)
    go true = h
    go false = h

module _ (os : Os) (contract : Contract os) where
  dispatch_client-IsHandled :
      (id : ConnectionId) (event : ReadyEvent) (w : ReadinessWorker)
      → IsWorker w
      → IsHandled (dispatch_client os id event w)
  unfolding dispatch_client
  dispatch_client-IsHandled id event w h =
      if-IsHandled event.error _ _
        (remove_connection-IsWorker id (log_socket_error id true w)
          (log_socket_error-IsWorker id true w h))
        (>>=-IsHandled (when event.writable (write_ready os id) w) _
          (when-IsHandled event.writable (write_ready os id) w h
            (λ _. write_ready-IsHandled os contract id w h))
          (λ w₁ h₁.
            >>=-IsHandled (when (event.readable && not w₁.draining) (connection_ready os id) w₁) _
              (when-IsHandled (event.readable && not w₁.draining) (connection_ready os id) w₁ h₁
                (λ _. connection_ready-IsHandled os id w₁ h₁))
              (λ w₂ h₂. if_current-IsHandled (current w₂ id) w₂ _ h₂ λ c e.
                if-IsHandled (is_closed event && is_written c) _ _
                  (remove_connection-IsWorker id w₂ h₂) h₂)))

  marked :
      (b : Bool) (id : ConnectionId) (w : ReadinessWorker)
      → IsWorker w
      → IsWorker (
          if b
          then record w { pending_upstream_reads = insert_id id w.pending_upstream_reads }
          else w)
  marked true id w h = h
  marked false id w h = h

  dispatch_upstream-IsHandled :
      (id : ConnectionId) (event : ReadyEvent) (w : ReadinessWorker) (c : Connection)
      → IsWorker w
      → entry w.connections id.slot ≡ some c
      → IsHandled (dispatch_upstream os id event w)
  unfolding dispatch_upstream
  dispatch_upstream-IsHandled id event w c h e = at_entry-some w id.slot c _ e (
      if-IsHandled (not (is_proxying c)) _ _ h (
        if-IsHandled event.error _ _ (fail_proxy-IsHandled os id _ _ w h) (
          >>=-IsHandled (when event.writable (write_upstream_request os id) w) _
            (when-IsHandled event.writable (write_upstream_request os id) w h
              (λ _. write_upstream_request-IsHandled os contract id w h))
            (λ w₁ h₁.
              >>=-IsHandled
                (when (event.readable && is_current w₁ id) (read_upstream_response os id) w₁) _
                (when-IsHandled (event.readable && is_current w₁ id) (read_upstream_response os id)
                  w₁ h₁ (λ _. read_upstream_response-IsHandled os id w₁ h₁))
                (λ w₂ h₂. marked (is_closed event && is_current w₂ id) id w₂ h₂)))))

  dispatch_role-IsHandled :
      (event : ReadyEvent) (id : ConnectionId) (role : SocketRole) (w : ReadinessWorker)
      (c : Connection)
      → IsWorker w
      → current w id ≡ some c
      → IsHandled (dispatch_role os event id role w)
  dispatch_role-IsHandled event id client w c h e = dispatch_client-IsHandled id event w h
  dispatch_role-IsHandled event id upstream w c h e =
      dispatch_upstream-IsHandled id event w c h (current-entry w id c e).0

  dispatch_socket-IsHandled :
      (event : ReadyEvent) (o : Option (ConnectionId × SocketRole)) (w : ReadinessWorker)
      → IsWorker w
      → IsHandled (dispatch_socket os event o w)
  unfolding dispatch_socket is_current
  dispatch_socket-IsHandled event none w h = h
  dispatch_socket-IsHandled event (some (id, role)) w h = go (current w id) refl
    where
      go :
          (o : Option Connection)
          → current w id ≡ o
          → IsHandled (
              if elim o as (λ _. Bool) [ none ↦ false | some c ↦ true ]
              then dispatch_role os event id role w
              else ok w)
      go none e = h
      go (some c) e = dispatch_role-IsHandled event id role w c h e

pub dispatch-IsHandled :
    (os : Os) (event : ReadyEvent) (w : ReadinessWorker)
    → Contract os
    → IsWorker w
    → IsHandled (dispatch os event w)
unfolding dispatch
dispatch-IsHandled os event w contract h =
    if-IsHandled (event.token == control_token) _ _ (process_dns_results-IsHandled os w h)
      (go (ltb event.token (length w.listeners)) refl)
  where
    go :
        (b : Bool)
        → ltb event.token (length w.listeners) ≡ b
        → IsHandled (
            if b
            then when (event.readable && not w.draining) (accept_ready os event.token) w
            else dispatch_socket os event (from_token event.token) w)
    go true e =
        when-IsHandled (event.readable && not w.draining) (accept_ready os event.token) w h λ _.
          let (listener, found) = get_elem?-lt w.listeners event.token (ground arith) in
          accept_ready-IsHandled os event.token listener w h found
    go false e = dispatch_socket-IsHandled os contract event (from_token event.token) w h
