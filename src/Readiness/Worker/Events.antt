-- ===== src/Readiness/Worker/Events.antt =====
-- run/slave/src/runtime/readiness/worker.rs: the events of a connection's sockets, by their tokens.
use thwip.Prelude.{
  ◌≤◌, ◌≡◌, ◌^◌, ap, Bool, true, false, not, ◌&&◌, Option, some, arith, ltb, ◌==◌, if◌then◌else◌,
  length, ok,
}
use thwip.Readiness.Token.{
  ConnectionId, SocketRole, client, upstream, token, from_token, control_token,
}
use thwip.Readiness.Token.Codec.{token-bounds, from_token-eq-some_iff}
use thwip.Readiness.Os.{Os, ReadyEvent}
use thwip.Readiness.Worker.{ReadinessWorker, is_current}
use thwip.Readiness.Worker.Accepting.{accept_ready}
use thwip.Readiness.Worker.Proxying.{process_dns_results}
use thwip.Readiness.Worker.Loop.{
  when, dispatch, dispatch_client, dispatch_upstream, dispatch_role, dispatch_socket,
}

dispatch-dispatch_role :
    (os : Os) (event : ReadyEvent) (id : ConnectionId) (role : SocketRole) (w : ReadinessWorker)
    → token id role ≡ ok event.token
    → length w.listeners ≤ 2 ^ 63
    → dispatch os event w ≡ (if is_current w id then dispatch_role os event id role w else ok w)
unfolding dispatch dispatch_socket
dispatch-dispatch_role os event id role w registered few =
    let (low, high, free) = token-bounds event.token id role registered in
    go (event.token == control_token) (ltb event.token (length w.listeners))
      (from_token event.token) free (ground arith)
      ((from_token-eq-some_iff event.token id role high).1 registered)
  where
    go :
        (a b : Bool) (o : Option (ConnectionId × SocketRole))
        → a ≡ false
        → b ≡ false
        → o ≡ some (id, role)
        → (if a
            then process_dns_results os w
            else if b
            then when (event.readable && not w.draining) (accept_ready os event.token) w
            else dispatch_socket os event o w)
          ≡ (if is_current w id then dispatch_role os event id role w else ok w)
    go true b o e e' f = cc
    go false true o e e' f = cc
    go false false o e e' f = ap (λ x. dispatch_socket os event x w) f

-- An event under the token that a socket was registered with goes to the handler for that socket, the
-- client's or the upstream's, while
-- its connection is the one in its slot; afterwards, and when the slot has been given to another one,
-- the event changes nothing. There are at most 2 ^ 63 listeners, whose tokens are their positions.
pub dispatch-token :
    (os : Os) (event : ReadyEvent) (id : ConnectionId) (role : SocketRole) (w : ReadinessWorker)
    → token id role ≡ ok event.token
    → length w.listeners ≤ 2 ^ 63
    → dispatch os event w ≡ (
        if is_current w id
        then (elim role [
          | client ↦ dispatch_client os id event w
          | upstream ↦ dispatch_upstream os id event w
        ])
        else ok w)
dispatch-token os event id client w registered few =
    dispatch-dispatch_role os event id client w registered few
dispatch-token os event id upstream w registered few =
    dispatch-dispatch_role os event id upstream w registered few
