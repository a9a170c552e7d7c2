-- ===== src/Readiness/Worker/Proxying.antt =====
-- run/slave/src/runtime/readiness/worker.rs: starting and failing a proxied connection, and
-- `DnsResolver::resolve` and `drain` of resolver.rs, whose threads are the system's.
use thwip.Prelude.{
  ℕ, suc, Bool, true, false, not, ◌&&◌, Option, none, some, List, [], ◌∷◌, ltb, if◌then◌else◌,
  length, is_empty, ok, err, String,
}
use thwip.Prelude.Text.{Bytes, codes}
use thwip.Http.{RequestHead}
use thwip.Proxy.{parse, request_bytes}
use thwip.Router.{response_bytes}
use thwip.Readiness.Token.{ConnectionId, upstream, token}
use thwip.Readiness.Connection.{
  Connection, ProxyPhase, connecting, writing_request, reading_response, ResolvingState, new_proxy,
  begin_resolving, begin_proxy, take_resolution, detach_proxy, proxy, resolution, is_resolving,
}
use thwip.Readiness.Os.{Os, ResolveResult}
use thwip.Readiness.Worker.{
  ReadinessWorker, Handled, asks, current, if_current, put, remove_id, remove_connection,
  with_token, queue_response, for_each,
}

abbrev pub bad_gateway : String → Bytes
bad_gateway message = response_bytes 502 (codes message)

-- The phase of proxying, where it is that of the connection.
abbrev pub in_phase : ProxyPhase → Connection → Bool
in_phase phase c = elim (proxy c) [ none ↦ false | some p ↦ same_phase p.phase phase ]
  where
    same_phase : ProxyPhase → ProxyPhase → Bool
    same_phase connecting connecting = true
    same_phase writing_request writing_request = true
    same_phase reading_response reading_response = true
    same_phase _ _ = false

abbrev pub forget_upstream : ReadinessWorker → ConnectionId → ReadinessWorker
forget_upstream w id = record w {
  pending_upstream_reads = remove_id id w.pending_upstream_reads;
  pending_upstream_writes = remove_id id w.pending_upstream_writes;
}

abbrev pub can_send_error : Connection → Bool
can_send_error c =
    elim (proxy c) [ none ↦ false | some p ↦ not p.response_started ] && is_empty c.write_buffer

-- The error of the upstream's socket is only logged.
unfoldable pub fail_proxy : Os → ConnectionId → ℕ → Bytes → ReadinessWorker → Handled
unfolding detach_proxy queue_response remove_connection
fail_proxy os id status message w = if_current (current w id) w λ c.
    let w' = forget_upstream (put w id.slot (detach_proxy c)) id in
    if can_send_error c
    then queue_response os id (response_bytes status message) w'
    else ok (remove_connection id w')

unfoldable pub fail_resolution : Os → ConnectionId → ℕ → Bytes → ReadinessWorker → Handled
unfolding queue_response
fail_resolution os id status message w =
    if_current (current w id) w
      λ c. if is_resolving c then queue_response os id (response_bytes status message) w else ok w

-- A request that fits is kept until its address is resolved.
unfoldable pub submit :
    Os → ConnectionId → Connection → Bytes → ReadinessWorker → ReadinessWorker × Bool
unfolding begin_resolving
submit os id c buffer w =
    if ltb w.limits.max_read_buffer_size (length buffer) then (w, false) else (
      asks (put (asks w) id.slot (begin_resolving buffer (os.now w.asked) c)),
      os.sends_task (suc w.asked),
    )

-- `start_proxy`, with `resolver.resolve`, which fails where the threads are gone: what it leaves behind,
-- and whether it succeeds.
unfoldable pub start_proxy :
    Os
    → ConnectionId
    → Connection
    → Bytes
    → RequestHead
    → Bytes
    → ReadinessWorker
    → ReadinessWorker × Bool
unfolding submit
start_proxy os id c upstream_url request body w = elim (parse upstream_url) [
  | err e ↦ (w, false)
  | ok target ↦ submit os id c (request_bytes target request body) w
]

-- Where the resolved address can be connected to and registered.
abbrev pub connect_upstream :
    Os → ConnectionId → Connection → ResolvingState → ReadinessWorker → Handled
connect_upstream os id c resolution w =
    if os.connects w.asked
    then with_token id upstream (
        if os.registers (suc w.asked)
        then ok (
            put (asks (asks (asks w))) id.slot (
              begin_proxy (new_proxy resolution.request_buffer (os.now (suc (suc w.asked))))
                (take_resolution c)))
        else queue_response os id (bad_gateway "upstream connection failed")
            (put (asks (asks w)) id.slot (take_resolution c)))
    else queue_response os id (bad_gateway "upstream connection failed")
        (put (asks w) id.slot (take_resolution c))

abbrev pub with_addresses :
    Os → ConnectionId → Connection → Option (List ℕ) → ReadinessWorker → Handled
with_addresses os id c none w = fail_resolution os id 502 (codes "upstream DNS resolution failed") w
with_addresses os id c (some []) w = fail_resolution os id 502 (codes "upstream has no address") w
with_addresses os id c (some (address ∷ addresses)) w = elim (resolution c) [
  | none ↦ ok w
  | some state ↦ connect_upstream os id c state w
]

unfoldable pub finish_resolution : Os → ResolveResult → ReadinessWorker → Handled
unfolding fail_resolution take_resolution begin_proxy new_proxy queue_response token
finish_resolution os result w = if_current (current w result.connection_id) w λ c.
    if is_resolving c then with_addresses os result.connection_id c result.addresses w else ok w

unfoldable pub process_dns_results : Os → ReadinessWorker → Handled
unfolding finish_resolution for_each
process_dns_results os w = for_each (finish_resolution os) (os.resolved w.asked) (asks w)
