-- ===== src/Readiness/Worker/Invariant/Proxying.antt =====
-- Starting and failing a proxied connection (run/slave/src/runtime/readiness/worker.rs) keeps the worker
-- sound.
use thwip.Prelude.{
  ℕ, suc, ◌≤◌, ◌≡◌, refl, Bool, true, false, Option, none, some, List, [], ◌∷◌, arith, ltb,
  if◌then◌else◌, length, Result, ok, err,
}
use thwip.Prelude.Text.{Bytes}
use thwip.Http.{RequestHead}
use thwip.Proxy.{Upstream, UpstreamError, parse, request_bytes}
use thwip.Readiness.Token.{ConnectionId, upstream}
use thwip.Readiness.Connection.{
  Connection, ConnectionPhase, reading, writing_response, resolving, proxying, ProxyState,
  ResolvingState, proxy_of, resolution_of, resolution, phase_after_proxy, phase_after_resolution,
  begin_proxy, new_proxy, take_resolution, detach_proxy, is_resolving, begin_resolving,
}
use thwip.Readiness.Os.{Os, ResolveResult}
use thwip.Readiness.Worker.{ReadinessWorker, Handled, asks, entry, current, put}
use thwip.Readiness.Worker.Proxying.{
  fail_proxy, fail_resolution, can_send_error, forget_upstream, submit, start_proxy,
  connect_upstream, with_addresses, finish_resolution, process_dns_results,
}
use thwip.Readiness.Worker.Invariant.{
  if-IsHandled, IsPhase, IsConnection, IsWorker, IsHandled, if_current-IsHandled,
  with_token-IsHandled, put-IsWorker, remove_connection-IsWorker, for_each-IsHandled, entry-IsEntry,
}
use thwip.Readiness.Worker.Invariant.Closing.{
  queue_response-IsHandled, put-current-IsWorker, current-IsConnection,
}

abbrev pub IsProxy : ℕ → ProxyState → Type 0
IsProxy limit p = (p.request_offset ≤ length p.request_buffer) × (length p.request_buffer ≤ limit)

pub proxy_of-IsProxy :
    (limit : ℕ) (phase : ConnectionPhase) (p : ProxyState)
    → IsPhase limit phase
    → proxy_of phase ≡ some p
    → IsProxy limit p
proxy_of-IsProxy limit (reading pending) p h e = cc
proxy_of-IsProxy limit writing_response p h e = cc
proxy_of-IsProxy limit (resolving r) p h e = cc
proxy_of-IsProxy limit (proxying q) p h e = ground arith

resolution_of-length :
    (limit : ℕ) (phase : ConnectionPhase) (r : ResolvingState)
    → IsPhase limit phase
    → resolution_of phase ≡ some r
    → length r.request_buffer ≤ limit
resolution_of-length limit (reading pending) r h e = cc
resolution_of-length limit writing_response r h e = cc
resolution_of-length limit (resolving q) r h e = ground arith
resolution_of-length limit (proxying p) r h e = cc

detach_proxy-IsConnection :
    (limit : ℕ) (c : Connection) → IsConnection limit c → IsConnection limit (detach_proxy c)
unfolding detach_proxy
detach_proxy-IsConnection limit c (offset, read, phase) = (offset, read, go c.phase phase)
  where
    go : (p : ConnectionPhase) → IsPhase limit p → IsPhase limit (phase_after_proxy p)
    go (reading pending) h = h
    go writing_response h = tt
    go (resolving r) h = h
    go (proxying q) h = tt

take_resolution-IsConnection :
    (limit : ℕ) (c : Connection) → IsConnection limit c → IsConnection limit (take_resolution c)
unfolding take_resolution
take_resolution-IsConnection limit c (offset, read, phase) = (offset, read, go c.phase phase)
  where
    go : (p : ConnectionPhase) → IsPhase limit p → IsPhase limit (phase_after_resolution p)
    go (reading pending) h = h
    go writing_response h = tt
    go (resolving r) h = tt
    go (proxying q) h = h

pub begin_proxy-IsConnection :
    (limit : ℕ) (c : Connection) (p : ProxyState)
    → IsConnection limit c
    → IsProxy limit p
    → IsConnection limit (begin_proxy p c)
unfolding begin_proxy
begin_proxy-IsConnection limit c p (offset, read, _) h = (offset, read, h)

pub fail_proxy-IsHandled :
    (os : Os) (id : ConnectionId) (status : ℕ) (message : Bytes) (w : ReadinessWorker)
    → IsWorker w
    → IsHandled (fail_proxy os id status message w)
unfolding fail_proxy
fail_proxy-IsHandled os id status message w h = if_current-IsHandled (current w id) w _ h λ c e.
    let sound : IsWorker (forget_upstream (put w id.slot (detach_proxy c)) id) =
      put-current-IsWorker w id c (detach_proxy c) h e (
        detach_proxy-IsConnection w.limits.max_read_buffer_size c
          (current-IsConnection w id c h e)) in
    if-IsHandled (can_send_error c) _ _ (queue_response-IsHandled os id _ _ sound)
      (remove_connection-IsWorker id _ sound)

pub fail_resolution-IsHandled :
    (os : Os) (id : ConnectionId) (status : ℕ) (message : Bytes) (w : ReadinessWorker)
    → IsWorker w
    → IsHandled (fail_resolution os id status message w)
unfolding fail_resolution
fail_resolution-IsHandled os id status message w h =
    if_current-IsHandled (current w id) w _ h
      λ c e. if-IsHandled (is_resolving c) _ _ (queue_response-IsHandled os id _ w h) h

connect_upstream-IsHandled :
    (os : Os) (id : ConnectionId) (c : Connection) (r : ResolvingState) (w : ReadinessWorker)
    → IsWorker w
    → current w id ≡ some c
    → resolution c ≡ some r
    → IsHandled (connect_upstream os id c r w)
unfolding new_proxy
connect_upstream-IsHandled os id c r w h e resolved =
    let limit = w.limits.max_read_buffer_size in
    let good = current-IsConnection w id c h e in
    let taken = take_resolution-IsConnection limit c good in
    let small = resolution_of-length limit c.phase r good.2 resolved in
    if-IsHandled (os.connects w.asked) _ _
      (with_token-IsHandled id upstream _ (
        if-IsHandled (os.registers (suc w.asked)) _ _
          (put-current-IsWorker w id c _ h e
            (begin_proxy-IsConnection limit (take_resolution c) _ taken (omega arith, small)))
          (queue_response-IsHandled os id _ _ (put-current-IsWorker w id c _ h e taken))))
      (queue_response-IsHandled os id _ _ (put-current-IsWorker w id c _ h e taken))

with_addresses-IsHandled :
    (os : Os) (id : ConnectionId) (c : Connection) (addresses : Option (List ℕ))
    (w : ReadinessWorker)
    → IsWorker w
    → current w id ≡ some c
    → IsHandled (with_addresses os id c addresses w)
with_addresses-IsHandled os id c none w h e = fail_resolution-IsHandled os id _ _ w h
with_addresses-IsHandled os id c (some []) w h e = fail_resolution-IsHandled os id _ _ w h
with_addresses-IsHandled os id c (some (a ∷ as')) w h e = go (resolution c) refl
  where
    go :
        (o : Option ResolvingState)
        → resolution c ≡ o
        → IsHandled
            (elim o as (λ _. Handled) [ none ↦ ok w | some r ↦ connect_upstream os id c r w ])
    go none k = h
    go (some r) k = connect_upstream-IsHandled os id c r w h e k

pub finish_resolution-IsHandled :
    (os : Os) (result : ResolveResult) (w : ReadinessWorker)
    → IsWorker w
    → IsHandled (finish_resolution os result w)
unfolding finish_resolution
finish_resolution-IsHandled os result w h =
    if_current-IsHandled (current w result.connection_id) w _ h λ c e.
      if-IsHandled (is_resolving c) _ _
        (with_addresses-IsHandled os result.connection_id c result.addresses w h e) h

pub process_dns_results-IsHandled :
    (os : Os) (w : ReadinessWorker) → IsWorker w → IsHandled (process_dns_results os w)
unfolding process_dns_results
process_dns_results-IsHandled os w h =
    for_each-IsHandled (finish_resolution os) (os.resolved w.asked) (asks w)
      (finish_resolution-IsHandled os) h

submit-IsWorker :
    (os : Os) (id : ConnectionId) (c : Connection) (buffer : Bytes) (w : ReadinessWorker)
    → IsWorker w
    → entry w.connections id.slot ≡ some c
    → IsWorker (submit os id c buffer w).0
unfolding submit begin_resolving
submit-IsWorker os id c buffer w h e = go (ltb w.limits.max_read_buffer_size (length buffer)) refl
  where
    kept : ReadinessWorker × Bool
    kept = (w, false)

    begun : ReadinessWorker × Bool
    begun = (
      asks (put (asks w) id.slot (begin_resolving buffer (os.now w.asked) c)),
      os.sends_task (suc w.asked),
    )

    pick : Bool → ReadinessWorker × Bool
    pick b = if b then kept else begun

    go : (b : Bool) → ltb w.limits.max_read_buffer_size (length buffer) ≡ b → IsWorker (pick b).0
    go true k = h
    go false k =
        let (offset, read, _) =
          entry-IsEntry w.limits.max_read_buffer_size w.connections id.slot c h.entries e in
        put-IsWorker w id.slot c _ h e (offset, read, ground arith)

-- What `start_proxy` leaves is sound, whether or not it fails.
pub start_proxy-IsWorker :
    (os : Os) (id : ConnectionId) (c : Connection) (url : Bytes) (request : RequestHead)
    (body : Bytes) (w : ReadinessWorker)
    → IsWorker w
    → entry w.connections id.slot ≡ some c
    → IsWorker (start_proxy os id c url request body w).0
unfolding start_proxy
start_proxy-IsWorker os id c url request body w h e = go (parse url)
  where
    started : Result Upstream UpstreamError → ReadinessWorker × Bool
    started (err x) = (w, false)
    started (ok target) = submit os id c (request_bytes target request body) w

    go : (r : Result Upstream UpstreamError) → IsWorker (started r).0
    go (err x) = h
    go (ok target) = submit-IsWorker os id c (request_bytes target request body) w h e
