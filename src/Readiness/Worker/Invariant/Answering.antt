-- ===== src/Readiness/Worker/Invariant/Answering.antt =====
-- The answers to requests (run/slave/src/runtime/readiness/worker.rs) keep the worker sound.
use thwip.Prelude.{
  ℕ, ◌≡◌, ◌≢◌, refl, Bool, true, false, Option, none, some, get_elem?, Result, ok, err,
}
use thwip.Prelude.Text.{Bytes, codes}
use thwip.Prelude.Repeat.{repeat}
use thwip.Http.{RequestHead}
use thwip.Config.{Server, Action, proxy, static, response}
use thwip.LoadBalancer.{UpstreamBalancer, Selection, BalanceError, select}
use thwip.Router.{select_server, route, response_bytes}
use thwip.StaticFiles.{StaticError}
use thwip.StaticFiles.Serving.{StaticStreamResponse}
use thwip.Readiness.Token.{ConnectionId}
use thwip.Readiness.Connection.{Connection, is_handling_request}
use thwip.Readiness.Os.{Os}
use thwip.Readiness.Worker.{
  ReadinessWorker, RegisteredListener, Handled, io_failure, asks, entry, current, remove_connection,
  queue_response, queue_static_response, max_reads_per_event,
}
use thwip.Readiness.Worker.Writing.{to_local, from_local, wants_write}
use thwip.Readiness.Worker.Reading.{panicked, ReadEnd, left, closed, refused, requested, read_loop}
use thwip.Readiness.Worker.Answering.{
  close_if, tell_session, respond, after_start, proxy_request, static_answer, act, answer_on,
  answer, after_reads, drop_round, client_during_proxy_ready, connection_ready,
}
use thwip.Readiness.Worker.Invariant.{
  if-IsHandled, IsWorker, IsHandled, >>=-IsHandled, if_current-IsHandled,
  remove_connection-IsWorker, entry-set, current-entry,
}
use thwip.Readiness.Worker.Invariant.Balancing.{select-route, select-groups}
use thwip.Readiness.Worker.Invariant.Closing.{
  reregister_client-IsHandled, queue_response-IsHandled, queue_static_response-IsHandled,
  put-current-IsWorker, current-IsConnection,
}
use thwip.Readiness.Worker.Invariant.Proxying.{start_proxy-IsWorker}
use thwip.Readiness.Worker.Invariant.Reading.{Returns, drop_loop-IsLocal, read_loop-IsLocal}

module _ (os : Os) (id : ConnectionId) where
  close_if-IsHandled : (b : Bool) (w : ReadinessWorker) → IsWorker w → IsHandled (close_if b id w)
  close_if-IsHandled true w h = remove_connection-IsWorker id w h
  close_if-IsHandled false w h = h

  client_during_proxy_ready-IsHandled :
      (c : Connection) (w : ReadinessWorker)
      → IsWorker w
      → current w id ≡ some c
      → IsHandled (client_during_proxy_ready os id c w)
  unfolding client_during_proxy_ready
  client_during_proxy_ready-IsHandled c w h e =
      let good =
        drop_loop-IsLocal os w.limits.max_read_buffer_size (to_local w c)
          (current-IsConnection w id c h e) in
      let (l, close) = repeat (drop_round os) max_reads_per_event false (to_local w c) in
      close_if-IsHandled close (from_local w id.slot l)
        (put-current-IsWorker w id c l.connection h e good)

  tell_session-IsHandled : (w : ReadinessWorker) → IsWorker w → IsHandled (tell_session os id w)
  unfolding tell_session
  tell_session-IsHandled w h = if_current-IsHandled (current w id) w _ h λ c e.
      if-IsHandled (wants_write os w.asked c) _ _
        (reregister_client-IsHandled os id (asks w) c h (current-entry w id c e).0) h

  respond-IsHandled :
      (bytes : Bytes) (w : ReadinessWorker) → IsWorker w → IsHandled (respond os id bytes w)
  respond-IsHandled bytes w h =
      >>=-IsHandled (queue_response os id bytes w) (tell_session os id)
        (queue_response-IsHandled os id bytes w h) tell_session-IsHandled

  after_start-IsHandled :
      (r : ReadinessWorker × Bool) → IsWorker r.0 → IsHandled (after_start os id r)
  after_start-IsHandled (w, true) h = tell_session-IsHandled w h
  after_start-IsHandled (w, false) h = respond-IsHandled _ w h

  static_answer-IsHandled :
      (r : Result StaticStreamResponse StaticError) (w : ReadinessWorker)
      → IsWorker w
      → IsHandled (static_answer os id r w)
  static_answer-IsHandled (ok stream) w h =
      >>=-IsHandled (queue_static_response os id stream w) (tell_session os id)
        (queue_static_response-IsHandled os id stream w h) tell_session-IsHandled
  static_answer-IsHandled (err error) w h = respond-IsHandled _ w h

  regrouped :
      (w : ReadinessWorker) (b : UpstreamBalancer)
      → b.groups ≡ w.balancer.groups
      → IsWorker w
      → IsWorker (record w { balancer = b })
  regrouped w b e h = rw e h

  proxy_request-IsHandled :
      (c : Connection) (request : RequestHead) (body : Bytes) (w : ReadinessWorker)
      (o : Option Selection)
      → IsWorker w
      → entry w.connections id.slot ≡ some c
      → o ≢ none
      → ((b : UpstreamBalancer) (r : Result Bytes BalanceError)
          → o ≡ some (b, r)
          → b.groups ≡ w.balancer.groups)
      → IsHandled (proxy_request os id c request body w o)
  unfolding proxy_request
  proxy_request-IsHandled c request body w none h e ne kept = ne refl
  proxy_request-IsHandled c request body w (some (b, err x)) h e ne kept =
      queue_response-IsHandled os id _ _ (regrouped w b (kept b (err x) refl) h)
  proxy_request-IsHandled c request body w (some (b, ok url)) h e ne kept =
      after_start-IsHandled _ (
        start_proxy-IsWorker os id c url request body (record w { balancer = b })
          (regrouped w b (kept b (ok url) refl) h) e)

  act-IsHandled :
      (c : Connection) (i : ℕ) (server : Server) (request : RequestHead) (body : Bytes)
      (w : ReadinessWorker) (o : Option Action)
      → IsWorker w
      → entry w.connections id.slot ≡ some c
      → get_elem? w.servers i ≡ some server
      → route server request.target ≡ o
      → IsHandled (act os id c i request body w o)
  unfolding act
  act-IsHandled c i server request body w (some (proxy p)) h e at_i routed =
      proxy_request-IsHandled c request body w (select w.balancer (proxy p)) h e
        (select-route w.balancer w.servers i server request.target (proxy p) h.balanced at_i routed)
        (λ b r k. select-groups w.balancer b (proxy p) r k)
  act-IsHandled c i server request body w (some (static directory)) h e at_i routed =
      static_answer-IsHandled _ (asks w) h
  act-IsHandled c i server request body w (some (response status body')) h e at_i routed =
      respond-IsHandled _ w h
  act-IsHandled c i server request body w none h e at_i routed = respond-IsHandled _ w h

  answer_on-IsHandled :
      (c : Connection) (request : RequestHead) (body : Bytes) (w : ReadinessWorker)
      (listener : RegisteredListener)
      → IsWorker w
      → entry w.connections id.slot ≡ some c
      → IsHandled (answer_on os id c request body w listener)
  answer_on-IsHandled c request body w listener h e = go (get_elem? w.servers index) refl
    where
      index : ℕ
      index = select_server listener.server_indices listener.default_server request w.servers

      go :
          (o : Option Server)
          → get_elem? w.servers index ≡ o
          → IsHandled (elim o as (λ _. Handled) [
            | none ↦
                queue_response os id
                  (response_bytes 500 (codes "server configuration is unavailable"))
                  w
            | some server ↦ act os id c index request body w (route server request.target)
          ])
      go none k = queue_response-IsHandled os id _ w h
      go (some server) k =
          act-IsHandled c index server request body w (route server request.target) h e k refl

  answer-IsHandled :
      (c : Connection) (request : RequestHead) (body : Bytes) (w : ReadinessWorker)
      → IsWorker w
      → entry w.connections id.slot ≡ some c
      → IsHandled (answer os id c request body w)
  unfolding answer
  answer-IsHandled c request body w h e = go (get_elem? w.listeners c.listener_group)
    where
      go :
          (o : Option RegisteredListener)
          → IsHandled (elim o as (λ _. Handled) [
            | none ↦ err io_failure
            | some listener ↦ answer_on os id c request body w listener
          ])
      go none = tt
      go (some listener) = answer_on-IsHandled c request body w listener h e

  after_reads-IsHandled :
      (c : Connection) (end : ReadEnd) (w : ReadinessWorker)
      → IsWorker w
      → entry w.connections id.slot ≡ some c
      → Returns end
      → IsHandled (after_reads os id c end w)
  after_reads-IsHandled c panicked w h e returns = returns
  after_reads-IsHandled c left w h e returns = tell_session-IsHandled w h
  after_reads-IsHandled c closed w h e returns =
      tell_session-IsHandled (remove_connection id w) (remove_connection-IsWorker id w h)
  after_reads-IsHandled c (refused status message) w h e returns = respond-IsHandled _ w h
  after_reads-IsHandled c (requested request body) w h e returns =
      answer-IsHandled c request body w h e

  pub connection_ready-IsHandled :
      (w : ReadinessWorker) → IsWorker w → IsHandled (connection_ready os id w)
  unfolding connection_ready
  connection_ready-IsHandled w h = if_current-IsHandled (current w id) w _ h λ c e.
      if-IsHandled (is_handling_request c) _ _ (client_during_proxy_ready-IsHandled c w h e)
        (read c e)
    where
      read :
          (c : Connection)
          → current w id ≡ some c
          → (let (l, end) = read_loop os w.limits.max_read_buffer_size (to_local w c) in
              IsHandled (after_reads os id l.connection end (from_local w id.slot l)))
      read c e =
          let (good, returns) =
            read_loop-IsLocal os w.limits.max_read_buffer_size (to_local w c)
              (current-IsConnection w id c h e) in
          let (l, end) = read_loop os w.limits.max_read_buffer_size (to_local w c) in
          after_reads-IsHandled l.connection end (from_local w id.slot l)
            (put-current-IsWorker w id c l.connection h e good)
            (entry-set w.connections id.slot c l.connection (current-entry w id c e).0) returns
