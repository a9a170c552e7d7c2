-- ===== src/Readiness/Worker/Answering.antt =====
-- run/slave/src/runtime/readiness/worker.rs: answering requests, and `connection_ready`.
use thwip.Prelude.{
  ℕ, suc, Bool, true, false, Option, none, some, [], ◌∷◌, if◌then◌else◌, get_elem?, Result, ok, err,
  ◌>>=◌,
}
use thwip.Prelude.Text.{Bytes, codes, split}
use thwip.Prelude.Repeat.{Round, again, stop, repeat}
use thwip.Http.{RequestHead}
use thwip.Config.{Action, proxy, static, response}
use thwip.LoadBalancer.{Selection, select}
use thwip.Router.{select_server, route, response_bytes}
use thwip.StaticFiles.{StaticError}
use thwip.StaticFiles.Serving.{StaticStreamResponse, static_stream_response, static_error_response}
use thwip.Readiness.Token.{ConnectionId}
use thwip.Readiness.Connection.{Connection, is_handling_request}
use thwip.Readiness.Os.{Os, IoError, would_block, interrupted, other_error}
use thwip.Readiness.Worker.{
  ReadinessWorker, RegisteredListener, io_failure, panic, Handled, asks, current, if_current,
  remove_connection, reregister_client, queue_response, queue_static_response, max_reads_per_event,
}
use thwip.Readiness.Worker.Writing.{Local, to_local, from_local, wants_write}
use thwip.Readiness.Worker.Proxying.{bad_gateway, start_proxy}
use thwip.Readiness.Worker.Reading.{
  panicked, ReadEnd, buffer_size, closed, left, read_loop, refused, requested,
}

unfoldable pub action_response : Option Action → Bytes
action_response (some (response status body)) = response_bytes status body
action_response (some (static directory)) =
    response_bytes 500 (codes "static stream was not prepared")
action_response (some (proxy p)) = response_bytes 501 (codes "configured action is not implemented")
action_response none = response_bytes 404 (codes "not found")

unfoldable pub response_for : ReadinessWorker → ℕ → Bytes → Bytes
unfolding action_response
response_for w server_index target = elim (get_elem? w.servers server_index) [
  | none ↦ response_bytes 500 (codes "server configuration is unavailable")
  | some server ↦ action_response (route server target)
]

-- What stands behind an answer: the TLS library may have something to send.
unfoldable pub tell_session : Os → ConnectionId → ReadinessWorker → Handled
unfolding reregister_client
tell_session os id w =
    if_current (current w id) w
      λ c. if wants_write os w.asked c then reregister_client os id (asks w) else ok w

-- A response, and what stands behind it.
abbrev pub respond : Os → ConnectionId → Bytes → ReadinessWorker → Handled
respond os id bytes w = queue_response os id bytes w >>= tell_session os id

abbrev pub after_start : Os → ConnectionId → ReadinessWorker × Bool → Handled
after_start os id (w, true) = tell_session os id w
after_start os id (w, false) = respond os id (bad_gateway "upstream connection failed") w

-- The balancer's panic is the worker's. Where it selects nothing, the handler returns at once.
unfoldable pub proxy_request :
    Os
    → ConnectionId
    → Connection
    → RequestHead
    → Bytes
    → ReadinessWorker
    → Option Selection
    → Handled
unfolding start_proxy queue_response tell_session
proxy_request os id c request body w none = err panic
proxy_request os id c request body w (some (balancer, err e)) =
    queue_response os id (bad_gateway "upstream configuration failed")
      (record w { balancer = balancer })
proxy_request os id c request body w (some (balancer, ok upstream)) =
    after_start os id (start_proxy os id c upstream request body (record w { balancer = balancer }))

abbrev pub static_answer :
    Os → ConnectionId → Result StaticStreamResponse StaticError → ReadinessWorker → Handled
static_answer os id (ok stream) w = queue_static_response os id stream w >>= tell_session os id
static_answer os id (err error) w = respond os id (static_error_response error) w

unfoldable pub act :
    Os
    → ConnectionId
    → Connection
    → ℕ
    → RequestHead
    → Bytes
    → ReadinessWorker
    → Option Action
    → Handled
unfolding proxy_request queue_response queue_static_response response_for tell_session
act os id c server_index request body w (some (proxy p)) =
    proxy_request os id c request body w (select w.balancer (proxy p))
act os id c server_index request body w (some (static directory)) =
    static_answer os id (static_stream_response (os.files w.asked) (split b'/' directory) request)
      (asks w)
act os id c server_index request body w (some (response status body')) =
    respond os id (response_for w server_index request.target) w
act os id c server_index request body w none =
    respond os id (response_for w server_index request.target) w

abbrev pub answer_on :
    Os
    → ConnectionId
    → Connection
    → RequestHead
    → Bytes
    → ReadinessWorker
    → RegisteredListener
    → Handled
answer_on os id c request body w listener =
    let index = select_server listener.server_indices listener.default_server request w.servers in
    elim (get_elem? w.servers index) [
      | none ↦
          queue_response os id (response_bytes 500 (codes "server configuration is unavailable")) w
      | some server ↦ act os id c index request body w (route server request.target)
    ]

-- A server that is not configured returns at once, too.
unfoldable pub answer :
    Os → ConnectionId → Connection → RequestHead → Bytes → ReadinessWorker → Handled
unfolding act queue_response
answer os id c request body w = elim (get_elem? w.listeners c.listener_group) [
  | none ↦ err io_failure
  | some listener ↦ answer_on os id c request body w listener
]

abbrev pub after_reads : Os → ConnectionId → Connection → ReadEnd → ReadinessWorker → Handled
after_reads os id c left w = tell_session os id w
after_reads os id c panicked w = err panic
after_reads os id c closed w = tell_session os id (remove_connection id w)
after_reads os id c (refused status message) w = respond os id (response_bytes status message) w
after_reads os id c (requested request body) w = answer os id c request body w

-- The rounds of `client_during_proxy_ready`: what the client sends is dropped.
abbrev pub after_drop : Os → Local → Result Bytes IoError → Round Local Bool
after_drop os l (ok []) = stop l true
after_drop os l (ok (b ∷ bytes)) =
    again (record l { connection = record l.connection { last_progress = os.now l.asked } })
after_drop os l (err would_block) = stop l false
after_drop os l (err interrupted) = again l
after_drop os l (err other_error) = stop l true

unfoldable pub drop_round : Os → Local → Round Local Bool
drop_round os l =
    after_drop os (record l { asked = suc (suc l.asked) }) (os.read l.asked buffer_size)

abbrev pub close_if : Bool → ConnectionId → ReadinessWorker → Handled
close_if true id w = ok (remove_connection id w)
close_if false id w = ok w

unfoldable pub client_during_proxy_ready :
    Os → ConnectionId → Connection → ReadinessWorker → Handled
unfolding drop_round repeat remove_connection
client_during_proxy_ready os id c w =
    let (l, close) = repeat (drop_round os) max_reads_per_event false (to_local w c) in
    close_if close id (from_local w id.slot l)

unfoldable pub connection_ready : Os → ConnectionId → ReadinessWorker → Handled
unfolding read_loop answer client_during_proxy_ready queue_response remove_connection tell_session
connection_ready os id w = if_current (current w id) w λ c.
    if is_handling_request c
    then client_during_proxy_ready os id c w
    else (let (l, end) = read_loop os w.limits.max_read_buffer_size (to_local w c) in
        after_reads os id l.connection end (from_local w id.slot l))
