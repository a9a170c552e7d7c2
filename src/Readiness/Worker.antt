-- ===== src/Readiness/Worker.antt =====
-- run/slave/src/runtime/readiness/worker.rs: the state of the event loop, the slab of connections, and
-- the handlers' common ends: closing a connection and queueing a response. The slab is the list of its
-- entries by key, and a hash set a list without order of its own. A deregistration that fails is only
-- logged, and so has no part here.
pub mod Accepting
pub mod Reading
pub mod Answering
pub mod Proxying
pub mod Exchanging
pub mod Writing
pub mod Timers
pub mod Loop
pub mod Setup
pub mod Slab
pub mod Closings
pub mod Registry
pub mod Registration
pub mod Requests
pub mod Shutdown
pub mod Events
pub mod Invariant
use thwip.Prelude.{
  ℕ, zero, suc, ◌+◌, ◌-◌, ◌*◌, ◌%◌, ◌^◌, ◌≤◌, ◌≡◌, Bool, true, false, not, ◌&&◌, ◌||◌, Option, none,
  some, List, [], ◌∷◌, ◌++◌, ltb, leb, ◌==◌, if◌then◌else◌, length, get_elem?, set, any, keep,
  is_empty, Result, ok, err, ◌>>=◌,
}
use thwip.Prelude.Text.{Bytes, codes}
use thwip.Config.{Server}
use thwip.LoadBalancer.{UpstreamBalancer}
use thwip.Router.{response_bytes}
use thwip.StaticFiles.Serving.{StaticStreamResponse}
use thwip.Readiness.Token.{ConnectionId, SocketRole, client, upstream, token}
use thwip.Readiness.Connection.{ProxyLimits, Connection, SslSession, begin_response, detach_proxy}
use thwip.Readiness.Os.{Os}

abbrev pub max_reads_per_event : ℕ
max_reads_per_event = 16

abbrev pub max_writes_per_event : ℕ
max_writes_per_event = 16

pub record WorkerLimits : Type 0 where
  pub max_connections : ℕ
  pub max_read_buffer_size : ℕ
  pub max_write_buffer_size : ℕ
  pub idle_timeout : ℕ
  pub drain_timeout : ℕ

pub record WorkerMetrics : Type 0 where
  pub accepted : ℕ
  pub requests : ℕ
  pub responses : ℕ
  pub bytes_read : ℕ
  pub bytes_written : ℕ
  pub errors : ℕ

-- `fetch_add` on a 64-bit counter.
abbrev pub fetch_add : ℕ → ℕ → ℕ
fetch_add counter n = (counter + n) % 2 ^ 64

-- A listener's certificates come with the time that a handshake may take.
pub record RegisteredListener : Type 0 where
  pub default_server : ℕ
  pub server_indices : List ℕ
  pub ssl : Option ℕ

pub record ReadinessWorker : Type 0 where
  pub listeners : List RegisteredListener
  pub connections : List (Option Connection)
  pub generations : List ℕ
  pub pending_writes : List ConnectionId
  pub pending_upstream_writes : List ConnectionId
  pub pending_upstream_reads : List ConnectionId
  pub servers : List Server
  pub limits : WorkerLimits
  pub proxy_limits : ProxyLimits
  pub dns_timeout : ℕ
  pub metrics : WorkerMetrics
  pub balancer : UpstreamBalancer
  pub draining : Bool
  pub drain_started_at : Option ℕ
  -- how many questions the system has been asked
  pub asked : ℕ

-- How the loop ends early: with an error that it returns, or with a panic.
pub data Fatal : Type 0 where
  io_failure panic : Fatal

-- A handler leaves a worker, or ends the loop.
abbrev pub Handled : Type 0
Handled = Result ReadinessWorker Fatal

abbrev pub asks : ReadinessWorker → ReadinessWorker
asks w = record w { asked = suc w.asked }

abbrev pub entry : List (Option Connection) → ℕ → Option Connection
entry connections slot = elim (get_elem? connections slot) [ none ↦ none | some e ↦ e ]

abbrev pub filter_generation : ℕ → Option Connection → Option Connection
filter_generation generation none = none
filter_generation generation (some c) = if c.generation == generation then some c else none

-- The connection with the identifier, where `is_current` holds.
abbrev pub current : ReadinessWorker → ConnectionId → Option Connection
current w id = filter_generation id.generation (entry w.connections id.slot)

unfoldable pub is_current : ReadinessWorker → ConnectionId → Bool
is_current w id = elim (current w id) [ none ↦ false | some c ↦ true ]

-- A handler's `if !self.is_current(id) { return Ok(()) }`, and the connection where it goes on.
abbrev pub if_current : Option Connection → ReadinessWorker → (Connection → Handled) → Handled
if_current none w k = ok w
if_current (some c) w k = k c

abbrev pub put : ReadinessWorker → ℕ → Connection → ReadinessWorker
put w slot connection = record w { connections = set w.connections slot (some connection) }

-- `HashSet<ConnectionId>`
abbrev pub same_id : ConnectionId → ConnectionId → Bool
same_id a b = (a.slot == b.slot) && (a.generation == b.generation)

abbrev pub insert_id : ConnectionId → List ConnectionId → List ConnectionId
insert_id id ids = if any (same_id id) ids then ids else id ∷ ids

abbrev pub remove_id : ConnectionId → List ConnectionId → List ConnectionId
remove_id id ids = keep (λ other. not (same_id id other)) ids

abbrev pub forget : ReadinessWorker → ConnectionId → ReadinessWorker
forget w id = record w {
  connections = set w.connections id.slot none;
  pending_writes = remove_id id w.pending_writes;
  pending_upstream_reads = remove_id id w.pending_upstream_reads;
  pending_upstream_writes = remove_id id w.pending_upstream_writes;
}

-- The slab drops the connection, and with it the upstream's socket.
unfoldable pub remove_connection : ConnectionId → ReadinessWorker → ReadinessWorker
unfolding is_current
remove_connection id w = if is_current w id then forget w id else w

-- The token for a registration; an identifier without one is an error that ends the loop.
abbrev pub with_token : ConnectionId → SocketRole → Handled → Handled
with_token id role next = elim (token id role) [ ok t ↦ next | err e ↦ err io_failure ]

-- Where a registration fails, the connection is removed.
abbrev pub register_or_remove : Os → ConnectionId → ReadinessWorker → ReadinessWorker
register_or_remove os id w = if os.registers w.asked then asks w else remove_connection id (asks w)

abbrev pub at_entry : ReadinessWorker → ℕ → (Connection → Handled) → Handled
at_entry w slot k = elim (entry w.connections slot) [ none ↦ err panic | some c ↦ k c ]

-- `reregister_client`: the interest itself does not matter here.
unfoldable pub reregister_client : Os → ConnectionId → ReadinessWorker → Handled
unfolding remove_connection token
reregister_client os id w =
    at_entry w id.slot λ c. with_token id client (ok (register_or_remove os id w))

abbrev pub sized_response : ℕ → Bytes → Bytes
sized_response limit response =
    if ltb limit (length response)
    then response_bytes 500 (codes "response is too large")
    else response

abbrev pub responding : Bytes → Connection → Connection
responding response c = record (begin_response c) { write_buffer = response; write_offset = 0 }

unfoldable pub queue_response : Os → ConnectionId → Bytes → ReadinessWorker → Handled
unfolding is_current begin_response remove_connection token
queue_response os id response w = if_current (current w id) w λ c. with_token id client (
    ok (
      register_or_remove os id
        (put w id.slot (responding (sized_response w.limits.max_write_buffer_size response) c))))

unfoldable pub queue_static_response :
    Os → ConnectionId → StaticStreamResponse → ReadinessWorker → Handled
unfolding queue_response
queue_static_response os id response w = if_current (current w id) w λ c.
    queue_response os id response.head
      (put w id.slot (record c { static_stream = response.stream }))

abbrev pub starts_closing : Connection → Bool
starts_closing c = elim c.ssl [ none ↦ false | some ssl ↦ not c.ssl_closing ]

unfoldable pub close_client : Os → ConnectionId → ReadinessWorker → Handled
unfolding reregister_client remove_connection
close_client os id w = if_current (current w id) w λ c.
    if starts_closing c
    then reregister_client os id (put w id.slot (record c { ssl_closing = true }))
    else ok (remove_connection id w)

-- The identifiers of the connections that a test selects, as `Slab::iter` and `filter_map` give them.
unfoldable pub ids_from :
    ℕ → (ConnectionId → Connection → Bool) → List (Option Connection) → List ConnectionId
ids_from slot test [] = []
ids_from slot test (none ∷ entries) = ids_from (suc slot) test entries
ids_from slot test (some c ∷ entries) =
    let rest = ids_from (suc slot) test entries in
    let id : ConnectionId = record { slot = slot; generation = c.generation } in
    if test id c then id ∷ rest else rest

abbrev pub ids_where : (ConnectionId → Connection → Bool) → ReadinessWorker → List ConnectionId
ids_where test w = ids_from 0 test w.connections

unfoldable pub count : List (Option Connection) → ℕ
count [] = 0
count (none ∷ entries) = count entries
count (some c ∷ entries) = suc (count entries)

-- A handler for one identifier after the other.
unfoldable pub for_each :
    {A : Type 0} → (A → ReadinessWorker → Handled) → List A → ReadinessWorker → Handled
for_each handler [] w = ok w
for_each handler (a ∷ rest) w = handler a w >>= λ w'. for_each handler rest w'
