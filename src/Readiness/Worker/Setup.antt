-- ===== src/Readiness/Worker/Setup.antt =====
-- run/slave/src/runtime/readiness/worker.rs: the worker at its start, from the context of
-- run/slave/src/runtime/mod.rs.
use thwip.Prelude.{
  ℕ, false, not, ◌&&◌, Option, none, some, List, [], ◌∷◌, ◌==◌, if◌then◌else◌, length, get_elem?,
  map, ok, err,
}
use thwip.Config.{Server, Groups}
use thwip.LoadBalancer.{with_groups}
use thwip.Readiness.Connection.{ProxyLimits}
use thwip.Readiness.Os.{Os}
use thwip.Readiness.Worker.{
  ReadinessWorker, RegisteredListener, WorkerLimits, WorkerMetrics, io_failure, Handled, asks,
}
use thwip.Readiness.Worker.Loop.{Turned, failed, run}

-- `BoundListenerGroup`; the socket and its address belong to the system.
pub record BoundListenerGroup : Type 0 where
  pub default_server : ℕ
  pub server_indices : List ℕ

-- A server's certificates come with the time that a handshake may take.
pub record WorkerContext : Type 0 where
  pub listener_groups : List BoundListenerGroup
  pub servers : List Server
  pub ssl_configs : List (Option ℕ)
  pub limits : WorkerLimits
  pub proxy_limits : ProxyLimits
  pub dns_timeout : ℕ
  pub metrics : WorkerMetrics
  pub upstream_groups : Groups

-- `ssl_configs.get(default_server).cloned().flatten()`
abbrev pub ssl_of : List (Option ℕ) → ℕ → Option ℕ
ssl_of ssl_configs server = elim (get_elem? ssl_configs server) [ none ↦ none | some ssl ↦ ssl ]

abbrev pub registered_listener : List (Option ℕ) → BoundListenerGroup → RegisteredListener
registered_listener ssl_configs listener = record {
  default_server = listener.default_server;
  server_indices = listener.server_indices;
  ssl = ssl_of ssl_configs listener.default_server;
}

abbrev pub initial_worker : WorkerContext → ReadinessWorker
initial_worker context = record {
  listeners = map (registered_listener context.ssl_configs) context.listener_groups;
  connections = [];
  generations = [];
  pending_writes = [];
  pending_upstream_writes = [];
  pending_upstream_reads = [];
  servers = context.servers;
  limits = context.limits;
  proxy_limits = context.proxy_limits;
  dns_timeout = context.dns_timeout;
  metrics = context.metrics;
  balancer = with_groups context.upstream_groups;
  draining = false;
  drain_started_at = none;
  asked = 3;
}

unfoldable pub register_all : Os → List RegisteredListener → ReadinessWorker → Handled
register_all os [] w = ok w
register_all os (listener ∷ listeners) w =
    let rest = register_all os listeners (asks w) in
    if os.registers w.asked then rest else err io_failure

-- `ReadinessWorker::new`
unfoldable pub new_worker : Os → WorkerContext → Handled
unfolding with_groups register_all
new_worker os context =
    let w = initial_worker context in
    if not (os.sets_up 0 && os.sets_up 1 && os.sets_up 2)
    then err io_failure
    else if not (length context.ssl_configs == length context.servers)
    then err io_failure
    else register_all os w.listeners w

abbrev pub run_or_fail : Os → ℕ → Handled → Turned
run_or_fail os turns (ok w) = run os turns w
run_or_fail os turns (err e) = failed e

-- `run`: a new worker, and at most so many turns of its loop.
unfoldable pub run_worker : Os → ℕ → WorkerContext → Turned
unfolding new_worker run
run_worker os turns context = run_or_fail os turns (new_worker os context)
