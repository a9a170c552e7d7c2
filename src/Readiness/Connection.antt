-- ===== src/Readiness/Connection.antt =====
-- run/slave/src/runtime/readiness/connection.rs and proxy.rs: one client connection and its phases.
-- The socket itself belongs to the system; an `Instant` is a number of milliseconds.
use thwip.Prelude.{ℕ, ◌-◌, Bool, true, false, ◌&&◌, Option, none, some, [], leb}
use thwip.Prelude.Text.{Bytes}
use thwip.Http.{RequestHead}
use thwip.StaticFiles.Serving.{FileStream}

pub data ProxyPhase : Type 0 where
  connecting writing_request reading_response : ProxyPhase

pub record ProxyLimits : Type 0 where
  pub connect_timeout : ℕ
  pub write_timeout : ℕ
  pub read_timeout : ℕ

unfoldable pub timeout : ProxyPhase → ProxyLimits → ℕ
timeout connecting limits = limits.connect_timeout
timeout writing_request limits = limits.write_timeout
timeout reading_response limits = limits.read_timeout

-- The upstream half of a proxied connection.
pub record ProxyState : Type 0 where
  pub request_buffer : Bytes
  pub request_offset : ℕ
  pub upstream_eof : Bool
  pub response_started : Bool
  pub phase : ProxyPhase
  pub phase_progress_at : ℕ

-- `ProxyState::new`
unfoldable pub new_proxy : Bytes → ℕ → ProxyState
new_proxy request_buffer now = record {
  request_buffer = request_buffer;
  request_offset = 0;
  upstream_eof = false;
  response_started = false;
  phase = connecting;
  phase_progress_at = now;
}

unfoldable pub transition : ProxyPhase → ℕ → ProxyState → ProxyState
transition phase now proxy = record proxy { phase = phase; phase_progress_at = now }

unfoldable pub record_progress : ℕ → ProxyState → ProxyState
record_progress now proxy = record proxy { phase_progress_at = now }

pub record PendingRequest : Type 0 where
  pub head : RequestHead
  pub body_start : ℕ
  pub body_end : ℕ

pub record ResolvingState : Type 0 where
  pub request_buffer : Bytes
  pub started_at : ℕ

pub data ConnectionPhase : Type 0 where
  reading : (pending_request : Option PendingRequest) → ConnectionPhase
  writing_response : ConnectionPhase
  resolving : ResolvingState → ConnectionPhase
  proxying : ProxyState → ConnectionPhase

-- The session of the TLS library is left to the system; its clock stays here.
pub record SslSession : Type 0 where
  pub started_at : ℕ
  pub handshake_timeout : ℕ

pub record Connection : Type 0 where
  pub read_buffer : Bytes
  pub write_buffer : Bytes
  pub write_offset : ℕ
  pub listener_group : ℕ
  pub last_progress : ℕ
  pub generation : ℕ
  pub static_stream : Option FileStream
  pub ssl : Option SslSession
  pub ssl_closing : Bool
  pub phase : ConnectionPhase

-- `Connection::new`, once the TLS session is there.
unfoldable pub new_connection : ℕ → ℕ → Option SslSession → ℕ → Connection
new_connection listener_group generation ssl now = record {
  read_buffer = [];
  write_buffer = [];
  write_offset = 0;
  listener_group = listener_group;
  last_progress = now;
  generation = generation;
  static_stream = none;
  ssl = ssl;
  ssl_closing = false;
  phase = reading none;
}

-- The TLS library says whether the handshake still runs.
unfoldable pub ssl_handshake_expired : Bool → ℕ → Connection → Bool
ssl_handshake_expired is_handshaking now connection = elim connection.ssl [
  | none ↦ false
  | some ssl ↦ is_handshaking && leb ssl.handshake_timeout (now - ssl.started_at)
]

abbrev pub phase_is_proxying : ConnectionPhase → Bool
phase_is_proxying (proxying proxy) = true
phase_is_proxying (reading pending) = false
phase_is_proxying writing_response = false
phase_is_proxying (resolving resolution) = false

abbrev pub phase_is_resolving : ConnectionPhase → Bool
phase_is_resolving (resolving resolution) = true
phase_is_resolving (reading pending) = false
phase_is_resolving writing_response = false
phase_is_resolving (proxying proxy) = false

abbrev pub phase_is_handling : ConnectionPhase → Bool
phase_is_handling (resolving resolution) = true
phase_is_handling (proxying proxy) = true
phase_is_handling (reading pending) = false
phase_is_handling writing_response = false

abbrev pub phase_is_writing : ConnectionPhase → Bool
phase_is_writing writing_response = true
phase_is_writing (reading pending) = false
phase_is_writing (resolving resolution) = false
phase_is_writing (proxying proxy) = false

abbrev pub is_proxying : Connection → Bool
is_proxying connection = phase_is_proxying connection.phase

abbrev pub is_resolving : Connection → Bool
is_resolving connection = phase_is_resolving connection.phase

abbrev pub is_handling_request : Connection → Bool
is_handling_request connection = phase_is_handling connection.phase

abbrev pub is_writing_response : Connection → Bool
is_writing_response connection = phase_is_writing connection.phase

abbrev pub pending_of : ConnectionPhase → Option PendingRequest
pending_of (reading pending) = pending
pending_of writing_response = none
pending_of (resolving resolution) = none
pending_of (proxying proxy) = none

abbrev pub pending_request : Connection → Option PendingRequest
pending_request connection = pending_of connection.phase

abbrev pub with_pending : Option PendingRequest → ConnectionPhase → ConnectionPhase
with_pending pending (reading _) = reading pending
with_pending pending writing_response = writing_response
with_pending pending (resolving resolution) = resolving resolution
with_pending pending (proxying proxy) = proxying proxy

unfoldable pub set_pending_request : PendingRequest → Connection → Connection
set_pending_request request connection = record connection {
  phase = with_pending (some request) connection.phase;
}

-- `take_pending_request`: what it leaves; what it gives is `pending_request`.
unfoldable pub take_pending_request : Connection → Connection
take_pending_request connection = record connection { phase = with_pending none connection.phase }

unfoldable pub begin_response : Connection → Connection
begin_response connection = record connection { phase = writing_response }

unfoldable pub begin_resolving : Bytes → ℕ → Connection → Connection
begin_resolving request_buffer now connection = record connection {
  phase = resolving (record { request_buffer = request_buffer; started_at = now });
}

abbrev pub resolution_of : ConnectionPhase → Option ResolvingState
resolution_of (resolving resolution) = some resolution
resolution_of (reading pending) = none
resolution_of writing_response = none
resolution_of (proxying proxy) = none

abbrev pub resolution : Connection → Option ResolvingState
resolution connection = resolution_of connection.phase

abbrev pub phase_after_resolution : ConnectionPhase → ConnectionPhase
phase_after_resolution (resolving _) = writing_response
phase_after_resolution (reading pending) = reading pending
phase_after_resolution writing_response = writing_response
phase_after_resolution (proxying proxy) = proxying proxy

-- `take_resolution`: what it leaves; what it gives is `resolution`.
unfoldable pub take_resolution : Connection → Connection
take_resolution connection = record connection { phase = phase_after_resolution connection.phase }

unfoldable pub begin_proxy : ProxyState → Connection → Connection
begin_proxy proxy connection = record connection { phase = proxying proxy }

abbrev pub proxy_of : ConnectionPhase → Option ProxyState
proxy_of (proxying proxy) = some proxy
proxy_of (reading pending) = none
proxy_of writing_response = none
proxy_of (resolving resolution) = none

abbrev pub proxy : Connection → Option ProxyState
proxy connection = proxy_of connection.phase

abbrev pub phase_after_proxy : ConnectionPhase → ConnectionPhase
phase_after_proxy (proxying _) = writing_response
phase_after_proxy (reading pending) = reading pending
phase_after_proxy writing_response = writing_response
phase_after_proxy (resolving resolution) = resolving resolution

-- `detach_proxy`: what it leaves; what it gives is `proxy`.
unfoldable pub detach_proxy : Connection → Connection
detach_proxy connection = record connection { phase = phase_after_proxy connection.phase }
