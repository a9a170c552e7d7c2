-- ===== src/Readiness/Worker/Timers.antt =====
-- run/slave/src/runtime/readiness/worker.rs: timeouts, the streams of files between two events, and the
-- shutdown.
use thwip.Prelude.{
  ℕ, suc, ◌-◌, Bool, true, false, not, ◌&&◌, none, some, List, [], ◌∷◌, leb, length, String,
}
use thwip.Prelude.Text.{Bytes, codes}
use thwip.Readiness.Token.{ConnectionId}
use thwip.Readiness.Connection.{
  Connection, ProxyPhase, connecting, writing_request, reading_response, ProxyLimits, timeout,
  proxy, resolution, is_handling_request, ssl_handshake_expired,
}
use thwip.Readiness.Os.{Os}
use thwip.Readiness.Worker.{
  ReadinessWorker, Handled, asks, current, remove_connection, ids_where, ids_from, for_each,
}
use thwip.Readiness.Worker.Writing.{is_written, advance_static_stream}
use thwip.Readiness.Worker.Proxying.{fail_proxy, fail_resolution}

unfoldable pub remove_all : List ConnectionId → ReadinessWorker → ReadinessWorker
unfolding remove_connection
remove_all [] w = w
remove_all (id ∷ ids) w = remove_all ids (remove_connection id w)

abbrev pub has_stream : Connection → Bool
has_stream c = elim c.static_stream [ none ↦ false | some stream ↦ true ]

-- A connection with nothing to write, and no file to stream.
abbrev pub is_quiet : Connection → Bool
is_quiet c = not (has_stream c) && leb (length c.write_buffer) c.write_offset

abbrev pub starts_draining : Os → ReadinessWorker → ReadinessWorker
starts_draining os w = asks (record w { draining = true; drain_started_at = some (os.now w.asked) })

unfoldable pub begin_shutdown : Os → ReadinessWorker → ReadinessWorker
unfolding ids_from remove_all
begin_shutdown os w = let w' = starts_draining os w in remove_all (ids_where (λ _. is_quiet) w') w'

abbrev pub awaits_chunk : Connection → Bool
awaits_chunk c = has_stream c && is_written c

unfoldable pub pump_static_streams : Os → ReadinessWorker → Handled
unfolding advance_static_stream ids_from for_each
pump_static_streams os w = for_each (advance_static_stream os) (ids_where (λ _. awaits_chunk) w) w

abbrev pub is_idle_connection : ℕ → ℕ → Connection → Bool
is_idle_connection idle_timeout now c =
    not (is_handling_request c) && leb idle_timeout (now - c.last_progress)

-- The idle connections, and then the handshakes that take too long, by one reading of the clock.
abbrev pub close_idle : Os → ReadinessWorker → ReadinessWorker
close_idle os w =
    remove_all (ids_where (λ _. is_idle_connection w.limits.idle_timeout (os.now w.asked)) w)
      (asks (asks w))

abbrev pub handshake_expired : Os → ℕ → ConnectionId → Connection → Bool
handshake_expired os n id c = ssl_handshake_expired (os.is_handshaking (suc n) id) (os.now n) c

unfoldable pub close_idle_connections : Os → ReadinessWorker → ReadinessWorker
unfolding ids_from remove_all ssl_handshake_expired
close_idle_connections os w =
    let w' = close_idle os w in remove_all (ids_where (handshake_expired os w.asked) w') w'

abbrev pub resolution_expired : ℕ → ℕ → Connection → Bool
resolution_expired limit now c = elim (resolution c) [
  | none ↦ false
  | some r ↦ leb limit (now - r.started_at)
]

unfoldable pub close_expired_resolutions : Os → ReadinessWorker → Handled
unfolding ids_from for_each fail_resolution
close_expired_resolutions os w =
    for_each (λ id. fail_resolution os id 504 (codes "upstream DNS resolution timed out"))
      (ids_where (λ _. resolution_expired w.dns_timeout (os.now w.asked)) w) (asks w)

abbrev pub proxy_expired : ProxyLimits → ℕ → Connection → Bool
proxy_expired limits now c = elim (proxy c) [
  | none ↦ false
  | some p ↦ leb (timeout p.phase limits) (now - p.phase_progress_at)
]

abbrev pub timeout_message : ProxyPhase → String
timeout_message connecting = "upstream connect timed out"
timeout_message writing_request = "upstream request write timed out"
timeout_message reading_response = "upstream response timed out"

-- The message of a timeout goes by the phase that the connection was in when the time was taken.
abbrev pub phase_message : ReadinessWorker → ConnectionId → Bytes
phase_message w id = elim (current w id) [
  | none ↦ []
  | some c ↦ elim (proxy c) [ none ↦ [] | some p ↦ codes (timeout_message p.phase) ]
]

unfoldable pub close_expired_proxies : Os → ReadinessWorker → Handled
unfolding ids_from for_each fail_proxy timeout
close_expired_proxies os w =
    for_each (λ id. fail_proxy os id 504 (phase_message w id))
      (ids_where (λ _. proxy_expired w.proxy_limits (os.now w.asked)) w) (asks w)

abbrev pub drain_deadline_expired : Os → ReadinessWorker → Bool
drain_deadline_expired os w = elim w.drain_started_at [
  | none ↦ false
  | some started ↦ leb w.limits.drain_timeout (os.now w.asked - started)
]

unfoldable pub close_all_connections : ReadinessWorker → ReadinessWorker
unfolding ids_from remove_all
close_all_connections w = remove_all (ids_where (λ _ c. true) w) w
