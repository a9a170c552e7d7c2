-- ===== src/Tests/Workers.antt =====
-- Runs of the readiness worker.
use thwip.Prelude.{
  ℕ, zero, suc, ◌+◌, ◌-◌, ◌*◌, ◌^◌, ◌≤◌, ◌<◌, ◌≡◌, ◌≢◌, min, refl, sym, ap, ◌∙◌, Bool, true, false,
  Option, none, some, List, [], ◌∷◌, arith, if◌then◌else◌, length, take, length-take, get_elem?,
  All, Result, ok, err, map,
}
use thwip.Prelude.Text.{Bytes, codes}
use thwip.Config.{Config, prefix, response}
use thwip.Readiness.Token.{client, token}
use thwip.Readiness.Connection.{Connection, reading, writing_response, new_connection}
use thwip.Readiness.Worker.{
  ReadinessWorker, RegisteredListener, entry, current, count, is_current, remove_connection,
}
use thwip.Readiness.Worker.Accepting.{register_connection}
use thwip.Readiness.Worker.Writing.{Local, to_local}
use thwip.Readiness.Worker.Reading.{left, read_loop}
use thwip.Readiness.Worker.Requests.{IsReadEnd, read_loop-IsReadEnd}
use thwip.Readiness.Worker.Timers.{begin_shutdown, is_quiet, close_idle_connections}
use thwip.Readiness.Worker.Loop.{
  Turned, running, finished, failed, dispatch, dispatch_client, run_turn,
}
use thwip.Readiness.Worker.Setup.{WorkerContext, initial_worker, run_worker}
use thwip.Readiness.Worker.Slab.{unless}
use thwip.Readiness.Worker.Closings.{
  ShutdownEntry, IdleEntry, begin_shutdown-ShutdownEntry, close_idle_connections-IdleEntry,
}
use thwip.Readiness.Worker.Registry.{delete, remove_connection-delete}
use thwip.Readiness.Worker.Registration.{next_id, Registered, register_connection-insert}
use thwip.Readiness.Worker.Shutdown.{run_turn-past_deadline}
use thwip.Readiness.Worker.Events.{dispatch-token}
use thwip.Tests.System.{request, first, ready, first_token, os, contract}

abbrev config : Config
config = record {
  servers =
      record {
        server_name = none;
        locations =
            record { matcher = prefix (codes "/"); action = response 200 (codes "hi") } ∷ [];
        listen = 80;
        ssl = none;
      }
      ∷ [];
  upstreams = [];
}

-- A worker for at most one connection.
abbrev context : WorkerContext
context = record {
  listener_groups = record { default_server = 0; server_indices = 0 ∷ [] } ∷ [];
  servers = config.servers;
  ssl_configs = none ∷ [];
  limits = record {
    max_connections = 1;
    max_read_buffer_size = 1024;
    max_write_buffer_size = 1024;
    idle_timeout = 500;
    drain_timeout = 100;
  };
  proxy_limits = record { connect_timeout = 10; write_timeout = 10; read_timeout = 10 };
  dns_timeout = 10;
  metrics = record {
    accepted = 0;
    requests = 0;
    responses = 0;
    bytes_read = 0;
    bytes_written = 0;
    errors = 0;
  };
  upstream_groups = [];
}

-- The worker with a connection, which has waited for 600 milliseconds.
abbrev waiting : Connection
waiting = record {
  read_buffer = [];
  write_buffer = [];
  write_offset = 0;
  listener_group = 0;
  last_progress = 400;
  generation = 1;
  static_stream = none;
  ssl = none;
  ssl_closing = false;
  phase = reading none;
}

-- A connection that has a response to write.
abbrev writing : Connection
writing = record waiting {
  write_buffer = codes "HTTP/1.1 200 OK";
  phase = writing_response;
  generation = 4;
}

abbrev worker : ReadinessWorker
worker = record (initial_worker context) {
  connections = some waiting ∷ some writing ∷ [];
  generations = 1 ∷ 4 ∷ [];
  limits = record context.limits { max_connections = 2 };
}

first_token-registered : token first client ≡ ok first_token
unfolding token
first_token-registered = refl

dispatch-token_example : dispatch os (ready first_token) worker ≡ (
    if is_current worker first
    then dispatch_client os first (ready first_token) worker
    else ok worker)
dispatch-token_example =
    dispatch-token os (ready first_token) first client worker first_token-registered (omega arith)

abbrev listener : RegisteredListener
listener = record { default_server = 0; server_indices = 0 ∷ []; ssl = none }

register_connection-insert_example :
    (current worker (next_id os worker) ≡ none)
    × Registered
        (current worker)
        (current (register_connection os 0 listener worker))
        (next_id os worker)
        (λ ssl. new_connection 0 (next_id os worker).generation ssl (os.now (suc worker.asked)))
register_connection-insert_example = register_connection-insert os 0 listener worker contract

remove_connection-delete_example :
    current (remove_connection first worker) (record { slot = 1; generation = 4 })
    ≡ delete first (current worker) (record { slot = 1; generation = 4 })
remove_connection-delete_example =
    remove_connection-delete first worker (record { slot = 1; generation = 4 })

begin_shutdown-ShutdownEntry_example :
    ShutdownEntry (entry worker.connections 1) (entry (begin_shutdown os worker).connections 1)
begin_shutdown-ShutdownEntry_example = begin_shutdown-ShutdownEntry os worker 1

writing-kept : unless (λ _. is_quiet) 1 (entry worker.connections 1) ≡ some writing
writing-kept = refl

waiting-closed : unless (λ _. is_quiet) 0 (entry worker.connections 0) ≡ none
waiting-closed = refl

close_idle_connections-IdleEntry_example :
    IdleEntry 500
      (os.now worker.asked)
      (os.is_handshaking (suc worker.asked))
      0
      (entry worker.connections 0)
      (entry (close_idle_connections os worker).connections 0)
close_idle_connections-IdleEntry_example = close_idle_connections-IdleEntry os worker 0

abbrev draining : ReadinessWorker
draining = record worker { draining = true; drain_started_at = some 800 }

run_turn-past_deadline_example :
    (w' : ReadinessWorker) × (run_turn os draining ≡ finished w') × (count w'.connections ≡ 0)
run_turn-past_deadline_example = run_turn-past_deadline os draining 800 refl refl (omega arith)

-- A connection that has read half of the head of a request.
abbrev half_read : Local
half_read = to_local worker (record waiting { read_buffer = take 10 request })

read_loop-IsReadEnd_example :
    IsReadEnd (read_loop os 1024 half_read).0 (read_loop os 1024 half_read).1
read_loop-IsReadEnd_example = read_loop-IsReadEnd os 1024 half_read (λ p e. cc)

-- A connection that writes a response takes no request from what it reads.
answering-left :
    (read_loop os 1024 (to_local worker (record waiting { phase = writing_response }))).1 ≡ left
unfolding read_loop thwip.Http.parse_request_head thwip.Http.find_head_end
    thwip.Prelude.Text.starts_with thwip.Prelude.Utf8.is_utf8 thwip.Prelude.Text.split_crlf
    thwip.Prelude.Text.split_ascii_whitespace thwip.Prelude.Text.◌=ᵇ◌ thwip.Prelude.Text.split_once
    thwip.Http.body_length thwip.Prelude.Text.to_lower
answering-left = refl

-- In one turn the connection is accepted, its request read, and the answer queued; the next turn writes
-- it, and closes the connection.
abbrev counted : Turned → List ℕ
counted (running w) =
    w.metrics.accepted ∷ w.metrics.requests ∷ w.metrics.responses ∷ count w.connections ∷ []
counted (finished w) = []
counted (failed e) = []

one_turn : counted (run_worker os 1 context) ≡ 1 ∷ 1 ∷ 0 ∷ 1 ∷ []
unfolding run_worker thwip.Http.parse_request_head thwip.Http.find_head_end
    thwip.Prelude.Text.starts_with thwip.Prelude.Utf8.is_utf8 thwip.Prelude.Text.split_crlf
    thwip.Prelude.Text.split_ascii_whitespace thwip.Prelude.Text.◌=ᵇ◌ thwip.Prelude.Text.split_once
    thwip.Http.body_length thwip.Prelude.Text.to_lower thwip.Router.select_server thwip.Router.route
one_turn = refl

two_turns : counted (run_worker os 2 context) ≡ 1 ∷ 1 ∷ 1 ∷ 0 ∷ []
unfolding run_worker thwip.Http.parse_request_head thwip.Http.find_head_end
    thwip.Prelude.Text.starts_with thwip.Prelude.Utf8.is_utf8 thwip.Prelude.Text.split_crlf
    thwip.Prelude.Text.split_ascii_whitespace thwip.Prelude.Text.◌=ᵇ◌ thwip.Prelude.Text.split_once
    thwip.Http.body_length thwip.Prelude.Text.to_lower thwip.Router.select_server thwip.Router.route
    thwip.Router.response_bytes thwip.Prelude.Text.to_decimal
two_turns = refl
