-- ===== src/Lib.antt =====
-- Verification of thwip, a web server and reverse proxy of one master process and one worker per
-- processor.
--
-- The master (run/master/src/main.rs) reads the configuration (crates/core/src/runtime/config.rs),
-- starts the workers and starts those again that fail. A worker (run/slave/src) accepts connections,
-- parses the request head (http.rs), selects the virtual host and the location (router.rs), and answers
-- with a fixed response, with a file (static_files.rs), or with what an upstream answers: the upstream
-- is chosen by load_balancer.rs, and the request to it is made by proxy.rs. The event loop of a worker
-- is one of two (runtime/readiness, runtime/io_uring), which name connections and operations by
-- integers that the kernel gives back.
--
-- Files, and the code that each models:
-- - Prelude and the files under it: lists and options over the native numbers, results of fallible code
--   (`Result`, with do blocks for `?`), text as the bytes of its UTF-8 form with the operations of the
--   standard library that the source uses, decimal numbers, and the laws of `|` and `&`.
-- - Http: run/slave/src/http.rs. `parse_request_head`, `body_length` and their helpers keep their names;
--   `parse_at` and `parse_lines` are parts of `parse_request_head`, `content_length_of`, `agree` and
--   `content_length_loop` of `body_length`.
-- - Config: the configuration's data and `Config::validate`.
-- - LoadBalancer: run/slave/src/load_balancer.rs. A hash map is an association list; a panic is `none`.
-- - Router: run/slave/src/router.rs.
-- - Proxy: run/slave/src/proxy.rs.
-- - StaticFiles, and StaticFiles/Serving for what touches the file system: run/slave/src/static_files.rs.
--   The file system and the table of media types are the record `FileSystem`; a stream is the list of
--   the chunks that its thread sends.
-- - Readiness/Token: run/slave/src/runtime/readiness/token.rs.
-- - Readiness/Connection: run/slave/src/runtime/readiness/connection.rs and proxy.rs. What takes a value
--   out of a phase is two functions: one for the value, and one for the connection that is left.
-- - Readiness/Os: what the event loop asks of the system, and of `mio`, `slab`, `rustls` and the channels of
--   the standard library: the record `Os` holds the answer to the n-th question, and `Contract` what the
--   code relies on.
-- - Readiness/Worker: run/slave/src/runtime/readiness/worker.rs. `ReadinessWorker` has the fields of the
--   source's, and the number of questions asked so far. A handler gives the worker that it leaves, or how it
--   ends the loop: with an error, or with a panic, as an index out of bounds is: `slice` and `slice_from` of
--   Prelude/Lists are `none` where the source's ranges panic. Accepting, Reading,
--   Answering, Proxying, Exchanging, Writing, Timers and Loop hold the handlers under the source's names,
--   `run_turn` is one turn of `run`, and Setup the worker's start. A loop within a handler is `repeat` of
--   Prelude/Repeat, of which the rounds end where the source breaks; the helpers of a handler are its
--   branches.
-- - Readiness/Worker/Slab, Closings, Registry, Registration, Requests, Events, Shutdown, and the files under
--   Invariant: proofs on the worker.
-- - IoUring/Operation: run/slave/src/runtime/io_uring/operation.rs, and the generations of connection.rs.
-- - Master: run/master/src/main.rs. `supervise_turn` is one turn of the loop of `supervise_workers`;
--   what the system answers in it (`waitpid`, `kill`, `fork`, the clock) is the record `Turn`.
-- - Tests: runs of the definitions on concrete inputs.
--
-- Bounds and fuel: a `usize` has 64 bits. Loops over text and lists are structural recursion. The
-- digits of a number run on fuel, the number plus one, and the chunks of a stream on fuel, the bytes
-- that remain: each round takes at least one away. `supervise_workers` runs on the list of its turns, and
-- the worker's `run` for any number of turns. Reads and writes for one event have the source's own bounds,
-- MAX_READS_PER_EVENT and MAX_WRITES_PER_EVENT. Times are numbers of milliseconds, whose difference stops
-- at 0, and counters wrap around at 64 bits, as the source's do.
--
-- Not modelled: sockets, TLS, threads and TOML, which are libraries and system calls; which readiness a
-- socket is registered for, and its deregistration, of which a failure is only logged; the handlers of the
-- io_uring event loop; the worker's settings; the start-up code.
pub mod Prelude
pub mod Http
pub mod Config
pub mod LoadBalancer
pub mod Router
pub mod Proxy
pub mod StaticFiles
pub mod Readiness
pub mod IoUring
pub mod Master
pub mod Tests
