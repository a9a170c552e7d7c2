-- ===== src/Readiness/Os.antt =====
-- What the event loop of run/slave/src/runtime/readiness asks of the system, of `mio`, of the slab, of
-- the channels of the standard library, and of the TLS library: the answer to the `n`-th question. No
-- answer is taken from an earlier one.
use mathlib.Core.List.{Perm}
use thwip.Prelude.{ℕ, ◌≤◌, ◌≡◌, ◌≢◌, Bool, true, Option, some, List, length, get_elem?, Result, ok}
use thwip.Prelude.Text.{Bytes}
use thwip.StaticFiles.Serving.{FileSystem, FileStream}
use thwip.Readiness.Token.{ConnectionId}

-- `io::ErrorKind`, as far as the source tells the kinds apart.
pub data IoError : Type 0 where
  would_block interrupted other_error : IoError

-- What `accept` answers, until it answers `WouldBlock`.
pub data Accepted : Type 0 where
  accepted accept_interrupted accept_failed : Accepted

pub record ReadyEvent : Type 0 where
  pub token : ℕ
  pub readable : Bool
  pub writable : Bool
  pub error : Bool
  pub read_closed : Bool
  pub write_closed : Bool

-- An address stands for itself; `none` is a failed lookup.
pub record ResolveResult : Type 0 where
  pub connection_id : ConnectionId
  pub addresses : Option (List ℕ)

-- What the channel of a file's chunks holds.
pub data Received : Type 0 where
  chunk : Bytes → Received
  chunk_failed empty disconnected : Received

pub record Os : Type 0 where
  pub now : ℕ → ℕ
  -- reads of at most so many bytes, and writes of a prefix
  pub read : ℕ → ℕ → Result Bytes IoError
  pub write : ℕ → Bytes → Result ℕ IoError
  pub upstream_reads : ℕ → ℕ → List (Result Bytes IoError)
  pub upstream_write : ℕ → Bytes → Result ℕ IoError
  pub take_error : ℕ → Result (Option IoError) IoError
  pub accepts : ℕ → List Accepted
  pub connects : ℕ → Bool
  -- whether the registration of a socket succeeds
  pub registers : ℕ → Bool
  -- whether the poll, its waker, and the threads of the resolver can be had
  pub sets_up : ℕ → Bool
  pub polls : ℕ → Result (List ReadyEvent) IoError
  pub shutdown_requested : ℕ → Bool
  -- the TLS library
  pub new_session : ℕ → Bool
  pub read_tls : ℕ → Result ℕ IoError
  pub process_new_packets : ℕ → Bool
  pub reader_read : ℕ → ℕ → Result Bytes IoError
  pub writer_write : ℕ → Bytes → Result ℕ IoError
  pub write_tls : ℕ → Result ℕ IoError
  pub wants_write : ℕ → Bool
  pub is_handshaking : ℕ → ConnectionId → Bool
  -- channels
  pub sends_task : ℕ → Bool
  pub resolved : ℕ → List ResolveResult
  pub received : ℕ → FileStream → Received
  -- the file system, and the key of the slab's next entry, by which entries are taken
  pub files : ℕ → FileSystem
  pub vacant_key : List Bool → ℕ
  -- the elements of a hash set, in the order in which it is drained
  pub drain_order : ℕ → List ConnectionId → List ConnectionId

-- What the code relies on: a read gives at most as many bytes as the buffer holds, a write takes at
-- most as many as it is given, and the key of the slab's next entry is a free one, or the next one
-- behind all entries, and a set is drained of its elements, each as often as it holds it.
pub record Contract (os : Os) : Type 0 where
  pub read_fits : (n limit : ℕ) (bytes : Bytes) → os.read n limit ≡ ok bytes → length bytes ≤ limit
  pub reader_read_fits :
      (n limit : ℕ) (bytes : Bytes) → os.reader_read n limit ≡ ok bytes → length bytes ≤ limit
  pub write_fits : (n k : ℕ) (bytes : Bytes) → os.write n bytes ≡ ok k → k ≤ length bytes
  pub writer_write_fits :
      (n k : ℕ) (bytes : Bytes) → os.writer_write n bytes ≡ ok k → k ≤ length bytes
  pub upstream_write_fits :
      (n k : ℕ) (bytes : Bytes) → os.upstream_write n bytes ≡ ok k → k ≤ length bytes
  pub vacant_key_fits : (taken : List Bool) → os.vacant_key taken ≤ length taken
  pub vacant_key_free : (taken : List Bool) → get_elem? taken (os.vacant_key taken) ≢ some true
  pub drain_order_perm : (n : ℕ) (ids : List ConnectionId) → Perm (os.drain_order n ids) ids
