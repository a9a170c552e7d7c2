-- ===== src/Tests/System.antt =====
-- A system for runs of the readiness worker, with the contract that it keeps.
use thwip.Prelude.{
  ℕ, suc, ◌+◌, ◌^◌, ◌≤◌, ◌≡◌, ◌≢◌, ap, Bool, true, false, none, some, List, [], ◌∷◌, arith, length,
  take, length-take, get_elem?, Result, ok, err,
}
use mathlib.Core.List.Perm
use thwip.Prelude.Text.{Bytes, codes}
use thwip.StaticFiles.Serving.{FileSystem, regular}
use thwip.Readiness.Token.{ConnectionId}
use thwip.Readiness.Os.{Os, Contract, IoError, would_block, accepted, ReadyEvent, empty}
use thwip.Readiness.Worker.Accepting.{taken}

-- A system on which everything succeeds, where every client sends the same request.
abbrev pub request : Bytes
request = codes "GET / HTTP/1.1\r\nHost: a\r\n\r\n"

abbrev pub first_free : List Bool → ℕ
first_free [] = 0
first_free (false ∷ taken) = 0
first_free (true ∷ taken) = suc (first_free taken)

abbrev pub files : FileSystem
files = record {
  canonicalize = λ path. ok path;
  metadata = λ path. ok (record { kind = regular; len = 0; modified = none });
  read = λ path. ok [];
  content_type = λ path. codes "text/plain";
}

-- The slot 0 in its first generation.
abbrev pub first : ConnectionId
first = record { slot = 0; generation = 1 }

abbrev pub ready : ℕ → ReadyEvent
ready t = record {
  token = t;
  readable = true;
  writable = true;
  error = false;
  read_closed = false;
  write_closed = false;
}

abbrev pub first_token : ℕ
first_token = 2 ^ 63 + 2 ^ 32

abbrev pub os : Os
os = record {
  now = λ n. 1000 + n;
  read = λ n limit. ok (take limit request);
  write = λ n bytes. ok (length bytes);
  upstream_reads = λ n limit. err would_block ∷ [];
  upstream_write = λ n bytes. ok (length bytes);
  take_error = λ n. ok none;
  accepts = λ n. accepted ∷ accepted ∷ [];
  connects = λ n. true;
  registers = λ n. true;
  sets_up = λ n. true;
  polls = λ n. ok (ready 0 ∷ ready first_token ∷ []);
  shutdown_requested = λ n. false;
  new_session = λ n. true;
  read_tls = λ n. ok 1;
  process_new_packets = λ n. true;
  reader_read = λ n limit. ok (take limit request);
  writer_write = λ n bytes. ok (length bytes);
  write_tls = λ n. ok 1;
  wants_write = λ n. false;
  is_handshaking = λ n id. false;
  sends_task = λ n. true;
  resolved = λ n. [];
  received = λ n stream. empty;
  files = λ n. files;
  vacant_key = first_free;
  drain_order = λ n ids. ids;
}

ok-injective : {A : Type 0} (a b : A) → Path (Result A IoError) (ok a) (ok b) → a ≡ b
ok-injective a b h = cc

take-fits : (n limit : ℕ) (bytes : Bytes) → os.read n limit ≡ ok bytes → length bytes ≤ limit
take-fits n limit bytes h =
    let same = ap length (ok-injective (take limit request) bytes h) in
    omega (arith, length-take limit request)

all-fits : (n k : ℕ) (bytes : Bytes) → os.write n bytes ≡ ok k → k ≤ length bytes
all-fits n k bytes h = let same = ok-injective (length bytes) k h in omega arith

first_free-fits : (taken : List Bool) → first_free taken ≤ length taken
first_free-fits [] = omega arith
first_free-fits (false ∷ taken) = omega arith
first_free-fits (true ∷ taken) = omega (arith, first_free-fits taken)

first_free-free : (taken : List Bool) → get_elem? taken (first_free taken) ≢ some true
first_free-free [] h = cc
first_free-free (false ∷ taken) h = cc
first_free-free (true ∷ taken) h = first_free-free taken h

pub contract : Contract os
contract = record {
  read_fits = take-fits;
  reader_read_fits = take-fits;
  write_fits = all-fits;
  writer_write_fits = all-fits;
  upstream_write_fits = all-fits;
  vacant_key_fits = first_free-fits;
  vacant_key_free = first_free-free;
  drain_order_perm = λ n ids. Perm.refl ids;
}
