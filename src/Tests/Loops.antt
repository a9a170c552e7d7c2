-- ===== src/Tests/Loops.antt =====
-- Runs of the identifiers of the two event loops, and of the master's loop.
use thwip.Prelude.{
  ℕ, ◌+◌, ◌*◌, ◌%◌, ◌≤◌, ◌<◌, ◌^◌, min, ◌≡◌, refl, ◌↔◌, true, false, some, none, [], ◌∷◌, arith,
  All, ok, ◌||◌,
}
use thwip.Readiness.Token.{ConnectionId, upstream, token, from_token, generation_mask}
use thwip.Readiness.Token.Codec.{from_token-eq-some_iff}
use thwip.Readiness.Token.Generations.{iterate, iterate-next_generation}
use thwip.IoUring.Operation.{OperationId, proxy_read, encode, decode}
use thwip.IoUring.Operation.Codec.{IsOperation, decode-eq-some_iff}
use thwip.Master.{
  WorkerSlot, Turn, Supervisor, running, ended, exited, supervise_turn, restart_delay,
  restart_base_delay, restart_max_delay, known, status_pid,
}
use thwip.Master.Delay.{restart_delay-bounds, restart_delay-doubles}
use thwip.Master.Slots.{IsSlot, cpu_ids, supervise_turn-IsSlot}
use thwip.Master.Drain.{OneLess, alive, supervise_turn-drains}

abbrev id : ConnectionId
id = record { slot = 5; generation = 7 }

abbrev id_token : ℕ
id_token = 2 ^ 63 + 2 ^ 62 + 7 * 2 ^ 32 + 5

from_token-eq-some_iff_example :
    (from_token id_token ≡ some (id, upstream)) ↔ (token id upstream ≡ ok id_token)
from_token-eq-some_iff_example = from_token-eq-some_iff id_token id upstream (omega arith)

id_token-read : from_token id_token ≡ some (id, upstream)
unfolding from_token
id_token-read = refl

iterate-next_generation_example :
    (0 < iterate 2 generation_mask)
    × (iterate 2 generation_mask ≤ generation_mask)
    × ((iterate 2 generation_mask ≡ generation_mask) ↔ (2 % generation_mask ≡ 0))
iterate-next_generation_example =
    iterate-next_generation 2 generation_mask (omega arith) (omega arith)

abbrev operation : OperationId
operation = record { slot = 9; generation = 3; kind = proxy_read }

decode-eq-some_iff_example :
    (decode (6 * 2 ^ 48 + 3 * 2 ^ 32 + 9) ≡ some operation)
    ↔ (IsOperation operation × (encode operation ≡ 6 * 2 ^ 48 + 3 * 2 ^ 32 + 9))
decode-eq-some_iff_example =
    decode-eq-some_iff (6 * 2 ^ 48 + 3 * 2 ^ 32 + 9) operation (omega arith)

abbrev slot_0 : WorkerSlot
slot_0 = record { cpu_id = 0; pid = some 100; failures = 0; started_at = 0; restart_at = none }

abbrev supervisor : Supervisor
supervisor = record { workers = slot_0 ∷ []; stopping = false }

abbrev failing_turn : Turn
failing_turn = record {
  shutdown_requested = false;
  kill_fails = λ pid. false;
  waited = ended (exited 100 1);
  now = 50;
  spawn = λ cpu_id. some 200;
}

abbrev waiting_supervisor : Supervisor
waiting_supervisor = record {
  workers =
      record { cpu_id = 0; pid = none; failures = 1; started_at = 0; restart_at = some 150 } ∷ [];
  stopping = false;
}

failing_turn-taken : supervise_turn failing_turn supervisor ≡ running waiting_supervisor
unfolding supervise_turn
failing_turn-taken = refl

supervise_turn-IsSlot_example :
    All IsSlot waiting_supervisor.workers
    × (cpu_ids waiting_supervisor.workers ≡ 0 ∷ [])
    × (((false || false) ≡ true) → false ≡ true)
supervise_turn-IsSlot_example =
    supervise_turn-IsSlot failing_turn supervisor waiting_supervisor (refl, tt) failing_turn-taken

abbrev stopping_supervisor : Supervisor
stopping_supervisor = record { workers = slot_0 ∷ []; stopping = true }

process_known : known (status_pid (exited 100 1)) stopping_supervisor ≡ true
unfolding status_pid
process_known = refl

supervise_turn-drains_example :
    OneLess (alive stopping_supervisor.workers) (supervise_turn failing_turn stopping_supervisor)
supervise_turn-drains_example =
    supervise_turn-drains failing_turn stopping_supervisor (exited 100 1) refl refl process_known

restart_delay-bounds_example :
    (restart_base_delay ≤ restart_delay 2)
    × (restart_delay 2 ≤ restart_delay 5)
    × (restart_delay 5 ≤ restart_max_delay)
restart_delay-bounds_example = restart_delay-bounds 2 5 (omega arith)

restart_delay-doubles_example : restart_delay (3 + 1) ≡ min (2 * restart_delay 3) restart_max_delay
restart_delay-doubles_example = restart_delay-doubles 3 (omega arith)
