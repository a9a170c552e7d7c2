-- ===== src/Master.antt =====
-- run/master/src/main.rs: the master that starts the workers again. Times are in milliseconds, and one
-- reading of the clock serves one turn of the loop. Signals, `waitpid`, `fork` and the clock are the
-- fields of a `Turn`.
pub mod Delay
pub mod Slots
pub mod Drain
use thwip.Prelude.{
  ℕ, ◌+◌, ◌-◌, ◌*◌, ◌^◌, ◌≡◌, min, Bool, true, false, not, ◌&&◌, ◌||◌, Option, none, some, List, [],
  ◌∷◌, leb, ◌==◌, if◌then◌else◌, all, any,
}

abbrev pub restart_base_delay : ℕ
restart_base_delay = 100

abbrev pub restart_max_delay : ℕ
restart_max_delay = 10 * 1000

abbrev pub restart_stable_window : ℕ
restart_stable_window = 30 * 1000

pub record WorkerSlot : Type 0 where
  pub cpu_id : ℕ
  pub pid : Option ℕ
  pub failures : ℕ
  pub started_at : ℕ
  pub restart_at : Option ℕ

-- `WaitStatus`, where every status that names no ended process is `not_ended`.
pub data WaitStatus : Type 0 where
  exited : ℕ → ℕ → WaitStatus
  signaled : ℕ → WaitStatus
  not_ended : WaitStatus

-- What `waitpid` answers: `no_child` is `ECHILD`.
pub data Waited : Type 0 where
  still_alive no_child wait_failed : Waited
  ended : WaitStatus → Waited

unfoldable pub status_pid : WaitStatus → Option ℕ
status_pid (exited pid code) = some pid
status_pid (signaled pid) = some pid
status_pid not_ended = none

unfoldable pub status_failed : WaitStatus → Bool
status_failed (exited pid code) = not (code == 0)
status_failed (signaled pid) = true
status_failed not_ended = true

unfoldable pub restart_delay : ℕ → ℕ
restart_delay failures = min (restart_base_delay * 2 ^ min (failures - 1) 16) restart_max_delay

-- What one turn of the loop meets: `kill` says for which process the signal fails (other than with
-- `ESRCH`), `spawn` which process a fork for a processor makes.
pub record Turn : Type 0 where
  pub shutdown_requested : Bool
  pub kill_fails : ℕ → Bool
  pub waited : Waited
  pub now : ℕ
  pub spawn : ℕ → Option ℕ

pub record Supervisor : Type 0 where
  pub workers : List WorkerSlot
  pub stopping : Bool

pub data Turned : Type 0 where
  running : Supervisor → Turned
  finished failed : Turned

abbrev pub has_pid : ℕ → WorkerSlot → Bool
has_pid pid worker = elim worker.pid [ none ↦ false | some own ↦ own == pid ]

abbrev pub is_idle : WorkerSlot → Bool
is_idle worker = elim worker.pid [ none ↦ true | some own ↦ false ]

abbrev pub is_pending : WorkerSlot → Bool
is_pending worker = elim worker.restart_at [ none ↦ false | some at_time ↦ true ]

-- A failure counts from one again after a stable run; the count is a `u32` and saturates.
unfoldable pub failures_after : ℕ → WorkerSlot → ℕ
failures_after now worker =
    let failures =
      if leb restart_stable_window (now - worker.started_at) then 0 else worker.failures in
    min (failures + 1) (2 ^ 32 - 1)

-- The slot of a worker that has ended.
unfoldable pub ended_slot : Bool → WaitStatus → ℕ → WorkerSlot → WorkerSlot
unfolding failures_after restart_delay status_failed
ended_slot stopping status now worker =
    if not stopping && status_failed status
    then record {
      cpu_id = worker.cpu_id;
      pid = none;
      failures = failures_after now worker;
      started_at = worker.started_at;
      restart_at = some (now + restart_delay (failures_after now worker));
    }
    else record {
      cpu_id = worker.cpu_id;
      pid = none;
      failures = worker.failures;
      started_at = worker.started_at;
      restart_at = worker.restart_at;
    }

-- The first slot with the process changes; where there is none, nothing does.
unfoldable pub update_ended : Bool → WaitStatus → ℕ → ℕ → List WorkerSlot → List WorkerSlot
unfolding ended_slot
update_ended stopping status now pid [] = []
update_ended stopping status now pid (worker ∷ workers) =
    let rest = update_ended stopping status now pid workers in
    if has_pid pid worker then ended_slot stopping status now worker ∷ workers else worker ∷ rest

abbrev pub is_due : ℕ → WorkerSlot → Bool
is_due now worker = elim worker.restart_at [
  | none ↦ false
  | some at_time ↦ is_idle worker && leb at_time now
]

abbrev pub spawned : ℕ → ℕ → WorkerSlot → WorkerSlot
spawned now pid worker = record {
  cpu_id = worker.cpu_id;
  pid = some pid;
  failures = worker.failures;
  started_at = now;
  restart_at = none;
}

abbrev pub with_first : Option WorkerSlot → Option (List WorkerSlot) → Option (List WorkerSlot)
with_first (some worker) (some workers) = some (worker ∷ workers)
with_first none workers = none
with_first (some worker) none = none

abbrev pub restart_slot : Turn → WorkerSlot → Option WorkerSlot
restart_slot turn worker =
    if is_due turn.now worker
    then elim (turn.spawn worker.cpu_id) [
      | none ↦ none
      | some pid ↦ some (spawned turn.now pid worker)
    ]
    else some worker

-- The workers that are due are started again; `none` where a fork fails.
unfoldable pub restart_due : Turn → List WorkerSlot → Option (List WorkerSlot)
restart_due turn [] = some []
restart_due turn (worker ∷ workers) =
    with_first (restart_slot turn worker) (restart_due turn workers)

abbrev pub kill_failed : Turn → List WorkerSlot → Bool
kill_failed turn workers =
    any (λ w. elim w.pid [ none ↦ false | some pid ↦ turn.kill_fails pid ]) workers

abbrev pub restarted : Option (List WorkerSlot) → Turned
restarted none = failed
restarted (some workers) =
    if all (λ w. is_idle w && not (is_pending w)) workers
    then finished
    else running (record { workers = workers; stopping = false })

abbrev pub drained : Supervisor → Turned
drained supervisor = if all is_idle supervisor.workers then finished else running supervisor

-- The loop's turn after `waitpid`.
unfoldable pub settle : Turn → Supervisor → Turned
unfolding restart_due
settle turn supervisor =
    if supervisor.stopping
    then drained supervisor
    else restarted (restart_due turn supervisor.workers)

abbrev pub note_ended : Turn → WaitStatus → Option ℕ → Supervisor → Supervisor
note_ended turn status none supervisor = supervisor
note_ended turn status (some pid) supervisor = record {
  workers = update_ended supervisor.stopping status turn.now pid supervisor.workers;
  stopping = supervisor.stopping;
}

abbrev pub known : Option ℕ → Supervisor → Bool
known none supervisor = false
known (some pid) supervisor = any (has_pid pid) supervisor.workers

-- A status that belongs to no worker starts the next turn at once; one that does goes on.
unfoldable pub reap : Turn → Waited → Supervisor → Turned
unfolding update_ended status_pid settle
reap turn still_alive supervisor = settle turn supervisor
reap turn no_child supervisor = settle turn supervisor
reap turn wait_failed supervisor = failed
reap turn (ended status) supervisor =
    if known (status_pid status) supervisor
    then settle turn (note_ended turn status (status_pid status) supervisor)
    else running supervisor

unfoldable pub supervise_turn : Turn → Supervisor → Turned
unfolding reap
supervise_turn turn supervisor =
    if turn.shutdown_requested && not supervisor.stopping
    then (if kill_failed turn supervisor.workers
        then failed
        else reap turn turn.waited (record { workers = supervisor.workers; stopping = true }))
    else reap turn turn.waited supervisor

-- `supervise_workers` for the turns it takes: `none` if it has not returned after them, else whether
-- it succeeded.
abbrev pub resume : (Supervisor → Option Bool) → Turned → Option Bool
resume next finished = some true
resume next failed = some false
resume next (running supervisor) = next supervisor

unfoldable pub supervise_workers : List Turn → Supervisor → Option Bool
unfolding supervise_turn
supervise_workers [] supervisor = none
supervise_workers (turn ∷ turns) supervisor =
    resume (supervise_workers turns) (supervise_turn turn supervisor)
