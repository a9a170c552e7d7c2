-- ===== src/Master/Drain.antt =====
-- The shutdown of the master's loop (run/master/src/main.rs): how soon it ends.
use thwip.Prelude.{
  ℕ, zero, suc, ◌<◌, ◌≡◌, refl, Bool, true, false, not, ◌&&◌, Option, none, some, List, [], ◌∷◌,
  ◌==◌, if◌then◌else◌, all, any, arith, ◌⊎◌, inl, inr,
}
use thwip.Master.{
  WorkerSlot, WaitStatus, ended, Turn, Supervisor, Turned, running, finished, status_pid,
  ended_slot, update_ended, has_pid, is_idle, drained, settle, note_ended, known, reap,
  supervise_turn,
}

-- How many workers run.
abbrev pub alive : List WorkerSlot → ℕ
alive [] = 0
alive (w ∷ ws) = if is_idle w then alive ws else suc (alive ws)

ended_slot-idle :
    (stopping : Bool) (status : WaitStatus) (now : ℕ) (w : WorkerSlot)
    → is_idle (ended_slot stopping status now w) ≡ true
unfolding ended_slot
ended_slot-idle stopping status now w = ground arith

alive-update_ended :
    (stopping : Bool) (status : WaitStatus) (now pid : ℕ) (workers : List WorkerSlot)
    → any (has_pid pid) workers ≡ true
    → alive workers ≡ suc (alive (update_ended stopping status now pid workers))
unfolding update_ended
alive-update_ended stopping status now pid [] h = cc
alive-update_ended stopping status now pid (w ∷ ws) h =
    ground
      (arith, ended_slot-idle stopping status now w, alive-update_ended stopping status now pid ws)

all-is_idle : (workers : List WorkerSlot) → all is_idle workers ≡ (alive workers == 0)
all-is_idle [] = refl
all-is_idle (w ∷ ws) = ground (arith, all-is_idle ws)

-- Of `n` workers that ran one is gone: the loop has returned, or the others run on.
abbrev pub OneLess : ℕ → Turned → Type 0
OneLess n turned =
    ((n ≡ 1) × (turned ≡ finished))
    ⊎ ((next : Supervisor) × (turned ≡ running next)
        × (next.stopping ≡ true)
        × (0 < alive next.workers)
        × (n ≡ suc (alive next.workers)))

drained-cases :
    (n : ℕ) (s : Supervisor) → n ≡ suc (alive s.workers) → s.stopping ≡ true → OneLess n (drained s)
drained-cases n s e stopping = go (alive s.workers) refl
  where
    go : (m : ℕ) → alive s.workers ≡ m → OneLess n (drained s)
    go zero k = inl (omega arith, rw (all-is_idle s.workers, k) refl)
    go (suc m) k =
        let some_run : (alive s.workers == 0) ≡ false = ground arith in
        inr (s, rw (all-is_idle s.workers, some_run) refl, stopping, omega arith, e)

count-note_ended :
    (turn : Turn) (status : WaitStatus) (pid : Option ℕ) (s : Supervisor)
    → known pid s ≡ true
    → alive s.workers ≡ suc (alive (note_ended turn status pid s).workers)
count-note_ended turn status none s h = cc
count-note_ended turn status (some pid) s h =
    alive-update_ended s.stopping status turn.now pid s.workers h

note_ended-stopping :
    (turn : Turn) (status : WaitStatus) (pid : Option ℕ) (s : Supervisor)
    → s.stopping ≡ true
    → (note_ended turn status pid s).stopping ≡ true
note_ended-stopping turn status none s h = h
note_ended-stopping turn status (some pid) s h = h

supervise_turn-stopping :
    (turn : Turn) (s : Supervisor) (status : WaitStatus)
    → s.stopping ≡ true
    → turn.waited ≡ ended status
    → known (status_pid status) s ≡ true
    → supervise_turn turn s ≡ drained (note_ended turn status (status_pid status) s)
unfolding supervise_turn reap settle
supervise_turn-stopping turn s status stopping waited found =
    let still = note_ended-stopping turn status (status_pid status) s stopping in
    let asked : (turn.shutdown_requested && not s.stopping) ≡ false = ground arith in
    rw (supervise_turn, asked, waited, reap, found, settle, still) refl

-- While it shuts down, a turn that reaps a worker's process leaves one worker less that runs, and the
-- loop returns with the last of them.
pub supervise_turn-drains :
    (turn : Turn) (supervisor : Supervisor) (status : WaitStatus)
    → supervisor.stopping ≡ true
    → turn.waited ≡ ended status
    → known (status_pid status) supervisor ≡ true
    → OneLess (alive supervisor.workers) (supervise_turn turn supervisor)
supervise_turn-drains turn supervisor status stopping waited found =
    rw (supervise_turn-stopping turn supervisor status stopping waited found) (
      drained-cases _ (note_ended turn status (status_pid status) supervisor)
        (count-note_ended turn status (status_pid status) supervisor found)
        (note_ended-stopping turn status (status_pid status) supervisor stopping))
