-- ===== src/Master/Slots.antt =====
-- The slots of the master's loop (run/master/src/main.rs): what every turn keeps.
use thwip.Prelude.{
  ℕ, ◌≡◌, refl, sym, ◌∙◌, Bool, true, false, not, ◌&&◌, ◌||◌, Option, none, some, List, [], ◌∷◌,
  map, if◌then◌else◌, all, All, arith, Bool-cases, inl, inr, ◌⊎◌,
}
use mathlib.Core.Path.{subst}
use thwip.Master.{
  WorkerSlot, WaitStatus, Waited, still_alive, no_child, wait_failed, ended, Turn, Supervisor,
  running, finished, failed, status_pid, ended_slot, update_ended, is_idle, is_pending,
  restart_slot, with_first, restart_due, settle, note_ended, known, reap, supervise_turn,
  kill_failed, drained, restarted,
}

-- A worker that runs waits for no restart.
abbrev pub IsSlot : WorkerSlot → Type 0
IsSlot worker = (is_idle worker || not (is_pending worker)) ≡ true

abbrev pub cpu_ids : List WorkerSlot → List ℕ
cpu_ids workers = map (λ w. w.cpu_id) workers

-- Slots made of the same processors.
abbrev Keeps : List WorkerSlot → List WorkerSlot → Type 0
Keeps before after = All IsSlot after × (cpu_ids after ≡ cpu_ids before)

ended_slot-IsSlot :
    (stopping : Bool) (status : WaitStatus) (now : ℕ) (worker : WorkerSlot)
    → IsSlot (ended_slot stopping status now worker)
      × ((ended_slot stopping status now worker).cpu_id ≡ worker.cpu_id)
unfolding ended_slot
ended_slot-IsSlot stopping status now worker = ground arith

update_ended-Keeps :
    (stopping : Bool) (status : WaitStatus) (now pid : ℕ) (workers : List WorkerSlot)
    → All IsSlot workers
    → Keeps workers (update_ended stopping status now pid workers)
unfolding update_ended
update_ended-Keeps stopping status now pid [] h = (tt, refl)
update_ended-Keeps stopping status now pid (w ∷ ws) (h, hs) = ground (
  arith,
  ended_slot-IsSlot stopping status now w,
  update_ended-Keeps stopping status now pid ws hs,
)

restart_due-Keeps :
    (turn : Turn) (workers after : List WorkerSlot)
    → All IsSlot workers
    → restart_due turn workers ≡ some after
    → Keeps workers after
unfolding restart_due
restart_due-Keeps turn [] after h e = ground arith
restart_due-Keeps turn (w ∷ ws) after (h, hs) e =
    go (restart_due turn ws) (λ rest. restart_due-Keeps turn ws rest hs) e
  where
    go :
        (rest : Option (List WorkerSlot))
        → ((tail : List WorkerSlot) → rest ≡ some tail → Keeps ws tail)
        → with_first (restart_slot turn w) rest ≡ some after
        → Keeps (w ∷ ws) after
    go none ih k = ground arith
    go (some tail) ih k = let kept = ih tail refl in ground (arith, kept)

-- What a turn that goes on leaves of a supervisor.
abbrev Follows : Supervisor → Supervisor → Type 0
Follows before after =
    Keeps before.workers after.workers × (before.stopping ≡ true → after.stopping ≡ true)

drained-Follows :
    (before after : Supervisor)
    → All IsSlot before.workers
    → drained before ≡ running after
    → Follows before after
drained-Follows before after slots h = go (all is_idle before.workers) h
  where
    go :
        (b : Bool) → (if b then finished else running before) ≡ running after → Follows before after
    go true k = cc
    go false k = let e : before ≡ after = cc in subst (Follows before) e ((slots, refl), λ s. s)

restarted-Follows :
    (workers : Option (List WorkerSlot)) (before after : Supervisor)
    → before.stopping ≡ false
    → ((tail : List WorkerSlot) → workers ≡ some tail → Keeps before.workers tail)
    → restarted workers ≡ running after
    → Follows before after
restarted-Follows none before after s kept h = cc
restarted-Follows (some workers) before after s kept h =
    go (all (λ w. is_idle w && not (is_pending w)) workers) h
  where
    next : Supervisor
    next = record { workers = workers; stopping = false }

    go : (b : Bool) → (if b then finished else running next) ≡ running after → Follows before after
    go true k = cc
    go false k = let e : next ≡ after = cc in subst (Follows before) e (kept workers refl, λ t. cc)

settle-Follows :
    (turn : Turn) (before after : Supervisor)
    → All IsSlot before.workers
    → settle turn before ≡ running after
    → Follows before after
unfolding settle
settle-Follows turn before after slots h = go (Bool-cases before.stopping)
  where
    go : (before.stopping ≡ true) ⊎ (before.stopping ≡ false) → Follows before after
    go (inl e) = drained-Follows before after slots (sym (rw e refl) ∙ h)
    go (inr e) =
        restarted-Follows (restart_due turn before.workers) before after e
          (λ workers. restart_due-Keeps turn before.workers workers slots) (sym (rw e refl) ∙ h)

update-Follows :
    (turn : Turn) (status : WaitStatus) (pid : Option ℕ) (before : Supervisor)
    → All IsSlot before.workers
    → Follows before (note_ended turn status pid before)
update-Follows turn status none before slots = ((slots, refl), λ h. h)
update-Follows turn status (some pid) before slots =
    (update_ended-Keeps before.stopping status turn.now pid before.workers slots, λ h. h)

Follows-trans : (a b c : Supervisor) → Follows a b → Follows b c → Follows a c
Follows-trans a b c ((_, e), s) ((slots, e'), s') = ((slots, e' ∙ e), λ h. s' (s h))

reap-Follows :
    (turn : Turn) (waited : Waited) (before after : Supervisor)
    → All IsSlot before.workers
    → reap turn waited before ≡ running after
    → Follows before after
unfolding reap
reap-Follows turn still_alive before after slots h = settle-Follows turn before after slots h
reap-Follows turn no_child before after slots h = settle-Follows turn before after slots h
reap-Follows turn wait_failed before after slots h = cc
reap-Follows turn (ended status) before after slots h = go (known (status_pid status) before) h
  where
    noted : Supervisor
    noted = note_ended turn status (status_pid status) before

    go :
        (b : Bool)
        → (if b then settle turn noted else running before) ≡ running after
        → Follows before after
    go true k =
        let first : Follows before noted =
          update-Follows turn status (status_pid status) before slots in
        Follows-trans before noted after first (settle-Follows turn noted after first.0.0 k)
    go false k = let e : before ≡ after = cc in subst (Follows before) e ((slots, refl), λ s. s)

-- A turn that goes on keeps the slots: there is one for each processor as before, a worker that runs
-- waits for no restart, and a shutdown that has begun stays.
pub supervise_turn-IsSlot :
    (turn : Turn) (before after : Supervisor)
    → All IsSlot before.workers
    → supervise_turn turn before ≡ running after
    → All IsSlot after.workers
      × (cpu_ids after.workers ≡ cpu_ids before.workers)
      × (((turn.shutdown_requested || before.stopping) ≡ true) → after.stopping ≡ true)
unfolding supervise_turn
supervise_turn-IsSlot turn before after slots h =
    go (turn.shutdown_requested && not before.stopping) (kill_failed turn before.workers) refl h
  where
    begun : Supervisor
    begun = record { workers = before.workers; stopping = true }

    asks : (a b : Bool) → (a && not b) ≡ false → (a || b) ≡ true → b ≡ true
    asks a b e s = ground arith

    go :
        (asked fails : Bool)
        → (turn.shutdown_requested && not before.stopping) ≡ asked
        → (if asked
            then (if fails then failed else reap turn turn.waited begun)
            else reap turn turn.waited before)
          ≡ running after
        → All IsSlot after.workers
          × (cpu_ids after.workers ≡ cpu_ids before.workers)
          × (((turn.shutdown_requested || before.stopping) ≡ true) → after.stopping ≡ true)
    go true true e k = cc
    go true false e k =
        let ((kept, cpus), stops) = reap-Follows turn turn.waited begun after slots k in
        (kept, cpus, λ s. stops refl)
    go false fails e k =
        let ((kept, cpus), stops) = reap-Follows turn turn.waited before after slots k in
        (kept, cpus, λ s. stops (asks turn.shutdown_requested before.stopping e s))
