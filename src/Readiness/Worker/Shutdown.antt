-- ===== src/Readiness/Worker/Shutdown.antt =====
-- run/slave/src/runtime/readiness/worker.rs: how the loop of the worker ends when it is told to shut
-- down.
use mathlib.Core.Path.{subst}
use thwip.Prelude.{
  ℕ, zero, suc, ◌-◌, ◌≤◌, ◌≡◌, refl, sym, ap, ◌∙◌, Bool, true, false, not, ◌&&◌, none, some, List,
  [], ◌∷◌, arith, if◌then◌else◌, ◌==◌, ok, err,
}
use thwip.Readiness.Token.{ConnectionId}
use thwip.Readiness.Os.{Os}
use thwip.Readiness.Worker.{
  ReadinessWorker, Handled, asks, entry, count, is_current, remove_connection, forget, ids_where,
}
use thwip.Readiness.Worker.Slab.{
  unless, count-empty, begin_shutdown-entry, close_all_connections-count,
}
use thwip.Readiness.Worker.Timers.{
  remove_all, begin_shutdown, starts_draining, is_quiet, drain_deadline_expired,
  close_all_connections,
}
use thwip.Readiness.Worker.Loop.{
  begin_if_requested, serve, serve_or_finish, Turned, running, finished, failed, to_turned,
  run_turn,
}

remove_connection-draining :
    (id : ConnectionId) (w : ReadinessWorker) → (remove_connection id w).draining ≡ w.draining
unfolding remove_connection
remove_connection-draining id w = go (is_current w id)
  where
    go : (b : Bool) → (if b then forget w id else w).draining ≡ w.draining
    go true = refl
    go false = refl

remove_all-draining :
    (ids : List ConnectionId) (w : ReadinessWorker) → (remove_all ids w).draining ≡ w.draining
unfolding remove_all
remove_all-draining [] w = refl
remove_all-draining (id ∷ ids) w =
    remove_all-draining ids (remove_connection id w) ∙ remove_connection-draining id w

begin_shutdown-draining : (os : Os) (w : ReadinessWorker) → (begin_shutdown os w).draining ≡ true
unfolding begin_shutdown
begin_shutdown-draining os w =
    remove_all-draining (ids_where (λ _. is_quiet) (starts_draining os w)) (starts_draining os w)

-- A shutdown is requested while no connection has anything to write or to stream: the loop returns in
-- this very turn, and has closed all of them.
pub run_turn-quiet :
    (os : Os) (w : ReadinessWorker)
    → os.shutdown_requested w.asked ≡ true
    → w.draining ≡ false
    → ((slot : ℕ) → unless (λ _. is_quiet) slot (entry w.connections slot) ≡ none)
    → (run_turn os w ≡ finished (begin_shutdown os (asks w)))
      × (count (begin_shutdown os (asks w)).connections ≡ 0)
unfolding run_turn
run_turn-quiet os w requested working quiet = (ap (serve_or_finish os) requesting ∙ finishes, empty)
  where
    w' : ReadinessWorker
    w' = begin_shutdown os (asks w)

    empty : count w'.connections ≡ 0
    empty = count-empty w'.connections (λ slot. begin_shutdown-entry os (asks w) slot ∙ quiet slot)

    requesting : begin_if_requested os w ≡ w'
    requesting = rw (requested, working) refl

    finishes : serve_or_finish os w' ≡ finished w'
    finishes = go w'.draining (count w'.connections) (begin_shutdown-draining os (asks w)) empty
      where
        go :
            (b : Bool) (n : ℕ)
            → b ≡ true
            → n ≡ 0
            → (if b && (n == 0)
                then finished w'
                else if drain_deadline_expired os w'
                then finished (close_all_connections w')
                else to_turned (serve os (asks w')))
              ≡ finished w'
        go true zero d e = refl
        go true (suc n) d e = cc
        go false n d e = cc

-- Once the drain timeout has passed since the shutdown began, the loop returns in its next turn, and
-- has closed all connections, whatever is still to be written.
pub run_turn-past_deadline :
    (os : Os) (w : ReadinessWorker) (started : ℕ)
    → w.draining ≡ true
    → w.drain_started_at ≡ some started
    → w.limits.drain_timeout ≤ os.now (suc w.asked) - started
    → (w' : ReadinessWorker) × (run_turn os w ≡ finished w') × (count w'.connections ≡ 0)
unfolding run_turn
run_turn-past_deadline os w started draining since passed =
    subst
      (λ x.
        (w' : ReadinessWorker) × (serve_or_finish os x ≡ finished w') × (count w'.connections ≡ 0))
      (sym waiting)
      (go w.draining draining (count w.connections == 0) refl (drain_deadline_expired os (asks w))
        expired)
  where
    waiting : begin_if_requested os w ≡ asks w
    waiting = go (os.shutdown_requested w.asked) w.draining draining
      where
        go :
            (a b : Bool)
            → b ≡ true
            → (if a && not b then begin_shutdown os (asks w) else asks w) ≡ asks w
        go a false e = cc
        go true true e = refl
        go false true e = refl

    expired : drain_deadline_expired os (asks w) ≡ true
    expired = rw since (ground arith)

    go :
        (a : Bool)
        → a ≡ true
        → (b : Bool) → (count w.connections == 0) ≡ b
        → (d : Bool) → d ≡ true
        → (w' : ReadinessWorker) × ((if a && b
              then finished (asks w)
              else if d
              then finished (close_all_connections (asks w))
              else to_turned (serve os (asks (asks w))))
            ≡ finished w')
          × (count w'.connections ≡ 0)
    go false e' b e d h = cc
    go true e' true e d h = (asks w, refl, ground arith)
    go true e' false e true h =
        (close_all_connections (asks w), refl, close_all_connections-count (asks w))
    go true e' false e false h = cc

abbrev pub IsClosed : Turned → Type 0
IsClosed (running w) = Unit
IsClosed (finished w) = count w.connections ≡ 0
IsClosed (failed e) = Unit

-- A loop that returns has no connection left.
pub run_turn-IsClosed : (os : Os) (w : ReadinessWorker) → IsClosed (run_turn os w)
unfolding run_turn
run_turn-IsClosed os w =
    go (w'.draining) (count w'.connections == 0) refl (drain_deadline_expired os w')
  where
    w' : ReadinessWorker
    w' = begin_if_requested os w

    served : (r : Handled) → IsClosed (to_turned r)
    served (ok x) = tt
    served (err e) = tt

    go :
        (a b : Bool)
        → (count w'.connections == 0) ≡ b
        → (d : Bool)
        → IsClosed (
            if a && b
            then finished w'
            else if d
            then finished (close_all_connections w')
            else to_turned (serve os (asks w')))
    go true true e d = ground arith
    go true false e true = close_all_connections-count w'
    go true false e false = served (serve os (asks w'))
    go false b e true = close_all_connections-count w'
    go false b e false = served (serve os (asks w'))
