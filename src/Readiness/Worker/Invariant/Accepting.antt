-- ===== src/Readiness/Worker/Invariant/Accepting.antt =====
-- `accept_ready` of run/slave/src/runtime/readiness/worker.rs keeps the worker sound, and within its
-- limit of connections.
use thwip.Prelude.{
  ℕ, zero, suc, ◌≤◌, ◌≡◌, refl, Bool, true, false, Option, none, some, List, [], ◌∷◌, ◌++◌, arith,
  ltb, leb, if◌then◌else◌, length, get_elem?, set, map, All, All-append, Result, ok, err,
}
use thwip.Readiness.Token.{TokenError, client, token, slot_mask, next_generation}
use thwip.Readiness.Connection.{Connection, SslSession, new_connection}
use thwip.Readiness.Os.{Os, Accepted, accepted, accept_interrupted, accept_failed}
use thwip.Readiness.Worker.{ReadinessWorker, RegisteredListener, Handled, panic, asks, count}
use thwip.Readiness.Worker.Accepting.{
  taken, insert_entry, grow, generation_at, with_session, insert_connection, register_connection,
  counted_accept, accept_all, accept_ready,
}
use thwip.Readiness.Worker.Invariant.{
  IsConnection, IsEntry, IsWorker, IsHandled, set-IsEntry, count-set-none,
}

count-set :
    (connections : List (Option Connection)) (slot : ℕ) (c : Connection)
    → count (set connections slot (some c)) ≤ suc (count connections)
unfolding count
count-set [] slot c = omega arith
count-set (none ∷ xs) zero c = omega arith
count-set (some x ∷ xs) zero c = omega arith
count-set (none ∷ xs) (suc slot) c = count-set xs slot c
count-set (some x ∷ xs) (suc slot) c = omega (arith, count-set xs slot c)

count-snoc :
    (connections : List (Option Connection)) (c : Connection)
    → count (connections ++ (some c ∷ [])) ≡ suc (count connections)
unfolding count
count-snoc [] c = refl
count-snoc (none ∷ xs) c = count-snoc xs c
count-snoc (some x ∷ xs) c = omega (arith, count-snoc xs c)

insert_entry-IsEntry :
    (limit slot : ℕ) (c : Connection) (connections : List (Option Connection))
    → IsConnection limit c
    → All (IsEntry limit) connections
    → All (IsEntry limit) (insert_entry slot c connections)
      × (count (insert_entry slot c connections) ≤ suc (count connections))
unfolding insert_entry
insert_entry-IsEntry limit slot c connections good h = go (ltb slot (length connections))
  where
    go :
        (b : Bool)
        → All
            (IsEntry limit)
            (if b then set connections slot (some c) else connections ++ (some c ∷ []))
          × (count (if b then set connections slot (some c) else connections ++ (some c ∷ []))
              ≤ suc (count connections))
    go true = (set-IsEntry limit connections slot (some c) good h, count-set connections slot c)
    go false = (
      All-append (IsEntry limit) connections (some c ∷ []) h (good, tt),
      omega (arith, count-snoc connections c),
    )

new_connection-IsConnection :
    (limit group generation now : ℕ) (ssl : Option SslSession)
    → IsConnection limit (new_connection group generation ssl now)
unfolding new_connection
new_connection-IsConnection limit group generation now ssl = (omega arith, omega arith, tt)

insert_connection-IsWorker :
    (os : Os) (slot generation : ℕ) (c : Connection) (w : ReadinessWorker)
    → IsConnection w.limits.max_read_buffer_size c
    → suc (count w.connections) ≤ w.limits.max_connections
    → IsWorker w
    → IsWorker (insert_connection os slot generation c w)
insert_connection-IsWorker os slot generation c w good room h =
    go (token (record { slot = slot; generation = generation }) client) (os.registers w.asked)
  where
    next : ReadinessWorker
    next = record w { connections = insert_entry slot c w.connections }

    sound : IsWorker next
    sound =
        let (entries, bound) =
          insert_entry-IsEntry w.limits.max_read_buffer_size slot c w.connections good h.entries in
        record { entries = entries; bounded = omega arith; balanced = h.balanced }

    taken_out : IsWorker (record (asks next) { connections = set next.connections slot none })
    taken_out =
        let fewer = count-set-none next.connections slot in
        let bound = sound.bounded in
        record {
          entries =
              set-IsEntry w.limits.max_read_buffer_size next.connections slot none tt sound.entries;
          bounded = omega arith;
          balanced = h.balanced;
        }

    go :
        (r : Result ℕ TokenError) (b : Bool)
        → IsWorker (elim r as (λ _. ReadinessWorker) [
          | err e ↦ next
          | ok t ↦
              if b
              then asks next
              else record (asks next) { connections = set next.connections slot none }
        ])
    go (err e) b = sound
    go (ok t) true = sound
    go (ok t) false = taken_out

register_connection-IsWorker :
    (os : Os) (group : ℕ) (listener : RegisteredListener) (w : ReadinessWorker)
    → suc (count w.connections) ≤ w.limits.max_connections
    → IsWorker w
    → IsWorker (register_connection os group listener w)
unfolding register_connection
register_connection-IsWorker os group listener w room h =
    go (ltb slot_mask slot) (with_session os listener.ssl w.asked)
  where
    slot : ℕ
    slot = os.vacant_key (map taken w.connections)

    generations : List ℕ
    generations = grow w.generations (suc slot)

    generation : ℕ
    generation = next_generation (generation_at generations slot)

    next : ReadinessWorker
    next = record w { generations = set generations slot generation; asked = suc (suc w.asked) }

    go :
        (b : Bool) (o : Option (Option SslSession))
        → IsWorker (
            if b then w else elim o as (λ _. ReadinessWorker) [
              | none ↦ next
              | some ssl ↦
                  insert_connection os slot generation
                    (new_connection group generation ssl (os.now (suc w.asked)))
                    next
            ])
    go true o = h
    go false none = h
    go false (some ssl) =
        insert_connection-IsWorker os slot generation _ next
          (new_connection-IsConnection w.limits.max_read_buffer_size group generation
            (os.now (suc w.asked)) ssl)
          room h

accept_all-IsWorker :
    (os : Os) (i : ℕ) (listener : RegisteredListener) (answers : List Accepted)
    (w : ReadinessWorker)
    → IsWorker w
    → IsWorker (accept_all os i listener answers w)
unfolding accept_all
accept_all-IsWorker os i listener [] w h = h
accept_all-IsWorker os i listener (accepted ∷ answers) w h =
    accept_all-IsWorker os i listener answers _
      (go (leb w.limits.max_connections (count w.connections)) refl)
  where
    go :
        (b : Bool)
        → leb w.limits.max_connections (count w.connections) ≡ b
        → IsWorker (if b then w else register_connection os i listener (counted_accept w))
    go true e = h
    go false e = register_connection-IsWorker os i listener (counted_accept w) (ground arith) h
accept_all-IsWorker os i listener (accept_interrupted ∷ answers) w h =
    accept_all-IsWorker os i listener answers w h
accept_all-IsWorker os i listener (accept_failed ∷ answers) w h = h

pub accept_ready-IsHandled :
    (os : Os) (i : ℕ) (listener : RegisteredListener) (w : ReadinessWorker)
    → IsWorker w
    → get_elem? w.listeners i ≡ some listener
    → IsHandled (accept_ready os i w)
unfolding accept_ready
accept_ready-IsHandled os i listener w h e = go (get_elem? w.listeners i) e
  where
    go :
        (o : Option RegisteredListener)
        → o ≡ some listener
        → IsHandled (elim o as (λ _. Handled) [
          | none ↦ err panic
          | some l ↦ ok (accept_all os i l (os.accepts w.asked) (asks w))
        ])
    go none k = cc
    go (some l) k = accept_all-IsWorker os i l (os.accepts w.asked) (asks w) h
