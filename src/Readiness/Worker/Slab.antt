-- ===== src/Readiness/Worker/Slab.antt =====
-- run/slave/src/runtime/readiness/worker.rs: what is removed from the slab, and what stays in it.
use thwip.Prelude.{
  ℕ, zero, suc, ◌+◌, ◌≤◌, ◌<◌, ◌≡◌, ◌≢◌, refl, sym, ap, ◌∙◌, Bool, true, false, Option, none, some,
  List, [], ◌∷◌, arith, if◌then◌else◌, set,
}
use thwip.Readiness.Token.{ConnectionId}
use thwip.Readiness.Connection.{Connection}
use thwip.Readiness.Os.{Os}
use thwip.Readiness.Worker.{
  ReadinessWorker, asks, entry, current, filter_generation, is_current, remove_connection, forget,
  ids_from, ids_where, count,
}
use thwip.Readiness.Worker.Timers.{
  remove_all, begin_shutdown, starts_draining, is_quiet, close_idle, is_idle_connection,
  handshake_expired, close_idle_connections, close_all_connections,
}

-- All entries but one are as before.
abbrev pub Others : ℕ → ReadinessWorker → ReadinessWorker → Type 0
Others slot w w' = (s : ℕ) → s ≢ slot → entry w'.connections s ≡ entry w.connections s

pub entry-set_other :
    (connections : List (Option Connection)) (slot s : ℕ) (o : Option Connection)
    → s ≢ slot
    → entry (set connections slot o) s ≡ entry connections s
entry-set_other [] slot s o ne = refl
entry-set_other (x ∷ xs) zero zero o ne = absurd (ne refl)
entry-set_other (x ∷ xs) zero (suc s) o ne = refl
entry-set_other (x ∷ xs) (suc slot) zero o ne = refl
entry-set_other (x ∷ xs) (suc slot) (suc s) o ne = entry-set_other xs slot s o (λ e. ne (ap suc e))

pub remove_connection-Others :
    (id : ConnectionId) (w : ReadinessWorker) → Others id.slot w (remove_connection id w)
unfolding remove_connection
remove_connection-Others id w s ne = go (is_current w id)
  where
    go : (b : Bool) → entry (if b then forget w id else w).connections s ≡ entry w.connections s
    go true = entry-set_other w.connections id.slot s none ne
    go false = refl

-- Identifiers by increasing slots, from a slot on.
abbrev pub Above : ℕ → List ConnectionId → Type 0
Above n [] = Unit
Above n (id ∷ ids) = (n ≤ id.slot) × Above (suc id.slot) ids

pub Above-le : (m n : ℕ) (ids : List ConnectionId) → m ≤ n → Above n ids → Above m ids
Above-le m n [] le h = tt
Above-le m n (id ∷ ids) le (h, hs) = (omega arith, hs)

pub ids_from-Above :
    (n : ℕ) (test : ConnectionId → Connection → Bool) (connections : List (Option Connection))
    → Above n (ids_from n test connections)
unfolding ids_from
ids_from-Above n test [] = tt
ids_from-Above n test (none ∷ xs) =
    Above-le n (suc n) _ (omega arith) (ids_from-Above (suc n) test xs)
ids_from-Above n test (some c ∷ xs) =
    go (test (record { slot = n; generation = c.generation }) c) (ids_from (suc n) test xs)
      (ids_from-Above (suc n) test xs)
  where
    go :
        (b : Bool) (ids : List ConnectionId)
        → Above (suc n) ids
        → Above n (if b then record { slot = n; generation = c.generation } ∷ ids else ids)
    go true ids h = (omega arith, h)
    go false ids h = Above-le n (suc n) ids (omega arith) h

pub entry-set-none :
    (connections : List (Option Connection)) (slot : ℕ)
    → entry (set connections slot none) slot ≡ none
entry-set-none [] slot = refl
entry-set-none (x ∷ xs) zero = refl
entry-set-none (x ∷ xs) (suc slot) = entry-set-none xs slot

pub filter_generation-same :
    (generation : ℕ) (c : Connection)
    → c.generation ≡ generation
    → filter_generation generation (some c) ≡ some c
filter_generation-same generation c h = ground arith

-- A connection that is in its slot under its generation is removed.
pub remove_connection-entry :
    (w : ReadinessWorker) (id : ConnectionId) (c : Connection)
    → entry w.connections id.slot ≡ some c
    → c.generation ≡ id.generation
    → entry (remove_connection id w).connections id.slot ≡ none
unfolding remove_connection is_current
remove_connection-entry w id c e same = go (current w id) found
  where
    found : current w id ≡ some c
    found = ap (filter_generation id.generation) e ∙ filter_generation-same id.generation c same

    go :
        (o : Option Connection)
        → o ≡ some c
        → entry
            (if (elim o as (λ _. Bool) [ none ↦ false | some d ↦ true ])
              then forget w id
              else w).connections
            id.slot
          ≡ none
    go none k = cc
    go (some d) k = entry-set-none w.connections id.slot

remove_all-below :
    (ids : List ConnectionId) (n s : ℕ) (w : ReadinessWorker)
    → Above n ids
    → s < n
    → entry (remove_all ids w).connections s ≡ entry w.connections s
unfolding remove_all
remove_all-below [] n s w a lt = refl
remove_all-below (id ∷ ids) n s w (a, rest) lt =
    remove_all-below ids (suc id.slot) s (remove_connection id w) rest (omega arith)
    ∙ remove_connection-Others id w s (λ e. absurd (omega arith))

-- An entry that is not dropped.
abbrev pub unless : (ConnectionId → Connection → Bool) → ℕ → Option Connection → Option Connection
unless test slot none = none
unless test slot (some c) =
    if test (record { slot = slot; generation = c.generation }) c then none else some c

abbrev Agrees : ℕ → List (Option Connection) → ReadinessWorker → Type 0
Agrees n xs w = (s : ℕ) → entry w.connections (n + s) ≡ entry xs s

-- The entries that a test selects are dropped, and the others stay.
remove_all-entry :
    (test : ConnectionId → Connection → Bool) (n : ℕ) (xs : List (Option Connection))
    (w : ReadinessWorker)
    → Agrees n xs w
    → (s : ℕ)
    → entry (remove_all (ids_from n test xs) w).connections (n + s)
      ≡ unless test (n + s) (entry xs s)
unfolding ids_from remove_all
remove_all-entry test n [] w agrees s = agrees s
remove_all-entry test n (none ∷ xs) w agrees zero =
    remove_all-below (ids_from (suc n) test xs) (suc n) (n + 0) w (ids_from-Above (suc n) test xs)
      (omega arith)
    ∙ agrees 0
remove_all-entry test n (none ∷ xs) w agrees (suc s) =
    ap (entry (remove_all (ids_from (suc n) test xs) w).connections) (omega arith)
    ∙ remove_all-entry test (suc n) xs w
        (λ i. ap (entry w.connections) (omega arith) ∙ agrees (suc i)) s
    ∙ ap (λ k. unless test k (entry xs s)) (omega arith)
remove_all-entry test n (some c ∷ xs) w agrees s =
    go (test (record { slot = n; generation = c.generation }) c) refl
      (remove_all-entry test (suc n) xs) s
  where
    id : ConnectionId
    id = record { slot = n; generation = c.generation }

    at_slot : unless test (n + 0) (some c) ≡ unless test n (some c)
    at_slot = ap (λ k. unless test k (some c)) (omega arith)

    without : ReadinessWorker
    without = remove_connection id w

    go :
        (b : Bool)
        → test (record { slot = n; generation = c.generation }) c ≡ b
        → ((w' : ReadinessWorker)
            → Agrees (suc n) xs w'
            → (s : ℕ)
            → entry (remove_all (ids_from (suc n) test xs) w').connections (suc n + s)
              ≡ unless test (suc n + s) (entry xs s))
        → (s : ℕ)
        → entry
            (remove_all
              (if b then id ∷ ids_from (suc n) test xs else ids_from (suc n) test xs)
              w).connections
            (n + s)
          ≡ unless test (n + s) (entry (some c ∷ xs) s)
    go true e later zero =
        remove_all-below (ids_from (suc n) test xs) (suc n) (n + 0) without
          (ids_from-Above (suc n) test xs) (omega arith)
        ∙ ap (entry without.connections) (omega arith)
        ∙ remove_connection-entry w id c (ap (entry w.connections) (omega arith) ∙ agrees 0) refl
        ∙ sym (at_slot ∙ rw e refl)
    go true e later (suc s) =
        ap (entry (remove_all (ids_from (suc n) test xs) without).connections) (omega arith)
        ∙ later without
            (λ i.
              remove_connection-Others id w (suc n + i) (λ same. absurd (omega arith))
              ∙ ap (entry w.connections) (omega arith)
              ∙ agrees (suc i))
            s
        ∙ ap (λ k. unless test k (entry xs s)) (omega arith)
    go false e later zero =
        remove_all-below (ids_from (suc n) test xs) (suc n) (n + 0) w
          (ids_from-Above (suc n) test xs) (omega arith)
        ∙ agrees 0
        ∙ sym (at_slot ∙ rw e refl)
    go false e later (suc s) =
        ap (entry (remove_all (ids_from (suc n) test xs) w).connections) (omega arith)
        ∙ later w (λ i. ap (entry w.connections) (omega arith) ∙ agrees (suc i)) s
        ∙ ap (λ k. unless test k (entry xs s)) (omega arith)

remove_where-entry :
    (test : ConnectionId → Connection → Bool) (w w' : ReadinessWorker) (slot : ℕ)
    → w'.connections ≡ w.connections
    → entry (remove_all (ids_where test w) w').connections slot
      ≡ unless test slot (entry w.connections slot)
remove_where-entry test w w' slot same =
    ap (entry (remove_all (ids_where test w) w').connections) (omega arith)
    ∙ remove_all-entry test 0 w.connections w'
        (λ s. ap (λ xs. entry xs (0 + s)) same ∙ ap (entry w.connections) (omega arith)) slot
    ∙ ap (λ k. unless test k (entry w.connections slot)) (omega arith)

pub begin_shutdown-entry :
    (os : Os) (w : ReadinessWorker) (slot : ℕ)
    → entry (begin_shutdown os w).connections slot
      ≡ unless (λ _. is_quiet) slot (entry w.connections slot)
unfolding begin_shutdown
begin_shutdown-entry os w slot =
    remove_where-entry (λ _. is_quiet) (starts_draining os w) (starts_draining os w) slot refl

pub close_idle_connections-entry :
    (os : Os) (w : ReadinessWorker) (slot : ℕ)
    → entry (close_idle_connections os w).connections slot
      ≡ unless (handshake_expired os w.asked) slot (
          unless
            (λ _. is_idle_connection w.limits.idle_timeout (os.now w.asked))
            slot
            (entry w.connections slot))
unfolding close_idle_connections
close_idle_connections-entry os w slot =
    remove_where-entry (handshake_expired os w.asked) (close_idle os w) (close_idle os w) slot refl
    ∙ ap (unless (handshake_expired os w.asked) slot) (
        remove_where-entry (λ _. is_idle_connection w.limits.idle_timeout (os.now w.asked)) w
          (asks (asks w)) slot refl)

unless_all : (slot : ℕ) (o : Option Connection) → unless (λ _ c. true) slot o ≡ none
unless_all slot none = refl
unless_all slot (some c) = refl

pub count-empty :
    (connections : List (Option Connection))
    → ((slot : ℕ) → entry connections slot ≡ none)
    → count connections ≡ 0
unfolding count
count-empty [] h = refl
count-empty (none ∷ xs) h = count-empty xs (λ slot. h (suc slot))
count-empty (some c ∷ xs) h = let wrong = h 0 in cc

pub close_all_connections-count :
    (w : ReadinessWorker) → count (close_all_connections w).connections ≡ 0
unfolding close_all_connections
close_all_connections-count w =
    count-empty (remove_all (ids_where (λ _ c. true) w) w).connections (λ slot.
      remove_where-entry (λ _ c. true) w w slot refl ∙ unless_all slot (entry w.connections slot))
