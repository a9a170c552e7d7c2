-- ===== src/Readiness/Worker/Invariant/Streams.antt =====
-- `pump_static_streams` of run/slave/src/runtime/readiness/worker.rs: the streams that it found at the
-- start are still there when their turn comes, so that taking their next chunk does not panic.
use thwip.Prelude.{
  ℕ, zero, suc, ◌+◌, ◌≤◌, ◌<◌, ◌≡◌, ◌≢◌, refl, sym, ◌∙◌, Bool, true, false, Option, none, some,
  List, [], ◌∷◌, arith, if◌then◌else◌, All, Result, ok, err, ◌>>=◌, &&-eq-true,
}
use mathlib.Core.Path.{subst}
use thwip.StaticFiles.Serving.{FileStream}
use thwip.Readiness.Token.{ConnectionId, TokenError, client, token}
use thwip.Readiness.Connection.{Connection}
use thwip.Readiness.Os.{Os, Contract}
use thwip.Readiness.Worker.{
  ReadinessWorker, io_failure, panic, Handled, asks, entry, current, if_current, ids_from,
  ids_where, for_each,
}
use thwip.Readiness.Worker.Writing.{
  StaticChunk, data_chunk, pending, finished, after_chunk, register_or_fail, advance_static_stream,
  try_next, counted_response, counted_error,
}
use thwip.Readiness.Worker.Timers.{has_stream, awaits_chunk, pump_static_streams}
use thwip.Readiness.Worker.Slab.{
  Others, entry-set_other, remove_connection-Others, Above, ids_from-Above,
}
use thwip.Readiness.Worker.Invariant.{IsWorker, IsHandled, current-entry}
use thwip.Readiness.Worker.Invariant.Writing.{advance_static_stream-IsHandled}

abbrev Leaves : (ReadinessWorker → Type 0) → Handled → Type 0
Leaves P (ok w) = P w
Leaves P (err e) = Unit

register_or_fail-Others :
    (os : Os) (id : ConnectionId) (w w' : ReadinessWorker)
    → Others id.slot w w'
    → Leaves (Others id.slot w) (register_or_fail os id w')
register_or_fail-Others os id w w' h = go (token id client) (os.registers w'.asked)
  where
    go :
        (r : Result ℕ TokenError) (b : Bool)
        → Leaves (Others id.slot w) (elim r as (λ _. Handled) [
          | ok t ↦ (if b then ok (asks w') else err io_failure)
          | err e ↦ err io_failure
        ])
    go (ok t) true = h
    go (ok t) false = tt
    go (err e) b = tt

advance_static_stream-Others :
    (os : Os) (id : ConnectionId) (w : ReadinessWorker)
    → Leaves (Others id.slot w) (advance_static_stream os id w)
unfolding advance_static_stream
advance_static_stream-Others os id w = go (current w id)
  where
    advanced :
        (c : Connection) (o : Option StaticChunk)
        → Leaves (Others id.slot w) (after_chunk os id c (asks w) o)
    advanced c (some (data_chunk bytes)) =
        register_or_fail-Others os id w _ (λ s ne. entry-set_other w.connections id.slot s _ ne)
    advanced c (some pending) = register_or_fail-Others os id w (asks w) (λ s ne. refl)
    advanced c (some finished) = remove_connection-Others id (counted_response (asks w))
    advanced c none = remove_connection-Others id (counted_error (asks w))

    opened :
        (c : Connection) (o : Option FileStream)
        → Leaves (Others id.slot w) (elim o as (λ _. Handled) [
          | none ↦ err panic
          | some stream ↦ after_chunk os id c (asks w) (try_next (os.received w.asked stream))
        ])
    opened c none = tt
    opened c (some stream) = advanced c (try_next (os.received w.asked stream))

    go :
        (o : Option Connection)
        → Leaves (Others id.slot w) (
            if_current o w λ c. elim c.static_stream as (λ _. Handled) [
              | none ↦ err panic
              | some stream ↦ after_chunk os id c (asks w) (try_next (os.received w.asked stream))
            ])
    go none = λ s ne. refl
    go (some c) = opened c c.static_stream

-- The entry of an identifier passes the test that it was selected by.
abbrev Passes :
    (ConnectionId → Connection → Bool) → ℕ → List (Option Connection) → ConnectionId → Type 0
Passes test n connections id =
    (i : ℕ) (c : Connection) → id.slot ≡ n + i → entry connections i ≡ some c → test id c ≡ true

Passes-cons :
    (test : ConnectionId → Connection → Bool) (n : ℕ) (x : Option Connection)
    (xs : List (Option Connection)) (ids : List ConnectionId) (m : ℕ)
    → suc n ≤ m
    → Above m ids
    → All (Passes test (suc n) xs) ids
    → All (Passes test n (x ∷ xs)) ids
Passes-cons test n x xs [] m le a h = tt
Passes-cons test n x xs (id ∷ ids) m le (a, rest) (h, hs) =
    (passes, Passes-cons test n x xs ids (suc id.slot) (omega arith) rest hs)
  where
    passes : Passes test n (x ∷ xs) id
    passes zero c e found = absurd (omega arith)
    passes (suc i) c e found = h i c (omega arith) found

ids_from-Passes :
    (test : ConnectionId → Connection → Bool) (n : ℕ) (connections : List (Option Connection))
    → All (Passes test n connections) (ids_from n test connections)
unfolding ids_from
ids_from-Passes test n [] = tt
ids_from-Passes test n (none ∷ xs) =
    Passes-cons test n none xs _ (suc n) (omega arith) (ids_from-Above (suc n) test xs)
      (ids_from-Passes test (suc n) xs)
ids_from-Passes test n (some c ∷ xs) =
    go (test (record { slot = n; generation = c.generation }) c) (ids_from (suc n) test xs) refl
      (Passes-cons test n (some c) xs _ (suc n) (omega arith) (ids_from-Above (suc n) test xs)
        (ids_from-Passes test (suc n) xs))
      (ids_from-Above (suc n) test xs)
  where
    go :
        (b : Bool) (ids : List ConnectionId)
        → test (record { slot = n; generation = c.generation }) c ≡ b
        → All (Passes test n (some c ∷ xs)) ids
        → Above (suc n) ids
        → All
            (Passes test n (some c ∷ xs))
            (if b then record { slot = n; generation = c.generation } ∷ ids else ids)
    go false ids e h a = h
    go true ids e h a = (here, h)
      where
        here : Passes test n (some c ∷ xs) (record { slot = n; generation = c.generation })
        here zero d e' found =
            let same : c ≡ d = cc in
            subst (λ x. test (record { slot = n; generation = c.generation }) x ≡ true) same e
        here (suc i) d e' found = absurd (omega arith)

abbrev Streaming : ReadinessWorker → ConnectionId → Type 0
Streaming w id = (c : Connection) → entry w.connections id.slot ≡ some c → c.static_stream ≢ none

Streaming-Others :
    (n : ℕ) (ids : List ConnectionId) (w w' : ReadinessWorker) (slot : ℕ)
    → Above n ids
    → slot < n
    → Others slot w w'
    → All (Streaming w) ids
    → All (Streaming w') ids
Streaming-Others n [] w w' slot a lt o h = tt
Streaming-Others n (id ∷ ids) w w' slot (a, rest) lt o (h, hs) = (
  (λ c e. h c (sym (o id.slot (λ same. absurd (omega arith))) ∙ e)),
  Streaming-Others (suc id.slot) ids w w' slot rest (omega arith) o hs,
)

advance_all-IsHandled :
    (os : Os) (contract : Contract os) (n : ℕ) (ids : List ConnectionId) (w : ReadinessWorker)
    → Above n ids
    → All (Streaming w) ids
    → IsWorker w
    → IsHandled (for_each (advance_static_stream os) ids w)
unfolding for_each
advance_all-IsHandled os contract n [] w a s h = h
advance_all-IsHandled os contract n (id ∷ ids) w (a, rest) (s, ss) h =
    go (advance_static_stream os id w)
      (advance_static_stream-IsHandled os contract w.limits.max_read_buffer_size id w h
        (λ c e. s c (current-entry w id c e).0))
      (advance_static_stream-Others os id w)
      (λ w' o h'.
        advance_all-IsHandled os contract (suc id.slot) ids w' rest
          (Streaming-Others (suc id.slot) ids w w' id.slot rest (omega arith) o ss) h')
  where
    go :
        (r : Handled)
        → IsHandled r
        → Leaves (Others id.slot w) r
        → ((w' : ReadinessWorker)
            → Others id.slot w w'
            → IsWorker w'
            → IsHandled (for_each (advance_static_stream os) ids w'))
        → IsHandled (r >>= λ w'. for_each (advance_static_stream os) ids w')
    go (ok w') h' o next = next w' o h'
    go (err io_failure) h' o next = tt
    go (err panic) h' o next = h'

has_stream-some : (c : Connection) → has_stream c ≡ true → c.static_stream ≢ none
has_stream-some c = go c.static_stream
  where
    go : (o : Option FileStream) → (elim o [ none ↦ false | some stream ↦ true ]) ≡ true → o ≢ none
    go none h = cc
    go (some stream) h = λ e. cc

Passes-Streaming :
    (w : ReadinessWorker) (ids : List ConnectionId)
    → All (Passes (λ _. awaits_chunk) 0 w.connections) ids
    → All (Streaming w) ids
Passes-Streaming w [] h = tt
Passes-Streaming w (id ∷ ids) (h, hs) = (
  (λ c e. has_stream-some c (&&-eq-true (has_stream c) _ (h id.slot c (omega arith) e)).0),
  Passes-Streaming w ids hs,
)

pub pump_static_streams-IsHandled :
    (os : Os) (w : ReadinessWorker)
    → Contract os
    → IsWorker w
    → IsHandled (pump_static_streams os w)
unfolding pump_static_streams
pump_static_streams-IsHandled os w contract h =
    advance_all-IsHandled os contract 0 (ids_where (λ _. awaits_chunk) w) w
      (ids_from-Above 0 (λ _. awaits_chunk) w.connections)
      (Passes-Streaming w _ (ids_from-Passes (λ _. awaits_chunk) 0 w.connections)) h
