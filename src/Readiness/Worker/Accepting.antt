-- ===== src/Readiness/Worker/Accepting.antt =====
-- run/slave/src/runtime/readiness/worker.rs: accepting connections. The slab is a library; the system
-- says which key its next entry has.
use thwip.Prelude.{
  ℕ, zero, suc, Bool, true, false, Option, none, some, List, [], ◌∷◌, ◌++◌, ltb, leb, if◌then◌else◌,
  length, get_elem?, set, map, ok, err,
}
use thwip.Readiness.Token.{client, token, slot_mask, next_generation}
use thwip.Readiness.Connection.{Connection, SslSession, new_connection}
use thwip.Readiness.Os.{Os, Accepted, accepted, accept_interrupted, accept_failed}
use thwip.Readiness.Worker.{
  ReadinessWorker, RegisteredListener, fetch_add, panic, Handled, asks, count,
}

-- `vacant_entry`, `resize` and `insert`: a key behind the last entry makes a new one.
abbrev pub taken : Option Connection → Bool
taken none = false
taken (some c) = true

unfoldable pub insert_entry : ℕ → Connection → List (Option Connection) → List (Option Connection)
insert_entry slot c connections =
    if ltb slot (length connections)
    then set connections slot (some c)
    else connections ++ (some c ∷ [])

abbrev pub grow : List ℕ → ℕ → List ℕ
grow generations zero = generations
grow [] (suc n) = 0 ∷ grow [] n
grow (g ∷ generations) (suc n) = g ∷ grow generations n

abbrev pub generation_at : List ℕ → ℕ → ℕ
generation_at generations slot = elim (get_elem? generations slot) [ none ↦ 0 | some g ↦ g ]

abbrev pub with_session : Os → Option ℕ → ℕ → Option (Option SslSession)
with_session os none n = some none
with_session os (some timeout) n =
    if os.new_session n
    then some (some (record { started_at = os.now n; handshake_timeout = timeout }))
    else none

-- Where the registration fails the entry is taken out again; all errors here are only logged.
abbrev pub insert_connection : Os → ℕ → ℕ → Connection → ReadinessWorker → ReadinessWorker
insert_connection os slot generation c w =
    let w' = record w { connections = insert_entry slot c w.connections } in
    elim (token (record { slot = slot; generation = generation }) client) [
      | err e ↦ w'
      | ok t ↦
          if os.registers w.asked
          then asks w'
          else record (asks w') { connections = set w'.connections slot none }
    ]

unfoldable pub register_connection : Os → ℕ → RegisteredListener → ReadinessWorker → ReadinessWorker
unfolding next_generation new_connection insert_entry token
register_connection os listener_group listener w =
    let slot = os.vacant_key (map taken w.connections) in
    let generations = grow w.generations (suc slot) in
    let generation = next_generation (generation_at generations slot) in
    let w' = record w {
      generations = set generations slot generation;
      asked = suc (suc w.asked);
    } in
    if ltb slot_mask slot then w else elim (with_session os listener.ssl w.asked) [
      | none ↦ w'
      | some ssl ↦
          insert_connection os slot generation
            (new_connection listener_group generation ssl (os.now (suc w.asked))) w'
    ]

abbrev pub counted_accept : ReadinessWorker → ReadinessWorker
counted_accept w = record w {
  metrics = record w.metrics { accepted = fetch_add w.metrics.accepted 1 };
}

-- The loop of `accept_ready`: at the limit a connection is accepted and dropped.
unfoldable pub accept_all :
    Os → ℕ → RegisteredListener → List Accepted → ReadinessWorker → ReadinessWorker
unfolding register_connection count
accept_all os listener_index listener [] w = w
accept_all os listener_index listener (accepted ∷ answers) w =
    accept_all os listener_index listener answers (
      if leb w.limits.max_connections (count w.connections)
      then w
      else register_connection os listener_index listener (counted_accept w))
accept_all os listener_index listener (accept_interrupted ∷ answers) w =
    accept_all os listener_index listener answers w
accept_all os listener_index listener (accept_failed ∷ answers) w = w

unfoldable pub accept_ready : Os → ℕ → ReadinessWorker → Handled
unfolding accept_all
accept_ready os listener_index w = elim (get_elem? w.listeners listener_index) [
  | none ↦ err panic
  | some listener ↦ ok (accept_all os listener_index listener (os.accepts w.asked) (asks w))
]
