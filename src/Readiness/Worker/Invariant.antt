-- ===== src/Readiness/Worker/Invariant.antt =====
-- run/slave/src/runtime/readiness/worker.rs: what holds of the worker between two handlers.
pub mod Balancing
pub mod Closing
pub mod Writing
pub mod Proxying
pub mod Exchanging
pub mod Reading
pub mod Answering
pub mod Accepting
pub mod Streams
pub mod Dispatch
pub mod Turn
pub mod Run
use thwip.Prelude.{
  ℕ, zero, suc, ◌+◌, ◌≤◌, ◌<◌, ◌≡◌, refl, sym, ap, ◌∙◌, ◌≢◌, Bool, true, false, Option, none, some,
  List, [], ◌∷◌, arith, ltb, ◌==◌, if◌then◌else◌, length, get_elem?, set, All, Result, ok, err,
  ◌>>=◌,
}
use mathlib.Core.Path.{subst}
use thwip.Prelude.Text.{Bytes}
use thwip.Config.{Server, Action, Groups}
use thwip.LoadBalancer.{UpstreamBalancer, select}
use thwip.Readiness.Token.{ConnectionId, SocketRole, TokenError, token}
use thwip.Readiness.Connection.{
  Connection, ConnectionPhase, reading, writing_response, resolving, proxying, PendingRequest,
}
use thwip.Readiness.Worker.{
  ReadinessWorker, WorkerLimits, Fatal, io_failure, panic, Handled, entry, current, if_current, put,
  with_token, at_entry, count, forget, is_current, remove_connection, filter_generation, for_each,
}

-- Buffers hold what their offsets say, and a request fits into the read buffer.
abbrev pub IsPhase : ℕ → ConnectionPhase → Type 0
IsPhase limit (reading none) = Unit
IsPhase limit (reading (some pending)) =
    (pending.body_start ≤ pending.body_end) × (pending.body_end ≤ limit)
IsPhase limit writing_response = Unit
IsPhase limit (resolving resolution) = length resolution.request_buffer ≤ limit
IsPhase limit (proxying proxy) =
    (proxy.request_offset ≤ length proxy.request_buffer) × (length proxy.request_buffer ≤ limit)

abbrev pub IsConnection : ℕ → Connection → Type 0
IsConnection limit c =
    (c.write_offset ≤ length c.write_buffer)
    × (length c.read_buffer ≤ limit)
    × IsPhase limit c.phase

abbrev pub IsEntry : ℕ → Option Connection → Type 0
IsEntry limit none = Unit
IsEntry limit (some c) = IsConnection limit c

-- A balancer over the groups does not panic at any action of the servers.
abbrev pub AreBalanced : Groups → List Server → Type 0
AreBalanced groups servers =
    (b : UpstreamBalancer)
    → b.groups ≡ groups
    → All (λ s. All (λ l. select b l.action ≢ none) s.locations) servers

pub record IsSound (limits : WorkerLimits) (servers : List Server) (groups : Groups)
    (connections : List (Option Connection)) : Type 0 where
  pub entries : All (IsEntry limits.max_read_buffer_size) connections
  pub bounded : count connections ≤ limits.max_connections
  pub balanced : AreBalanced groups servers

abbrev pub IsWorker : ReadinessWorker → Type 0
IsWorker w = IsSound w.limits w.servers w.balancer.groups w.connections

-- A handler keeps the worker sound, and does not panic.
abbrev pub IsHandled : Handled → Type 0
IsHandled (ok w) = IsWorker w
IsHandled (err io_failure) = Unit
IsHandled (err panic) = ⊥

pub >>=-IsHandled :
    (r : Handled) (k : ReadinessWorker → Handled)
    → IsHandled r
    → ((w : ReadinessWorker) → IsWorker w → IsHandled (k w))
    → IsHandled (r >>= k)
>>=-IsHandled (ok w) k h next = next w h
>>=-IsHandled (err io_failure) k h next = tt
>>=-IsHandled (err panic) k h next = h

pub if-IsHandled :
    (b : Bool) (x y : Handled) → IsHandled x → IsHandled y → IsHandled (if b then x else y)
if-IsHandled true x y h k = h
if-IsHandled false x y h k = k

pub if_current-IsHandled :
    (o : Option Connection) (w : ReadinessWorker) (k : Connection → Handled)
    → IsWorker w
    → ((c : Connection) → o ≡ some c → IsHandled (k c))
    → IsHandled (if_current o w k)
if_current-IsHandled none w k h next = h
if_current-IsHandled (some c) w k h next = next c refl

pub with_token-IsHandled :
    (id : ConnectionId) (role : SocketRole) (next : Handled)
    → IsHandled next
    → IsHandled (with_token id role next)
with_token-IsHandled id role next h = go (token id role)
  where
    go : (r : Result ℕ TokenError) → IsHandled (elim r [ ok t ↦ next | err e ↦ err io_failure ])
    go (ok t) = h
    go (err e) = tt

pub for_each-IsHandled :
    {A : Type 0} (handler : A → ReadinessWorker → Handled) (xs : List A) (w : ReadinessWorker)
    → ((a : A) (w : ReadinessWorker) → IsWorker w → IsHandled (handler a w))
    → IsWorker w
    → IsHandled (for_each handler xs w)
unfolding for_each
for_each-IsHandled handler [] w handles h = h
for_each-IsHandled handler (x ∷ xs) w handles h =
    >>=-IsHandled (handler x w) (λ w'. for_each handler xs w') (handles x w h)
      (λ w' h'. for_each-IsHandled handler xs w' handles h')

-- An entry of the list, and the list with another one in its place.
pub entry-IsEntry :
    (limit : ℕ) (connections : List (Option Connection)) (slot : ℕ) (c : Connection)
    → All (IsEntry limit) connections
    → entry connections slot ≡ some c
    → IsConnection limit c
entry-IsEntry limit [] slot c h e = cc
entry-IsEntry limit (x ∷ xs) zero c (h, hs) e = subst (IsEntry limit) e h
entry-IsEntry limit (x ∷ xs) (suc slot) c (h, hs) e = entry-IsEntry limit xs slot c hs e

pub set-IsEntry :
    (limit : ℕ) (connections : List (Option Connection)) (slot : ℕ) (o : Option Connection)
    → IsEntry limit o
    → All (IsEntry limit) connections
    → All (IsEntry limit) (set connections slot o)
set-IsEntry limit [] slot o h hs = tt
set-IsEntry limit (x ∷ xs) zero o h (_, hs) = (h, hs)
set-IsEntry limit (x ∷ xs) (suc slot) o h (k, hs) = (k, set-IsEntry limit xs slot o h hs)

pub count-set-some :
    (connections : List (Option Connection)) (slot : ℕ) (c d : Connection)
    → entry connections slot ≡ some c
    → count (set connections slot (some d)) ≡ count connections
unfolding count
count-set-some [] slot c d e = cc
count-set-some (none ∷ xs) zero c d e = cc
count-set-some (some x ∷ xs) zero c d e = refl
count-set-some (none ∷ xs) (suc slot) c d e = count-set-some xs slot c d e
count-set-some (some x ∷ xs) (suc slot) c d e = ap suc (count-set-some xs slot c d e)

pub count-set-none :
    (connections : List (Option Connection)) (slot : ℕ)
    → count (set connections slot none) ≤ count connections
unfolding count
count-set-none [] slot = omega arith
count-set-none (none ∷ xs) zero = omega arith
count-set-none (some x ∷ xs) zero = omega arith
count-set-none (none ∷ xs) (suc slot) = count-set-none xs slot
count-set-none (some x ∷ xs) (suc slot) = omega (arith, count-set-none xs slot)

pub entry-set :
    (connections : List (Option Connection)) (slot : ℕ) (c d : Connection)
    → entry connections slot ≡ some c
    → entry (set connections slot (some d)) slot ≡ some d
entry-set [] slot c d e = cc
entry-set (x ∷ xs) zero c d e = refl
entry-set (x ∷ xs) (suc slot) c d e = entry-set xs slot c d e

-- The current connection is the entry, with the generation.
pub current-entry :
    (w : ReadinessWorker) (id : ConnectionId) (c : Connection)
    → current w id ≡ some c
    → (entry w.connections id.slot ≡ some c) × (c.generation ≡ id.generation)
current-entry w id c h = go (entry w.connections id.slot) h
  where
    go :
        (o : Option Connection)
        → filter_generation id.generation o ≡ some c
        → (o ≡ some c) × (c.generation ≡ id.generation)
    go none k = cc
    go (some d) k = ground arith

-- The worker with another connection in place of a current one.
pub put-IsWorker :
    (w : ReadinessWorker) (slot : ℕ) (c d : Connection)
    → IsWorker w
    → entry w.connections slot ≡ some c
    → IsConnection w.limits.max_read_buffer_size d
    → IsWorker (put w slot d)
put-IsWorker w slot c d h e good = record {
  entries = set-IsEntry w.limits.max_read_buffer_size w.connections slot (some d) good h.entries;
  bounded =
      let same = count-set-some w.connections slot c d e in let bound = h.bounded in omega arith;
  balanced = h.balanced;
}

pub remove_connection-IsWorker :
    (id : ConnectionId) (w : ReadinessWorker) → IsWorker w → IsWorker (remove_connection id w)
unfolding remove_connection
remove_connection-IsWorker id w h = go (is_current w id)
  where
    go : (b : Bool) → IsWorker (if b then forget w id else w)
    go true = record {
      entries = set-IsEntry w.limits.max_read_buffer_size w.connections id.slot none tt h.entries;
      bounded =
          let fewer = count-set-none w.connections id.slot in let bound = h.bounded in omega arith;
      balanced = h.balanced;
    }
    go false = h
