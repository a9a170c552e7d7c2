-- ===== src/Readiness/Worker/Invariant/Closing.antt =====
-- The ends that the handlers of run/slave/src/runtime/readiness/worker.rs share keep the worker sound.
use thwip.Prelude.{ℕ, ◌≡◌, Bool, true, false, Option, none, some, arith, if◌then◌else◌, ok, err}
use mathlib.Core.Path.{subst}
use thwip.Prelude.Text.{Bytes}
use thwip.StaticFiles.Serving.{StaticStreamResponse}
use thwip.Readiness.Token.{ConnectionId, client}
use thwip.Readiness.Connection.{Connection, begin_response}
use thwip.Readiness.Os.{Os}
use thwip.Readiness.Worker.{
  ReadinessWorker, Handled, panic, asks, entry, current, put, at_entry, remove_connection,
  register_or_remove, reregister_client, responding, sized_response, queue_response,
  queue_static_response, close_client, starts_closing,
}
use thwip.Readiness.Worker.Invariant.{
  IsConnection, IsWorker, IsHandled, if_current-IsHandled, with_token-IsHandled, put-IsWorker,
  remove_connection-IsWorker, entry-IsEntry, entry-set, current-entry,
}

register_or_remove-IsWorker :
    (os : Os) (id : ConnectionId) (w : ReadinessWorker)
    → IsWorker w
    → IsWorker (register_or_remove os id w)
register_or_remove-IsWorker os id w h = go (os.registers w.asked)
  where
    go : (b : Bool) → IsWorker (if b then asks w else remove_connection id (asks w))
    go true = h
    go false = remove_connection-IsWorker id (asks w) h

pub at_entry-some :
    (w : ReadinessWorker) (slot : ℕ) (c : Connection) (k : Connection → Handled)
    → entry w.connections slot ≡ some c
    → IsHandled (k c)
    → IsHandled (at_entry w slot k)
at_entry-some w slot c k e h = go (entry w.connections slot) e
  where
    go :
        (o : Option Connection)
        → o ≡ some c
        → IsHandled (elim o as (λ _. Handled) [ none ↦ err panic | some d ↦ k d ])
    go none e' = cc
    go (some d) e' = let same : c ≡ d = cc in subst (λ x. IsHandled (k x)) same h

pub reregister_client-IsHandled :
    (os : Os) (id : ConnectionId) (w : ReadinessWorker) (c : Connection)
    → IsWorker w
    → entry w.connections id.slot ≡ some c
    → IsHandled (reregister_client os id w)
unfolding reregister_client
reregister_client-IsHandled os id w c h e =
    at_entry-some w id.slot c _ e
      (with_token-IsHandled id client _ (register_or_remove-IsWorker os id w h))

-- A current connection may be put back changed.
pub put-current-IsWorker :
    (w : ReadinessWorker) (id : ConnectionId) (c d : Connection)
    → IsWorker w
    → current w id ≡ some c
    → IsConnection w.limits.max_read_buffer_size d
    → IsWorker (put w id.slot d)
put-current-IsWorker w id c d h e good =
    put-IsWorker w id.slot c d h (current-entry w id c e).0 good

pub current-IsConnection :
    (w : ReadinessWorker) (id : ConnectionId) (c : Connection)
    → IsWorker w
    → current w id ≡ some c
    → IsConnection w.limits.max_read_buffer_size c
current-IsConnection w id c h e =
    entry-IsEntry w.limits.max_read_buffer_size w.connections id.slot c h.entries
      (current-entry w id c e).0

responding-IsConnection :
    (limit : ℕ) (response : Bytes) (c : Connection)
    → IsConnection limit c
    → IsConnection limit (responding response c)
unfolding begin_response
responding-IsConnection limit response c (_, read, _) = (omega arith, read, tt)

pub queue_response-IsHandled :
    (os : Os) (id : ConnectionId) (response : Bytes) (w : ReadinessWorker)
    → IsWorker w
    → IsHandled (queue_response os id response w)
unfolding queue_response
queue_response-IsHandled os id response w h = if_current-IsHandled (current w id) w _ h λ c e.
    with_token-IsHandled id client _ (
      register_or_remove-IsWorker os id
        (put w id.slot (responding (sized_response w.limits.max_write_buffer_size response) c))
        (put-current-IsWorker w id c _ h e (
          responding-IsConnection w.limits.max_read_buffer_size _ c
            (current-IsConnection w id c h e))))

pub queue_static_response-IsHandled :
    (os : Os) (id : ConnectionId) (response : StaticStreamResponse) (w : ReadinessWorker)
    → IsWorker w
    → IsHandled (queue_static_response os id response w)
unfolding queue_static_response
queue_static_response-IsHandled os id response w h =
    if_current-IsHandled (current w id) w _ h λ c e.
      queue_response-IsHandled os id response.head _ (
        put-current-IsWorker w id c (record c { static_stream = response.stream }) h e
          (current-IsConnection w id c h e))

pub close_client-IsHandled :
    (os : Os) (id : ConnectionId) (w : ReadinessWorker)
    → IsWorker w
    → IsHandled (close_client os id w)
unfolding close_client
close_client-IsHandled os id w h =
    if_current-IsHandled (current w id) w _ h λ c e. go c e (starts_closing c)
  where
    go :
        (c : Connection)
        → current w id ≡ some c
        → (b : Bool)
        → IsHandled (
            if b
            then reregister_client os id (put w id.slot (record c { ssl_closing = true }))
            else ok (remove_connection id w))
    go c e true =
        reregister_client-IsHandled os id _ (record c { ssl_closing = true })
          (put-current-IsWorker w id c _ h e (current-IsConnection w id c h e))
          (entry-set w.connections id.slot c _ (current-entry w id c e).0)
    go c e false = remove_connection-IsWorker id w h
