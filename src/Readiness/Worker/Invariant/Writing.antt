-- ===== src/Readiness/Worker/Invariant/Writing.antt =====
-- `write_ready` of run/slave/src/runtime/readiness/worker.rs keeps the worker sound.
use thwip.Prelude.Text.{Bytes}
use mathlib.Core.Option.{some-injective}
use thwip.Prelude.{
  drop, ap, slice_from-eq-some, ℕ, zero, suc, ◌+◌, ◌≤◌, ◌≡◌, refl, sym, ◌∙◌, ◌≢◌, Bool, true, false,
  not, ◌&&◌, ◌||◌, Option, none, some, [], arith, if◌then◌else◌, length, length-drop, Result, ok,
  err,
}
use thwip.Prelude.Repeat.{Round, again, stop, Keeps, repeat-Keeps}
use thwip.StaticFiles.Serving.{FileStream}
use thwip.Readiness.Token.{ConnectionId, client}
use thwip.Readiness.Connection.{
  Connection, ProxyState, proxy, SslSession, is_writing_response, is_proxying,
}
use thwip.Readiness.Os.{Os, Contract, IoError, would_block, interrupted, other_error}
use thwip.Readiness.Worker.{
  ReadinessWorker, Handled, io_failure, panic, asks, entry, current, put, insert_id,
  reregister_client, close_client, max_writes_per_event,
}
use thwip.Readiness.Worker.Writing.{
  panicked, sends, after_slice, Local, to_local, from_local, WriteEnd, left, failed, blocked,
  wants_write, is_written, unwritten, writing_application, attempt, written, after_attempt,
  write_round, write_loop, StaticChunk, data_chunk, pending, finished, after_chunk,
  register_or_fail, advance_static_stream, await_upstream, after_response, after_write, after_loop,
  idle_session, write_ready, try_next, counted_response, counted_error,
}
use thwip.Readiness.Worker.Invariant.{
  IsConnection, IsWorker, IsHandled, >>=-IsHandled, if_current-IsHandled, with_token-IsHandled,
  put-IsWorker, remove_connection-IsWorker, entry-set, current-entry,
}
use thwip.Readiness.Worker.Invariant.Closing.{
  reregister_client-IsHandled, close_client-IsHandled, put-current-IsWorker, current-IsConnection,
}

-- A loop of writes that ends without a panic.
abbrev Returns : WriteEnd → Type 0
Returns panicked = ⊥
Returns _ = Unit

module _ (os : Os) (contract : Contract os) (limit : ℕ) where
  abbrev IsLocal : Local → Type 0
  IsLocal l = IsConnection limit l.connection

  abbrev IsEnd : Local → WriteEnd → Type 0
  IsEnd l e = IsLocal l × Returns e

  sends-fits :
      (write : Bytes → Result ℕ IoError) (c : Connection) (n : ℕ)
      → ((bytes : Bytes) → write bytes ≡ ok n → n ≤ length bytes)
      → IsConnection limit c
      → sends write (unwritten c) ≡ some (ok n)
      → c.write_offset + n ≤ length c.write_buffer
  sends-fits write c n fits h e =
      let rest = drop c.write_offset c.write_buffer in
      let same : write rest ≡ ok n =
        some-injective _ _
          (sym (ap (sends write) (slice_from-eq-some c.write_buffer c.write_offset h.0)) ∙ e) in
      let bound = fits rest same in
      let start = h.0 in omega (arith, length-drop c.write_offset c.write_buffer)

  attempt-fits :
      (l : Local) (n : ℕ)
      → IsLocal l
      → attempt os l ≡ some (ok n)
      → writing_application l.connection ≡ true
      → l.connection.write_offset + n ≤ length l.connection.write_buffer
  attempt-fits l n good h app = go l.connection.ssl h
    where
      go :
          (ssl : Option SslSession)
          → (elim ssl [
            | none ↦ sends (os.write l.asked) (unwritten l.connection)
            | some s ↦
                if writing_application l.connection
                then sends (os.writer_write l.asked) (unwritten l.connection)
                else some (os.write_tls l.asked)
          ])
            ≡ some (ok n)
          → l.connection.write_offset + n ≤ length l.connection.write_buffer
      go none k =
          sends-fits (os.write l.asked) l.connection n (contract.write_fits l.asked n) good k
      go (some s) k =
          sends-fits (os.writer_write l.asked) l.connection n (contract.writer_write_fits l.asked n)
            good (sym (rw app refl) ∙ k)

  -- Nothing is sliced out of bounds.
  attempt-Returns : (l : Local) → IsLocal l → attempt os l ≢ none
  attempt-Returns l good = go l.connection.ssl (writing_application l.connection)
    where
      sliced : (write : Bytes → Result ℕ IoError) → sends write (unwritten l.connection) ≢ none
      sliced write e =
          let same =
            sym (
              ap (sends write)
                (slice_from-eq-some l.connection.write_buffer l.connection.write_offset good.0))
            ∙ e in
          cc

      go :
          (ssl : Option SslSession) (b : Bool)
          → (elim ssl as (λ _. Option (Result ℕ IoError)) [
            | none ↦ sends (os.write l.asked) (unwritten l.connection)
            | some s ↦
                if b
                then sends (os.writer_write l.asked) (unwritten l.connection)
                else some (os.write_tls l.asked)
          ])
            ≢ none
      go none b = sliced (os.write l.asked)
      go (some s) true = sliced (os.writer_write l.asked)
      go (some s) false = λ e. cc

  written-IsLocal :
      (l : Local) (n : ℕ) → IsLocal l → attempt os l ≡ some (ok n) → IsLocal (written os n l)
  written-IsLocal l n (offset, read, phase) h =
      (go (writing_application l.connection) refl, read, phase)
    where
      go :
          (b : Bool)
          → writing_application l.connection ≡ b
          → (if b then l.connection.write_offset + n else l.connection.write_offset)
            ≤ length l.connection.write_buffer
      go true e = attempt-fits l n (offset, read, phase) h e
      go false e = offset

  after_attempt-Keeps :
      (l : Local) (r : Result ℕ IoError)
      → IsLocal l
      → attempt os l ≡ some r
      → Keeps IsLocal IsEnd (after_attempt os l r)
  after_attempt-Keeps l (ok zero) h e = (h, tt)
  after_attempt-Keeps l (ok (suc n)) h e =
      go (is_written next.connection && not (wants_write os (suc l.asked) l.connection))
        (written-IsLocal l (suc n) h e)
    where
      next : Local
      next = written os (suc n) l

      go :
          (b : Bool) → IsLocal next → Keeps IsLocal IsEnd (if b then stop next left else again next)
      go true k = (k, tt)
      go false k = k
  after_attempt-Keeps l (err would_block) h e = (h, tt)
  after_attempt-Keeps l (err interrupted) h e = h
  after_attempt-Keeps l (err other_error) h e = (h, tt)

  after_slice-Keeps :
      (l : Local) (o : Option (Result ℕ IoError))
      → IsLocal l
      → attempt os l ≡ o
      → Keeps IsLocal IsEnd (after_slice os l o)
  after_slice-Keeps l none h e = absurd (attempt-Returns l h e)
  after_slice-Keeps l (some r) h e = after_attempt-Keeps l r h e

  write_round-Keeps : (l : Local) → IsLocal l → Keeps IsLocal IsEnd (write_round os l)
  unfolding write_round
  write_round-Keeps l h =
      go (is_written l.connection && not (wants_write os l.asked l.connection))
        (after_slice os next (attempt os next)) (after_slice-Keeps next (attempt os next) h refl)
    where
      next : Local
      next = record l { asked = suc l.asked }

      go :
          (b : Bool) (r : Round Local WriteEnd)
          → Keeps IsLocal IsEnd r
          → Keeps IsLocal IsEnd (if b then stop l left else r)
      go true r later = (h, tt)
      go false r later = later

  write_loop-IsLocal :
      (l : Local) → IsLocal l → IsLocal (write_loop os l).0 × Returns (write_loop os l).1
  unfolding write_loop
  write_loop-IsLocal l h =
      repeat-Keeps IsLocal IsEnd (write_round os) left write_round-Keeps (λ s k. (k, tt))
        max_writes_per_event l h

  register_or_fail-IsHandled :
      (id : ConnectionId) (w : ReadinessWorker) → IsWorker w → IsHandled (register_or_fail os id w)
  register_or_fail-IsHandled id w h = with_token-IsHandled id client _ (go (os.registers w.asked))
    where
      go : (b : Bool) → IsHandled (if b then ok (asks w) else err io_failure)
      go true = h
      go false = tt

  after_chunk-IsHandled :
      (id : ConnectionId) (c : Connection) (w : ReadinessWorker) (o : Option StaticChunk)
      → IsWorker w
      → current w id ≡ some c
      → IsHandled (after_chunk os id c w o)
  after_chunk-IsHandled id c w (some (data_chunk bytes)) h e = register_or_fail-IsHandled id _ (
      put-current-IsWorker w id c (record c { write_buffer = bytes; write_offset = 0 }) h e
        (omega arith, (current-IsConnection w id c h e).1, (current-IsConnection w id c h e).2))
  after_chunk-IsHandled id c w (some pending) h e = register_or_fail-IsHandled id w h
  after_chunk-IsHandled id c w (some finished) h e =
      remove_connection-IsWorker id (counted_response w) h
  after_chunk-IsHandled id c w none h e = remove_connection-IsWorker id (counted_error w) h

  pub advance_static_stream-IsHandled :
      (id : ConnectionId) (w : ReadinessWorker)
      → IsWorker w
      → ((c : Connection) → current w id ≡ some c → c.static_stream ≢ none)
      → IsHandled (advance_static_stream os id w)
  unfolding advance_static_stream
  advance_static_stream-IsHandled id w h streams =
      if_current-IsHandled (current w id) w _ h λ c e. go c e c.static_stream (streams c e)
    where
      go :
          (c : Connection)
          → current w id ≡ some c
          → (o : Option FileStream) → o ≢ none
          → IsHandled (elim o as (λ _. Handled) [
            | none ↦ err panic
            | some stream ↦ after_chunk os id c (asks w) (try_next (os.received w.asked stream))
          ])
      go c e none k = k refl
      go c e (some stream) k = after_chunk-IsHandled id c (asks w) _ h e

  -- What is current where an entry is, is that entry.
  current_is_entry :
      (w : ReadinessWorker) (id : ConnectionId) (c d : Connection)
      → entry w.connections id.slot ≡ some c
      → current w id ≡ some d
      → d ≡ c
  current_is_entry w id c d e h = let (e', _) = current-entry w id d h in cc

  await_upstream-IsHandled :
      (id : ConnectionId) (c : Connection) (w : ReadinessWorker)
      → IsWorker w
      → entry w.connections id.slot ≡ some c
      → IsConnection w.limits.max_read_buffer_size c
      → IsHandled (await_upstream os id c w)
  await_upstream-IsHandled id c w h e (_, read, phase) =
      >>=-IsHandled (reregister_client os id (put w id.slot emptied)) _
        (reregister_client-IsHandled os id _ emptied
          (put-IsWorker w id.slot c emptied h e (omega arith, read, phase))
          (entry-set w.connections id.slot c emptied e))
        (λ w' h'. h')
    where
      emptied : Connection
      emptied = record c { write_buffer = []; write_offset = 0 }

  after_response-IsHandled :
      (id : ConnectionId) (c : Connection) (o : Option ProxyState) (w : ReadinessWorker)
      → IsWorker w
      → entry w.connections id.slot ≡ some c
      → IsConnection w.limits.max_read_buffer_size c
      → IsHandled (after_response os id c o w)
  after_response-IsHandled id c none w h e good = close_client-IsHandled os id w h
  after_response-IsHandled id c (some p) w h e good = go (w.draining || p.upstream_eof)
    where
      go : (b : Bool) → IsHandled (if b then close_client os id w else await_upstream os id c w)
      go true = close_client-IsHandled os id w h
      go false = await_upstream-IsHandled id c w h e good

  after_write-IsHandled :
      (id : ConnectionId) (c : Connection) (b : Bool) (w : ReadinessWorker)
      → IsWorker w
      → entry w.connections id.slot ≡ some c
      → IsConnection w.limits.max_read_buffer_size c
      → IsHandled (after_write os id c b w)
  after_write-IsHandled id c b w h e good =
      go (b && (is_writing_response c || is_proxying c)) b (is_writing_response c)
    where
      answered :
          (o : Option FileStream)
          → c.static_stream ≡ o
          → IsHandled (elim o as (λ _. Handled) [
            | some stream ↦ advance_static_stream os id w
            | none ↦ after_response os id c (proxy c) (counted_response w)
          ])
      answered (some stream) k =
          advance_static_stream-IsHandled id w h
            (λ d e' is_none. let same = current_is_entry w id c d e e' in absurd cc)
      answered none k = after_response-IsHandled id c (proxy c) (counted_response w) h e good

      go :
          (x y z : Bool)
          → IsHandled (
              if x
              then elim c.static_stream [
                | some stream ↦ advance_static_stream os id w
                | none ↦ after_response os id c (proxy c) (counted_response w)
              ]
              else if y
              then reregister_client os id w
              else if z
              then ok (record w { pending_writes = insert_id id w.pending_writes })
              else ok w)
      go true y z = answered c.static_stream refl
      go false true z = reregister_client-IsHandled os id w c h e
      go false false true = h
      go false false false = h

  after_loop-IsHandled :
      (id : ConnectionId) (c : Connection) (end : WriteEnd) (w : ReadinessWorker)
      → IsWorker w
      → entry w.connections id.slot ≡ some c
      → IsConnection w.limits.max_read_buffer_size c
      → Returns end
      → IsHandled (after_loop os id c end w)
  after_loop-IsHandled id c panicked w h e good returns = returns
  after_loop-IsHandled id c blocked w h e good returns = h
  after_loop-IsHandled id c failed w h e good returns = remove_connection-IsWorker id w h
  after_loop-IsHandled id c left w h e good returns =
      after_write-IsHandled id c (is_written c && not (wants_write os w.asked c)) (asks w) h e good

pub write_ready-IsHandled :
    (os : Os)
    → Contract os
    → (id : ConnectionId) (w : ReadinessWorker) → IsWorker w
    → IsHandled (write_ready os id w)
unfolding write_ready
write_ready-IsHandled os contract id w h =
    if_current-IsHandled (current w id) w _ h λ c e. go c e (idle_session os w c)
  where
    go :
        (c : Connection)
        → current w id ≡ some c
        → (b : Bool)
        → IsHandled (
            if b
            then reregister_client os id (asks w)
            else (let (l, end) = write_loop os (to_local (asks w) c) in
                after_loop os id l.connection end (from_local w id.slot l)))
    go c e true = reregister_client-IsHandled os id (asks w) c h (current-entry w id c e).0
    go c e false =
        let (good, returns) =
          write_loop-IsLocal os contract w.limits.max_read_buffer_size (to_local (asks w) c)
            (current-IsConnection w id c h e) in
        let (l, end) = write_loop os (to_local (asks w) c) in
        after_loop-IsHandled os contract w.limits.max_read_buffer_size id l.connection end
          (from_local w id.slot l) (put-current-IsWorker w id c l.connection h e good)
          (entry-set w.connections id.slot c l.connection (current-entry w id c e).0) good returns
