-- ===== src/Readiness/Worker/Invariant/Exchanging.antt =====
-- Writing a request to an upstream, and reading its response (run/slave/src/runtime/readiness/worker.rs),
-- keeps the worker sound.
use thwip.Readiness.Worker.Writing.{sends}
use mathlib.Core.Option.{some-injective}
use thwip.Prelude.{
  drop, slice_from-eq-some, ℕ, zero, suc, min, ◌*◌, ◌≡◌, ◌≢◌, refl, sym, ap, ◌∙◌, Bool, true, false,
  not, ◌||◌, Option, none, some, [], ◌∷◌, arith, if◌then◌else◌, length-drop, is_empty, Result, ok,
  err, ◌>>=◌,
}
use thwip.Prelude.Text.{Bytes}
use thwip.Prelude.Repeat.{Round, stop, repeat, Keeps, repeat-Keeps}
use thwip.Readiness.Token.{ConnectionId, upstream}
use thwip.Readiness.Connection.{
  Connection, ProxyState, reading_response, proxy, begin_proxy, transition, record_progress,
}
use thwip.Readiness.Os.{Os, Contract, IoError, would_block, interrupted, other_error}
use thwip.Readiness.Worker.{
  ReadinessWorker, Fatal, Handled, io_failure, panic, asks, current, put, remove_connection,
  max_writes_per_event,
}
use thwip.Readiness.Worker.Proxying.{in_phase}
use thwip.Readiness.Worker.Exchanging.{
  panicked, after_unsent, Upload, UploadEnd, unfinished, sent, failed, blocked, unsent, is_uploaded,
  after_upload, upload_round, finish_upload, upload, connected, touched, after_request,
  write_request, write_upstream_request, read_upstream, mark_upstream_eof, received, after_read,
  read_upstream_response,
}
use thwip.Readiness.Worker.Invariant.{
  if-IsHandled, IsConnection, IsWorker, IsHandled, if_current-IsHandled, with_token-IsHandled,
  remove_connection-IsWorker, entry-set, current-entry,
}
use thwip.Readiness.Worker.Invariant.Closing.{
  reregister_client-IsHandled, put-current-IsWorker, current-IsConnection,
}
use thwip.Readiness.Worker.Invariant.Proxying.{
  IsProxy, begin_proxy-IsConnection, fail_proxy-IsHandled, proxy_of-IsProxy,
}

-- The request that is being written.
abbrev IsUpload : ℕ → Upload → Type 0
IsUpload limit u = IsProxy limit u.proxy

-- A loop of writes that ends without a panic.
abbrev Returns : UploadEnd → Type 0
Returns panicked = ⊥
Returns _ = Unit

abbrev IsEnd : ℕ → Upload → UploadEnd → Type 0
IsEnd limit u e = IsUpload limit u × Returns e

module _ (os : Os) (contract : Contract os) (limit : ℕ) where
  after_upload-Keeps :
      (u : Upload) (n : ℕ) (r : Result ℕ IoError)
      → IsUpload limit u
      → sends (os.upstream_write n) (unsent u.proxy) ≡ some r
      → Keeps (IsUpload limit) (IsEnd limit) (after_upload os u r)
  unfolding record_progress
  after_upload-Keeps u n (ok zero) h e = (h, tt)
  after_upload-Keeps u n (ok (suc k)) (offset, small) e =
      let rest = drop u.proxy.request_offset u.proxy.request_buffer in
      let same : os.upstream_write n rest ≡ ok (suc k) = some-injective _ _ (
        sym (
          ap (sends (os.upstream_write n))
            (slice_from-eq-some u.proxy.request_buffer u.proxy.request_offset offset))
        ∙ e) in
      let fits = contract.upstream_write_fits n (suc k) rest same in
      (omega (arith, length-drop u.proxy.request_offset u.proxy.request_buffer), small)
  after_upload-Keeps u n (err would_block) h e = (h, tt)
  after_upload-Keeps u n (err interrupted) h e = h
  after_upload-Keeps u n (err other_error) h e = (h, tt)

  after_unsent-Keeps :
      (u : Upload) (n : ℕ) (o : Option (Result ℕ IoError))
      → IsUpload limit u
      → sends (os.upstream_write n) (unsent u.proxy) ≡ o
      → Keeps (IsUpload limit) (IsEnd limit) (after_unsent os u o)
  after_unsent-Keeps u n none h e =
      let same =
        sym (
          ap (sends (os.upstream_write n))
            (slice_from-eq-some u.proxy.request_buffer u.proxy.request_offset h.0))
        ∙ e in
      absurd (cc)
  after_unsent-Keeps u n (some r) h e = after_upload-Keeps u n r h e

  upload_round-Keeps :
      (u : Upload) → IsUpload limit u → Keeps (IsUpload limit) (IsEnd limit) (upload_round os u)
  unfolding upload_round
  upload_round-Keeps u h = go (is_uploaded u.proxy) _ (
      after_unsent-Keeps (record u { asked = suc u.asked }) u.asked
        (sends (os.upstream_write u.asked) (unsent u.proxy)) h refl)
    where
      go :
          (b : Bool) (r : Round Upload UploadEnd)
          → Keeps (IsUpload limit) (IsEnd limit) r
          → Keeps (IsUpload limit) (IsEnd limit) (if b then stop u sent else r)
      go true r later = (h, tt)
      go false r later = later

  finish_upload-IsEnd :
      (u : Upload) (e : UploadEnd)
      → IsEnd limit u e
      → IsEnd limit (finish_upload (u, e)).0 (finish_upload (u, e)).1
  finish_upload-IsEnd u unfinished h = (h.0, go (is_uploaded u.proxy))
    where
      go : (b : Bool) → Returns (if b then sent else unfinished)
      go true = tt
      go false = tt
  finish_upload-IsEnd u sent h = h
  finish_upload-IsEnd u failed h = h
  finish_upload-IsEnd u blocked h = h
  finish_upload-IsEnd u panicked h = h

  upload-IsEnd : (u : Upload) → IsUpload limit u → IsEnd limit (upload os u).0 (upload os u).1
  unfolding upload
  upload-IsEnd u h =
      let (last, end) = repeat (upload_round os) max_writes_per_event unfinished u in
      finish_upload-IsEnd last end (
        repeat-Keeps (IsUpload limit) (IsEnd limit) (upload_round os) unfinished upload_round-Keeps
          (λ s k. (k, tt)) max_writes_per_event u h)

  touched-IsConnection :
      (c : Connection) (u : Upload) (p : ProxyState)
      → IsConnection limit c
      → IsProxy limit p
      → IsConnection limit (touched os c u p)
  touched-IsConnection c u p good h = go u.made_progress (begin_proxy-IsConnection limit c p good h)
    where
      go :
          (b : Bool)
          → IsConnection limit (begin_proxy p c)
          → IsConnection limit (
              if b
              then record (begin_proxy p c) { last_progress = os.now u.asked }
              else begin_proxy p c)
      go true k = k
      go false k = k

module _ (os : Os) (contract : Contract os) where
  after_request-IsHandled :
      (id : ConnectionId) (c : Connection) (u : Upload) (end : UploadEnd) (w : ReadinessWorker)
      → IsWorker w
      → current w id ≡ some c
      → IsUpload w.limits.max_read_buffer_size u
      → Returns end
      → IsHandled (after_request os id c u end w)
  unfolding transition
  after_request-IsHandled id c u panicked w h e up returns = returns
  after_request-IsHandled id c u blocked w h e up returns =
      put-current-IsWorker w id c _ h e
        (begin_proxy-IsConnection _ c u.proxy (current-IsConnection w id c h e) up)
  after_request-IsHandled id c u failed w h e up returns = fail_proxy-IsHandled os id _ _ _ (
      put-current-IsWorker w id c _ h e
        (touched-IsConnection os contract _ c u u.proxy (current-IsConnection w id c h e) up))
  after_request-IsHandled id c u unfinished w h e up returns =
      put-current-IsWorker w id c _ h e
        (touched-IsConnection os contract _ c u u.proxy (current-IsConnection w id c h e) up)
  after_request-IsHandled id c u sent w h e up returns =
      let sound = put-current-IsWorker w id c _ h e (
        touched-IsConnection os contract _ c u (transition reading_response _ u.proxy)
          (current-IsConnection w id c h e) up) in
      with_token-IsHandled id upstream _ (
        if-IsHandled (os.registers (suc (suc u.asked))) _ _ sound
          (fail_proxy-IsHandled os id _ _ _ sound))

  connected-IsProxy :
      (limit : ℕ) (p q : ProxyState) (n : ℕ)
      → IsProxy limit p
      → connected os p n ≡ ok (some q)
      → IsProxy limit q
  unfolding transition
  connected-IsProxy limit p q n h e = ground arith

  connected-no_panic : (p : ProxyState) (n : ℕ) → connected os p n ≢ err panic
  connected-no_panic p n e = ground arith

  write_request-IsHandled :
      (id : ConnectionId) (c : Connection) (w : ReadinessWorker) (o : Option ProxyState)
      → IsWorker w
      → current w id ≡ some c
      → ((p : ProxyState) → o ≡ some p → IsProxy w.limits.max_read_buffer_size p)
      → IsHandled (write_request os id c w o)
  write_request-IsHandled id c w none h e good = fail_proxy-IsHandled os id _ _ w h
  write_request-IsHandled id c w (some p) h e good =
      let start : Upload = record { proxy = p; made_progress = false; asked = w.asked } in
      let (up, returns) =
        upload-IsEnd os contract w.limits.max_read_buffer_size start (good p refl) in
      after_request-IsHandled id c (upload os start).0 (upload os start).1 w h e up returns

  pub write_upstream_request-IsHandled :
      (id : ConnectionId) (w : ReadinessWorker)
      → IsWorker w
      → IsHandled (write_upstream_request os id w)
  unfolding write_upstream_request
  write_upstream_request-IsHandled id w h =
      if_current-IsHandled (current w id) w _ h λ c e. go c e (proxy c) refl
    where
      next :
          (c : Connection)
          → current w id ≡ some c
          → (p : ProxyState) → proxy c ≡ some p
          → (r : Result (Option ProxyState) Fatal) → connected os p w.asked ≡ r
          → IsHandled (r >>= write_request os id c (asks (asks w)))
      next c e p k (ok o) r = write_request-IsHandled id c (asks (asks w)) o h e λ q is_q.
          connected-IsProxy _ p q w.asked
            (proxy_of-IsProxy _ c.phase p (current-IsConnection w id c h e).2 k)
            (r ∙ ap (λ x. ok x) is_q)
      next c e p k (err io_failure) r = tt
      next c e p k (err panic) r = connected-no_panic p w.asked r

      go :
          (c : Connection)
          → current w id ≡ some c
          → (o : Option ProxyState) → proxy c ≡ o
          → IsHandled (elim o as (λ _. Handled) [
            | none ↦ ok w
            | some p ↦
                if in_phase reading_response c
                then ok w
                else connected os p w.asked >>= write_request os id c (asks (asks w))
          ])
      go c e none k = h
      go c e (some p) k =
          if-IsHandled (in_phase reading_response c) _ _ h
            (next c e p k (connected os p w.asked) refl)

pub mark_upstream_eof-IsWorker :
    (id : ConnectionId) (w : ReadinessWorker) → IsWorker w → IsWorker (mark_upstream_eof id w)
unfolding mark_upstream_eof
mark_upstream_eof-IsWorker id w h = go (current w id) refl
  where
    marked :
        (c : Connection)
        → current w id ≡ some c
        → (o : Option ProxyState) → proxy c ≡ o
        → IsWorker (elim o as (λ _. ReadinessWorker) [
          | none ↦ w
          | some p ↦ put w id.slot (begin_proxy (record p { upstream_eof = true }) c)
        ])
    marked c e none k = h
    marked c e (some p) k =
        let good = current-IsConnection w id c h e in
        put-current-IsWorker w id c _ h e (
          begin_proxy-IsConnection w.limits.max_read_buffer_size c
            (record p { upstream_eof = true }) good
            (proxy_of-IsProxy w.limits.max_read_buffer_size c.phase p good.2 k))

    closed :
        (b : Bool) (w' : ReadinessWorker)
        → IsWorker w'
        → IsWorker (if b then remove_connection id w' else w')
    closed true w' h' = remove_connection-IsWorker id w' h'
    closed false w' h' = h'

    go :
        (o : Option Connection)
        → current w id ≡ o
        → IsWorker (elim o as (λ _. ReadinessWorker) [
          | none ↦ w
          | some c ↦
              let w' = elim (proxy c) as (λ _. ReadinessWorker) [
                | none ↦ w
                | some p ↦ put w id.slot (begin_proxy (record p { upstream_eof = true }) c)
              ] in
              if is_empty c.write_buffer then remove_connection id w' else w'
        ])
    go none e = h
    go (some c) e = closed (is_empty c.write_buffer) _ (marked c e (proxy c) refl)

after_read-IsHandled :
    (os : Os) (id : ConnectionId) (c : Connection) (p : ProxyState) (r : Result Bytes IoError)
    (w : ReadinessWorker)
    → IsWorker w
    → current w id ≡ some c
    → proxy c ≡ some p
    → IsHandled (after_read os id c p r w)
unfolding record_progress
after_read-IsHandled os id c p (ok []) w h e k = mark_upstream_eof-IsWorker id w h
after_read-IsHandled os id c p (ok (b ∷ bytes)) w h e k =
    reregister_client-IsHandled os id _ (received os w.asked c p (b ∷ bytes))
      (put-current-IsWorker w id c _ h e (omega arith, begun.1, begun.2))
      (entry-set w.connections id.slot c _ (current-entry w id c e).0)
  where
    begun :
        IsConnection w.limits.max_read_buffer_size
          (begin_proxy (record_progress (os.now w.asked) (record p { response_started = true })) c)
    begun =
        let good = current-IsConnection w id c h e in
        begin_proxy-IsConnection _ c _ good (proxy_of-IsProxy _ c.phase p good.2 k)
after_read-IsHandled os id c p (err would_block) w h e k = h
after_read-IsHandled os id c p (err interrupted) w h e k = fail_proxy-IsHandled os id _ _ w h
after_read-IsHandled os id c p (err other_error) w h e k = fail_proxy-IsHandled os id _ _ w h

pub read_upstream_response-IsHandled :
    (os : Os) (id : ConnectionId) (w : ReadinessWorker)
    → IsWorker w
    → IsHandled (read_upstream_response os id w)
unfolding read_upstream_response
read_upstream_response-IsHandled os id w h =
    if_current-IsHandled (current w id) w _ h λ c e. go c e (proxy c) refl
  where
    go :
        (c : Connection)
        → current w id ≡ some c
        → (o : Option ProxyState) → proxy c ≡ o
        → IsHandled (elim o as (λ _. Handled) [
          | none ↦ ok w
          | some p ↦
              if not (is_empty c.write_buffer) || not (in_phase reading_response c)
              then ok w
              else after_read os id c p
                  (read_upstream
                    (os.upstream_reads w.asked (min (8 * 1024) w.limits.max_write_buffer_size)))
                  (asks w)
        ])
    go c e none k = h
    go c e (some p) k =
        if-IsHandled (not (is_empty c.write_buffer) || not (in_phase reading_response c)) _ _ h
          (after_read-IsHandled os id c p _ (asks w) h e k)
