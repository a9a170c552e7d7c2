-- ===== src/Readiness/Worker/Closings.antt =====
-- run/slave/src/runtime/readiness/worker.rs: which connections a shutdown and the idle timeout close.
use mathlib.Core.Path.{subst}
use thwip.Prelude.{
  ℕ, suc, ◌-◌, ◌≤◌, ◌<◌, ◌≡◌, ◌⊎◌, inl, inr, refl, sym, ◌∙◌, Bool, true, false, not, ◌&&◌, Option,
  none, some, arith, leb, if◌then◌else◌, length,
}
use thwip.StaticFiles.Serving.{FileStream}
use thwip.Readiness.Token.{ConnectionId}
use thwip.Readiness.Connection.{
  Connection, ConnectionPhase, reading, writing_response, resolving, proxying, PendingRequest,
  ResolvingState, ProxyState, SslSession, phase_is_handling, ssl_handshake_expired,
}
use thwip.Readiness.Os.{Os}
use thwip.Readiness.Worker.{ReadinessWorker, entry}
use thwip.Readiness.Worker.Timers.{
  begin_shutdown, is_quiet, close_idle_connections, is_idle_connection, handshake_expired,
}
use thwip.Readiness.Worker.Slab.{unless, begin_shutdown-entry, close_idle_connections-entry}

-- An entry of the slab before a shutdown and after it.
pub data ShutdownEntry : Option Connection → Option Connection → Type 0 where
  absent : ShutdownEntry none none
  streaming :
      (c : Connection) (stream : FileStream)
      → c.static_stream ≡ some stream
      → ShutdownEntry (some c) (some c)
  writing :
      (c : Connection) → c.write_offset < length c.write_buffer → ShutdownEntry (some c) (some c)
  closed :
      (c : Connection)
      → c.static_stream ≡ none
      → length c.write_buffer ≤ c.write_offset
      → ShutdownEntry (some c) none

unless-ShutdownEntry :
    (slot : ℕ) (o : Option Connection) → ShutdownEntry o (unless (λ _. is_quiet) slot o)
unless-ShutdownEntry slot none = absent
unless-ShutdownEntry slot (some c) =
    go c.static_stream refl (leb (length c.write_buffer) c.write_offset) refl
  where
    go :
        (s : Option FileStream)
        → c.static_stream ≡ s
        → (b : Bool) → leb (length c.write_buffer) c.write_offset ≡ b
        → ShutdownEntry (some c) (
            if not (elim s as (λ _. Bool) [ none ↦ false | some x ↦ true ]) && b
            then none
            else some c)
    go (some stream) e b e' = streaming c stream e
    go none e true e' = closed c e (ground arith)
    go none e false e' = writing c (ground arith)

-- A shutdown keeps the connections that stream a file or have bytes left to write, as they are, and
-- closes every other one, whatever it waits for: also one whose request is with an upstream.
pub begin_shutdown-ShutdownEntry :
    (os : Os) (w : ReadinessWorker) (slot : ℕ)
    → ShutdownEntry (entry w.connections slot) (entry (begin_shutdown os w).connections slot)
begin_shutdown-ShutdownEntry os w slot =
    subst (ShutdownEntry (entry w.connections slot)) (sym (begin_shutdown-entry os w slot))
      (unless-ShutdownEntry slot (entry w.connections slot))

-- A connection whose request is on its way, and one that waits for its client.
pub data IsAtWork : ConnectionPhase → Type 0 where
  resolves : (resolution : ResolvingState) → IsAtWork (resolving resolution)
  proxies : (proxy : ProxyState) → IsAtWork (proxying proxy)

pub data IsAtRest : ConnectionPhase → Type 0 where
  reads : (pending : Option PendingRequest) → IsAtRest (reading pending)
  writes : IsAtRest writing_response

-- A TLS handshake that runs and has used up its time, and a session of which that does not hold.
abbrev pub IsLate : Bool → ℕ → SslSession → Type 0
IsLate is_handshaking now ssl =
    (is_handshaking ≡ true) × (ssl.handshake_timeout ≤ now - ssl.started_at)

abbrev pub IsInTime : Bool → ℕ → SslSession → Type 0
IsInTime is_handshaking now ssl =
    (is_handshaking ≡ false) ⊎ (now - ssl.started_at < ssl.handshake_timeout)

-- An entry before the idle connections are closed and after it, at a time, by what the session says.
pub data IdleEntry (limit now : ℕ) (is_handshaking : ConnectionId → Bool) (slot : ℕ)
    : Option Connection → Option Connection → Type 0 where
  vacant : IdleEntry limit now is_handshaking slot none none
  idle :
      (c : Connection)
      → IsAtRest c.phase
      → limit ≤ now - c.last_progress
      → IdleEntry limit now is_handshaking slot (some c) none
  late :
      (c : Connection) (ssl : SslSession)
      → c.ssl ≡ some ssl
      → IsLate (is_handshaking (record { slot = slot; generation = c.generation })) now ssl
      → IdleEntry limit now is_handshaking slot (some c) none
  kept :
      (c : Connection)
      → IsAtWork c.phase ⊎ (now - c.last_progress < limit)
      → ((ssl : SslSession)
          → c.ssl ≡ some ssl
          → IsInTime (is_handshaking (record { slot = slot; generation = c.generation })) now ssl)
      → IdleEntry limit now is_handshaking slot (some c) (some c)

module _ (limit now : ℕ) (is_handshaking : ConnectionId → Bool) (slot : ℕ) where
  abbrev Idles : Option Connection → Option Connection → Type 0
  Idles = IdleEntry limit now is_handshaking slot

  in_time :
      (c : Connection) (h : Bool)
      → IsAtWork c.phase ⊎ (now - c.last_progress < limit)
      → is_handshaking (record { slot = slot; generation = c.generation }) ≡ h
      → Idles (some c) (if ssl_handshake_expired h now c then none else some c)
  unfolding ssl_handshake_expired
  in_time c h active e = go c.ssl refl
    where
      go :
          (o : Option SslSession)
          → c.ssl ≡ o
          → Idles (some c) (
              if elim o as (λ _. Bool) [
                | none ↦ false
                | some ssl ↦ h && leb ssl.handshake_timeout (now - ssl.started_at)
              ]
              then none
              else some c)
      go none k = kept c active (λ ssl k'. let wrong = sym k ∙ k' in absurd (cc))
      go (some ssl) k = decide h (leb ssl.handshake_timeout (now - ssl.started_at)) e refl
        where
          same : (other : SslSession) → c.ssl ≡ some other → ssl ≡ other
          same other k' = let both = sym k ∙ k' in cc

          decide :
              (h b : Bool)
              → is_handshaking (record { slot = slot; generation = c.generation }) ≡ h
              → leb ssl.handshake_timeout (now - ssl.started_at) ≡ b
              → Idles (some c) (if h && b then none else some c)
          decide false b e e' = kept c active (λ other k'. inl e)
          decide true true e e' = late c ssl k (e, ground arith)
          decide true false e e' = kept c active (λ other k'. inr (
              subst (λ x. now - x.started_at < x.handshake_timeout) (same other k') (ground arith)))

  -- The two selections, one after the other.
  unless-Idles :
      (hs : ConnectionId → Connection → Bool) (o : Option Connection)
      → ((id : ConnectionId) (c : Connection)
          → hs id c ≡ ssl_handshake_expired (is_handshaking id) now c)
      → Idles o (unless hs slot (unless (λ _. is_idle_connection limit now) slot o))
  unless-Idles hs none same = vacant
  unless-Idles hs (some c) same = go c.phase refl (leb limit (now - c.last_progress)) refl
    where
      id : ConnectionId
      id = record { slot = slot; generation = c.generation }

      active :
          IsAtWork c.phase ⊎ (now - c.last_progress < limit)
          → Idles (some c) (unless hs slot (some c))
      active a =
          subst (λ b. Idles (some c) (if b then none else some c)) (sym (same id c))
            (in_time c (is_handshaking id) a refl)

      rests :
          (b : Bool)
          → IsAtRest c.phase
          → leb limit (now - c.last_progress) ≡ b
          → Idles (some c) (unless hs slot (if b then none else some c))
      rests true rest e = idle c rest (ground arith)
      rests false rest e = active (inr (ground arith))

      go :
          (phase : ConnectionPhase)
          → c.phase ≡ phase
          → (b : Bool) → leb limit (now - c.last_progress) ≡ b
          → Idles
              (some c)
              (unless hs slot (if not (phase_is_handling phase) && b then none else some c))
      go (reading pending) p b e = rests b (subst IsAtRest (sym p) (reads pending)) e
      go writing_response p b e = rests b (subst IsAtRest (sym p) writes) e
      go (resolving resolution) p b e = active (inl (subst IsAtWork (sym p) (resolves resolution)))
      go (proxying proxy) p b e = active (inl (subst IsAtWork (sym p) (proxies proxy)))

-- A turn closes the connections that have made no progress for the idle timeout or longer while they read
-- a request or write a response, and those whose TLS handshake has used up its time; it keeps every other
-- one as it is, so one whose request is with an upstream or a resolver is not idle.
pub close_idle_connections-IdleEntry :
    (os : Os) (w : ReadinessWorker) (slot : ℕ)
    → IdleEntry w.limits.idle_timeout
        (os.now w.asked)
        (os.is_handshaking (suc w.asked))
        slot
        (entry w.connections slot)
        (entry (close_idle_connections os w).connections slot)
close_idle_connections-IdleEntry os w slot =
    subst
      (IdleEntry w.limits.idle_timeout (os.now w.asked) (os.is_handshaking (suc w.asked)) slot
        (entry w.connections slot))
      (sym (close_idle_connections-entry os w slot))
      (unless-Idles w.limits.idle_timeout (os.now w.asked) (os.is_handshaking (suc w.asked)) slot
        (handshake_expired os w.asked) (entry w.connections slot) (λ id c. refl))
