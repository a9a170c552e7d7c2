-- ===== src/Readiness/Worker/Invariant/Reading.antt =====
-- The reads of run/slave/src/runtime/readiness/worker.rs keep the worker sound.
use mathlib.Core.Path.{subst}
use thwip.Prelude.{
  slice-eq-some, ◌≤◌, ℕ, suc, ◌+◌, ◌^◌, ◌≡◌, refl, Bool, true, false, ◌||◌, Option, none, some, [],
  ◌∷◌, arith, ltb, leb, if◌then◌else◌, length, length-append, Result, ok, err,
}
use thwip.Prelude.Text.{Bytes}
use thwip.Prelude.Repeat.{Round, again, stop, repeat, Keeps, repeat-Keeps}
use thwip.Http.{
  RequestHead, RequestHeadParse, incomplete, complete, ParseError, parse_request_head, body_length,
  BodyFramingError, unsupported_transfer_encoding, invalid_content_length,
  conflicting_content_length,
}
use thwip.Readiness.Connection.{
  pending_of, ConnectionPhase, reading, writing_response, resolving, proxying, PendingRequest,
  SslSession, with_pending, pending_request, set_pending_request, take_pending_request,
}
use thwip.Readiness.Os.{Os, IoError, would_block, interrupted, other_error}
use thwip.Readiness.Worker.{max_reads_per_event}
use thwip.Readiness.Worker.Writing.{Local}
use thwip.Readiness.Worker.Reading.{
  panicked, request_taken, complete_pending, ReadEnd, taken, body_of, buffer_size, left, closed,
  read_client, complete_request, pend, frame_body, after_head, parse_more, counted_read, extended,
  too_large, after_read, read_round, read_loop,
}
use thwip.Readiness.Worker.Answering.{after_drop, drop_round}
use thwip.Readiness.Worker.Invariant.{IsPhase, IsConnection}

with_pending-IsPhase :
    (limit : ℕ) (o : Option PendingRequest) (phase : ConnectionPhase)
    → IsPhase limit (reading o)
    → IsPhase limit phase
    → IsPhase limit (with_pending o phase)
with_pending-IsPhase limit o (reading pending) h k = h
with_pending-IsPhase limit o writing_response h k = k
with_pending-IsPhase limit o (resolving r) h k = k
with_pending-IsPhase limit o (proxying p) h k = k

pending-ordered :
    (limit : ℕ) (phase : ConnectionPhase) (p : PendingRequest)
    → IsPhase limit phase
    → pending_of phase ≡ some p
    → p.body_start ≤ p.body_end
pending-ordered limit (reading none) p h e = cc
pending-ordered limit (reading (some q)) p h e =
    let same : q ≡ p = cc in subst (λ x. x.body_start ≤ x.body_end) same h.0
pending-ordered limit writing_response p h e = cc
pending-ordered limit (resolving r) p h e = cc
pending-ordered limit (proxying x) p h e = cc

-- A loop of reads that ends without a panic.
abbrev pub Returns : ReadEnd → Type 0
Returns panicked = ⊥
Returns _ = Unit

module _ (os : Os) (limit : ℕ) where
  abbrev IsLocal : Local → Type 0
  IsLocal l = IsConnection limit l.connection

  abbrev IsEnd : Local → ReadEnd → Type 0
  IsEnd l e = IsLocal l × Returns e

  abbrev KeepsLocal : Round Local ReadEnd → Type 0
  KeepsLocal r = Keeps IsLocal IsEnd r

  request_taken-Keeps :
      (l : Local) (head : RequestHead) (xs : Bytes) (o : Option Bytes)
      → IsLocal l
      → o ≡ some xs
      → KeepsLocal (request_taken (taken l) head o)
  unfolding take_pending_request
  request_taken-Keeps l head xs none h e = cc
  request_taken-Keeps l head xs (some body) h e =
      ((h.0, h.1, with_pending-IsPhase limit none l.connection.phase tt h.2), tt)

  complete_request-Keeps : (l : Local) → IsLocal l → KeepsLocal (complete_request l)
  unfolding complete_request
  complete_request-Keeps l h = go (pending_request l.connection) refl
    where
      full :
          (p : PendingRequest)
          → pending_request l.connection ≡ some p
          → (b : Bool) → leb p.body_end (length l.connection.read_buffer) ≡ b
          → KeepsLocal (
              if b
              then request_taken (taken l) p.head (body_of l.connection.read_buffer p)
              else again l)
      full p e true all = request_taken-Keeps l p.head _ (body_of l.connection.read_buffer p) h (
          slice-eq-some l.connection.read_buffer p.body_start p.body_end
            (pending-ordered limit l.connection.phase p h.2 e) (ground arith))
      full p e false all = h

      go :
          (o : Option PendingRequest)
          → pending_request l.connection ≡ o
          → KeepsLocal (complete_pending l o)
      go none e = h
      go (some p) e = full p e (leb p.body_end (length l.connection.read_buffer)) refl

  frame_body-Keeps :
      (l : Local) (head : RequestHead) (consumed : ℕ) (r : Result ℕ BodyFramingError)
      → IsLocal l
      → KeepsLocal (frame_body limit l head consumed r)
  unfolding frame_body set_pending_request
  frame_body-Keeps l head consumed (ok n) h =
      go (leb (2 ^ 64) (consumed + n) || ltb limit (consumed + n)) refl
    where
      pending : PendingRequest
      pending = record { head = head; body_start = consumed; body_end = consumed + n }

      go :
          (b : Bool)
          → (leb (2 ^ 64) (consumed + n) || ltb limit (consumed + n)) ≡ b
          → KeepsLocal (if b then too_large l else complete_request (pend pending l))
      go true e = (h, tt)
      go false e = complete_request-Keeps (pend pending l) (
        h.0,
        h.1,
        with_pending-IsPhase limit (some pending) l.connection.phase (omega arith, ground arith)
            h.2,
      )
  frame_body-Keeps l head consumed (err unsupported_transfer_encoding) h = (h, tt)
  frame_body-Keeps l head consumed (err invalid_content_length) h = (h, tt)
  frame_body-Keeps l head consumed (err conflicting_content_length) h = (h, tt)

  after_head-Keeps :
      (l : Local) (r : Result RequestHeadParse ParseError)
      → IsLocal l
      → KeepsLocal (after_head limit l r)
  unfolding after_head
  after_head-Keeps l (ok incomplete) h = h
  after_head-Keeps l (ok (complete head consumed)) h =
      frame_body-Keeps l head consumed (body_length head) h
  after_head-Keeps l (err e) h = (h, tt)

  parse_more-Keeps :
      (l : Local) (o : Option PendingRequest) → IsLocal l → KeepsLocal (parse_more limit l o)
  unfolding parse_more
  parse_more-Keeps l none h = after_head-Keeps l (parse_request_head l.connection.read_buffer) h
  parse_more-Keeps l (some pending) h = complete_request-Keeps l h

  after_read-Keeps :
      (l : Local) (r : Result Bytes IoError) → IsLocal l → KeepsLocal (after_read os limit l r)
  unfolding after_read
  after_read-Keeps l (ok []) h = go l.connection.ssl
    where
      go :
          (o : Option SslSession)
          → KeepsLocal
              (elim o as (λ _. Round Local ReadEnd) [ none ↦ stop l closed | some s ↦ stop l left ])
      go none = (h, tt)
      go (some s) = (h, tt)
  after_read-Keeps l (ok (b ∷ bytes)) h =
      go (ltb limit (length l.connection.read_buffer + length (b ∷ bytes))) refl
    where
      counted : Local
      counted = counted_read (length (b ∷ bytes)) l

      go :
          (t : Bool)
          → ltb limit (length l.connection.read_buffer + length (b ∷ bytes)) ≡ t
          → KeepsLocal (
              if t
              then too_large counted
              else parse_more limit
                  (extended os (b ∷ bytes) counted)
                  (pending_request l.connection))
      go true e = (h, tt)
      go false e =
          let grown = length-append l.connection.read_buffer (b ∷ bytes) in
          parse_more-Keeps (extended os (b ∷ bytes) counted) (pending_request l.connection)
            (h.0, ground arith, h.2)
  after_read-Keeps l (err would_block) h = (h, tt)
  after_read-Keeps l (err interrupted) h = h
  after_read-Keeps l (err other_error) h = (h, tt)

  pub read_loop-IsLocal :
      (l : Local) → IsLocal l → IsLocal (read_loop os limit l).0 × Returns (read_loop os limit l).1
  unfolding read_loop read_round
  read_loop-IsLocal l h =
      repeat-Keeps IsLocal IsEnd (read_round os limit) left
        (λ s k.
          after_read-Keeps (record s { asked = suc (suc (suc s.asked)) }) (read_client os s) k)
        (λ s k. (k, tt)) max_reads_per_event l h

  after_drop-Keeps :
      (l : Local) (r : Result Bytes IoError)
      → IsLocal l
      → Keeps IsLocal (λ s e. IsLocal s) (after_drop os l r)
  after_drop-Keeps l (ok []) h = h
  after_drop-Keeps l (ok (b ∷ bytes)) h = h
  after_drop-Keeps l (err would_block) h = h
  after_drop-Keeps l (err interrupted) h = h
  after_drop-Keeps l (err other_error) h = h

  pub drop_loop-IsLocal :
      (l : Local) → IsLocal l → IsLocal (repeat (drop_round os) max_reads_per_event false l).0
  unfolding drop_round
  drop_loop-IsLocal l h =
      repeat-Keeps IsLocal (λ s e. IsLocal s) (drop_round os) false
        (λ s k.
          after_drop-Keeps (record s { asked = suc (suc s.asked) }) (os.read s.asked buffer_size) k)
        (λ s k. k) max_reads_per_event l h
