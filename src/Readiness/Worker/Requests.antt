-- ===== src/Readiness/Worker/Requests.antt =====
-- run/slave/src/runtime/readiness/worker.rs: the request that the reads of one event, or of several, end
-- with is the one that its bytes hold.
use mathlib.Core.Option.{some-injective}
use mathlib.Core.Path.{subst}
use thwip.Prelude.{
  ◌∙◌, slice-eq-some, ℕ, suc, ◌+◌, ◌-◌, ◌^◌, ◌≤◌, ◌≡◌, refl, ap, Bool, true, false, ◌||◌, Option,
  none, some, [], ◌∷◌, ◌++◌, arith, ltb, leb, if◌then◌else◌, length, take, drop, Result, ok, err,
}
use thwip.Prelude.Text.{Bytes}
use thwip.Prelude.Repeat.{Round, again, stop, Keeps, repeat-Keeps}
use thwip.Http.{
  RequestHead, RequestHeadParse, incomplete, complete, ParseError, parse_request_head, body_length,
  BodyFramingError, unsupported_transfer_encoding, invalid_content_length,
  conflicting_content_length,
}
use thwip.Http.Fragments.{parse_request_head-append}
use thwip.Readiness.Connection.{
  Connection, ConnectionPhase, reading, writing_response, resolving, proxying, PendingRequest,
  SslSession, pending_request, pending_of, with_pending, take_pending_request, set_pending_request,
}
use thwip.Readiness.Os.{Os, IoError, would_block, interrupted, other_error}
use thwip.Readiness.Worker.{max_reads_per_event}
use thwip.Readiness.Worker.Writing.{Local}
use thwip.Readiness.Worker.Reading.{
  panicked, request_taken, complete_pending, body_of, ReadEnd, left, closed, refused, requested,
  too_large, body_of, taken, complete_request, pend, frame_body, after_head, parse_more,
  counted_read, extended, after_read, read_client, read_round, read_loop,
}

-- The bytes begin with this head; it ends at the first position, and its body at the second one.
abbrev pub IsFramed : Bytes → PendingRequest → Type 0
IsFramed bytes p =
    (parse_request_head bytes ≡ ok (complete p.head p.body_start))
    × (n : ℕ) × (body_length p.head ≡ ok n)
    × (p.body_start + n ≡ p.body_end)

-- A request that waits for its body is that of the bytes read so far.
abbrev pub IsPending : Connection → Type 0
IsPending c = (p : PendingRequest) → pending_request c ≡ some p → IsFramed c.read_buffer p

-- The bytes begin with this request, of which the body is as long as its head says.
abbrev pub Holds : Bytes → RequestHead → Bytes → Type 0
Holds bytes head body =
    (consumed n : ℕ) × (parse_request_head bytes ≡ ok (complete head consumed))
    × (body_length head ≡ ok n)
    × (consumed + n ≤ length bytes)
    × (body ≡ take n (drop consumed bytes))

abbrev pub IsReadEnd : Local → ReadEnd → Type 0
IsReadEnd l left = IsPending l.connection
IsReadEnd l closed = Unit
IsReadEnd l panicked = ⊥
IsReadEnd l (refused status message) = Unit
IsReadEnd l (requested head body) =
    (l.connection.phase ≡ reading none) × Holds l.connection.read_buffer head body

abbrev IsLocal : Local → Type 0
IsLocal l = IsPending l.connection

abbrev IsRead : Round Local ReadEnd → Type 0
IsRead r = Keeps IsLocal IsReadEnd r

IsFramed-append :
    (bytes more : Bytes) (p : PendingRequest) → IsFramed bytes p → IsFramed (bytes ++ more) p
IsFramed-append bytes more p (parsed, n, framed, ends) =
    (parse_request_head-append bytes more p.head p.body_start parsed, n, framed, ends)

-- Only a connection that reads has a pending request.
with_pending-none :
    (phase : ConnectionPhase) (p : PendingRequest)
    → pending_of phase ≡ some p
    → with_pending none phase ≡ reading none
with_pending-none (reading o) p e = refl
with_pending-none writing_response p e = cc
with_pending-none (resolving r) p e = cc
with_pending-none (proxying x) p e = cc

request_taken-IsRead :
    (l : Local) (p : PendingRequest) (o : Option Bytes)
    → pending_request l.connection ≡ some p
    → IsFramed l.connection.read_buffer p
    → p.body_end ≤ length l.connection.read_buffer
    → o ≡ some (take (p.body_end - p.body_start) (drop p.body_start l.connection.read_buffer))
    → IsRead (request_taken (taken l) p.head o)
unfolding take_pending_request
request_taken-IsRead l p none e framed all is_body = cc
request_taken-IsRead l p (some body) e (parsed, n, framed, ends) all is_body =
    let long : p.body_end - p.body_start ≡ n = omega arith in
    (
      with_pending-none l.connection.phase p e,
      (
        p.body_start,
        n,
        parsed,
        framed,
        omega arith,
        some-injective body _ is_body
            ∙ ap (λ k. take k (drop p.body_start l.connection.read_buffer)) long,
      ),
    )

complete_request-IsRead : (l : Local) → IsLocal l → IsRead (complete_request l)
unfolding complete_request
complete_request-IsRead l h = go (pending_request l.connection) refl
  where
    full :
        (p : PendingRequest)
        → pending_request l.connection ≡ some p
        → (b : Bool) → leb p.body_end (length l.connection.read_buffer) ≡ b
        → IsRead (
            if b
            then request_taken (taken l) p.head (body_of l.connection.read_buffer p)
            else again l)
    full p e true all =
        let framed = h p e in
        request_taken-IsRead l p (body_of l.connection.read_buffer p) e framed (ground arith) (
          slice-eq-some l.connection.read_buffer p.body_start p.body_end (ordered p framed)
            (ground arith))
      where
        ordered :
            (p : PendingRequest) → IsFramed l.connection.read_buffer p → p.body_start ≤ p.body_end
        ordered p (parsed, n, framed, ends) = omega arith
    full p e false all = h

    go :
        (o : Option PendingRequest)
        → pending_request l.connection ≡ o
        → IsRead (complete_pending l o)
    go none e = h
    go (some p) e = full p e (leb p.body_end (length l.connection.read_buffer)) refl

pend-IsLocal :
    (l : Local) (p : PendingRequest) → IsFramed l.connection.read_buffer p → IsLocal (pend p l)
unfolding set_pending_request
pend-IsLocal l p framed q = go l.connection.phase
  where
    go :
        (phase : ConnectionPhase)
        → pending_of (with_pending (some p) phase) ≡ some q
        → IsFramed l.connection.read_buffer q
    go (reading o) e =
        let same : p ≡ q = cc in subst (IsFramed l.connection.read_buffer) same framed
    go writing_response e = cc
    go (resolving r) e = cc
    go (proxying x) e = cc

frame_body-IsRead :
    (limit : ℕ) (l : Local) (head : RequestHead) (consumed : ℕ) (r : Result ℕ BodyFramingError)
    → IsLocal l
    → parse_request_head l.connection.read_buffer ≡ ok (complete head consumed)
    → body_length head ≡ r
    → IsRead (frame_body limit l head consumed r)
unfolding frame_body set_pending_request
frame_body-IsRead limit l head consumed (ok n) h parsed framed =
    go (leb (2 ^ 64) (consumed + n) || ltb limit (consumed + n))
  where
    pending : PendingRequest
    pending = record { head = head; body_start = consumed; body_end = consumed + n }

    is_framed : IsFramed l.connection.read_buffer pending
    is_framed = (parsed, n, framed, refl)

    go : (b : Bool) → IsRead (if b then too_large l else complete_request (pend pending l))
    go true = tt
    go false = complete_request-IsRead (pend pending l) (pend-IsLocal l pending is_framed)
frame_body-IsRead limit l head consumed (err unsupported_transfer_encoding) h parsed framed = tt
frame_body-IsRead limit l head consumed (err invalid_content_length) h parsed framed = tt
frame_body-IsRead limit l head consumed (err conflicting_content_length) h parsed framed = tt

after_head-IsRead :
    (limit : ℕ) (l : Local) (r : Result RequestHeadParse ParseError)
    → IsLocal l
    → parse_request_head l.connection.read_buffer ≡ r
    → IsRead (after_head limit l r)
unfolding after_head
after_head-IsRead limit l (ok incomplete) h e = h
after_head-IsRead limit l (ok (complete head consumed)) h e =
    frame_body-IsRead limit l head consumed (body_length head) h e refl
after_head-IsRead limit l (err x) h e = tt

parse_more-IsRead :
    (limit : ℕ) (l : Local) (o : Option PendingRequest)
    → IsLocal l
    → pending_request l.connection ≡ o
    → IsRead (parse_more limit l o)
unfolding parse_more
parse_more-IsRead limit l none h e =
    after_head-IsRead limit l (parse_request_head l.connection.read_buffer) h refl
parse_more-IsRead limit l (some p) h e = complete_request-IsRead l h

after_read-IsRead :
    (os : Os) (limit : ℕ) (l : Local) (r : Result Bytes IoError)
    → IsLocal l
    → IsRead (after_read os limit l r)
unfolding after_read
after_read-IsRead os limit l (ok []) h = go l.connection.ssl
  where
    go :
        (o : Option SslSession)
        → IsRead
            (elim o as (λ _. Round Local ReadEnd) [ none ↦ stop l closed | some s ↦ stop l left ])
    go none = tt
    go (some s) = h
after_read-IsRead os limit l (ok (b ∷ bytes)) h =
    go (ltb limit (length l.connection.read_buffer + length (b ∷ bytes)))
  where
    more : Local
    more = extended os (b ∷ bytes) (counted_read (length (b ∷ bytes)) l)

    go :
        (t : Bool)
        → IsRead (
            if t
            then too_large (counted_read (length (b ∷ bytes)) l)
            else parse_more limit more (pending_request l.connection))
    go true = tt
    go false =
        parse_more-IsRead limit more (pending_request l.connection)
          (λ p e. IsFramed-append l.connection.read_buffer (b ∷ bytes) p (h p e)) refl
after_read-IsRead os limit l (err would_block) h = h
after_read-IsRead os limit l (err interrupted) h = h
after_read-IsRead os limit l (err other_error) h = tt

-- Where a request that waits for its body is that of the bytes received before, the reads for an event
-- end with a request only on a connection whose phase is the reading of one, and only if the bytes
-- received so far begin with it: its head is the one that the parser finds in them, and its body the
-- bytes behind the head, as many as the head says. Reads that end with no request leave such a connection
-- for the next event, and no read ends with a slice of the buffer out of its bounds.
pub read_loop-IsReadEnd :
    (os : Os) (limit : ℕ) (l : Local)
    → IsPending l.connection
    → IsReadEnd (read_loop os limit l).0 (read_loop os limit l).1
unfolding read_loop read_round
read_loop-IsReadEnd os limit l h =
    repeat-Keeps IsLocal IsReadEnd (read_round os limit) left
      (λ s k.
        after_read-IsRead os limit (record s { asked = suc (suc (suc s.asked)) }) (read_client os s)
          k)
      (λ s k. k) max_reads_per_event l h
