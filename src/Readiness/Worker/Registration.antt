-- ===== src/Readiness/Worker/Registration.antt =====
-- run/slave/src/runtime/readiness/worker.rs: the registration of a connection, on the slab as a map.
use mathlib.Core.Path.{subst}
use thwip.Prelude.{
  ℕ, zero, suc, ◌≤◌, ◌<◌, ◌≡◌, ◌≢◌, refl, sym, ap, ◌∙◌, Bool, true, false, ◌&&◌, ◌⊎◌, inl, inr,
  Option, none, some, List, [], ◌∷◌, ◌++◌, arith, if◌then◌else◌, ◌==◌, ltb, length, get_elem?, set,
  map, Result, ok, err,
}
use thwip.Readiness.Token.{ConnectionId, TokenError, client, token, slot_mask, next_generation}
use thwip.Readiness.Connection.{Connection, SslSession, new_connection}
use thwip.Readiness.Os.{Os, Contract}
use thwip.Readiness.Worker.{
  ReadinessWorker, RegisteredListener, asks, entry, current, filter_generation, same_id,
}
use thwip.Readiness.Worker.Slab.{entry-set_other, entry-set-none}
use thwip.Readiness.Worker.Accepting.{
  taken, insert_entry, grow, generation_at, with_session, insert_connection, register_connection,
}
use thwip.Readiness.Worker.Registry.{Registry, insert}

entry-set_same :
    (xs : List (Option Connection)) (slot : ℕ) (o : Option Connection)
    → slot < length xs
    → entry (set xs slot o) slot ≡ o
entry-set_same [] slot o h = absurd (omega arith)
entry-set_same (x ∷ xs) zero o h = refl
entry-set_same (x ∷ xs) (suc slot) o h = entry-set_same xs slot o (omega arith)

entry-snoc_last :
    (xs : List (Option Connection)) (c : Connection)
    → entry (xs ++ (some c ∷ [])) (length xs) ≡ some c
entry-snoc_last [] c = refl
entry-snoc_last (x ∷ xs) c = entry-snoc_last xs c

entry-snoc_other :
    (xs : List (Option Connection)) (c : Connection) (s : ℕ)
    → s ≢ length xs
    → entry (xs ++ (some c ∷ [])) s ≡ entry xs s
entry-snoc_other [] c zero ne = absurd (ne refl)
entry-snoc_other [] c (suc s) ne = refl
entry-snoc_other (x ∷ xs) c zero ne = refl
entry-snoc_other (x ∷ xs) c (suc s) ne = entry-snoc_other xs c s (λ e. ne (ap suc e))

entry-insert_same :
    (slot : ℕ) (c : Connection) (xs : List (Option Connection))
    → slot ≤ length xs
    → entry (insert_entry slot c xs) slot ≡ some c
unfolding insert_entry
entry-insert_same slot c xs h = go (ltb slot (length xs)) refl
  where
    go :
        (b : Bool)
        → ltb slot (length xs) ≡ b
        → entry (if b then set xs slot (some c) else xs ++ (some c ∷ [])) slot ≡ some c
    go true e = entry-set_same xs slot (some c) (ground arith)
    go false e =
        let last : length xs ≡ slot = ground arith in
        subst (λ s. entry (xs ++ (some c ∷ [])) s ≡ some c) last (entry-snoc_last xs c)

entry-insert_other :
    (slot : ℕ) (c : Connection) (xs : List (Option Connection)) (s : ℕ)
    → slot ≤ length xs
    → s ≢ slot
    → entry (insert_entry slot c xs) s ≡ entry xs s
unfolding insert_entry
entry-insert_other slot c xs s h ne = go (ltb slot (length xs)) refl
  where
    go :
        (b : Bool)
        → ltb slot (length xs) ≡ b
        → entry (if b then set xs slot (some c) else xs ++ (some c ∷ [])) s ≡ entry xs s
    go true e = entry-set_other xs slot s (some c) ne
    go false e = entry-snoc_other xs c s (λ same. ne (ground arith))

free-entry :
    (xs : List (Option Connection)) (slot : ℕ)
    → get_elem? (map taken xs) slot ≢ some true
    → entry xs slot ≡ none
free-entry [] slot h = refl
free-entry (none ∷ xs) zero h = refl
free-entry (some c ∷ xs) zero h = absurd (h refl)
free-entry (x ∷ xs) (suc slot) h = free-entry xs slot h

length-map-taken : (xs : List (Option Connection)) → length (map taken xs) ≡ length xs
length-map-taken [] = refl
length-map-taken (x ∷ xs) = ap suc (length-map-taken xs)

-- A new connection in a free slot: the map with it put in under its identifier.
current-insert :
    (connections : List (Option Connection)) (id : ConnectionId) (c : Connection)
    (other : ConnectionId)
    → id.slot ≤ length connections
    → entry connections id.slot ≡ none
    → c.generation ≡ id.generation
    → filter_generation other.generation (entry (insert_entry id.slot c connections) other.slot) ≡ (
        if same_id id other
        then some c
        else filter_generation other.generation (entry connections other.slot))
current-insert connections id c other fits free mine = go (id.slot == other.slot) refl
  where
    at_slot : (h : ℕ) → filter_generation h (some c) ≡ (if id.generation == h then some c else none)
    at_slot h = ground arith

    go :
        (b : Bool)
        → (id.slot == other.slot) ≡ b
        → filter_generation other.generation (entry (insert_entry id.slot c connections) other.slot)
          ≡ (if b && (id.generation == other.generation)
              then some c
              else filter_generation other.generation (entry connections other.slot))
    go false e =
        ap (filter_generation other.generation)
          (entry-insert_other id.slot c connections other.slot fits (λ same. absurd (ground arith)))
    go true e =
        let same : id.slot ≡ other.slot = ground arith in
        subst
          (λ s.
            filter_generation other.generation (entry (insert_entry id.slot c connections) s) ≡ (
              if id.generation == other.generation
              then some c
              else filter_generation other.generation (entry connections s)))
          same
          (ap (filter_generation other.generation) (entry-insert_same id.slot c connections fits)
            ∙ at_slot other.generation
            ∙ ap
                (λ o.
                  if id.generation == other.generation
                  then some c
                  else filter_generation other.generation o)
                (sym free))

-- The identifier that the next connection gets.
abbrev pub next_id : Os → ReadinessWorker → ConnectionId
next_id os w =
    let slot = os.vacant_key (map taken w.connections) in
    record {
      slot = slot;
      generation = next_generation (generation_at (grow w.generations (suc slot)) slot);
    }

-- What a registration does to the map: nothing, or one connection more.
abbrev pub Registered :
    Registry → Registry → ConnectionId → (Option SslSession → Connection) → Type 0
Registered before after id c =
    ((other : ConnectionId) → after other ≡ before other)
    ⊎ ((ssl : Option SslSession) × ((other : ConnectionId)
          → after other ≡ insert id (c ssl) before other))

-- A connection that is taken out again, since its socket could not be registered.
current-taken_out :
    (connections : List (Option Connection)) (id : ConnectionId) (c : Connection)
    (other : ConnectionId)
    → id.slot ≤ length connections
    → entry connections id.slot ≡ none
    → filter_generation other.generation
        (entry (set (insert_entry id.slot c connections) id.slot none) other.slot)
      ≡ filter_generation other.generation (entry connections other.slot)
current-taken_out connections id c other fits free =
    ap (filter_generation other.generation) (go (id.slot == other.slot) refl)
  where
    go :
        (b : Bool)
        → (id.slot == other.slot) ≡ b
        → entry (set (insert_entry id.slot c connections) id.slot none) other.slot
          ≡ entry connections other.slot
    go false e =
        let differs : other.slot ≢ id.slot = λ same. absurd (ground arith) in
        entry-set_other (insert_entry id.slot c connections) id.slot other.slot none differs
        ∙ entry-insert_other id.slot c connections other.slot fits differs
    go true e =
        let same : id.slot ≡ other.slot = ground arith in
        subst
          (λ s.
            entry (set (insert_entry id.slot c connections) id.slot none) s ≡ entry connections s)
          same (entry-set-none (insert_entry id.slot c connections) id.slot ∙ sym free)

insert_connection-Registered :
    (os : Os) (id : ConnectionId) (c : Option SslSession → Connection) (ssl : Option SslSession)
    (w : ReadinessWorker)
    → id.slot ≤ length w.connections
    → entry w.connections id.slot ≡ none
    → (c ssl).generation ≡ id.generation
    → Registered (current w) (current (insert_connection os id.slot id.generation (c ssl) w)) id c
insert_connection-Registered os id c ssl w fits free mine =
    go (token id client) (os.registers w.asked)
  where
    next : ReadinessWorker
    next = record w { connections = insert_entry id.slot (c ssl) w.connections }

    go :
        (r : Result ℕ TokenError) (b : Bool)
        → Registered
            (current w)
            (current (elim r as (λ _. ReadinessWorker) [
              | err e ↦ next
              | ok t ↦
                  if b
                  then asks next
                  else record (asks next) { connections = set next.connections id.slot none }
            ]))
            id
            c
    go (err e) b = inr (ssl, λ other. current-insert w.connections id (c ssl) other fits free mine)
    go (ok t) true =
        inr (ssl, λ other. current-insert w.connections id (c ssl) other fits free mine)
    go (ok t) false = inl (λ other. current-taken_out w.connections id (c ssl) other fits free)

-- With a slab that keeps its contract, a registration either leaves the slab's map as it is, or puts a
-- new connection in, under an identifier that no connection had, and leaves the others as they are.
pub register_connection-insert :
    (os : Os) (group : ℕ) (listener : RegisteredListener) (w : ReadinessWorker)
    → Contract os
    → (current w (next_id os w) ≡ none)
      × Registered
          (current w)
          (current (register_connection os group listener w))
          (next_id os w)
          (λ ssl. new_connection group (next_id os w).generation ssl (os.now (suc w.asked)))
unfolding register_connection new_connection
register_connection-insert os group listener w contract = (
  ap (filter_generation id.generation) free,
  go (ltb slot_mask id.slot) (with_session os listener.ssl w.asked),
)
  where
    id : ConnectionId
    id = next_id os w

    fits : id.slot ≤ length w.connections
    fits =
        omega (
          arith,
          contract.vacant_key_fits (map taken w.connections),
          length-map-taken w.connections,
        )

    free : entry w.connections id.slot ≡ none
    free = free-entry w.connections id.slot (contract.vacant_key_free (map taken w.connections))

    c : Option SslSession → Connection
    c = λ ssl. new_connection group id.generation ssl (os.now (suc w.asked))

    next : ReadinessWorker
    next = record w {
      generations = set (grow w.generations (suc id.slot)) id.slot id.generation;
      asked = suc (suc w.asked);
    }

    go :
        (b : Bool) (o : Option (Option SslSession))
        → Registered
            (current w)
            (current (
              if b then w else elim o as (λ _. ReadinessWorker) [
                | none ↦ next
                | some ssl ↦ insert_connection os id.slot id.generation (c ssl) next
              ]))
            id
            c
    go true o = inl (λ other. refl)
    go false none = inl (λ other. refl)
    go false (some ssl) = insert_connection-Registered os id c ssl next fits free refl
