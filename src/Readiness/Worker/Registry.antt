-- ===== src/Readiness/Worker/Registry.antt =====
-- run/slave/src/runtime/readiness/worker.rs: the slab as a finite map from identifiers to connections. A
-- slot that is used again has another identifier.
use mathlib.Core.Path.{subst}
use thwip.Prelude.{
  ℕ, ◌≡◌, refl, ap, ◌∙◌, Bool, true, false, ◌&&◌, Option, none, some, arith, if◌then◌else◌, ◌==◌,
}
use thwip.Readiness.Token.{ConnectionId}
use thwip.Readiness.Connection.{Connection}
use thwip.Readiness.Worker.{
  ReadinessWorker, entry, current, filter_generation, is_current, same_id, remove_connection,
  forget,
}
use thwip.Readiness.Worker.Slab.{remove_connection-Others, entry-set-none}

-- The specification: a map, with an identifier taken out or put in.
abbrev pub Registry : Type 0
Registry = ConnectionId → Option Connection

abbrev pub delete : ConnectionId → Registry → Registry
delete id registry other = if same_id id other then none else registry other

abbrev pub insert : ConnectionId → Connection → Registry → Registry
insert id c registry other = if same_id id other then some c else registry other

-- The entry of a slot once the connection of a generation is removed from it.
abbrev removed : ℕ → Option Connection → Option Connection
removed generation o =
    if elim (filter_generation generation o) as (λ _. Bool) [ none ↦ false | some c ↦ true ]
    then none
    else o

entry-remove_connection :
    (id : ConnectionId) (w : ReadinessWorker)
    → entry (remove_connection id w).connections id.slot
      ≡ removed id.generation (entry w.connections id.slot)
unfolding remove_connection is_current
entry-remove_connection id w =
    go (elim (current w id) as (λ _. Bool) [ none ↦ false | some c ↦ true ])
  where
    go :
        (b : Bool)
        → entry (if b then forget w id else w).connections id.slot
          ≡ (if b then none else entry w.connections id.slot)
    go true = entry-set-none w.connections id.slot
    go false = refl

filter_generation-removed :
    (g h : ℕ) (o : Option Connection)
    → filter_generation h (removed g o) ≡ (if g == h then none else filter_generation h o)
filter_generation-removed g h none = ground arith
filter_generation-removed g h (some c) = ground arith

-- The slab's map is the specification's with the identifier taken out: no other connection is removed.
pub remove_connection-delete :
    (id : ConnectionId) (w : ReadinessWorker) (other : ConnectionId)
    → current (remove_connection id w) other ≡ delete id (current w) other
remove_connection-delete id w other = go (id.slot == other.slot) refl
  where
    go :
        (b : Bool)
        → (id.slot == other.slot) ≡ b
        → current (remove_connection id w) other
          ≡ (if b && (id.generation == other.generation) then none else current w other)
    go false e =
        ap (filter_generation other.generation)
          (remove_connection-Others id w other.slot (λ same. absurd (ground arith)))
    go true e =
        let same : id.slot ≡ other.slot = ground arith in
        subst
          (λ s.
            filter_generation other.generation (entry (remove_connection id w).connections s) ≡ (
              if id.generation == other.generation
              then none
              else filter_generation other.generation (entry w.connections s)))
          same
          (ap (filter_generation other.generation) (entry-remove_connection id w)
            ∙ filter_generation-removed id.generation other.generation
                (entry w.connections id.slot))
