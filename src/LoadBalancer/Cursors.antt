-- ===== src/LoadBalancer/Cursors.antt =====
-- The cursors of the balancer as a map.
use thwip.Prelude.{ℕ, ◌≡◌, refl, true, [], ◌∷◌, arith, if◌then◌else◌}
use thwip.Prelude.Text.{Bytes, ◌=ᵇ◌, =ᵇ_iff}
use thwip.LoadBalancer.{Cursors, get_cursor, set_cursor}

-- A write moves the cursor under its key and no other, and a key that has none gets one.
get_cursor-set_cursor :
    (key other : Bytes) (value : ℕ) (cursors : Cursors)
    → get_cursor other (set_cursor key value cursors)
      ≡ (if key =ᵇ other then value else get_cursor other cursors)
unfolding get_cursor set_cursor
get_cursor-set_cursor key other value [] = refl
get_cursor-set_cursor key other value ((k, v) ∷ cursors) = ground (
  arith,
  =ᵇ_iff key other,
  =ᵇ_iff k key,
  =ᵇ_iff k other,
  get_cursor-set_cursor key other value cursors,
)

pub =ᵇ-self : (a : Bytes) → (a =ᵇ a) ≡ true
=ᵇ-self a = (=ᵇ_iff a a).1 refl

pub get_cursor-set_cursor_self :
    (key : Bytes) (value : ℕ) (cursors : Cursors)
    → get_cursor key (set_cursor key value cursors) ≡ value
get_cursor-set_cursor_self key value cursors =
    ground (arith, get_cursor-set_cursor key key value cursors, =ᵇ-self key)
