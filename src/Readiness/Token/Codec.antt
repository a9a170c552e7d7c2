-- ===== src/Readiness/Token/Codec.antt =====
-- run/slave/src/runtime/readiness/token.rs: `token` and `from_token` are inverse to each other.
use thwip.Prelude.{
  ℕ, ◌+◌, ◌*◌, ◌/◌, ◌%◌, ◌^◌, ◌<◌, ◌≤◌, ◌≡◌, sym, ◌∙◌, ◌↔◌, some, arith, ◌==◌, false, ok,
}
use Prim.Native.Nat.{bit_and, bit_or}
use thwip.Prelude.Bits.{bit_or-add, bit_and-ones, bit_and-bit}
use thwip.Readiness.Token.{
  control_token, connection_tag, upstream_tag, slot_mask, generation_mask, ConnectionId, SocketRole,
  client, upstream, role_tag, token_bits, token, from_token,
}

abbrev IsEncodable : ConnectionId → Type 0
IsEncodable id = (id.slot < 2 ^ 32) × (0 < id.generation) × (id.generation < 2 ^ 30)

abbrev token_sum : ConnectionId → SocketRole → ℕ
token_sum id role = connection_tag + role_tag role + id.generation * 2 ^ 32 + id.slot

token_bits-sum :
    (id : ConnectionId) (role : SocketRole)
    → IsEncodable id
    → token_bits id role ≡ token_sum id role
unfolding token_bits
token_bits-sum id role (s, _, g) =
    let shifted : id.generation * 2 ^ 32 % 2 ^ 64 ≡ id.generation * 2 ^ 32 = omega arith in
    let tag = bit_or-add 63 1 (role_tag role) (ground arith) in
    rw (shifted, tag, above role) (below role)
  where
    above :
        (role : SocketRole)
        → bit_or (connection_tag + role_tag role) (id.generation * 2 ^ 32)
          ≡ connection_tag + role_tag role + id.generation * 2 ^ 32
    above client = bit_or-add 62 2 (id.generation * 2 ^ 32) (omega arith)
    above upstream = bit_or-add 62 3 (id.generation * 2 ^ 32) (omega arith)

    below :
        (role : SocketRole)
        → bit_or (connection_tag + role_tag role + id.generation * 2 ^ 32) id.slot
          ≡ token_sum id role
    below client =
        let e : connection_tag + 0 + id.generation * 2 ^ 32 ≡ (2 ^ 31 + id.generation) * 2 ^ 32 =
          omega arith in
        rw e (bit_or-add 32 (2 ^ 31 + id.generation) id.slot s ∙ omega arith)
    below upstream =
        let e : connection_tag + upstream_tag + id.generation * 2 ^ 32
            ≡ (2 ^ 31 + 2 ^ 30 + id.generation) * 2 ^ 32 =
          omega arith in
        rw e (bit_or-add 32 (2 ^ 31 + 2 ^ 30 + id.generation) id.slot s ∙ omega arith)

from_token-bits :
    (t : ℕ)
    → t < 2 ^ 64
    → (bit_and t connection_tag ≡ t / 2 ^ 63 * 2 ^ 63)
      × (bit_and t upstream_tag ≡ t / 2 ^ 62 % 2 * 2 ^ 62)
      × (bit_and (t / 2 ^ 32) generation_mask ≡ t / 2 ^ 32 % 2 ^ 30)
      × (bit_and t slot_mask ≡ t % 2 ^ 32)
from_token-bits t small = (
  omega (arith, bit_and-bit 63 t),
  omega (arith, bit_and-bit 62 t),
  omega (arith, bit_and-ones 30 (t / 2 ^ 32)),
  omega (arith, bit_and-ones 32 t),
)

from_token-open :
    (t : ℕ) (id : ConnectionId) (role : SocketRole)
    → t < 2 ^ 64
    → from_token t ≡ some (id, role)
    → IsEncodable id × (token_sum id role ≡ t) × ((t == control_token) ≡ false)
unfolding from_token
from_token-open t id role small h =
    let (a, b, c, d) = from_token-bits t small in ground (arith, a, b, c, d)

from_token-close :
    (t : ℕ) (id : ConnectionId) (role : SocketRole)
    → IsEncodable id
    → token_sum id role ≡ t
    → (t == control_token) ≡ false
    → from_token t ≡ some (id, role)
unfolding from_token
from_token-close t id role fits e free =
    let (a, b, c, d) = from_token-bits t (ground arith) in ground (arith, a, b, c, d)

token-open :
    (t : ℕ) (id : ConnectionId) (role : SocketRole)
    → token id role ≡ ok t
    → IsEncodable id × (token_bits id role ≡ t) × ((t == control_token) ≡ false)
unfolding token
token-open t id role h = ground arith

token-close :
    (t : ℕ) (id : ConnectionId) (role : SocketRole)
    → IsEncodable id
    → token_bits id role ≡ t
    → (t == control_token) ≡ false
    → token id role ≡ ok t
unfolding token
token-close t id role fits e free = ground arith

-- A value of 64 bits is read as the identifier and the role that have it for a token, and as none
-- where no identifier and role have it.
pub from_token-eq-some_iff :
    (t : ℕ) (id : ConnectionId) (role : SocketRole)
    → t < 2 ^ 64
    → (from_token t ≡ some (id, role)) ↔ (token id role ≡ ok t)
from_token-eq-some_iff t id role small = (
  λ h.
      let (fits, e, free) = from_token-open t id role small h in
      token-close t id role fits (token_bits-sum id role fits ∙ e) free,
  λ h.
      let (fits, e, free) = token-open t id role h in
      from_token-close t id role fits (sym (token_bits-sum id role fits) ∙ e) free,
)

-- Tokens of connections have the highest bit set, and are not the one of the control socket.
pub token-bounds :
    (t : ℕ) (id : ConnectionId) (role : SocketRole)
    → token id role ≡ ok t
    → (2 ^ 63 ≤ t) × (t < 2 ^ 64) × ((t == control_token) ≡ false)
token-bounds t id role h =
    let (fits, bits, free) = token-open t id role h in
    let sum = token_bits-sum id role fits in
    let tag = role_tag-small role in (omega arith, omega arith, free)
  where
    role_tag-small : (role : SocketRole) → role_tag role ≤ upstream_tag
    role_tag-small client = omega arith
    role_tag-small upstream = omega arith
