-- ===== src/Readiness/Token.antt =====
-- run/slave/src/runtime/readiness/token.rs: connection identifiers as `mio` tokens. A `usize` is a
-- number below 2 ^ 64.
pub mod Codec
pub mod Generations
use thwip.Prelude.{
  ℕ, ◌+◌, ◌-◌, ◌*◌, ◌/◌, ◌%◌, ◌^◌, ◌≡◌, Bool, true, false, ◌||◌, Option, none, some, ltb, leb, ◌==◌,
  if◌then◌else◌, Result, ok, err, ◌>>=◌, ◌>>◌, guard, not,
}
use Prim.Native.Nat.{bit_and, bit_or}

abbrev pub control_token : ℕ
control_token = 2 ^ 64 - 1

abbrev pub connection_tag : ℕ
connection_tag = 2 ^ 63

abbrev pub upstream_tag : ℕ
upstream_tag = 2 ^ 62

abbrev pub slot_mask : ℕ
slot_mask = 2 ^ 32 - 1

abbrev pub generation_mask : ℕ
generation_mask = 2 ^ 30 - 1

pub record ConnectionId : Type 0 where
  pub slot : ℕ
  pub generation : ℕ

pub data SocketRole : Type 0 where
  client upstream : SocketRole

pub data TokenError : Type 0 where
  invalid_identifier collides_with_control : TokenError

abbrev pub role_tag : SocketRole → ℕ
role_tag client = 0
role_tag upstream = upstream_tag

-- `token`'s bits; `generation << SLOT_BITS` keeps its low 64 bits.
unfoldable pub token_bits : ConnectionId → SocketRole → ℕ
token_bits id role =
    bit_or (bit_or (bit_or connection_tag (role_tag role)) (id.generation * 2 ^ 32 % 2 ^ 64))
      id.slot

unfoldable pub token : ConnectionId → SocketRole → Result ℕ TokenError
unfolding token_bits
token id role =
    if ltb slot_mask id.slot || ((id.generation == 0) || ltb generation_mask id.generation)
    then err invalid_identifier
    else if token_bits id role == control_token
    then err collides_with_control
    else ok (token_bits id role)

unfoldable pub from_token : ℕ → Option (ConnectionId × SocketRole)
from_token token =
    if (token == control_token) || (bit_and token connection_tag == 0)
    then none
    else (let generation = bit_and (token / 2 ^ 32) generation_mask in
        let role = if bit_and token upstream_tag == 0 then client else upstream in
        if generation == 0
        then none
        else some (record { slot = bit_and token slot_mask; generation = generation }, role))

-- `previous.wrapping_add(1) & GENERATION_MASK`, where 0 is left out.
unfoldable pub next_generation : ℕ → ℕ
next_generation previous =
    let next = bit_and ((previous + 1) % 2 ^ 64) generation_mask in if next == 0 then 1 else next
