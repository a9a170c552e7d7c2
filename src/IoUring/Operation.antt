-- ===== src/IoUring/Operation.antt =====
-- run/slave/src/runtime/io_uring/operation.rs: operations as the 64 bits of user data that a
-- completion gives back, and the generations of connection.rs.
pub mod Codec
use thwip.Prelude.{
  ℕ, ◌+◌, ◌-◌, ◌*◌, ◌/◌, ◌%◌, ◌^◌, ◌≡◌, Bool, true, false, Option, none, some, ◌==◌, if◌then◌else◌,
}
use Prim.Native.Nat.{bit_and, bit_or}

pub data OperationKind : Type 0 where
  accept read write proxy_connect proxy_write proxy_read : OperationKind

pub record OperationId : Type 0 where
  pub slot : ℕ
  pub generation : ℕ
  pub kind : OperationKind

abbrev pub control_user_data : ℕ
control_user_data = 0

abbrev pub cancel_user_data : ℕ
cancel_user_data = 2 ^ 64 - 1

abbrev pub dns_user_data : ℕ
dns_user_data = 2 ^ 64 - 2

abbrev pub timer_user_data : ℕ
timer_user_data = 2 ^ 64 - 3

abbrev pub proxy_cancel_user_data : ℕ
proxy_cancel_user_data = 2 ^ 64 - 4

-- The discriminants of the `repr(u8)`.
abbrev pub kind_code : OperationKind → ℕ
kind_code accept = 1
kind_code read = 2
kind_code write = 3
kind_code proxy_connect = 4
kind_code proxy_write = 5
kind_code proxy_read = 6

unfoldable pub encode : OperationId → ℕ
encode operation =
    bit_or
      (bit_or (kind_code operation.kind * 2 ^ 48 % 2 ^ 64) (operation.generation * 2 ^ 32 % 2 ^ 64))
      operation.slot

unfoldable pub kind_of : ℕ → Option OperationKind
kind_of code =
    if code == 1
    then some accept
    else if code == 2
    then some read
    else if code == 3
    then some write
    else if code == 4
    then some proxy_connect
    else if code == 5
    then some proxy_write
    else if code == 6
    then some proxy_read
    else none

abbrev pub decode_as : ℕ → Option OperationKind → Option OperationId
decode_as value none = none
decode_as value (some kind) =
    let generation = bit_and (value / 2 ^ 32) 0xffff % 2 ^ 16 in
    if generation == 0
    then none
    else some (record { slot = value % 2 ^ 32; generation = generation; kind = kind })

unfoldable pub decode : ℕ → Option OperationId
unfolding kind_of
decode value = decode_as value (kind_of (value / 2 ^ 48 % 2 ^ 16))

unfoldable pub next_generation : ℕ → ℕ
next_generation previous = let next = (previous + 1) % 2 ^ 16 in if next == 0 then 1 else next
