-- ===== src/IoUring/Operation/Codec.antt =====
-- run/slave/src/runtime/io_uring/operation.rs: `encode` and `decode` are inverse to each other.
use thwip.Prelude.{
  ℕ, ◌+◌, ◌*◌, ◌/◌, ◌%◌, ◌^◌, ◌≤◌, ◌<◌, ◌≡◌, refl, sym, ap, ◌∙◌, ◌↔◌, Option, none, some, arith,
  ◌==◌, false,
}
use Prim.Native.Nat.{bit_and}
use thwip.Prelude.Bits.{bit_or-add, bit_and-ones}
use thwip.IoUring.Operation.{
  OperationKind, OperationId, kind_code, encode, kind_of, decode_as, decode,
}

-- The values that the fields' types have, less the generation 0.
abbrev pub IsOperation : OperationId → Type 0
IsOperation operation =
    (operation.slot < 2 ^ 32) × (0 < operation.generation) × (operation.generation < 2 ^ 16)

kind_code-bounds : (kind : OperationKind) → (1 ≤ kind_code kind) × (kind_code kind ≤ 6)
kind_code-bounds kind = ground arith

kind_of-kind_code : (kind : OperationKind) → kind_of (kind_code kind) ≡ some kind
unfolding kind_of
kind_of-kind_code kind = ground arith

kind_code-kind_of :
    (code : ℕ) (kind : OperationKind) → kind_of code ≡ some kind → kind_code kind ≡ code
unfolding kind_of
kind_code-kind_of code kind h = ground arith

encode-sum :
    (operation : OperationId)
    → IsOperation operation
    → encode operation
      ≡ kind_code operation.kind * 2 ^ 48 + operation.generation * 2 ^ 32 + operation.slot
unfolding encode
encode-sum operation (s, _, g) =
    let (_, c) = kind_code-bounds operation.kind in
    let code = kind_code operation.kind in
    let kind_part : code * 2 ^ 48 % 2 ^ 64 ≡ code * 2 ^ 48 = omega arith in
    let generation_part : operation.generation * 2 ^ 32 % 2 ^ 64 ≡ operation.generation * 2 ^ 32 =
      omega arith in
    let high = bit_or-add 48 code (operation.generation * 2 ^ 32) (omega arith) in
    let low = bit_or-add 32 (code * 2 ^ 16 + operation.generation) operation.slot s in
    let joined : code * 2 ^ 48 + operation.generation * 2 ^ 32
        ≡ (code * 2 ^ 16 + operation.generation) * 2 ^ 32 =
      omega arith in
    rw (kind_part, generation_part, high, joined) (low ∙ omega arith)

generation_bits : (value : ℕ) → bit_and (value / 2 ^ 32) 0xffff % 2 ^ 16 ≡ value / 2 ^ 32 % 2 ^ 16
generation_bits value = omega (arith, bit_and-ones 16 (value / 2 ^ 32))

decode-sum :
    (operation : OperationId)
    → IsOperation operation
    → decode (kind_code operation.kind * 2 ^ 48 + operation.generation * 2 ^ 32 + operation.slot)
      ≡ some operation
unfolding decode
decode-sum operation (s, positive, g) =
    let (_, c) = kind_code-bounds operation.kind in
    let value =
      kind_code operation.kind * 2 ^ 48 + operation.generation * 2 ^ 32 + operation.slot in
    let kind : value / 2 ^ 48 % 2 ^ 16 ≡ kind_code operation.kind = omega arith in
    let generation : bit_and (value / 2 ^ 32) 0xffff % 2 ^ 16 ≡ operation.generation =
      generation_bits value ∙ omega arith in
    let slot : value % 2 ^ 32 ≡ operation.slot = omega arith in
    let nonzero : (operation.generation == 0) ≡ false = ground arith in
    rw (decode, kind, kind_of-kind_code operation.kind, generation, slot, nonzero) refl

decoded-sum :
    (value : ℕ) (operation : OperationId)
    → value < 2 ^ 64
    → decode value ≡ some operation
    → IsOperation operation
      × (kind_code operation.kind * 2 ^ 48 + operation.generation * 2 ^ 32 + operation.slot ≡ value)
unfolding decode
decoded-sum value operation small h =
    go (kind_of (value / 2 ^ 48 % 2 ^ 16)) (kind_code-kind_of (value / 2 ^ 48 % 2 ^ 16)) h
  where
    go :
        (kind : Option OperationKind)
        → ((k : OperationKind) → kind ≡ some k → kind_code k ≡ value / 2 ^ 48 % 2 ^ 16)
        → decode_as value kind ≡ some operation
        → IsOperation operation
          × (kind_code operation.kind * 2 ^ 48 + operation.generation * 2 ^ 32 + operation.slot
              ≡ value)
    go none code k = cc
    go (some kind) code k =
        let same = code kind refl in let bits = generation_bits value in ground (arith, same, bits)

-- Below 2 ^ 64 `decode` answers an operation exactly where the value is the operation's encoding, with a
-- slot of 32 bits and a generation of 16 bits that is not 0.
pub decode-eq-some_iff :
    (value : ℕ) (operation : OperationId)
    → value < 2 ^ 64
    → (decode value ≡ some operation) ↔ (IsOperation operation × (encode operation ≡ value))
decode-eq-some_iff value operation small = (
  λ h. let (fits, e) = decoded-sum value operation small h in (fits, encode-sum operation fits ∙ e),
  λ (fits, e). ap decode (sym e ∙ encode-sum operation fits) ∙ decode-sum operation fits,
)
