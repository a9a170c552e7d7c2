-- ===== src/StaticFiles/Serving/Chunks.antt =====
-- `spawn_file_stream` (run/slave/src/static_files.rs): what the chunks of
-- a stream amount to.
use thwip.Prelude.{
  ℕ, zero, suc, ◌+◌, ◌-◌, ◌≤◌, ◌<◌, min, ◌≡◌, refl, ap, true, List, [], ◌∷◌, ◌++◌, arith, leb,
  length, take, drop, length-drop, length-take, Result, ok,
}
use thwip.Prelude.Text.{Bytes}
use thwip.StaticFiles.{stream_chunk_size}
use thwip.StaticFiles.Serving.{IoErrorKind, FileSystem, FileStream, chunks_of, spawn_file_stream}

abbrev pub concat : List Bytes → Bytes
concat [] = []
concat (chunk ∷ chunks) = chunk ++ concat chunks

abbrev pub all_ok : List Bytes → List (Result Bytes IoErrorKind)
all_ok [] = []
all_ok (chunk ∷ chunks) = ok chunk ∷ all_ok chunks

abbrev pub AreChunks : List Bytes → Type 0
AreChunks [] = Unit
AreChunks (chunk ∷ chunks) =
    (0 < length chunk) × (length chunk ≤ stream_chunk_size) × AreChunks chunks

-- The chunks, in which no message is an error, that hold `text` together.
abbrev pub Delivers : List (Result Bytes IoErrorKind) → Bytes → Type 0
Delivers messages text =
    (chunks : List Bytes) × (messages ≡ all_ok chunks) × AreChunks chunks × (concat chunks ≡ text)

take-nil : (n : ℕ) → take {A = ℕ} n [] ≡ []
take-nil zero = refl
take-nil (suc n) = refl

take-split :
    (n k : ℕ) (text : Bytes) → k ≤ n → take k text ++ take (n - k) (drop k text) ≡ take n text
take-split n zero text h = ap (λ j. take j text) (omega arith)
take-split zero (suc k) text h = absurd (omega arith)
take-split (suc n) (suc k) [] h = take-nil (suc n - suc k)
take-split (suc n) (suc k) (c ∷ text) h =
    let e : suc n - suc k ≡ n - k = omega arith in
    rw e (ap (λ t. c ∷ t) (take-split n k text (omega arith)))

chunks_of-Delivers :
    (fuel : ℕ) (content : Bytes) (n : ℕ)
    → n ≤ fuel
    → n ≤ length content
    → Delivers (chunks_of fuel content n) (take n content)
unfolding chunks_of
chunks_of-Delivers zero content zero h k = ([], refl, tt, refl)
chunks_of-Delivers (suc fuel) content zero h k = ([], refl, tt, refl)
chunks_of-Delivers zero content (suc n) h k = absurd (omega arith)
chunks_of-Delivers (suc fuel) content (suc n) h k = go (
    chunks_of-Delivers fuel (drop size content) (suc n - size) (omega arith)
      (omega (arith, length-drop size content)))
  where
    size : ℕ
    size = min stream_chunk_size (suc n)

    enough : leb size (length content) ≡ true
    enough = ground arith

    go :
        Delivers
          (chunks_of fuel (drop size content) (suc n - size))
          (take (suc n - size) (drop size content))
        → Delivers (chunks_of (suc fuel) content (suc n)) (take (suc n) content)
    go (chunks, same, sizes, text) = (
      take size content ∷ chunks,
      rw (enough, same) refl,
      (omega (arith, length-take size content), omega (arith, length-take size content), sizes),
      rw text (take-split (suc n) size content (omega arith)),
    )

-- A stream that fits in the file delivers exactly its part of the file, in chunks of at least one byte
-- and at most the chunk size.
pub spawn_file_stream-Delivers :
    (fs : FileSystem) (stream : FileStream) (content : Bytes)
    → fs.read stream.path ≡ ok content
    → stream.start + stream.length ≤ length content
    → Delivers (spawn_file_stream fs stream) (take stream.length (drop stream.start content))
unfolding spawn_file_stream
spawn_file_stream-Delivers fs stream content e h =
    rw (spawn_file_stream, e)
      (chunks_of-Delivers stream.length (drop stream.start content) stream.length (omega arith)
        (omega (arith, length-drop stream.start content)))
