-- ===== src/Pcm.antt =====
-- Samples in bytes, little end first, as the pipeline, the block recorder and the clip extractor
-- read them: src/pipeline/capture_pipeline.cpp, src/capture/block_recorder.cpp and
-- src/capture/clip_extractor.cpp. An `int32_t` is its bit pattern, a number below 2 ^ 32.
pub mod Signed
pub mod Sample
pub mod Arrays
pub mod Unpack
mod Tests
use Prim.Native.Nat.{bit_and, bit_or}
use ws_audiod.Base.{
  ℕ, zero, suc, ◌+◌, ◌*◌, ◌/◌, ◌%◌, ◌^◌, List, [], ◌∷◌, get_or, drop, ◌==◌, if◌then◌else◌, ℤ,
  to_int, of_int, le,
}

-- int32_t v = p[0] | (p[1] << 8) | (p[2] << 16); if (v & 0x800000) v |= 0xFF000000;
pub unpack24 : ℕ → ℕ → ℕ → ℕ
unpack24 p0 p1 p2 =
    let v = bit_or (bit_or p0 (p1 * 2 ^ 8)) (p2 * 2 ^ 16) in
    if bit_and v 0x800000 == 0 then v else bit_or v 0xff000000

-- The three bytes that the code stores back: v & 0xFF, (v >> 8) & 0xFF and (v >> 16) & 0xFF. The
-- shift of a negative value keeps its sign, which the mask takes off again.
pub pack24 : ℕ → ℕ × ℕ × ℕ
pack24 v = (bit_and v 0xff, bit_and (v / 2 ^ 8) 0xff, bit_and (v / 2 ^ 16) 0xff)

-- Bytes of a sample as the calls of libsndfile read them.
abbrev pub width : ℕ → ℕ
width bits = if bits == 24 then 3 else if bits == 32 then 4 else 2

-- The first sample of an array, as it is handed to libsndfile: 24 bits are put at the left of an
-- `int`, 32 and 16 bits are an `int` or a `short` of the array.
unfoldable pub sample : ℕ → List ℕ → ℕ
unfolding unpack24
sample bits src =
    let p = λ (i : ℕ). get_or src i 0 in
    if bits == 24
    then (unpack24 (p 0) (p 1) (p 2) * 2 ^ 8) % 2 ^ 32
    else if bits == 32
    then p 0 + p 1 * 2 ^ 8 + p 2 * 2 ^ 16 + p 3 * 2 ^ 24
    else p 0 + p 1 * 2 ^ 8

-- The first `count` samples.
unfoldable pub unpack : ℕ → ℕ → List ℕ → List ℕ
unfolding sample
unpack bits zero src = []
unpack bits (suc count) src = sample bits src ∷ unpack bits count (drop (width bits) src)

-- The first sample of an array as the pipeline reads it: an `int16_t`, three bytes put together, or
-- an `int32_t`.
unfoldable pub signed : ℕ → List ℕ → ℤ
unfolding unpack24
signed bits src =
    let p = λ (i : ℕ). get_or src i 0 in
    if bits == 24
    then to_int 0x80000000 (unpack24 (p 0) (p 1) (p 2))
    else if bits == 32
    then to_int 0x80000000 (p 0 + p 1 * 2 ^ 8 + p 2 * 2 ^ 16 + p 3 * 2 ^ 24)
    else to_int 0x8000 (p 0 + p 1 * 2 ^ 8)

-- The bytes that it stores for a value.
unfoldable pub bytes_of : ℕ → ℤ → List ℕ
unfolding pack24
bytes_of bits v =
    let (d0, d1, d2) = pack24 (of_int 0x80000000 v) in
    if bits == 24
    then d0 ∷ d1 ∷ d2 ∷ []
    else if bits == 32
    then le 4 (of_int 0x80000000 v)
    else le 2 (of_int 0x8000 v)

-- The magnitude of the least value.
abbrev pub half : ℕ → ℕ
half bits = if bits == 24 then 0x800000 else if bits == 32 then 0x80000000 else 0x8000

-- That of the type that a sample is converted to before it is clamped: `int32_t`, and `int64_t` for
-- samples of 32 bits.
abbrev pub cast_half : ℕ → ℕ
cast_half bits = if bits == 32 then 2 ^ 63 else 2 ^ 31
