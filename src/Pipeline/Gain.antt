-- ===== src/Pipeline/Gain.antt =====
-- src/pipeline/capture_pipeline.cpp: `apply_gain`, the loops of its portable branch.
pub mod Saturates
mod Tests
use ws_audiod.Base.{
  ℕ, zero, suc, ◌+◌, ◌*◌, ◌^◌, List, drop, memcpy, ◌==◌, if◌then◌else◌, ℤ, saturate, Floating,
}
use ws_audiod.Pcm.{width, signed, bytes_of, half, cast_half}

module _ (m : Floating) where
  -- A sample times the gain, converted to `int32_t`, or to `int64_t` for 32 bits, and clamped to the
  -- range of the samples.
  unfoldable pub gain_sample : ℕ → m.float → ℤ → ℤ
  gain_sample bits gain v =
      saturate (half bits) (m.cast (cast_half bits) (m.mul_f (m.of_int v) gain))

  -- The loop for samples of `bits` bits, from sample `i` on.
  unfoldable pub gain_loop : ℕ → ℕ → List ℕ → List ℕ → m.float → ℕ → List ℕ
  gain_loop zero bits src dst gain i = dst
  gain_loop (suc left) bits src dst gain i =
      let w = width bits in
      let scaled = gain_sample bits gain (signed bits (drop (i * w) src)) in
      gain_loop left bits src (memcpy dst (i * w) (bytes_of bits scaled) w) gain (suc i)

  -- What `dst` holds afterwards.
  unfoldable pub apply_gain : List ℕ → List ℕ → ℕ → ℕ → m.float → List ℕ
  apply_gain src dst sample_count bits gain =
      if bits == 16
      then gain_loop sample_count 16 src dst gain 0
      else if bits == 24
      then gain_loop sample_count 24 src dst gain 0
      else if bits == 32
      then gain_loop sample_count 32 src dst gain 0
      else dst
