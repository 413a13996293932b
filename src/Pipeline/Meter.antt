-- ===== src/Pipeline/Meter.antt =====
-- src/pipeline/capture_pipeline.cpp: the level metering of a chunk, the loops of its portable branch.
pub mod Peak
mod Tests
use ws_audiod.Base.{
  ℕ, zero, suc, ◌+◌, ◌*◌, List, drop, ltb, ◌==◌, if◌then◌else◌, ℤ, pos, abs_ℤ, shift_16, min,
  Floating,
}
use ws_audiod.Pcm.{width, signed}

pub record Meter (m : Floating) : Type 0 where
  pub peak : ℕ
  pub sum_sq : m.double

-- A sample of 32 bits counts by its upper half.
unfoldable pub meter_value : ℕ → List ℕ → ℤ
meter_value bits src = if bits == 32 then shift_16 (signed bits src) else signed bits src

module _ (m : Floating) where
  -- The body of the loops for a sample `s`.
  unfoldable pub meter_step : Meter m → ℤ → Meter m
  meter_step a s = record {
    peak = if ltb a.peak (abs_ℤ s) then abs_ℤ s else a.peak;
    sum_sq = m.add_d a.sum_sq (m.mul_d (m.double_of s) (m.double_of s));
  }

  unfoldable pub meter_loop : ℕ → ℕ → List ℕ → ℕ → Meter m → Meter m
  meter_loop zero bits src i a = a
  meter_loop (suc left) bits src i a =
      meter_loop left bits src (suc i) (meter_step a (meter_value bits (drop (i * width bits) src)))

  unfoldable pub meter : ℕ → ℕ → List ℕ → Meter m
  meter bits samples src =
      let start : Meter m = record { peak = 0; sum_sq = m.double_of (pos 0) } in
      if bits == 16
      then meter_loop samples 16 src 0 start
      else if bits == 24
      then meter_loop samples 24 src 0 start
      else if bits == 32
      then meter_loop samples 32 src 0 start
      else start

  -- The two levels that are stored.
  unfoldable pub peak_of : Meter m → ℕ
  peak_of a = min a.peak 32767

  unfoldable pub rms_of : Meter m → ℕ → m.float
  rms_of a samples = m.single (m.sqrt_d (m.div_d a.sum_sq (m.double_of (pos samples))))
