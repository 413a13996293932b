-- ===== src/Pipeline/Dc.antt =====
-- src/pipeline/capture_pipeline.cpp: `apply_dc_remove`, a high-pass filter for each channel.
pub mod Loop
pub mod Channels
mod Tests
use ws_audiod.Base.{
  ℕ, zero, suc, ◌+◌, ◌*◌, ◌/◌, List, drop, get_or, set_at, memcpy, ◌==◌, if◌then◌else◌, ℤ, saturate,
  Floating,
}
use ws_audiod.Pcm.{width, signed, bytes_of, half, cast_half}

-- The array that is filtered in place, and the last input and output of each channel.
pub record Dc (m : Floating) : Type 0 where
  pub samples : List ℕ
  pub prev_x : List m.float
  pub prev_y : List m.float

module _ (m : Floating) where
  -- The value that is stored for an output of the filter.
  unfoldable pub dc_output : ℕ → m.float → ℤ
  dc_output bits y = saturate (half bits) (m.cast (cast_half bits) y)

  -- float y = x - dc_prev_x_[ch] + DC_ALPHA * dc_prev_y_[ch];
  unfoldable pub dc_step : m.float → m.float → m.float → m.float
  dc_step x px py = m.add_f (m.sub_f x px) (m.mul_f m.dc_alpha py)

  -- The body of the inner loop, for sample `k` of channel `ch`.
  unfoldable pub dc_sample : ℕ → ℕ → ℕ → Dc m → Dc m
  dc_sample bits k ch s =
      let w = width bits in
      let x = m.of_int (signed bits (drop (k * w) s.samples)) in
      let y = dc_step x (get_or s.prev_x ch m.zero_f) (get_or s.prev_y ch m.zero_f) in
      record {
        samples = memcpy s.samples (k * w) (bytes_of bits (dc_output bits y)) w;
        prev_x = set_at s.prev_x ch x;
        prev_y = set_at s.prev_y ch y;
      }

  -- The loops over the channels of a frame, and over the frames.
  unfoldable pub dc_channels : ℕ → ℕ → ℕ → ℕ → ℕ → Dc m → Dc m
  dc_channels zero bits channels f ch s = s
  dc_channels (suc left) bits channels f ch s =
      dc_channels left bits channels f (suc ch) (dc_sample bits (f * channels + ch) ch s)

  unfoldable pub dc_frames : ℕ → ℕ → ℕ → ℕ → Dc m → Dc m
  dc_frames zero bits channels f s = s
  dc_frames (suc left) bits channels f s =
      dc_frames left bits channels (suc f) (dc_channels channels bits channels f 0 s)

  unfoldable pub apply_dc_remove : ℕ → ℕ → ℕ → Dc m → Dc m
  apply_dc_remove sample_count channels bits s =
      let frame_count = sample_count / channels in
      if bits == 16
      then dc_frames frame_count 16 channels 0 s
      else if bits == 24
      then dc_frames frame_count 24 channels 0 s
      else if bits == 32
      then dc_frames frame_count 32 channels 0 s
      else s
