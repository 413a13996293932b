-- ===== src/Pipeline/Chunk.antt =====
-- src/pipeline/capture_pipeline.cpp: the state of the pipeline and `on_audio_chunk`, which shapes a
-- chunk and hands it to the ring buffer, the block recorder and the publisher.
pub mod Left
pub mod Shape
pub mod Whole
pub mod Consumers
pub mod Deliver
use ws_audiod.Base.{
  ℕ, ◌+◌, ◌-◌, ◌*◌, ◌/◌, Bool, true, false, not, ◌&&◌, Option, none, some, List, ◌++◌, length, take,
  replicate, memcpy, add_size, mul_size, ltb, leb, if◌then◌else◌, Floating,
}
use ws_audiod.Config.{DaemonConfig}
use ws_audiod.Ring.{Ring, ◌>>=◌}
use ws_audiod.Ring
use ws_audiod.Clips.{Extractor}
use ws_audiod.Recorder.{Recorder}
use ws_audiod.Recorder
use ws_audiod.Publisher.{Publisher, publish}
use ws_audiod.Pipeline.{apply_downmix}
use ws_audiod.Pipeline.Gain.{apply_gain}
use ws_audiod.Pipeline.Dc.{Dc, apply_dc_remove}
use ws_audiod.Pipeline.Meter.{meter, peak_of, rms_of}

-- What the code reads of it.
pub record AudioChunkMeta : Type 0 where
  pub timestamp_us : ℕ
  pub channels : ℕ
  pub bits_per_sample : ℕ

-- What the pipeline asks the AlsaCapture for, once it is set up.
pub record Capture : Type 0 where
  pub actual_rate : ℕ
  pub actual_period_size : ℕ
  pub capturing : Bool

-- A null pointer is `none`.
pub record Pipeline (m : Floating) : Type 0 where
  pub config : DaemonConfig m
  pub running : Bool
  pub capture : Option Capture
  pub ring_buffer : Option Ring
  pub clip_extractor : Option Extractor
  pub block_recorder : Option Recorder
  pub sample_publisher : Option Publisher
  pub gain_linear : m.float
  pub gain_db : m.float
  pub gain_buffer : List ℕ
  pub downmix_mono : Bool
  pub mono_buffer : List ℕ
  pub dc_remove : Bool
  pub dc_prev_x : List m.float
  pub dc_prev_y : List m.float
  pub peak_level : ℕ
  pub rms_level : m.float
  pub total_frames : ℕ

-- `if (buffer.size() < n) buffer.resize(n);`
abbrev pub grow : List ℕ → ℕ → List ℕ
grow buffer n = if ltb (length buffer) n then buffer ++ replicate (n - length buffer) 0 else buffer

-- The array that `cur_data` or `out_data` points to.
pub record Source : Type 0 where
  pub array : List ℕ
  pub channels : ℕ
  pub samples : ℕ

unfoldable pub push_to : Option Recorder → List ℕ → ℕ → Option Recorder
push_to none out frame_count = none
push_to (some r) out frame_count = some (Recorder.push r out frame_count)

unfoldable pub publish_to : Option Publisher → List ℕ → ℕ → ℕ → Option Publisher
publish_to none out frame_count timestamp_us = none
publish_to (some p) out frame_count timestamp_us = some (publish p out frame_count timestamp_us)

module _ (m : Floating) where
  -- The downmix: the new `mono_buffer_`, and the current data.
  unfoldable pub downmix_chunk : Pipeline m → AudioChunkMeta → List ℕ → ℕ → Pipeline m × Source
  downmix_chunk p meta src sample_count =
      let frame_count = sample_count / meta.channels in
      let mono = apply_downmix src p.mono_buffer frame_count meta.bits_per_sample in
      if p.downmix_mono && leb 2 meta.channels
      then (
        record p { mono_buffer = mono },
        record { array = mono; channels = 1; samples = frame_count },
      )
      else (p, record { array = src; channels = meta.channels; samples = sample_count })

  -- The gain: the new `gain_buffer_`, and whether `out_data` points to it.
  unfoldable pub gain_chunk : Pipeline m → AudioChunkMeta → Source → ℕ → Pipeline m × Bool
  gain_chunk p meta cur data_size =
      let buffer = grow p.gain_buffer data_size in
      let gained = apply_gain m cur.array buffer cur.samples meta.bits_per_sample p.gain_linear in
      if not (m.eq_f p.gain_linear m.one_f)
      then (record p { gain_buffer = gained }, true)
      else (p, false)

  -- The filter, in `gain_buffer_`, to which the current data is copied first where no gain was
  -- applied.
  unfoldable pub dc_chunk : Pipeline m → AudioChunkMeta → Source → ℕ → Bool → Pipeline m × Bool
  dc_chunk p meta cur data_size copied =
      let buffer =
        if copied
        then p.gain_buffer
        else memcpy (grow p.gain_buffer data_size) 0 cur.array data_size in
      let s =
        apply_dc_remove m cur.samples cur.channels meta.bits_per_sample
          (record { samples = buffer; prev_x = p.dc_prev_x; prev_y = p.dc_prev_y }) in
      if p.dc_remove
      then (record p { gain_buffer = s.samples; dc_prev_x = s.prev_x; dc_prev_y = s.prev_y }, true)
      else (p, copied)

  -- The three steps: the data that the consumers are given is the first `data_size` bytes of the
  -- array that `out_data` points to.
  unfoldable pub shape_chunk : Pipeline m → AudioChunkMeta → List ℕ → ℕ → Pipeline m × Source
  shape_chunk p meta src sample_count =
      let (p1, cur) = downmix_chunk p meta src sample_count in
      let data_size = mul_size cur.samples (meta.bits_per_sample / 8) in
      let (p2, gained) = gain_chunk p1 meta cur data_size in
      let (p3, copied) = dc_chunk p2 meta cur data_size gained in
      (p3, record cur { array = take data_size (if copied then p3.gain_buffer else cur.array) })

  -- The state behind the consumers, with the levels and the count of frames.
  unfoldable pub delivered : Pipeline m → AudioChunkMeta → Source → ℕ → Ring → Pipeline m
  delivered p meta out frame_count ring' =
      let levels = meter m meta.bits_per_sample out.samples out.array in
      record p {
        ring_buffer = some ring';
        block_recorder = push_to p.block_recorder out.array frame_count;
        sample_publisher = publish_to p.sample_publisher out.array frame_count meta.timestamp_us;
        peak_level = peak_of m levels;
        rms_level = rms_of m levels out.samples;
        total_frames = add_size p.total_frames frame_count;
      }

  -- `none` where there is no ring buffer, or a loop of it has no fuel left.
  unfoldable pub deliver : Pipeline m → AudioChunkMeta → Source → ℕ → Option (Pipeline m)
  deliver p meta out frame_count = do
    ring ← p.ring_buffer
    ring' ← Ring.write ring out.array frame_count
    some (delivered p meta out frame_count ring')

  unfoldable pub on_audio_chunk : Pipeline m → AudioChunkMeta → List ℕ → ℕ → Option (Pipeline m)
  on_audio_chunk p meta src sample_count =
      let (p', out) = shape_chunk p meta src sample_count in
      deliver p' meta out (sample_count / meta.channels)
