-- ===== src/Pipeline/Life.antt =====
-- src/pipeline/capture_pipeline.cpp: how the pipeline is built, set up, started and stopped, its
-- parameters and its counts.
pub mod Ready
pub mod Tune
pub mod Parts
pub mod SetUp
pub mod Initialize
pub mod Feed
pub mod Order
pub mod Tests
use ws_audiod.Base.{
  ℕ, ◌+◌, ◌*◌, ◌/◌, Bool, true, false, not, ◌&&◌, ◌||◌, Option, none, some, List, [], take, ◌++◌,
  length, add_size, min, replicate, mul_size, ltb, leb, if◌then◌else◌, Text, codes, text_eq, pos,
  Floating,
}
use ws_audiod.Config.{AudioConfig, DaemonConfig}
use mathlib.Core.Option
use ws_audiod.Ring.{Ring, ring_buffer, available_frames, ◌>>=◌}
use ws_audiod.Clips.{Extractor, clip_extractor}
use ws_audiod.Recorder.{Recorder, block_recorder}
use ws_audiod.Recorder
use ws_audiod.Recorder.Writer.{Outside}
use ws_audiod.Publisher.{Publisher, System, sample_publisher, cleanup}
use ws_audiod.Publisher
use ws_audiod.Pipeline.Chunk.{Pipeline, Capture, grow}

-- `ClipExtractor::start` and `stop`, but for the thread.
abbrev pub start_clips : Extractor → Extractor
start_clips c = record c { running = true }

abbrev pub stop_clips : Extractor → Extractor
stop_clips c = record c { running = false }

unfoldable pub stop_recorder : ℕ → Outside → Option Recorder → Option (Option Recorder)
stop_recorder fuel o none = some none
stop_recorder fuel o (some r) = Option.map some (Recorder.stop fuel o r)

module _ (m : Floating) where
  -- static_cast<float>(std::pow(10.0, db / 20.0))
  unfoldable pub linear : m.double → m.float
  linear db = m.single (m.pow_d (m.double_of (pos 10)) (m.div_d db (m.double_of (pos 20))))

  -- The constructor.
  unfoldable pub capture_pipeline : DaemonConfig m → Pipeline m
  capture_pipeline config =
      let a : AudioConfig m = config.audio in
      let out_ch = if a.downmix_mono then 1 else a.channels in
      record {
        config = config;
        running = false;
        capture = none;
        ring_buffer = none;
        clip_extractor = none;
        block_recorder = none;
        sample_publisher = none;
        gain_linear = linear (m.widen a.gain_db);
        gain_db = a.gain_db;
        gain_buffer = [];
        downmix_mono = a.downmix_mono;
        mono_buffer = [];
        dc_remove = a.dc_remove;
        dc_prev_x = replicate out_ch m.zero_f;
        dc_prev_y = replicate out_ch m.zero_f;
        peak_level = 0;
        rms_level = m.zero_f;
        total_frames = 0;
      }

  -- The AlsaCapture: the rate and the period that the device is set up with, if it is, and whether
  -- the capture starts.
  pub record Devices : Type 0 where
    pub capture_opens : AudioConfig m → Option (ℕ × ℕ)
    pub capture_starts : Bool
    pub system : System

  abbrev pub is_mixed : Pipeline m → Bool
  is_mixed p = p.downmix_mono && leb 2 p.config.audio.channels

  abbrev pub output_channels : Pipeline m → ℕ
  output_channels p = if is_mixed p then 1 else p.config.audio.channels

  -- The recorder, which a disabled one leaves null. Its `initialize` returns true on every branch.
  unfoldable pub set_recorder : Pipeline m → ℕ → Pipeline m
  set_recorder p rate =
      let c = p.config.block_recorder in
      let r =
        block_recorder c.enabled c.output_dir c.format c.block_duration_seconds rate
          (output_channels p) p.config.audio.bits_per_sample in
      if c.enabled then record p { block_recorder = some r } else p

  -- The publisher, and whether the set-up goes on.
  unfoldable pub set_publisher : System → Pipeline m → ℕ → ℕ → Pipeline m × Bool
  set_publisher o p rate period =
      let s =
        sample_publisher p.config.shm_name rate (output_channels p) p.config.audio.bits_per_sample
          period in
      let (s', ok) = Publisher.initialize o s in
      if p.config.enable_sample_sharing
      then (record p { sample_publisher = some s' }, ok)
      else (p, true)

  -- std::vector::resize to more or fewer elements.
  abbrev pub resize : List ℕ → ℕ → List ℕ
  resize buffer n = take n (grow buffer n)

  unfoldable pub set_buffers : Pipeline m → ℕ → Pipeline m
  set_buffers p period =
      let a = p.config.audio in
      let bps = a.bits_per_sample / 8 in
      let with_gain = record p {
        gain_buffer = resize p.gain_buffer (mul_size (mul_size period a.channels) bps);
      } in
      if is_mixed p
      then record with_gain {
        mono_buffer = resize p.mono_buffer (mul_size (mul_size period 1) bps);
      }
      else with_gain

  unfoldable pub finish_set_up : Pipeline m × Bool → ℕ → Pipeline m × Bool
  finish_set_up (p, ok) period = if ok then (set_buffers p period, true) else (p, false)

  -- `initialize` after the capture: whether the pipeline is set up.
  unfoldable pub set_up : System → Pipeline m → ℕ → ℕ → Pipeline m × Bool
  set_up o p rate period =
      let a = p.config.audio in
      let bps = a.bits_per_sample / 8 in
      let ch = output_channels p in
      let with_ring = record p {
        capture =
            some (record { actual_rate = rate; actual_period_size = period; capturing = false });
        ring_buffer = some (ring_buffer (mul_size p.config.ring_buffer_seconds rate) ch bps);
        clip_extractor =
            some (clip_extractor p.config.clips_dir (codes "wav") rate ch a.bits_per_sample);
      } in
      finish_set_up (set_publisher o (set_recorder with_ring rate) rate period) period

  unfoldable pub initialize : Devices → Pipeline m → Pipeline m × Bool
  initialize o p = elim (o.capture_opens p.config.audio) [
    | none ↦ (
      record p {
        capture = some (record { actual_rate = 0; actual_period_size = 0; capturing = false });
      },
      false,
    )
    | some (rate, period) ↦ set_up o.system p rate period
  ]

  unfoldable pub start_capture : Devices → Pipeline m → Capture → Pipeline m × Bool
  start_capture o p capture =
      if o.capture_starts
      then (record p { capture = some (record capture { capturing = true }); running = true }, true)
      else (p, false)

  -- `start`: `none` where a pointer that it goes through is null. The capture starts last.
  unfoldable pub start : Devices → Pipeline m → Option (Pipeline m × Bool)
  start o p =
      let recorders = Option.map Recorder.start p.block_recorder in
      let fresh = do
        clips ← p.clip_extractor
        capture ← p.capture
        some (
            start_capture o
              (record p { clip_extractor = some (start_clips clips); block_recorder = recorders })
              capture)
      in if p.running then some (p, true) else fresh

  -- `stop`, which the destructor calls too: what feeds the others is stopped first. `none` where the
  -- writer thread of the recorder has no fuel left.
  unfoldable pub stop : ℕ → Outside → Pipeline m → Option (Pipeline m)
  stop fuel o p =
      let quiet = do
        clips ← p.clip_extractor
        capture ← p.capture
        recorders ← stop_recorder fuel o p.block_recorder
        some (record p {
          running = false;
          capture = some (record capture { capturing = false });
          clip_extractor = some (stop_clips clips);
          block_recorder = recorders;
          sample_publisher = Option.map cleanup p.sample_publisher;
        })
      in if p.running then quiet else some p

  abbrev pub is_true : Text → Bool
  is_true value = text_eq value (codes "true") || text_eq value (codes "1")

  -- `set_parameter`: `none` where `std::stod` throws, which no caller catches.
  unfoldable pub set_gain : Pipeline m → Text → Option (Pipeline m × Bool)
  set_gain p value = do
    db ← m.stod value
    some (record p { gain_db = m.single db; gain_linear = linear db }, true)

  unfoldable pub set_dc_remove : Pipeline m → Bool → Pipeline m
  set_dc_remove p enabled = if enabled then record p { dc_remove = true } else record p {
    dc_remove = false;
    dc_prev_x = replicate (length p.dc_prev_x) m.zero_f;
    dc_prev_y = replicate (length p.dc_prev_y) m.zero_f;
  }

  unfoldable pub set_parameter : Pipeline m → Text → Text → Option (Pipeline m × Bool)
  set_parameter p key value =
      if text_eq key (codes "gain_db") || text_eq key (codes "gain")
      then set_gain p value
      else if text_eq key (codes "dc_remove")
      then some (set_dc_remove p (is_true value), true)
      else some (p, false)

  pub record Stats : Type 0 where
    pub frames_captured : ℕ
    pub ring_buffer_frames : ℕ
    pub peak : ℕ
    pub rms : m.float

  unfoldable pub get_stats : Pipeline m → Stats
  get_stats p = record {
    frames_captured = p.total_frames;
    ring_buffer_frames = elim p.ring_buffer [ none ↦ 0 | some r ↦ available_frames r ];
    peak = p.peak_level;
    rms = p.rms_level;
  }
