-- ===== src/Pipeline/Life/Tests.antt =====
-- A small pipeline: two channels of 16 bits that are mixed down, at three frames a second.
use ws_audiod.Base.{
  ℕ, ◌+◌, ◌*◌, ◌<◌, ◌≡◌, inl, inr, refl, sym, ap, ◌∙◌, true, some, [], ◌∷◌, arith, replicate,
  length, pos, negsuc, whole, length-replicate, codes,
}
use mathlib.Core.Option.{some-injective}
use ws_audiod.Config.{DaemonConfig}
use ws_audiod.Pow2.{next_power_of_2}
use ws_audiod.Ring.{Ring, ring_buffer, bytes_per_frame}
use ws_audiod.Ring.Valid.{ring_buffer-Represents, ring_buffer_empty}
use ws_audiod.Clips.{clip_extractor}
use ws_audiod.Recorder.{Recorder, block_recorder, start}
use ws_audiod.Recorder.Start
use ws_audiod.Recorder.Writer.{Outside}
use ws_audiod.Pipeline.Chunk.{Pipeline}
use ws_audiod.Pipeline.Chunk.Whole.{MayMix}
use ws_audiod.Pipeline.Chunk.Consumers.{PublisherReady}
use ws_audiod.Pipeline.Life.{Devices, capture_pipeline, initialize, stop, set_parameter}
use ws_audiod.Pipeline.Life.Tune.{Tuned, set_parameter-Tuned}
use ws_audiod.Pipeline.Life.Ready.{RecorderHolds, IsReady}
use ws_audiod.Pipeline.Life.Feed.{Fed, on_audio_chunk-Fed}
use ws_audiod.Pipeline.Life.SetUp.{InRange, SetUp}
use ws_audiod.Pipeline.Life.Initialize.{initialize-SetUp}
use ws_audiod.Pipeline.Life.Order.{RecorderRuns, Stopped, stop-Stopped}

abbrev pub settings : DaemonConfig whole
settings = record {
  socket_path = [];
  clips_dir = [];
  shm_name = [];
  ring_buffer_seconds = 1;
  enable_sample_sharing = true;
  audio = record {
    device = [];
    sample_rate = 3;
    channels = 2;
    bits_per_sample = 16;
    period_size = 4;
    buffer_periods = 4;
    gain_db = pos 0;
    dc_remove = true;
    cpu_affinity = negsuc 0;
    downmix_mono = true;
  };
  block_recorder = record {
    enabled = true;
    output_dir = [];
    block_duration_seconds = 300;
    format = [];
    max_blocks = 0;
  };
}

abbrev sound : Devices whole
sound = record {
  capture_opens = λ _. some (3, 4);
  capture_starts = true;
  system = record {
    shm_open = λ _. some 3;
    ftruncate = λ _ _. true;
    mmap = λ _ size. some (replicate size 7);
  };
}

settings-InRange : InRange whole (capture_pipeline whole settings) 3 4
unfolding capture_pipeline next_power_of_2
settings-InRange = record {
  depth = inl refl;
  some_channels = omega arith;
  channels_16 = omega arith;
  some_rate = omega arith;
  rate_32 = omega arith;
  period_32 = omega arith;
  some_seconds = omega arith;
  seconds = omega arith;
  fits = omega arith;
  some_block = omega arith;
  block_32 = omega arith;
  mixable = inr refl;
}

initialize-SetUp_example :
    let (q, ok) = initialize whole sound (capture_pipeline whole settings) in SetUp whole q ok 4
initialize-SetUp_example =
    initialize-SetUp whole sound settings 3 4 refl settings-InRange
      (λ fd size memory e. ap length (sym (some-injective _ _ e)) ∙ length-replicate size 7)

-- The same pipeline with its recorder at work, before its first chunk.
recorder-InRange : Start.InRange 300 3 1 16
recorder-InRange = record {
  some_seconds = omega arith;
  seconds_32 = omega arith;
  some_rate = omega arith;
  rate_32 = omega arith;
  some_channels = omega arith;
  channels_16 = omega arith;
  depth = refl;
}

abbrev recorder : Recorder
recorder = start (block_recorder true [] [] 300 3 1 16)

abbrev pub ring : Ring
ring = ring_buffer 3 1 2

abbrev pub ready : Pipeline whole
ready = record (capture_pipeline whole settings) {
  running = true;
  capture = some (record { actual_rate = 3; actual_period_size = 4; capturing = true });
  ring_buffer = some ring;
  clip_extractor = some (clip_extractor [] [] 3 1 16);
  block_recorder = some recorder;
  mono_buffer = replicate 8 0;
}

pub ready-IsReady : IsReady whole ready ring [] 4
unfolding capture_pipeline next_power_of_2
ready-IsReady =
    let started = Start.start_enabled 300 3 1 16 recorder-InRange [] [] in
    record {
      depth = inl refl;
      some_channels = omega arith;
      is_ring = refl;
      represents =
          ring_buffer-Represents 3 1 2 (omega arith) (omega arith) (omega arith) (omega arith);
      frame = (ring_buffer_empty 3 1 2).1;
      filters = record { inputs = refl; outputs = refl };
      may = MayMix.stereo refl refl (omega arith);
      recorder =
          RecorderHolds.present recorder [] refl
            (Start.start-Tracks 300 3 1 16 recorder-InRange true [] []).queue
            (started.1 ∙ sym (ring_buffer_empty 3 1 2).1) (omega (arith, started.0));
      publisher = PublisherReady.absent refl;
    }

ring_small : (ring.total_written + 2) * bytes_per_frame ring < 18446744073709551616
ring_small = let (empty, frame) = ring_buffer_empty 3 1 2 in rw (empty, frame) (omega arith)

-- Two frames of two channels.
on_audio_chunk-Fed_example : Fed whole ready ring [] 4 1000 (1 ∷ 2 ∷ 3 ∷ 4 ∷ 5 ∷ 6 ∷ 7 ∷ 8 ∷ []) 2 0
unfolding capture_pipeline
on_audio_chunk-Fed_example =
    on_audio_chunk-Fed whole ready ring [] 4 1000 (1 ∷ 2 ∷ 3 ∷ 4 ∷ 5 ∷ 6 ∷ 7 ∷ 8 ∷ []) 2 0
      ready-IsReady (omega arith) (omega arith) ring_small (omega arith) (omega arith)

abbrev outside : Outside
outside = record {
  opens = λ _. true;
  writes = λ _ batch. some batch;
  clock = λ _. 0;
  utc = λ _. [];
  heard = true;
}

ready-RecorderRuns : RecorderRuns (some recorder)
ready-RecorderRuns =
    RecorderRuns.runs recorder [] refl (Start.start-Tracks 300 3 1 16 recorder-InRange true [] [])
      (Start.start_enabled 300 3 1 16 recorder-InRange [] []).2

stop-Stopped_example :
    (after : Pipeline whole) × (stop whole 1 outside ready ≡ some after)
    × Stopped whole ready ready-RecorderRuns after
    × ((fuel' : ℕ) (o' : Outside) → stop whole fuel' o' after ≡ some after)
unfolding capture_pipeline
stop-Stopped_example =
    stop-Stopped whole 0 outside ready (clip_extractor [] [] 3 1 16)
      (record { actual_rate = 3; actual_period_size = 4; capturing = true }) ready-RecorderRuns refl
      refl refl (λ _. refl) refl

set_parameter-Tuned_example :
    Tuned whole ready ring [] 4
      (codes "dc_remove")
      (codes "off")
      (set_parameter whole ready (codes "dc_remove") (codes "off"))
set_parameter-Tuned_example =
    set_parameter-Tuned whole ready ring [] 4 (codes "dc_remove") (codes "off") ready-IsReady
