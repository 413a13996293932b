-- ===== src/Pipeline/Life/Initialize.antt =====
-- What the constructor and `initialize` leave.
use ws_audiod.Base.{
  ℕ, ◌*◌, ◌/◌, ◌^◌, ◌<◌, ◌≡◌, refl, sym, ap, subst, ◌∙◌, List, arith, length, length-replicate,
  none, some, Bool, false, if◌then◌else◌, Floating, mul_size, codes,
}
use ws_audiod.Config.{DaemonConfig}
use ws_audiod.Pcm.{width}
use ws_audiod.Pcm.Sample.{IsDepth, on_depth}
use ws_audiod.Ring.{Ring, ring_buffer}
use ws_audiod.Clips.{clip_extractor}
use ws_audiod.Publisher.{System}
use ws_audiod.Recorder.Start
use ws_audiod.Pipeline.Chunk.{Pipeline}
use ws_audiod.Pipeline.Chunk.Shape.{HasChannels}
use ws_audiod.Pipeline.Chunk.Whole.{width_lem}
use ws_audiod.Pipeline.Life.{
  Devices, capture_pipeline, output_channels, set_publisher, finish_set_up, set_up, initialize,
}
use ws_audiod.Pipeline.Life.Ready.{RecorderHolds}
use ws_audiod.Pipeline.Life.Parts.{
  PublisherSet, set_recorder_lem, set_publisher_lem, set_buffers_lem,
}
use ws_audiod.Pipeline.Life.SetUp.{output_channels_bounds, new_ring, InRange, SetUp}

depth_16 : (bits : ℕ) → IsDepth bits → bits < 2 ^ 16
depth_16 bits = on_depth (λ b. b < 2 ^ 16) (omega arith) (omega arith) (omega arith) bits

module _ (m : Floating) where
  -- The state with the capture, the ring buffer and the clip extractor.
  abbrev with_ring : Pipeline m → ℕ → ℕ → Pipeline m
  with_ring p rate period =
      let a = p.config.audio in
      let ch = output_channels m p in
      record p {
        capture =
            some (record { actual_rate = rate; actual_period_size = period; capturing = false });
        ring_buffer =
            some
              (ring_buffer (mul_size p.config.ring_buffer_seconds rate) ch (a.bits_per_sample / 8));
        clip_extractor =
            some (clip_extractor p.config.clips_dir (codes "wav") rate ch a.bits_per_sample);
      }

  recorder_range :
      (p : Pipeline m) (rate period : ℕ)
      → InRange m p rate period
      → Start.InRange p.config.block_recorder.block_duration_seconds rate
          (output_channels m p)
          p.config.audio.bits_per_sample
  recorder_range p rate period h =
      let (some_channels, channels_16) = output_channels_bounds m p h.some_channels h.channels_16 in
      record {
        some_seconds = h.some_block;
        seconds_32 = h.block_32;
        some_rate = h.some_rate;
        rate_32 = h.rate_32;
        some_channels = some_channels;
        channels_16 = channels_16;
        depth = width_lem p.config.audio.bits_per_sample h.depth;
      }

  set_up-SetUp :
      (o : System) (p : Pipeline m) (rate period : ℕ)
      → InRange m p rate period
      → p.block_recorder ≡ none
      → p.sample_publisher ≡ none
      → HasChannels m p (output_channels m p)
      → ((fd size : ℕ) (memory : List ℕ) → o.mmap fd size ≡ some memory → length memory ≡ size)
      → let (q, ok) = set_up m o p rate period in SetUp m q ok period
  unfolding set_up finish_set_up
  set_up-SetUp o p rate period h unset unset' filters sized =
      let bits : ℕ = p.config.audio.bits_per_sample in
      let q0 : Pipeline m = with_ring p rate period in
      let ring : Ring =
        ring_buffer (mul_size p.config.ring_buffer_seconds rate) (output_channels m p) (bits / 8) in
      let (represents, empty, frame) = new_ring m p rate period h in
      let (channels_pos, channels_16) = output_channels_bounds m p h.some_channels h.channels_16 in
      let (r, e_r, has_recorder, holds) =
        set_recorder_lem m q0 rate unset (recorder_range p rate period h) in
      let (s, ok, e_s, set) =
        set_publisher_lem m o (record q0 { block_recorder = r }) rate period unset' h.rate_32
          channels_16 (depth_16 bits h.depth) h.period_32 sized in
      let q2 : Pipeline m = record q0 { block_recorder = r; sample_publisher = s } in
      let (gain, mono, e_b, may) = set_buffers_lem m q2 period h.depth h.mixable h.period_32 in
      let whole : set_up m o p rate period ≡ finish_set_up m (q2, ok) period =
        ap (λ q. finish_set_up m (set_publisher m o q rate period) period) e_r
        ∙ ap (λ t. finish_set_up m t period) e_s in
      subst (λ (t : Pipeline m × Bool). SetUp m t.0 t.1 period) (sym whole)
        (elim set [
          | PublisherSet.shares on has_publisher publisher ↦
              rw (on, e_b)
                (SetUp.ready ring refl empty has_recorder has_publisher (record {
                  depth = h.depth;
                  some_channels = h.some_channels;
                  is_ring = refl;
                  represents = represents;
                  frame = frame;
                  filters = record { inputs = filters.inputs; outputs = filters.outputs };
                  may = may;
                  recorder =
                      subst (λ n. RecorderHolds r n ring.total_written) (sym frame)
                        (subst (RecorderHolds r (output_channels m p * width bits)) (sym empty)
                          holds);
                  publisher = publisher;
                }))
          | PublisherSet.refused x off enabled e unmapped unopened ↦
              rw off (SetUp.refused x refl enabled e unmapped unopened)
        ])

  -- The filter has a place for each channel of the data.
  new_filters :
      (config : DaemonConfig m)
      → 0 < config.audio.channels
      → (if config.audio.downmix_mono then 1 else config.audio.channels)
        ≡ output_channels m (capture_pipeline m config)
  unfolding capture_pipeline
  new_filters config some_channels = ground (arith)

  -- A new pipeline whose device is set up is ready for its first chunk, with an empty ring buffer, and
  -- with a recorder and a publisher exactly where the settings enable them; or the publisher is enabled,
  -- was refused and keeps nothing. The settings are in the ranges of `InRange`, and memory has the size
  -- that was asked for.
  pub initialize-SetUp :
      (o : Devices m) (config : DaemonConfig m) (rate period : ℕ)
      → o.capture_opens config.audio ≡ some (rate, period)
      → InRange m (capture_pipeline m config) rate period
      → ((fd size : ℕ) (memory : List ℕ)
          → o.system.mmap fd size ≡ some memory
          → length memory ≡ size)
      → let (q, ok) = initialize m o (capture_pipeline m config) in SetUp m q ok period
  unfolding initialize capture_pipeline
  initialize-SetUp o config rate period opened h sized =
      let p : Pipeline m = capture_pipeline m config in
      let filters : HasChannels m p (output_channels m p) =
        let places = new_filters config h.some_channels in
        record {
          inputs =
              length-replicate (if config.audio.downmix_mono then 1 else config.audio.channels)
                m.zero_f
              ∙ places;
          outputs =
              length-replicate (if config.audio.downmix_mono then 1 else config.audio.channels)
                m.zero_f
              ∙ places;
        } in
      rw (initialize, opened) (set_up-SetUp o.system p rate period h refl refl filters sized)
