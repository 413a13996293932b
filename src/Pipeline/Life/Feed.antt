-- ===== src/Pipeline/Life/Feed.antt =====
-- A pipeline that is set up takes chunk after chunk.
use mathlib.Core.Path.{ap₂}
use native.Mathlib.Nat.{mul_assoc}
use ws_audiod.Base.{
  ℕ, ◌+◌, ◌*◌, ◌^◌, ◌≤◌, ◌<◌, ◌≡◌, sym, ap, subst, ◌∙◌, List, ◌++◌, arith, length, some, Floating,
  le-mul_pos,
}
use ws_audiod.Config.{DaemonConfig}
use ws_audiod.Pcm.{width}
use ws_audiod.Pcm.Unpack.{width_pos}
use ws_audiod.Pcm.Sample.{IsDepth}
use ws_audiod.Ring.{Ring, bytes_per_frame}
use ws_audiod.Pipeline.Chunk.{Pipeline, Source, on_audio_chunk}
use ws_audiod.Pipeline.Chunk.Consumers.{Recorded, Shared, got-Recorded, got-Shared}
use ws_audiod.Pipeline.Chunk.Whole.{out_channels, Shaped}
use ws_audiod.Pipeline.Chunk.Deliver.{on_audio_chunk-Delivered}
use ws_audiod.Pipeline.Life.Ready.{
  ready_recorder, holds_recorder, holds_publisher, meta_of, IsReady, may_fewer, out_channels_pos,
  out_same, may_same,
}

module _ (m : Floating) where
  -- What a chunk gives: a state that is ready again, with the data of the chunk behind the stream, and
  -- handed to the recorder and the publisher.
  pub record Fed (p : Pipeline m) (ring : Ring) (stream : List ℕ) (period time : ℕ) (src : List ℕ)
      (frames c : ℕ) : Type 0 where
    pub after : Pipeline m
    pub returns :
        on_audio_chunk m p (meta_of m p time) src (frames * p.config.audio.channels) ≡ some after
    pub ring' : Ring
    pub shaped : Pipeline m
    pub out : Source
    pub shape : Shaped m p (meta_of m p time) src frames c shaped out
    pub recorded : Recorded p.block_recorder out.array after.block_recorder
    pub shared : Shared p.sample_publisher out.array time after.sample_publisher
    pub still : IsReady m after ring' (stream ++ out.array) period
    pub total : ring'.total_written ≡ ring.total_written + frames
    pub frame_same : bytes_per_frame ring' ≡ bytes_per_frame ring
    pub same_config : after.config ≡ p.config

  -- A pipeline that is ready takes a chunk of up to its period: the call returns, and the samples that
  -- are mixed down, boosted and filtered stand behind the stream that the ring buffer represents. The
  -- recorder has queued them or dropped them whole, and the publisher has stored them with their time, as far as its memory goes; where
  -- the pipeline has none, there is none afterwards. The pipeline is ready for the next chunk; as long
  -- as the bytes written are fewer than 2 ^ 64.
  pub on_audio_chunk-Fed :
      (p : Pipeline m) (ring : Ring) (stream : List ℕ) (period time : ℕ) (src : List ℕ)
      (frames c : ℕ)
      → IsReady m p ring stream period
      → frames ≤ period
      → frames * p.config.audio.channels * width p.config.audio.bits_per_sample ≤ length src
      → (ring.total_written + frames) * bytes_per_frame ring < 2 ^ 64
      → c < out_channels m p (meta_of m p 0)
      → time < 2 ^ 64
      → Fed p ring stream period time src frames c
  on_audio_chunk-Fed p ring stream period time src frames c ready few room small inside late =
      let ch : ℕ = out_channels m p (meta_of m p 0) in
      let bits : ℕ = p.config.audio.bits_per_sample in
      let some_frame : 0 < bytes_per_frame ring = omega (
        arith,
        ready.frame,
        width_pos bits,
        le-mul_pos ch (width bits) (omega (arith, width_pos bits)),
        out_channels_pos m p ready.some_channels,
      ) in
      let data_small : frames * ch * width bits < 2 ^ 64 =
        omega (arith, small, mul_assoc frames ch (width bits), ap (λ t. frames * t) ready.frame) in
      let count_small : ring.total_written + frames < 2 ^ 64 = omega (
        arith,
        small,
        le-mul_pos (ring.total_written + frames) (bytes_per_frame ring) some_frame,
      ) in
      let (after, returns, d) =
        on_audio_chunk-Delivered m p (meta_of m p time) src frames c ring stream
          (ready_recorder frames ready.recorder small) ready.publisher ready.depth
          ready.some_channels (may_fewer m p time frames period few ready.may) room data_small
          ready.filters inside late ready.is_ring ready.represents ready.frame count_small in
      let same = out_same m p after ring stream period d.config_same d.mix_same in
      let size : length d.out.array ≡ frames * bytes_per_frame ring =
        d.shape.bytes
        ∙ ap (λ t. t * width bits) d.shape.count
        ∙ mul_assoc frames ch (width bits)
        ∙ ap (λ t. frames * t) (sym ready.frame) in
      let same_bits : after.config.audio.bits_per_sample ≡ bits =
        ap (λ (c : DaemonConfig m). c.audio.bits_per_sample) d.config_same in
      record {
        after = after;
        returns = returns;
        ring' = d.ring';
        shaped = d.shaped;
        out = d.out;
        shape = d.shape;
        recorded =
            got-Recorded (ready_recorder frames ready.recorder small) d.out.array
              after.block_recorder d.recorded;
        shared = got-Shared ready.publisher d.out.array time after.sample_publisher d.published;
        still = record {
          depth = subst IsDepth (sym same_bits) ready.depth;
          some_channels =
              subst (λ n. 0 < n) (sym (ap (λ (c : DaemonConfig m). c.audio.channels) d.config_same))
                ready.some_channels;
          is_ring = d.ring_is;
          represents = d.represents;
          frame = d.same_frames ∙ ready.frame ∙ ap₂ (λ n b. n * width b) (sym same) (sym same_bits);
          filters = record {
            inputs = ap length d.filter_x ∙ d.shape.channels.inputs ∙ sym same;
            outputs = ap length d.filter_y ∙ d.shape.channels.outputs ∙ sym same;
          };
          may =
              may_same m p after ring stream period d.config_same d.mix_same
                (ap length d.mono_same ∙ d.shape.mono_room) ready.may;
          recorder =
              rw (d.same_frames, d.written)
                (holds_recorder frames d.out.array after.block_recorder ready.recorder small size
                  d.recorded);
          publisher =
              rw (same, same_bits)
                (holds_publisher d.out.array time after.sample_publisher ready.publisher
                  d.published);
        };
        total = d.written;
        frame_same = d.same_frames;
        same_config = d.config_same;
      }
