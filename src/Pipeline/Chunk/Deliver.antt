-- ===== src/Pipeline/Chunk/Deliver.antt =====
-- What a chunk does to the ring buffer, the block recorder, the publisher and the levels.
use native.Mathlib.Nat.{mul_assoc}
use ws_audiod.Base.{
  ℕ, ◌+◌, ◌*◌, ◌/◌, ◌%◌, ◌^◌, ◌≤◌, ◌<◌, ◌≡◌, ◌⊎◌, refl, sym, ap, subst, ◌∙◌, List, ◌++◌, arith,
  length, min, Option, some, Floating, le-mul_pos,
}
use native.Mathlib.Nat.{mul-div_cancel}
use ws_audiod.Pcm.{width}
use ws_audiod.Pcm.Unpack.{width_pos}
use ws_audiod.Pcm.Sample.{IsDepth, values}
use ws_audiod.Ring.{Ring, bytes_per_frame, write, ◌>>=◌}
use ws_audiod.Ring.Valid.{Represents}
use ws_audiod.Ring.Write.{write_lem}
use ws_audiod.Pipeline.Meter.{meter}
use ws_audiod.Pipeline.Meter.Peak.{heard, NoneOver, Reached, meter_lem}
use ws_audiod.Pipeline.Chunk.{
  Pipeline, AudioChunkMeta, Source, shape_chunk, push_to, publish_to, delivered, deliver,
  on_audio_chunk,
}
use ws_audiod.Pipeline.Chunk.Shape.{HasChannels}
use ws_audiod.Pipeline.Chunk.Whole.{out_channels, MayMix, Shaped, shape_chunk-Shaped, width_lem}
use ws_audiod.Pipeline.Chunk.Consumers.{
  RecorderReady, RecorderGot, PublisherReady, PublisherGot, push_to-RecorderGot,
  publish_to-PublisherGot,
}

items_small :
    (frames channels bits : ℕ)
    → frames * channels * width bits < 2 ^ 64
    → frames * channels < 2 ^ 64
items_small frames channels bits h =
    let w = le-mul_pos (frames * channels) (width bits) (omega (arith, width_pos bits)) in
    omega arith

module _ (m : Floating) where
  -- What a chunk of `frames` frames makes of the state, for channel `c` of the data.
  pub record Delivered (p : Pipeline m) (meta : AudioChunkMeta) (src : List ℕ) (frames c : ℕ)
      (ring : Ring) (stream : List ℕ)
      (recorder : RecorderReady p.block_recorder frames (bytes_per_frame ring))
      (publisher : PublisherReady p.sample_publisher (out_channels m p meta) meta.bits_per_sample)
      (after : Pipeline m) : Type 0 where
    pub shaped : Pipeline m
    pub out : Source
    pub shape : Shaped m p meta src frames c shaped out
    pub ring' : Ring
    pub ring_is : after.ring_buffer ≡ some ring'
    pub represents : Represents ring' (stream ++ out.array)
    pub same_frames : bytes_per_frame ring' ≡ bytes_per_frame ring
    pub written : ring'.total_written ≡ ring.total_written + frames
    pub recorded : RecorderGot recorder out.array after.block_recorder
    pub published : PublisherGot publisher out.array meta.timestamp_us after.sample_publisher
    pub frames_counted : after.total_frames ≡ (p.total_frames + frames) % 2 ^ 64
    pub config_same : after.config ≡ p.config
    pub mix_same : after.downmix_mono ≡ p.downmix_mono
    pub peak : ℕ
    pub level : after.peak_level ≡ min peak 32767
    pub none_over :
        NoneOver peak
          (heard meta.bits_per_sample (values meta.bits_per_sample out.samples out.array))
    pub reached :
        (peak ≡ 0)
        ⊎ Reached peak
            (heard meta.bits_per_sample (values meta.bits_per_sample out.samples out.array))
    pub mono_same : after.mono_buffer ≡ shaped.mono_buffer
    pub filter_x : after.dc_prev_x ≡ shaped.dc_prev_x
    pub filter_y : after.dc_prev_y ≡ shaped.dc_prev_y

  deliver_lem :
      (p : Pipeline m) (meta : AudioChunkMeta) (out : Source) (frames : ℕ) (ring ring' : Ring)
      → p.ring_buffer ≡ some ring
      → write ring out.array frames ≡ some ring'
      → deliver m p meta out frames ≡ some (delivered m p meta out frames ring')
  unfolding deliver
  deliver_lem p meta out frames ring ring' e e' =
      let next : Ring → Option (Pipeline m) = λ r. some (delivered m p meta out frames r) in
      ap (λ t. t >>= (λ r. write r out.array frames >>= next)) e ∙ ap (λ t. t >>= next) e'

  pub on_audio_chunk-Delivered :
      (p : Pipeline m) (meta : AudioChunkMeta) (src : List ℕ) (frames c : ℕ) (ring : Ring)
      (stream : List ℕ) (recorder : RecorderReady p.block_recorder frames (bytes_per_frame ring))
      (publisher : PublisherReady p.sample_publisher (out_channels m p meta) meta.bits_per_sample)
      → IsDepth meta.bits_per_sample
      → 0 < meta.channels
      → MayMix m p meta frames
      → frames * meta.channels * width meta.bits_per_sample ≤ length src
      → frames * out_channels m p meta * width meta.bits_per_sample < 2 ^ 64
      → HasChannels m p (out_channels m p meta)
      → c < out_channels m p meta
      → meta.timestamp_us < 2 ^ 64
      → p.ring_buffer ≡ some ring
      → Represents ring stream
      → bytes_per_frame ring ≡ out_channels m p meta * width meta.bits_per_sample
      → ring.total_written + frames < 2 ^ 64
      → (after : Pipeline m) × (on_audio_chunk m p meta src (frames * meta.channels) ≡ some after)
        × Delivered p meta src frames c ring stream recorder publisher after
  unfolding on_audio_chunk delivered
  on_audio_chunk-Delivered p meta src frames c ring stream recorder publisher depth some_channels
        may room small has inside time is_ring v frame_size counted =
      let n : ℕ = frames * meta.channels in
      let p' : Pipeline m = (shape_chunk m p meta src n).0 in
      let out : Source = (shape_chunk m p meta src n).1 in
      let shape =
        shape_chunk-Shaped m p meta src frames c depth some_channels may room small has inside in
      let e_frames : n / meta.channels ≡ frames = mul-div_cancel frames some_channels in
      let e_ring : p'.ring_buffer ≡ some ring =
        ap (λ (q : Pipeline m). q.ring_buffer) shape.kept ∙ is_ring in
      let e_recorder : p'.block_recorder ≡ p.block_recorder =
        ap (λ (q : Pipeline m). q.block_recorder) shape.kept in
      let e_publisher : p'.sample_publisher ≡ p.sample_publisher =
        ap (λ (q : Pipeline m). q.sample_publisher) shape.kept in
      let e_total : p'.total_frames ≡ p.total_frames =
        ap (λ (q : Pipeline m). q.total_frames) shape.kept in
      let size : length out.array ≡ frames * bytes_per_frame ring =
        shape.bytes
        ∙ ap (λ t. t * width meta.bits_per_sample) shape.count
        ∙ mul_assoc frames (out_channels m p meta) (width meta.bits_per_sample)
        ∙ ap (λ t. frames * t) (sym frame_size) in
      let (ring', written, v', frame', _, total') =
        write_lem ring stream out.array frames v size counted in
      let after : Pipeline m = delivered m p' meta out frames ring' in
      let (level, none_over, reached, sums) =
        meter_lem m meta.bits_per_sample out.samples out.array depth in
      let bytes : length out.array ≡ frames * out_channels m p meta * (meta.bits_per_sample / 8) =
        shape.bytes
        ∙ ap (λ t. t * width meta.bits_per_sample) shape.count
        ∙ ap (λ t. frames * out_channels m p meta * t)
            (sym (width_lem meta.bits_per_sample depth)) in
      let small' : length out.array < 2 ^ 64 =
        omega (arith, shape.bytes, ap (λ t. t * width meta.bits_per_sample) shape.count) in
      (
        after,
        ap (deliver m p' meta out) e_frames
            ∙ deliver_lem p' meta out frames ring ring' e_ring written,
        record {
          shaped = p';
          out = out;
          shape = shape;
          ring' = ring';
          ring_is = refl;
          represents = v';
          same_frames = frame';
          written = total';
          recorded =
              subst (λ o. RecorderGot recorder out.array (push_to o out.array frames))
                (sym e_recorder)
                (push_to-RecorderGot p.block_recorder frames (bytes_per_frame ring) out.array
                  recorder size);
          published =
              subst
                (λ o.
                  PublisherGot publisher out.array meta.timestamp_us
                    (publish_to o out.array frames meta.timestamp_us))
                (sym e_publisher)
                (publish_to-PublisherGot p.sample_publisher frames (out_channels m p meta)
                  meta.bits_per_sample meta.timestamp_us out.array publisher bytes
                  (omega
                    (arith, items_small frames (out_channels m p meta) meta.bits_per_sample small))
                  small' time);
          frames_counted = ap (λ t. (t + frames) % 2 ^ 64) e_total;
          config_same = ap (λ (q : Pipeline m). q.config) shape.kept;
          mix_same = ap (λ (q : Pipeline m). q.downmix_mono) shape.kept;
          peak = (meter m meta.bits_per_sample out.samples out.array).peak;
          level = level;
          none_over = none_over;
          reached = reached;
          mono_same = refl;
          filter_x = refl;
          filter_y = refl;
        },
      )
