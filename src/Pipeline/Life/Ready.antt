-- ===== src/Pipeline/Life/Ready.antt =====
-- The invariant of a pipeline that is set up, which every chunk keeps.
use ws_audiod.Base.{
  ℕ, ◌+◌, ◌*◌, ◌^◌, ◌≤◌, ◌<◌, ◌≡◌, ◌≢◌, Bool, true, false, ap, ◌∙◌, List, ◌++◌, arith, length,
  Option, none, some, Floating, if_cases, ◌&&◌, leb, if◌then◌else◌, mul-le-mul_right,
}
use mathlib.Core.Path.{ap₂}
use ws_audiod.Config.{DaemonConfig}
use ws_audiod.Pcm.{width}
use ws_audiod.Pcm.Sample.{IsDepth}
use ws_audiod.Ring.{Ring, bytes_per_frame}
use ws_audiod.Ring.Valid.{Represents}
use ws_audiod.Recorder.{Recorder}
use ws_audiod.Recorder.Push.{Queued, Pushed}
use ws_audiod.Publisher.{Publisher}
use ws_audiod.Pipeline.Chunk.{Pipeline, AudioChunkMeta}
use ws_audiod.Pipeline.Chunk.Shape.{HasChannels}
use ws_audiod.Pipeline.Chunk.Whole.{out_channels, MayMix, mixes}
use ws_audiod.Pipeline.Chunk.Consumers.{RecorderReady, RecorderGot, PublisherReady, PublisherGot}

-- There is no recorder, or no more bytes were queued in it than `total` frames have.
pub data RecorderHolds (o : Option Recorder) (frame total : ℕ) : Type 0 where
  absent : o ≡ none → RecorderHolds o frame total
  present :
      (r : Recorder) (stream : List ℕ)
      → o ≡ some r
      → Queued r stream
      → r.bytes_per_frame ≡ frame
      → r.ring_write ≤ total * frame
      → RecorderHolds o frame total

pub ready_recorder :
    {o : Option Recorder} {frame total : ℕ} (frames : ℕ)
    → RecorderHolds o frame total
    → (total + frames) * frame < 2 ^ 64
    → RecorderReady o frames frame
ready_recorder frames (RecorderHolds.absent e) h = RecorderReady.absent e
ready_recorder frames (RecorderHolds.present r stream e q same below) h =
    RecorderReady.present r stream e q same (omega arith)

pub holds_recorder :
    {o : Option Recorder} {frame total : ℕ} (frames : ℕ) (out : List ℕ) (after : Option Recorder)
    (holds : RecorderHolds o frame total) (h : (total + frames) * frame < 2 ^ 64)
    → length out ≡ frames * frame
    → RecorderGot (ready_recorder frames holds h) out after
    → RecorderHolds after frame (total + frames)
unfolding ready_recorder RecorderGot
holds_recorder frames out after (RecorderHolds.absent e) h size got = RecorderHolds.absent got
holds_recorder frames out after (RecorderHolds.present r stream e q same below) h size
      (r', e', Pushed.accepted room on q' changed) =
    RecorderHolds.present r' (stream ++ out) e' q'
      (ap (λ (t : Recorder). t.bytes_per_frame) changed ∙ same)
      (omega (arith, size, ap (λ (t : Recorder). t.ring_write) changed))
holds_recorder frames out after (RecorderHolds.present r stream e q same below) h size
      (r', e', Pushed.full over unchanged) =
    RecorderHolds.present r stream (e' ∙ ap some unchanged) q same (omega arith)
holds_recorder frames out after (RecorderHolds.present r stream e q same below) h size
      (r', e', Pushed.idle off unchanged) =
    RecorderHolds.present r stream (e' ∙ ap some unchanged) q same (omega arith)

pub holds_publisher :
    {o : Option Publisher} {channels bits : ℕ} (out : List ℕ) (time : ℕ) (after : Option Publisher)
    (ready : PublisherReady o channels bits)
    → PublisherGot ready out time after
    → PublisherReady after channels bits
unfolding PublisherGot
holds_publisher out time after (PublisherReady.absent e) got = PublisherReady.absent got
holds_publisher out time after (PublisherReady.present s memory e v ch b)
      (s', e', published, ch', b') =
    PublisherReady.present s' published.memory' e' published.mapped (ch' ∙ ch) (b' ∙ b)

-- What is there exactly if it is enabled.
abbrev pub Present : {A : Type 0} → Bool → Option A → Type 0
Present true x = x ≢ none
Present false x = x ≡ none

module _ (m : Floating) where
  -- The metadata of the chunks that the capture hands over.
  abbrev pub meta_of : Pipeline m → ℕ → AudioChunkMeta
  meta_of p timestamp_us = record {
    timestamp_us = timestamp_us;
    channels = p.config.audio.channels;
    bits_per_sample = p.config.audio.bits_per_sample;
  }

  -- The consumers are set up for the data of chunks of up to `period` frames, and the ring buffer
  -- represents what they were given.
  pub record IsReady (p : Pipeline m) (ring : Ring) (stream : List ℕ) (period : ℕ) : Type 0 where
    pub depth : IsDepth p.config.audio.bits_per_sample
    pub some_channels : 0 < p.config.audio.channels
    pub is_ring : p.ring_buffer ≡ some ring
    pub represents : Represents ring stream
    pub frame :
        bytes_per_frame ring ≡ out_channels m p (meta_of p 0) * width p.config.audio.bits_per_sample
    pub filters : HasChannels m p (out_channels m p (meta_of p 0))
    pub may : MayMix m p (meta_of p 0) period
    pub recorder : RecorderHolds p.block_recorder (bytes_per_frame ring) ring.total_written
    pub publisher :
        PublisherReady p.sample_publisher
          (out_channels m p (meta_of p 0))
          p.config.audio.bits_per_sample

  pub may_fewer :
      (p : Pipeline m) (time frames period : ℕ)
      → frames ≤ period
      → MayMix m p (meta_of p 0) period
      → MayMix m p (meta_of p time) frames
  may_fewer p time frames period h (MayMix.direct off) = MayMix.direct off
  may_fewer p time frames period h (MayMix.stereo on two room) =
      let less = mul-le-mul_right frames period (width p.config.audio.bits_per_sample) h in
      MayMix.stereo on two (omega arith)

  pub out_channels_pos :
      (p : Pipeline m) → 0 < p.config.audio.channels → 0 < out_channels m p (meta_of p 0)
  out_channels_pos p h =
      if_cases (λ n. 0 < n) (mixes m p (meta_of p 0)) _ _ (λ _. omega arith) (λ _. h)

  -- What depends on the settings alone is carried over to a state with the same settings.
  module _ (p q : Pipeline m) (ring : Ring) (stream : List ℕ) (period : ℕ)
      (config_same : q.config ≡ p.config) (mix_same : q.downmix_mono ≡ p.downmix_mono) where
    pub out_same : out_channels m q (meta_of q 0) ≡ out_channels m p (meta_of p 0)
    out_same =
        ap₂ (λ b (c : DaemonConfig m). if b && leb 2 c.audio.channels then 1 else c.audio.channels)
          mix_same config_same

    pub mixes_same : mixes m q (meta_of q 0) ≡ mixes m p (meta_of p 0)
    mixes_same = ap₂ (λ b (c : DaemonConfig m). b && leb 2 c.audio.channels) mix_same config_same

    pub may_same :
        length q.mono_buffer ≡ length p.mono_buffer
        → MayMix m p (meta_of p 0) period
        → MayMix m q (meta_of q 0) period
    may_same size (MayMix.direct off) = MayMix.direct (mixes_same ∙ off)
    may_same size (MayMix.stereo on two room) =
        MayMix.stereo (mixes_same ∙ on)
          (ap (λ (c : DaemonConfig m). c.audio.channels) config_same ∙ two)
          (omega (
            arith,
            size,
            ap (λ (c : DaemonConfig m). period * width c.audio.bits_per_sample) config_same,
          ))
