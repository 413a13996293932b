-- ===== src/Pipeline/Life/Parts.antt =====
-- The parts that `initialize` sets up: the recorder, the publisher and the buffers.
use mathlib.Core.Path.{ap₂}
use mathlib.Core.Bool.{true≢false}
use native.Mathlib.Nat.{mul-le-mul, mod-eq_of_lt}
use ws_audiod.Base.{
  ℕ, ◌*◌, ◌/◌, ◌^◌, ◌≤◌, ◌<◌, ◌≡◌, ◌⊎◌, inl, inr, refl, subst, sym, ap, ◌∙◌, List, [], arith,
  length, length-take, Option, none, some, Bool, true, false, if_cases, mul_size, Floating,
}
use ws_audiod.Config.{AudioConfig}
use ws_audiod.Pcm.{width}
use ws_audiod.Pcm.Sample.{IsDepth}
use ws_audiod.Recorder.{Recorder, block_recorder}
use ws_audiod.Recorder.Start
use ws_audiod.Publisher.{Publisher, System, sample_publisher}
use ws_audiod.Publisher
use ws_audiod.Publisher.Start.{Initialized, initialize-Initialized, sample_publisher_new}
use ws_audiod.Pipeline.Chunk.{Pipeline, grow}
use ws_audiod.Pipeline.Chunk.Shape.{length-grow}
use ws_audiod.Pipeline.Chunk.Whole.{MayMix, width_lem}
use ws_audiod.Pipeline.Chunk.Consumers.{PublisherReady}
use ws_audiod.Pipeline.Life.{
  is_mixed, output_channels, set_recorder, set_publisher, resize, set_buffers,
}
use ws_audiod.Pipeline.Life.Ready.{RecorderHolds, Present, meta_of}

-- A publisher is set up, or there is none to set up, or nothing is left of it.
pub data PublisherSet (s : Option Publisher) (ok enabled : Bool) (channels bits : ℕ) : Type 0 where
  shares :
      ok ≡ true
      → Present enabled s
      → PublisherReady s channels bits
      → PublisherSet s ok enabled channels bits
  refused :
      (p : Publisher)
      → ok ≡ false
      → enabled ≡ true
      → s ≡ some p
      → p.shm ≡ none
      → p.shm_fd ≡ none
      → PublisherSet s ok enabled channels bits

kept :
    (o : System) (s : Publisher) (channels bits : ℕ) {after : Publisher} {ok : Bool}
    → Initialized o s after ok
    → s.channels ≡ channels
    → s.bits_per_sample ≡ bits
    → PublisherSet (some after) ok true channels bits
kept o s channels bits (Initialized.ready fd memory on opened same mapped form count) c b =
    PublisherSet.shares on (λ none_there. cc)
      (PublisherReady.present _ memory refl mapped (ap (λ (p : Publisher). p.channels) same ∙ c)
        (ap (λ (p : Publisher). p.bits_per_sample) same ∙ b))
kept o s channels bits (Initialized.refused off unmapped unopened closed) c b =
    PublisherSet.refused _ off refl refl unmapped unopened

module _ (m : Floating) where
  pub set_recorder_lem :
      (p : Pipeline m) (rate : ℕ)
      → p.block_recorder ≡ none
      → Start.InRange p.config.block_recorder.block_duration_seconds rate
          (output_channels m p)
          p.config.audio.bits_per_sample
      → (r : Option Recorder) × (set_recorder m p rate ≡ record p { block_recorder = r })
        × Present p.config.block_recorder.enabled r
        × RecorderHolds r (output_channels m p * width p.config.audio.bits_per_sample) 0
  unfolding set_recorder
  set_recorder_lem p rate unset h =
      let c = p.config.block_recorder in
      let ch : ℕ = output_channels m p in
      let bits : ℕ = p.config.audio.bits_per_sample in
      let r : Recorder =
        block_recorder c.enabled c.output_dir c.format c.block_duration_seconds rate ch bits in
      let (none_written, frame, queue) =
        Start.block_recorder_empty c.block_duration_seconds rate ch bits h c.enabled c.output_dir
          c.format in
      if_cases
        (λ q.
          (r : Option Recorder) × (q ≡ record p { block_recorder = r })
          × Present c.enabled r
          × RecorderHolds r (ch * width bits) 0)
        c.enabled (record p { block_recorder = some r }) p
        (λ on. (
          some r,
          refl,
          subst (λ b. Present b (some r)) (sym on) (λ none_there. cc),
          RecorderHolds.present r [] refl queue frame (omega (arith, none_written)),
        ))
        (λ off. (
          none,
          ap {A = Option Recorder} {B = Pipeline m} (λ t. record p { block_recorder = t }) unset,
          subst (λ b. Present {A = Recorder} b none) (sym off) refl,
          RecorderHolds.absent refl,
        ))

  pub set_publisher_lem :
      (o : System) (p : Pipeline m) (rate period : ℕ)
      → p.sample_publisher ≡ none
      → rate < 2 ^ 32
      → output_channels m p < 2 ^ 16
      → p.config.audio.bits_per_sample < 2 ^ 16
      → period < 2 ^ 32
      → ((fd size : ℕ) (memory : List ℕ) → o.mmap fd size ≡ some memory → length memory ≡ size)
      → (s : Option Publisher) × (ok : Bool) × (set_publisher m o p rate period
          ≡ (record p { sample_publisher = s }, ok))
        × PublisherSet s ok p.config.enable_sample_sharing
            (output_channels m p)
            p.config.audio.bits_per_sample
  unfolding set_publisher
  set_publisher_lem o p rate period unset r c b h sized =
      let ch : ℕ = output_channels m p in
      let bits : ℕ = p.config.audio.bits_per_sample in
      let s : Publisher = sample_publisher p.config.shm_name rate ch bits period in
      let (range, fresh, channels, depth) =
        sample_publisher_new p.config.shm_name rate ch bits period r c b h in
      if_cases
        (λ (q : Pipeline m × Bool).
          (s : Option Publisher) × (ok : Bool) × (q ≡ (record p { sample_publisher = s }, ok))
          × PublisherSet s ok p.config.enable_sample_sharing ch bits)
        p.config.enable_sample_sharing
        (
          record p { sample_publisher = some (Publisher.initialize o s).0 },
          (Publisher.initialize o s).1,
        )
        (p, true)
        (λ on. (
          some (Publisher.initialize o s).0,
          (Publisher.initialize o s).1,
          refl,
          subst
              (λ b.
                PublisherSet (some (Publisher.initialize o s).0) (Publisher.initialize o s).1 b ch
                  bits)
              (sym on)
              (kept o s ch bits (initialize-Initialized o s range fresh sized) channels depth),
        ))
        (λ off. (
          none,
          true,
          ap {A = Option Publisher} {B = Pipeline m × Bool}
              (λ t. (record p { sample_publisher = t }, true)) unset,
          PublisherSet.shares refl (subst (λ b. Present {A = Publisher} b none) (sym off) refl)
              (PublisherReady.absent refl),
        ))

  pub length-resize : (buffer : List ℕ) (n : ℕ) → length (resize m buffer n) ≡ n
  length-resize buffer n = length-take n (grow buffer n) ∙ omega (arith, length-grow buffer n)

  two_channels :
      (p : Pipeline m)
      → is_mixed m p ≡ true
      → (is_mixed m p ≡ false) ⊎ (p.config.audio.channels ≡ 2)
      → p.config.audio.channels ≡ 2
  two_channels p on (inl off) = absurd (true≢false (sym on ∙ off))
  two_channels p on (inr two) = two

  pub set_buffers_lem :
      (p : Pipeline m) (period : ℕ)
      → IsDepth p.config.audio.bits_per_sample
      → (is_mixed m p ≡ false) ⊎ (p.config.audio.channels ≡ 2)
      → period < 2 ^ 32
      → (gain mono : List ℕ) × (set_buffers m p period
          ≡ record p { gain_buffer = gain; mono_buffer = mono })
        × MayMix m (record p { gain_buffer = gain; mono_buffer = mono }) (meta_of m p 0) period
  unfolding set_buffers
  set_buffers_lem p period depth two small =
      let a : AudioConfig m = p.config.audio in
      let bits : ℕ = a.bits_per_sample in
      let gain : List ℕ =
        resize m p.gain_buffer (mul_size (mul_size period a.channels) (bits / 8)) in
      let mono : List ℕ = resize m p.mono_buffer (mul_size (mul_size period 1) (bits / 8)) in
      let narrow : width bits ≤ 4 = ground arith in
      let most : period * width bits ≤ 2 ^ 32 * 4 =
        mul-le-mul {n₂ = 2 ^ 32} (omega (arith, small)) narrow in
      let one : mul_size period 1 ≡ period = omega (arith, small) in
      let size : length mono ≡ period * width bits =
        length-resize p.mono_buffer (mul_size (mul_size period 1) (bits / 8))
        ∙ ap₂ mul_size one (width_lem bits depth)
        ∙ mod-eq_of_lt (omega (arith, most)) in
      if_cases
        (λ q.
          (gain mono : List ℕ) × (q ≡ record p { gain_buffer = gain; mono_buffer = mono })
          × MayMix m (record p { gain_buffer = gain; mono_buffer = mono }) (meta_of m p 0) period)
        (is_mixed m p) (record p { gain_buffer = gain; mono_buffer = mono })
        (record p { gain_buffer = gain })
        (λ on. (gain, mono, refl, MayMix.stereo on (two_channels p on two) (omega (arith, size))))
        (λ off. (gain, p.mono_buffer, refl, MayMix.direct off))
