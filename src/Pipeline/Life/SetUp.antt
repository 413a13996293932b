-- ===== src/Pipeline/Life/SetUp.antt =====
-- The settings that the pipeline can be set up for, and its ring buffer.
use native.Mathlib.Nat.{mul-le-mul, mul-pos, mod-eq_of_lt}
use ws_audiod.Base.{
  ℕ, ◌*◌, ◌/◌, ◌^◌, ◌≤◌, ◌<◌, ◌≡◌, ◌⊎◌, ap, ◌∙◌, [], arith, none, some, Bool, true, false, if_cases,
  mul_size, Floating,
}
use ws_audiod.Pow2.{next_power_of_2}
use ws_audiod.Pcm.{width}
use ws_audiod.Pcm.Unpack.{width_pos}
use ws_audiod.Pcm.Sample.{IsDepth}
use ws_audiod.Ring.{Ring, ring_buffer, bytes_per_frame}
use ws_audiod.Ring.Valid.{Represents, ring_buffer-Represents, ring_buffer_empty}
use ws_audiod.Publisher.{Publisher}
use ws_audiod.Pipeline.Chunk.{Pipeline}
use ws_audiod.Pipeline.Chunk.Whole.{width_lem}
use ws_audiod.Pipeline.Life.{is_mixed, output_channels}
use ws_audiod.Pipeline.Life.Ready.{IsReady, Present}

module _ (m : Floating) where
  -- Settings that the pipeline can be set up for, in the ranges of their C++ types: the ring buffer has
  -- frames, whose bytes can be counted, and a chunk that is mixed down has two channels.
  pub record InRange (p : Pipeline m) (rate period : ℕ) : Type 0 where
    pub depth : IsDepth p.config.audio.bits_per_sample
    pub some_channels : 0 < p.config.audio.channels
    pub channels_16 : p.config.audio.channels < 2 ^ 16
    pub some_rate : 0 < rate
    pub rate_32 : rate < 2 ^ 32
    pub period_32 : period < 2 ^ 32
    pub some_seconds : 0 < p.config.ring_buffer_seconds
    pub seconds : p.config.ring_buffer_seconds * rate ≤ 2 ^ 63
    pub fits :
        next_power_of_2 (p.config.ring_buffer_seconds * rate)
          * (output_channels m p * width p.config.audio.bits_per_sample)
        < 2 ^ 64
    pub some_block : 0 < p.config.block_recorder.block_duration_seconds
    pub block_32 : p.config.block_recorder.block_duration_seconds < 2 ^ 32
    pub mixable : (is_mixed m p ≡ false) ⊎ (p.config.audio.channels ≡ 2)

  pub output_channels_bounds :
      (p : Pipeline m)
      → 0 < p.config.audio.channels
      → p.config.audio.channels < 2 ^ 16
      → (0 < output_channels m p) × (output_channels m p < 2 ^ 16)
  output_channels_bounds p h k =
      if_cases (λ n. (0 < n) × (n < 2 ^ 16)) (is_mixed m p) 1 p.config.audio.channels
        (λ _. (omega arith, omega arith)) (λ _. (h, k))

  -- The pipeline is ready, with an empty ring buffer and with a recorder and a publisher exactly where
  -- the settings enable them; or the publisher was refused.
  pub data SetUp (q : Pipeline m) (ok : Bool) (period : ℕ) : Type 0 where
    ready :
        (ring : Ring)
        → ok ≡ true
        → ring.total_written ≡ 0
        → Present q.config.block_recorder.enabled q.block_recorder
        → Present q.config.enable_sample_sharing q.sample_publisher
        → IsReady m q ring [] period
        → SetUp q ok period
    refused :
        (s : Publisher)
        → ok ≡ false
        → q.config.enable_sample_sharing ≡ true
        → q.sample_publisher ≡ some s
        → s.shm ≡ none
        → s.shm_fd ≡ none
        → SetUp q ok period

  pub new_ring :
      (p : Pipeline m) (rate period : ℕ)
      → InRange p rate period
      → let bits = p.config.audio.bits_per_sample in
        let ring =
          ring_buffer
            (mul_size p.config.ring_buffer_seconds rate)
            (output_channels m p)
            (bits / 8) in
        Represents ring []
        × (ring.total_written ≡ 0)
        × (bytes_per_frame ring ≡ output_channels m p * width bits)
  new_ring p rate period h =
      let bits : ℕ = p.config.audio.bits_per_sample in
      let ch : ℕ = output_channels m p in
      let (ch_pos, ch_16) = output_channels_bounds p h.some_channels h.channels_16 in
      let frames : mul_size p.config.ring_buffer_seconds rate
          ≡ p.config.ring_buffer_seconds * rate =
        mod-eq_of_lt (omega (arith, h.seconds)) in
      let wide : 2 ≤ width bits = width_pos bits in
      let narrow : width bits ≤ 4 = ground arith in
      let product : ch * width bits ≤ 2 ^ 16 * 4 =
        mul-le-mul {n₂ = 2 ^ 16} (omega (arith, ch_16)) narrow in
      let some_bytes : 0 < ch * width bits = mul-pos ch_pos (omega (arith, wide)) in
      let (empty, frame) =
        ring_buffer_empty (mul_size p.config.ring_buffer_seconds rate) ch (bits / 8) in
      (
        rw (frames, width_lem bits h.depth)
            (ring_buffer-Represents (p.config.ring_buffer_seconds * rate) ch (width bits)
              (mul-pos h.some_seconds h.some_rate) h.seconds some_bytes h.fits),
        empty,
        frame ∙ ap (mul_size ch) (width_lem bits h.depth) ∙ mod-eq_of_lt (omega (arith, product)),
      )
