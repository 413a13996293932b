-- ===== src/Alsa.antt =====
-- src/capture/alsa_capture.cpp: the set-up of the sound card and the loop of the capture thread. The
-- ALSA library is a parameter, and the thread's priority and CPU are left out.
pub mod Loop
pub mod Feed
pub mod SetUp
mod Tests
use ws_audiod.Base.{
  ℕ, ◌*◌, ◌/◌, ◌%◌, ◌^◌, Bool, true, false, ◌&&◌, Option, none, some, List, [], ◌∷◌, Text, ◌==◌,
  ltb, if◌then◌else◌, ℤ, pos, negsuc, add_size, mul_size, Floating,
}
use ws_audiod.Config.{AudioConfig}
use ws_audiod.Pipeline.Chunk.{AudioChunkMeta}
use ws_audiod.Pipeline.Life.{resize}

pub data PcmFormat : Type 0 where
  s16_le s24_le s32_le : PcmFormat

unfoldable pub format_of : ℕ → PcmFormat
format_of bits = if bits == 32 then s32_le else if bits == 24 then s24_le else s16_le

-- What the library answers: whether a call succeeds, and the value nearest to the one asked for.
pub record Card : Type 0 where
  pub opens : Text → Bool
  pub set_access : Bool
  pub set_format : PcmFormat → Bool
  pub set_channels : ℕ → Bool
  pub set_rate_near : ℕ → Option ℕ
  pub set_period_size_near : ℕ → Option ℕ
  pub set_buffer_size_near : ℕ → Bool
  pub apply_params : Bool
  pub prepare : Bool

-- What a turn of the loop meets, while `running_` is set: the result of `snd_pcm_readi`, the buffer
-- after it, the result of `snd_pcm_recover` if it is called, and the time.
pub record Turn : Type 0 where
  pub read : ℤ
  pub buffer : List ℕ
  pub recovered : ℤ
  pub time : ℕ

-- A call of the callback. The pipeline's one reads the fields in `meta` only; the others of the
-- metadata stand beside it.
pub record Chunk : Type 0 where
  pub meta : AudioChunkMeta
  pub sample_rate : ℕ
  pub frame_count : ℕ
  pub total_frames : ℕ
  pub bytes : List ℕ
  pub sample_count : ℕ

-- The frames that a turn goes on with: of the read, or of the recovery; `none` where it breaks the
-- loop. After an overrun, -EPIPE, the device is prepared and nothing is handed on.
unfoldable pub frames_of : Turn → Option ℕ
frames_of t = elim t.read [
  | pos n ↦ some n
  | negsuc e ↦ if e == 31 then some 0 else elim t.recovered [ pos n ↦ some n | negsuc e' ↦ none ]
]

module _ (m : Floating) where
  -- `pcm`: whether the device is open; `callback`: whether there is one.
  pub record AlsaCapture : Type 0 where
    pub config : AudioConfig m
    pub pcm : Bool
    pub running : Bool
    pub callback : Bool
    pub actual_rate : ℕ
    pub actual_period : ℕ
    pub total_frames : ℕ
    pub period_buffer : List ℕ

  abbrev pub alsa_capture : AudioConfig m → AlsaCapture
  alsa_capture config = record {
    config = config;
    pcm = false;
    running = false;
    callback = false;
    actual_rate = 0;
    actual_period = 0;
    total_frames = 0;
    period_buffer = [];
  }

  -- The size of the buffer in bytes: the product of frames and channels has 32 bits.
  abbrev pub period_bytes : AlsaCapture → ℕ
  period_bytes c =
      mul_size ((c.actual_period * c.config.channels) % 2 ^ 32) (c.config.bits_per_sample / 8)

  -- From the size of the card's buffer on, for a period.
  unfoldable pub set_buffer : Card → AlsaCapture → ℕ → AlsaCapture × Bool
  set_buffer o c period =
      if o.set_buffer_size_near (mul_size period c.config.buffer_periods)
        && (o.apply_params && o.prepare)
      then (record c { period_buffer = resize m c.period_buffer (period_bytes c) }, true)
      else (c, false)

  unfoldable pub set_period : Card → AlsaCapture → AlsaCapture × Bool
  set_period o c = elim (o.set_period_size_near c.config.period_size) [
    | none ↦ (c, false)
    | some period ↦ set_buffer o (record c { actual_period = period % 2 ^ 32 }) period
  ]

  unfoldable pub set_rate : Card → AlsaCapture → AlsaCapture × Bool
  set_rate o c = elim (o.set_rate_near c.config.sample_rate) [
    | none ↦ (c, false)
    | some rate ↦ set_period o (record c { actual_rate = rate })
  ]

  -- `initialize`: the device stays open where a later call fails.
  unfoldable pub initialize : Card → AlsaCapture → AlsaCapture × Bool
  initialize o c =
      let opened = record c { pcm = true } in
      if o.opens c.config.device
      then if o.set_access
          && (o.set_format (format_of c.config.bits_per_sample) && o.set_channels c.config.channels)
        then set_rate o opened
        else (opened, false)
      else (c, false)

  unfoldable pub start : AlsaCapture → AlsaCapture
  start c = if c.running then c else record c { running = true; total_frames = 0 }

  -- The reading call is unblocked, the thread joined and the device closed.
  unfoldable pub stop : AlsaCapture → AlsaCapture
  stop c = record c { running = false; pcm = false }

  -- The callback's arguments for frames that were read.
  unfoldable pub chunk : AlsaCapture → Turn → ℕ → Chunk
  chunk c t n = record {
    meta = record {
      timestamp_us = t.time;
      channels = c.config.channels;
      bits_per_sample = c.config.bits_per_sample;
    };
    sample_rate = c.actual_rate;
    frame_count = n;
    total_frames = add_size c.total_frames n;
    bytes = t.buffer;
    sample_count = mul_size n c.config.channels;
  }

  abbrev pub after_turn : AlsaCapture → Turn → ℕ → AlsaCapture
  after_turn c t n = record c { total_frames = add_size c.total_frames n; period_buffer = t.buffer }

  -- The loop over the turns until `running_` is cleared, with the calls of the callback.
  unfoldable pub capture_loop : AlsaCapture → List Turn → AlsaCapture × List Chunk
  capture_loop c [] = (c, [])
  capture_loop c (t ∷ ts) = elim (frames_of t) [
    | none ↦ (record c { period_buffer = t.buffer }, [])
    | some n ↦
        let heard = capture_loop (after_turn c t n) ts in
        let skipped = capture_loop (record c { period_buffer = t.buffer }) ts in
        if ltb 0 n && c.callback then (heard.0, chunk c t n ∷ heard.1) else skipped
  ]
