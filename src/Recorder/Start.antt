-- ===== src/Recorder/Start.antt =====
-- The constructor of a BlockRecorder and `start`: the invariants hold at the beginning, and the sizes
-- of the queue and of the buffer.
use native.Mathlib.Nat.{
  mul-le-mul_left, mul-le-mul, mul-pos, mod-eq_of_lt, one-le-pow, pow-le-pow_right,
}
use ws_audiod.Base.{
  ℕ, ◌-◌, ◌*◌, ◌/◌, ◌^◌, ◌≤◌, ◌<◌, max, ◌==◌, if_cases, ◌≡◌, refl, sym, ◌∙◌, Bool, true, false, [],
  arith, length-replicate, mul_size, Text, le-mul_pos,
}
use ws_audiod.Pow2.{next_pow2, next_power_of_2}
use ws_audiod.Pow2.Least.{next_power_of_2_least, next_pow2-next_power_of_2}
use ws_audiod.Pcm.{width}
use ws_audiod.Pcm.Unpack.{width_pos, unpack_none}
use ws_audiod.Recorder.{block_recorder, start}
use ws_audiod.Recorder.Writer.Ends.{fresh_files-IsBlocked, emitted-fresh_files}
use ws_audiod.Recorder.Push.{Queued}
use ws_audiod.Recorder.Track.{Tracks}

-- The settings that the recorder is made for, in the ranges of their C++ types.
pub record InRange (seconds sample_rate channels bits : ℕ) : Type 0 where
  pub some_seconds : 0 < seconds
  pub seconds_32 : seconds < 2 ^ 32
  pub some_rate : 0 < sample_rate
  pub rate_32 : sample_rate < 2 ^ 32
  pub some_channels : 0 < channels
  pub channels_16 : channels < 2 ^ 16
  pub depth : bits / 8 ≡ width bits

module _ (seconds rate channels bits : ℕ) (h : InRange seconds rate channels bits) where
  pub frame_lem :
      (mul_size channels (bits / 8) ≡ channels * width bits)
      × (channels ≤ channels * width bits)
      × (channels * width bits ≤ channels * 4)
  frame_lem =
      let most = mul-le-mul_left channels (let small : width bits ≤ 4 = ground arith in small) in
      (
        rw h.depth (mod-eq_of_lt (omega (arith, h.channels_16, most))),
        le-mul_pos channels (width bits) (omega (arith, width_pos bits)),
        most,
      )

  -- A second of audio: no product wraps.
  pub second_lem :
      let b = mul_size channels (bits / 8) in
      (mul_size rate b ≡ rate * b) × (0 < rate * b) × (b ≤ rate * b) × (rate * b < 2 ^ 51)
  second_lem =
      let b : ℕ = mul_size channels (bits / 8) in
      let (frame, least, most) = frame_lem in
      let up : rate * b ≤ 2 ^ 32 * 2 ^ 18 =
        mul-le-mul {n₂ = 2 ^ 32} {m₂ = 2 ^ 18} (omega (arith, h.rate_32))
          (omega (arith, frame, most, h.channels_16)) in
      (
        mod-eq_of_lt (omega (arith, up)),
        mul-pos h.some_rate (omega (arith, frame, least, h.some_channels)),
        omega (arith, le-mul_pos b rate h.some_rate),
        omega (arith, up),
      )

  block_lem :
      (mul_size seconds rate ≡ seconds * rate) × (0 < seconds * rate) × (seconds * rate < 2 ^ 64)
  block_lem =
      let up : seconds * rate ≤ (2 ^ 32 - 1) * 2 ^ 32 =
        mul-le-mul {n₂ = 2 ^ 32 - 1} {m₂ = 2 ^ 32} (omega (arith, h.seconds_32))
          (omega (arith, h.rate_32)) in
      (mod-eq_of_lt (omega (arith, up)), mul-pos h.some_seconds h.some_rate, omega (arith, up))

  -- The queue of a new recorder: a power of two, of at least four seconds.
  pub queue_lem :
      let four = mul_size (mul_size rate (mul_size channels (bits / 8))) 4 in
      (k : ℕ) × (k ≤ 63) × (next_pow2 four ≡ 2 ^ k) × (four ≤ 2 ^ k) × (2 ^ k < 2 * four)
  queue_lem =
      let (second, pos, _, up) = second_lem in
      let one : ℕ = rate * mul_size channels (bits / 8) in
      let four : mul_size (mul_size rate (mul_size channels (bits / 8))) 4 ≡ one * 4 =
        omega (arith, second, up) in
      let some_bytes : (one * 4 == 0) ≡ false = ground (arith, pos) in
      let same : next_pow2 (one * 4) ≡ next_power_of_2 (one * 4) =
        next_pow2-next_power_of_2 (one * 4) (omega (arith, up)) ∙ rw some_bytes refl in
      let (k, small, e, low, high) =
        next_power_of_2_least (one * 4) (omega (arith, pos)) (omega (arith, up)) in
      rw four (k, small, same ∙ e, low, high)

  pub block_recorder-Tracks :
      (enabled recording running : Bool) (output_dir format : Text)
      → Tracks
          (record (block_recorder enabled output_dir format seconds rate channels bits) {
            recording = recording;
            writer_running = running;
          })
          []
  unfolding block_recorder
  block_recorder-Tracks enabled recording running output_dir format =
      let (k, small, e, low, high) = queue_lem in
      let (second, pos, least, up) = second_lem in
      let (frame, wide, _) = frame_lem in
      let (block, some_frames, block_64) = block_lem in
      let some_bytes : 0 < mul_size channels (bits / 8) =
        omega (arith, frame, wide, h.some_channels) in
      let top : 2 ^ k ≤ 2 ^ 63 = pow-le-pow_right (omega arith) small in
      let two : mul_size (max (mul_size rate (mul_size channels (bits / 8))) 65536) 2
          ≡ max (rate * mul_size channels (bits / 8)) 65536 * 2 =
        omega (arith, second, up) in
      let size =
        length-replicate {A = ℕ}
          (mul_size (max (mul_size rate (mul_size channels (bits / 8))) 65536) 2) 0
        ∙ two in
      record {
        filled = record {
          queue = record {
            log = k;
            log_small = small;
            capacity = e;
            mask = omega (arith, e, top, one-le-pow k 2 (omega arith));
            storage = length-replicate _ 0;
            written = refl;
            small = omega arith;
            behind = omega arith;
            within = omega arith;
            cells = λ p inside _. absurd (omega arith);
          };
          sane = record {
            depth = h.depth;
            some_channels = h.some_channels;
            frame = frame;
            some_frames = omega (arith, block, some_frames);
            small = omega (arith, block, block_64);
          };
          blocked = fresh_files-IsBlocked _;
          done = 0;
          split = omega arith;
          held = omega arith;
          emits = emitted-fresh_files ∙ sym (unpack_none bits channels []);
          buffered = refl;
          room = omega (arith, size, least);
          fits = omega (arith, size, up);
        };
        rest = some_bytes;
      }

  -- A new recorder, started, has handed nothing over, and nothing was pushed; for settings in the ranges
  -- of their C++ types with a positive block duration, rate and number of channels, and a depth that the
  -- samples have.
  pub start-Tracks :
      (enabled : Bool) (output_dir format : Text)
      → Tracks (start (block_recorder enabled output_dir format seconds rate channels bits)) []
  unfolding start block_recorder
  start-Tracks enabled output_dir format =
      if_cases (λ r. Tracks r []) enabled _ _
        (λ _. block_recorder-Tracks enabled true true output_dir format)
        (λ _. block_recorder-Tracks enabled false false output_dir format)

  -- Nothing was pushed, and the size of its frames.
  pub block_recorder_empty :
      (enabled : Bool) (output_dir format : Text)
      → let r = block_recorder enabled output_dir format seconds rate channels bits in
        (r.ring_write ≡ 0) × (r.bytes_per_frame ≡ channels * width bits) × Queued r []
  unfolding block_recorder
  block_recorder_empty enabled output_dir format =
      (refl, frame_lem.0, (block_recorder-Tracks enabled false false output_dir format).queue)

  -- A new recorder that is enabled is at work once it is started.
  pub start_enabled :
      (output_dir format : Text)
      → let r = start (block_recorder true output_dir format seconds rate channels bits) in
        (r.ring_write ≡ 0) × (r.bytes_per_frame ≡ channels * width bits) × (r.writer_running ≡ true)
  unfolding start block_recorder
  start_enabled output_dir format = (refl, frame_lem.0, refl)
