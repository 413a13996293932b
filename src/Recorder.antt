-- ===== src/Recorder.antt =====
-- src/capture/block_recorder.cpp and include/audio_daemon/block_recorder.hpp: the capture thread
-- copies periods into a byte queue, and a writer thread cuts the stream into files of a fixed number
-- of frames. The calls of one thread are atomic steps here, which the two cursors of the queue allow:
-- `push` moves only `ring_write` and the cells in front of it, a round of the writer only `ring_read`.
pub mod Writer
pub mod Start
pub mod Push
pub mod Track
pub mod Refill
pub mod Outcome
pub mod Cut
pub mod Drain
pub mod Run
pub mod Stop
pub mod Wake
mod Tests
use Prim.Native.Nat.{bit_and}
use ws_audiod.Base.{
  ℕ, zero, suc, ◌+◌, ◌-◌, ◌*◌, ◌/◌, ◌%◌, min, max, Bool, true, false, Option, none, some, List,
  drop, replicate, memcpy, add_size, sub_size, mul_size, length, ltb, leb, ◌==◌, ◌||◌, not,
  if◌then◌else◌, Text,
}
use ws_audiod.Pow2.{next_pow2}
use Writer.{Outside, Params, Files, fresh_files, process, close_current_file}

pub record Recorder : Type 0 where
  pub params : Params
  pub open params use *
  pub recording : Bool
  pub ring : List ℕ
  pub ring_capacity : ℕ
  pub ring_mask : ℕ
  pub ring_write : ℕ
  pub ring_read : ℕ
  pub writer_running : Bool
  pub write_buffer : List ℕ
  pub buffer_used : ℕ
  pub flush_threshold : ℕ
  pub files : Files

-- The constructor, from the settings and the stream's parameters.
pub block_recorder : Bool → Text → Text → ℕ → ℕ → ℕ → ℕ → Recorder
block_recorder enabled output_dir format seconds sample_rate channels bits =
    let bytes_per_frame = mul_size channels (bits / 8) in
    let one_second = mul_size sample_rate bytes_per_frame in
    let flush_threshold = max one_second 65536 in
    let ring_bytes = next_pow2 (mul_size one_second 4) in
    record {
      params = record {
        enabled = enabled;
        output_dir = output_dir;
        format = format;
        sample_rate = sample_rate;
        channels = channels;
        bits_per_sample = bits;
        block_frames = mul_size seconds sample_rate;
        bytes_per_frame = bytes_per_frame;
      };
      recording = false;
      ring = replicate ring_bytes 0;
      ring_capacity = ring_bytes;
      ring_mask = sub_size ring_bytes 1;
      ring_write = 0;
      ring_read = 0;
      writer_running = false;
      write_buffer = replicate (mul_size flush_threshold 2) 0;
      buffer_used = 0;
      flush_threshold = flush_threshold;
      files = fresh_files;
    }

-- `start`; the writer thread begins to wait.
pub start : Recorder → Recorder
start r = if r.enabled then record r { recording = true; writer_running = true } else r

-- The condition that the writer thread waits for.
pub awake : Recorder → Bool
awake r = leb r.flush_threshold (sub_size r.ring_write r.ring_read) || not r.writer_running

-- The copy of `push` into the queue, which may go round the end of the array.
abbrev pub copy_in : Recorder → List ℕ → ℕ → List ℕ
copy_in r src bytes =
    let pos = bit_and r.ring_write r.ring_mask in
    let first = min bytes (sub_size r.ring_capacity pos) in
    let ring' = memcpy r.ring pos src first in
    if ltb first bytes then memcpy ring' 0 (drop first src) (bytes - first) else ring'

-- A period that does not fit is dropped whole.
pub push : Recorder → List ℕ → ℕ → Recorder
push r src frame_count =
    let bytes = mul_size frame_count r.bytes_per_frame in
    let used = sub_size r.ring_write r.ring_read in
    let avail = sub_size r.ring_capacity used in
    if r.recording
    then (if ltb avail bytes
        then r
        else record r { ring = copy_in r src bytes; ring_write = add_size r.ring_write bytes })
    else r

-- The copy out of the queue behind what the write buffer holds.
abbrev pub copy_out : Recorder → ℕ → List ℕ
copy_out r chunk =
    let pos = bit_and r.ring_read r.ring_mask in
    let first = min chunk (sub_size r.ring_capacity pos) in
    let buffer = memcpy r.write_buffer r.buffer_used (drop pos r.ring) first in
    if ltb first chunk
    then memcpy buffer (add_size r.buffer_used first) r.ring (chunk - first)
    else buffer

-- The first half of a round of the inner loop: a chunk is moved from the queue to the buffer.
pub refill : Recorder → ℕ → Recorder
refill r chunk = record r {
  write_buffer = copy_out r chunk;
  buffer_used = add_size r.buffer_used chunk;
  ring_read = add_size r.ring_read chunk;
}

-- The second half: the whole frames of the buffer go to the files, and the rest of it to its start.
-- The result is false where no file could be opened and the buffer is dropped.
pub cut : Outside → Recorder → Option (Recorder × Bool)
cut o r =
    let frame_bytes = r.buffer_used - r.buffer_used % r.bytes_per_frame in
    let frames = frame_bytes / r.bytes_per_frame in
    let leftover = r.buffer_used - frame_bytes in
    let handed = process (suc frames) r.params o r.files r.write_buffer frames in
    if frames == 0 then some (r, true) else (elim handed [
      | none ↦ none
      | some (w, false) ↦ some (record r { files = w; buffer_used = 0 }, false)
      | some (w, true) ↦ some (
        record r {
          files = w;
          write_buffer = memcpy r.write_buffer 0 (drop frame_bytes r.write_buffer) leftover;
          buffer_used = leftover;
        },
        true,
      )
    ])

-- One round of the inner `while (true)` of `writer_thread_func`. The result is false at its end,
-- which is an empty queue or a file that cannot be opened.
pub round : Outside → Recorder → Option (Recorder × Bool)
round o r =
    let avail = sub_size r.ring_write r.ring_read in
    if avail == 0
    then some (r, false)
    else cut o (refill r (min avail (sub_size (length r.write_buffer) r.buffer_used)))

-- The inner loop, on fuel.
pub drain : ℕ → Outside → Recorder → Option Recorder
drain zero o r = none
drain (suc fuel) o r = elim (round o r) [
  | none ↦ none
  | some (r', false) ↦ some r'
  | some (r', true) ↦ drain fuel o r'
]

-- The outer loop once `stop` has cleared `writer_running_` and the writer thread is awake, on fuel: the
-- condition of its wait holds from then on, so that it does not sleep again, and ends when the queue
-- is empty.
pub finish : ℕ → Outside → Recorder → Option Recorder
finish zero o r = none
finish (suc fuel) o r = elim (drain (suc (r.ring_write - r.ring_read)) o r) [
  | none ↦ none
  | some r' ↦ elim (r'.ring_write == r'.ring_read) [
    | true ↦ some (record r' { files = close_current_file r'.files })
    | false ↦ finish fuel o r'
  ]
]

-- `stop`, which joins the writer thread: `none` where the thread does not end, since the notification
-- was lost.
pub stop : ℕ → Outside → Recorder → Option Recorder
stop fuel o r =
    let quiet = record r { recording = false } in
    let ended = finish fuel o (record quiet { writer_running = false }) in
    if r.writer_running then if o.heard then ended else none else some quiet
