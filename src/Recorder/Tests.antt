-- ===== src/Recorder/Tests.antt =====
-- A small recorder at work: 16-bit mono in blocks of two frames, with a queue of eight bytes.
use ws_audiod.Base.{
  ℕ, ◌*◌, ◌≤◌, ◌<◌, ◌↔◌, ◌≡◌, refl, sym, subst, ◌∙◌, Bool, true, false, Option, none, some, List,
  [], ◌∷◌, arith, replicate, memcpy, text_eq,
}
use mathlib.Core.Option
use ws_audiod.Pcm.{unpack}
use ws_audiod.Pcm.Unpack.{unpack_zero}
use ws_audiod.Recorder.{
  Recorder, block_recorder, start, push, awake, round, drain, stop, refill, cut,
}
use ws_audiod.Recorder.Writer.{
  Outside, Params, File, fresh_files, process, ensure_open, open_next_file, write_batch,
  finish_block, close_current_file, make_filename, subtype_of, container_of, wav, pcm_16,
}
use ws_audiod.Recorder.Writer.Blocks.{IsSane, all_samples, emitted}
use ws_audiod.Recorder.Writer.Ends.{fresh_files-IsBlocked, emitted-fresh_files}
use ws_audiod.Recorder.Push.{Queued, Pushed, push-Pushed}
use ws_audiod.Recorder.Track.{Tracks}
use ws_audiod.Recorder.Run.{
  Reach, waiting, draining, over, begun, pushed, woken, went_round, ended, stopped,
}
use ws_audiod.Recorder.Run.Live.{Live, Reach-Live}
use ws_audiod.Recorder.Drain.{Drained, drain-Drained}
use ws_audiod.Recorder.Writer.Process.{Processed, process-Processed}
use ws_audiod.Recorder.Start.{InRange, start-Tracks}
use ws_audiod.Recorder.Wake.{push_all, bytes_in, never_woken, block_recorder_sizes}
use ws_audiod.Recorder.Writer.Ends.{Finished, close_current_file-Finished}
use ws_audiod.Recorder.Stop.{HasStopped, stop-HasStopped}

abbrev all_good : Outside
all_good = record {
  opens = λ _. true;
  writes = λ _ batch. some batch;
  clock = λ _. 0;
  utc = λ _. [];
  heard = true;
}

abbrev two_frames : Params
two_frames = record {
  enabled = true;
  output_dir = [];
  format = [];
  sample_rate = 2;
  channels = 1;
  bits_per_sample = 16;
  block_frames = 2;
  bytes_per_frame = 2;
}

abbrev small : Recorder
small = record {
  params = two_frames;
  recording = true;
  ring = replicate 8 0;
  ring_capacity = 8;
  ring_mask = 7;
  ring_write = 0;
  ring_read = 0;
  writer_running = true;
  write_buffer = replicate 8 0;
  buffer_used = 0;
  flush_threshold = 4;
  files = fresh_files;
}

abbrev period : List ℕ
period = 1 ∷ 0 ∷ 2 ∷ 0 ∷ 3 ∷ 0 ∷ []

two_frames-IsSane : IsSane two_frames
two_frames-IsSane = record {
  depth = refl;
  some_channels = omega arith;
  frame = refl;
  some_frames = omega arith;
  small = omega arith;
}

small-Queued : Queued small []
small-Queued = record {
  log = 3;
  log_small = omega arith;
  capacity = refl;
  mask = refl;
  storage = refl;
  written = refl;
  small = omega arith;
  behind = omega arith;
  within = omega arith;
  cells = λ p inside _. absurd (omega arith);
}

small-Tracks : Tracks small []
small-Tracks = record {
  filled = record {
    queue = small-Queued;
    sane = two_frames-IsSane;
    blocked = fresh_files-IsBlocked two_frames;
    done = 0;
    split = refl;
    held = omega arith;
    emits = emitted-fresh_files ∙ sym (unpack_zero 16 []);
    buffered = refl;
    room = omega arith;
    fits = omega arith;
  };
  rest = omega arith;
}

-- The recorder after a period of three frames.
abbrev loaded : Recorder
loaded = record small { ring = 1 ∷ 0 ∷ 2 ∷ 0 ∷ 3 ∷ 0 ∷ 0 ∷ 0 ∷ []; ring_write = 6 }

push_small : push small period 3 ≡ loaded
unfolding push memcpy
push_small = refl

-- The files after the period: one block of two frames, and one frame.
abbrev first_block : File
first_block = record {
  path = make_filename two_frames all_good 0;
  container = wav;
  subtype = pcm_16;
  samplerate = 2;
  file_channels = 1;
  samples = 1 ∷ 2 ∷ [];
}

drain_small :
    Option.map {A = Recorder} (λ r. r.files.closed) (drain 7 all_good loaded)
    ≡ some (first_block ∷ [])
unfolding drain round refill cut process ensure_open open_next_file write_batch finish_block
    close_current_file fresh_files container_of subtype_of unpack memcpy text_eq
drain_small = refl

push-Pushed_example : Pushed small [] period (push small period 3)
push-Pushed_example = push-Pushed small [] period 3 small-Queued refl (omega arith)

-- The life of the small recorder: a period, a round of the writer, `stop`, and the writer's end.
abbrev of_round : Option (Recorder × Bool) → Recorder
of_round none = small
of_round (some (r, more)) = r

abbrev rounded : Recorder
rounded = of_round (round all_good loaded)

abbrev quiet : Recorder
quiet = record rounded { recording = false; writer_running = false }

loaded_reached : Reach all_good small loaded waiting period
loaded_reached =
    subst (λ r. Reach all_good small r waiting period) push_small
      (pushed period 3 begun refl (omega arith))

rounded_reached : Reach all_good small rounded draining period
unfolding awake round refill cut process ensure_open open_next_file write_batch finish_block
    close_current_file fresh_files container_of subtype_of unpack memcpy text_eq
rounded_reached = went_round (woken loaded_reached refl) refl

over_reached :
    Reach all_good small (record quiet { files = close_current_file quiet.files }) over period
unfolding round refill cut process ensure_open open_next_file write_batch finish_block
    close_current_file fresh_files container_of subtype_of unpack memcpy text_eq
over_reached = ended (stopped rounded_reached) refl refl refl

Reach-Live_example :
    Live small over (record quiet { files = close_current_file quiet.files }) period
Reach-Live_example =
    Reach-Live all_good small (record quiet { files = close_current_file quiet.files }) over period
      (λ _. refl) small-Tracks refl over_reached

loaded-Tracks : Tracks loaded period
loaded-Tracks =
    (Reach-Live all_good small loaded waiting period (λ _. refl) small-Tracks refl
      loaded_reached).phase

stop-HasStopped_example : HasStopped period (stop 1 all_good loaded)
stop-HasStopped_example =
    stop-HasStopped 0 all_good loaded period (λ _. refl) loaded-Tracks refl refl

drain-Drained_example : Drained all_good loaded period (drain 7 all_good loaded)
drain-Drained_example = drain-Drained 7 all_good loaded period loaded-Tracks (omega arith)

process-Processed_example :
    Processed two_frames all_good fresh_files period 3
      (process 4 two_frames all_good fresh_files period 3)
process-Processed_example =
    process-Processed 4 two_frames all_good fresh_files period 3 two_frames-IsSane
      (fresh_files-IsBlocked two_frames) (omega arith) (omega arith)

-- 16-bit mono at 4000 Hz, and two periods.
slow-InRange : InRange 300 4000 1 16
slow-InRange = record {
  some_seconds = omega arith;
  seconds_32 = omega arith;
  some_rate = omega arith;
  rate_32 = omega arith;
  some_channels = omega arith;
  channels_16 = omega arith;
  depth = refl;
}

abbrev two_periods : List (List ℕ × ℕ)
two_periods = (1 ∷ 0 ∷ 2 ∷ 0 ∷ [], 2) ∷ (3 ∷ 0 ∷ [], 1) ∷ []

never_woken_example :
    awake (push_all (start (block_recorder true [] [] 300 4000 1 16)) two_periods) ≡ false
unfolding bytes_in
never_woken_example =
    never_woken 300 4000 1 16 [] [] two_periods slow-InRange (omega arith) (refl, (refl, tt))
      (omega arith)

-- Five minutes of 16-bit stereo at 48 kHz.
stereo-InRange : InRange 300 48000 2 16
stereo-InRange = record {
  some_seconds = omega arith;
  seconds_32 = omega arith;
  some_rate = omega arith;
  rate_32 = omega arith;
  some_channels = omega arith;
  channels_16 = omega arith;
  depth = refl;
}

start-Tracks_example : Tracks (start (block_recorder true [] [] 300 48000 2 16)) []
start-Tracks_example = start-Tracks 300 48000 2 16 stereo-InRange true [] []

block_recorder_sizes_example :
    let r = block_recorder true [] [] 300 48000 2 16 in
    (192000 * 4 ≤ r.ring_capacity)
    × (r.ring_capacity < 192000 * 8)
    × ((r.flush_threshold ≤ r.ring_capacity) ↔ (8192 < 192000))
block_recorder_sizes_example = block_recorder_sizes 300 48000 2 16 true [] [] stereo-InRange

rounded-Tracks : Tracks rounded period
rounded-Tracks =
    let l =
      Reach-Live all_good small rounded draining period (λ _. refl) small-Tracks refl
        rounded_reached in
    l.phase

close_current_file-Finished_example :
    (all_samples (close_current_file rounded.files).closed ≡ emitted rounded.files)
    × ((close_current_file rounded.files).sndfile ≡ none)
    × Finished rounded.params (close_current_file rounded.files).closed
close_current_file-Finished_example =
    close_current_file-Finished rounded.params rounded.files rounded-Tracks.blocked
