-- ===== src/Recorder/Run.antt =====
-- The two threads of a BlockRecorder as steps: `push` of the capture thread, `stop`, and the writer
-- thread, which waits, drains the queue in rounds, and ends.
pub mod Live
use mathlib.Core.List.{append-nil}
use mathlib.Core.Bool.{and-false, true≢false}
use mathlib.Core.Option.{some-injective}
use ws_audiod.Base.{
  ℕ, ◌+◌, ◌-◌, ◌*◌, ◌/◌, ◌^◌, ◌≤◌, ◌<◌, ◌≡◌, ◌≢◌, refl, sym, ap, subst, ◌∙◌, ◌⊎◌, Bool, true, false,
  ◌&&◌, Option, none, some, List, [], ◌++◌, arith, length, leb, if◌then◌else◌,
}
use ws_audiod.Pcm.{unpack}
use ws_audiod.Recorder.{Recorder, push, awake, round}
use ws_audiod.Recorder.Writer.{Outside, Params, Files, close_current_file}
use ws_audiod.Recorder.Writer.Blocks.{all_samples}
use ws_audiod.Recorder.Writer.Ends.{Finished, close_current_file-Finished}
use ws_audiod.Recorder.Push.{Queued, Pushed, accepted, full, idle, push-Pushed}
use ws_audiod.Recorder.Track.{Tracks, Tracks-flags, Tracks-grow}
use ws_audiod.Recorder.Outcome.{Moved, Dropped}
use ws_audiod.Recorder.Drain.{Rounded, empty, taken, lost, emptied, round-Rounded}

-- Where the writer thread is: in `writer_cv_.wait`, in the inner loop, or at its end.
pub data Phase : Type 0 where
  waiting draining over : Phase

-- The bytes of a period that are to be kept: all of them where they fit, none otherwise.
abbrev pub kept_of : Recorder → List ℕ → List ℕ
kept_of r src =
    if r.recording && leb (length src) (r.ring_capacity - (r.ring_write - r.ring_read))
    then src
    else []

-- The recorders that the threads reach from `r0`, with the writer's phase and the bytes of all
-- periods that were kept.
pub data Reach (o : Outside) (r0 : Recorder) : Recorder → Phase → List ℕ → Type 0 where
  begun : Reach o r0 r0 waiting []
  pushed :
      {r : Recorder} {p : Phase} {stream : List ℕ} (src : List ℕ) (frame_count : ℕ)
      → Reach o r0 r p stream
      → length src ≡ frame_count * r.bytes_per_frame
      → r.ring_write + length src < 2 ^ 64
      → Reach o r0 (push r src frame_count) p (stream ++ kept_of r src)
  woken :
      {r : Recorder} {stream : List ℕ}
      → Reach o r0 r waiting stream
      → awake r ≡ true
      → Reach o r0 r draining stream
  went_round :
      {r r' : Recorder} {stream : List ℕ}
      → Reach o r0 r draining stream
      → round o r ≡ some (r', true)
      → Reach o r0 r' draining stream
  waits :
      {r r' : Recorder} {stream : List ℕ}
      → Reach o r0 r draining stream
      → round o r ≡ some (r', false)
      → (r'.writer_running ≡ true) ⊎ (r'.ring_write ≢ r'.ring_read)
      → Reach o r0 r' waiting stream
  ended :
      {r r' : Recorder} {stream : List ℕ}
      → Reach o r0 r draining stream
      → round o r ≡ some (r', false)
      → r'.writer_running ≡ false
      → r'.ring_write ≡ r'.ring_read
      → Reach o r0 (record r' { files = close_current_file r'.files }) over stream
  stopped :
      {r : Recorder} {p : Phase} {stream : List ℕ}
      → Reach o r0 r p stream
      → Reach o r0 (record r { recording = false; writer_running = false }) p stream
