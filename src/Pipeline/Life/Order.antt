-- ===== src/Pipeline/Life/Order.antt =====
-- How the pipeline is stopped: the capture first, then what it feeds.
use mathlib.Core.Option
use ws_audiod.Base.{ℕ, suc, ◌≡◌, refl, ap, ◌∙◌, List, Option, none, some, true, false, Floating}
use ws_audiod.Clips.{Extractor}
use ws_audiod.Recorder.{Recorder}
use ws_audiod.Recorder.Writer.{Outside}
use ws_audiod.Recorder.Track.{Tracks}
use ws_audiod.Recorder.Stop.{HasStopped, stop-HasStopped}
use ws_audiod.Publisher.{cleanup}
use ws_audiod.Pipeline.Chunk.{Pipeline, Capture}
use ws_audiod.Pipeline.Life.{stop_recorder, stop_clips, stop}

-- There is no recorder, or one at work.
pub data RecorderRuns (o : Option Recorder) : Type 0 where
  absent : o ≡ none → RecorderRuns o
  runs :
      (r : Recorder) (stream : List ℕ)
      → o ≡ some r
      → Tracks r stream
      → r.writer_running ≡ true
      → RecorderRuns o

-- What is left of it: every frame that was pushed is in its files.
unfoldable pub RecorderStopped : {o : Option Recorder} → RecorderRuns o → Option Recorder → Type 0
RecorderStopped (absent e) after = after ≡ none
RecorderStopped (runs r stream e v on) after =
    (r' : Recorder) × (after ≡ some r') × HasStopped stream (some r')

stop_recorder-RecorderStopped :
    (fuel : ℕ) (o : Outside) (r : Option Recorder) (h : RecorderRuns r)
    → ((k : ℕ) → o.opens k ≡ true)
    → o.heard ≡ true
    → (after : Option Recorder) × (stop_recorder (suc fuel) o r ≡ some after)
      × RecorderStopped h after
unfolding stop_recorder RecorderStopped
stop_recorder-RecorderStopped fuel o r (RecorderRuns.absent e) good heard =
    (none, ap (stop_recorder (suc fuel) o) e, refl)
stop_recorder-RecorderStopped fuel o r (RecorderRuns.runs x stream e v on) good heard =
    let h = stop-HasStopped fuel o x stream good v on heard in
    (
      some h.after,
      ap (stop_recorder (suc fuel) o) e ∙ ap (λ t. Option.map some t) h.returns,
      (
        h.after,
        refl,
        record {
          after = h.after;
          returns = refl;
          idle = h.idle;
          none_left = h.none_left;
          shut = h.shut;
          blocks = h.blocks;
          all_frames = h.all_frames;
        },
      ),
    )

module _ (m : Floating) where
  -- Nothing runs, the samples are written, and the shared memory is gone.
  pub record Stopped (p : Pipeline m) (h : RecorderRuns p.block_recorder) (after : Pipeline m)
      : Type 0 where
    pub quiet : after.running ≡ false
    pub no_capture : Option.map (λ (c : Capture). c.capturing) after.capture ≡ some false
    pub no_clips : Option.map (λ (c : Extractor). c.running) after.clip_extractor ≡ some false
    pub recorder : RecorderStopped h after.block_recorder
    pub publisher : after.sample_publisher ≡ Option.map cleanup p.sample_publisher
    pub ring_kept : after.ring_buffer ≡ p.ring_buffer

  -- A running pipeline stops: the capture and the clip extractor are told to end, the recorder has
  -- written every whole frame that was pushed, and the publisher is cleaned up; where the files can
  -- be opened and the notification of the recorder's writer is not lost. A second stop, such as that of the destructor, changes nothing.
  pub stop-Stopped :
      (fuel : ℕ) (o : Outside) (p : Pipeline m) (clips : Extractor) (capture : Capture)
      (h : RecorderRuns p.block_recorder)
      → p.running ≡ true
      → p.clip_extractor ≡ some clips
      → p.capture ≡ some capture
      → ((k : ℕ) → o.opens k ≡ true)
      → o.heard ≡ true
      → (after : Pipeline m) × (stop m (suc fuel) o p ≡ some after)
        × Stopped p h after
        × ((fuel' : ℕ) (o' : Outside) → stop m fuel' o' after ≡ some after)
  unfolding stop
  stop-Stopped fuel o p clips capture h on has_clips has_capture good heard =
      let (r, e, stopped) = stop_recorder-RecorderStopped fuel o p.block_recorder h good heard in
      (
        record p {
          running = false;
          capture = some (record capture { capturing = false });
          clip_extractor = some (stop_clips clips);
          block_recorder = r;
          sample_publisher = Option.map cleanup p.sample_publisher;
        },
        rw (stop, on, has_clips, has_capture, e) refl,
        record {
          quiet = refl;
          no_capture = refl;
          no_clips = refl;
          recorder = stopped;
          publisher = refl;
          ring_kept = refl;
        },
        λ fuel' o'. refl,
      )
