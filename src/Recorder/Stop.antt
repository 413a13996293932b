-- ===== src/Recorder/Stop.antt =====
-- `BlockRecorder::stop`: the writer thread drains the queue once more and closes its file.
use mathlib.Core.Bool.{true≢false}
use ws_audiod.Base.{
  ℕ, suc, ◌-◌, ◌*◌, ◌/◌, ◌≡◌, refl, sym, ap, ◌∙◌, Bool, true, false, Option, none, some, List,
  arith, length, ◌==◌, if_cases,
}
use ws_audiod.Pcm.{unpack}
use ws_audiod.Recorder.{Recorder, finish, stop}
use ws_audiod.Recorder.Writer.{Outside, close_current_file}
use ws_audiod.Recorder.Writer.Blocks.{all_samples}
use ws_audiod.Recorder.Writer.Ends.{Finished, close_current_file-Finished}
use ws_audiod.Recorder.Track.{Tracks, Tracks-flags}
use ws_audiod.Recorder.Drain.{all, failed, drain-Drained}

-- What `stop` leaves.
pub record HasStopped (stream : List ℕ) (result : Option Recorder) : Type 0 where
  pub after : Recorder
  pub returns : result ≡ some after
  pub idle : after.recording ≡ false
  pub none_left : after.ring_read ≡ after.ring_write
  pub shut : after.files.sndfile ≡ none
  pub blocks : Finished after.params after.files.closed
  pub all_frames :
      all_samples after.files.closed
      ≡ unpack after.bits_per_sample (length stream / after.bytes_per_frame * after.channels) stream

finish_lem :
    (fuel : ℕ) (o : Outside) (r : Recorder) (stream : List ℕ)
    → ((k : ℕ) → o.opens k ≡ true)
    → Tracks r stream
    → r.recording ≡ false
    → HasStopped stream (finish (suc fuel) o r)
unfolding finish
finish_lem fuel o r stream good v off =
    let d = drain-Drained (suc (r.ring_write - r.ring_read)) o r stream v (omega arith) in
    elim d.end [
      | all t e all_frames left ↦
          let (same, shut, blocks) =
            close_current_file-Finished d.after.params d.after.files t.blocked in
          let none_left : (d.after.ring_write == d.after.ring_read) ≡ true = ground arith in
          record {
            after = record (d.after) { files = close_current_file d.after.files };
            returns = rw (finish, d.returns, none_left) refl;
            idle = ap {A = Recorder} {B = Bool} (λ x. x.recording) d.moved ∙ off;
            none_left = e;
            shut = shut;
            blocks = blocks;
            all_frames = same ∙ all_frames;
          }
      | failed lost ↦ absurd (true≢false (sym (good lost.refused) ∙ lost.bad))
    ]

-- If every file can be opened and the notification of `stop` is not lost, `stop` returns after one more pass of the writer: recording is off,
-- the queue is empty and no file is open. The closed files hold all whole frames that were kept
-- since the start, in order and without a gap; all of them are whole blocks, but for the last.
pub stop-HasStopped :
    (fuel : ℕ) (o : Outside) (r : Recorder) (stream : List ℕ)
    → ((k : ℕ) → o.opens k ≡ true)
    → Tracks r stream
    → r.writer_running ≡ true
    → o.heard ≡ true
    → HasStopped stream (stop (suc fuel) o r)
unfolding stop
stop-HasStopped fuel o r stream good v running heard = rw running (
    if_cases (HasStopped stream) o.heard _ _
      (λ _.
        finish_lem fuel o (record r { recording = false; writer_running = false }) stream good
          (Tracks-flags r stream false false v) refl)
      (λ lost. absurd (true≢false (sym heard ∙ lost))))
