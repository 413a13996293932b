-- ===== src/Recorder/Outcome.antt =====
-- How the writer thread's steps leave a recorder.
use ws_audiod.Base.{ℕ, ◌*◌, ◌≡◌, ap, ◌∙◌, false, List}
use ws_audiod.Pcm.{unpack}
use ws_audiod.Recorder.{Recorder}
use ws_audiod.Recorder.Writer.{Outside}
use ws_audiod.Recorder.Writer.Blocks.{IsBlocked, emitted}
use ws_audiod.Recorder.Push.{Queued}

-- The writer's part of a recorder: what the writer thread changes.
abbrev pub Moved : Recorder → Recorder → Type 0
Moved r after = after ≡ record r {
  files = after.files;
  write_buffer = after.write_buffer;
  buffer_used = after.buffer_used;
  ring_read = after.ring_read;
}

pub Moved-trans : (r s t : Recorder) → Moved r s → Moved s t → Moved r t
Moved-trans r s t m n =
    n
    ∙ ap {A = Recorder} {B = Recorder}
        (λ x. record x {
          files = t.files;
          write_buffer = t.write_buffer;
          buffer_used = t.buffer_used;
          ring_read = t.ring_read;
        })
        m

-- No file could be opened: the files hold a part of the stream, and the buffer is empty.
pub record Dropped (o : Outside) (r : Recorder) (stream : List ℕ) : Type 0 where
  pub queue : Queued r stream
  pub blocked : IsBlocked r.params r.files
  pub done : ℕ
  pub emits : emitted r.files ≡ unpack r.bits_per_sample (done * r.channels) stream
  pub emptied : r.buffer_used ≡ 0
  pub refused : ℕ
  pub bad : o.opens refused ≡ false
