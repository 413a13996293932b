-- ===== src/Recorder/Cut.antt =====
-- The second half of a round of the writer thread: whole frames go from the write buffer to the
-- files, or the buffer is dropped where no file can be opened.
use native.Mathlib.Nat.{mod-lt, div-add-mod, mul-div_cancel}
use ws_audiod.Base.{
  ℕ, suc, ◌+◌, ◌-◌, ◌*◌, ◌/◌, ◌%◌, ◌≤◌, ◌<◌, ◌≡◌, refl, sym, ap, ◌∙◌, Bool, true, false, Option,
  some, List, ◌++◌, arith, take, drop, take-append-drop, memcpy, length-memcpy, length-drop, ◌==◌,
  if_cases, mul-le-mul_right,
}
use ws_audiod.Circular.{slice}
use ws_audiod.Pcm.{unpack, width}
use ws_audiod.Pcm.Unpack.{unpack-take}
use ws_audiod.Recorder.{Recorder, cut}
use ws_audiod.Recorder.Writer.{Outside, Files}
use ws_audiod.Recorder.Writer.Blocks.{emitted, Hands}
use ws_audiod.Recorder.Writer.Process.{
  all, failed, process-Processed, unpack_next, frame_bytes, channels-le-frame,
}
use ws_audiod.Recorder.Push.{Queued}
use ws_audiod.Recorder.Outcome.{Moved, Dropped}
use ws_audiod.Recorder.Track.{Filled, Tracks, begins, take-memmove}

-- The whole frames of a buffer of `u` bytes, and the bytes behind them.
whole_frames :
    (u b : ℕ)
    → 0 < b
    → let bytes = u - u % b in (bytes ≡ bytes / b * b) × (u ≡ bytes + (u - bytes)) × (u - bytes < b)
whole_frames u b pos =
    let bytes : u - u % b ≡ u / b * b = omega (arith, div-add-mod u b) in
    let whole : u / b * b / b ≡ u / b = mul-div_cancel (u / b) pos in
    (
      bytes ∙ ap (λ (t : ℕ). t * b) (sym whole ∙ ap (λ (t : ℕ). t / b) (sym bytes)),
      omega (arith, mod-lt u pos),
      omega (arith, div-add-mod u b, mod-lt u pos),
    )

pub data HasCut (o : Outside) (r : Recorder) (stream : List ℕ) (result : Option (Recorder × Bool))
    : Type 0 where
  kept :
      (after : Recorder)
      → result ≡ some (after, true)
      → Tracks after stream
      → Moved r after
      → after.ring_read ≡ r.ring_read
      → HasCut o r stream result
  dropped :
      (after : Recorder)
      → result ≡ some (after, false)
      → Dropped o after stream
      → Moved r after
      → HasCut o r stream result

module _ (o : Outside) (r : Recorder) (stream : List ℕ) (f : Filled r stream) where
  -- The buffer begins with the bytes of the stream behind the `done` frames.
  buffer_begins :
      r.write_buffer
      ≡ begins stream (f.done * r.bytes_per_frame) r.buffer_used (drop r.buffer_used r.write_buffer)
  buffer_begins =
      sym (take-append-drop r.buffer_used r.write_buffer)
      ∙ ap (λ t. t ++ drop r.buffer_used r.write_buffer) f.buffered

  -- What the writer hands over of the buffer are the next frames of the stream.
  handed_next :
      (more : ℕ)
      → more * r.bytes_per_frame ≤ r.buffer_used
      → unpack r.bits_per_sample (f.done * r.channels) stream
          ++ unpack r.bits_per_sample (more * r.channels) r.write_buffer
        ≡ unpack r.bits_per_sample ((f.done + more) * r.channels) stream
  handed_next more fits =
      let bytes =
        frame_bytes more r.channels (width r.bits_per_sample) r.bytes_per_frame f.sane.frame in
      ap (λ t. unpack r.bits_per_sample (f.done * r.channels) stream ++ t)
        (ap (unpack r.bits_per_sample (more * r.channels)) buffer_begins
          ∙ unpack-take r.bits_per_sample (more * r.channels) r.buffer_used
              (drop (f.done * r.bytes_per_frame) stream) (drop r.buffer_used r.write_buffer)
              (omega (arith, bytes))
              (omega (
                arith,
                length-drop (f.done * r.bytes_per_frame) stream,
                f.split,
                f.queue.behind,
                f.queue.written,
              )))
      ∙ unpack_next r.params f.done more stream f.sane

  frame_pos : 0 < r.bytes_per_frame
  frame_pos = omega (arith, channels-le-frame f.sane, f.sane.some_channels)

  queue_same :
      (w : Files) (buffer : List ℕ) (used : ℕ)
      → Queued (record r { files = w; write_buffer = buffer; buffer_used = used }) stream
  queue_same w buffer used = record {
    log = f.queue.log;
    log_small = f.queue.log_small;
    capacity = f.queue.capacity;
    mask = f.queue.mask;
    storage = f.queue.storage;
    written = f.queue.written;
    small = f.queue.small;
    behind = f.queue.behind;
    within = f.queue.within;
    cells = f.queue.cells;
  }

  -- The files after `more` frames of the buffer.
  grown :
      (w : Files) (more : ℕ)
      → more * r.bytes_per_frame ≤ r.buffer_used
      → Hands r.params r.files w (unpack r.bits_per_sample (more * r.channels) r.write_buffer)
      → emitted w ≡ unpack r.bits_per_sample ((f.done + more) * r.channels) stream
  grown w more fits h =
      h.grown
      ∙ ap (λ t. t ++ unpack r.bits_per_sample (more * r.channels) r.write_buffer) f.emits
      ∙ handed_next more fits

  keeps :
      (w : Files) (bytes more : ℕ)
      → bytes ≡ more * r.bytes_per_frame
      → r.buffer_used ≡ bytes + (r.buffer_used - bytes)
      → r.buffer_used - bytes < r.bytes_per_frame
      → Hands r.params r.files w (unpack r.bits_per_sample (more * r.channels) r.write_buffer)
      → Tracks
          (record r {
            files = w;
            write_buffer =
                memcpy r.write_buffer 0 (drop bytes r.write_buffer) (r.buffer_used - bytes);
            buffer_used = r.buffer_used - bytes;
          })
          stream
  keeps w bytes more count parts less h =
      let left : ℕ = r.buffer_used - bytes in
      let size = length-memcpy r.write_buffer 0 (drop bytes r.write_buffer) left in
      let at : f.done * r.bytes_per_frame + bytes ≡ (f.done + more) * r.bytes_per_frame =
        omega (arith, count) in
      record {
        filled = record {
          queue = queue_same w (memcpy r.write_buffer 0 (drop bytes r.write_buffer) left) left;
          sane = f.sane;
          blocked = h.blocked;
          done = f.done + more;
          split = omega (arith, f.split, at, parts);
          held = omega (arith, size, f.held);
          emits = grown w more (omega (arith, count, parts)) h;
          buffered =
              ap (λ t. take left (memcpy t 0 (drop bytes t) left)) buffer_begins
              ∙ take-memmove stream (drop r.buffer_used r.write_buffer) (f.done * r.bytes_per_frame)
                  r.buffer_used bytes left parts
                  (omega (arith, f.split, f.queue.behind, f.queue.written))
              ∙ ap (λ t. slice t left stream) at;
          room = omega (arith, size, f.room);
          fits = omega (arith, size, f.fits);
        };
        rest = less;
      }

  drops :
      (w : Files) (more k : ℕ)
      → more * r.bytes_per_frame ≤ r.buffer_used
      → Hands r.params r.files w (unpack r.bits_per_sample (more * r.channels) r.write_buffer)
      → o.opens k ≡ false
      → Dropped o (record r { files = w; buffer_used = 0 }) stream
  drops w more k fits h bad = record {
    queue = queue_same w r.write_buffer 0;
    blocked = h.blocked;
    done = f.done + more;
    emits = grown w more fits h;
    emptied = refl;
    refused = k;
    bad = bad;
  }

  pub cut-HasCut : HasCut o r stream (cut o r)
  unfolding cut
  cut-HasCut =
      let u : ℕ = r.buffer_used in
      let b : ℕ = r.bytes_per_frame in
      let bytes : ℕ = u - u % b in
      let (count, parts, less) = whole_frames u b frame_pos in
      let p =
        process-Processed (suc (bytes / b)) r.params o r.files r.write_buffer (bytes / b) f.sane
          f.blocked (omega (arith, count, f.held, f.fits)) (omega arith) in
      if_cases (HasCut o r stream) (bytes / b == 0) _ _
        (λ none_whole.
          let zero_frames : bytes / b ≡ 0 = ground arith in
          let z : 0 * b ≡ 0 = omega arith in
          kept r refl
            (record {
              filled = f;
              rest = omega (arith, less, count ∙ ap (λ (t : ℕ). t * b) zero_frames ∙ z);
            })
            refl refl)
        (λ more. rw p.returns (elim p.ended [
          | all good whole ↦ rw good (
              kept _ refl
                (keeps p.after bytes p.done (count ∙ ap (λ (t : ℕ). t * b) (sym whole)) parts less
                  p.hands)
                refl refl)
          | failed bad part k refused ↦ rw bad (
              dropped _ refl
                (drops p.after p.done k
                  (omega (
                    arith,
                    count,
                    parts,
                    mul-le-mul_right p.done (bytes / b) b (omega (arith, part)),
                  ))
                  p.hands refused)
                refl)
        ]))
