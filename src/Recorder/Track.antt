-- ===== src/Recorder/Track.antt =====
-- What the writer thread has done between two rounds, and the bytes in its buffer.
use ws_audiod.Base.{
  Bool, ℕ, ◌+◌, ◌*◌, ◌^◌, ◌≤◌, ◌<◌, ◌≡◌, refl, sym, ap, ◌∙◌, List, ◌++◌, arith, length, take, drop,
  length-append, length-take, length-drop, take-append_left, take_all, drop-append_left, drop-take,
  drop-add, memcpy,
}
use ws_audiod.Circular.{slice}
use ws_audiod.Circular.Round.{memcpy_at}
use ws_audiod.Pcm.{unpack, width}
use ws_audiod.Pcm.Unpack.{unpack-append}
use ws_audiod.Recorder.Writer.Process.{frame_bytes}
use ws_audiod.Recorder.{Recorder}
use ws_audiod.Recorder.Writer.Blocks.{IsSane, IsBlocked, emitted}
use ws_audiod.Recorder.Push.{Queued}

-- The first `done` frames of the stream are in the files, the bytes behind them in the write buffer,
-- and the rest is in the queue.
pub record Filled (r : Recorder) (stream : List ℕ) : Type 0 where
  pub queue : Queued r stream
  pub sane : IsSane r.params
  pub blocked : IsBlocked r.params r.files
  pub done : ℕ
  pub split : r.ring_read ≡ done * r.bytes_per_frame + r.buffer_used
  pub held : r.buffer_used ≤ length r.write_buffer
  pub emits : emitted r.files ≡ unpack r.bits_per_sample (done * r.channels) stream
  pub buffered :
      take r.buffer_used r.write_buffer ≡ slice (done * r.bytes_per_frame) r.buffer_used stream
  pub room : r.bytes_per_frame ≤ length r.write_buffer
  pub fits : length r.write_buffer < 2 ^ 64

-- Between two rounds there is less than a frame in the buffer.
pub record Tracks (r : Recorder) (stream : List ℕ) : Type 0 where
  pub filled : Filled r stream
  pub open filled use *
  pub rest : r.buffer_used < r.bytes_per_frame

-- A buffer whose first `u` bytes are those of the stream from `a` on.
abbrev pub begins : List ℕ → ℕ → ℕ → List ℕ → List ℕ
begins stream a u tail = slice a u stream ++ tail

pub take-begins :
    (stream tail : List ℕ) (a u : ℕ)
    → a + u ≤ length stream
    → take u (begins stream a u tail) ≡ slice a u stream
take-begins stream tail a u inside =
    take-append_left u (slice a u stream) tail
      (omega (arith, length-take u (drop a stream), length-drop a stream))
    ∙ take_all u (slice a u stream) (omega (arith, length-take u (drop a stream)))

-- The bytes behind the whole frames are moved to the start.
pub take-memmove :
    (stream tail : List ℕ) (a u m n : ℕ)
    → u ≡ m + n
    → a + u ≤ length stream
    → take n (memcpy (begins stream a u tail) 0 (drop m (begins stream a u tail)) n)
      ≡ slice (a + m) n stream
take-memmove stream tail a u m n e inside =
    let whole : List ℕ = begins stream a u tail in
    let size : length (slice a u stream) ≡ u =
      omega (arith, length-take u (drop a stream), length-drop a stream) in
    let total = length-append (slice a u stream) tail in
    let behind : drop m whole ≡ begins stream (a + m) n tail =
      drop-append_left m (slice a u stream) tail (omega (arith, size))
      ∙ ap (λ t. t ++ tail)
          (drop-take m n u (drop a stream) e
            ∙ ap (take n) (sym (drop-add a m (a + m) stream refl))) in
    ap (take n) (
      memcpy_at whole (drop m whole) (slice (a + m) n stream) 0 n
        (omega (arith, length-drop m whole, total, size)) (omega (arith, total, size))
        (ap (take n) behind ∙ take-begins stream tail (a + m) n (omega arith)))
    ∙ take-begins stream (drop (0 + n) whole) (a + m) n (omega arith)

pub length-begins :
    (stream buffer : List ℕ) (a u : ℕ)
    → a + u ≤ length stream
    → u ≤ length buffer
    → length (begins stream a u (drop u buffer)) ≡ length buffer
length-begins stream buffer a u inside room =
    length-append (slice a u stream) (drop u buffer)
    ∙ omega (arith, length-take u (drop a stream), length-drop a stream, length-drop u buffer)

-- The flags of the two threads play no part.
pub Tracks-flags :
    (r : Recorder) (stream : List ℕ) (recording running : Bool)
    → Tracks r stream
    → Tracks (record r { recording = recording; writer_running = running }) stream
Tracks-flags r stream recording running v = record {
  filled = record {
    queue = record {
      log = v.queue.log;
      log_small = v.queue.log_small;
      capacity = v.queue.capacity;
      mask = v.queue.mask;
      storage = v.queue.storage;
      written = v.queue.written;
      small = v.queue.small;
      behind = v.queue.behind;
      within = v.queue.within;
      cells = v.queue.cells;
    };
    sane = v.sane;
    blocked = v.blocked;
    done = v.done;
    split = v.split;
    held = v.held;
    emits = v.emits;
    buffered = v.buffered;
    room = v.room;
    fits = v.fits;
  };
  rest = v.rest;
}

-- More bytes in the queue.
pub Tracks-grow :
    (r : Recorder) (stream src ring : List ℕ) (end : ℕ)
    → Tracks r stream
    → Queued (record r { ring = ring; ring_write = end }) (stream ++ src)
    → Tracks (record r { ring = ring; ring_write = end }) (stream ++ src)
Tracks-grow r stream src ring end v q =
    let inside : v.done * r.bytes_per_frame + r.buffer_used ≤ length stream =
      omega (arith, v.split, v.queue.behind, v.queue.written) in
    let bytes =
      frame_bytes v.done r.channels (width r.bits_per_sample) r.bytes_per_frame v.sane.frame in
    let a : ℕ = v.done * r.bytes_per_frame in
    record {
      filled = record {
        queue = q;
        sane = v.sane;
        blocked = v.blocked;
        done = v.done;
        split = v.split;
        held = v.held;
        emits =
            v.emits
            ∙ sym (
                unpack-append r.bits_per_sample (v.done * r.channels) stream src
                  (omega (arith, bytes, inside)));
        buffered =
            v.buffered
            ∙ sym (
                ap (take r.buffer_used) (drop-append_left a stream src (omega (arith, inside)))
                ∙ take-append_left r.buffer_used (drop a stream) src
                    (omega (arith, length-drop a stream, inside)));
        room = v.room;
        fits = v.fits;
      };
      rest = v.rest;
    }
