-- ===== src/Recorder/Drain.antt =====
-- The inner loop of the writer thread: a round takes bytes out of the queue and hands the whole
-- frames among them over; the loop ends with an empty queue.
use native.Mathlib.Nat.{div-add-mod, div-eq_of_lt-le}
use ws_audiod.Base.{
  ℕ, zero, suc, ◌+◌, ◌-◌, ◌*◌, ◌/◌, ◌%◌, ◌<◌, ◌≡◌, ◌≢◌, refl, sym, ap, ◌∙◌, Bool, true, false,
  Option, some, List, arith, length, add_size, sub_size, ◌==◌, if_cases,
}
use ws_audiod.Pcm.{unpack}
use ws_audiod.Recorder.{Recorder, refill, round, drain}
use ws_audiod.Recorder.Writer.{Outside}
use ws_audiod.Recorder.Writer.Blocks.{emitted}
use ws_audiod.Recorder.Track.{Tracks}
use ws_audiod.Recorder.Refill.{chunk_of, chunk_code, refill-Filled}
use ws_audiod.Recorder.Outcome.{Moved, Moved-trans, Dropped}
use ws_audiod.Recorder.Cut.{HasCut, kept, dropped, cut-HasCut}

-- What a round does: the queue is empty, or it shrinks and its bytes are taken, or they are dropped
-- where no file can be opened.
pub data Rounded (o : Outside) (r : Recorder) (stream : List ℕ) (result : Option (Recorder × Bool))
    : Type 0 where
  empty : result ≡ some (r, false) → r.ring_read ≡ r.ring_write → Rounded o r stream result
  taken :
      (after : Recorder)
      → result ≡ some (after, true)
      → Tracks after stream
      → Moved r after
      → r.ring_read < after.ring_read
      → Rounded o r stream result
  lost :
      (after : Recorder)
      → result ≡ some (after, false)
      → Dropped o after stream
      → Moved r after
      → Rounded o r stream result

refilled :
    (o : Outside) (r : Recorder) (stream : List ℕ)
    → Tracks r stream
    → r.ring_read < r.ring_write
    → (result : Option (Recorder × Bool)) → HasCut o (refill r (chunk_of r)) stream result
    → Rounded o r stream result
unfolding refill
refilled o r stream v some_bytes result c =
    let read : add_size r.ring_read (chunk_of r) ≡ r.ring_read + chunk_of r =
      omega (arith, v.queue.small, v.queue.behind) in
    elim c [
      | kept after e t m same ↦ taken after e t m (omega (arith, same, read, v.rest, v.room))
      | dropped after e d m ↦ lost after e d m
    ]

pub round-Rounded :
    (o : Outside) (r : Recorder) (stream : List ℕ)
    → Tracks r stream
    → Rounded o r stream (round o r)
unfolding round
round-Rounded o r stream v =
    let avail : sub_size r.ring_write r.ring_read ≡ r.ring_write - r.ring_read =
      omega (arith, v.queue.small, v.queue.behind) in
    if_cases (Rounded o r stream) (sub_size r.ring_write r.ring_read == 0) _ _
      (λ none_left. empty refl (
        let z : sub_size r.ring_write r.ring_read ≡ 0 = ground arith in
        omega (arith, z, avail, v.queue.behind)))
      (λ more.
        let z : sub_size r.ring_write r.ring_read ≢ 0 = ground arith in
        rw (chunk_code r stream v) (
          refilled o r stream v (omega (arith, z, avail)) _
            (cut-HasCut o (refill r (chunk_of r)) stream (refill-Filled r stream v))))

-- How the loop ends: the queue is empty and every whole frame of the stream is in the files, or an
-- opening failed.
pub data DrainEnd (o : Outside) (r : Recorder) (stream : List ℕ) : Type 0 where
  all :
      Tracks r stream
      → r.ring_read ≡ r.ring_write
      → emitted r.files
        ≡ unpack r.bits_per_sample (length stream / r.bytes_per_frame * r.channels) stream
      → r.buffer_used ≡ length stream % r.bytes_per_frame
      → DrainEnd o r stream
  failed : Dropped o r stream → DrainEnd o r stream

pub record Drained (o : Outside) (r : Recorder) (stream : List ℕ) (result : Option Recorder)
    : Type 0 where
  pub after : Recorder
  pub returns : result ≡ some after
  pub moved : Moved r after
  pub end : DrainEnd o after stream

-- With an empty queue, all whole frames of the stream are in the files.
pub emptied :
    (r : Recorder) (stream : List ℕ)
    → Tracks r stream
    → r.ring_read ≡ r.ring_write
    → (emitted r.files
        ≡ unpack r.bits_per_sample (length stream / r.bytes_per_frame * r.channels) stream)
      × (r.buffer_used ≡ length stream % r.bytes_per_frame)
emptied r stream v e =
    let b : ℕ = r.bytes_per_frame in
    let total : length stream ≡ v.done * b + r.buffer_used =
      omega (arith, v.split, v.queue.written, e) in
    let count : length stream / b ≡ v.done =
      div-eq_of_lt-le b (omega (arith, total)) (omega (arith, total, v.rest)) in
    (
      v.emits ∙ ap (λ (t : ℕ). unpack r.bits_per_sample (t * r.channels) stream) (sym count),
      omega (arith, total, ap (λ (t : ℕ). b * t) count, div-add-mod (length stream) b),
    )

-- One round, and what the rounds after it do.
drain-suc :
    (fuel : ℕ) (o : Outside) (r after : Recorder) (stream : List ℕ)
    → round o r ≡ some (after, true)
    → Moved r after
    → Drained o after stream (drain fuel o after)
    → Drained o r stream (drain (suc fuel) o r)
unfolding drain
drain-suc fuel o r after stream e m d = record {
  after = d.after;
  returns = rw (drain, e) d.returns;
  moved = Moved-trans r after d.after m d.moved;
  end = d.end;
}

-- The inner loop ends within as many rounds as there are bytes in the queue, and one more. It
-- changes the writer's fields only. Afterwards the queue is empty, the files hold the samples of
-- all whole frames that were pushed since the start, in order and without a gap, and the buffer the
-- bytes behind them; or an opening failed.
pub drain-Drained :
    (fuel : ℕ) (o : Outside) (r : Recorder) (stream : List ℕ)
    → Tracks r stream
    → r.ring_write - r.ring_read < fuel
    → Drained o r stream (drain fuel o r)
unfolding drain
drain-Drained zero o r stream v enough = absurd (omega arith)
drain-Drained (suc fuel) o r stream v enough = elim (round-Rounded o r stream v) [
  | empty e none_left ↦ record {
    after = r;
    returns = rw (drain, e) refl;
    moved = refl;
    end =
        (let (all_frames, left) = emptied r stream v none_left in all v none_left all_frames left);
  }
  | taken after e t m more ↦ drain-suc fuel o r after stream e m (
      drain-Drained fuel o after stream t
        (omega (arith, more, ap {A = Recorder} {B = ℕ} (λ x. x.ring_write) m, v.queue.behind)))
  | lost after e d m ↦ record {
    after = after;
    returns = rw (drain, e) refl;
    moved = m;
    end = failed d;
  }
]
