-- ===== src/Recorder/Refill.antt =====
-- The inner loop of the writer thread: a round takes bytes out of the queue and hands the whole
-- frames among them over; the loop ends with an empty queue.
use Prim.Native.Nat.{bit_and}
use mathlib.Core.List.{append_assoc}
use native.Mathlib.Nat.{mod-lt}
use ws_audiod.Base.{
  ℕ, ◌+◌, ◌-◌, ◌*◌, ◌%◌, ◌≤◌, min, ◌≡◌, refl, sym, ap, ◌∙◌, List, ◌++◌, arith, length, drop,
  add_size, sub_size,
}
use ws_audiod.Circular.{slice}
use ws_audiod.Circular.Round.{copy_back-Holds, slice_next}
use ws_audiod.Recorder.{Recorder, copy_out, refill}
use ws_audiod.Recorder.Push.{capacity_bounds, masked}
use ws_audiod.Recorder.Track.{Filled, Tracks, begins, take-begins, length-begins}

-- What a round finds: bytes in the queue, of which it takes those that the buffer has room for.
abbrev pub chunk_of : Recorder → ℕ
chunk_of r = min (r.ring_write - r.ring_read) (length r.write_buffer - r.buffer_used)

module _ (r : Recorder) (stream : List ℕ) (v : Tracks r stream) where
  pub chunk_code :
      min (sub_size r.ring_write r.ring_read) (sub_size (length r.write_buffer) r.buffer_used)
      ≡ chunk_of r
  chunk_code = omega (arith, v.queue.behind, v.queue.small, v.fits, v.room, v.rest)

  -- After the copy the buffer begins with the bytes behind the frames that are in the files.
  copy_out-begins :
      let u = r.buffer_used + chunk_of r in
      copy_out r (chunk_of r) ≡ begins stream (v.done * r.bytes_per_frame) u (drop u r.write_buffer)
  copy_out-begins =
      let k : ℕ = chunk_of r in
      let u : ℕ = r.buffer_used in
      let a : ℕ = v.done * r.bytes_per_frame in
      let pos : ℕ = bit_and r.ring_read r.ring_mask in
      let (some_cells, few) = capacity_bounds v.queue in
      let cell : pos ≡ r.ring_read % r.ring_capacity = masked v.queue r.ring_read in
      let room : sub_size r.ring_capacity pos ≡ r.ring_capacity - pos =
        omega (arith, mod-lt r.ring_read some_cells) in
      let next : add_size u (min k (r.ring_capacity - pos)) ≡ u + min k (r.ring_capacity - pos) =
        omega (arith, v.fits, v.room, v.rest) in
      rw (room, next)
        (copy_back-Holds r.ring_capacity r.ring stream r.write_buffer r.ring_read pos u k
            v.queue.storage cell some_cells (omega (arith, v.queue.within))
            (omega (arith, v.queue.behind, v.queue.written))
            (omega (arith, v.queue.within, v.queue.written)) (omega (arith, v.room, v.rest))
            v.queue.cells
          ∙ ap (λ t. t ++ (slice r.ring_read k stream ++ drop (u + k) r.write_buffer)) v.buffered
          ∙ ap (λ t. slice a u stream ++ (slice t k stream ++ drop (u + k) r.write_buffer)) v.split
          ∙ sym (
              append_assoc (slice a u stream) (slice (a + u) k stream)
                (drop (u + k) r.write_buffer))
          ∙ ap (λ t. t ++ drop (u + k) r.write_buffer) (slice_next stream a u k (u + k) refl))

  -- What the buffer then holds is in the stream.
  begins_size :
      let u = r.buffer_used + chunk_of r in
      (v.done * r.bytes_per_frame + u ≤ length stream)
      × (length (begins stream (v.done * r.bytes_per_frame) u (drop u r.write_buffer))
          ≡ length r.write_buffer)
  begins_size =
      let u : ℕ = r.buffer_used + chunk_of r in
      let inside : v.done * r.bytes_per_frame + u ≤ length stream =
        omega (arith, v.split, v.queue.behind, v.queue.written) in
      (
        inside,
        length-begins stream r.write_buffer (v.done * r.bytes_per_frame) u inside
            (omega (arith, v.room, v.rest)),
      )

  pub refill-Filled : Filled (refill r (chunk_of r)) stream
  unfolding refill
  refill-Filled =
      let k : ℕ = chunk_of r in
      let (inside, size) = begins_size in
      let used : add_size r.buffer_used k ≡ r.buffer_used + k =
        omega (arith, v.fits, v.room, v.rest) in
      let read : add_size r.ring_read k ≡ r.ring_read + k =
        omega (arith, v.queue.small, v.queue.behind) in
      rw (used, read, copy_out-begins)
        (record {
          queue = record {
            log = v.queue.log;
            log_small = v.queue.log_small;
            capacity = v.queue.capacity;
            mask = v.queue.mask;
            storage = v.queue.storage;
            written = v.queue.written;
            small = v.queue.small;
            behind = omega (arith, v.queue.behind);
            within = omega (arith, v.queue.within);
            cells = v.queue.cells;
          };
          sane = v.sane;
          blocked = v.blocked;
          done = v.done;
          split = omega (arith, v.split);
          held = omega (arith, size, v.room, v.rest);
          emits = v.emits;
          buffered = take-begins stream (drop (r.buffer_used + k) r.write_buffer) _ _ inside;
          room = omega (arith, size, v.room);
          fits = omega (arith, size, v.fits);
        })
