-- ===== src/Ring/Read.antt =====
-- `RingBuffer::read`: the loop ends, and `out` begins with the frames that were asked for.
use Prim.Native.Nat.{bit_and}
use mathlib.Core.List.{append_assoc}
use native.Mathlib.Nat.{mod-eq_of_lt}
use ws_audiod.Base.{
  ℕ, zero, suc, ◌+◌, ◌-◌, ◌*◌, ◌%◌, ◌^◌, ◌≤◌, ◌<◌, min, ◌≡◌, refl, ap, ◌∙◌, some, List, ◌++◌, arith,
  dec_le, leb, length, take, drop, length-take, length-drop, take-add, drop-add, memcpy,
  memcpy-append, mul_size, mul-le-mul_right, sub_size, add_size, lt→ltb, ltb, false, true,
}
use ws_audiod.Circular.{slice, slice-Holds}
use ws_audiod.Ring.{Ring, bytes_per_frame, read_start, read_loop, read, available_frames, ◌>>=◌}
use ws_audiod.Ring.Valid.{Represents, batch-IsBlock}

-- `out` after `done` of its bytes have been replaced by those of the stream from `at` on.
abbrev pub filled : List ℕ → ℕ → List ℕ → ℕ → List ℕ
filled stream at out done = slice at done stream ++ drop done out

-- A copy of the next `k` bytes.
filled_next :
    (stream out src : List ℕ) (at done k next : ℕ)
    → k ≤ length src
    → take k src ≡ slice (at + done) k stream
    → at + done ≤ length stream
    → next ≡ done + k
    → next ≤ length out
    → memcpy (filled stream at out done) done src k ≡ filled stream at out next
filled_next stream out src at done k next have same inside e room =
    memcpy-append (slice at done stream) (drop done out) done src k
      (omega (arith, length-take done (drop at stream), length-drop at stream)) have
      (omega (arith, length-drop done out))
    ∙ rw
        (
          same,
          take-add done k next (drop at stream) e,
          ← drop-add at done (at + done) stream refl,
          append_assoc,
          drop-add done k next out e,
        )
        refl

ltb_irrefl : (n : ℕ) → ltb n n ≡ false
ltb_irrefl n = ground arith

module _ (r : Ring) (stream : List ℕ) (v : Represents r stream) (start readable : ℕ)
    (out : List ℕ) where
  read_loop_lem :
      (fuel copied left : ℕ)
      → start + readable ≤ r.total_written
      → r.total_written ≤ start + r.capacity_frames
      → r.total_written < 2 ^ 64
      → readable ≤ r.capacity_frames
      → readable * bytes_per_frame r ≤ length out
      → copied + left ≡ readable
      → left < fuel
      → let b = bytes_per_frame r in
        read_loop fuel r start readable (filled stream (start * b) out (copied * b)) copied
        ≡ some (filled stream (start * b) out (readable * b))
  unfolding read_loop
  read_loop_lem zero copied left inside recent small within room split enough = absurd (omega arith)
  read_loop_lem (suc fuel) copied zero inside recent small within room split enough =
      let e : copied ≡ readable = omega arith in rw (e, ltb_irrefl readable) refl
  read_loop_lem (suc fuel) copied (suc left) inside recent small within room split enough =
      let b : ℕ = bytes_per_frame r in
      let n : ℕ = r.capacity_frames * b in
      let pos : ℕ = add_size start copied in
      let batch : ℕ =
        min (readable - copied) (sub_size r.capacity_frames (bit_and pos r.capacity_mask)) in
      let at_cell : ℕ = mul_size (bit_and pos r.capacity_mask) b in
      let k : ℕ = batch * b in
      let block = batch-IsBlock r v.shape pos (readable - copied) in
      let pos_eq : pos ≡ start + copied = omega arith in
      let next : add_size copied batch ≡ copied + batch = omega (arith, block.batch_le) in
      let next_bytes : add_size copied batch * b ≡ copied * b + k =
        omega (arith, ap (λ t. t * b) next) in
      let upto : (copied + batch) * b ≤ readable * b =
        mul-le-mul_right (copied + batch) readable b (omega (arith, block.batch_le)) in
      let ring_bytes : readable * b ≤ n = mul-le-mul_right readable r.capacity_frames b within in
      let stream_end : (start + readable) * b ≤ r.total_written * b =
        mul-le-mul_right (start + readable) r.total_written b inside in
      let stream_start : r.total_written * b ≤ (start + r.capacity_frames) * b =
        mul-le-mul_right r.total_written (start + r.capacity_frames) b recent in
      let done_bytes : mul_size copied b ≡ copied * b =
        mod-eq_of_lt (omega (arith, v.shape.fits)) in
      let same : slice at_cell k r.buffer ≡ slice (start * b + copied * b) k stream =
        slice-Holds n r.buffer stream at_cell (start * b + copied * b) k v.storage
          (block.place ∙ ap (λ t. t % n) (omega (arith, ap (λ t. t * b) pos_eq))) block.inside
          (omega (arith, v.counted)) (omega (arith, v.counted)) v.cells in
      let moved =
        filled_next stream out (drop at_cell r.buffer) (start * b) (copied * b) k
          (add_size copied batch * b)
          (omega (arith, length-drop at_cell r.buffer, v.storage, block.inside)) same
          (omega (arith, v.counted)) next_bytes (omega arith) in
      rw (lt→ltb copied readable (omega arith), done_bytes, block.bytes, moved)
        (read_loop_lem fuel (add_size copied batch) (readable - add_size copied batch) inside recent
          small within room (omega (arith, block.batch_le))
          (omega (arith, block.batch_pos (omega arith))))

-- Where the frames start that `read` copies: they end `offset` frames before the last one written.
read_start_lem :
    (r : Ring) (stream : List ℕ) (offset readable : ℕ)
    → Represents r stream
    → offset + readable ≤ r.total_written
    → r.total_written < 2 ^ 64
    → read_start r offset readable ≡ r.total_written - offset - readable
unfolding read_start
read_start_lem r stream offset readable v inside small = ground (arith, v.same)

-- `read` returns, for any offset and count. The number of frames is the count, cut to what is
-- buffered before the offset; `out` begins with the frames of that number that end `offset` frames
-- before the write head, and is unchanged behind them.
pub read_lem :
    (r : Ring) (stream out : List ℕ) (offset count : ℕ)
    → Represents r stream
    → r.total_written < 2 ^ 64
    → let b = bytes_per_frame r in
      let readable = min count (available_frames r - offset) in
      readable * b ≤ length out
      → read r out offset count
        ≡ some
            (filled stream ((r.total_written - offset - readable) * b) out (readable * b), readable)
unfolding read available_frames
read_lem r stream out offset count v small room = elim (dec_le avail offset) [
  | yes past ↦
      let e : readable ≡ 0 = omega arith in
      let test : leb avail offset ≡ true = ground arith in rw (test, e, nothing)
  | no inside ↦
      let test : leb avail offset ≡ false = ground arith in
      let begin = read_start_lem r stream offset readable v (omega arith) small in
      let loop =
        read_loop_lem r stream v (r.total_written - offset - readable) readable out (suc readable) 0
          readable (omega arith) (omega arith) small (omega arith) room (omega arith)
          (omega arith) in
      let loop' = rw nothing at loop in rw (test, begin, loop', ◌>>=◌)
]
  where
    avail : ℕ
    avail = min r.total_written r.capacity_frames

    readable : ℕ
    readable = min count (avail - offset)

    nothing : 0 * bytes_per_frame r ≡ 0
    nothing = omega arith

pub available_frames_le : (r : Ring) → available_frames r ≤ r.total_written
unfolding available_frames
available_frames_le r = omega arith
