-- ===== src/Ring/Write.antt =====
-- `RingBuffer::write`: the loop ends, and the frames are appended to what the buffer represents.
use Prim.Native.Nat.{bit_and}
use mathlib.Core.List.{append_assoc, append-nil}
use native.Mathlib.Nat.{mul-sub}
use ws_audiod.Base.{
  ℕ, zero, suc, ◌+◌, ◌-◌, ◌*◌, ◌%◌, ◌^◌, ◌<◌, min, ◌≡◌, refl, sym, ap, ◌∙◌, Option, some, List, [],
  ◌∷◌, ◌++◌, arith, length, take, drop, length-append, length-take, length-drop, take-append-drop,
  memcpy, length-memcpy, mul_size, sub_size, add_size, lt→ltb,
}
use ws_audiod.Circular.{Holds, memcpy-Holds}
use ws_audiod.Ring.{Ring, bytes_per_frame, write_loop, write, ◌>>=◌}
use ws_audiod.Ring.Valid.{Shape, Represents, batch-IsBlock}

-- What the loop returns, begun with `src` to append to `stream`.
abbrev Appends : Ring → List ℕ → List ℕ → ℕ → Option (List ℕ × ℕ) → Type 0
Appends r stream src end result =
    (buffer : List ℕ) × (result ≡ some (buffer, end))
    × (length buffer ≡ r.capacity_frames * bytes_per_frame r)
    × Holds (r.capacity_frames * bytes_per_frame r) buffer (stream ++ src)

-- One round: what the rest of the loop appends, behind the block that the round copies.
write_loop-suc :
    (fuel : ℕ) (r : Ring) (buffer src stream : List ℕ) (pos left end : ℕ)
    → Shape r
    → let idx = bit_and pos r.capacity_mask in
      let batch = min (suc left) (sub_size r.capacity_frames idx) in
      let k = batch * bytes_per_frame r in
      Appends r (stream ++ take k src) (drop k src) end (
        write_loop fuel r
          (memcpy buffer (mul_size idx (bytes_per_frame r)) src k)
          (drop k src)
          (add_size pos batch)
          (suc left - batch))
      → Appends r stream src end (write_loop (suc fuel) r buffer src pos (suc left))
unfolding write_loop
write_loop-suc fuel r buffer src stream pos left end s (buffer', eq, size, holds) =
    let block = batch-IsBlock r s pos (suc left) in
    let k : ℕ =
      min (suc left) (sub_size r.capacity_frames (bit_and pos r.capacity_mask))
      * bytes_per_frame r in
    let whole : (stream ++ take k src) ++ drop k src ≡ stream ++ src =
      append_assoc stream (take k src) (drop k src) ∙ ap (◌++◌ stream) (take-append-drop k src) in
    (buffer', rw (block.bytes, lt→ltb 0 (suc left) (omega arith)) eq, size, rw whole at holds)

write_loop-Appends :
    (fuel : ℕ) (r : Ring) (buffer src stream : List ℕ) (pos remaining end : ℕ)
    → Shape r
    → length buffer ≡ r.capacity_frames * bytes_per_frame r
    → length src ≡ remaining * bytes_per_frame r
    → length stream ≡ pos * bytes_per_frame r
    → Holds (r.capacity_frames * bytes_per_frame r) buffer stream
    → end ≡ pos + remaining
    → end < 2 ^ 64
    → remaining < fuel
    → Appends r stream src end (write_loop fuel r buffer src pos remaining)
unfolding write_loop
write_loop-Appends zero r buffer src stream pos remaining end s size given at holds e small enough =
    absurd (omega arith)
write_loop-Appends (suc fuel) r buffer (x ∷ src) stream pos zero end s size given at holds e small
      enough =
    absurd (omega arith)
write_loop-Appends (suc fuel) r buffer [] stream pos zero end s size given at holds e small enough =
    (buffer, ap (λ (t : ℕ). some (buffer, t)) (omega arith), size, rw append-nil holds)
write_loop-Appends (suc fuel) r buffer src stream pos (suc left) end s size given at holds e small
      enough =
    let b : ℕ = bytes_per_frame r in
    let n : ℕ = r.capacity_frames * b in
    let at_cell : ℕ = mul_size (bit_and pos r.capacity_mask) b in
    let batch : ℕ = min (suc left) (sub_size r.capacity_frames (bit_and pos r.capacity_mask)) in
    let block = batch-IsBlock r s pos (suc left) in
    let k : ℕ = batch * b in
    let step : add_size pos batch ≡ pos + batch = omega (arith, block.batch_le) in
    write_loop-suc fuel r buffer src stream pos left end s (
      write_loop-Appends fuel r (memcpy buffer at_cell src k) (drop k src) (stream ++ take k src)
        (add_size pos batch) (suc left - batch) end s (length-memcpy buffer at_cell src k ∙ size)
        (omega (arith, length-drop k src, mul-sub b (suc left) batch))
        (length-append stream (take k src)
          ∙ omega (arith, length-take k src, block.part, ap (λ t. t * b) step))
        (memcpy-Holds n buffer stream at_cell k src size (block.place ∙ ap (λ t. t % n) (sym at))
          block.below block.inside (omega (arith, block.part)) holds)
        (omega (arith, block.batch_le)) small (omega (arith, block.batch_pos (omega arith))))

-- A write of whole frames returns, and what the buffer represents grows by exactly these frames.
pub write_lem :
    (r : Ring) (stream src : List ℕ) (frame_count : ℕ)
    → Represents r stream
    → length src ≡ frame_count * bytes_per_frame r
    → r.total_written + frame_count < 2 ^ 64
    → (r' : Ring) × (write r src frame_count ≡ some r')
      × Represents r' (stream ++ src)
      × (bytes_per_frame r' ≡ bytes_per_frame r)
      × (r'.capacity_frames ≡ r.capacity_frames)
      × (r'.total_written ≡ r.total_written + frame_count)
unfolding write
write_lem r stream src frame_count v given small =
    let b : ℕ = bytes_per_frame r in
    let (buffer, eq, size, cells) =
      write_loop-Appends (suc frame_count) r r.buffer src stream r.write_pos frame_count
        (r.write_pos + frame_count) v.shape v.storage given
        (v.counted ∙ ap (λ t. t * b) (sym v.same)) v.cells refl (omega (arith, v.same))
        (omega arith) in
    let total : add_size r.total_written frame_count ≡ r.total_written + frame_count =
      omega arith in
    (
      record r {
        buffer = buffer;
        write_pos = r.write_pos + frame_count;
        total_written = add_size r.total_written frame_count;
      },
      rw (eq, ◌>>=◌) refl,
      record {
        shape = v.shape;
        storage = size;
        counted = length-append stream src ∙ omega (arith, v.counted, ap (λ t. t * b) total);
        same = omega (arith, v.same);
        cells = cells;
      },
      refl,
      refl,
      total,
    )
