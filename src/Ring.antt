-- ===== src/Ring.antt =====
-- src/capture/ring_buffer.cpp and include/audio_daemon/ring_buffer.hpp: the frames of the last
-- minute, in a byte array whose number of frames is a power of two. One call runs at a time here:
-- the writer's position and total change together. Memory that the source reads or writes only
-- inside its arrays is a list; a copy that would leave the array does nothing in this model.
pub mod Valid
pub mod Write
pub mod Read
pub mod Run
mod Tests
use Prim.Native.Nat.{bit_and}
use ws_audiod.Base.{
  ℕ, zero, suc, ◌+◌, ◌-◌, ◌%◌, ◌≤◌, min, Option, none, some, List, drop, replicate, memcpy,
  add_size, sub_size, mul_size, ltb, leb, ◌==◌, if◌then◌else◌,
}
use ws_audiod.Pow2.{next_power_of_2}

pub record Ring : Type 0 where
  pub buffer : List ℕ
  pub capacity_frames : ℕ
  pub capacity_mask : ℕ
  pub channels : ℕ
  pub bytes_per_sample : ℕ
  pub write_pos : ℕ
  pub total_written : ℕ

-- The constructor.
pub ring_buffer : ℕ → ℕ → ℕ → Ring
ring_buffer frames channels bytes =
    let capacity = next_power_of_2 frames in
    record {
      buffer = replicate (mul_size (mul_size capacity channels) bytes) 0;
      capacity_frames = capacity;
      capacity_mask = sub_size capacity 1;
      channels = channels;
      bytes_per_sample = bytes;
      write_pos = 0;
      total_written = 0;
    }

abbrev pub bytes_per_frame : Ring → ℕ
bytes_per_frame r = mul_size r.channels r.bytes_per_sample

-- The loop of `write`, on fuel: the array and the position that it ends with.
pub write_loop : ℕ → Ring → List ℕ → List ℕ → ℕ → ℕ → Option (List ℕ × ℕ)
write_loop zero r buffer src pos remaining = none
write_loop (suc fuel) r buffer src pos remaining =
    let idx = bit_and pos r.capacity_mask in
    let batch = min remaining (sub_size r.capacity_frames idx) in
    let bpf = bytes_per_frame r in
    let rest =
      write_loop fuel r (memcpy buffer (mul_size idx bpf) src (mul_size batch bpf))
        (drop (mul_size batch bpf) src) (add_size pos batch) (remaining - batch) in
    if ltb 0 remaining then rest else some (buffer, pos)

infixl 5 ◌>>=◌
abbrev pub ◌>>=◌ : {A B : Type 0} → Option A → (A → Option B) → Option B
none >>= f = none
some a >>= f = f a

-- A round of the loop takes at least one frame.
pub write : Ring → List ℕ → ℕ → Option Ring
write r src frame_count = do
  (buffer, pos) ← write_loop (suc frame_count) r r.buffer src r.write_pos frame_count
  some (record r {
    buffer = buffer;
    write_pos = pos;
    total_written = add_size r.total_written frame_count;
  })

pub available_frames : Ring → ℕ
available_frames r = min r.total_written r.capacity_frames

-- The frame to start from.
unfoldable pub read_start : Ring → ℕ → ℕ → ℕ
read_start r offset readable =
    if leb (add_size offset readable) r.write_pos
    then sub_size (sub_size r.write_pos offset) readable
    else sub_size r.capacity_frames
        (sub_size (add_size offset readable) r.write_pos % r.capacity_frames)

-- The loop of `read`, on fuel: what `out` holds at the end.
unfoldable pub read_loop : ℕ → Ring → ℕ → ℕ → List ℕ → ℕ → Option (List ℕ)
read_loop zero r start readable out copied = none
read_loop (suc fuel) r start readable out copied =
    let idx = bit_and (add_size start copied) r.capacity_mask in
    let batch = min (readable - copied) (sub_size r.capacity_frames idx) in
    let bpf = bytes_per_frame r in
    let rest =
      read_loop fuel r start readable
        (memcpy out (mul_size copied bpf) (drop (mul_size idx bpf) r.buffer) (mul_size batch bpf))
        (add_size copied batch) in
    if ltb copied readable then rest else some out

-- `read`: the new content of `out`, and the number of frames.
unfoldable pub read : Ring → List ℕ → ℕ → ℕ → Option (List ℕ × ℕ)
read r out offset count =
    let avail = min r.total_written r.capacity_frames in
    let readable = min count (avail - offset) in
    let filled = do
      out' ← read_loop (suc readable) r (read_start r offset readable) readable out 0
      some (out', readable)
    in if leb avail offset then some (out, 0) else filled
