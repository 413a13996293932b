-- ===== src/Ring/Valid.antt =====
-- What a RingBuffer represents: the bytes of all frames written so far.
use Prim.Native.Nat.{bit_and}
use native.Mathlib.Nat.{mod-lt, mod-eq_of_lt, one-le-pow, pow-le-pow_right}
use ws_audiod.Base.{
  ℕ, ◌+◌, ◌-◌, ◌*◌, ◌%◌, ◌^◌, ◌≤◌, ◌<◌, ◌≡◌, refl, sym, ap, ◌∙◌, List, [], arith, suc, min,
  sub_size, bit_and_mask, length, length-replicate, mul_size,
}
use ws_audiod.Base.{mul-mod, mul-le-mul_right, le-mul_pos, pos_factor}
use ws_audiod.Circular.{Holds}
use ws_audiod.Pow2.{next_power_of_2}
use ws_audiod.Pow2.Least.{next_power_of_2_least}
use ws_audiod.Ring.{Ring, ring_buffer, bytes_per_frame}

-- What no call changes. `log` is the exponent of the capacity, and `frame` the bytes of a frame.
pub record Layout (capacity mask frame : ℕ) : Type 0 where
  pub log : ℕ
  pub log_small : log ≤ 63
  pub power : capacity ≡ 2 ^ log
  pub low_ones : mask ≡ 2 ^ log - 1
  pub some_bytes : 0 < frame
  pub fits : capacity * frame < 2 ^ 64

abbrev pub Shape : Ring → Type 0
Shape r = Layout r.capacity_frames r.capacity_mask (bytes_per_frame r)

-- The stream is the bytes of all frames written so far.
pub record Represents (r : Ring) (stream : List ℕ) : Type 0 where
  pub shape : Shape r
  pub storage : length r.buffer ≡ r.capacity_frames * bytes_per_frame r
  pub counted : length stream ≡ r.total_written * bytes_per_frame r
  pub same : r.write_pos ≡ r.total_written
  pub cells : Holds (r.capacity_frames * bytes_per_frame r) r.buffer stream

-- The constructor gives a buffer that represents the empty stream, for any number of frames up to
-- 2 ^ 63 whose bytes are fewer than 2 ^ 64.
pub ring_buffer-Represents :
    (frames channels bytes : ℕ)
    → 0 < frames
    → frames ≤ 2 ^ 63
    → 0 < channels * bytes
    → next_power_of_2 frames * (channels * bytes) < 2 ^ 64
    → Represents (ring_buffer frames channels bytes) []
unfolding ring_buffer
ring_buffer-Represents frames channels bytes some_frames up some_bytes fits =
    let (k, small, e, _, _) = next_power_of_2_least frames some_frames up in
    let c : ℕ = next_power_of_2 frames in
    let least : 1 ≤ c = omega (arith, e, one-le-pow k 2 (omega arith)) in
    let inner : c * channels ≤ c * channels * bytes =
      le-mul_pos (c * channels) bytes (pos_factor channels bytes some_bytes).1 in
    let frame : channels * bytes ≤ c * (channels * bytes) =
      omega (arith, le-mul_pos (channels * bytes) c least) in
    let top : 2 ^ k ≤ 2 ^ 63 = pow-le-pow_right (omega arith) small in
    let bpf : mul_size channels bytes ≡ channels * bytes = mod-eq_of_lt (omega arith) in
    let row : mul_size c channels ≡ c * channels = mod-eq_of_lt (omega arith) in
    let all_bytes : mul_size (mul_size c channels) bytes ≡ c * (channels * bytes) =
      rw row (mod-eq_of_lt (omega arith) ∙ omega arith) in
    record {
      shape = record {
        log = k;
        log_small = small;
        power = e;
        low_ones = omega arith;
        some_bytes = omega arith;
        fits = rw bpf fits;
      };
      storage = rw bpf (length-replicate _ 0 ∙ all_bytes);
      counted = omega arith;
      same = refl;
      cells = λ p h _. absurd (omega arith);
    }

-- One `memcpy` of the loops of `write` and `read`: at most `remaining` frames from frame `pos` on,
-- up to the end of the array.
pub record IsBlock (r : Ring) (pos remaining idx batch : ℕ) : Type 0 where
  pub batch_le : batch ≤ remaining
  pub batch_pos : 0 < remaining → 0 < batch
  pub place :
      mul_size idx (bytes_per_frame r)
      ≡ pos * bytes_per_frame r % (r.capacity_frames * bytes_per_frame r)
  pub below : mul_size idx (bytes_per_frame r) < r.capacity_frames * bytes_per_frame r
  pub bytes : mul_size batch (bytes_per_frame r) ≡ batch * bytes_per_frame r
  pub inside :
      mul_size idx (bytes_per_frame r) + batch * bytes_per_frame r
      ≤ r.capacity_frames * bytes_per_frame r
  pub part : batch * bytes_per_frame r ≤ remaining * bytes_per_frame r

pub batch-IsBlock :
    (r : Ring)
    → Shape r
    → (pos remaining : ℕ)
    → let idx = bit_and pos r.capacity_mask in
      IsBlock r pos remaining idx (min remaining (sub_size r.capacity_frames idx))
batch-IsBlock r s pos remaining =
    let c : ℕ = r.capacity_frames in
    let b : ℕ = bytes_per_frame r in
    let idx : ℕ = bit_and pos r.capacity_mask in
    let batch : ℕ = min remaining (sub_size c idx) in
    let some_frames : 1 ≤ c = omega (arith, s.power, one-le-pow s.log 2 (omega arith)) in
    let top : 2 ^ s.log ≤ 2 ^ 63 = pow-le-pow_right (omega arith) s.log_small in
    let masked : idx ≡ pos % c =
      ap (bit_and pos) s.low_ones ∙ bit_and_mask s.log pos ∙ ap (◌%◌ pos) (sym s.power) in
    let low : idx < c = omega (arith, masked, mod-lt pos some_frames) in
    let room : sub_size c idx ≡ c - idx = omega (arith, s.power) in
    let total : (idx + batch) * b ≤ c * b = mul-le-mul_right (idx + batch) c b (omega arith) in
    let low_bytes : suc idx * b ≤ c * b = mul-le-mul_right (suc idx) c b low in
    let at : mul_size idx b ≡ idx * b = mod-eq_of_lt (omega (arith, s.fits)) in
    let span : mul_size batch b ≡ batch * b = mod-eq_of_lt (omega (arith, s.fits)) in
    record {
      batch_le = omega arith;
      batch_pos = λ h. omega arith;
      place = at ∙ ap (λ t. t * b) masked ∙ mul-mod pos c b some_frames s.some_bytes;
      below = omega (arith, s.some_bytes);
      bytes = span;
      inside = omega arith;
      part = mul-le-mul_right batch remaining b (omega arith);
    }

-- A new buffer holds nothing, and has the frames that were asked for.
pub ring_buffer_empty :
    (frames channels bytes : ℕ)
    → ((ring_buffer frames channels bytes).total_written ≡ 0)
      × (bytes_per_frame (ring_buffer frames channels bytes) ≡ mul_size channels bytes)
unfolding ring_buffer
ring_buffer_empty frames channels bytes = (refl, refl)
