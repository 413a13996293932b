-- ===== src/Recorder/Push.antt =====
-- `BlockRecorder::push`: a period is appended to the queue whole, or dropped whole.
use Prim.Native.Nat.{bit_and}
use native.Mathlib.Nat.{mod-lt, mod-eq_of_lt, one-le-pow, pow-le-pow_right}
use ws_audiod.Base.{
  ℕ, ◌+◌, ◌-◌, ◌*◌, ◌%◌, ◌^◌, ◌≤◌, ◌<◌, ◌≡◌, refl, sym, ap, ◌∙◌, true, false, List, ◌++◌, arith,
  ltb, if_cases, length, length-append, mul_size, sub_size, add_size, bit_and_mask,
}
use ws_audiod.Circular.{Holds}
use ws_audiod.Circular.Round.{copy_round-Holds}
use ws_audiod.Recorder.{Recorder, push, copy_in}

-- The queue holds what was pushed: `stream` is every byte that `push` accepted so far, and its part
-- from `ring_read` to `ring_write` is yet to be written.
pub record Queued (r : Recorder) (stream : List ℕ) : Type 0 where
  pub log : ℕ
  pub log_small : log ≤ 63
  pub capacity : r.ring_capacity ≡ 2 ^ log
  pub mask : r.ring_mask ≡ 2 ^ log - 1
  pub storage : length r.ring ≡ r.ring_capacity
  pub written : length stream ≡ r.ring_write
  pub small : r.ring_write < 2 ^ 64
  pub behind : r.ring_read ≤ r.ring_write
  pub within : r.ring_write ≤ r.ring_read + r.ring_capacity
  pub cells : Holds r.ring_capacity r.ring stream

-- The bounds that the exponent gives.
pub capacity_bounds :
    {r : Recorder} {stream : List ℕ}
    → Queued r stream
    → (1 ≤ r.ring_capacity) × (r.ring_capacity ≤ 2 ^ 63)
capacity_bounds q = (
  omega (arith, q.capacity, one-le-pow q.log 2 (omega arith)),
  omega (arith, q.capacity, pow-le-pow_right {n = 2} (omega arith) q.log_small),
)

-- The masked cursor is the cell of its position.
pub masked :
    {r : Recorder} {stream : List ℕ}
    → Queued r stream
    → (p : ℕ) → bit_and p r.ring_mask ≡ p % r.ring_capacity
masked q p = ap (bit_and p) q.mask ∙ bit_and_mask q.log p ∙ ap (◌%◌ p) (sym q.capacity)

-- A period that fits into the queue is appended to what it holds, and nothing else changes. One that
-- does not fit is dropped, and so is every period while the recorder is not recording.
pub data Pushed (r : Recorder) (stream src : List ℕ) (after : Recorder) : Type 0 where
  accepted :
      length src ≤ r.ring_capacity - (r.ring_write - r.ring_read)
      → r.recording ≡ true
      → Queued after (stream ++ src)
      → after ≡ record r { ring = after.ring; ring_write = r.ring_write + length src }
      → Pushed r stream src after
  full :
      r.ring_capacity - (r.ring_write - r.ring_read) < length src
      → after ≡ r
      → Pushed r stream src after
  idle : r.recording ≡ false → after ≡ r → Pushed r stream src after

copy_in-Holds :
    (r : Recorder) (stream src : List ℕ)
    → Queued r stream
    → length src ≤ r.ring_capacity
    → Holds r.ring_capacity (copy_in r src (length src)) (stream ++ src)
      × (length (copy_in r src (length src)) ≡ r.ring_capacity)
copy_in-Holds r stream src q fits =
    let cell : bit_and r.ring_write r.ring_mask ≡ r.ring_write % r.ring_capacity =
      masked q r.ring_write in
    let below = mod-lt r.ring_write (capacity_bounds q).0 in
    let room : sub_size r.ring_capacity (bit_and r.ring_write r.ring_mask)
        ≡ r.ring_capacity - bit_and r.ring_write r.ring_mask =
      omega (arith, capacity_bounds q) in
    rw room (
      copy_round-Holds r.ring_capacity r.ring stream (bit_and r.ring_write r.ring_mask) src
        q.storage (cell ∙ ap (λ t. t % r.ring_capacity) (sym q.written)) (capacity_bounds q).0 fits
        q.cells)

push_accepts :
    (r : Recorder) (stream src : List ℕ)
    → Queued r stream
    → length src ≤ r.ring_capacity - (r.ring_write - r.ring_read)
    → r.ring_write + length src < 2 ^ 64
    → Queued
        (record r { ring = copy_in r src (length src); ring_write = r.ring_write + length src })
        (stream ++ src)
push_accepts r stream src q fits small =
    let (cells, size) = copy_in-Holds r stream src q (omega arith) in
    record {
      log = q.log;
      log_small = q.log_small;
      capacity = q.capacity;
      mask = q.mask;
      storage = size;
      written = omega (arith, length-append stream src, q.written);
      small = small;
      behind = omega (arith, q.behind);
      within = omega (arith, q.within, q.behind);
      cells = cells;
    }

-- A call of `push` with whole frames, for a queue that holds a stream: a period that fits is appended
-- whole, and only the cells and the write cursor change; a period that does not fit, and every one
-- while the recorder is not recording, changes nothing.
pub push-Pushed :
    (r : Recorder) (stream src : List ℕ) (frame_count : ℕ)
    → Queued r stream
    → length src ≡ frame_count * r.bytes_per_frame
    → r.ring_write + length src < 2 ^ 64
    → Pushed r stream src (push r src frame_count)
unfolding push
push-Pushed r stream src frame_count q given small =
    let bytes : mul_size frame_count r.bytes_per_frame ≡ length src =
      mod-eq_of_lt (omega (arith, given)) ∙ sym given in
    let avail : sub_size r.ring_capacity (sub_size r.ring_write r.ring_read)
        ≡ r.ring_capacity - (r.ring_write - r.ring_read) =
      omega (arith, q.behind, q.within, q.small, capacity_bounds q) in
    let end : add_size r.ring_write (length src) ≡ r.ring_write + length src = mod-eq_of_lt small in
    rw (bytes, avail, end)
      (if_cases (Pushed r stream src) r.recording _ _
        (λ on.
          if_cases (Pushed r stream src)
            (ltb (r.ring_capacity - (r.ring_write - r.ring_read)) (length src)) _ _
            (λ over. full (ground arith) refl)
            (λ fits.
              let room : length src ≤ r.ring_capacity - (r.ring_write - r.ring_read) =
                ground arith in
              accepted room on (push_accepts r stream src q room small) refl))
        (λ off. idle off refl))
