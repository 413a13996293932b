-- ===== src/Pow2.antt =====
-- Rounding up to a power of two: `next_power_of_2` of src/capture/ring_buffer.cpp and `next_pow2` of
-- src/capture/block_recorder.cpp, which smear the highest set bit of `v - 1` to the right.
pub mod Smear
pub mod Least
mod Tests
use Prim.Native.Nat.{bit_or}
use ws_audiod.Base.{ℕ, ◌+◌, ◌-◌, ◌/◌, ◌^◌, ◌==◌, if◌then◌else◌, add_size, sub_size}

-- v |= v >> k
abbrev pub or_shift : ℕ → ℕ → ℕ
or_shift v k = bit_or v (v / 2 ^ k)

pub smear : ℕ → ℕ
smear v =
    let v1 = or_shift v 1 in
    let v2 = or_shift v1 2 in
    let v4 = or_shift v2 4 in let v8 = or_shift v4 8 in let v16 = or_shift v8 16 in or_shift v16 32

-- The RingBuffer's: a zero is caught first. At that point `v--` cannot wrap.
unfoldable pub next_power_of_2 : ℕ → ℕ
unfolding smear
next_power_of_2 v = if v == 0 then 1 else add_size (smear (v - 1)) 1

-- The BlockRecorder's: a zero wraps in `v--`.
unfoldable pub next_pow2 : ℕ → ℕ
unfolding smear
next_pow2 v = add_size (smear (sub_size v 1)) 1
