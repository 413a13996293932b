-- ===== src/Pow2/Tests.antt =====
-- The two roundings at small numbers.
use ws_audiod.Base.{ℕ, ◌*◌, ◌^◌, ◌≤◌, ◌<◌, ◌≡◌, refl, arith, ◌==◌, if◌then◌else◌}
use ws_audiod.Pow2.{next_power_of_2, next_pow2, smear}
use ws_audiod.Pow2.Least.{next_power_of_2_least, next_pow2-next_power_of_2}

-- A minute of audio at 48 kHz, and the queue of four seconds of 16-bit stereo.
frames_of_minute : next_power_of_2 2880000 ≡ 4194304
unfolding next_power_of_2 smear
frames_of_minute = refl

queue_of_stereo : next_pow2 768000 ≡ 1048576
unfolding next_pow2 smear
queue_of_stereo = refl

next_power_of_2_least_example :
    (k : ℕ) × (k ≤ 63)
    × (next_power_of_2 2880000 ≡ 2 ^ k)
    × (2880000 ≤ 2 ^ k)
    × (2 ^ k < 2 * 2880000)
next_power_of_2_least_example = next_power_of_2_least 2880000 (omega arith) (omega arith)

next_pow2-next_power_of_2_example :
    next_pow2 768000 ≡ (if 768000 == 0 then 0 else next_power_of_2 768000)
next_pow2-next_power_of_2_example = next_pow2-next_power_of_2 768000 (omega arith)
