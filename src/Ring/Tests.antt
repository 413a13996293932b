-- ===== src/Ring/Tests.antt =====
-- Small ring buffers at work: frames of two bytes, and room for four frames.
use ws_audiod.Base.{ℕ, zero, suc, ◌+◌, ◌≡◌, refl, some, List, [], ◌∷◌, arith, replicate, memcpy}
use ws_audiod.Circular.{Holds}
use ws_audiod.Pow2.{next_power_of_2}
use ws_audiod.Ring.{
  Ring, ring_buffer, bytes_per_frame, write_loop, write, available_frames, read_start, read_loop,
  read, ◌>>=◌,
}
use ws_audiod.Ring.Valid.{Represents, ring_buffer-Represents}
use ws_audiod.Ring.Write.{write_lem}
use ws_audiod.Ring.Read.{filled, read_lem}
use ws_audiod.Ring.Run.{write_all, joined, frames_of, recording_lem}

abbrev four : Ring
four = ring_buffer 3 1 2

four-Represents : Represents four []
unfolding next_power_of_2
four-Represents =
    ring_buffer-Represents 3 1 2 (omega arith) (omega arith) (omega arith) (omega arith)

-- Three frames and then three more, which go round the end.
abbrev periods : List (List ℕ × ℕ)
periods = (1 ∷ 2 ∷ 3 ∷ 4 ∷ 5 ∷ 6 ∷ [], 3) ∷ (7 ∷ 8 ∷ 9 ∷ 10 ∷ 11 ∷ 12 ∷ [], 3) ∷ []

wraps :
    (write_all four periods >>= (λ r. read r (replicate 6 0) 1 3))
    ≡ some (5 ∷ 6 ∷ 7 ∷ 8 ∷ 9 ∷ 10 ∷ [], 3)
unfolding write_all ring_buffer next_power_of_2 write write_loop read read_loop read_start memcpy
wraps = refl

recording_lem_example :
    (write_all (ring_buffer 3 1 2) periods >>= (λ r. read r (replicate 6 0) 1 3))
    ≡ some (filled (joined periods) 4 (replicate 6 0) 6, 3)
unfolding next_power_of_2 frames_of
recording_lem_example =
    recording_lem 3 1 2 periods (replicate 6 0) 1 3 (omega arith) (omega arith) (omega arith)
      (omega arith) (refl, (refl, tt)) (omega arith) (omega arith)

ring_buffer-Represents_example : Represents (ring_buffer 3 1 2) []
unfolding next_power_of_2
ring_buffer-Represents_example =
    ring_buffer-Represents 3 1 2 (omega arith) (omega arith) (omega arith) (omega arith)

write_lem_example :
    (r' : Ring) × (write four (1 ∷ 2 ∷ 3 ∷ 4 ∷ []) 2 ≡ some r')
    × Represents r' (1 ∷ 2 ∷ 3 ∷ 4 ∷ [])
    × (bytes_per_frame r' ≡ bytes_per_frame four)
    × (r'.capacity_frames ≡ four.capacity_frames)
    × (r'.total_written ≡ four.total_written + 2)
unfolding ring_buffer
write_lem_example = write_lem four [] (1 ∷ 2 ∷ 3 ∷ 4 ∷ []) 2 four-Represents refl (omega arith)

-- A ring of four frames with two in it.
abbrev two_in : Ring
two_in = record {
  buffer = 1 ∷ 2 ∷ 3 ∷ 4 ∷ 0 ∷ 0 ∷ 0 ∷ 0 ∷ [];
  capacity_frames = 4;
  capacity_mask = 3;
  channels = 1;
  bytes_per_sample = 2;
  write_pos = 2;
  total_written = 2;
}

two_in_cells : Holds 8 two_in.buffer (1 ∷ 2 ∷ 3 ∷ 4 ∷ [])
two_in_cells zero h k = refl
two_in_cells (suc zero) h k = refl
two_in_cells (suc (suc zero)) h k = refl
two_in_cells (suc (suc (suc zero))) h k = refl
two_in_cells (suc (suc (suc (suc p)))) h k = absurd (omega arith)

two_in-Represents : Represents two_in (1 ∷ 2 ∷ 3 ∷ 4 ∷ [])
two_in-Represents = record {
  shape = record {
    log = 2;
    log_small = omega arith;
    power = refl;
    low_ones = refl;
    some_bytes = omega arith;
    fits = omega arith;
  };
  storage = refl;
  counted = refl;
  same = refl;
  cells = two_in_cells;
}

read_lem_example :
    read two_in (9 ∷ 9 ∷ 9 ∷ 9 ∷ 9 ∷ 9 ∷ []) 0 3 ≡ some (1 ∷ 2 ∷ 3 ∷ 4 ∷ 9 ∷ 9 ∷ [], 2)
unfolding available_frames
read_lem_example =
    read_lem two_in (1 ∷ 2 ∷ 3 ∷ 4 ∷ []) (9 ∷ 9 ∷ 9 ∷ 9 ∷ 9 ∷ 9 ∷ []) 0 3 two_in-Represents
      (omega arith) (omega arith)
