-- ===== src/Pipeline.antt =====
-- src/pipeline/capture_pipeline.cpp: the downmix of a chunk. The loops are those of the portable
-- branch; the NEON branch does the same in groups of eight or four frames.
pub mod Downmix
pub mod Gain
pub mod Dc
pub mod Meter
pub mod Chunk
pub mod Life
mod Tests
use ws_audiod.Base.{ℕ, zero, suc, ◌+◌, ◌*◌, List, drop, memcpy, ◌==◌, if◌then◌else◌}

-- The loop for samples of `bps` bytes, from frame `f` on.
pub downmix_loop : ℕ → ℕ → List ℕ → List ℕ → ℕ → List ℕ
downmix_loop zero bps src dst f = dst
downmix_loop (suc left) bps src dst f =
    downmix_loop left bps src (memcpy dst (f * bps) (drop (f * (2 * bps)) src) bps) (suc f)

-- `apply_downmix`: what `dst` holds afterwards.
pub apply_downmix : List ℕ → List ℕ → ℕ → ℕ → List ℕ
apply_downmix src dst frame_count bits =
    if bits == 16
    then downmix_loop frame_count 2 src dst 0
    else if bits == 24
    then downmix_loop frame_count 3 src dst 0
    else if bits == 32
    then downmix_loop frame_count 4 src dst 0
    else dst
