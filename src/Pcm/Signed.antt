-- ===== src/Pcm/Signed.antt =====
-- 24-bit samples as signed numbers: what the unpacking computes, and the round trips.
use Prim.Native.Nat.{bit_and, bit_or}
use ws_audiod.Base.{
  ℕ, ◌+◌, ◌-◌, ◌*◌, ◌/◌, ◌%◌, ◌^◌, ◌≤◌, ◌<◌, ◌≡◌, arith, if◌then◌else◌, ltb, dec_lt,
  bit_or_disjoint, bit_and_single, bit_and_mask, bit_above, bit_top, ◌⊎◌,
}
use ws_audiod.Pcm.{unpack24, pack24}

abbrev pub le24 : ℕ → ℕ → ℕ → ℕ
le24 p0 p1 p2 = p0 + p1 * 2 ^ 8 + p2 * 2 ^ 16

joined :
    (p0 p1 p2 : ℕ)
    → p0 < 256
    → p1 < 256
    → bit_or (bit_or p0 (p1 * 2 ^ 8)) (p2 * 2 ^ 16) ≡ le24 p0 p1 p2
joined p0 p1 p2 h0 h1 =
    let low = bit_or_disjoint 8 p0 p1 (omega arith) in
    rw low (bit_or_disjoint 16 (p0 + p1 * 2 ^ 8) p2 (omega arith))

-- The sign bit is copied into the eight bits above it.
pub unpack24_lem :
    (p0 p1 p2 : ℕ)
    → p0 < 256
    → p1 < 256
    → p2 < 256
    → unpack24 p0 p1 p2 ≡ (if ltb p2 128 then le24 p0 p1 p2 else le24 p0 p1 p2 + (2 ^ 32 - 2 ^ 24))
unfolding unpack24
unpack24_lem p0 p1 p2 h0 h1 h2 = rw (joined p0 p1 p2 h0 h1) (elim (dec_lt p2 128) [
  | yes plus ↦
      let e : bit_and (le24 p0 p1 p2) 0x800000 ≡ 0 =
        omega
          (arith, bit_and_single 23 (le24 p0 p1 p2), bit_above 23 (le24 p0 p1 p2) (omega arith)) in
      rw e (ground arith)
  | no minus ↦
      let e : bit_and (le24 p0 p1 p2) 0x800000 ≡ 0x800000 = omega (
        arith,
        bit_and_single 23 (le24 p0 p1 p2),
        bit_top 23 (le24 p0 p1 p2) (omega arith) (omega arith),
      ) in
      rw e (ground (arith, bit_or_disjoint 24 (le24 p0 p1 p2) 255 (omega arith)))
])

pack24_lem : (v : ℕ) → pack24 v ≡ (v % 2 ^ 8, v / 2 ^ 8 % 2 ^ 8, v / 2 ^ 16 % 2 ^ 8)
unfolding pack24
pack24_lem v =
    ground (arith, bit_and_mask 8 v, bit_and_mask 8 (v / 2 ^ 8), bit_and_mask 8 (v / 2 ^ 16))

-- Reading three bytes as an `int32_t` and storing it gives the three bytes back.
pub pack24-unpack24 :
    (p0 p1 p2 : ℕ) → p0 < 256 → p1 < 256 → p2 < 256 → pack24 (unpack24 p0 p1 p2) ≡ (p0, p1, p2)
pack24-unpack24 p0 p1 p2 h0 h1 h2 = rw (pack24_lem, unpack24_lem p0 p1 p2 h0 h1 h2) (ground arith)

-- Storing an `int32_t` between -2 ^ 23 and 2 ^ 23 - 1, which the clamping code makes sure of, and
-- reading it gives it back.
pub unpack24-pack24 :
    (v : ℕ)
    → (v < 2 ^ 23) ⊎ ((2 ^ 32 - 2 ^ 23 ≤ v) × (v < 2 ^ 32))
    → let (p0, p1, p2) = pack24 v in unpack24 p0 p1 p2 ≡ v
unpack24-pack24 v h =
    rw
      (
        pack24_lem,
        unpack24_lem (v % 2 ^ 8) (v / 2 ^ 8 % 2 ^ 8) (v / 2 ^ 16 % 2 ^ 8) (omega arith)
            (omega arith) (omega arith),
      )
      (ground arith)
