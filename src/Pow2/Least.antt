-- ===== src/Pow2/Least.antt =====
-- Both roundings give the least power of two that is no smaller than their argument.
use native.Mathlib.Nat.{pow-suc, pow-le-pow_right}
use ws_audiod.Base.{
  ℕ, zero, suc, ◌-◌, ◌*◌, ◌^◌, ◌≤◌, ◌<◌, ◌≡◌, refl, ◌==◌, if◌then◌else◌, arith, dec_lt, sub_size,
}
use ws_audiod.Pow2.{next_power_of_2, next_pow2}
use ws_audiod.Pow2.Smear.{smear_lem, highest_bit}

rounds_one : next_power_of_2 1 ≡ 1
unfolding next_power_of_2
rounds_one = refl

-- The `k` of the theorem is one above the highest bit of `v - 1`.
rounded :
    (v : ℕ)
    → 1 < v
    → v ≤ 2 ^ 63
    → (k : ℕ) × (k ≤ 63) × (next_power_of_2 v ≡ 2 ^ k) × (v ≤ 2 ^ k) × (2 ^ k < 2 * v)
unfolding next_power_of_2
rounded v h up =
    let (k, below, lo, hi) = highest_bit 63 (v - 1) (omega arith) (omega arith) in
    let all = smear_lem k (v - 1) (omega arith) lo hi in
    let top : 2 ^ suc k ≤ 2 ^ 63 = pow-le-pow_right (omega arith) below in
    let twice = pow-suc 2 k in (suc k, below, ground arith, omega arith, omega arith)

-- `next_power_of_2` of 1 to 2 ^ 63 is a power of two, no smaller than the argument and less than
-- twice as large, so it is the least such power.
pub next_power_of_2_least :
    (v : ℕ)
    → 0 < v
    → v ≤ 2 ^ 63
    → (k : ℕ) × (k ≤ 63) × (next_power_of_2 v ≡ 2 ^ k) × (v ≤ 2 ^ k) × (2 ^ k < 2 * v)
next_power_of_2_least v h up = elim (dec_lt 1 v) [
  | yes more ↦ rounded v more up
  | no single ↦
      let e : v ≡ 1 = omega arith in rw e (0, omega arith, rounds_one, omega arith, omega arith)
]

-- `next_pow2` agrees with `next_power_of_2` on every `uint64_t` but 0: there it gives 0, and the
-- other gives 1.
pub next_pow2-next_power_of_2 :
    (v : ℕ) → v < 2 ^ 64 → next_pow2 v ≡ (if v == 0 then 0 else next_power_of_2 v)
unfolding next_pow2 next_power_of_2
next_pow2-next_power_of_2 zero h = refl
next_pow2-next_power_of_2 (suc u) h =
    let e : sub_size (suc u) 1 ≡ suc u - 1 = omega arith in rw e (ground arith)
