-- ===== src/Pow2/Smear.antt =====
-- What the six shifts of `smear` leave: every bit below the highest one is set.
use native.Mathlib.Nat.{div-le_self}
use ws_audiod.Base.{
  ℕ, zero, suc, ◌+◌, ◌/◌, ◌^◌, ◌≤◌, ◌<◌, ◌≡◌, arith, dec_lt, bit, bit-le-one, bit-bit_or, bit-shr,
  bit_or-lt, bit_top, all_ones,
}
use ws_audiod.Pow2.{or_shift, smear}

module _ (k : ℕ) where
  -- `x` needs at most `k + 1` bits, and its `m` highest are set.
  pub record IsSmeared (m x : ℕ) : Type 0 where
    pub width : x < 2 ^ suc k
    pub ones : (i : ℕ) → i ≤ k → k < i + m → bit i x ≡ 1

  start-IsSmeared : (x : ℕ) → 2 ^ k ≤ x → x < 2 ^ suc k → IsSmeared 1 x
  start-IsSmeared x lo hi = record {
    width = hi;
    ones = λ i h l. let e : i ≡ k = omega arith in rw e (bit_top k x lo hi);
  }

  -- A shift by as many places as are set doubles their number.
  or_shift-IsSmeared : (m n x : ℕ) → n ≡ m + m → IsSmeared m x → IsSmeared n (or_shift x m)
  or_shift-IsSmeared m n x e s = record {
    width = bit_or-lt (suc k) x (x / 2 ^ m) s.width (omega (arith, s.width, div-le_self x (2 ^ m)));
    ones = λ i h l. elim (dec_lt k (i + m)) [
      | yes near ↦
          omega (arith, bit-bit_or i x (x / 2 ^ m), s.ones i h near, bit-le-one i (x / 2 ^ m))
      | no far ↦ omega (
        arith,
        bit-bit_or i x (x / 2 ^ m),
        bit-shr m i (m + i) x (omega arith),
        s.ones (m + i) (omega arith) (omega arith),
        bit-le-one i x,
      )
    ];
  }

  pub smear-IsSmeared : (x : ℕ) → 2 ^ k ≤ x → x < 2 ^ suc k → IsSmeared 64 (smear x)
  unfolding smear
  smear-IsSmeared x lo hi = or_shift-IsSmeared 32 64 _ (omega arith) (
      or_shift-IsSmeared 16 32 _ (omega arith) (
        or_shift-IsSmeared 8 16 _ (omega arith) (
          or_shift-IsSmeared 4 8 _ (omega arith) (
            or_shift-IsSmeared 2 4 _ (omega arith)
              (or_shift-IsSmeared 1 2 _ (omega arith) (start-IsSmeared x lo hi))))))

-- The smear of a number whose highest bit is `k` is `2 ^ (k + 1) - 1`.
pub smear_lem : (k x : ℕ) → k < 64 → 2 ^ k ≤ x → x < 2 ^ suc k → smear x + 1 ≡ 2 ^ suc k
smear_lem k x hk lo hi =
    let s = smear-IsSmeared k x lo hi in
    all_ones (suc k) (smear x) s.width (λ i h. s.ones i (omega arith) (omega arith))

-- The place of the highest bit.
pub highest_bit : (n x : ℕ) → 0 < x → x < 2 ^ n → (k : ℕ) × (k < n) × (2 ^ k ≤ x) × (x < 2 ^ suc k)
highest_bit zero x h hi = absurd (omega arith)
highest_bit (suc n) x h hi = elim (dec_lt x (2 ^ n)) [
  | yes low ↦ let (k, kn, lo, up) = highest_bit n x h low in (k, omega arith, lo, up)
  | no high ↦ (n, omega arith, omega arith, hi)
]
