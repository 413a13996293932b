-- ===== src/Base/Bits.antt =====
-- `|` and `&` at variables: the equation of the lowest digit, single bits, and masks of low bits.
use Prim.Native.Nat.{
  ℕ, zero, suc, ◌+◌, ◌-◌, ◌*◌, ◌/◌, ◌%◌, ◌^◌, ◌≤◌, ◌<◌, min, max, bit_and, bit_or, digits,
  bit_and-bitwise, bit_or-bitwise,
}
use mathlib.Core.Path.{◌≡◌, refl, ap, ◌∙◌}
use native.Mathlib.Nat.{
  div-add-mod, mod-lt, mul-add-mod_self_left, mod-eq_of_lt, div-one, pow-suc, one-le-pow,
  div-div-eq-div-mul,
}
use native.Mathlib.Omega.{arith}

-- Both operations are a recursion on binary digits with fuel; any fuel that covers `a` will do.
module _ (z : ℕ → ℕ) (f : ℕ → ℕ → ℕ) where
  abbrev by_digits : ℕ → ℕ → ℕ → ℕ
  by_digits fuel a b = digits z f fuel a b

  by_digits_enough : (k l a b : ℕ) → a ≤ k → a ≤ l → by_digits k a b ≡ by_digits l a b
  by_digits_enough zero zero a b hk hl = refl
  by_digits_enough (suc k) zero zero b hk hl = refl
  by_digits_enough (suc k) zero (suc a) b hk hl = absurd (omega arith)
  by_digits_enough zero (suc l) zero b hk hl = refl
  by_digits_enough zero (suc l) (suc a) b hk hl = absurd (omega arith)
  by_digits_enough (suc k) (suc l) zero b hk hl = refl
  by_digits_enough (suc k) (suc l) (suc a) b hk hl =
      omega (arith, by_digits_enough k l (suc a / 2) (b / 2) (omega arith) (omega arith))

pub bit_or_step : (a b : ℕ) → bit_or a b ≡ bit_or (a / 2) (b / 2) * 2 + max (a % 2) (b % 2)
bit_or_step zero b = omega (arith, bit_or-bitwise 0 b, bit_or-bitwise 0 (b / 2))
bit_or_step (suc a) b = omega (
  arith,
  bit_or-bitwise (suc a) b,
  bit_or-bitwise (suc a / 2) (b / 2),
  by_digits_enough (λ y. y) max a (suc a / 2) (suc a / 2) (b / 2) (omega arith) (omega arith),
)

pub bit_and_step : (a b : ℕ) → bit_and a b ≡ bit_and (a / 2) (b / 2) * 2 + min (a % 2) (b % 2)
bit_and_step zero b = omega (arith, bit_and-bitwise 0 b, bit_and-bitwise 0 (b / 2))
bit_and_step (suc a) b = omega (
  arith,
  bit_and-bitwise (suc a) b,
  bit_and-bitwise (suc a / 2) (b / 2),
  by_digits_enough (λ y. 0) min a (suc a / 2) (suc a / 2) (b / 2) (omega arith) (omega arith),
)

bit_and-zero_below : (n a : ℕ) → a ≤ n → bit_and a 0 ≡ 0
bit_and-zero_below n zero h = refl
bit_and-zero_below zero (suc a) h = absurd (omega arith)
bit_and-zero_below (suc n) (suc a) h =
    omega (arith, bit_and_step (suc a) 0, bit_and-zero_below n (suc a / 2) (omega arith))

pow-suc' : (k : ℕ) → 2 ^ suc k ≡ 2 * 2 ^ k
pow-suc' k = omega (arith, pow-suc 2 k)

mod-double : (a m : ℕ) → 0 < m → a % (2 * m) ≡ a / 2 % m * 2 + a % 2
mod-double a m h =
    let r : ℕ = a / 2 % m * 2 + a % 2 in
    let split : a ≡ 2 * m * (a / 2 / m) + r = omega (arith, div-add-mod (a / 2) m) in
    let small : r < 2 * m = omega (arith, mod-lt (a / 2) h) in
    ap (λ t. t % (2 * m)) split ∙ mul-add-mod_self_left (2 * m) (a / 2 / m) r ∙ mod-eq_of_lt small

-- `a & (2 ^ k - 1)` is the remainder by `2 ^ k`.
pub bit_and_mask : (k a : ℕ) → bit_and a (2 ^ k - 1) ≡ a % 2 ^ k
bit_and_mask zero a = omega (arith, bit_and-zero_below a a (omega arith))
bit_and_mask (suc k) a = omega (
  arith,
  bit_and_step a (2 ^ suc k - 1),
  ap (bit_and (a / 2)) half_mask,
  bit_and_mask k (a / 2),
  mod-double a (2 ^ k) (one-le-pow k 2 (omega arith)),
  ap (◌%◌ a) (pow-suc' k),
  one-le-pow k 2,
  pow-suc' k,
)
  where
    half_mask : (2 ^ suc k - 1) / 2 ≡ 2 ^ k - 1
    half_mask = omega (arith, one-le-pow k 2 (omega arith), pow-suc' k)

-- Bit `i` of `x`, as 0 or 1.
abbrev pub bit : ℕ → ℕ → ℕ
bit zero x = x % 2
bit (suc i) x = bit i (x / 2)

pub bit-le-one : (i x : ℕ) → bit i x ≤ 1
bit-le-one zero x = omega arith
bit-le-one (suc i) x = bit-le-one i (x / 2)

pub bit-bit_or : (i a b : ℕ) → bit i (bit_or a b) ≡ max (bit i a) (bit i b)
bit-bit_or zero a b = omega (arith, bit_or_step a b)
bit-bit_or (suc i) a b =
    let e : bit_or a b / 2 ≡ bit_or (a / 2) (b / 2) = omega (arith, bit_or_step a b) in
    rw e (bit-bit_or i (a / 2) (b / 2))

pub bit-shr : (s i j x : ℕ) → j ≡ s + i → bit i (x / 2 ^ s) ≡ bit j x
bit-shr zero i j x e = let f : j ≡ i = omega arith in rw (f, div-one)
bit-shr (suc s) i zero x e = absurd (omega arith)
bit-shr (suc s) i (suc j) x e =
    rw (pow-suc' s, ← div-div-eq-div-mul x 2 (2 ^ s)) (bit-shr s i j (x / 2) (omega arith))

pub bit_or-lt : (k a b : ℕ) → a < 2 ^ k → b < 2 ^ k → bit_or a b < 2 ^ k
bit_or-lt zero a b ha hb =
    let ea : a ≡ 0 = omega arith in let eb : b ≡ 0 = omega arith in rw (ea, eb) (omega arith)
bit_or-lt (suc k) a b ha hb = omega (
  arith,
  bit_or_step a b,
  pow-suc 2 k,
  bit_or-lt k (a / 2) (b / 2) (omega (arith, pow-suc 2 k)) (omega (arith, pow-suc 2 k)),
)

-- The top bit of a number that needs `k + 1` bits is set.
pub bit_top : (k x : ℕ) → 2 ^ k ≤ x → x < 2 ^ suc k → bit k x ≡ 1
bit_top zero x lo hi = omega arith
bit_top (suc k) x lo hi =
    bit_top k (x / 2) (omega (arith, pow-suc 2 k)) (omega (arith, pow-suc 2 (suc k)))

-- A number all of whose `k` bits are set.
pub all_ones : (k x : ℕ) → x < 2 ^ k → ((i : ℕ) → i < k → bit i x ≡ 1) → x + 1 ≡ 2 ^ k
all_ones zero x hi ones = omega arith
all_ones (suc k) x hi ones = omega (
  arith,
  pow-suc 2 k,
  ones 0 (omega arith),
  all_ones k (x / 2) (omega (arith, pow-suc 2 k)) (λ i hik. ones (suc i) (omega arith)),
)

bit_or-zero_below : (n a : ℕ) → a ≤ n → bit_or a 0 ≡ a
bit_or-zero_below n zero h = refl
bit_or-zero_below zero (suc a) h = absurd (omega arith)
bit_or-zero_below (suc n) (suc a) h =
    omega (arith, bit_or_step (suc a) 0, bit_or-zero_below n (suc a / 2) (omega arith))

-- `|` of a number below `2 ^ k` and a multiple of `2 ^ k` is their sum.
pub bit_or_disjoint : (k a b : ℕ) → a < 2 ^ k → bit_or a (b * 2 ^ k) ≡ a + b * 2 ^ k
bit_or_disjoint zero a b h =
    let e : a ≡ 0 = omega arith in rw e (omega (arith, bit_or-bitwise 0 (b * 2 ^ 0)))
bit_or_disjoint (suc k) a b h =
    let double : b * 2 ^ suc k ≡ 2 * (b * 2 ^ k) =
      omega (arith, ap (λ (t : ℕ). b * t) (pow-suc' k)) in
    let half : b * 2 ^ suc k / 2 ≡ b * 2 ^ k = omega (arith, double) in
    omega (
      arith,
      bit_or_step a (b * 2 ^ suc k),
      ap (bit_or (a / 2)) half,
      bit_or_disjoint k (a / 2) b (omega (arith, pow-suc' k)),
      double,
    )

bit_and-zero' : (a : ℕ) → bit_and a 0 ≡ 0
bit_and-zero' a = bit_and-zero_below a a (omega arith)

-- `&` with a single bit.
pub bit_and_single : (k a : ℕ) → bit_and a (2 ^ k) ≡ bit k a * 2 ^ k
bit_and_single zero a = omega (arith, bit_and_step a 1, bit_and-zero' (a / 2))
bit_and_single (suc k) a =
    let half : 2 ^ suc k / 2 ≡ 2 ^ k = omega (arith, pow-suc' k) in
    omega (
      arith,
      bit_and_step a (2 ^ suc k),
      ap (bit_and (a / 2)) half,
      bit_and_single k (a / 2),
      ap (λ (t : ℕ). bit k (a / 2) * t) (pow-suc' k),
      pow-suc' k,
    )

pub bit_above : (k x : ℕ) → x < 2 ^ k → bit k x ≡ 0
bit_above zero x h = omega arith
bit_above (suc k) x h = bit_above k (x / 2) (omega (arith, pow-suc' k))
