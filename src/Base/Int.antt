-- ===== src/Base/Int.antt =====
-- The signed integers of C++, and their bit patterns.
use Prim.Native.Nat.{ℕ, suc, ◌+◌, ◌-◌, ◌*◌, ◌/◌, ◌%◌, ◌<◌}
use mathlib.Core.Path.{◌≡◌}
use mathlib.Core.Bool.{Bool, true, false}
use native.Mathlib.Omega.{arith}
use native.Mathlib.Nat.{mod-eq_of_lt}
use native.Mathlib.Decide.{dec_lt}
use ws_audiod.Base.Tests.{ltb, leb, if◌then◌else◌}

-- `negsuc n` is -(n + 1).
pub data ℤ : Type 0 where
  pos negsuc : ℕ → ℤ

unfoldable pub sub_nat : ℕ → ℕ → ℤ
sub_nat a b = if leb b a then pos (a - b) else negsuc (b - a - 1)

infixl 65 ◌-ℤ◌
unfoldable pub ◌-ℤ◌ : ℤ → ℤ → ℤ
pos a -ℤ pos b = sub_nat a b
pos a -ℤ negsuc b = pos (a + b + 1)
negsuc a -ℤ pos b = negsuc (a + b)
negsuc a -ℤ negsuc b = sub_nat b a

abbrev pub ltb_ℤ : ℤ → ℤ → Bool
ltb_ℤ (pos a) (pos b) = ltb a b
ltb_ℤ (pos a) (negsuc b) = false
ltb_ℤ (negsuc a) (pos b) = true
ltb_ℤ (negsuc a) (negsuc b) = ltb b a

-- `std::abs`, for values whose negation is in range.
abbrev pub abs_ℤ : ℤ → ℕ
abs_ℤ (pos n) = n
abs_ℤ (negsuc n) = suc n

-- `v >> 16`, which rounds down.
abbrev pub shift_16 : ℤ → ℤ
shift_16 (pos n) = pos (n / 65536)
shift_16 (negsuc n) = negsuc (n / 65536)

-- The value of a pattern, where `half` is that of the sign bit; and the pattern of a value.
abbrev pub to_int : ℕ → ℕ → ℤ
to_int half v = if ltb v half then pos v else negsuc (2 * half - 1 - v)

abbrev pub of_int : ℕ → ℤ → ℕ
of_int half (pos n) = n % (2 * half)
of_int half (negsuc n) = 2 * half - 1 - n % (2 * half)

-- `a - b` for two values of `int`: where it is out of range, C++ leaves it open, and here it wraps.
abbrev pub int_sub : ℤ → ℤ → ℤ
int_sub a b = to_int 2147483648 (of_int 2147483648 (a -ℤ b))

-- `std::clamp(v, lo, hi)`.
abbrev pub clamp : ℤ → ℤ → ℤ → ℤ
clamp lo hi v = if ltb_ℤ v lo then lo else if ltb_ℤ hi v then hi else v

-- The value has a pattern.
abbrev pub Fits : ℕ → ℤ → Type 0
Fits half (pos n) = n < half
Fits half (negsuc n) = n < half

pub to_int-of_int : (half : ℕ) (v : ℤ) → Fits half v → to_int half (of_int half v) ≡ v
to_int-of_int half (pos n) h =
    let e : n % (2 * half) ≡ n = mod-eq_of_lt (omega arith) in rw e (ground arith)
to_int-of_int half (negsuc n) h =
    let e : n % (2 * half) ≡ n = mod-eq_of_lt (omega arith) in rw e (ground arith)

pub of_int-to_int : (half v : ℕ) → v < 2 * half → of_int half (to_int half v) ≡ v
of_int-to_int half v h =
    let low : v % (2 * half) ≡ v = mod-eq_of_lt h in
    let high : (2 * half - 1 - v) % (2 * half) ≡ 2 * half - 1 - v = mod-eq_of_lt (omega arith) in
    elim (dec_lt v half) [ yes plus ↦ ground (arith, low) | no minus ↦ ground (arith, high) ]

pub to_int-Fits : (half v : ℕ) → v < 2 * half → Fits half (to_int half v)
to_int-Fits half v h = ground arith

-- The range of the pattern.
abbrev pub saturate : ℕ → ℤ → ℤ
saturate half = clamp (negsuc (half - 1)) (pos (half - 1))

pub saturate-Fits : (half : ℕ) (v : ℤ) → 0 < half → Fits half (saturate half v)
saturate-Fits half (pos n) h = ground arith
saturate-Fits half (negsuc n) h = ground arith

pub saturate_same : (half : ℕ) (v : ℤ) → Fits half v → saturate half v ≡ v
saturate_same half (pos n) h = ground arith
saturate_same half (negsuc n) h = ground arith
