-- ===== src/Base/Arith.antt =====
-- Products of variables and remainders.
use Prim.Native.Nat.{ℕ, ◌+◌, ◌*◌, ◌/◌, ◌%◌, ◌≤◌, ◌<◌}
use mathlib.Core.Path.{◌≡◌, sym, ap, ◌∙◌}
use native.Mathlib.Nat.{div-add-mod, mod-lt, mul-add-mod_self_left, mod-eq_of_lt}
use native.Mathlib.Omega.{arith}

-- A remainder of frames, in bytes.
pub mul-mod : (x c b : ℕ) → 0 < c → 0 < b → x % c * b ≡ x * b % (c * b)
mul-mod x c b hc hb =
    let small : x % c * b < c * b = grind (arith, mod-lt x hc) in
    let split : x * b ≡ c * b * (x / c) + x % c * b =
      omega (arith, ap (λ (t : ℕ). t * b) (div-add-mod x c)) in
    sym (
      ap (λ t. t % (c * b)) split
      ∙ mul-add-mod_self_left (c * b) (x / c) (x % c * b)
      ∙ mod-eq_of_lt small)

pub mul-le-mul_right : (a b c : ℕ) → a ≤ b → a * c ≤ b * c
mul-le-mul_right a b c h = grind arith

pub le-mul_pos : (a b : ℕ) → 0 < b → a ≤ a * b
le-mul_pos a b h = grind arith

pub pos_factor : (a b : ℕ) → 0 < a * b → (0 < a) × (0 < b)
pos_factor a b h = grind arith
