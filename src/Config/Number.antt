-- ===== src/Config/Number.antt =====
-- `std::stoul` and `std::stoi`, for the texts that src/utils/config.cpp hands them; `none` where they
-- throw. An `unsigned long` has 64 bits.
pub mod Decimal
use ws_audiod.Base.{
  ℕ, ◌+◌, ◌-◌, ◌*◌, ◌%◌, ◌^◌, Bool, true, false, ◌&&◌, ◌||◌, Option, none, some, List, [], ◌∷◌,
  Text, ◌==◌, ltb, leb, if◌then◌else◌, ℤ, pos, negsuc,
}

abbrev pub is_digit : ℕ → Bool
is_digit c = leb 48 c && leb c 57

-- The digits that a text begins with, behind those that were read.
unfoldable pub more_digits : ℕ → Text → ℕ
more_digits n [] = n
more_digits n (c ∷ s) =
    let rest = more_digits (n * 10 + (c - 48)) s in if is_digit c then rest else n

unfoldable pub digits : Text → Option ℕ
digits [] = none
digits (c ∷ s) = if is_digit c then some (more_digits (c - 48) s) else none

-- `isspace`
abbrev pub is_space : ℕ → Bool
is_space c = c == 32 || (leb 9 c && leb c 13)

unfoldable pub skip_space : Text → Text
skip_space [] = []
skip_space (c ∷ s) = if is_space c then skip_space s else c ∷ s

-- Whether there is a '-', and the rest behind the sign.
unfoldable pub sign : Text → Bool × Text
sign [] = (false, [])
sign (c ∷ s) = if c == 45 then (true, s) else if c == 43 then (false, s) else (false, c ∷ s)

unfoldable pub in_range : Bool → ℕ → Option ℕ
in_range minus n =
    if leb (2 ^ 64) n then none else some (if minus then (2 ^ 64 - n) % 2 ^ 64 else n)

-- Behind the sign.
unfoldable pub unsigned : Bool × Text → Option ℕ
unsigned (minus, rest) = elim (digits rest) [ none ↦ none | some n ↦ in_range minus n ]

unfoldable pub stoul : Text → Option ℕ
stoul s = unsigned (sign (skip_space s))

unfoldable pub in_range_ℤ : Bool → ℕ → Option ℤ
in_range_ℤ true n =
    if n == 0 then some (pos 0) else if leb n (2 ^ 31) then some (negsuc (n - 1)) else none
in_range_ℤ false n = if ltb n (2 ^ 31) then some (pos n) else none

unfoldable pub stoi : Text → Option ℤ
stoi s =
    let (minus, rest) = sign (skip_space s) in
    elim (digits rest) [ none ↦ none | some n ↦ in_range_ℤ minus n ]

-- What stands behind the digits.
unfoldable pub drop_digits : Text → Text
drop_digits [] = []
drop_digits (c ∷ s) = let rest = drop_digits s in if is_digit c then rest else c ∷ s
