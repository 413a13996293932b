-- ===== src/Config/Number/Decimal.antt =====
-- Numbers printed in decimal are read back.
use mathlib.Core.List.{append-nil}
use ws_audiod.Base.{
  ℕ, zero, suc, ◌+◌, ◌-◌, ◌*◌, ◌/◌, ◌%◌, ◌^◌, ◌<◌, ◌≡◌, refl, sym, ap, subst, ◌∙◌, true, false,
  some, [], ◌∷◌, ◌++◌, arith, Text, ◌==◌, ltb, leb, if◌then◌else◌, dec_lt,
}
use ws_audiod.Config.Number.{
  is_digit, more_digits, digits, is_space, skip_space, sign, in_range, unsigned, stoul, drop_digits,
}

-- The digits of a number, on fuel: more than the number is enough.
unfoldable pub print : ℕ → ℕ → Text
print zero n = []
print (suc fuel) n =
    let before = print fuel (n / 10) in (if ltb n 10 then [] else before) ++ ((48 + n % 10) ∷ [])

unfoldable pub decimal : ℕ → Text
decimal n = print (suc n) n

-- The number that digits stand for, behind `a`.
unfoldable pub value : ℕ → Text → ℕ
value a [] = a
value a (c ∷ s) = value (a * 10 + (c - 48)) s

abbrev pub AllDigits : Text → Type 0
AllDigits [] = Unit
AllDigits (c ∷ s) = (is_digit c ≡ true) × AllDigits s

-- What stands behind a number.
abbrev pub Ends : Text → Type 0
Ends [] = Unit
Ends (c ∷ s) = is_digit c ≡ false

value-append : (a : ℕ) (s : Text) (c : ℕ) → value a (s ++ (c ∷ [])) ≡ value a s * 10 + (c - 48)
unfolding value
value-append a [] c = refl
value-append a (d ∷ s) c = value-append (a * 10 + (d - 48)) s c

AllDigits-append : (s : Text) (c : ℕ) → AllDigits s → is_digit c ≡ true → AllDigits (s ++ (c ∷ []))
AllDigits-append [] c h k = (k, tt)
AllDigits-append (d ∷ s) c h k = (h.0, AllDigits-append s c h.1 k)

digit_lem : (d : ℕ) → d < 10 → is_digit (48 + d) ≡ true
digit_lem d h = ground arith

print_lem : (fuel n : ℕ) → n < fuel → (value 0 (print fuel n) ≡ n) × AllDigits (print fuel n)
unfolding print value
print_lem zero n h = absurd (omega arith)
print_lem (suc fuel) n h = elim (dec_lt n 10) [
  | yes small ↦
      let one : ltb n 10 ≡ true = ground arith in
      rw one (omega arith, (digit_lem (n % 10) (omega arith), tt))
  | no large ↦
      let more : ltb n 10 ≡ false = ground arith in
      let (same, all) = print_lem fuel (n / 10) (omega arith) in
      rw more (
        value-append 0 (print fuel (n / 10)) (48 + n % 10) ∙ omega (arith, same),
        AllDigits-append (print fuel (n / 10)) (48 + n % 10) all (digit_lem (n % 10) (omega arith)),
      )
]

more_digits_lem :
    (a : ℕ) (s rest : Text) → AllDigits s → Ends rest → more_digits a (s ++ rest) ≡ value a s
unfolding more_digits value
more_digits_lem a [] [] h k = refl
more_digits_lem a [] (c ∷ rest) h k = rw k refl
more_digits_lem a (c ∷ s) rest h k = rw (h.0) (more_digits_lem (a * 10 + (c - 48)) s rest h.1 k)

pub drop_digits_lem : (s rest : Text) → AllDigits s → Ends rest → drop_digits (s ++ rest) ≡ rest
unfolding drop_digits
drop_digits_lem [] [] h k = refl
drop_digits_lem [] (c ∷ rest) h k = rw k refl
drop_digits_lem (c ∷ s) rest h k = rw (h.0) (drop_digits_lem s rest h.1 k)

print-Cons : (fuel n : ℕ) → n < fuel → (c : ℕ) × (s : Text) × (print fuel n ≡ c ∷ s)
unfolding print
print-Cons zero n h = absurd (omega arith)
print-Cons (suc fuel) n h =
    elim (if ltb n 10 then [] else print fuel (n / 10))
      as (λ t. (c : ℕ) × (s : Text) × (t ++ ((48 + n % 10) ∷ []) ≡ c ∷ s)) [
        | [] ↦ (48 + n % 10, [], refl)
        | c ∷ s ↦ (c, s ++ ((48 + n % 10) ∷ []), refl)
      ]

from_first : (c : ℕ) (s : Text) → value (c - 48) s ≡ value 0 (c ∷ s)
unfolding value
from_first c s = let same : c - 48 ≡ 0 * 10 + (c - 48) = omega arith in ap (λ a. value a s) same

-- A number begins with a digit, and its digits are read up to what stands behind.
pub record Printed (n : ℕ) (s : Text) : Type 0 where
  pub first : ℕ
  pub others : Text
  pub cons : s ≡ first ∷ others
  pub is_first : is_digit first ≡ true
  pub all : AllDigits s
  pub reads : (rest : Text) → Ends rest → digits (s ++ rest) ≡ some n

pub decimal-Printed : (n : ℕ) → Printed n (decimal n)
unfolding decimal digits value
decimal-Printed n =
    let (same, all) = print_lem (suc n) n (omega arith) in
    let (c, s, cons) = print-Cons (suc n) n (omega arith) in
    let all' : AllDigits (c ∷ s) = (rw cons at all) in
    record {
      first = c;
      others = s;
      cons = cons;
      is_first = all'.0;
      all = all;
      reads = λ rest ends.
          rw (cons, digits, all'.0)
            (ap some (
              more_digits_lem (c - 48) s rest all'.1 ends
              ∙ from_first c s
              ∙ sym (ap (value 0) cons)
              ∙ same));
    }

-- A digit is no blank and no sign.
pub starts :
    {n : ℕ} {s : Text}
    → Printed n s
    → (rest : Text) → sign (skip_space (s ++ rest)) ≡ (false, s ++ rest)
unfolding skip_space sign
starts {n} {s} p rest =
    let no_space : is_space p.first ≡ false = ground (arith, p.is_first) in
    let no_minus : (p.first == 45) ≡ false = ground (arith, p.is_first) in
    let no_plus : (p.first == 43) ≡ false = ground (arith, p.is_first) in
    let plain : sign (skip_space (p.first ∷ (p.others ++ rest)))
        ≡ (false, p.first ∷ (p.others ++ rest)) =
      rw (skip_space, no_space, sign, no_minus, no_plus) refl in
    subst (λ t. sign (skip_space (t ++ rest)) ≡ (false, t ++ rest)) (sym (p.cons)) plain

-- A number that fits in 64 bits is read back.
pub stoul-decimal : (n : ℕ) → n < 2 ^ 64 → stoul (decimal n) ≡ some n
unfolding stoul unsigned in_range
stoul-decimal n h =
    let p = decimal-Printed n in
    let alone = append-nil (decimal n) in
    let begun : sign (skip_space (decimal n)) ≡ (false, decimal n) =
      subst (λ t. sign (skip_space t) ≡ (false, t)) alone (starts p []) in
    let read : digits (decimal n) ≡ some n = ap digits (sym alone) ∙ p.reads [] tt in
    let fits : leb (2 ^ 64) n ≡ false = ground arith in
    ap unsigned begun ∙ rw (unsigned, read, fits) refl
