-- ===== src/Base/Float.antt =====
-- All that the code does with a `float` and a `double`. The rounding of their operations plays no
-- part in what is proved, so they are any operations, but for the conversion of a value in range.
use Prim.Native.Nat.{ℕ, suc, ◌*◌}
use mathlib.Core.Bool.{Bool, false}
use mathlib.Core.List.{List, []}
use mathlib.Core.Option.{Option, some}
use ws_audiod.Base.Tests.{◌==◌}
use ws_audiod.Base.Int.{ℤ, pos, negsuc, Fits, ◌-ℤ◌}
use mathlib.Core.Path.{◌≡◌, refl}

-- `trunc` is the value without its fraction, `cast half` the conversion to the signed type of the
-- values from -half to half - 1, which C++ leaves open where the value is out of that range; `single` is that from `double` to `float`.
pub record Floating : Type 1 where
  pub float : Type 0
  pub double : Type 0
  pub zero_f : float
  pub one_f : float
  pub dc_alpha : float
  pub of_int : ℤ → float
  pub trunc : float → ℤ
  pub cast : ℕ → float → ℤ
  pub cast_same : (half : ℕ) (x : float) → Fits half (trunc x) → cast half x ≡ trunc x
  pub eq_f : float → float → Bool
  pub add_f : float → float → float
  pub sub_f : float → float → float
  pub mul_f : float → float → float
  pub double_of : ℤ → double
  pub eq_d : double → double → Bool
  pub add_d : double → double → double
  pub mul_d : double → double → double
  pub div_d : double → double → double
  pub pow_d : double → double → double
  pub sqrt_d : double → double
  pub single : double → float
  pub widen : float → double
  -- `std::stof` and `std::stod`; `none` where they throw.
  pub stof : List ℕ → Option float
  pub stod : List ℕ → Option double
  -- The logarithm, the test of a level, and how `<<` shows a number.
  pub log10_d : double → double
  pub gt_f : float → float → Bool
  pub show_f : float → List ℕ
  pub show_d : double → List ℕ

-- Whole numbers, to evaluate the code on: a root, a quotient and a power are none of them, and stand
-- for the value itself.
abbrev pub neg_ℤ : ℤ → ℤ
neg_ℤ v = pos 0 -ℤ v

abbrev pub mul_ℤ : ℤ → ℤ → ℤ
mul_ℤ (pos a) (pos b) = pos (a * b)
mul_ℤ (pos a) (negsuc b) = neg_ℤ (pos (a * suc b))
mul_ℤ (negsuc a) (pos b) = neg_ℤ (pos (suc a * b))
mul_ℤ (negsuc a) (negsuc b) = pos (suc a * suc b)

abbrev pub eq_ℤ : ℤ → ℤ → Bool
eq_ℤ (pos a) (pos b) = a == b
eq_ℤ (pos a) (negsuc b) = false
eq_ℤ (negsuc a) (pos b) = false
eq_ℤ (negsuc a) (negsuc b) = a == b

abbrev pub whole : Floating
whole = record {
  float = ℤ;
  double = ℤ;
  zero_f = pos 0;
  one_f = pos 1;
  dc_alpha = pos 1;
  of_int = λ v. v;
  trunc = λ v. v;
  cast = λ _ v. v;
  cast_same = λ _ _ _. refl;
  eq_f = eq_ℤ;
  add_f = λ a b. a -ℤ neg_ℤ b;
  sub_f = λ a b. a -ℤ b;
  mul_f = mul_ℤ;
  double_of = λ v. v;
  eq_d = eq_ℤ;
  add_d = λ a b. a -ℤ neg_ℤ b;
  mul_d = mul_ℤ;
  div_d = λ a b. a;
  pow_d = λ a b. b;
  sqrt_d = λ a. a;
  single = λ a. a;
  widen = λ a. a;
  stof = λ _. some (pos 2);
  stod = λ _. some (pos 2);
  log10_d = λ a. a;
  gt_f = λ a b. false;
  show_f = λ _. [];
  show_d = λ _. [];
}
