-- ===== src/Base/Bytes.antt =====
-- `std::memcpy` between byte arrays. Bytes are only moved here, so a cell is of any type.
use Prim.Native.Nat.{ℕ, zero, suc, ◌+◌, ◌≤◌, ◌<◌}
use mathlib.Core.Path.{◌≡◌, refl, ap}
use mathlib.Core.List.{List, [], ◌∷◌, ◌++◌}
use mathlib.Core.Logic.{◌⊎◌, inr}
use native.Mathlib.Omega.{arith}
use ws_audiod.Base.Lists.{length, get_or, take, drop}

module _ {ℓ} {A : Type ℓ} where
  -- `memcpy(dst + at, src, n)`. What lies past the end of either array is neither read nor written;
  -- the theorems show that the program never asks for it.
  unfoldable pub memcpy : List A → ℕ → List A → ℕ → List A
  memcpy [] at src n = []
  memcpy (x ∷ dst) (suc at) src n = x ∷ memcpy dst at src n
  memcpy (x ∷ dst) zero src zero = x ∷ dst
  memcpy (x ∷ dst) zero [] (suc n) = x ∷ dst
  memcpy (x ∷ dst) zero (y ∷ src) (suc n) = y ∷ memcpy dst zero src n

  pub length-memcpy :
      (dst : List A) (at : ℕ) (src : List A) (n : ℕ) → length (memcpy dst at src n) ≡ length dst
  unfolding memcpy
  length-memcpy [] at src n = refl
  length-memcpy (x ∷ dst) (suc at) src n = ap suc (length-memcpy dst at src n)
  length-memcpy (x ∷ dst) zero src zero = refl
  length-memcpy (x ∷ dst) zero [] (suc n) = refl
  length-memcpy (x ∷ dst) zero (y ∷ src) (suc n) = ap suc (length-memcpy dst zero src n)

  -- A cell that was copied.
  pub get_or-memcpy_in :
      (dst : List A) (at : ℕ) (src : List A) (n i j : ℕ) (d : A)
      → at + n ≤ length dst
      → n ≤ length src
      → j < n
      → i ≡ at + j
      → get_or (memcpy dst at src n) i d ≡ get_or src j d
  unfolding memcpy
  get_or-memcpy_in [] at src n i j d h k l e = absurd (omega arith)
  get_or-memcpy_in (x ∷ dst) (suc at) src n zero j d h k l e = absurd (omega arith)
  get_or-memcpy_in (x ∷ dst) (suc at) src n (suc i) j d h k l e =
      get_or-memcpy_in dst at src n i j d (omega arith) k l (omega arith)
  get_or-memcpy_in (x ∷ dst) zero src zero i j d h k l e = absurd (omega arith)
  get_or-memcpy_in (x ∷ dst) zero [] (suc n) i j d h k l e = absurd (omega arith)
  get_or-memcpy_in (x ∷ dst) zero (y ∷ src) (suc n) zero zero d h k l e = refl
  get_or-memcpy_in (x ∷ dst) zero (y ∷ src) (suc n) zero (suc j) d h k l e = absurd (omega arith)
  get_or-memcpy_in (x ∷ dst) zero (y ∷ src) (suc n) (suc i) zero d h k l e = absurd (omega arith)
  get_or-memcpy_in (x ∷ dst) zero (y ∷ src) (suc n) (suc i) (suc j) d h k l e =
      get_or-memcpy_in dst zero src n i j d (omega arith) (omega arith) (omega arith) (omega arith)

  -- A cell that was not.
  pub get_or-memcpy_out :
      (dst : List A) (at : ℕ) (src : List A) (n i : ℕ) (d : A)
      → (i < at) ⊎ (at + n ≤ i)
      → get_or (memcpy dst at src n) i d ≡ get_or dst i d
  unfolding memcpy
  get_or-memcpy_out [] at src n i d h = refl
  get_or-memcpy_out (x ∷ dst) (suc at) src n zero d h = refl
  get_or-memcpy_out (x ∷ dst) (suc at) src n (suc i) d h =
      get_or-memcpy_out dst at src n i d (omega arith)
  get_or-memcpy_out (x ∷ dst) zero src zero i d h = refl
  get_or-memcpy_out (x ∷ dst) zero [] (suc n) i d h = refl
  get_or-memcpy_out (x ∷ dst) zero (y ∷ src) (suc n) zero d h = absurd (omega arith)
  get_or-memcpy_out (x ∷ dst) zero (y ∷ src) (suc n) (suc i) d h =
      get_or-memcpy_out dst zero src n i d (inr (omega arith))

module _ {ℓ} {A : Type ℓ} where
  memcpy_start :
      (dst src : List A) (n : ℕ)
      → n ≤ length src
      → n ≤ length dst
      → memcpy dst 0 src n ≡ take n src ++ drop n dst
  unfolding memcpy
  memcpy_start [] src zero h k = refl
  memcpy_start [] src (suc n) h k = absurd (omega arith)
  memcpy_start (x ∷ dst) src zero h k = refl
  memcpy_start (x ∷ dst) [] (suc n) h k = absurd (omega arith)
  memcpy_start (x ∷ dst) (y ∷ src) (suc n) h k =
      ap (◌∷◌ y) (memcpy_start dst src n (omega arith) (omega arith))

  -- A copy behind a prefix keeps the prefix, and what lies past the copied cells.
  pub memcpy-append :
      (done rest : List A) (at : ℕ) (src : List A) (n : ℕ)
      → at ≡ length done
      → n ≤ length src
      → n ≤ length rest
      → memcpy (done ++ rest) at src n ≡ done ++ (take n src ++ drop n rest)
  unfolding memcpy
  memcpy-append [] rest at src n e h k =
      let e' : at ≡ 0 = omega arith in rw e' (memcpy_start rest src n h k)
  memcpy-append (x ∷ done) rest zero src n e h k = absurd (omega arith)
  memcpy-append (x ∷ done) rest (suc at) src n e h k =
      ap (◌∷◌ x) (memcpy-append done rest at src n (omega arith) h k)
