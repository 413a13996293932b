-- ===== src/Base/Fields.antt =====
-- Numbers in memory, little end first, and the fields of a memory.
use Prim.Native.Nat.{ℕ, zero, suc, ◌+◌, ◌*◌, ◌/◌, ◌%◌, ◌^◌, ◌≤◌, ◌<◌}
use mathlib.Core.Path.{◌≡◌, refl, sym, ap, ◌∙◌}
use mathlib.Core.List.{List, [], ◌∷◌}
use mathlib.Core.Logic.{◌⊎◌, inl, inr}
use native.Mathlib.Omega.{arith}
use native.Mathlib.Nat.{pow-suc, div-add-mod}
use ws_audiod.Base.Lists.{
  length, take, drop, length-take, length-drop, get_or-take, get_or-drop, list_ext,
}
use ws_audiod.Base.Bytes.{memcpy, length-memcpy, get_or-memcpy_in, get_or-memcpy_out}

-- The `n` bytes of a number, as `memcpy` from it reads them on a little-endian machine.
abbrev pub le : ℕ → ℕ → List ℕ
le zero v = []
le (suc n) v = v % 256 ∷ le n (v / 256)

-- The number that `memcpy` into a variable makes of bytes.
abbrev pub of_le : List ℕ → ℕ
of_le [] = 0
of_le (b ∷ bs) = b + 256 * of_le bs

pub length-le : (n v : ℕ) → length (le n v) ≡ n
length-le zero v = refl
length-le (suc n) v = ap suc (length-le n (v / 256))

pub of_le-le : (n v : ℕ) → v < 256 ^ n → of_le (le n v) ≡ v
of_le-le zero v h = omega arith
of_le-le (suc n) v h =
    let rest : v / 256 < 256 ^ n = omega (arith, pow-suc 256 n, div-add-mod v 256) in
    omega (arith, of_le-le n (v / 256) rest, div-add-mod v 256)

-- The `n` cells from `at` on.
abbrev pub field : List ℕ → ℕ → ℕ → List ℕ
field memory at n = take n (drop at memory)

-- A field that was just stored.
pub field-memcpy_same :
    (memory src : List ℕ) (at n : ℕ)
    → at + n ≤ length memory
    → n ≤ length src
    → field (memcpy memory at src n) at n ≡ take n src
field-memcpy_same memory src at n room have =
    let memory' : List ℕ = memcpy memory at src n in
    let size = length-memcpy memory at src n in
    list_ext 0 (field memory' at n) (take n src)
      (omega
        (arith, length-take n (drop at memory'), length-drop at memory', size, length-take n src))
      λ i below.
        let near : i < n = omega (arith, length-take n (drop at memory')) in
        get_or-take n (drop at memory') i 0 near
        ∙ get_or-drop at memory' i (at + i) 0 refl
        ∙ get_or-memcpy_in memory at src n (at + i) i 0 room have near refl
        ∙ sym (get_or-take n src i 0 near)

-- A field beside the one that was stored.
pub field-memcpy_other :
    (memory src : List ℕ) (at k b n : ℕ)
    → (b + n ≤ at) ⊎ (at + k ≤ b)
    → field (memcpy memory at src k) b n ≡ field memory b n
field-memcpy_other memory src at k b n apart =
    let memory' : List ℕ = memcpy memory at src k in
    let size = length-memcpy memory at src k in
    list_ext 0 (field memory' b n) (field memory b n)
      (omega (
        arith,
        length-take n (drop b memory'),
        length-drop b memory',
        size,
        length-take n (drop b memory),
        length-drop b memory,
      ))
      λ i below.
        let near : i < n = omega (arith, length-take n (drop b memory')) in
        let outside : (b + i < at) ⊎ (at + k ≤ b + i) = (elim apart [
          | inl h ↦ inl (omega arith)
          | inr h ↦ inr (omega arith)
        ]) in
        get_or-take n (drop b memory') i 0 near
        ∙ get_or-drop b memory' i (b + i) 0 refl
        ∙ get_or-memcpy_out memory at src k (b + i) 0 outside
        ∙ sym (get_or-drop b memory i (b + i) 0 refl)
        ∙ sym (get_or-take n (drop b memory) i 0 near)

-- A field of a larger copy.
pub field-memcpy_in :
    (memory src : List ℕ) (at k b n j : ℕ)
    → at + k ≤ length memory
    → k ≤ length src
    → b ≡ at + j
    → j + n ≤ k
    → field (memcpy memory at src k) b n ≡ field src j n
field-memcpy_in memory src at k b n j room have e inside =
    let memory' : List ℕ = memcpy memory at src k in
    let size = length-memcpy memory at src k in
    list_ext 0 (field memory' b n) (field src j n)
      (omega (
        arith,
        length-take n (drop b memory'),
        length-drop b memory',
        size,
        length-take n (drop j src),
        length-drop j src,
      ))
      λ i below.
        let near : i < n = omega (arith, length-take n (drop b memory')) in
        get_or-take n (drop b memory') i 0 near
        ∙ get_or-drop b memory' i (b + i) 0 refl
        ∙ get_or-memcpy_in memory at src k (b + i) (j + i) 0 room have (omega arith) (omega arith)
        ∙ sym (get_or-drop j src i (j + i) 0 refl)
        ∙ sym (get_or-take n (drop j src) i 0 near)
