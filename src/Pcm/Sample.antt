-- ===== src/Pcm/Sample.antt =====
-- The samples as signed values: the round trips, and arrays of them.
use mathlib.Core.Path.{ap₂}
use mathlib.Core.List.{append_assoc}
use native.Mathlib.Nat.{mod-lt}
use ws_audiod.Base.{
  ◌-◌, ◌/◌, ◌%◌, drop-append_exact, ℕ, zero, suc, ◌+◌, ◌*◌, ◌^◌, ◌≤◌, ◌<◌, ◌≡◌, ◌⊎◌, inl, inr, refl,
  sym, ap, subst, ◌∙◌, List, [], ◌∷◌, ◌++◌, arith, length, drop, ℤ, pos, negsuc, Fits, to_int,
  of_int, to_int-of_int, length-append,
}
use ws_audiod.Pcm.{width, signed, bytes_of, half}
use ws_audiod.Pcm.Signed.{unpack24-pack24}

abbrev pub IsDepth : ℕ → Type 0
IsDepth bits = (bits ≡ 16) ⊎ ((bits ≡ 24) ⊎ (bits ≡ 32))

pub on_depth {ℓ} : (P : ℕ → Type ℓ) → P 16 → P 24 → P 32 → (bits : ℕ) → IsDepth bits → P bits
on_depth P p q r bits (inl e) = subst P (sym e) p
on_depth P p q r bits (inr (inl e)) = subst P (sym e) q
on_depth P p q r bits (inr (inr e)) = subst P (sym e) r

pub length-bytes_of : (bits : ℕ) (v : ℤ) → IsDepth bits → length (bytes_of bits v) ≡ width bits
unfolding bytes_of
length-bytes_of bits v = on_depth (λ b. length (bytes_of b v) ≡ width b) refl refl refl bits

-- The patterns of the values of 24 bits.
narrow : (v : ℤ) → Fits 0x800000 v → Fits 0x80000000 v
narrow (pos n) h = omega arith
narrow (negsuc n) h = omega arith

narrow-of_int :
    (v : ℤ)
    → Fits 0x800000 v
    → let p = of_int 0x80000000 v in (p < 2 ^ 23) ⊎ ((2 ^ 32 - 2 ^ 23 ≤ p) × (p < 2 ^ 32))
narrow-of_int (pos n) h = inl (omega arith)
narrow-of_int (negsuc n) h = inr (omega arith, omega arith)

two_bytes : (x : ℕ) → x < 65536 → x % 256 + x / 256 % 256 * 256 ≡ x
two_bytes x h = omega arith

four_bytes :
    (x : ℕ)
    → x < 4294967296
    → x % 256
        + x / 256 % 256 * 256
        + x / 256 / 256 % 256 * 65536
        + x / 256 / 256 / 256 % 256 * 16777216
      ≡ x
four_bytes x h = omega arith

of_int_small : (half : ℕ) (v : ℤ) → 0 < half → of_int half v < 2 * half
of_int_small half (pos n) h = mod-lt n (omega arith)
of_int_small half (negsuc n) h = omega arith

-- A value in the range of the samples is read back as it was stored.
pub signed-bytes_of :
    (bits : ℕ) (v : ℤ) (tail : List ℕ)
    → IsDepth bits
    → Fits (half bits) v
    → signed bits (bytes_of bits v ++ tail) ≡ v
unfolding signed bytes_of
signed-bytes_of bits v tail depth =
    on_depth (λ b. Fits (half b) v → signed b (bytes_of b v ++ tail) ≡ v)
      (λ h.
        ap (to_int 0x8000) (two_bytes (of_int 0x8000 v) (of_int_small 0x8000 v (omega arith)))
        ∙ to_int-of_int 0x8000 v h)
      (λ h.
        ap (to_int 0x80000000) (unpack24-pack24 (of_int 0x80000000 v) (narrow-of_int v h))
        ∙ to_int-of_int 0x80000000 v (narrow v h))
      (λ h.
        ap (to_int 0x80000000)
          (four_bytes (of_int 0x80000000 v) (of_int_small 0x80000000 v (omega arith)))
        ∙ to_int-of_int 0x80000000 v h)
      bits depth

-- An array of `count` samples as values, and the bytes of values in a row.
unfoldable pub values : ℕ → ℕ → List ℕ → List ℤ
values bits zero src = []
values bits (suc count) src = signed bits src ∷ values bits count (drop (width bits) src)

unfoldable pub encode : ℕ → List ℤ → List ℕ
encode bits [] = []
encode bits (v ∷ vs) = bytes_of bits v ++ encode bits vs

abbrev pub AllFit : ℕ → List ℤ → Type 0
AllFit half [] = Unit
AllFit half (v ∷ vs) = Fits half v × AllFit half vs

pub length-encode :
    (bits : ℕ) (vs : List ℤ) → IsDepth bits → length (encode bits vs) ≡ length vs * width bits
unfolding encode
length-encode bits [] depth = omega arith
length-encode bits (v ∷ vs) depth =
    length-append (bytes_of bits v) (encode bits vs)
    ∙ omega (arith, length-bytes_of bits v depth, length-encode bits vs depth)

pub values-encode :
    (bits : ℕ) (vs : List ℤ) (tail : List ℕ)
    → IsDepth bits
    → AllFit (half bits) vs
    → values bits (length vs) (encode bits vs ++ tail) ≡ vs
unfolding values encode
values-encode bits [] tail depth fit = refl
values-encode bits (v ∷ vs) tail depth (h, fit) =
    let rest : List ℕ = encode bits vs ++ tail in
    let behind : drop (width bits) (bytes_of bits v ++ rest) ≡ rest =
      drop-append_exact (bytes_of bits v) rest (width bits) (length-bytes_of bits v depth) in
    ap (values bits (suc (length vs))) (append_assoc (bytes_of bits v) (encode bits vs) tail)
    ∙ ap₂ ◌∷◌ (signed-bytes_of bits v rest depth h)
        (ap (values bits (length vs)) behind ∙ values-encode bits vs tail depth fit)

pub length-values : (bits n : ℕ) (src : List ℕ) → length (values bits n src) ≡ n
unfolding values
length-values bits zero src = refl
length-values bits (suc n) src = ap suc (length-values bits n (drop (width bits) src))

pub half_pos : (bits : ℕ) → 0 < half bits
half_pos bits = ground arith

-- An array starts with `n` samples, whose values are those.
abbrev pub HoldsValues : ℕ → ℕ → List ℕ → List ℤ → Type 0
HoldsValues bits n array vs = (values bits n array ≡ vs) × (n * width bits ≤ length array)

pub encode-HoldsValues :
    (bits n : ℕ) (vs : List ℤ) (tail : List ℕ)
    → IsDepth bits
    → AllFit (half bits) vs
    → length vs ≡ n
    → HoldsValues bits n (encode bits vs ++ tail) vs
encode-HoldsValues bits n vs tail depth fit count = (
  ap (λ t. values bits t (encode bits vs ++ tail)) (sym count)
      ∙ values-encode bits vs tail depth fit,
  omega (
    arith,
    length-append (encode bits vs) tail,
    length-encode bits vs depth,
    ap (λ t. t * width bits) count,
  ),
)
