-- ===== src/Pipeline/Chunk/Left.antt =====
-- The downmix of a chunk of two channels, in signed samples.
use mathlib.Core.Path.{ap₂}
use ws_audiod.Base.{
  ℕ, zero, suc, ◌*◌, ◌≤◌, ◌≡◌, refl, sym, ap, ◌∙◌, List, ◌∷◌, ◌++◌, arith, length, take, drop,
  length-append, length-take, length-drop, drop-add, drop-append_left, take-append-drop, drop-take,
}
use ws_audiod.Pcm.{width, signed}
use ws_audiod.Pcm.Sample.{IsDepth, values}
use ws_audiod.Pcm.Arrays.{signed-append, values-append}
use ws_audiod.Pipeline.{apply_downmix}
use ws_audiod.Pipeline.Downmix.{lefts, evens, length-lefts, one_loop, whole_loop}

values-lefts :
    (bits n : ℕ) (src : List ℕ)
    → n * (2 * width bits) ≤ length src
    → values bits n (lefts (width bits) n src) ≡ evens (values bits (2 * n) src)
unfolding lefts evens values
values-lefts bits zero src h = refl
values-lefts bits (suc n) src h =
    let w : ℕ = width bits in
    let others : List ℕ = lefts w n (drop (2 * w) src) in
    let enough : w ≤ length (take w src) = omega (arith, length-take w src) in
    let first : signed bits (take w src ++ others) ≡ signed bits src =
      signed-append bits (take w src) others enough
      ∙ sym (signed-append bits (take w src) (drop w src) enough)
      ∙ ap (signed bits) (take-append-drop w src) in
    let behind : drop w (take w src ++ others) ≡ others =
      drop-append_left w (take w src) others enough
      ∙ ap (λ t. t ++ others) (drop-take w 0 w src (omega arith)) in
    let two : 2 * suc n ≡ suc (suc (2 * n)) = omega arith in
    let skip : drop (2 * w) src ≡ drop w (drop w src) = drop-add w w (2 * w) src (omega arith) in
    let rest =
      ap (values bits n) behind
      ∙ values-lefts bits n (drop (2 * w) src) (omega (arith, length-drop (2 * w) src))
      ∙ ap (λ t. evens (values bits (2 * n) t)) skip in
    rw two (ap₂ ◌∷◌ first rest)

pub values-downmix :
    (src dst : List ℕ) (n bits : ℕ)
    → IsDepth bits
    → n * (2 * width bits) ≤ length src
    → n * width bits ≤ length dst
    → let out = apply_downmix src dst n bits in
      (values bits n out ≡ evens (values bits (2 * n) src)) × (length out ≡ length dst)
values-downmix src dst n bits depth have room =
    let w : ℕ = width bits in
    let size = length-lefts w n src have in
    let whole = one_loop src dst n bits depth ∙ whole_loop src dst n w have room in
    (
      ap (values bits n) whole
          ∙ values-append bits n (lefts w n src) (drop (n * w) dst) (omega (arith, size))
          ∙ values-lefts bits n src have,
      ap length whole
          ∙ length-append (lefts w n src) (drop (n * w) dst)
          ∙ omega (arith, size, length-drop (n * w) dst),
    )
