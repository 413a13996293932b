-- ===== src/Pcm/Arrays.antt =====
-- Arrays of signed samples: reading no further than the samples go.
use ws_audiod.Base.{
  ℕ, zero, suc, ◌*◌, ◌≤◌, ◌≡◌, refl, sym, ap, ◌∙◌, List, ◌∷◌, ◌++◌, arith, length, take, drop,
  length-drop, length-take, get_or-append_left, drop-append_left, take-append-drop,
}
use mathlib.Core.Path.{ap₂}
use ws_audiod.Pcm.{width, signed}
use ws_audiod.Pcm.Sample.{values}

pub signed-append :
    (bits : ℕ) (xs ys : List ℕ) → width bits ≤ length xs → signed bits (xs ++ ys) ≡ signed bits xs
unfolding signed
signed-append bits xs ys h = ground (
  arith,
  get_or-append_left xs ys 0 0,
  get_or-append_left xs ys 1 0,
  get_or-append_left xs ys 2 0,
  get_or-append_left xs ys 3 0,
)

pub values-append :
    (bits n : ℕ) (xs ys : List ℕ)
    → n * width bits ≤ length xs
    → values bits n (xs ++ ys) ≡ values bits n xs
unfolding values
values-append bits zero xs ys h = refl
values-append bits (suc n) xs ys h =
    let w : ℕ = width bits in
    ap₂ ◌∷◌ (signed-append bits xs ys (omega arith)) (
      ap (values bits n) (drop-append_left w xs ys (omega arith))
      ∙ values-append bits n (drop w xs) ys (omega (arith, length-drop w xs)))

pub values-take :
    (bits n k : ℕ) (xs : List ℕ)
    → n * width bits ≤ k
    → n * width bits ≤ length xs
    → values bits n (take k xs) ≡ values bits n xs
values-take bits n k xs h h' =
    sym (values-append bits n (take k xs) (drop k xs) (omega (arith, length-take k xs)))
    ∙ ap (values bits n) (take-append-drop k xs)
