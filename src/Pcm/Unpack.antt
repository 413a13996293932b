-- ===== src/Pcm/Unpack.antt =====
-- Arrays of samples: reading on, and reading no further than the array goes.
use ws_audiod.Base.{
  ℕ, zero, suc, ◌+◌, ◌*◌, ◌≤◌, ◌≡◌, refl, sym, ap, ◌∙◌, List, [], ◌∷◌, ◌++◌, arith, length, drop,
  length-drop, drop-add, get_or-append_left,
}
use ws_audiod.Base.{drop-append_left, take, length-take, take-append-drop}
use ws_audiod.Pcm.{width, sample, unpack}

pub width_pos : (bits : ℕ) → 2 ≤ width bits
width_pos bits = ground arith

-- A sample is read from its own bytes.
pub sample-append :
    (bits : ℕ) (xs ys : List ℕ) → width bits ≤ length xs → sample bits (xs ++ ys) ≡ sample bits xs
unfolding sample
sample-append bits xs ys h = ground (
  arith,
  get_or-append_left xs ys 0 0,
  get_or-append_left xs ys 1 0,
  get_or-append_left xs ys 2 0,
  get_or-append_left xs ys 3 0,
)

pub length-unpack : (bits count : ℕ) (src : List ℕ) → length (unpack bits count src) ≡ count
unfolding unpack
length-unpack bits zero src = refl
length-unpack bits (suc count) src = ap suc (length-unpack bits count (drop (width bits) src))

pub unpack-append :
    (bits count : ℕ) (xs ys : List ℕ)
    → count * width bits ≤ length xs
    → unpack bits count (xs ++ ys) ≡ unpack bits count xs
unfolding unpack
unpack-append bits zero xs ys h = refl
unpack-append bits (suc count) xs ys h =
    rw (sample-append bits xs ys (omega arith), drop-append_left (width bits) xs ys (omega arith))
      (ap (◌∷◌ (sample bits xs)) (
        unpack-append bits count (drop (width bits) xs) ys
          (omega (arith, length-drop (width bits) xs))))

-- Reading `m` samples and then `n` more.
pub unpack-add :
    (bits m n k : ℕ) (src : List ℕ)
    → k ≡ m + n
    → unpack bits k src ≡ unpack bits m src ++ unpack bits n (drop (m * width bits) src)
unfolding unpack
unpack-add bits zero n k src e =
    let z : 0 * width bits ≡ 0 = omega arith in let e' : k ≡ n = omega arith in rw (z, e')
unpack-add bits (suc m) n zero src e = absurd (omega arith)
unpack-add bits (suc m) n (suc k) src e = ap (◌∷◌ (sample bits src)) (
    unpack-add bits m n k (drop (width bits) src) (omega arith)
    ∙ ap (λ t. unpack bits m (drop (width bits) src) ++ unpack bits n t)
        (sym (drop-add (width bits) (m * width bits) (suc m * width bits) src (omega arith))))

pub unpack_zero : (bits : ℕ) (src : List ℕ) → unpack bits 0 src ≡ []
unfolding unpack
unpack_zero bits src = refl

-- The samples of a part of a stream, read from a buffer that begins with it.
pub unpack-take :
    (bits count u : ℕ) (xs ys : List ℕ)
    → count * width bits ≤ u
    → u ≤ length xs
    → unpack bits count (take u xs ++ ys) ≡ unpack bits count xs
unpack-take bits count u xs ys enough inside =
    let have : count * width bits ≤ length (take u xs) = omega (arith, length-take u xs) in
    unpack-append bits count (take u xs) ys have
    ∙ sym (unpack-append bits count (take u xs) (drop u xs) have)
    ∙ ap (unpack bits count) (take-append-drop u xs)

pub unpack_none : (bits n : ℕ) (src : List ℕ) → unpack bits (0 * n) src ≡ []
unpack_none bits n src =
    let z : 0 * n ≡ 0 = omega arith in ap (λ t. unpack bits t src) z ∙ unpack_zero bits src
