-- ===== src/Pipeline/Downmix.antt =====
-- The downmix keeps the samples of the left channel.
use mathlib.Core.Path.{ap₂}
use mathlib.Core.List.{append_assoc}
use ws_audiod.Base.{
  ℕ, zero, suc, ◌+◌, ◌*◌, ◌≤◌, ◌≡◌, ◌⊎◌, inl, inr, refl, sym, ap, ◌∙◌, List, [], ◌∷◌, ◌++◌, arith,
  length, take, drop, memcpy-append, length-append, length-take, length-drop, drop-add,
  take-append-drop, drop-append_left, drop-take, subst,
}
use ws_audiod.Pcm.{width, sample, unpack}
use ws_audiod.Pcm.Unpack.{unpack-append, sample-append}
use ws_audiod.Pipeline.{downmix_loop, apply_downmix}

-- The bytes of the left samples of `n` frames.
unfoldable pub lefts : ℕ → ℕ → List ℕ → List ℕ
lefts bps zero src = []
lefts bps (suc n) src = take bps src ++ lefts bps n (drop (2 * bps) src)

-- Every second element, the first one included.
unfoldable pub evens {ℓ} : {A : Type ℓ} → List A → List A
evens [] = []
evens (x ∷ []) = x ∷ []
evens (x ∷ (y ∷ xs)) = x ∷ evens xs

loop_lem :
    (left bps : ℕ) (src done rest : List ℕ) (f : ℕ)
    → length done ≡ f * bps
    → left * bps ≤ length rest
    → (f + left) * (2 * bps) ≤ length src
    → downmix_loop left bps src (done ++ rest) f
      ≡ done ++ (lefts bps left (drop (f * (2 * bps)) src) ++ drop (left * bps) rest)
unfolding downmix_loop lefts
loop_lem zero bps src done rest f e room have = let z : 0 * bps ≡ 0 = omega arith in rw z refl
loop_lem (suc left) bps src done rest f e room have =
    let here : List ℕ = drop (f * (2 * bps)) src in
    let stored =
      memcpy-append done rest (f * bps) here bps (sym e)
        (omega (arith, length-drop (f * (2 * bps)) src)) (omega arith) in
    let size : length (done ++ take bps here) ≡ suc f * bps = omega (
      arith,
      length-append done (take bps here),
      length-take bps here,
      length-drop (f * (2 * bps)) src,
    ) in
    ap (λ t. downmix_loop left bps src t (suc f))
      (stored ∙ sym (append_assoc done (take bps here) (drop bps rest)))
    ∙ loop_lem left bps src (done ++ take bps here) (drop bps rest) (suc f) size
        (omega (arith, length-drop bps rest)) (omega arith)
    ∙ append_assoc done (take bps here)
        (lefts bps left (drop (suc f * (2 * bps)) src) ++ drop (left * bps) (drop bps rest))
    ∙ ap (◌++◌ done) (
        sym (
          append_assoc (take bps here) (lefts bps left (drop (suc f * (2 * bps)) src))
            (drop (left * bps) (drop bps rest)))
        ∙ ap₂ (λ s t. (take bps here ++ lefts bps left s) ++ t)
            (drop-add (f * (2 * bps)) (2 * bps) (suc f * (2 * bps)) src (omega arith))
            (sym (drop-add bps (left * bps) (suc left * bps) rest (omega arith))))

drop_all : (n : ℕ) (xs : List ℕ) → length xs ≤ n → drop n xs ≡ []
drop_all zero [] h = refl
drop_all zero (x ∷ xs) h = absurd (omega arith)
drop_all (suc n) [] h = refl
drop_all (suc n) (x ∷ xs) h = drop_all n xs (omega arith)

pub length-lefts :
    (bps n : ℕ) (src : List ℕ) → n * (2 * bps) ≤ length src → length (lefts bps n src) ≡ n * bps
unfolding lefts
length-lefts bps zero src h = omega arith
length-lefts bps (suc n) src h =
    length-append (take bps src) (lefts bps n (drop (2 * bps) src))
    ∙ omega (
      arith,
      length-take bps src,
      length-lefts bps n (drop (2 * bps) src) (omega (arith, length-drop (2 * bps) src)),
    )

-- Samples of the left channel are every second sample.
lefts_lem :
    (bits n : ℕ) (src : List ℕ)
    → n * (2 * width bits) ≤ length src
    → unpack bits n (lefts (width bits) n src) ≡ evens (unpack bits (2 * n) src)
unfolding lefts evens unpack
lefts_lem bits zero src h = refl
lefts_lem bits (suc n) src h =
    let w : ℕ = width bits in
    let others : List ℕ = lefts w n (drop (2 * w) src) in
    let enough : w ≤ length (take w src) = omega (arith, length-take w src) in
    let first : sample bits (take w src ++ others) ≡ sample bits src =
      sample-append bits (take w src) others enough
      ∙ sym (sample-append bits (take w src) (drop w src) enough)
      ∙ ap (sample bits) (take-append-drop w src) in
    let behind : drop w (take w src ++ others) ≡ others =
      drop-append_left w (take w src) others enough
      ∙ ap (λ t. t ++ others) (drop-take w 0 w src (omega arith)) in
    let two : 2 * suc n ≡ suc (suc (2 * n)) = omega arith in
    let skip : drop (2 * w) src ≡ drop w (drop w src) = drop-add w w (2 * w) src (omega arith) in
    let rest =
      ap (unpack bits n) behind
      ∙ lefts_lem bits n (drop (2 * w) src) (omega (arith, length-drop (2 * w) src))
      ∙ ap (λ t. evens (unpack bits (2 * n) t)) skip in
    rw two (ap₂ ◌∷◌ first rest)

pub whole_loop :
    (src dst : List ℕ) (n w : ℕ)
    → n * (2 * w) ≤ length src
    → n * w ≤ length dst
    → downmix_loop n w src dst 0 ≡ lefts w n src ++ drop (n * w) dst
whole_loop src dst n w have room =
    let z : 0 * (2 * w) ≡ 0 = omega arith in
    loop_lem n w src [] dst 0 (omega arith) room (omega arith)
    ∙ ap (λ t. lefts w n (drop t src) ++ drop (n * w) dst) z

pub one_loop :
    (src dst : List ℕ) (n bits : ℕ)
    → (bits ≡ 16) ⊎ ((bits ≡ 24) ⊎ (bits ≡ 32))
    → apply_downmix src dst n bits ≡ downmix_loop n (width bits) src dst 0
unfolding apply_downmix
one_loop src dst n bits (inl e) =
    subst (λ b. apply_downmix src dst n b ≡ downmix_loop n (width b) src dst 0) (sym e) refl
one_loop src dst n bits (inr (inl e)) =
    subst (λ b. apply_downmix src dst n b ≡ downmix_loop n (width b) src dst 0) (sym e) refl
one_loop src dst n bits (inr (inr e)) =
    subst (λ b. apply_downmix src dst n b ≡ downmix_loop n (width b) src dst 0) (sym e) refl

-- For 16, 24 and 32 bits, the output of a stereo chunk holds one sample for each frame, that of the
-- left channel, and is unchanged behind them.
pub apply_downmix_lem :
    (src dst : List ℕ) (frame_count bits : ℕ)
    → (bits ≡ 16) ⊎ ((bits ≡ 24) ⊎ (bits ≡ 32))
    → frame_count * (2 * width bits) ≤ length src
    → frame_count * width bits ≤ length dst
    → let out = apply_downmix src dst frame_count bits in
      (unpack bits frame_count out ≡ evens (unpack bits (2 * frame_count) src))
      × (drop (frame_count * width bits) out ≡ drop (frame_count * width bits) dst)
apply_downmix_lem src dst n bits depth have room =
    let w : ℕ = width bits in
    let size = length-lefts w n src have in
    let whole = one_loop src dst n bits depth ∙ whole_loop src dst n w have room in
    (
      ap (unpack bits n) whole
          ∙ unpack-append bits n (lefts w n src) (drop (n * w) dst) (omega (arith, size))
          ∙ lefts_lem bits n src have,
      ap (drop (n * w)) whole
          ∙ drop-append_left (n * w) (lefts w n src) (drop (n * w) dst) (omega (arith, size))
          ∙ ap (λ t. t ++ drop (n * w) dst)
              (drop_all (n * w) (lefts w n src) (omega (arith, size))),
    )
