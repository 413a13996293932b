-- ===== src/Pipeline/Dc/Loop.antt =====
-- The two loops of the filter are one run over the samples.
use mathlib.Core.Path.{ap₂}
use mathlib.Core.List.{append_assoc}
use ws_audiod.Base.{length-set_at}
use ws_audiod.Base.{
  ℕ, zero, suc, ◌+◌, ◌*◌, ◌≤◌, ◌<◌, ◌≡◌, refl, sym, ap, ◌∙◌, List, [], ◌∷◌, ◌++◌, arith, length,
  drop, get_or, set_at, length-append, length-drop, drop-add, drop-append_exact, ◌==◌,
  if◌then◌else◌, ℤ, saturate-Fits, Floating,
}
use ws_audiod.Pcm.{width, signed, bytes_of, half, cast_half}
use ws_audiod.Pcm.Sample.{IsDepth, values, encode, AllFit, half_pos, length-bytes_of}
use ws_audiod.Pipeline.Gain.Saturates.{store_sample}
use ws_audiod.Pipeline.Dc.{Dc, dc_output, dc_step, dc_sample, dc_channels, dc_frames}

-- The channel of the sample behind one of channel `ch`.
abbrev pub next : ℕ → ℕ → ℕ
next channels ch = if suc ch == channels then 0 else suc ch

module _ (m : Floating) where
  abbrev pub output_at : List m.float → List m.float → ℕ → ℤ → m.float
  output_at xs ys ch v = dc_step m (m.of_int v) (get_or xs ch m.zero_f) (get_or ys ch m.zero_f)

  -- The run over a list of values: the outputs, and the last inputs and outputs.
  unfoldable pub outs : ℕ → ℕ → ℕ → List m.float → List m.float → List ℤ → List ℤ
  outs bits channels ch xs ys [] = []
  outs bits channels ch xs ys (v ∷ vs) =
      let y = output_at xs ys ch v in
      dc_output m bits y
      ∷ outs bits channels (next channels ch) (set_at xs ch (m.of_int v)) (set_at ys ch y) vs

  unfoldable pub last_x : ℕ → ℕ → List m.float → List ℤ → List m.float
  last_x channels ch xs [] = xs
  last_x channels ch xs (v ∷ vs) = last_x channels (next channels ch) (set_at xs ch (m.of_int v)) vs

  unfoldable pub last_y : ℕ → ℕ → List m.float → List m.float → List ℤ → List m.float
  last_y channels ch xs ys [] = ys
  last_y channels ch xs ys (v ∷ vs) =
      last_y channels (next channels ch) (set_at xs ch (m.of_int v))
        (set_at ys ch (output_at xs ys ch v)) vs

  -- One loop over `n` samples from sample `k` on.
  pub steps : ℕ → ℕ → ℕ → ℕ → ℕ → Dc m → Dc m
  steps zero bits channels k ch s = s
  steps (suc n) bits channels k ch s =
      steps n bits channels (suc k) (next channels ch) (dc_sample m bits k ch s)

  next_last : (channels ch : ℕ) → suc ch ≡ channels → next channels ch ≡ 0
  next_last channels ch e = ground arith

  next_inside : (channels ch : ℕ) → suc ch < channels → next channels ch ≡ suc ch
  next_inside channels ch h = ground arith

  steps-channels :
      (left n bits channels f ch : ℕ) (s : Dc m)
      → ch + suc left ≡ channels
      → steps (suc left + n) bits channels (f * channels + ch) ch s
        ≡ steps n bits channels (suc f * channels) 0 (dc_channels m (suc left) bits channels f ch s)
  unfolding steps dc_channels
  steps-channels zero n bits channels f ch s e =
      let one : 1 + n ≡ suc n = omega arith in
      rw one (
        ap₂ (λ k c. steps n bits channels k c (dc_sample m bits (f * channels + ch) ch s))
          (omega arith) (next_last channels ch (omega arith)))
  steps-channels (suc left) n bits channels f ch s e =
      let s' : Dc m = dc_sample m bits (f * channels + ch) ch s in
      let more : suc (suc left) + n ≡ suc (suc left + n) = omega arith in
      rw more (
        ap₂ (λ k c. steps (suc left + n) bits channels k c s') (omega arith)
          (next_inside channels ch (omega arith))
        ∙ steps-channels left n bits channels f (suc ch) s' (omega arith))

  pub steps-frames :
      (left bits channels f : ℕ) (s : Dc m)
      → 0 < channels
      → dc_frames m left bits channels f s
        ≡ steps (left * channels) bits channels (f * channels) 0 s
  unfolding dc_frames steps
  steps-frames zero bits channels f s some_channels =
      let z : 0 * channels ≡ 0 = omega arith in rw z refl
  steps-frames (suc left) bits channels f s some_channels =
      elim channels
          as (λ c.
            0 < c
            → dc_frames m left bits c (suc f) (dc_channels m c bits c f 0 s)
              ≡ steps (suc left * c) bits c (f * c) 0 s) [
                | zero ↦ λ h. absurd (omega arith)
                | suc c ↦ λ h.
                    let n_eq : suc c + left * suc c ≡ suc left * suc c = omega arith in
                    let k_eq : f * suc c + 0 ≡ f * suc c = omega arith in
                    steps-frames left bits (suc c) (suc f)
                      (dc_channels m (suc c) bits (suc c) f 0 s) h
                    ∙ sym (steps-channels c (left * suc c) bits (suc c) f 0 s (omega arith))
                    ∙ ap₂ (λ n k. steps n bits (suc c) k 0 s) n_eq k_eq
              ]
        some_channels

  -- The samples that the loop ends with, behind those that are done.
  pub steps_lem :
      (n bits channels k ch : ℕ) (done rest : List ℕ) (xs ys : List m.float)
      → IsDepth bits
      → length done ≡ k * width bits
      → n * width bits ≤ length rest
      → let vs = values bits n rest in
        steps n bits channels k ch (record { samples = done ++ rest; prev_x = xs; prev_y = ys })
        ≡ record {
          samples =
              done ++ (encode bits (outs bits channels ch xs ys vs) ++ drop (n * width bits) rest);
          prev_x = last_x channels ch xs vs;
          prev_y = last_y channels ch xs ys vs;
        }
  unfolding steps dc_sample outs last_x last_y values encode
  steps_lem zero bits channels k ch done rest xs ys depth e room =
      let z : 0 * width bits ≡ 0 = omega arith in rw z refl
  steps_lem (suc n) bits channels k ch done rest xs ys depth e room =
      let w : ℕ = width bits in
      let v : ℤ = signed bits rest in
      let xs' : List m.float = set_at xs ch (m.of_int v) in
      let y : m.float = output_at xs ys ch v in
      let ys' : List m.float = set_at ys ch y in
      let bytes : List ℕ = bytes_of bits (dc_output m bits y) in
      let vs : List ℤ = values bits n (drop w rest) in
      let others : List ℕ = encode bits (outs bits channels (next channels ch) xs' ys' vs) in
      let here : drop (k * w) (done ++ rest) ≡ rest = drop-append_exact done rest (k * w) e in
      let size : length (done ++ bytes) ≡ suc k * w =
        omega (arith, length-append done bytes, length-bytes_of bits (dc_output m bits y) depth) in
      let with_samples : List ℕ → Dc m = λ t. record {
        samples = t;
        prev_x = last_x channels (next channels ch) xs' vs;
        prev_y = last_y channels (next channels ch) xs' ys' vs;
      } in
      rw here (
        ap
          (λ t.
            steps n bits channels (suc k) (next channels ch)
              (record { samples = t; prev_x = xs'; prev_y = ys' }))
          (store_sample done rest bits (dc_output m bits y) (k * w) depth (sym e) (omega arith))
        ∙ steps_lem n bits channels (suc k) (next channels ch) (done ++ bytes) (drop w rest) xs' ys'
            depth size (omega (arith, length-drop w rest))
        ∙ ap with_samples (
            append_assoc done bytes (others ++ drop (n * w) (drop w rest))
            ∙ ap (◌++◌ done) (
                sym (append_assoc bytes others (drop (n * w) (drop w rest)))
                ∙ ap (λ t. (bytes ++ others) ++ t)
                    (sym (drop-add w (n * w) (suc n * w) rest (omega arith))))))

  pub outs-AllFit :
      (bits channels ch : ℕ) (xs ys : List m.float) (vs : List ℤ)
      → AllFit (half bits) (outs bits channels ch xs ys vs)
  unfolding outs dc_output
  outs-AllFit bits channels ch xs ys [] = tt
  outs-AllFit bits channels ch xs ys (v ∷ vs) =
      let y : m.float = output_at xs ys ch v in
      (
        saturate-Fits (half bits) (m.cast (cast_half bits) y) (half_pos bits),
        outs-AllFit bits channels (next channels ch) (set_at xs ch (m.of_int v)) (set_at ys ch y)
            vs,
      )

  pub length-outs :
      (bits channels ch : ℕ) (xs ys : List m.float) (vs : List ℤ)
      → length (outs bits channels ch xs ys vs) ≡ length vs
  unfolding outs
  length-outs bits channels ch xs ys [] = refl
  length-outs bits channels ch xs ys (v ∷ vs) =
      let y : m.float = output_at xs ys ch v in
      ap suc (
        length-outs bits channels (next channels ch) (set_at xs ch (m.of_int v)) (set_at ys ch y)
          vs)

  pub length-last_x :
      (channels ch : ℕ) (xs : List m.float) (vs : List ℤ)
      → length (last_x channels ch xs vs) ≡ length xs
  unfolding last_x
  length-last_x channels ch xs [] = refl
  length-last_x channels ch xs (v ∷ vs) =
      length-last_x channels (next channels ch) (set_at xs ch (m.of_int v)) vs
      ∙ length-set_at xs ch (m.of_int v)

  pub length-last_y :
      (channels ch : ℕ) (xs ys : List m.float) (vs : List ℤ)
      → length (last_y channels ch xs ys vs) ≡ length ys
  unfolding last_y
  length-last_y channels ch xs ys [] = refl
  length-last_y channels ch xs ys (v ∷ vs) =
      let y : m.float = output_at xs ys ch v in
      length-last_y channels (next channels ch) (set_at xs ch (m.of_int v)) (set_at ys ch y) vs
      ∙ length-set_at ys ch y
