-- ===== src/Pipeline/Gain/Saturates.antt =====
-- What the gain makes of an array of samples.
use mathlib.Core.Path.{ap₂}
use mathlib.Core.List.{append_assoc}
use ws_audiod.Base.{
  ℕ, zero, suc, ◌*◌, ◌≤◌, ◌≡◌, refl, sym, ap, subst, ◌∙◌, List, [], ◌∷◌, ◌++◌, arith, length, drop,
  map, memcpy, memcpy-append, length-append, length-drop, drop-add, take_all, drop-append_exact,
  length-map, ℤ, saturate, saturate-Fits, Floating,
}
use ws_audiod.Pcm.{width, signed, bytes_of, half, cast_half}
use ws_audiod.Pcm.Sample.{
  IsDepth, on_depth, values, encode, AllFit, length-encode, values-encode, length-bytes_of,
  length-values, half_pos,
}
use ws_audiod.Pipeline.Gain.{gain_sample, gain_loop, apply_gain}

-- A sample is stored behind those that are done.
pub store_sample :
    (done rest : List ℕ) (bits : ℕ) (v : ℤ) (at : ℕ)
    → IsDepth bits
    → at ≡ length done
    → width bits ≤ length rest
    → memcpy (done ++ rest) at (bytes_of bits v) (width bits)
      ≡ (done ++ bytes_of bits v) ++ drop (width bits) rest
store_sample done rest bits v at depth e room =
    let size = length-bytes_of bits v depth in
    memcpy-append done rest at (bytes_of bits v) (width bits) e (omega (arith, size)) room
    ∙ ap (λ t. done ++ (t ++ drop (width bits) rest))
        (take_all (width bits) (bytes_of bits v) (omega (arith, size)))
    ∙ sym (append_assoc done (bytes_of bits v) (drop (width bits) rest))

module _ (m : Floating) where
  pub loop_lem :
      (left bits : ℕ) (src done rest : List ℕ) (gain : m.float) (i : ℕ)
      → IsDepth bits
      → length done ≡ i * width bits
      → left * width bits ≤ length rest
      → gain_loop m left bits src (done ++ rest) gain i
        ≡ done
          ++ (encode bits
                (map (gain_sample m bits gain) (values bits left (drop (i * width bits) src)))
              ++ drop (left * width bits) rest)
  unfolding gain_loop values encode
  loop_lem zero bits src done rest gain i depth e room =
      let z : 0 * width bits ≡ 0 = omega arith in rw z refl
  loop_lem (suc left) bits src done rest gain i depth e room =
      let w : ℕ = width bits in
      let here : List ℕ = drop (i * w) src in
      let bytes : List ℕ = bytes_of bits (gain_sample m bits gain (signed bits here)) in
      let others : List ℕ =
        encode bits (map (gain_sample m bits gain) (values bits left (drop (suc i * w) src))) in
      let size : length (done ++ bytes) ≡ suc i * w = omega (
        arith,
        length-append done bytes,
        length-bytes_of bits (gain_sample m bits gain (signed bits here)) depth,
      ) in
      ap (λ t. gain_loop m left bits src t gain (suc i))
        (store_sample done rest bits (gain_sample m bits gain (signed bits here)) (i * w) depth
          (sym e) (omega arith))
      ∙ loop_lem left bits src (done ++ bytes) (drop w rest) gain (suc i) depth size
          (omega (arith, length-drop w rest))
      ∙ append_assoc done bytes (others ++ drop (left * w) (drop w rest))
      ∙ ap (◌++◌ done) (
          sym (append_assoc bytes others (drop (left * w) (drop w rest)))
          ∙ ap₂
              (λ s t.
                (bytes ++ encode bits (map (gain_sample m bits gain) (values bits left s))) ++ t)
              (drop-add (i * w) w (suc i * w) src (omega arith))
              (sym (drop-add w (left * w) (suc left * w) rest (omega arith))))

  pub map-AllFit :
      (bits : ℕ) (gain : m.float) (vs : List ℤ)
      → IsDepth bits
      → AllFit (half bits) (map (gain_sample m bits gain) vs)
  unfolding gain_sample
  map-AllFit bits gain [] depth = tt
  map-AllFit bits gain (v ∷ vs) depth = (
    saturate-Fits (half bits) (m.cast (cast_half bits) (m.mul_f (m.of_int v) gain)) (half_pos bits),
    map-AllFit bits gain vs depth,
  )

  pub one_loop :
      (src dst : List ℕ) (n bits : ℕ) (gain : m.float)
      → IsDepth bits
      → apply_gain m src dst n bits gain ≡ gain_loop m n bits src dst gain 0
  unfolding apply_gain
  one_loop src dst n bits gain =
      on_depth (λ b. apply_gain m src dst n b gain ≡ gain_loop m n b src dst gain 0) refl refl refl
        bits

  -- The samples that are stored, and the bytes behind them.
  pub apply_gain_bytes :
      (src dst : List ℕ) (n bits : ℕ) (gain : m.float)
      → IsDepth bits
      → n * width bits ≤ length dst
      → apply_gain m src dst n bits gain
        ≡ encode bits (map (gain_sample m bits gain) (values bits n src))
          ++ drop (n * width bits) dst
  apply_gain_bytes src dst n bits gain depth room =
      let z : 0 * width bits ≡ 0 = omega arith in
      one_loop src dst n bits gain depth
      ∙ loop_lem n bits src [] dst gain 0 depth (omega arith) room
      ∙ ap
          (λ t.
            encode bits (map (gain_sample m bits gain) (values bits n (drop t src)))
            ++ drop (n * width bits) dst)
          z

  pub length-scaled :
      (src : List ℕ) (n bits : ℕ) (gain : m.float)
      → length (map (gain_sample m bits gain) (values bits n src)) ≡ n
  length-scaled src n bits gain =
      length-map (gain_sample m bits gain) (values bits n src) ∙ length-values bits n src

  -- The product of a sample and the gain without its fraction; and that clamped.
  abbrev pub product : m.float → ℤ → ℤ
  product gain v = m.trunc (m.mul_f (m.of_int v) gain)

  abbrev pub scaled_to : ℕ → m.float → ℤ → ℤ
  scaled_to bits gain v = saturate (half bits) (product gain v)

  in_range_lem :
      (bits : ℕ) (gain : m.float) (vs : List ℤ)
      → AllFit (cast_half bits) (map (product gain) vs)
      → map (gain_sample m bits gain) vs ≡ map (scaled_to bits gain) vs
  unfolding gain_sample
  in_range_lem bits gain [] h = refl
  in_range_lem bits gain (v ∷ vs) h =
      ap₂ (λ a b. saturate (half bits) a ∷ b)
        (m.cast_same (cast_half bits) (m.mul_f (m.of_int v) gain) (h.0))
        (in_range_lem bits gain vs h.1)

  -- For 16, 24 and 32 bits, every sample of the output is that of the input times the gain, without its
  -- fraction and clamped to the range of the samples, if the products are in the range of the type
  -- that they are converted to, `int32_t` or for 32 bits `int64_t`; the bytes behind the samples are
  -- unchanged.
  pub apply_gain_lem :
      (src dst : List ℕ) (sample_count bits : ℕ) (gain : m.float)
      → IsDepth bits
      → sample_count * width bits ≤ length dst
      → AllFit (cast_half bits) (map (product gain) (values bits sample_count src))
      → let out = apply_gain m src dst sample_count bits gain in
        (values bits sample_count out ≡ map (scaled_to bits gain) (values bits sample_count src))
        × (drop (sample_count * width bits) out ≡ drop (sample_count * width bits) dst)
        × AllFit (half bits) (values bits sample_count out)
  apply_gain_lem src dst n bits gain depth room fits =
      let w : ℕ = width bits in
      let scaled : List ℤ = map (gain_sample m bits gain) (values bits n src) in
      let count = length-scaled src n bits gain in
      let fit = map-AllFit bits gain (values bits n src) depth in
      let whole = apply_gain_bytes src dst n bits gain depth room in
      let read : values bits n (apply_gain m src dst n bits gain) ≡ scaled =
        ap (values bits n) whole
        ∙ ap (λ t. values bits t (encode bits scaled ++ drop (n * w) dst)) (sym count)
        ∙ values-encode bits scaled (drop (n * w) dst) depth fit in
      (
        read ∙ in_range_lem bits gain (values bits n src) fits,
        ap (drop (n * w)) whole
            ∙ drop-append_exact (encode bits scaled) (drop (n * w) dst) (n * w)
                (length-encode bits scaled depth ∙ ap (λ t. t * w) count),
        subst (AllFit (half bits)) (sym read) fit,
      )
