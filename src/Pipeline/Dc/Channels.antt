-- ===== src/Pipeline/Dc/Channels.antt =====
-- The filter of one channel, and that every channel goes through its own.
use ws_audiod.Base.{length-append, length-drop}
use ws_audiod.Base.{
  ℕ, zero, suc, ◌+◌, ◌-◌, ◌*◌, ◌/◌, ◌≤◌, ◌<◌, ◌≡◌, ◌⊎◌, refl, sym, ap, subst, ◌∙◌, List, [], ◌∷◌,
  ◌++◌, arith, length, drop, get_or, set_at, length-set_at, get_or-set_at_same, get_or-set_at_other,
  drop-append_exact, ℤ, Floating,
}
use ws_audiod.Pcm.{width, half}
use ws_audiod.Pcm.Sample.{
  IsDepth, on_depth, values, encode, AllFit, length-encode, values-encode, length-values,
}
use ws_audiod.Pipeline.Dc.{Dc, dc_output, dc_step, dc_frames, apply_dc_remove}
use ws_audiod.Pipeline.Dc.Loop.{
  next, outs, last_x, last_y, output_at, steps, steps-frames, steps_lem, outs-AllFit, length-outs,
  length-last_x, length-last_y,
}

module _ {ℓ} {A : Type ℓ} where
  -- Every element of a channel, where `wait` elements of others stand before the next one.
  pub pick : ℕ → ℕ → List A → List A
  pick wait channels [] = []
  pick zero channels (v ∷ vs) = v ∷ pick (channels - 1) channels vs
  pick (suc wait) channels (v ∷ vs) = pick wait channels vs

next_small : (channels ch : ℕ) → ch < channels → next channels ch < channels
next_small channels ch h = ground arith

next_before :
    (channels c : ℕ)
    → c < channels
    → (next channels c + (channels - 1) ≡ c) ⊎ (next channels c + (channels - 1) ≡ c + channels)
next_before channels c h = ground arith

next_waits :
    (channels ch c wait : ℕ)
    → ch < channels
    → (ch + suc wait ≡ c) ⊎ (ch + suc wait ≡ c + channels)
    → c < channels
    → (next channels ch + wait ≡ c) ⊎ (next channels ch + wait ≡ c + channels)
next_waits channels ch c wait h e k = ground arith

module _ (m : Floating) where
  -- y[n] = x[n] - x[n-1] + alpha * y[n-1], from the last input and output on; and those it ends with.
  pub highpass : ℕ → m.float → m.float → List ℤ → List ℤ
  highpass bits px py [] = []
  highpass bits px py (v ∷ vs) =
      let y = dc_step m (m.of_int v) px py in dc_output m bits y ∷ highpass bits (m.of_int v) y vs

  pub end_x : m.float → List ℤ → m.float
  end_x px [] = px
  end_x px (v ∷ vs) = end_x (m.of_int v) vs

  pub end_y : m.float → m.float → List ℤ → m.float
  end_y px py [] = py
  end_y px py (v ∷ vs) = end_y (m.of_int v) (dc_step m (m.of_int v) px py) vs

  -- Channel `c` has its samples filtered, and its state moved on.
  abbrev pub Filters : ℕ → m.float → m.float → List ℤ → List ℤ → m.float → m.float → Type 0
  Filters bits px py vs os px' py' =
      (os ≡ highpass bits px py vs) × (px' ≡ end_x px vs) × (py' ≡ end_y px py vs)

  outs-Filters :
      (bits channels ch c wait : ℕ) (xs ys : List m.float) (vs : List ℤ)
      → ch < channels
      → c < channels
      → wait < channels
      → (ch + wait ≡ c) ⊎ (ch + wait ≡ c + channels)
      → length xs ≡ channels
      → length ys ≡ channels
      → let px = get_or xs c m.zero_f in
        let py = get_or ys c m.zero_f in
        Filters bits px py
          (pick wait channels vs)
          (pick wait channels (outs m bits channels ch xs ys vs))
          (get_or (last_x m channels ch xs vs) c m.zero_f)
          (get_or (last_y m channels ch xs ys vs) c m.zero_f)
  unfolding outs last_x last_y pick highpass end_x end_y
  outs-Filters bits channels ch c wait xs ys [] h k l e sx sy = (refl, refl, refl)
  outs-Filters bits channels ch c zero xs ys (v ∷ vs) h k l e sx sy =
      let same : ch ≡ c = omega arith in
      let x : m.float = m.of_int v in
      let y : m.float = output_at m xs ys c v in
      let rest : List ℤ =
        outs m bits channels (next channels c) (set_at xs c x) (set_at ys c y) vs in
      let fx : m.float =
        get_or (last_x m channels (next channels c) (set_at xs c x) vs) c m.zero_f in
      let fy : m.float =
        get_or (last_y m channels (next channels c) (set_at xs c x) (set_at ys c y) vs) c
          m.zero_f in
      let found : List ℤ = pick (channels - 1) channels rest in
      let given : List ℤ = pick (channels - 1) channels vs in
      let (e0, e1, e2) =
        subst (λ p. Filters bits p y given found fx fy)
          (get_or-set_at_same xs c x m.zero_f (omega arith))
          (subst (λ q. Filters bits (get_or (set_at xs c x) c m.zero_f) q given found fx fy)
            (get_or-set_at_same ys c y m.zero_f (omega arith))
            (outs-Filters bits channels (next channels c) c (channels - 1) (set_at xs c x)
              (set_at ys c y) vs (next_small channels c k) k (omega arith)
              (next_before channels c k) (length-set_at xs c x ∙ sx)
              (length-set_at ys c y ∙ sy))) in
      rw same (ap (◌∷◌ (dc_output m bits y)) e0, e1, e2)
  outs-Filters bits channels ch c (suc wait) xs ys (v ∷ vs) h k l e sx sy =
      let x : m.float = m.of_int v in
      let y : m.float = output_at m xs ys ch v in
      let other : (ch < c) ⊎ (c < ch) = omega arith in
      let os : List ℤ =
        outs m bits channels (next channels ch) (set_at xs ch x) (set_at ys ch y) vs in
      let fx : m.float =
        get_or (last_x m channels (next channels ch) (set_at xs ch x) vs) c m.zero_f in
      let fy : m.float =
        get_or (last_y m channels (next channels ch) (set_at xs ch x) (set_at ys ch y) vs) c
          m.zero_f in
      let found : List ℤ = pick wait channels os in
      let given : List ℤ = pick wait channels vs in
      subst (λ p. Filters bits p (get_or ys c m.zero_f) given found fx fy)
        (get_or-set_at_other xs ch c x m.zero_f other)
        (subst (λ q. Filters bits (get_or (set_at xs ch x) c m.zero_f) q given found fx fy)
          (get_or-set_at_other ys ch c y m.zero_f other)
          (outs-Filters bits channels (next channels ch) c wait (set_at xs ch x) (set_at ys ch y) vs
            (next_small channels ch h) k (omega arith) (next_waits channels ch c wait h e k)
            (length-set_at xs ch x ∙ sx) (length-set_at ys ch y ∙ sy)))

  one_run :
      (sample_count channels bits : ℕ) (s : Dc m)
      → IsDepth bits
      → apply_dc_remove m sample_count channels bits s
        ≡ dc_frames m (sample_count / channels) bits channels 0 s
  unfolding apply_dc_remove
  one_run n channels bits s =
      on_depth (λ b. apply_dc_remove m n channels b s ≡ dc_frames m (n / channels) b channels 0 s)
        refl refl refl bits

  -- What the filter makes of the state, as one run over the samples.
  run_lem :
      (sample_count channels bits : ℕ) (s : Dc m)
      → IsDepth bits
      → 0 < channels
      → let n = sample_count / channels * channels in
        let vs = values bits n s.samples in
        n * width bits ≤ length s.samples
        → apply_dc_remove m sample_count channels bits s ≡ record {
          samples =
              encode bits (outs m bits channels 0 s.prev_x s.prev_y vs)
              ++ drop (n * width bits) s.samples;
          prev_x = last_x m channels 0 s.prev_x vs;
          prev_y = last_y m channels 0 s.prev_x s.prev_y vs;
        }
  run_lem sample_count channels bits s depth some_channels room =
      let z : 0 * channels ≡ 0 = omega arith in
      one_run sample_count channels bits s depth
      ∙ steps-frames m (sample_count / channels) bits channels 0 s some_channels
      ∙ ap (λ k. steps m (sample_count / channels * channels) bits channels k 0 s) z
      ∙ steps_lem m (sample_count / channels * channels) bits channels 0 0 [] s.samples s.prev_x
          s.prev_y depth (omega arith) room

  pub length-apply_dc_remove :
      (sample_count channels bits : ℕ) (s : Dc m)
      → IsDepth bits
      → 0 < channels
      → sample_count / channels * channels * width bits ≤ length s.samples
      → length (apply_dc_remove m sample_count channels bits s).samples ≡ length s.samples
  length-apply_dc_remove sample_count channels bits s depth some_channels room =
      let n : ℕ = sample_count / channels * channels in
      let vs : List ℤ = values bits n s.samples in
      let os : List ℤ = outs m bits channels 0 s.prev_x s.prev_y vs in
      let count : length os ≡ n =
        length-outs m bits channels 0 s.prev_x s.prev_y vs ∙ length-values bits n s.samples in
      rw (run_lem sample_count channels bits s depth some_channels room) (
        length-append (encode bits os) (drop (n * width bits) s.samples)
        ∙ omega (
          arith,
          length-encode bits os depth,
          ap (λ t. t * width bits) count,
          length-drop (n * width bits) s.samples,
        ))

  -- For 16, 24 and 32 bits and a state for each channel, the samples of every channel are what its own
  -- high-pass filter makes of them, from the last input and output of the channel on, which are moved
  -- on to those of its last sample. The samples are in the range of their type, and what lies behind
  -- the frames is unchanged.
  pub apply_dc_remove_lem :
      (sample_count channels bits c : ℕ) (s : Dc m)
      → IsDepth bits
      → c < channels
      → length s.prev_x ≡ channels
      → length s.prev_y ≡ channels
      → sample_count / channels * channels * width bits ≤ length s.samples
      → let n = sample_count / channels * channels in
        let s' = apply_dc_remove m sample_count channels bits s in
        Filters bits
          (get_or s.prev_x c m.zero_f)
          (get_or s.prev_y c m.zero_f)
          (pick c channels (values bits n s.samples))
          (pick c channels (values bits n s'.samples))
          (get_or s'.prev_x c m.zero_f)
          (get_or s'.prev_y c m.zero_f)
        × AllFit (half bits) (values bits n s'.samples)
        × (drop (n * width bits) s'.samples ≡ drop (n * width bits) s.samples)
        × (length s'.prev_x ≡ channels)
        × (length s'.prev_y ≡ channels)
  apply_dc_remove_lem sample_count channels bits c s depth inside sx sy room =
      let n : ℕ = sample_count / channels * channels in
      let w : ℕ = width bits in
      let vs : List ℤ = values bits n s.samples in
      let os : List ℤ = outs m bits channels 0 s.prev_x s.prev_y vs in
      let count : length os ≡ n =
        length-outs m bits channels 0 s.prev_x s.prev_y vs ∙ length-values bits n s.samples in
      let tail : List ℕ = drop (n * w) s.samples in
      let fit = outs-AllFit m bits channels 0 s.prev_x s.prev_y vs in
      let e = run_lem sample_count channels bits s depth (omega arith) room in
      let read : values bits n (encode bits os ++ tail) ≡ os =
        ap (λ t. values bits t (encode bits os ++ tail)) (sym count)
        ∙ values-encode bits os tail depth fit in
      rw (e, read)
        (
          outs-Filters bits channels 0 c c s.prev_x s.prev_y vs (omega arith) inside inside
              (omega arith) sx sy,
          fit,
          drop-append_exact (encode bits os) tail (n * w)
              (length-encode bits os depth ∙ ap (λ t. t * w) count),
          length-last_x m channels 0 s.prev_x vs ∙ sx,
          length-last_y m channels 0 s.prev_x s.prev_y vs ∙ sy,
        )
