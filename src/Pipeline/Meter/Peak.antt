-- ===== src/Pipeline/Meter/Peak.antt =====
-- The levels against the list of the samples.
use ws_audiod.Base.{
  ℕ, zero, suc, ◌*◌, ◌≤◌, ◌≡◌, ◌⊎◌, inl, inr, refl, ap, sym, ◌∙◌, List, [], ◌∷◌, arith, drop,
  drop-add, map, ◌==◌, if◌then◌else◌, ℤ, pos, abs_ℤ, shift_16, min, Floating,
}
use ws_audiod.Pcm.{width}
use ws_audiod.Pcm.Sample.{IsDepth, on_depth, values}
use ws_audiod.Pipeline.Meter.{Meter, meter_value, meter_step, meter_loop, meter, peak_of}

-- The samples as they are metered: those of 32 bits are cut to their upper half.
unfoldable pub heard : ℕ → List ℤ → List ℤ
heard bits = map (λ v. if bits == 32 then shift_16 v else v)

-- No magnitude is over the peak.
pub NoneOver : ℕ → List ℤ → Type 0
NoneOver peak [] = Unit
NoneOver peak (v ∷ vs) = (abs_ℤ v ≤ peak) × NoneOver peak vs

-- One of them is the peak.
pub Reached : ℕ → List ℤ → Type 0
Reached peak [] = ⊥
Reached peak (v ∷ vs) = (abs_ℤ v ≡ peak) ⊎ Reached peak vs

module _ (m : Floating) where
  -- The squares, added up from the left.
  pub sum_squares : m.double → List ℤ → m.double
  sum_squares a [] = a
  sum_squares a (v ∷ vs) = sum_squares (m.add_d a (m.mul_d (m.double_of v) (m.double_of v))) vs

  steps : Meter m → List ℤ → Meter m
  steps a [] = a
  steps a (v ∷ vs) = steps (meter_step m a v) vs

  loop_lem :
      (n bits : ℕ) (src : List ℕ) (i : ℕ) (a : Meter m)
      → meter_loop m n bits src i a
        ≡ steps a (heard bits (values bits n (drop (i * width bits) src)))
  unfolding meter_loop meter_value heard values steps
  loop_lem zero bits src i a = refl
  loop_lem (suc n) bits src i a =
      let v : ℤ = meter_value bits (drop (i * width bits) src) in
      loop_lem n bits src (suc i) (meter_step m a v)
      ∙ ap (λ t. steps (meter_step m a v) (heard bits (values bits n t)))
          (drop-add (i * width bits) (width bits) (suc i * width bits) src (omega arith))

  sum_lem : (a : Meter m) (vs : List ℤ) → (steps a vs).sum_sq ≡ sum_squares a.sum_sq vs
  unfolding steps sum_squares meter_step
  sum_lem a [] = refl
  sum_lem a (v ∷ vs) = sum_lem (meter_step m a v) vs

  step_lem :
      (a : Meter m) (v : ℤ)
      → let p = (meter_step m a v).peak in
        (a.peak ≤ p) × (abs_ℤ v ≤ p) × ((p ≡ a.peak) ⊎ (abs_ℤ v ≡ p))
  unfolding meter_step
  step_lem a v = ground arith

  reached :
      (p q x : ℕ) (R : Type 0) → (q ≡ p) ⊎ R → (a : ℕ) → (p ≡ a) ⊎ (x ≡ p) → (q ≡ a) ⊎ ((x ≡ q) ⊎ R)
  reached p q x R (inl e) a (inl e') = inl (e ∙ e')
  reached p q x R (inl e) a (inr e') = inr (inl (e' ∙ sym e))
  reached p q x R (inr r) a h = inr (inr r)

  -- The peak so far: no magnitude is over it, and it is one of them or the one to start from.
  peak_lem :
      (a : Meter m) (vs : List ℤ)
      → (a.peak ≤ (steps a vs).peak)
        × NoneOver (steps a vs).peak vs
        × (((steps a vs).peak ≡ a.peak) ⊎ Reached (steps a vs).peak vs)
  unfolding steps NoneOver Reached
  peak_lem a [] = (omega arith, tt, inl refl)
  peak_lem a (v ∷ vs) =
      let a' : Meter m = meter_step m a v in
      let p : ℕ = (steps a' vs).peak in
      let (up, over, which) = peak_lem a' vs in
      let (up', here, which') = step_lem a v in
      (
        omega arith,
        (omega arith, over),
        reached a'.peak p (abs_ℤ v) (Reached p vs) which a.peak which',
      )

  one_loop :
      (bits n : ℕ) (src : List ℕ)
      → IsDepth bits
      → meter m bits n src
        ≡ steps (record { peak = 0; sum_sq = m.double_of (pos 0) }) (heard bits (values bits n src))
  unfolding meter
  one_loop bits n src depth =
      let start : Meter m = record { peak = 0; sum_sq = m.double_of (pos 0) } in
      let z : 0 * width bits ≡ 0 = omega arith in
      on_depth (λ b. meter m b n src ≡ meter_loop m n b src 0 start) refl refl refl bits depth
      ∙ loop_lem n bits src 0 start
      ∙ ap (λ t. steps start (heard bits (values bits n (drop t src)))) z

  -- The values that are metered are the samples for 16 and 24 bits, and their upper 16 bits for 32 bits.
  -- The level that is stored is their largest magnitude, cut to 32767, or 0 where there are no
  -- samples; and the sum under the root is that of their squares.
  pub meter_lem :
      (bits n : ℕ) (src : List ℕ)
      → IsDepth bits
      → let a = meter m bits n src in
        let vs = heard bits (values bits n src) in
        (peak_of m a ≡ min a.peak 32767)
        × NoneOver a.peak vs
        × ((a.peak ≡ 0) ⊎ Reached a.peak vs)
        × (a.sum_sq ≡ sum_squares (m.double_of (pos 0)) vs)
  unfolding peak_of
  meter_lem bits n src depth =
      let start : Meter m = record { peak = 0; sum_sq = m.double_of (pos 0) } in
      let vs : List ℤ = heard bits (values bits n src) in
      let (up, over, which) = peak_lem start vs in
      rw (one_loop bits n src depth) (refl, over, which, sum_lem start vs)
