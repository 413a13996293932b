-- ===== src/Pipeline/Gain/Tests.antt =====
-- A large gain of two samples of 16 bits, 1 and -1.
use ws_audiod.Base.{
  ◌-ℤ◌, sub_nat, ◌≡◌, refl, inl, List, ℕ, [], ◌∷◌, arith, replicate, memcpy, drop, map, pos, whole,
}
use ws_audiod.Pcm.{signed, bytes_of, half, cast_half}
use ws_audiod.Pcm.Sample.{values, AllFit}
use ws_audiod.Pipeline.Gain.{gain_sample, gain_loop, apply_gain}
use ws_audiod.Pipeline.Gain.Saturates.{product, scaled_to, apply_gain_lem}

abbrev pair : List ℕ
pair = 1 ∷ 0 ∷ 255 ∷ 255 ∷ []

clamped : apply_gain whole pair (replicate 5 9) 2 16 (pos 40000) ≡ 255 ∷ 127 ∷ 0 ∷ 128 ∷ 9 ∷ []
unfolding apply_gain gain_loop gain_sample signed bytes_of memcpy ◌-ℤ◌ sub_nat
clamped = refl

in_int : AllFit (cast_half 16) (map (product whole (pos 40000)) (values 16 2 pair))
unfolding values signed ◌-ℤ◌ sub_nat
in_int = (omega arith, (omega arith, tt))

apply_gain_lem_example :
    let out = apply_gain whole pair (replicate 5 9) 2 16 (pos 40000) in
    (values 16 2 out ≡ map (scaled_to whole 16 (pos 40000)) (values 16 2 pair))
    × (drop 4 out ≡ drop 4 (replicate 5 9))
    × AllFit (half 16) (values 16 2 out)
apply_gain_lem_example =
    apply_gain_lem whole pair (replicate 5 9) 2 16 (pos 40000) (inl refl) (omega arith) in_int
