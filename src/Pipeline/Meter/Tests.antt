-- ===== src/Pipeline/Meter/Tests.antt =====
-- The levels of three samples of 16 bits: 3, -5 and 4.
use ws_audiod.Base.{◌≡◌, ◌⊎◌, refl, inl, List, ℕ, [], ◌∷◌, min, pos, whole, ◌-ℤ◌, sub_nat}
use ws_audiod.Pcm.{signed}
use ws_audiod.Pcm.Sample.{values}
use ws_audiod.Pipeline.Meter.{meter_value, meter_step, meter_loop, meter, peak_of}
use ws_audiod.Pipeline.Meter.Peak.{heard, NoneOver, Reached, sum_squares, meter_lem}

abbrev three : List ℕ
three = 3 ∷ 0 ∷ 251 ∷ 255 ∷ 4 ∷ 0 ∷ []

levels : meter whole 16 3 three ≡ record { peak = 5; sum_sq = pos 50 }
unfolding meter meter_loop meter_step meter_value signed ◌-ℤ◌ sub_nat
levels = refl

meter_lem_example :
    let a = meter whole 16 3 three in
    let vs = heard 16 (values 16 3 three) in
    (peak_of whole a ≡ min a.peak 32767)
    × NoneOver a.peak vs
    × ((a.peak ≡ 0) ⊎ Reached a.peak vs)
    × (a.sum_sq ≡ sum_squares whole (pos 0) vs)
meter_lem_example = meter_lem whole 16 3 three (inl refl)
