-- ===== src/Pipeline/Dc/Tests.antt =====
-- Two frames of two channels of 16 bits: 5 and 6, then 9 and 9.
use ws_audiod.Base.{
  ◌-ℤ◌, sub_nat, ◌≡◌, refl, inl, [], ◌∷◌, arith, memcpy, drop, length, get_or, pos, whole,
}
use ws_audiod.Pcm.{signed, bytes_of, half}
use ws_audiod.Pcm.Sample.{values, AllFit}
use ws_audiod.Pipeline.Dc.{
  Dc, dc_output, dc_step, dc_sample, dc_channels, dc_frames, apply_dc_remove,
}
use ws_audiod.Pipeline.Dc.Channels.{Filters, pick, apply_dc_remove_lem}

abbrev stereo : Dc whole
stereo = record {
  samples = 5 ∷ 0 ∷ 6 ∷ 0 ∷ 9 ∷ 0 ∷ 9 ∷ 0 ∷ [];
  prev_x = pos 3 ∷ pos 0 ∷ [];
  prev_y = pos 1 ∷ pos 0 ∷ [];
}

filtered : apply_dc_remove whole 4 2 16 stereo ≡ record {
  samples = 3 ∷ 0 ∷ 6 ∷ 0 ∷ 7 ∷ 0 ∷ 9 ∷ 0 ∷ [];
  prev_x = pos 9 ∷ pos 9 ∷ [];
  prev_y = pos 7 ∷ pos 9 ∷ [];
}
unfolding apply_dc_remove dc_frames dc_channels dc_sample dc_step dc_output signed bytes_of memcpy
    ◌-ℤ◌ sub_nat
filtered = refl

apply_dc_remove_lem_example :
    let s' = apply_dc_remove whole 4 2 16 stereo in
    Filters whole 16
      (pos 3)
      (pos 1)
      (pick 0 2 (values 16 4 stereo.samples))
      (pick 0 2 (values 16 4 s'.samples))
      (get_or s'.prev_x 0 (pos 0))
      (get_or s'.prev_y 0 (pos 0))
    × AllFit (half 16) (values 16 4 s'.samples)
    × (drop 8 s'.samples ≡ drop 8 stereo.samples)
    × (length s'.prev_x ≡ 2)
    × (length s'.prev_y ≡ 2)
apply_dc_remove_lem_example =
    apply_dc_remove_lem whole 4 2 16 0 stereo (inl refl) (omega arith) refl refl (omega arith)
