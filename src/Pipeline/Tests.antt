-- ===== src/Pipeline/Tests.antt =====
-- The left channel of two 16-bit frames.
use ws_audiod.Base.{ℕ, ◌≡◌, refl, inl, List, [], ◌∷◌, arith, drop, replicate, memcpy}
use ws_audiod.Pcm.{unpack}
use ws_audiod.Pipeline.{apply_downmix, downmix_loop}
use ws_audiod.Pipeline.Downmix.{evens, apply_downmix_lem}

abbrev stereo : List ℕ
stereo = 1 ∷ 2 ∷ 3 ∷ 4 ∷ 5 ∷ 6 ∷ 7 ∷ 8 ∷ []

left_of_stereo : apply_downmix stereo (replicate 5 9) 2 16 ≡ 1 ∷ 2 ∷ 5 ∷ 6 ∷ 9 ∷ []
unfolding apply_downmix downmix_loop memcpy
left_of_stereo = refl

apply_downmix_lem_example :
    (unpack 16 2 (apply_downmix stereo (replicate 5 9) 2 16) ≡ evens (unpack 16 4 stereo))
    × (drop 4 (apply_downmix stereo (replicate 5 9) 2 16) ≡ 9 ∷ [])
apply_downmix_lem_example =
    apply_downmix_lem stereo (replicate 5 9) 2 16 (inl refl) (omega arith) (omega arith)
