-- ===== src/Pcm/Tests.antt =====
-- 24-bit samples at a negative and at a positive number.
use ws_audiod.Base.{◌+◌, ◌-◌, ◌^◌, ◌≡◌, refl, arith, inl, ltb, if◌then◌else◌}
use ws_audiod.Pcm.{unpack24, pack24}
use ws_audiod.Pcm.Signed.{le24, unpack24_lem, pack24-unpack24, unpack24-pack24}

minus_two : unpack24 0xfe 0xff 0xff ≡ 2 ^ 32 - 2
unfolding unpack24
minus_two = refl

unpack24_lem_example :
    unpack24 1 2 200 ≡ (if ltb 200 128 then le24 1 2 200 else le24 1 2 200 + (2 ^ 32 - 2 ^ 24))
unpack24_lem_example = unpack24_lem 1 2 200 (omega arith) (omega arith) (omega arith)

pack24-unpack24_example : pack24 (unpack24 1 2 200) ≡ (1, 2, 200)
pack24-unpack24_example = pack24-unpack24 1 2 200 (omega arith) (omega arith) (omega arith)

unpack24-pack24_example : let (p0, p1, p2) = pack24 70000 in unpack24 p0 p1 p2 ≡ 70000
unpack24-pack24_example = unpack24-pack24 70000 (inl (omega arith))
