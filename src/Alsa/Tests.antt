-- ===== src/Alsa/Tests.antt =====
-- A stereo card at three frames a second, whose third read is an overrun and whose last is an error.
use ws_audiod.Base.{
  ◌+◌, ◌*◌, ◌≤◌, ◌<◌, ℕ, ◌≡◌, refl, arith, true, some, [], ◌∷◌, List, pos, negsuc, whole, replicate,
}
use mathlib.Core.Option.{some-injective}
use ws_audiod.Ring.{bytes_per_frame}
use ws_audiod.Ring.Valid.{ring_buffer_empty}
use ws_audiod.Pipeline.Life.{capture_pipeline}
use ws_audiod.Pipeline.Life.Tests.{settings, ready, ring, ready-IsReady}
use ws_audiod.Alsa.{
  Card, Turn, AlsaCapture, alsa_capture, initialize, frames_of, chunk, capture_loop,
}
use ws_audiod.Alsa.Loop.{AreTurns}
use ws_audiod.Alsa.Feed.{Taken, capture_loop-Taken}
use ws_audiod.Alsa.SetUp.{Prepared, initialize-Prepared}

abbrev card : Card
card = record {
  opens = λ _. true;
  set_access = true;
  set_format = λ _. true;
  set_channels = λ _. true;
  set_rate_near = λ rate. some rate;
  set_period_size_near = λ period. some period;
  set_buffer_size_near = λ _. true;
  apply_params = true;
  prepare = true;
}

initialize-Prepared_example :
    Prepared whole card
      (alsa_capture whole settings.audio)
      (initialize whole card (alsa_capture whole settings.audio))
initialize-Prepared_example =
    initialize-Prepared whole card (alsa_capture whole settings.audio) refl

abbrev capture : AlsaCapture whole
capture = record (alsa_capture whole settings.audio) {
  pcm = true;
  running = true;
  callback = true;
  actual_rate = 3;
  actual_period = 4;
}

abbrev turn : Turn
turn = record { read = pos 1; buffer = replicate 16 1; recovered = pos 0; time = 5 }

abbrev turns : List Turn
turns =
    turn
    ∷ record turn { read = negsuc 31 }
    ∷ record turn { read = negsuc 4; recovered = negsuc 4 }
    ∷ []

one_frame : (capture_loop whole capture turns).0.total_frames ≡ 1
unfolding capture_loop frames_of chunk
one_frame = refl

some_one : (n : ℕ) → some 1 ≡ some n → n ≤ 4
some_one n e = omega (arith, some-injective _ _ e)

some_zero : (n : ℕ) → some 0 ≡ some n → n ≤ 4
some_zero n e = omega (arith, some-injective _ _ e)

are_turns : AreTurns whole capture turns
unfolding frames_of
are_turns = (
  record { few = some_one; room = λ n h. omega arith; timely = omega arith },
  (
    record { few = some_zero; room = λ n h. omega arith; timely = omega arith },
    (record { few = λ n e. cc; room = λ n h. omega arith; timely = omega arith }, tt),
  ),
)

small : (ring.total_written + 1) * bytes_per_frame ring < 18446744073709551616
small = let (empty, frame) = ring_buffer_empty 3 1 2 in rw (empty, frame) (omega arith)

capture_loop-Taken_example :
    Taken whole ready ring 4 0
      (capture_loop whole capture turns).0.total_frames
      (capture_loop whole capture turns).1
unfolding capture_pipeline
capture_loop-Taken_example =
    capture_loop-Taken whole capture turns ready ring [] (ring.total_written + 1) ready-IsReady refl
      are_turns (omega arith) (omega arith) (omega (arith, one_frame)) small
