-- ===== src/Recorder/Wake.antt =====
-- When the writer thread is woken: the condition of `writer_cv_.wait`, and the sizes on which it
-- depends.
use mathlib.Core.Bool.{or-false}
use native.Mathlib.Nat.{pow-le-pow_right}
use ws_audiod.Base.{
  ℕ, ◌+◌, ◌-◌, ◌*◌, ◌/◌, ◌^◌, ◌≤◌, ◌<◌, ◌≡◌, ◌↔◌, refl, sym, ap, ◌∙◌, Bool, true, false, List, [],
  ◌∷◌, ◌++◌, subst, arith, length, leb, dec_le, sub_size, mul_size, Text,
}
use ws_audiod.Pcm.{width}
use ws_audiod.Recorder.{Recorder, block_recorder, start, push, awake}
use ws_audiod.Recorder.Push.{Queued, accepted, full, idle, push-Pushed}
use ws_audiod.Recorder.Start.{
  InRange, frame_lem, second_lem, queue_lem, start_enabled, start-Tracks,
}

awake_code :
    (r : Recorder) (stream : List ℕ)
    → Queued r stream
    → r.writer_running ≡ true
    → awake r ≡ leb r.flush_threshold (r.ring_write - r.ring_read)
unfolding awake
awake_code r stream q running =
    let avail : sub_size r.ring_write r.ring_read ≡ r.ring_write - r.ring_read =
      omega (arith, q.behind, q.small) in
    rw (avail, running, or-false) refl

least_power : (k n : ℕ) → n * 4 ≤ 2 ^ k → 2 ^ k < 2 * (n * 4) → (65536 ≤ 2 ^ k) ↔ (8192 < n)
least_power k n low high = (
  λ h. omega arith,
  λ h. (elim (dec_le 16 k) [
    | yes up ↦
        (let most : 2 ^ 16 ≤ 2 ^ k = pow-le-pow_right (omega arith) up in omega (arith, most))
    | no less ↦
        let few : 2 ^ k ≤ 2 ^ 15 = pow-le-pow_right {n = 2} (omega arith) {j = 15} (omega arith) in
        absurd (omega arith)
  ]),
)

-- The queue of a new recorder has room for at least four seconds of audio and less than eight. It is
-- as large as the flush threshold exactly where a second has more than 8192 bytes: below, no number
-- of bytes in the queue wakes the writer.
pub block_recorder_sizes :
    (seconds rate channels bits : ℕ) (enabled : Bool) (output_dir format : Text)
    → InRange seconds rate channels bits
    → let r = block_recorder enabled output_dir format seconds rate channels bits in
      let second = rate * (channels * width bits) in
      (second * 4 ≤ r.ring_capacity)
      × (r.ring_capacity < second * 8)
      × ((r.flush_threshold ≤ r.ring_capacity) ↔ (8192 < second))
unfolding block_recorder
block_recorder_sizes seconds rate channels bits enabled output_dir format h =
    let (frame, _, _) = frame_lem seconds rate channels bits h in
    let (one, _, _, up) = second_lem seconds rate channels bits h in
    let (k, small, e, low, high) = queue_lem seconds rate channels bits h in
    let second : ℕ = rate * (channels * width bits) in
    let same : mul_size rate (mul_size channels (bits / 8)) ≡ second =
      one ∙ ap (λ (t : ℕ). rate * t) frame in
    let up' : second < 2 ^ 51 = omega (arith, same, one, up) in
    let four : mul_size second 4 ≡ second * 4 = omega (arith, up') in
    let code = ap (λ t. mul_size t 4) same in
    let least =
      least_power k second (omega (arith, code, four, low)) (omega (arith, code, four, high)) in
    (
      omega (arith, code, four, low, e),
      omega (arith, code, four, high, e),
      (
        λ fits. least.0 (omega (arith, e, fits)),
        λ much. omega (arith, e, least.1 much, same, low, four, code),
      ),
    )

-- The periods that the capture pushes, with their numbers of frames.
unfoldable pub push_all : Recorder → List (List ℕ × ℕ) → Recorder
push_all r [] = r
push_all r (x ∷ xs) = push_all (push r x.0 x.1) xs

abbrev pub AreWhole : ℕ → List (List ℕ × ℕ) → Type 0
AreWhole frame [] = Unit
AreWhole frame (x ∷ xs) = (length x.0 ≡ x.1 * frame) × AreWhole frame xs

unfoldable pub bytes_in : List (List ℕ × ℕ) → ℕ
bytes_in [] = 0
bytes_in (x ∷ xs) = length x.0 + bytes_in xs

asleep :
    (r : Recorder) (stream : List ℕ) (xs : List (List ℕ × ℕ))
    → Queued r stream
    → r.writer_running ≡ true
    → r.ring_capacity < r.flush_threshold
    → AreWhole r.bytes_per_frame xs
    → r.ring_write + bytes_in xs < 2 ^ 64
    → awake (push_all r xs) ≡ false
unfolding push_all bytes_in
asleep r stream [] q running narrow whole small =
    awake_code r stream q running ∙ ground (arith, q.within)
asleep r stream (x ∷ xs) q running narrow whole small =
    let still = asleep r stream xs q running narrow whole.1 (omega arith) in
    let P = λ (a : Recorder). awake (push_all a xs) ≡ false in
    elim (push-Pushed r stream x.0 x.1 q (whole.0) (omega arith)) [
      | accepted fits on q' e ↦ subst P (sym e) (
          asleep (record r { ring = (push r x.0 x.1).ring; ring_write = r.ring_write + length x.0 })
            (stream ++ x.0) xs (subst (λ (a : Recorder). Queued a (stream ++ x.0)) e q') running
            narrow whole.1 (omega arith))
      | full big e ↦ subst P (sym e) still
      | idle off e ↦ subst P (sym e) still
    ]

-- A started recorder with at most 8192 bytes of audio a second does not wake its writer, whatever whole
-- periods are pushed: its queue is smaller than the flush threshold, and what does not fit is dropped.
-- The bytes that are pushed are countable.
pub never_woken :
    (seconds rate channels bits : ℕ) (output_dir format : Text) (xs : List (List ℕ × ℕ))
    → InRange seconds rate channels bits
    → rate * (channels * width bits) ≤ 8192
    → AreWhole (channels * width bits) xs
    → bytes_in xs < 2 ^ 64
    → let r = start (block_recorder true output_dir format seconds rate channels bits) in
      awake (push_all r xs) ≡ false
unfolding start block_recorder
never_woken seconds rate channels bits output_dir format xs h slow whole small =
    let r = start (block_recorder true output_dir format seconds rate channels bits) in
    let (empty, frame, running) = start_enabled seconds rate channels bits h output_dir format in
    let (_, _, sizes) = block_recorder_sizes seconds rate channels bits true output_dir format h in
    let narrow : r.ring_capacity < r.flush_threshold =
      elim (dec_le r.flush_threshold r.ring_capacity) [
        | yes wide ↦ (let much = sizes.0 wide in absurd (omega arith))
        | no less ↦ omega arith
      ] in
    asleep r [] xs (start-Tracks seconds rate channels bits h true output_dir format).queue running
      narrow (subst (λ n. AreWhole n xs) (sym frame) whole) (omega (arith, empty))
