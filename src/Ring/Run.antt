-- ===== src/Ring/Run.antt =====
-- A RingBuffer from its constructor on: the capture thread writes period after period, and a read
-- gives the last frames of them.
use mathlib.Core.List.{append_assoc, append-nil}
use mathlib.Core.Path.{ap₂}
use ws_audiod.Base.{
  ℕ, ◌+◌, ◌-◌, ◌*◌, ◌^◌, ◌≤◌, ◌<◌, min, ◌≡◌, refl, sym, subst, ◌∙◌, Option, some, List, [], ◌∷◌,
  ◌++◌, arith, length, mul_size,
}
use ws_audiod.Pow2.{next_power_of_2}
use ws_audiod.Ring.{Ring, ring_buffer, bytes_per_frame, write, ◌>>=◌, read, available_frames}
use ws_audiod.Ring.Valid.{Represents, ring_buffer-Represents}
use ws_audiod.Ring.Write.{write_lem}
use ws_audiod.Ring.Read.{filled, read_lem}

-- The writes of a list of periods, each with its number of frames.
unfoldable pub write_all : Ring → List (List ℕ × ℕ) → Option Ring
write_all r [] = some r
write_all r (period ∷ periods) = write r period.0 period.1 >>= (λ r'. write_all r' periods)

-- The bytes of all periods, and their frames.
pub joined : List (List ℕ × ℕ) → List ℕ
joined [] = []
joined (period ∷ periods) = period.0 ++ joined periods

unfoldable pub frames_of : List (List ℕ × ℕ) → ℕ
frames_of [] = 0
frames_of (period ∷ periods) = period.1 + frames_of periods

-- Every period has the bytes of its frames.
abbrev pub AllSized : ℕ → List (List ℕ × ℕ) → Type 0
AllSized b [] = Unit {0}
AllSized b (period ∷ periods) = (length period.0 ≡ period.1 * b) × AllSized b periods

-- What a ring becomes by the writes.
pub record Written (r : Ring) (stream : List ℕ) (periods : List (List ℕ × ℕ)) : Type 0 where
  pub after : Ring
  pub returns : write_all r periods ≡ some after
  pub represents : Represents after (stream ++ joined periods)
  pub same_frame : bytes_per_frame after ≡ bytes_per_frame r
  pub same_capacity : after.capacity_frames ≡ r.capacity_frames
  pub total : after.total_written ≡ r.total_written + frames_of periods

pub write_all-Written :
    (r : Ring) (stream : List ℕ) (periods : List (List ℕ × ℕ))
    → Represents r stream
    → AllSized (bytes_per_frame r) periods
    → r.total_written + frames_of periods < 2 ^ 64
    → Written r stream periods
unfolding write_all joined frames_of
write_all-Written r stream [] v sized small = record {
  after = r;
  returns = refl;
  represents = rw append-nil v;
  same_frame = refl;
  same_capacity = refl;
  total = omega arith;
}
write_all-Written r stream (period ∷ periods) v (size, sized) small =
    let (r', e, v', b, c, t) = write_lem r stream period.0 period.1 v size (omega arith) in
    let rest =
      write_all-Written r' (stream ++ period.0) periods v'
        (subst (λ n. AllSized n periods) (sym b) sized) (omega (arith, t)) in
    record {
      after = rest.after;
      returns = rw (e, ◌>>=◌) rest.returns;
      represents =
          subst (Represents rest.after) (append_assoc stream period.0 (joined periods))
            rest.represents;
      same_frame = rest.same_frame ∙ b;
      same_capacity = rest.same_capacity ∙ c;
      total = omega (arith, rest.total, t);
    }

-- A buffer made for `frames` frames, into which any periods were written since: each write and the
-- read return. The read gives the last frames before the offset, as many as were asked for and are
-- still in the buffer, and leaves `out` alone behind them.
pub recording_lem :
    (frames channels bytes : ℕ) (periods : List (List ℕ × ℕ)) (out : List ℕ) (offset count : ℕ)
    → 0 < frames
    → frames ≤ 2 ^ 63
    → 0 < channels * bytes
    → next_power_of_2 frames * (channels * bytes) < 2 ^ 64
    → AllSized (mul_size channels bytes) periods
    → frames_of periods < 2 ^ 64
    → let b = mul_size channels bytes in
      let readable = min count (min (frames_of periods) (next_power_of_2 frames) - offset) in
      readable * b ≤ length out
      → (write_all (ring_buffer frames channels bytes) periods >>= (λ r. read r out offset count))
        ≡ some (
          filled (joined periods) ((frames_of periods - offset - readable) * b) out (readable * b),
          readable,
        )
unfolding ring_buffer available_frames
recording_lem frames channels bytes periods out offset count some_frames up some_bytes fits sized
      small room =
    let v = ring_buffer-Represents frames channels bytes some_frames up some_bytes fits in
    let w =
      write_all-Written (ring_buffer frames channels bytes) [] periods v sized (omega arith) in
    let total : w.after.total_written ≡ frames_of periods = omega (arith, w.total) in
    let avail : available_frames w.after ≡ min (frames_of periods) (next_power_of_2 frames) =
      ap₂ min total w.same_capacity in
    rw (w.returns, ◌>>=◌)
      (let got =
          read_lem w.after (joined periods) out offset count w.represents (omega (arith, total))
            (rw (w.same_frame, avail) room) in
        rw (w.same_frame, avail, total) at got)
