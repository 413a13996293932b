-- ===== src/Recorder/Writer/Process.antt =====
-- The loop that cuts frames into files: it ends, and hands over every frame once and in order, or
-- stops where a file cannot be opened.
use mathlib.Core.List.{append-nil}
use native.Mathlib.Nat.{mod-eq_of_lt}
use ws_audiod.Base.{
  ℕ, zero, suc, ◌+◌, ◌-◌, ◌*◌, ◌^◌, ◌≤◌, ◌<◌, min, ◌≡◌, refl, sym, ap, subst, ◌∙◌, Bool, true,
  false, Option, some, List, [], ◌++◌, arith, drop, sub_size, mul_size, mul-le-mul_right, inl, inr,
  lt→ltb,
}
use ws_audiod.Pcm.{width, unpack}
use ws_audiod.Base.{le-mul_pos}
use ws_audiod.Pcm.Unpack.{width_pos, unpack_zero, unpack-add}
use ws_audiod.Recorder.Writer.{
  Outside, Params, File, Files, ensure_open, write_batch, finish_block, process,
}
use ws_audiod.Recorder.Writer.Blocks.{
  IsSane, IsBlocked, Hands, Hands-trans, ensure_open-Ensured, batch-Hands, open-lt,
}

-- Why the loop ended: all frames are handed over, or an opening failed.
pub data Ended (o : Outside) (done remaining : ℕ) (ok : Bool) : Type 0 where
  all : ok ≡ true → done ≡ remaining → Ended o done remaining ok
  failed : ok ≡ false → done < remaining → (k : ℕ) → o.opens k ≡ false → Ended o done remaining ok

-- The loop, begun with `remaining` frames of `src`, has handed over the first `done` of them.
pub record Processed (s : Params) (o : Outside) (w : Files) (src : List ℕ) (remaining : ℕ)
    (result : Option (Files × Bool)) : Type 0 where
  pub after : Files
  pub ok : Bool
  pub done : ℕ
  pub returns : result ≡ some (after, ok)
  pub hands : Hands s w after (unpack s.bits_per_sample (done * s.channels) src)
  pub ended : Ended o done remaining ok

Hands-none : {s : Params} {w : Files} {xs : List ℕ} → xs ≡ [] → IsBlocked s w → Hands s w w xs
Hands-none e b = record { blocked = b; grown = rw (e, append-nil) }

pub channels-le-frame : {s : Params} → IsSane s → s.channels ≤ s.bytes_per_frame
channels-le-frame {s} sane = omega (
  arith,
  sane.frame,
  le-mul_pos s.channels (width s.bits_per_sample) (omega (arith, width_pos s.bits_per_sample)),
)

pub frame_bytes : (n c w b : ℕ) → b ≡ c * w → n * c * w ≡ n * b
frame_bytes n c w b e = omega (arith, ap (λ (t : ℕ). n * t) e)

-- The samples of `m` frames and of `n` more.
pub unpack_next :
    (s : Params) (m n : ℕ) (src : List ℕ)
    → IsSane s
    → unpack s.bits_per_sample (m * s.channels) src
        ++ unpack s.bits_per_sample (n * s.channels) (drop (m * s.bytes_per_frame) src)
      ≡ unpack s.bits_per_sample ((m + n) * s.channels) src
unpack_next s m n src sane = sym (
    unpack-add s.bits_per_sample (m * s.channels) (n * s.channels) ((m + n) * s.channels) src
      (omega arith)
    ∙ ap
        (λ t.
          unpack s.bits_per_sample (m * s.channels) src
          ++ unpack s.bits_per_sample (n * s.channels) (drop t src))
        (frame_bytes m s.channels (width s.bits_per_sample) s.bytes_per_frame sane.frame))

-- The batch of a round, for an open file.
batch_step :
    (s : Params) (o : Outside) (w : Files) (file : File) (src : List ℕ) (left : ℕ)
    → IsSane s
    → IsBlocked s w
    → w.sndfile ≡ some file
    → suc left * s.bytes_per_frame < 2 ^ 64
    → let batch = min (suc left) (sub_size s.block_frames w.frames_in_block) in
      Hands s w
        (finish_block s (write_batch s o w src batch))
        (unpack s.bits_per_sample (batch * s.channels) src)
batch_step s o w file src left sane b is_open small =
    let batch : ℕ = min (suc left) (sub_size s.block_frames w.frames_in_block) in
    let part = mul-le-mul_right batch (suc left) s.bytes_per_frame (omega arith) in
    let items = mul-le-mul_right s.channels s.bytes_per_frame batch (channels-le-frame sane) in
    let room = open-lt s w file b is_open in
    batch-Hands s o w file src batch sane b is_open (omega (arith, sane.small)) (omega arith)

-- A round whose file is open, and what the rounds after it do.
process-suc :
    (fuel : ℕ) (s : Params) (o : Outside) (w w' : Files) (file : File) (src : List ℕ) (left : ℕ)
    → IsSane s
    → ensure_open s o w ≡ (w', true)
    → Hands s w w' []
    → w'.sndfile ≡ some file
    → suc left * s.bytes_per_frame < 2 ^ 64
    → let batch = min (suc left) (sub_size s.block_frames w'.frames_in_block) in
      let w'' = finish_block s (write_batch s o w' src batch) in
      Processed s o w''
        (drop (batch * s.bytes_per_frame) src)
        (suc left - batch)
        (process fuel s o w'' (drop (batch * s.bytes_per_frame) src) (suc left - batch))
      → Processed s o w src (suc left) (process (suc fuel) s o w src (suc left))
unfolding process
process-suc fuel s o w w' file src left sane e h is_open small p =
    let b : ℕ = s.bytes_per_frame in
    let batch : ℕ = min (suc left) (sub_size s.block_frames w'.frames_in_block) in
    let part = mul-le-mul_right batch (suc left) b (omega arith) in
    let step = batch_step s o w' file src left sane h.blocked is_open small in
    let span : mul_size batch b ≡ batch * b = mod-eq_of_lt (omega arith) in
    record {
      after = p.after;
      ok = p.ok;
      done = batch + p.done;
      returns = rw (e, span, lt→ltb 0 (suc left) (omega arith)) p.returns;
      hands =
          subst (Hands s w p.after) (unpack_next s batch p.done src sane)
            (Hands-trans (Hands-trans h step) p.hands);
      ended = elim p.ended [
        | all good whole ↦ all good (omega arith)
        | failed bad some_left k refused ↦ failed bad (omega arith) k refused
      ];
    }

-- With one round of fuel more than there are frames, the loop over them ends. The files stay in whole
-- blocks, and the samples handed over are those of a number of frames from the start of `src`: of
-- all frames, or of fewer where an opening failed.
pub process-Processed :
    (fuel : ℕ) (s : Params) (o : Outside) (w : Files) (src : List ℕ) (remaining : ℕ)
    → IsSane s
    → IsBlocked s w
    → remaining * s.bytes_per_frame < 2 ^ 64
    → remaining < fuel
    → Processed s o w src remaining (process fuel s o w src remaining)
unfolding process
process-Processed zero s o w src remaining sane b small enough = absurd (omega arith)
process-Processed (suc fuel) s o w src zero sane b small enough = record {
  after = w;
  ok = true;
  done = 0;
  returns = refl;
  hands =
      Hands-none
        (ap (λ t. unpack s.bits_per_sample t src) none_left ∙ unpack_zero s.bits_per_sample src) b;
  ended = all refl refl;
}
  where
    none_left : 0 * s.channels ≡ 0
    none_left = omega arith
process-Processed (suc fuel) s o w src (suc left) sane b small enough =
    elim (ensure_open-Ensured s o w sane b) [
      | inl (opened, h, (file, is_open)) ↦
          let room = open-lt s (ensure_open s o w).0 file h.blocked is_open in
          let batch : ℕ =
            min (suc left) (sub_size s.block_frames (ensure_open s o w).0.frames_in_block) in
          let less =
            mul-le-mul_right (suc left - batch) (suc left) s.bytes_per_frame (omega arith) in
          let pos : 0 < batch = omega (arith, sane.small) in
          let step =
            batch_step s o (ensure_open s o w).0 file src left sane h.blocked is_open small in
          process-suc fuel s o w (ensure_open s o w).0 file src left sane
            (λ i. ((ensure_open s o w).0, opened i)) h is_open small
            (process-Processed fuel s o _ (drop (batch * s.bytes_per_frame) src) (suc left - batch)
              sane step.blocked (omega arith) (omega arith))
      | inr (refused, h, bad) ↦ record {
        after = (ensure_open s o w).0;
        ok = false;
        done = 0;
        returns = rw (refused, lt→ltb 0 (suc left) (omega arith)) refl;
        hands = subst (Hands s w (ensure_open s o w).0) (sym none_yet) h;
        ended = failed refl (omega arith) w.open_calls bad;
      }
    ]
  where
    none_yet : unpack s.bits_per_sample (0 * s.channels) src ≡ []
    none_yet =
        ap (λ t. unpack s.bits_per_sample t src) (let z : 0 * s.channels ≡ 0 = omega arith in z)
        ∙ unpack_zero s.bits_per_sample src
