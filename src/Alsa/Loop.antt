-- ===== src/Alsa/Loop.antt =====
-- What the capture thread hands to its callback, and how the pipeline takes it.
use ws_audiod.Base.{
  ℕ, ◌+◌, ◌*◌, ◌^◌, ◌≤◌, ◌<◌, ◌≡◌, refl, true, false, ◌&&◌, none, some, List, [], ◌∷◌, arith,
  length, ltb, Bool, mul-le-mul_right, if_cases, if◌then◌else◌, add_size, Floating,
}
use ws_audiod.Config.{AudioConfig}
use ws_audiod.Pcm.{width}
use ws_audiod.Alsa.{Turn, Chunk, AlsaCapture, frames_of, chunk, after_turn, capture_loop}

module _ (m : Floating) where
  -- A chunk that the pipeline can take, behind `total` frames.
  pub record Sound (a : AudioConfig m) (period total : ℕ) (x : Chunk) : Type 0 where
    pub meta_same : x.meta ≡ record {
      timestamp_us = x.meta.timestamp_us;
      channels = a.channels;
      bits_per_sample = a.bits_per_sample;
    }
    pub some_frames : 0 < x.frame_count
    pub few_frames : x.frame_count ≤ period
    pub counted : x.total_frames ≡ total + x.frame_count
    pub samples : x.sample_count ≡ x.frame_count * a.channels
    pub there : x.frame_count * a.channels * width a.bits_per_sample ≤ length x.bytes
    pub timely : x.meta.timestamp_us < 2 ^ 64

  -- Chunks with no gap between their running totals.
  pub data Follows (a : AudioConfig m) (period : ℕ) : ℕ → List Chunk → ℕ → Type 0 where
    finished : (total : ℕ) → Follows a period total [] total
    next :
        (total total' : ℕ) (x : Chunk) (xs : List Chunk)
        → Sound a period total x
        → Follows a period x.total_frames xs total'
        → Follows a period total (x ∷ xs) total'

  -- What the library documents of a read: no more frames than were asked for, in a buffer that has
  -- room for them.
  pub record IsTurn (c : AlsaCapture m) (t : Turn) : Type 0 where
    pub few : (n : ℕ) → frames_of t ≡ some n → n ≤ c.actual_period
    pub room :
        (n : ℕ)
        → n ≤ c.actual_period
        → n * c.config.channels * width c.config.bits_per_sample ≤ length t.buffer
    pub timely : t.time < 2 ^ 64

  abbrev pub AreTurns : AlsaCapture m → List Turn → Type 0
  AreTurns c [] = Unit
  AreTurns c (t ∷ ts) = IsTurn c t × AreTurns c ts

  pub record Looped (c : AlsaCapture m) (r : AlsaCapture m × List Chunk) : Type 0 where
    pub same_config : r.0.config ≡ c.config
    pub follows : Follows c.config c.actual_period c.total_frames r.1 r.0.total_frames

  turns_same :
      (c : AlsaCapture m) (total : ℕ) (buffer : List ℕ) (ts : List Turn)
      → AreTurns c ts
      → AreTurns (record c { total_frames = total; period_buffer = buffer }) ts
  turns_same c total buffer [] h = tt
  turns_same c total buffer (t ∷ ts) h = (
    record { few = h.0.few; room = h.0.room; timely = h.0.timely },
    turns_same c total buffer ts h.1,
  )

  and_pos : (n : ℕ) (b : Bool) → ltb 0 n && b ≡ true → 0 < n
  and_pos n true h = ground arith
  and_pos n false h = ground arith

  pub capture_loop-Looped :
      (c : AlsaCapture m) (ts : List Turn)
      → AreTurns c ts
      → c.total_frames + length ts * c.actual_period < 2 ^ 64
      → c.actual_period * c.config.channels < 2 ^ 64
      → Looped c (capture_loop m c ts)
  unfolding capture_loop chunk
  capture_loop-Looped c [] turns room small = record {
    same_config = refl;
    follows = Follows.finished c.total_frames;
  }
  capture_loop-Looped c (t ∷ ts) turns room small =
      (elim (frames_of t)
          as (λ x.
            frames_of t ≡ x
            → Looped c (elim x [
              | none ↦ (record c { period_buffer = t.buffer }, [])
              | some n ↦
                  let heard = capture_loop m (after_turn m c t n) ts in
                  let skipped = capture_loop m (record c { period_buffer = t.buffer }) ts in
                  if ltb 0 n && c.callback then (heard.0, chunk m c t n ∷ heard.1) else skipped
            ])) [
              | none ↦ λ _. record { same_config = refl; follows = Follows.finished c.total_frames }
              | some n ↦ λ e.
                  if_cases (Looped c) (ltb 0 n && c.callback) _ _
                    (λ h.
                      let some_frame : 0 < n = and_pos n c.callback h in
                      let fits =
                        mul-le-mul_right n c.actual_period c.config.channels (turns.0.few n e) in
                      let few = turns.0.few n e in
                      let plain : add_size c.total_frames n ≡ c.total_frames + n =
                        omega (arith, few) in
                      let rest =
                        capture_loop-Looped (after_turn m c t n) ts
                          (turns_same c (add_size c.total_frames n) t.buffer ts turns.1)
                          (omega (arith, few, plain)) small in
                      record {
                        same_config = rest.same_config;
                        follows =
                            Follows.next c.total_frames _ (chunk m c t n) _
                              (record {
                                meta_same = refl;
                                some_frames = some_frame;
                                few_frames = few;
                                counted = plain;
                                samples = omega (arith, fits);
                                there = turns.0.room n few;
                                timely = turns.0.timely;
                              })
                              rest.follows;
                      })
                    (λ _.
                      let rest =
                        capture_loop-Looped (record c { period_buffer = t.buffer }) ts
                          (turns_same c c.total_frames t.buffer ts turns.1) (omega arith) small in
                      record { same_config = rest.same_config; follows = rest.follows })
            ])
        refl
