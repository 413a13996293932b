-- ===== src/Alsa/Feed.antt =====
-- The callback that the pipeline sets: every chunk of the capture thread goes through the pipeline.
use mathlib.Core.Path.{ap₂}
use ws_audiod.Base.{
  ℕ, ◌+◌, ◌*◌, ◌^◌, ◌≤◌, ◌<◌, ◌≡◌, refl, sym, ap, subst, ◌∙◌, Option, none, some, List, [], ◌∷◌,
  arith, length, mul-le-mul_right, Floating,
}
use ws_audiod.Config.{AudioConfig}
use ws_audiod.Ring.{Ring, bytes_per_frame}
use ws_audiod.Pipeline.Chunk.{Pipeline, on_audio_chunk}
use ws_audiod.Pipeline.Life.Ready.{IsReady, out_channels_pos}
use ws_audiod.Pipeline.Life.Feed.{on_audio_chunk-Fed}
use ws_audiod.Alsa.{Turn, Chunk, AlsaCapture, capture_loop}
use ws_audiod.Alsa.Loop.{Follows, AreTurns, capture_loop-Looped}

module _ (m : Floating) where
  -- The calls of `on_audio_chunk` for chunks one after the other.
  unfoldable pub feed : Pipeline m → List Chunk → Option (Pipeline m)
  feed p [] = some p
  feed p (x ∷ xs) = elim (on_audio_chunk m p x.meta x.bytes x.sample_count) [
    | none ↦ none
    | some q ↦ feed q xs
  ]

  -- The pipeline is ready again, and its ring buffer has counted the frames.
  pub record Taken (p : Pipeline m) (ring : Ring) (period total total' : ℕ) (xs : List Chunk)
      : Type 0 where
    pub after : Pipeline m
    pub returns : feed p xs ≡ some after
    pub ring' : Ring
    pub stream' : List ℕ
    pub still : IsReady m after ring' stream' period
    pub all_counted : ring'.total_written + total ≡ ring.total_written + total'

  grows :
      (a : AudioConfig m) (period total total' : ℕ) (xs : List Chunk)
      → Follows m a period total xs total'
      → total ≤ total'
  grows a period total total' [] (Follows.finished t) = omega arith
  grows a period total total' (x ∷ xs) (Follows.next t t' y ys sound rest) =
      let more = grows a period x.total_frames total' xs rest in omega (arith, more, sound.counted)

  feed-Taken :
      (p : Pipeline m) (ring : Ring) (stream : List ℕ) (period total total' bound : ℕ)
      (xs : List Chunk)
      → IsReady m p ring stream period
      → Follows m p.config.audio period total xs total'
      → ring.total_written + total' ≤ bound + total
      → bound * bytes_per_frame ring < 2 ^ 64
      → Taken p ring period total total' xs
  unfolding feed
  feed-Taken p ring stream period total total' bound [] ready (Follows.finished t) room small =
      record {
        after = p;
        returns = refl;
        ring' = ring;
        stream' = stream;
        still = ready;
        all_counted = refl;
      }
  feed-Taken p ring stream period total total' bound (x ∷ xs) ready
        (Follows.next t t' y ys sound rest) room small =
      let more = grows p.config.audio period x.total_frames total' xs rest in
      let fits =
        mul-le-mul_right (ring.total_written + x.frame_count) bound (bytes_per_frame ring)
          (omega (arith, more, sound.counted)) in
      let fed =
        on_audio_chunk-Fed m p ring stream period x.meta.timestamp_us x.bytes x.frame_count 0 ready
          sound.few_frames sound.there (omega (arith, fits))
          (out_channels_pos m p ready.some_channels) sound.timely in
      let called : on_audio_chunk m p x.meta x.bytes x.sample_count ≡ some fed.after =
        ap₂ (λ k n. on_audio_chunk m p k x.bytes n) sound.meta_same sound.samples ∙ fed.returns in
      let taken =
        feed-Taken fed.after fed.ring' _ period x.total_frames total' bound xs fed.still
          (subst (λ c. Follows m c.audio period x.total_frames xs total') (sym fed.same_config)
            rest)
          (omega (arith, fed.total, sound.counted))
          (subst (λ n. bound * n < 2 ^ 64) (sym fed.frame_same) small) in
      record {
        after = taken.after;
        returns =
            ap
              (λ (r : Option (Pipeline m)).
                let q : Option (Pipeline m) = elim r [ none ↦ none | some q ↦ feed q xs ] in q)
              called
            ∙ taken.returns;
        ring' = taken.ring';
        stream' = taken.stream';
        still = taken.still;
        all_counted = omega (arith, taken.all_counted, fed.total, sound.counted);
      }

  -- A capture thread with the settings and the period of a pipeline that is ready: its turns are
  -- reads of up to a period into a buffer with room for one, overruns and errors, in any order, and
  -- its frames and the bytes of the ring buffer stay below 2 ^ 64. Every call of the callback
  -- returns, the pipeline is ready again, and its ring buffer has counted the frames that the
  -- capture has.
  pub capture_loop-Taken :
      (c : AlsaCapture m) (ts : List Turn) (p : Pipeline m) (ring : Ring) (stream : List ℕ)
      (bound : ℕ)
      → IsReady m p ring stream c.actual_period
      → p.config.audio ≡ c.config
      → AreTurns m c ts
      → c.total_frames + length ts * c.actual_period < 2 ^ 64
      → c.actual_period * c.config.channels < 2 ^ 64
      → ring.total_written + (capture_loop m c ts).0.total_frames ≤ bound + c.total_frames
      → bound * bytes_per_frame ring < 2 ^ 64
      → Taken p ring c.actual_period c.total_frames
          (capture_loop m c ts).0.total_frames
          (capture_loop m c ts).1
  capture_loop-Taken c ts p ring stream bound ready same turns room fits few small =
      let looped = capture_loop-Looped m c ts turns room fits in
      feed-Taken p ring stream c.actual_period c.total_frames _ bound (capture_loop m c ts).1 ready
        (subst
          (λ a.
            Follows m a c.actual_period c.total_frames (capture_loop m c ts).1
              (capture_loop m c ts).0.total_frames)
          (sym same) looped.follows)
        few small
