-- ===== src/Alsa/SetUp.antt =====
-- The set-up of the sound card: what the capture thread finds, or what is left to close.
use ws_audiod.Base.{
  ℕ, ◌%◌, ◌^◌, ◌≡◌, refl, sym, ◌∙◌, Bool, true, false, none, some, ◌&&◌, if_cases, length, mul_size,
  Floating,
}
use ws_audiod.Pipeline.Life.Parts.{length-resize}
use ws_audiod.Alsa.{
  Card, AlsaCapture, format_of, initialize, set_rate, set_period, set_buffer, period_bytes,
}

module _ (m : Floating) where
  -- The calls that the library accepts: of the access, the format and the channels; and, for a period,
  -- of the size of its buffer, all parameters and the preparation.
  abbrev pub accepts : Card → AlsaCapture m → Bool
  accepts o c =
      o.set_access
      && (o.set_format (format_of c.config.bits_per_sample) && o.set_channels c.config.channels)

  abbrev pub applies : Card → AlsaCapture m → ℕ → Bool
  applies o c period =
      o.set_buffer_size_near (mul_size period c.config.buffer_periods)
      && (o.apply_params && o.prepare)

  -- What may be refused.
  pub data Refuses (o : Card) (c : AlsaCapture m) : Type 0 where
    no_device : o.opens c.config.device ≡ false → Refuses o c
    no_format : accepts o c ≡ false → Refuses o c
    no_rate : o.set_rate_near c.config.sample_rate ≡ none → Refuses o c
    no_period : o.set_period_size_near c.config.period_size ≡ none → Refuses o c
    no_params :
        (period : ℕ)
        → o.set_period_size_near c.config.period_size ≡ some period
        → applies o c period ≡ false
        → Refuses o c

  -- Set up, since every call succeeded, with the nearest rate and period and a buffer for a period; or
  -- refused, since one failed, with its buffer as it was and the device open where it was opened.
  pub data Prepared (o : Card) (c : AlsaCapture m) : AlsaCapture m × Bool → Type 0 where
    prepared :
        (q : AlsaCapture m) (rate period : ℕ)
        → o.opens c.config.device ≡ true
        → accepts o c ≡ true
        → applies o c period ≡ true
        → o.set_rate_near c.config.sample_rate ≡ some rate
        → o.set_period_size_near c.config.period_size ≡ some period
        → q ≡ record c {
          pcm = true;
          actual_rate = rate;
          actual_period = period % 2 ^ 32;
          period_buffer = q.period_buffer;
        }
        → length q.period_buffer ≡ period_bytes m q
        → Prepared o c (q, true)
    refused :
        (q : AlsaCapture m)
        → Refuses o c
        → q.pcm ≡ o.opens c.config.device
        → q.running ≡ c.running
        → q.period_buffer ≡ c.period_buffer
        → Prepared o c (q, false)

  set_buffer-Prepared :
      (o : Card) (c : AlsaCapture m) (rate period : ℕ)
      → o.opens c.config.device ≡ true
      → accepts o c ≡ true
      → o.set_rate_near c.config.sample_rate ≡ some rate
      → o.set_period_size_near c.config.period_size ≡ some period
      → Prepared o c (
          set_buffer m o
            (record c { pcm = true; actual_rate = rate; actual_period = period % 2 ^ 32 })
            period)
  unfolding set_buffer
  set_buffer-Prepared o c rate period opened accepted near near' =
      let q = record c { pcm = true; actual_rate = rate; actual_period = period % 2 ^ 32 } in
      if_cases (Prepared o c) (applies o c period) _ _
        (λ applied.
          prepared _ rate period opened accepted applied near near' refl
            (length-resize m c.period_buffer (period_bytes m q)))
        (λ failed. refused q (no_params period near' failed) (sym opened) refl refl)

  set_period-Prepared :
      (o : Card) (c : AlsaCapture m) (rate : ℕ)
      → o.opens c.config.device ≡ true
      → accepts o c ≡ true
      → o.set_rate_near c.config.sample_rate ≡ some rate
      → Prepared o c (set_period m o (record c { pcm = true; actual_rate = rate }))
  unfolding set_period
  set_period-Prepared o c rate opened accepted near =
      let q = record c { pcm = true; actual_rate = rate } in
      (elim (o.set_period_size_near c.config.period_size)
          as (λ x.
            o.set_period_size_near c.config.period_size ≡ x
            → Prepared o c (elim x [
              | none ↦ (q, false)
              | some period ↦ set_buffer m o (record q { actual_period = period % 2 ^ 32 }) period
            ])) [
              | none ↦ λ missing. refused q (no_period missing) (sym opened) refl refl
              | some period ↦
                  λ near'. set_buffer-Prepared o c rate period opened accepted near near'
            ])
        refl

  set_rate-Prepared :
      (o : Card) (c : AlsaCapture m)
      → o.opens c.config.device ≡ true
      → accepts o c ≡ true
      → Prepared o c (set_rate m o (record c { pcm = true }))
  unfolding set_rate
  set_rate-Prepared o c opened accepted =
      let q = record c { pcm = true } in
      (elim (o.set_rate_near c.config.sample_rate)
          as (λ x.
            o.set_rate_near c.config.sample_rate ≡ x
            → Prepared o c (elim x [
              | none ↦ (q, false)
              | some rate ↦ set_period m o (record q { actual_rate = rate })
            ])) [
              | none ↦ λ missing. refused q (no_rate missing) (sym opened) refl refl
              | some rate ↦ λ near. set_period-Prepared o c rate opened accepted near
            ])
        refl

  -- Whatever the library answers, a capture whose device is not open is set up if every call succeeds,
  -- with the rate and the period that are nearest to its settings and a buffer for a period; or it is
  -- refused where one fails, its buffer is unchanged, and its device is open exactly where it was
  -- opened.
  pub initialize-Prepared :
      (o : Card) (c : AlsaCapture m) → c.pcm ≡ false → Prepared o c (initialize m o c)
  unfolding initialize
  initialize-Prepared o c closed =
      if_cases (Prepared o c) (o.opens c.config.device) _ _
        (λ opened.
          if_cases (Prepared o c) (accepts o c) _ _
            (λ accepted. set_rate-Prepared o c opened accepted)
            (λ failed. refused (record c { pcm = true }) (no_format failed) (sym opened) refl refl))
        (λ shut. refused c (no_device shut) (closed ∙ sym shut) refl refl)
