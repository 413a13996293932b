-- ===== src/Publisher/Reader.antt =====
-- The reader of examples/audio_consumer.cpp beside a publisher: it counts a period when the counter
-- has changed, and then all of the period is in the memory.
use mathlib.Core.Option.{some-injective}
use ws_audiod.Base.{
  ℕ, zero, suc, ◌+◌, ◌-◌, ◌*◌, ◌/◌, ◌%◌, ◌^◌, ◌≤◌, ◌<◌, min, ◌≡◌, ◌≢◌, refl, subst, sym, ap, ◌∙◌,
  true, false, some, List, arith, length, take, inl, le, of_le, field, memcpy, field-memcpy_other,
  add_size, ◌==◌,
}
use ws_audiod.Publisher.{
  Publisher, Consumer, poll, publish, store_timestamp, store_data, stores, store_all, stored_bytes,
}
use ws_audiod.Publisher.Publish.{IsMapped, publish-Published}

poll_same : (c : Consumer) (m : List ℕ) → of_le (field m 16 8) ≡ c.last_counter → poll c m ≡ c
unfolding poll
poll_same c m e =
    let test : (of_le (field m 16 8) == c.last_counter) ≡ true = ground arith in rw test refl

poll_new :
    (c : Consumer) (m : List ℕ) (k : ℕ)
    → of_le (field m 16 8) ≡ k
    → k ≢ c.last_counter
    → poll c m ≡ record { last_counter = k; periods = add_size c.periods 1 }
unfolding poll
poll_new c m k e new = let test : (k == c.last_counter) ≡ false = ground arith in rw (e, test) refl

-- The counter is stored last.
counter_waits :
    (memory src : List ℕ) (n timestamp_us : ℕ)
    → (field (store_timestamp memory timestamp_us) 16 8 ≡ field memory 16 8)
      × (field (store_data (store_timestamp memory timestamp_us) src n) 16 8 ≡ field memory 16 8)
unfolding store_timestamp store_data
counter_waits memory src n timestamp_us =
    let first = field-memcpy_other memory (le 8 timestamp_us) 24 8 16 8 (inl (omega arith)) in
    (
      first,
      field-memcpy_other (memcpy memory 24 (le 8 timestamp_us) 8) src 64 n 16 8 (inl (omega arith))
          ∙ first,
    )

all_stored :
    (p : Publisher) (memory src : List ℕ) (frame_count timestamp_us : ℕ)
    → p.shm ≡ some memory
    → (publish p src frame_count timestamp_us).shm
      ≡ some (store_all (stores p src frame_count timestamp_us) memory)
unfolding publish stores stored_bytes
all_stored p memory src frame_count timestamp_us e =
    subst
      (λ t.
        (publish (record p { shm = t }) src frame_count timestamp_us).shm
        ≡ some (store_all (stores p src frame_count timestamp_us) memory))
      (sym e) refl

before_last : (P : ℕ → Type 0) → P 0 → P 1 → P 2 → (k : ℕ) → k < 3 → P k
before_last P a b c zero h = a
before_last P a b c (suc zero) h = b
before_last P a b c (suc (suc zero)) h = c
before_last P a b c (suc (suc (suc k))) h = absurd (omega arith)

-- A reader that has seen all periods so far sees nothing new while stores of `publish` are missing,
-- whichever of them are done in their order, and one period after the last: then the samples are in
-- the memory. The memory is set up, and the bytes of the period are countable and there.
pub poll-publish :
    (p : Publisher) (memory src : List ℕ) (frame_count timestamp_us : ℕ) (c : Consumer)
    → IsMapped p memory
    → of_le (field memory 16 8) ≡ p.write_counter
    → p.write_counter < 2 ^ 64
    → c.last_counter ≡ p.write_counter
    → frame_count * p.channels < 2 ^ 64
    → frame_count * p.channels * (p.bits_per_sample / 8) < 2 ^ 64
    → frame_count * p.channels * (p.bits_per_sample / 8) ≤ length src
    → timestamp_us < 2 ^ 64
    → let n = min (frame_count * p.channels * (p.bits_per_sample / 8)) (p.shm_size - 64) in
      let all_stores = stores p src frame_count timestamp_us in
      ((k : ℕ) → k < length all_stores → poll c (store_all (take k all_stores) memory) ≡ c)
      × ((m : List ℕ) × ((publish p src frame_count timestamp_us).shm ≡ some m)
          × (m ≡ store_all all_stores memory)
          × (poll c m ≡ record {
            last_counter = (p.write_counter + 1) % 2 ^ 64;
            periods = add_size c.periods 1;
          })
          × (field m 64 n ≡ take n src))
unfolding stores store_all
poll-publish p memory src frame_count timestamp_us c v now small seen fits' fits have time =
    let d = publish-Published p memory src frame_count timestamp_us v fits' fits have time in
    let (first, second) = counter_waits memory src (stored_bytes p frame_count) timestamp_us in
    let waits : (m : List ℕ) → field m 16 8 ≡ field memory 16 8 → poll c m ≡ c =
      λ m e. poll_same c m (ap of_le e ∙ now ∙ sym seen) in
    (
      before_last
          (λ k. poll c (store_all (take k (stores p src frame_count timestamp_us)) memory) ≡ c)
          (waits memory refl) (waits _ first) (waits _ second),
      (
        d.memory',
        d.mapped.mapped,
        some-injective _ _
            (sym d.mapped.mapped ∙ all_stored p memory src frame_count timestamp_us v.mapped),
        poll_new c d.memory' ((p.write_counter + 1) % 2 ^ 64) (d.counter ∙ d.counted)
            (λ e. omega (arith, e, seen)),
        d.samples,
      ),
    )
