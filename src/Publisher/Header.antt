-- ===== src/Publisher/Header.antt =====
-- The header that `SamplePublisher::initialize` writes, and what it leaves of its resources.
use ws_audiod.Base.{
  ℕ, ◌+◌, ◌^◌, ◌≤◌, ◌<◌, ◌≡◌, ◌⊎◌, refl, ap, ◌∙◌, some, List, arith, length, replicate, take_all,
  inl, inr, le, of_le, field, memcpy, length-memcpy, length-le, of_le-le, field-memcpy_same,
  field-memcpy_other, field-memcpy_in,
}
use ws_audiod.Publisher.{Publisher, header_size, magic, store_header, read_format}

-- The parameters in the ranges of their C++ types.
pub record InRange (p : Publisher) : Type 0 where
  pub rate_32 : p.sample_rate < 2 ^ 32
  pub channels_16 : p.channels < 2 ^ 16
  pub bits_16 : p.bits_per_sample < 2 ^ 16
  pub period_32 : p.period_frames < 2 ^ 32

-- A number that was stored, and is read again.
pub stored_number :
    (memory : List ℕ) (at n v : ℕ)
    → at + n ≤ length memory
    → v < 256 ^ n
    → of_le (field (memcpy memory at (le n v) n) at n) ≡ v
stored_number memory at n v room small =
    ap of_le (
      field-memcpy_same memory (le n v) at n room (omega (arith, length-le n v))
      ∙ take_all n (le n v) (omega (arith, length-le n v)))
    ∙ of_le-le n v small

-- A store elsewhere does not change it.
pub kept_number :
    (memory src : List ℕ) (at k b n v : ℕ)
    → of_le (field memory b n) ≡ v
    → (b + n ≤ at) ⊎ (at + k ≤ b)
    → of_le (field (memcpy memory at src k) b n) ≡ v
kept_number memory src at k b n v e apart =
    ap of_le (field-memcpy_other memory src at k b n apart) ∙ e

format_lem :
    (m : List ℕ) (rate ch bits period : ℕ)
    → of_le (field m 0 4) ≡ magic
    → of_le (field m 4 4) ≡ rate
    → of_le (field m 8 2) ≡ ch
    → of_le (field m 10 2) ≡ bits
    → of_le (field m 12 4) ≡ period
    → read_format m ≡ some (record { rate = rate; ch = ch; bits = bits; period = period })
unfolding read_format
format_lem m rate ch bits period e0 e1 e2 e3 e4 = rw (e0, e1, e2, e3, e4) refl

-- The five stores of the header over a cleared one, from the last to the first: a field in front of
-- a store is not changed by it.
module _ (p : Publisher) (m : List ℕ) where
  first_two : List ℕ
  first_two = memcpy (memcpy m 0 (le 4 magic) 4) 4 (le 4 p.sample_rate) 4

  first_four : List ℕ
  first_four = memcpy (memcpy first_two 8 (le 2 p.channels) 2) 10 (le 2 p.bits_per_sample) 2

  stores : List ℕ
  stores = memcpy first_four 12 (le 4 p.period_frames) 4

  front_two :
      (b n v : ℕ) → b + n ≤ 8 → of_le (field first_two b n) ≡ v → of_le (field stores b n) ≡ v
  unfolding stores first_four
  front_two b n v before e =
      kept_number first_four (le 4 p.period_frames) 12 4 b n v
        (kept_number (memcpy first_two 8 (le 2 p.channels) 2) (le 2 p.bits_per_sample) 10 2 b n v
          (kept_number first_two (le 2 p.channels) 8 2 b n v e (inl (omega arith)))
          (inl (omega arith)))
        (inl (omega arith))

  length-stores :
      (length first_two ≡ length m) × (length first_four ≡ length m) × (length stores ≡ length m)
  unfolding stores first_four first_two
  length-stores =
      let one = length-memcpy m 0 (le 4 magic) 4 in
      let two = length-memcpy (memcpy m 0 (le 4 magic) 4) 4 (le 4 p.sample_rate) 4 ∙ one in
      let three = length-memcpy first_two 8 (le 2 p.channels) 2 ∙ two in
      let four =
        length-memcpy (memcpy first_two 8 (le 2 p.channels) 2) 10 (le 2 p.bits_per_sample) 2
        ∙ three in
      (two, four, length-memcpy first_four 12 (le 4 p.period_frames) 4 ∙ four)

  stores_format :
      InRange p
      → 16 ≤ length m
      → read_format stores
        ≡ some (record {
          rate = p.sample_rate;
          ch = p.channels;
          bits = p.bits_per_sample;
          period = p.period_frames;
        })
  unfolding stores first_four first_two
  stores_format h room =
      let (two, four, _) = length-stores in
      let m1 : List ℕ = memcpy m 0 (le 4 magic) 4 in
      let m3 : List ℕ = memcpy first_two 8 (le 2 p.channels) 2 in
      let one = length-memcpy m 0 (le 4 magic) 4 in
      let three = length-memcpy first_two 8 (le 2 p.channels) 2 ∙ two in
      format_lem stores p.sample_rate p.channels p.bits_per_sample p.period_frames
        (front_two 0 4 magic (omega arith) (
          kept_number m1 (le 4 p.sample_rate) 4 4 0 4 magic
            (stored_number m 0 4 magic (omega arith) (omega arith)) (inl (omega arith))))
        (front_two 4 4 p.sample_rate (omega arith)
          (stored_number m1 4 4 p.sample_rate (omega (arith, one)) (omega (arith, h.rate_32))))
        (kept_number first_four (le 4 p.period_frames) 12 4 8 2 p.channels
          (kept_number m3 (le 2 p.bits_per_sample) 10 2 8 2 p.channels
            (stored_number first_two 8 2 p.channels (omega (arith, two))
              (omega (arith, h.channels_16)))
            (inl (omega arith)))
          (inl (omega arith)))
        (kept_number first_four (le 4 p.period_frames) 12 4 10 2 p.bits_per_sample
          (stored_number m3 10 2 p.bits_per_sample (omega (arith, three))
            (omega (arith, h.bits_16)))
          (inl (omega arith)))
        (stored_number first_four 12 4 p.period_frames (omega (arith, four))
          (omega (arith, h.period_32)))

  -- What stands behind the five fields.
  stores_behind : (b n : ℕ) → 16 ≤ b → field stores b n ≡ field m b n
  unfolding stores first_four first_two
  stores_behind b n apart =
      field-memcpy_other first_four (le 4 p.period_frames) 12 4 b n (inr (omega arith))
      ∙ field-memcpy_other (memcpy first_two 8 (le 2 p.channels) 2) (le 2 p.bits_per_sample) 10 2 b
          n (inr (omega arith))
      ∙ field-memcpy_other first_two (le 2 p.channels) 8 2 b n (inr (omega arith))
      ∙ field-memcpy_other (memcpy m 0 (le 4 magic) 4) (le 4 p.sample_rate) 4 4 b n
          (inr (omega arith))
      ∙ field-memcpy_other m (le 4 magic) 0 4 b n (inr (omega arith))

-- A reader finds the publisher's format in the header, and a counter of zero; the samples' part of
-- the memory is as it was.
pub store_header_lem :
    (p : Publisher) (memory : List ℕ)
    → InRange p
    → 64 ≤ length memory
    → let m = store_header p memory in
      (read_format m
        ≡ some (record {
          rate = p.sample_rate;
          ch = p.channels;
          bits = p.bits_per_sample;
          period = p.period_frames;
        }))
      × (of_le (field m 16 8) ≡ 0)
      × (length m ≡ length memory)
      × ((n : ℕ) → field m 64 n ≡ field memory 64 n)
unfolding store_header stores first_four first_two
store_header_lem p memory h room =
    let m : List ℕ = memcpy memory 0 (replicate header_size 0) header_size in
    let size = length-memcpy memory 0 (replicate header_size 0) header_size in
    let (_, _, total) = length-stores p m in
    (
      stores_format p m h (omega (arith, size)),
      ap of_le (
          stores_behind p m 16 8 (omega arith)
          ∙ field-memcpy_in memory (replicate header_size 0) 0 header_size 16 8 16 (omega arith)
              (omega arith) refl (omega arith)),
      total ∙ size,
      λ n.
          stores_behind p m 64 n (omega arith)
          ∙ field-memcpy_other memory (replicate header_size 0) 0 header_size 64 n
              (inr (omega arith)),
    )
