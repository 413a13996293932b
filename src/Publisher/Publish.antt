-- ===== src/Publisher/Publish.antt =====
-- `SamplePublisher::publish`: which fields it stores, and in what order.
use native.Mathlib.Nat.{mod-eq_of_lt}
use ws_audiod.Base.{
  ℕ, ◌+◌, ◌-◌, ◌*◌, ◌/◌, ◌%◌, ◌^◌, ◌≤◌, ◌<◌, min, ◌≡◌, refl, sym, ap, subst, ◌∙◌, Option, none,
  some, List, ◌∷◌, arith, length, take, inl, inr, ◌⊎◌, le, of_le, field, memcpy, length-memcpy,
  field-memcpy_same, field-memcpy_other, mul_size, sub_size,
}
use ws_audiod.Publisher.{
  Publisher, header_size, stored_bytes, store_timestamp, store_data, store_counter, store_all,
  publish, cleanup,
}
use ws_audiod.Publisher.Header.{stored_number, kept_number}

-- The memory of a publisher that is set up.
pub record IsMapped (p : Publisher) (memory : List ℕ) : Type 0 where
  pub mapped : p.shm ≡ some memory
  pub size : length memory ≡ p.shm_size
  pub header : 64 ≤ p.shm_size
  pub small : p.shm_size < 2 ^ 64

-- What `publish` makes of the memory: `n` bytes of the period are stored.
pub record Published (p : Publisher) (memory src : List ℕ) (n timestamp_us : ℕ) (after : Publisher)
    : Type 0 where
  pub memory' : List ℕ
  pub mapped : IsMapped after memory'
  pub counted : after.write_counter ≡ (p.write_counter + 1) % 2 ^ 64
  pub counter : of_le (field memory' 16 8) ≡ after.write_counter
  pub timestamp : of_le (field memory' 24 8) ≡ timestamp_us
  pub samples : field memory' 64 n ≡ take n src
  pub behind : (k : ℕ) → field memory' (64 + n) k ≡ field memory (64 + n) k
  pub format : field memory' 0 16 ≡ field memory 0 16
  pub reserved : field memory' 32 32 ≡ field memory 32 32

-- The number of bytes is that of the frames, cut to the memory behind the header.
pub stored_bytes_lem :
    (p : Publisher) (frame_count : ℕ)
    → 64 ≤ p.shm_size
    → p.shm_size < 2 ^ 64
    → frame_count * p.channels * (p.bits_per_sample / 8) < 2 ^ 64
    → frame_count * p.channels < 2 ^ 64
    → stored_bytes p frame_count
      ≡ min (frame_count * p.channels * (p.bits_per_sample / 8)) (p.shm_size - 64)
unfolding stored_bytes
stored_bytes_lem p n header small fits fits' =
    let items : mul_size n p.channels ≡ n * p.channels = mod-eq_of_lt fits' in
    let bytes : mul_size (n * p.channels) (p.bits_per_sample / 8)
        ≡ n * p.channels * (p.bits_per_sample / 8) =
      mod-eq_of_lt fits in
    let room : sub_size p.shm_size header_size ≡ p.shm_size - 64 = omega arith in
    rw (items, bytes, room) (ground arith)

module _ (p : Publisher) (memory src : List ℕ) (n timestamp_us : ℕ) (v : IsMapped p memory) where
  stored : List ℕ → ℕ → List ℕ
  stored m counter = store_counter (store_data (store_timestamp m timestamp_us) src n) counter

  counter_of : ℕ
  counter_of = (p.write_counter + 1) % 2 ^ 64

  -- The fields that are not stored: the format, the reserved bytes, and those behind the samples.
  apart :
      (b k : ℕ)
      → (b + k ≤ 16) ⊎ (((32 ≤ b) × (b + k ≤ 64)) ⊎ (64 + n ≤ b))
      → field (stored memory counter_of) b k ≡ field memory b k
  unfolding store_timestamp store_data store_counter stored
  apart b k h =
      let m1 : List ℕ = memcpy memory 24 (le 8 timestamp_us) 8 in
      let m2 : List ℕ = memcpy m1 64 src n in
      let beside_counter : (b + k ≤ 16) ⊎ (16 + 8 ≤ b) = ground arith in
      let beside_data : (b + k ≤ 64) ⊎ (64 + n ≤ b) = ground arith in
      let beside_time : (b + k ≤ 24) ⊎ (24 + 8 ≤ b) = ground arith in
      field-memcpy_other m2 (le 8 counter_of) 16 8 b k beside_counter
      ∙ field-memcpy_other m1 src 64 n b k beside_data
      ∙ field-memcpy_other memory (le 8 timestamp_us) 24 8 b k beside_time

  publish_stores :
      n ≤ length src
      → n ≤ p.shm_size - 64
      → timestamp_us < 2 ^ 64
      → Published p memory src n timestamp_us
          (record p { write_counter = counter_of; shm = some (stored memory counter_of) })
  unfolding store_timestamp store_data store_counter stored counter_of
  publish_stores have room small =
      let m1 : List ℕ = memcpy memory 24 (le 8 timestamp_us) 8 in
      let m2 : List ℕ = memcpy m1 64 src n in
      let size1 = length-memcpy memory 24 (le 8 timestamp_us) 8 in
      let size2 = length-memcpy m1 64 src n ∙ size1 in
      record {
        memory' = memcpy m2 16 (le 8 counter_of) 8;
        mapped = record {
          mapped = refl;
          size = length-memcpy m2 16 (le 8 counter_of) 8 ∙ size2 ∙ v.size;
          header = v.header;
          small = v.small;
        };
        counted = refl;
        counter =
            stored_number m2 16 8 counter_of (omega (arith, size2, v.size, v.header)) (omega arith);
        timestamp =
            kept_number m2 (le 8 counter_of) 16 8 24 8 timestamp_us
              (kept_number m1 src 64 n 24 8 timestamp_us
                (stored_number memory 24 8 timestamp_us (omega (arith, v.size, v.header))
                  (omega arith))
                (inl (omega arith)))
              (inr (omega arith));
        samples =
            field-memcpy_other m2 (le 8 counter_of) 16 8 64 n (inr (omega arith))
            ∙ field-memcpy_same m1 src 64 n (omega (arith, size1, v.size, v.header)) have;
        behind = λ k. apart (64 + n) k (inr (inr (omega arith)));
        format = apart 0 16 (inl (omega arith));
        reserved = apart 32 32 (inr (inl (omega arith, omega arith)));
      }

publish_mapped :
    (p : Publisher) (memory src : List ℕ) (frame_count timestamp_us : ℕ) (v : IsMapped p memory)
    → let n = stored_bytes p frame_count in
      let counter = counter_of p memory src n timestamp_us v in
      publish p src frame_count timestamp_us ≡ record p {
        write_counter = counter;
        shm = some (stored p memory src n timestamp_us v memory counter);
      }
unfolding publish stored_bytes stored counter_of ws_audiod.Publisher.stores store_all
publish_mapped p memory src frame_count timestamp_us v =
    ap (λ q. publish q src frame_count timestamp_us)
      (ap {A = Option (List ℕ)} {B = Publisher} (λ t. record p { shm = t }) v.mapped)

-- A publisher that is set up stores the frames of a period, as many as there is room for, their time
-- and the next counter, and changes no other byte of the memory: the header's format still stands.
pub publish-Published :
    (p : Publisher) (memory src : List ℕ) (frame_count timestamp_us : ℕ)
    → IsMapped p memory
    → frame_count * p.channels < 2 ^ 64
    → frame_count * p.channels * (p.bits_per_sample / 8) < 2 ^ 64
    → frame_count * p.channels * (p.bits_per_sample / 8) ≤ length src
    → timestamp_us < 2 ^ 64
    → let n = min (frame_count * p.channels * (p.bits_per_sample / 8)) (p.shm_size - 64) in
      Published p memory src n timestamp_us (publish p src frame_count timestamp_us)
publish-Published p memory src frame_count timestamp_us v fits' fits have small =
    let n : ℕ = stored_bytes p frame_count in
    let e = stored_bytes_lem p frame_count v.header v.small fits fits' in
    subst (λ t. Published p memory src t timestamp_us (publish p src frame_count timestamp_us)) e
      (subst (Published p memory src n timestamp_us)
        (sym (publish_mapped p memory src frame_count timestamp_us v))
        (publish_stores p memory src n timestamp_us v (omega (arith, e)) (omega (arith, e)) small))

-- An open descriptor was closed and the name unlinked, once each; without one, nothing was.
abbrev pub Released : Publisher → Publisher → Type 0
Released p q = elim p.shm_fd [
  | none ↦ (q.closed ≡ p.closed) × (q.unlinked ≡ p.unlinked)
  | some fd ↦ (q.closed ≡ fd ∷ p.closed) × (q.unlinked ≡ p.shm_name ∷ p.unlinked)
]

-- `cleanup` takes the memory away, closes an open descriptor and unlinks the name, once each; then
-- `publish` does nothing, and neither does another `cleanup`.
pub cleanup_lem :
    (p : Publisher) (src : List ℕ) (frame_count timestamp_us : ℕ)
    → Released p (cleanup p)
      × (publish (cleanup p) src frame_count timestamp_us ≡ cleanup p)
      × (cleanup (cleanup p) ≡ cleanup p)
      × ((cleanup p).shm ≡ none)
      × ((cleanup p).shm_fd ≡ none)
unfolding cleanup publish
cleanup_lem p src frame_count timestamp_us =
    (elim p.shm_fd
      as (λ t.
        let q = record p { shm_fd = t } in
        Released q (cleanup q)
        × (publish (cleanup q) src frame_count timestamp_us ≡ cleanup q)
        × (cleanup (cleanup q) ≡ cleanup q)
        × ((cleanup q).shm ≡ none)
        × ((cleanup q).shm_fd ≡ none)) [
          | none ↦ ((refl, refl), refl, refl, refl, refl)
          | some fd ↦ ((refl, refl), refl, refl, refl, refl)
        ])

-- The format is kept.
pub publish_channels :
    (s : Publisher) (src : List ℕ) (frames t : ℕ)
    → ((publish s src frames t).channels ≡ s.channels)
      × ((publish s src frames t).bits_per_sample ≡ s.bits_per_sample)
unfolding publish
publish_channels s src frames t =
    elim s.shm
      as (λ o.
        let p = publish (record s { shm = o }) src frames t in
        (p.channels ≡ s.channels) × (p.bits_per_sample ≡ s.bits_per_sample)) [
          | none ↦ (refl, refl)
          | some memory ↦ (refl, refl)
        ]
