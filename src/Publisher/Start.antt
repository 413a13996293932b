-- ===== src/Publisher/Start.antt =====
-- `SamplePublisher::initialize`: what it leaves on every branch.
use native.Mathlib.Nat.{mul-le-mul, mod-eq_of_lt}
use ws_audiod.Base.{
  ℕ, ◌+◌, ◌*◌, ◌/◌, ◌^◌, ◌≤◌, ◌<◌, ◌≡◌, refl, ◌∙◌, Bool, true, false, none, some, List, ◌∷◌, arith,
  length, of_le, field, mul_size, add_size, Option-cases, Bool-cases, inl, inr, Text,
}
use ws_audiod.Publisher.{
  sample_publisher, Publisher, System, header_size, store_header, initialize, read_format,
}
use ws_audiod.Publisher.Header.{InRange, store_header_lem}
use ws_audiod.Publisher.Publish.{IsMapped}

-- The bytes of the shared memory.
abbrev pub size_of : Publisher → ℕ
size_of p = 64 + p.period_frames * p.channels * (p.bits_per_sample / 8)

-- The descriptor of a failed set-up is closed.
abbrev pub closed_after : System → Publisher → List ℕ
closed_after o p = elim (o.shm_open p.shm_name) [ none ↦ p.closed | some fd ↦ fd ∷ p.closed ]

-- Set up: the memory has its size and a reader finds the format. Failed: nothing is kept open.
pub data Initialized (o : System) (p : Publisher) (after : Publisher) (ok : Bool) : Type 0 where
  ready :
      (fd : ℕ) (m : List ℕ)
      → ok ≡ true
      → o.shm_open p.shm_name ≡ some fd
      → after ≡ record p { shm_size = size_of p; shm_fd = some fd; shm = some m }
      → IsMapped after m
      → read_format m
        ≡ some (record {
          rate = p.sample_rate;
          ch = p.channels;
          bits = p.bits_per_sample;
          period = p.period_frames;
        })
      → of_le (field m 16 8) ≡ 0
      → Initialized o p after ok
  refused :
      ok ≡ false
      → after.shm ≡ none
      → after.shm_fd ≡ none
      → after.closed ≡ closed_after o p
      → Initialized o p after ok

size_lem :
    (p : Publisher)
    → InRange p
    → (add_size header_size (mul_size (mul_size p.period_frames p.channels) (p.bits_per_sample / 8))
        ≡ size_of p)
      × (size_of p < 2 ^ 64)
size_lem p h =
    let frames : p.period_frames * p.channels ≤ 2 ^ 32 * 2 ^ 16 =
      mul-le-mul {n₂ = 2 ^ 32} {m₂ = 2 ^ 16} (omega (arith, h.period_32))
        (omega (arith, h.channels_16)) in
    let all_bytes : p.period_frames * p.channels * (p.bits_per_sample / 8) ≤ 2 ^ 48 * 2 ^ 13 =
      mul-le-mul {n₂ = 2 ^ 48} {m₂ = 2 ^ 13} (omega (arith, frames)) (omega (arith, h.bits_16)) in
    let inner : mul_size p.period_frames p.channels ≡ p.period_frames * p.channels =
      mod-eq_of_lt (omega (arith, frames)) in
    let outer : mul_size (p.period_frames * p.channels) (p.bits_per_sample / 8)
        ≡ p.period_frames * p.channels * (p.bits_per_sample / 8) =
      mod-eq_of_lt (omega (arith, all_bytes)) in
    (rw (inner, outer) (omega (arith, all_bytes)), omega (arith, all_bytes))

-- A publisher that is not set up yet, on every answer of the system: it is ready, with a memory of
-- its size in which a reader finds the publisher's format and a counter of zero, or nothing is
-- mapped or open and a descriptor that was opened is closed.
pub initialize-Initialized :
    (o : System) (p : Publisher)
    → InRange p
    → p.shm ≡ none
    → ((fd size : ℕ) (m : List ℕ) → o.mmap fd size ≡ some m → length m ≡ size)
    → let (after, ok) = initialize o p in Initialized o p after ok
unfolding initialize
initialize-Initialized o p h fresh sized =
    let (size, small) = size_lem p h in
    elim (Option-cases (o.shm_open p.shm_name)) [
      | inl none_open ↦
          rw (initialize, none_open, size)
            (refused refl fresh refl (rw (closed_after, none_open) refl))
      | inr (fd, opened) ↦ elim (Bool-cases (o.ftruncate fd (size_of p))) [
        | inr short ↦
            rw (initialize, opened, size, short, size)
              (refused refl fresh refl (rw (closed_after, opened) refl))
        | inl long ↦ elim (Option-cases (o.mmap fd (size_of p))) [
          | inl unmapped ↦
              rw (initialize, opened, size, long, size, unmapped)
                (refused refl refl refl (rw (closed_after, opened) refl))
          | inr (memory, mapped) ↦
              let given = sized fd (size_of p) memory mapped in
              let (form, zero_count, same, _) =
                store_header_lem p memory h (omega (arith, given)) in
              rw (initialize, opened, size, long, size, mapped, size)
                (ready fd (store_header p memory) refl opened refl
                  (record {
                    mapped = refl;
                    size = same ∙ given;
                    header = omega arith;
                    small = small;
                  })
                  form zero_count)
        ]
      ]
    ]

-- A new publisher.
pub sample_publisher_new :
    (shm_name : Text) (rate channels bits period : ℕ)
    → rate < 2 ^ 32
    → channels < 2 ^ 16
    → bits < 2 ^ 16
    → period < 2 ^ 32
    → let s = sample_publisher shm_name rate channels bits period in
      InRange s × (s.shm ≡ none) × (s.channels ≡ channels) × (s.bits_per_sample ≡ bits)
unfolding sample_publisher
sample_publisher_new shm_name rate channels bits period r c b p =
    (record { rate_32 = r; channels_16 = c; bits_16 = b; period_32 = p }, refl, refl, refl)
