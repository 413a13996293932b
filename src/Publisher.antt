-- ===== src/Publisher.antt =====
-- src/sharing/sample_publisher.cpp and include/audio_daemon/sample_publisher.hpp: one period of
-- samples in POSIX shared memory behind a header of 64 bytes, and the reader of
-- examples/audio_consumer.cpp.
pub mod Header
pub mod Publish
pub mod Reader
pub mod Start
mod Tests
use ws_audiod.Base.{
  ℕ, ◌+◌, ◌-◌, ◌/◌, ◌^◌, min, Bool, true, false, Option, none, some, List, [], ◌∷◌, ◌++◌, take,
  drop, replicate, length, memcpy, add_size, sub_size, mul_size, le, of_le, field, ltb, ◌==◌,
  if◌then◌else◌, Text,
}

-- The calls of the operating system: the descriptor of `shm_open`, whether `ftruncate` to a size
-- succeeds, and the memory that `mmap` of a size gives, with its content.
pub record System : Type 0 where
  pub shm_open : Text → Option ℕ
  pub ftruncate : ℕ → ℕ → Bool
  pub mmap : ℕ → ℕ → Option (List ℕ)

-- `shm_fd` is `none` for -1 and `shm` for a null pointer. `closed` and `unlinked` are the descriptors
-- and names that were given to `close` and `shm_unlink`, the last first.
pub record Publisher : Type 0 where
  pub shm_name : Text
  pub sample_rate : ℕ
  pub channels : ℕ
  pub bits_per_sample : ℕ
  pub period_frames : ℕ
  pub shm_fd : Option ℕ
  pub shm : Option (List ℕ)
  pub shm_size : ℕ
  pub write_counter : ℕ
  pub closed : List ℕ
  pub unlinked : List Text

abbrev pub header_size : ℕ
header_size = 64

abbrev pub magic : ℕ
magic = 0x41554449

pub sample_publisher : Text → ℕ → ℕ → ℕ → ℕ → Publisher
sample_publisher shm_name sample_rate channels bits period_frames = record {
  shm_name = shm_name;
  sample_rate = sample_rate;
  channels = channels;
  bits_per_sample = bits;
  period_frames = period_frames;
  shm_fd = none;
  shm = none;
  shm_size = 0;
  write_counter = 0;
  closed = [];
  unlinked = [];
}

-- The header, over whatever the memory held.
pub store_header : Publisher → List ℕ → List ℕ
store_header p memory =
    let m0 = memcpy memory 0 (replicate header_size 0) header_size in
    let m1 = memcpy m0 0 (le 4 magic) 4 in
    let m2 = memcpy m1 4 (le 4 p.sample_rate) 4 in
    let m3 = memcpy m2 8 (le 2 p.channels) 2 in
    let m4 = memcpy m3 10 (le 2 p.bits_per_sample) 2 in memcpy m4 12 (le 4 p.period_frames) 4

-- Whether the memory could be set up. A descriptor that is not kept is closed.
pub initialize : System → Publisher → Publisher × Bool
initialize o p =
    let data_size = mul_size (mul_size p.period_frames p.channels) (p.bits_per_sample / 8) in
    let size = add_size header_size data_size in
    let sized = record p { shm_size = size } in
    elim (o.shm_open p.shm_name) [
      | none ↦ (record sized { shm_fd = none }, false)
      | some fd ↦
          let undone = record sized { shm_fd = none; closed = fd ∷ p.closed } in
          elim (o.ftruncate fd size) [
            | false ↦ (undone, false)
            | true ↦ (elim (o.mmap fd size) [
              | none ↦ (record undone { shm = none }, false)
              | some memory ↦
                  (record sized { shm_fd = some fd; shm = some (store_header p memory) }, true)
            ])
          ]
    ]

-- The bytes of a period that are stored.
pub stored_bytes : Publisher → ℕ → ℕ
stored_bytes p frame_count =
    let bytes = mul_size (mul_size frame_count p.channels) (p.bits_per_sample / 8) in
    let max_bytes = sub_size p.shm_size header_size in
    if ltb max_bytes bytes then max_bytes else bytes

-- The stores of `publish` in their order; the fence stands before the last one.
pub store_timestamp : List ℕ → ℕ → List ℕ
store_timestamp memory timestamp_us = memcpy memory 24 (le 8 timestamp_us) 8

pub store_data : List ℕ → List ℕ → ℕ → List ℕ
store_data memory src bytes = memcpy memory header_size src bytes

pub store_counter : List ℕ → ℕ → List ℕ
store_counter memory counter = memcpy memory 16 (le 8 counter) 8

-- What `publish` stores, one store behind the other.
unfoldable pub stores : Publisher → List ℕ → ℕ → ℕ → List (List ℕ → List ℕ)
stores p src frame_count timestamp_us =
    (λ memory. store_timestamp memory timestamp_us)
    ∷ (λ memory. store_data memory src (stored_bytes p frame_count))
    ∷ (λ memory. store_counter memory (add_size p.write_counter 1))
    ∷ []

unfoldable pub store_all : List (List ℕ → List ℕ) → List ℕ → List ℕ
store_all [] memory = memory
store_all (store ∷ later) memory = store_all later (store memory)

pub publish : Publisher → List ℕ → ℕ → ℕ → Publisher
publish p src frame_count timestamp_us = elim p.shm [
  | none ↦ p
  | some memory ↦ record p {
    write_counter = add_size p.write_counter 1;
    shm = some (store_all (stores p src frame_count timestamp_us) memory);
  }
]

-- `cleanup`, which the destructor calls too.
pub cleanup : Publisher → Publisher
cleanup p = elim p.shm_fd [
  | none ↦ record p { shm = none }
  | some fd ↦ record p {
    shm = none;
    shm_fd = none;
    closed = fd ∷ p.closed;
    unlinked = p.shm_name ∷ p.unlinked;
  }
]

-- What a reader finds in the header.
pub record Format : Type 0 where
  pub rate : ℕ
  pub ch : ℕ
  pub bits : ℕ
  pub period : ℕ

-- The start of the reader; `none` where the magic number is another one.
pub read_format : List ℕ → Option Format
read_format memory =
    if of_le (field memory 0 4) == magic
    then some (record {
      rate = of_le (field memory 4 4);
      ch = of_le (field memory 8 2);
      bits = of_le (field memory 10 2);
      period = of_le (field memory 12 4);
    })
    else none

-- The reader's loop: the counter that it saw last, and the number of periods.
pub record Consumer : Type 0 where
  pub last_counter : ℕ
  pub periods : ℕ

pub poll : Consumer → List ℕ → Consumer
poll c memory =
    let counter = of_le (field memory 16 8) in
    if counter == c.last_counter
    then c
    else record { last_counter = counter; periods = add_size c.periods 1 }
