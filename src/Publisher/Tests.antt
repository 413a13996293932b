-- ===== src/Publisher/Tests.antt =====
-- A publisher of periods of two 16-bit mono frames.
use mathlib.Core.Option.{some-injective}
use ws_audiod.Base.{
  ℕ, ◌<◌, take, ◌≡◌, refl, sym, ap, ◌∙◌, length-replicate, true, none, some, List, [], ◌∷◌, arith,
  replicate, length, of_le, field, memcpy,
}
use ws_audiod.Publisher.{
  System, Publisher, Consumer, sample_publisher, initialize, publish, cleanup, poll, read_format,
  store_header, stores, store_all,
}
use ws_audiod.Publisher.Header.{InRange, store_header_lem}
use ws_audiod.Publisher.Publish.{IsMapped, Published, publish-Published, Released, cleanup_lem}
use ws_audiod.Publisher.Reader.{poll-publish}
use ws_audiod.Publisher.Start.{Initialized, initialize-Initialized}

-- Memory that holds something else at first.
abbrev sevens : System
sevens = record {
  shm_open = λ _. some 3;
  ftruncate = λ _ _. true;
  mmap = λ _ size. some (replicate size 7);
}

abbrev mono : Publisher
mono = sample_publisher [] 48000 1 16 2

abbrev memory : List ℕ
memory = store_header mono (replicate 68 7)

abbrev ready_mono : Publisher
ready_mono = record mono { shm_size = 68; shm_fd = some 3; shm = some memory }

mono-InRange : InRange mono
unfolding sample_publisher
mono-InRange = record {
  rate_32 = omega arith;
  channels_16 = omega arith;
  bits_16 = omega arith;
  period_32 = omega arith;
}

set_up : initialize sevens mono ≡ (ready_mono, true)
unfolding initialize sample_publisher
set_up = refl

mono-IsMapped : IsMapped ready_mono memory
unfolding store_header memcpy
mono-IsMapped = record { mapped = refl; size = refl; header = omega arith; small = omega arith }

store_header_lem_example :
    (read_format memory ≡ some (record { rate = 48000; ch = 1; bits = 16; period = 2 }))
    × (of_le (field memory 16 8) ≡ 0)
    × (length memory ≡ 68)
    × ((n : ℕ) → field memory 64 n ≡ field (replicate 68 7) 64 n)
unfolding sample_publisher
store_header_lem_example = store_header_lem mono (replicate 68 7) mono-InRange (omega arith)

initialize-Initialized_example :
    let (after, ok) = initialize sevens mono in Initialized sevens mono after ok
unfolding sample_publisher
initialize-Initialized_example =
    initialize-Initialized sevens mono mono-InRange refl (λ fd size m e.
      ap length (sym (some-injective (replicate size 7) m e)) ∙ length-replicate size 7)

publish-Published_example :
    Published ready_mono memory
      (1 ∷ 2 ∷ 3 ∷ 4 ∷ 5 ∷ 6 ∷ [])
      4
      1000
      (publish ready_mono (1 ∷ 2 ∷ 3 ∷ 4 ∷ 5 ∷ 6 ∷ []) 3 1000)
unfolding sample_publisher
publish-Published_example =
    publish-Published ready_mono memory (1 ∷ 2 ∷ 3 ∷ 4 ∷ 5 ∷ 6 ∷ []) 3 1000 mono-IsMapped
      (omega arith) (omega arith) (omega arith) (omega arith)

counter_zero : of_le (field memory 16 8) ≡ 0
unfolding store_header memcpy sample_publisher
counter_zero = refl

abbrev five : Consumer
five = record { last_counter = 0; periods = 5 }

abbrev period : List ℕ
period = 1 ∷ 2 ∷ 3 ∷ 4 ∷ []

poll-publish_example :
    ((k : ℕ)
      → k < 3
      → poll five (store_all (take k (stores ready_mono period 2 1000)) memory) ≡ five)
    × ((m : List ℕ) × ((publish ready_mono period 2 1000).shm ≡ some m)
        × (m ≡ store_all (stores ready_mono period 2 1000) memory)
        × (poll five m ≡ record { last_counter = 1; periods = 6 })
        × (field m 64 4 ≡ period))
unfolding sample_publisher stores
poll-publish_example =
    poll-publish ready_mono memory period 2 1000 five mono-IsMapped counter_zero (omega arith) refl
      (omega arith) (omega arith) (omega arith) (omega arith)

cleanup_lem_example :
    Released ready_mono (cleanup ready_mono)
    × (publish (cleanup ready_mono) (1 ∷ 2 ∷ []) 1 1000 ≡ cleanup ready_mono)
    × (cleanup (cleanup ready_mono) ≡ cleanup ready_mono)
    × ((cleanup ready_mono).shm ≡ none)
    × ((cleanup ready_mono).shm_fd ≡ none)
cleanup_lem_example = cleanup_lem ready_mono (1 ∷ 2 ∷ []) 1 1000
