-- ===== src/Circular/Round.antt =====
-- Copies into and out of such an array that go round its end, in two parts.
use native.Mathlib.Nat.{div-add-mod, mod-lt}
use mathlib.Core.List.{append_assoc}
use mathlib.Core.Path.{ap₂}
use ws_audiod.Base.{
  memcpy-append, drop-add, take-add, min, take_all, take-append-drop, length-memcpy, ltb,
  if◌then◌else◌, true, false, ℕ, suc, ◌+◌, ◌-◌, ◌/◌, ◌%◌, ◌≤◌, ◌<◌, ◌≡◌, refl, sym, ap, ◌∙◌, List,
  ◌++◌, arith, dec_lt, length, take, drop, memcpy, length-append, length-take, length-drop,
}
use ws_audiod.Circular.{Holds, slice, mod_of_split, memcpy-Holds, slice-Holds}

-- Behind the end of the array comes its start.
pub mod_round : (n l : ℕ) → 0 < n → (l + (n - l % n)) % n ≡ 0
mod_round n l h = mod_of_split n (suc (l / n)) 0 _ (omega (arith, div-add-mod l n, mod-lt l h)) h

-- A copy of `k` bytes that goes round the end of the array.
abbrev pub copy_round : ℕ → List ℕ → ℕ → List ℕ → ℕ → List ℕ
copy_round n cells at src k =
    let first = min k (n - at) in
    let cells' = memcpy cells at src first in
    if ltb first k then memcpy cells' 0 (drop first src) (k - first) else cells'

pub copy_round-Holds :
    (n : ℕ) (cells stream : List ℕ) (at : ℕ) (src : List ℕ)
    → length cells ≡ n
    → at ≡ length stream % n
    → 0 < n
    → length src ≤ n
    → Holds n cells stream
    → Holds n (copy_round n cells at src (length src)) (stream ++ src)
      × (length (copy_round n cells at src (length src)) ≡ n)
copy_round-Holds n cells stream at src size place some fits holds =
    let k : ℕ = length src in
    let first : ℕ = min k (n - at) in
    let below : at < n = omega (arith, place, mod-lt (length stream) some) in
    let size' = length-memcpy cells at src first ∙ size in
    let holds' =
      memcpy-Holds n cells stream at first src size place below (omega arith) (omega arith) holds in
    elim (dec_lt first k) [
      | yes more ↦
          let test : ltb first k ≡ true = ground arith in
          let turn : first ≡ n - length stream % n = omega (arith, place) in
          let start : 0 ≡ length (stream ++ take first src) % n = sym (
            ap (λ t. t % n)
              (length-append stream (take first src) ∙ omega (arith, length-take first src))
            ∙ mod_round n (length stream) some) in
          let rest =
            memcpy-Holds n (memcpy cells at src first) (stream ++ take first src) 0 (k - first)
              (drop first src) size' start some (omega arith) (omega (arith, length-drop first src))
              holds' in
          let whole : (stream ++ take first src) ++ take (k - first) (drop first src)
              ≡ stream ++ src =
            ap (◌++◌ (stream ++ take first src))
              (take_all (k - first) (drop first src) (omega (arith, length-drop first src)))
            ∙ append_assoc stream (take first src) (drop first src)
            ∙ ap (◌++◌ stream) (take-append-drop first src) in
          rw test (rw whole at rest, length-memcpy _ 0 (drop first src) (k - first) ∙ size')
      | no whole ↦
          let test : ltb first k ≡ false = ground arith in
          rw test (rw (take_all first src (omega arith)) at holds', size')
    ]

-- A copy of `k` bytes out of the array to `at`, from cell `pos` on and round the end.
abbrev pub copy_back : ℕ → List ℕ → ℕ → List ℕ → ℕ → ℕ → List ℕ
copy_back n cells pos buffer at k =
    let first = min k (n - pos) in
    let buffer' = memcpy buffer at (drop pos cells) first in
    if ltb first k then memcpy buffer' (at + first) cells (k - first) else buffer'

-- A copy into the middle of a buffer.
pub memcpy_at :
    (buffer src new : List ℕ) (at k : ℕ)
    → k ≤ length src
    → at + k ≤ length buffer
    → take k src ≡ new
    → memcpy buffer at src k ≡ take at buffer ++ (new ++ drop (at + k) buffer)
memcpy_at buffer src new at k enough room same =
    ap (λ t. memcpy t at src k) (sym (take-append-drop at buffer))
    ∙ memcpy-append (take at buffer) (drop at buffer) at src k
        (omega (arith, length-take at buffer)) enough (omega (arith, length-drop at buffer))
    ∙ rw (same, ← drop-add at k (at + k) buffer refl) refl

pub slice_next :
    (stream : List ℕ) (a m n k : ℕ)
    → k ≡ m + n
    → slice a m stream ++ slice (a + m) n stream ≡ slice a k stream
slice_next stream a m n k e =
    ap (λ t. slice a m stream ++ take n t) (drop-add a m (a + m) stream refl)
    ∙ sym (take-add m n k (drop a stream) e)

-- The copy that goes on behind `new`.
second_part :
    (buffer src new next : List ℕ) (at m k : ℕ)
    → k ≤ length src
    → length new ≡ m
    → at + m + k ≤ length buffer
    → take k src ≡ next
    → memcpy (take at buffer ++ (new ++ drop (at + m) buffer)) (at + m) src k
      ≡ take at buffer ++ ((new ++ next) ++ drop (at + m + k) buffer)
second_part buffer src new next at m k enough size room same =
    ap (λ t. memcpy t (at + m) src k)
      (sym (append_assoc (take at buffer) new (drop (at + m) buffer)))
    ∙ memcpy-append (take at buffer ++ new) (drop (at + m) buffer) (at + m) src k
        (omega (arith, length-append (take at buffer) new, length-take at buffer)) enough
        (omega (arith, length-drop (at + m) buffer))
    ∙ rw (same, ← drop-add (at + m) k (at + m + k) buffer refl)
        (append_assoc (take at buffer) new (next ++ drop (at + m + k) buffer)
          ∙ ap (◌++◌ (take at buffer)) (sym (append_assoc new next (drop (at + m + k) buffer))))

pub copy_back-Holds :
    (n : ℕ) (cells stream buffer : List ℕ) (a pos at k : ℕ)
    → length cells ≡ n
    → pos ≡ a % n
    → 0 < n
    → k ≤ n
    → a + k ≤ length stream
    → length stream ≤ a + n
    → at + k ≤ length buffer
    → Holds n cells stream
    → copy_back n cells pos buffer at k
      ≡ take at buffer ++ (slice a k stream ++ drop (at + k) buffer)
copy_back-Holds n cells stream buffer a pos at k size place some fits inside recent room holds =
    let first : ℕ = min k (n - pos) in
    let below : pos < n = omega (arith, place, mod-lt a some) in
    let same =
      slice-Holds n cells stream pos a first size place (omega arith) (omega arith) recent holds in
    let one =
      memcpy_at buffer (drop pos cells) (slice a first stream) at first
        (omega (arith, length-drop pos cells)) (omega arith) same in
    elim (dec_lt first k) [
      | yes more ↦
          let test : ltb first k ≡ true = ground arith in
          let turn : first ≡ n - a % n = omega (arith, place) in
          let start : 0 ≡ (a + first) % n = sym (ap (λ t. (a + t) % n) turn ∙ mod_round n a some) in
          let same' =
            slice-Holds n cells stream 0 (a + first) (k - first) size start (omega arith)
              (omega arith) (omega arith) holds in
          rw (test, one)
            (second_part buffer cells (slice a first stream) (slice (a + first) (k - first) stream)
                at first (k - first) (omega arith)
                (omega (arith, length-take first (drop a stream), length-drop a stream))
                (omega arith) same'
              ∙ ap₂ (λ x y. take at buffer ++ (x ++ drop y buffer))
                  (slice_next stream a first (k - first) k (omega arith)) (omega arith))
      | no whole ↦
          let test : ltb first k ≡ false = ground arith in
          let e : first ≡ k = omega arith in
          rw test (one ∙ ap (λ t. take at buffer ++ (slice a t stream ++ drop (at + t) buffer)) e)
    ]
