-- ===== src/Circular.antt =====
-- A byte array used in circles, as the RingBuffer and the BlockRecorder's queue use theirs: position
-- `p` of the stream stands in cell `p % n`, and copies stop at the end of the array.
pub mod Round
use native.Mathlib.Nat.{div-add-mod, mod-lt, mul-add-mod_self_left, mod-eq_of_lt}
use mathlib.Core.List.{append_assoc}
use mathlib.Core.Path.{ap₂}
use ws_audiod.Base.{
  memcpy-append, drop-add, take-add, min, take_all, take-append-drop, length-memcpy, ltb,
  if◌then◌else◌, true, false, ℕ, zero, suc, ◌+◌, ◌-◌, ◌*◌, ◌/◌, ◌%◌, ◌≤◌, ◌<◌, ◌≡◌, refl, sym, ap,
  ◌∙◌, ◌⊎◌, inl, inr, List, ◌++◌, arith, dec_lt, dec_le, length, get_or, take, drop, memcpy,
  get_or-memcpy_in, get_or-memcpy_out, length-append, length-take, length-drop, get_or-append_left,
  get_or-append_right, get_or-take, get_or-drop, list_ext,
}

-- The last `n` bytes of the stream stand in their cells.
abbrev pub Holds : ℕ → List ℕ → List ℕ → Type 0
Holds n cells stream =
    (p : ℕ) → p < length stream → length stream ≤ p + n → get_or cells (p % n) 0 ≡ get_or stream p 0

-- The part of a stream from position `at` on.
abbrev pub slice : ℕ → ℕ → List ℕ → List ℕ
slice at k stream = take k (drop at stream)

pub mod_of_split : (n q r p : ℕ) → p ≡ n * q + r → r < n → p % n ≡ r
mod_of_split n q r p e h = ap (λ t. t % n) e ∙ mul-add-mod_self_left n q r ∙ mod-eq_of_lt h

-- The positions that follow `l` stand in the cells that follow its cell.
pub mod_offset : (n l i j : ℕ) → i ≡ l % n → i + j < n → (l + j) % n ≡ i + j
mod_offset n l i j e h = mod_of_split n (l / n) (i + j) (l + j) (omega (arith, div-add-mod l n)) h

-- A position written before, and not more than a round ago, is in none of the cells written now.
mod_apart :
    (n l i k p : ℕ)
    → i ≡ l % n
    → i < n
    → i + k ≤ n
    → p < l
    → l + k ≤ p + n
    → (p % n < i) ⊎ (i + k ≤ p % n)
mod_apart n l i k p e small h lt le = elim (dec_le (n * (l / n)) p) [
  | yes same ↦
      let r : ℕ = p - n * (l / n) in
      let eq = mod_of_split n (l / n) r p (omega arith) (omega (arith, div-add-mod l n)) in
      inl (omega (arith, eq, div-add-mod l n))
  | no before ↦ earlier (l / n) (div-add-mod l n) before
]
  where
    earlier : (q : ℕ) → n * q + l % n ≡ l → ¬ (n * q ≤ p) → (p % n < i) ⊎ (i + k ≤ p % n)
    earlier zero split before = absurd (before (omega arith))
    earlier (suc q) split before =
        let r : ℕ = p - n * q in
        let eq = mod_of_split n q r p (omega arith) (omega arith) in inr (omega (arith, eq))

module _ (n : ℕ) (cells stream : List ℕ) (at k : ℕ) (src : List ℕ) where
  -- One copy appends its bytes to the stream.
  pub memcpy-Holds :
      length cells ≡ n
      → at ≡ length stream % n
      → at < n
      → at + k ≤ n
      → k ≤ length src
      → Holds n cells stream
      → Holds n (memcpy cells at src k) (stream ++ take k src)
  memcpy-Holds size cell below fits enough holds p lt le = elim (dec_lt p (length stream)) [
    | yes old ↦
        get_or-memcpy_out cells at src k (p % n) 0
          (mod_apart n (length stream) at k p cell below fits old (omega (arith, total)))
        ∙ holds p old (omega (arith, total))
        ∙ sym (get_or-append_left stream (take k src) p 0 old)
    | no new ↦
        let j : ℕ = p - length stream in
        let near : j < k = omega (arith, total) in
        let place : p % n ≡ at + j =
          ap (λ t. t % n) (omega arith) ∙ mod_offset n (length stream) at j cell (omega arith) in
        get_or-memcpy_in cells at src k (p % n) j 0 (omega arith) enough near place
        ∙ sym (get_or-take k src j 0 near)
        ∙ sym (get_or-append_right stream (take k src) p j 0 (omega arith))
  ]
    where
      total : length (stream ++ take k src) ≡ length stream + k
      total = omega (arith, length-append stream (take k src), length-take k src)

-- What a copy out of the array reads is a part of the stream.
pub slice-Holds :
    (n : ℕ) (cells stream : List ℕ) (at a k : ℕ)
    → length cells ≡ n
    → at ≡ a % n
    → at + k ≤ n
    → a + k ≤ length stream
    → length stream ≤ a + n
    → Holds n cells stream
    → slice at k cells ≡ slice a k stream
slice-Holds n cells stream at a k size cell fits inside recent holds =
    list_ext 0 (slice at k cells) (slice a k stream)
      (omega (
        arith,
        length-take k (drop at cells),
        length-drop at cells,
        length-take k (drop a stream),
        length-drop a stream,
      ))
      λ i below.
        let near : i < k = omega (arith, length-take k (drop at cells)) in
        get_or-take k (drop at cells) i 0 near
        ∙ get_or-drop at cells i (at + i) 0 refl
        ∙ ap (λ t. get_or cells t 0) (sym (mod_offset n a at i cell (omega arith)))
        ∙ holds (a + i) (omega arith) (omega arith)
        ∙ sym (get_or-drop a stream i (a + i) 0 refl)
        ∙ sym (get_or-take k (drop a stream) i 0 near)
