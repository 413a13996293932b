-- ===== src/Base/Lists.antt =====
-- Lists measured and indexed by native numbers, under the library's names.
use Prim.Native.Nat.{ℕ, zero, suc, ◌+◌, ◌-◌, ◌≤◌, ◌<◌, min}
use mathlib.Core.Path.{◌≡◌, refl, ap}
use mathlib.Core.List.{List, [], ◌∷◌, ◌++◌, map}
use mathlib.Core.Logic.{◌⊎◌}
use native.Mathlib.Omega.{arith}

module _ {ℓ} {A : Type ℓ} where
  abbrev pub length : List A → ℕ
  length [] = 0
  length (x ∷ xs) = suc (length xs)

  abbrev pub get_or : List A → ℕ → A → A
  get_or [] i d = d
  get_or (x ∷ xs) zero d = x
  get_or (x ∷ xs) (suc i) d = get_or xs i d

  abbrev pub take : ℕ → List A → List A
  take zero xs = []
  take (suc n) [] = []
  take (suc n) (x ∷ xs) = x ∷ take n xs

  abbrev pub drop : ℕ → List A → List A
  drop zero xs = xs
  drop (suc n) [] = []
  drop (suc n) (x ∷ xs) = drop n xs

  abbrev pub replicate : ℕ → A → List A
  replicate zero a = []
  replicate (suc n) a = a ∷ replicate n a

  pub length-append : (xs ys : List A) → length (xs ++ ys) ≡ length xs + length ys
  length-append [] ys = omega arith
  length-append (x ∷ xs) ys = omega (arith, length-append xs ys)

  pub length-replicate : (n : ℕ) (a : A) → length (replicate n a) ≡ n
  length-replicate zero a = refl
  length-replicate (suc n) a = ap suc (length-replicate n a)

  pub length-take : (n : ℕ) (xs : List A) → length (take n xs) ≡ min n (length xs)
  length-take zero xs = omega arith
  length-take (suc n) [] = omega arith
  length-take (suc n) (x ∷ xs) = omega (arith, length-take n xs)

  pub length-drop : (n : ℕ) (xs : List A) → length (drop n xs) ≡ length xs - n
  length-drop zero xs = omega arith
  length-drop (suc n) [] = omega arith
  length-drop (suc n) (x ∷ xs) = omega (arith, length-drop n xs)

  pub take-append-drop : (n : ℕ) (xs : List A) → take n xs ++ drop n xs ≡ xs
  take-append-drop zero xs = refl
  take-append-drop (suc n) [] = refl
  take-append-drop (suc n) (x ∷ xs) = rw (take-append-drop n xs)

  pub take_all : (n : ℕ) (xs : List A) → length xs ≤ n → take n xs ≡ xs
  take_all zero [] h = refl
  take_all zero (x ∷ xs) h = absurd (omega arith)
  take_all (suc n) [] h = refl
  take_all (suc n) (x ∷ xs) h = ap (◌∷◌ x) (take_all n xs (omega arith))

  -- Taking `m` and then `n` more is taking `m + n`.
  pub take-add : (m n k : ℕ) (xs : List A) → k ≡ m + n → take k xs ≡ take m xs ++ take n (drop m xs)
  take-add zero n k xs e = ap (λ j. take j xs) (omega arith)
  take-add (suc m) zero zero xs e = absurd (omega arith)
  take-add (suc m) (suc n) zero xs e = absurd (omega arith)
  take-add (suc m) zero (suc k) [] e = refl
  take-add (suc m) (suc n) (suc k) [] e = refl
  take-add (suc m) n (suc k) (x ∷ xs) e = ap (◌∷◌ x) (take-add m n k xs (omega arith))

  pub drop-add : (m n k : ℕ) (xs : List A) → k ≡ m + n → drop k xs ≡ drop n (drop m xs)
  drop-add zero n k xs e = ap (λ j. drop j xs) (omega arith)
  drop-add (suc m) n zero xs e = absurd (omega arith)
  drop-add (suc m) zero (suc k) [] e = refl
  drop-add (suc m) (suc n) (suc k) [] e = refl
  drop-add (suc m) n (suc k) (x ∷ xs) e = drop-add m n k xs (omega arith)

  pub get_or-append_left :
      (xs ys : List A) (i : ℕ) (d : A) → i < length xs → get_or (xs ++ ys) i d ≡ get_or xs i d
  get_or-append_left [] ys i d h = absurd (omega arith)
  get_or-append_left (x ∷ xs) ys zero d h = refl
  get_or-append_left (x ∷ xs) ys (suc i) d h = get_or-append_left xs ys i d (omega arith)

  pub get_or-append_right :
      (xs ys : List A) (i j : ℕ) (d : A) → i ≡ length xs + j → get_or (xs ++ ys) i d ≡ get_or ys j d
  get_or-append_right [] ys i j d e = ap (λ k. get_or ys k d) (omega arith)
  get_or-append_right (x ∷ xs) ys zero j d e = absurd (omega arith)
  get_or-append_right (x ∷ xs) ys (suc i) j d e = get_or-append_right xs ys i j d (omega arith)

  pub get_or-take :
      (n : ℕ) (xs : List A) (i : ℕ) (d : A) → i < n → get_or (take n xs) i d ≡ get_or xs i d
  get_or-take zero xs i d h = absurd (omega arith)
  get_or-take (suc n) [] i d h = refl
  get_or-take (suc n) (x ∷ xs) zero d h = refl
  get_or-take (suc n) (x ∷ xs) (suc i) d h = get_or-take n xs i d (omega arith)

  pub get_or-drop :
      (n : ℕ) (xs : List A) (i j : ℕ) (d : A) → j ≡ n + i → get_or (drop n xs) i d ≡ get_or xs j d
  get_or-drop zero xs i j d e = ap (λ k. get_or xs k d) (omega arith)
  get_or-drop (suc n) [] i j d e = refl
  get_or-drop (suc n) (x ∷ xs) i zero d e = absurd (omega arith)
  get_or-drop (suc n) (x ∷ xs) i (suc j) d e = get_or-drop n xs i j d (omega arith)

  -- Lists of one length that agree at every index are equal.
  pub list_ext :
      (d : A) (xs ys : List A)
      → length xs ≡ length ys
      → ((i : ℕ) → i < length xs → get_or xs i d ≡ get_or ys i d)
      → xs ≡ ys
  list_ext d [] [] e h = refl
  list_ext d [] (y ∷ ys) e h = absurd (omega arith)
  list_ext d (x ∷ xs) [] e h = absurd (omega arith)
  list_ext d (x ∷ xs) (y ∷ ys) e h =
      cc (h 0 (omega arith), list_ext d xs ys (omega arith) (λ i hi. h (suc i) (omega arith)))

module _ {ℓ} {A : Type ℓ} where
  pub drop-append_left :
      (n : ℕ) (xs ys : List A) → n ≤ length xs → drop n (xs ++ ys) ≡ drop n xs ++ ys
  drop-append_left zero xs ys h = refl
  drop-append_left (suc n) [] ys h = absurd (omega arith)
  drop-append_left (suc n) (x ∷ xs) ys h = drop-append_left n xs ys (omega arith)

  pub take-append_left : (n : ℕ) (xs ys : List A) → n ≤ length xs → take n (xs ++ ys) ≡ take n xs
  take-append_left zero xs ys h = refl
  take-append_left (suc n) [] ys h = absurd (omega arith)
  take-append_left (suc n) (x ∷ xs) ys h = ap (◌∷◌ x) (take-append_left n xs ys (omega arith))

  pub drop-take : (m n k : ℕ) (xs : List A) → k ≡ m + n → drop m (take k xs) ≡ take n (drop m xs)
  drop-take zero n k xs e = ap (λ j. take j xs) (omega arith)
  drop-take (suc m) n zero xs e = absurd (omega arith)
  drop-take (suc m) zero (suc k) [] e = refl
  drop-take (suc m) (suc n) (suc k) [] e = refl
  drop-take (suc m) n (suc k) (x ∷ xs) e = drop-take m n k xs (omega arith)

  pub drop-append_exact : (xs ys : List A) (n : ℕ) → length xs ≡ n → drop n (xs ++ ys) ≡ ys
  drop-append_exact [] ys zero h = refl
  drop-append_exact [] ys (suc n) h = absurd (omega arith)
  drop-append_exact (x ∷ xs) ys zero h = absurd (omega arith)
  drop-append_exact (x ∷ xs) ys (suc n) h = drop-append_exact xs ys n (omega arith)

module _ {ℓ κ} {A : Type ℓ} {B : Type κ} where
  pub length-map : (f : A → B) (xs : List A) → length (map f xs) ≡ length xs
  length-map f [] = refl
  length-map f (x ∷ xs) = ap suc (length-map f xs)

module _ {ℓ} {A : Type ℓ} where
  -- `xs[i] = a`.
  abbrev pub set_at : List A → ℕ → A → List A
  set_at [] i a = []
  set_at (x ∷ xs) zero a = a ∷ xs
  set_at (x ∷ xs) (suc i) a = x ∷ set_at xs i a

  pub length-set_at : (xs : List A) (i : ℕ) (a : A) → length (set_at xs i a) ≡ length xs
  length-set_at [] i a = refl
  length-set_at (x ∷ xs) zero a = refl
  length-set_at (x ∷ xs) (suc i) a = ap suc (length-set_at xs i a)

  pub get_or-set_at_same :
      (xs : List A) (i : ℕ) (a d : A) → i < length xs → get_or (set_at xs i a) i d ≡ a
  get_or-set_at_same [] i a d h = absurd (omega arith)
  get_or-set_at_same (x ∷ xs) zero a d h = refl
  get_or-set_at_same (x ∷ xs) (suc i) a d h = get_or-set_at_same xs i a d (omega arith)

  pub get_or-set_at_other :
      (xs : List A) (i j : ℕ) (a d : A)
      → (i < j) ⊎ (j < i)
      → get_or (set_at xs i a) j d ≡ get_or xs j d
  get_or-set_at_other [] i j a d h = refl
  get_or-set_at_other (x ∷ xs) zero zero a d h = absurd (omega arith)
  get_or-set_at_other (x ∷ xs) zero (suc j) a d h = refl
  get_or-set_at_other (x ∷ xs) (suc i) zero a d h = refl
  get_or-set_at_other (x ∷ xs) (suc i) (suc j) a d h = get_or-set_at_other xs i j a d (omega arith)
