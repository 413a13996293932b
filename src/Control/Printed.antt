-- ===== src/Control/Printed.antt =====
-- What a client prints is parsed as the command that it means.
use mathlib.Core.List.{append-nil}
use mathlib.Core.Path.{ap₂}
use ws_audiod.Base.{
  ℕ, suc, ◌-◌, ◌≡◌, refl, sym, ap, ◌∙◌, true, false, Option, some, [], ◌∷◌, ◌++◌, arith, map, Text,
  codes, text_eq, ltb, leb, ◌==◌, if◌then◌else◌, ℤ, pos, negsuc, Fits,
}
use ws_audiod.Config.Number.{is_space, skip_space, sign}
use ws_audiod.Config.Number.Decimal.{decimal, decimal-Printed, starts, Ends, drop_digits_lem}
use ws_audiod.Control.{
  Command, clip, set, get, toupper, tolower, word_of, behind_word, cut_int, int_of, read_int,
  with_end, with_format, parse_clip, parse_set, parse_get, parse_command, no_command,
}

unfoldable pub print_int : ℤ → Text
print_int (pos n) = decimal n
print_int (negsuc n) = 45 ∷ decimal (suc n)

-- No blank.
abbrev pub Solid : Text → Type 0
Solid [] = Unit
Solid (c ∷ s) = (is_space c ≡ false) × Solid s

-- What stands behind a word.
abbrev pub Apart : Text → Type 0
Apart [] = Unit
Apart (c ∷ s) = is_space c ≡ true

word_lem :
    (s rest : Text)
    → Solid s
    → Apart rest
    → (word_of (s ++ rest) ≡ s) × (behind_word (s ++ rest) ≡ rest)
unfolding word_of behind_word
word_lem [] [] h k = (refl, refl)
word_lem [] (c ∷ rest) h k = rw k (refl, refl)
word_lem (c ∷ s) rest h k =
    let (word, behind) = word_lem s rest h.1 k in rw (h.0) (ap (◌∷◌ c) word, behind)

-- A number behind a blank is read, up to what stands behind it.
read_int_lem :
    (v : ℤ) (rest : Text)
    → Fits 2147483648 v
    → Ends rest
    → read_int (32 ∷ (print_int v ++ rest)) ≡ (v, some rest)
unfolding read_int int_of cut_int print_int skip_space sign
read_int_lem (pos n) rest h ends =
    let p = decimal-Printed n in
    let small : ltb n 2147483648 ≡ true = ground arith in
    ap int_of (starts p rest)
    ∙ rw (int_of, p.reads rest ends, cut_int, small)
        (ap (λ t. (pos n, some t)) (drop_digits_lem (decimal n) rest p.all ends))
read_int_lem (negsuc n) rest h ends =
    let p = decimal-Printed (suc n) in
    let some_digit : (suc n == 0) ≡ false = ground arith in
    let small : leb (suc n) 2147483648 ≡ true = ground arith in
    let same : suc n - 1 ≡ n = omega arith in
    rw (int_of, p.reads rest ends, cut_int, some_digit, small, same)
      (ap (λ t. (negsuc n, some t)) (drop_digits_lem (decimal (suc n)) rest p.all ends))

-- A word is not skipped.
skip_solid : (c : ℕ) (s : Text) → is_space c ≡ false → skip_space (c ∷ s) ≡ c ∷ s
unfolding skip_space
skip_solid c s h = rw h refl

last_word : (s : Text) → Solid s → word_of (skip_space (32 ∷ s)) ≡ s
unfolding skip_space
last_word [] h = (word_lem [] [] tt tt).0
last_word (c ∷ s) h =
    ap word_of (skip_solid c s (h.0))
    ∙ ap word_of (sym (append-nil (c ∷ s)))
    ∙ (word_lem (c ∷ s) [] h tt).0

-- Lines that mean a command. The command word is of any case, a clip may have a format in lower case, a
-- key to get is in upper case, and no word has blanks; a value, a format and a key to get may be
-- empty.
pub data Means : Text → Command → Type 0 where
  a_clip :
      (w : Text) (begin stop : ℤ) (format : Text)
      → Solid w
      → map toupper w ≡ codes "CLIP"
      → Fits 2147483648 begin
      → Fits 2147483648 stop
      → Solid format
      → map tolower format ≡ format
      → Means
          (w ++ (32 ∷ (print_int begin ++ (32 ∷ (print_int stop ++ (32 ∷ format))))))
          (record { type = clip; int_value = begin; int_value2 = stop; key = format; value = [] })
  a_plain_clip :
      (w : Text) (begin stop : ℤ)
      → Solid w
      → map toupper w ≡ codes "CLIP"
      → Fits 2147483648 begin
      → Fits 2147483648 stop
      → Means
          (w ++ (32 ∷ (print_int begin ++ (32 ∷ print_int stop))))
          (record { type = clip; int_value = begin; int_value2 = stop; key = []; value = [] })
  a_set :
      (w : Text) (c : ℕ) (key value : Text)
      → Solid w
      → map toupper w ≡ codes "SET"
      → Solid (c ∷ key)
      → Solid value
      → Means (w ++ (32 ∷ ((c ∷ key) ++ (32 ∷ value)))) (record {
        type = set;
        int_value = pos 0;
        int_value2 = pos 0;
        key = c ∷ key;
        value = value;
      })
  a_get :
      (w key : Text)
      → Solid w
      → map toupper w ≡ codes "GET"
      → Solid key
      → map toupper key ≡ key
      → Means
          (w ++ (32 ∷ key))
          (record { type = get; int_value = pos 0; int_value2 = pos 0; key = key; value = [] })

parse_word : Text → Text → Command
parse_word word rest =
    if text_eq word (codes "CLIP")
    then parse_clip rest
    else if text_eq word (codes "SET")
    then parse_set rest
    else if text_eq word (codes "GET")
    then parse_get rest
    else no_command

-- The command word and what stands behind it.
command_word :
    (w : Text) (c : ℕ) (word : Text) (rest : Text)
    → Solid w
    → map toupper w ≡ c ∷ word
    → Apart rest
    → parse_command (w ++ rest) ≡ parse_word (c ∷ word) rest
unfolding parse_command parse_word
command_word [] c word rest h e k = cc
command_word (d ∷ w) c word rest h e k =
    let skipped : skip_space (d ∷ (w ++ rest)) ≡ d ∷ (w ++ rest) = skip_solid d (w ++ rest) (h.0) in
    let (first, behind) = word_lem (d ∷ w) rest h k in
    ap (λ t. parse_word (map toupper (word_of t)) (behind_word t)) skipped
    ∙ ap₂ (λ t u. parse_word (map toupper t) u) first behind
    ∙ ap (λ t. parse_word t rest) e

-- A line that means a command is parsed as that command.
pub parse_command-Means : (line : Text) (cmd : Command) → Means line cmd → parse_command line ≡ cmd
unfolding skip_space word_of parse_word text_eq parse_clip with_end with_format parse_set parse_get
parse_command-Means line cmd (a_clip w begin stop format solid word fits fits' plain lower) =
    let tail : Text = 32 ∷ (print_int stop ++ (32 ∷ format)) in
    command_word w 67 (codes "LIP") (32 ∷ (print_int begin ++ tail)) solid word refl
    ∙ ap
        (λ (t : ℤ × Option Text). with_end (record no_command { type = clip; int_value = t.0 }) t.1)
        (read_int_lem begin tail fits refl)
    ∙ ap
        (λ (t : ℤ × Option Text).
          with_format (record no_command { type = clip; int_value = begin; int_value2 = t.0 }) t.1)
        (read_int_lem stop (32 ∷ format) fits' refl)
    ∙ ap (λ k. record no_command { type = clip; int_value = begin; int_value2 = stop; key = k })
        (ap (map tolower) (last_word format plain) ∙ lower)
parse_command-Means line cmd (a_plain_clip w begin stop solid word fits fits') =
    let tail : Text = 32 ∷ print_int stop in
    command_word w 67 (codes "LIP") (32 ∷ (print_int begin ++ tail)) solid word refl
    ∙ ap
        (λ (t : ℤ × Option Text). with_end (record no_command { type = clip; int_value = t.0 }) t.1)
        (read_int_lem begin tail fits refl)
    ∙ ap
        (λ (t : ℤ × Option Text).
          with_format (record no_command { type = clip; int_value = begin; int_value2 = t.0 }) t.1)
        (ap (λ s. read_int (32 ∷ s)) (sym (append-nil (print_int stop)))
          ∙ read_int_lem stop [] fits' tt)
parse_command-Means line cmd (a_set w c key value solid word plain plain') =
    let skipped = skip_solid c (key ++ (32 ∷ value)) (plain.0) in
    let (word', behind') = word_lem (c ∷ key) (32 ∷ value) plain refl in
    let first = ap word_of skipped ∙ word' in
    let behind = ap behind_word skipped ∙ behind' in
    command_word w 83 (codes "ET") (32 ∷ ((c ∷ key) ++ (32 ∷ value))) solid word refl
    ∙ ap₂ (λ k v. record no_command { type = set; key = k; value = v }) first
        (ap (λ t. word_of (skip_space t)) behind ∙ last_word value plain')
parse_command-Means line cmd (a_get w key solid word plain upper) =
    command_word w 71 (codes "ET") (32 ∷ key) solid word refl
    ∙ ap (λ k. record no_command { type = get; key = k })
        (ap (map toupper) (last_word key plain) ∙ upper)
