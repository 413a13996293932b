-- ===== src/Recorder/Writer/Blocks.antt =====
-- The files between two batches: those that are closed hold a whole block, the open one less.
use mathlib.Core.List.{append_assoc, append-nil}
use native.Mathlib.Nat.{mod-eq_of_lt}
use ws_audiod.Base.{
  ℕ, ◌+◌, ◌-◌, ◌*◌, ◌/◌, ◌%◌, ◌^◌, ◌≤◌, ◌<◌, ◌≡◌, refl, sym, ap, subst, ◌∙◌, ◌⊎◌, Bool, true, false,
  Option, none, some, List, [], ◌∷◌, ◌++◌, arith, length, length-append, dec_le, leb, add_size,
  mul_size, Bool-cases, inl, inr,
}
use ws_audiod.Pcm.{width, unpack}
use ws_audiod.Pcm.Unpack.{length-unpack}
use ws_audiod.Recorder.Writer.{
  Outside, Params, File, Files, open_next_file, ensure_open, write_batch, close_current_file,
  finish_block,
}

-- The settings that the code is made for.
pub record IsSane (s : Params) : Type 0 where
  pub depth : s.bits_per_sample / 8 ≡ width s.bits_per_sample
  pub some_channels : 0 < s.channels
  pub frame : s.bytes_per_frame ≡ s.channels * width s.bits_per_sample
  pub some_frames : 0 < s.block_frames
  pub small : s.block_frames < 2 ^ 64

unfoldable pub all_samples : List File → List ℕ
all_samples [] = []
all_samples (file ∷ files) = file.samples ++ all_samples files

unfoldable pub open_samples : Option File → List ℕ
open_samples none = []
open_samples (some file) = file.samples

-- The samples of all files, oldest first.
unfoldable pub emitted : Files → List ℕ
emitted w = all_samples w.closed ++ open_samples w.sndfile

abbrev pub AllWhole : Params → List File → Type 0
AllWhole s [] = Unit {0}
AllWhole s (file ∷ files) = (length file.samples ≡ s.block_frames * s.channels) × AllWhole s files

abbrev pub Partial : Params → ℕ → Option File → Type 0
Partial s frames none = Unit {0}
Partial s frames (some file) =
    (length file.samples ≡ frames * s.channels) × (frames < s.block_frames)

pub record IsBlocked (s : Params) (w : Files) : Type 0 where
  pub whole : AllWhole s w.closed
  pub partial : Partial s w.frames_in_block w.sndfile
  pub counted : w.blocks_written ≡ length w.closed % 2 ^ 64

pub all_samples-append :
    (xs ys : List File) → all_samples (xs ++ ys) ≡ all_samples xs ++ all_samples ys
unfolding all_samples
all_samples-append [] ys = refl
all_samples-append (x ∷ xs) ys = rw (all_samples-append xs ys, append_assoc)

AllWhole-append :
    (s : Params) (xs : List File) (y : File)
    → AllWhole s xs
    → length y.samples ≡ s.block_frames * s.channels
    → AllWhole s (xs ++ (y ∷ []))
AllWhole-append s [] y h k = (k, tt)
AllWhole-append s (x ∷ xs) y h k = (h.0, AllWhole-append s xs y h.1 k)

one_more :
    (n : ℕ) (xs : List File) (y : File)
    → n ≡ length xs % 2 ^ 64
    → add_size n 1 ≡ length (xs ++ (y ∷ [])) % 2 ^ 64
one_more n xs y e = omega (arith, length-append xs (y ∷ []))

-- What an operation on the files does: it keeps them in blocks and hands `new` over.
pub record Hands (s : Params) (w w' : Files) (new : List ℕ) : Type 0 where
  pub blocked : IsBlocked s w'
  pub grown : emitted w' ≡ emitted w ++ new

-- What making sure of an open file gives: such a file, or a refusal that leaves the files alone.
abbrev pub Ensured : Params → Outside → Files → Files × Bool → Type 0
Ensured s o w (w', opened) =
    ((opened ≡ true) × Hands s w w' [] × ((file : File) × (w'.sndfile ≡ some file)))
    ⊎ ((opened ≡ false) × Hands s w w' [] × (o.opens w.open_calls ≡ false))

opening :
    (s : Params) (o : Outside) (w : Files)
    → IsSane s
    → IsBlocked s (record w { sndfile = none })
    → Ensured s o (record w { sndfile = none }) (ensure_open s o (record w { sndfile = none }))
unfolding ensure_open open_next_file emitted open_samples
opening s o w sane b = elim (Bool-cases (o.opens w.open_calls)) [
  | inl good ↦ rw good (
      inl (
        refl,
        record {
          blocked = record {
            whole = b.whole;
            partial = (omega arith, sane.some_frames);
            counted = b.counted;
          };
          grown = sym (append-nil _);
        },
        (_, refl),
      ))
  | inr bad ↦ rw bad (
      inr (
        refl,
        record {
          blocked = record { whole = b.whole; partial = tt; counted = b.counted };
          grown = sym (append-nil _);
        },
        refl,
      ))
]

keeping :
    (s : Params) (o : Outside) (w : Files) (file : File)
    → IsBlocked s (record w { sndfile = some file })
    → Ensured s o
        (record w { sndfile = some file })
        (ensure_open s o (record w { sndfile = some file }))
unfolding ensure_open
keeping s o w file b = inl (refl, record { blocked = b; grown = sym (append-nil _) }, (file, refl))

pub ensure_open-Ensured :
    (s : Params) (o : Outside) (w : Files)
    → IsSane s
    → IsBlocked s w
    → Ensured s o w (ensure_open s o w)
ensure_open-Ensured s o w sane b =
    (elim w.sndfile
        as (λ t.
          IsBlocked s (record w { sndfile = t })
          → Ensured s o (record w { sndfile = t }) (ensure_open s o (record w { sndfile = t }))) [
            | none ↦ opening s o w sane
            | some file ↦ keeping s o w file
          ])
      b

filled_length :
    (s : Params) (w : Files) (file : File) (src : List ℕ) (batch : ℕ)
    → Partial s w.frames_in_block (some file)
    → length (file.samples ++ unpack s.bits_per_sample (batch * s.channels) src)
      ≡ (w.frames_in_block + batch) * s.channels
filled_length s w file src batch p =
    length-append file.samples (unpack s.bits_per_sample (batch * s.channels) src)
    ∙ omega (arith, length-unpack s.bits_per_sample (batch * s.channels) src, p.0)

batch_open :
    (s : Params) (o : Outside) (w : Files) (file : File) (src : List ℕ) (batch : ℕ)
    → IsSane s
    → batch ≤ s.block_frames - w.frames_in_block
    → batch * s.channels < 2 ^ 64
    → IsBlocked s (record w { sndfile = some file })
    → let w = record w { sndfile = some file } in
      Hands s w
        (finish_block s (write_batch s o w src batch))
        (unpack s.bits_per_sample (batch * s.channels) src)
unfolding finish_block write_batch close_current_file emitted open_samples all_samples
batch_open s o w file src batch sane fits small b =
    let items : mul_size batch s.channels ≡ batch * s.channels = mod-eq_of_lt small in
    let total : add_size w.frames_in_block batch ≡ w.frames_in_block + batch =
      mod-eq_of_lt (omega (arith, sane.small, b.partial.1)) in
    let size = filled_length s w file src batch b.partial in
    rw (items, total)
      (elim (dec_le s.block_frames (w.frames_in_block + batch)) [
        | yes full ↦
            let test : leb s.block_frames (w.frames_in_block + batch) ≡ true = ground arith in
            rw test (record {
              blocked = record {
                whole =
                    AllWhole-append s w.closed _ b.whole
                      (size ∙ ap (λ (t : ℕ). t * s.channels) (omega arith));
                partial = tt;
                counted = one_more w.blocks_written w.closed _ b.counted;
              };
              grown = simp (all_samples-append, append-nil, append_assoc);
            })
        | no less ↦
            let test : leb s.block_frames (w.frames_in_block + batch) ≡ false = ground arith in
            rw test (record {
              blocked = record {
                whole = b.whole;
                partial = (size, omega arith);
                counted = b.counted;
              };
              grown = simp append_assoc;
            })
      ])

-- A batch that fits into the block of an open file is handed over whole; a block that it fills is
-- closed.
pub batch-Hands :
    (s : Params) (o : Outside) (w : Files) (file : File) (src : List ℕ) (batch : ℕ)
    → IsSane s
    → IsBlocked s w
    → w.sndfile ≡ some file
    → batch ≤ s.block_frames - w.frames_in_block
    → batch * s.channels < 2 ^ 64
    → Hands s w
        (finish_block s (write_batch s o w src batch))
        (unpack s.bits_per_sample (batch * s.channels) src)
batch-Hands s o w file src batch sane b e fits small =
    subst
      (λ t.
        IsBlocked s (record w { sndfile = t })
        → Hands s (record w { sndfile = t })
            (finish_block s (write_batch s o (record w { sndfile = t }) src batch))
            (unpack s.bits_per_sample (batch * s.channels) src))
      (sym e) (batch_open s o w file src batch sane fits small) b

pub Hands-trans :
    {s : Params} {a b c : Files} {xs ys : List ℕ}
    → Hands s a b xs
    → Hands s b c ys
    → Hands s a c (xs ++ ys)
Hands-trans {xs = xs} {ys = ys} h k = record {
  blocked = k.blocked;
  grown = k.grown ∙ ap (λ t. t ++ ys) h.grown ∙ append_assoc _ xs ys;
}

-- An open file has room for a frame.
pub open-lt :
    (s : Params) (w : Files) (file : File)
    → IsBlocked s w
    → w.sndfile ≡ some file
    → w.frames_in_block < s.block_frames
open-lt s w file b e = (subst (Partial s w.frames_in_block) e b.partial).1
