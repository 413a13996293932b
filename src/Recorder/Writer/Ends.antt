-- ===== src/Recorder/Writer/Ends.antt =====
-- The files before the first batch, and after the last: `close_current_file` at the end of the
-- writer thread.
use mathlib.Core.List.{append-nil}
use ws_audiod.Base.{ℕ, ◌*◌, ◌<◌, ◌≡◌, refl, sym, ap, ◌∙◌, none, some, List, [], ◌∷◌, ◌++◌, length}
use ws_audiod.Recorder.Writer.{Params, File, Files, fresh_files, close_current_file}
use ws_audiod.Recorder.Writer.Blocks.{
  IsBlocked, AllWhole, emitted, all_samples, open_samples, all_samples-append,
}

pub fresh_files-IsBlocked : (s : Params) → IsBlocked s fresh_files
unfolding fresh_files
fresh_files-IsBlocked s = record { whole = tt; partial = tt; counted = refl }

pub emitted-fresh_files : emitted fresh_files ≡ []
unfolding fresh_files emitted all_samples open_samples
emitted-fresh_files = refl

-- All files are closed and whole, but for the last one, which may be shorter.
pub data Finished (s : Params) (files : List File) : Type 0 where
  even : AllWhole s files → Finished s files
  odd :
      (before : List File) (last : File) (frames : ℕ)
      → files ≡ before ++ (last ∷ [])
      → AllWhole s before
      → length last.samples ≡ frames * s.channels
      → frames < s.block_frames
      → Finished s files

-- No sample is lost when the writer closes its file, and no file is open.
pub close_current_file-Finished :
    (s : Params) (w : Files)
    → IsBlocked s w
    → (all_samples (close_current_file w).closed ≡ emitted w)
      × ((close_current_file w).sndfile ≡ none)
      × Finished s (close_current_file w).closed
unfolding close_current_file emitted all_samples open_samples
close_current_file-Finished s w b =
    (elim w.sndfile
        as (λ t.
          let w' = record w { sndfile = t } in
          IsBlocked s w'
          → (all_samples (close_current_file w').closed ≡ emitted w')
            × ((close_current_file w').sndfile ≡ none)
            × Finished s (close_current_file w').closed) [
              | none ↦ λ b. (sym (append-nil _), refl, even b.whole)
              | some file ↦ λ b. (
                all_samples-append w.closed (file ∷ [])
                    ∙ ap (◌++◌ (all_samples w.closed)) (append-nil file.samples),
                refl,
                odd w.closed file w.frames_in_block refl b.whole b.partial.0 b.partial.1,
              )
            ])
      b
