-- ===== src/Config/Args.antt =====
-- src/utils/config.cpp: `parse_args`, on the options that `getopt_long` finds.
pub mod Override
use ws_audiod.Base.{
  ℕ, ◌%◌, ◌^◌, Bool, true, false, Option, none, some, List, [], ◌∷◌, Text, if◌then◌else◌, Floating,
}
use ws_audiod.Ring.{◌>>=◌}
use ws_audiod.Config.{AudioConfig, DaemonConfig, default_config}
use ws_audiod.Config.Line.{is_empty}
use ws_audiod.Config.Number.{stoul}
use ws_audiod.Config.Load.{load_config}

-- The entries of `long_options`, with their arguments; `unknown` is what it reports as '?'.
pub data Argument : Type 0 where
  config_file socket device rate channels bits gain period_size block_record : Text → Argument
  shm debug help version unknown : Argument

-- The daemon goes on with its settings, ends with a code, or an exception ends it.
pub data Outcome {ℓ} (A : Type ℓ) : Type ℓ where
  runs : A → Outcome A
  exits : ℕ → Outcome A
  throws : Outcome A

abbrev pub or_throws {ℓ} : {A : Type ℓ} → Option A → Outcome A
or_throws none = throws
or_throws (some a) = runs a

module _ (m : Floating) where
  -- The cases that both loops share.
  unfoldable pub override : DaemonConfig m → Argument → Option (DaemonConfig m)
  override c (socket s) = some (record c { socket_path = s })
  override c (device s) = some (record c { audio = record (c.audio) { device = s } })
  override c (rate s) =
      stoul s >>= λ n. some (record c { audio = record (c.audio) { sample_rate = n % 2 ^ 32 } })
  override c (channels s) =
      stoul s >>= λ n. some (record c { audio = record (c.audio) { channels = n % 2 ^ 16 } })
  override c (bits s) =
      stoul s >>= λ n. some (record c { audio = record (c.audio) { bits_per_sample = n % 2 ^ 16 } })
  override c (gain s) =
      m.stof s >>= λ g. some (record c { audio = record (c.audio) { gain_db = g } })
  override c (period_size s) =
      stoul s >>= λ n. some (record c { audio = record (c.audio) { period_size = n % 2 ^ 32 } })
  override c (block_record s) = stoul s >>= λ n. some (record c {
    block_recorder = record (c.block_recorder) {
      enabled = true;
      block_duration_seconds = n % 2 ^ 32;
    };
  })
  override c shm = some (record c { enable_sample_sharing = true })
  override c (config_file s) = some c
  override c debug = some c
  override c help = some c
  override c version = some c
  override c unknown = some c

  -- The first loop: the settings, and the path of the file.
  unfoldable pub first_pass :
      DaemonConfig m → Text → List Argument → Outcome (DaemonConfig m × Text)
  first_pass c path [] = runs (c, path)
  first_pass c path (config_file s ∷ os) = first_pass c s os
  first_pass c path (debug ∷ os) = first_pass c path os
  first_pass c path (version ∷ os) = exits 0
  first_pass c path (help ∷ os) = exits 0
  first_pass c path (unknown ∷ os) = exits 1
  first_pass c path (o ∷ os) = elim (override c o) [
    | none ↦ throws
    | some c' ↦ first_pass c' path os
  ]

  -- The second one.
  unfoldable pub second_pass : DaemonConfig m → List Argument → Option (DaemonConfig m)
  second_pass c [] = some c
  second_pass c (o ∷ os) = elim (override c o) [ none ↦ none | some c' ↦ second_pass c' os ]

  unfoldable pub with_file :
      (Text → Option Text) → List Argument → DaemonConfig m → Text → Outcome (DaemonConfig m)
  with_file files os c path =
      if is_empty path
      then runs c
      else or_throws (load_config m (files path) >>= λ base. second_pass base os)

  -- `files` gives the content of a file that can be opened.
  unfoldable pub parse_args : (Text → Option Text) → List Argument → Outcome (DaemonConfig m)
  parse_args files os = elim (first_pass (default_config m) [] os) [
    | throws ↦ throws
    | exits code ↦ exits code
    | runs (c, path) ↦ with_file files os c path
  ]
