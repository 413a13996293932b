-- ===== src/Config/Args/Override.antt =====
-- The options of the command line take precedence over the file.
use ws_audiod.Base.{
  ℕ, ◌%◌, ◌^◌, ◌≡◌, Bool, true, Option, none, some, List, [], ◌∷◌, Text, if◌then◌else◌, Floating,
}
use ws_audiod.Ring.{◌>>=◌}
use ws_audiod.Config.{DaemonConfig, default_config}
use ws_audiod.Config.Line.{is_empty}
use ws_audiod.Config.Number.{stoul}
use ws_audiod.Config.Load.{load_config}
use ws_audiod.Config.Args.{
  Argument, config_file, socket, device, rate, channels, bits, gain, period_size, block_record, shm,
  Outcome, runs, exits, throws, second_pass,
}

-- The last value that is picked, or the one to start from.
unfoldable pub last {ℓ} : {A : Type ℓ} → (Argument → Option A) → A → List Argument → A
last pick d [] = d
last pick d (o ∷ os) = last pick (elim (pick o) [ none ↦ d | some a ↦ a ]) os

abbrev pub number : ℕ → Text → Option ℕ
number w s = stoul s >>= λ n. some (n % 2 ^ w)

-- What each option says.
abbrev pub socket_of : Argument → Option Text
socket_of (socket s) = some s
socket_of _ = none

abbrev pub device_of : Argument → Option Text
device_of (device s) = some s
device_of _ = none

abbrev pub rate_of : Argument → Option ℕ
rate_of (rate s) = number 32 s
rate_of _ = none

abbrev pub channels_of : Argument → Option ℕ
channels_of (channels s) = number 16 s
channels_of _ = none

abbrev pub bits_of : Argument → Option ℕ
bits_of (bits s) = number 16 s
bits_of _ = none

abbrev pub period_of : Argument → Option ℕ
period_of (period_size s) = number 32 s
period_of _ = none

abbrev pub duration_of : Argument → Option ℕ
duration_of (block_record s) = number 32 s
duration_of _ = none

abbrev pub enabled_of : Argument → Option Bool
enabled_of (block_record s) = some true
enabled_of _ = none

abbrev pub shm_of : Argument → Option Bool
shm_of shm = some true
shm_of _ = none

abbrev pub path_of : Argument → Option Text
path_of (config_file s) = some s
path_of _ = none

module _ (m : Floating) where
  abbrev pub gain_of : Argument → Option m.float
  gain_of (gain s) = m.stof s
  gain_of _ = none

  -- Each setting is the last one that the options give, or the one to start from.
  unfoldable pub overridden : DaemonConfig m → List Argument → DaemonConfig m
  overridden c os = record c {
    socket_path = last socket_of c.socket_path os;
    enable_sample_sharing = last shm_of c.enable_sample_sharing os;
    audio = record (c.audio) {
      device = last device_of c.audio.device os;
      sample_rate = last rate_of c.audio.sample_rate os;
      channels = last channels_of c.audio.channels os;
      bits_per_sample = last bits_of c.audio.bits_per_sample os;
      gain_db = last gain_of c.audio.gain_db os;
      period_size = last period_of c.audio.period_size os;
    };
    block_recorder = record (c.block_recorder) {
      enabled = last enabled_of c.block_recorder.enabled os;
      block_duration_seconds = last duration_of c.block_recorder.block_duration_seconds os;
    };
  }

  -- What the first loop reads, it reads as the options say; and the second loop reads it again.
  abbrev Passes : DaemonConfig m → Text → List Argument → DaemonConfig m → Text → Type 0
  Passes c path os c' path' =
      (c' ≡ overridden c os)
      × (path' ≡ last path_of path os)
      × ((b : DaemonConfig m) → second_pass m b os ≡ some (overridden b os))

  config_of : DaemonConfig m → Outcome (DaemonConfig m × Text) → DaemonConfig m
  config_of d (runs (c, path)) = c
  config_of d (exits code) = d
  config_of d throws = d

  path_in : Text → Outcome (DaemonConfig m × Text) → Text
  path_in d (runs (c, path)) = path
  path_in d (exits code) = d
  path_in d throws = d

  abbrev pub over : Option (DaemonConfig m) → List Argument → Option (DaemonConfig m)
  over none os = none
  over (some base) os = some (overridden base os)

  -- The settings to start from: those of the file, if one is named.
  unfoldable pub base_config : (Text → Option Text) → Text → Option (DaemonConfig m)
  base_config files path =
      if is_empty path then some (default_config m) else load_config m (files path)
