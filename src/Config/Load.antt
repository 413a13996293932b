-- ===== src/Config/Load.antt =====
-- src/utils/config.cpp: `load_config`.
use ws_audiod.Base.{
  ℕ, ◌-◌, ◌%◌, ◌^◌, Bool, ◌&&◌, ◌||◌, Option, none, some, List, [], ◌∷◌, take, drop, length, Text,
  codes, text_eq, ◌==◌, if◌then◌else◌, Floating,
}
use ws_audiod.Ring.{◌>>=◌}
use ws_audiod.Config.{AudioConfig, BlockRecorderConfig, DaemonConfig, default_config}
use ws_audiod.Config.Line.{is_empty, trim, parse_line, lines}
use ws_audiod.Config.Number.{stoul, stoi}

-- (value == "true" || value == "1")
abbrev pub flag : Text → Bool
flag value = text_eq value (codes "true") || text_eq value (codes "1")

abbrev pub is_key : Text → Text → Bool
is_key = text_eq

module _ (m : Floating) where
  unfoldable pub set_audio : AudioConfig m → Text → Text → Option (AudioConfig m)
  set_audio a key value =
      if is_key key (codes "device")
      then some (record a { device = value })
      else if is_key key (codes "rate")
      then (stoul value >>= λ n. some (record a { sample_rate = n % 2 ^ 32 }))
      else if is_key key (codes "channels")
      then (stoul value >>= λ n. some (record a { channels = n % 2 ^ 16 }))
      else if is_key key (codes "bits") || is_key key (codes "bits_per_sample")
      then (stoul value >>= λ n. some (record a { bits_per_sample = n % 2 ^ 16 }))
      else if is_key key (codes "period_size")
      then (stoul value >>= λ n. some (record a { period_size = n % 2 ^ 32 }))
      else if is_key key (codes "buffer_periods")
      then (stoul value >>= λ n. some (record a { buffer_periods = n % 2 ^ 32 }))
      else if is_key key (codes "gain_db")
      then (m.stof value >>= λ g. some (record a { gain_db = g }))
      else if is_key key (codes "dc_remove")
      then some (record a { dc_remove = flag value })
      else if is_key key (codes "cpu_affinity")
      then (stoi value >>= λ n. some (record a { cpu_affinity = n }))
      else if is_key key (codes "downmix_mono")
      then some (record a { downmix_mono = flag value })
      else some a

  unfoldable pub set_daemon : DaemonConfig m → Text → Text → Option (DaemonConfig m)
  set_daemon c key value =
      if is_key key (codes "socket_path")
      then some (record c { socket_path = value })
      else if is_key key (codes "clips_dir")
      then some (record c { clips_dir = value })
      else if is_key key (codes "shm_name")
      then some (record c { shm_name = value })
      else if is_key key (codes "ring_buffer_seconds")
      then (stoul value >>= λ n. some (record c { ring_buffer_seconds = n % 2 ^ 32 }))
      else if is_key key (codes "enable_sample_sharing")
      then some (record c { enable_sample_sharing = flag value })
      else some c

  unfoldable pub set_block : BlockRecorderConfig → Text → Text → Option BlockRecorderConfig
  set_block b key value =
      if is_key key (codes "enabled")
      then some (record b { enabled = flag value })
      else if is_key key (codes "output_dir")
      then some (record b { output_dir = value })
      else if is_key key (codes "block_duration_seconds") || is_key key (codes "duration")
      then (stoul value >>= λ n. some (record b { block_duration_seconds = n % 2 ^ 32 }))
      else if is_key key (codes "format")
      then some (record b { format = value })
      else if is_key key (codes "max_blocks")
      then (stoul value >>= λ n. some (record b { max_blocks = n % 2 ^ 32 }))
      else some b

  -- A key of a section, or of none.
  unfoldable pub set_key : DaemonConfig m → Text → Text → Text → Option (DaemonConfig m)
  set_key c section key value =
      if is_key section (codes "daemon") || is_empty section
      then set_daemon c key value
      else if is_key section (codes "audio")
      then (set_audio c.audio key value >>= λ a. some (record c { audio = a }))
      else if is_key section (codes "block_recorder")
      then (set_block c.block_recorder key value >>= λ b. some (record c { block_recorder = b }))
      else some c

  pub record Loader : Type 0 where
    pub section : Text
    pub config : DaemonConfig m

  abbrev pub last_or : ℕ → Text → ℕ
  last_or d [] = d
  last_or d (c ∷ s) = last_or c s

  abbrev pub first_or : ℕ → Text → ℕ
  first_or d [] = d
  first_or d (c ∷ s) = c

  -- The body of the loop: '#' and ';' begin a comment, '[' and ']' stand around a section.
  unfoldable pub load_line : Loader → Text → Option Loader
  load_line l given =
      let line = trim given in
      let first = first_or 0 line in
      let (key, value) = parse_line line in
      if is_empty line || (first == 35 || first == 59)
      then some l
      else if first == 91 && last_or 0 line == 93
      then some (record l { section = take (length line - 2) (drop 1 line) })
      else if is_empty key
      then some l
      else (set_key l.config l.section key value >>= λ c. some (record l { config = c }))

  unfoldable pub load_lines : Loader → List Text → Option Loader
  load_lines l [] = some l
  load_lines l (s ∷ ss) = elim (load_line l s) [ none ↦ none | some l' ↦ load_lines l' ss ]

  -- The content of the file, where it can be opened; `none` for an exception, which no caller catches.
  unfoldable pub load_config : Option Text → Option (DaemonConfig m)
  load_config none = some (default_config m)
  load_config (some content) =
      load_lines (record { section = []; config = default_config m }) (lines content) >>= λ l.
      some (l.config)
