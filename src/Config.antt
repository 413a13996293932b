-- ===== src/Config.antt =====
-- The settings of include/audio_daemon/common.hpp, with their defaults.
pub mod Line
pub mod Number
pub mod Load
pub mod Args
mod Tests
use ws_audiod.Base.{ℕ, Bool, false, ℤ, negsuc, Text, codes, Floating}

pub record AudioConfig (m : Floating) : Type 0 where
  pub device : Text
  pub sample_rate : ℕ
  pub channels : ℕ
  pub bits_per_sample : ℕ
  pub period_size : ℕ
  pub buffer_periods : ℕ
  pub gain_db : m.float
  pub dc_remove : Bool
  pub cpu_affinity : ℤ
  pub downmix_mono : Bool

pub record BlockRecorderConfig : Type 0 where
  pub enabled : Bool
  pub output_dir : Text
  pub block_duration_seconds : ℕ
  pub format : Text
  pub max_blocks : ℕ

pub record DaemonConfig (m : Floating) : Type 0 where
  pub socket_path : Text
  pub clips_dir : Text
  pub shm_name : Text
  pub ring_buffer_seconds : ℕ
  pub enable_sample_sharing : Bool
  pub audio : AudioConfig m
  pub block_recorder : BlockRecorderConfig

unfoldable pub default_config : (m : Floating) → DaemonConfig m
default_config m = record {
  socket_path = codes "/run/ws-audiod/control.sock";
  clips_dir = codes "/var/ws/audiod/clips";
  shm_name = codes "/ws_audiod_samples";
  ring_buffer_seconds = 60;
  enable_sample_sharing = false;
  audio = record {
    device = codes "default";
    sample_rate = 48000;
    channels = 1;
    bits_per_sample = 16;
    period_size = 1024;
    buffer_periods = 4;
    gain_db = m.zero_f;
    dc_remove = false;
    cpu_affinity = negsuc 0;
    downmix_mono = false;
  };
  block_recorder = record {
    enabled = false;
    output_dir = codes "/var/ws/audiod/blocks";
    block_duration_seconds = 300;
    format = codes "wav";
    max_blocks = 0;
  };
}
