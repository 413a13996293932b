-- ===== src/Daemon.antt =====
-- src/main.cpp: the handlers of the daemon's commands, and the JSON texts of
-- src/pipeline/capture_pipeline.cpp that they answer with.
pub mod Answers
mod Tests
use mathlib.Core.Option
use ws_audiod.Base.{
  ℕ, suc, Bool, true, false, ◌||◌, Option, none, some, List, [], ◌∷◌, ◌++◌, Text, codes, text_eq,
  ltb, if◌then◌else◌, ℤ, pos, negsuc, Floating,
}
use ws_audiod.Config.Line.{is_empty}
use ws_audiod.Config.Number.Decimal.{decimal}
use ws_audiod.Ring.{◌>>=◌}
use ws_audiod.Clips.{Extractor, Moment, request_clip_sync}
use ws_audiod.Recorder.{Recorder}
use ws_audiod.Pipeline.Chunk.{Pipeline, Capture}
use ws_audiod.Pipeline.Life.{set_parameter, get_stats, Stats}
use ws_audiod.Control.{Command, Handlers, ok, ok_path, ok_data, error}

abbrev pub show_flag : Bool → Text
show_flag b = if b then codes "true" else codes "false"

-- Texts one behind the other.
unfoldable pub join : List Text → Text
join [] = []
join (s ∷ ss) = s ++ join ss

unfoldable pub recorder_json : Option Recorder → Text
recorder_json none = []
recorder_json (some r) = join (
    codes ",\"block_recorder\":{\"blocks_written\":"
    ∷ decimal r.files.blocks_written
    ∷ codes ",\"total_frames\":"
    ∷ decimal r.files.total_frames_written
    ∷ codes ",\"current_file\":\""
    ∷ r.files.stats_current_file
    ∷ codes "\"}\""
    ∷ [])

module _ (m : Floating) where
  unfoldable pub status_json : Pipeline m → Capture → Text
  status_json p capture =
      let stats = get_stats m p in
      join (
        codes "{\"running\":"
        ∷ show_flag p.running
        ∷ codes ",\"capture\":{\"frames\":"
        ∷ decimal stats.frames_captured
        ∷ codes ",\"rate\":"
        ∷ decimal capture.actual_rate
        ∷ codes ",\"channels\":"
        ∷ decimal (if p.downmix_mono then 1 else p.config.audio.channels)
        ∷ codes ",\"bits\":"
        ∷ decimal p.config.audio.bits_per_sample
        ∷ codes ",\"device\":\""
        ∷ p.config.audio.device
        ∷ codes "\""
        ∷ codes ",\"gain_db\":"
        ∷ m.show_f p.gain_db
        ∷ codes ",\"dc_remove\":"
        ∷ show_flag p.dc_remove
        ∷ codes ",\"ring_buffer_frames\":"
        ∷ decimal stats.ring_buffer_frames
        ∷ codes "}"
        ∷ recorder_json p.block_recorder
        ∷ codes "}"
        ∷ [])

  -- `none` where the capture is null.
  unfoldable pub get_status_json : Pipeline m → Option Text
  get_status_json p = Option.map (status_json p) p.capture

  -- 20.0 * std::log10(level / 32768.0)
  unfoldable pub decibels : m.double → m.double
  decibels level =
      m.mul_d (m.double_of (pos 20)) (m.log10_d (m.div_d level (m.double_of (pos 32768))))

  unfoldable pub get_levels_json : Pipeline m → Text
  get_levels_json p =
      let silence = m.double_of (negsuc 95) in
      let peak_db =
        if ltb 0 p.peak_level then decibels (m.double_of (pos p.peak_level)) else silence in
      let rms_db =
        if m.gt_f p.rms_level m.zero_f then decibels (m.widen p.rms_level) else silence in
      join (
        codes "{\"peak\":"
        ∷ decimal p.peak_level
        ∷ codes ",\"peak_db\":"
        ∷ m.show_d peak_db
        ∷ codes ",\"rms\":"
        ∷ m.show_f p.rms_level
        ∷ codes ",\"rms_db\":"
        ∷ m.show_d rms_db
        ∷ codes "}"
        ∷ [])

  unfoldable pub clip_answer : Pipeline m → Extractor × Text → Pipeline m × Text
  clip_answer p (clips, path) = (
    record p { clip_extractor = some clips },
    if is_empty path then error (codes "Clip extraction failed") else ok_path path,
  )

  unfoldable pub handle_clip_command :
      ℕ → Moment → Pipeline m → Command → Option (Pipeline m × Text)
  handle_clip_command now o p cmd = do
    clips ← p.clip_extractor
    found ← request_clip_sync clips cmd.int_value cmd.int_value2 cmd.key now o
    some (clip_answer p found)

  unfoldable pub set_answer : Pipeline m × Bool → Pipeline m × Text
  set_answer (p, good) = (p, if good then ok else error (codes "Failed to set parameter"))

  unfoldable pub handle_set_command : Pipeline m → Command → Option (Pipeline m × Text)
  handle_set_command p cmd = Option.map set_answer (set_parameter m p cmd.key cmd.value)

  unfoldable pub handle_get_command : Pipeline m → Command → Option (Pipeline m × Text)
  handle_get_command p cmd =
      if text_eq cmd.key (codes "STATUS")
      then Option.map (λ json. (p, ok_data json)) (get_status_json p)
      else if text_eq cmd.key (codes "LEVEL") || text_eq cmd.key (codes "LEVELS")
      then some (p, ok_data (get_levels_json p))
      else some (p, error (codes "Unknown key: " ++ cmd.key))

  -- The handlers that the daemon gives to the control socket, for a client at the time `now`.
  unfoldable pub daemon_handlers : ℕ → Moment → Handlers (Pipeline m)
  daemon_handlers now o = record {
    clip_handler = some (handle_clip_command now o);
    set_handler = some handle_set_command;
    get_handler = some handle_get_command;
  }
