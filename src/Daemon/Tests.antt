-- ===== src/Daemon/Tests.antt =====
-- A client of a daemon whose clips are at two frames a second asks for the last second.
use ws_audiod.Base.{◌≡◌, refl, arith, true, some, [], codes, pos, negsuc, whole, text_eq, ◌-ℤ◌}
use ws_audiod.Config.{default_config}
use ws_audiod.Clips.Tests.{four_in, two_a_second, now, four_in-Agrees}
use ws_audiod.Pipeline.Chunk.{Pipeline, Capture}
use ws_audiod.Pipeline.Life.{capture_pipeline}
use ws_audiod.Config.Number.{digits, more_digits, drop_digits, skip_space, sign}
use ws_audiod.Control.{
  Command, clip, handle_client, parse_command, strip_ends, until_nul, word_of, behind_word,
  parse_clip, with_end, with_format, read_int, int_of, cut_int,
}
use ws_audiod.Daemon.{daemon_handlers}
use ws_audiod.Daemon.Answers.{IsIdle, InRange, Answered, handle_client-Answered}

abbrev capture : Capture
capture = record { actual_rate = 2; actual_period_size = 4; capturing = true }

abbrev daemon : Pipeline whole
daemon = record (capture_pipeline whole (default_config whole)) {
  capture = some capture;
  clip_extractor = some two_a_second;
}

abbrev daemon_idle : IsIdle whole daemon
daemon_idle = record { clips = two_a_second; there = refl; runs = refl; none_waits = refl }

abbrev last_second : Command
last_second = record {
  type = clip;
  int_value = negsuc 0;
  int_value2 = pos 0;
  key = codes "wav";
  value = [];
}

last_second-InRange : InRange whole two_a_second now last_second
unfolding ◌-ℤ◌
last_second-InRange = record { seconds = omega arith; frames = omega arith; bytes = omega arith }

asks : parse_command (strip_ends (until_nul (codes "CLIP -1 0 wav\n"))) ≡ last_second
unfolding parse_command strip_ends until_nul text_eq word_of behind_word skip_space parse_clip
    with_end with_format read_int int_of cut_int digits more_digits drop_digits sign
asks = refl

handle_client-Answered_example :
    Answered whole 0 now daemon last_second
      (handle_client (daemon_handlers whole 0 now) daemon (codes "CLIP -1 0 wav\n"))
handle_client-Answered_example =
    handle_client-Answered whole 0 now daemon four_in.buffer 67 (codes "LIP -1 0 wav\n") capture
      daemon_idle last_second refl four_in-Agrees asks last_second-InRange
