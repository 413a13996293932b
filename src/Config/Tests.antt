-- ===== src/Config/Tests.antt =====
-- A command line with a file that sets the rate and the device.
use ws_audiod.Base.{
  ℕ, ◌≡◌, refl, true, some, none, Option, List, [], ◌∷◌, ◌++◌, Text, codes, whole, pos,
}
use ws_audiod.Config.{default_config}
use ws_audiod.Config.Line.{
  is_blank, is_empty, trim_start, trim_end, trim, split_eq, parse_line, put_first, lines,
}
use ws_audiod.Config.Number.{more_digits, digits, skip_space, sign, in_range, unsigned, stoul}
use ws_audiod.Config.Load.{set_audio, set_key, load_line, load_lines, load_config}
use ws_audiod.Config.Args.{Argument, config_file, rate, shm, debug}

abbrev content : Text
content = codes "# a comment\n[audio]\n rate = 8000\ndevice=hw:1\n"

abbrev files : Text → Option Text
files _ = some content

abbrev command_line : List Argument
command_line = rate (codes "16000") ∷ config_file (codes "f") ∷ debug ∷ shm ∷ []

read_file :
    load_config whole (some content)
    ≡ some (record (default_config whole) {
      audio = record ((default_config whole).audio) { sample_rate = 8000; device = codes "hw:1" };
    })
unfolding load_config load_lines load_line set_key set_audio stoul digits more_digits skip_space
    sign in_range unsigned lines put_first trim trim_start trim_end is_blank is_empty parse_line
    split_eq default_config ws_audiod.Base.text_eq
read_file = refl
