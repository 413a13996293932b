-- ===== src/Recorder/Writer.antt =====
-- The files of the BlockRecorder's writer thread: `open_next_file`, `close_current_file`,
-- `make_filename` and the loop that hands frames to libsndfile.
pub mod Blocks
pub mod Process
pub mod Ends
use ws_audiod.Base.{
  ℕ, zero, suc, ◌+◌, ◌-◌, ◌/◌, min, Bool, true, false, Option, none, some, List, [], ◌∷◌, ◌++◌,
  take, drop, add_size, sub_size, mul_size, ltb, leb, ◌==◌, if◌then◌else◌, Text, codes, text_eq,
}
use mathlib.Core.Option
use ws_audiod.Pcm.{unpack}

-- What the code relies on outside: the outcome of the `k`-th `sf_open`; the number of frames that the
-- `k`-th `sf_writef_*` reports for a batch, `none` for a negative one; `get_timestamp_us` at the
-- `k`-th opening; the date and time of a second, as `gmtime_r` and `snprintf` print them; and whether
-- the notification of `stop` finds the writer thread at work or asleep: it is lost, and the thread
-- sleeps on, if it comes between the thread's test of the flag and its wait.
pub record Outside : Type 0 where
  pub opens : ℕ → Bool
  pub writes : ℕ → ℕ → Option ℕ
  pub clock : ℕ → ℕ
  pub utc : ℕ → Text
  pub heard : Bool

pub record Params : Type 0 where
  pub enabled : Bool
  pub output_dir : Text
  pub format : Text
  pub sample_rate : ℕ
  pub channels : ℕ
  pub bits_per_sample : ℕ
  pub block_frames : ℕ
  pub bytes_per_frame : ℕ

pub data Container : Type 0 where
  wav flac : Container

pub data Subtype : Type 0 where
  pcm_16 pcm_24 pcm_32 : Subtype

-- A file, with the samples that it was handed.
pub record File : Type 0 where
  pub path : Text
  pub container : Container
  pub subtype : Subtype
  pub samplerate : ℕ
  pub file_channels : ℕ
  pub samples : List ℕ

-- `closed` are the files that are complete, oldest first; `open_calls` and `write_calls` count the
-- calls of libsndfile.
pub record Files : Type 0 where
  pub sndfile : Option File
  pub current_path : Text
  pub frames_in_block : ℕ
  pub blocks_written : ℕ
  pub total_frames_written : ℕ
  pub stats_current_file : Text
  pub closed : List File
  pub open_calls : ℕ
  pub write_calls : ℕ

unfoldable pub fresh_files : Files
fresh_files = record {
  sndfile = none;
  current_path = [];
  frames_in_block = 0;
  blocks_written = 0;
  total_frames_written = 0;
  stats_current_file = [];
  closed = [];
  open_calls = 0;
  write_calls = 0;
}

-- `make_filename`; `name` has room for 127 characters and the end mark.
pub make_filename : Params → Outside → ℕ → Text
make_filename s o timestamp_us =
    let name = codes "block_" ++ (o.utc (timestamp_us / 1000000) ++ (codes "." ++ s.format)) in
    s.output_dir ++ (codes "/" ++ take 127 name)

unfoldable pub subtype_of : ℕ → Subtype
subtype_of bits = if bits == 32 then pcm_32 else if bits == 24 then pcm_24 else pcm_16

unfoldable pub container_of : Text → Container
container_of format = if text_eq format (codes "flac") then flac else wav

-- Whether the file could be opened.
unfoldable pub open_next_file : Params → Outside → Files → Files × Bool
open_next_file s o w =
    let path = make_filename s o (o.clock w.open_calls) in
    let file : File = record {
      path = path;
      container = container_of s.format;
      subtype = subtype_of s.bits_per_sample;
      samplerate = s.sample_rate;
      file_channels = s.channels;
      samples = [];
    } in
    if o.opens w.open_calls
    then (
      record w {
        sndfile = some file;
        current_path = path;
        frames_in_block = 0;
        stats_current_file = path;
        open_calls = suc w.open_calls;
      },
      true,
    )
    else (record w { open_calls = suc w.open_calls }, false)

unfoldable pub close_current_file : Files → Files
close_current_file w = elim w.sndfile [
  | none ↦ w
  | some file ↦ record w { sndfile = none; current_path = []; closed = w.closed ++ (file ∷ []) }
]

-- A file is open afterwards, unless the result is false.
unfoldable pub ensure_open : Params → Outside → Files → Files × Bool
ensure_open s o w = elim w.sndfile [ none ↦ open_next_file s o w | some file ↦ (w, true) ]

-- `sf_writef_*` of a batch, and what is counted.
unfoldable pub write_batch : Params → Outside → Files → List ℕ → ℕ → Files
write_batch s o w src batch = record w {
  sndfile =
      Option.map {A = File}
        (λ file. record file {
          samples = file.samples ++ unpack s.bits_per_sample (mul_size batch s.channels) src;
        })
        w.sndfile;
  total_frames_written = elim (o.writes w.write_calls batch) [
    | none ↦ w.total_frames_written
    | some written ↦ add_size w.total_frames_written written
  ];
  write_calls = suc w.write_calls;
  frames_in_block = add_size w.frames_in_block batch;
}

-- The end of a block.
unfoldable pub finish_block : Params → Files → Files
finish_block s w =
    if leb s.block_frames w.frames_in_block
    then (let w' = close_current_file w in
        record w' { blocks_written = add_size w'.blocks_written 1 })
    else w

-- `while (src_remaining > 0)`, on fuel. The result is false where no file could be opened.
unfoldable pub process : ℕ → Params → Outside → Files → List ℕ → ℕ → Option (Files × Bool)
process zero s o w src remaining = none
process (suc fuel) s o w src remaining =
    let (w', opened) = ensure_open s o w in
    let batch = min remaining (sub_size s.block_frames w'.frames_in_block) in
    let rest =
      process fuel s o (finish_block s (write_batch s o w' src batch))
        (drop (mul_size batch s.bytes_per_frame) src) (remaining - batch) in
    if ltb 0 remaining then (if opened then rest else some (w', false)) else some (w, true)
