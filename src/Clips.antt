-- ===== src/Clips.antt =====
-- src/capture/clip_extractor.cpp and include/audio_daemon/clip_extractor.hpp: requests for clips in a
-- queue, which a worker thread takes one by one; a clip is read from the RingBuffer and written to a
-- file, and its path is kept until the caller collects it.
pub mod Extract
pub mod Queue
pub mod Tests
use ws_audiod.Base.{
  ℤ, pos, negsuc, ◌-ℤ◌, ℕ, zero, suc, ◌+◌, ◌-◌, ◌*◌, ◌/◌, Bool, true, false, Option, none, some,
  List, [], ◌∷◌, ◌++◌, take, replicate, length, add_size, mul_size, ltb, leb, ◌==◌, if◌then◌else◌,
  Text, codes, text_eq, int_sub,
}
use mathlib.Core.Option
use ws_audiod.Pcm.{unpack}
use ws_audiod.Ring.{Ring, read}
use ws_audiod.Recorder.Writer.{Container, wav, flac, Subtype, File, subtype_of, container_of}

pub record Request : Type 0 where
  pub request_id : ℕ
  pub start_offset : ℤ
  pub end_offset : ℤ
  pub format : Text
  pub request_timestamp : ℕ

-- `results` is the map, the last entry first.
pub record Extractor : Type 0 where
  pub output_dir : Text
  pub default_format : Text
  pub sample_rate : ℕ
  pub channels : ℕ
  pub bits_per_sample : ℕ
  pub running : Bool
  pub queue : List Request
  pub next_id : ℕ
  pub results : List (ℕ × Text)

pub clip_extractor : Text → Text → ℕ → ℕ → ℕ → Extractor
clip_extractor output_dir format sample_rate channels bits = record {
  output_dir = output_dir;
  default_format = format;
  sample_rate = sample_rate;
  channels = channels;
  bits_per_sample = bits;
  running = false;
  queue = [];
  next_id = 1;
  results = [];
}

-- What an extraction finds outside: the content of the RingBuffer after the wait for samples to
-- come, the text of `timestamp_to_filename`, and whether `sf_open` of a path succeeds.
pub record Moment : Type 0 where
  pub ring : Ring
  pub stamp : Text
  pub opens : Text → Bool

unfoldable pub new_request : Extractor → ℤ → ℤ → Text → ℕ → Request
new_request c start_offset end_offset format now = record {
  request_id = c.next_id;
  start_offset = start_offset;
  end_offset = end_offset;
  format = if text_eq format [] then c.default_format else format;
  request_timestamp = now;
}

-- `request_clip`: the state and the request's id.
pub request_clip : Extractor → ℤ → ℤ → Text → ℕ → Extractor × ℕ
request_clip c start_offset end_offset format now = (
  record c {
    next_id = add_size c.next_id 1;
    queue = c.queue ++ (new_request c start_offset end_offset format now ∷ []);
  },
  c.next_id,
)

-- `write_sndfile`: the path, empty if the file cannot be opened, and the file with its samples.
pub write_sndfile : Extractor → Moment → List ℕ → Text → Text → Text × Option File
write_sndfile c o samples path format =
    let full_path =
      path ++ (if text_eq format (codes "flac") then codes ".flac" else codes ".wav") in
    let total_frames = length samples / mul_size (c.bits_per_sample / 8) c.channels in
    let file : File = record {
      path = full_path;
      container = container_of format;
      subtype = subtype_of c.bits_per_sample;
      samplerate = c.sample_rate;
      file_channels = c.channels;
      samples = unpack c.bits_per_sample (total_frames * c.channels) samples;
    } in
    if o.opens full_path then (full_path, some file) else ([], none)

-- `extract_clip` after its wait. A range that is not of positive length fails, and so does an empty
-- buffer. `none` is for a read that does not return.
pub extract_seconds : Extractor → Moment → ℕ → Text → Option (Text × Option File)
extract_seconds c o seconds format =
    let total_frames = mul_size seconds c.sample_rate in
    let bytes_per_frame = mul_size c.channels (c.bits_per_sample / 8) in
    let samples = replicate (mul_size total_frames bytes_per_frame) 0 in
    let base = c.output_dir ++ (codes "/clip_" ++ o.stamp) in
    elim (read o.ring samples 0 total_frames) [
      | none ↦ none
      | some (filled, count) ↦
          if count == 0
          then some ([], none)
          else some (write_sndfile c o (take (mul_size count bytes_per_frame) filled) base format)
    ]

pub extract_range : Extractor → Moment → ℤ → Text → Option (Text × Option File)
extract_range c o (negsuc n) format = some ([], none)
extract_range c o (pos zero) format = some ([], none)
extract_range c o (pos (suc n)) format = extract_seconds c o (suc n) format

pub extract_clip : Extractor → Moment → Request → Option (Text × Option File)
extract_clip c o req = extract_range c o (int_sub req.end_offset req.start_offset) req.format

-- A turn of the worker's loop with the moment of its extraction: the oldest request is taken, and
-- its path is put into the map.
pub work : Extractor → Moment → Option Extractor
work c o = elim c.queue [
  | [] ↦ some c
  | req ∷ rest ↦ elim (extract_clip c o req) [
    | none ↦ none
    | some (path, file) ↦
        some (record c { queue = rest; results = (req.request_id, path) ∷ c.results })
  ]
]

-- The map's entry of an id, and the map without it.
pub find : ℕ → List (ℕ × Text) → Option Text
find id [] = none
find id (entry ∷ entries) = if entry.0 == id then some entry.1 else find id entries

pub erase : ℕ → List (ℕ × Text) → List (ℕ × Text)
erase id [] = []
erase id (entry ∷ entries) =
    let rest = erase id entries in if entry.0 == id then rest else entry ∷ rest

-- The end of `request_clip_sync`: the path is taken out of the map.
pub collect : Extractor → ℕ → Extractor × Text
collect c id = elim (find id c.results) [
  | none ↦ (c, [])
  | some path ↦ (record c { results = erase id c.results }, path)
]

-- `request_clip_sync` for a caller that finds the queue empty: the worker's turn is that of its
-- request, at the moment `o`. Where the worker does not run, the caller does not wait.
pub request_clip_sync : Extractor → ℤ → ℤ → Text → ℕ → Moment → Option (Extractor × Text)
request_clip_sync c start_offset end_offset format now o =
    let (c', id) = request_clip c start_offset end_offset format now in
    if c.running then Option.map (λ c''. collect c'' id) (work c' o) else some (collect c' id)
