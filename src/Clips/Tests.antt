-- ===== src/Clips/Tests.antt =====
-- Clips of a second of 16-bit mono at two frames a second.
use ws_audiod.Base.{
  pos, negsuc, ◌-ℤ◌, sub_nat, zero, suc, ◌≡◌, refl, true, none, some, [], ◌∷◌, arith, Text, codes,
  text_eq, min, memcpy,
}
use ws_audiod.Circular.{Holds}
use ws_audiod.Pcm.{unpack}
use ws_audiod.Ring.{Ring, available_frames, read, read_loop, read_start}
use ws_audiod.Recorder.Writer.{File, wav, pcm_16, container_of, subtype_of}
use ws_audiod.Clips.{new_request, request_clip}
use ws_audiod.Clips.Queue.{AllReturn}
use ws_audiod.Clips.{
  Request, Extractor, Moment, extract_clip, extract_range, extract_seconds, write_sndfile, collect,
}
use ws_audiod.Clips.Extract.{Agrees, Clipped, extract_clip-Clipped}
use ws_audiod.Clips.Queue.{Turn, requests, moments, work_all, served, request_clip_lem}

abbrev pub four_in : Ring
four_in = record {
  buffer = 1 ∷ 0 ∷ 2 ∷ 0 ∷ 3 ∷ 0 ∷ 4 ∷ 0 ∷ [];
  capacity_frames = 4;
  capacity_mask = 3;
  channels = 1;
  bytes_per_sample = 2;
  write_pos = 4;
  total_written = 4;
}

four_in_cells : Holds 8 four_in.buffer four_in.buffer
four_in_cells zero h k = refl
four_in_cells (suc zero) h k = refl
four_in_cells (suc (suc zero)) h k = refl
four_in_cells (suc (suc (suc zero))) h k = refl
four_in_cells (suc (suc (suc (suc zero)))) h k = refl
four_in_cells (suc (suc (suc (suc (suc zero))))) h k = refl
four_in_cells (suc (suc (suc (suc (suc (suc zero)))))) h k = refl
four_in_cells (suc (suc (suc (suc (suc (suc (suc zero))))))) h k = refl
four_in_cells (suc (suc (suc (suc (suc (suc (suc (suc p)))))))) h k = absurd (omega arith)

abbrev pub two_a_second : Extractor
two_a_second = record {
  output_dir = [];
  default_format = [];
  sample_rate = 2;
  channels = 1;
  bits_per_sample = 16;
  running = true;
  queue = [];
  next_id = 1;
  results = [];
}

abbrev pub now : Moment
now = record { ring = four_in; stamp = []; opens = λ _. true }

pub four_in-Agrees : Agrees two_a_second now four_in.buffer
four_in-Agrees = record {
  holds = record {
    shape = record {
      log = 2;
      log_small = omega arith;
      power = refl;
      low_ones = refl;
      some_bytes = omega arith;
      fits = omega arith;
    };
    storage = refl;
    counted = refl;
    same = refl;
    cells = four_in_cells;
  };
  frame = refl;
  depth = refl;
  small = omega arith;
}

abbrev last_second : Request
last_second = record {
  request_id = 1;
  start_offset = negsuc zero;
  end_offset = pos zero;
  format = [];
  request_timestamp = 0;
}

extract_clip-Clipped_example :
    Clipped two_a_second now four_in.buffer
      (min 2 (available_frames four_in))
      (extract_clip two_a_second now last_second)
unfolding ◌-ℤ◌
extract_clip-Clipped_example =
    extract_clip-Clipped two_a_second now four_in.buffer last_second four_in-Agrees (omega arith)
      (omega arith) (omega arith)

-- A range that ends before it starts fails, and the next request is served all the same.
abbrev backwards : Request
backwards = record last_second { request_id = 2; end_offset = negsuc (suc zero) }

abbrev fails : Turn
fails = record { moment = now; request = backwards; path = []; file = none }

fails_too : extract_clip two_a_second now backwards ≡ some ([], none)
unfolding extract_clip extract_range ◌-ℤ◌ sub_nat
fails_too = refl

abbrev clip_path : Text
clip_path = codes "/clip_.wav"

abbrev clip_file : File
clip_file = record {
  path = clip_path;
  container = wav;
  subtype = pcm_16;
  samplerate = 2;
  file_channels = 1;
  samples = 3 ∷ 4 ∷ [];
}

abbrev serves : Turn
serves = record { moment = now; request = last_second; path = clip_path; file = some clip_file }

abbrev busy : Extractor
busy = record two_a_second { queue = backwards ∷ last_second ∷ [] }

clip_of_second : extract_clip busy now last_second ≡ some (clip_path, some clip_file)
unfolding extract_clip extract_range extract_seconds write_sndfile ◌-ℤ◌ sub_nat read read_loop
    read_start memcpy text_eq unpack container_of subtype_of
clip_of_second = refl

busy_fails : extract_clip busy now backwards ≡ some ([], none)
unfolding extract_clip extract_range ◌-ℤ◌ sub_nat
busy_fails = refl

served_example :
    (c' : Extractor) × (work_all busy (now ∷ now ∷ []) ≡ some c')
    × (c'.queue ≡ [])
    × ((collect c' 1).1 ≡ clip_path)
    × (c'.next_id ≡ 1)
unfolding requests moments
served_example = served busy (fails ∷ []) [] serves refl (busy_fails, (clip_of_second, tt)) tt

abbrev waiting_one : Extractor
waiting_one = record two_a_second { queue = backwards ∷ []; next_id = 3 }

waiting_fails : AllReturn waiting_one (fails ∷ [])
unfolding extract_clip extract_range ◌-ℤ◌ sub_nat
waiting_fails = (refl, tt)

clip_of_new :
    extract_clip waiting_one now (new_request waiting_one (negsuc zero) (pos zero) [] 0)
    ≡ some (clip_path, some clip_file)
unfolding new_request extract_clip extract_range extract_seconds write_sndfile ◌-ℤ◌ sub_nat read
    read_loop read_start memcpy text_eq unpack container_of subtype_of
clip_of_new = refl

request_clip_lem_example :
    let (c', id) = request_clip waiting_one (negsuc zero) (pos zero) [] 0 in
    (c'' : Extractor) × (work_all c' (now ∷ now ∷ []) ≡ some c'')
    × (c''.queue ≡ [])
    × ((collect c'' id).1 ≡ clip_path)
    × (c''.next_id ≡ 4)
unfolding requests moments
request_clip_lem_example =
    request_clip_lem waiting_one (fails ∷ []) (negsuc zero) (pos zero) [] 0 now clip_path
      (some clip_file) refl waiting_fails clip_of_new
