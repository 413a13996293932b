-- ===== src/Clips/Extract.antt =====
-- `ClipExtractor::extract_clip` and `write_sndfile`: which frames of the stream a clip holds.
use mathlib.Core.List.{append-nil}
use native.Mathlib.Nat.{mod-eq_of_lt, mul-div_cancel}
use ws_audiod.Base.{
  Fits, to_int-of_int, ℤ, pos, negsuc, ◌-ℤ◌, ℕ, zero, suc, ◌+◌, ◌-◌, ◌*◌, ◌/◌, ◌%◌, ◌^◌, ◌≤◌, ◌<◌,
  min, ◌≡◌, refl, sym, ap, subst, ◌∙◌, true, false, Option, none, some, List, [], ◌++◌, arith,
  length, take, drop, replicate, length-take, length-drop, length-replicate, mul_size, ◌==◌,
  if◌then◌else◌, if_cases, Text, codes, text_eq, mul-le-mul_right, Bool-cases, inl, inr,
}
use ws_audiod.Circular.{slice}
use ws_audiod.Pcm.{width, unpack}
use ws_audiod.Pcm.Unpack.{unpack-take}
use ws_audiod.Ring.{bytes_per_frame, available_frames}
use ws_audiod.Ring.Valid.{Represents}
use ws_audiod.Ring.Read.{filled, read_lem, available_frames_le}
use ws_audiod.Recorder.Writer.{File}
use ws_audiod.Recorder.Writer.Process.{frame_bytes}
use ws_audiod.Recorder.Track.{take-begins}
use ws_audiod.Clips.{
  Request, Extractor, Moment, write_sndfile, extract_seconds, extract_clip, extract_range,
}

-- The extractor and its RingBuffer agree on the format, and the buffer holds a stream.
pub record Agrees (c : Extractor) (o : Moment) (stream : List ℕ) : Type 0 where
  pub holds : Represents o.ring stream
  pub frame : bytes_per_frame o.ring ≡ c.channels * (c.bits_per_sample / 8)
  pub depth : c.bits_per_sample / 8 ≡ width c.bits_per_sample
  pub small : o.ring.total_written < 2 ^ 64

-- The outcomes of a clip of `n` frames, which are the last ones of the stream.
pub data Clipped (c : Extractor) (o : Moment) (stream : List ℕ) (n : ℕ)
    (result : Option (Text × Option File)) : Type 0 where
  nothing : n ≡ 0 → result ≡ some ([], none) → Clipped c o stream n result
  unopened :
      (path : Text) → o.opens path ≡ false → result ≡ some ([], none) → Clipped c o stream n result
  clip :
      (file : File)
      → result ≡ some (file.path, some file)
      → o.opens file.path ≡ true
      → file.samples
        ≡ unpack c.bits_per_sample
            (n * c.channels)
            (drop ((o.ring.total_written - n) * bytes_per_frame o.ring) stream)
      → file.samplerate ≡ c.sample_rate
      → file.file_channels ≡ c.channels
      → Clipped c o stream n result

-- The seconds of a range; a negative one has none.
abbrev pub seconds_of : ℤ → ℕ
seconds_of (pos n) = n
seconds_of (negsuc n) = 0

module _ (c : Extractor) (o : Moment) (stream : List ℕ) (v : Agrees c o stream) where
  -- Whole frames, and no sample of another.
  written_samples :
      (n : ℕ)
      → n ≤ o.ring.total_written
      → let b = bytes_per_frame o.ring in
        let clip = slice ((o.ring.total_written - n) * b) (n * b) stream in
        unpack c.bits_per_sample
          (length clip / mul_size (c.bits_per_sample / 8) c.channels * c.channels)
          clip
        ≡ unpack c.bits_per_sample (n * c.channels) (drop ((o.ring.total_written - n) * b) stream)
  written_samples n inside =
      let b : ℕ = bytes_per_frame o.ring in
      let start : ℕ = (o.ring.total_written - n) * b in
      let span : start + n * b ≡ o.ring.total_written * b = omega (
        arith,
        ap (λ (t : ℕ). t * b)
            (let t : o.ring.total_written - n + n ≡ o.ring.total_written = omega arith in t),
      ) in
      let size : length (slice start (n * b) stream) ≡ n * b = omega (
        arith,
        length-take (n * b) (drop start stream),
        length-drop start stream,
        v.holds.counted,
        span,
      ) in
      let frame : mul_size (c.bits_per_sample / 8) c.channels ≡ b =
        mod-eq_of_lt (omega (arith, v.frame)) ∙ omega (arith, v.frame) in
      let count : length (slice start (n * b) stream) / mul_size (c.bits_per_sample / 8) c.channels
          ≡ n =
        rw (size, frame) (mul-div_cancel n v.holds.shape.some_bytes) in
      let bytes : n * c.channels * width c.bits_per_sample ≡ n * b =
        frame_bytes n c.channels (width c.bits_per_sample) b
          (v.frame ∙ ap (λ (t : ℕ). c.channels * t) v.depth) in
      rw count (
        sym
          (ap (unpack c.bits_per_sample (n * c.channels)) (append-nil (slice start (n * b) stream)))
        ∙ unpack-take c.bits_per_sample (n * c.channels) (n * b) (drop start stream) []
            (omega (arith, bytes)) (omega (arith, length-drop start stream, v.holds.counted, span)))

  clipped :
      (n : ℕ) (path format : Text)
      → n ≤ o.ring.total_written
      → let b = bytes_per_frame o.ring in
        Clipped c o stream n (
          some
            (write_sndfile c o (slice ((o.ring.total_written - n) * b) (n * b) stream) path format))
  unfolding write_sndfile
  clipped n path format inside =
      let full : Text =
        path ++ (if text_eq format (codes "flac") then codes ".flac" else codes ".wav") in
      elim (Bool-cases (o.opens full)) [
        | inl good ↦ rw good (clip _ refl good (written_samples n inside) refl refl)
        | inr bad ↦ rw bad (unopened full bad refl)
      ]

  -- A clip of some seconds before the end of the stream, if the buffer is as old: otherwise as many
  -- frames as it holds.
  seconds_lem :
      (seconds : ℕ) (format : Text)
      → seconds * c.sample_rate < 2 ^ 64
      → seconds * c.sample_rate * bytes_per_frame o.ring < 2 ^ 64
      → Clipped c o stream
          (min (seconds * c.sample_rate) (available_frames o.ring))
          (extract_seconds c o seconds format)
  unfolding extract_seconds
  seconds_lem seconds format few small =
      let total : mul_size seconds c.sample_rate ≡ seconds * c.sample_rate = mod-eq_of_lt few in
      let n : ℕ = min (seconds * c.sample_rate) (available_frames o.ring - 0) in
      let frame : mul_size c.channels (c.bits_per_sample / 8) ≡ bytes_per_frame o.ring =
        ap (λ t. t % 2 ^ 64) (sym v.frame) ∙ omega arith in
      let bytes : mul_size (seconds * c.sample_rate) (bytes_per_frame o.ring)
          ≡ seconds * c.sample_rate * bytes_per_frame o.ring =
        mod-eq_of_lt small in
      let out : List ℕ = replicate (seconds * c.sample_rate * bytes_per_frame o.ring) 0 in
      let part =
        mul-le-mul_right n (seconds * c.sample_rate) (bytes_per_frame o.ring) (omega arith) in
      let size = length-replicate {A = ℕ} (seconds * c.sample_rate * bytes_per_frame o.ring) 0 in
      let got =
        read_lem o.ring stream out 0 (seconds * c.sample_rate) v.holds v.small
          (omega (arith, size, part)) in
      let part_bytes : mul_size n (bytes_per_frame o.ring) ≡ n * bytes_per_frame o.ring =
        mod-eq_of_lt (omega arith) in
      rw (extract_seconds, total, frame, bytes, got)
        (if_cases (Clipped c o stream (min (seconds * c.sample_rate) (available_frames o.ring)))
          (n == 0) _ _ (λ empty. nothing (ground arith) refl)
          (λ more.
            rw (frame, part_bytes)
              (subst
                (λ xs. Clipped c o stream last (
                  some (write_sndfile c o xs (c.output_dir ++ (codes "/clip_" ++ o.stamp)) format)))
                (sym (last_bytes out))
                (clipped last (c.output_dir ++ (codes "/clip_" ++ o.stamp)) format inside))))
    where
      last : ℕ
      last = min (seconds * c.sample_rate) (available_frames o.ring)

      inside : last ≤ o.ring.total_written
      inside = omega (arith, available_frames_le o.ring)

      last_bytes :
          (out : List ℕ)
          → let b = bytes_per_frame o.ring in
            let n = min (seconds * c.sample_rate) (available_frames o.ring - 0) in
            take (n * b) (filled stream ((o.ring.total_written - 0 - n) * b) out (n * b))
            ≡ slice ((o.ring.total_written - last) * b) (last * b) stream
      last_bytes out =
          let b : ℕ = bytes_per_frame o.ring in
          let n : ℕ = min (seconds * c.sample_rate) (available_frames o.ring - 0) in
          let same : n ≡ last = omega arith in
          let start : o.ring.total_written - 0 - n ≡ o.ring.total_written - last = omega arith in
          let total : o.ring.total_written - last + last ≡ o.ring.total_written =
            omega (arith, inside) in
          let span : (o.ring.total_written - last) * b + last * b ≡ o.ring.total_written * b =
            omega (arith, ap (λ (t : ℕ). t * b) total) in
          rw (start, same)
            (take-begins stream (drop (last * b) out) ((o.ring.total_written - last) * b) (last * b)
              (omega (arith, span, v.holds.counted)))

  range_lem :
      (d : ℤ) (format : Text)
      → seconds_of d * c.sample_rate < 2 ^ 64
      → seconds_of d * c.sample_rate * bytes_per_frame o.ring < 2 ^ 64
      → Clipped c o stream
          (min (seconds_of d * c.sample_rate) (available_frames o.ring))
          (extract_range c o d format)
  unfolding extract_range
  range_lem (negsuc n) format few small = nothing (omega arith) refl
  range_lem (pos zero) format few small = nothing (omega arith) refl
  range_lem (pos (suc n)) format few small = seconds_lem (suc n) format few small

-- A request returns on every branch. Of the seconds from its start to its end, if they are not
-- negative, the clip has as many frames as the buffer holds, and they are the last ones of the
-- stream, in order, with the extractor's format. Nothing is written where that is no frame, or where
-- the file cannot be opened. The number of seconds is in the range of an `int`, and the bytes of the
-- clip are countable.
pub extract_clip-Clipped :
    (c : Extractor) (o : Moment) (stream : List ℕ) (req : Request)
    → Agrees c o stream
    → Fits 2147483648 (req.end_offset -ℤ req.start_offset)
    → seconds_of (req.end_offset -ℤ req.start_offset) * c.sample_rate < 2 ^ 64
    → seconds_of (req.end_offset -ℤ req.start_offset) * c.sample_rate * bytes_per_frame o.ring
      < 2 ^ 64
    → Clipped c o stream
        (min
          (seconds_of (req.end_offset -ℤ req.start_offset) * c.sample_rate)
          (available_frames o.ring))
        (extract_clip c o req)
unfolding extract_clip
extract_clip-Clipped c o stream req v fits few small =
    let d : ℤ = req.end_offset -ℤ req.start_offset in
    rw (to_int-of_int 2147483648 d fits) (range_lem c o stream v d req.format few small)
