-- ===== src/Daemon/Answers.antt =====
-- Every line of a client is answered.
use mathlib.Core.Option
use ws_audiod.Base.{
  ℕ, ◌*◌, ◌^◌, ◌<◌, ◌≡◌, refl, sym, ap, if◌then◌else◌, subst, ◌∙◌, Bool, true, false, ◌||◌, Option,
  none, some, List, [], ◌∷◌, ◌++◌, Text, codes, text_eq, if_cases, Option-cases, inl, inr, ◌-ℤ◌,
  take, Fits, Floating,
}
use ws_audiod.Ring.{bytes_per_frame}
use ws_audiod.Recorder.Writer.{File}
use ws_audiod.Clips.{Extractor, Moment, new_request, extract_clip}
use ws_audiod.Clips.Extract.{Agrees, Clipped, seconds_of, extract_clip-Clipped}
use ws_audiod.Clips.Queue.{request_clip_sync_lem}
use ws_audiod.Pipeline.Chunk.{Pipeline, Capture}
use ws_audiod.Pipeline.Life.{linear, set_gain, set_dc_remove, is_true, set_parameter}
use ws_audiod.Config.Line.{is_empty}
use ws_audiod.Pipeline.Life.Tune.{is_gain}
use ws_audiod.Control.{
  Command, CommandType, clip, set, get, unknown, ok, ok_path, ok_data, error, parse_command,
  strip_ends, until_nul, handled, dispatch, send, handle_client,
}
use ws_audiod.Daemon.{
  status_json, get_status_json, get_levels_json, clip_answer, handle_clip_command, set_answer,
  handle_set_command, handle_get_command, daemon_handlers,
}

abbrev pub has_parameter : Text → Bool
has_parameter key = is_gain key || text_eq key (codes "dc_remove")

module _ (m : Floating) where
  -- A command changes the clips, the gain and the filter at most.
  abbrev pub Untouched : Pipeline m → Pipeline m → Type 0
  Untouched p q = q ≡ record p {
    clip_extractor = q.clip_extractor;
    gain_db = q.gain_db;
    gain_linear = q.gain_linear;
    dc_remove = q.dc_remove;
    dc_prev_x = q.dc_prev_x;
    dc_prev_y = q.dc_prev_y;
  }

  -- The clips' worker runs, and no clip is waited for.
  pub record IsIdle (p : Pipeline m) : Type 0 where
    pub clips : Extractor
    pub there : p.clip_extractor ≡ some clips
    pub runs : clips.running ≡ true
    pub none_waits : clips.queue ≡ []

  -- The response to a command that leaves `q`: the path of the clip that the request of the command
  -- extracts, or that there is none; whether there is such a parameter to set; the status or the levels
  -- of an unchanged state; or that there is no such key or command.
  pub data Response (now : ℕ) (o : Moment) (p : Pipeline m) (cmd : Command) (q : Pipeline m)
      : Text → Type 0 where
    clipped :
        (clips : Extractor) (path : Text) (file : Option File)
        → cmd.type ≡ clip
        → p.clip_extractor ≡ some clips
        → extract_clip clips o (new_request clips cmd.int_value cmd.int_value2 cmd.key now)
          ≡ some (path, file)
        → Response now o p cmd q
            (if is_empty path then error (codes "Clip extraction failed") else ok_path path)
    was_set : cmd.type ≡ set → has_parameter cmd.key ≡ true → Response now o p cmd q ok
    not_set :
        cmd.type ≡ set
        → has_parameter cmd.key ≡ false
        → q ≡ p
        → Response now o p cmd q (error (codes "Failed to set parameter"))
    status :
        (capture : Capture)
        → cmd.type ≡ get
        → text_eq cmd.key (codes "STATUS") ≡ true
        → p.capture ≡ some capture
        → q ≡ p
        → Response now o p cmd q (ok_data (status_json m p capture))
    levels :
        cmd.type ≡ get
        → text_eq cmd.key (codes "LEVEL") || text_eq cmd.key (codes "LEVELS") ≡ true
        → q ≡ p
        → Response now o p cmd q (ok_data (get_levels_json m p))
    no_key :
        cmd.type ≡ get
        → text_eq cmd.key (codes "STATUS") ≡ false
        → text_eq cmd.key (codes "LEVEL") || text_eq cmd.key (codes "LEVELS") ≡ false
        → q ≡ p
        → Response now o p cmd q (error (codes "Unknown key: " ++ cmd.key))
    invalid : cmd.type ≡ unknown → q ≡ p → Response now o p cmd q (error (codes "Invalid command"))

  -- One response; or an exception, for a gain that is no number.
  pub data Handled (now : ℕ) (o : Moment) (p : Pipeline m) (cmd : Command)
      (result : Option (Pipeline m × Text)) : Type 0 where
    done :
        (q : Pipeline m) (json : Text)
        → result ≡ some (q, json)
        → Response now o p cmd q json
        → Untouched p q
        → IsIdle q
        → Handled now o p cmd result
    thrown :
        cmd.type ≡ set
        → is_gain cmd.key ≡ true
        → m.stod cmd.value ≡ none
        → result ≡ none
        → Handled now o p cmd result

  -- The offsets of a clip, whose seconds are in the range of an `int` and whose bytes can be counted.
  pub record InRange (clips : Extractor) (o : Moment) (cmd : Command) : Type 0 where
    pub seconds : Fits 2147483648 (cmd.int_value2 -ℤ cmd.int_value)
    pub frames : seconds_of (cmd.int_value2 -ℤ cmd.int_value) * clips.sample_rate < 2 ^ 64
    pub bytes :
        seconds_of (cmd.int_value2 -ℤ cmd.int_value) * clips.sample_rate * bytes_per_frame o.ring
        < 2 ^ 64

  returned :
      {c : Extractor} {o : Moment} {stream : List ℕ} {n : ℕ} {result : Option (Text × Option File)}
      → Clipped c o stream n result
      → (path : Text) × (file : Option File) × (result ≡ some (path, file))
  returned (Clipped.nothing none_there e) = ([], none, e)
  returned (Clipped.unopened path shut e) = ([], none, e)
  returned (Clipped.clip file e opened same rate channels) = (file.path, some file, e)

  handle_clip_command-Handled :
      (now : ℕ) (o : Moment) (p : Pipeline m) (stream : List ℕ) (cmd : Command) (idle : IsIdle p)
      → Agrees idle.clips o stream
      → InRange idle.clips o cmd
      → cmd.type ≡ clip
      → Handled now o p cmd (handle_clip_command m now o p cmd)
  unfolding handle_clip_command clip_answer new_request
  handle_clip_command-Handled now o p stream cmd idle agrees range is_clip =
      let (path, file, e) = returned (
        extract_clip-Clipped idle.clips o stream
          (new_request idle.clips cmd.int_value cmd.int_value2 cmd.key now) agrees range.seconds
          range.frames range.bytes) in
      let (c', served, still, none_left) =
        request_clip_sync_lem idle.clips cmd.int_value cmd.int_value2 cmd.key now o path file
          idle.runs idle.none_waits e in
      done (record p { clip_extractor = some c' }) (clip_answer m p (c', path)).1
        (rw (handle_clip_command, idle.there, served) refl)
        (clipped idle.clips path file is_clip idle.there e) refl
        (record { clips = c'; there = refl; runs = still; none_waits = none_left })

  still_idle :
      (p : Pipeline m) (idle : IsIdle p) (q : Pipeline m)
      → q.clip_extractor ≡ p.clip_extractor
      → IsIdle q
  still_idle p idle q e = record {
    clips = idle.clips;
    there = e ∙ idle.there;
    runs = idle.runs;
    none_waits = idle.none_waits;
  }

  set_dc_remove-Handled :
      (now : ℕ) (o : Moment) (p : Pipeline m) (cmd : Command) (enabled : Bool)
      → IsIdle p
      → cmd.type ≡ set
      → has_parameter cmd.key ≡ true
      → Handled now o p cmd (some (set_answer m (set_dc_remove m p enabled, true)))
  unfolding set_dc_remove set_answer
  set_dc_remove-Handled now o p cmd true idle is_set is_it =
      done (set_dc_remove m p true) ok refl (was_set is_set is_it) refl
        (still_idle p idle (set_dc_remove m p true) refl)
  set_dc_remove-Handled now o p cmd false idle is_set is_it =
      done (set_dc_remove m p false) ok refl (was_set is_set is_it) refl
        (still_idle p idle (set_dc_remove m p false) refl)

  handle_set_command-Handled :
      (now : ℕ) (o : Moment) (p : Pipeline m) (cmd : Command)
      → IsIdle p
      → cmd.type ≡ set
      → Handled now o p cmd (handle_set_command m p cmd)
  unfolding handle_set_command set_parameter set_gain set_dc_remove set_answer
  handle_set_command-Handled now o p cmd idle is_set =
      let P =
        λ (r : Option (Pipeline m × Bool)). Handled now o p cmd (Option.map (set_answer m) r) in
      if_cases P (is_gain cmd.key) _ _
        (λ is_it. elim (Option-cases (m.stod cmd.value)) [
          | inl bad ↦ thrown is_set is_it bad (rw (set_gain, bad) refl)
          | inr (db, read) ↦
              done (record p { gain_db = m.single db; gain_linear = linear m db })
                (set_answer m (p, true)).1 (rw (set_gain, read) refl)
                (was_set is_set (ap (λ b. b || text_eq cmd.key (codes "dc_remove")) is_it)) refl
                (still_idle p idle (record p { gain_db = m.single db; gain_linear = linear m db })
                  refl)
        ])
        (λ no_gain.
          let which = ap (λ b. b || text_eq cmd.key (codes "dc_remove")) no_gain in
          if_cases P (text_eq cmd.key (codes "dc_remove")) _ _
            (λ is_it.
              set_dc_remove-Handled now o p cmd (is_true m cmd.value) idle is_set (which ∙ is_it))
            (λ other.
              done p (set_answer m (p, false)).1 refl (not_set is_set (which ∙ other) refl) refl
                idle))

  handle_get_command-Handled :
      (now : ℕ) (o : Moment) (p : Pipeline m) (cmd : Command) (capture : Capture)
      → IsIdle p
      → p.capture ≡ some capture
      → cmd.type ≡ get
      → Handled now o p cmd (handle_get_command m p cmd)
  unfolding handle_get_command get_status_json
  handle_get_command-Handled now o p cmd capture idle there is_get =
      let P = Handled now o p cmd in
      if_cases P (text_eq cmd.key (codes "STATUS")) _ _
        (λ it.
          done p (ok_data (status_json m p capture)) (rw (get_status_json, there) refl)
            (status capture is_get it there refl) refl idle)
        (λ no_status.
          if_cases P (text_eq cmd.key (codes "LEVEL") || text_eq cmd.key (codes "LEVELS")) _ _
            (λ it. done p (ok_data (get_levels_json m p)) refl (levels is_get it refl) refl idle)
            (λ other.
              done p (error (codes "Unknown key: " ++ cmd.key)) refl
                (no_key is_get no_status other refl) refl idle))

  dispatch-Handled :
      (now : ℕ) (o : Moment) (p : Pipeline m) (stream : List ℕ) (cmd : Command) (capture : Capture)
      (idle : IsIdle p)
      → p.capture ≡ some capture
      → Agrees idle.clips o stream
      → InRange idle.clips o cmd
      → Handled now o p cmd (dispatch (daemon_handlers m now o) p cmd)
  unfolding dispatch handled daemon_handlers
  dispatch-Handled now o p stream cmd capture idle there agrees range =
      (elim cmd.type
          as (λ (t : CommandType).
            cmd.type ≡ t
            → Handled now o p cmd (elim t [
              | clip ↦ handle_clip_command m now o p cmd
              | set ↦ handle_set_command m p cmd
              | get ↦ handle_get_command m p cmd
              | unknown ↦ some (p, error (codes "Invalid command"))
            ])) [
              | clip ↦ λ is_clip.
                  handle_clip_command-Handled now o p stream cmd idle agrees range is_clip
              | set ↦ λ is_set. handle_set_command-Handled now o p cmd idle is_set
              | get ↦ λ is_get. handle_get_command-Handled now o p cmd capture idle there is_get
              | unknown ↦ λ is_unknown.
                  done p (error (codes "Invalid command")) refl (invalid is_unknown refl) refl idle
            ])
        refl

  -- What handle_client does with the command of a line: nothing is sent where nothing is received.
  pub data Answered (now : ℕ) (o : Moment) (p : Pipeline m) (cmd : Command)
      : Option (Pipeline m × Option Text) → Type 0 where
    answered :
        (q : Pipeline m) (json : Text)
        → Response now o p cmd q json
        → Untouched p q
        → IsIdle q
        → Answered now o p cmd (some (q, some (json ++ codes "\n")))
    thrown :
        cmd.type ≡ set
        → is_gain cmd.key ≡ true
        → m.stod cmd.value ≡ none
        → Answered now o p cmd none

  sent :
      {now : ℕ} {o : Moment} {p : Pipeline m} {cmd : Command} {result : Option (Pipeline m × Text)}
      → Handled now o p cmd result
      → Answered now o p cmd (send result)
  unfolding send
  sent {now} {o} {p} {cmd} (done q json e response untouched idle) =
      subst (λ r. Answered now o p cmd (send r)) (sym e) (answered q json response untouched idle)
  sent {now} {o} {p} {cmd} (thrown is_set is_it bad e) =
      subst (λ r. Answered now o p cmd (send r)) (sym e) (thrown is_set is_it bad)

  -- A client that sends a line is answered by the response to its command and a newline: the path of
  -- the clip of its range, or that it failed; whether the parameter was set; the status or the levels,
  -- of a state that is unchanged; or that the key or the command is unknown. The state changes in the
  -- clips, the gain and the DC filter at most; the worker of the clips runs afterwards, and none waits.
  -- The only exception is for setting a gain to a value that is no number. The seconds that the line
  -- asks for are in the range of an `int` and their bytes countable, the ring buffer agrees with the
  -- stream, the capture is set up, the worker runs and no clip waits before.
  pub handle_client-Answered :
      (now : ℕ) (o : Moment) (p : Pipeline m) (stream : List ℕ) (c : ℕ) (received : Text)
      (capture : Capture) (idle : IsIdle p) (cmd : Command)
      → p.capture ≡ some capture
      → Agrees idle.clips o stream
      → parse_command (strip_ends (until_nul (take 1023 (c ∷ received)))) ≡ cmd
      → InRange idle.clips o cmd
      → Answered now o p cmd (handle_client (daemon_handlers m now o) p (c ∷ received))
  unfolding handle_client
  handle_client-Answered now o p stream c received capture idle cmd there agrees e range =
      subst (λ (k : Command). Answered now o p cmd (send (dispatch (daemon_handlers m now o) p k)))
        (sym e) (sent (dispatch-Handled now o p stream cmd capture idle there agrees range))
