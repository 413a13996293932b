-- ===== src/Recorder/Run/Live.antt =====
-- What holds at every point that the two threads reach.
use mathlib.Core.List.{append-nil}
use mathlib.Core.Bool.{and-false, true≢false}
use mathlib.Core.Option.{some-injective}
use ws_audiod.Base.{
  ℕ, ◌+◌, ◌-◌, ◌*◌, ◌/◌, ◌^◌, ◌<◌, ◌≡◌, refl, sym, ap, subst, ◌∙◌, Bool, true, false, Option, none,
  some, List, [], ◌++◌, arith, length, leb,
}
use ws_audiod.Pcm.{unpack}
use ws_audiod.Recorder.{Recorder, push, round}
use ws_audiod.Recorder.Writer.{Outside, Params, close_current_file}
use ws_audiod.Recorder.Writer.Blocks.{all_samples}
use ws_audiod.Recorder.Writer.Ends.{Finished, close_current_file-Finished}
use ws_audiod.Recorder.Push.{Queued, Pushed, accepted, full, idle, push-Pushed}
use ws_audiod.Recorder.Track.{Tracks, Tracks-flags, Tracks-grow}
use ws_audiod.Recorder.Outcome.{Moved}
use ws_audiod.Recorder.Drain.{empty, taken, lost, emptied, round-Rounded}
use ws_audiod.Recorder.Run.{
  Phase, waiting, draining, over, kept_of, Reach, begun, pushed, woken, went_round, waits, ended,
  stopped,
}

-- What holds between two steps. Once the writer is at its end, no file is open, and the files
-- hold the samples of all whole frames that were kept, in blocks.
abbrev pub InPhase : Phase → Recorder → List ℕ → Type 0
InPhase waiting r stream = Tracks r stream
InPhase draining r stream = Tracks r stream
InPhase over r stream =
    (r.writer_running ≡ false)
    × (r.files.sndfile ≡ none)
    × Finished r.params r.files.closed
    × (all_samples r.files.closed
        ≡ unpack r.bits_per_sample (length stream / r.bytes_per_frame * r.channels) stream)

pub record Live (r0 : Recorder) (p : Phase) (r : Recorder) (stream : List ℕ) : Type 0 where
  pub settings : r.params ≡ r0.params
  pub flags : r.recording ≡ r.writer_running
  pub phase : InPhase p r stream

-- A period before the end of the writer.
abbrev Goes : Recorder → Recorder → List ℕ → Type 0
Goes r after stream =
    Tracks after stream
    × (after.params ≡ r.params)
    × (after.recording ≡ r.recording)
    × (after.writer_running ≡ r.writer_running)

goes :
    (r after : Recorder) (stream src : List ℕ)
    → Tracks r stream
    → Pushed r stream src after
    → Goes r after (stream ++ kept_of r src)
goes r after stream src v p = elim p [
  | accepted room on q e ↦
      let fits : leb (length src) (r.ring_capacity - (r.ring_write - r.ring_read)) ≡ true =
        ground arith in
      let kept : kept_of r src ≡ src = rw (on, fits) refl in
      subst (λ t. Goes r after (stream ++ t)) (sym kept)
        (subst (λ x. Goes r x (stream ++ src)) (sym e)
          (
            Tracks-grow r stream src after.ring (r.ring_write + length src) v
                (subst (λ x. Queued x (stream ++ src)) e q),
            refl,
            refl,
            refl,
          ))
  | full big e ↦
      let fits : leb (length src) (r.ring_capacity - (r.ring_write - r.ring_read)) ≡ false =
        ground arith in
      let kept : kept_of r src ≡ [] = rw (fits, and-false) refl in stays kept e
  | idle off e ↦ stays (rw off refl) e
]
  where
    stays : kept_of r src ≡ [] → after ≡ r → Goes r after (stream ++ kept_of r src)
    stays kept e =
        subst (λ t. Goes r after (stream ++ t)) (sym kept)
          (rw append-nil (subst (λ x. Goes r x stream) (sym e) (v, refl, refl, refl)))

push_quiet : (r : Recorder) (src : List ℕ) (n : ℕ) → r.recording ≡ false → push r src n ≡ r
unfolding push
push_quiet r src n off = rw off refl

Live-pushed :
    (r0 r : Recorder) (p : Phase) (stream src : List ℕ) (n : ℕ)
    → Live r0 p r stream
    → length src ≡ n * r.bytes_per_frame
    → r.ring_write + length src < 2 ^ 64
    → Live r0 p (push r src n) (stream ++ kept_of r src)
Live-pushed r0 r waiting stream src n v given small =
    let (t, same, on, running) =
      goes r (push r src n) stream src v.phase
        (push-Pushed r stream src n v.phase.queue given small) in
    record { settings = same ∙ v.settings; flags = on ∙ v.flags ∙ sym running; phase = t }
Live-pushed r0 r draining stream src n v given small =
    let (t, same, on, running) =
      goes r (push r src n) stream src v.phase
        (push-Pushed r stream src n v.phase.queue given small) in
    record { settings = same ∙ v.settings; flags = on ∙ v.flags ∙ sym running; phase = t }
Live-pushed r0 r over stream src n v given small =
    let off : r.recording ≡ false = v.flags ∙ v.phase.0 in
    let kept : kept_of r src ≡ [] = rw off refl in
    subst (λ t. Live r0 over (push r src n) (stream ++ t)) (sym kept)
      (rw append-nil (subst (λ x. Live r0 over x stream) (sym (push_quiet r src n off)) v))

Live-stopped :
    (r0 r : Recorder) (p : Phase) (stream : List ℕ)
    → Live r0 p r stream
    → Live r0 p (record r { recording = false; writer_running = false }) stream
Live-stopped r0 r waiting stream v = record {
  settings = v.settings;
  flags = refl;
  phase = Tracks-flags r stream false false v.phase;
}
Live-stopped r0 r draining stream v = record {
  settings = v.settings;
  flags = refl;
  phase = Tracks-flags r stream false false v.phase;
}
Live-stopped r0 r over stream v =
    let (_, shut, blocks, all) = v.phase in
    record { settings = v.settings; flags = refl; phase = (refl, shut, blocks, all) }

-- A round does not touch the settings and the flags.
Live-Moved :
    (r0 r after : Recorder) (stream : List ℕ)
    → Live r0 draining r stream
    → Moved r after
    → Tracks after stream
    → Live r0 draining after stream
Live-Moved r0 r after stream v m t = record {
  settings = ap {A = Recorder} {B = Params} (λ x. x.params) m ∙ v.settings;
  flags =
      ap {A = Recorder} {B = Bool} (λ x. x.recording) m
      ∙ v.flags
      ∙ sym (ap {A = Recorder} {B = Bool} (λ x. x.writer_running) m);
  phase = t;
}

same_after :
    {a b : Recorder} {x y : Bool}
    → Path (Option (Recorder × Bool)) (some (a, x)) (some (b, y))
    → a ≡ b
same_after {a} {b} {x} {y} e =
    ap {A = Recorder × Bool} {B = Recorder} (λ t. t.0) (some-injective (a, x) (b, y) e)

Live-round :
    (o : Outside) (r0 r after : Recorder) (stream : List ℕ) (more : Bool)
    → ((k : ℕ) → o.opens k ≡ true)
    → Live r0 draining r stream
    → round o r ≡ some (after, more)
    → Live r0 draining after stream
Live-round o r0 r after stream more good v e = elim (round-Rounded o r stream v.phase) [
  | empty e' none_left ↦ subst (λ x. Live r0 draining x stream) (same_after (sym e' ∙ e)) v
  | taken after' e' t m grows ↦
      subst (λ x. Live r0 draining x stream) (same_after (sym e' ∙ e))
        (Live-Moved r0 r after' stream v m t)
  | lost after' e' d m ↦ absurd (true≢false (sym (good d.refused) ∙ d.bad))
]

Live-ended :
    (r0 r : Recorder) (stream : List ℕ)
    → Live r0 draining r stream
    → r.writer_running ≡ false
    → r.ring_write ≡ r.ring_read
    → Live r0 over (record r { files = close_current_file r.files }) stream
Live-ended r0 r stream v off e =
    let (same, shut, blocks) = close_current_file-Finished r.params r.files v.phase.blocked in
    record {
      settings = v.settings;
      flags = v.flags;
      phase = (off, shut, blocks, same ∙ (emptied r stream v.phase (sym e)).0);
    }

-- At every point that the two threads of a recorder can reach from its start, in any order of their
-- steps, if every file can be opened: the periods that fit are in the queue, the buffer and the
-- files, in order and without a gap, and every closed file holds a whole block. When the writer has
-- ended, no file is open and all whole frames are in closed files, of which only the last may be
-- short.
pub Reach-Live :
    (o : Outside) (r0 r : Recorder) (p : Phase) (stream : List ℕ)
    → ((k : ℕ) → o.opens k ≡ true)
    → Tracks r0 []
    → r0.recording ≡ r0.writer_running
    → Reach o r0 r p stream
    → Live r0 p r stream
Reach-Live o r0 r p stream good v flags begun = record { settings = refl; flags = flags; phase = v }
Reach-Live o r0 _ p _ good v flags (pushed {r = r} {stream = stream} src n before given small) =
    Live-pushed r0 r p stream src n (Reach-Live o r0 r p stream good v flags before) given small
Reach-Live o r0 r _ stream good v flags (woken before awakes) =
    let l = Reach-Live o r0 r waiting stream good v flags before in
    record { settings = l.settings; flags = l.flags; phase = l.phase }
Reach-Live o r0 r' _ stream good v flags (went_round {r = r} before e) =
    Live-round o r0 r r' stream true good (Reach-Live o r0 r draining stream good v flags before) e
Reach-Live o r0 r' _ stream good v flags (waits {r = r} before e guard) =
    let l =
      Live-round o r0 r r' stream false good (Reach-Live o r0 r draining stream good v flags before)
        e in
    record { settings = l.settings; flags = l.flags; phase = l.phase }
Reach-Live o r0 _ _ stream good v flags (ended {r = r} {r' = r'} before e off none_left) =
    Live-ended r0 r' stream
      (Live-round o r0 r r' stream false good
        (Reach-Live o r0 r draining stream good v flags before) e)
      off none_left
Reach-Live o r0 _ p stream good v flags (stopped {r = r} before) =
    Live-stopped r0 r p stream (Reach-Live o r0 r p stream good v flags before)
