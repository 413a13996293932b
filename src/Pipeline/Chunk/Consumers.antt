-- ===== src/Pipeline/Chunk/Consumers.antt =====
-- The block recorder and the publisher, where the pipeline has them.
use ws_audiod.Base.{
  ℕ, ◌+◌, ◌-◌, ◌*◌, ◌/◌, ◌^◌, ◌<◌, ◌≡◌, refl, sym, ap, subst, ◌∙◌, List, arith, length, min, Option,
  none, some,
}
use ws_audiod.Recorder.{Recorder, push}
use ws_audiod.Recorder.Push.{Queued, Pushed, push-Pushed}
use ws_audiod.Publisher.{Publisher, publish}
use ws_audiod.Publisher.Publish.{IsMapped, Published, publish-Published, publish_channels}
use ws_audiod.Pipeline.Chunk.{push_to, publish_to}

-- There is no recorder, or one whose queue holds a stream of such frames.
pub data RecorderReady (o : Option Recorder) (frames frame : ℕ) : Type 0 where
  absent : o ≡ none → RecorderReady o frames frame
  present :
      (r : Recorder) (stream : List ℕ)
      → o ≡ some r
      → Queued r stream
      → r.bytes_per_frame ≡ frame
      → r.ring_write + frames * frame < 2 ^ 64
      → RecorderReady o frames frame

unfoldable pub RecorderGot :
    {o : Option Recorder} {frames frame : ℕ}
    → RecorderReady o frames frame
    → List ℕ
    → Option Recorder
    → Type 0
RecorderGot (absent e) out after = after ≡ none
RecorderGot (present r stream e q same small) out after =
    (r' : Recorder) × (after ≡ some r') × Pushed r stream out r'

-- What a recorder and a publisher make of the data of a chunk: it is queued behind what is there, or
-- dropped whole; and it is stored with the time.
unfoldable pub Recorded : Option Recorder → List ℕ → Option Recorder → Type 0
Recorded none out after = after ≡ none
Recorded (some r) out after =
    (stream : List ℕ) × Queued r stream
    × ((r' : Recorder) × (after ≡ some r') × Pushed r stream out r')

unfoldable pub Shared : Option Publisher → List ℕ → ℕ → Option Publisher → Type 0
Shared none out timestamp_us after = after ≡ none
Shared (some s) out timestamp_us after =
    (memory : List ℕ) × IsMapped s memory
    × ((s' : Publisher) × (after ≡ some s')
        × Published s memory out (min (length out) (s.shm_size - 64)) timestamp_us s')

-- There is no publisher, or one that is set up for such samples.
pub data PublisherReady (o : Option Publisher) (channels bits : ℕ) : Type 0 where
  absent : o ≡ none → PublisherReady o channels bits
  present :
      (s : Publisher) (memory : List ℕ)
      → o ≡ some s
      → IsMapped s memory
      → s.channels ≡ channels
      → s.bits_per_sample ≡ bits
      → PublisherReady o channels bits

unfoldable pub PublisherGot :
    {o : Option Publisher} {channels bits : ℕ}
    → PublisherReady o channels bits
    → List ℕ
    → ℕ
    → Option Publisher
    → Type 0
PublisherGot (absent e) out timestamp_us after = after ≡ none
PublisherGot (present s memory e v ch b) out timestamp_us after =
    (s' : Publisher) × (after ≡ some s')
    × Published s memory out (min (length out) (s.shm_size - 64)) timestamp_us s'
    × (s'.channels ≡ s.channels)
    × (s'.bits_per_sample ≡ s.bits_per_sample)

pub got-Recorded :
    {o : Option Recorder} {frames frame : ℕ} (ready : RecorderReady o frames frame) (out : List ℕ)
    (after : Option Recorder)
    → RecorderGot ready out after
    → Recorded o out after
unfolding RecorderGot Recorded
got-Recorded (RecorderReady.absent e) out after got = subst (λ o. Recorded o out after) (sym e) got
got-Recorded (RecorderReady.present r stream e q same small) out after got =
    subst (λ o. Recorded o out after) (sym e) (stream, q, got)

pub got-Shared :
    {o : Option Publisher} {channels bits : ℕ} (ready : PublisherReady o channels bits)
    (out : List ℕ) (timestamp_us : ℕ) (after : Option Publisher)
    → PublisherGot ready out timestamp_us after
    → Shared o out timestamp_us after
unfolding PublisherGot Shared
got-Shared (PublisherReady.absent e) out t after got = subst (λ o. Shared o out t after) (sym e) got
got-Shared (PublisherReady.present s memory e v ch b) out t after (s', e', published, _, _) =
    subst (λ o. Shared o out t after) (sym e) (memory, v, (s', e', published))

pub push_to-RecorderGot :
    (o : Option Recorder) (frames frame : ℕ) (out : List ℕ) (ready : RecorderReady o frames frame)
    → length out ≡ frames * frame
    → RecorderGot ready out (push_to o out frames)
unfolding push_to RecorderGot
push_to-RecorderGot o frames frame out (RecorderReady.absent e) size = rw e refl
push_to-RecorderGot o frames frame out (RecorderReady.present r stream e q same small) size = (
  push r out frames,
  ap (λ t. push_to t out frames) e,
  push-Pushed r stream out frames q (size ∙ ap (λ t. frames * t) (sym same)) (omega (arith, size)),
)

pub publish_to-PublisherGot :
    (o : Option Publisher) (frames channels bits timestamp_us : ℕ) (out : List ℕ)
    (ready : PublisherReady o channels bits)
    → length out ≡ frames * channels * (bits / 8)
    → frames * channels < 2 ^ 64
    → length out < 2 ^ 64
    → timestamp_us < 2 ^ 64
    → PublisherGot ready out timestamp_us (publish_to o out frames timestamp_us)
unfolding publish_to PublisherGot
publish_to-PublisherGot o frames channels bits t out (PublisherReady.absent e) size fits' fits
      small =
    rw e refl
publish_to-PublisherGot o frames channels bits t out (PublisherReady.present s memory e v ch b) size
      fits' fits small =
    let bytes : frames * s.channels * (s.bits_per_sample / 8) ≡ length out =
      rw (ch, b) (sym size) in
    let items : frames * s.channels ≡ frames * channels = ap (λ k. frames * k) ch in
    (
      publish s out frames t,
      ap (λ p. publish_to p out frames t) e,
      subst (λ n. Published s memory out (min n (s.shm_size - 64)) t (publish s out frames t)) bytes
          (publish-Published s memory out frames t v (omega (arith, items)) (omega (arith, bytes))
            (omega (arith, bytes)) small),
      (publish_channels s out frames t).0,
      (publish_channels s out frames t).1,
    )
