-- ===== src/Pipeline/Chunk/Whole.antt =====
-- The downmix of a chunk, and the three steps together.
use native.Mathlib.Nat.{mul-div_cancel, mod-eq_of_lt}
use ws_audiod.Base.{
  ℕ, ◌*◌, ◌/◌, ◌^◌, ◌≤◌, ◌<◌, ◌≡◌, refl, sym, ap, ◌∙◌, List, arith, length, take, length-take,
  get_or, mul_size, Bool, true, false, ◌&&◌, if◌then◌else◌, leb, ℤ, Floating,
}
use ws_audiod.Pcm.{width}
use ws_audiod.Pcm.Sample.{IsDepth, on_depth, values, HoldsValues}
use ws_audiod.Pcm.Arrays.{values-take}
use ws_audiod.Pipeline.Downmix.{evens}
use ws_audiod.Pipeline.Chunk.{
  Pipeline, AudioChunkMeta, Source, downmix_chunk, gain_chunk, dc_chunk, shape_chunk,
}
use ws_audiod.Pipeline.Chunk.Left.{values-downmix}
use ws_audiod.Pipeline.Chunk.Shape.{
  pointed, gained, Kept, Kept-trans, Filtered, HasChannels, state_x, state_y, gain_chunk_lem,
  dc_chunk_lem,
}

pub width_lem : (bits : ℕ) → IsDepth bits → bits / 8 ≡ width bits
width_lem bits = on_depth (λ b. b / 8 ≡ width b) refl refl refl bits

module _ (m : Floating) where
  -- The channels of the data after the downmix, and its samples.
  abbrev pub mixes : Pipeline m → AudioChunkMeta → Bool
  mixes p meta = p.downmix_mono && leb 2 meta.channels

  abbrev pub out_channels : Pipeline m → AudioChunkMeta → ℕ
  out_channels p meta = if mixes p meta then 1 else meta.channels

  abbrev pub mixed : Pipeline m → AudioChunkMeta → List ℕ → ℕ → List ℤ
  mixed p meta src frames =
      if mixes p meta
      then evens (values meta.bits_per_sample (2 * frames) src)
      else values meta.bits_per_sample (frames * meta.channels) src

  -- A chunk that is mixed down has two channels, and there is room for its left one.
  pub data MayMix (p : Pipeline m) (meta : AudioChunkMeta) (frames : ℕ) : Type 0 where
    direct : mixes p meta ≡ false → MayMix p meta frames
    stereo :
        mixes p meta ≡ true
        → meta.channels ≡ 2
        → frames * width meta.bits_per_sample ≤ length p.mono_buffer
        → MayMix p meta frames

  Filtered-subst :
      (bits c : ℕ) {channels channels' : ℕ} {enabled enabled' : Bool} {px py qx qy : m.float}
      {vs vs' os os' : List ℤ} (px' py' : m.float)
      → channels ≡ channels'
      → enabled ≡ enabled'
      → px ≡ qx
      → py ≡ qy
      → vs ≡ vs'
      → os ≡ os'
      → Filtered m bits channels c enabled px py vs os px' py'
      → Filtered m bits channels' c enabled' qx qy vs' os' px' py'
  Filtered-subst bits c px' py' e0 e1 e2 e3 e4 e5 h =
      rw (sym e0, sym e1, sym e2, sym e3, sym e4, sym e5) h

  -- Nothing but the two buffers and the state of the filter is changed.
  abbrev pub KeptRest : Pipeline m → Pipeline m → Type 0
  KeptRest p p' = p' ≡ record p {
    gain_buffer = p'.gain_buffer;
    mono_buffer = p'.mono_buffer;
    dc_prev_x = p'.dc_prev_x;
    dc_prev_y = p'.dc_prev_y;
  }

  Kept-KeptRest :
      (p p1 p' : Pipeline m)
      → p1 ≡ record p { mono_buffer = p1.mono_buffer }
      → Kept m p1 p'
      → KeptRest p p'
  Kept-KeptRest p p1 p' h h' =
      h'
      ∙ ap {A = Pipeline m} {B = Pipeline m}
          (λ t. record t {
            gain_buffer = p'.gain_buffer;
            dc_prev_x = p'.dc_prev_x;
            dc_prev_y = p'.dc_prev_y;
          })
          h
      ∙ ap {A = List ℕ} {B = Pipeline m}
          (λ b. record p {
            gain_buffer = p'.gain_buffer;
            mono_buffer = b;
            dc_prev_x = p'.dc_prev_x;
            dc_prev_y = p'.dc_prev_y;
          })
          (ap (λ (q : Pipeline m). q.mono_buffer) (sym h'))

  downmix_chunk_lem :
      (p : Pipeline m) (meta : AudioChunkMeta) (src : List ℕ) (frames : ℕ)
      → IsDepth meta.bits_per_sample
      → 0 < meta.channels
      → MayMix p meta frames
      → frames * meta.channels * width meta.bits_per_sample ≤ length src
      → let q = downmix_chunk m p meta src (frames * meta.channels) in
        HoldsValues meta.bits_per_sample q.1.samples q.1.array (mixed p meta src frames)
        × (q.1.samples ≡ frames * out_channels p meta)
        × (q.1.channels ≡ out_channels p meta)
        × (q.0 ≡ record p { mono_buffer = q.0.mono_buffer })
        × (length q.0.mono_buffer ≡ length p.mono_buffer)
  unfolding downmix_chunk
  downmix_chunk_lem p meta src frames depth some_channels (MayMix.direct no_mix) room =
      rw no_mix ((refl, room), refl, refl, refl, refl)
  downmix_chunk_lem p meta src frames depth some_channels (MayMix.stereo mix two mono_room) room =
      let w : ℕ = width meta.bits_per_sample in
      let have : frames * (2 * w) ≤ length src = omega (arith, ap (λ t. frames * t * w) two) in
      let n : frames * meta.channels / meta.channels ≡ frames =
        mul-div_cancel frames some_channels in
      let (left, size) =
        values-downmix src p.mono_buffer frames meta.bits_per_sample depth have mono_room in
      rw (mix, n) ((left, omega (arith, size)), omega arith, refl, refl, size)

  -- What is handed to the consumers of a chunk, for channel `c` of it.
  pub record Shaped (p : Pipeline m) (meta : AudioChunkMeta) (src : List ℕ) (frames c : ℕ)
      (p' : Pipeline m) (out : Source) : Type 0 where
    pub count : out.samples ≡ frames * out_channels p meta
    pub bytes : length out.array ≡ out.samples * width meta.bits_per_sample
    pub filtered :
        Filtered m meta.bits_per_sample
          (out_channels p meta)
          c
          p.dc_remove
          (state_x m p c)
          (state_y m p c)
          (gained m meta.bits_per_sample p.gain_linear (mixed p meta src frames))
          (values meta.bits_per_sample out.samples out.array)
          (state_x m p' c)
          (state_y m p' c)
    pub kept : KeptRest p p'
    pub mono_room : length p'.mono_buffer ≡ length p.mono_buffer
    pub channels : HasChannels m p' (out_channels p meta)

  -- The samples that the consumers are given are those of the chunk, mixed down, times the gain and
  -- filtered, each where it is turned on; nothing else of the state is changed.
  pub shape_chunk-Shaped :
      (p : Pipeline m) (meta : AudioChunkMeta) (src : List ℕ) (frames c : ℕ)
      → IsDepth meta.bits_per_sample
      → 0 < meta.channels
      → MayMix p meta frames
      → frames * meta.channels * width meta.bits_per_sample ≤ length src
      → frames * out_channels p meta * width meta.bits_per_sample < 2 ^ 64
      → HasChannels m p (out_channels p meta)
      → c < out_channels p meta
      → let (p', out) = shape_chunk m p meta src (frames * meta.channels) in
        Shaped p meta src frames c p' out
  unfolding shape_chunk
  shape_chunk-Shaped p meta src frames c depth some_channels may room small has inside =
      let bits : ℕ = meta.bits_per_sample in
      let n : ℕ = frames * meta.channels in
      let p1 : Pipeline m = (downmix_chunk m p meta src n).0 in
      let cur : Source = (downmix_chunk m p meta src n).1 in
      let data_size : ℕ = mul_size cur.samples (bits / 8) in
      let (held, count, ch, kept1, mono_size) =
        downmix_chunk_lem p meta src frames depth some_channels may room in
      let size : data_size ≡ cur.samples * width bits =
        ap (mul_size cur.samples) (width_lem bits depth)
        ∙ mod-eq_of_lt (omega (arith, ap (λ t. t * width bits) count)) in
      let p2 : Pipeline m = (gain_chunk m p1 meta cur data_size).0 in
      let copied : Bool = (gain_chunk m p1 meta cur data_size).1 in
      let (held2, kept2, (same_x2, same_y2)) =
        gain_chunk_lem m p1 meta cur data_size (mixed p meta src frames) depth size held in
      let gain : p1.gain_linear ≡ p.gain_linear = ap (λ (q : Pipeline m). q.gain_linear) kept1 in
      let vs : List ℤ = gained m bits p1.gain_linear (mixed p meta src frames) in
      let has2 : HasChannels m p2 cur.channels = record {
        inputs =
            ap length (same_x2 ∙ ap (λ (q : Pipeline m). q.dc_prev_x) kept1) ∙ has.inputs ∙ sym ch;
        outputs =
            ap length (same_y2 ∙ ap (λ (q : Pipeline m). q.dc_prev_y) kept1) ∙ has.outputs ∙ sym ch;
      } in
      let whole : cur.samples / cur.channels * cur.channels ≡ cur.samples =
        rw (count, ch) (ap (λ t. t * out_channels p meta) (mul-div_cancel frames (omega arith))) in
      let (filtered, length_out, kept3, has3) =
        dc_chunk_lem m p2 meta cur data_size copied vs c depth size held2 whole has2
          (omega (arith, ch)) in
      let q : Pipeline m × Bool = dc_chunk m p2 meta cur data_size copied in
      let taken : values bits cur.samples (pointed m cur q)
          ≡ values bits cur.samples (take data_size (pointed m cur q)) =
        sym (
          values-take bits cur.samples data_size (pointed m cur q) (omega (arith, size))
            length_out) in
      let enabled : p2.dc_remove ≡ p.dc_remove =
        ap (λ (q : Pipeline m). q.dc_remove) kept2 ∙ ap (λ (q : Pipeline m). q.dc_remove) kept1 in
      record {
        count = count;
        bytes = length-take data_size (pointed m cur q) ∙ omega (arith, size, length_out);
        filtered =
            Filtered-subst bits c (state_x m q.0 c) (state_y m q.0 c) ch enabled
              (ap (λ t. get_or t c m.zero_f) (same_x2 ∙ ap (λ (q : Pipeline m). q.dc_prev_x) kept1))
              (ap (λ t. get_or t c m.zero_f) (same_y2 ∙ ap (λ (q : Pipeline m). q.dc_prev_y) kept1))
              (ap (λ g. gained m bits g (mixed p meta src frames)) gain) taken filtered;
        kept = Kept-KeptRest p p1 q.0 kept1 (Kept-trans m p1 p2 q.0 kept2 kept3);
        mono_room =
            ap (λ (q : Pipeline m). length q.mono_buffer) (Kept-trans m p1 p2 q.0 kept2 kept3)
            ∙ mono_size;
        channels = record { inputs = has3.inputs ∙ ch; outputs = has3.outputs ∙ ch };
      }
