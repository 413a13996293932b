-- ===== src/Pipeline/Chunk/Shape.antt =====
-- What the three steps make of a chunk.
use ws_audiod.Base.{
  ℕ, ◌*◌, ◌-◌, ◌/◌, ◌≤◌, ◌<◌, ◌≡◌, refl, sym, ap, subst, ◌∙◌, List, [], ◌++◌, arith, length, take,
  drop, map, replicate, memcpy, memcpy-append, length-append, length-take, length-replicate, get_or,
  Bool, true, false, not, if◌then◌else◌, ltb, ℤ, Floating, if_cases,
}
use ws_audiod.Pcm.{width}
use ws_audiod.Pcm.Sample.{IsDepth, values, encode, HoldsValues, encode-HoldsValues}
use ws_audiod.Pcm.Arrays.{values-append, values-take}
use ws_audiod.Pipeline.Gain.{gain_sample, apply_gain}
use ws_audiod.Pipeline.Gain.Saturates.{apply_gain_bytes, length-scaled, map-AllFit}
use ws_audiod.Pipeline.Dc.{Dc, apply_dc_remove}
use ws_audiod.Pipeline.Dc.Channels.{Filters, pick, apply_dc_remove_lem, length-apply_dc_remove}
use ws_audiod.Pipeline.Chunk.{Pipeline, AudioChunkMeta, Source, grow, gain_chunk, dc_chunk}

pub length-grow : (buffer : List ℕ) (n : ℕ) → n ≤ length (grow buffer n)
length-grow buffer n =
    if_cases (λ t. n ≤ length t) (ltb (length buffer) n) _ buffer
      (λ less. omega (
        arith,
        length-append buffer (replicate (n - length buffer) 0),
        length-replicate {A = ℕ} (n - length buffer) 0,
      ))
      (λ enough. ground arith)

module _ (m : Floating) where
  -- Nothing but `gain_buffer_` and the state of the filter is changed.
  abbrev pub Kept : Pipeline m → Pipeline m → Type 0
  Kept p p' = p' ≡ record p {
    gain_buffer = p'.gain_buffer;
    dc_prev_x = p'.dc_prev_x;
    dc_prev_y = p'.dc_prev_y;
  }

  -- The filter is not touched either.
  abbrev pub SameFilter : Pipeline m → Pipeline m → Type 0
  SameFilter p p' = (p'.dc_prev_x ≡ p.dc_prev_x) × (p'.dc_prev_y ≡ p.dc_prev_y)

  pub Kept-trans : (p q r : Pipeline m) → Kept p q → Kept q r → Kept p r
  Kept-trans p q r h h' =
      h'
      ∙ ap {A = Pipeline m} {B = Pipeline m}
          (λ t. record t {
            gain_buffer = r.gain_buffer;
            dc_prev_x = r.dc_prev_x;
            dc_prev_y = r.dc_prev_y;
          })
          h

  -- The samples after the gain.
  unfoldable pub gained : ℕ → m.float → List ℤ → List ℤ
  gained bits gain vs = if m.eq_f gain m.one_f then vs else map (gain_sample m bits gain) vs

  -- The array that `out_data` points to.
  abbrev pub pointed : Source → Pipeline m × Bool → List ℕ
  pointed cur (p, copied) = if copied then p.gain_buffer else cur.array

  pub gain_chunk_lem :
      (p : Pipeline m) (meta : AudioChunkMeta) (cur : Source) (data_size : ℕ) (vs : List ℤ)
      → IsDepth meta.bits_per_sample
      → data_size ≡ cur.samples * width meta.bits_per_sample
      → HoldsValues meta.bits_per_sample cur.samples cur.array vs
      → let q = gain_chunk m p meta cur data_size in
        HoldsValues meta.bits_per_sample cur.samples
          (pointed cur q)
          (gained meta.bits_per_sample p.gain_linear vs)
        × Kept p q.0
        × SameFilter p q.0
  unfolding gain_chunk gained
  gain_chunk_lem p meta cur data_size vs depth e (same, room) =
      let bits : ℕ = meta.bits_per_sample in
      let buffer : List ℕ = grow p.gain_buffer data_size in
      let out : List ℕ = apply_gain m cur.array buffer cur.samples bits p.gain_linear in
      let scale : ℤ → ℤ = gain_sample m bits p.gain_linear in
      let tail : List ℕ = drop (cur.samples * width bits) buffer in
      let whole =
        apply_gain_bytes m cur.array buffer cur.samples bits p.gain_linear depth
          (omega (arith, e, length-grow p.gain_buffer data_size)) in
      let stored : HoldsValues bits cur.samples out (map scale vs) =
        subst (λ t. HoldsValues bits cur.samples t (map scale vs)) (sym whole)
          (subst
            (λ t.
              HoldsValues bits cur.samples
                (encode bits (map scale (values bits cur.samples cur.array)) ++ tail) (map scale t))
            same
            (encode-HoldsValues bits cur.samples (map scale (values bits cur.samples cur.array))
              tail depth (map-AllFit m bits p.gain_linear (values bits cur.samples cur.array) depth)
              (length-scaled m cur.array cur.samples bits p.gain_linear))) in
      elim (m.eq_f p.gain_linear m.one_f)
        as (λ b.
          let q : Pipeline m × Bool =
            if not b then (record p { gain_buffer = out }, true) else (p, false) in
          HoldsValues bits cur.samples (pointed cur q) (if b then vs else map scale vs)
          × Kept p q.0
          × SameFilter p q.0) [
            | true ↦ ((same, room), refl, (refl, refl))
            | false ↦ (stored, refl, (refl, refl))
          ]

  -- The filter is off and the samples stay, or channel `c` goes through its own.
  pub data Filtered (bits channels c : ℕ) (enabled : Bool) (px py : m.float) (vs os : List ℤ)
      (px' py' : m.float) : Type 0 where
    off :
        enabled ≡ false
        → os ≡ vs
        → px' ≡ px
        → py' ≡ py
        → Filtered bits channels c enabled px py vs os px' py'
    on :
        enabled ≡ true
        → Filters m bits px py (pick c channels vs) (pick c channels os) px' py'
        → Filtered bits channels c enabled px py vs os px' py'

  abbrev pub state_x : Pipeline m → ℕ → m.float
  state_x p c = get_or p.dc_prev_x c m.zero_f

  abbrev pub state_y : Pipeline m → ℕ → m.float
  state_y p c = get_or p.dc_prev_y c m.zero_f

  -- The state has a place for each channel.
  pub record HasChannels (p : Pipeline m) (channels : ℕ) : Type 0 where
    pub inputs : length p.dc_prev_x ≡ channels
    pub outputs : length p.dc_prev_y ≡ channels

  abbrev buffer_for : Pipeline m → Source → ℕ → Bool → List ℕ
  buffer_for p cur data_size copied =
      if copied then p.gain_buffer else memcpy (grow p.gain_buffer data_size) 0 cur.array data_size

  buffer_for-HoldsValues :
      (p : Pipeline m) (bits : ℕ) (cur : Source) (data_size : ℕ) (copied : Bool) (vs : List ℤ)
      → data_size ≡ cur.samples * width bits
      → HoldsValues bits cur.samples (pointed cur (p, copied)) vs
      → HoldsValues bits cur.samples (buffer_for p cur data_size copied) vs
  buffer_for-HoldsValues p bits cur data_size true vs e h = h
  buffer_for-HoldsValues p bits cur data_size false vs e (same, room) =
      let grown = length-grow p.gain_buffer data_size in
      let start : List ℕ = take data_size cur.array in
      let size : length start ≡ data_size = omega (arith, e, length-take data_size cur.array) in
      let copy =
        memcpy-append [] (grow p.gain_buffer data_size) 0 cur.array data_size (omega arith)
          (omega (arith, e)) grown in
      rw copy (
        values-append bits cur.samples start (drop data_size (grow p.gain_buffer data_size))
              (omega (arith, e, size))
            ∙ values-take bits cur.samples data_size cur.array (omega (arith, e)) room
            ∙ same,
        omega (arith, e, size, length-append start (drop data_size (grow p.gain_buffer data_size))),
      )

  pub dc_chunk_lem :
      (p : Pipeline m) (meta : AudioChunkMeta) (cur : Source) (data_size : ℕ) (copied : Bool)
      (vs : List ℤ) (c : ℕ)
      → IsDepth meta.bits_per_sample
      → data_size ≡ cur.samples * width meta.bits_per_sample
      → HoldsValues meta.bits_per_sample cur.samples (pointed cur (p, copied)) vs
      → cur.samples / cur.channels * cur.channels ≡ cur.samples
      → HasChannels p cur.channels
      → c < cur.channels
      → let q = dc_chunk m p meta cur data_size copied in
        let out = pointed cur q in
        Filtered meta.bits_per_sample cur.channels c p.dc_remove
          (state_x p c)
          (state_y p c)
          vs
          (values meta.bits_per_sample cur.samples out)
          (state_x q.0 c)
          (state_y q.0 c)
        × (cur.samples * width meta.bits_per_sample ≤ length out)
        × Kept p q.0
        × HasChannels q.0 cur.channels
  unfolding dc_chunk
  dc_chunk_lem p meta cur data_size copied vs c depth e held whole has inside =
      let bits : ℕ = meta.bits_per_sample in
      let buffer : List ℕ = buffer_for p cur data_size copied in
      let (same, room) = buffer_for-HoldsValues p bits cur data_size copied vs e held in
      let s : Dc m = record { samples = buffer; prev_x = p.dc_prev_x; prev_y = p.dc_prev_y } in
      let s' : Dc m = apply_dc_remove m cur.samples cur.channels bits s in
      let done : Pipeline m = record p {
        gain_buffer = s'.samples;
        dc_prev_x = s'.prev_x;
        dc_prev_y = s'.prev_y;
      } in
      let fits : cur.samples / cur.channels * cur.channels * width bits ≤ length buffer =
        omega (arith, ap (λ t. t * width bits) whole) in
      let (filters, fit, behind, inputs, outputs) =
        apply_dc_remove_lem m cur.samples cur.channels bits c s depth inside has.inputs has.outputs
          fits in
      let size =
        length-apply_dc_remove m cur.samples cur.channels bits s depth (omega arith) fits in
      let filters' =
        subst
          (λ n.
            Filters m bits (get_or p.dc_prev_x c m.zero_f) (get_or p.dc_prev_y c m.zero_f)
              (pick c cur.channels (values bits n buffer))
              (pick c cur.channels (values bits n s'.samples)) (get_or s'.prev_x c m.zero_f)
              (get_or s'.prev_y c m.zero_f))
          whole filters in
      let filters'' =
        subst
          (λ t.
            Filters m bits (get_or p.dc_prev_x c m.zero_f) (get_or p.dc_prev_y c m.zero_f)
              (pick c cur.channels t) (pick c cur.channels (values bits cur.samples s'.samples))
              (get_or s'.prev_x c m.zero_f) (get_or s'.prev_y c m.zero_f))
          same filters' in
      if_cases
        (λ (q : Pipeline m × Bool).
          Filtered bits cur.channels c p.dc_remove (state_x p c) (state_y p c) vs
            (values bits cur.samples (pointed cur q)) (state_x q.0 c) (state_y q.0 c)
          × (cur.samples * width bits ≤ length (pointed cur q))
          × Kept p q.0
          × HasChannels q.0 cur.channels)
        p.dc_remove (done, true) (p, copied)
        (λ on. (
          Filtered.on on filters'',
          omega (arith, size),
          refl,
          record { inputs = inputs; outputs = outputs },
        ))
        (λ off. (Filtered.off off held.0 refl refl, held.1, refl, has))
