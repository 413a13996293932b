-- ===== src/Pipeline/Life/Tune.antt =====
-- `set_parameter` between two chunks.
use ws_audiod.Base.{
  ℕ, ◌≡◌, refl, ◌∙◌, Bool, true, false, Option, none, some, List, ◌||◌, text_eq, codes, Text,
  if_cases, length, replicate, length-replicate, Floating,
}
use ws_audiod.Ring.{Ring, ◌>>=◌}
use ws_audiod.Pipeline.Chunk.{Pipeline}
use ws_audiod.Pipeline.Life.{linear, set_gain, set_dc_remove, is_true, set_parameter}
use ws_audiod.Pipeline.Life.Ready.{IsReady, may_same}

abbrev pub is_gain : Text → Bool
is_gain key = text_eq key (codes "gain_db") || text_eq key (codes "gain")

module _ (m : Floating) where
  -- With a gain in decibels and as a factor; and with the filter off and its state zero.
  abbrev pub with_gain : Pipeline m → m.double → Pipeline m
  with_gain p db = record p { gain_db = m.single db; gain_linear = linear m db }

  abbrev pub at_rest : Pipeline m → Pipeline m
  at_rest p = record p {
    dc_remove = false;
    dc_prev_x = replicate (length p.dc_prev_x) m.zero_f;
    dc_prev_y = replicate (length p.dc_prev_y) m.zero_f;
  }

  -- What a key and a value make of the state, which is ready still: another gain, the filter on, the
  -- filter off and at rest, or nothing; or the value of a gain is no number.
  pub data Tuned (p : Pipeline m) (ring : Ring) (stream : List ℕ) (period : ℕ) (key value : Text)
      : Option (Pipeline m × Bool) → Type 0 where
    gained :
        (db : m.double)
        → is_gain key ≡ true
        → m.stod value ≡ some db
        → IsReady m (with_gain p db) ring stream period
        → Tuned p ring stream period key value (some (with_gain p db, true))
    thrown : is_gain key ≡ true → m.stod value ≡ none → Tuned p ring stream period key value none
    switched_on :
        text_eq key (codes "dc_remove") ≡ true
        → is_true m value ≡ true
        → IsReady m (record p { dc_remove = true }) ring stream period
        → Tuned p ring stream period key value (some (record p { dc_remove = true }, true))
    switched_off :
        text_eq key (codes "dc_remove") ≡ true
        → is_true m value ≡ false
        → IsReady m (at_rest p) ring stream period
        → Tuned p ring stream period key value (some (at_rest p, true))
    unknown :
        is_gain key ≡ false
        → text_eq key (codes "dc_remove") ≡ false
        → IsReady m p ring stream period
        → Tuned p ring stream period key value (some (p, false))

  module _ (p : Pipeline m) (ring : Ring) (stream : List ℕ) (period : ℕ)
      (ready : IsReady m p ring stream period) (key value : Text) where
    retuned :
        (db factor : m.float) (enabled : Bool) (xs ys : List m.float)
        → length xs ≡ length p.dc_prev_x
        → length ys ≡ length p.dc_prev_y
        → IsReady m
            (record p {
              gain_db = db;
              gain_linear = factor;
              dc_remove = enabled;
              dc_prev_x = xs;
              dc_prev_y = ys;
            })
            ring
            stream
            period
    retuned db factor enabled xs ys inputs outputs = record {
      depth = ready.depth;
      some_channels = ready.some_channels;
      is_ring = ready.is_ring;
      represents = ready.represents;
      frame = ready.frame;
      filters = record {
        inputs = inputs ∙ ready.filters.inputs;
        outputs = outputs ∙ ready.filters.outputs;
      };
      may =
          may_same m p
            (record p {
              gain_db = db;
              gain_linear = factor;
              dc_remove = enabled;
              dc_prev_x = xs;
              dc_prev_y = ys;
            })
            ring stream period refl refl refl ready.may;
      recorder = ready.recorder;
      publisher = ready.publisher;
    }

    set_gain-Tuned : is_gain key ≡ true → Tuned p ring stream period key value (set_gain m p value)
    unfolding set_gain
    set_gain-Tuned is_it =
        (elim (m.stod value)
            as (λ x.
              m.stod value ≡ x
              → let answer : Option (Pipeline m × Bool) = do
                db ← x
                some (record p { gain_db = m.single db; gain_linear = linear m db }, true)
                in Tuned p ring stream period key value answer) [
                  | none ↦ λ bad. thrown is_it bad
                  | some db ↦ λ read. gained db is_it read (
                      retuned (m.single db) (linear m db) p.dc_remove p.dc_prev_x p.dc_prev_y refl
                        refl)
                ])
          refl

    set_dc_remove-Tuned :
        (enabled : Bool)
        → text_eq key (codes "dc_remove") ≡ true
        → is_true m value ≡ enabled
        → Tuned p ring stream period key value (some (set_dc_remove m p enabled, true))
    unfolding set_dc_remove
    set_dc_remove-Tuned true is_it on =
        switched_on is_it on
          (retuned p.gain_db p.gain_linear true p.dc_prev_x p.dc_prev_y refl refl)
    set_dc_remove-Tuned false is_it off = switched_off is_it off (
        retuned p.gain_db p.gain_linear false _ _ (length-replicate (length p.dc_prev_x) m.zero_f)
          (length-replicate (length p.dc_prev_y) m.zero_f))

  -- Setting a gain sets it in decibels and as a factor, and throws exactly where the value is no
  -- number; setting the filter turns it on, or off and to rest; any other key changes nothing and is
  -- reported. A pipeline that was ready for its next chunk is ready still, for the same ring buffer and
  -- stream.
  pub set_parameter-Tuned :
      (p : Pipeline m) (ring : Ring) (stream : List ℕ) (period : ℕ) (key value : Text)
      → IsReady m p ring stream period
      → Tuned p ring stream period key value (set_parameter m p key value)
  unfolding set_parameter
  set_parameter-Tuned p ring stream period key value ready =
      let P = Tuned p ring stream period key value in
      if_cases P (is_gain key) _ _
        (λ is_it. set_gain-Tuned p ring stream period ready key value is_it)
        (λ no_gain.
          if_cases P (text_eq key (codes "dc_remove")) _ _
            (λ is_it.
              set_dc_remove-Tuned p ring stream period ready key value (is_true m value) is_it refl)
            (λ other. unknown no_gain other ready))
