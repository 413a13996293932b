-- ===== src/Clips/Queue.antt =====
-- The queue of the ClipExtractor: every request is served in its turn, and its path is what its
-- caller collects.
use mathlib.Core.List.{append-nil}
use mathlib.Core.Option.{some-injective}
use mathlib.Core.Option
use ws_audiod.Base.{
  ℤ, ℕ, ◌≡◌, ◌≢◌, refl, sym, ap, ◌∙◌, ◌+◌, ◌%◌, ◌^◌, true, false, Option, none, some, List, [], ◌∷◌,
  ◌++◌, arith, ◌==◌, Text, if◌then◌else◌,
}
use ws_audiod.Recorder.Writer.{File}
use ws_audiod.Clips.{
  Request, Extractor, Moment, extract_clip, extract_range, new_request, extract_seconds,
  write_sndfile, work, find, erase, collect, request_clip, request_clip_sync,
}

infixl 5 ◌>>=◌
abbrev ◌>>=◌ : Option Extractor → (Extractor → Option Extractor) → Option Extractor
none >>= f = none
some a >>= f = f a

-- The worker's turns at some moments.
pub work_all : Extractor → List Moment → Option Extractor
work_all c [] = some c
work_all c (o ∷ os) = work c o >>= (λ c'. work_all c' os)

-- A turn: the moment, the request that is served, and the result of its extraction.
pub record Turn : Type 0 where
  pub moment : Moment
  pub request : Request
  pub path : Text
  pub file : Option File

unfoldable pub requests : List Turn → List Request
requests [] = []
requests (t ∷ ts) = t.request ∷ requests ts

unfoldable pub moments : List Turn → List Moment
moments [] = []
moments (t ∷ ts) = t.moment ∷ moments ts

-- Each extraction returns its turn's result.
abbrev pub AllReturn : Extractor → List Turn → Type 0
AllReturn c [] = Unit {0}
AllReturn c (t ∷ ts) = (extract_clip c t.moment t.request ≡ some (t.path, t.file)) × AllReturn c ts

-- The map after the turns.
pub entries_after : List Turn → List (ℕ × Text) → List (ℕ × Text)
entries_after [] entries = entries
entries_after (t ∷ ts) entries = entries_after ts ((t.request.request_id, t.path) ∷ entries)

abbrev pub NoneHas : ℕ → List Turn → Type 0
NoneHas id [] = Unit {0}
NoneHas id (t ∷ ts) = (t.request.request_id ≢ id) × NoneHas id ts

-- An extraction does not depend on the queue and the map.
extract_same :
    (c : Extractor) (queue : List Request) (next_id : ℕ) (results : List (ℕ × Text))
    (ts : List Turn)
    → AllReturn c ts
    → AllReturn (record c { queue = queue; next_id = next_id; results = results }) ts
unfolding extract_clip extract_range extract_seconds write_sndfile
extract_same c queue next_id results [] h = tt
extract_same c queue next_id results (t ∷ ts) h = (h.0, extract_same c queue next_id results ts h.1)

-- Requests are served first in, first out.
work_all_lem :
    (c : Extractor) (ts : List Turn) (more : List Request) (entries : List (ℕ × Text))
    → AllReturn c ts
    → work_all (record c { queue = requests ts ++ more; results = entries }) (moments ts)
      ≡ some (record c { queue = more; results = entries_after ts entries })
unfolding work_all work requests moments entries_after
work_all_lem c [] more entries h = refl
work_all_lem c (t ∷ ts) more entries h =
    let (e, _) = extract_same c (requests (t ∷ ts) ++ more) c.next_id entries (t ∷ ts) h in
    rw (e, ◌>>=◌) (work_all_lem c ts more ((t.request.request_id, t.path) ∷ entries) h.1)

find_later :
    (id : ℕ) (path : Text) (ts : List Turn) (entries : List (ℕ × Text))
    → NoneHas id ts
    → find id entries ≡ some path
    → find id (entries_after ts entries) ≡ some path
unfolding find entries_after
find_later id path [] entries h e = e
find_later id path (t ∷ ts) entries h e =
    let test : (t.request.request_id == id) ≡ false = ground (arith, h.0) in
    find_later id path ts ((t.request.request_id, t.path) ∷ entries) h.1 (rw test e)

first_entry :
    (id : ℕ) (path : Text) (entries : List (ℕ × Text)) → find id ((id, path) ∷ entries) ≡ some path
unfolding find
first_entry id path entries = let same : (id == id) ≡ true = ground arith in rw same refl

collect_lem :
    (c : Extractor) (id : ℕ) (path : Text) → find id c.results ≡ some path → (collect c id).1 ≡ path
unfolding collect
collect_lem c id path e = rw (collect, e) refl

entries-append :
    (xs ys : List Turn) (entries : List (ℕ × Text))
    → entries_after (xs ++ ys) entries ≡ entries_after ys (entries_after xs entries)
unfolding entries_after
entries-append [] ys entries = refl
entries-append (t ∷ xs) ys entries = entries-append xs ys ((t.request.request_id, t.path) ∷ entries)

-- With a turn of the worker for each request in the queue, whose extractions return, the queue is
-- empty, and each caller whose id no later request has collects the path of its own clip.
pub served :
    (c : Extractor) (before after : List Turn) (t : Turn)
    → c.queue ≡ requests (before ++ (t ∷ after))
    → AllReturn c (before ++ (t ∷ after))
    → NoneHas t.request.request_id after
    → (c' : Extractor) × (work_all c (moments (before ++ (t ∷ after))) ≡ some c')
      × (c'.queue ≡ [])
      × ((collect c' t.request.request_id).1 ≡ t.path)
      × (c'.next_id ≡ c.next_id)
unfolding entries_after
served c before after t queued returns distinct =
    let turns : List Turn = before ++ (t ∷ after) in
    let id : ℕ = t.request.request_id in
    let own =
      find_later id t.path after ((id, t.path) ∷ entries_after before c.results) distinct
        (first_entry id t.path (entries_after before c.results)) in
    let done = work_all_lem c turns [] c.results returns in
    (
      record c { queue = []; results = entries_after turns c.results },
      ap (λ q. work_all (record c { queue = q }) (moments turns))
            (queued ∙ sym (append-nil (requests turns)))
          ∙ done,
      refl,
      collect_lem (record c { queue = []; results = entries_after turns c.results }) id t.path
          (ap (find id) (entries-append before (t ∷ after) c.results) ∙ own),
      refl,
    )

requests-append : (xs ys : List Turn) → requests (xs ++ ys) ≡ requests xs ++ requests ys
unfolding requests
requests-append [] ys = refl
requests-append (t ∷ xs) ys = ap (◌∷◌ t.request) (requests-append xs ys)

moments-append : (xs ys : List Turn) → moments (xs ++ ys) ≡ moments xs ++ moments ys
unfolding moments
moments-append [] ys = refl
moments-append (t ∷ xs) ys = ap (◌∷◌ t.moment) (moments-append xs ys)

AllReturn-append :
    (c : Extractor) (xs : List Turn) (t : Turn)
    → AllReturn c xs
    → extract_clip c t.moment t.request ≡ some (t.path, t.file)
    → AllReturn c (xs ++ (t ∷ []))
AllReturn-append c [] t h e = (e, tt)
AllReturn-append c (x ∷ xs) t h e = (h.0, AllReturn-append c xs t h.1 e)

-- The clip of a new request: the request goes to the end of the queue, with an id of its own, and
-- when the worker has served those before it and then this one, the caller collects the path of this
-- request's clip, by that id.
pub request_clip_lem :
    (c : Extractor) (before : List Turn) (start_offset end_offset : ℤ) (format : Text) (now : ℕ)
    (o : Moment) (path : Text) (file : Option File)
    → c.queue ≡ requests before
    → AllReturn c before
    → extract_clip c o (new_request c start_offset end_offset format now) ≡ some (path, file)
    → let (c', id) = request_clip c start_offset end_offset format now in
      (c'' : Extractor) × (work_all c' (moments before ++ (o ∷ [])) ≡ some c'')
      × (c''.queue ≡ [])
      × ((collect c'' id).1 ≡ path)
      × (c''.next_id ≡ (c.next_id + 1) % 2 ^ 64)
unfolding request_clip new_request requests moments
request_clip_lem c before start_offset end_offset format now o path file queued returns mine =
    let req : Request = new_request c start_offset end_offset format now in
    let t : Turn = record { moment = o; request = req; path = path; file = file } in
    let c' : Extractor = (request_clip c start_offset end_offset format now).0 in
    let own = AllReturn-append c before t returns mine in
    let (c'', all_served, none_left, got, next) =
      served c' before [] t
        (ap (λ q. q ++ (req ∷ [])) queued ∙ sym (requests-append before (t ∷ [])))
        (extract_same c c'.queue c'.next_id c.results (before ++ (t ∷ [])) own) tt in
    (
      c'',
      ap (work_all c') (sym (moments-append before (t ∷ []))) ∙ all_served,
      none_left,
      got,
      next,
    )

collect_keeps :
    (c : Extractor) (id : ℕ)
    → ((collect c id).0.queue ≡ c.queue) × ((collect c id).0.running ≡ c.running)
unfolding collect
collect_keeps c id =
    elim (find id c.results)
      as (λ r.
        let q : Extractor × Text = elim r [
          | none ↦ (c, [])
          | some path ↦ (record c { results = erase id c.results }, path)
        ] in
        (q.0.queue ≡ c.queue) × (q.0.running ≡ c.running)) [
          | none ↦ (refl, refl)
          | some path ↦ (refl, refl)
        ]

one_turn : (x : Option Extractor) (c : Extractor) → (x >>= (λ c'. some c')) ≡ some c → x ≡ some c
one_turn none c e = e
one_turn (some a) c e = e

work_running :
    (c : Extractor) (o : Moment) (c' : Extractor) → work c o ≡ some c' → c'.running ≡ c.running
unfolding work
work_running c o c' =
    elim c.queue
      as (λ q.
        let turn : Option Extractor = elim q [
          | [] ↦ some c
          | req ∷ rest ↦ elim (extract_clip c o req) [
            | none ↦ none
            | some (path, file) ↦
                some (record c { queue = rest; results = (req.request_id, path) ∷ c.results })
          ]
        ] in
        turn ≡ some c' → c'.running ≡ c.running) [
          | [] ↦ λ e. sym (ap (λ x. x.running) (some-injective _ _ e))
          | req ∷ rest ↦
              elim (extract_clip c o req)
                as (λ x.
                  let turn : Option Extractor = elim x [
                    | none ↦ none
                    | some (path, file) ↦
                        some
                          (record c { queue = rest; results = (req.request_id, path) ∷ c.results })
                  ] in
                  turn ≡ some c' → c'.running ≡ c.running) [
                    | none ↦ λ e. cc
                    | some (path, file) ↦ λ e. sym (ap (λ x. x.running) (some-injective _ _ e))
                  ]
        ]

-- A caller that finds the worker running and the queue empty gets the path of its own clip, and
-- leaves them so.
pub request_clip_sync_lem :
    (c : Extractor) (start_offset end_offset : ℤ) (format : Text) (now : ℕ) (o : Moment)
    (path : Text) (file : Option File)
    → c.running ≡ true
    → c.queue ≡ []
    → extract_clip c o (new_request c start_offset end_offset format now) ≡ some (path, file)
    → (c' : Extractor) × (request_clip_sync c start_offset end_offset format now o
        ≡ some (c', path))
      × (c'.running ≡ true)
      × (c'.queue ≡ [])
unfolding request_clip_sync request_clip work_all moments requests
request_clip_sync_lem c start_offset end_offset format now o path file runs empty mine =
    let id : ℕ = (request_clip c start_offset end_offset format now).1 in
    let c' : Extractor = (request_clip c start_offset end_offset format now).0 in
    let (c'', turns, none_left, got, _) =
      request_clip_lem c [] start_offset end_offset format now o path file empty tt mine in
    let turn = one_turn (work c' o) c'' turns in
    let (same_queue, same_running) = collect_keeps c'' id in
    (
      (collect c'' id).0,
      ap (λ b. if b then Option.map (λ x. collect x id) (work c' o) else some (collect c' id)) runs
          ∙ ap (λ t. Option.map (λ x. collect x id) t) turn
          ∙ ap (λ t. some ((collect c'' id).0, t)) got,
      same_running ∙ work_running c' o c'' turn ∙ runs,
      same_queue ∙ none_left,
    )
