-- ===== src/Control.antt =====
-- src/utils/control_socket.cpp and include/audio_daemon/control_socket.hpp: the commands that a client
-- sends as a line of text, and the line that it is answered with. The socket itself is left out: a
-- client is what `recv` gives.
pub mod Printed
mod Tests
use ws_audiod.Base.{
  ℕ, ◌+◌, ◌-◌, Bool, true, false, not, ◌&&◌, ◌||◌, Option, none, some, List, [], ◌∷◌, ◌++◌, map,
  take, Text, codes, text_eq, ◌==◌, leb, ltb, if◌then◌else◌, ℤ, pos, negsuc,
}
use ws_audiod.Config.Number.{is_digit, digits, drop_digits, is_space, skip_space, sign}

pub data CommandType : Type 0 where
  clip set get unknown : CommandType

pub record Command : Type 0 where
  pub type : CommandType
  pub int_value : ℤ
  pub int_value2 : ℤ
  pub key : Text
  pub value : Text

abbrev pub no_command : Command
no_command = record { type = unknown; int_value = pos 0; int_value2 = pos 0; key = []; value = [] }

abbrev pub toupper : ℕ → ℕ
toupper c = if leb 97 c && leb c 122 then c - 32 else c

abbrev pub tolower : ℕ → ℕ
tolower c = if leb 65 c && leb c 90 then c + 32 else c

-- `iss >> word`: up to the next blank, and the rest.
unfoldable pub word_of : Text → Text
word_of [] = []
word_of (c ∷ s) = let rest = word_of s in if is_space c then [] else c ∷ rest

unfoldable pub behind_word : Text → Text
behind_word [] = []
behind_word (c ∷ s) = let rest = behind_word s in if is_space c then c ∷ s else rest

-- `iss >> n` for an `int`: the value that is stored, and what is left, where the stream is good. A
-- number out of range is cut, and a text that is no number stores 0.
abbrev pub limit : ℕ
limit = 2147483648

unfoldable pub cut_int : Bool → ℕ → ℤ × Bool
cut_int false n = if ltb n limit then (pos n, true) else (pos (limit - 1), false)
cut_int true n =
    if n == 0
    then (pos 0, true)
    else if leb n limit
    then (negsuc (n - 1), true)
    else (negsuc (limit - 1), false)

unfoldable pub int_of : Bool × Text → ℤ × Option Text
int_of (minus, rest) = elim (digits rest) [
  | none ↦ (pos 0, none)
  | some n ↦ let (v, good) = cut_int minus n in (v, if good then some (drop_digits rest) else none)
]

unfoldable pub read_int : Text → ℤ × Option Text
read_int s = int_of (sign (skip_space s))

-- The format of a clip is optional.
unfoldable pub with_format : Command → Option Text → Command
with_format cmd none = cmd
with_format cmd (some s) = record cmd { key = map tolower (word_of (skip_space s)) }

unfoldable pub with_end : Command → Option Text → Command
with_end cmd none = cmd
with_end cmd (some s) =
    let (stop, left) = read_int s in with_format (record cmd { int_value2 = stop }) left

unfoldable pub parse_clip : Text → Command
parse_clip s =
    let (begin, left) = read_int s in
    with_end (record no_command { type = clip; int_value = begin }) left

unfoldable pub parse_set : Text → Command
parse_set s =
    let s' = skip_space s in
    record no_command {
      type = set;
      key = word_of s';
      value = word_of (skip_space (behind_word s'));
    }

unfoldable pub parse_get : Text → Command
parse_get s = record no_command { type = get; key = map toupper (word_of (skip_space s)) }

unfoldable pub parse_command : Text → Command
parse_command line =
    let s = skip_space line in
    let word = map toupper (word_of s) in
    let rest = behind_word s in
    if text_eq word (codes "CLIP")
    then parse_clip rest
    else if text_eq word (codes "SET")
    then parse_set rest
    else if text_eq word (codes "GET")
    then parse_get rest
    else no_command

-- The responses. The texts are put between the quotes as they are.
pub ok : Text
ok = codes "{\"ok\":true}"

pub ok_path : Text → Text
ok_path path = codes "{\"ok\":true,\"path\":\"" ++ (path ++ codes "\"}")

pub ok_data : Text → Text
ok_data json = codes "{\"ok\":true,\"data\":" ++ (json ++ codes "}")

pub error : Text → Text
error msg = codes "{\"ok\":false,\"error\":\"" ++ (msg ++ codes "\"}")

-- `std::string line(buf)` ends at the first NUL; the ends of the line are taken off.
unfoldable pub until_nul : Text → Text
until_nul [] = []
until_nul (c ∷ s) = let rest = until_nul s in if c == 0 then [] else c ∷ rest

unfoldable pub strip_ends : Text → Text
strip_ends [] = []
strip_ends (c ∷ s) =
    let rest = strip_ends s in
    elim rest [ [] ↦ if c == 10 || c == 13 then [] else c ∷ [] | d ∷ t ↦ c ∷ (d ∷ t) ]

-- A handler changes a state `S`; the result is `none` where it does not return.
abbrev pub CommandHandler : Type 0 → Type 0
CommandHandler S = S → Command → Option (S × Text)

-- The handlers that are set.
pub record Handlers (S : Type 0) : Type 0 where
  pub clip_handler : Option (CommandHandler S)
  pub set_handler : Option (CommandHandler S)
  pub get_handler : Option (CommandHandler S)

-- The answer of a handler, or that of a missing one.
unfoldable pub handled :
    {S : Type 0} → Option (CommandHandler S) → Text → S → Command → Option (S × Text)
handled none missing s cmd = some (s, error missing)
handled (some handler) missing s cmd = handler s cmd

unfoldable pub dispatch : {S : Type 0} → Handlers S → S → Command → Option (S × Text)
dispatch h s cmd = elim cmd.type [
  | clip ↦ handled h.clip_handler (codes "No clip handler") s cmd
  | set ↦ handled h.set_handler (codes "No set handler") s cmd
  | get ↦ handled h.get_handler (codes "No get handler") s cmd
  | unknown ↦ some (s, error (codes "Invalid command"))
]

-- The new state, and the line that is sent.
unfoldable pub send : {S : Type 0} → Option (S × Text) → Option (S × Option Text)
send none = none
send (some (s, json)) = some (s, some (json ++ codes "\n"))

-- Up to 1023 bytes are received; a client that sends none is answered by nothing.
unfoldable pub handle_client : {S : Type 0} → Handlers S → S → Text → Option (S × Option Text)
handle_client h s [] = some (s, none)
handle_client h s (c ∷ received) =
    send (dispatch h s (parse_command (strip_ends (until_nul (take 1023 (c ∷ received))))))
