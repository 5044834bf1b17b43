-- ===== src/Client/Arguments.antt =====
-- src/a2a_hub/client.py: how the client reads its command line.
use a2a_hub.Prelude.{
  ℕ, ◌*◌, Bool, not, ◌&&◌, Option, none, some, List, [], ◌∷◌, ◌++◌, nat_eq, keep_if, if◌then◌else◌,
}
use a2a_hub.Prelude.Int.{ℤ, pos, negsuc, neg, lt_int}
use a2a_hub.Prelude.Number.{parse_int}
use a2a_hub.Prelude.Text.{Str, codes, ◌==◌, mem, starts_with}
use a2a_hub.Client.Effect.{Outcome, ok, refused}

-- What is left of the arguments without the first `--session` and its value.
pub data Session : Type 0 where
  no_value : Session
  taken : Option Str → List Str → Session

abbrev keep_first : Str → Session → Session
keep_first a no_value = no_value
keep_first a (taken name rest) = taken name (a ∷ rest)

abbrev session_value : List Str → Session
session_value [] = no_value
session_value (name ∷ rest) = taken (some name) rest

-- `--session NAME`, anywhere
unfoldable pub take_session : List Str → Session
take_session [] = taken none []
take_session (a ∷ args) =
    let later = take_session args in
    if a == codes "--session" then session_value args else keep_first a later

abbrev flags_of_agents : List Str
flags_of_agents = codes "--json" ∷ codes "--quiet-for" ∷ codes "--retired" ∷ []

-- `KNOWN_FLAGS.get(command)`, each set in the order of `sorted`
unfoldable pub known_flags : Str → Option (List Str)
known_flags command =
    if command == codes "agents"
    then some flags_of_agents
    else if command == codes "inbox"
    then some (codes "--json" ∷ codes "--unprocessed" ∷ [])
    else if command == codes "marks"
    then some (codes "--json" ∷ codes "--sent" ∷ [])
    else if mem command (codes "read" ∷ codes "whoami" ∷ codes "retire" ∷ [])
    then some []
    else none

abbrev pub is_unknown_flag : List Str → Str → Bool
is_unknown_flag known a = starts_with a (codes "--") && not (mem a known)

-- `_unknown_flags` on the arguments behind the command
unfoldable pub unknown_flags : Str → List Str → List Str
unknown_flags command rest = elim (known_flags command) [
  | none ↦ []
  | some known ↦ keep_if (is_unknown_flag known) rest
]

-- `_free_text_or_refuse`
unfoldable pub free_text_or_refuse : Str → List Str → Str → Outcome (List Str)
free_text_or_refuse command [] hint = ok []
free_text_or_refuse command (word ∷ words) hint =
    if word == codes "--"
    then ok words
    else if starts_with word (codes "--")
    then refused (
        command
        ++ codes ": unknown option "
        ++ word
        ++ codes "\n"
        ++ hint
        ++ codes "\nNothing was sent. To pass text that really starts with dashes, put `--` first.")
    else ok (word ∷ words)

-- the value behind the first `--quiet-for`: no flag, a flag without value, or a value
pub data Quiet : Type 0 where
  absent bare : Quiet
  given : Str → Quiet

abbrev quiet_value : List Str → Quiet
quiet_value [] = bare
quiet_value (raw ∷ rest) = given raw

unfoldable pub find_quiet : List Str → Quiet
find_quiet [] = absent
find_quiet (a ∷ args) =
    let later = find_quiet args in if a == codes "--quiet-for" then quiet_value args else later

-- a text as its beginning and its last code point
pub data Ended : Type 0 where
  blank : Ended
  ended : Str → ℕ → Ended

abbrev before_last : ℕ → Ended → Ended
before_last c blank = ended [] c
before_last c (ended s d) = ended (c ∷ s) d

unfoldable pub last_of : Str → Ended
last_of [] = blank
last_of (c ∷ s) = before_last c (last_of s)

-- the seconds of a unit, if the code point is one
abbrev pub unit_of : ℕ → Option ℕ
unit_of c =
    if nat_eq c b's'
    then some 1
    else if nat_eq c b'm'
    then some 60
    else if nat_eq c b'h'
    then some 3600
    else none

-- `n * factor`
abbrev pub times : ℤ → ℕ → ℤ
times (pos n) factor = pos (n * factor)
times (negsuc n) factor = neg ((ℕ.suc n) * factor)

abbrev scaled : Option ℤ → ℕ → Option ℤ
scaled none factor = none
scaled (some n) factor = some (times n factor)

abbrev with_unit : Str → Str → Option ℕ → Option ℤ
with_unit raw number none = scaled (parse_int raw) 1
with_unit raw number (some factor) = scaled (parse_int number) factor

unfoldable pub seconds_of : Str → Option ℤ
seconds_of raw = elim (last_of raw) [
  | blank ↦ parse_int raw
  | ended number c ↦ with_unit raw number (unit_of c)
]

abbrev checked_quiet : (Str → Str) → Str → Option ℤ → Outcome (Option ℤ)
checked_quiet quote raw none =
    refused (codes "--quiet-for expects seconds or 30m/2h; got " ++ quote raw)
checked_quiet quote raw (some n) =
    if lt_int n (pos 0) then refused (codes "--quiet-for cannot be negative") else ok (some n)

-- `_quiet_for_arg`; `quote` is `repr` of a text
unfoldable pub quiet_for_arg : (Str → Str) → List Str → Outcome (Option ℤ)
quiet_for_arg quote args = elim (find_quiet args) [
  | absent ↦ ok none
  | bare ↦ refused (codes "usage: a2a-client agents --quiet-for <seconds|30m|2h>")
  | given raw ↦ checked_quiet quote raw (seconds_of raw)
]
