-- ===== src/Client/Agents.antt =====
-- src/a2a_hub/client.py: `format_agent` and the functions below it. `between` is
-- `int((fmt(a) - fmt(b)).total_seconds())` of two instants as texts, `none` where one is no instant.
pub mod Flags
use a2a_hub.Prelude.{
  zero, suc, ℕ, ◌*◌, ◌-◌, Bool, true, false, not, ◌&&◌, Option, none, some, List, [], ◌∷◌, ◌++◌,
  length, if◌then◌else◌,
}
use a2a_hub.Prelude.Int.{ℤ, pos, lt_int, add_int, negate, floor_div}
use a2a_hub.Prelude.Number.{show_int}
use a2a_hub.Prelude.Text.{Str, codes, is_empty, join}
use a2a_hub.Json.{Json, null, num, str, arr, obj, Fields, items, get, truth, to_text}
use a2a_hub.Client.Effect.{Outcome, ok, refused, crashed}

abbrev pub silent_after : ℤ
silent_after = pos 3600

abbrev pub status_stale_after : ℤ
status_stale_after = pos 21600

-- an age that is there
unfoldable pub ago : ℤ → Str
ago age =
    if lt_int age (pos 120)
    then show_int age ++ codes "s ago"
    else if lt_int age (pos 7200)
    then show_int (floor_div age 60) ++ codes "m ago"
    else show_int (floor_div age 3600) ++ codes "h ago"

-- `_age`
abbrev pub age_text : Option ℤ → Str
age_text none = codes "never"
age_text (some age) = ago age

-- the age in front of the line
abbrev pub seen_text : Option ℤ → Str
seen_text none = codes "never seen"
seen_text (some age) = ago age

-- `agent.get(key)` for a key that holds a number or null
abbrev pub number_in : Option Json → Outcome (Option ℤ)
number_in none = ok none
number_in (some null) = ok none
number_in (some (num n)) = ok (some n)
number_in (some _) = crashed

-- `agent.get(key)` for a key that holds a text or null, "" as none
abbrev pub instant_in : Option Json → Outcome (Option Str)
instant_in none = ok none
instant_in (some null) = ok none
instant_in (some (str s)) = ok (if is_empty s then none else some s)
instant_in (some _) = crashed

abbrev plus_seen : ℤ → Option ℤ → Outcome (Option ℤ)
plus_seen seconds none = crashed
plus_seen seconds (some apart) = ok (some (add_int apart seconds))

module _ (between : Str → Str → Option ℤ) where
  -- `_status_age_seconds`
  unfoldable pub status_age : Option Str → Option Str → Option ℤ → Outcome (Option ℤ)
  status_age (some declared) (some last_seen) (some seconds) =
      plus_seen seconds (between last_seen declared)
  status_age _ _ _ = ok none

-- `_status_is_older`, given what `_status_age_seconds` returns
unfoldable pub status_is_older : (said seen : Option ℤ) → Bool
status_is_older (some said) (some seen) = lt_int status_stale_after (add_int said (negate seen))
status_is_older _ _ = false

-- `seconds is not None and seconds > SILENT_AFTER`
unfoldable pub is_silent : Option ℤ → Bool
is_silent none = false
is_silent (some seconds) = lt_int silent_after seconds

-- The line of an agent, by its parts: of one that has not declared itself the age alone is shown.
pub data AgentLine : Type 0 where
  undeclared_line : (seen : Option ℤ) → AgentLine
  declared_line : (seen : Option ℤ) (silent withdrawn : Bool) (stale : Option Str) → AgentLine

abbrev flag_in : Option Json → Bool
flag_in none = false
flag_in (some v) = truth v

abbrev line_of : Fields → Option ℤ → Outcome (Option ℤ) → Outcome AgentLine
line_of agent seen (ok said) = ok (
    declared_line seen (is_silent seen) (flag_in (get (codes "retired_at") agent))
      (if status_is_older said seen then some (age_text said) else none))
line_of agent seen _ = crashed

abbrev aged :
    (Str → Str → Option ℤ)
    → Fields
    → Option ℤ
    → Outcome (Option Str)
    → Outcome (Option Str)
    → Outcome AgentLine
aged between agent seen (ok declared_at) (ok last_seen) =
    line_of agent seen (status_age between declared_at last_seen seen)
aged between agent seen _ _ = crashed

abbrev seen_since : (Str → Str → Option ℤ) → Fields → Bool → Outcome (Option ℤ) → Outcome AgentLine
seen_since between agent false (ok seen) = ok (undeclared_line seen)
seen_since between agent true (ok seen) =
    aged between agent seen (instant_in (get (codes "declared_at") agent))
      (instant_in (get (codes "last_seen") agent))
seen_since between agent declared _ = crashed

-- what `format_agent` finds out about an entry
unfoldable pub read_agent : (Str → Str → Option ℤ) → Json → Outcome AgentLine
read_agent between (obj agent) =
    seen_since between agent (flag_in (get (codes "declared") agent))
      (number_in (get (codes "last_seen_seconds") agent))
read_agent between _ = crashed

abbrev spaces : ℕ → Str
spaces zero = []
spaces (suc n) = b' ' ∷ spaces n

-- `f"{s:>9}"`
abbrev pad : Str → Str
pad s = spaces (9 - length s) ++ s

abbrev mark_if : Bool → Str → Str
mark_if shown text = if shown then text else []

abbrev stale_text : Option Str → Str
stale_text none = []
stale_text (some said) = codes " (said " ++ said ++ codes ")"

-- the fields of the line that are printed as they are
pub record Words : Type 0 where
  pub identity : Str
  pub role : Str
  pub projects : Str
  pub status : Str

-- the sentence
unfoldable pub format_line : Words → AgentLine → Str
format_line words (undeclared_line seen) =
    codes "[" ++ pad (seen_text seen) ++ codes "] " ++ words.identity ++ codes " (undeclared)"
format_line words (declared_line seen silent withdrawn stale) =
    codes "["
    ++ pad (seen_text seen)
    ++ codes "]"
    ++ mark_if silent (codes " [SILENT]")
    ++ mark_if withdrawn (codes " [RETIRED]")
    ++ codes " "
    ++ words.identity
    ++ codes " "
    ++ words.role
    ++ codes " "
    ++ words.projects
    ++ codes " ::"
    ++ stale_text stale
    ++ codes " "
    ++ words.status
