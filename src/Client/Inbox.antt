-- ===== src/Client/Inbox.antt =====
-- src/a2a_hub/client.py: the checks against the register, and what `inbox --unprocessed` hides.
pub mod Hidden
use a2a_hub.Prelude.{
  ℕ, ◌+◌, Bool, true, false, not, ◌&&◌, Option, none, some, List, [], ◌∷◌, any, if◌then◌else◌,
}
use a2a_hub.Prelude.Text.{Str, codes, ◌==◌, is_empty, mem}
use a2a_hub.Json.{Json, str, arr, obj, Fields, items, get, truth}
use a2a_hub.Marks.Routes.{text_lt}
use a2a_hub.Client.Effect.{Outcome, ok, crashed, World, M, or_else, continue}
use a2a_hub.Client.Calls.{HubClient, agents, marks}

-- `payload.get(key, [])` for a key that holds a list
abbrev pub list_at : Str → Fields → List Json
list_at key payload = elim (get key payload) [ some (arr vs) ↦ items vs | _ ↦ [] ]

abbrev pub text_at : Str → Json → Option Str
text_at key (obj fields) = elim (get key fields) [ some (str s) ↦ some s | _ ↦ none ]
text_at key _ = none

-- `entry.get("identity") == identity`
abbrev pub is_entry_of : Str → Json → Bool
is_entry_of identity entry = elim (text_at (codes "identity") entry) [
  | some s ↦ s == identity
  | none ↦ false
]

-- the read-back of `_appears_in_register`
unfoldable pub appears_in : Str → List Json → Bool
appears_in identity listed = any (is_entry_of identity) listed

-- `bool(entry.get("declared"))`
abbrev pub is_declared : Json → Bool
is_declared (obj entry) = elim (get (codes "declared") entry) [ some v ↦ truth v | none ↦ false ]
is_declared _ = false

-- the loop of `_declared_in_register`
unfoldable pub declared_in : Str → List Json → Bool
declared_in identity [] = true
declared_in identity (entry ∷ listed) =
    let later = declared_in identity listed in
    if is_entry_of identity entry then is_declared entry else later

module _ {S : Type 0} (repr : Json → Str) (client : HubClient S) where
  abbrev told : (List Json → Bool) → M S Bool
  told answer w = or_else true (
      continue (agents repr client none false w)
        (λ payload w'. (ok (answer (list_at (codes "agents") payload)), w')))

  -- `_appears_in_register`
  unfoldable pub appears_in_register : Str → M S Bool
  appears_in_register identity = told (appears_in identity)

  -- `_declared_in_register`
  unfoldable pub declared_in_register : Str → M S Bool
  declared_in_register identity = told (declared_in identity)

abbrev pub marks_available_since : Str
marks_available_since = codes "2026-08-28T12:01:11Z"

-- the texts among the entries
abbrev pub texts_of : List Json → List Str
texts_of [] = []
texts_of (str s ∷ vs) = s ∷ texts_of vs
texts_of (v ∷ vs) = texts_of vs

-- `task.get("id") in closed`
abbrev pub is_closed_task : List Str → Json → Bool
is_closed_task closed task = elim (text_at (codes "id") task) [
  | some id ↦ mem id closed
  | none ↦ false
]

-- `task.get("status", {}).get("timestamp", "")`
abbrev pub timestamp_of : Json → Str
timestamp_of (obj task) = elim (get (codes "status") task) [
  | some status ↦ elim (text_at (codes "timestamp") status) [ some s ↦ s | none ↦ [] ]
  | none ↦ []
]
timestamp_of _ = []

-- `timestamp and timestamp < MARKS_AVAILABLE_SINCE`
abbrev pub is_history : Json → Bool
is_history task =
    not (is_empty (timestamp_of task)) && text_lt (timestamp_of task) marks_available_since

pub record Kept : Type 0 where
  pub tasks : List Json
  pub hidden_closed : ℕ
  pub hidden_pre_cutoff : ℕ

-- the loop of `inbox --unprocessed`, its three results built from the end
unfoldable pub unprocessed : List Str → List Json → Kept
unprocessed closed [] = record { tasks = []; hidden_closed = 0; hidden_pre_cutoff = 0 }
unprocessed closed (task ∷ tasks) =
    let later = unprocessed closed tasks in
    if is_closed_task closed task
    then record later { hidden_closed = later.hidden_closed + 1 }
    else if is_history task
    then record later { hidden_pre_cutoff = later.hidden_pre_cutoff + 1 }
    else record later { tasks = task ∷ later.tasks }
