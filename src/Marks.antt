-- ===== src/Marks.antt =====
-- src/a2a_hub/marks.py: what happened to a message after it was read. The table `message_marks` is
-- the list of its rows, keyed by message and identity; an instant is a number of microseconds.
pub mod Table
pub mod Clean
pub mod Routes
pub mod Guarded
pub mod Closed
pub mod Shown
pub mod Listed
use a2a_hub.Prelude.{
  ℕ, Bool, true, false, not, ◌&&◌, Option, none, some, List, [], ◌∷◌, length, take, ltb,
  if◌then◌else◌,
}
use a2a_hub.Prelude.Text.{Str, codes, ◌==◌, is_empty, strip, lower}
use a2a_hub.Json.{Json, Fields, get, text_or_empty}

pub data MarkState : Type 0 where
  processed discarded awaiting : MarkState

abbrev pub state_text : MarkState → Str
state_text processed = codes "processed"
state_text discarded = codes "discarded"
state_text awaiting = codes "awaiting"

-- membership in `STATES`
unfoldable pub state_of_text : Str → Option MarkState
state_of_text s =
    if s == codes "processed"
    then some processed
    else if s == codes "discarded"
    then some discarded
    else if s == codes "awaiting"
    then some awaiting
    else none

-- membership in `CLOSED_STATES`
abbrev pub is_closed : MarkState → Bool
is_closed processed = true
is_closed discarded = true
is_closed awaiting = false

abbrev pub min_detail : ℕ
min_detail = 8

abbrev pub max_detail : ℕ
max_detail = 2000

pub record Mark : Type 0 where
  pub state : MarkState
  pub detail : Str

pub data CleanResult : Type 0 where
  clean : Mark → CleanResult
  bad_state : Str → CleanResult
  short_detail : MarkState → ℕ → CleanResult

-- the test of the detail, the state being a known one
unfoldable pub clean_detail : MarkState → Str → CleanResult
clean_detail state detail =
    if ltb (length detail) min_detail
    then short_detail state (length detail)
    else clean (record { state = state; detail = take max_detail detail })

-- `repr` is Python's `repr` of a list or a dict
unfoldable pub clean_mark : (Json → Str) → Fields → CleanResult
clean_mark repr payload =
    let state = lower (strip (text_or_empty repr (get (codes "state") payload))) in
    elim (state_of_text state) [
      | none ↦ bad_state state
      | some known ↦ clean_detail known (strip (text_or_empty repr (get (codes "detail") payload)))
    ]

pub record Row : Type 0 where
  pub task_id : Str
  pub identity : Str
  pub state : MarkState
  pub detail : Str
  pub sender : Str
  pub marked_at : ℕ

abbrev pub has_key : Str → Str → Row → Bool
has_key task_id identity row = (row.task_id == task_id) && (row.identity == identity)

-- the `INSERT ... ON CONFLICT DO UPDATE` of `set_mark`
unfoldable pub upsert : Row → List Row → List Row
upsert new [] = new ∷ []
upsert new (row ∷ rows) =
    let later = upsert new rows in
    if has_key new.task_id new.identity row
    then record row {
      state = new.state;
      detail = new.detail;
      sender = new.sender;
      marked_at = new.marked_at;
    }
      ∷ rows
    else row ∷ later

unfoldable pub set_mark : ℕ → Str → Str → Mark → Str → List Row → List Row
set_mark now task_id identity mark sender rows =
    upsert
      (record {
        task_id = task_id;
        identity = identity;
        state = mark.state;
        detail = mark.detail;
        sender = sender;
        marked_at = now;
      })
      rows

-- the rows that a query's condition keeps
unfoldable pub rows_where : (Row → Bool) → List Row → List Row
rows_where p [] = []
rows_where p (row ∷ rows) =
    let later = rows_where p rows in elim (p row) [ true ↦ row ∷ later | false ↦ later ]

-- `ORDER BY marked_at`, which leaves rows of one instant in an order of the database's choice
pub record Orders : Type 0 where
  pub oldest_first : List Row → List Row
  pub newest_first : List Row → List Row

unfoldable pub get_marks : Orders → Str → List Row → List Row
get_marks orders task_id rows =
    orders.oldest_first (rows_where (λ row. row.task_id == task_id) rows)

abbrev pub states_of : List Row → List (Str × MarkState)
states_of [] = []
states_of (row ∷ rows) = (row.task_id, row.state) ∷ states_of rows

-- `marked_by`: the key of the table makes the message ids of one identity distinct
unfoldable pub marked_by : Str → List Row → List (Str × MarkState)
marked_by identity rows = states_of (rows_where (λ row. row.identity == identity) rows)

abbrev pub is_sent_by : Str → Row → Bool
is_sent_by sender row = (row.sender == sender) && not (is_empty row.sender)

unfoldable pub sent_by : Orders → Str → List Row → List Row
sent_by orders sender rows = orders.newest_first (rows_where (is_sent_by sender) rows)
