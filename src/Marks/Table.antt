-- ===== src/Marks/Table.antt =====
-- The table of marks: a write touches the row of its own message and identity, and no other.
use a2a_hub.Prelude.{
  ℕ, ◌&&◌, ◌≡◌, inl, inr, refl, Option, none, some, List, [], ◌∷◌, arith, Bool-cases, if◌then◌else◌,
}
use a2a_hub.Prelude.Text.{Str, ◌==◌, eq_iff}
use a2a_hub.Marks.{Mark, Row, has_key, upsert, set_mark}

-- the row of a message and an identity
unfoldable pub find : Str → Str → List Row → Option Row
find task_id identity [] = none
find task_id identity (row ∷ rows) =
    if has_key task_id identity row then some row else find task_id identity rows

find-upsert :
    (new : Row) (task_id identity : Str) (rows : List Row)
    → find task_id identity (upsert new rows)
      ≡ (if has_key task_id identity new then some new else find task_id identity rows)
unfolding find upsert
find-upsert new task_id identity [] = refl
find-upsert new task_id identity (row ∷ rows) = ground (
  arith,
  find-upsert new task_id identity rows,
  eq_iff row.task_id new.task_id,
  eq_iff row.identity new.identity,
  eq_iff row.task_id task_id,
  eq_iff row.identity identity,
  eq_iff new.task_id task_id,
  eq_iff new.identity identity,
)

-- After a mark is set, the mark of every message and identity is the one it was, but for the pair
-- that was written, which has the new one.
pub find-set_mark :
    (now : ℕ) (task identity sender : Str) (mark : Mark) (task' identity' : Str) (rows : List Row)
    → find task' identity' (set_mark now task identity mark sender rows) ≡ (
        if (task == task') && (identity == identity')
        then some (record {
          task_id = task;
          identity = identity;
          state = mark.state;
          detail = mark.detail;
          sender = sender;
          marked_at = now;
        })
        else find task' identity' rows)
unfolding set_mark
find-set_mark now task identity sender mark task' identity' rows =
    find-upsert _ task' identity' rows

-- No two rows have one key.
abbrev pub IsKeyed : List Row → Type 0
IsKeyed [] = Unit
IsKeyed (row ∷ rows) = (find row.task_id row.identity rows ≡ none) × IsKeyed rows

upsert-IsKeyed : (new : Row) (rows : List Row) → IsKeyed rows → IsKeyed (upsert new rows)
unfolding upsert
upsert-IsKeyed new [] h = (unfold find in refl, tt)
upsert-IsKeyed new (row ∷ rows) (once, h) =
    elim (Bool-cases (has_key new.task_id new.identity row)) [
      | inl same ↦ rw same (once, h)
      | inr other ↦ rw other (
        ground (
          arith,
          find-upsert new row.task_id row.identity rows,
          eq_iff row.task_id new.task_id,
          eq_iff row.identity new.identity,
          eq_iff new.task_id row.task_id,
          eq_iff new.identity row.identity,
        ),
        upsert-IsKeyed new rows h,
      )
    ]

-- Setting a mark in a table with one row for each message and identity keeps it one.
pub set_mark-IsKeyed :
    (now : ℕ) (task identity sender : Str) (mark : Mark) (rows : List Row)
    → IsKeyed rows
    → IsKeyed (set_mark now task identity mark sender rows)
unfolding set_mark
set_mark-IsKeyed now task identity sender mark rows h = upsert-IsKeyed _ rows h
