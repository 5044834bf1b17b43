-- ===== src/Marks/Closed.antt =====
-- Which messages count as closed.
use a2a_hub.Prelude.{
  true, ◌↔◌, Bool, false, ◌||◌, ◌≡◌, ◌⊎◌, inl, inr, refl, ◌∙◌, Option, none, some, List, [], ◌∷◌,
  arith, Bool-cases,
}
use a2a_hub.Prelude.Text.{Str, ◌==◌, eq_iff, mem}
use a2a_hub.Marks.{
  MarkState, processed, discarded, awaiting, is_closed, Row, rows_where, states_of, marked_by,
}
use a2a_hub.Marks.Table.{find, IsKeyed}
use a2a_hub.Marks.Routes.{closed_of, insert_text, sort_texts, closed_ids}

abbrev pub closed_in : Option Row → Bool
closed_in none = false
closed_in (some row) = is_closed row.state

mem-insert_text : (x s : Str) (ts : List Str) → mem x (insert_text s ts) ≡ ((x == s) || mem x ts)
unfolding mem insert_text
mem-insert_text x s [] = refl
mem-insert_text x s (t ∷ ts) = ground (arith, mem-insert_text x s ts)

mem-sort_texts : (x : Str) (ts : List Str) → mem x (sort_texts ts) ≡ mem x ts
unfolding mem sort_texts
mem-sort_texts x [] = refl
mem-sort_texts x (t ∷ ts) = ground (arith, mem-insert_text x t (sort_texts ts), mem-sort_texts x ts)

mem-closed_of :
    (task_id identity : Str) (rows : List Row)
    → IsKeyed rows
    → mem task_id (closed_of (states_of (rows_where (λ row. row.identity == identity) rows)))
      ≡ closed_in (find task_id identity rows)
unfolding mem closed_of rows_where find
mem-closed_of task_id identity [] k = refl
mem-closed_of task_id identity (row ∷ rows) (once, k) =
    elim (Bool-cases (row.identity == identity)) [
      | inl mine ↦ elim (Bool-cases (row.task_id == task_id)) [
        | inl here ↦ ground (
          arith,
          mem-closed_of task_id identity rows k,
          eq_iff row.task_id task_id,
          eq_iff row.identity identity,
          eq_iff task_id row.task_id,
        )
        | inr other ↦ ground (
          arith,
          mem-closed_of task_id identity rows k,
          eq_iff row.task_id task_id,
          eq_iff task_id row.task_id,
        )
      ]
      | inr foreign ↦ ground (arith, mem-closed_of task_id identity rows k)
    ]

mem-closed_ids :
    (task_id identity : Str) (rows : List Row)
    → IsKeyed rows
    → mem task_id (closed_ids (marked_by identity rows)) ≡ closed_in (find task_id identity rows)
unfolding closed_ids marked_by
mem-closed_ids task_id identity rows k =
    mem-sort_texts task_id _ ∙ mem-closed_of task_id identity rows k

-- The mark is one that closes the message.
abbrev pub IsClosing : Option Row → Type 0
IsClosing o = (row : Row) × (o ≡ some row) × ((row.state ≡ processed) ⊎ (row.state ≡ discarded))

IsClosing-of :
    (row : Row) (state : MarkState)
    → row.state ≡ state
    → is_closed state ≡ true
    → IsClosing (some row)
IsClosing-of row processed e h = (row, refl, inl e)
IsClosing-of row discarded e h = (row, refl, inr e)
IsClosing-of row awaiting e h = cc

closing_state :
    (row row' : Row)
    → some row ≡ some row'
    → (row'.state ≡ processed) ⊎ (row'.state ≡ discarded)
    → is_closed row.state ≡ true
closing_state row row' e (inl s) = cc
closing_state row row' e (inr s) = cc

closed_in_iff : (o : Option Row) → (closed_in o ≡ true) ↔ IsClosing o
closed_in_iff none = (λ h. cc, λ (row, e, s). cc)
closed_in_iff (some row) =
    (λ h. IsClosing-of row row.state refl h, λ (row', e, s). closing_state row row' e s)

-- In a table with one row for each message and identity, the messages listed as closed by an
-- identity are exactly those whose mark by that identity is processed or discarded; one that awaits
-- a decision is not.
pub closed_ids_iff :
    (task_id identity : Str) (rows : List Row)
    → IsKeyed rows
    → (mem task_id (closed_ids (marked_by identity rows)) ≡ true)
      ↔ IsClosing (find task_id identity rows)
closed_ids_iff task_id identity rows k =
    rw (mem-closed_ids task_id identity rows k) (closed_in_iff (find task_id identity rows))
