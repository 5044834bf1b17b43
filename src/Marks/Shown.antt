-- ===== src/Marks/Shown.antt =====
-- Whom the marks of a message are shown to.
use mathlib.Core.List.{Perm, filter_map}
use mathlib.Core.List.Perm
use a2a_hub.Prelude.{
  ℕ, Bool, ◌&&◌, ◌≡◌, ◌⊎◌, inl, inr, refl, Option, none, some, List, [], ◌∷◌, arith, Option-cases,
  if◌then◌else◌,
}
use a2a_hub.Prelude.Text.{Str, ◌==◌}
use a2a_hub.Json.{Json}
use a2a_hub.Store.{Task, Sdk, get_task}
use a2a_hub.Marks.{CleanResult, Row, Orders, rows_where, get_marks}
use a2a_hub.Marks.Routes.{reply, context_of, marks_json, own_as_sender, sender_view, get_mark_route}

abbrev on_message : Str → Row → Bool
on_message task_id row = row.task_id == task_id

abbrev sent_on_message : Str → Str → Row → Bool
sent_on_message task_id identity row = (row.task_id == task_id) && (row.sender == identity)

abbrev kept : (Row → Bool) → Row → Option Row
kept p row = if p row then some row else none

rows_where-filter_map :
    (p : Row → Bool) (rows : List Row) → rows_where p rows ≡ filter_map (kept p) rows
unfolding rows_where filter_map
rows_where-filter_map p [] = refl
rows_where-filter_map p (row ∷ rows) = ground (arith, rows_where-filter_map p rows)

rows_where-rows_where :
    (p q : Row → Bool) (rows : List Row)
    → rows_where q (rows_where p rows) ≡ rows_where (λ row. p row && q row) rows
unfolding rows_where
rows_where-rows_where p q [] = refl
rows_where-rows_where p q (row ∷ rows) = ground (arith, rows_where-rows_where p q rows)

rows_where-perm :
    (q : Row → Bool) {a b : List Row} → Perm a b → Perm (rows_where q a) (rows_where q b)
rows_where-perm q {a} {b} p =
    rw (rows_where-filter_map q a, rows_where-filter_map q b) (Perm.filter_map (kept q) p)

-- The rows that an answer shows: all marks on the message, to a caller who may read it, or else those
-- that name the caller as the sender.
abbrev pub IsShown : Sdk → Str → Str → List Row → List Row → Type 0
IsShown sdk task_id identity rows shown =
    ((task : Task) × (get_task sdk task_id (context_of identity) ≡ some task)
      × Perm shown (rows_where (on_message task_id) rows))
    ⊎ ((get_task sdk task_id (context_of identity) ≡ none)
        × Perm shown (rows_where (sent_on_message task_id identity) rows))

module _ (sdk : Sdk) (repr : Json → Str) (iso : ℕ → Str) (explain : CleanResult → Str)
    (orders : Orders) (sorts : (rows : List Row) → Perm (orders.oldest_first rows) rows)
    (task_id identity : Str) where
  view_sound :
      (own : List Row)
      → (sender_view sdk repr iso explain task_id own).status_code ≡ 200
      → sender_view sdk repr iso explain task_id own ≡ reply 200 (marks_json iso task_id own)
  view_sound [] h = absurd (omega arith)
  view_sound (row ∷ own) h = refl

  own-perm :
      (rows : List Row)
      → Perm
          (own_as_sender identity (get_marks orders task_id rows))
          (rows_where (sent_on_message task_id identity) rows)
  unfolding own_as_sender get_marks
  own-perm rows =
      rw (← rows_where-rows_where (on_message task_id) (λ row. row.sender == identity) rows) (
        rows_where-perm (λ row. row.sender == identity)
          (sorts (rows_where (on_message task_id) rows)))

  -- If the database's ordering of rows keeps every row, an answer with status 200 to a request for
  -- the marks of a message shows, in some order, all marks on the message to a caller that may read
  -- the message, and to any other caller those that name the caller as the sender.
  pub get_mark_route_sound :
      (rows : List Row)
      → (get_mark_route sdk repr iso explain orders task_id identity rows).status_code ≡ 200
      → (shown : List Row) × (get_mark_route sdk repr iso explain orders task_id identity rows
          ≡ reply 200 (marks_json iso task_id shown))
        × IsShown sdk task_id identity rows shown
  unfolding get_mark_route
  get_mark_route_sound rows h = elim (Option-cases (get_task sdk task_id (context_of identity))) [
    | inl hidden ↦
        let own = own_as_sender identity (get_marks orders task_id rows) in
        (
          own,
          rw (hidden, get_mark_route) (view_sound own (rw (hidden, get_mark_route) at h)),
          inr (hidden, own-perm rows),
        )
    | inr (task, readable) ↦ (
      get_marks orders task_id rows,
      rw (readable, get_mark_route) refl,
      inl (task, readable, unfold get_marks in sorts (rows_where (on_message task_id) rows)),
    )
  ]
