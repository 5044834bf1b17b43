-- ===== src/Marks/Listed.antt =====
-- The row of a message and an identity among the rows of the message.
use mathlib.Core.List.{Mem, mem-cons_self, mem-cons_of_mem}
use a2a_hub.Prelude.{◌≡◌, subst, inl, inr, Bool-cases, some, List, [], ◌∷◌, arith}
use a2a_hub.Prelude.Text.{Str, ◌==◌}
use a2a_hub.Marks.{Row, rows_where}
use a2a_hub.Marks.Table.{find}

pub find-Mem :
    (task_id identity : Str) (rows : List Row) (row : Row)
    → find task_id identity rows ≡ some row
    → Mem row (rows_where (λ r. r.task_id == task_id) rows)
unfolding find rows_where
find-Mem task_id identity [] row h = cc h
find-Mem task_id identity (r ∷ rows) row h = elim (Bool-cases (r.task_id == task_id)) [
  | inl same ↦
      rw (rows_where, same)
        (elim (Bool-cases (r.identity == identity)) [
          | inl own ↦
              let here : r ≡ row = ground (arith, h, same, own) in
              subst (λ x. Mem x (r ∷ rows_where (λ q. q.task_id == task_id) rows)) here
                mem-cons_self
          | inr other ↦
              mem-cons_of_mem r
                (find-Mem task_id identity rows row (ground (arith, h, same, other)))
        ])
  | inr apart ↦
      rw (rows_where, apart) (find-Mem task_id identity rows row (ground (arith, h, apart)))
]
