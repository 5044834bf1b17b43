-- ===== src/Marks/Routes.antt =====
-- src/a2a_hub/routes_marks.py: the handlers behind `/messages/...`. A request is its authenticated
-- name, what `json.loads` makes of its body, and its `sent` parameter; the SDK's context builder
-- gives a context with that name and no owner pinned.
use a2a_hub.Prelude.{
  ℕ, Bool, true, false, Option, none, some, List, [], ◌∷◌, ◌++◌, map, ltb, nat_eq, if◌then◌else◌,
}
use a2a_hub.Prelude.Text.{Str, codes, ◌==◌, mem, lower}
use a2a_hub.Json.{Json, str, arr, obj, Fields, array, dict}
use a2a_hub.Auth.Refusal.{Response, error_body}
use a2a_hub.Executor.{CallContext}
use a2a_hub.Store.{Task, Artifact, Sdk, sender_of, get_task, get_from_mailbox}
use a2a_hub.Marks.{
  MarkState, state_text, is_closed, Mark, CleanResult, clean, clean_mark, Row, Orders, set_mark,
  get_marks, marked_by, sent_by, rows_where,
}

-- `json.loads(body or b"{}")` of a body that decodes
pub data Loaded : Type 0 where
  not_json : (error : Str) → Loaded
  loaded : Json → Loaded

abbrev pub reply : ℕ → Json → Response
reply status_code content = record { content = content; status_code = status_code; headers = [] }

abbrev pub refuse : ℕ → Str → Str → Response
refuse status_code error detail = reply status_code (error_body error detail)

-- `_sender_of` of the routes: the sender that the store finds, or ""
unfoldable pub sender_text : List Artifact → Str
sender_text artifacts = elim (sender_of artifacts) [ none ↦ [] | some sender ↦ sender ]

abbrev pub context_of : Str → CallContext
context_of identity = record { user_name = identity; owner_override = none }

-- `_as_dict`
abbrev pub row_json : (ℕ → Str) → Row → Json
row_json iso row = obj (
    dict (
      (codes "task_id", str row.task_id)
      ∷ (codes "identity", str row.identity)
      ∷ (codes "state", str (state_text row.state))
      ∷ (codes "detail", str row.detail)
      ∷ (codes "sender", str row.sender)
      ∷ (codes "marked_at", str (iso row.marked_at))
      ∷ []))

abbrev pub marks_json : (ℕ → Str) → Str → List Row → Json
marks_json iso task_id rows = obj (
    dict (
      (codes "task_id", str task_id) ∷ (codes "marks", arr (array (map (row_json iso) rows))) ∷ []))

unfoldable pub closed_of : List (Str × MarkState) → List Str
closed_of [] = []
closed_of ((task_id, state) ∷ rest) =
    let later = closed_of rest in if is_closed state then task_id ∷ later else later

-- `a < b` for texts
unfoldable pub text_lt : Str → Str → Bool
text_lt [] [] = false
text_lt [] (d ∷ t) = true
text_lt (c ∷ s) [] = false
text_lt (c ∷ s) (d ∷ t) = let later = text_lt s t in if nat_eq c d then later else ltb c d

unfoldable pub insert_text : Str → List Str → List Str
insert_text s [] = s ∷ []
insert_text s (t ∷ ts) =
    let later = insert_text s ts in if text_lt t s then t ∷ later else s ∷ t ∷ ts

-- `sorted(...)` of texts
unfoldable pub sort_texts : List Str → List Str
sort_texts [] = []
sort_texts (s ∷ ts) = insert_text s (sort_texts ts)

unfoldable pub closed_ids : List (Str × MarkState) → List Str
closed_ids marked = sort_texts (closed_of marked)

-- the marks that a caller without the task may read: those that name it as the sender
unfoldable pub own_as_sender : Str → List Row → List Row
own_as_sender identity rows = rows_where (λ row. row.sender == identity) rows

abbrev is_yes : Option Str → Bool
is_yes none = false
is_yes (some sent) = mem (lower sent) (codes "1" ∷ codes "true" ∷ codes "yes" ∷ [])

-- `repr` and `iso` print a container and an instant; `explain` words a refused mark
module _ (sdk : Sdk) (repr : Json → Str) (iso : ℕ → Str) (explain : CleanResult → Str) where
  -- from the validated mark on
  unfoldable pub store_mark : ℕ → Str → Str → Mark → Option Task → List Row → Response × List Row
  store_mark now task_id identity mark none rows = (
    refuse 404 (codes "not_in_your_mailbox")
        (task_id ++ codes " is not a message you received; only the recipient marks a message"),
    rows,
  )
  store_mark now task_id identity mark (some task) rows = (
    reply 200 (
        obj (
          dict (
            (codes "task_id", str task_id)
            ∷ (codes "identity", str identity)
            ∷ (codes "state", str (state_text mark.state))
            ∷ (codes "detail", str mark.detail)
            ∷ (codes "marked_at", str (iso now))
            ∷ []))),
    set_mark now task_id identity mark (sender_text task.artifacts) rows,
  )

  -- from the validation on
  unfoldable pub check_mark : ℕ → Str → Str → CleanResult → List Row → Response × List Row
  check_mark now task_id identity (clean mark) rows =
      store_mark now task_id identity mark (get_from_mailbox sdk task_id (context_of identity)) rows
  check_mark now task_id identity refused rows =
      (refuse 400 (codes "invalid_mark") (explain refused), rows)

  -- `set_mark`
  unfoldable pub set_mark_route : ℕ → Str → Str → Loaded → List Row → Response × List Row
  set_mark_route now task_id identity (not_json error) rows =
      (refuse 400 (codes "invalid_json") error, rows)
  set_mark_route now task_id identity (loaded (obj payload)) rows =
      check_mark now task_id identity (clean_mark repr payload) rows
  set_mark_route now task_id identity (loaded _) rows =
      (refuse 400 (codes "invalid_body") (codes "expected a JSON object"), rows)

  abbrev pub no_mark : Str → Response
  no_mark task_id = refuse 404 (codes "no_mark_for_you") (
      codes "no mark on "
      ++ task_id
      ++ codes
          " that you can read: it is not a message you received, and no mark on it records you as the sender")

  abbrev pub sender_view : Str → List Row → Response
  sender_view task_id [] = no_mark task_id
  sender_view task_id (row ∷ rows) = reply 200 (marks_json iso task_id (row ∷ rows))

  -- `get_mark`, which writes nothing
  unfoldable pub get_mark_route : Orders → Str → Str → List Row → Response
  get_mark_route orders task_id identity rows =
      let entries = get_marks orders task_id rows in
      elim (get_task sdk task_id (context_of identity)) [
        | some task ↦ reply 200 (marks_json iso task_id entries)
        | none ↦ sender_view task_id (own_as_sender identity entries)
      ]

  abbrev marked_json : List (Str × MarkState) → Fields
  marked_json marked = dict (map (λ e. (e.0, str (state_text e.1))) marked)

  -- `list_marks`, which writes nothing
  unfoldable pub list_marks_route : Orders → Option Str → Str → List Row → Response
  list_marks_route orders sent identity rows =
      if is_yes sent
      then reply 200 (
          obj (
            dict (
              (codes "identity", str identity)
              ∷ (codes "sent", arr (array (map (row_json iso) (sent_by orders identity rows))))
              ∷ [])))
      else reply 200 (
          obj (
            dict (
              (codes "identity", str identity)
              ∷ (codes "marked", obj (marked_json (marked_by identity rows)))
              ∷ (codes "closed", arr (array (map str (closed_ids (marked_by identity rows)))))
              ∷ [])))
