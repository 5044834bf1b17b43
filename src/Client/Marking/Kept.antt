-- ===== src/Client/Marking/Kept.antt =====
-- What the recipient of a message records is what it reads back.
use mathlib.Core.List.{Perm, Mem}
use mathlib.Core.List.Perm
use a2a_hub.Prelude.{
  ℕ, ◌≤◌, ◌≡◌, refl, sym, ap, subst, ◌∙◌, false, Option, none, some, List, [], ◌∷◌, ◌++◌, length,
  take, map,
}
use a2a_hub.Prelude.Text.{Str, codes, ◌==◌, eq_refl, is_empty, strip, join}
use a2a_hub.Json.{Json, Fields, str, obj, arr, array, dict, get}
use a2a_hub.Auth.Trimmed.{strip-strip}
use a2a_hub.Store.{Task, Sdk, get_from_mailbox}
use a2a_hub.Marks.{
  MarkState, state_text, min_detail, max_detail, clean, CleanResult, clean_mark, Row, Orders,
  rows_where, get_marks,
}
use a2a_hub.Marks.Clean.{clean_mark_complete}
use a2a_hub.Marks.Routes.{
  loaded, context_of, sender_text, row_json, marks_json, set_mark_route, get_mark_route, check_mark,
  store_mark,
}
use a2a_hub.Marks.Table.{find, find-set_mark}
use a2a_hub.Client.Effect.{Outcome, ok, marked_as, World}
use a2a_hub.Client.Calls.{HubClient, mark, mark_of}
use a2a_hub.Client.Command.{mark_command, record_mark}
use a2a_hub.Client.Arguments.{free_text_or_refuse}
use a2a_hub.Client.Host.{Host, field_of}
use a2a_hub.Client.Marking.Asked.{mark_body, state_text-asked, detail-asked, full_of_long}
use a2a_hub.Marks.Listed.{find-Mem}
use a2a_hub.Client.Marking.{received, sent, http_answered, path_of_mark, ServesMarks}
use a2a_hub.Hub.Arrival.{get_task-owned}

module _ {S : Type 0} (host : Host) (client : HubClient S) (sdk : Sdk) (iso : ℕ → Str)
    (explain : CleanResult → Str) (orders : Orders) (now : ℕ) (identity task_id : Str)
    (rows : S → List Row)
    (serves : ServesMarks client sdk host.repr iso explain orders now identity task_id rows)
    (task : Task) (owned : get_from_mailbox sdk task_id (context_of identity) ≡ some task)
    (state : MarkState) where
  abbrev row_of : Str → Row
  row_of detail = record {
    task_id = task_id;
    identity = identity;
    state = state;
    detail = take max_detail detail;
    sender = sender_text task.artifacts;
    marked_at = now;
  }

  abbrev mark_json : Str → Fields
  mark_json detail = dict (
      (codes "task_id", str task_id)
      ∷ (codes "identity", str identity)
      ∷ (codes "state", str (state_text state))
      ∷ (codes "detail", str (take max_detail detail))
      ∷ (codes "marked_at", str (iso now))
      ∷ [])

  accepted :
      (detail : Str)
      → strip detail ≡ detail
      → min_detail ≤ length detail
      → clean_mark host.repr (mark_body state detail)
        ≡ clean (record { state = state; detail = take max_detail detail })
  accepted detail trimmed long =
      let full : is_empty detail ≡ false = full_of_long detail long in
      let same = ap strip (detail-asked host.repr state detail full) ∙ trimmed in
      clean_mark_complete host.repr (mark_body state detail) state
        (state_text-asked host.repr state detail)
        (subst (λ d. min_detail ≤ length d) (sym same) long)
      ∙ ap (λ d. clean (record { state = state; detail = take max_detail d })) same

  routed :
      (detail : Str) (table : List Row)
      → strip detail ≡ detail
      → min_detail ≤ length detail
      → (received
            (set_mark_route sdk host.repr iso explain now task_id identity
              (loaded (obj (mark_body state detail)))
              table).0
          ≡ some (obj (mark_json detail)))
        × (find task_id identity
              (set_mark_route sdk host.repr iso explain now task_id identity
                (loaded (obj (mark_body state detail)))
                table).1
            ≡ some (row_of detail))
  unfolding set_mark_route check_mark store_mark
  routed detail table trimmed long =
      rw
        (
          accepted detail trimmed long,
          check_mark,
          owned,
          store_mark,
          find-set_mark now task_id identity (sender_text task.artifacts)
              (record { state = state; detail = take max_detail detail }) task_id identity table,
          eq_refl task_id,
          eq_refl identity,
        )
        (refl, refl)

  abbrev posting : Str → S → Option Json × S
  posting detail = sent client (path_of_mark task_id) (some (obj (mark_body state detail)))

  mark_answered :
      (detail : Str) (w : World S)
      → strip detail ≡ detail
      → min_detail ≤ length detail
      → mark host.repr client task_id (state_text state) detail w
        ≡ (ok (mark_json detail), record w { hub = (posting detail w.hub).1 })
  unfolding mark
  mark_answered detail w trimmed long =
      http_answered client host.repr (path_of_mark task_id) (some (obj (mark_body state detail)))
        (mark_json detail) w
        ((serves.posted (obj (mark_body state detail)) w.hub).0
          ∙ (routed detail (rows w.hub) trimmed long).0)
        (unfold get ◌==◌ in refl)

  mark_written :
      (detail : Str) (s : S)
      → strip detail ≡ detail
      → min_detail ≤ length detail
      → find task_id identity (rows (posting detail s).1) ≡ some (row_of detail)
  mark_written detail s trimmed long =
      ap (find task_id identity) (serves.posted (obj (mark_body state detail)) s).1
      ∙ (routed detail (rows s) trimmed long).1

  -- the words behind the message id, as the command joins them
  abbrev pub detail_of : List Str → Str
  detail_of words = strip (join (codes " ") words)

  abbrev hint : Str
  hint = codes "usage: a2a-client " ++ state_text state ++ codes " <task-id> <text...>"

  abbrev recorded : Str → World S → World S
  recorded detail w = record {
    hub = (posting detail w.hub).1;
    printed = w.printed ++ marked_as (str (state_text state)) (str task_id) ∷ [];
  }

  record_mark_answered :
      (detail : Str) (w : World S)
      → strip detail ≡ detail
      → min_detail ≤ length detail
      → record_mark host client (state_text state) task_id detail w ≡ (ok 0, recorded detail w)
  unfolding field_of get ◌==◌
  record_mark_answered detail w trimmed long =
      rw (record_mark, full_of_long detail long) (rw (mark_answered detail w trimmed long) refl)

  command_answered :
      (rest words : List Str) (w : World S)
      → free_text_or_refuse (state_text state) rest hint ≡ ok words
      → min_detail ≤ length (detail_of words)
      → mark_command host client (state_text state) (task_id ∷ rest) w
        ≡ (ok 0, recorded (detail_of words) w)
  unfolding mark_command
  command_answered rest words w read long =
      rw read (record_mark_answered (detail_of words) w (strip-strip (join (codes " ") words)) long)

  -- the marks of the message, as a route shows them
  abbrev pub marks_fields : List Row → Fields
  marks_fields shown = dict (
      (codes "task_id", str task_id) ∷ (codes "marks", arr (array (map (row_json iso) shown))) ∷ [])

  read_back :
      (table : List Row)
      → received (get_mark_route sdk host.repr iso explain orders task_id identity table)
        ≡ some (marks_json iso task_id (get_marks orders task_id table))
  unfolding get_mark_route
  read_back table =
      rw (get_mark_route, get_task-owned sdk task_id (context_of identity) task owned) refl

  -- If the client's calls on the marks of a message reach the routes, at one instant, as a caller
  -- in whose mailbox the message lies, and the database's ordering keeps every row, then processed,
  -- discarded or awaiting on that message, with words that the command accepts and that have at
  -- least 8 characters when joined and trimmed, ends with exit code 0 and prints its report, and
  -- mark_of, called next, returns marks of the message among which is the caller's: with the state
  -- of the command, the first 2000 characters of the words, the sender that the message records,
  -- and that instant.
  pub mark_command_kept :
      ((table : List Row) → Perm (orders.oldest_first table) table)
      → (rest words : List Str) (w : World S)
      → free_text_or_refuse (state_text state) rest hint ≡ ok words
      → min_detail ≤ length (detail_of words)
      → (shown : List Row) × (mark_command host client (state_text state) (task_id ∷ rest) w
          ≡ (ok 0, recorded (detail_of words) w))
        × ((mark_of host.repr client task_id (recorded (detail_of words) w)).0
            ≡ ok (marks_fields shown))
        × Mem (row_of (detail_of words)) shown
  unfolding mark_of
  mark_command_kept sorts rest words w read long =
      let detail = detail_of words in
      let table = rows (posting detail w.hub).1 in
      let trimmed = strip-strip (join (codes " ") words) in
      (
        get_marks orders task_id table,
        command_answered rest words w read long,
        ap (λ (o : Outcome Fields × World S). o.0)
            (http_answered client host.repr (path_of_mark task_id) none
              (marks_fields (get_marks orders task_id table)) (recorded detail w)
              ((serves.read (recorded detail w).hub).0 ∙ read_back table)
              (unfold get ◌==◌ in refl)),
        unfold get_marks in
            ((Perm.mem_iff (sorts (rows_where (λ r. r.task_id == task_id) table))).1 (
              find-Mem task_id identity table (row_of detail)
                (mark_written detail w.hub trimmed long))),
      )
