-- ===== src/Client/Mailbox.antt =====
-- src/a2a_hub/client.py: the command `inbox` of `main`.
use a2a_hub.Prelude.{
  ℕ, Bool, true, false, not, ◌&&◌, Option, none, some, List, [], ◌∷◌, ◌++◌, map, nat_eq, length,
  if◌then◌else◌,
}
use a2a_hub.Prelude.Int.{pos, int_eq}
use a2a_hub.Prelude.Text.{Str, codes, mem}
use a2a_hub.Json.{Json, bool, num, str, arr, obj, array, dict}
use a2a_hub.Client.Effect.{
  Outcome, ok, crashed, Line, json_text, mailbox_of, addressed, never_introduced, not_whole,
  hidden_closed, hidden_old, task_line, M, pure, ◌>>=◌, ◌>>◌, of,
}
use a2a_hub.Client.Settings.{ClientConfig, identity}
use a2a_hub.Client.Calls.{HubClient, marks}
use a2a_hub.Client.Reading.{Walked, list_all_tasks, Split, split_by_mailbox}
use a2a_hub.Client.Host.{Host, print_all}
use a2a_hub.Client.Inbox.{list_at, texts_of, declared_in_register, Kept, unprocessed}

abbrev pub finished : Option Walked → Outcome Walked
finished none = crashed
finished (some walked) = ok walked

-- the whole mailbox was read
abbrev pub is_complete : Walked → Bool
is_complete walked = not walked.incomplete && int_eq (pos (length walked.tasks)) walked.total

abbrev pub split_json : Split → Json
split_json counts = obj (
    dict (
      (codes "session", num (pos counts.session))
      ∷ (codes "broadcast", num (pos counts.broadcast))
      ∷ (codes "unclassified", num (pos counts.unclassified))
      ∷ []))

abbrev hidden_fields : Option Kept → List (Str × Json)
hidden_fields none = []
hidden_fields (some kept) =
    (codes "hiddenClosed", num (pos kept.hidden_closed))
    ∷ (codes "hiddenPreCutoff", num (pos kept.hidden_pre_cutoff))
    ∷ []

abbrev pub shown_tasks : Walked → Option Kept → List Json
shown_tasks walked none = walked.tasks
shown_tasks walked (some kept) = kept.tasks

-- the dict of `inbox --json`
abbrev pub inbox_json : Walked → Option Kept → Split → Bool → Json
inbox_json walked kept counts undeclared = obj (
    dict (
      (codes "tasks", arr (array (shown_tasks walked kept)))
      ∷ (codes "totalSize", num walked.total)
      ∷ (codes "nextPageToken", str [])
      ∷ (codes "pagesRead", num (pos walked.pages))
      ∷ ((if walked.incomplete then (codes "incomplete", bool true) ∷ [] else [])
          ++ hidden_fields kept
          ++ (codes "mailboxSplit", split_json counts)
            ∷ (codes "sessionDeclared", bool (not undeclared))
            ∷ [])))

abbrev line_if : Bool → Line → List Line
line_if shown line = if shown then line ∷ [] else []

abbrev hidden_lines : Option Kept → List Line
hidden_lines none = []
hidden_lines (some kept) =
    hidden_closed kept.hidden_closed
    ∷ line_if (not (nat_eq kept.hidden_pre_cutoff 0)) (hidden_old kept.hidden_pre_cutoff)

-- what `inbox` prints without `--json`
abbrev pub inbox_lines : ClientConfig → Walked → Option Kept → Split → Bool → List Line
inbox_lines config walked kept counts undeclared =
    let returned = num (pos (length walked.tasks)) in
    mailbox_of (identity config) returned (num walked.total) (num (pos walked.pages))
    ∷ addressed counts.session counts.broadcast counts.unclassified
    ∷ (line_if undeclared (never_introduced config.session)
        ++ line_if (not (is_complete walked)) (not_whole returned (num walked.total))
        ++ hidden_lines kept
        ++ map task_line (shown_tasks walked kept))

module _ {S : Type 0} (host : Host) (client : HubClient S) where
  abbrev kept_of : List Str → Walked → M S (Option Kept)
  kept_of args walked = elim (mem (codes "--unprocessed") args) [
    | false ↦ pure none
    | true ↦ do
      payload ← marks host.repr client false
      pure (some (unprocessed (texts_of (list_at (codes "closed") payload)) walked.tasks))
  ]

  -- the register is asked only if the mailbox was read to its end and holds nothing for the session
  abbrev is_undeclared : Walked → Split → M S Bool
  is_undeclared walked counts = elim (is_complete walked && nat_eq counts.session 0) [
    | false ↦ pure false
    | true ↦ do
      declared ← declared_in_register host.repr client (identity client.config)
      pure (not declared)
  ]

  unfoldable pub inbox : List Str → M S ℕ
  inbox args = do
    result ← list_all_tasks host.repr client true 100 100
    walked ← of (finished result)
    let counts = split_by_mailbox walked.tasks (identity client.config) client.config.agent
    undeclared ← is_undeclared walked counts
    kept ← kept_of args walked
    print_all (
        if mem (codes "--json") args
        then json_text (inbox_json walked kept counts undeclared) ∷ []
        else inbox_lines client.config walked kept counts undeclared)
    pure 0
