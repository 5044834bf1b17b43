-- ===== src/Client/Command.antt =====
-- src/a2a_hub/client.py: the other commands of `main`, a function for each.
use a2a_hub.Prelude.{
  ℕ, Bool, true, false, not, Option, none, some, List, [], ◌∷◌, ◌++◌, map, if◌then◌else◌, keep_if,
}
use a2a_hub.Prelude.Int.{ℤ}
use a2a_hub.Prelude.Text.{Str, codes, ◌==◌, is_empty, mem, strip, split, join, starts_with}
use a2a_hub.Json.{Json, num, str, obj, end, get}
use a2a_hub.Client.Effect.{
  Line, json_text, mark_usage, nothing_recorded, marked_as, sent_marks, own_marks, refusing_shared,
  introduced, warned, not_in_register, status_of, retired, nobody_quiet, agent_line, receipt, M,
  pure, ◌>>=◌, ◌>>◌, raise, of, print,
}
use a2a_hub.Client.Settings.{identity}
use a2a_hub.Client.Calls.{
  HubClient, introduce, set_status, retire, agents, mark, marks, get_task, send_message,
}
use a2a_hub.Client.Arguments.{free_text_or_refuse, quiet_for_arg}
use a2a_hub.Client.Host.{Host, field_of, as_dict, print_all}
use a2a_hub.Client.Inbox.{list_at, appears_in_register}

module _ {S : Type 0} (host : Host) (client : HubClient S) where
  abbrev pub record_mark : Str → Str → Str → M S ℕ
  record_mark command task_id detail = elim (is_empty detail) [
    | true ↦ print (nothing_recorded command) >> pure 1
    | false ↦ do
      result ← mark host.repr client task_id command detail
      state ← of (field_of (codes "state") result)
      marked ← of (field_of (codes "task_id") result)
      print (marked_as state marked)
      pure 0
  ]

  -- `processed`, `discarded` and `awaiting`, on the arguments behind the command
  unfoldable pub mark_command : Str → List Str → M S ℕ
  mark_command command [] = print (mark_usage command) >> pure 1
  mark_command command (task_id ∷ rest) = do
    words ← of (
        free_text_or_refuse command rest
          (codes "usage: a2a-client " ++ command ++ codes " <task-id> <text...>"))
    record_mark command task_id (strip (join (codes " ") words))

  unfoldable pub marks_command : List Str → M S ℕ
  marks_command args = do
    result ← marks host.repr client (mem (codes "--sent") args)
    print (
        if mem (codes "--json") args
        then json_text (obj result)
        else if mem (codes "--sent") args
        then sent_marks (list_at (codes "sent") result)
        else own_marks result (list_at (codes "closed") result))
    pure 0

  abbrev read_back : Json → Bool → M S ℕ
  read_back name true = pure 0
  read_back name false = print (not_in_register name) >> pure 1

  abbrev name_text : Json → Str
  name_text (str s) = s
  name_text v = host.repr v

  abbrev is_text_part : Str → Bool
  is_text_part p = not (is_empty p)

  abbrev introduce_usage : Str
  introduce_usage =
      codes "usage: a2a-client introduce <role> <project[,project...]> <what you are doing...>"

  -- behind the test of the session
  unfoldable pub introduce_args : List Str → M S ℕ
  introduce_args (role ∷ projects ∷ rest) = do
    words ← of (
        free_text_or_refuse (codes "introduce") rest
          (codes "usage: introduce <role> <projects> <status...>"))
    result ←
        introduce host.repr client role host.hostname (keep_if is_text_part (split b',' projects))
          (join (codes " ") words)
    name ← of (field_of (codes "identity") result)
    accepted ← of (field_of (codes "role") result)
    print (introduced name accepted)
    print_all (map warned (list_at (codes "warnings") result))
    visible ← appears_in_register host.repr client (name_text name)
    read_back name visible
  introduce_args _ = raise introduce_usage

  unfoldable pub introduce_command : List Str → M S ℕ
  introduce_command rest = elim client.config.session_from_shared_file [
    | true ↦ print (refusing_shared (identity client.config)) >> pure 1
    | false ↦ introduce_args rest
  ]

  unfoldable pub status_command : List Str → M S ℕ
  status_command [] = raise (codes "usage: a2a-client status <what you are doing...>")
  status_command (word ∷ rest) = do
    words ← of (
        free_text_or_refuse (codes "status") (word ∷ rest)
          (codes "usage: status <what you are doing...>"))
    result ← set_status host.repr client (join (codes " ") words)
    name ← of (field_of (codes "identity") result)
    status ← of (field_of (codes "status") result)
    print (status_of name status)
    pure 0

  unfoldable pub retire_command : M S ℕ
  retire_command = do
    result ← retire host.repr client
    name ← of (field_of (codes "identity") result)
    print (retired name)
    pure 0

  abbrev agents_lines : Option ℤ → List Json → List Line
  agents_lines (some seconds) [] = nobody_quiet (num seconds) ∷ []
  agents_lines quiet_for listed = map agent_line listed

  unfoldable pub agents_command : List Str → M S ℕ
  agents_command args = do
    quiet_for ← of (quiet_for_arg host.quote args)
    result ← agents host.repr client quiet_for (mem (codes "--retired") args)
    print_all (
        if mem (codes "--json") args
        then json_text (obj result) ∷ []
        else agents_lines quiet_for (list_at (codes "agents") result))
    pure 0

  unfoldable pub read_command : List Str → M S ℕ
  read_command [] = raise (codes "usage: a2a-client read <task-id>")
  read_command (task_id ∷ rest) = do
    result ← get_task host.repr client task_id
    print (json_text result)
    pure 0

  abbrev pub delivered : Str → Str → M S ℕ
  delivered recipient text = do
    result ← send_message host.repr client host.fresh_id recipient text
    payload ← of (as_dict result)
    print (
        receipt recipient (elim (get (codes "task") payload) [ some task ↦ task | none ↦ obj end ]))
    pure 0

  abbrev send_file : Str → Str → Option Str → M S ℕ
  send_file recipient path none = raise (codes "cannot read " ++ path)
  send_file recipient path (some text) = delivered recipient text

  abbrev unknown_send : Str → Str
  unknown_send word =
      codes "send: unknown option "
      ++ word
      ++ codes
          "\nDid you mean --body-file? A body is not sent when the flag is misspelled: it would"
      ++ codes " travel as the literal text of your command.\nTo send text that really starts with"
      ++ codes " dashes, put `--` first."

  -- a body of words
  unfoldable pub send_words : Str → Str → List Str → M S ℕ
  send_words recipient word words = elim (word == codes "--") [
    | true ↦ delivered recipient (join (codes " ") words)
    | false ↦ elim (starts_with word (codes "--")) [
      | true ↦ raise (unknown_send word)
      | false ↦ delivered recipient (join (codes " ") (word ∷ words))
    ]
  ]

  unfoldable pub send_command : List Str → M S ℕ
  send_command (recipient ∷ word ∷ path ∷ rest) = elim (word == codes "--body-file") [
    | true ↦ send_file recipient path (host.read_text path)
    | false ↦ send_words recipient word (path ∷ rest)
  ]
  send_command (recipient ∷ word ∷ []) = send_words recipient word []
  send_command _ = raise (
      codes "usage: a2a-client send <recipient> <text...>\n"
      ++ codes "       a2a-client send <recipient> --body-file <path>")
