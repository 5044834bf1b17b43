-- ===== src/Client/Main.antt =====
-- src/a2a_hub/client.py: `main`, from the command line to the exit code.
pub mod Mistyped
pub mod Idle
use a2a_hub.Prelude.{
  ℕ, Bool, true, false, not, ◌&&◌, ◌||◌, Option, none, some, List, [], ◌∷◌, ◌++◌, map, nat_eq,
  length, if◌then◌else◌, keep_if,
}
use a2a_hub.Prelude.Int.{ℤ, pos, int_eq}
use a2a_hub.Prelude.Text.{Str, codes, ◌==◌, is_empty, mem, strip, split, join, starts_with}
use a2a_hub.Json.{Json, null, bool, num, str, arr, obj, Fields, end, array, dict, items, get, truth}
use a2a_hub.Client.Effect.{
  Outcome, ok, refused, crashed, Line, help_text, options_of, session_usage, unknown_option,
  shared_session, identity_is, hub_is, json_text, mailbox_of, addressed, never_introduced,
  not_whole, hidden_closed, hidden_old, task_line, mark_usage, nothing_recorded, marked_as,
  sent_marks, own_marks, refusing_shared, introduced, warned, not_in_register, status_of, retired,
  nobody_quiet, agent_line, receipt, client_error, World, M, pure, ◌>>=◌, ◌>>◌, raise, of, print,
  Transport,
}
use a2a_hub.Environ.{Env}
use a2a_hub.Client.Settings.{ClientConfig, identity, load}
use a2a_hub.Client.Calls.{
  HubClient, introduce, set_status, retire, agents, mark, marks, get_task, send_message,
}
use a2a_hub.Client.Reading.{Walked, list_all_tasks, Split, split_by_mailbox}
use a2a_hub.Client.Arguments.{
  Session, no_value, taken, take_session, known_flags, unknown_flags, free_text_or_refuse,
  quiet_for_arg,
}
use a2a_hub.Client.Host.{Host, field_of, as_dict, unless, print_all}
use a2a_hub.Client.Mailbox.{inbox}
use a2a_hub.Client.Inbox.{
  list_at, texts_of, appears_in_register, declared_in_register, Kept, unprocessed,
}
use a2a_hub.Client.Command.{
  mark_command, marks_command, introduce_command, status_command, retire_command, agents_command,
  read_command, send_command,
}

module _ {S : Type 0} (host : Host) (client : HubClient S) where
  abbrev whoami : M S ℕ
  whoami =
      print (identity_is (identity client.config)) >> (print (hub_is client.config.url) >> pure 0)

  -- the commands, `rest` being the arguments behind the name
  unfoldable pub command_of : Str → List Str → M S ℕ
  command_of command rest =
      if command == codes "whoami"
      then whoami
      else if command == codes "inbox"
      then inbox host client (command ∷ rest)
      else if mem command (codes "processed" ∷ codes "discarded" ∷ codes "awaiting" ∷ [])
      then mark_command host client command rest
      else if command == codes "marks"
      then marks_command host client (command ∷ rest)
      else if command == codes "introduce"
      then introduce_command host client rest
      else if command == codes "status"
      then status_command host client rest
      else if command == codes "retire"
      then retire_command host client
      else if command == codes "agents"
      then agents_command host client (command ∷ rest)
      else if command == codes "read"
      then read_command host client rest
      else if command == codes "send"
      then send_command host client rest
      else raise (codes "unknown command: " ++ command)

  -- behind the configuration: the warning on a shared session, then the command
  unfoldable pub run_command : Str → List Str → M S ℕ
  run_command command rest =
      unless (not client.config.session_from_shared_file || command == codes "whoami")
        (print (shared_session (identity client.config)))
      >> command_of command rest

unfoldable pub asks_help : List Str → Bool
asks_help [] = true
asks_help args = mem (codes "-h") args || mem (codes "--help") args

abbrev pub help_lines : List Str → List Line
help_lines [] = help_text ∷ []
help_lines (command ∷ rest) = elim (known_flags command) [
  | some accepted ↦ help_text ∷ options_of command accepted ∷ []
  | none ↦ help_text ∷ []
]

-- `known_flags` where it is known to be there
abbrev pub accepted_by : Str → List Str
accepted_by command = elim (known_flags command) [ some accepted ↦ accepted | none ↦ [] ]

-- the session of the command line replaces the configured one
abbrev pub with_session : Option Str → ClientConfig → ClientConfig
with_session none config = config
with_session (some []) config = config
with_session (some (c ∷ name)) config = record config {
  session = c ∷ name;
  session_from_shared_file = false;
}

-- `except ClientError`
abbrev pub reported : {S : Type 0} → Outcome ℕ × World S → Outcome ℕ × World S
reported (refused e, w) = (print (client_error e) >> pure 1) w
reported (o, w) = (o, w)

abbrev pub configured :
    {S : Type 0} → Transport S → Option Str → Outcome ClientConfig → Outcome (HubClient S)
configured http name (ok config) =
    ok (record { config = with_session name config; transport = http })
configured http name (refused e) = refused e
configured http name crashed = crashed

module _ {S : Type 0} (host : Host) where
  -- a client that is given, or one of the configuration
  unfoldable pub client_of : Option (HubClient S) → Transport S → Option Str → Outcome (HubClient S)
  client_of (some client) http name = ok client
  client_of none http name =
      configured http name (load host.config_path host.config_lines host.environ)

  -- behind `--session`, help and the test of the flags
  unfoldable pub run_args : Option (HubClient S) → Transport S → Option Str → Str → List Str → M S ℕ
  run_args given http name command rest w =
      reported
        ((do client ← of (client_of given http name); run_command host client command rest) w)

  unfoldable pub main_args : Option (HubClient S) → Transport S → Option Str → List Str → M S ℕ
  main_args given http name [] = print_all (help_lines []) >> pure 0
  main_args given http name (command ∷ rest) = elim (asks_help (command ∷ rest)) [
    | true ↦ print_all (help_lines (command ∷ rest)) >> pure 0
    | false ↦ elim (unknown_flags command rest) [
      | [] ↦ run_args given http name command rest
      | flag ∷ flags ↦ print (unknown_option command (flag ∷ flags) (accepted_by command)) >> pure 2
    ]
  ]

  unfoldable pub main : Option (HubClient S) → Transport S → List Str → M S ℕ
  main given http args = elim (take_session args) [
    | no_value ↦ print session_usage >> pure 1
    | taken name rest ↦ main_args given http name rest
  ]
