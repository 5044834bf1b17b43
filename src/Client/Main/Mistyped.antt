-- ===== src/Client/Main/Mistyped.antt =====
-- src/a2a_hub/client.py: a misspelled command or flag fails before the hub is asked.
use a2a_hub.Prelude.{arith, ℕ, Bool, true, false, List, [], ◌∷◌, ◌++◌, ◌≡◌, refl}
use a2a_hub.Prelude.Text.{Str, codes, ◌==◌, mem, starts_with}
use a2a_hub.Client.Effect.{
  Outcome, ok, refused, Line, World, M, pure, ◌>>◌, print, continue, refusing_shared,
}
use a2a_hub.Client.Settings.{identity}
use a2a_hub.Client.Calls.{HubClient}
use a2a_hub.Client.Arguments.{free_text_or_refuse}
use a2a_hub.Client.Host.{Host, unless}
use a2a_hub.Client.Command.{
  mark_command, introduce_command, status_command, send_command, send_words, introduce_args,
}
use a2a_hub.Client.Main.{command_of, run_command}

-- a word typed where a flag goes that is none
abbrev pub IsFlag : Str → Type 0
IsFlag word = (starts_with word (codes "--") ≡ true) × ((word == codes "--") ≡ false)

abbrev pub all_commands : List Str
all_commands =
    codes "whoami"
    ∷ codes "inbox"
    ∷ codes "processed"
    ∷ codes "discarded"
    ∷ codes "awaiting"
    ∷ codes "marks"
    ∷ codes "introduce"
    ∷ codes "status"
    ∷ codes "retire"
    ∷ codes "agents"
    ∷ codes "read"
    ∷ codes "send"
    ∷ []

-- a command and its arguments that are refused before the hub is asked
pub data Mistyped : Str → List Str → Type 0 where
  send_flag :
      {who word : Str} {words : List Str}
      → IsFlag word
      → (word == codes "--body-file") ≡ false
      → Mistyped (codes "send") (who ∷ word ∷ words)
  processed_flag :
      {task_id word : Str} {words : List Str}
      → IsFlag word
      → Mistyped (codes "processed") (task_id ∷ word ∷ words)
  discarded_flag :
      {task_id word : Str} {words : List Str}
      → IsFlag word
      → Mistyped (codes "discarded") (task_id ∷ word ∷ words)
  status_flag :
      {word : Str} {words : List Str} → IsFlag word → Mistyped (codes "status") (word ∷ words)
  introduce_flag :
      {role projects word : Str} {words : List Str}
      → IsFlag word
      → Mistyped (codes "introduce") (role ∷ projects ∷ word ∷ words)
  unknown_command :
      {command : Str} {rest : List Str} → mem command all_commands ≡ false → Mistyped command rest

-- a run that leaves the hub alone and fails
pub data Fails {S : Type 0} (w : World S) : Outcome ℕ × World S → Type 0 where
  exits : {lines : List Line} → Fails w (ok 1, record w { printed = lines })
  raises : {e : Str} {lines : List Line} → Fails w (refused e, record w { printed = lines })

free_text-refused :
    (command word : Str) (words : List Str) (hint : Str)
    → IsFlag word
    → (e : Str) × (free_text_or_refuse command (word ∷ words) hint ≡ refused e)
unfolding free_text_or_refuse
free_text-refused command word words hint (dashes, single) = rw (single, dashes) (_, refl)

module _ {S : Type 0} (host : Host) (client : HubClient S) where
  send_words-Fails :
      (who word : Str) (words : List Str) (w : World S)
      → IsFlag word
      → Fails w (send_words host client who word words w)
  unfolding send_words
  send_words-Fails who word words w (dashes, single) = rw (send_words, single, dashes) raises

  send-Fails :
      (who word : Str) (words : List Str) (w : World S)
      → IsFlag word
      → (word == codes "--body-file") ≡ false
      → Fails w (send_command host client (who ∷ word ∷ words) w)
  unfolding send_command
  send-Fails who word [] w flag other = send_words-Fails who word [] w flag
  send-Fails who word (path ∷ words) w flag other =
      rw (send_command, other) (send_words-Fails who word (path ∷ words) w flag)

  status-Fails :
      (word : Str) (words : List Str) (w : World S)
      → IsFlag word
      → Fails w (status_command host client (word ∷ words) w)
  unfolding status_command
  status-Fails word words w flag =
      let (e, no_text) =
        free_text-refused (codes "status") word words
          (codes "usage: status <what you are doing...>") flag in
      rw no_text raises

  mark-Fails :
      (command task_id word : Str) (words : List Str) (w : World S)
      → IsFlag word
      → Fails w (mark_command host client command (task_id ∷ word ∷ words) w)
  unfolding mark_command
  mark-Fails command task_id word words w flag =
      let (e, no_text) =
        free_text-refused command word words
          (codes "usage: a2a-client " ++ command ++ codes " <task-id> <text...>") flag in
      rw no_text raises

  introduce_args-Fails :
      (role projects word : Str) (words : List Str) (w : World S)
      → IsFlag word
      → Fails w (introduce_args host client (role ∷ projects ∷ word ∷ words) w)
  unfolding introduce_args
  introduce_args-Fails role projects word words w flag =
      let (e, no_text) =
        free_text-refused (codes "introduce") word words
          (codes "usage: introduce <role> <projects> <status...>") flag in
      rw no_text raises

  introduce-Fails :
      (role projects word : Str) (words : List Str) (w : World S)
      → IsFlag word
      → Fails w (introduce_command host client (role ∷ projects ∷ word ∷ words) w)
  unfolding introduce_command
  introduce-Fails role projects word words w flag =
      elim client.config.session_from_shared_file
        as (λ b. Fails w (
          (elim b as (λ (c : Bool). M S ℕ) [
            | true ↦ print (refusing_shared (identity client.config)) >> pure 1
            | false ↦ introduce_args host client (role ∷ projects ∷ word ∷ words)
          ])
            w)) [ true ↦ exits | false ↦ introduce_args-Fails role projects word words w flag ]

  unknown_refused :
      (command : Str) (rest : List Str) (w : World S)
      → mem command all_commands ≡ false
      → command_of host client command rest w ≡ (refused (codes "unknown command: " ++ command), w)
  unfolding command_of mem
  unknown_refused command rest w h = ground (arith, h)

  command_of-Fails :
      (command : Str) (rest : List Str) (w : World S)
      → Mistyped command rest
      → Fails w (command_of host client command rest w)
  unfolding command_of ◌==◌ mem
  command_of-Fails command rest w (send_flag flag other) = send-Fails _ _ _ w flag other
  command_of-Fails command rest w (processed_flag flag) = mark-Fails _ _ _ _ w flag
  command_of-Fails command rest w (discarded_flag flag) = mark-Fails _ _ _ _ w flag
  command_of-Fails command rest w (status_flag flag) = status-Fails _ _ w flag
  command_of-Fails command rest w (introduce_flag flag) = introduce-Fails _ _ _ _ w flag
  command_of-Fails command rest w (unknown_command h) = rw (unknown_refused command rest w h) raises

  printed-Fails :
      (lines : List Line) (w : World S) (r : Outcome ℕ × World S)
      → Fails (record w { printed = lines }) r
      → Fails w r
  printed-Fails lines w r exits = exits
  printed-Fails lines w r raises = raises

  warned-Fails :
      (b : Bool) (line : Line) (command : Str) (rest : List Str) (w : World S)
      → Mistyped command rest
      → Fails w (continue (unless b (print line) w) (λ x. command_of host client command rest))
  warned-Fails true line command rest w wrong = command_of-Fails command rest w wrong
  warned-Fails false line command rest w wrong =
      printed-Fails (w.printed ++ line ∷ []) w _
        (command_of-Fails command rest (record w { printed = w.printed ++ line ∷ [] }) wrong)

  pub run_command-Fails :
      (command : Str) (rest : List Str) (w : World S)
      → Mistyped command rest
      → Fails w (run_command host client command rest w)
  unfolding run_command
  run_command-Fails command rest w wrong = warned-Fails _ _ command rest w wrong
