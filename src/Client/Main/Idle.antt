-- ===== src/Client/Main/Idle.antt =====
-- src/a2a_hub/client.py: the command lines that `main` answers without a call of the hub.
use a2a_hub.Prelude.{
  append-nil, append_assoc, ℕ, true, false, Option, none, some, List, [], ◌∷◌, ◌++◌, ◌≡◌, refl, ap,
  ◌∙◌,
}
use a2a_hub.Prelude.Text.{Str}
use a2a_hub.Client.Effect.{
  Outcome, ok, refused, crashed, Line, World, pure, ◌>>◌, Transport, continue,
}
use a2a_hub.Environ.{Env}
use a2a_hub.Client.Settings.{ClientConfig, load, build, outcome_of, missing, required}
use a2a_hub.Client.Calls.{HubClient}
use a2a_hub.Client.Arguments.{no_value, taken, take_session, unknown_flags}
use a2a_hub.Client.Host.{Host, print_all}
use a2a_hub.Client.Main.{
  run_command, run_args, main, main_args, asks_help, reported, client_of, configured, help_lines,
}
use a2a_hub.Client.Main.Mistyped.{Mistyped, Fails, exits, raises, run_command-Fails}

-- the command lines that never reach the hub, with the exit code
pub data IsIdle : List Str → ℕ → Type 0 where
  unnamed_session : {args : List Str} → take_session args ≡ no_value → IsIdle args 1
  help :
      {args rest : List Str} {name : Option Str}
      → take_session args ≡ taken name rest
      → asks_help rest ≡ true
      → IsIdle args 0
  unknown_flag :
      {args rest : List Str} {name : Option Str} {command flag : Str} {flags : List Str}
      → take_session args ≡ taken name (command ∷ rest)
      → asks_help (command ∷ rest) ≡ false
      → unknown_flags command rest ≡ flag ∷ flags
      → IsIdle args 2
  mistyped :
      {args rest : List Str} {name : Option Str} {command : Str}
      → take_session args ≡ taken name (command ∷ rest)
      → asks_help (command ∷ rest) ≡ false
      → unknown_flags command rest ≡ []
      → Mistyped command rest
      → IsIdle args 1

print_all_lem :
    {S : Type 0} (lines : List Line) (w : World S)
    → print_all lines w ≡ (ok tt, record w { printed = w.printed ++ lines })
print_all_lem [] w = rw (append-nil w.printed) refl
print_all_lem (line ∷ lines) w =
    print_all_lem lines (record w { printed = w.printed ++ line ∷ [] })
    ∙ ap (λ shown. (ok tt, record w { printed = shown })) (append_assoc w.printed (line ∷ []) lines)

-- the exit code, with the state behind the hub as it was
abbrev Leaves : {S : Type 0} → S → ℕ → Outcome ℕ × World S → Type 0
Leaves hub code r = (r.0 ≡ ok code) × (r.1.hub ≡ hub)

abbrev NeverCrashes : {A : Type 0} → Outcome A → Type 0
NeverCrashes (ok a) = Unit
NeverCrashes (refused e) = Unit
NeverCrashes crashed = ⊥

build-NeverCrashes : (path : Str) (env merged : Env) → NeverCrashes (build path env merged)
unfolding build
build-NeverCrashes path env merged =
    elim (missing merged required) as (λ names. NeverCrashes (outcome_of path env merged names)) [
      | [] ↦ tt
      | name ∷ names ↦ tt
    ]

module _ {S : Type 0} (host : Host) (given : Option (HubClient S)) (http : Transport S) where
  reported-Leaves :
      (r : Outcome ℕ × World S) (w : World S) → Fails w r → Leaves w.hub 1 (reported r)
  reported-Leaves r w exits = (refl, refl)
  reported-Leaves r w raises = (refl, refl)

  configured-NeverCrashes :
      (name : Option Str) (o : Outcome ClientConfig)
      → NeverCrashes o
      → NeverCrashes (configured http name o)
  configured-NeverCrashes name (ok config) h = tt
  configured-NeverCrashes name (refused e) h = tt
  configured-NeverCrashes name crashed h = absurd h

  client_of-NeverCrashes : (name : Option Str) → NeverCrashes (client_of host given http name)
  unfolding client_of load
  client_of-NeverCrashes name = elim given as (λ g. NeverCrashes (client_of host g http name)) [
    | some client ↦ tt
    | none ↦ configured-NeverCrashes name _ (build-NeverCrashes _ _ _)
  ]

  connected-Leaves :
      (o : Outcome (HubClient S)) (command : Str) (rest : List Str) (w : World S)
      → NeverCrashes o
      → Mistyped command rest
      → Leaves w.hub 1 (reported (continue (o, w) (λ client. run_command host client command rest)))
  connected-Leaves (ok client) command rest w h wrong =
      reported-Leaves _ w (run_command-Fails host client command rest w wrong)
  connected-Leaves (refused e) command rest w h wrong = (refl, refl)
  connected-Leaves crashed command rest w h wrong = absurd h

  run_args-Leaves :
      (name : Option Str) (command : Str) (rest : List Str) (w : World S)
      → Mistyped command rest
      → Leaves w.hub 1 (run_args host given http name command rest w)
  unfolding run_args
  run_args-Leaves name command rest w wrong =
      connected-Leaves _ command rest w (client_of-NeverCrashes name) wrong

  printed-Leaves :
      (lines : List Line) (code : ℕ) (w : World S)
      → Leaves w.hub code ((print_all lines >> pure code) w)
  printed-Leaves lines code w = rw (print_all_lem lines w) (refl, refl)

  help-Leaves :
      (name : Option Str) (args : List Str) (w : World S)
      → asks_help args ≡ true
      → Leaves w.hub 0 (main_args host given http name args w)
  unfolding main_args
  help-Leaves name [] w asked = printed-Leaves (help_lines []) 0 w
  help-Leaves name (command ∷ rest) w asked =
      rw (main_args, asked) (printed-Leaves (help_lines (command ∷ rest)) 0 w)

  -- A command line that asks for help, has a --session without a name, a flag that its command does
  -- not know, an unknown command, or a misspelled flag where the text of send, status, introduce,
  -- processed or discarded begins, ends with its exit code and leaves the state behind the hub as
  -- it was.
  pub main_idle :
      (args : List Str) (code : ℕ) (w : World S)
      → IsIdle args code
      → ((main host given http args w).0 ≡ ok code) × ((main host given http args w).1.hub ≡ w.hub)
  unfolding main main_args
  main_idle args code w (unnamed_session e) = rw (main, e) (refl, refl)
  main_idle args code w (help e asked) = rw (main, e) (help-Leaves _ _ w asked)
  main_idle args code w (unknown_flag e asked other) =
      rw (main, e, main_args, asked, other) (refl, refl)
  main_idle args code w (mistyped e asked known wrong) =
      rw (main, e, main_args, asked, known) (run_args-Leaves _ _ _ w wrong)
