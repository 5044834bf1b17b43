-- ===== src/Client/Host.antt =====
-- src/a2a_hub/client.py: what the client's process is given. Its environment and files, its host
-- name, a random id, and Python's `repr` of a container and of a text; and helpers of the commands.
use a2a_hub.Prelude.{Bool, true, false, Option, none, some, List, [], ◌∷◌}
use a2a_hub.Prelude.Text.{Str}
use a2a_hub.Json.{Json, obj, Fields, get}
use a2a_hub.Client.Effect.{Outcome, ok, crashed, Line, M, pure, ◌>>◌, print}
use a2a_hub.Environ.{Env}

pub record Host : Type 0 where
  pub environ : Env
  pub config_path : Str
  pub config_lines : Option (List Str)
  pub hostname : Str
  pub fresh_id : Str
  pub read_text : Str → Option Str
  pub repr : Json → Str
  pub quote : Str → Str

-- `payload[key]`
unfoldable pub field_of : Str → Fields → Outcome Json
field_of key payload = elim (get key payload) [ some v ↦ ok v | none ↦ crashed ]

abbrev pub as_dict : Json → Outcome Fields
as_dict (obj fields) = ok fields
as_dict _ = crashed

abbrev pub unless : {S : Type 0} → Bool → M S (Unit {0}) → M S (Unit {0})
unless skipped m = elim skipped [ true ↦ pure tt | false ↦ m ]

abbrev pub print_all : {S : Type 0} → List Line → M S (Unit {0})
print_all [] = pure tt
print_all (line ∷ lines) = print line >> print_all lines
