-- ===== src/Environ.antt =====
-- An environment of the process, `dict[str, str]`, as an association list with each name once.
use a2a_hub.Prelude.{Option, none, some, List, [], ◌∷◌, if◌then◌else◌}
use a2a_hub.Prelude.Text.{Str, ◌==◌}

abbrev pub Env : Type 0
Env = List (Str × Str)

-- `d.get(name)`
unfoldable pub value_of : Str → Env → Option Str
value_of name [] = none
value_of name ((key, value) ∷ rest) = if key == name then some value else value_of name rest

-- `d.get(name, default)`
abbrev pub or_default : Str → Option Str → Str
or_default default none = default
or_default default (some value) = value
