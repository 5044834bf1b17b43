-- ===== src/Client/Settings.antt =====
-- src/a2a_hub/client.py: `_parse_env_file` and `ClientConfig`. The file's content is `none`
-- where it cannot be read.
use a2a_hub.Prelude.{Bool, not, ◌||◌, Option, none, some, List, [], ◌∷◌, ◌++◌, if◌then◌else◌}
use a2a_hub.Prelude.Text.{Str, codes, ◌==◌, is_empty, strip, starts_with, partition, join}
use a2a_hub.Auth.Identity.{identity_of}
use a2a_hub.Environ.{Env, value_of}
use a2a_hub.Client.Effect.{Outcome, ok, refused}

-- `d[name] = value`
unfoldable pub set_value : Str → Str → Env → Env
set_value name value [] = (name, value) ∷ []
set_value name value ((key, old) ∷ rest) =
    let later = set_value name value rest in
    if key == name then (key, value) ∷ rest else (key, old) ∷ later

-- one line of the file, stripped
unfoldable pub read_line : Str → Env → Env
read_line line values =
    let cut = partition b'=' line in
    if is_empty line || starts_with line (codes "#") || not cut.found
    then values
    else set_value (strip cut.before) (strip cut.after) values

unfoldable pub read_lines : List Str → Env → Env
read_lines [] values = values
read_lines (line ∷ lines) values = read_lines lines (read_line (strip line) values)

-- `_parse_env_file` on the lines of the content
unfoldable pub parse_env_file : Option (List Str) → Env
parse_env_file none = []
parse_env_file (some lines) = read_lines lines []

-- `{**base, **{k: v for k, v in env.items() if v}}`
unfoldable pub merge : Env → Env → Env
merge base [] = base
merge base ((name, value) ∷ env) =
    merge (if is_empty value then base else set_value name value base) env

pub record ClientConfig : Type 0 where
  pub url : Str
  pub agent : Str
  pub token : Str
  pub session : Str
  pub session_from_shared_file : Bool

abbrev pub identity : ClientConfig → Str
identity config = identity_of config.agent config.session

abbrev pub or_blank : Option Str → Str
or_blank none = []
or_blank (some s) = s

abbrev pub required : List Str
required =
    codes "A2A_HUB_URL"
    ∷ codes "A2A_HUB_AGENT"
    ∷ codes "A2A_HUB_TOKEN"
    ∷ codes "A2A_HUB_SESSION"
    ∷ []

-- the names with no value, or an empty one
unfoldable pub missing : Env → List Str → List Str
missing merged [] = []
missing merged (name ∷ names) =
    let later = missing merged names in
    if is_empty (or_blank (value_of name merged)) then name ∷ later else later

-- the outcome of `load`, by the names that are missing; `path` is the file's name
abbrev pub outcome_of : Str → Env → Env → List Str → Outcome ClientConfig
outcome_of path env merged [] = ok (record {
  url = or_blank (value_of (codes "A2A_HUB_URL") merged);
  agent = or_blank (value_of (codes "A2A_HUB_AGENT") merged);
  token = or_blank (value_of (codes "A2A_HUB_TOKEN") merged);
  session = or_blank (value_of (codes "A2A_HUB_SESSION") merged);
  session_from_shared_file = is_empty (strip (or_blank (value_of (codes "A2A_HUB_SESSION") env)));
})
outcome_of path env merged (name ∷ names) = refused (
    codes "missing "
    ++ join (codes ", ") (name ∷ names)
    ++ codes " (set them in the environment or "
    ++ path
    ++ codes ")")

-- the part of `load` behind the merge
unfoldable pub build : Str → Env → Env → Outcome ClientConfig
build path env merged = outcome_of path env merged (missing merged required)

unfoldable pub load : Str → Option (List Str) → Env → Outcome ClientConfig
load path file env = build path env (merge (parse_env_file file) env)
