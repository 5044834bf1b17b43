-- ===== src/Registry/Routes.antt =====
-- src/a2a_hub/routes_registry.py: the handlers behind `/agents`. A request is its authenticated name,
-- what `json.loads` makes of its body, and its query parameters.
pub mod Refused
pub mod Kept
use a2a_hub.Prelude.{
  ℕ, Bool, true, false, Option, none, some, List, [], ◌∷◌, ◌++◌, map, if◌then◌else◌,
}
use a2a_hub.Prelude.Int.{ℤ, pos, lt_int}
use a2a_hub.Prelude.Number.{parse_int}
use a2a_hub.Prelude.Text.{Str, codes, ◌==◌}
use a2a_hub.Json.{Json, null, bool, num, str, arr, obj, Fields, array, dict, get}
use a2a_hub.Auth.Refusal.{Response}
use a2a_hub.Marks.Routes.{Loaded, not_json, loaded, reply, refuse}
use a2a_hub.Registry.{
  Row, Register, Declaration, Cleaned, cleaned, bad_role, bad_projects, clean_declaration,
  Suspicion, declare,
}
use a2a_hub.Registry.Changes.{Agent, retire, update_status, list_agents}

abbrev pub texts : List Str → Json
texts ts = arr (array (map str ts))

abbrev pub declaration_fields : Declaration → List (Str × Json)
declaration_fields declaration =
    (codes "role", str declaration.role)
    ∷ (codes "host", str declaration.host)
    ∷ (codes "projects", texts declaration.projects)
    ∷ (codes "status", str declaration.status)
    ∷ []

abbrev pub or_null {ℓ} : {A : Type ℓ} → (A → Json) → Option A → Json
or_null json none = null
or_null json (some a) = json a

-- `iso` prints an instant
abbrev pub agent_json : (ℕ → Str) → Agent → Json
agent_json iso agent = obj (
    dict (
      (codes "identity", str agent.identity)
      ∷ (codes "role", or_null str agent.role)
      ∷ (codes "host", or_null str agent.host)
      ∷ (codes "projects", texts agent.projects)
      ∷ (codes "status", or_null str agent.status)
      ∷ (codes "declared", bool agent.declared)
      ∷ (codes "declared_at", or_null (λ at. str (iso at)) agent.declared_at)
      ∷ (codes "last_seen", or_null (λ at. str (iso at)) agent.last_seen)
      ∷ (codes "last_seen_seconds", or_null num agent.last_seen_seconds)
      ∷ (codes "retired_at", or_null (λ at. str (iso at)) agent.retired_at)
      ∷ []))

-- `repr` is Python's `repr`; `explain` and `say` word a refused declaration and a warning
module _ (repr : Json → Str) (explain : Cleaned → Str) (say : Suspicion → Str) where
  abbrev warning_field : List Suspicion → List (Str × Json)
  warning_field [] = []
  warning_field (w ∷ ws) = (codes "warnings", texts (map say (w ∷ ws))) ∷ []

  -- from the validation on
  unfoldable pub store_declaration : ℕ → Str → Cleaned → Register → Response × Register
  store_declaration now identity (cleaned declaration) register =
      let result = declare now identity declaration register in
      (
        reply 200 (
            obj (
              dict (
                (codes "identity", str identity)
                ∷ (declaration_fields declaration ++ warning_field result.0)))),
        result.1,
      )
  store_declaration now identity refused register =
      (refuse 400 (codes "invalid_declaration") (explain refused), register)

  unfoldable pub register_route : ℕ → Str → Loaded → Register → Response × Register
  register_route now identity (not_json error) register =
      (refuse 400 (codes "invalid_json") error, register)
  register_route now identity (loaded (obj payload)) register =
      store_declaration now identity (clean_declaration repr payload) register
  register_route now identity (loaded _) register =
      (refuse 400 (codes "invalid_body") (codes "expected a JSON object"), register)

-- the reply of `update_status`
abbrev pub status_reply : Str → Option Str → Response
status_reply identity none =
    refuse 409 (codes "not_registered")
      (identity ++ codes " has not introduced itself yet; register first")
status_reply identity (some text) =
    reply 200 (obj (dict ((codes "identity", str identity) ∷ (codes "status", str text) ∷ [])))

abbrev pub no_status : Response
no_status = refuse 400 (codes "invalid_body") (codes "expected {\"status\": ...}")

-- from the payload's `status` on; `none` is a key that is missing
unfoldable pub store_status : (Json → Str) → ℕ → Str → Option Json → Register → Response × Register
store_status repr now identity none register = (no_status, register)
store_status repr now identity (some status) register =
    let result = update_status repr now identity status register in
    (status_reply identity result.0, result.1)

unfoldable pub status_route : (Json → Str) → ℕ → Str → Loaded → Register → Response × Register
status_route repr now identity (not_json error) register =
    (refuse 400 (codes "invalid_json") error, register)
status_route repr now identity (loaded (obj payload)) register =
    store_status repr now identity (get (codes "status") payload) register
status_route repr now identity (loaded _) register = (no_status, register)

abbrev pub retire_reply : Str → Bool → Response
retire_reply identity true =
    reply 200 (obj (dict ((codes "identity", str identity) ∷ (codes "retired", bool true) ∷ [])))
retire_reply identity false =
    refuse 409 (codes "not_registered") (identity ++ codes " is not registered")

unfoldable pub retire_route : ℕ → Str → Register → Response × Register
retire_route now identity register =
    let result = retire now identity register in (retire_reply identity result.0, result.1)

abbrev is_true : Option Str → Bool
is_true none = false
is_true (some s) = s == codes "true"

module _ (quote : Str → Str) (iso : ℕ → Str) (recent_first : List Row → List Row) where
  abbrev agents_reply : ℕ → Bool → Option ℤ → Register → Response
  agents_reply now include_retired quiet_for register = reply 200 (
      obj (
        dict (
          (
            codes "agents",
            arr (
                array (
                  map (agent_json iso)
                    (list_agents recent_first now include_retired quiet_for register))),
          )
          ∷ [])))

  -- from the parsed `quiet_for` on
  abbrev list_quiet : ℕ → Bool → Str → Option ℤ → Register → Response
  list_quiet now include_retired raw none register =
      refuse 400 (codes "invalid_quiet_for")
        (codes "expected an integer number of seconds; got " ++ quote raw)
  list_quiet now include_retired raw (some quiet_for) register =
      if lt_int quiet_for (pos 0)
      then refuse 400 (codes "invalid_quiet_for") (codes "seconds cannot be negative")
      else agents_reply now include_retired (some quiet_for) register

  -- `list_agents` of the routes, which writes nothing
  unfoldable pub list_route : ℕ → (retired quiet_for : Option Str) → Register → Response
  list_route now retired none register = agents_reply now (is_true retired) none register
  list_route now retired (some raw) register =
      list_quiet now (is_true retired) raw (parse_int raw) register
