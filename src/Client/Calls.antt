-- ===== src/Client/Calls.antt =====
-- src/a2a_hub/client.py: `HubClient`. `repr` is Python's `repr` of a list or a dict; the random id of
-- a message is a parameter.
use a2a_hub.Prelude.{ℕ, Bool, Option, none, some, List, [], ◌∷◌, ◌++◌, if◌then◌else◌, map}
use a2a_hub.Prelude.Int.{ℤ, pos}
use a2a_hub.Prelude.Number.{show_int}
use a2a_hub.Prelude.Text.{Str, codes, is_empty, rstrip_char, join}
use a2a_hub.Json.{Json, bool, num, str, arr, obj, Fields, array, dict, get, to_text}
use a2a_hub.Client.Effect.{Outcome, ok, refused, crashed, M, ◌>>=◌, of, Transport}
use a2a_hub.Client.Settings.{ClientConfig}

-- A client: its configuration and its transport.
pub record HubClient (S : Type 0) : Type 0 where
  pub config : ClientConfig
  pub transport : Transport S

abbrev pub headers_of : ClientConfig → List (Str × Str)
headers_of config =
    (codes "Content-Type", codes "application/json")
    ∷ (codes "A2A-Version", codes "1.0")
    ∷ (codes "Authorization", codes "Bearer " ++ config.token)
    ∷ (codes "A2A-Session", config.session)
    ∷ []

module _ {S : Type 0} (repr : Json → Str) (client : HubClient S) where
  -- `self._transport(...)`; every answer of the hub is an object
  unfoldable pub exchange : Str → Option Json → M S Fields
  exchange url body w =
      let answer = client.transport url body (headers_of client.config) w.hub in
      (answered answer.0, record w { hub = answer.1 })
    where
      answered : Option Json → Outcome Fields
      answered (some (obj payload)) = ok payload
      answered _ = crashed

  abbrev rpc_message : Json → Json
  rpc_message (obj error) = elim (get (codes "message") error) [
    | some message ↦ message
    | none ↦ obj error
  ]
  rpc_message error = error

  abbrev rpc_result : Fields → Outcome Json
  rpc_result payload = elim (get (codes "error") payload) [
    | some error ↦ refused (codes "hub error: " ++ to_text repr (rpc_message error))
    | none ↦ elim (get (codes "result") payload) [ some result ↦ ok result | none ↦ crashed ]
  ]

  -- `_rpc`
  unfoldable pub rpc : Str → Fields → M S Json
  rpc method params = do
    payload ← exchange client.config.url (
        some (
          obj (
            dict (
              (codes "jsonrpc", str (codes "2.0"))
              ∷ (codes "id", num (pos 1))
              ∷ (codes "method", str method)
              ∷ (codes "params", obj params)
              ∷ []))))
    of (rpc_result payload)

  abbrev pub http_result : Fields → Outcome Fields
  http_result payload = elim (get (codes "error") payload) [
    | none ↦ ok payload
    | some error ↦ elim (get (codes "detail") payload) [
      | some detail ↦ refused (codes "hub error: " ++ to_text repr detail)
      | none ↦ refused (codes "hub error: " ++ to_text repr error)
    ]
  ]

  -- `_http`
  unfoldable pub http : Str → Option Json → M S Fields
  http path body = do
    payload ← exchange (rstrip_char b'/' client.config.url ++ path) body
    of (http_result payload)

  unfoldable pub introduce : (role host : Str) → List Str → Str → M S Fields
  introduce role host projects status = http (codes "/agents/register") (
      some (
        obj (
          dict (
            (codes "role", str role)
            ∷ (codes "host", str host)
            ∷ (codes "projects", arr (array (map str projects)))
            ∷ (codes "status", str status)
            ∷ []))))

  unfoldable pub set_status : Str → M S Fields
  set_status status =
      http (codes "/agents/status") (some (obj (dict ((codes "status", str status) ∷ []))))

  unfoldable pub retire : M S Fields
  retire = http (codes "/agents/retire") (some (obj (dict [])))

  abbrev quiet_params : Option ℤ → List Str
  quiet_params none = []
  quiet_params (some seconds) = (codes "quiet_for=" ++ show_int seconds) ∷ []

  abbrev query : List Str → Str
  query [] = []
  query (p ∷ ps) = codes "?" ++ join (codes "&") (p ∷ ps)

  unfoldable pub agents : Option ℤ → Bool → M S Fields
  agents quiet_for retired =
      http
        (codes "/agents"
          ++ query (quiet_params quiet_for ++ (if retired then codes "retired=true" ∷ [] else [])))
        none

  unfoldable pub mark : (task_id state detail : Str) → M S Fields
  mark task_id state detail =
      http (codes "/messages/" ++ task_id ++ codes "/mark")
        (some (obj (dict ((codes "state", str state) ∷ (codes "detail", str detail) ∷ []))))

  unfoldable pub mark_of : Str → M S Fields
  mark_of task_id = http (codes "/messages/" ++ task_id ++ codes "/mark") none

  unfoldable pub marks : Bool → M S Fields
  marks sent = http (codes "/messages/marks" ++ (if sent then codes "?sent=true" else [])) none

  abbrev size_param : Option ℕ → List (Str × Json)
  size_param none = []
  size_param (some page_size) = (codes "pageSize", num (pos page_size)) ∷ []

  abbrev token_param : Str → List (Str × Json)
  token_param token = if is_empty token then [] else (codes "pageToken", str token) ∷ []

  unfoldable pub list_tasks : Bool → Option ℕ → Str → M S Json
  list_tasks include_artifacts page_size page_token = rpc (codes "ListTasks") (
      dict (
        (codes "includeArtifacts", bool include_artifacts)
        ∷ (size_param page_size ++ token_param page_token)))

  unfoldable pub get_task : Str → M S Json
  get_task task_id = rpc (codes "GetTask") (dict ((codes "id", str task_id) ∷ []))

  -- `fresh_id` is `os.urandom(8).hex()`
  unfoldable pub send_message : (fresh_id recipient text : Str) → M S Json
  send_message fresh_id recipient text = rpc (codes "SendMessage") (
      dict (
        (
          codes "message",
          obj (
              dict (
                (codes "messageId", str fresh_id)
                ∷ (codes "role", str (codes "ROLE_USER"))
                ∷ (codes "parts", arr (array (obj (dict ((codes "text", str text) ∷ [])) ∷ [])))
                ∷ (codes "metadata", obj (dict ((codes "recipient", str recipient) ∷ [])))
                ∷ [])),
        )
        ∷ []))
