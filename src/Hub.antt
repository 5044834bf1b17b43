-- ===== src/Hub.antt =====
-- src/a2a_hub/app.py: `create_app`, with the route tables at the end of src/a2a_hub/routes_registry.py
-- and src/a2a_hub/routes_marks.py. The state is the database's two tables and the register's cache;
-- the message store is what the SDK makes of it, an argument of each request.
pub mod Guarded
pub mod Visits
pub mod Earned
pub mod Sound
pub mod Startup
pub mod Arrival
pub mod Addressable
pub mod Post
pub mod Lifespan
use a2a_hub.Prelude.{ℕ, Bool, true, false, Option, none, some, List, [], ◌∷◌, ◌++◌, if◌then◌else◌}
use a2a_hub.Prelude.Int.{ℤ}
use a2a_hub.Prelude.Text.{Str, codes}
use a2a_hub.Json.{Json, str, obj, dict}
use a2a_hub.Auth.Tokens.{TokenTable}
use a2a_hub.Auth.Refusal.{Response, Scope}
use a2a_hub.Auth.Bearer.{Outcome, forwarded, replied, raised, or_empty, Guard, bearer_call}
use a2a_hub.Auth.Body.{body_guard}
use a2a_hub.Store.{Sdk}
use a2a_hub.Marks.{CleanResult, Orders}
use a2a_hub.Marks.Routes.{Loaded, reply, set_mark_route, get_mark_route, list_marks_route}
use a2a_hub.Registry.{Register, Cleaned, Suspicion, touch, is_fresh, written_at}
use a2a_hub.Registry.Routes.{register_route, status_route, retire_route, list_route}
use a2a_hub.Extensions.{echoing}

-- What `create_app` hands to the parts it builds.
pub record App : Type 0 where
  pub tokens : TokenTable
  pub rpc_url : Str
  pub max_body_bytes : ℤ
  pub known_agents : List Str

-- `settings.tokens.values()`
unfoldable pub agents_of : TokenTable → List Str
agents_of [] = []
agents_of ((token, agent) ∷ rest) = agent ∷ agents_of rest

-- `none` is the `RuntimeError` of an empty token table
unfoldable pub create_app : TokenTable → Str → ℤ → Option App
create_app [] rpc_url max_body_bytes = none
create_app (entry ∷ tokens) rpc_url max_body_bytes = some (record {
  tokens = entry ∷ tokens;
  rpc_url = rpc_url;
  max_body_bytes = max_body_bytes;
  known_agents = agents_of (entry ∷ tokens);
})

pub record Hub : Type 0 where
  pub register : Register
  pub marks : List a2a_hub.Marks.Row

-- the state of a new database
abbrev pub new_hub : Hub
new_hub = record { register = record { rows = []; last_write = [] }; marks = [] }

-- the routes that read a body
pub data Posted : Type 0 where
  a_declaration a_status : Posted
  a_mark : (task_id : Str) → Posted

-- The routes, each with what its handler reads of the request. A body that does not decode raises
-- `UnicodeDecodeError`, which no handler catches.
pub data Request : Type 0 where
  healthz agent_card json_rpc retirement : Request
  declaration_of status_change : Loaded → Request
  agent_list : (retired quiet_for : Option Str) → Request
  mark_list : (sent : Option Str) → Request
  mark_set : (task_id : Str) → Loaded → Request
  mark_get : (task_id : Str) → Request
  undecodable : Posted → Request

abbrev mark_path : Str → Str
mark_path task_id = codes "/messages/" ++ task_id ++ codes "/mark"

abbrev posted_path : Posted → Str
posted_path a_declaration = codes "/agents/register"
posted_path a_status = codes "/agents/status"
posted_path (a_mark task_id) = mark_path task_id

-- the path of a route
unfoldable pub path_of : App → Request → Str
path_of app healthz = codes "/healthz"
path_of app agent_card = codes "/.well-known/agent-card.json"
path_of app json_rpc = app.rpc_url
path_of app retirement = codes "/agents/retire"
path_of app (declaration_of body) = posted_path a_declaration
path_of app (status_change body) = posted_path a_status
path_of app (agent_list retired quiet_for) = codes "/agents"
path_of app (mark_list sent) = codes "/messages/marks"
path_of app (mark_set task_id body) = posted_path (a_mark task_id)
path_of app (mark_get task_id) = mark_path task_id
path_of app (undecodable route) = posted_path route

-- What the handlers use of Python, the database and the wording of refusals; `touch_raises` is
-- whether the database refuses the stamp of presence at an instant.
pub record Services : Type 0 where
  pub repr : Json → Str
  pub quote : Str → Str
  pub iso : ℕ → Str
  pub explain_declaration : Cleaned → Str
  pub say : Suspicion → Str
  pub explain_mark : CleanResult → Str
  pub orders : Orders
  pub recent_first : List a2a_hub.Registry.Row → List a2a_hub.Registry.Row
  pub touch_raises : ℕ → Bool

-- the answer, or what the SDK or Starlette makes of the request, or an exception
pub data Reply : Type 0 where
  answered : Response → Reply
  passed_on : Reply
  failed : Reply

abbrev pub registry_extension_uri : Str
registry_extension_uri = codes "https://github.com/TLmaK0/a2a-hub/ext/agent-registry/v1"

abbrev pub marks_extension_uri : Str
marks_extension_uri = codes "https://github.com/TLmaK0/a2a-hub/ext/message-marks/v1"

-- `touch` with the database that may refuse it: it then raises before the row and the cache are
-- written, and it does not come to the database while the cache is fresh
unfoldable pub try_touch : (ℕ → Bool) → ℕ → Str → Register → Bool × Register
try_touch refuses now identity register =
    if is_fresh now (written_at identity register.last_write)
    then (false, register)
    else if refuses now
    then (true, register)
    else (false, touch now identity register)

abbrev with_stamp : Hub → Bool × Register → Bool × Hub
with_stamp hub (raises, register') = (raises, record hub { register = register' })

-- the bearer guard, with the register as what it stamps
abbrev pub guard : Services → App → ℕ → Guard Hub
guard services app now = record {
  tokens = app.tokens;
  rpc_path = app.rpc_url;
  seen =
      some (λ identity hub.
        with_stamp hub (try_touch services.touch_raises now identity hub.register));
}

module _ (services : Services) (sdk : Sdk) (app : App) (now : ℕ) (header : Str → Option Str) where
  -- a handler behind `echoing`
  abbrev answer : Str → Response → Reply
  answer uri response =
      answered (echoing (uri ∷ []) (or_empty (header (codes "a2a-extensions"))) response)

  abbrev with_register : Hub → Response × Register → Reply × Hub
  with_register hub (response, register') =
      (answer registry_extension_uri response, record hub { register = register' })

  abbrev with_marks : Hub → Response × List a2a_hub.Marks.Row → Reply × Hub
  with_marks hub (response, marks') =
      (answer marks_extension_uri response, record hub { marks = marks' })

  abbrev health : Reply
  health = answered (reply 200 (obj (dict ((codes "status", str (codes "ok")) ∷ []))))

  -- the handler of a route, for an authenticated caller
  unfoldable pub handle : Str → Request → Hub → Reply × Hub
  handle identity healthz hub = (health, hub)
  handle identity agent_card hub = (passed_on, hub)
  handle identity json_rpc hub = (passed_on, hub)
  handle identity retirement hub = with_register hub (retire_route now identity hub.register)
  handle identity (declaration_of body) hub = with_register hub (
      register_route services.repr services.explain_declaration services.say now identity body
        hub.register)
  handle identity (status_change body) hub =
      with_register hub (status_route services.repr now identity body hub.register)
  handle identity (agent_list retired quiet_for) hub = (
    answer registry_extension_uri (
        list_route services.quote services.iso services.recent_first now retired quiet_for
          hub.register),
    hub,
  )
  handle identity (mark_list sent) hub = (
    answer marks_extension_uri (
        list_marks_route sdk services.repr services.iso services.explain_mark services.orders sent
          identity hub.marks),
    hub,
  )
  handle identity (mark_set task_id body) hub = with_marks hub (
      set_mark_route sdk services.repr services.iso services.explain_mark now task_id identity body
        hub.marks)
  handle identity (mark_get task_id) hub = (
    answer marks_extension_uri (
        get_mark_route sdk services.repr services.iso services.explain_mark services.orders task_id
          identity hub.marks),
    hub,
  )
  handle identity (undecodable route) hub = (failed, hub)

  -- what the guard lets through without a caller: an open path, or a scope that is no HTTP request,
  -- which Starlette hands to none of these handlers
  unfoldable pub handle_public : Request → Hub → Reply × Hub
  handle_public healthz hub = (health, hub)
  handle_public _ hub = (passed_on, hub)

  abbrev pub behind_guard : Request → Outcome × Hub → Reply × Hub
  behind_guard request (forwarded (some identity), hub) = handle identity request hub
  behind_guard request (forwarded none, hub) = handle_public request hub
  behind_guard request (replied response, hub) = (answered response, hub)
  behind_guard request (raised, hub) = (failed, hub)

  abbrev pub behind_body : Request → Scope → Hub → Option Response → Reply × Hub
  behind_body request scope hub (some response) = (answered response, hub)
  behind_body request scope hub none =
      behind_guard request (bearer_call (guard services app now) scope header hub)

  -- one request, through the two guards to its handler
  unfoldable pub serve : Scope → Request → Hub → Reply × Hub
  serve scope request hub =
      behind_body request scope hub (body_guard app.max_body_bytes app.rpc_url scope)
