-- ===== src/Hub/Post.antt =====
-- The JSON-RPC calls of src/a2a_hub/app.py: `SendMessage` and `CancelTask` reach the executor of
-- src/a2a_hub/executor.py, and the SDK stores what that emits. Hub and message store run together.
mod Honest
pub mod Genuine
pub mod Authentic
pub mod Read
use a2a_hub.Prelude.{ℕ, ◌≡◌, ◌≤◌, ◌⊎◌, Some, Option, none, some, List, [], ◌∷◌}
use a2a_hub.Prelude.Text.{Str}
use a2a_hub.Json.{str}
use a2a_hub.Auth.Refusal.{Response, Scope}
use a2a_hub.Auth.Bearer.{Outcome, forwarded, bearer_call}
use a2a_hub.Auth.Body.{body_guard}
use a2a_hub.Executor.{Event, artifact, Emitted, RequestContext, Run, execute, cancel}
use a2a_hub.Marks.Routes.{context_of}
use a2a_hub.Store.{Sdk, Task, sender_of}
use a2a_hub.Hub.Visits.{Visit, visit, clock_of}
use a2a_hub.Hub.{App, Hub, new_hub, Request, json_rpc, Services, guard, serve}

-- the calls that reach the executor
pub data Call : Type 0 where
  sending cancelling : RequestContext → Call

abbrev pub task_of : Call → Str
task_of (sending context) = context.task_id
task_of (cancelling context) = context.task_id

-- a run that begins, in a context that `RedactingContextBuilder` built for the caller
abbrev pub begun : Str → Run
begun identity = record { call = context_of identity; queue = []; log = [] }

module _ (services : Services) (app : App) where
  -- what the executor emits
  unfoldable pub emitted : Str → Call → List Emitted
  emitted identity (sending context) =
      (execute (λ s. services.repr (str s)) (some app.known_agents) context (begun identity)).queue
  emitted identity (cancelling context) = (cancel context (begun identity)).queue

  -- what the answers of the two guards leave to the application
  abbrev pub let_in : Option Response → Outcome × Hub → Option Str
  let_in none (forwarded user, hub) = user
  let_in none _ = none
  let_in (some response) _ = none

  -- the caller that the two guards let through to the application
  unfoldable pub caller : ℕ → (Str → Option Str) → Scope → Hub → Option Str
  caller now header scope hub =
      let_in (body_guard app.max_body_bytes app.rpc_url scope)
        (bearer_call (guard services app now) scope header hub)

-- the event carries the stamp of this sender
abbrev pub IsStamp : Str → Event → Type 0
IsStamp sender (artifact parts from recipient message_id) = from ≡ sender
IsStamp sender _ = ⊥

-- The SDK's message store over states of its own. `saves` relates the states before and after a call
-- of a caller on a task, with what was emitted: it may keep all of that or, when it fails, a part.
pub record MessageStore (S : Type 0) : Type 1 where
  pub empty : S
  pub view : S → Sdk
  pub saves : S → (identity task_id : Str) → List Emitted → S → Type 0

-- What is relied on: a new store holds nothing; the task that an id alone finds lies in a mailbox; a task that lies in a mailbox after a call lay there
-- before, or was saved for the caller or under the owner in force at an event; and the stamp of a
-- sender on it was on the task of that id before, or was emitted by the call.
pub record IsFaithful {S : Type 0} (store : MessageStore S) : Type 0 where
  pub nothing : (owner task_id : Str) → (store.view store.empty).fetch owner task_id ≡ none
  pub found :
      (s : S) (task_id : Str) (task : Task)
      → (store.view s).by_id task_id ≡ some task
      → (owner : Str) × ((store.view s).fetch owner task_id ≡ some task)
  pub owned :
      (s s' : S) (identity saved : Str) (queue : List Emitted) (owner task_id : Str) (task : Task)
      → store.saves s identity saved queue s'
      → (store.view s').fetch owner task_id ≡ some task
      → ((t : Task) × ((store.view s).fetch owner task_id ≡ some t))
        ⊎ (owner ≡ identity)
        ⊎ Some (λ e. e.owner ≡ owner) queue
  pub stamped :
      (s s' : S) (identity saved : Str) (queue : List Emitted) (owner task_id : Str) (task : Task)
      (sender : Str)
      → store.saves s identity saved queue s'
      → (store.view s').fetch owner task_id ≡ some task
      → sender_of task.artifacts ≡ some sender
      → ((before : Str) × (t : Task) × ((store.view s).fetch before task_id ≡ some t)
          × (sender_of t.artifacts ≡ some sender))
        ⊎ Some (λ e. IsStamp sender e.event) queue

-- The requests so far, the latest first, the hub and the message store after them, from a new
-- database. A request leaves the store alone, or is a call of a caller that reaches the executor.
pub data Running {S : Type 0} (services : Services) (app : App) (store : MessageStore S)
    : List Visit → Hub → S → Type 0 where
  start : Running services app store [] new_hub store.empty
  then_serve :
      {history : List Visit} {hub : Hub} {s : S}
      → Running services app store history hub s
      → (now : ℕ) → clock_of history ≤ now
      → (header : Str → Option Str) (scope : Scope) (request : Request)
      → Running services app store
          (visit now header scope request (store.view s) ∷ history)
          (serve services (store.view s) app now header scope request hub).1
          s
  then_call :
      {history : List Visit} {hub : Hub} {s : S}
      → Running services app store history hub s
      → (now : ℕ) → clock_of history ≤ now
      → (header : Str → Option Str) (scope : Scope) (identity : Str)
      → caller services app now header scope hub ≡ some identity
      → (call : Call) (s' : S)
      → store.saves s identity (task_of call) (emitted services app identity call) s'
      → Running services app store
          (visit now header scope json_rpc (store.view s) ∷ history)
          (serve services (store.view s) app now header scope json_rpc hub).1
          s'
