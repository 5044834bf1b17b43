-- ===== src/Store.antt =====
-- src/a2a_hub/store.py: `HubTaskStore`. The SDK's `DatabaseTaskStore` and the engine below it are
-- the parameter `Sdk`, over the owner that `hub_owner_resolver` gives for the context of the call.
pub mod Listing
pub mod Reading
use a2a_hub.Prelude.{ℕ, Bool, true, false, Option, none, some, List, [], ◌∷◌, ◌++◌, if◌then◌else◌}
use a2a_hub.Prelude.Text.{Str, codes, ◌==◌, is_empty}
use a2a_hub.Json.{Json, str, Fields, get, truth}
use a2a_hub.Auth.Identity.{principal_of}
use a2a_hub.Executor.{CallContext, hub_owner_resolver, struct_to_dict}

pub record Artifact : Type 0 where
  pub parts : List Json
  pub metadata : Option Fields

-- What the hub reads of an SDK task.
pub record Task : Type 0 where
  pub id : Str
  pub artifacts : List Artifact
  pub seconds : ℕ
  pub nanos : ℕ

pub record ListRequest : Type 0 where
  pub page_size : ℕ
  pub page_token : Str
  pub filters : Fields

pub record ListResponse : Type 0 where
  pub tasks : List Task
  pub total_size : ℕ
  pub next_page_token : Str
  pub page_size : ℕ

-- `super().get`, the `select` by id alone, and `super().list`; an owner is what the context of the
-- call resolves to.
pub record Sdk : Type 0 where
  pub fetch : (owner task_id : Str) → Option Task
  pub by_id : (task_id : Str) → Option Task
  pub page : ListRequest → (owner : Str) → ListResponse

-- the value of one artifact's `sender`, if it is a text that is not empty
unfoldable pub sender_in : Option Json → Option Str
sender_in (some (str sender)) = if is_empty sender then none else some sender
sender_in _ = none

-- the loop of `_sender_of`
unfoldable pub sender_of : List Artifact → Option Str
sender_of [] = none
sender_of (artifact ∷ artifacts) =
    elim (sender_in (get (codes "sender") (struct_to_dict artifact.metadata))) [
      | some sender ↦ some sender
      | none ↦ sender_of artifacts
    ]

abbrev pub own_owners : Str → List Str
own_owners identity =
    if identity == principal_of identity
    then identity ∷ []
    else identity ∷ principal_of identity ∷ []

-- `_read_owners`
unfoldable pub read_owners : CallContext → List Str
read_owners context = elim context.owner_override [
  | some (str owner) ↦ if is_empty owner then own_owners context.user_name else owner ∷ []
  | _ ↦ own_owners context.user_name
]

-- `_context_for`
abbrev pub context_for : CallContext → Str → CallContext
context_for context owner = record context { owner_override = some (str owner) }

-- the owner that the SDK resolves in a call for `owner`
abbrev pub resolved : CallContext → Str → Str
resolved context owner = hub_owner_resolver (context_for context owner)

-- `context.state.get(OWNER_OVERRIDE_KEY)` as a condition
abbrev pub is_delivering : CallContext → Bool
is_delivering context = elim context.owner_override [ none ↦ false | some v ↦ truth v ]

-- `_sender_of(task) == context.user.user_name`
abbrev pub is_sent_by : Option Str → Str → Bool
is_sent_by none user = false
is_sent_by (some sender) user = sender == user

module _ (sdk : Sdk) where
  -- the loop of `get_from_mailbox`
  unfoldable pub first_owned : CallContext → Str → List Str → Option Task
  first_owned context task_id [] = none
  first_owned context task_id (owner ∷ owners) = elim (sdk.fetch (resolved context owner) task_id) [
    | some task ↦ some task
    | none ↦ first_owned context task_id owners
  ]

  unfoldable pub get_from_mailbox : Str → CallContext → Option Task
  get_from_mailbox task_id context = first_owned context task_id (read_owners context)

  unfoldable pub get_as_sender : Str → CallContext → Option Task
  get_as_sender task_id context = if is_delivering context then none else elim (sdk.by_id task_id) [
    | none ↦ none
    | some task ↦
        if is_sent_by (sender_of task.artifacts) context.user_name then some task else none
  ]

  -- `get`
  unfoldable pub get_task : Str → CallContext → Option Task
  get_task task_id context = elim (get_from_mailbox task_id context) [
    | some task ↦ some task
    | none ↦ get_as_sender task_id context
  ]
