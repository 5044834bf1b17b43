-- ===== src/Executor.antt =====
-- src/a2a_hub/executor.py: the mailbox executor. A protobuf `Struct` is the dict that
-- `MessageToDict` returns for it. What the SDK's `TaskUpdater` and event queue are handed is
-- recorded in order, each event beside the owner that `hub_owner_resolver` gives at that moment.
pub mod Delivery
use a2a_hub.Prelude.{
  ℕ, Bool, true, false, not, Option, none, some, List, [], ◌∷◌, ◌++◌, if◌then◌else◌,
}
use a2a_hub.Prelude.Text.{Str, codes, is_empty, strip}
use a2a_hub.Json.{Json, str, Fields, end, get}
use a2a_hub.Auth.Identity.{is_valid_identity}

pub record Message : Type 0 where
  pub message_id : Str
  pub parts : List Json
  pub metadata : Option Fields

-- `ServerCallContext`: the authenticated user, and the state's value under `owner_override`.
pub record CallContext : Type 0 where
  pub user_name : Str
  pub owner_override : Option Json

pub record RequestContext : Type 0 where
  pub task_id : Str
  pub context_id : Str
  pub message : Option Message
  pub metadata : Option Fields
  pub has_current_task : Bool

pub data TaskState : Type 0 where
  submitted completed rejected canceled : TaskState

pub data Event : Type 0 where
  new_task : (task_id context_id : Str) → Event
  artifact : (parts : List Json) (sender recipient source_message_id : Str) → Event
  status : TaskState → (notice : Str) → Event

pub data Warning : Type 0 where
  no_message no_recipient : (sender : Str) → Warning
  unknown_recipient : (recipient sender : Str) → Warning

pub record Emitted : Type 0 where
  pub owner : Str
  pub event : Event

-- The call's context, which the executor writes to, the events and the log.
pub record Run : Type 0 where
  pub call : CallContext
  pub queue : List Emitted
  pub log : List Warning

unfoldable pub hub_owner_resolver : CallContext → Str
hub_owner_resolver context = elim context.owner_override [
  | some (str owner) ↦ if is_empty owner then context.user_name else owner
  | _ ↦ context.user_name
]

unfoldable pub struct_to_dict : Option Fields → Fields
struct_to_dict none = end
struct_to_dict (some fields) = fields

-- one source's value, if it is a text that is not blank
unfoldable pub recipient_in : Option Json → Option Str
recipient_in (some (str value)) = if is_empty (strip value) then none else some (strip value)
recipient_in _ = none

unfoldable pub first_recipient : List Fields → Option Str
first_recipient [] = none
first_recipient (meta ∷ sources) = elim (recipient_in (get (codes "recipient") meta)) [
  | some value ↦ some value
  | none ↦ first_recipient sources
]

abbrev pub sources : RequestContext → List Fields
sources context = elim context.message [
  | none ↦ struct_to_dict context.metadata ∷ []
  | some message ↦ struct_to_dict message.metadata ∷ struct_to_dict context.metadata ∷ []
]

unfoldable pub extract_recipient : RequestContext → Option Str
extract_recipient context = first_recipient (sources context)

abbrev pub enqueue : Event → Run → Run
enqueue event run = record run {
  queue = run.queue ++ (record { owner = hub_owner_resolver run.call; event = event }) ∷ [];
}

abbrev pub warn : Warning → Run → Run
warn warning run = record run { log = run.log ++ warning ∷ [] }

unfoldable pub ensure_task : RequestContext → Run → Run
ensure_task context run =
    if context.has_current_task
    then run
    else enqueue (new_task context.task_id context.context_id) run

-- `repr` is Python's `repr` of a text
module _ (repr : Str → Str) (known_agents : Option (List Str)) where
  -- from the test of the recipient on, the task being ensured
  unfoldable pub route : Message → Option Str → Run → Run
  route message none run =
      enqueue (status rejected (codes "missing 'recipient' metadata with the recipient agent"))
        (warn (no_recipient run.call.user_name) run)
  route message (some recipient) run =
      let sender = run.call.user_name in
      if not (is_valid_identity recipient known_agents)
      then enqueue (status rejected (codes "unknown recipient: " ++ repr recipient))
          (warn (unknown_recipient recipient sender) run)
      else enqueue (status completed (codes "delivered to " ++ recipient)) (
          enqueue (artifact message.parts sender recipient message.message_id) (record run {
            call = record { user_name = sender; owner_override = some (str recipient) };
          }))

  -- from the test of the message on
  unfoldable pub process : Option Str → Option Message → Run → Run
  process recipient none run =
      enqueue (status rejected (codes "no message to deliver"))
        (warn (no_message run.call.user_name) run)
  process recipient (some message) run = route message recipient run

  unfoldable pub execute : RequestContext → Run → Run
  execute context run =
      process (extract_recipient context) context.message (ensure_task context run)

unfoldable pub cancel : RequestContext → Run → Run
cancel context run = enqueue (status canceled (codes "canceled")) run
